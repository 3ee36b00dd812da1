-- ===== src/Fetcher/Checksum/Sizes.antt =====
-- The sizes of the blocks, and the sum header on the wire.
use rsync_sjtug.Prelude.{
  ℕ, ◌+◌, ◌-◌, ◌*◌, ◌/◌, ◌%◌, ◌^◌, ◌≤◌, ◌<◌, ◌≡◌, ap, ◌++◌, Bytes, ok, IsU32, arith, append_assoc,
  ltb, Bool-cases, inl, inr, ◌⊎◌, i32_min, lt→ltb, ltb→lt, ltb→le,
}
use native.Mathlib.Nat.{div-add-mod', div-mul-le_self, mod-lt, mod-eq_of_lt}
use rsync_sjtug.Fetcher.Stream.{read_i32_le-of}
use rsync_sjtug.Fetcher.Checksum.{
  SumHead, sum_sizes_sqroot, sums_of, block_len_of, block_size, max_block_size, read_from, write_to,
  i32_try_from,
}

pub record IsSumHead (h : SumHead) : Type 0 where
  pub count : IsU32 h.checksum_count
  pub block : IsU32 h.block_len
  pub sum : IsU32 h.checksum_len
  pub remainder : IsU32 h.remainder_len

-- A header whose fields are 32-bit words is read back as it was written, and what follows it on the
-- stream is left.
pub read_from-write_to :
    (h : SumHead) (rest : Bytes) → IsSumHead h → read_from (write_to h ++ rest) ≡ ok (h, rest)
unfolding read_from write_to
read_from-write_to h rest v = rw (
  append_assoc,
  read_i32_le-of h.checksum_count _ v.count,
  append_assoc,
  read_i32_le-of h.block_len _ v.block,
  append_assoc,
  read_i32_le-of h.checksum_len _ v.sum,
  read_i32_le-of h.remainder_len rest v.remainder,
)

-- The integer square root, as the crate documents it.
pub record IsSqrt (sqrt : ℕ → ℕ) : Type 0 where
  pub below : (n : ℕ) → sqrt n * sqrt n ≤ n
  pub above : (n : ℕ) → n < (sqrt n + 1) * (sqrt n + 1)

-- Whatever the root is, a block has between 700 bytes and half a gigabyte.
pub block_len_of_bounds :
    (sqrt : ℕ → ℕ) (len : ℕ)
    → (block_size ≤ block_len_of sqrt len) × (block_len_of sqrt len ≤ max_block_size)
unfolding block_len_of
block_len_of_bounds sqrt len = ground arith

root-lt : (r n k : ℕ) → r * r ≤ n → n < k * k → r < k
root-lt r n k a b = grind arith

square_bound : (r b n : ℕ) → n < (r + 1) * (r + 1) → r ≤ b → n < b * b + 2 * b + 1
square_bound r b n h k = grind arith

-- Division rounded up.
div_unique : (n b q r : ℕ) → r < b → n ≡ q * b + r → n / b ≡ q
div_unique n b q r h e = grind arith

count-lt : (n b c k : ℕ) → 0 < b → c * b ≤ n → n < k * b → c < k
count-lt n b c k hb h hk = grind arith

ceil_exact : (len b : ℕ) → 0 < b → len % b ≡ 0 → (len + b - 1) / b ≡ len / b
ceil_exact len b hb h =
    div_unique (len + b - 1) b (len / b) (b - 1) (omega arith) (omega (arith, div-add-mod' len b))

ceil_rest : (len b : ℕ) → 0 < b → 0 < len % b → (len + b - 1) / b ≡ len / b + 1
ceil_rest len b hb h =
    div_unique (len + b - 1) b (len / b + 1) (len % b - 1) (omega (arith, mod-lt len hb))
      (omega (arith, div-add-mod' len b))

-- How the blocks of a header cover a file: all of them are full, or the last one has the remainder.
abbrev pub Covers : SumHead → ℕ → Type 0
Covers h len =
    ((h.remainder_len ≡ 0) × (h.checksum_count * h.block_len ≡ len))
    ⊎ ((0 < h.remainder_len)
        × (h.remainder_len < h.block_len)
        × (1 ≤ h.checksum_count)
        × ((h.checksum_count - 1) * h.block_len + h.remainder_len ≡ len))

rest_of : (len b : ℕ) → 0 < b → (len % b ≡ 0) ⊎ (0 < len % b)
rest_of len b h = ground arith

head_of : (count b rest : ℕ) → SumHead
head_of count b rest = record {
  checksum_count = count;
  block_len = b;
  checksum_len = 16;
  remainder_len = rest;
}

Covers-ceil : (len b : ℕ) → 0 < b → Covers (head_of ((len + b - 1) / b) b (len % b)) len
unfolding head_of
Covers-ceil len b h = elim (rest_of len b h) [
  | inl e ↦ inl (e, rw (ceil_exact len b h e) (omega (arith, div-add-mod' len b)))
  | inr p ↦ inr (
    p,
    mod-lt len h,
    rw (ceil_rest len b h p) (omega arith),
    rw (ceil_rest len b h p) (omega (arith, div-add-mod' len b, add_sub (len / b))),
  )
]
  where
    add_sub : (q : ℕ) → (q + 1 - 1) * b ≡ q * b
    add_sub q = ap (λ t. t * b) (omega arith)

i32_try_from-lt : (n : ℕ) → n < i32_min → i32_try_from n ≡ ok n
i32_try_from-lt n h = ground arith

module _ (sqrt : ℕ → ℕ) (s : IsSqrt sqrt) (len : ℕ) (h : len < 2 ^ 58) where
  root-le : sqrt len < 536870912
  root-le = root-lt (sqrt len) len 536870912 (s.below len) (omega arith)

  root-le-block : block_size * block_size < len → sqrt len ≤ block_len_of sqrt len
  unfolding block_len_of
  root-le-block big = ground (arith, root-le)

  blocks_fit : (b : ℕ) → 0 < b → b ≤ 536870912 → len < b * b + 2 * b + 1 → len + b - 1 < i32_min * b
  blocks_fit b p q r = grind arith

  fits : (b : ℕ) → 700 ≤ b → b ≤ 536870912 → len ≤ 490000 → len + b - 1 < i32_min * b
  fits b p q r = omega arith

  len_fits : len + block_len_of sqrt len - 1 < i32_min * block_len_of sqrt len
  len_fits =
      let b = block_len_of sqrt len in
      let (lo, hi) = block_len_of_bounds sqrt len in
      elim (Bool-cases (ltb 490000 len)) [
        | inl big ↦
            blocks_fit b (omega arith) hi
              (square_bound (sqrt len) b len (s.above len) (root-le-block (ltb→lt _ _ big)))
        | inr small ↦ fits b lo hi (ltb→le _ _ small)
      ]

  count_fits : (len + block_len_of sqrt len - 1) / block_len_of sqrt len < i32_min
  count_fits =
      let b = block_len_of sqrt len in
      let (lo, hi) = block_len_of_bounds sqrt len in
      count-lt (len + b - 1) b ((len + b - 1) / b) i32_min (omega arith)
        (div-mul-le_self (len + b - 1) b) len_fits

sums_of-ok :
    (len b : ℕ)
    → 0 < b
    → b ≤ 536870912
    → len < 2 ^ 58
    → (len + b - 1) / b < i32_min
    → sums_of len b ≡ ok (head_of ((len + b - 1) / b) b (len % b))
unfolding sums_of head_of
sums_of-ok len b p q h k =
    rw (mod-eq_of_lt {n = len + b - 1} {m = 18446744073709551616} (omega arith)) (
      rw (
        lt→ltb _ _ k,
        lt→ltb b 2147483648 (omega arith),
        lt→ltb (len % b) 2147483648 (omega (arith, mod-lt len p)),
      ))

-- With an integer square root, the sizes of a file of less than 2 ^ 58 bytes fit their fields, and
-- the blocks of the header cover exactly the file.
pub sum_sizes_sqroot-Covers :
    (sqrt : ℕ → ℕ) (len : ℕ)
    → IsSqrt sqrt
    → len < 2 ^ 58
    → (head : SumHead) × (sum_sizes_sqroot sqrt len ≡ ok head) × Covers head len
unfolding sum_sizes_sqroot
sum_sizes_sqroot-Covers sqrt len s h =
    let b = block_len_of sqrt len in
    let (lo, hi) = block_len_of_bounds sqrt len in
    (
      head_of ((len + b - 1) / b) b (len % b),
      sums_of-ok len b (omega arith) hi h (count_fits sqrt s len h),
      Covers-ceil len b (omega arith),
    )
