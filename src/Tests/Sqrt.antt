-- ===== src/Tests/Sqrt.antt =====
-- An integer square root, and the sizes that it gives; rsync-fetcher/src/rsync/checksum.rs.
use rsync_sjtug.Prelude.{
  ℕ, zero, suc, ◌+◌, ◌*◌, ◌≤◌, ◌<◌, ◌≡◌, Bool-cases, inl, inr, leb, leb→le, if◌then◌else◌, ok,
  arith,
}
use rsync_sjtug.Fetcher.Checksum.{SumHead, sum_sizes_sqroot}
use rsync_sjtug.Fetcher.Checksum.Sizes.{IsSqrt, Covers, sum_sizes_sqroot-Covers}

unfoldable isqrt : ℕ → ℕ
isqrt zero = 0
isqrt (suc n) = let r = isqrt n in if leb ((r + 1) * (r + 1)) (suc n) then r + 1 else r

isqrt-below : (n : ℕ) → isqrt n * isqrt n ≤ n
unfolding isqrt
isqrt-below zero = ground arith
isqrt-below (suc n) = elim (Bool-cases (leb ((isqrt n + 1) * (isqrt n + 1)) (suc n))) [
  | inl e ↦ rw e (leb→le _ _ e)
  | inr e ↦ rw e (grind (arith, isqrt-below n))
]

next_square : (r n : ℕ) → n < (r + 1) * (r + 1) → suc n < (r + 1 + 1) * (r + 1 + 1)
next_square r n h = grind arith

isqrt-above : (n : ℕ) → n < (isqrt n + 1) * (isqrt n + 1)
unfolding isqrt
isqrt-above zero = ground arith
isqrt-above (suc n) = elim (Bool-cases (leb ((isqrt n + 1) * (isqrt n + 1)) (suc n))) [
  | inl e ↦ rw e (next_square (isqrt n) n (isqrt-above n))
  | inr e ↦ rw e (ground arith)
]

isqrt-IsSqrt : IsSqrt isqrt
isqrt-IsSqrt = record { below = isqrt-below; above = isqrt-above }

sum_sizes_sqroot-Covers_example :
    (head : SumHead) × (sum_sizes_sqroot isqrt 1000000 ≡ ok head) × Covers head 1000000
sum_sizes_sqroot-Covers_example = sum_sizes_sqroot-Covers isqrt 1000000 isqrt-IsSqrt (omega arith)
