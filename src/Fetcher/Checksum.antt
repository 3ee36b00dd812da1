-- ===== src/Fetcher/Checksum.antt =====
-- rsync-fetcher/src/rsync/checksum.rs: block sizes, the sum header, the rolling checksum and the
-- sums of a basis file. MD4 is a parameter: the crate `md4`, and a way to hash several blocks at
-- once, which rsync/checksum/md4_simd implements.
pub mod Sizes
pub mod Rolling
pub mod Payload
use rsync_sjtug.Prelude.{
  ℕ, zero, suc, ◌+◌, ◌-◌, ◌*◌, ◌/◌, ◌%◌, Bool, true, false, ◌&&◌, not, Option, none, some, List, [],
  ◌∷◌, ◌++◌, map, Bytes, Result, ok, fault, ◌>>=◌, ◌>>◌, assert, ltb, leb, if◌then◌else◌, add32,
  sub32, mul32, u32_mod, u64_mod, i32_min, to_le_bytes, length, take, drop, min,
}
use rsync_sjtug.Fetcher.Stream.{Error, Read, read_i32_le}

-- The fields are `i32`s, held as bit patterns.
pub record SumHead : Type 0 where
  pub checksum_count : ℕ
  pub block_len : ℕ
  pub checksum_len : ℕ
  pub remainder_len : ℕ

abbrev pub block_size : ℕ
block_size = 700

abbrev pub max_block_size : ℕ
max_block_size = 536870912

abbrev pub clamp : ℕ → ℕ → ℕ → ℕ
clamp x lo hi = if ltb x lo then lo else if ltb hi x then hi else x

-- `i32::try_from(n).expect("overflow")`
abbrev pub i32_try_from : ℕ → Result Error ℕ
i32_try_from n = if ltb n i32_min then ok n else fault

-- `sqrt` is the integer square root of the crate `num`. `(b + 7) & !7` drops the remainder by 8.
unfoldable pub block_len_of : (ℕ → ℕ) → ℕ → ℕ
block_len_of sqrt len =
    if leb len (block_size * block_size)
    then block_size
    else clamp ((sqrt len + 7) / 8 * 8) block_size max_block_size

unfoldable pub sums_of : ℕ → ℕ → Result Error SumHead
sums_of len b = do
  count ← i32_try_from ((len + b - 1) % u64_mod / b)
  block_len ← i32_try_from b
  remainder ← i32_try_from (len % b)
  ok (record {
    checksum_count = count;
    block_len = block_len;
    checksum_len = 16;
    remainder_len = remainder;
  })

unfoldable pub sum_sizes_sqroot : (ℕ → ℕ) → ℕ → Result Error SumHead
unfolding sums_of
sum_sizes_sqroot sqrt len = sums_of len (block_len_of sqrt len)

unfoldable pub read_from : Read SumHead
read_from s = do
  (count, s1) ← read_i32_le s
  (block_len, s2) ← read_i32_le s1
  (checksum_len, s3) ← read_i32_le s2
  (remainder, s4) ← read_i32_le s3
  ok (
    record {
      checksum_count = count;
      block_len = block_len;
      checksum_len = checksum_len;
      remainder_len = remainder;
    },
    s4,
  )

-- The bytes that `write_to` sends.
unfoldable pub write_to : SumHead → Bytes
write_to h =
    to_le_bytes 4 h.checksum_count
    ++ (to_le_bytes 4 h.block_len
        ++ (to_le_bytes 4 h.checksum_len ++ to_le_bytes 4 h.remainder_len))

-- `x as i8 as u32`
abbrev pub sign_extend : ℕ → ℕ
sign_extend x = if ltb x 128 then x else x + (u32_mod - 256)

-- The loop over `buf.iter().enumerate()`.
unfoldable pub checksum_1_loop : ℕ → ℕ → ℕ → ℕ → Bytes → ℕ × ℕ
checksum_1_loop len idx s1 s2 [] = (s1, s2)
checksum_1_loop len idx s1 s2 (x ∷ buf) =
    let b = sign_extend x in
    checksum_1_loop len (idx + 1) (add32 s1 b) (add32 s2 (mul32 b (sub32 len (idx % u32_mod)))) buf

-- `(s1 & 0xffff) + (s2 << 16)`
abbrev pub combine : ℕ × ℕ → ℕ
combine (s1, s2) = s1 % 65536 + s2 * 65536 % u32_mod

unfoldable pub checksum_1 : Bytes → Result Error ℕ
checksum_1 buf = do
  assert (ltb (length buf) u32_mod)
  ok (combine (checksum_1_loop (length buf) 0 0 0 buf))

-- The hash functions: of one message, and of as many equally long messages as there are lanes.
pub record Simd : Type 0 where
  pub lanes : ℕ
  pub md4 : List Bytes → List Bytes

-- A file is what is left to read of it; a read that fails is a panic.
unfoldable pub read_file : ℕ → Bytes → Result Error (Bytes × Bytes)
read_file n file = if ltb (length file) n then fault else ok (take n file, drop n file)

unfoldable pub checksum_2 : (Bytes → Bytes) → ℕ → Bytes → Bytes
checksum_2 md4 seed buf = md4 (buf ++ to_le_bytes 4 seed)

-- The loop `for _ in 0..block_remaining`.
unfoldable pub payload_blocks : (Bytes → Bytes) → ℕ → ℕ → ℕ → Bytes → ℕ → Bytes → Result Error Bytes
payload_blocks md4 zero block_len seed file file_remaining buf_sum = ok buf_sum
payload_blocks md4 (suc n) block_len seed file file_remaining buf_sum = do
  let n1 = min block_len file_remaining
  (buf, file') ← read_file n1 file
  sum1 ← checksum_1 buf
  payload_blocks md4 n block_len seed file' (file_remaining - n1)
      (buf_sum ++ (to_le_bytes 4 sum1 ++ checksum_2 md4 seed buf))

-- One full block for each lane, with the seed behind it.
unfoldable pub read_lanes : ℕ → ℕ → ℕ → Bytes → Result Error (List Bytes × Bytes)
read_lanes zero n1 seed file = ok ([], file)
read_lanes (suc k) n1 seed file = do
  (buf, file') ← read_file n1 file
  (datas, file'') ← read_lanes k n1 seed file'
  ok ((buf ++ to_le_bytes 4 seed) ∷ datas, file'')

-- The sums of the lanes, in order; the seed is cut off again for the fast one.
unfoldable pub extend_lanes : List Bytes → List Bytes → Bytes → Result Error Bytes
extend_lanes [] hashes buf_sum = ok buf_sum
extend_lanes (d ∷ datas) [] buf_sum = fault
extend_lanes (d ∷ datas) (h ∷ hashes) buf_sum = do
  sum1 ← checksum_1 (take (length d - 4) d)
  extend_lanes datas hashes (buf_sum ++ (to_le_bytes 4 sum1 ++ h))

-- What the loops carry: the file, `file_remaining`, `block_remaining` and `buf_sum`.
pub record Progress : Type 0 where
  pub file : Bytes
  pub file_remaining : ℕ
  pub block_remaining : ℕ
  pub buf_sum : Bytes

-- The loop `while block_remaining >= lanes`; a round uses up a block at least, so as many rounds as
-- there are blocks are enough.
unfoldable pub simd_loop : ℕ → Simd → ℕ → ℕ → Progress → Result Error Progress
simd_loop zero simd block_len seed p = ok p
simd_loop (suc fuel) simd block_len seed p =
    elim (leb simd.lanes p.block_remaining && not (ltb p.file_remaining (block_len * simd.lanes))) [
      | true ↦ do
        (datas, file') ← read_lanes simd.lanes block_len seed p.file
        buf_sum' ← extend_lanes datas (simd.md4 datas) p.buf_sum
        simd_loop fuel simd block_len seed (record {
          file = file';
          file_remaining = p.file_remaining - block_len * simd.lanes;
          block_remaining = p.block_remaining - simd.lanes;
          buf_sum = buf_sum';
        })
      | false ↦ ok p
    ]

-- `checksum_payload_`; the last argument but two is `Md4xN::select()`, or `none` for the basic run.
unfoldable pub checksum_payload :
    (Bytes → Bytes) → Option Simd → SumHead → ℕ → Bytes → ℕ → Result Error Bytes
checksum_payload md4 none head seed file file_len =
    payload_blocks md4 head.checksum_count head.block_len seed file file_len []
checksum_payload md4 (some simd) head seed file file_len = do
  p ← simd_loop head.checksum_count simd head.block_len seed (record {
    file = file;
    file_remaining = file_len;
    block_remaining = head.checksum_count;
    buf_sum = [];
  })
  payload_blocks md4 p.block_remaining head.block_len seed p.file p.file_remaining p.buf_sum
