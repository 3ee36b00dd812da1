-- ===== src/Fetcher/Stream.antt =====
-- Reads from a byte stream: tokio's `read_exact`, `read_u8`, `read_i32_le`, and `read_rsync_long` of
-- rsync-fetcher/src/rsync/envelope.rs. The state is what the peer has still to send. A signed word
-- is held as its bit pattern.
use rsync_sjtug.Prelude.{
  ℕ, ◌+◌, ◌-◌, ◌≡◌, [], ◌∷◌, ◌++◌, Bytes, IsU32, IsU64, Result, ok, err, fault, ◌>>=◌, length, take,
  drop, ltb, ◌==◌, if◌then◌else◌, from_le_bytes, to_le_bytes, i32_min, length-to_le_bytes,
  from_le_bytes-u32, from_le_bytes-u64, take-append, drop-append, length-append, arith, u32_mod,
  u64_mod,
}

pub data Error : Type 0 where
  eof : Error
  path_too_long : Error
  checksum_mismatch : Error
  io_task_panic : Error
  server_error : ℕ → Error
  header_abort : Error

-- A read returns its value and leaves the rest of the stream.
abbrev pub Read : Type 0 → Type 0
Read A = Bytes → Result Error (A × Bytes)

abbrev pub return : {A : Type 0} → A → Read A
return a s = ok (a, s)

abbrev pub raise : {A : Type 0} → Error → Read A
raise e s = err e

abbrev pub panic : {A : Type 0} → Read A
panic s = fault

infixl 5 ◌>>=ᴿ◌
abbrev pub ◌>>=ᴿ◌ : {A B : Type 0} → Read A → (A → Read B) → Read B
◌>>=ᴿ◌ m f s = m s >>= λ p. f p.0 p.1

-- `read_exact` into a buffer of `n` bytes.
unfoldable pub read_exact : ℕ → Read Bytes
read_exact n s = if ltb (length s) n then err eof else ok (take n s, drop n s)

unfoldable pub read_u8 : Read ℕ
read_u8 [] = err eof
read_u8 (b ∷ s) = ok (b, s)

unfoldable pub read_u32_le : Read ℕ
read_u32_le s = read_exact 4 s >>= λ p. ok (from_le_bytes p.0, p.1)

unfoldable pub read_i32_le : Read ℕ
read_i32_le s = read_exact 4 s >>= λ p. ok (from_le_bytes p.0, p.1)

unfoldable pub read_i64_le : Read ℕ
read_i64_le s = read_exact 8 s >>= λ p. ok (from_le_bytes p.0, p.1)

-- The bit pattern of -1.
abbrev pub minus_one : ℕ
minus_one = 4294967295

-- `i64::from` of an `i32`.
abbrev pub i64_from : ℕ → ℕ
i64_from v = if ltb v i32_min then v else v + (u64_mod - u32_mod)

unfoldable pub read_rsync_long : Read ℕ
read_rsync_long s = do
  (v, s') ← read_i32_le s
  if v == minus_one then read_i64_le s' else ok (i64_from v, s')

pub read_exact-append : (bs rest : Bytes) → read_exact (length bs) (bs ++ rest) ≡ ok (bs, rest)
unfolding read_exact
read_exact-append bs rest =
    ground (arith, length-append bs rest, take-append bs rest, drop-append bs rest)

pub read_exact-of :
    (n : ℕ) (bs rest : Bytes) → length bs ≡ n → read_exact n (bs ++ rest) ≡ ok (bs, rest)
read_exact-of n bs rest h = cc (read_exact-append bs rest, h)

pub read_i32_le-of :
    (n : ℕ) (rest : Bytes) → IsU32 n → read_i32_le (to_le_bytes 4 n ++ rest) ≡ ok (n, rest)
unfolding read_i32_le
read_i32_le-of n rest h =
    rw (read_exact-of 4 (to_le_bytes 4 n) rest (length-to_le_bytes 4 n), from_le_bytes-u32 n h)

pub read_u32_le-of :
    (n : ℕ) (rest : Bytes) → IsU32 n → read_u32_le (to_le_bytes 4 n ++ rest) ≡ ok (n, rest)
unfolding read_u32_le
read_u32_le-of n rest h =
    rw (read_exact-of 4 (to_le_bytes 4 n) rest (length-to_le_bytes 4 n), from_le_bytes-u32 n h)

pub read_i64_le-of :
    (n : ℕ) (rest : Bytes) → IsU64 n → read_i64_le (to_le_bytes 8 n ++ rest) ≡ ok (n, rest)
unfolding read_i64_le
read_i64_le-of n rest h =
    rw (read_exact-of 8 (to_le_bytes 8 n) rest (length-to_le_bytes 8 n), from_le_bytes-u64 n h)
