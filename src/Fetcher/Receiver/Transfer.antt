-- ===== src/Fetcher/Receiver/Transfer.antt =====
-- A delta transfer: what the server sends for a file, and that the receiver rebuilds the file.
use rsync_sjtug.Prelude.{
  ℕ, zero, suc, ◌+◌, ◌-◌, ◌*◌, ◌%◌, ◌≤◌, ◌<◌, ◌≡◌, refl, not, ◌&&◌, inl, inr, Option, none, some,
  List, [], ◌∷◌, ◌++◌, map, Bytes, bytes_eq, ok, err, All, length, length-append, length-drop, take,
  drop, to_le_bytes, length-to_le_bytes, u32_mod, u64_mod, i32_min, ◌==◌, if◌then◌else◌, le→ltb,
  arith, sub32, Bool-cases,
}
use native.Mathlib.Nat.{mod-eq_of_lt}
use rsync_sjtug.Fetcher.Stream.{checksum_mismatch, read_exact-of}
use rsync_sjtug.Fetcher.Checksum.{SumHead, write_to}
use rsync_sjtug.Fetcher.Checksum.Sizes.{Covers, read_from-write_to}
use rsync_sjtug.Fetcher.Receiver.{
  FileToken, data_token, copied_token, done_token, IoChunk, data_chunk, copied_chunk, recv_chunks,
  copied_range, max_data_len, read_basis, io_task, recv_data,
}
use rsync_sjtug.Fetcher.Receiver.Tokens.{write_token, IsToken, recv_token-write_token}

-- The file as the server describes it: new bytes, and blocks of the basis.
pub data Piece : Type 0 where
  literal : Bytes → Piece
  block : ℕ → Piece

abbrev pub token_of : Piece → FileToken
token_of (literal bytes) = data_token bytes
token_of (block i) = copied_token i

-- Block `i` of a basis that the header describes: all are full but the last one.
abbrev pub size_of_block : SumHead → ℕ → ℕ
size_of_block h i =
    if i + 1 == h.checksum_count && not (h.remainder_len == 0) then h.remainder_len else h.block_len

abbrev pub meaning : SumHead → Option Bytes → Piece → Bytes
meaning h basis (literal bytes) = bytes
meaning h none (block i) = []
meaning h (some basis) (block i) = take (size_of_block h i) (drop (i * h.block_len) basis)

abbrev pub rebuilt : SumHead → Option Bytes → List Piece → Bytes
rebuilt h basis [] = []
rebuilt h basis (p ∷ ps) = meaning h basis p ++ rebuilt h basis ps

-- The tokens of the pieces, the end of the file, and what follows.
unfoldable pub write_pieces : List Piece → Bytes → Bytes
write_pieces [] rest = write_token done_token ++ rest
write_pieces (p ∷ ps) rest = write_token (token_of p) ++ write_pieces ps rest

-- The fields of a header that `sum_sizes_sqroot` makes, or of the default one, are not negative.
pub record IsHeader (h : SumHead) : Type 0 where
  pub count : h.checksum_count < i32_min
  pub block_len : h.block_len < i32_min
  pub sum : h.checksum_len < i32_min
  pub remainder : h.remainder_len < i32_min

-- New bytes come in chunks of at most 128 KiB; a block is one of the basis.
abbrev pub IsPiece : SumHead → Option Bytes → Piece → Type 0
IsPiece h basis (literal bytes) = (0 < length bytes) × (length bytes ≤ max_data_len)
IsPiece h none (block i) = ⊥
IsPiece h (some basis) (block i) = (i < h.checksum_count) × Covers h (length basis)

abbrev chunk_of : SumHead → Piece → IoChunk
chunk_of h (literal bytes) = data_chunk bytes
chunk_of h (block i) = copied_chunk (i * h.block_len) (size_of_block h i)

product_bound : (i b : ℕ) → i < 2147483648 → b < 2147483648 → i * b < 18446744073709551616
product_bound i b h k = grind arith

copied_range-block :
    (h : SumHead) (i : ℕ)
    → IsHeader h
    → i < h.checksum_count
    → copied_range h i ≡ (i * h.block_len, size_of_block h i)
unfolding copied_range
copied_range-block h i v lt =
    let p = product_bound i h.block_len (omega arith) (omega arith) in
    let m : i * h.block_len % u64_mod ≡ i * h.block_len = mod-eq_of_lt p in
    let e : sub32 h.checksum_count 1 ≡ h.checksum_count - 1 = omega arith in ground (arith, m, e)

full_in_range : (i c b l : ℕ) → i < c → c * b ≡ l → i * b + b ≤ l
full_in_range i c b l h e = grind arith

before_last : (i c b r l : ℕ) → i + 1 < c → (c - 1) * b + r ≡ l → i * b + b ≤ l
before_last i c b r l h e =
    omega (arith, full_in_range i (c - 1) b ((c - 1) * b) (omega arith) refl)

last_eq : (i c : ℕ) → i + 1 ≡ c → c - 1 ≡ i
last_eq i c e = omega arith

-- A block of the header lies inside the file that the header covers.
block_in_range :
    (h : SumHead) (i len : ℕ)
    → i < h.checksum_count
    → Covers h len
    → i * h.block_len + size_of_block h i ≤ len
block_in_range h i len lt (inl (e, full)) =
    ground (arith, full_in_range i h.checksum_count h.block_len len lt full)
block_in_range h i len lt (inr (pos, less, some_block, total)) =
    elim (Bool-cases (i + 1 == h.checksum_count)) [
      | inl last ↦
          let e : i + 1 ≡ h.checksum_count = ground arith in
          let q = rw (last_eq i h.checksum_count e) at total in ground arith
      | inr more ↦ ground (arith, before_last i h.checksum_count h.block_len h.remainder_len len)
    ]

read_basis-block :
    (h : SumHead) (basis : Bytes) (i : ℕ)
    → i < h.checksum_count
    → Covers h (length basis)
    → read_basis (some basis) (i * h.block_len) (size_of_block h i)
      ≡ ok (meaning h (some basis) (block i))
unfolding read_basis
read_basis-block h basis i lt c =
    let fits = block_in_range h i (length basis) lt c in
    rw (
      le→ltb (length (drop (i * h.block_len) basis)) (size_of_block h i)
        (omega (arith, length-drop (i * h.block_len) basis)))

io_task-pieces :
    (h : SumHead) (basis : Option Bytes) (ps : List Piece)
    → All (IsPiece h basis) ps
    → io_task basis (map (chunk_of h) ps) ≡ ok (rebuilt h basis ps)
unfolding io_task
io_task-pieces h basis [] v = refl
io_task-pieces h basis (literal bytes ∷ ps) v = rw (io_task-pieces h basis ps v.1)
io_task-pieces h none (block i ∷ ps) v = absurd v.0
io_task-pieces h (some basis) (block i ∷ ps) v =
    rw (read_basis-block h basis i v.0.0 v.0.1, io_task-pieces h (some basis) ps v.1)

IsToken-piece :
    (h : SumHead) (basis : Option Bytes) (p : Piece)
    → IsHeader h
    → IsPiece h basis p
    → IsToken (token_of p)
IsToken-piece h basis (literal bytes) v ok' = omega arith
IsToken-piece h none (block i) v ok' = absurd ok'
IsToken-piece h (some basis) (block i) v ok' = omega arith

recv_chunks-step :
    (fuel : ℕ) (h : SumHead) (basis : Option Bytes) (p : Piece) (ps : List Piece)
    (rest rest' : Bytes)
    → IsHeader h
    → IsPiece h basis p
    → recv_chunks fuel h rest ≡ ok (map (chunk_of h) ps, rest')
    → recv_chunks (suc fuel) h (write_token (token_of p) ++ rest)
      ≡ ok (map (chunk_of h) (p ∷ ps), rest')
unfolding recv_chunks
recv_chunks-step fuel h basis (literal bytes) ps rest rest' v q e =
    rw (recv_token-write_token (data_token bytes) rest (omega arith)) (ground arith)
recv_chunks-step fuel h none (block i) ps rest rest' v q e = absurd q
recv_chunks-step fuel h (some basis) (block i) ps rest rest' v q e =
    rw (recv_token-write_token (copied_token i) rest (omega arith), e, copied_range-block h i v q.0)

recv_chunks-write_pieces :
    (fuel : ℕ) (h : SumHead) (basis : Option Bytes) (ps : List Piece) (rest : Bytes)
    → IsHeader h
    → All (IsPiece h basis) ps
    → length ps < fuel
    → recv_chunks fuel h (write_pieces ps rest) ≡ ok (map (chunk_of h) ps, rest)
unfolding write_pieces
recv_chunks-write_pieces zero h basis ps rest v q f = absurd (omega arith)
recv_chunks-write_pieces (suc fuel) h basis [] rest v q f =
    unfold recv_chunks in rw (recv_token-write_token done_token rest tt)
recv_chunks-write_pieces (suc fuel) h basis (p ∷ ps) rest v q f =
    recv_chunks-step fuel h basis p ps (write_pieces ps rest) rest v q.0
      (recv_chunks-write_pieces fuel h basis ps rest v q.1 (omega arith))

length-write_token : (t : FileToken) → 1 ≤ length (write_token t)
unfolding write_token
length-write_token (data_token bytes) =
    omega (
      arith,
      length-append (to_le_bytes 4 (length bytes)) bytes,
      length-to_le_bytes 4 (length bytes),
    )
length-write_token (copied_token i) = omega (arith, length-to_le_bytes 4 (u32_mod - 1 - i))
length-write_token done_token = omega (arith, length-to_le_bytes 4 0)

length-write_pieces : (ps : List Piece) (rest : Bytes) → length ps < length (write_pieces ps rest)
unfolding write_pieces
length-write_pieces [] rest =
    omega (arith, length-append (write_token done_token) rest, length-write_token done_token)
length-write_pieces (p ∷ ps) rest = omega (
  arith,
  length-append (write_token (token_of p)) (write_pieces ps rest),
  length-write_token (token_of p),
  length-write_pieces ps rest,
)

module _ (md4 blake2b basis_name : Bytes → Bytes) (seed : ℕ) where
  -- A server that describes a file by new bytes and by blocks of the basis that the header covers,
  -- and ends with 16 bytes of digest: the receiver accepts it exactly if the digest is the MD4 of the
  -- seed and the rebuilt file. Then it has the rebuilt file, its content hash, and the rest of the
  -- stream; otherwise the result is a checksum mismatch.
  pub recv_data-write_pieces :
      (basis : Option Bytes) (h : SumHead) (ps : List Piece) (digest rest : Bytes)
      → IsHeader h
      → All (IsPiece h basis) ps
      → length digest ≡ 16
      → recv_data md4 blake2b basis_name seed basis (write_to h ++ write_pieces ps (digest ++ rest))
        ≡ (if bytes_eq (md4 (to_le_bytes 4 seed ++ rebuilt h basis ps)) digest
            then ok (
              record {
                target_file = rebuilt h basis ps;
                blake2b_hash = blake2b (rebuilt h basis ps);
              },
              rest,
            )
            else err checksum_mismatch)
  unfolding recv_data
  recv_data-write_pieces basis h ps digest rest v q n =
      rw
        (
          read_from-write_to h (write_pieces ps (digest ++ rest)) (omega arith),
          recv_chunks-write_pieces (length (write_pieces ps (digest ++ rest))) h basis ps
              (digest ++ rest) v q (length-write_pieces ps (digest ++ rest)),
          io_task-pieces h basis ps q,
          read_exact-of 16 digest rest n,
        )
        (ground arith)
