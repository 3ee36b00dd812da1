-- ===== src/Fetcher/Receiver.antt =====
-- rsync-fetcher/src/rsync/receiver.rs: the tokens of a file, the data of a file against a basis,
-- and the receiver task. MD4, Blake2b and the name of a basis file are parameters.
pub mod Tokens
pub mod Transfer
pub mod Task
use rsync_sjtug.Prelude.{
  ℕ, zero, suc, ◌+◌, ◌-◌, ◌*◌, ◌%◌, Bool, true, false, ◌&&◌, not, Option, none, some, List, [], ◌∷◌,
  ◌++◌, Bytes, bytes_eq, Result, ok, err, fault, ◌>>=◌, ◌>>◌, ◌>>◌, ensure, assert, ltb, leb, ◌==◌,
  if◌then◌else◌, sub32, u32_mod, u64_mod, i32_min, to_le_bytes, length, take, drop, get_elem?,
}
use rsync_sjtug.Fetcher.Stream.{
  Error, checksum_mismatch, eof, io_task_panic, Read, read_i32_le, read_exact, i64_from, minus_one,
}
use rsync_sjtug.Fetcher.Checksum.{SumHead, read_from}

pub data FileToken : Type 0 where
  data_token : Bytes → FileToken
  copied_token : ℕ → FileToken
  done_token : FileToken

pub data IoChunk : Type 0 where
  data_chunk : Bytes → IoChunk
  copied_chunk : (offset data_len : ℕ) → IoChunk

-- A negative token is a bit pattern from `i32_min` on; `-(token + 1)` is its complement.
unfoldable pub recv_token : Read FileToken
recv_token s = do
  (token, s') ← read_i32_le s
  if token == 0
      then ok (done_token, s')
      else if ltb token i32_min
      then (read_exact token s' >>= λ p. ok (data_token p.0, p.1))
      else ok (copied_token (u32_mod - 1 - token), s')

-- The offset and the length of a copied block.
unfoldable pub copied_range : SumHead → ℕ → ℕ × ℕ
copied_range h block_offset = (
  block_offset * i64_from h.block_len % u64_mod,
  if block_offset == sub32 h.checksum_count 1 && not (h.remainder_len == 0)
      then h.remainder_len
      else h.block_len,
)

abbrev pub max_data_len : ℕ
max_data_len = 131072

-- The token loop of `recv_data`: the chunks that it sends to the I/O task. A token takes four bytes
-- at least, so as many rounds as there are bytes are enough.
unfoldable pub recv_chunks : ℕ → SumHead → Read (List IoChunk)
recv_chunks zero h s = err eof
recv_chunks (suc fuel) h s = do
  (token, s') ← recv_token s
  elim token [
    | data_token bytes ↦ do
      assert (leb (length bytes) max_data_len)
      (chunks, rest) ← recv_chunks fuel h s'
      ok (data_chunk bytes ∷ chunks, rest)
    | copied_token block_offset ↦ do
      (chunks, rest) ← recv_chunks fuel h s'
      ok (
        copied_chunk (copied_range h block_offset).0 (copied_range h block_offset).1 ∷ chunks,
        rest,
      )
    | done_token ↦ ok ([], s')
  ]

-- `seek` and `read_exact` on the basis. Without a basis the task panics, which its `JoinHandle`
-- reports as an error.
unfoldable pub read_basis : Option Bytes → ℕ → ℕ → Result Error Bytes
read_basis none offset data_len = err io_task_panic
read_basis (some basis) offset data_len =
    if ltb (length (drop offset basis)) data_len
    then err eof
    else ok (take data_len (drop offset basis))

-- What the I/O task writes to the target file; both hashers are fed the same bytes.
unfoldable pub io_task : Option Bytes → List IoChunk → Result Error Bytes
io_task basis [] = ok []
io_task basis (data_chunk bytes ∷ chunks) = do rest ← io_task basis chunks; ok (bytes ++ rest)
io_task basis (copied_chunk offset data_len ∷ chunks) = do
  buf ← read_basis basis offset data_len
  rest ← io_task basis chunks
  ok (buf ++ rest)

pub record RecvResult : Type 0 where
  pub target_file : Bytes
  pub blake2b_hash : Bytes

-- A row of the file list, as far as the receiver looks at it, is its name.
pub record UploadTask : Type 0 where
  pub idx : ℕ
  pub blake2b_hash : Bytes
  pub file : Bytes

-- The receiver: what the server has still to send, whether the queue to the uploader is open, what
-- was sent on it, the permits, the basis files by name, and the counters of the progress display.
pub record Receiver : Type 0 where
  pub rx : Bytes
  pub upload_tx : Bool
  pub sent : List UploadTask
  pub file_list : List Bytes
  pub basis_dir : List (Bytes × Bytes)
  pub permits : ℕ
  pub basis_buf : ℕ
  pub pending : ℕ
  pub uploading : ℕ

-- `fetch_sub` on a counter wraps.
abbrev pub fetch_sub : ℕ → ℕ
fetch_sub n = (n + u64_mod - 1) % u64_mod

unfoldable pub lookup_file : Bytes → List (Bytes × Bytes) → Option Bytes
lookup_file name [] = none
lookup_file name ((n, contents) ∷ files) =
    if bytes_eq n name then some contents else lookup_file name files

unfoldable pub remove_file : Bytes → List (Bytes × Bytes) → List (Bytes × Bytes)
remove_file name [] = []
remove_file name ((n, contents) ∷ files) =
    if bytes_eq n name then remove_file name files else (n, contents) ∷ remove_file name files

-- The end of `recv_file`: the permit, the counters and the upload task.
unfoldable pub after_upload : ℕ → RecvResult → Receiver → Receiver
after_upload idx result r =
    let task : UploadTask = record {
      idx = idx;
      blake2b_hash = result.blake2b_hash;
      file = result.target_file;
    } in
    record r {
      permits = r.permits + 1;
      pending = fetch_sub r.pending;
      sent = r.sent ++ (task ∷ []);
      uploading = (r.uploading + 1) % u64_mod;
    }

-- A closed queue is a panic.
unfoldable pub queue_upload : ℕ → RecvResult → Receiver → Result Error Receiver
queue_upload idx result r = do assert r.upload_tx; ok (after_upload idx result r)

module _ (md4 blake2b basis_name : Bytes → Bytes) (seed : ℕ) where
  -- The I/O task runs beside the token loop. Here it runs after it: if it fails, `recv_data` fails
  -- in both orders.
  unfoldable pub recv_data : Option Bytes → Read RecvResult
  recv_data local_basis s = do
    (h, s1) ← read_from s
    (chunks, s2) ← recv_chunks (length s1) h s1
    target ← io_task local_basis chunks
    (remote_md4, s3) ← read_exact 16 s2
    ensure (bytes_eq (md4 (to_le_bytes 4 seed ++ target)) remote_md4) checksum_mismatch
    ok (record { target_file = target; blake2b_hash = blake2b target }, s3)

  unfoldable pub try_get_basis_file : Receiver → Bytes → Option Bytes
  try_get_basis_file r path = lookup_file (basis_name path) r.basis_dir

  -- Dropping a basis file deletes it and counts it down.
  unfoldable pub drop_basis_file : Option Bytes → Bytes → Receiver → Receiver
  drop_basis_file none path r = r
  drop_basis_file (some _) path r = record r {
    basis_dir = remove_file (basis_name path) r.basis_dir;
    basis_buf = fetch_sub r.basis_buf;
  }

  unfoldable pub recv_file : ℕ → Receiver → Result Error Receiver
  recv_file idx r = elim (get_elem? r.file_list idx) [
    | none ↦ fault
    | some name ↦ do
      let basis_file = try_get_basis_file r name
      (result, rx') ← recv_data basis_file r.rx
      queue_upload idx result (drop_basis_file basis_file name (record r { rx = rx' }))
  ]

  -- `idx as usize` of a negative index is out of range of the list, as its bit pattern is.
  unfoldable pub recv_task_loop : ℕ → ℕ → Receiver → Result Error Receiver
  recv_task_loop zero phase r = err eof
  recv_task_loop (suc fuel) phase r = do
    (idx, rx') ← read_i32_le r.rx
    let r' : Receiver = record r { rx = rx' }
    elim (idx == minus_one) [
      | true ↦ elim (phase == 0) [
        | true ↦ recv_task_loop fuel (phase + 1) r'
        | false ↦ assert r'.upload_tx >> ok (record r' { upload_tx = false })
      ]
      | false ↦ recv_file idx r' >>= recv_task_loop fuel phase
    ]

  -- An index takes four bytes, so as many rounds as there are bytes are enough.
  unfoldable pub recv_task : Receiver → Result Error Receiver
  recv_task r = recv_task_loop (length r.rx) 0 r
