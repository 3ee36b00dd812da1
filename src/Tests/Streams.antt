-- ===== src/Tests/Streams.antt =====
-- The transfer of files on short streams; rsync-fetcher/src/rsync/{checksum,receiver}.rs.
use rsync_sjtug.Prelude.{
  ◌≡◌, refl, true, false, none, some, List, [], ◌∷◌, ◌++◌, map, Bytes, bytes_eq, All, ok, err,
  if◌then◌else◌, length, to_le_bytes, from_le_bytes, arith,
}
use rsync_sjtug.Fetcher.Stream.{checksum_mismatch, read_exact, read_i32_le}
use rsync_sjtug.Fetcher.Checksum.{SumHead, read_from, write_to, checksum_1, checksum_payload, Simd}
use rsync_sjtug.Fetcher.Checksum.Sizes.{IsSumHead, read_from-write_to}
use rsync_sjtug.Fetcher.Checksum.Rolling.{halves, running_sums, checksum_1-running_sums}
use rsync_sjtug.Fetcher.Checksum.Payload.{Hashes, checksum_payload-simd}
use rsync_sjtug.Fetcher.Receiver.{
  copied_token, recv_token, copied_range, recv_chunks, read_basis, io_task, Receiver, UploadTask,
  lookup_file, remove_file, after_upload, queue_upload, recv_data, try_get_basis_file,
  drop_basis_file, recv_file, recv_task_loop, recv_task,
}
use rsync_sjtug.Fetcher.Receiver.Tokens.{write_token, recv_token-write_token}
use rsync_sjtug.Fetcher.Receiver.Transfer.{
  Piece, literal, block, rebuilt, write_pieces, IsHeader, IsPiece, recv_data-write_pieces,
}
use rsync_sjtug.Fetcher.Receiver.Task.{Accounts, recv_task-Accounts}

program : Unit {0}
unfolding bytes_eq to_le_bytes from_le_bytes read_exact read_i32_le read_from write_to recv_token
    copied_range recv_chunks read_basis io_task lookup_file remove_file after_upload queue_upload
    recv_data try_get_basis_file drop_basis_file recv_file recv_task_loop recv_task write_token
    write_pieces
program = tt

-- In place of MD4, Blake2b and the name of a basis file.
abbrev digest : Bytes → Bytes
digest b = to_le_bytes 16 (length b)

abbrev same : Bytes → Bytes
same b = b

abbrev head : SumHead
head = record { checksum_count = 2; block_len = 3; checksum_len = 16; remainder_len = 1 }

abbrev basis : Bytes
basis = 1 ∷ 2 ∷ 3 ∷ 4 ∷ []

abbrev pieces : List Piece
pieces = block 1 ∷ literal (9 ∷ 8 ∷ []) ∷ block 0 ∷ []

head-IsSumHead : IsSumHead head
head-IsSumHead = record {
  count = omega arith;
  block = omega arith;
  sum = omega arith;
  remainder = omega arith;
}

head-IsHeader : IsHeader head
head-IsHeader = record {
  count = omega arith;
  block_len = omega arith;
  sum = omega arith;
  remainder = omega arith;
}

read_from-write_to_example : read_from (write_to head ++ (7 ∷ [])) ≡ ok (head, 7 ∷ [])
read_from-write_to_example = read_from-write_to head (7 ∷ []) head-IsSumHead

checksum_1-running_sums_example :
    checksum_1 (200 ∷ 1 ∷ 2 ∷ []) ≡ ok (halves (running_sums 0 0 (200 ∷ 1 ∷ 2 ∷ [])))
checksum_1-running_sums_example = checksum_1-running_sums (200 ∷ 1 ∷ 2 ∷ []) (omega arith)

abbrev two_lanes : Simd
two_lanes = record { lanes = 2; md4 = λ datas. map digest datas }

two_lanes-Hashes : Hashes digest two_lanes
two_lanes-Hashes = record { positive = omega arith; each = λ n datas e h. refl }

abbrev three_blocks : SumHead
three_blocks = record { checksum_count = 3; block_len = 2; checksum_len = 16; remainder_len = 1 }

checksum_payload-simd_example :
    checksum_payload digest (some two_lanes) three_blocks 5 (1 ∷ 2 ∷ 3 ∷ 4 ∷ 5 ∷ []) 5
    ≡ checksum_payload digest none three_blocks 5 (1 ∷ 2 ∷ 3 ∷ 4 ∷ 5 ∷ []) 5
checksum_payload-simd_example =
    checksum_payload-simd digest two_lanes three_blocks 5 (1 ∷ 2 ∷ 3 ∷ 4 ∷ 5 ∷ []) 5
      two_lanes-Hashes (omega arith)

recv_token-write_token_example :
    recv_token (write_token (copied_token 7) ++ (1 ∷ [])) ≡ ok (copied_token 7, 1 ∷ [])
recv_token-write_token_example = recv_token-write_token (copied_token 7) (1 ∷ []) (omega arith)

pieces-IsPiece : All (IsPiece head (some basis)) pieces
pieces-IsPiece = ground arith

rebuilt-pieces : rebuilt head (some basis) pieces ≡ 4 ∷ 9 ∷ 8 ∷ 1 ∷ 2 ∷ 3 ∷ []
unfolding program
rebuilt-pieces = refl

digest_size : (b : Bytes) → length (digest b) ≡ 16
unfolding program
digest_size b = refl

recv_data-write_pieces_example :
    recv_data digest same same 5
      (some basis)
      (write_to head ++ write_pieces pieces (digest [] ++ []))
    ≡ (if bytes_eq (digest (to_le_bytes 4 5 ++ rebuilt head (some basis) pieces)) (digest [])
        then ok (
          record {
            target_file = rebuilt head (some basis) pieces;
            blake2b_hash = rebuilt head (some basis) pieces;
          },
          [],
        )
        else err checksum_mismatch)
recv_data-write_pieces_example =
    recv_data-write_pieces digest same same 5 (some basis) head pieces (digest []) [] head-IsHeader
      pieces-IsPiece (digest_size [])

-- One file, of which the receiver has a basis; then the two ends of a phase.
abbrev session : Receiver
session = record {
  rx =
      to_le_bytes 4 0
      ++ (write_to head
          ++ write_pieces pieces (to_le_bytes 16 10 ++ to_le_bytes 8 18446744073709551615));
  upload_tx = true;
  sent = [];
  file_list = (102 ∷ []) ∷ [];
  basis_dir = (102 ∷ [], basis) ∷ [];
  permits = 1;
  basis_buf = 1;
  pending = 1;
  uploading = 0;
}

abbrev uploaded : UploadTask
uploaded = record {
  idx = 0;
  blake2b_hash = 4 ∷ 9 ∷ 8 ∷ 1 ∷ 2 ∷ 3 ∷ [];
  file = 4 ∷ 9 ∷ 8 ∷ 1 ∷ 2 ∷ 3 ∷ [];
}

abbrev finished : Receiver
finished = record {
  rx = [];
  upload_tx = false;
  sent = uploaded ∷ [];
  file_list = (102 ∷ []) ∷ [];
  basis_dir = [];
  permits = 2;
  basis_buf = 0;
  pending = 0;
  uploading = 1;
}

session_runs : recv_task digest same same 5 session ≡ ok finished
unfolding program
session_runs = refl

recv_task-Accounts_example : Accounts session finished × (false ≡ false)
recv_task-Accounts_example = recv_task-Accounts digest same same 5 session session_runs
