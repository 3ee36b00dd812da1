-- ===== src/Tests/Requests.antt =====
-- The requests for a plan of three items; rsync-fetcher/src/rsync/{downloader,generator}.rs.
use rsync_sjtug.Prelude.{
  ℕ, ◌+◌, ◌≡◌, refl, Bool, true, false, none, some, List, [], ◌∷◌, ◌++◌, concat, Bytes, bytes_eq,
  ok, err, length, to_le_bytes, ◌==◌, if◌then◌else◌,
}
use rsync_sjtug.Gc.{hex_digit, as_hex, object_key}
use rsync_sjtug.Fetcher.Checksum.{
  sums_of, block_len_of, sum_sizes_sqroot, write_to, checksum_1_loop, checksum_1, read_file,
  checksum_2, payload_blocks, checksum_payload,
}
use rsync_sjtug.Fetcher.FileList.{FileEntry}
use rsync_sjtug.Fetcher.Plan.{TransferItem}
use rsync_sjtug.Fetcher.Stats.{ignore_mode}
use rsync_sjtug.Fetcher.Generator.{
  Generator, Event, goes_on, refilled, closed, basis, phases, start, is_wanted, next_item,
  generate_and_send_sums, request_partial, request_full, on_item, select, go_on, on_event,
  generate_task,
}
use rsync_sjtug.Fetcher.Generator.Permits.{permits_of, refills, generate_task-permits}
use rsync_sjtug.Fetcher.Generator.Requests.{
  Merges, basis_of, full_requests, partial_requests, generate_task-Merges,
}
use rsync_sjtug.Fetcher.Downloader.{not_found, with_entry, with_hash, gen_task, download_entry}
use rsync_sjtug.Fetcher.Downloader.Once.{Asks, gen_task-full_requests}

program : Unit {0}
unfolding sums_of block_len_of sum_sizes_sqroot write_to checksum_1_loop checksum_1 read_file
    checksum_2 payload_blocks checksum_payload ignore_mode is_wanted next_item
    generate_and_send_sums request_partial request_full on_item select go_on on_event generate_task
    with_entry with_hash gen_task hex_digit as_hex object_key download_entry to_le_bytes
program = tt

abbrev root : ℕ → ℕ
root n = 0

abbrev digest : Bytes → Bytes
digest b = length b ∷ []

abbrev is_dir : ℕ → Bool
is_dir mode = mode == 16384

abbrev is_file : ℕ → Bool
is_file mode = mode == 32768

abbrev entry : ℕ → ℕ → FileEntry
entry mode i = record {
  name = (97 + i) ∷ [];
  len = 2;
  modify_time = 7;
  mode = mode;
  link_target = none;
  idx = i;
}

abbrev files : List FileEntry
files = entry 32768 0 ∷ entry 16384 1 ∷ entry 32768 2 ∷ []

-- A new file, a directory, and a file of which the store has a version.
abbrev plan : List TransferItem
plan =
    record { idx = 0; blake2b = none }
    ∷ record { idx = 1; blake2b = none }
    ∷ record { idx = 2; blake2b = some (7 ∷ []) }
    ∷ []

downloads :
    gen_task is_dir is_file files plan
    ≡ ok (record { idx = 2; blake2b_hash = 7 ∷ []; path = 99 ∷ [] } ∷ [])
unfolding program
downloads = refl

downloaded :
    download_entry
      (λ key. if◌then◌else◌ (bytes_eq key (48 ∷ 55 ∷ [])) (ok (5 ∷ [])) (err not_found))
      []
      (record { idx = 2; blake2b_hash = 7 ∷ []; path = 99 ∷ [] })
    ≡ ok (2, 5 ∷ [])
unfolding program bytes_eq
downloaded = refl

gen_task-full_requests_example :
    Asks root digest none is_dir is_file 0 files plan
      (record { idx = 2; blake2b_hash = 7 ∷ []; path = 99 ∷ [] } ∷ [])
      (full_requests root digest none is_dir is_file 0 files plan)
gen_task-full_requests_example =
    gen_task-full_requests root digest none is_dir is_file 0 files plan downloads

abbrev happens : List Event
happens =
    goes_on
    ∷ goes_on
    ∷ goes_on
    ∷ basis 2 (5 ∷ [])
    ∷ refilled
    ∷ goes_on
    ∷ goes_on
    ∷ closed
    ∷ refilled
    ∷ goes_on
    ∷ goes_on
    ∷ []

-- The whole file of the first item, and the basis of the third with its one block.
abbrev sent_bytes : Bytes
sent_bytes =
    (to_le_bytes 4 0
      ++ (to_le_bytes 4 0 ++ (to_le_bytes 4 0 ++ (to_le_bytes 4 0 ++ to_le_bytes 4 0))))
    ++ ((to_le_bytes 4 2
          ++ (to_le_bytes 4 1
              ++ (to_le_bytes 4 700
                  ++ (to_le_bytes 4 16
                      ++ (to_le_bytes 4 1 ++ (to_le_bytes 4 327685 ++ (5 ∷ [])))))))
        ++ phases)

abbrev at_end : Generator
at_end = record {
  tx = sent_bytes;
  permits = 0;
  basis_rx = [];
  basis_open = false;
  items = [];
  holds_permit = true;
  finished = true;
  pending = 2;
}

generated : generate_task root digest none is_dir is_file 0 files happens (start 1 plan) ≡ ok at_end
unfolding program
generated = refl

generate_task-permits_example : permits_of at_end ≡ permits_of (start 1 plan) + refills happens
generate_task-permits_example =
    generate_task-permits root digest none is_dir is_file 0 files happens (start 1 plan) generated

generate_task-Merges_example :
    (sent : List Bytes) × Merges
      (full_requests root digest none is_dir is_file 0 files plan)
      (partial_requests root digest none is_dir is_file 0 files (basis_of true happens))
      sent
    × (at_end.tx ≡ concat sent ++ phases)
generate_task-Merges_example =
    generate_task-Merges root digest none is_dir is_file 0 files 1 plan happens generated refl
