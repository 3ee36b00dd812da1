-- ===== src/Tests/Plans.antt =====
-- A small file list, its plan and its figures; rsync-fetcher/src/{plan,utils}.rs,
-- rsync-fetcher/src/rsync/file_list.rs, and rsync-core/src/pg.rs.
use rsync_sjtug.Prelude.{
  replicate, chunks, err, ◌%◌, u64_mod, ℕ, ◌≡◌, ◌≢◌, refl, sym, ◌∙◌, Bool, false, none, some, List,
  [], ◌∷◌, ◌++◌, inl, inr, Bytes, bytes_eq, ok, ◌==◌, to_le_bytes, from_le_bytes,
}
use rsync_sjtug.Database.Revisions.{Object, live, Db, unique_violation}
use rsync_sjtug.Database.Insert.Fits.{Fits}
use rsync_sjtug.Database.Insert.{
  regular_extra, directory_extra, Event, tick, received, closed, arrived, append_objects,
  is_admissible, is_taken, insert_objects, insert_chunks, flush, insert_loop, row_of, insert_task,
}
use rsync_sjtug.Prelude.{◌⊎◌, In}
use rsync_sjtug.Gc.{object_key}
use rsync_sjtug.Gateway.Keys.{
  ends_with_slash, parse_ensure_end_slash, de_trim_end_slash, s3_path, s3_path-object_key,
}
use rsync_sjtug.Fetcher.Stream.{
  read_exact, read_u8, read_u32_le, read_i32_le, read_i64_le, read_rsync_long,
}
use rsync_sjtug.Fetcher.FileList.{
  FileEntry, recv_file_entry, recv_entries, bytes_lt, dedup_after, dedup_by_name, mark_idx,
  recv_file_list,
}
use rsync_sjtug.Fetcher.FileList.Order.{
  insert_by_name, sort_by_name, sort_by_name-IsSort, Ascending, IsIndexed, names,
  recv_file_list-Ascending,
}
use rsync_sjtug.Fetcher.Plan.{TransferItem, diff_and_apply}
use rsync_sjtug.Fetcher.Plan.Complete.{NamesDiffer, Copied, diff_and_apply-Copied}
use rsync_sjtug.Fetcher.Stats.Figures.{plan_stat-total}
use rsync_sjtug.Fetcher.Stats.{PlannedTransfer, add, one_file, ignore_mode, plan_loop, plan_stat}

program : Unit {0}
unfolding bytes_eq to_le_bytes from_le_bytes read_exact read_u8 read_u32_le read_i32_le read_i64_le
    read_rsync_long recv_file_entry recv_entries bytes_lt insert_by_name sort_by_name dedup_after
    dedup_by_name mark_idx recv_file_list ends_with_slash add one_file ignore_mode plan_loop
    plan_stat
program = tt

abbrev tables : Db
tables = record {
  repositories = (114 ∷ []) ∷ [];
  revisions =
      record {
        revision = 1;
        repository = 114 ∷ [];
        status = live;
        created_at = 0;
        completed_at = some 1;
      }
      ∷ [];
  next_revision = 2;
  objects = [];
  next_object = 1;
}

abbrev events : List Event
events =
    tick
    ∷ received (100 ∷ []) (record { len = 0; modify_time = 0; extra = directory_extra })
    ∷ tick
    ∷ received (102 ∷ [])
        (record { len = 3; modify_time = 0; extra = regular_extra (replicate 20 7) })
    ∷ closed
    ∷ []

inserts : insert_task 1 events tables ≡ ok (append_objects 1 (arrived events) tables)
unfolding insert_task insert_loop flush insert_chunks insert_objects append_objects is_admissible
    is_taken chunks row_of bytes_eq
inserts = refl

-- A name that is received twice.
inserts_twice :
    insert_task 1
      (received (100 ∷ []) (record { len = 0; modify_time = 0; extra = directory_extra }) ∷ events)
      tables
    ≡ err unique_violation
unfolding insert_task insert_loop flush insert_chunks insert_objects append_objects is_admissible
    is_taken chunks row_of bytes_eq
inserts_twice = refl

mirror : ends_with_slash (109 ∷ []) ≡ false
unfolding program
mirror = refl

mirror-is_some : ◌≢◌ {A = Bytes} (109 ∷ []) []
mirror-is_some = λ e. cc

s3_path-object_key_example :
    s3_path (de_trim_end_slash (109 ∷ [])) (255 ∷ [])
    ≡ object_key (parse_ensure_end_slash (109 ∷ 47 ∷ [])) (255 ∷ [])
s3_path-object_key_example =
    s3_path-object_key (109 ∷ []) (109 ∷ []) (109 ∷ 47 ∷ []) (255 ∷ []) mirror-is_some mirror
      (inl refl) (inr refl)

abbrev same : Bytes → Bytes
same b = b

abbrev is_link : ℕ → Bool
is_link mode = mode == 40960

abbrev sent_entry : ℕ → Bytes
sent_entry c = 1 ∷ 1 ∷ c ∷ (to_le_bytes 4 5 ++ (to_le_bytes 4 7 ++ to_le_bytes 4 32768))

abbrev entry : ℕ → ℕ → FileEntry
entry c i = record {
  name = c ∷ [];
  len = 5;
  modify_time = 7;
  mode = 32768;
  link_target = none;
  idx = i;
}

-- Two files, the first of them twice.
abbrev sent_list : Bytes
sent_list = sent_entry 98 ++ (sent_entry 97 ++ (sent_entry 98 ++ (0 ∷ to_le_bytes 4 0)))

abbrev files : List FileEntry
files = entry 97 0 ∷ entry 98 1 ∷ []

list_received : recv_file_list sort_by_name same is_link sent_list ≡ ok (files, [])
unfolding program
list_received = refl

recv_file_list-Ascending_example : Ascending (names files) × IsIndexed 0 files
recv_file_list-Ascending_example =
    recv_file_list-Ascending sort_by_name same is_link sent_list sort_by_name-IsSort list_received

abbrev one : List FileEntry
one = entry 97 0 ∷ []

one-NamesDiffer : NamesDiffer one
one-NamesDiffer f g (inl h) (inl k) e = h ∙ sym k
one-NamesDiffer f g (inl h) (inr k) e = elim k [ ]
one-NamesDiffer f g (inr h) k e = elim h [ ]

diff_and_apply-Copied_example :
    ((item : TransferItem) × In item (diff_and_apply (114 ∷ []) 2 one tables).2 × (item.idx ≡ 0))
    ⊎ ((o : Object) × In o (diff_and_apply (114 ∷ []) 2 one tables).0.objects
        × Copied (entry 97 0) 2 o)
diff_and_apply-Copied_example =
    diff_and_apply-Copied (114 ∷ []) 2 one tables (entry 97 0) one-NamesDiffer (inl refl) refl

abbrev items : List TransferItem
items = record { idx = 0; blake2b = none } ∷ record { idx = 1; blake2b = some [] } ∷ []

abbrev figures : PlannedTransfer
figures = record {
  total_bytes = 10;
  total_count = 2;
  full_bytes = 5;
  full_count = 1;
  partial_bytes = 5;
  partial_count = 1;
}

stat_items : plan_stat (λ m. m == 16384) (λ m. m == 32768) files items ≡ ok figures
unfolding program
stat_items = refl

plan_stat-total_example :
    (figures.total_bytes % u64_mod ≡ 10 % u64_mod)
    × (figures.total_count % u64_mod ≡ 2 % u64_mod)
    × (figures.full_bytes % u64_mod ≡ 5 % u64_mod)
    × (figures.full_count % u64_mod ≡ 1 % u64_mod)
    × (figures.partial_bytes % u64_mod ≡ 5 % u64_mod)
    × (figures.partial_count % u64_mod ≡ 1 % u64_mod)
plan_stat-total_example =
    plan_stat-total (λ m. m == 16384) (λ m. m == 32768) files items figures stat_items
