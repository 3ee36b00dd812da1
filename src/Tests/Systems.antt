-- ===== src/Tests/Systems.antt =====
-- A fetch, a fetch that is broken off, and a collection; rsync-fetcher/src/main.rs and
-- rsync-gc/src/main.rs.
use rsync_sjtug.Prelude.{
  ◌≡◌, refl, true, false, none, some, List, [], ◌∷◌, bytes_eq, ok, replicate, arith, chunks,
}
use rsync_sjtug.Database.Revisions.{
  partial, regular, directory, live, Db, contains, ensure_repository, create_revision,
  change_revision_status,
}
use rsync_sjtug.Database.Insert.{
  regular_extra, row_of, append_objects, is_admissible, is_taken, insert_objects, insert_chunks,
  flush, insert_loop, insert_task,
}
use rsync_sjtug.Database.Order.{order_by_revision_desc}
use rsync_sjtug.Gc.{run, elem, select_revisions, hex_digit, as_hex, object_key}
use rsync_sjtug.Gc.Safety.{IsServable}
use rsync_sjtug.Gateway.Entries.{find_object}
use rsync_sjtug.Gateway.Realpath.{split_slash, body_components, components}
use rsync_sjtug.Gateway.Listing.{content_disposition, insert_listed, order_listed, list_children}
use rsync_sjtug.Gateway.Active.{latest_live_revision, first_live}
use rsync_sjtug.Fetcher.FileList.{FileEntry}
use rsync_sjtug.Fetcher.Plan.{
  newest, changed_or_remote_only, diff_changed_or_remote_only, joined, keep_newest,
  distinct_on_filename, local_revs, unchanged_rows, diff_unchanged_and_copy, copy_directories,
  copy_symlinks, diff_and_apply,
}
use rsync_sjtug.Fetcher.Receiver.{UploadTask, fetch_sub}
use rsync_sjtug.Fetcher.Uploader.{
  keys, Shared, waiting, last_name, file_name, entry_at, update_metadata, take_task, write_object,
  advance, advance_worker, upload_tasks,
}
use rsync_sjtug.Fetcher.Fetch.{
  directory_of, id_of, with_parent, update_parent_ids, sent_events, plan_fetch, commit_fetch,
  at_start, transfer, fetch,
}
use rsync_sjtug.Fetcher.Fetch.Rows.{IsNumbered}
use rsync_sjtug.System.{Step, fetched, interrupted, collected, at_first, then_step}
use rsync_sjtug.System.Reached.{Reaches-IsServable}
use rsync_sjtug.Tests.Uploads.{
  hash_7, hash_8, hex_of, replicate-IsByte, files, up, same, tasks, stored, empty_db, path_d,
  path_da, object, fetch_run, empty_db-IsServable, empty_db-IsNumbered,
}
use rsync_sjtug.Tests.Uploads

program : Unit {0}
unfolding bytes_eq contains ensure_repository create_revision change_revision_status row_of
    append_objects is_admissible is_taken insert_objects insert_chunks flush insert_loop insert_task
    order_by_revision_desc elem select_revisions hex_digit as_hex object_key find_object split_slash
    body_components components content_disposition insert_listed order_listed list_children
    latest_live_revision first_live changed_or_remote_only diff_changed_or_remote_only joined
    keep_newest distinct_on_filename local_revs unchanged_rows diff_unchanged_and_copy
    copy_directories copy_symlinks diff_and_apply last_name file_name entry_at update_metadata
    take_task write_object advance advance_worker upload_tasks directory_of id_of with_parent
    update_parent_ids sent_events plan_fetch commit_fetch transfer fetch chunks
program = tt

-- The file is changed, and the second fetch is broken off when its upload is in the store and its
-- row is inserted.
abbrev changed_files : List FileEntry
changed_files =
    record { name = path_d; len = 2; modify_time = 7; mode = 16384; link_target = none; idx = 0 }
    ∷ record { name = path_da; len = 2; modify_time = 8; mode = 32768; link_target = none; idx = 1 }
    ∷ []

abbrev changed_tasks : List UploadTask
changed_tasks = record { idx = 1; blake2b_hash = hash_8; file = 3 ∷ 4 ∷ [] } ∷ []

abbrev planned : Db
planned = record {
  repositories = (114 ∷ []) ∷ [];
  revisions =
      record {
        revision = 1;
        repository = 114 ∷ [];
        status = live;
        created_at = 30;
        completed_at = some 40;
      }
      ∷ record {
        revision = 2;
        repository = 114 ∷ [];
        status = partial;
        created_at = 50;
        completed_at = none;
      }
      ∷ [];
  next_revision = 3;
  objects =
      object 5 path_d none directory none
      ∷ object 6 path_da (some 5) regular (some hash_7)
      ∷ record (object 7 path_d none directory none) { revision = 2 }
      ∷ [];
  next_object = 8;
}

abbrev broken_off : Db
broken_off = record planned {
  objects =
      object 5 path_d none directory none
      ∷ object 6 path_da (some 5) regular (some hash_7)
      ∷ record (object 7 path_d none directory none) { revision = 2 }
      ∷ record (object 8 path_da none regular (some hash_8)) { revision = 2; modify_time = 8 }
      ∷ [];
  next_object = 9;
}

abbrev uploads : Shared
uploads = record {
  rx = [];
  store =
      record {
        key = hex_of 20 56;
        contents = 3 ∷ 4 ∷ [];
        disposition = some (content_disposition (97 ∷ []));
      }
      ∷ stored;
  uploaded = hash_8 ∷ [];
  pg = (path_da, record { len = 2; modify_time = 8; extra = regular_extra hash_8 }) ∷ [];
  uploading = fetch_sub 0;
}

fetched_step : Step up same (114 ∷ []) [] empty_db [] Uploads.fetched (keys stored)
fetched_step =
    fetched files tasks (0 ∷ 0 ∷ 0 ∷ 0 ∷ 0 ∷ []) (true ∷ false ∷ true ∷ []) 30 40 empty_db []
      (replicate-IsByte 20 7 (omega arith), tt) fetch_run

planned_run :
    plan_fetch (114 ∷ []) changed_files 50 Uploads.fetched
    ≡ ok (planned, 2, record { idx = 1; blake2b = some hash_7 } ∷ [])
unfolding program newest
planned_run = refl

uploads_run :
    upload_tasks up same [] changed_files
      (0 ∷ 0 ∷ 0 ∷ 0 ∷ 0 ∷ [])
      (replicate 8 waiting)
      (at_start changed_tasks stored)
    ≡ ok (replicate 8 waiting, uploads)
unfolding program
uploads_run = refl

interrupted_step :
    Step up same (114 ∷ []) [] Uploads.fetched (keys stored) broken_off (keys uploads.store)
unfolding program
interrupted_step =
    interrupted changed_files changed_tasks (0 ∷ 0 ∷ 0 ∷ 0 ∷ 0 ∷ []) 1 50 Uploads.fetched stored
      (replicate-IsByte 20 8 (omega arith), tt) planned_run uploads_run refl

Reaches-IsServable_example :
    IsServable
      (114 ∷ [])
      []
      (run (114 ∷ []) [] 1 1 broken_off (keys uploads.store)).0
      (run (114 ∷ []) [] 1 1 broken_off (keys uploads.store)).1
    × IsNumbered (run (114 ∷ []) [] 1 1 broken_off (keys uploads.store)).0
Reaches-IsServable_example =
    Reaches-IsServable up same (114 ∷ []) [] empty_db-IsServable empty_db-IsNumbered (
      then_step broken_off (keys uploads.store)
        (then_step Uploads.fetched (keys stored) (then_step empty_db [] at_first fetched_step)
          interrupted_step)
        (collected 1 1 broken_off (keys uploads.store)))
