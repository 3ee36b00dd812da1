-- ===== src/Tests/Uploads.antt =====
-- A whole fetch of a directory with a file; rsync-fetcher/src/main.rs and rsync/uploader.rs.
use rsync_sjtug.Prelude.{
  zero, suc, ◌<◌, All, IsByte, ℕ, ◌≡◌, refl, Bool, true, false, Option, none, some, List, [], ◌∷◌,
  Bytes, bytes_eq, ok, replicate, arith, chunks,
}
use rsync_sjtug.Database.Revisions.{
  FileType, regular, directory, live, Object, Db, contains, ensure_repository, create_revision,
  change_revision_status,
}
use rsync_sjtug.Database.Insert.{
  regular_extra, row_of, append_objects, is_admissible, is_taken, insert_objects, insert_chunks,
  flush, insert_loop, insert_task,
}
use rsync_sjtug.Database.Order.{order_by_revision_desc}
use rsync_sjtug.Gc.{elem, select_revisions, hex_digit, as_hex, object_key}
use rsync_sjtug.Gc.Safety.{IsServable}
use rsync_sjtug.Gateway.Entries.{find_object}
use rsync_sjtug.Gateway.Realpath.{split_slash, body_components, components}
use rsync_sjtug.Gateway.Listing.{content_disposition, insert_listed, order_listed, list_children}
use rsync_sjtug.Gateway.Active.{latest_live_revision, first_live}
use rsync_sjtug.Fetcher.FileList.{FileEntry}
use rsync_sjtug.Fetcher.Plan.{
  changed_or_remote_only, diff_changed_or_remote_only, joined, keep_newest, distinct_on_filename,
  local_revs, unchanged_rows, diff_unchanged_and_copy, copy_directories, copy_symlinks,
  diff_and_apply,
}
use rsync_sjtug.Fetcher.Receiver.{UploadTask, fetch_sub}
use rsync_sjtug.Fetcher.Uploader.{
  Stored, keys, Shared, waiting, last_name, file_name, entry_at, update_metadata, take_task,
  write_object, advance, advance_worker, upload_tasks,
}
use rsync_sjtug.Fetcher.Uploader.Backed.{IsBacked, Grows, upload_tasks-IsBacked}
use rsync_sjtug.Fetcher.Uploader.Progress.{rows_of_tasks, upload_tasks-rows_of_tasks}
use rsync_sjtug.Fetcher.Fetch.{
  directory_of, id_of, with_parent, update_parent_ids, sent_events, plan_fetch, commit_fetch,
  at_start, transfer, fetch,
}
use rsync_sjtug.Fetcher.Fetch.Rows.{IsNumbered}
use rsync_sjtug.Fetcher.Fetch.Safety.{fetch-IsServable}
use rsync_sjtug.Fetcher.Fetch.Live.{fetch-latest_live_revision}

program : Unit {0}
unfolding bytes_eq contains ensure_repository create_revision change_revision_status row_of
    append_objects is_admissible is_taken insert_objects insert_chunks flush insert_loop insert_task
    order_by_revision_desc elem select_revisions hex_digit as_hex object_key find_object split_slash
    body_components components content_disposition insert_listed order_listed list_children
    latest_live_revision first_live changed_or_remote_only diff_changed_or_remote_only joined
    keep_newest distinct_on_filename local_revs unchanged_rows diff_unchanged_and_copy
    copy_directories copy_symlinks diff_and_apply last_name file_name entry_at update_metadata
    take_task write_object advance advance_worker upload_tasks directory_of id_of with_parent
    update_parent_ids sent_events plan_fetch commit_fetch transfer fetch chunks
program = tt

-- A hash of twenty bytes, and the hexadecimal form of one.
abbrev pub hash_7 : Bytes
hash_7 = replicate 20 7

abbrev pub hash_8 : Bytes
hash_8 = replicate 20 8

abbrev pub hex_of : ℕ → ℕ → Bytes
hex_of zero digit = []
hex_of (suc n) digit = 48 ∷ digit ∷ hex_of n digit

pub replicate-IsByte : (n b : ℕ) → b < 256 → All IsByte (replicate n b)
replicate-IsByte zero b h = tt
replicate-IsByte (suc n) b h = (h, replicate-IsByte n b h)

abbrev entry : Bytes → ℕ → ℕ → FileEntry
entry name mode i = record {
  name = name;
  len = 2;
  modify_time = 7;
  mode = mode;
  link_target = none;
  idx = i;
}

abbrev pub path_d : Bytes
path_d = 100 ∷ []

abbrev pub path_da : Bytes
path_da = 100 ∷ 47 ∷ 97 ∷ []

abbrev pub files : List FileEntry
files = entry path_d 16384 0 ∷ entry path_da 32768 1 ∷ []

abbrev pub up : Bytes → Bool
up key = true

abbrev pub same : Bytes → Bytes
same b = b

abbrev pub tasks : List UploadTask
tasks = record { idx = 1; blake2b_hash = hash_7; file = 1 ∷ 2 ∷ [] } ∷ []

abbrev pub stored : List Stored
stored =
    record {
      key = hex_of 20 55;
      contents = 1 ∷ 2 ∷ [];
      disposition = some (content_disposition (97 ∷ []));
    }
    ∷ []

abbrev queue : Shared
queue = at_start tasks []

abbrev uploaded : Shared
uploaded = record {
  rx = [];
  store = stored;
  uploaded = hash_7 ∷ [];
  pg = (path_da, record { len = 2; modify_time = 7; extra = regular_extra hash_7 }) ∷ [];
  uploading = fetch_sub 0;
}

-- Two workers by turns.
upload_run :
    upload_tasks up same [] files (1 ∷ 0 ∷ 1 ∷ 1 ∷ 0 ∷ 1 ∷ 1 ∷ []) (replicate 2 waiting) queue
    ≡ ok (waiting ∷ waiting ∷ [], uploaded)
unfolding program
upload_run = refl

queue-IsBacked : IsBacked [] queue
queue-IsBacked = record {
  queued = (replicate-IsByte 20 7 (omega arith), tt);
  uploaded = tt;
  rows = tt;
}

upload_tasks-IsBacked_example : IsBacked [] uploaded × Grows [] stored
upload_tasks-IsBacked_example =
    upload_tasks-IsBacked up same [] files (1 ∷ 0 ∷ 1 ∷ 1 ∷ 0 ∷ 1 ∷ 1 ∷ []) 2 queue queue-IsBacked
      upload_run

upload_tasks-rows_of_tasks_example :
    (s' : Shared) × (upload_tasks up same [] files (replicate 5 0) (waiting ∷ []) queue
      ≡ ok (waiting ∷ [], s'))
    × (s'.rx ≡ [])
    × (s'.pg ≡ rows_of_tasks up same [] files tasks)
upload_tasks-rows_of_tasks_example =
    upload_tasks-rows_of_tasks up same [] files [] queue (((entry path_da 32768 1, refl), refl), tt)

abbrev pub empty_db : Db
empty_db = record {
  repositories = [];
  revisions = [];
  next_revision = 1;
  objects = [];
  next_object = 5;
}

abbrev pub object : ℕ → Bytes → Option ℕ → FileType → Option Bytes → Object
object id name parent type hash = record {
  id = id;
  revision = 1;
  filename = name;
  parent = parent;
  len = 2;
  modify_time = 7;
  type = type;
  blake2b = hash;
  target = none;
}

abbrev pub fetched : Db
fetched = record {
  repositories = (114 ∷ []) ∷ [];
  revisions =
      record {
        revision = 1;
        repository = 114 ∷ [];
        status = live;
        created_at = 30;
        completed_at = some 40;
      }
      ∷ [];
  next_revision = 2;
  objects =
      object 5 path_d none directory none ∷ object 6 path_da (some 5) regular (some hash_7) ∷ [];
  next_object = 7;
}

pub fetch_run :
    fetch up same []
      (114 ∷ [])
      files
      tasks
      (0 ∷ 0 ∷ 0 ∷ 0 ∷ 0 ∷ [])
      (true ∷ false ∷ true ∷ [])
      30
      40
      empty_db
      []
    ≡ ok (fetched, stored)
unfolding program
fetch_run = refl

pub empty_db-IsServable : IsServable (114 ∷ []) [] empty_db []
empty_db-IsServable = record { bytes = tt; stored = λ status o h k m. absurd m }

pub empty_db-IsNumbered : IsNumbered empty_db
empty_db-IsNumbered = record { revisions = tt; objects = tt }

fetch-IsServable_example : IsServable (114 ∷ []) [] fetched (keys stored) × Grows [] stored
fetch-IsServable_example =
    fetch-IsServable up same [] (114 ∷ []) files tasks (0 ∷ 0 ∷ 0 ∷ 0 ∷ 0 ∷ [])
      (true ∷ false ∷ true ∷ []) 30 40 empty_db [] empty_db-IsServable empty_db-IsNumbered
      (replicate-IsByte 20 7 (omega arith), tt) fetch_run

fetch-latest_live_revision_example :
    latest_live_revision (114 ∷ []) fetched ≡ some (record { revision = 1; generated_at = 30 })
fetch-latest_live_revision_example =
    fetch-latest_live_revision up same [] (114 ∷ []) files tasks (0 ∷ 0 ∷ 0 ∷ 0 ∷ 0 ∷ [])
      (true ∷ false ∷ true ∷ []) 30 40 empty_db [] empty_db-IsNumbered fetch_run

abbrev inserted : Db
inserted = record fetched {
  objects = object 5 path_d none directory none ∷ object 6 path_da none regular (some hash_7) ∷ [];
}

abbrev child : Object
child = object 6 path_da (some 5) regular (some hash_7)
