-- ===== src/Fetcher/Uploader.antt =====
-- rsync-fetcher/src/rsync/uploader.rs: the workers that put received files into the store and queue
-- their metadata. A worker is suspended wherever the source awaits, so a schedule is a list of the
-- workers that go on. The store's failures and the encoding of names are parameters.
pub mod Backed
pub mod Progress
use rsync_sjtug.Prelude.{
  ℕ, zero, suc, ◌+◌, ◌-◌, ◌%◌, Bool, true, false, Option, none, some, List, [], ◌∷◌, ◌++◌, map,
  Bytes, bytes_eq, Result, ok, err, fault, ◌>>=◌, ◌>>◌, ensure, ◌==◌, if◌then◌else◌, get_elem?,
  u64_mod,
}
use rsync_sjtug.Database.Revisions.{contains}
use rsync_sjtug.Database.Insert.{Metadata, regular_extra}
use rsync_sjtug.Gc.{object_key}
use rsync_sjtug.Gateway.Realpath.{
  Component, prefix, root_dir, cur_dir, parent_dir, normal, components,
}
use rsync_sjtug.Gateway.Listing.{content_disposition}
use rsync_sjtug.Fetcher.FileList.{FileEntry}
use rsync_sjtug.Fetcher.Receiver.{UploadTask, fetch_sub}

-- An object of the store.
pub record Stored : Type 0 where
  pub key : Bytes
  pub contents : Bytes
  pub disposition : Option Bytes

abbrev pub keys : List Stored → List Bytes
keys store = map (λ (s : Stored). s.key) store

-- What the workers share: the queue of tasks, the store, the set of what was uploaded, what was
-- queued for the database, and the counter of the progress display.
pub record Shared : Type 0 where
  pub rx : List UploadTask
  pub store : List Stored
  pub uploaded : List Bytes
  pub pg : List (Bytes × Metadata)
  pub uploading : ℕ

-- Where a worker is suspended: before a task, before `stat`, before the write, after the upload,
-- or before the metadata are sent.
pub data Worker : Type 0 where
  waiting : Worker
  checking writing written updating : UploadTask → Worker

pub data UploadError : Type 0 where
  store_error : UploadError

-- `Path::file_name`: the last component, if it is a name.
unfoldable pub last_name : List Component → Option Bytes
last_name [] = none
last_name (c ∷ d ∷ cs) = last_name (d ∷ cs)
last_name (normal name ∷ []) = some name
last_name (prefix ∷ []) = none
last_name (root_dir ∷ []) = none
last_name (cur_dir ∷ []) = none
last_name (parent_dir ∷ []) = none

unfoldable pub file_name : Bytes → Option Bytes
file_name path = last_name (components path)

-- `available` says whether the store answers for a key.
module _ (available : Bytes → Bool) (percent_encode : Bytes → Bytes) (s3_prefix : Bytes)
    (file_list : List FileEntry) where
  abbrev pub disposition_of : Option Bytes → Option Bytes
  disposition_of none = none
  disposition_of (some filename) = some (content_disposition (percent_encode filename))

  -- `self.file_list[idx]`
  unfoldable pub entry_at : ℕ → Result UploadError FileEntry
  entry_at idx = elim (get_elem? file_list idx) [ none ↦ fault | some entry ↦ ok entry ]

  -- `update_metadata`
  unfoldable pub update_metadata : ℕ → Bytes → Shared → Result UploadError Shared
  update_metadata idx blake2b_hash s = do
    entry ← entry_at idx
    let metadata : Metadata = record {
      len = entry.len;
      modify_time = entry.modify_time;
      extra = regular_extra blake2b_hash;
    }
    ok (record s { pg = s.pg ++ ((entry.name, metadata) ∷ []) })

  -- The next task of the queue, and the test of `uploaded`.
  unfoldable pub take_task : List UploadTask → Shared → Worker × Shared
  take_task [] s = (waiting, s)
  take_task (t ∷ ts) s =
      (if contains t.blake2b_hash s.uploaded then updating t else checking t, record s { rx = ts })

  -- The writer of `upload_s3`, up to `close`.
  unfoldable pub write_object : UploadTask → FileEntry → Shared → Shared
  write_object t entry s =
      let stored : Stored = record {
        key = object_key s3_prefix t.blake2b_hash;
        contents = t.file;
        disposition = disposition_of (file_name entry.name);
      } in
      record s { store = stored ∷ s.store }

  -- One worker goes on to its next suspension.
  unfoldable pub advance : Worker → Shared → Result UploadError (Worker × Shared)
  advance waiting s = ok (take_task s.rx s)
  advance (checking t) s = do
    entry ← entry_at t.idx
    ensure (available (object_key s3_prefix t.blake2b_hash)) store_error
    ok (
      if contains (object_key s3_prefix t.blake2b_hash) (keys s.store)
          then written t
          else writing t,
      s,
    )
  advance (writing t) s = do
    entry ← entry_at t.idx
    ensure (available (object_key s3_prefix t.blake2b_hash)) store_error
    ok (written t, write_object t entry s)
  advance (written t) s = ok (updating t, record s { uploaded = t.blake2b_hash ∷ s.uploaded })
  advance (updating t) s = do
    s' ← update_metadata t.idx t.blake2b_hash (record s { uploading = fetch_sub s.uploading })
    ok (waiting, s')

  -- Worker `i` goes on; a schedule that names no worker changes nothing.
  unfoldable pub advance_worker :
      ℕ → List Worker → Shared → Result UploadError (List Worker × Shared)
  advance_worker i [] s = ok ([], s)
  advance_worker zero (w ∷ ws) s = do (w', s') ← advance w s; ok (w' ∷ ws, s')
  advance_worker (suc i) (w ∷ ws) s = do (ws', s') ← advance_worker i ws s; ok (w ∷ ws', s')

  -- `upload_tasks`: the first error ends all of them.
  unfoldable pub upload_tasks :
      List ℕ → List Worker → Shared → Result UploadError (List Worker × Shared)
  upload_tasks [] ws s = ok (ws, s)
  upload_tasks (i ∷ schedule) ws s = do
    (ws', s') ← advance_worker i ws s
    upload_tasks schedule ws' s'
