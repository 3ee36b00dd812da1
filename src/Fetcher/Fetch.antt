-- ===== src/Fetcher/Fetch.antt =====
-- rsync-fetcher/src/main.rs with rsync-fetcher/src/pg.rs: a whole fetch over the tables and the
-- store. What the receiver queues, the interleaving of the uploader's workers and the timer of the
-- database task are arguments.
pub mod Names
pub mod Parents
pub mod Rows
pub mod Served
pub mod Safety
pub mod Live
use rsync_sjtug.Prelude.{
  ℕ, ◌+◌, Bool, true, false, Option, none, some, List, [], ◌∷◌, ◌++◌, map, Bytes, bytes_eq, Result,
  ok, err, fault, ◌>>=◌, ◌>>◌, ensure, ◌==◌, ◌&&◌, if◌then◌else◌, replicate,
}
use rsync_sjtug.Database.Revisions.{
  Object, Db, PgError, partial, live, ensure_repository, create_revision, change_revision_status,
}
use rsync_sjtug.Database.Insert.{Metadata, Event, tick, received, closed, insert_task}
use rsync_sjtug.Fetcher.FileList.{FileEntry}
use rsync_sjtug.Fetcher.Plan.{TransferItem, diff_and_apply}
use rsync_sjtug.Fetcher.Receiver.{UploadTask}
use rsync_sjtug.Fetcher.Uploader.{Stored, Shared, Worker, waiting, UploadError, upload_tasks}

-- `substring(filename for rposition(filename, '/') - 1)`. `rposition` does not look at the last byte.
unfoldable pub directory_of : Bytes → Option Bytes
directory_of [] = none
directory_of (c ∷ []) = none
directory_of (c ∷ d ∷ cs) = elim (directory_of (d ∷ cs)) [
  | some parent ↦ some (c ∷ parent)
  | none ↦ if c == 47 then some [] else none
]

-- The join of `parents` with the objects of the revision.
unfoldable pub id_of : ℕ → Bytes → List Object → Option ℕ
id_of revision name [] = none
id_of revision name (o ∷ os) =
    let rest = id_of revision name os in
    if (o.revision == revision) && bytes_eq o.filename name then some o.id else rest

abbrev pub parent_id : ℕ → List Object → Option Bytes → Option ℕ
parent_id revision objects none = none
parent_id revision objects (some name) = id_of revision name objects

abbrev pub set_parent : Option ℕ → Object → Object
set_parent none o = o
set_parent (some id) o = record o { parent = some id }

unfoldable pub with_parent : ℕ → List Object → Object → Object
with_parent revision objects o =
    if o.revision == revision
    then set_parent (parent_id revision objects (directory_of o.filename)) o
    else o

-- sqls/update_parent.sql
unfoldable pub update_parent_ids : ℕ → Db → Db
update_parent_ids revision db = record db {
  objects = map (with_parent revision db.objects) db.objects;
}

-- What the database task sees: `true` in the list is a tick of its timer before the next object.
unfoldable pub sent_events : List Bool → List (Bytes × Metadata) → List Event
sent_events [] [] = closed ∷ []
sent_events [] ((k, v) ∷ rows) = received k v ∷ sent_events [] rows
sent_events (true ∷ ticks) rows = tick ∷ sent_events ticks rows
sent_events (false ∷ ticks) [] = sent_events ticks []
sent_events (false ∷ ticks) ((k, v) ∷ rows) = received k v ∷ sent_events ticks rows

-- An error of the database or of an upload. A schedule that ends while a worker has something to do
-- is not one of a whole fetch.
pub data FetchError : Type 0 where
  pg_error : PgError → FetchError
  upload_error : UploadError → FetchError
  still_running : FetchError

abbrev pub map_err {ℓ} :
    {E : Type 0} {A : Type ℓ} → (E → FetchError) → Result E A → Result FetchError A
map_err f (ok a) = ok a
map_err f (err e) = err (f e)
map_err f fault = fault

abbrev pub is_waiting : Worker → Bool
is_waiting waiting = true
is_waiting _ = false

abbrev pub all_waiting : List Worker → Bool
all_waiting [] = true
all_waiting (w ∷ ws) = is_waiting w && all_waiting ws

abbrev pub no_tasks : List UploadTask → Bool
no_tasks [] = true
no_tasks (t ∷ ts) = false

-- `UPLOAD_CONN`
abbrev pub upload_conn : ℕ
upload_conn = 8

-- Up to the transfer plan: the tables, the new revision and what is to be transferred.
unfoldable pub plan_fetch :
    Bytes → List FileEntry → ℕ → Db → Result PgError (Db × ℕ × List TransferItem)
plan_fetch namespace file_list now db = do
  (db', revision) ← create_revision namespace partial now (ensure_repository namespace db)
  let (db'', copied, transfer_items) = diff_and_apply namespace revision file_list db'
  ok (db'', revision, transfer_items)

-- From the database task on: `queued` is what the uploader sent to it.
unfoldable pub commit_fetch : ℕ → List Bool → ℕ → List (Bytes × Metadata) → Db → Result PgError Db
unfolding insert_task
commit_fetch revision ticks now queued db = do
  db' ← insert_task revision (sent_events ticks queued) db
  change_revision_status revision live (some now) (update_parent_ids revision db')

-- What the uploader's workers share at the start.
abbrev pub at_start : List UploadTask → List Stored → Shared
at_start tasks store = record { rx = tasks; store = store; uploaded = []; pg = []; uploading = 0 }

-- The uploader has come to its end.
abbrev pub finished : List Worker × Shared → Result FetchError Shared
finished (ws, s) = ensure (all_waiting ws && no_tasks s.rx) still_running >> ok s

module _ (available : Bytes → Bool) (percent_encode : Bytes → Bytes) (s3_prefix : Bytes) where
  -- The uploader's part, over the tasks that the receiver queues.
  unfoldable pub transfer :
      List FileEntry → List UploadTask → List ℕ → List Stored → Result FetchError Shared
  transfer file_list tasks schedule store =
      map_err upload_error (
        upload_tasks available percent_encode s3_prefix file_list schedule
          (replicate upload_conn waiting) (at_start tasks store))
      >>= finished

  -- `main`: the tables and the store after it.
  unfoldable pub fetch :
      Bytes
      → List FileEntry
      → List UploadTask
      → List ℕ
      → List Bool
      → ℕ
      → ℕ
      → Db
      → List Stored
      → Result FetchError (Db × List Stored)
  fetch namespace file_list tasks schedule ticks started completed db store = do
    (db', revision, transfer_items) ← map_err pg_error (plan_fetch namespace file_list started db)
    s ← transfer file_list tasks schedule store
    db'' ← map_err pg_error (commit_fetch revision ticks completed s.pg db')
    ok (db'', s.store)
