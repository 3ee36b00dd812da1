-- ===== src/System.antt =====
-- rsync-fetcher and rsync-gc on one repository, one after the other: the lock on the namespace lets
-- only one of them run at a time (rsync-core/src/pg_lock.rs, taken in both main.rs).
pub mod Numbers
pub mod Reached
use rsync_sjtug.Prelude.{ℕ, Bool, List, ◌≡◌, ok, Bytes, All, map, take, replicate}
use rsync_sjtug.Database.Insert.{Metadata, Row, row_of, insert_objects}
use rsync_sjtug.Database.Revisions.{Db}
use rsync_sjtug.Gc.{run}
use rsync_sjtug.Fetcher.FileList.{FileEntry}
use rsync_sjtug.Fetcher.Plan.{TransferItem}
use rsync_sjtug.Fetcher.Receiver.{UploadTask}
use rsync_sjtug.Fetcher.Uploader.{Stored, keys, Shared, Worker, waiting, upload_tasks}
use rsync_sjtug.Fetcher.Uploader.Backed.{HashOfTask}
use rsync_sjtug.Fetcher.Fetch.{upload_conn, at_start, plan_fetch, fetch}

abbrev pub row_of_sent : Bytes × Metadata → Row
row_of_sent (k, v) = row_of k v

-- What a run of a program does to the tables and the keys in the store: a whole fetch, a fetch that
-- is broken off wherever its workers are, with some of the rows inserted, or a collection.
pub data Step (available : Bytes → Bool) (percent_encode : Bytes → Bytes) (namespace prefix : Bytes)
    : Db → List Bytes → Db → List Bytes → Type 0 where
  fetched :
      (files : List FileEntry) (tasks : List UploadTask) (schedule : List ℕ) (ticks : List Bool)
      (started completed : ℕ) (db : Db) (store : List Stored) {db' : Db} {store' : List Stored}
      → All HashOfTask tasks
      → fetch available percent_encode prefix namespace files tasks schedule ticks started completed
          db store
        ≡ ok (db', store')
      → Step available percent_encode namespace prefix db (keys store) db' (keys store')
  interrupted :
      (files : List FileEntry) (tasks : List UploadTask) (schedule : List ℕ) (inserted started : ℕ)
      (db : Db) (store : List Stored) {db' db'' : Db} {revision : ℕ} {items : List TransferItem}
      {workers : List Worker} {queues : Shared}
      → All HashOfTask tasks
      → plan_fetch namespace files started db ≡ ok (db', revision, items)
      → upload_tasks available percent_encode prefix files schedule
          (replicate upload_conn waiting)
          (at_start tasks store)
        ≡ ok (workers, queues)
      → insert_objects revision (map row_of_sent (take inserted queues.pg)) db' ≡ ok db''
      → Step available percent_encode namespace prefix db (keys store) db'' (keys queues.store)
  collected :
      (keep partial_keep : ℕ) (db : Db) (store : List Bytes)
      → Step available percent_encode namespace prefix db store
          (run namespace prefix keep partial_keep db store).0
          (run namespace prefix keep partial_keep db store).1

-- What is reached by such runs.
pub data Reaches (available : Bytes → Bool) (percent_encode : Bytes → Bytes)
    (namespace prefix : Bytes) (db : Db) (store : List Bytes) : Db → List Bytes → Type 0 where
  at_first : Reaches available percent_encode namespace prefix db store db store
  then_step :
      (db' : Db) (store' : List Bytes) {db'' : Db} {store'' : List Bytes}
      → Reaches available percent_encode namespace prefix db store db' store'
      → Step available percent_encode namespace prefix db' store' db'' store''
      → Reaches available percent_encode namespace prefix db store db'' store''
