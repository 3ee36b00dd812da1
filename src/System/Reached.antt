-- ===== src/System/Reached.antt =====
-- rsync-fetcher and rsync-gc, run after run: no object that is in use loses its file.
use rsync_sjtug.Prelude.{
  sym, ℕ, zero, suc, Bool, List, [], ◌∷◌, ◌≡◌, ok, Bytes, All, All-weaken, map, take, replicate, ap,
  ◌∙◌, Leaves-ok,
}
use rsync_sjtug.Database.Revisions.{Db}
use mathlib.Core.Path.{subst}
use rsync_sjtug.Database.Insert.{insert_objects, insert_objects-append_objects}
use rsync_sjtug.Gc.{revisions_with, elem}
use rsync_sjtug.Gc.Safety.{IsServable, run-IsServable}
use rsync_sjtug.Fetcher.FileList.{FileEntry}
use rsync_sjtug.Fetcher.Plan.{TransferItem}
use rsync_sjtug.Fetcher.Receiver.{UploadTask}
use rsync_sjtug.Fetcher.Uploader.{Stored, keys, Shared, Worker, waiting, upload_tasks}
use rsync_sjtug.Fetcher.Uploader.Backed.{HashOfTask, upload_tasks-IsBacked}
use rsync_sjtug.Fetcher.Fetch.{upload_conn, at_start, plan_fetch}
use rsync_sjtug.Fetcher.Fetch.Rows.{
  IsNumbered, All-map, append_objects-revisions, row_of-HashIsServed,
}
use rsync_sjtug.Fetcher.Fetch.Served.{
  ObjectIsServed-Grows, ObjectIsServed-IsServable, append_objects-ObjectIsServed,
}
use rsync_sjtug.Fetcher.Fetch.Safety.{plan_fetch-Planned, fetch-IsServable}
use rsync_sjtug.System.{
  row_of_sent, Step, fetched, interrupted, collected, Reaches, at_first, then_step,
}
use rsync_sjtug.System.Numbers.{
  run-IsNumbered, append_objects-IsNumbered, plan_fetch-Numbered, fetch-IsNumbered,
}

All-take : {A : Type 0} (P : A → Type 0) (n : ℕ) (xs : List A) → All P xs → All P (take n xs)
All-take P zero xs h = tt
All-take P (suc n) [] h = tt
All-take P (suc n) (x ∷ xs) h = (h.0, All-take P n xs h.1)

module _ (available : Bytes → Bool) (percent_encode : Bytes → Bytes)
    (namespace prefix : Bytes) where
  abbrev IsSound : Db → List Bytes → Type 0
  IsSound db store = IsServable namespace prefix db store × IsNumbered db

  interrupted-IsSound :
      (files : List FileEntry) (tasks : List UploadTask) (schedule : List ℕ) (inserted started : ℕ)
      (db : Db) (store : List Stored) {db' db'' : Db} {rev : ℕ} {items : List TransferItem}
      {ws : List Worker} {s : Shared}
      → All HashOfTask tasks
      → plan_fetch namespace files started db ≡ ok (db', rev, items)
      → upload_tasks available percent_encode prefix files schedule
          (replicate upload_conn waiting)
          (at_start tasks store)
        ≡ ok (ws, s)
      → insert_objects rev (map row_of_sent (take inserted s.pg)) db' ≡ ok db''
      → IsSound db (keys store)
      → IsSound db'' (keys s.store)
  interrupted-IsSound files tasks schedule inserted started db store {db'} {db''} {rev} {items} {ws}
        {s} h planned uploaded written (served, n) =
      let (objects, sees) =
        Leaves-ok _ _ (plan_fetch-Planned namespace prefix files started db store served n)
          planned in
      let (n', l) = Leaves-ok _ _ (plan_fetch-Numbered namespace files started db n) planned in
      let (b, g) =
        upload_tasks-IsBacked available percent_encode prefix files schedule upload_conn
          (at_start tasks store) (record { queued = h; uploaded = tt; rows = tt }) uploaded in
      subst (λ d. IsSound d (keys s.store))
        (sym (
          Leaves-ok _ _
            (insert_objects-append_objects rev (map row_of_sent (take inserted s.pg)) db') written))
        (
          ObjectIsServed-IsServable namespace prefix _ rev s.store _
              (λ status k m.
                ap (λ rs. elem k (revisions_with status namespace rs))
                  (append_objects-revisions rev _ db')
                ∙ sees status k m)
              (append_objects-ObjectIsServed namespace prefix _ rev s.store rev _ db'
                (All-map _ row_of_sent _ (
                  All-weaken _ _ _ (λ row k. row_of-HashIsServed prefix s.store row k)
                    (All-take _ inserted s.pg b.rows)))
                (All-weaken _ _ db'.objects
                  (ObjectIsServed-Grows namespace prefix _ rev store s.store g) objects)),
          (append_objects-IsNumbered rev _ db' l n').0,
        )

  Step-IsSound :
      {db : Db} {store : List Bytes} {db' : Db} {store' : List Bytes}
      → Step available percent_encode namespace prefix db store db' store'
      → IsSound db store
      → IsSound db' store'
  Step-IsSound (fetched files tasks schedule ticks started completed db store h e) (s, n) = (
    (fetch-IsServable available percent_encode prefix namespace files tasks schedule ticks started
        completed db store s n h e).0,
    Leaves-ok _ _
        (fetch-IsNumbered available percent_encode prefix namespace files tasks schedule ticks
          started completed db store n)
        e,
  )
  Step-IsSound
        (interrupted files tasks schedule inserted started db store h planned uploaded written) k =
      interrupted-IsSound files tasks schedule inserted started db store h planned uploaded written
        k
  Step-IsSound (collected keep partial_keep db store) (s, n) = (
    run-IsServable namespace prefix keep partial_keep db store s,
    run-IsNumbered namespace prefix keep partial_keep db store n,
  )

  -- If every object of the repository's live and partial revisions has its file in the store, and
  -- the numbers of revisions are still to be handed out, then both hold after whole fetches, fetches
  -- that are broken off during their uploads, and collections, as many as there are, in any order.
  pub Reaches-IsServable :
      {db : Db} {store : List Bytes} {db' : Db} {store' : List Bytes}
      → IsServable namespace prefix db store
      → IsNumbered db
      → Reaches available percent_encode namespace prefix db store db' store'
      → IsServable namespace prefix db' store' × IsNumbered db'
  Reaches-IsServable s n at_first = (s, n)
  Reaches-IsServable s n (then_step db' store' r step) =
      Step-IsSound step (Reaches-IsServable s n r)
