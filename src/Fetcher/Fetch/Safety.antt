-- ===== src/Fetcher/Fetch/Safety.antt =====
-- rsync-fetcher/src/main.rs: a fetch leaves every object of the repository with its file.
use rsync_sjtug.Prelude.{
  ℕ, ◌<◌, ◌≡◌, refl, sym, ap, ◌∙◌, Bool, true, ◌&&◌, ◌||◌, Bool-cases, inl, inr, Option, none, some,
  List, [], ◌∷◌, ◌++◌, map, All, All-weaken, All-In, In, Bytes, Result, ok, err, fault, ensure,
  Leaves, Leaves-bind, Leaves-ok, Leaves-any, Leaves-weaken, Leaves-self, replicate, arith,
}
use mathlib.Core.Path.{subst}
use rsync_sjtug.Database.Revisions.{
  Revision, partial, live, Object, Db, contains, ensure_repository, create_revision, with_status,
  change_revision_status, all_rows, completed_if_live, check_violation,
}
use rsync_sjtug.Database.Insert.{
  Metadata, arrived, append_objects, insert_task, insert_task-append_objects,
}
use rsync_sjtug.Gc.{elem, revisions_with}
use rsync_sjtug.Gc.Safety.{HashIsBytes, IsServable}
use rsync_sjtug.Fetcher.FileList.{FileEntry}
use rsync_sjtug.Fetcher.Plan.{local_revs}
use rsync_sjtug.Fetcher.Receiver.{UploadTask}
use rsync_sjtug.Fetcher.Uploader.{Stored, keys, Shared, Worker, waiting, UploadError, upload_tasks}
use rsync_sjtug.Fetcher.Uploader.Backed.{
  HashOfTask, RowIsBacked, IsBacked, Grows, upload_tasks-IsBacked,
}
use rsync_sjtug.Fetcher.Fetch.{
  with_parent, update_parent_ids, sent_events, FetchError, map_err, pg_error, upload_error,
  still_running, all_waiting, no_tasks, upload_conn, at_start, finished, transfer, plan_fetch,
  commit_fetch, fetch,
}
use rsync_sjtug.Fetcher.Fetch.Rows.{
  All-map, All-of-In, HashIsServed, IsNumbered, arrived-sent_events, elem-local_revs,
  elem-revisions_with-append, elem-revisions_with-with_status, append_objects-revisions,
  is_closed-sent_events, row_of-HashIsServed,
}
use rsync_sjtug.Fetcher.Fetch.Served.{
  ObjectIsServed, ObjectIsServed-Grows, ObjectIsServed-IsServable, SeesNoMore,
  diff_and_apply-ObjectIsServed, diff_and_apply-revisions, append_objects-ObjectIsServed,
  with_parent-ObjectIsServed,
}

ensure_repository-IsServable :
    (namespace prefix : Bytes) (db : Db) (store : List Bytes)
    → IsServable namespace prefix db store
    → IsServable namespace prefix (ensure_repository namespace db) store
unfolding ensure_repository
ensure_repository-IsServable namespace prefix db store s =
    elim (Bool-cases (contains namespace db.repositories)) [
      | inl e ↦ rw e s
      | inr e ↦ rw e (record { bytes = s.bytes; stored = s.stored })
    ]

pub ensure_repository-IsNumbered :
    (namespace : Bytes) (db : Db) → IsNumbered db → IsNumbered (ensure_repository namespace db)
unfolding ensure_repository
ensure_repository-IsNumbered namespace db s =
    elim (Bool-cases (contains namespace db.repositories)) [
      | inl e ↦ rw e s
      | inr e ↦ rw e (record { revisions = s.revisions; objects = s.objects })
    ]

-- What the plan leaves: the objects are served, and the new revision's number is not an old one's.
abbrev pub Planned : Bytes → Bytes → List Stored → List Revision → Db × ℕ → Type 0
Planned namespace prefix store old (db, rev) =
    All (ObjectIsServed namespace prefix old rev store) db.objects
    × SeesNoMore namespace prefix old rev db.revisions

abbrev pub new_row : Bytes → ℕ → ℕ → Revision
new_row namespace rev now = record {
  revision = rev;
  repository = namespace;
  status = partial;
  created_at = now;
  completed_at = none;
}

create_revision-Planned :
    (namespace prefix : Bytes) (now : ℕ) (db : Db) (store : List Stored)
    → IsServable namespace prefix db (keys store)
    → IsNumbered db
    → Leaves
        (λ (p : Db × ℕ).
          Planned namespace prefix store db.revisions p
          × ((o : Object)
              → In o p.0.objects
              → elem o.revision (local_revs namespace p.0.revisions) ≡ true
              → HashIsServed prefix store o.blake2b))
        (create_revision namespace partial now db)
unfolding create_revision
create_revision-Planned namespace prefix now db store s n =
    Leaves-bind _ _ (ensure (contains namespace db.repositories) _) _ (Leaves-any _) λ u v. (
      (
        All-of-In _ db.objects (λ o m.
            inr (number_of o m, bytes_of o m, λ status h k e r. s.stored status o h k m e r)),
        λ status k l. elem-revisions_with-append status namespace k db.revisions _ l,
      ),
      λ o m e. served o m e,
    )
  where
    number_of : (o : Object) → In o db.objects → o.revision < db.next_revision
    number_of o m = All-In o (λ q. q.revision < db.next_revision) db.objects n.objects m

    bytes_of : (o : Object) → In o db.objects → HashIsBytes o.blake2b
    bytes_of o m = All-In o (λ q. HashIsBytes q.blake2b) db.objects s.bytes m

    used_by :
        (o : Object) (h : Option Bytes)
        → In o db.objects
        → o.blake2b ≡ h
        → (elem o.revision (
              revisions_with live namespace
                (db.revisions ++ (new_row namespace db.next_revision now ∷ [])))
            || elem o.revision (
                revisions_with partial namespace
                  (db.revisions ++ (new_row namespace db.next_revision now ∷ []))))
          ≡ true
        → HashIsServed prefix store h
    used_by o none m e r = tt
    used_by o (some h) m e r = (
      subst HashIsBytes e (bytes_of o m),
      elim (Bool-cases (elem o.revision (revisions_with live namespace db.revisions))) [
        | inl l ↦ s.stored live o h refl m e l
        | inr l ↦ s.stored partial o h refl m e (
            ground (
              arith,
              elem-revisions_with-append live namespace o.revision db.revisions
                  (new_row namespace db.next_revision now) (number_of o m),
              elem-revisions_with-append partial namespace o.revision db.revisions
                  (new_row namespace db.next_revision now) (number_of o m),
            ))
      ],
    )

    served :
        (o : Object)
        → In o db.objects
        → elem o.revision
            (local_revs namespace (db.revisions ++ (new_row namespace db.next_revision now ∷ [])))
          ≡ true
        → HashIsServed prefix store o.blake2b
    served o m e = used_by o o.blake2b m refl (
        sym (
          elem-local_revs namespace o.revision
            (db.revisions ++ (new_row namespace db.next_revision now ∷ [])))
        ∙ e)

pub plan_fetch-Planned :
    (namespace prefix : Bytes) (files : List FileEntry) (now : ℕ) (db : Db) (store : List Stored)
    → IsServable namespace prefix db (keys store)
    → IsNumbered db
    → Leaves
        (λ (db', rev, items).
          Planned namespace prefix store (ensure_repository namespace db).revisions (db', rev))
        (plan_fetch namespace files now db)
unfolding plan_fetch
plan_fetch-Planned namespace prefix files now db store s n =
    Leaves-bind _ _ (create_revision namespace partial now (ensure_repository namespace db)) _
      (create_revision-Planned namespace prefix now (ensure_repository namespace db) store
        (ensure_repository-IsServable namespace prefix db (keys store) s)
        (ensure_repository-IsNumbered namespace db n))
      λ (db', rev) ((h, sees), served). (
        diff_and_apply-ObjectIsServed namespace prefix _ rev store files db' served h,
        λ status k l.
            ap (λ rs. elem k (revisions_with status namespace rs))
              (diff_and_apply-revisions namespace prefix (ensure_repository namespace db).revisions
                rev files db')
            ∙ sees status k l,
      )

pub change_revision_status-Leaves :
    (P : Db → Type 0) (rev now : ℕ) (db : Db)
    → P (record db { revisions = map (with_status rev live (some now)) db.revisions })
    → Leaves P (change_revision_status rev live (some now) db)
unfolding change_revision_status
change_revision_status-Leaves P rev now db h =
    Leaves-bind _ P
      (ensure (all_rows completed_if_live (map (with_status rev live (some now)) db.revisions))
        check_violation)
      (λ u. ok (record db { revisions = map (with_status rev live (some now)) db.revisions }))
      (Leaves-any _) λ u v. h

-- The tables after a fetch that succeeds, from those after its uploads.
pub commit_fetch-Leaves :
    (P : Db → Type 0) (rev : ℕ) (ticks : List Bool) (now : ℕ) (queued : List (Bytes × Metadata))
    (db : Db)
    → P
        (record (update_parent_ids rev
          (append_objects rev (arrived (sent_events ticks queued)) db)) {
            revisions =
                map
                  (with_status rev live (some now))
                  (update_parent_ids rev
                    (append_objects rev (arrived (sent_events ticks queued)) db)).revisions;
          })
    → Leaves P (commit_fetch rev ticks now queued db)
unfolding commit_fetch
commit_fetch-Leaves P rev ticks now queued db h =
    Leaves-bind (λ db'. db' ≡ append_objects rev (arrived (sent_events ticks queued)) db) P
      (insert_task rev (sent_events ticks queued) db)
      (λ db'. change_revision_status rev live (some now) (update_parent_ids rev db'))
      (insert_task-append_objects rev (sent_events ticks queued) db
        (is_closed-sent_events ticks queued))
      λ db' e.
        subst (λ d. Leaves P (change_revision_status rev live (some now) (update_parent_ids rev d)))
          (sym e) (change_revision_status-Leaves P rev now _ h)

commit_fetch-IsServable :
    (namespace prefix : Bytes) (store : List Stored) (old : List Revision) (rev : ℕ)
    (ticks : List Bool) (now : ℕ) (queued : List (Bytes × Metadata)) (db : Db)
    → Planned namespace prefix store old (db, rev)
    → All (RowIsBacked prefix store) queued
    → Leaves
        (λ db'. IsServable namespace prefix db' (keys store))
        (commit_fetch rev ticks now queued db)
unfolding update_parent_ids
commit_fetch-IsServable namespace prefix store old rev ticks now queued db (h, sees) b =
    commit_fetch-Leaves (λ db'. IsServable namespace prefix db' (keys store)) rev ticks now queued
      db
      (ObjectIsServed-IsServable namespace prefix old rev store
        (record (update_parent_ids rev inserted) {
          revisions = map (with_status rev live (some now)) inserted.revisions;
        })
        (λ status k l.
          elem-revisions_with-with_status status live now namespace k rev _ l
          ∙ ap (λ rs. elem k (revisions_with status namespace rs))
              (append_objects-revisions rev (arrived (sent_events ticks queued)) db)
          ∙ sees status k l)
        (All-map _ (with_parent rev inserted.objects) _ (
          All-weaken _ _ _
            (with_parent-ObjectIsServed namespace prefix old rev store rev inserted.objects)
            (append_objects-ObjectIsServed namespace prefix old rev store rev _ db
              (arrived-sent_events _ ticks queued
                (All-weaken _ _ queued (row_of-HashIsServed prefix store) b))
              h))))
  where
    inserted : Db
    inserted = append_objects rev (arrived (sent_events ticks queued)) db

pub Leaves-map_err :
    {E A : Type 0} (f : E → FetchError) (P : A → Type 0) (m : Result E A)
    → Leaves P m
    → Leaves P (map_err f m)
Leaves-map_err f P (ok a) h = h
Leaves-map_err f P (err e) h = tt
Leaves-map_err f P fault h = tt

module _ (available : Bytes → Bool) (percent_encode : Bytes → Bytes) (prefix : Bytes) where
  transfer-IsBacked :
      (files : List FileEntry) (tasks : List UploadTask) (schedule : List ℕ) (store : List Stored)
      → All HashOfTask tasks
      → Leaves
          (λ (s : Shared). IsBacked prefix s × Grows store s.store)
          (transfer available percent_encode prefix files tasks schedule store)
  unfolding transfer
  transfer-IsBacked files tasks schedule store h =
      Leaves-bind (λ (p : List Worker × Shared). IsBacked prefix p.1 × Grows store p.1.store)
        (λ (s : Shared). IsBacked prefix s × Grows store s.store) (map_err upload_error uploaded)
        finished
        (Leaves-map_err upload_error
          (λ (p : List Worker × Shared). IsBacked prefix p.1 × Grows store p.1.store) uploaded
          (Leaves-weaken (λ p. uploaded ≡ ok p)
            (λ (p : List Worker × Shared). IsBacked prefix p.1 × Grows store p.1.store) uploaded
            (Leaves-self uploaded)
            λ (ws, s) e.
              upload_tasks-IsBacked available percent_encode prefix files schedule upload_conn
                (at_start tasks store) (record { queued = h; uploaded = tt; rows = tt }) e))
        λ (ws, s) k.
          Leaves-bind (λ _. Unit {0}) (λ (s : Shared). IsBacked prefix s × Grows store s.store)
            (ensure (all_waiting ws && no_tasks s.rx) still_running) (λ _. ok s) (Leaves-any _)
            λ u v. k
    where
      uploaded : Result UploadError (List Worker × Shared)
      uploaded =
          upload_tasks available percent_encode prefix files schedule
            (replicate upload_conn waiting) (at_start tasks store)

  fetch-Leaves :
      (namespace : Bytes) (files : List FileEntry) (tasks : List UploadTask) (schedule : List ℕ)
      (ticks : List Bool) (started completed : ℕ) (db : Db) (store : List Stored)
      → IsServable namespace prefix db (keys store)
      → IsNumbered db
      → All HashOfTask tasks
      → Leaves
          (λ (db', store'). IsServable namespace prefix db' (keys store') × Grows store store')
          (fetch available percent_encode prefix namespace files tasks schedule ticks started
            completed db store)
  unfolding fetch
  fetch-Leaves namespace files tasks schedule ticks started completed db store s n h =
      Leaves-bind (λ (db', rev, items). Planned namespace prefix store old (db', rev)) Done
        (map_err pg_error (plan_fetch namespace files started db)) _
        (Leaves-map_err pg_error _ (plan_fetch namespace files started db)
          (plan_fetch-Planned namespace prefix files started db store s n))
        λ (db', rev, items) (p, sees).
          Leaves-bind (λ (s' : Shared). IsBacked prefix s' × Grows store s'.store) Done
            (transfer available percent_encode prefix files tasks schedule store) _
            (transfer-IsBacked files tasks schedule store h)
            λ s' (b, g).
              Leaves-bind (λ db''. IsServable namespace prefix db'' (keys s'.store)) Done
                (map_err pg_error (commit_fetch rev ticks completed s'.pg db')) _
                (Leaves-map_err pg_error _ (commit_fetch rev ticks completed s'.pg db') (
                  commit_fetch-IsServable namespace prefix s'.store old rev ticks completed s'.pg
                    db'
                    (
                      All-weaken _ _ db'.objects
                          (ObjectIsServed-Grows namespace prefix old rev store s'.store g) p,
                      sees,
                    )
                    b.rows))
                λ db'' k. (k, g)
    where
      old : List Revision
      old = (ensure_repository namespace db).revisions

      Done : Db × List Stored → Type 0
      Done (db', store') = IsServable namespace prefix db' (keys store') × Grows store store'

  -- If every object of the repository's live and partial revisions has its file in the store, the
  -- numbers of revisions are still to be handed out, and the tasks have byte strings as hashes, then
  -- a whole fetch leaves every object of those revisions, the new one among them, with its file in
  -- the store, and takes no file out of the store, however the workers are interleaved and whenever
  -- the timer of the database task goes off.
  pub fetch-IsServable :
      (namespace : Bytes) (files : List FileEntry) (tasks : List UploadTask) (schedule : List ℕ)
      (ticks : List Bool) (started completed : ℕ) (db : Db) (store : List Stored) {db' : Db}
      {store' : List Stored}
      → IsServable namespace prefix db (keys store)
      → IsNumbered db
      → All HashOfTask tasks
      → fetch available percent_encode prefix namespace files tasks schedule ticks started completed
          db store
        ≡ ok (db', store')
      → IsServable namespace prefix db' (keys store') × Grows store store'
  fetch-IsServable namespace files tasks schedule ticks started completed db store s n h e =
      Leaves-ok _ _
        (fetch-Leaves namespace files tasks schedule ticks started completed db store s n h) e
