-- ===== src/Fetcher/Fetch/Live.antt =====
-- rsync-fetcher/src/main.rs: the revision that a fetch commits is the one that the gateway takes.
use rsync_sjtug.Prelude.{
  ℕ, ◌<◌, ◌≡◌, refl, sym, ap, ◌∙◌, Bool, true, Bool-cases, inl, inr, some, List, [], ◌∷◌, ◌++◌, map,
  filter, All, Bytes, bytes_eq, bytes_eq_refl, ok, ensure, Leaves, Leaves-bind, Leaves-ok,
  Leaves-any, arith,
}
use mathlib.Core.Path.{subst}
use rsync_sjtug.Database.Revisions.{
  Revision, partial, live, Db, contains, ensure_repository, create_revision, with_status,
  not_null_violation,
}
use rsync_sjtug.Database.Order.{order_by_revision_desc}
use rsync_sjtug.Database.Insert.{arrived, Metadata}
use rsync_sjtug.Gc.{select_revisions}
use rsync_sjtug.Gateway.Active.{first_live, latest_live_revision}
use rsync_sjtug.Fetcher.FileList.{FileEntry}
use rsync_sjtug.Fetcher.Plan.{TransferItem}
use rsync_sjtug.Fetcher.Receiver.{UploadTask}
use rsync_sjtug.Fetcher.Uploader.{Stored}
use rsync_sjtug.Fetcher.Fetch.{
  update_parent_ids, sent_events, pg_error, map_err, transfer, plan_fetch, commit_fetch, fetch,
}
use rsync_sjtug.Fetcher.Fetch.Rows.{IsNumbered, append_objects-revisions}
use rsync_sjtug.Fetcher.Fetch.Served.{diff_and_apply-revisions}
use rsync_sjtug.Fetcher.Fetch.Safety.{
  new_row, Leaves-map_err, ensure_repository-IsNumbered, commit_fetch-Leaves,
}

-- The row of the new revision after the commit.
abbrev live_row : Bytes → ℕ → ℕ → ℕ → Revision
live_row namespace rev started completed = record (new_row namespace rev started) {
  status = live;
  completed_at = some completed;
}

with_status-older :
    (rev completed : ℕ) (rs : List Revision)
    → All (λ (r : Revision). r.revision < rev) rs
    → map (with_status rev live (some completed)) rs ≡ rs
with_status-older rev completed [] h = refl
with_status-older rev completed (r ∷ rs) h =
    ap (λ q. q ∷ map (with_status rev live (some completed)) rs) same
    ∙ ap (λ qs. r ∷ qs) (with_status-older rev completed rs h.1)
  where
    same : with_status rev live (some completed) r ≡ r
    same = ground (arith, h.0)

map-append_rows :
    (f : Revision → Revision) (xs ys : List Revision) → map f (xs ++ ys) ≡ map f xs ++ map f ys
map-append_rows f [] ys = refl
map-append_rows f (x ∷ xs) ys = ap (λ l. f x ∷ l) (map-append_rows f xs ys)

filter-append_rows :
    (p : Revision → Bool) (xs : List Revision) (y : Revision)
    → p y ≡ true
    → filter p (xs ++ (y ∷ [])) ≡ filter p xs ++ (y ∷ [])
filter-append_rows p [] y e = rw e refl
filter-append_rows p (x ∷ xs) y e = elim (Bool-cases (p x)) [
  | inl t ↦ rw t (ap (λ l. x ∷ l) (filter-append_rows p xs y e))
  | inr t ↦ rw t (filter-append_rows p xs y e)
]

All-filter_rows :
    (P : Revision → Type 0) (p : Revision → Bool) (xs : List Revision)
    → All P xs
    → All P (filter p xs)
All-filter_rows P p [] h = tt
All-filter_rows P p (x ∷ xs) h = elim (Bool-cases (p x)) [
  | inl t ↦ rw t (h.0, All-filter_rows P p xs h.1)
  | inr t ↦ rw t (All-filter_rows P p xs h.1)
]

-- The greatest revision comes first.
order_by_revision_desc-append :
    (rs : List Revision) (r : Revision)
    → All (λ (q : Revision). q.revision < r.revision) rs
    → order_by_revision_desc (rs ++ (r ∷ [])) ≡ r ∷ order_by_revision_desc rs
unfolding order_by_revision_desc
order_by_revision_desc-append [] r h = refl
order_by_revision_desc-append (q ∷ rs) r h =
    rw (order_by_revision_desc-append rs r h.1) (ground (arith, h.0))

-- What the revisions are after a fetch.
abbrev Committed : Bytes → List Revision → ℕ → ℕ → ℕ → Db → Type 0
Committed namespace old rev started completed db =
    db.revisions ≡ old ++ (live_row namespace rev started completed ∷ [])

latest_live_revision-Committed :
    (namespace : Bytes) (old : List Revision) (rev started completed : ℕ) (db : Db)
    → All (λ (r : Revision). r.revision < rev) old
    → Committed namespace old rev started completed db
    → latest_live_revision namespace db ≡ some (record { revision = rev; generated_at = started })
unfolding latest_live_revision first_live select_revisions
latest_live_revision-Committed namespace old rev started completed db h e =
    ap
      (λ rs.
        first_live
          (order_by_revision_desc (filter (λ (r : Revision). bytes_eq r.repository namespace) rs)))
      e
    ∙ ap (λ rs. first_live (order_by_revision_desc rs))
        (filter-append_rows _ old (live_row namespace rev started completed)
          (bytes_eq_refl namespace))
    ∙ ap first_live (
        order_by_revision_desc-append _ (live_row namespace rev started completed)
          (All-filter_rows _ _ old h))

plan_fetch-revisions :
    (namespace : Bytes) (files : List FileEntry) (now : ℕ) (db : Db)
    → Leaves
        (λ (db', rev, items).
          (rev ≡ (ensure_repository namespace db).next_revision)
          × (db'.revisions
              ≡ (ensure_repository namespace db).revisions
                ++ (new_row namespace (ensure_repository namespace db).next_revision now ∷ [])))
        (plan_fetch namespace files now db)
unfolding plan_fetch create_revision
plan_fetch-revisions namespace files now db =
    Leaves-bind
      (λ (db', rev).
        (rev ≡ made.next_revision)
        × (db'.revisions ≡ made.revisions ++ (new_row namespace made.next_revision now ∷ [])))
      Planned (create_revision namespace partial now made) _
      (Leaves-bind (λ _. Unit {0})
        (λ (db', rev).
          (rev ≡ made.next_revision)
          × (db'.revisions ≡ made.revisions ++ (new_row namespace made.next_revision now ∷ [])))
        (ensure (contains namespace made.repositories) not_null_violation) _ (Leaves-any _)
        λ u v. (refl, refl))
      λ (db', rev) (e, f). (e, diff_and_apply-revisions namespace [] [] rev files db' ∙ f)
  where
    made : Db
    made = ensure_repository namespace db

    Planned : Db × ℕ × List TransferItem → Type 0
    Planned (db', rev, items) =
        (rev ≡ made.next_revision)
        × (db'.revisions ≡ made.revisions ++ (new_row namespace made.next_revision now ∷ []))

commit_fetch-Committed :
    (namespace : Bytes) (old : List Revision) (rev started completed : ℕ) (ticks : List Bool)
    (queued : List (Bytes × Metadata)) (db : Db)
    → All (λ (r : Revision). r.revision < rev) old
    → db.revisions ≡ old ++ (new_row namespace rev started ∷ [])
    → Leaves
        (Committed namespace old rev started completed)
        (commit_fetch rev ticks completed queued db)
unfolding update_parent_ids
commit_fetch-Committed namespace old rev started completed ticks queued db h e =
    commit_fetch-Leaves (Committed namespace old rev started completed) rev ticks completed queued
      db
      (ap (map (with_status rev live (some completed)))
          (append_objects-revisions rev (arrived (sent_events ticks queued)) db ∙ e)
        ∙ map-append_rows _ old (new_row namespace rev started ∷ [])
        ∙ ap
            (λ rs.
              rs ++ (with_status rev live (some completed) (new_row namespace rev started) ∷ []))
            (with_status-older rev completed old h)
        ∙ ap (λ r. old ++ (r ∷ [])) (changed namespace rev started completed))
  where
    changed :
        (namespace : Bytes) (rev started completed : ℕ)
        → with_status rev live (some completed) (new_row namespace rev started)
          ≡ live_row namespace rev started completed
    changed namespace rev started completed = ground arith

ensure_repository-next_revision :
    (namespace : Bytes) (db : Db)
    → (ensure_repository namespace db).next_revision ≡ db.next_revision
unfolding ensure_repository
ensure_repository-next_revision namespace db = ground arith

module _ (available : Bytes → Bool) (percent_encode : Bytes → Bytes) (prefix : Bytes) where
  -- If the numbers of revisions are still to be handed out, then after a whole fetch the gateway's
  -- query for the latest live revision returns the revision that the fetch has made, with the time
  -- at which it was started.
  pub fetch-latest_live_revision :
      (namespace : Bytes) (files : List FileEntry) (tasks : List UploadTask) (schedule : List ℕ)
      (ticks : List Bool) (started completed : ℕ) (db : Db) (store : List Stored) {db' : Db}
      {store' : List Stored}
      → IsNumbered db
      → fetch available percent_encode prefix namespace files tasks schedule ticks started completed
          db store
        ≡ ok (db', store')
      → latest_live_revision namespace db'
        ≡ some (record { revision = db.next_revision; generated_at = started })
  unfolding fetch
  fetch-latest_live_revision namespace files tasks schedule ticks started completed db store n e =
      latest_live_revision-Committed namespace made.revisions made.next_revision started completed _
        numbered
        (Leaves-ok
          (λ (db', store').
            Committed namespace made.revisions made.next_revision started completed db')
          _ committed e)
      ∙ ap (λ rev. some (record { revision = rev; generated_at = started }))
          (ensure_repository-next_revision namespace db)
    where
      made : Db
      made = ensure_repository namespace db

      numbered : All (λ (r : Revision). r.revision < made.next_revision) made.revisions
      numbered = (ensure_repository-IsNumbered namespace db n).revisions

      Done : Db × List Stored → Type 0
      Done (db', store') =
          Committed namespace made.revisions made.next_revision started completed db'

      committed : Leaves Done (
          fetch available percent_encode prefix namespace files tasks schedule ticks started
            completed db store)
      committed =
          Leaves-bind
            (λ (db', rev, items).
              (rev ≡ made.next_revision)
              × (db'.revisions
                  ≡ made.revisions ++ (new_row namespace made.next_revision started ∷ [])))
            Done (map_err pg_error (plan_fetch namespace files started db)) _
            (Leaves-map_err pg_error _ (plan_fetch namespace files started db)
              (plan_fetch-revisions namespace files started db))
            λ (db', rev, items) (same, rows).
              Leaves-bind (λ _. Unit {0}) Done
                (transfer available percent_encode prefix files tasks schedule store) _
                (Leaves-any _)
                λ s u.
                  Leaves-bind
                    (Committed namespace made.revisions made.next_revision started completed) Done
                    (map_err pg_error (commit_fetch rev ticks completed s.pg db')) _
                    (Leaves-map_err pg_error _ (commit_fetch rev ticks completed s.pg db') (
                      subst
                        (λ k.
                          Leaves
                            (Committed namespace made.revisions made.next_revision started
                              completed)
                            (commit_fetch k ticks completed s.pg db'))
                        (sym same)
                        (commit_fetch-Committed namespace made.revisions made.next_revision started
                          completed ticks s.pg db' numbered rows)))
                    λ db'' k. k
