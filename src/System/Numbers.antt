-- ===== src/System/Numbers.antt =====
-- rsync-fetcher and rsync-gc: the numbers of revisions stay ones that were handed out.
use rsync_sjtug.Prelude.{
  ℕ, ◌+◌, ◌<◌, ◌≡◌, refl, sym, Bool, true, false, Bool-cases, inl, inr, List, [], ◌∷◌, filter,
  Option, none, some, All, All-weaken, All-append, Bytes, ensure, Leaves, Leaves-bind, Leaves-any,
  if◌then◌else◌, ◌==◌, arith,
}
use mathlib.Core.Path.{subst}
use rsync_sjtug.Database.Revisions.{
  Revision, partial, live, Object, Db, contains, not_null_violation, ensure_repository,
  create_revision, with_status,
}
use rsync_sjtug.Database.Insert.{Metadata, Row, append_objects, arrived}
use rsync_sjtug.Gc.{set_stale, mark_stale, remove_revisions, run}
use rsync_sjtug.Fetcher.FileList.{FileEntry}
use rsync_sjtug.Fetcher.Plan.{
  TransferItem, diff_and_apply, diff_unchanged_and_copy, copy_directories, copy_symlinks,
}
use rsync_sjtug.Fetcher.Receiver.{UploadTask}
use rsync_sjtug.Fetcher.Uploader.{Stored}
use rsync_sjtug.Fetcher.Fetch.{
  with_parent, set_parent, parent_id, directory_of, update_parent_ids, sent_events, pg_error,
  map_err, transfer, plan_fetch, commit_fetch, fetch,
}
use rsync_sjtug.Fetcher.Fetch.Rows.{IsNumbered, All-map}
use rsync_sjtug.Fetcher.Fetch.Safety.{
  ensure_repository-IsNumbered, commit_fetch-Leaves, Leaves-map_err,
}

All-filter :
    {A : Type 0} (P : A → Type 0) (p : A → Bool) (xs : List A) → All P xs → All P (filter p xs)
All-filter P p [] h = tt
All-filter P p (x ∷ xs) h = elim (Bool-cases (p x)) [
  | inl t ↦ rw t (h.0, All-filter P p xs h.1)
  | inr t ↦ rw t (All-filter P p xs h.1)
]

set_stale-revision : (revs : List ℕ) (r : Revision) → (set_stale revs r).revision ≡ r.revision
unfolding set_stale
set_stale-revision revs r = ground arith

-- A collection hands out no numbers.
pub run-IsNumbered :
    (namespace prefix : Bytes) (keep partial_keep : ℕ) (db : Db) (store : List Bytes)
    → IsNumbered db
    → IsNumbered (run namespace prefix keep partial_keep db store).0
unfolding run mark_stale remove_revisions
run-IsNumbered namespace prefix keep partial_keep db store n = record {
  revisions = All-filter _ _ _ (
      All-map _ (set_stale _) db.revisions (
        All-weaken _ _ db.revisions
          (λ r l. subst (λ k. k < db.next_revision) (sym (set_stale-revision _ r)) l) n.revisions));
  objects = All-filter _ _ db.objects n.objects;
}

-- Nor do the rows that a fetch inserts for a revision that was handed out.
pub append_objects-IsNumbered :
    (rev : ℕ) (rows : List Row) (db : Db)
    → rev < db.next_revision
    → IsNumbered db
    → IsNumbered (append_objects rev rows db) × (rev < (append_objects rev rows db).next_revision)
unfolding append_objects
append_objects-IsNumbered rev [] db l n = (n, l)
append_objects-IsNumbered rev (r ∷ rows) db l n =
    append_objects-IsNumbered rev rows _ l
      (record { revisions = n.revisions; objects = All-append _ db.objects _ n.objects (l, tt) })

diff_and_apply-IsNumbered :
    (namespace : Bytes) (rev : ℕ) (files : List FileEntry) (db : Db)
    → rev < db.next_revision
    → IsNumbered db
    → IsNumbered (diff_and_apply namespace rev files db).0
      × (rev < (diff_and_apply namespace rev files db).0.next_revision)
unfolding diff_and_apply diff_unchanged_and_copy copy_directories copy_symlinks
diff_and_apply-IsNumbered namespace rev files db l n =
    let (n1, l1) = append_objects-IsNumbered rev _ db l n in
    let (n2, l2) = append_objects-IsNumbered rev _ _ l1 n1 in
    append_objects-IsNumbered rev _ _ l2 n2

abbrev pub Numbered : Db × ℕ × List TransferItem → Type 0
Numbered (db, rev, items) = IsNumbered db × (rev < db.next_revision)

create_revision-IsNumbered :
    (namespace : Bytes) (now : ℕ) (db : Db)
    → IsNumbered db
    → Leaves
        (λ (db', rev). IsNumbered db' × (rev < db'.next_revision))
        (create_revision namespace partial now db)
unfolding create_revision
create_revision-IsNumbered namespace now db n =
    Leaves-bind (λ _. Unit {0}) (λ (db', rev). IsNumbered db' × (rev < db'.next_revision))
      (ensure (contains namespace db.repositories) not_null_violation) _ (Leaves-any _)
      λ u v. (
        record {
          revisions =
              All-append _ db.revisions _
                (All-weaken _ _ db.revisions
                  (λ (r : Revision) l. one_more r.revision db.next_revision l) n.revisions)
                (here db.next_revision, tt);
          objects =
              All-weaken _ _ db.objects (λ (o : Object) l. one_more o.revision db.next_revision l)
                n.objects;
        },
        here db.next_revision,
      )
  where
    one_more : (a b : ℕ) → a < b → a < b + 1
    one_more a b l = omega arith

    here : (a : ℕ) → a < a + 1
    here a = omega arith

pub plan_fetch-Numbered :
    (namespace : Bytes) (files : List FileEntry) (now : ℕ) (db : Db)
    → IsNumbered db
    → Leaves Numbered (plan_fetch namespace files now db)
unfolding plan_fetch
plan_fetch-Numbered namespace files now db n =
    Leaves-bind (λ (db', rev). IsNumbered db' × (rev < db'.next_revision)) Numbered
      (create_revision namespace partial now (ensure_repository namespace db)) _
      (create_revision-IsNumbered namespace now (ensure_repository namespace db)
        (ensure_repository-IsNumbered namespace db n))
      λ (db', rev) (n', l). diff_and_apply-IsNumbered namespace rev files db' l n'

with_parent-revision :
    (rev : ℕ) (objects : List Object) (o : Object)
    → (with_parent rev objects o).revision ≡ o.revision
unfolding with_parent
with_parent-revision rev objects o =
    go (o.revision == rev) (parent_id rev objects (directory_of o.filename))
  where
    go : (b : Bool) (id : Option ℕ) → (if b then set_parent id o else o).revision ≡ o.revision
    go true none = refl
    go true (some i) = refl
    go false id = refl

with_status-revision :
    (rev now : ℕ) (r : Revision) → (with_status rev live (some now) r).revision ≡ r.revision
with_status-revision rev now r = ground arith

commit_fetch-IsNumbered :
    (rev : ℕ) (ticks : List Bool) (now : ℕ) (queued : List (Bytes × Metadata)) (db : Db)
    → rev < db.next_revision
    → IsNumbered db
    → Leaves IsNumbered (commit_fetch rev ticks now queued db)
unfolding update_parent_ids
commit_fetch-IsNumbered rev ticks now queued db l n =
    commit_fetch-Leaves IsNumbered rev ticks now queued db (record {
      revisions = All-map _ (with_status rev live (some now)) inserted.revisions (
          All-weaken _ _ inserted.revisions
            (λ r k.
              subst (λ j. j < inserted.next_revision) (sym (with_status-revision rev now r)) k)
            numbered.revisions);
      objects = All-map _ (with_parent rev inserted.objects) inserted.objects (
          All-weaken _ _ inserted.objects
            (λ o k.
              subst (λ j. j < inserted.next_revision)
                (sym (with_parent-revision rev inserted.objects o)) k)
            numbered.objects);
    })
  where
    inserted : Db
    inserted = append_objects rev (arrived (sent_events ticks queued)) db

    numbered : IsNumbered inserted
    numbered = (append_objects-IsNumbered rev (arrived (sent_events ticks queued)) db l n).0

pub fetch-IsNumbered :
    (available : Bytes → Bool) (percent_encode : Bytes → Bytes) (prefix namespace : Bytes)
    (files : List FileEntry) (tasks : List UploadTask) (schedule : List ℕ) (ticks : List Bool)
    (started completed : ℕ) (db : Db) (store : List Stored)
    → IsNumbered db
    → Leaves
        (λ (db', store'). IsNumbered db')
        (fetch available percent_encode prefix namespace files tasks schedule ticks started
          completed db store)
unfolding fetch
fetch-IsNumbered available percent_encode prefix namespace files tasks schedule ticks started
      completed db store n =
    Leaves-bind Numbered Done (map_err pg_error (plan_fetch namespace files started db)) _
      (Leaves-map_err pg_error Numbered (plan_fetch namespace files started db)
        (plan_fetch-Numbered namespace files started db n))
      λ (db', rev, items) (n', l).
        Leaves-bind (λ _. Unit {0}) Done
          (transfer available percent_encode prefix files tasks schedule store) _ (Leaves-any _)
          λ s u.
            Leaves-bind IsNumbered Done
              (map_err pg_error (commit_fetch rev ticks completed s.pg db')) _
              (Leaves-map_err pg_error IsNumbered (commit_fetch rev ticks completed s.pg db')
                (commit_fetch-IsNumbered rev ticks completed s.pg db' l n'))
              λ db'' k. k
  where
    Done : Db × List Stored → Type 0
    Done (db', store') = IsNumbered db'
