-- ===== src/Fetcher/Fetch/Served.antt =====
-- rsync-fetcher/src/main.rs: the objects of the tables have their files, at each step of a fetch.
use rsync_sjtug.Prelude.{
  ℕ, ◌<◌, ◌≡◌, sym, ◌∙◌, true, Bool-cases, ◌⊎◌, inl, inr, Option, none, some, List, [], ◌∷◌, All,
  All-weaken, All-append, All-In, In, Bytes, ◌==◌,
}
use mathlib.Core.Path.{subst}
use rsync_sjtug.Database.Revisions.{Revision, RevisionStatus, Object, Db, contains}
use rsync_sjtug.Database.Insert.{Row, append_objects}
use rsync_sjtug.Gc.{elem, revisions_with, object_key}
use rsync_sjtug.Gc.Safety.{HashIsBytes, IsKept, IsServable}
use rsync_sjtug.Fetcher.FileList.{FileEntry}
use rsync_sjtug.Fetcher.Plan.{
  local_revs, copy_of, directory_row, symlink_row, unchanged_rows, diff_unchanged_and_copy,
  copy_directories, copy_symlinks, diff_and_apply,
}
use rsync_sjtug.Fetcher.Plan.Joined.{distinct_on_filename-In}
use rsync_sjtug.Fetcher.Uploader.{Stored, keys}
use rsync_sjtug.Fetcher.Uploader.Backed.{Grows}
use rsync_sjtug.Fetcher.Fetch.{with_parent, set_parent, parent_id, directory_of}
use rsync_sjtug.Fetcher.Fetch.Rows.{
  All-map, All-of-In, HashIsServed, HashIsServed-Grows, append_objects-revisions, joined-In,
}

module _ (namespace prefix : Bytes) (old : List Revision) (rev : ℕ) where
  -- The store has the file, or the object was there before and needs it only for an old revision.
  abbrev pub ObjectIsServed : List Stored → Object → Type 0
  ObjectIsServed store o =
      HashIsServed prefix store o.blake2b
      ⊎ ((o.revision < rev)
          × HashIsBytes o.blake2b
          × ((status : RevisionStatus) (h : Bytes)
              → IsKept status
              → o.blake2b ≡ some h
              → elem o.revision (revisions_with status namespace old) ≡ true
              → contains (object_key prefix h) (keys store) ≡ true))

  pub ObjectIsServed-Grows :
      (store store' : List Stored)
      → Grows store store'
      → (o : Object) → ObjectIsServed store o
      → ObjectIsServed store' o
  ObjectIsServed-Grows store store' g o (inl h) =
      inl (HashIsServed-Grows prefix store store' g o.blake2b h)
  ObjectIsServed-Grows store store' g o (inr (l, b, f)) =
      inr (l, b, λ status h k e m. g _ (f status h k e m))

  pub append_objects-ObjectIsServed :
      (store : List Stored) (n : ℕ) (rows : List Row) (db : Db)
      → All (λ (r : Row). HashIsServed prefix store r.hash) rows
      → All (ObjectIsServed store) db.objects
      → All (ObjectIsServed store) (append_objects n rows db).objects
  unfolding append_objects
  append_objects-ObjectIsServed store n [] db h k = k
  append_objects-ObjectIsServed store n (r ∷ rows) db h k =
      append_objects-ObjectIsServed store n rows _ h.1 (All-append _ db.objects _ k (inl h.0, tt))

  pub with_parent-ObjectIsServed :
      (store : List Stored) (n : ℕ) (objects : List Object) (o : Object)
      → ObjectIsServed store o
      → ObjectIsServed store (with_parent n objects o)
  unfolding with_parent
  with_parent-ObjectIsServed store n objects o h = elim (Bool-cases (o.revision == n)) [
    | inl e ↦ rw e (go (parent_id n objects (directory_of o.filename)))
    | inr e ↦ rw e h
  ]
    where
      go : (id : Option ℕ) → ObjectIsServed store (set_parent id o)
      go none = h
      go (some id) = h

  -- What the four queries of the plan insert.
  pub diff_and_apply-ObjectIsServed :
      (store : List Stored) (files : List FileEntry) (db : Db)
      → ((o : Object)
          → In o db.objects
          → elem o.revision (local_revs namespace db.revisions) ≡ true
          → HashIsServed prefix store o.blake2b)
      → All (ObjectIsServed store) db.objects
      → All (ObjectIsServed store) (diff_and_apply namespace rev files db).0.objects
  unfolding diff_and_apply diff_unchanged_and_copy copy_directories copy_symlinks unchanged_rows
  diff_and_apply-ObjectIsServed store files db f h =
      append_objects-ObjectIsServed store rev _ _
        (All-map _ symlink_row _ (All-of-In _ _ (λ x m. tt)))
        (append_objects-ObjectIsServed store rev _ _
          (All-map _ directory_row _ (All-of-In _ _ (λ x m. tt)))
          (append_objects-ObjectIsServed store rev _ db
            (All-map _ copy_of _ (
              All-of-In _ _ λ o m.
                let (there, e) =
                  joined-In (local_revs namespace db.revisions) db.objects files o
                    (distinct_on_filename-In o _ m) in
                f o there e))
            h))

  pub diff_and_apply-revisions :
      (files : List FileEntry) (db : Db)
      → (diff_and_apply namespace rev files db).0.revisions ≡ db.revisions
  unfolding diff_and_apply diff_unchanged_and_copy copy_directories copy_symlinks
  diff_and_apply-revisions files db =
      append_objects-revisions rev _ _
      ∙ append_objects-revisions rev _ _
      ∙ append_objects-revisions rev _ db

  -- The revisions at the end of a fetch, as far as older objects see them.
  abbrev pub SeesNoMore : List Revision → Type 0
  SeesNoMore rs =
      (status : RevisionStatus) (n : ℕ)
      → n < rev
      → elem n (revisions_with status namespace rs) ≡ elem n (revisions_with status namespace old)

  pub ObjectIsServed-IsServable :
      (store : List Stored) (db : Db)
      → SeesNoMore db.revisions
      → All (ObjectIsServed store) db.objects
      → IsServable namespace prefix db (keys store)
  ObjectIsServed-IsServable store db sees h = record {
    bytes = All-weaken _ _ db.objects bytes_of h;
    stored = λ status o b k m e r.
        stored_of status o b k e r (All-In o (ObjectIsServed store) db.objects h m);
  }
    where
      hash_bytes : (hash : Option Bytes) → HashIsServed prefix store hash → HashIsBytes hash
      hash_bytes none s = tt
      hash_bytes (some b) s = s.0

      bytes_of : (o : Object) → ObjectIsServed store o → HashIsBytes o.blake2b
      bytes_of o (inl s) = hash_bytes o.blake2b s
      bytes_of o (inr s) = s.1

      stored_of :
          (status : RevisionStatus) (o : Object) (b : Bytes)
          → IsKept status
          → o.blake2b ≡ some b
          → elem o.revision (revisions_with status namespace db.revisions) ≡ true
          → ObjectIsServed store o
          → contains (object_key prefix b) (keys store) ≡ true
      stored_of status o b k e r (inl s) = (subst (HashIsServed prefix store) e s).1
      stored_of status o b k e r (inr (l, by, f)) =
          f status b k e (sym (sees status o.revision l) ∙ r)
