-- ===== src/Fetcher/Plan/Complete.antt =====
-- rsync-fetcher/src/plan.rs: a file of the list is transferred or is there already.
use rsync_sjtug.Prelude.{
  ℕ, ◌≡◌, refl, sym, ap, ◌∙◌, Bool, true, false, ◌&&◌, Bool-cases, ◌⊎◌, inl, inr, List, [], ◌∷◌,
  map, filter, In, In-append_left, In-append_right, In-filter, Bytes, bytes_eq, bytes_eq→eq, ◌==◌,
  ==_iff,
}
use mathlib.Core.Path.{subst}
use rsync_sjtug.Database.Revisions.{FileType, regular, directory, symlink, Object, Db}
use rsync_sjtug.Database.Insert.{Row, append_objects}
use rsync_sjtug.Gc.{elem}
use rsync_sjtug.Fetcher.FileList.{FileEntry}
use rsync_sjtug.Fetcher.Plan.{
  diff_and_apply, diff_unchanged_and_copy, copy_directories, copy_symlinks, TransferItem,
  is_regular, is_regular_type, local_revs, is_match, no_match, changed_or_remote_only,
  diff_changed_or_remote_only, joined, copy_of, unchanged_rows,
}
use rsync_sjtug.Fetcher.Plan.Joined.{
  Stands, joined-Stands, joined-match, distinct_on_filename-In, distinct_on_filename-Named,
}

-- No two entries of the list share a name.
abbrev pub NamesDiffer : List FileEntry → Type 0
NamesDiffer files = (f g : FileEntry) → In f files → In g files → f.name ≡ g.name → f ≡ g

-- The entry is asked for, or a row with its name, length and time is copied.
abbrev pub Planned : FileEntry → List TransferItem → List Row → Type 0
Planned fl items rows =
    ((item : TransferItem) × In item items × (item.idx ≡ fl.idx))
    ⊎ ((r : Row) × In r rows
        × (r.key ≡ fl.name)
        × (r.value ≡ fl.len)
        × (r.mtime ≡ fl.modify_time)
        × (r.type ≡ regular))

In-copy_of : (c : Object) (cs : List Object) → In c cs → In (copy_of c) (map copy_of cs)
In-copy_of c [] m = m
In-copy_of c (d ∷ cs) (inl e) = inl (ap copy_of e)
In-copy_of c (d ∷ cs) (inr h) = inr (In-copy_of c cs h)

changed_or_remote_only-item :
    (revs : List ℕ) (objects : List Object) (files : List FileEntry) (fl : FileEntry)
    → In fl files
    → is_regular fl.mode ≡ true
    → no_match (filter (is_match revs fl) objects) ≡ true
    → (item : TransferItem) × In item (changed_or_remote_only revs objects files)
      × (item.idx ≡ fl.idx)
unfolding changed_or_remote_only
changed_or_remote_only-item revs objects [] fl h t n = elim h [ ]
changed_or_remote_only-item revs objects (g ∷ files) fl (inl e) t n =
    subst
      (λ (h : FileEntry).
        (item : TransferItem) × In item (changed_or_remote_only revs objects (h ∷ files))
        × (item.idx ≡ fl.idx))
      e (rw (t, n) (_, inl refl, refl))
changed_or_remote_only-item revs objects (g ∷ files) fl (inr h) t n =
    let (item, m, e) = changed_or_remote_only-item revs objects files fl h t n in
    elim (Bool-cases (is_regular g.mode && no_match (filter (is_match revs g) objects))) [
      | inl u ↦ rw u (item, inr m, e)
      | inr u ↦ rw u (item, m, e)
    ]

and_true : (a b : Bool) → (a && b) ≡ true → (a ≡ true) × (b ≡ true)
and_true true b h = (refl, h)
and_true false b h = cc

is_regular_type-regular : (t : FileType) → is_regular_type t ≡ true → t ≡ regular
is_regular_type-regular regular h = refl
is_regular_type-regular directory h = cc
is_regular_type-regular symlink h = cc

is_match-fields :
    (revs : List ℕ) (fl : FileEntry) (o : Object)
    → is_match revs fl o ≡ true
    → (o.filename ≡ fl.name)
      × (o.len ≡ fl.len)
      × (o.modify_time ≡ fl.modify_time)
      × (o.type ≡ regular)
is_match-fields revs fl o h =
    let (a, h1) = and_true (elem o.revision revs) _ h in
    let (name, h2) = and_true (bytes_eq fl.name o.filename) _ h1 in
    let (mtime, h3) = and_true (fl.modify_time == o.modify_time) _ h2 in
    let (len, type) = and_true (fl.len == o.len) _ h3 in
    (
      sym (bytes_eq→eq _ _ name),
      sym ((==_iff fl.len o.len).0 len),
      sym ((==_iff fl.modify_time o.modify_time).0 mtime),
      is_regular_type-regular o.type type,
    )

queries-Planned :
    (namespace : Bytes) (files : List FileEntry) (db : Db) (fl : FileEntry)
    → NamesDiffer files
    → In fl files
    → is_regular fl.mode ≡ true
    → Planned fl
        (diff_changed_or_remote_only namespace files db)
        (unchanged_rows namespace files db)
unfolding diff_changed_or_remote_only unchanged_rows Stands
queries-Planned namespace files db fl differ h t =
    let revs = local_revs namespace db.revisions in go (filter (is_match revs fl) db.objects) refl
  where
    go :
        (found : List Object)
        → filter (is_match (local_revs namespace db.revisions) fl) db.objects ≡ found
        → Planned fl
            (diff_changed_or_remote_only namespace files db)
            (unchanged_rows namespace files db)
    go [] e = inl (changed_or_remote_only-item _ db.objects files fl h t (rw e refl))
    go (o ∷ os) e =
        let revs = local_revs namespace db.revisions in
        let m = subst (In o) (sym e) (inl refl) in
        let j = joined-match revs db.objects files fl h t o m in
        let (c, k, n) = distinct_on_filename-Named o (joined revs db.objects files) j in
        let (g, hg, mg) = joined-Stands revs db.objects files c (distinct_on_filename-In c _ k) in
        let same = differ g fl hg h (
          sym (is_match-fields revs g c mg).0
          ∙ n
          ∙ (is_match-fields revs fl o ((In-filter o (is_match revs fl) db.objects).0 m).1).0) in
        let (name, len, mtime, type) =
          is_match-fields revs fl c (subst (λ f. is_match revs f c ≡ true) same mg) in
        inr (copy_of c, In-copy_of c _ k, name, len, mtime, type)

-- An object of a revision that stands for the entry.
abbrev pub Copied : FileEntry → ℕ → Object → Type 0
Copied fl target_revision o =
    (o.revision ≡ target_revision)
    × (o.filename ≡ fl.name)
    × (o.len ≡ fl.len)
    × (o.modify_time ≡ fl.modify_time)
    × (o.type ≡ regular)

append_objects-keeps :
    (rev : ℕ) (rows : List Row) (db : Db) (o : Object)
    → In o db.objects
    → In o (append_objects rev rows db).objects
unfolding append_objects
append_objects-keeps rev [] db o m = m
append_objects-keeps rev (r ∷ rows) db o m =
    append_objects-keeps rev rows _ o (In-append_left o db.objects _ m)

append_objects-Copied :
    (fl : FileEntry) (rev : ℕ) (rows : List Row) (db : Db) (r : Row)
    → In r rows
    → r.key ≡ fl.name
    → r.value ≡ fl.len
    → r.mtime ≡ fl.modify_time
    → r.type ≡ regular
    → (o : Object) × In o (append_objects rev rows db).objects × Copied fl rev o
unfolding append_objects
append_objects-Copied fl rev [] db r m k v t y = elim m [ ]
append_objects-Copied fl rev (x ∷ rows) db r (inl e) k v t y = (
  _,
  append_objects-keeps rev rows _ _ (In-append_right _ db.objects _ (inl refl)),
  (
    refl,
    ap (λ (q : Row). q.key) (sym e) ∙ k,
    ap (λ (q : Row). q.value) (sym e) ∙ v,
    ap (λ (q : Row). q.mtime) (sym e) ∙ t,
    ap (λ (q : Row). q.type) (sym e) ∙ y,
  ),
)
append_objects-Copied fl rev (x ∷ rows) db r (inr h) k v t y =
    append_objects-Copied fl rev rows _ r h k v t y

-- If the names of the list differ, then `diff_and_apply` returns every regular entry as one to be
-- transferred, or leaves an object of the new revision with its name, length and modification time.
pub diff_and_apply-Copied :
    (namespace : Bytes) (target_revision : ℕ) (files : List FileEntry) (db : Db) (fl : FileEntry)
    → NamesDiffer files
    → In fl files
    → is_regular fl.mode ≡ true
    → ((item : TransferItem) × In item (diff_and_apply namespace target_revision files db).2
        × (item.idx ≡ fl.idx))
      ⊎ ((o : Object) × In o (diff_and_apply namespace target_revision files db).0.objects
          × Copied fl target_revision o)
unfolding diff_and_apply diff_unchanged_and_copy copy_directories copy_symlinks
diff_and_apply-Copied namespace target_revision files db fl differ h t =
    elim (queries-Planned namespace files db fl differ h t) [
      | inl asked ↦ inl asked
      | inr (r, m, k, v, y, z) ↦
          let (o, n, c) =
            append_objects-Copied fl target_revision (unchanged_rows namespace files db) db r m k v
              y z in
          inr (
            o,
            append_objects-keeps target_revision _ _ o
                (append_objects-keeps target_revision _ _ o n),
            c,
          )
    ]
