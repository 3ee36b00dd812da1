-- ===== src/Fetcher/Fetch/Rows.antt =====
-- rsync-fetcher/src/main.rs: the rows that a fetch inserts and the revisions that it changes.
use rsync_sjtug.Prelude.{
  ℕ, ◌<◌, ◌≡◌, refl, Bool, true, false, ◌&&◌, ◌||◌, inl, inr, Option, none, some, List, [], ◌∷◌,
  ◌++◌, map, filter, All, In, In-append, In-filter, Bytes, if◌then◌else◌, arith,
}
use rsync_sjtug.Database.Revisions.{
  Revision, RevisionStatus, partial, live, Object, Db, with_status,
}
use rsync_sjtug.Database.Insert.{
  Metadata, MetaExtra, regular_extra, symlink_extra, directory_extra, Row, row_of, arrived,
  is_closed, append_objects,
}
use rsync_sjtug.Gc.{elem, revisions_with}
use rsync_sjtug.Fetcher.FileList.{FileEntry}
use rsync_sjtug.Fetcher.Plan.{is_regular, is_match, joined, local_revs}
use rsync_sjtug.Fetcher.Uploader.{Stored}
use rsync_sjtug.Fetcher.Uploader.Backed.{Has, RowIsBacked, Grows}
use rsync_sjtug.Fetcher.Fetch.{sent_events}

-- The identity column: no revision and no object has a number that is still to be handed out.
pub record IsNumbered (db : Db) : Type 0 where
  pub revisions : All (λ (r : Revision). r.revision < db.next_revision) db.revisions
  pub objects : All (λ (o : Object). o.revision < db.next_revision) db.objects

-- The hash is none or the store has its file.
abbrev pub HashIsServed : Bytes → List Stored → Option Bytes → Type 0
HashIsServed prefix store none = Unit
HashIsServed prefix store (some h) = Has prefix store h

pub arrived-sent_events :
    (P : Row → Type 0) (ticks : List Bool) (rows : List (Bytes × Metadata))
    → All (λ (row : Bytes × Metadata). P (row_of row.0 row.1)) rows
    → All P (arrived (sent_events ticks rows))
unfolding sent_events
arrived-sent_events P [] [] h = tt
arrived-sent_events P [] ((k, v) ∷ rows) h = (h.0, arrived-sent_events P [] rows h.1)
arrived-sent_events P (true ∷ ticks) rows h = arrived-sent_events P ticks rows h
arrived-sent_events P (false ∷ ticks) [] h = arrived-sent_events P ticks [] h
arrived-sent_events P (false ∷ ticks) ((k, v) ∷ rows) h =
    (h.0, arrived-sent_events P ticks rows h.1)

pub is_closed-sent_events :
    (ticks : List Bool) (rows : List (Bytes × Metadata)) → is_closed (sent_events ticks rows) ≡ true
unfolding sent_events
is_closed-sent_events [] [] = refl
is_closed-sent_events [] ((k, v) ∷ rows) = is_closed-sent_events [] rows
is_closed-sent_events (true ∷ ticks) rows = is_closed-sent_events ticks rows
is_closed-sent_events (false ∷ ticks) [] = is_closed-sent_events ticks []
is_closed-sent_events (false ∷ ticks) ((k, v) ∷ rows) = is_closed-sent_events ticks rows

pub row_of-HashIsServed :
    (prefix : Bytes) (store : List Stored) (row : Bytes × Metadata)
    → RowIsBacked prefix store row
    → HashIsServed prefix store (row_of row.0 row.1).hash
unfolding row_of
row_of-HashIsServed prefix store (k, v) h = go v.extra h
  where
    go :
        (e : MetaExtra)
        → RowIsBacked prefix store (k, record v { extra = e })
        → HashIsServed prefix store (row_of k (record v { extra = e })).hash
    go (regular_extra b) x = x
    go (symlink_extra t) x = tt
    go directory_extra x = tt

pub HashIsServed-Grows :
    (prefix : Bytes) (store store' : List Stored)
    → Grows store store'
    → (h : Option Bytes) → HashIsServed prefix store h
    → HashIsServed prefix store' h
HashIsServed-Grows prefix store store' g none s = tt
HashIsServed-Grows prefix store store' g (some h) s = (s.0, g _ s.1)

pub All-map :
    {A B : Type 0} (P : B → Type 0) (f : A → B) (xs : List A)
    → All (λ x. P (f x)) xs
    → All P (map f xs)
All-map P f [] h = tt
All-map P f (x ∷ xs) h = (h.0, All-map P f xs h.1)

pub All-of-In : {A : Type 0} (P : A → Type 0) (xs : List A) → ((x : A) → In x xs → P x) → All P xs
All-of-In P [] f = tt
All-of-In P (x ∷ xs) f = (f x (inl refl), All-of-In P xs (λ y m. f y (inr m)))

pub and_left : (a b : Bool) → (a && b) ≡ true → a ≡ true
and_left true b e = refl
and_left false b e = cc

-- What is joined is an object of a local revision.
pub joined-In :
    (revs : List ℕ) (objects : List Object) (files : List FileEntry) (o : Object)
    → In o (joined revs objects files)
    → In o objects × (elem o.revision revs ≡ true)
unfolding joined
joined-In revs objects [] o m = absurd m
joined-In revs objects (fl ∷ files) o m =
    go (λ k. joined-In revs objects files o k) (is_regular fl.mode) m
  where
    go :
        (In o (joined revs objects files) → In o objects × (elem o.revision revs ≡ true))
        → (b : Bool)
        → In o (
            if b
            then filter (is_match revs fl) objects ++ joined revs objects files
            else joined revs objects files)
        → In o objects × (elem o.revision revs ≡ true)
    go rest true k =
        elim (In-append o (filter (is_match revs fl) objects) (joined revs objects files) k) [
          | inl h ↦
              let (there, e) = (In-filter o (is_match revs fl) objects).0 h in
              (there, and_left _ _ e)
          | inr h ↦ rest h
        ]
    go rest false k = rest k

-- A row appended to the revisions does not concern older numbers.
pub elem-revisions_with-append :
    (status : RevisionStatus) (namespace : Bytes) (n : ℕ) (rs : List Revision) (r : Revision)
    → n < r.revision
    → elem n (revisions_with status namespace (rs ++ (r ∷ [])))
      ≡ elem n (revisions_with status namespace rs)
unfolding elem revisions_with
elem-revisions_with-append status namespace n [] r l = ground arith
elem-revisions_with-append status namespace n (q ∷ rs) r l =
    ground (arith, elem-revisions_with-append status namespace n rs r l)

pub elem-revisions_with-with_status :
    (status new : RevisionStatus) (completed : ℕ) (namespace : Bytes) (n rev : ℕ)
    (rs : List Revision)
    → n < rev
    → elem n (revisions_with status namespace (map (with_status rev new (some completed)) rs))
      ≡ elem n (revisions_with status namespace rs)
unfolding elem revisions_with
elem-revisions_with-with_status status new completed namespace n rev [] l = refl
elem-revisions_with-with_status status new completed namespace n rev (q ∷ rs) l =
    ground (arith, elem-revisions_with-with_status status new completed namespace n rev rs l)

pub elem-local_revs :
    (namespace : Bytes) (n : ℕ) (rs : List Revision)
    → elem n (local_revs namespace rs)
      ≡ (elem n (revisions_with live namespace rs) || elem n (revisions_with partial namespace rs))
unfolding elem revisions_with local_revs
elem-local_revs namespace n [] = refl
elem-local_revs namespace n (q ∷ rs) = ground (arith, elem-local_revs namespace n rs)

pub append_objects-revisions :
    (n : ℕ) (rows : List Row) (db : Db) → (append_objects n rows db).revisions ≡ db.revisions
unfolding append_objects
append_objects-revisions n [] db = refl
append_objects-revisions n (r ∷ rows) db = append_objects-revisions n rows _
