-- ===== src/Gc/Safety.antt =====
-- What rsync-gc may delete: the hashes that it computes, their keys, and a whole run.
use rsync_sjtug.Prelude.{
  ℕ, ◌/◌, ◌%◌, ◌<◌, ◌≡◌, refl, ap, Bool, true, false, not, ◌||◌, ◌&&◌, List, [], ◌∷◌, ◌++◌, map,
  Option, some, none, Bytes, IsByte, bytes_eq→eq, bytes_eq_refl, filter, All, In, if◌then◌else◌,
  arith, Bool-cases, inl, inr, chunks, concat, concat-chunks, In-filter, All-In,
}
use rsync_sjtug.Database.Revisions.{
  Revision, RevisionStatus, partial, live, stale, Object, Db, contains,
}
use rsync_sjtug.Gc.{
  elem, same_status, set_stale, mark_stale, revisions_with, hashes_of, distinct, hashes_to_remove,
  hex_digit, as_hex, object_key, remove_keys, remove_chunks, iter_batch, bulk_delete_objs,
  remove_revisions, run,
}

contains-append :
    (h : Bytes) (xs ys : List Bytes) → contains h (xs ++ ys) ≡ (contains h xs || contains h ys)
unfolding contains
contains-append h [] ys = refl
contains-append h (x ∷ xs) ys = ground (arith, contains-append h xs ys)

contains-filter :
    (p : Bytes → Bool) (h : Bytes) (xs : List Bytes)
    → contains h (filter p xs) ≡ (contains h xs && p h)
unfolding contains
contains-filter p h [] = refl
contains-filter p h (x ∷ xs) = ground (arith, contains-filter p h xs, bytes_eq→eq x h)

contains-distinct : (h : Bytes) (xs : List Bytes) → contains h (distinct xs) ≡ contains h xs
unfolding contains distinct
contains-distinct h [] = refl
contains-distinct h (x ∷ xs) =
    ground (arith, contains-distinct h xs, contains-distinct x xs, bytes_eq→eq x h)

-- The hashes of the objects in the repository's revisions of a status.
abbrev pub used : RevisionStatus → Bytes → Db → List Bytes
used status namespace db = hashes_of (revisions_with status namespace db.revisions) db.objects

-- The membership test of `hashes_to_remove`.
pub contains-hashes_to_remove :
    (namespace : Bytes) (db : Db) (h : Bytes)
    → contains h (hashes_to_remove namespace db) ≡ (
        contains h (used stale namespace db)
        && (not (contains h (used live namespace db))
            && not (contains h (used partial namespace db))))
unfolding hashes_to_remove
contains-hashes_to_remove namespace db h = rw (contains-distinct, contains-filter)

hex_digit_injective : (a b : ℕ) → a < 16 → b < 16 → hex_digit a ≡ hex_digit b → a ≡ b
unfolding hex_digit
hex_digit_injective a b ha hb e = ground arith

byte_halves :
    (a b : ℕ)
    → a < 256
    → b < 256
    → hex_digit (a / 16) ≡ hex_digit (b / 16)
    → hex_digit (a % 16) ≡ hex_digit (b % 16)
    → a ≡ b
byte_halves a b ha hb p q = omega (
  arith,
  hex_digit_injective (a / 16) (b / 16) (omega arith) (omega arith) p,
  hex_digit_injective (a % 16) (b % 16) (omega arith) (omega arith) q,
)

-- Two byte strings with one hexadecimal form are equal.
pub as_hex_injective :
    (xs ys : Bytes) → All IsByte xs → All IsByte ys → as_hex xs ≡ as_hex ys → xs ≡ ys
unfolding as_hex
as_hex_injective [] [] hx hy e = refl
as_hex_injective [] (y ∷ ys) hx hy e = cc
as_hex_injective (x ∷ xs) [] hx hy e = cc
as_hex_injective (x ∷ xs) (y ∷ ys) hx hy e =
    cc (byte_halves x y hx.0 hy.0 (cc) (cc), as_hex_injective xs ys hx.1 hy.1 (cc))

append_cancel : (p xs ys : Bytes) → p ++ xs ≡ p ++ ys → xs ≡ ys
append_cancel [] xs ys e = e
append_cancel (a ∷ p) xs ys e = append_cancel p xs ys (cc)

object_key_injective :
    (prefix xs ys : Bytes)
    → All IsByte xs
    → All IsByte ys
    → object_key prefix xs ≡ object_key prefix ys
    → xs ≡ ys
unfolding object_key
object_key_injective prefix xs ys hx hy e =
    as_hex_injective xs ys hx hy (append_cancel prefix (as_hex xs) (as_hex ys) e)

not-contains-keys :
    (prefix h : Bytes) (hs : List Bytes)
    → All IsByte h
    → All (All IsByte) hs
    → contains h hs ≡ false
    → contains (object_key prefix h) (map (object_key prefix) hs) ≡ false
unfolding contains
not-contains-keys prefix h [] b bs e = refl
not-contains-keys prefix h (x ∷ hs) b bs e = ground (
  arith,
  not-contains-keys prefix h hs b bs.1,
  bytes_eq→eq (object_key prefix x) (object_key prefix h),
  object_key_injective prefix x h bs.0 b,
  bytes_eq_refl h,
)

map-append_keys : (f : Bytes → Bytes) (xs ys : List Bytes) → map f (xs ++ ys) ≡ map f xs ++ map f ys
map-append_keys f [] ys = refl
map-append_keys f (x ∷ xs) ys = ap (◌∷◌ (f x)) (map-append_keys f xs ys)

contains-remove_chunks :
    (prefix key : Bytes) (pieces : List (List Bytes)) (store : List Bytes)
    → contains key store ≡ true
    → contains key (map (object_key prefix) (concat pieces)) ≡ false
    → contains key (remove_chunks prefix pieces store) ≡ true
unfolding remove_chunks remove_keys
contains-remove_chunks prefix key [] store h k = h
contains-remove_chunks prefix key (piece ∷ rest) store h k =
    let keys = map (object_key prefix) piece in
    let parts : (contains key keys || contains key (map (object_key prefix) (concat rest)))
        ≡ false =
      rw (map-append_keys, contains-append) at k in
    contains-remove_chunks prefix key rest (filter (λ q. not (contains q keys)) store)
      (rw contains-filter (ground arith)) (ground arith)

contains-bulk_delete_objs :
    (prefix key : Bytes) (hashes store : List Bytes)
    → contains key store ≡ true
    → contains key (map (object_key prefix) hashes) ≡ false
    → contains key (bulk_delete_objs prefix hashes store) ≡ true
unfolding bulk_delete_objs
contains-bulk_delete_objs prefix key hashes store h k =
    contains-remove_chunks prefix key (chunks iter_batch hashes) store h
      (rw (concat-chunks iter_batch hashes (omega arith)) k)

-- The status change and the removal make no revision live or partial.
elem-revisions_with-set_stale :
    (status : RevisionStatus) (namespace : Bytes) (revs : List ℕ) (r : ℕ) (rs : List Revision)
    → same_status status stale ≡ false
    → elem r (revisions_with status namespace (map (set_stale revs) rs)) ≡ true
    → elem r (revisions_with status namespace rs) ≡ true
unfolding elem revisions_with set_stale
elem-revisions_with-set_stale status namespace revs r [] n h = h
elem-revisions_with-set_stale status namespace revs r (x ∷ rs) n h =
    ground (arith, elem-revisions_with-set_stale status namespace revs r rs n)

elem-revisions_with-filter :
    (status : RevisionStatus) (namespace : Bytes) (p : Revision → Bool) (r : ℕ) (rs : List Revision)
    → elem r (revisions_with status namespace (filter p rs)) ≡ true
    → elem r (revisions_with status namespace rs) ≡ true
unfolding elem revisions_with
elem-revisions_with-filter status namespace p r [] h = h
elem-revisions_with-filter status namespace p r (x ∷ rs) h =
    ground (arith, elem-revisions_with-filter status namespace p r rs)

pub contains-hashes_of :
    (revs : List ℕ) (o : Object) (h : Bytes) (os : List Object)
    → In o os
    → o.blake2b ≡ some h
    → elem o.revision revs ≡ true
    → contains h (hashes_of revs os) ≡ true
unfolding hashes_of contains
contains-hashes_of revs o h [] m e r = absurd m
contains-hashes_of revs o h (x ∷ os) (inl p) e r = ground (arith, bytes_eq_refl h)
contains-hashes_of revs o h (x ∷ os) (inr m) e r =
    ground (arith, contains-hashes_of revs o h os m e r)

-- The stored hashes are byte strings.
abbrev pub HashIsBytes : Option Bytes → Type 0
HashIsBytes none = Unit
HashIsBytes (some h) = All IsByte h

All-hashes_of :
    (revs : List ℕ) (os : List Object)
    → All (λ o. HashIsBytes o.blake2b) os
    → All (All IsByte) (hashes_of revs os)
unfolding hashes_of
All-hashes_of revs [] b = tt
All-hashes_of revs (o ∷ os) b = go o.blake2b b.0 (All-hashes_of revs os b.1)
  where
    go :
        (hash : Option Bytes)
        → HashIsBytes hash
        → All (All IsByte) (hashes_of revs os)
        → All (All IsByte) (elim hash [
          | none ↦ hashes_of revs os
          | some h ↦ if elem o.revision revs then h ∷ hashes_of revs os else hashes_of revs os
        ])
    go none bytes rest = rest
    go (some h) bytes rest = elim (Bool-cases (elem o.revision revs)) [
      | inl e ↦ rw e (bytes, rest)
      | inr e ↦ rw e rest
    ]

All-filter_hashes :
    (p : Bytes → Bool) (hs : List Bytes) → All (All IsByte) hs → All (All IsByte) (filter p hs)
All-filter_hashes p [] b = tt
All-filter_hashes p (h ∷ hs) b = elim (Bool-cases (p h)) [
  | inl e ↦ rw e (b.0, All-filter_hashes p hs b.1)
  | inr e ↦ rw e (All-filter_hashes p hs b.1)
]

All-distinct : (hs : List Bytes) → All (All IsByte) hs → All (All IsByte) (distinct hs)
unfolding distinct
All-distinct [] b = tt
All-distinct (h ∷ hs) b = elim (Bool-cases (contains h (distinct hs))) [
  | inl e ↦ rw e (All-distinct hs b.1)
  | inr e ↦ rw e (b.0, All-distinct hs b.1)
]

All-hashes_to_remove :
    (namespace : Bytes) (db : Db)
    → All (λ o. HashIsBytes o.blake2b) db.objects
    → All (All IsByte) (hashes_to_remove namespace db)
unfolding hashes_to_remove
All-hashes_to_remove namespace db b =
    All-distinct _ (All-filter_hashes _ _ (All-hashes_of _ db.objects b))

-- A status that the gateway serves or the fetcher still uses.
abbrev pub IsKept : RevisionStatus → Type 0
IsKept status = same_status status stale ≡ false

-- Every object of a live or partial revision of the repository has its file in the store.
pub record IsServable (namespace prefix : Bytes) (db : Db) (store : List Bytes) : Type 0 where
  pub bytes : All (λ o. HashIsBytes o.blake2b) db.objects
  pub stored :
      (status : RevisionStatus) (o : Object) (h : Bytes)
      → IsKept status
      → In o db.objects
      → o.blake2b ≡ some h
      → elem o.revision (revisions_with status namespace db.revisions) ≡ true
      → contains (object_key prefix h) store ≡ true

not-to-remove :
    (namespace : Bytes) (db : Db) (status : RevisionStatus) (h : Bytes)
    → IsKept status
    → contains h (used status namespace db) ≡ true
    → contains h (hashes_to_remove namespace db) ≡ false
not-to-remove namespace db partial h k u = ground (arith, contains-hashes_to_remove namespace db h)
not-to-remove namespace db live h k u = ground (arith, contains-hashes_to_remove namespace db h)
not-to-remove namespace db stale h k u = cc

All-filter_objects :
    (p : Object → Bool) (os : List Object)
    → All (λ o. HashIsBytes o.blake2b) os
    → All (λ o. HashIsBytes o.blake2b) (filter p os)
All-filter_objects p [] b = tt
All-filter_objects p (o ∷ os) b = elim (Bool-cases (p o)) [
  | inl e ↦ rw e (b.0, All-filter_objects p os b.1)
  | inr e ↦ rw e (All-filter_objects p os b.1)
]

module _ (namespace prefix : Bytes) (keep partial_keep : ℕ) (db : Db) (store : List Bytes)
    (s : IsServable namespace prefix db store) where
  abbrev marked : Db
  marked = (mark_stale namespace keep partial_keep db).0

  -- What a kept status uses after the marking is neither deleted nor missing.
  stored_after_delete :
      (status : RevisionStatus) (o : Object) (h : Bytes)
      → IsKept status
      → In o db.objects
      → o.blake2b ≡ some h
      → elem o.revision (revisions_with status namespace marked.revisions) ≡ true
      → contains
          (object_key prefix h)
          (bulk_delete_objs prefix (hashes_to_remove namespace marked) store)
        ≡ true
  unfolding mark_stale
  stored_after_delete status o h k m e r =
      contains-bulk_delete_objs prefix (object_key prefix h) _ store
        (s.stored status o h k m e
          (elem-revisions_with-set_stale status namespace _ _ db.revisions k r))
        (not-contains-keys prefix h _
          (rw e at (All-In o (λ q. HashIsBytes q.blake2b) db.objects s.bytes m))
          (All-hashes_to_remove namespace marked s.bytes)
          (not-to-remove namespace marked status h k (contains-hashes_of _ o h db.objects m e r)))

-- If every object of the repository's live and partial revisions has its file in the store, then so
-- it is after a run of rsync-gc, for every number of revisions to keep.
pub run-IsServable :
    (namespace prefix : Bytes) (keep partial_keep : ℕ) (db : Db) (store : List Bytes)
    → IsServable namespace prefix db store
    → IsServable namespace prefix
        (run namespace prefix keep partial_keep db store).0
        (run namespace prefix keep partial_keep db store).1
unfolding run remove_revisions
run-IsServable namespace prefix keep partial_keep db store s = record {
  bytes = unfold mark_stale in All-filter_objects _ db.objects s.bytes;
  stored = λ status o h k m e r.
      unfold mark_stale in
      stored_after_delete namespace prefix keep partial_keep db store s status o h k
        ((In-filter o _ db.objects).0 m).0 e (elem-revisions_with-filter status namespace _ _ _ r);
}
