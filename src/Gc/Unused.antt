-- ===== src/Gc/Unused.antt =====
-- rsync-gc/src/pg.rs and sqls/hashes_to_remove.sql: the hashes that only stale revisions need.
use rsync_sjtug.Prelude.{
  ℕ, ◌≡◌, refl, sym, ap, ◌∙◌, ◌↔◌, Bool, true, false, ◌&&◌, ◌||◌, List, [], ◌∷◌, Option, some, none,
  Bytes, bytes_eq, bytes_eq→eq, bytes_eq_refl, In, Bool-cases, inl, inr, ◌==◌, ==_iff,
  if◌then◌else◌, arith,
}
use rsync_sjtug.Database.Revisions.{
  Revision, RevisionStatus, partial, live, stale, Object, Db, contains,
}
use rsync_sjtug.Gc.{elem, same_status, revisions_with, hashes_of, hashes_to_remove}
use rsync_sjtug.Gc.Safety.{used, contains-hashes_of, contains-hashes_to_remove}

-- A revision of the repository with the status has an object with the hash.
abbrev pub Uses : RevisionStatus → Bytes → Db → Bytes → Type 0
Uses status namespace db h =
    (o : Object) × (r : Revision) × In o db.objects
    × In r db.revisions
    × (o.blake2b ≡ some h)
    × (o.revision ≡ r.revision)
    × (r.repository ≡ namespace)
    × (r.status ≡ status)

same_status-eq : (s t : RevisionStatus) → same_status s t ≡ true → s ≡ t
same_status-eq partial partial e = refl
same_status-eq live live e = refl
same_status-eq stale stale e = refl
same_status-eq partial live e = cc
same_status-eq partial stale e = cc
same_status-eq live partial e = cc
same_status-eq live stale e = cc
same_status-eq stale partial e = cc
same_status-eq stale live e = cc

same_status_refl : (s : RevisionStatus) → same_status s s ≡ true
same_status_refl partial = refl
same_status_refl live = refl
same_status_refl stale = refl

and_split : (a b : Bool) → (a && b) ≡ true → (a ≡ true) × (b ≡ true)
and_split true b e = (refl, e)
and_split false b e = cc

module _ (status : RevisionStatus) (namespace : Bytes) where
  abbrev HasRow : List Revision → ℕ → Type 0
  HasRow rs n =
      (r : Revision) × In r rs × (n ≡ r.revision) × (r.repository ≡ namespace) × (r.status ≡ status)

  elem-HasRow :
      (rs : List Revision) (n : ℕ)
      → elem n (revisions_with status namespace rs) ≡ true
      → HasRow rs n
  unfolding elem revisions_with
  elem-HasRow [] n e = cc
  elem-HasRow (x ∷ rs) n e =
      elim (Bool-cases (bytes_eq x.repository namespace && same_status x.status status)) [
        | inl t ↦
            let (ns, st) = and_split _ _ t in
            elim (Bool-cases (x.revision == n)) [
              | inl i ↦ (
                x,
                inl refl,
                sym ((==_iff x.revision n).0 i),
                bytes_eq→eq _ _ ns,
                same_status-eq _ _ st,
              )
              | inr i ↦ further (elem-HasRow rs n (ground arith))
            ]
        | inr t ↦ further (elem-HasRow rs n (ground arith))
      ]
    where
      further : HasRow rs n → HasRow (x ∷ rs) n
      further (r, m, i, ns, st) = (r, inr m, i, ns, st)

  HasRow-elem :
      (rs : List Revision) (r : Revision) (n : ℕ)
      → In r rs
      → n ≡ r.revision
      → r.repository ≡ namespace
      → r.status ≡ status
      → elem n (revisions_with status namespace rs) ≡ true
  unfolding elem revisions_with
  HasRow-elem [] r n m i ns st = absurd m
  HasRow-elem (x ∷ rs) r n (inl e) i ns st =
      let name : bytes_eq x.repository namespace ≡ true =
        ap (λ (q : Revision). bytes_eq q.repository namespace) (sym e)
        ∙ ap (λ b. bytes_eq b namespace) ns
        ∙ bytes_eq_refl namespace in
      let same : same_status x.status status ≡ true =
        ap (λ (q : Revision). same_status q.status status) (sym e)
        ∙ ap (λ s. same_status s status) st
        ∙ same_status_refl status in
      let here : (x.revision == n) ≡ true =
        (==_iff x.revision n).1 (ap (λ (q : Revision). q.revision) (sym e) ∙ sym i) in
      rw (name, same) (rw here refl)
  HasRow-elem (x ∷ rs) r n (inr m) i ns st = ground (arith, HasRow-elem rs r n m i ns st)

hashes_of-object :
    (revs : List ℕ) (h : Bytes) (os : List Object)
    → contains h (hashes_of revs os) ≡ true
    → (o : Object) × In o os × (o.blake2b ≡ some h) × (elem o.revision revs ≡ true)
unfolding hashes_of contains
hashes_of-object revs h [] e = cc
hashes_of-object revs h (x ∷ os) e = go x.blake2b refl (hashes_of-object revs h os) e
  where
    further :
        ((o : Object) × In o os × (o.blake2b ≡ some h) × (elem o.revision revs ≡ true))
        → (o : Object) × In o (x ∷ os) × (o.blake2b ≡ some h) × (elem o.revision revs ≡ true)
    further (o, m, b, i) = (o, inr m, b, i)

    go :
        (hash : Option Bytes)
        → x.blake2b ≡ hash
        → (contains h (hashes_of revs os) ≡ true
            → (o : Object) × In o os × (o.blake2b ≡ some h) × (elem o.revision revs ≡ true))
        → contains h (elim hash [
          | none ↦ hashes_of revs os
          | some b ↦ if elem x.revision revs then b ∷ hashes_of revs os else hashes_of revs os
        ])
          ≡ true
        → (o : Object) × In o (x ∷ os) × (o.blake2b ≡ some h) × (elem o.revision revs ≡ true)
    go none q rest e' = further (rest e')
    go (some b) q rest e' = elim (Bool-cases (elem x.revision revs)) [
      | inl i ↦
          let e'' : (bytes_eq b h || contains h (hashes_of revs os)) ≡ true = rw i at e' in
          elim (Bool-cases (bytes_eq b h)) [
            | inl t ↦ (x, inl refl, q ∙ ap some (bytes_eq→eq b h t), i)
            | inr t ↦ further (rest (rw t at e''))
          ]
      | inr i ↦ further (rest (rw i at e'))
    ]

contains-used :
    (status : RevisionStatus) (namespace : Bytes) (db : Db) (h : Bytes)
    → (contains h (used status namespace db) ≡ true) ↔ Uses status namespace db h
contains-used status namespace db h = (
  λ e.
      let (o, m, b, i) =
        hashes_of-object (revisions_with status namespace db.revisions) h db.objects e in
      let (r, mr, n, ns, st) = elem-HasRow status namespace db.revisions o.revision i in
      (o, r, m, mr, b, n, ns, st),
  λ (o, r, m, mr, b, n, ns, st).
      contains-hashes_of _ o h db.objects m b
        (HasRow-elem status namespace db.revisions r o.revision mr n ns st),
)

-- A hash is to be removed exactly if a stale revision of the repository has an object with it, and
-- no live and no partial revision of the repository has one.
pub hashes_to_remove-Uses :
    (namespace : Bytes) (db : Db) (h : Bytes)
    → (contains h (hashes_to_remove namespace db) ≡ true)
      ↔ (Uses stale namespace db h × (¬ Uses live namespace db h) × (¬ Uses partial namespace db h))
hashes_to_remove-Uses namespace db h = (
  λ e. (
    (contains-used stale namespace db h).0
        (ground (arith, contains-hashes_to_remove namespace db h)),
    λ u. differ (
        ground (
          arith,
          contains-hashes_to_remove namespace db h,
          (contains-used live namespace db h).1 u,
        )),
    λ u. differ (
        ground (
          arith,
          contains-hashes_to_remove namespace db h,
          (contains-used partial namespace db h).1 u,
        )),
  ),
  λ (u, l, p).
      contains-hashes_to_remove namespace db h
      ∙ rw ((contains-used stale namespace db h).1 u, unused live l, unused partial p) refl,
)
  where
    differ : true ≡ false → ⊥
    differ e = cc

    unused :
        (status : RevisionStatus)
        → ¬ Uses status namespace db h
        → contains h (used status namespace db) ≡ false
    unused status n = elim (Bool-cases (contains h (used status namespace db))) [
      | inl e ↦ absurd (n ((contains-used status namespace db h).0 e))
      | inr e ↦ e
    ]
