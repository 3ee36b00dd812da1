-- ===== src/Gc/Policy.antt =====
-- What `mark_stale` keeps live and partial, and that it leaves other repositories alone.
use rsync_sjtug.Prelude.{
  ℕ, zero, suc, ◌<◌, ◌≡◌, ◌≢◌, refl, ap, ◌∙◌, Bool, true, false, not, ◌||◌, ◌&&◌, List, [], ◌∷◌,
  ◌++◌, map, Bytes, bytes_eq, filter, take, drop, All, leb, ltb, arith, Bool-cases, inl, inr,
}
use rsync_sjtug.Database.Revisions.{Revision, RevisionStatus, partial, live, stale, Db}
use rsync_sjtug.Database.Order.{
  Desc, Distinct, revision_of, order_by_revision_desc, order_by_revision_desc-map,
  order_by_revision_desc-Desc,
}
use rsync_sjtug.Gc.{
  elem, select_revisions, place, partition_revs, last_live_rev, to_stale_revs, set_stale,
  mark_stale,
}

-- The entries that are not among `revs`.
abbrev without : List ℕ → List ℕ → List ℕ
without revs = filter (λ r. not (elem r revs))

partition_revs-set_stale :
    (revs : List ℕ) (rs : List Revision)
    → partition_revs (map (set_stale revs) rs)
      ≡ (without revs (partition_revs rs).0, without revs (partition_revs rs).1)
unfolding partition_revs set_stale
partition_revs-set_stale revs [] = refl
partition_revs-set_stale revs (r ∷ rs) = ground (arith, partition_revs-set_stale revs rs)

filter-set_stale :
    (namespace : Bytes) (revs : List ℕ) (rs : List Revision)
    → filter (λ r. bytes_eq r.repository namespace) (map (set_stale revs) rs)
      ≡ map (set_stale revs) (filter (λ r. bytes_eq r.repository namespace) rs)
unfolding set_stale
filter-set_stale namespace revs [] = refl
filter-set_stale namespace revs (r ∷ rs) = ground (arith, filter-set_stale namespace revs rs)

set_stale_revision : (revs : List ℕ) (r : Revision) → (set_stale revs r).revision ≡ r.revision
unfolding set_stale
set_stale_revision revs r = ground arith

select_revisions-set_stale :
    (namespace : Bytes) (revs : List ℕ) (db : Db)
    → select_revisions namespace (record db { revisions = map (set_stale revs) db.revisions })
      ≡ map (set_stale revs) (select_revisions namespace db)
unfolding select_revisions
select_revisions-set_stale namespace revs db =
    ap order_by_revision_desc (filter-set_stale namespace revs db.revisions)
    ∙ order_by_revision_desc-map (set_stale revs) (set_stale_revision revs) _

-- Membership, as the update decides it.
elem-append : (a : ℕ) (xs ys : List ℕ) → elem a (xs ++ ys) ≡ (elem a xs || elem a ys)
unfolding elem
elem-append a [] ys = refl
elem-append a (x ∷ xs) ys = ground (arith, elem-append a xs ys)

elem-filter : (a : ℕ) (p : ℕ → Bool) (xs : List ℕ) → elem a (filter p xs) ≡ (p a && elem a xs)
unfolding elem
elem-filter a p [] = ground arith
elem-filter a p (x ∷ xs) = ground (arith, elem-filter a p xs)

elem_above : (a : ℕ) (xs : List ℕ) → All (λ y. y < a) xs → elem a xs ≡ false
unfolding elem
elem_above a [] h = refl
elem_above a (x ∷ xs) h = ground (arith, elem_above a xs h.1)

elem-drop : (a k : ℕ) (xs : List ℕ) → elem a xs ≡ false → elem a (drop k xs) ≡ false
unfolding elem
elem-drop a zero xs h = h
elem-drop a (suc k) [] h = h
elem-drop a (suc k) (x ∷ xs) h = elem-drop a k xs (ground arith)

All-zip :
    {P Q R : ℕ → Type 0} (xs : List ℕ)
    → All P xs
    → All Q xs
    → ((x : ℕ) → P x → Q x → R x)
    → All R xs
All-zip [] p q f = tt
All-zip (x ∷ xs) p q f = (f x p.0 q.0, All-zip xs p.1 q.1 f)

without_congr :
    (revs revs' xs : List ℕ)
    → All (λ x. elem x revs ≡ elem x revs') xs
    → without revs xs ≡ without revs' xs
without_congr revs revs' [] h = refl
without_congr revs revs' (x ∷ xs) h = ground (arith, without_congr revs revs' xs h.1)

without-All : (revs xs : List ℕ) → All (λ x. elem x revs ≡ true) xs → without revs xs ≡ []
without-All revs [] h = refl
without-All revs (x ∷ xs) h = rw h.0 (without-All revs xs h.1)

elem_self :
    (zs xs : List ℕ)
    → ((x : ℕ) → elem x xs ≡ true → elem x zs ≡ true)
    → All (λ x. elem x zs ≡ true) xs
unfolding elem
elem_self zs [] h = tt
elem_self zs (x ∷ xs) h = (h x (ground arith), elem_self zs xs (λ y e. h y (ground arith)))

-- In a strictly falling list, what is left without the tail from `k` on is the first `k`.
without-drop : (k : ℕ) (xs : List ℕ) → Desc xs → without (drop k xs) xs ≡ take k xs
without-drop zero xs d = without-All xs xs (elem_self xs xs (λ x e. e))
without-drop (suc k) [] d = refl
without-drop (suc k) (x ∷ xs) d =
    rw (elem-drop x k xs (elem_above x xs d.0)) (ap (◌∷◌ x) (without-drop k xs d.1))

filter-Desc : (p : ℕ → Bool) (xs : List ℕ) → Desc xs → Desc (filter p xs)
filter-Desc p [] d = tt
filter-Desc p (x ∷ xs) d = elim (Bool-cases (p x)) [
  | inl e ↦ rw e (filter-All xs d.0, filter-Desc p xs d.1)
  | inr e ↦ rw e (filter-Desc p xs d.1)
]
  where
    filter-All : (ys : List ℕ) → All (λ y. y < x) ys → All (λ y. y < x) (filter p ys)
    filter-All [] h = tt
    filter-All (y ∷ ys) h = elim (Bool-cases (p y)) [
      | inl e ↦ rw e (h.0, filter-All ys h.1)
      | inr e ↦ rw e (filter-All ys h.1)
    ]

-- What the partition of strictly falling rows gives: both lists fall and share no revision.
record IsSplit (live_revs partial_revs : List ℕ) : Type 0 where
  live_desc : Desc live_revs
  partial_desc : Desc partial_revs
  live_apart : All (λ x. elem x partial_revs ≡ false) live_revs
  partial_apart : All (λ x. elem x live_revs ≡ false) partial_revs

partition_revs_below :
    (x : ℕ) (rs : List Revision)
    → All (λ y. y < x) (map revision_of rs)
    → All (λ y. y < x) (partition_revs rs).0 × All (λ y. y < x) (partition_revs rs).1
unfolding partition_revs
partition_revs_below x [] h = (tt, tt)
partition_revs_below x (r ∷ rs) h = ground (arith, partition_revs_below x rs h.1)

apart_cons :
    (r : ℕ) (xs ys : List ℕ)
    → All (λ y. y < r) ys
    → All (λ y. elem y xs ≡ false) ys
    → All (λ y. elem y (r ∷ xs) ≡ false) ys
unfolding elem
apart_cons r xs ys below apart = All-zip ys below apart (λ y b a. ground arith)

IsSplit-live :
    (r : ℕ) (ls ps : List ℕ)
    → All (λ y. y < r) ls
    → All (λ y. y < r) ps
    → IsSplit ls ps
    → IsSplit (r ∷ ls) ps
IsSplit-live r ls ps hl hp s = record {
  live_desc = (hl, s.live_desc);
  partial_desc = s.partial_desc;
  live_apart = (elem_above r ps hp, s.live_apart);
  partial_apart = apart_cons r ls ps hp s.partial_apart;
}

IsSplit-partial :
    (r : ℕ) (ls ps : List ℕ)
    → All (λ y. y < r) ls
    → All (λ y. y < r) ps
    → IsSplit ls ps
    → IsSplit ls (r ∷ ps)
IsSplit-partial r ls ps hl hp s = record {
  live_desc = s.live_desc;
  partial_desc = (hp, s.partial_desc);
  live_apart = apart_cons r ps ls hl s.live_apart;
  partial_apart = (elem_above r ls hl, s.partial_apart);
}

IsSplit-place :
    (status : RevisionStatus) (r : ℕ) (ls ps : List ℕ)
    → All (λ y. y < r) ls
    → All (λ y. y < r) ps
    → IsSplit ls ps
    → IsSplit (place status r (ls, ps)).0 (place status r (ls, ps)).1
unfolding place
IsSplit-place partial r ls ps hl hp s = IsSplit-partial r ls ps hl hp s
IsSplit-place live r ls ps hl hp s = IsSplit-live r ls ps hl hp s
IsSplit-place stale r ls ps hl hp s = s

partition_revs-IsSplit :
    (rs : List Revision)
    → Desc (map revision_of rs)
    → IsSplit (partition_revs rs).0 (partition_revs rs).1
unfolding partition_revs
partition_revs-IsSplit [] d = record {
  live_desc = tt;
  partial_desc = tt;
  live_apart = tt;
  partial_apart = tt;
}
partition_revs-IsSplit (r ∷ rs) d =
    let (hl, hp) = partition_revs_below r.revision rs d.0 in
    IsSplit-place r.status r.revision (partition_revs rs).0 (partition_revs rs).1 hl hp
      (partition_revs-IsSplit rs d.1)

Distinct-filter : (p : Revision → Bool) (rs : List Revision) → Distinct rs → Distinct (filter p rs)
Distinct-filter p [] d = tt
Distinct-filter p (r ∷ rs) d = elim (Bool-cases (p r)) [
  | inl e ↦ rw e (filter-All rs d.0, Distinct-filter p rs d.1)
  | inr e ↦ rw e (Distinct-filter p rs d.1)
]
  where
    filter-All :
        (qs : List Revision)
        → All (λ q. q.revision ≢ r.revision) qs
        → All (λ q. q.revision ≢ r.revision) (filter p qs)
    filter-All [] h = tt
    filter-All (q ∷ qs) h = elim (Bool-cases (p q)) [
      | inl e ↦ rw e (h.0, filter-All qs h.1)
      | inr e ↦ rw e (filter-All qs h.1)
    ]

module _ (keep_live keep_partial : ℕ) (ls ps : List ℕ) (s : IsSplit ls ps) where
  abbrev revs : List ℕ
  revs = to_stale_revs keep_live keep_partial ls ps

  abbrev recent : List ℕ
  recent = filter (λ r. leb (last_live_rev ls) r) ps

  elem-revs :
      (x : ℕ)
      → elem x revs ≡ (
          (ltb x (last_live_rev ls) && elem x ps)
          || (elem x (drop keep_partial recent) || elem x (drop keep_live ls)))
  unfolding to_stale_revs
  elem-revs x = rw (
    elem-append x (filter (λ r. ltb r (last_live_rev ls)) ps)
        (drop keep_partial recent ++ drop keep_live ls),
    elem-append x (drop keep_partial recent) (drop keep_live ls),
    elem-filter x (λ r. ltb r (last_live_rev ls)) ps,
  )

  without-live : without revs ls ≡ take keep_live ls
  without-live =
      without_congr revs (drop keep_live ls) ls (
        All-zip ls s.live_apart s.live_apart (λ x a b. ground (
          arith,
          elem-revs x,
          a,
          elem-drop x keep_partial recent,
          elem-filter x (λ r. leb (last_live_rev ls) r) ps,
        )))
      ∙ without-drop keep_live ls s.live_desc

  without_both :
      (q : ℕ → Bool) (zs xs : List ℕ)
      → All (λ x. not (elem x revs) ≡ (q x && not (elem x zs))) xs
      → without revs xs ≡ without zs (filter q xs)
  without_both q zs [] h = refl
  without_both q zs (x ∷ xs) h = ground (arith, h.0, without_both q zs xs h.1)

  without-partial : without revs ps ≡ take keep_partial recent
  without-partial =
      without_both (λ r. leb (last_live_rev ls) r) (drop keep_partial recent) ps
        (All-zip ps s.partial_apart (elem_self ps ps (λ x e. e))
          (λ x a b. ground (arith, elem-revs x, a, b, elem-drop x keep_live ls)))
      ∙ without-drop keep_partial recent (filter-Desc _ ps s.partial_desc)

-- The live and the partial revisions of a repository, newest first.
unfoldable pub kept : Bytes → Db → List ℕ × List ℕ
kept namespace db = partition_revs (select_revisions namespace db)

-- If no two rows share a revision, then after `mark_stale` the repository's live revisions are the
-- `keep_live` newest of those that were live, and its partial revisions are the `keep_partial`
-- newest of those that were partial and are not older than the newest live revision (than 0, if
-- none is live).
pub kept-mark_stale :
    (namespace : Bytes) (keep_live keep_partial : ℕ) (db : Db)
    → Distinct db.revisions
    → kept namespace (mark_stale namespace keep_live keep_partial db).0 ≡ (
      take keep_live (kept namespace db).0,
      take keep_partial
          (filter (λ r. leb (last_live_rev (kept namespace db).0) r) (kept namespace db).1),
    )
unfolding kept mark_stale
kept-mark_stale namespace keep_live keep_partial db d =
    let rs = select_revisions namespace db in
    let ls = (partition_revs rs).0 in
    let ps = (partition_revs rs).1 in
    let zs = to_stale_revs keep_live keep_partial ls ps in
    let s = partition_revs-IsSplit rs (
      unfold select_revisions in
      order_by_revision_desc-Desc _ (Distinct-filter _ db.revisions d)) in
    ap partition_revs (select_revisions-set_stale namespace zs db)
    ∙ partition_revs-set_stale zs rs
    ∙ cc (
      without-live keep_live keep_partial ls ps s,
      without-partial keep_live keep_partial ls ps s,
    )
