-- ===== src/Database/Order.antt =====
-- `ORDER BY revision DESC` and what it gives on rows with distinct revisions.
use rsync_sjtug.Prelude.{
  ℕ, ◌<◌, ◌≢◌, ◌≡◌, refl, List, [], ◌∷◌, map, All, ltb, if◌then◌else◌, arith, Bool-cases, inl, inr,
  ltb→le, ltb→lt,
}
use rsync_sjtug.Database.Revisions.{Revision}

insert_desc : Revision → List Revision → List Revision
insert_desc r [] = r ∷ []
insert_desc r (q ∷ qs) = if ltb q.revision r.revision then r ∷ q ∷ qs else q ∷ insert_desc r qs

unfoldable pub order_by_revision_desc : List Revision → List Revision
unfolding insert_desc
order_by_revision_desc [] = []
order_by_revision_desc (r ∷ rs) = insert_desc r (order_by_revision_desc rs)

abbrev pub revision_of : Revision → ℕ
revision_of r = r.revision

-- The primary key: no two rows have the same revision.
abbrev pub Distinct : List Revision → Type 0
Distinct [] = Unit
Distinct (r ∷ rs) = All (λ q. q.revision ≢ r.revision) rs × Distinct rs

-- Strictly falling.
abbrev pub Desc : List ℕ → Type 0
Desc [] = Unit
Desc (x ∷ xs) = All (λ y. y < x) xs × Desc xs

module _ (P : Revision → Type 0) where
  All-insert_desc : (r : Revision) (rs : List Revision) → P r → All P rs → All P (insert_desc r rs)
  unfolding insert_desc
  All-insert_desc r [] h hs = (h, tt)
  All-insert_desc r (q ∷ qs) h hs = elim (Bool-cases (ltb q.revision r.revision)) [
    | inl e ↦ rw e (h, hs)
    | inr e ↦ rw e (hs.0, All-insert_desc r qs h hs.1)
  ]

  pub All-order_by_revision_desc :
      (rs : List Revision) → All P rs → All P (order_by_revision_desc rs)
  unfolding order_by_revision_desc
  All-order_by_revision_desc [] h = tt
  All-order_by_revision_desc (r ∷ rs) h =
      All-insert_desc r (order_by_revision_desc rs) h.0 (All-order_by_revision_desc rs h.1)

All-below : (x y : ℕ) → x < y → (zs : List ℕ) → All (λ z. z < x) zs → All (λ z. z < y) zs
All-below x y h [] hs = tt
All-below x y h (z ∷ zs) hs = (omega arith, All-below x y h zs hs.1)

All-map_of :
    (x : ℕ) (rs : List Revision)
    → All (λ q. q.revision < x) rs
    → All (λ y. y < x) (map revision_of rs)
All-map_of x [] h = tt
All-map_of x (r ∷ rs) h = (h.0, All-map_of x rs h.1)

All-of_map :
    (x : ℕ) (rs : List Revision)
    → All (λ y. y < x) (map revision_of rs)
    → All (λ q. q.revision < x) rs
All-of_map x [] h = tt
All-of_map x (r ∷ rs) h = (h.0, All-of_map x rs h.1)

insert_desc-Desc :
    (r : Revision) (rs : List Revision)
    → All (λ q. q.revision ≢ r.revision) rs
    → Desc (map revision_of rs)
    → Desc (map revision_of (insert_desc r rs))
unfolding insert_desc
insert_desc-Desc r [] h d = (tt, tt)
insert_desc-Desc r (q ∷ qs) h d = elim (Bool-cases (ltb q.revision r.revision)) [
  | inl e ↦ rw e ((ltb→lt _ _ e, All-below q.revision r.revision (ltb→lt _ _ e) _ d.0), d)
  | inr e ↦ rw e (
    All-map_of q.revision (insert_desc r qs) (
        All-insert_desc (λ p. p.revision < q.revision) r qs
          (omega (arith, ltb→le q.revision r.revision e, h.0)) (All-of_map q.revision qs d.0)),
    insert_desc-Desc r qs h.1 d.1,
  )
]

-- Ordering rows with distinct revisions gives strictly falling revisions.
pub order_by_revision_desc-Desc :
    (rs : List Revision) → Distinct rs → Desc (map revision_of (order_by_revision_desc rs))
unfolding order_by_revision_desc
order_by_revision_desc-Desc [] h = tt
order_by_revision_desc-Desc (r ∷ rs) h =
    insert_desc-Desc r (order_by_revision_desc rs)
      (All-order_by_revision_desc (λ q. q.revision ≢ r.revision) rs h.0)
      (order_by_revision_desc-Desc rs h.1)

module _ (f : Revision → Revision) (keeps : (r : Revision) → (f r).revision ≡ r.revision) where
  insert_desc-map :
      (r : Revision) (rs : List Revision) → insert_desc (f r) (map f rs) ≡ map f (insert_desc r rs)
  unfolding insert_desc
  insert_desc-map r [] = refl
  insert_desc-map r (q ∷ qs) = ground (arith, keeps q, keeps r, insert_desc-map r qs)

  -- An update that keeps the revisions commutes with the order.
  pub order_by_revision_desc-map :
      (rs : List Revision) → order_by_revision_desc (map f rs) ≡ map f (order_by_revision_desc rs)
  unfolding order_by_revision_desc
  order_by_revision_desc-map [] = refl
  order_by_revision_desc-map (r ∷ rs) =
      rw (order_by_revision_desc-map rs) (insert_desc-map r (order_by_revision_desc rs))
