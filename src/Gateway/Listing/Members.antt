-- ===== src/Gateway/Listing/Members.antt =====
-- rsync-gateway/src/pg.rs, `list_directory`: which objects a listing shows.
use rsync_sjtug.Prelude.{
  ℕ, ◌≡◌, refl, sym, ap, ◌∙◌, ◌↔◌, ◌⊎◌, Bool, true, false, not, ◌&&◌, Bool-cases, inl, inr, Option,
  none, some, List, [], ◌∷◌, map, filter, In, In-filter, Bytes, ◌==◌, ==_iff, if◌then◌else◌,
}
use rsync_sjtug.Database.Revisions.{Object, Db}
use rsync_sjtug.Gateway.Entries.{find_object}
use rsync_sjtug.Gateway.Listing.{
  ListingEntry, listing_entry, has_parent, sorts_before, insert_listed, order_listed, list_root,
  list_children, is_shown, is_hidden, is_root, list_directory,
}

In-insert_listed :
    (o p : Object) (os : List Object) → In o (insert_listed p os) ↔ ((o ≡ p) ⊎ In o os)
unfolding insert_listed
In-insert_listed o p os = (there os, back os)
  where
    there : (os : List Object) → In o (insert_listed p os) → (o ≡ p) ⊎ In o os
    there [] m = m
    there (q ∷ qs) m = go (sorts_before q p) (there qs) m
      where
        go :
            (b : Bool)
            → (In o (insert_listed p qs) → (o ≡ p) ⊎ In o qs)
            → In o (if b then q ∷ insert_listed p qs else p ∷ q ∷ qs)
            → (o ≡ p) ⊎ In o (q ∷ qs)
        go true rest (inl e) = inr (inl e)
        go true rest (inr h) = elim (rest h) [ inl e ↦ inl e | inr k ↦ inr (inr k) ]
        go false rest h = h

    back : (os : List Object) → (o ≡ p) ⊎ In o os → In o (insert_listed p os)
    back [] m = m
    back (q ∷ qs) m = go (sorts_before q p) (back qs) m
      where
        go :
            (b : Bool)
            → ((o ≡ p) ⊎ In o qs → In o (insert_listed p qs))
            → (o ≡ p) ⊎ In o (q ∷ qs)
            → In o (if b then q ∷ insert_listed p qs else p ∷ q ∷ qs)
        go true rest (inl e) = inr (rest (inl e))
        go true rest (inr (inl e)) = inl e
        go true rest (inr (inr h)) = inr (rest (inr h))
        go false rest h = h

pub In-order_listed : (o : Object) (os : List Object) → In o (order_listed os) ↔ In o os
unfolding order_listed
In-order_listed o [] = (λ m. m, λ m. m)
In-order_listed o (p ∷ ps) =
    let (there, back) = In-insert_listed o p (order_listed ps) in
    let (there', back') = In-order_listed o ps in
    (
      λ m. elim (there m) [ inl e ↦ inl e | inr h ↦ inr (there' h) ],
      λ m. back (elim m [ inl e ↦ inl e | inr h ↦ inr (back' h) ]),
    )

-- The objects that the path's own object is the parent of; at the root, those without one.
abbrev pub LiesUnder : Bytes → ℕ → Db → Object → Type 0
LiesUnder [] revision db o = o.parent ≡ none
LiesUnder (c ∷ cs) revision db o =
    (d : Object) × (find_object revision (c ∷ cs) db.objects ≡ some d) × (o.parent ≡ some d.id)

-- Its name begins with a dot.
abbrev pub BeginsWithDot : Bytes → Type 0
BeginsWithDot name = (rest : Bytes) × (name ≡ 46 ∷ rest)

has_parent-none : (a : Option ℕ) → (has_parent a none ≡ true) ↔ (a ≡ none)
has_parent-none none = (λ e. refl, λ e. refl)
has_parent-none (some a) = (λ e. cc, λ e. cc)

has_parent-some : (a : Option ℕ) (i : ℕ) → (has_parent a (some i) ≡ true) ↔ (a ≡ some i)
has_parent-some none i = (λ e. cc, λ e. cc)
has_parent-some (some a) i = (λ e. ap some ((==_iff a i).0 e), λ e. (==_iff a i).1 (number a i e))
  where
    number : (a b : ℕ) → some a ≡ some b → a ≡ b
    number a b e = cc

is_hidden-BeginsWithDot : (name : Bytes) → (is_hidden name ≡ true) ↔ BeginsWithDot name
is_hidden-BeginsWithDot [] = (λ e. cc, λ (r, e). cc)
is_hidden-BeginsWithDot (c ∷ cs) =
    (λ e. (cs, ap (λ d. d ∷ cs) ((==_iff c 46).0 e)), λ (r, e). (==_iff c 46).1 (head c 46 cs r e))
  where
    head : (a b : ℕ) (xs ys : Bytes) → ◌≡◌ {A = Bytes} (a ∷ xs) (b ∷ ys) → a ≡ b
    head a b xs ys e = cc

is_shown_iff :
    (list_hidden : Bool) (entry : ListingEntry)
    → (is_shown list_hidden entry ≡ true)
      ↔ ((list_hidden ≡ true) ⊎ (¬ BeginsWithDot entry.filename))
is_shown_iff true entry = (λ e. inl refl, λ s. refl)
is_shown_iff false entry = (
  λ e. inr (λ dot. differ (sym e ∙ ap not ((is_hidden-BeginsWithDot entry.filename).1 dot))),
  λ s. elim s [
    | inl e ↦ cc
    | inr n ↦ elim (Bool-cases (is_hidden entry.filename)) [
      | inl t ↦ absurd (n ((is_hidden-BeginsWithDot entry.filename).0 t))
      | inr t ↦ rw t refl
    ]
  ],
)
  where
    differ : true ≡ false → ⊥
    differ e = cc

In-map_listed :
    (f : Object → ListingEntry) (e : ListingEntry) (os : List Object)
    → In e (map f os) ↔ ((o : Object) × In o os × (e ≡ f o))
In-map_listed f e os = (there os, λ (o, m, p). back os o m p)
  where
    there : (os : List Object) → In e (map f os) → (o : Object) × In o os × (e ≡ f o)
    there [] m = absurd m
    there (q ∷ qs) (inl p) = (q, inl refl, p)
    there (q ∷ qs) (inr h) = let (o, m, p) = there qs h in (o, inr m, p)

    back : (os : List Object) (o : Object) → In o os → e ≡ f o → In e (map f os)
    back [] o m p = absurd m
    back (q ∷ qs) o (inl h) p = inl (p ∙ ap f h)
    back (q ∷ qs) o (inr h) p = inr (back qs o h p)

and_iff : (a b : Bool) → ((a && b) ≡ true) ↔ ((a ≡ true) × (b ≡ true))
and_iff true b = (λ e. (refl, e), λ (p, q). q)
and_iff false b = (λ e. cc, λ (p, q). cc)

-- The objects of a query, with its condition on the parent.
In-ordered :
    (revision : ℕ) (parent : Option ℕ) (db : Db) (o : Object)
    → In o (
        order_listed (
          filter (λ (q : Object). q.revision == revision && has_parent q.parent parent) db.objects))
      ↔ (In o db.objects × (o.revision ≡ revision) × (has_parent o.parent parent ≡ true))
In-ordered revision parent db o = (
  λ m.
      let (k, t) = (In-filter o _ db.objects).0 ((In-order_listed o _).0 m) in
      let (r, h) = (and_iff _ _).0 t in (k, (==_iff o.revision revision).0 r, h),
  λ (k, r, h).
      (In-order_listed o _).1
        ((In-filter o _ db.objects).1 (k, (and_iff _ _).1 ((==_iff o.revision revision).1 r, h))),
)

listed_under :
    (path : Bytes) (revision : ℕ) (db : Db) (o : Object)
    → In o (if is_root path then list_root revision db else list_children path revision db)
      ↔ (In o db.objects × (o.revision ≡ revision) × LiesUnder path revision db o)
unfolding list_root list_children
listed_under [] revision db o = (
  λ m.
      let (k, r, h) = (In-ordered revision none db o).0 m in (k, r, (has_parent-none o.parent).0 h),
  λ (k, r, h). (In-ordered revision none db o).1 (k, r, (has_parent-none o.parent).1 h),
)
listed_under (c ∷ cs) revision db o = go (find_object revision (c ∷ cs) db.objects)
  where
    go :
        (found : Option Object)
        → In o (elim found [
          | none ↦ []
          | some parent ↦ order_listed (
              filter
                (λ (q : Object). q.revision == revision && has_parent q.parent (some parent.id))
                db.objects)
        ])
          ↔ (In o db.objects
              × (o.revision ≡ revision)
              × ((d : Object) × (found ≡ some d) × (o.parent ≡ some d.id)))
    go none = (λ m. absurd m, λ (k, r, (d, e, h)). cc)
    go (some p) = (
      λ m.
          let (k, r, h) = (In-ordered revision (some p.id) db o).0 m in
          (k, r, (p, refl, (has_parent-some o.parent p.id).0 h)),
      λ (k, r, (d, e, h)).
          (In-ordered revision (some p.id) db o).1
            (k, r, (has_parent-some o.parent p.id).1 (h ∙ ap some (same p d e))),
    )
      where
        same : (a b : Object) → some a ≡ some b → b.id ≡ a.id
        same a b e = cc

-- What a listing shows.
pub list_directory-In :
    (path : Bytes) (revision : ℕ) (list_hidden : Bool) (db : Db) (e : ListingEntry)
    → In e (list_directory path revision list_hidden db) ↔ (
        (o : Object) × In o db.objects
        × (o.revision ≡ revision)
        × LiesUnder path revision db o
        × (e ≡ listing_entry o)
        × ((list_hidden ≡ true) ⊎ (¬ BeginsWithDot e.filename)))
unfolding list_directory
list_directory-In path revision list_hidden db e = (
  λ m.
      let (k, t) = (In-filter e (is_shown list_hidden) _).0 m in
      let (o, n, p) = (In-map_listed listing_entry e _).0 k in
      let (there, r, u) = (listed_under path revision db o).0 n in
      (o, there, r, u, p, (is_shown_iff list_hidden e).0 t),
  λ (o, there, r, u, p, s). (In-filter e (is_shown list_hidden) _).1 (
    (In-map_listed listing_entry e _).1 (o, (listed_under path revision db o).1 (there, r, u), p),
    (is_shown_iff list_hidden e).1 s,
  ),
)
