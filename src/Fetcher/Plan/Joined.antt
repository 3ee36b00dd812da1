-- ===== src/Fetcher/Plan/Joined.antt =====
-- rsync-fetcher/src/plan.rs: the objects that `diff_unchanged_and_copy` finds, and the newest of each name.
use rsync_sjtug.Prelude.{
  ℕ, ◌≡◌, refl, sym, ap, ◌∙◌, Bool, true, false, Bool-cases, ◌⊎◌, inl, inr, List, [], ◌∷◌, ◌++◌,
  filter, In, In-append, In-append_left, In-append_right, In-filter, Bytes, bytes_eq, bytes_eq→eq,
  ltb, if◌then◌else◌,
}
use mathlib.Core.Path.{subst}
use rsync_sjtug.Database.Revisions.{Object}
use rsync_sjtug.Fetcher.FileList.{FileEntry}
use rsync_sjtug.Fetcher.Plan.{is_regular, is_match, joined, keep_newest, distinct_on_filename}

-- The object stands for a regular entry of the list.
unfoldable pub Stands : List ℕ → List FileEntry → Object → Type 0
Stands revs files o = (fl : FileEntry) × In fl files × (is_match revs fl o ≡ true)

Stands-more :
    (revs : List ℕ) (fl : FileEntry) (files : List FileEntry) (o : Object)
    → Stands revs files o
    → Stands revs (fl ∷ files) o
unfolding Stands
Stands-more revs fl files o (g, m, e) = (g, inr m, e)

pub joined-Stands :
    (revs : List ℕ) (objects : List Object) (files : List FileEntry) (o : Object)
    → In o (joined revs objects files)
    → Stands revs files o
unfolding joined Stands
joined-Stands revs objects [] o m = elim m [ ]
joined-Stands revs objects (fl ∷ files) o m = elim (Bool-cases (is_regular fl.mode)) [
  | inl t ↦
      elim (In-append o (filter (is_match revs fl) objects) (joined revs objects files) (
        subst
          (λ b. In o (
            if b
            then filter (is_match revs fl) objects ++ joined revs objects files
            else joined revs objects files))
          t m)) [
            | inl h ↦ (fl, inl refl, ((In-filter o (is_match revs fl) objects).0 h).1)
            | inr h ↦ Stands-more revs fl files o (joined-Stands revs objects files o h)
          ]
  | inr t ↦ Stands-more revs fl files o (
      joined-Stands revs objects files o (
        subst
          (λ b. In o (
            if b
            then filter (is_match revs fl) objects ++ joined revs objects files
            else joined revs objects files))
          t m))
]

-- An entry with a match is joined with an object of its name.
pub joined-match :
    (revs : List ℕ) (objects : List Object) (files : List FileEntry) (fl : FileEntry)
    → In fl files
    → is_regular fl.mode ≡ true
    → (o : Object) → In o (filter (is_match revs fl) objects)
    → In o (joined revs objects files)
unfolding joined
joined-match revs objects [] fl h t o m = elim h [ ]
joined-match revs objects (g ∷ files) fl (inl e) t o m =
    subst (λ h. In o (joined revs objects (h ∷ files))) e (rw t (In-append_left o _ _ m))
joined-match revs objects (g ∷ files) fl (inr h) t o m = elim (Bool-cases (is_regular g.mode)) [
  | inl t' ↦ rw t' (In-append_right o _ _ (joined-match revs objects files fl h t o m))
  | inr t' ↦ rw t' (joined-match revs objects files fl h t o m)
]

-- An object of the name is in the list.
abbrev pub Named : Bytes → List Object → Type 0
Named n cs = (c : Object) × In c cs × (c.filename ≡ n)

Named-more : (n : Bytes) (c : Object) (cs : List Object) → Named n cs → Named n (c ∷ cs)
Named-more n c cs (d, m, e) = (d, inr m, e)

keep_newest-In : (c o : Object) (cs : List Object) → In c (keep_newest o cs) → (c ≡ o) ⊎ In c cs
unfolding keep_newest
keep_newest-In c o [] m = m
keep_newest-In c o (d ∷ cs) m =
    go (bytes_eq d.filename o.filename) (ltb d.revision o.revision) (λ h. keep_newest-In c o cs h) m
  where
    go :
        (same older : Bool)
        → (In c (keep_newest o cs) → (c ≡ o) ⊎ In c cs)
        → In c (if same then (if older then o ∷ cs else d ∷ cs) else d ∷ keep_newest o cs)
        → (c ≡ o) ⊎ In c (d ∷ cs)
    go true true rest (inl e) = inl e
    go true true rest (inr h) = inr (inr h)
    go true false rest h = inr h
    go false older rest (inl e) = inr (inl e)
    go false older rest (inr h) = elim (rest h) [ inl e ↦ inl e | inr k ↦ inr (inr k) ]

pub distinct_on_filename-In :
    (c : Object) (os : List Object) → In c (distinct_on_filename os) → In c os
unfolding distinct_on_filename
distinct_on_filename-In c [] m = m
distinct_on_filename-In c (o ∷ os) m = elim (keep_newest-In c o (distinct_on_filename os) m) [
  | inl e ↦ inl e
  | inr h ↦ inr (distinct_on_filename-In c os h)
]

keep_newest-Named : (o : Object) (cs : List Object) → Named o.filename (keep_newest o cs)
unfolding keep_newest
keep_newest-Named o [] = (o, inl refl, refl)
keep_newest-Named o (d ∷ cs) = elim (Bool-cases (bytes_eq d.filename o.filename)) [
  | inl t ↦ elim (Bool-cases (ltb d.revision o.revision)) [
    | inl u ↦ rw (t, u) (o, inl refl, refl)
    | inr u ↦ rw (t, u) (d, inl refl, bytes_eq→eq _ _ t)
  ]
  | inr t ↦ rw t (Named-more o.filename d (keep_newest o cs) (keep_newest-Named o cs))
]

keep_newest-Named_more :
    (n : Bytes) (o : Object) (cs : List Object) → Named n cs → Named n (keep_newest o cs)
unfolding keep_newest
keep_newest-Named_more n o [] (c, m, e) = elim m [ ]
keep_newest-Named_more n o (d ∷ cs) (c, inl h, e) =
    elim (Bool-cases (bytes_eq d.filename o.filename)) [
      | inl t ↦ elim (Bool-cases (ltb d.revision o.revision)) [
        | inl u ↦
            rw (t, u)
              (o, inl refl, sym (bytes_eq→eq _ _ t) ∙ ap (λ (x : Object). x.filename) (sym h) ∙ e)
        | inr u ↦ rw (t, u) (c, inl h, e)
      ]
      | inr t ↦ rw t (c, inl h, e)
    ]
keep_newest-Named_more n o (d ∷ cs) (c, inr h, e) =
    elim (Bool-cases (bytes_eq d.filename o.filename)) [
      | inl t ↦ elim (Bool-cases (ltb d.revision o.revision)) [
        | inl u ↦ rw (t, u) (c, inr h, e)
        | inr u ↦ rw (t, u) (c, inr h, e)
      ]
      | inr t ↦ rw t (Named-more n d (keep_newest o cs) (keep_newest-Named_more n o cs (c, h, e)))
    ]

pub distinct_on_filename-Named :
    (o : Object) (os : List Object) → In o os → Named o.filename (distinct_on_filename os)
unfolding distinct_on_filename
distinct_on_filename-Named o [] m = elim m [ ]
distinct_on_filename-Named o (x ∷ os) (inl e) =
    subst (λ (y : Object). Named y.filename (distinct_on_filename (x ∷ os))) (sym e)
      (keep_newest-Named x (distinct_on_filename os))
distinct_on_filename-Named o (x ∷ os) (inr h) =
    keep_newest-Named_more o.filename x (distinct_on_filename os)
      (distinct_on_filename-Named o os h)
