-- ===== src/Fetcher/Fetch/Names.antt =====
-- sqls/update_parent.sql: what the name of a directory is to a name.
use rsync_sjtug.Prelude.{
  ℕ, ◌≡◌, ◌≢◌, refl, sym, ap, ◌∙◌, ◌↔◌, true, false, Bool-cases, inl, inr, Option, none, some, [],
  ◌∷◌, ◌++◌, Bytes, ◌==◌, ==_iff, if◌then◌else◌,
}
use rsync_sjtug.Fetcher.Fetch.{directory_of}

-- Not empty, and without a slash, but for one at the very end.
abbrev pub IsComponent : Bytes → Type 0
IsComponent [] = ⊥
IsComponent (c ∷ []) = Unit
IsComponent (c ∷ d ∷ cs) = (c ≢ 47) × IsComponent (d ∷ cs)

-- The name is the directory's, a slash and a component.
abbrev pub LiesIn : Bytes → Bytes → Type 0
LiesIn path name = (base : Bytes) × (name ≡ path ++ (47 ∷ base)) × IsComponent base

directory_of-none : (c : ℕ) (cs : Bytes) → directory_of (c ∷ cs) ≡ none → IsComponent (c ∷ cs)
unfolding directory_of
directory_of-none c [] e = tt
directory_of-none c (d ∷ cs) e = go (directory_of (d ∷ cs)) (directory_of-none d cs) e
  where
    go :
        (found : Option Bytes)
        → (found ≡ none → IsComponent (d ∷ cs))
        → ◌≡◌ {A = Option Bytes}
            (elim found [
              | some parent ↦ some (c ∷ parent)
              | none ↦ if c == 47 then some [] else none
            ])
            none
        → IsComponent (c ∷ d ∷ cs)
    go (some parent) rest h = absurd (cc)
    go none rest h = elim (Bool-cases (c == 47)) [
      | inl t ↦ absurd (taken (rw t at h))
      | inr t ↦ (λ q. differ (sym ((==_iff c 47).1 q) ∙ t), rest refl)
    ]
      where
        taken : ◌≡◌ {A = Option Bytes} (some []) none → ⊥
        taken k = cc

        differ : true ≡ false → ⊥
        differ k = cc

component-none : (cs : Bytes) → IsComponent cs → directory_of cs ≡ none
unfolding directory_of
component-none [] h = absurd h
component-none (c ∷ []) h = refl
component-none (c ∷ d ∷ cs) (n, h) =
    rw (component-none (d ∷ cs) h)
      (elim (Bool-cases (c == 47)) [ inl t ↦ absurd (n ((==_iff c 47).0 t)) | inr t ↦ rw t refl ])

directory_of-there : (name path : Bytes) → directory_of name ≡ some path → LiesIn path name
unfolding directory_of
directory_of-there [] path e = cc
directory_of-there (c ∷ []) path e = cc
directory_of-there (c ∷ d ∷ cs) path e =
    go (directory_of (d ∷ cs)) (directory_of-there (d ∷ cs)) (directory_of-none d cs) e
  where
    some_eq : (a b : Bytes) → some a ≡ some b → a ≡ b
    some_eq a b h = cc

    go :
        (found : Option Bytes)
        → ((p : Bytes) → found ≡ some p → LiesIn p (d ∷ cs))
        → (found ≡ none → IsComponent (d ∷ cs))
        → elim found [ some parent ↦ some (c ∷ parent) | none ↦ if c == 47 then some [] else none ]
          ≡ some path
        → LiesIn path (c ∷ d ∷ cs)
    go (some parent) rest last h =
        let (base, q, l) = rest parent refl in
        (base, ap (◌∷◌ c) q ∙ ap (λ p. p ++ (47 ∷ base)) (some_eq (c ∷ parent) path h), l)
    go none rest last h = elim (Bool-cases (c == 47)) [
      | inl t ↦ (
        d ∷ cs,
        ap (λ k. k ∷ d ∷ cs) ((==_iff c 47).0 t)
            ∙ ap (λ p. p ++ (47 ∷ d ∷ cs)) (some_eq [] path (rw t at h)),
        last refl,
      )
      | inr t ↦ absurd (missing (rw t at h))
    ]
      where
        missing : ◌≡◌ {A = Option Bytes} none (some path) → ⊥
        missing k = cc

directory_of-cons :
    (c : ℕ) (xs path : Bytes)
    → directory_of xs ≡ some path
    → directory_of (c ∷ xs) ≡ some (c ∷ path)
unfolding directory_of
directory_of-cons c [] path e = cc
directory_of-cons c (x ∷ xs) path e = rw e refl

directory_of-back :
    (path base : Bytes) → IsComponent base → directory_of (path ++ (47 ∷ base)) ≡ some path
directory_of-back [] [] h = absurd h
directory_of-back [] (b ∷ bs) h = unfold directory_of in rw (component-none (b ∷ bs) h) refl
directory_of-back (p ∷ ps) base h =
    directory_of-cons p (ps ++ (47 ∷ base)) ps (directory_of-back ps base h)

pub directory_of-LiesIn : (name path : Bytes) → (directory_of name ≡ some path) ↔ LiesIn path name
directory_of-LiesIn name path = (
  directory_of-there name path,
  λ (base, q, l). ap directory_of q ∙ directory_of-back path base l,
)
