-- ===== src/Tests/Pages.antt =====
-- The links above a listing and the endpoints of a configuration; rsync-gateway/src/render.rs, opts.rs.
use rsync_sjtug.Prelude.{
  ◌≡◌, ◌≢◌, ◌↔◌, refl, sym, ap, Bool, true, false, not, ◌&&◌, List, [], ◌∷◌, map, Bytes, bytes_eq,
  bytes_eq→eq, bytes_eq_refl, ok, All, Bool-cases, inl, inr, arith,
}
use rsync_sjtug.Database.Revisions.{contains}
use rsync_sjtug.Gateway.Navbar.{
  NavbarTemplate, parents, href, hrefs, comps_to_navbar, follow, enter, on_the_way,
  comps_to_navbar-on_the_way,
}
use rsync_sjtug.Gateway.Config.{
  Endpoint, starts_with_slash, any, validate_config, IsUnique, IsPrefix, validate_config-IsUnique,
}
use rsync_sjtug.Gateway.Keys.{de_trim_end_slash}

abbrev a : Bytes
a = 97 ∷ []

abbrev b : Bytes
b = 98 ∷ []

-- The title `a/b/`.
navbar_run :
    comps_to_navbar (a ∷ b ∷ [] ∷ [])
    ≡ ok (record { components = (46 ∷ 46 ∷ 47 ∷ [], a) ∷ (46 ∷ [], b) ∷ []; last_component = [] })
unfolding comps_to_navbar hrefs href parents
navbar_run = refl

comps_to_navbar-on_the_way_example :
    (template : NavbarTemplate) × (comps_to_navbar (a ∷ b ∷ [] ∷ []) ≡ ok template)
    × (map (λ p. (follow (enter [] (a ∷ b ∷ [])) p.0, p.1)) template.components
        ≡ on_the_way [] (a ∷ b ∷ []))
    × (template.last_component ≡ [])
comps_to_navbar-on_the_way_example = comps_to_navbar-on_the_way [] (a ∷ b ∷ [])

unfoldable all_unique : List Bytes → Bool
all_unique [] = true
all_unique (x ∷ xs) = not (contains x xs) && all_unique xs

contains-All : (x : Bytes) (xs : List Bytes) → (contains x xs ≡ false) ↔ All (λ y. x ≢ y) xs
unfolding contains
contains-All x [] = (λ h. tt, λ h. refl)
contains-All x (y ∷ xs) = (
  λ h. (
    λ e. ground (arith, ap (bytes_eq y) e, bytes_eq_refl y),
    (contains-All x xs).0 (ground arith),
  ),
  λ (n, h). elim (Bool-cases (bytes_eq y x)) [
    | inl e ↦ absurd (n (sym (bytes_eq→eq y x e)))
    | inr e ↦ rw (e, (contains-All x xs).1 h) refl
  ],
)

all_unique-IsUnique : (xs : List Bytes) → (all_unique xs ≡ true) ↔ IsUnique xs
unfolding all_unique
all_unique-IsUnique [] = (λ h. tt, λ h. refl)
all_unique-IsUnique (x ∷ xs) = (
  λ h. ((contains-All x xs).0 (ground arith), (all_unique-IsUnique xs).0 (ground arith)),
  λ (n, h). rw ((contains-All x xs).1 n, (all_unique-IsUnique xs).1 h) refl,
)

abbrev endpoints : List (Bytes × Endpoint)
endpoints = (a, record { namespace = a }) ∷ (b, record { namespace = b }) ∷ []

config_run : validate_config all_unique endpoints ≡ ok tt
unfolding validate_config any starts_with_slash de_trim_end_slash all_unique contains bytes_eq
config_run = refl

-- Two prefixes that differ in a slash at the end.
slash_run :
    validate_config all_unique
      ((a, record { namespace = a }) ∷ (97 ∷ 47 ∷ [], record { namespace = b }) ∷ [])
    ≡ ok tt
unfolding validate_config any starts_with_slash de_trim_end_slash all_unique contains bytes_eq
slash_run = refl

validate_config-IsUnique_example :
    (validate_config all_unique endpoints ≡ ok tt)
    ↔ (All IsPrefix (a ∷ b ∷ []) × IsUnique (a ∷ b ∷ []) × IsUnique (a ∷ b ∷ []))
validate_config-IsUnique_example = validate_config-IsUnique all_unique endpoints all_unique-IsUnique
