-- ===== src/Gateway/Config.antt =====
-- The endpoints that the gateway accepts; rsync-gateway/src/opts.rs.
use rsync_sjtug.Prelude.{
  ◌≡◌, ◌≢◌, ◌↔◌, refl, Bool, true, false, not, ◌||◌, List, [], ◌∷◌, map, Bytes, Result, ok, ensure,
  ◌>>◌, All, All-weaken, ◌==◌, arith,
}
use rsync_sjtug.Gateway.Keys.{slash, is_nil, de_trim_end_slash}

-- What is checked of `Endpoint`; the bucket, its prefix and `list_hidden` are not.
pub record Endpoint : Type 0 where
  pub namespace : Bytes

pub data ConfigError : Type 0 where
  empty_prefix slash_prefix same_prefix same_namespace : ConfigError

unfoldable pub starts_with_slash : Bytes → Bool
starts_with_slash [] = false
starts_with_slash (c ∷ cs) = c == slash

unfoldable pub any : (Bytes → Bool) → List Bytes → Bool
any p [] = false
any p (x ∷ xs) = p x || any p xs

-- The endpoints are the map's pairs in order; `all_unique` is that of `itertools`.
unfoldable pub validate_config :
    (List Bytes → Bool) → List (Bytes × Endpoint) → Result ConfigError (Unit {0})
validate_config all_unique endpoints = do
  ensure (not (any (λ prefix. is_nil (de_trim_end_slash prefix)) (map (λ e. e.0) endpoints)))
      empty_prefix
  ensure (not (any starts_with_slash (map (λ e. e.0) endpoints))) slash_prefix
  ensure (all_unique (map (λ e. e.0) endpoints)) same_prefix
  ensure (all_unique (map (λ e. e.1.namespace) endpoints)) same_namespace
  ok tt

-- No two are equal.
abbrev pub IsUnique : List Bytes → Type 0
IsUnique [] = Unit
IsUnique (x ∷ xs) = All (λ y. x ≢ y) xs × IsUnique xs

-- A prefix begins with something else than a slash.
abbrev pub IsPrefix : Bytes → Type 0
IsPrefix [] = ⊥
IsPrefix (c ∷ cs) = c ≢ slash

not-any : (p : Bytes → Bool) (xs : List Bytes) → not (any p xs) ≡ true → All (λ x. p x ≡ false) xs
unfolding any
not-any p [] h = tt
not-any p (x ∷ xs) h = (ground arith, not-any p xs (ground arith))

any-false : (p : Bytes → Bool) (xs : List Bytes) → All (λ x. p x ≡ false) xs → not (any p xs) ≡ true
unfolding any
any-false p [] h = refl
any-false p (x ∷ xs) h = rw (h.0, any-false p xs h.1) refl

IsPrefix-tests :
    (x : Bytes)
    → IsPrefix x
    → (is_nil (de_trim_end_slash x) ≡ false) × (starts_with_slash x ≡ false)
unfolding de_trim_end_slash starts_with_slash
IsPrefix-tests [] h = absurd h
IsPrefix-tests (c ∷ cs) h = (ground arith, ground arith)

tests-IsPrefix :
    (x : Bytes) → is_nil (de_trim_end_slash x) ≡ false → starts_with_slash x ≡ false → IsPrefix x
unfolding de_trim_end_slash starts_with_slash
tests-IsPrefix [] h k = ground arith
tests-IsPrefix (c ∷ cs) h k = ground arith

both :
    (xs : List Bytes)
    → All (λ x. is_nil (de_trim_end_slash x) ≡ false) xs
    → All (λ x. starts_with_slash x ≡ false) xs
    → All IsPrefix xs
both [] h k = tt
both (x ∷ xs) h k = (tests-IsPrefix x h.0 k.0, both xs h.1 k.1)

ensure-ok :
    (b : Bool) (e : ConfigError) (m : Result ConfigError (Unit {0}))
    → (ensure b e >> m) ≡ ok tt
    → (b ≡ true) × (m ≡ ok tt)
ensure-ok true e m h = (refl, h)
ensure-ok false e m h = cc

-- If `all_unique` tells whether no two of its arguments are equal, then a configuration is accepted
-- exactly if every prefix has a first byte that is not a slash, no two prefixes are equal, and no
-- two namespaces are.
pub validate_config-IsUnique :
    (all_unique : List Bytes → Bool) (endpoints : List (Bytes × Endpoint))
    → ((xs : List Bytes) → (all_unique xs ≡ true) ↔ IsUnique xs)
    → (validate_config all_unique endpoints ≡ ok tt) ↔ (
        All IsPrefix (map (λ e. e.0) endpoints)
        × IsUnique (map (λ e. e.0) endpoints)
        × IsUnique (map (λ e. e.1.namespace) endpoints))
unfolding validate_config
validate_config-IsUnique all_unique endpoints u = (accepted, valid)
  where
    prefixes : List Bytes
    prefixes = map (λ e. e.0) endpoints

    namespaces : List Bytes
    namespaces = map (λ e. e.1.namespace) endpoints

    accepted :
        validate_config all_unique endpoints ≡ ok tt
        → All IsPrefix prefixes × IsUnique prefixes × IsUnique namespaces
    accepted h =
        let (a, h1) = ensure-ok _ empty_prefix _ h in
        let (b, h2) = ensure-ok _ slash_prefix _ h1 in
        let (c, h3) = ensure-ok _ same_prefix _ h2 in
        let (d, h4) = ensure-ok _ same_namespace _ h3 in
        (
          both prefixes (not-any _ prefixes a) (not-any _ prefixes b),
          (u prefixes).0 c,
          (u namespaces).0 d,
        )

    valid :
        All IsPrefix prefixes × IsUnique prefixes × IsUnique namespaces
        → validate_config all_unique endpoints ≡ ok tt
    valid (p, q, r) =
        rw
          (
            any-false (λ x. is_nil (de_trim_end_slash x)) prefixes
                (All-weaken _ _ prefixes (λ x i. (IsPrefix-tests x i).0) p),
            any-false starts_with_slash prefixes
                (All-weaken _ _ prefixes (λ x i. (IsPrefix-tests x i).1) p),
            (u prefixes).1 q,
            (u namespaces).1 r,
          )
          refl
