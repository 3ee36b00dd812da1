-- ===== src/Gateway/Navbar.antt =====
-- The links above a listing; rsync-gateway/src/render.rs.
use rsync_sjtug.Prelude.{
  ℕ, zero, suc, ◌+◌, ◌-◌, ◌≡◌, refl, sym, ap, ◌∙◌, true, List, [], ◌∷◌, ◌++◌, map, length,
  length-append, take, Bytes, bytes_eq, Result, ok, fault, if◌then◌else◌, ltb, arith,
}
use rsync_sjtug.Gateway.Realpath.{split_slash}

pub record NavbarTemplate : Type 0 where
  pub components : List (Bytes × Bytes)
  pub last_component : Bytes

-- `iter::repeat("../").take(n).join("")`
unfoldable pub parents : ℕ → Bytes
parents zero = []
parents (suc n) = 46 ∷ 46 ∷ 47 ∷ parents n

unfoldable pub href : ℕ → ℕ → Bytes
href count i = if ltb 0 (count - i - 2) then parents (count - i - 2) else 46 ∷ []

-- The closure over `enumerate`, from an index on.
unfoldable pub hrefs : ℕ → ℕ → List Bytes → List (Bytes × Bytes)
hrefs count i [] = []
hrefs count i (component ∷ components) = (href count i, component) ∷ hrefs count (i + 1) components

abbrev pub last : Bytes → List Bytes → Bytes
last c [] = c
last c (d ∷ cs) = last d cs

-- Without a component the index of the last one underflows.
unfoldable pub comps_to_navbar : List Bytes → Result (Unit {0}) NavbarTemplate
comps_to_navbar [] = fault
comps_to_navbar (c ∷ cs) = ok (record {
  components = hrefs (length (c ∷ cs)) 0 (take (length (c ∷ cs) - 1) (c ∷ cs));
  last_component = last c cs;
})

-- A browser resolves a link against the directory of the page, its last segment first.
abbrev pub parent_dir : List Bytes → List Bytes
parent_dir [] = []
parent_dir (d ∷ ds) = ds

unfoldable pub follow_segments : List Bytes → List Bytes → List Bytes
follow_segments dir [] = dir
follow_segments dir (s ∷ ss) =
    follow_segments
      (if bytes_eq s (46 ∷ 46 ∷ [])
        then parent_dir dir
        else if bytes_eq s (46 ∷ [])
        then dir
        else if bytes_eq s []
        then dir
        else s ∷ dir)
      ss

unfoldable pub follow : List Bytes → Bytes → List Bytes
follow dir link = let (s, ss) = split_slash link in follow_segments dir (s ∷ ss)

-- The directory that is reached from another by the segments, its last segment first.
unfoldable pub enter : List Bytes → List Bytes → List Bytes
enter dir [] = dir
enter dir (s ∷ ss) = enter (s ∷ dir) ss

-- The directories on the way, each with its name.
unfoldable pub on_the_way : List Bytes → List Bytes → List (List Bytes × Bytes)
on_the_way dir [] = []
on_the_way dir (s ∷ ss) = (s ∷ dir, s) ∷ on_the_way (s ∷ dir) ss

follow-parents :
    (n : ℕ) (dir : List Bytes) → follow dir (parents (suc n)) ≡ follow (parent_dir dir) (parents n)
unfolding follow follow_segments parents split_slash bytes_eq
follow-parents n dir = refl

follow-parents_after :
    (n : ℕ) (dir : List Bytes) → follow dir (parents (suc n)) ≡ parent_dir (follow dir (parents n))
follow-parents_after zero dir = unfold follow follow_segments parents split_slash bytes_eq in refl
follow-parents_after (suc n) dir =
    follow-parents (suc n) dir
    ∙ follow-parents_after n (parent_dir dir)
    ∙ ap parent_dir (sym (follow-parents n dir))

-- As many parents as segments that were entered.
follow-enter :
    (ss : List Bytes) (dir : List Bytes) → follow (enter dir ss) (parents (length ss)) ≡ dir
unfolding enter
follow-enter [] dir = unfold follow follow_segments parents split_slash bytes_eq in refl
follow-enter (s ∷ ss) dir =
    follow-parents_after (length ss) (enter (s ∷ dir) ss)
    ∙ ap parent_dir (follow-enter ss (s ∷ dir))

take-length : (ss : List Bytes) (last : Bytes) → take (length ss) (ss ++ (last ∷ [])) ≡ ss
take-length [] last = refl
take-length (s ∷ ss) last = ap (◌∷◌ s) (take-length ss last)

-- The link of an entry with so many entries after it.
follow-href :
    (count i : ℕ) (ss dir : List Bytes)
    → count ≡ i + length ss + 2
    → follow (enter dir ss) (href count i) ≡ dir
unfolding href
follow-href count i [] dir e =
    rw (left count i 0 e) (unfold enter follow follow_segments split_slash bytes_eq in refl)
  where
    left : (count i n : ℕ) → count ≡ i + n + 2 → count - i - 2 ≡ n
    left count i n e = omega arith
follow-href count i (s ∷ ss) dir e =
    ap (λ n. follow (enter dir (s ∷ ss)) (if ltb 0 n then parents n else 46 ∷ []))
      (left count i (suc (length ss)) e)
    ∙ ap (λ b. follow (enter dir (s ∷ ss)) (if b then parents (suc (length ss)) else 46 ∷ []))
        (positive (length ss))
    ∙ follow-enter (s ∷ ss) dir
  where
    left : (count i n : ℕ) → count ≡ i + n + 2 → count - i - 2 ≡ n
    left count i n e = omega arith

    positive : (n : ℕ) → ltb 0 (suc n) ≡ true
    positive n = ground arith

hrefs-on_the_way :
    (count i : ℕ) (dir ss : List Bytes)
    → count ≡ i + length ss + 1
    → map (λ p. (follow (enter dir ss) p.0, p.1)) (hrefs count i ss) ≡ on_the_way dir ss
unfolding hrefs on_the_way enter
hrefs-on_the_way count i dir [] e = refl
hrefs-on_the_way count i dir (s ∷ ss) e =
    ap (λ d. (d, s) ∷ map (λ p. (follow (enter (s ∷ dir) ss) p.0, p.1)) (hrefs count (i + 1) ss))
      (follow-href count i ss (s ∷ dir) (omega arith))
    ∙ ap (◌∷◌ (s ∷ dir, s)) (hrefs-on_the_way count (i + 1) (s ∷ dir) ss (omega arith))

-- On a page of a directory, where the title ends in a slash, the links lead to the directories on
-- the way to it, each with its name, and the last component is the empty one after the slash.
pub comps_to_navbar-on_the_way :
    (root ss : List Bytes)
    → (template : NavbarTemplate) × (comps_to_navbar (ss ++ ([] ∷ [])) ≡ ok template)
      × (map (λ p. (follow (enter root ss) p.0, p.1)) template.components ≡ on_the_way root ss)
      × (template.last_component ≡ [])
unfolding comps_to_navbar
comps_to_navbar-on_the_way root [] = (_, refl, unfold hrefs on_the_way in refl, refl)
comps_to_navbar-on_the_way root (s ∷ ss) = (
  _,
  refl,
  ap (λ cs. map leads (hrefs (length all) 0 cs))
        (ap (λ n. take n all) (one_less ss) ∙ take-length (s ∷ ss) [])
      ∙ hrefs-on_the_way (length all) 0 root (s ∷ ss) (length_all ss),
  last_empty s ss,
)
  where
    all : List Bytes
    all = (s ∷ ss) ++ ([] ∷ [])

    leads : Bytes × Bytes → List Bytes × Bytes
    leads (h, c) = (follow (enter root (s ∷ ss)) h, c)

    length_all : (ss : List Bytes) → length ((s ∷ ss) ++ ([] ∷ [])) ≡ 0 + length (s ∷ ss) + 1
    length_all ss = omega (arith, length-append ss ([] ∷ []))

    one_less : (ss : List Bytes) → length ((s ∷ ss) ++ ([] ∷ [])) - 1 ≡ length (s ∷ ss)
    one_less ss = omega (arith, length-append ss ([] ∷ []))

    last_empty : (c : Bytes) (cs : List Bytes) → last c (cs ++ ([] ∷ [])) ≡ []
    last_empty c [] = refl
    last_empty c (d ∷ cs) = last_empty d cs
