-- ===== src/Fetcher/Stats/Figures.antt =====
-- rsync-fetcher/src/utils.rs: what the figures of a plan add up.
use rsync_sjtug.Prelude.{
  ℕ, ◌+◌, ◌%◌, ◌≡◌, refl, Bool, true, false, not, ◌&&◌, Option, none, some, List, [], ◌∷◌, Bytes,
  Result, ok, err, fault, get_elem?, if◌then◌else◌, u64_mod, arith,
}
use mathlib.Core.Path.{subst}
use rsync_sjtug.Fetcher.Stream.{Error}
use rsync_sjtug.Fetcher.FileList.{FileEntry}
use rsync_sjtug.Fetcher.Plan.{TransferItem}
use rsync_sjtug.Fetcher.Stats.{
  PlannedTransfer, default, add, one_file, more, unwrap_or_default, ignore_mode, plan_loop,
  plan_stat,
}

-- What an entry counts for: without a hash it is transferred as a whole, with one in part.
abbrev pub all_bytes : ℕ → Option Bytes → ℕ
all_bytes len blake2b = len

abbrev pub all_count : ℕ → Option Bytes → ℕ
all_count len blake2b = 1

abbrev pub whole_bytes : ℕ → Option Bytes → ℕ
whole_bytes len none = len
whole_bytes len (some blake2b) = 0

abbrev pub whole_count : ℕ → Option Bytes → ℕ
whole_count len none = 1
whole_count len (some blake2b) = 0

abbrev pub part_bytes : ℕ → Option Bytes → ℕ
part_bytes len none = 0
part_bytes len (some blake2b) = len

abbrev pub part_count : ℕ → Option Bytes → ℕ
part_count len none = 0
part_count len (some blake2b) = 1

abbrev Same : PlannedTransfer → PlannedTransfer → Type 0
Same p q =
    (p.total_bytes % u64_mod ≡ q.total_bytes % u64_mod)
    × (p.total_count % u64_mod ≡ q.total_count % u64_mod)
    × (p.full_bytes % u64_mod ≡ q.full_bytes % u64_mod)
    × (p.full_count % u64_mod ≡ q.full_count % u64_mod)
    × (p.partial_bytes % u64_mod ≡ q.partial_bytes % u64_mod)
    × (p.partial_count % u64_mod ≡ q.partial_count % u64_mod)

-- The sum without overflow.
abbrev plus : PlannedTransfer → PlannedTransfer → PlannedTransfer
plus p q = record {
  total_bytes = p.total_bytes + q.total_bytes;
  total_count = p.total_count + q.total_count;
  full_bytes = p.full_bytes + q.full_bytes;
  full_count = p.full_count + q.full_count;
  partial_bytes = p.partial_bytes + q.partial_bytes;
  partial_count = p.partial_count + q.partial_count;
}

-- One figure, from those that it adds to.
carry :
    (n a q f : ℕ)
    → n % u64_mod ≡ ((a + q) % u64_mod + f) % u64_mod
    → n % u64_mod ≡ (a + (q + f)) % u64_mod
carry n a q f e = omega (arith, e)

carry_first : (n q f : ℕ) → n % u64_mod ≡ (q + f) % u64_mod → n % u64_mod ≡ (0 + (q + f)) % u64_mod
carry_first n q f e = omega (arith, e)

Same-more :
    (acc : Option PlannedTransfer) (p q f : PlannedTransfer)
    → Same p (plus (unwrap_or_default (more acc q)) f)
    → Same p (plus (unwrap_or_default acc) (plus q f))
unfolding add
Same-more none p q f (a, b, c, d, e, g) = (
  carry_first _ _ _ a,
  carry_first _ _ _ b,
  carry_first _ _ _ c,
  carry_first _ _ _ d,
  carry_first _ _ _ e,
  carry_first _ _ _ g,
)
Same-more (some acc) p q f (a, b, c, d, e, g) = (
  carry _ _ _ _ a,
  carry _ _ _ _ b,
  carry _ _ _ _ c,
  carry _ _ _ _ d,
  carry _ _ _ _ e,
  carry _ _ _ _ g,
)

carry_zero : (n a f : ℕ) → n % u64_mod ≡ (a + f) % u64_mod → n % u64_mod ≡ (a + (0 + f)) % u64_mod
carry_zero n a f e = omega (arith, e)

abbrev okay : PlannedTransfer → Result Error PlannedTransfer
okay p = ok p

okay-injective : {p q : PlannedTransfer} → okay p ≡ okay q → p ≡ q
okay-injective e = cc

module _ (is_dir is_file : ℕ → Bool) (files : List FileEntry) where
  -- What the items of regular files count for together, where the list has them.
  abbrev pub weight : (ℕ → Option Bytes → ℕ) → Option FileEntry → Option Bytes → ℕ
  weight w none blake2b = 0
  weight w (some entry) blake2b =
      if not (is_dir entry.mode) && is_file entry.mode then w entry.len blake2b else 0

  abbrev pub total : (ℕ → Option Bytes → ℕ) → List TransferItem → ℕ
  total w [] = 0
  total w (item ∷ items) = weight w (get_elem? files item.idx) item.blake2b + total w items

  abbrev sums : List TransferItem → PlannedTransfer
  sums items = record {
    total_bytes = total all_bytes items;
    total_count = total all_count items;
    full_bytes = total whole_bytes items;
    full_count = total whole_count items;
    partial_bytes = total part_bytes items;
    partial_count = total part_count items;
  }

  abbrev Counted :
      Option PlannedTransfer → PlannedTransfer → Result Error (Option PlannedTransfer) → Type 0
  Counted acc f (ok acc') = Same (unwrap_or_default acc') (plus (unwrap_or_default acc) f)
  Counted acc f (err e) = ⊥
  Counted acc f fault = Unit

  Counted-more :
      (acc : Option PlannedTransfer) (q f : PlannedTransfer)
      (r : Result Error (Option PlannedTransfer))
      → Counted (more acc q) f r
      → Counted acc (plus q f) r
  Counted-more acc q f (ok acc') h = Same-more acc (unwrap_or_default acc') q f h
  Counted-more acc q f (err e) h = h
  Counted-more acc q f fault h = tt

  Counted-zero :
      (acc : Option PlannedTransfer) (f : PlannedTransfer)
      (r : Result Error (Option PlannedTransfer))
      → Counted acc f r
      → Counted acc (plus default f) r
  Counted-zero acc f (ok acc') (a, b, c, d, e, g) = (
    carry_zero _ _ _ a,
    carry_zero _ _ _ b,
    carry_zero _ _ _ c,
    carry_zero _ _ _ d,
    carry_zero _ _ _ e,
    carry_zero _ _ _ g,
  )
  Counted-zero acc f (err e) h = h
  Counted-zero acc f fault h = tt

  -- What one item counts for.
  abbrev counts : Bool → FileEntry → Option Bytes → PlannedTransfer
  counts regular entry blake2b = record {
    total_bytes = if regular then entry.len else 0;
    total_count = if regular then 1 else 0;
    full_bytes = if regular then whole_bytes entry.len blake2b else 0;
    full_count = if regular then whole_count entry.len blake2b else 0;
    partial_bytes = if regular then part_bytes entry.len blake2b else 0;
    partial_count = if regular then part_count entry.len blake2b else 0;
  }

  one_file-counts :
      (entry : FileEntry) (blake2b : Option Bytes)
      → one_file entry blake2b ≡ counts true entry blake2b
  unfolding one_file
  one_file-counts entry none = refl
  one_file-counts entry (some blake2b) = refl

  plan_loop-Counted :
      (acc : Option PlannedTransfer) (items : List TransferItem)
      → Counted acc (sums items) (plan_loop is_dir is_file files acc items)
  unfolding plan_loop ignore_mode
  plan_loop-Counted acc [] = (same _, same _, same _, same _, same _, same _)
    where
      same : (n : ℕ) → n % u64_mod ≡ (n + 0) % u64_mod
      same n = omega arith
  plan_loop-Counted acc (item ∷ items) =
      go (get_elem? files item.idx) (λ acc'. plan_loop-Counted acc' items)
    where
      Rest : Type 0
      Rest =
          (acc' : Option PlannedTransfer)
          → Counted acc' (sums items) (plan_loop is_dir is_file files acc' items)

      by_mode :
          (dir file : Bool) (entry : FileEntry)
          → Rest
          → Counted acc (plus (counts (not dir && file) entry item.blake2b) (sums items)) (
              plan_loop is_dir is_file files
                (if (if dir then true else if not file then true else false)
                  then acc
                  else more acc (one_file entry item.blake2b))
                items)
      by_mode true file entry rest = Counted-zero acc (sums items) _ (rest acc)
      by_mode false false entry rest = Counted-zero acc (sums items) _ (rest acc)
      by_mode false true entry rest =
          subst
            (λ q.
              Counted acc (plus q (sums items))
                (plan_loop is_dir is_file files (more acc (one_file entry item.blake2b)) items))
            (one_file-counts entry item.blake2b)
            (Counted-more acc (one_file entry item.blake2b) (sums items) _
              (rest (more acc (one_file entry item.blake2b))))

      go :
          (found : Option FileEntry)
          → Rest
          → Counted acc
              (plus
                (record {
                  total_bytes = weight all_bytes found item.blake2b;
                  total_count = weight all_count found item.blake2b;
                  full_bytes = weight whole_bytes found item.blake2b;
                  full_count = weight whole_count found item.blake2b;
                  partial_bytes = weight part_bytes found item.blake2b;
                  partial_count = weight part_count found item.blake2b;
                })
                (sums items))
              (elim found [
                | none ↦ fault
                | some entry ↦
                    plan_loop is_dir is_file files
                      (if ignore_mode is_dir is_file entry.mode
                        then acc
                        else more acc (one_file entry item.blake2b))
                      items
              ])
      go none rest = tt
      go (some entry) rest = by_mode (is_dir entry.mode) (is_file entry.mode) entry rest

  -- Each figure of a plan is, modulo 2 ^ 64, the sum over the items of regular files: of the lengths or
  -- of ones, for all of them, for those without a hash (whole transfers), and for those with one.
  pub plan_stat-total :
      (items : List TransferItem) (p : PlannedTransfer)
      → plan_stat is_dir is_file files items ≡ ok p
      → (p.total_bytes % u64_mod ≡ total all_bytes items % u64_mod)
        × (p.total_count % u64_mod ≡ total all_count items % u64_mod)
        × (p.full_bytes % u64_mod ≡ total whole_bytes items % u64_mod)
        × (p.full_count % u64_mod ≡ total whole_count items % u64_mod)
        × (p.partial_bytes % u64_mod ≡ total part_bytes items % u64_mod)
        × (p.partial_count % u64_mod ≡ total part_count items % u64_mod)
  unfolding plan_stat
  plan_stat-total items p e =
      go (plan_loop is_dir is_file files none items) (plan_loop-Counted none items) e
    where
      no_more : (n f : ℕ) → n % u64_mod ≡ (0 + f) % u64_mod → n % u64_mod ≡ f % u64_mod
      no_more n f e = omega (arith, e)

      go :
          (r : Result Error (Option PlannedTransfer))
          → Counted none (sums items) r
          → elim r [ ok acc ↦ ok (unwrap_or_default acc) | err e ↦ err e | fault ↦ fault ] ≡ okay p
          → Same p (sums items)
      go (ok acc) (a, b, c, d, e, g) h =
          subst (λ q. Same q (sums items)) (okay-injective h)
            (
              no_more _ _ a,
              no_more _ _ b,
              no_more _ _ c,
              no_more _ _ d,
              no_more _ _ e,
              no_more _ _ g,
            )
      go (err e) a h = elim a [ ]
      go fault a h = ground arith
