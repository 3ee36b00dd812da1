-- ===== src/Fetcher/Stats.antt =====
-- rsync-fetcher/src/utils.rs: which entries are transferred at all, and the figures of a plan.
pub mod Figures
use rsync_sjtug.Prelude.{
  ℕ, ◌+◌, ◌%◌, ◌≡◌, refl, Bool, true, false, not, Bool-cases, Option-cases, inl, inr, Option, none,
  some, List, [], ◌∷◌, Bytes, Result, ok, err, fault, get_elem?, if◌then◌else◌, u64_mod, arith,
}
use mathlib.Core.Path.{subst}
use rsync_sjtug.Fetcher.Stream.{Error}
use rsync_sjtug.Fetcher.FileList.{FileEntry}
use rsync_sjtug.Fetcher.Plan.{TransferItem}

pub record PlannedTransfer : Type 0 where
  pub total_bytes : ℕ
  pub total_count : ℕ
  pub full_bytes : ℕ
  pub full_count : ℕ
  pub partial_bytes : ℕ
  pub partial_count : ℕ

abbrev pub default : PlannedTransfer
default = record {
  total_bytes = 0;
  total_count = 0;
  full_bytes = 0;
  full_count = 0;
  partial_bytes = 0;
  partial_count = 0;
}

-- `+` on u64, with the overflow of a release build.
abbrev pub add64 : ℕ → ℕ → ℕ
add64 a b = (a + b) % u64_mod

unfoldable pub add : PlannedTransfer → PlannedTransfer → PlannedTransfer
add a b = record {
  total_bytes = add64 a.total_bytes b.total_bytes;
  total_count = add64 a.total_count b.total_count;
  full_bytes = add64 a.full_bytes b.full_bytes;
  full_count = add64 a.full_count b.full_count;
  partial_bytes = add64 a.partial_bytes b.partial_bytes;
  partial_count = add64 a.partial_count b.partial_count;
}

unfoldable pub one_file : FileEntry → Option Bytes → PlannedTransfer
one_file entry (some blake2b) = record {
  total_bytes = entry.len;
  total_count = 1;
  full_bytes = 0;
  full_count = 0;
  partial_bytes = entry.len;
  partial_count = 1;
}
one_file entry none = record {
  total_bytes = entry.len;
  total_count = 1;
  full_bytes = entry.len;
  full_count = 1;
  partial_bytes = 0;
  partial_count = 0;
}

-- A step of `reduce`.
abbrev pub more : Option PlannedTransfer → PlannedTransfer → Option PlannedTransfer
more none q = some q
more (some p) q = some (add p q)

abbrev pub unwrap_or_default : Option PlannedTransfer → PlannedTransfer
unwrap_or_default none = default
unwrap_or_default (some p) = p

-- The tests of a mode are another crate's.
module _ (is_dir is_file : ℕ → Bool) where
  unfoldable pub ignore_mode : ℕ → Bool
  ignore_mode mode = if is_dir mode then true else if not (is_file mode) then true else false

  -- `filter_map` and `reduce`: what was added up, if anything. An index that is out of the list is a
  -- panic.
  unfoldable pub plan_loop :
      List FileEntry
      → Option PlannedTransfer
      → List TransferItem
      → Result Error (Option PlannedTransfer)
  plan_loop files acc [] = ok acc
  plan_loop files acc (item ∷ items) = elim (get_elem? files item.idx) [
    | none ↦ fault
    | some entry ↦
        plan_loop files
          (if ignore_mode entry.mode then acc else more acc (one_file entry item.blake2b)) items
  ]

  unfoldable pub plan_stat : List FileEntry → List TransferItem → Result Error PlannedTransfer
  plan_stat files items = elim (plan_loop files none items) [
    | ok acc ↦ ok (unwrap_or_default acc)
    | err e ↦ err e
    | fault ↦ fault
  ]
