-- ===== src/Fetcher/Generator.antt =====
-- rsync-fetcher/src/rsync/generator.rs: the requests to the server. The permits that the receiver
-- gives back and the basis files that the downloader sends are events.
pub mod Permits
pub mod Requests
use rsync_sjtug.Prelude.{
  ℕ, zero, suc, ◌+◌, ◌-◌, Bool, true, false, not, ◌&&◌, Option, none, some, List, [], ◌∷◌, ◌++◌,
  Bytes, Result, ok, err, fault, ◌>>=◌, ◌>>◌, get_elem?, length, to_le_bytes, u32_mod, ◌==◌,
  if◌then◌else◌,
}
use rsync_sjtug.Fetcher.Stream.{Error}
use rsync_sjtug.Fetcher.Checksum.{SumHead, Simd, sum_sizes_sqroot, write_to, checksum_payload}
use rsync_sjtug.Fetcher.FileList.{FileEntry}
use rsync_sjtug.Fetcher.Plan.{TransferItem}
use rsync_sjtug.Fetcher.Stats.{ignore_mode}

-- What was written to the server, the permits, the basis files that are there and whether more may
-- come, the items still to be looked at, whether a permit was taken, and the counter of the display.
pub record Generator : Type 0 where
  pub tx : Bytes
  pub permits : ℕ
  pub basis_rx : List (ℕ × Bytes)
  pub basis_open : Bool
  pub items : List TransferItem
  pub holds_permit : Bool
  pub finished : Bool
  pub pending : ℕ

-- `Generator::new`, with the plan.
abbrev pub start : ℕ → List TransferItem → Generator
start permits items = record {
  tx = [];
  permits = permits;
  basis_rx = [];
  basis_open = true;
  items = items;
  holds_permit = false;
  finished = false;
  pending = 0;
}

pub data Event : Type 0 where
  goes_on refilled closed : Event
  basis : (idx : ℕ) (file : Bytes) → Event

-- `SumHead::default()`
abbrev pub default_head : SumHead
default_head = record { checksum_count = 0; block_len = 0; checksum_len = 0; remainder_len = 0 }

-- `-1` twice, for the two phases.
abbrev pub phases : Bytes
phases = to_le_bytes 4 (u32_mod - 1) ++ to_le_bytes 4 (u32_mod - 1)

abbrev pub is_none {ℓ} : {A : Type ℓ} → Option A → Bool
is_none none = true
is_none (some a) = false

-- Integer roots, MD4 and the tests of a mode are other crates'.
module _ (sqrt : ℕ → ℕ) (md4 : Bytes → Bytes) (simd : Option Simd) (is_dir is_file : ℕ → Bool)
    (seed : ℕ) (file_list : List FileEntry) where
  -- The filter's test.
  unfoldable pub is_wanted : TransferItem → FileEntry → Bool
  is_wanted item entry = is_none item.blake2b && not (ignore_mode is_dir is_file entry.mode)

  -- The next item that the filter passes, with its entry; `file_list[item.idx]` may panic.
  unfoldable pub next_item :
      List TransferItem → Result Error (Option (FileEntry × List TransferItem))
  next_item [] = ok none
  next_item (item ∷ items) = elim (get_elem? file_list item.idx) [
    | none ↦ fault
    | some entry ↦ if is_wanted item entry then ok (some (entry, items)) else next_item items
  ]

  unfoldable pub generate_and_send_sums : Bytes → Result Error Bytes
  generate_and_send_sums file = do
    sum_head ← sum_sizes_sqroot sqrt (length file)
    sum_bytes ← checksum_payload md4 simd sum_head seed file (length file)
    ok (write_to sum_head ++ sum_bytes)

  -- The request for a file with a basis.
  unfoldable pub request_partial : ℕ → Bytes → Result Error Bytes
  request_partial idx file = elim (get_elem? file_list idx) [
    | none ↦ fault
    | some entry ↦ generate_and_send_sums file >>= λ sums. ok (to_le_bytes 4 idx ++ sums)
  ]

  unfoldable pub request_full : FileEntry → Bytes
  request_full entry = to_le_bytes 4 entry.idx ++ write_to default_head

  -- The request is written, and the permit is gone.
  abbrev pub requested : Bytes → Generator → Generator
  requested bytes g = record g { tx = g.tx ++ bytes; holds_permit = false; pending = g.pending + 1 }

  -- The branches of `select!` without a basis file; the loop ends if no more can come.
  unfoldable pub on_item : Option (FileEntry × List TransferItem) → Generator → Generator
  on_item (some (entry, items)) g = requested (request_full entry) (record g { items = items })
  on_item none g =
      let exhausted : Generator = record g { items = [] } in
      if g.basis_open then exhausted else record exhausted { tx = g.tx ++ phases; finished = true }

  -- `select!`, with a permit.
  unfoldable pub select : List (ℕ × Bytes) → Generator → Result Error Generator
  select ((idx, file) ∷ rest) g =
      request_partial idx file >>= λ bytes. ok (requested bytes (record g { basis_rx = rest }))
  select [] g = next_item g.items >>= λ next. ok (on_item next g)

  unfoldable pub go_on : Generator → Result Error Generator
  go_on g =
      if g.finished
      then ok g
      else if g.holds_permit
      then select g.basis_rx g
      else if g.permits == 0
      then ok g
      else ok (record g { permits = g.permits - 1; holds_permit = true })

  unfoldable pub on_event : Event → Generator → Result Error Generator
  on_event goes_on g = go_on g
  on_event refilled g = ok (record g { permits = g.permits + 1 })
  on_event closed g = ok (record g { basis_open = false })
  on_event (basis idx file) g =
      ok (if g.basis_open then record g { basis_rx = g.basis_rx ++ ((idx, file) ∷ []) } else g)

  -- `generate_task`, over what happens.
  unfoldable pub generate_task : List Event → Generator → Result Error Generator
  generate_task [] g = ok g
  generate_task (e ∷ events) g = on_event e g >>= λ g'. generate_task events g'
