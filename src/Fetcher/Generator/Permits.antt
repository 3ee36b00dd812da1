-- ===== src/Fetcher/Generator/Permits.antt =====
-- rsync-fetcher/src/rsync/generator.rs: a request takes a permit.
use rsync_sjtug.Prelude.{
  ℕ, ◌+◌, ◌-◌, ◌≡◌, refl, Bool, true, false, Bool-cases, inl, inr, Option, none, some, List, [],
  ◌∷◌, Bytes, ok, Leaves, Leaves-bind, Leaves-any, Leaves-ok, Leaves-weaken, ◌==◌, arith,
}
use rsync_sjtug.Fetcher.Checksum.{Simd}
use rsync_sjtug.Fetcher.FileList.{FileEntry}
use rsync_sjtug.Fetcher.Plan.{TransferItem}
use rsync_sjtug.Fetcher.Generator.{
  Generator, Event, goes_on, refilled, closed, basis, next_item, request_partial, on_item, select,
  go_on, on_event, generate_task,
}

abbrev bit : Bool → ℕ
bit true = 1
bit false = 0

-- The permits that are left, the one that was taken, and those that requests have used.
abbrev pub permits_of : Generator → ℕ
permits_of g = g.permits + bit g.holds_permit + g.pending

abbrev refill : Event → ℕ
refill goes_on = 0
refill refilled = 1
refill closed = 0
refill (basis idx file) = 0

abbrev pub refills : List Event → ℕ
refills [] = 0
refills (e ∷ events) = refill e + refills events

module _ (sqrt : ℕ → ℕ) (md4 : Bytes → Bytes) (simd : Option Simd) (is_dir is_file : ℕ → Bool)
    (seed : ℕ) (file_list : List FileEntry) where
  abbrev Keeps : ℕ → Generator → Type 0
  Keeps n g = permits_of g ≡ n

  on_item-Keeps :
      (next : Option (FileEntry × List TransferItem)) (g : Generator)
      → g.holds_permit ≡ true
      → Keeps (permits_of g) (on_item sqrt md4 simd is_dir is_file seed file_list next g)
  unfolding on_item
  on_item-Keeps (some (entry, items)) g t = ground arith
  on_item-Keeps none g t = ground arith

  select-Keeps :
      (rx : List (ℕ × Bytes)) (g : Generator)
      → g.holds_permit ≡ true
      → Leaves (Keeps (permits_of g)) (select sqrt md4 simd is_dir is_file seed file_list rx g)
  unfolding select
  select-Keeps [] g t =
      Leaves-bind (λ _. Unit {0}) (Keeps (permits_of g))
        (next_item sqrt md4 simd is_dir is_file seed file_list g.items) _ (Leaves-any _)
        λ next u. on_item-Keeps next g t
  select-Keeps ((idx, file) ∷ rest) g t =
      Leaves-bind (λ _. Unit {0}) (Keeps (permits_of g))
        (request_partial sqrt md4 simd is_dir is_file seed file_list idx file) _ (Leaves-any _)
        λ bytes u. ground arith

  some_left : (n k : ℕ) → (k == 0) ≡ false → k - 1 + 1 + n ≡ k + 0 + n
  some_left n k z = ground arith

  go_on-Keeps :
      (g : Generator)
      → Leaves (Keeps (permits_of g)) (go_on sqrt md4 simd is_dir is_file seed file_list g)
  unfolding go_on
  go_on-Keeps g = elim (Bool-cases g.finished) [
    | inl e ↦ rw e refl
    | inr e ↦ elim (Bool-cases g.holds_permit) [
      | inl t ↦
          rw (e, t)
            (select-Keeps g.basis_rx (record g { holds_permit = true; finished = false }) refl)
      | inr t ↦ elim (Bool-cases (g.permits == 0)) [
        | inl z ↦ rw (e, t, z) refl
        | inr z ↦ rw (e, t, z) (some_left g.pending g.permits z)
      ]
    ]
  ]

  on_event-Keeps :
      (e : Event) (g : Generator)
      → Leaves
          (Keeps (permits_of g + refill e))
          (on_event sqrt md4 simd is_dir is_file seed file_list e g)
  unfolding on_event
  on_event-Keeps goes_on g =
      Leaves-weaken (Keeps (permits_of g)) (Keeps (permits_of g + 0)) _ (go_on-Keeps g)
        λ g' k. omega (arith, k)
  on_event-Keeps refilled g = omega arith
  on_event-Keeps closed g = omega arith
  on_event-Keeps (basis idx file) g = elim (Bool-cases g.basis_open) [
    | inl e ↦ rw e (omega arith)
    | inr e ↦ rw e (omega arith)
  ]

  generate_task-Keeps :
      (events : List Event) (g : Generator)
      → Leaves
          (Keeps (permits_of g + refills events))
          (generate_task sqrt md4 simd is_dir is_file seed file_list events g)
  unfolding generate_task
  generate_task-Keeps [] g = omega arith
  generate_task-Keeps (e ∷ events) g =
      Leaves-bind (Keeps (permits_of g + refill e)) (Keeps (permits_of g + refills (e ∷ events)))
        (on_event sqrt md4 simd is_dir is_file seed file_list e g) _ (on_event-Keeps e g)
        λ g' k.
          Leaves-weaken (Keeps (permits_of g' + refills events))
            (Keeps (permits_of g + refills (e ∷ events))) _ (generate_task-Keeps events g')
            λ g'' k'. omega (arith, k, k')

  -- Whatever happens in whatever order: the requests that were sent and the permits that are left,
  -- the one that is held among them, are together the permits that there were at first and those
  -- that were given back. So there are never more requests without a file received than permits.
  pub generate_task-permits :
      (events : List Event) (g : Generator) {g' : Generator}
      → generate_task sqrt md4 simd is_dir is_file seed file_list events g ≡ ok g'
      → permits_of g' ≡ permits_of g + refills events
  generate_task-permits events g e =
      Leaves-ok (Keeps (permits_of g + refills events)) _ (generate_task-Keeps events g) e
