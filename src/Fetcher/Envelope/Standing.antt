-- ===== src/Fetcher/Envelope/Standing.antt =====
-- rsync-fetcher/src/rsync/envelope.rs: where the reader stands after a round of its loops.
use rsync_sjtug.Prelude.{
  ℕ, ◌+◌, ◌*◌, ◌≤◌, ◌<◌, ◌≡◌, refl, sym, ap, ◌∙◌, ◌⊎◌, inl, inr, Bool-cases, Option, none, some,
  List, [], ◌∷◌, append-nil, append_assoc, All, Bytes, length, take, drop, take-append-drop, ◌==◌,
  arith,
}
use rsync_sjtug.Fetcher.Envelope.{
  Piece, later, unread, EnvelopeRead, Polled, again, pending, ready, failed, take_error,
}
use rsync_sjtug.Fetcher.Envelope.Frames.{
  Frame, IsFrame, write_frames, Ending, end_of_stream, broken, IsShown, weight, Phase, at_end,
  in_header, in_data, in_error, state_of, bytes_left, IsPhase, prepend, meaning, data_phase,
  data_phase-state_of, data_phase-bytes_left, data_phase-IsPhase, data_phase-meaning,
}

module _ (from_utf8_lossy : Bytes → Bytes) where
  -- The state stands in the frames, and after some bytes what it has still to deliver is the rest.
  pub record Moves (m : Bytes × Ending) (bytes : Bytes) (s : EnvelopeRead) : Type 0 where
    pub phase : Phase
    pub pieces : List Piece
    pub valid : IsPhase phase
    pub shown : All IsShown pieces
    pub stands : s ≡ state_of phase pieces
    pub unread_of : unread pieces ≡ bytes_left phase
    pub means : m ≡ prepend bytes (meaning from_utf8_lossy phase)

  abbrev pub errors : Option (ℕ × Bytes) → ℕ
  errors none = 0
  errors (some e) = 1

  -- It falls with each round that is not the last.
  abbrev pub rank : EnvelopeRead → ℕ
  rank s = 2 * length (unread s.read) + errors s.pending_error

  abbrev pub Outcome : Bytes × Ending → EnvelopeRead → Polled → Type 0
  Outcome m s (again s') = Moves m [] s' × (rank s' < rank s) × (weight s'.read ≤ weight s.read)
  Outcome m s (pending s') = Moves m [] s' × (weight s'.read < weight s.read)
  Outcome m s (ready bytes s') =
      ((bytes ≡ []) × (m ≡ ([], end_of_stream)))
      ⊎ ((0 < length bytes) × Moves m bytes s' × (weight s'.read < weight s.read))
  Outcome m s (failed e s') = m ≡ ([], broken e)

  pub pending-Outcome :
      (p : Phase) (rest : List Piece)
      → IsPhase p
      → All IsShown rest
      → unread rest ≡ bytes_left p
      → Outcome
          (meaning from_utf8_lossy p)
          (state_of p (later ∷ rest))
          (pending (record (state_of p (later ∷ rest)) { read = rest }))
  pending-Outcome p rest v h e = (
    record {
      phase = p;
      pieces = rest;
      valid = v;
      shown = h;
      stands = at_rest p;
      unread_of = e;
      means = refl;
    },
    weighs p,
  )
    where
      at_rest : (p : Phase) → record (state_of p (later ∷ rest)) { read = rest } ≡ state_of p rest
      at_rest at_end = refl
      at_rest (in_header have left f fs) = refl
      at_rest (in_data c body fs) = refl
      at_rest (in_error typ msg body fs) = refl

      weighs : (p : Phase) → weight rest < weight (state_of p (later ∷ rest)).read
      weighs at_end = omega arith
      weighs (in_header have left f fs) = omega arith
      weighs (in_data c body fs) = omega arith
      weighs (in_error typ msg body fs) = omega arith

  pub take_error-Outcome :
      (typ : ℕ) (msg : Bytes) (fs : List Frame) (read : List Piece)
      → All IsFrame fs
      → All IsShown read
      → unread read ≡ write_frames fs
      → Outcome
          (meaning from_utf8_lossy (in_error typ msg [] fs))
          (state_of (in_error typ msg [] fs) read)
          (take_error from_utf8_lossy typ msg (state_of (in_error typ msg [] fs) read))
  unfolding take_error
  take_error-Outcome typ msg fs read v h e = elim (Bool-cases (typ == 8)) [
    | inl t ↦ rw t (
      record {
        phase = data_phase [] fs;
        pieces = read;
        valid = data_phase-IsPhase [] fs v;
        shown = h;
        stands = sym (data_phase-state_of [] fs read);
        unread_of = e ∙ sym (data_phase-bytes_left [] fs);
        means = sym (data_phase-meaning from_utf8_lossy [] fs);
      },
      omega arith,
      omega arith,
    )
    | inr t ↦ elim (Bool-cases (typ == 1)) [
      | inl u ↦ rw (t, u, append-nil) refl
      | inr u ↦ rw (t, u, append-nil) refl
    ]
  ]

  pub prepend-take :
      (n : ℕ) (body : Bytes) (m : Bytes × Ending)
      → prepend body m ≡ prepend (take n body) (prepend (drop n body) m)
  prepend-take n body m =
      ap (λ b. prepend b m) (sym (take-append-drop n body))
      ∙ ap (λ b. (b, m.1)) (append_assoc (take n body) (drop n body) m.0)

  pub errors-lem : (e : Option (ℕ × Bytes)) → errors e ≤ 1
  errors-lem none = omega arith
  errors-lem (some e) = omega arith
