-- ===== src/Fetcher/Envelope/Delivers.antt =====
-- rsync-fetcher/src/rsync/envelope.rs: the reader delivers what the frames say, however the source
-- cuts them into buffers.
use rsync_sjtug.Prelude.{
  ℕ, zero, suc, ◌≤◌, ◌<◌, ◌≡◌, refl, sym, ap, ◌∙◌, ◌⊎◌, inl, inr, false, Option, none, some, List,
  [], ◌∷◌, ◌++◌, All, Bytes, length, ◌==◌, arith,
}
use mathlib.Core.Path.{subst}
use rsync_sjtug.Fetcher.Envelope.{
  Piece, unread, EnvelopeRead, Polled, again, pending, ready, failed, envelope_new, poll_round,
  poll_loop, poll_read,
}
use rsync_sjtug.Fetcher.Envelope.Frames.{
  Frame, IsFrame, write_frames, Ending, end_of_stream, broken, IsShown, weight, Phase, at_end,
  in_header, in_data, in_error, state_of, bytes_left, IsPhase, delivered, meaning, data_phase,
  data_phase-state_of, data_phase-bytes_left, data_phase-IsPhase, data_phase-meaning,
}
use rsync_sjtug.Fetcher.Envelope.Standing.{Moves, rank, Outcome, take_error-Outcome, errors-lem}
use rsync_sjtug.Fetcher.Envelope.Bodies.{poll_data-Outcome, poll_err-Outcome}
use rsync_sjtug.Fetcher.Envelope.Headers.{poll_header-Outcome, at_end-Outcome}

module _ (from_utf8_lossy : Bytes → Bytes) where
  suc-not_zero : (k : ℕ) → (suc k == 0) ≡ false
  suc-not_zero k = ground arith

  poll_round-Outcome :
      (capacity : ℕ) (p : Phase) (read : List Piece)
      → 0 < capacity
      → IsPhase p
      → All IsShown read
      → unread read ≡ bytes_left p
      → Outcome from_utf8_lossy
          (meaning from_utf8_lossy p)
          (state_of p read)
          (poll_round from_utf8_lossy capacity (state_of p read))
  unfolding poll_round
  poll_round-Outcome capacity at_end read pos v h e = at_end-Outcome from_utf8_lossy read h e
  poll_round-Outcome capacity (in_header have left f fs) read pos v h e =
      poll_header-Outcome from_utf8_lossy have left f fs read v h e
  poll_round-Outcome capacity (in_data c body fs) read pos v h e =
      rw (suc-not_zero (length body))
        (poll_data-Outcome from_utf8_lossy capacity c body fs read pos v h e)
  poll_round-Outcome capacity (in_error typ msg [] fs) read pos v h e =
      take_error-Outcome from_utf8_lossy typ msg fs read v h e
  poll_round-Outcome capacity (in_error typ msg (c ∷ body) fs) read pos v h e =
      rw (suc-not_zero (length body))
        (poll_err-Outcome from_utf8_lossy typ c msg body fs read v h e)

  poll_round-Moves :
      (capacity : ℕ) (m : Bytes × Ending) (s : EnvelopeRead)
      → 0 < capacity
      → Moves from_utf8_lossy m [] s
      → Outcome from_utf8_lossy m s (poll_round from_utf8_lossy capacity s)
  poll_round-Moves capacity m s pos mv =
      subst
        (λ (q : EnvelopeRead). Outcome from_utf8_lossy m q (poll_round from_utf8_lossy capacity q))
        (sym mv.stands)
        (subst
          (λ k.
            Outcome from_utf8_lossy k (state_of mv.phase mv.pieces)
              (poll_round from_utf8_lossy capacity (state_of mv.phase mv.pieces)))
          (sym mv.means)
          (poll_round-Outcome capacity mv.phase mv.pieces pos mv.valid mv.shown mv.unread_of))

  -- What a whole poll comes to.
  abbrev Final : Bytes × Ending → ℕ → Polled → Type 0
  Final m w (again s) = ⊥
  Final m w (pending s) = Moves from_utf8_lossy m [] s × (weight s.read < w)
  Final m w (ready bytes s) =
      ((bytes ≡ []) × (m ≡ ([], end_of_stream)))
      ⊎ ((0 < length bytes) × Moves from_utf8_lossy m bytes s × (weight s.read < w))
  Final m w (failed e s) = m ≡ ([], broken e)

  Final-weaken : (m : Bytes × Ending) (w w' : ℕ) (q : Polled) → w ≤ w' → Final m w q → Final m w' q
  Final-weaken m w w' (again s) l h = h
  Final-weaken m w w' (pending s) l (mv, less) = (mv, omega arith)
  Final-weaken m w w' (ready bytes s) l (inl h) = inl h
  Final-weaken m w w' (ready bytes s) l (inr (some_bytes, mv, less)) =
      inr (some_bytes, mv, omega arith)
  Final-weaken m w w' (failed e s) l h = h

  poll_loop-Final :
      (fuel capacity : ℕ) (m : Bytes × Ending) (s : EnvelopeRead)
      → 0 < capacity
      → rank from_utf8_lossy s < fuel
      → Moves from_utf8_lossy m [] s
      → Final m (weight s.read) (poll_loop from_utf8_lossy fuel capacity s)
  unfolding poll_loop
  poll_loop-Final zero capacity m s pos l mv = absurd (omega arith)
  poll_loop-Final (suc fuel) capacity m s pos l mv =
      go (λ t k n. poll_loop-Final fuel capacity m t pos k n)
        (poll_round from_utf8_lossy capacity s) (poll_round-Moves capacity m s pos mv)
    where
      go :
          ((t : EnvelopeRead)
            → rank from_utf8_lossy t < fuel
            → Moves from_utf8_lossy m [] t
            → Final m (weight t.read) (poll_loop from_utf8_lossy fuel capacity t))
          → (q : Polled) → Outcome from_utf8_lossy m s q
          → Final m (weight s.read) (elim q [
            | again s' ↦ poll_loop from_utf8_lossy fuel capacity s'
            | pending s' ↦ pending s'
            | ready bytes s' ↦ ready bytes s'
            | failed e s' ↦ failed e s'
          ])
      go rest (again t) (n, r, w) =
          Final-weaken m (weight t.read) (weight s.read) _ w (rest t (omega arith) n)
      go rest (pending t) h = h
      go rest (ready bytes t) h = h
      go rest (failed e t) h = h

  poll_read-Final :
      (capacity : ℕ) (m : Bytes × Ending) (s : EnvelopeRead)
      → 0 < capacity
      → Moves from_utf8_lossy m [] s
      → Final m (weight s.read) (poll_read from_utf8_lossy capacity s)
  unfolding poll_read
  poll_read-Final capacity m s pos mv =
      poll_loop-Final _ capacity m s pos (omega (arith, errors-lem from_utf8_lossy s.pending_error))
        mv

  abbrev go_on : Polled → (EnvelopeRead → Bytes × Option Ending) → Bytes × Option Ending
  go_on (again s) rest = ([], none)
  go_on (pending s) rest = rest s
  go_on (ready [] s) rest = ([], some end_of_stream)
  go_on (ready (c ∷ cs) s) rest = let (bytes, ending) = rest s in ((c ∷ cs) ++ bytes, ending)
  go_on (failed e s) rest = ([], some (broken e))

  -- A client that polls, with a buffer of some size each time, until the end or an error.
  unfoldable pub read_to_end : List ℕ → EnvelopeRead → Bytes × Option Ending
  read_to_end [] s = ([], none)
  read_to_end (capacity ∷ capacities) s =
      go_on (poll_read from_utf8_lossy capacity s) (read_to_end capacities)

  abbrev ended : Bytes × Ending → Bytes × Option Ending
  ended (bytes, ending) = (bytes, some ending)

  go_on-Final :
      (m : Bytes × Ending) (w : ℕ) (q : Polled) (rest : EnvelopeRead → Bytes × Option Ending)
      → Final m w q
      → ((k : Bytes × Ending) (s : EnvelopeRead)
          → weight s.read < w
          → Moves from_utf8_lossy k [] s
          → rest s ≡ ended k)
      → go_on q rest ≡ ended m
  go_on-Final m w (again s) rest h f = absurd h
  go_on-Final m w (pending s) rest (mv, l) f = f m s l mv
  go_on-Final m w (ready [] s) rest (inl (e, k)) f = ap ended (sym k)
  go_on-Final m w (ready [] s) rest (inr (l, mv, less)) f = absurd (omega arith)
  go_on-Final m w (ready (c ∷ cs) s) rest (inl (e, k)) f = cc
  go_on-Final m w (ready (c ∷ cs) s) rest (inr (l, mv, less)) f =
      ap (λ (r : Bytes × Option Ending). ((c ∷ cs) ++ r.0, r.1))
        (f (meaning from_utf8_lossy mv.phase) s less (record {
          phase = mv.phase;
          pieces = mv.pieces;
          valid = mv.valid;
          shown = mv.shown;
          stands = mv.stands;
          unread_of = mv.unread_of;
          means = refl;
        }))
      ∙ ap ended (sym mv.means)
  go_on-Final m w (failed e s) rest h f = ap ended (sym h)

  read_to_end-Moves :
      (capacities : List ℕ) (m : Bytes × Ending) (s : EnvelopeRead)
      → All (λ c. 0 < c) capacities
      → weight s.read < length capacities
      → Moves from_utf8_lossy m [] s
      → read_to_end capacities s ≡ ended m
  unfolding read_to_end
  read_to_end-Moves [] m s pos l mv = absurd (omega arith)
  read_to_end-Moves (capacity ∷ capacities) m s pos l mv =
      go_on-Final m (weight s.read) (poll_read from_utf8_lossy capacity s) (read_to_end capacities)
        (poll_read-Final capacity m s pos.0 mv)
        (λ k t less n. read_to_end-Moves capacities k t pos.1 (omega arith) n)

  -- If the source shows well-formed frames, cut into buffers in any way and with any polls that find
  -- nothing, then a client that polls often enough, with room for a byte each time at least, gets
  -- the data of the frames up to the end or the first error of the server, and that end or error:
  -- the sender's warnings are passed over.
  pub read_to_end-delivered :
      (frames : List Frame) (read : List Piece) (capacities : List ℕ)
      → All IsFrame frames
      → All IsShown read
      → unread read ≡ write_frames frames
      → All (λ c. 0 < c) capacities
      → weight read < length capacities
      → read_to_end capacities (envelope_new read)
        ≡ ((delivered from_utf8_lossy frames).0, some (delivered from_utf8_lossy frames).1)
  read_to_end-delivered frames read capacities v h e pos l =
      read_to_end-Moves capacities (delivered from_utf8_lossy frames) (envelope_new read) pos l
        (record {
          phase = data_phase [] frames;
          pieces = read;
          valid = data_phase-IsPhase [] frames v;
          shown = h;
          stands = sym (data_phase-state_of [] frames read);
          unread_of = e ∙ sym (data_phase-bytes_left [] frames);
          means = sym (data_phase-meaning from_utf8_lossy [] frames);
        })
