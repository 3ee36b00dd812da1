-- ===== src/Fetcher/Envelope/Headers.antt =====
-- rsync-fetcher/src/rsync/envelope.rs: a round between the bodies of two frames.
use rsync_sjtug.Prelude.{
  ℕ, ◌+◌, ◌-◌, ◌*◌, ◌/◌, ◌%◌, ◌≤◌, ◌<◌, min, ◌≡◌, refl, sym, ap, ◌∙◌, inl, inr, Bool-cases, none,
  some, List, [], ◌∷◌, ◌++◌, append_assoc, All, Bytes, length, take, drop, length-append,
  length-take, length-drop, take_of_length-le, drop_of_length-le, take-append-drop, ltb, ltb→le,
  ltb→lt, ◌==◌, if◌then◌else◌, arith,
}
use mathlib.Core.Path.{subst}
use rsync_sjtug.Fetcher.Envelope.{
  Piece, later, buffered, unread, EnvelopeRead, again, consume, on_header, poll_header,
}
use rsync_sjtug.Fetcher.Envelope.Frames.{
  Frame, IsFrame, header, write_frames, end_of_stream, IsShown, weight, at_end, in_header, in_error,
  state_of, IsPhase, delivered, meaning, data_phase, data_phase-state_of, data_phase-bytes_left,
  data_phase-IsPhase, data_phase-meaning, unread-consume, weight-consume, consume-IsShown, cut_both,
}
use rsync_sjtug.Fetcher.Envelope.Standing.{Moves, Outcome, pending-Outcome, errors-lem}

module _ (from_utf8_lossy : Bytes → Bytes) where
  -- The header of a frame says its length and type.
  on_header-Moves :
      (f : Frame) (fs : List Frame) (read : List Piece) (have : Bytes)
      → IsFrame f
      → All IsFrame fs
      → All IsShown read
      → unread read ≡ f.body ++ write_frames fs
      → Moves from_utf8_lossy (delivered from_utf8_lossy (f ∷ fs)) [] (
          on_header from_utf8_lossy (header f) (record {
            read = read;
            frame_remaining = 0;
            pending_error = none;
            pending_header = have;
          }))
  unfolding on_header
  on_header-Moves f fs read have l v h e = elim (Bool-cases (f.typ == 7)) [
    | inl t ↦ rw t (record {
      phase = data_phase f.body fs;
      pieces = read;
      valid = data_phase-IsPhase f.body fs v;
      shown = h;
      stands =
          ap
            (λ k. record {
              read = read;
              frame_remaining = k;
              pending_error = none;
              pending_header = [];
            })
            three_bytes
          ∙ sym (data_phase-state_of f.body fs read);
      unread_of = e ∙ sym (data_phase-bytes_left f.body fs);
      means = sym (data_phase-meaning from_utf8_lossy f.body fs);
    })
    | inr t ↦ rw t (record {
      phase = in_error f.typ [] f.body fs;
      pieces = read;
      valid = v;
      shown = h;
      stands =
          ap
            (λ k. record {
              read = read;
              frame_remaining = k;
              pending_error = some (f.typ, []);
              pending_header = [];
            })
            three_bytes;
      unread_of = e;
      means = refl;
    })
  ]
    where
      three_bytes :
          length f.body % 256
            + ((length f.body / 256) % 256) * 256
            + (length f.body / 65536) * 65536
          ≡ length f.body
      three_bytes = omega arith

  on_header-read :
      (f : Frame) (s : EnvelopeRead) → (on_header from_utf8_lossy (header f) s).read ≡ s.read
  unfolding on_header
  on_header-read f s = refl

  pub poll_header-Outcome :
      (have left : Bytes) (f : Frame) (fs : List Frame) (read : List Piece)
      → IsPhase (in_header have left f fs)
      → All IsShown read
      → unread read ≡ left ++ (f.body ++ write_frames fs)
      → Outcome from_utf8_lossy
          (meaning from_utf8_lossy (in_header have left f fs))
          (state_of (in_header have left f fs) read)
          (poll_header from_utf8_lossy read (state_of (in_header have left f fs) read))
  unfolding poll_header
  poll_header-Outcome have left f fs [] (whole, some_left, l, v) h e =
      absurd (none_left left some_left e)
    where
      none_left : (xs : Bytes) → 0 < length xs → [] ≡ xs ++ (f.body ++ write_frames fs) → ⊥
      none_left [] a b = omega arith
      none_left (x ∷ xs) a b = cc
  poll_header-Outcome have left f fs (later ∷ rest) p h e =
      pending-Outcome from_utf8_lossy (in_header have left f fs) rest p h.1 e
  poll_header-Outcome have left f fs (buffered [] ∷ rest) p h e = absurd h.0
  poll_header-Outcome have left f fs (buffered (x ∷ xs) ∷ rest) (whole, some_left, l, v) h e =
      go (min (4 - length have) (min (length (x ∷ xs)) 4)) (omega (arith, four))
        (omega (arith, four)) (omega (arith, four))
    where
      four : length have + length left ≡ 4
      four = sym (length-append have left) ∙ ap length whole

      shorter :
          (n : ℕ)
          → 0 < n
          → n ≤ length (x ∷ xs)
          → 2 * length (unread (consume n (x ∷ xs) rest)) + 1 < 2 * length ((x ∷ xs) ++ unread rest)
      shorter n a k = omega (
        arith,
        ap length (unread-consume n (x ∷ xs) rest),
        length-append (drop n (x ∷ xs)) (unread rest),
        length-append (x ∷ xs) (unread rest),
        length-drop n (x ∷ xs),
      )

      no_heavier :
          (n : ℕ)
          → n ≤ length (x ∷ xs)
          → weight (consume n (x ∷ xs) rest) ≤ weight (buffered (x ∷ xs) ∷ rest)
      no_heavier n k = omega (arith, weight-consume n (x ∷ xs) rest, length-drop n (x ∷ xs))

      consumed : ℕ → EnvelopeRead
      consumed n = record {
        read = consume n (x ∷ xs) rest;
        frame_remaining = 0;
        pending_error = none;
        pending_header = have;
      }

      complete :
          (n : ℕ)
          → 0 < n
          → n ≤ length (x ∷ xs)
          → have ++ take n (x ∷ xs) ≡ header f
          → unread (consume n (x ∷ xs) rest) ≡ f.body ++ write_frames fs
          → Outcome from_utf8_lossy
              (delivered from_utf8_lossy (f ∷ fs))
              (state_of (in_header have left f fs) (buffered (x ∷ xs) ∷ rest))
              (again (on_header from_utf8_lossy (have ++ take n (x ∷ xs)) (consumed n)))
      complete n a k done after =
          subst
            (λ b.
              Outcome from_utf8_lossy (delivered from_utf8_lossy (f ∷ fs))
                (state_of (in_header have left f fs) (buffered (x ∷ xs) ∷ rest))
                (again (on_header from_utf8_lossy b (consumed n))))
            (sym done)
            (
              on_header-Moves f fs (consume n (x ∷ xs) rest) have l v
                  (consume-IsShown n (x ∷ xs) rest h.1) after,
              omega (
                arith,
                shorter n a k,
                errors-lem from_utf8_lossy
                    (on_header from_utf8_lossy (header f) (consumed n)).pending_error,
                ap (λ r. length (unread r)) (on_header-read f (consumed n)),
              ),
              subst (λ r. weight r ≤ weight (buffered (x ∷ xs) ∷ rest))
                  (sym (on_header-read f (consumed n))) (no_heavier n k),
            )

      go :
          (n : ℕ)
          → 0 < n
          → n ≤ length (x ∷ xs)
          → n ≤ length left
          → Outcome from_utf8_lossy
              (delivered from_utf8_lossy (f ∷ fs))
              (state_of (in_header have left f fs) (buffered (x ∷ xs) ∷ rest))
              (if ltb (length (have ++ take n (x ∷ xs))) 4
                then again (record (consumed n) { pending_header = have ++ take n (x ∷ xs) })
                else again (on_header from_utf8_lossy (have ++ take n (x ∷ xs)) (consumed n)))
      go n a k m =
          let (same, others) =
            cut_both n (x ∷ xs) (unread rest) left (f.body ++ write_frames fs) e k m in
          let so_far = ap (λ b. have ++ b) same in
          let size = ap length so_far ∙ length-append have (take n left) in
          elim (Bool-cases (ltb (length (have ++ take n (x ∷ xs))) 4)) [
            | inl t ↦ rw t (
              record {
                phase = in_header (have ++ take n left) (drop n left) f fs;
                pieces = consume n (x ∷ xs) rest;
                valid = (
                  append_assoc have (take n left) (drop n left)
                      ∙ ap (λ b. have ++ b) (take-append-drop n left)
                      ∙ whole,
                  omega (arith, four, size, length-take n left, length-drop n left, ltb→lt _ _ t),
                  l,
                  v,
                );
                shown = consume-IsShown n (x ∷ xs) rest h.1;
                stands = ap (λ b. record (consumed n) { pending_header = b }) so_far;
                unread_of = unread-consume n (x ∷ xs) rest ∙ others;
                means = refl;
              },
              omega (arith, shorter n a k),
              no_heavier n k,
            )
            | inr t ↦ rw t (
                complete n a k
                  (so_far
                    ∙ ap (λ b. have ++ b)
                        (take_of_length-le n left
                          (omega (arith, four, size, length-take n left, ltb→le _ _ t)))
                    ∙ whole)
                  (unread-consume n (x ∷ xs) rest
                    ∙ others
                    ∙ ap (λ b. b ++ (f.body ++ write_frames fs))
                        (drop_of_length-le n left
                          (omega (arith, four, size, length-take n left, ltb→le _ _ t)))))
          ]

  pub at_end-Outcome :
      (read : List Piece)
      → All IsShown read
      → unread read ≡ []
      → Outcome from_utf8_lossy
          ([], end_of_stream)
          (state_of at_end read)
          (poll_header from_utf8_lossy read (state_of at_end read))
  unfolding poll_header
  at_end-Outcome [] h e = inl (refl, refl)
  at_end-Outcome (later ∷ rest) h e = pending-Outcome from_utf8_lossy at_end rest tt h.1 e
  at_end-Outcome (buffered [] ∷ rest) h e = absurd h.0
  at_end-Outcome (buffered (x ∷ xs) ∷ rest) h e = cc
