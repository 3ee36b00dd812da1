-- ===== src/Fetcher/Envelope/Bodies.antt =====
-- rsync-fetcher/src/rsync/envelope.rs: a round inside the body of a frame.
use rsync_sjtug.Prelude.{
  ℕ, ◌+◌, ◌-◌, ◌*◌, ◌≤◌, ◌<◌, min, ◌≡◌, sym, ap, ◌∙◌, inr, none, some, List, [], ◌∷◌, ◌++◌,
  append_assoc, All, Bytes, length, take, drop, length-append, length-take, length-drop,
  take-append-drop, arith,
}
use rsync_sjtug.Fetcher.Envelope.{
  Piece, later, buffered, unread, again, ready, consume, poll_err, poll_data,
}
use rsync_sjtug.Fetcher.Envelope.Frames.{
  Frame, IsFrame, write_frames, IsShown, in_data, in_error, state_of, prepend, after_error,
  delivered, meaning, data_phase, data_phase-state_of, data_phase-bytes_left, data_phase-IsPhase,
  data_phase-meaning, unread-consume, weight-consume, consume-IsShown, cut_both,
}
use rsync_sjtug.Fetcher.Envelope.Standing.{Outcome, pending-Outcome, prepend-take}

module _ (from_utf8_lossy : Bytes → Bytes) where
  pub poll_data-Outcome :
      (capacity c : ℕ) (body : Bytes) (fs : List Frame) (read : List Piece)
      → 0 < capacity
      → All IsFrame fs
      → All IsShown read
      → unread read ≡ (c ∷ body) ++ write_frames fs
      → Outcome from_utf8_lossy
          (meaning from_utf8_lossy (in_data c body fs))
          (state_of (in_data c body fs) read)
          (poll_data from_utf8_lossy capacity read (state_of (in_data c body fs) read))
  unfolding poll_data
  poll_data-Outcome capacity c body fs [] pos v h e = cc
  poll_data-Outcome capacity c body fs (later ∷ rest) pos v h e =
      pending-Outcome from_utf8_lossy (in_data c body fs) rest v h.1 e
  poll_data-Outcome capacity c body fs (buffered [] ∷ rest) pos v h e = absurd h.0
  poll_data-Outcome capacity c body fs (buffered (x ∷ xs) ∷ rest) pos v h e =
      go (min (min capacity (length (c ∷ body))) (length (x ∷ xs))) (omega arith) (omega arith)
        (omega arith)
    where
      go :
          (n : ℕ)
          → 0 < n
          → n ≤ length (x ∷ xs)
          → n ≤ length (c ∷ body)
          → Outcome from_utf8_lossy
              (meaning from_utf8_lossy (in_data c body fs))
              (state_of (in_data c body fs) (buffered (x ∷ xs) ∷ rest))
              (ready
                (take n (x ∷ xs))
                (record (state_of (in_data c body fs) (buffered (x ∷ xs) ∷ rest)) {
                  read = consume n (x ∷ xs) rest;
                  frame_remaining = length (c ∷ body) - n;
                }))
      go n a k l =
          let (same, others) =
            cut_both n (x ∷ xs) (unread rest) (c ∷ body) (write_frames fs) e k l in
          inr (
            omega (arith, length-take n (x ∷ xs)),
            record {
              phase = data_phase (drop n (c ∷ body)) fs;
              pieces = consume n (x ∷ xs) rest;
              valid = data_phase-IsPhase (drop n (c ∷ body)) fs v;
              shown = consume-IsShown n (x ∷ xs) rest h.1;
              stands =
                  ap
                    (λ k. record {
                      read = consume n (x ∷ xs) rest;
                      frame_remaining = k;
                      pending_error = none;
                      pending_header = [];
                    })
                    (sym (length-drop n (c ∷ body)))
                  ∙ sym (data_phase-state_of (drop n (c ∷ body)) fs (consume n (x ∷ xs) rest));
              unread_of =
                  unread-consume n (x ∷ xs) rest
                  ∙ others
                  ∙ sym (data_phase-bytes_left (drop n (c ∷ body)) fs);
              means = delivers n (take n (x ∷ xs)) same;
            },
            omega (arith, weight-consume n (x ∷ xs) rest, length-drop n (x ∷ xs)),
          )
        where
          delivers :
              (n : ℕ) (bytes : Bytes)
              → bytes ≡ take n (c ∷ body)
              → prepend (c ∷ body) (delivered from_utf8_lossy fs)
                ≡ prepend bytes (meaning from_utf8_lossy (data_phase (drop n (c ∷ body)) fs))
          delivers n bytes same =
              prepend-take from_utf8_lossy n (c ∷ body) (delivered from_utf8_lossy fs)
              ∙ ap (λ b. prepend b (prepend (drop n (c ∷ body)) (delivered from_utf8_lossy fs)))
                  (sym same)
              ∙ ap (prepend bytes) (sym (data_phase-meaning from_utf8_lossy (drop n (c ∷ body)) fs))

  -- The end of the message: an error without a round at the source.
  pub poll_err-Outcome :
      (typ c : ℕ) (msg body : Bytes) (fs : List Frame) (read : List Piece)
      → All IsFrame fs
      → All IsShown read
      → unread read ≡ (c ∷ body) ++ write_frames fs
      → Outcome from_utf8_lossy
          (meaning from_utf8_lossy (in_error typ msg (c ∷ body) fs))
          (state_of (in_error typ msg (c ∷ body) fs) read)
          (poll_err from_utf8_lossy typ msg read (state_of (in_error typ msg (c ∷ body) fs) read))
  unfolding poll_err
  poll_err-Outcome typ c msg body fs [] v h e = cc
  poll_err-Outcome typ c msg body fs (later ∷ rest) v h e =
      pending-Outcome from_utf8_lossy (in_error typ msg (c ∷ body) fs) rest v h.1 e
  poll_err-Outcome typ c msg body fs (buffered [] ∷ rest) v h e = absurd h.0
  poll_err-Outcome typ c msg body fs (buffered (x ∷ xs) ∷ rest) v h e =
      go (min (length (c ∷ body)) (length (x ∷ xs))) (omega arith) (omega arith) (omega arith)
    where
      go :
          (n : ℕ)
          → 0 < n
          → n ≤ length (x ∷ xs)
          → n ≤ length (c ∷ body)
          → Outcome from_utf8_lossy
              (meaning from_utf8_lossy (in_error typ msg (c ∷ body) fs))
              (state_of (in_error typ msg (c ∷ body) fs) (buffered (x ∷ xs) ∷ rest))
              (again
                (record (state_of (in_error typ msg (c ∷ body) fs) (buffered (x ∷ xs) ∷ rest)) {
                  read = consume n (x ∷ xs) rest;
                  frame_remaining = length (c ∷ body) - n;
                  pending_error = some (typ, msg ++ take n (x ∷ xs));
                }))
      go n a k l =
          let (same, others) =
            cut_both n (x ∷ xs) (unread rest) (c ∷ body) (write_frames fs) e k l in
          (
            record {
              phase = in_error typ (msg ++ take n (x ∷ xs)) (drop n (c ∷ body)) fs;
              pieces = consume n (x ∷ xs) rest;
              valid = v;
              shown = consume-IsShown n (x ∷ xs) rest h.1;
              stands =
                  ap
                    (λ k. record {
                      read = consume n (x ∷ xs) rest;
                      frame_remaining = k;
                      pending_error = some (typ, msg ++ take n (x ∷ xs));
                      pending_header = [];
                    })
                    (sym (length-drop n (c ∷ body)));
              unread_of = unread-consume n (x ∷ xs) rest ∙ others;
              means =
                  ap (λ m. after_error from_utf8_lossy typ m (delivered from_utf8_lossy fs))
                    (whole n (take n (x ∷ xs)) same);
            },
            shorter n a k,
            omega (arith, weight-consume n (x ∷ xs) rest, length-drop n (x ∷ xs)),
          )
        where
          whole :
              (n : ℕ) (bytes : Bytes)
              → bytes ≡ take n (c ∷ body)
              → msg ++ (c ∷ body) ≡ (msg ++ bytes) ++ drop n (c ∷ body)
          whole n bytes same =
              ap (λ b. msg ++ b)
                (sym (take-append-drop n (c ∷ body)) ∙ ap (λ b. b ++ drop n (c ∷ body)) (sym same))
              ∙ sym (append_assoc msg bytes (drop n (c ∷ body)))

          shorter :
              (n : ℕ)
              → 0 < n
              → n ≤ length (x ∷ xs)
              → 2 * length (unread (consume n (x ∷ xs) rest)) + 1
                < 2 * length ((x ∷ xs) ++ unread rest) + 1
          shorter n a k = omega (
            arith,
            ap length (unread-consume n (x ∷ xs) rest),
            length-append (drop n (x ∷ xs)) (unread rest),
            length-append (x ∷ xs) (unread rest),
            length-drop n (x ∷ xs),
          )
