-- ===== src/Fetcher/Envelope/Frames.antt =====
-- rsync-fetcher/src/rsync/envelope.rs: what a sequence of frames delivers, and where in it the reader
-- stands.
use rsync_sjtug.Prelude.{
  ℕ, zero, suc, ◌+◌, ◌/◌, ◌%◌, ◌≤◌, ◌<◌, ◌≡◌, refl, none, some, List, [], ◌∷◌, ◌++◌, All, Bytes,
  length, take, drop, ◌==◌, if◌then◌else◌, arith,
}
use rsync_sjtug.Fetcher.Envelope.{
  Piece, later, buffered, unread, EnvelopeRead, EnvelopeError, server_error, unknown_error,
  left_of_buffer, consume, one_line,
}

pub record Frame : Type 0 where
  pub typ : ℕ
  pub body : Bytes

-- The length of a frame has three bytes.
abbrev pub IsFrame : Frame → Type 0
IsFrame f = length f.body < 16777216

abbrev pub header : Frame → Bytes
header f = length f.body % 256 ∷ (length f.body / 256) % 256 ∷ length f.body / 65536 ∷ f.typ ∷ []

abbrev pub write_frames : List Frame → Bytes
write_frames [] = []
write_frames (f ∷ fs) = header f ++ (f.body ++ write_frames fs)

pub data Ending : Type 0 where
  end_of_stream : Ending
  broken : EnvelopeError → Ending

-- A buffer that is shown is not empty.
abbrev pub IsShown : Piece → Type 0
IsShown later = Unit
IsShown (buffered []) = ⊥
IsShown (buffered (c ∷ cs)) = Unit

-- The bytes and the polls that find nothing.
abbrev pub weight : List Piece → ℕ
weight [] = 0
weight (later ∷ rest) = suc (weight rest)
weight (buffered slice ∷ rest) = length slice + weight rest

-- Where the reader stands: between frames at the end, with some bytes of a header, in the data of a
-- frame, or in the message of one that is no data.
pub data Phase : Type 0 where
  at_end : Phase
  in_header : (have left : Bytes) → Frame → List Frame → Phase
  in_data : (c : ℕ) (body : Bytes) → List Frame → Phase
  in_error : (typ : ℕ) (msg body : Bytes) → List Frame → Phase

abbrev pub state_of : Phase → List Piece → EnvelopeRead
state_of at_end read = record {
  read = read;
  frame_remaining = 0;
  pending_error = none;
  pending_header = [];
}
state_of (in_header have left f fs) read = record {
  read = read;
  frame_remaining = 0;
  pending_error = none;
  pending_header = have;
}
state_of (in_data c body fs) read = record {
  read = read;
  frame_remaining = suc (length body);
  pending_error = none;
  pending_header = [];
}
state_of (in_error typ msg body fs) read = record {
  read = read;
  frame_remaining = length body;
  pending_error = some (typ, msg);
  pending_header = [];
}

abbrev pub bytes_left : Phase → Bytes
bytes_left at_end = []
bytes_left (in_header have left f fs) = left ++ (f.body ++ write_frames fs)
bytes_left (in_data c body fs) = (c ∷ body) ++ write_frames fs
bytes_left (in_error typ msg body fs) = body ++ write_frames fs

abbrev pub IsPhase : Phase → Type 0
IsPhase at_end = Unit
IsPhase (in_header have left f fs) =
    (have ++ left ≡ header f) × (0 < length left) × IsFrame f × All IsFrame fs
IsPhase (in_data c body fs) = All IsFrame fs
IsPhase (in_error typ msg body fs) = All IsFrame fs

abbrev pub prepend : Bytes → Bytes × Ending → Bytes × Ending
prepend bytes (rest, ending) = (bytes ++ rest, ending)

module _ (from_utf8_lossy : Bytes → Bytes) where
  -- A frame that is no data: a warning is passed over, an error ends the stream.
  abbrev pub after_error : ℕ → Bytes → Bytes × Ending → Bytes × Ending
  after_error typ msg rest =
      if typ == 8
      then rest
      else if typ == 1
      then ([], broken (server_error (one_line (from_utf8_lossy msg))))
      else ([], broken (unknown_error typ (one_line (from_utf8_lossy msg))))

  -- What the frames deliver: the data up to the end or the first error.
  abbrev pub delivered : List Frame → Bytes × Ending
  delivered [] = ([], end_of_stream)
  delivered (f ∷ fs) =
      if f.typ == 7 then prepend f.body (delivered fs) else after_error f.typ f.body (delivered fs)

  abbrev pub meaning : Phase → Bytes × Ending
  meaning at_end = ([], end_of_stream)
  meaning (in_header have left f fs) = delivered (f ∷ fs)
  meaning (in_data c body fs) = prepend (c ∷ body) (delivered fs)
  meaning (in_error typ msg body fs) = after_error typ (msg ++ body) (delivered fs)

-- Before the first of some frames.
abbrev pub start : List Frame → Phase
start [] = at_end
start (f ∷ fs) = in_header [] (header f) f fs

-- In a frame of which some data are left, or none.
abbrev pub data_phase : Bytes → List Frame → Phase
data_phase [] fs = start fs
data_phase (c ∷ body) fs = in_data c body fs

pub data_phase-state_of :
    (body : Bytes) (fs : List Frame) (read : List Piece)
    → state_of (data_phase body fs) read ≡ record {
      read = read;
      frame_remaining = length body;
      pending_error = none;
      pending_header = [];
    }
data_phase-state_of [] [] read = refl
data_phase-state_of [] (f ∷ fs) read = refl
data_phase-state_of (c ∷ body) fs read = refl

pub data_phase-bytes_left :
    (body : Bytes) (fs : List Frame) → bytes_left (data_phase body fs) ≡ body ++ write_frames fs
data_phase-bytes_left [] [] = refl
data_phase-bytes_left [] (f ∷ fs) = refl
data_phase-bytes_left (c ∷ body) fs = refl

pub data_phase-IsPhase :
    (body : Bytes) (fs : List Frame) → All IsFrame fs → IsPhase (data_phase body fs)
data_phase-IsPhase [] [] h = tt
data_phase-IsPhase [] (f ∷ fs) h = (refl, omega arith, h.0, h.1)
data_phase-IsPhase (c ∷ body) fs h = h

pub data_phase-meaning :
    (from_utf8_lossy : Bytes → Bytes) (body : Bytes) (fs : List Frame)
    → meaning from_utf8_lossy (data_phase body fs) ≡ prepend body (delivered from_utf8_lossy fs)
data_phase-meaning from_utf8_lossy [] [] = refl
data_phase-meaning from_utf8_lossy [] (f ∷ fs) = refl
data_phase-meaning from_utf8_lossy (c ∷ body) fs = refl

pub unread-consume :
    (n : ℕ) (slice : Bytes) (rest : List Piece)
    → unread (consume n slice rest) ≡ drop n slice ++ unread rest
unfolding consume
unread-consume n slice rest = go (drop n slice)
  where
    go : (b : Bytes) → unread (left_of_buffer b rest) ≡ b ++ unread rest
    go [] = refl
    go (c ∷ cs) = refl

pub weight-consume :
    (n : ℕ) (slice : Bytes) (rest : List Piece)
    → weight (consume n slice rest) ≡ length (drop n slice) + weight rest
unfolding consume
weight-consume n slice rest = go (drop n slice)
  where
    go : (b : Bytes) → weight (left_of_buffer b rest) ≡ length b + weight rest
    go [] = omega arith
    go (c ∷ cs) = refl

pub consume-IsShown :
    (n : ℕ) (slice : Bytes) (rest : List Piece)
    → All IsShown rest
    → All IsShown (consume n slice rest)
unfolding consume
consume-IsShown n slice rest h = go (drop n slice)
  where
    go : (b : Bytes) → All IsShown (left_of_buffer b rest)
    go [] = h
    go (c ∷ cs) = (tt, h)

-- Two ways to cut one byte string, and a piece that both begin with.
pub cut_both :
    (n : ℕ) (xs ys left tail : Bytes)
    → xs ++ ys ≡ left ++ tail
    → n ≤ length xs
    → n ≤ length left
    → (take n xs ≡ take n left) × (drop n xs ++ ys ≡ drop n left ++ tail)
cut_both zero xs ys left tail e h k = (refl, e)
cut_both (suc n) [] ys left tail e h k = absurd (omega arith)
cut_both (suc n) (x ∷ xs) ys [] tail e h k = absurd (omega arith)
cut_both (suc n) (x ∷ xs) ys (l ∷ left) tail e h k =
    let (a, b) = cut_both n xs ys left tail (cc) (omega arith) (omega arith) in (cc (a, e), b)
