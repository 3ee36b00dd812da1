-- ===== src/Fetcher/Envelope.antt =====
-- rsync-fetcher/src/rsync/envelope.rs: the reader that strips the headers of the server's frames. A
-- poll of the source under it is not ready or shows a buffer; after the last there is the end.
pub mod Frames
pub mod Standing
pub mod Bodies
pub mod Headers
pub mod Delivers
use rsync_sjtug.Prelude.{
  ℕ, zero, suc, ◌+◌, ◌-◌, ◌*◌, min, Bool, true, false, ◌&&◌, not, Option, none, some, List, [], ◌∷◌,
  ◌++◌, Bytes, length, take, drop, replicate, ltb, ◌==◌, if◌then◌else◌,
}

pub data Piece : Type 0 where
  later : Piece
  buffered : Bytes → Piece

-- A frame that is no data has its type and what came of its message; of a header its bytes so far
-- are kept, none for `None`.
pub record EnvelopeRead : Type 0 where
  pub read : List Piece
  pub frame_remaining : ℕ
  pub pending_error : Option (ℕ × Bytes)
  pub pending_header : Bytes

pub data EnvelopeError : Type 0 where
  abort_in_header : EnvelopeError
  server_error : (msg : Bytes) → EnvelopeError
  unknown_error : (typ : ℕ) (msg : Bytes) → EnvelopeError

-- What a round of the loops comes to: another round, or what the poll returns.
pub data Polled : Type 0 where
  again pending : EnvelopeRead → Polled
  ready : Bytes → EnvelopeRead → Polled
  failed : EnvelopeError → EnvelopeRead → Polled

abbrev pub envelope_new : List Piece → EnvelopeRead
envelope_new read = record {
  read = read;
  frame_remaining = 0;
  pending_error = none;
  pending_header = [];
}

-- `consume`, on the buffer that was shown.
abbrev pub left_of_buffer : Bytes → List Piece → List Piece
left_of_buffer [] rest = rest
left_of_buffer (c ∷ cs) rest = buffered (c ∷ cs) ∷ rest

unfoldable pub consume : ℕ → Bytes → List Piece → List Piece
consume n slice rest = left_of_buffer (drop n slice) rest

-- `strip_suffix('\n')` and the filter on what it leaves.
abbrev pub newline : ℕ
newline = 10

abbrev pub has_newline : Bytes → Bool
has_newline [] = false
has_newline (c ∷ cs) = if c == newline then true else has_newline cs

abbrev pub strip_suffix : Bytes → Option Bytes
strip_suffix [] = none
strip_suffix (c ∷ []) = if c == newline then some [] else none
strip_suffix (c ∷ d ∷ cs) = elim (strip_suffix (d ∷ cs)) [ none ↦ none | some msg ↦ some (c ∷ msg) ]

unfoldable pub one_line : Bytes → Bytes
one_line msg = elim (strip_suffix msg) [
  | none ↦ msg
  | some line ↦ if has_newline line then msg else line
]

-- What the source has still to show.
abbrev pub unread : List Piece → Bytes
unread [] = []
unread (later ∷ rest) = unread rest
unread (buffered slice ∷ rest) = slice ++ unread rest

-- `String::from_utf8_lossy` is the standard library's.
module _ (from_utf8_lossy : Bytes → Bytes) where
  -- The end of `poll_err`.
  unfoldable pub take_error : ℕ → Bytes → EnvelopeRead → Polled
  take_error typ msg s =
      let line = one_line (from_utf8_lossy msg) in
      let taken : EnvelopeRead = record s { pending_error = none } in
      if typ == 8
      then again taken
      else if typ == 1
      then failed (server_error line) taken
      else failed (unknown_error typ line) taken

  -- A round of the loop of `poll_err`.
  unfoldable pub poll_err : ℕ → Bytes → List Piece → EnvelopeRead → Polled
  poll_err typ msg [] s = take_error typ (msg ++ replicate s.frame_remaining 0) s
  poll_err typ msg (later ∷ rest) s = pending (record s { read = rest })
  poll_err typ msg (buffered slice ∷ rest) s =
      let n = min s.frame_remaining (length slice) in
      again (record s {
        read = consume n slice rest;
        frame_remaining = s.frame_remaining - n;
        pending_error = some (typ, msg ++ take n slice);
      })

  -- What a whole header says.
  unfoldable pub on_header : Bytes → EnvelopeRead → EnvelopeRead
  on_header (b1 ∷ b2 ∷ b3 ∷ b4 ∷ []) s = record s {
    frame_remaining = b1 + b2 * 256 + b3 * 65536;
    pending_error = if b4 == 7 then none else some (b4, []);
    pending_header = [];
  }
  on_header _ s = s

  -- A round of the loop of `poll_read`.
  unfoldable pub poll_header : List Piece → EnvelopeRead → Polled
  poll_header [] s = elim s.pending_header [ [] ↦ ready [] s | c ∷ cs ↦ failed abort_in_header s ]
  poll_header (later ∷ rest) s = pending (record s { read = rest })
  poll_header (buffered slice ∷ rest) s =
      let consumable = min (4 - length s.pending_header) (min (length slice) 4) in
      let header = s.pending_header ++ take consumable slice in
      let consumed : EnvelopeRead = record s { read = consume consumable slice rest } in
      if ltb (length header) 4
      then again (record consumed { pending_header = header })
      else again (on_header header consumed)

  -- The read inside a data frame, into a buffer of `capacity` bytes.
  unfoldable pub poll_data : ℕ → List Piece → EnvelopeRead → Polled
  poll_data capacity [] s = ready [] s
  poll_data capacity (later ∷ rest) s = pending (record s { read = rest })
  poll_data capacity (buffered slice ∷ rest) s =
      let n = min (min capacity s.frame_remaining) (length slice) in
      ready (take n slice)
        (record s { read = consume n slice rest; frame_remaining = s.frame_remaining - n })

  unfoldable pub poll_round : ℕ → EnvelopeRead → Polled
  poll_round capacity s = elim s.pending_error [
    | some (typ, msg) ↦
        if s.frame_remaining == 0 then take_error typ msg s else poll_err typ msg s.read s
    | none ↦ if s.frame_remaining == 0 then poll_header s.read s else poll_data capacity s.read s
  ]

  unfoldable pub poll_loop : ℕ → ℕ → EnvelopeRead → Polled
  poll_loop zero capacity s = again s
  poll_loop (suc fuel) capacity s = elim (poll_round capacity s) [
    | again s' ↦ poll_loop fuel capacity s'
    | pending s' ↦ pending s'
    | ready bytes s' ↦ ready bytes s'
    | failed e s' ↦ failed e s'
  ]

  -- A round that is not the last takes a byte or an error that is complete, so two rounds for each
  -- byte and two more are enough.
  unfoldable pub poll_read : ℕ → EnvelopeRead → Polled
  poll_read capacity s = poll_loop (2 * length (unread s.read) + 2) capacity s
