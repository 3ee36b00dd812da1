-- ===== src/Tests/Frames.antt =====
-- Three frames that come in pieces; rsync-fetcher/src/rsync/envelope.rs.
use rsync_sjtug.Prelude.{
  ℕ, zero, suc, ◌≡◌, refl, ◌<◌, some, List, [], ◌∷◌, All, Bytes, replicate, arith,
}
use rsync_sjtug.Fetcher.Envelope.{
  Piece, later, buffered, server_error, envelope_new, consume, one_line, take_error, poll_err,
  on_header, poll_header, poll_data, poll_round, poll_loop, poll_read,
}
use rsync_sjtug.Fetcher.Envelope.Frames.{Frame, IsFrame, broken, delivered}
use rsync_sjtug.Fetcher.Envelope.Delivers.{read_to_end, read_to_end-delivered}

program : Unit {0}
unfolding consume one_line take_error poll_err on_header poll_header poll_data poll_round poll_loop
    poll_read read_to_end
program = tt

abbrev same : Bytes → Bytes
same b = b

-- Data, a warning, and an error with a line break at its end.
abbrev frames : List Frame
frames =
    record { typ = 7; body = 1 ∷ 2 ∷ [] }
    ∷ record { typ = 8; body = 65 ∷ [] }
    ∷ record { typ = 1; body = 66 ∷ 10 ∷ [] }
    ∷ []

abbrev pieces : List Piece
pieces =
    later
    ∷ buffered (2 ∷ 0 ∷ 0 ∷ [])
    ∷ buffered (7 ∷ 1 ∷ [])
    ∷ later
    ∷ buffered (2 ∷ 1 ∷ 0 ∷ 0 ∷ 8 ∷ 65 ∷ 2 ∷ 0 ∷ [])
    ∷ buffered (0 ∷ 1 ∷ 66 ∷ [])
    ∷ buffered (10 ∷ [])
    ∷ []

read_run :
    read_to_end same (replicate 20 3) (envelope_new pieces)
    ≡ (1 ∷ 2 ∷ [], some (broken (server_error (66 ∷ []))))
unfolding program
read_run = refl

frames-IsFrame : All IsFrame frames
frames-IsFrame = (omega arith, (omega arith, (omega arith, tt)))

room : (n : ℕ) → All (λ c. 0 < c) (replicate n 3)
room zero = tt
room (suc n) = (omega arith, room n)

read_to_end-delivered_example :
    read_to_end same (replicate 20 3) (envelope_new pieces)
    ≡ ((delivered same frames).0, some (delivered same frames).1)
read_to_end-delivered_example =
    read_to_end-delivered same frames pieces (replicate 20 3) frames-IsFrame
      (tt, (tt, (tt, (tt, (tt, (tt, (tt, tt))))))) refl (room 20) (omega arith)
