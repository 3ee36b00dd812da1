-- ===== src/Fetcher/Receiver/Tokens.antt =====
-- The tokens that a sender writes, and how the receiver reads them.
use rsync_sjtug.Prelude.{
  ◌-◌, ◌<◌, ◌≡◌, ◌++◌, append_assoc, Bytes, ok, length, to_le_bytes, u32_mod, i32_min, arith,
}
use rsync_sjtug.Fetcher.Stream.{read_i32_le-of, read_exact-append}
use rsync_sjtug.Fetcher.Receiver.{FileToken, data_token, copied_token, done_token, recv_token}

-- A token as the rsync protocol writes it: the length and the bytes, or minus the block and one.
unfoldable pub write_token : FileToken → Bytes
write_token (data_token bytes) = to_le_bytes 4 (length bytes) ++ bytes
write_token (copied_token block) = to_le_bytes 4 (u32_mod - 1 - block)
write_token done_token = to_le_bytes 4 0

-- What the protocol can express.
abbrev pub IsToken : FileToken → Type 0
IsToken (data_token bytes) = (0 < length bytes) × (length bytes < i32_min)
IsToken (copied_token block) = block < i32_min
IsToken done_token = Unit

-- Every token that the protocol can express is read back, and what follows it is left.
pub recv_token-write_token :
    (t : FileToken) (rest : Bytes) → IsToken t → recv_token (write_token t ++ rest) ≡ ok (t, rest)
unfolding recv_token write_token
recv_token-write_token (data_token bytes) rest h =
    rw (append_assoc, read_i32_le-of (length bytes) (bytes ++ rest) (omega arith))
      (ground (arith, read_exact-append bytes rest))
recv_token-write_token (copied_token block) rest h =
    rw (read_i32_le-of (u32_mod - 1 - block) rest (omega arith)) (ground arith)
recv_token-write_token done_token rest h = rw (read_i32_le-of 0 rest (omega arith))
