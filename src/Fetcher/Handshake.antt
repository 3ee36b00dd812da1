-- ===== src/Fetcher/Handshake.antt =====
-- rsync-fetcher/src/rsync/handshake.rs, version.rs and filter.rs: what is exchanged before the
-- transfer. What the server has still to send is a byte string, and so is what was sent to it.
pub mod Motd
pub mod Rules
use rsync_sjtug.Prelude.{
  ℕ, zero, suc, ◌+◌, Bool, true, false, ◌&&◌, Option, none, some, List, [], ◌∷◌, ◌++◌, Bytes,
  Result, ok, err, fault, ◌>>=◌, ◌>>◌, ensure, assert, length, ltb, ◌==◌, if◌then◌else◌,
  to_le_bytes, not,
}

pub data HandshakeError : Type 0 where
  not_utf8 invalid_greeting no_version too_old : HandshakeError
  server_error : (line : Bytes) → HandshakeError

pub record Auth : Type 0 where
  pub username : Bytes
  pub password : Bytes

pub record Version : Type 0 where
  pub major : ℕ
  pub minor : Option ℕ

-- `read_line` on what `take` leaves of the stream: up to the end of a line, or of `limit` bytes, or
-- of the stream.
unfoldable pub read_line : ℕ → Bytes → Bytes × Bytes
read_line limit [] = ([], [])
read_line zero (c ∷ cs) = ([], c ∷ cs)
read_line (suc limit) (c ∷ cs) =
    let (line, rest) = read_line limit cs in if c == 10 then (c ∷ [], cs) else (c ∷ line, rest)

abbrev pub strip_prefix : Bytes → Bytes → Option Bytes
strip_prefix [] line = some line
strip_prefix (p ∷ ps) [] = none
strip_prefix (p ∷ ps) (c ∷ cs) = if p == c then strip_prefix ps cs else none

-- `@ERROR`, `@RSYNCD: AUTHREQD `, `@RSYNCD: OK` and `@RSYNCD: `.
abbrev pub error_prefix : Bytes
error_prefix = 64 ∷ 69 ∷ 82 ∷ 82 ∷ 79 ∷ 82 ∷ []

abbrev pub rsyncd_prefix : Bytes
rsyncd_prefix = 64 ∷ 82 ∷ 83 ∷ 89 ∷ 78 ∷ 67 ∷ 68 ∷ 58 ∷ 32 ∷ []

abbrev pub auth_prefix : Bytes
auth_prefix = rsyncd_prefix ++ (65 ∷ 85 ∷ 84 ∷ 72 ∷ 82 ∷ 69 ∷ 81 ∷ 68 ∷ 32 ∷ [])

abbrev pub ok_prefix : Bytes
ok_prefix = rsyncd_prefix ++ (79 ∷ 75 ∷ [])

abbrev pub line_end : Bytes
line_end = 10 ∷ []

-- What a line of the server is taken for.
pub data Said : Type 0 where
  said_error said_ok said_text : Said
  said_auth : (challenge : Bytes) → Said

abbrev pub auth_or : Option Bytes → Said → Said
auth_or (some challenge) other = said_auth challenge
auth_or none other = other

abbrev pub is_prefixed : Option Bytes → Bool
is_prefixed none = false
is_prefixed (some rest) = true

unfoldable pub said_in : Bytes → Said
said_in line =
    if is_prefixed (strip_prefix error_prefix line)
    then said_error
    else auth_or (strip_prefix auth_prefix line)
        (if is_prefixed (strip_prefix ok_prefix line) then said_ok else said_text)

-- Where the loop is: it goes on with what is left, or it has ended.
pub data Exchange : Type 0 where
  reading accepted : (rx tx : Bytes) → Exchange
  refused : HandshakeError → Exchange

-- Other crates' and the standard library's: UTF-8, white space, scanning a version, MD4 and base64.
module _ (is_utf8 : Bytes → Bool) (trim : Bytes → Bytes) (scan_version : Bytes → Option Version)
    (md4 encode : Bytes → Bytes) (auth : Auth) where
  -- `Auth::challenge`
  unfoldable pub challenge : Bytes → Bytes
  challenge text =
      auth.username ++ (32 ∷ encode (md4 ((0 ∷ 0 ∷ 0 ∷ 0 ∷ []) ++ (auth.password ++ text))))

  abbrev pub on_said : Said → Bytes → Bytes → Bytes → Exchange
  on_said said_error line rest tx = refused (server_error line)
  on_said (said_auth text) line rest tx = reading rest (tx ++ (challenge (trim text) ++ line_end))
  on_said said_ok line rest tx = accepted rest tx
  on_said said_text line rest tx = reading rest tx

  abbrev pub on_line : Bytes → Bytes → Bytes → Exchange
  on_line line rest tx = on_said (said_in line) line rest tx

  -- A round of the loop that reads the message of the day.
  unfoldable pub motd_round : Bytes → Bytes → Exchange
  motd_round rx tx =
      let (line, rest) = read_line 1024 rx in
      if is_utf8 line then on_line line rest tx else refused not_utf8

  abbrev pub more_rounds : Exchange → (Bytes → Bytes → Exchange) → Exchange
  more_rounds (reading rx tx) next = next rx tx
  more_rounds (accepted rx tx) next = accepted rx tx
  more_rounds (refused e) next = refused e

  -- So many rounds of it.
  unfoldable pub motd_loop : ℕ → Bytes → Bytes → Exchange
  motd_loop zero rx tx = reading rx tx
  motd_loop (suc rounds) rx tx = more_rounds (motd_round rx tx) (motd_loop rounds)

  -- `Version::read_from`
  unfoldable pub read_version : Bytes → Result HandshakeError (Version × Bytes)
  read_version rx =
      let (greeting, rest) = read_line 128 rx in
      do
        ensure (is_utf8 greeting) not_utf8
        elim (strip_prefix rsyncd_prefix (trim greeting)) [
          | none ↦ err invalid_greeting
          | some protocol_header ↦ elim (scan_version protocol_header) [
            | none ↦ err no_version
            | some version ↦ ok (version, rest)
          ]
        ]

  abbrev pub send_lines : List Bytes → Bytes
  send_lines [] = []
  send_lines (l ∷ ls) = l ++ (line_end ++ send_lines ls)

  -- `--server`, `--sender`, `-ltpr`, `.` and the path.
  abbrev pub options : Bytes → List Bytes
  options path =
      (45 ∷ 45 ∷ 115 ∷ 101 ∷ 114 ∷ 118 ∷ 101 ∷ 114 ∷ [])
      ∷ (45 ∷ 45 ∷ 115 ∷ 101 ∷ 110 ∷ 100 ∷ 101 ∷ 114 ∷ [])
      ∷ (45 ∷ 108 ∷ 116 ∷ 112 ∷ 114 ∷ [])
      ∷ (46 ∷ [])
      ∷ path
      ∷ []

  -- `@RSYNCD: 27`
  abbrev pub supported_version : Bytes
  supported_version = rsyncd_prefix ++ (50 ∷ 55 ∷ line_end)

  abbrev pub after_motd : Bytes → Exchange → Exchange
  after_motd path (reading rx tx) = reading rx tx
  after_motd path (accepted rx tx) = accepted rx (tx ++ (send_lines (options path) ++ line_end))
  after_motd path (refused e) = refused e

  -- With so many rounds for the message of the day: on a stream that ends without an answer, no
  -- number of them is enough.
  unfoldable pub start_inband_exchange : ℕ → Bytes → Bytes → Bytes → Exchange
  start_inband_exchange rounds modul path rx = elim (read_version rx) [
    | err e ↦ refused e
    | fault ↦ refused no_version
    | ok (remote_protocol, rest) ↦
        if ltb remote_protocol.major 27
        then refused too_old
        else after_motd path (motd_loop rounds rest (supported_version ++ (modul ++ line_end)))
  ]

pub data Rule : Type 0 where
  exclude include : (path : Bytes) → Rule

-- `Rule::to_command`
unfoldable pub to_command : Rule → Bytes
to_command (exclude path) = 45 ∷ 32 ∷ path
to_command (include path) = 43 ∷ 32 ∷ path

-- What `send_filter_rules` writes; a rule that is too long is a panic.
unfoldable pub send_filter_rules : List Rule → Result HandshakeError Bytes
send_filter_rules [] = ok (to_le_bytes 4 0)
send_filter_rules (rule ∷ rules) = do
  assert (ltb (length (to_command rule)) 2147483648)
  rest ← send_filter_rules rules
  ok (to_le_bytes 4 (length (to_command rule)) ++ (to_command rule ++ rest))
