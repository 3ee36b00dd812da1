-- ===== src/Tests/Handshakes.antt =====
-- What a server says before the transfer, and the filter rules; rsync-fetcher/src/rsync/handshake.rs.
use rsync_sjtug.Prelude.{
  ℕ, arith, ◌≡◌, refl, true, Bool, Option, some, List, [], ◌∷◌, ◌++◌, All, Bytes, ok, to_le_bytes,
}
use rsync_sjtug.Fetcher.Handshake.{
  server_error, Auth, Version, read_line, said_in, reading, accepted, refused, error_prefix,
  ok_prefix, auth_prefix, rsyncd_prefix, challenge, motd_round, motd_loop, read_version,
  start_inband_exchange, Rule, exclude, include, to_command, send_filter_rules,
}
use rsync_sjtug.Fetcher.Handshake.Motd.{IsText, motd_loop-server_error, motd_loop-reading}
use rsync_sjtug.Fetcher.Handshake.Rules.{read_rules, read_rules-send_filter_rules}

program : Unit {0}
unfolding read_line said_in challenge motd_round motd_loop read_version start_inband_exchange
    to_command send_filter_rules to_le_bytes
program = tt

abbrev valid : Bytes → Bool
valid b = true

abbrev same : Bytes → Bytes
same b = b

abbrev scan : Bytes → Option Version
scan b = some (record { major = 31; minor = some 0 })

abbrev nobody : Auth
nobody = record { username = 110 ∷ []; password = [] }

abbrev welcome : Bytes
welcome = 104 ∷ 105 ∷ 10 ∷ []

abbrev refusal : Bytes
refusal = error_prefix ++ (58 ∷ 10 ∷ [])

-- A greeting, a message, a challenge and the acceptance.
abbrev server : Bytes
server =
    (rsyncd_prefix ++ (51 ∷ 49 ∷ 46 ∷ 48 ∷ 10 ∷ []))
    ++ (welcome ++ ((auth_prefix ++ (120 ∷ 10 ∷ [])) ++ (ok_prefix ++ (10 ∷ 1 ∷ []))))

exchanged :
    start_inband_exchange valid same scan same same nobody 5 (109 ∷ []) (112 ∷ []) server
    ≡ accepted (1 ∷ []) (
        (rsyncd_prefix ++ (50 ∷ 55 ∷ 10 ∷ 109 ∷ 10 ∷ []))
        ++ ((110 ∷ 32 ∷ 0 ∷ 0 ∷ 0 ∷ 0 ∷ 120 ∷ 10 ∷ 10 ∷ [])
            ++ (45 ∷ 45 ∷ 115 ∷ 101 ∷ 114 ∷ 118 ∷ 101 ∷ 114 ∷ 10 ∷ 45 ∷ 45 ∷ 115 ∷ 101 ∷ 110 ∷ 100
                ∷ 101 ∷ 114 ∷ 10 ∷ 45 ∷ 108 ∷ 116 ∷ 112 ∷ 114 ∷ 10 ∷ 46 ∷ 10 ∷ 112 ∷ 10 ∷ 10 ∷ [])))
unfolding program
exchanged = refl

not_at : (rest : Bytes) → welcome ≡ 64 ∷ rest → ⊥
not_at rest e = differ (cc)
  where
    differ : ◌≡◌ {A = ℕ} 104 64 → ⊥
    differ h = omega arith

lines-IsText : All (IsText valid same scan same same nobody) (welcome ∷ [])
lines-IsText = ((refl, refl, λ (r, e). not_at _ e, λ (r, e). not_at _ e, λ (r, e). not_at _ e), tt)

motd_loop-server_error_example :
    motd_loop valid same scan same same nobody 3 (welcome ++ (refusal ++ (7 ∷ []))) []
    ≡ refused (server_error refusal)
motd_loop-server_error_example =
    motd_loop-server_error valid same scan same same nobody (welcome ∷ []) (58 ∷ 10 ∷ []) (7 ∷ [])
      [] 1 lines-IsText refl refl

motd_loop-reading_example :
    (rx : Bytes) × (motd_loop valid same scan same same nobody 1000 welcome [] ≡ reading rx [])
motd_loop-reading_example =
    motd_loop-reading valid same scan same same nobody (welcome ∷ []) [] 1000 lines-IsText refl

abbrev rules : List Rule
rules = exclude (97 ∷ []) ∷ include (98 ∷ 99 ∷ []) ∷ []

rules_sent :
    send_filter_rules rules
    ≡ ok (3 ∷ 0 ∷ 0 ∷ 0 ∷ 45 ∷ 32 ∷ 97 ∷ 4 ∷ 0 ∷ 0 ∷ 0 ∷ 43 ∷ 32 ∷ 98 ∷ 99 ∷ 0 ∷ 0 ∷ 0 ∷ 0 ∷ [])
unfolding program
rules_sent = refl

read_rules-send_filter_rules_example :
    read_rules 3
      (3 ∷ 0 ∷ 0 ∷ 0 ∷ 45 ∷ 32 ∷ 97 ∷ 4 ∷ 0 ∷ 0 ∷ 0 ∷ 43 ∷ 32 ∷ 98 ∷ 99 ∷ 0 ∷ 0 ∷ 0 ∷ 0 ∷ 9 ∷ [])
    ≡ ok (rules, 9 ∷ [])
read_rules-send_filter_rules_example = read_rules-send_filter_rules rules (9 ∷ []) rules_sent
