-- ===== src/Fetcher/Handshake/Rules.antt =====
-- rsync-fetcher/src/rsync/filter.rs: the rules can be read back from what is sent.
use rsync_sjtug.Prelude.{
  ℕ, zero, suc, ◌<◌, ◌≡◌, refl, ap, ◌∙◌, Bool, true, false, Option, none, some, List, [], ◌∷◌, ◌++◌,
  append_assoc, Bytes, Result, ok, err, ◌>>=◌, assert, Leaves, Leaves-bind, Leaves-self, Leaves-ok,
  length, ltb, ltb→lt, ◌==◌, to_le_bytes, arith,
}
use rsync_sjtug.Fetcher.Stream.{
  Error, eof, Read, read_exact, read_i32_le, read_i32_le-of, read_exact-of,
}
use rsync_sjtug.Fetcher.Handshake.{
  HandshakeError, strip_prefix, Rule, exclude, include, to_command, send_filter_rules,
}

abbrev included : Option Bytes → Result Error Rule
included none = err eof
included (some path) = ok (include path)

abbrev excluded_or : Option Bytes → Result Error Rule → Result Error Rule
excluded_or none other = other
excluded_or (some path) other = ok (exclude path)

abbrev rule_of : Bytes → Result Error Rule
rule_of command =
    excluded_or (strip_prefix (45 ∷ 32 ∷ []) command)
      (included (strip_prefix (43 ∷ 32 ∷ []) command))

-- What follows a length; 0 ends the rules.
abbrev on_length : Bool → ℕ → Read (List Rule) → Read (List Rule)
on_length true len next s = ok ([], s)
on_length false len next s = do
  (command, s1) ← read_exact len s
  rule ← rule_of command
  (rules, s2) ← next s1
  ok (rule ∷ rules, s2)

-- How a server reads the rules, up to so many and the end.
unfoldable pub read_rules : ℕ → Read (List Rule)
read_rules zero s = err eof
read_rules (suc n) s = read_i32_le s >>= λ (len, s1). on_length (len == 0) len (read_rules n) s1

assert-true : (b : Bool) → assert {E = HandshakeError} b ≡ ok tt → b ≡ true
assert-true true e = refl
assert-true false e = cc

not_zero : (k : ℕ) → (suc k == 0) ≡ false
not_zero k = ground arith

rule_of-to_command : (rule : Rule) → rule_of (to_command rule) ≡ ok rule
unfolding to_command
rule_of-to_command (exclude path) = refl
rule_of-to_command (include path) = refl

some_command : (rule : Rule) → (length (to_command rule) == 0) ≡ false
unfolding to_command
some_command (exclude path) = not_zero (suc (length path))
some_command (include path) = not_zero (suc (length path))

read_one :
    (rule : Rule) (n : ℕ) (bytes rest : Bytes) (rules : List Rule)
    → length (to_command rule) < 2147483648
    → read_rules n (bytes ++ rest) ≡ ok (rules, rest)
    → read_rules
        (suc n)
        ((to_le_bytes 4 (length (to_command rule)) ++ (to_command rule ++ bytes)) ++ rest)
      ≡ ok (rule ∷ rules, rest)
unfolding read_rules
read_one rule n bytes rest rules l e =
    let command = to_command rule in
    let left = command ++ (bytes ++ rest) in
    ap (λ b. read_rules (suc n) b)
      (append_assoc (to_le_bytes 4 (length command)) (command ++ bytes) rest
        ∙ ap (λ b. to_le_bytes 4 (length command) ++ b) (append_assoc command bytes rest))
    ∙ ap
        (λ (m : Result Error (ℕ × Bytes)).
          m >>= λ (len, s1). on_length (len == 0) len (read_rules n) s1)
        (read_i32_le-of (length command) left (omega arith))
    ∙ ap (λ b. on_length b (length command) (read_rules n) left) (some_command rule)
    ∙ ap
        (λ (m : Result Error (Bytes × Bytes)).
          m >>= λ (c, s1). rule_of c >>= λ r. read_rules n s1 >>= λ (rs, s2). ok (r ∷ rs, s2))
        (read_exact-of (length command) command (bytes ++ rest) refl)
    ∙ ap
        (λ (m : Result Error Rule).
          m >>= λ r. read_rules n (bytes ++ rest) >>= λ (rs, s2). ok (r ∷ rs, s2))
        (rule_of-to_command rule)
    ∙ ap (λ (m : Result Error (List Rule × Bytes)). m >>= λ (rs, s2). ok (rule ∷ rs, s2)) e

abbrev IsReadBack : List Rule → Bytes → Type 0
IsReadBack rules bytes =
    (rest : Bytes) → read_rules (suc (length rules)) (bytes ++ rest) ≡ ok (rules, rest)

no_rules : (rest : Bytes) → read_rules 1 (to_le_bytes 4 0 ++ rest) ≡ ok ([], rest)
unfolding read_rules
no_rules rest = rw (read_i32_le-of 0 rest (omega arith)) refl

send_filter_rules-IsReadBack :
    (rules : List Rule) → Leaves (IsReadBack rules) (send_filter_rules rules)
unfolding send_filter_rules
send_filter_rules-IsReadBack [] = λ rest. no_rules rest
send_filter_rules-IsReadBack (rule ∷ rules) =
    Leaves-bind
      (λ u. assert {E = HandshakeError} (ltb (length (to_command rule)) 2147483648) ≡ ok u)
      (IsReadBack (rule ∷ rules)) (assert (ltb (length (to_command rule)) 2147483648)) _
      (Leaves-self _)
      λ u a.
        Leaves-bind (IsReadBack rules) (IsReadBack (rule ∷ rules)) (send_filter_rules rules) _
          (send_filter_rules-IsReadBack rules)
          λ bytes k rest.
            read_one rule (suc (length rules)) bytes rest rules (ltb→lt _ _ (assert-true _ a))
              (k rest)

-- If the rules are sent, which a rule of 2 ^ 31 bytes prevents, then a server that reads as many and
-- the end gets exactly the rules, and what follows them is left.
pub read_rules-send_filter_rules :
    (rules : List Rule) (rest : Bytes) {bytes : Bytes}
    → send_filter_rules rules ≡ ok bytes
    → read_rules (suc (length rules)) (bytes ++ rest) ≡ ok (rules, rest)
read_rules-send_filter_rules rules rest e =
    Leaves-ok (IsReadBack rules) _ (send_filter_rules-IsReadBack rules) e rest
