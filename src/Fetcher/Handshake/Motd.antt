-- ===== src/Fetcher/Handshake/Motd.antt =====
-- rsync-fetcher/src/rsync/handshake.rs: how the loop over the server's lines ends, or does not.
use rsync_sjtug.Prelude.{
  ℕ, zero, suc, ◌+◌, ◌≡◌, refl, sym, ap, ◌∙◌, Bool, true, false, Option, none, some, Option-cases,
  inl, inr, List, [], ◌∷◌, ◌++◌, append_assoc, All, Bytes, concat, length, ◌==◌, if◌then◌else◌,
  arith,
}
use mathlib.Core.Path.{subst}
use rsync_sjtug.Fetcher.Handshake.{
  strip_prefix, not_utf8, server_error, Auth, Version, read_line, said_error, said_text, said_in,
  Exchange, reading, refused, on_said, more_rounds, on_line, motd_round, motd_loop,
}

-- A line with its end, which is its first, and no longer than the limit.
abbrev pub IsLine : ℕ → Bytes → Type 0
IsLine limit [] = ⊥
IsLine zero (c ∷ cs) = ⊥
IsLine (suc limit) (c ∷ cs) = if c == 10 then cs ≡ [] else IsLine limit cs

read_line-IsLine :
    (limit : ℕ) (line rest : Bytes)
    → IsLine limit line
    → read_line limit (line ++ rest) ≡ (line, rest)
unfolding read_line
read_line-IsLine limit [] rest h = absurd h
read_line-IsLine zero (c ∷ cs) rest h = absurd h
read_line-IsLine (suc limit) (c ∷ cs) rest h = go (c == 10) (read_line-IsLine limit cs rest) h
  where
    go :
        (b : Bool)
        → (IsLine limit cs → read_line limit (cs ++ rest) ≡ (cs, rest))
        → (if b then cs ≡ [] else IsLine limit cs)
        → ◌≡◌ {A = Bytes × Bytes}
            (if b
              then (c ∷ [], cs ++ rest)
              else (c ∷ (read_line limit (cs ++ rest)).0, (read_line limit (cs ++ rest)).1))
            (c ∷ cs, rest)
    go true more h' =
        subst (λ q. ◌≡◌ {A = Bytes × Bytes} (c ∷ [], q ++ rest) (c ∷ q, rest)) (sym h') refl
    go false more h' = ap (λ (p : Bytes × Bytes). (c ∷ p.0, p.1)) (more h')

-- The line begins so.
abbrev pub Begins : Bytes → Bytes → Type 0
Begins start line = (rest : Bytes) × (line ≡ start ++ rest)

-- `@ERROR`
abbrev pub at_error : Bytes
at_error = 64 ∷ 69 ∷ 82 ∷ 82 ∷ 79 ∷ 82 ∷ []

-- `@RSYNCD: AUTHREQD `
abbrev pub at_auth : Bytes
at_auth =
    64 ∷ 82 ∷ 83 ∷ 89 ∷ 78 ∷ 67 ∷ 68 ∷ 58 ∷ 32 ∷ 65 ∷ 85 ∷ 84 ∷ 72 ∷ 82 ∷ 69 ∷ 81 ∷ 68 ∷ 32 ∷ []

-- `@RSYNCD: OK`
abbrev pub at_ok : Bytes
at_ok = 64 ∷ 82 ∷ 83 ∷ 89 ∷ 78 ∷ 67 ∷ 68 ∷ 58 ∷ 32 ∷ 79 ∷ 75 ∷ []

strip_prefix-Begins :
    (start line rest : Bytes) → strip_prefix start line ≡ some rest → line ≡ start ++ rest
strip_prefix-Begins [] line rest e = cc
strip_prefix-Begins (p ∷ ps) [] rest e = cc
strip_prefix-Begins (p ∷ ps) (c ∷ cs) rest e = ground (arith, strip_prefix-Begins ps cs rest)

strip_prefix-none : (start line : Bytes) → ¬ Begins start line → strip_prefix start line ≡ none
strip_prefix-none start line n = elim (Option-cases (strip_prefix start line)) [
  | inl e ↦ e
  | inr (rest, e) ↦ absurd (n (rest, strip_prefix-Begins start line rest e))
]

said_in-error : (text : Bytes) → said_in (at_error ++ text) ≡ said_error
unfolding said_in
said_in-error text = refl

said_in-text :
    (line : Bytes)
    → ¬ Begins at_error line
    → ¬ Begins at_auth line
    → ¬ Begins at_ok line
    → said_in line ≡ said_text
unfolding said_in
said_in-text line e a o =
    rw
      (
        strip_prefix-none at_error line e,
        strip_prefix-none at_auth line a,
        strip_prefix-none at_ok line o,
      )
      refl

module _ (is_utf8 : Bytes → Bool) (trim : Bytes → Bytes) (scan_version : Bytes → Option Version)
    (md4 encode : Bytes → Bytes) (auth : Auth) where
  -- A line that neither says an error, nor asks for a password, nor accepts.
  abbrev pub IsText : Bytes → Type 0
  IsText line =
      IsLine 1024 line
      × (is_utf8 line ≡ true)
      × (¬ Begins at_error line)
      × (¬ Begins at_auth line)
      × (¬ Begins at_ok line)

  motd_round-line :
      (line rest tx : Bytes)
      → IsLine 1024 line
      → is_utf8 line ≡ true
      → motd_round is_utf8 trim scan_version md4 encode auth (line ++ rest) tx
        ≡ on_line is_utf8 trim scan_version md4 encode auth line rest tx
  unfolding motd_round
  motd_round-line line rest tx l u =
      ap
        (λ (p : Bytes × Bytes).
          if is_utf8 p.0
          then on_line is_utf8 trim scan_version md4 encode auth p.0 p.1 tx
          else refused not_utf8)
        (read_line-IsLine 1024 line rest l)
      ∙ ap
          (λ b.
            if b
            then on_line is_utf8 trim scan_version md4 encode auth line rest tx
            else refused not_utf8)
          u

  motd_round-text :
      (line rest tx : Bytes)
      → IsText line
      → motd_round is_utf8 trim scan_version md4 encode auth (line ++ rest) tx ≡ reading rest tx
  motd_round-text line rest tx (l, u, e, a, o) =
      motd_round-line line rest tx l u
      ∙ ap (λ k. on_said is_utf8 trim scan_version md4 encode auth k line rest tx)
          (said_in-text line e a o)

  motd_loop-texts :
      (lines : List Bytes) (n : ℕ) (rest tx : Bytes)
      → All IsText lines
      → motd_loop is_utf8 trim scan_version md4 encode auth
          (length lines + n)
          (concat lines ++ rest)
          tx
        ≡ motd_loop is_utf8 trim scan_version md4 encode auth n rest tx
  unfolding motd_loop
  motd_loop-texts [] n rest tx h =
      ap (λ k. motd_loop is_utf8 trim scan_version md4 encode auth k rest tx) (zero_plus n)
    where
      zero_plus : (k : ℕ) → 0 + k ≡ k
      zero_plus k = omega arith
  motd_loop-texts (line ∷ lines) n rest tx h =
      ap
        (λ k.
          motd_loop is_utf8 trim scan_version md4 encode auth k (concat (line ∷ lines) ++ rest) tx)
        (suc_plus (length lines) n)
      ∙ ap (λ b. motd_loop is_utf8 trim scan_version md4 encode auth (suc (length lines + n)) b tx)
          (append_assoc line (concat lines) rest)
      ∙ ap
          (λ (e : Exchange).
            more_rounds is_utf8 trim scan_version md4 encode auth e
              (motd_loop is_utf8 trim scan_version md4 encode auth (length lines + n)))
          (motd_round-text line (concat lines ++ rest) tx h.0)
      ∙ motd_loop-texts lines n rest tx h.1
    where
      suc_plus : (a b : ℕ) → suc a + b ≡ suc (a + b)
      suc_plus a b = omega arith

  -- If the server sends lines that begin with none of `@ERROR`, `@RSYNCD: AUTHREQD ` and
  -- `@RSYNCD: OK`, and then one that begins with `@ERROR`, then the exchange is refused with that line
  --, whatever follows and however many rounds more there would be.
  pub motd_loop-server_error :
      (lines : List Bytes) (text rest tx : Bytes) (n : ℕ)
      → All IsText lines
      → IsLine 1024 (at_error ++ text)
      → is_utf8 (at_error ++ text) ≡ true
      → motd_loop is_utf8 trim scan_version md4 encode auth
          (length lines + suc n)
          (concat lines ++ ((at_error ++ text) ++ rest))
          tx
        ≡ refused (server_error (at_error ++ text))
  unfolding motd_loop
  motd_loop-server_error lines text rest tx n h l u =
      motd_loop-texts lines (suc n) ((at_error ++ text) ++ rest) tx h
      ∙ ap
          (λ (e : Exchange).
            more_rounds is_utf8 trim scan_version md4 encode auth e
              (motd_loop is_utf8 trim scan_version md4 encode auth n))
          (motd_round-line (at_error ++ text) rest tx l u
            ∙ ap
                (λ k.
                  on_said is_utf8 trim scan_version md4 encode auth k (at_error ++ text) rest tx)
                (said_in-error text))

  motd_loop-end :
      (n : ℕ) (tx : Bytes)
      → is_utf8 [] ≡ true
      → motd_loop is_utf8 trim scan_version md4 encode auth n [] tx ≡ reading [] tx
  unfolding motd_loop motd_round read_line said_in
  motd_loop-end zero tx u = refl
  motd_loop-end (suc n) tx u =
      ap
        (λ b.
          more_rounds is_utf8 trim scan_version md4 encode auth
            (if b then reading [] tx else refused not_utf8)
            (motd_loop is_utf8 trim scan_version md4 encode auth n))
        u
      ∙ motd_loop-end n tx u

  -- If the server sends lines that begin with none of `@ERROR`, `@RSYNCD: AUTHREQD ` and
  -- `@RSYNCD: OK`, and closes the connection, then after any number of rounds the loop is still
  -- reading: it does not notice the end of the stream.
  pub motd_loop-reading :
      (lines : List Bytes) (tx : Bytes) (n : ℕ)
      → All IsText lines
      → is_utf8 [] ≡ true
      → (rx : Bytes) × (motd_loop is_utf8 trim scan_version md4 encode auth n (concat lines) tx
          ≡ reading rx tx)
  unfolding motd_loop
  motd_loop-reading lines tx zero h u = (concat lines, refl)
  motd_loop-reading [] tx (suc n) h u = ([], motd_loop-end (suc n) tx u)
  motd_loop-reading (line ∷ lines) tx (suc n) h u =
      let (rx, e) = motd_loop-reading lines tx n h.1 u in
      (
        rx,
        ap
              (λ (e : Exchange).
                more_rounds is_utf8 trim scan_version md4 encode auth e
                  (motd_loop is_utf8 trim scan_version md4 encode auth n))
              (motd_round-text line (concat lines) tx h.0)
            ∙ e,
      )
