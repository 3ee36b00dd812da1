-- ===== src/Fetcher/Checksum/Rolling.antt =====
-- The fast checksum against the sums of the original rsync, which adds up the running first sum.
use rsync_sjtug.Prelude.{
  ℕ, suc, ◌+◌, ◌*◌, ◌%◌, ◌<◌, ◌≡◌, ap, ◌∙◌, [], ◌∷◌, Bytes, ok, length, add32, sub32, mul32,
  u32_mod, IsU32, ltb, Result, if◌then◌else◌, arith, lt→ltb,
}
use native.Mathlib.Nat.{mod-eq_of_lt, div-add-mod}
use rsync_sjtug.Fetcher.Stream.{Error}
use rsync_sjtug.Fetcher.Checksum.{sign_extend, checksum_1_loop, checksum_1, combine}

-- The original adds up `signed char`s on words of 32 bits: a byte from 128 on counts as the byte less
-- 256, which is 2 ^ 32 - 256 more on words.
abbrev pub signed_char : ℕ → ℕ
signed_char x = if ltb x 128 then x else (x + 4294967040)

-- `s1 += b; s2 += s1`, over the signed bytes, on words.
unfoldable pub running_sums : ℕ → ℕ → Bytes → ℕ × ℕ
running_sums s1 s2 [] = (s1, s2)
running_sums s1 s2 (x ∷ buf) =
    let s1' = (s1 + signed_char x) % 4294967296 in running_sums s1' ((s2 + s1') % 4294967296) buf

plain : Bytes → ℕ
plain [] = 0
plain (x ∷ buf) = sign_extend x + plain buf

weighted : Bytes → ℕ
weighted [] = 0
weighted (x ∷ buf) = sign_extend x * length (x ∷ buf) + weighted buf

-- A product may be reduced in a factor, and a sum in a term.
mul-mod : (a l c : ℕ) → (a % u32_mod * l + c) % u32_mod ≡ (a * l + c) % u32_mod
mul-mod a l c = omega (arith, ap (λ (t : ℕ). t * l) (div-add-mod a u32_mod))

add_product : (s2 p w : ℕ) → ((s2 + p % u32_mod) % u32_mod + w) % u32_mod ≡ (s2 + (p + w)) % u32_mod
add_product s2 p w = omega arith

add_running :
    (s1 s2 e l w : ℕ)
    → ((s2 + (s1 + e) % u32_mod) % u32_mod + (s1 + e) % u32_mod * l + w) % u32_mod
      ≡ (s2 + s1 * suc l + (e * suc l + w)) % u32_mod
add_running s1 s2 e l w = omega (arith, mul-mod (s1 + e) l (s2 + (s1 + e) + w))

pair_eq : {a b c d : ℕ} → a ≡ c → b ≡ d → ◌≡◌ {A = ℕ × ℕ} (a, b) (c, d)
pair_eq p q = cc

running_sums-mod :
    (s1 s2 : ℕ) (buf : Bytes)
    → IsU32 s1
    → IsU32 s2
    → running_sums s1 s2 buf
      ≡ ((s1 + plain buf) % u32_mod, (s2 + s1 * length buf + weighted buf) % u32_mod)
unfolding running_sums plain weighted
running_sums-mod s1 s2 [] h1 h2 = ground (arith, mod-eq_of_lt h1, mod-eq_of_lt h2)
running_sums-mod s1 s2 (x ∷ buf) h1 h2 =
    running_sums-mod (add32 s1 (sign_extend x)) (add32 s2 (add32 s1 (sign_extend x))) buf
      (omega arith) (omega arith)
    ∙ pair_eq (omega arith) (add_running s1 s2 (sign_extend x) (length buf) (weighted buf))

factor : (len idx k : ℕ) → idx + suc k ≡ len → len < u32_mod → sub32 len (idx % u32_mod) ≡ suc k
factor len idx k e h = omega arith

checksum_1_loop-mod :
    (len idx s1 s2 : ℕ) (buf : Bytes)
    → idx + length buf ≡ len
    → len < u32_mod
    → IsU32 s1
    → IsU32 s2
    → checksum_1_loop len idx s1 s2 buf
      ≡ ((s1 + plain buf) % u32_mod, (s2 + weighted buf) % u32_mod)
unfolding checksum_1_loop plain weighted
checksum_1_loop-mod len idx s1 s2 [] e h h1 h2 = ground (arith, mod-eq_of_lt h1, mod-eq_of_lt h2)
checksum_1_loop-mod len idx s1 s2 (x ∷ buf) e h h1 h2 = rw (factor len idx (length buf) e h) (
    checksum_1_loop-mod len (idx + 1) (add32 s1 (sign_extend x))
      (add32 s2 (mul32 (sign_extend x) (suc (length buf)))) buf (omega arith) h (omega arith)
      (omega arith)
    ∙ pair_eq (omega arith) (add_product s2 (sign_extend x * suc (length buf)) (weighted buf)))

zero_term : (l w : ℕ) → 0 + 0 * l + w ≡ 0 + w
zero_term l w = omega arith

abbrev okay : ℕ → Result Error ℕ
okay n = ok n

-- The low halves of the two sums in a word: the first below the second.
abbrev pub halves : ℕ × ℕ → ℕ
halves (s1, s2) = s1 % 65536 + 65536 * (s2 % 65536)

combine-halves : (s1 s2 : ℕ) → combine (s1, s2) ≡ halves (s1, s2)
combine-halves s1 s2 = omega arith

-- On a block of less than 2 ^ 32 bytes the fast checksum is the low half of the running sum of the
-- signed bytes and, above it, the low half of the sum of running sums, on words of 32 bits.
pub checksum_1-running_sums :
    (buf : Bytes) → length buf < u32_mod → checksum_1 buf ≡ ok (halves (running_sums 0 0 buf))
unfolding checksum_1
checksum_1-running_sums buf h =
    rw
      (
        lt→ltb _ _ h,
        checksum_1_loop-mod (length buf) 0 0 0 buf (omega arith) h (omega arith) (omega arith),
        running_sums-mod 0 0 buf (omega arith) (omega arith),
        zero_term,
      )
      (ap okay (combine-halves _ _))
