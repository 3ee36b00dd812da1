-- ===== src/Prelude/Words.antt =====
-- Machine words as numbers: `wrapping_add` and the like are `% 2 ^ w`, and an `i32` is held as its
-- bit pattern, a `u32`. Words on the wire are little-endian.
use Prim.Native.Nat.{ℕ, zero, suc, ◌+◌, ◌-◌, ◌*◌, ◌/◌, ◌%◌, ◌<◌}
use mathlib.Core.Path.{◌≡◌, refl, ap}
use mathlib.Core.List.{[], ◌∷◌}
use native.Mathlib.Omega.{arith}
use rsync_sjtug.Prelude.ByteStrings.{Bytes, IsByte}
use rsync_sjtug.Prelude.Lists.{length, All}

abbrev pub u32_mod : ℕ
u32_mod = 4294967296

abbrev pub u64_mod : ℕ
u64_mod = 18446744073709551616

abbrev pub IsU32 : ℕ → Type 0
IsU32 n = n < u32_mod

abbrev pub IsU64 : ℕ → Type 0
IsU64 n = n < u64_mod

-- The bit pattern of an `i32` is negative from here on.
abbrev pub i32_min : ℕ
i32_min = 2147483648

abbrev pub add32 : ℕ → ℕ → ℕ
add32 a b = (a + b) % u32_mod

abbrev pub sub32 : ℕ → ℕ → ℕ
sub32 a b = (a + u32_mod - b) % u32_mod

abbrev pub mul32 : ℕ → ℕ → ℕ
mul32 a b = a * b % u32_mod

-- `to_le_bytes` of a word of so many bytes.
unfoldable pub to_le_bytes : ℕ → ℕ → Bytes
to_le_bytes zero n = []
to_le_bytes (suc k) n = n % 256 ∷ to_le_bytes k (n / 256)

unfoldable pub from_le_bytes : Bytes → ℕ
from_le_bytes [] = 0
from_le_bytes (b ∷ bs) = b + 256 * from_le_bytes bs

pub length-to_le_bytes : (k n : ℕ) → length (to_le_bytes k n) ≡ k
unfolding to_le_bytes
length-to_le_bytes zero n = refl
length-to_le_bytes (suc k) n = ap suc (length-to_le_bytes k (n / 256))

pub to_le_bytes-IsByte : (k n : ℕ) → All IsByte (to_le_bytes k n)
unfolding to_le_bytes
to_le_bytes-IsByte zero n = tt
to_le_bytes-IsByte (suc k) n = (omega arith, to_le_bytes-IsByte k (n / 256))

-- Reading back four bytes, or eight.
pub from_le_bytes-u32 : (n : ℕ) → IsU32 n → from_le_bytes (to_le_bytes 4 n) ≡ n
unfolding to_le_bytes from_le_bytes
from_le_bytes-u32 n h = omega arith

pub from_le_bytes-u64 : (n : ℕ) → IsU64 n → from_le_bytes (to_le_bytes 8 n) ≡ n
unfolding to_le_bytes from_le_bytes
from_le_bytes-u64 n h = omega arith
