-- ===== src/Prelude/Results.antt =====
-- Fallible code. `fault` is a panic of the source: a failed `expect`, `assert!` or index.
use mathlib.Core.Path.{subst, ◌≡◌, refl}
use mathlib.Core.Bool.{Bool, true, false}

pub data Result {ℓ κ} (E : Type κ) (A : Type ℓ) : Type (ℓ ⊔ κ) where
  ok : A → Result E A
  err : E → Result E A
  fault : Result E A

infixl 5 ◌>>=◌ ◌>>◌
abbrev pub ◌>>=◌ {ℓ κ ν} :
    {E : Type ν} {A : Type ℓ} {B : Type κ} → Result E A → (A → Result E B) → Result E B
ok a >>= f = f a
err e >>= f = err e
fault >>= f = fault

abbrev pub ◌>>◌ {ℓ ν} : {E : Type ν} {B : Type ℓ} → Result E (Unit {0}) → Result E B → Result E B
m >> k = m >>= λ _. k

-- `ensure!(b, e)`
abbrev pub ensure {ν} : {E : Type ν} → Bool → E → Result E (Unit {0})
ensure true e = ok tt
ensure false e = err e

-- `assert!(b)`
abbrev pub assert {ν} : {E : Type ν} → Bool → Result E (Unit {0})
assert true = ok tt
assert false = fault

pub >>=_assoc {ℓ κ μ ν} :
    {E : Type ν} {A : Type ℓ} {B : Type κ} {C : Type μ} (m : Result E A) (f : A → Result E B)
    (g : B → Result E C)
    → ((m >>= f) >>= g) ≡ (m >>= λ a. f a >>= g)
>>=_assoc (ok a) f g = refl
>>=_assoc (err e) f g = refl
>>=_assoc fault f g = refl

-- A bind depends on its continuation pointwise.
pub >>=_congr {ℓ κ ν} :
    {E : Type ν} {A : Type ℓ} {B : Type κ} (m : Result E A) (f g : A → Result E B)
    → ((a : A) → m ≡ ok a → f a ≡ g a)
    → (m >>= f) ≡ (m >>= g)
>>=_congr (ok a) f g h = h a refl
>>=_congr (err e) f g h = refl
>>=_congr fault f g h = refl

-- Inversion of a successful bind.
pub >>=-eq-ok {ℓ κ ν} :
    {E : Type ν} {A : Type ℓ} {B : Type κ} (r : Result E A) (k : A → Result E B) {c : B}
    → (r >>= k) ≡ ok c
    → (x : A) × (r ≡ ok x) × (k x ≡ ok c)
>>=-eq-ok fault k e = cc
>>=-eq-ok (err why) k e = cc
>>=-eq-ok (ok x) k e = (x, refl, e)

-- What holds of the value, where there is one.
abbrev pub Leaves {ℓ κ ν} : {E : Type ν} {A : Type ℓ} → (A → Type κ) → Result E A → Type κ
Leaves P (ok a) = P a
Leaves P (err e) = Unit
Leaves P fault = Unit

pub Leaves-bind {ℓ ℓ' κ κ' ν} :
    {E : Type ν} {A : Type ℓ} {B : Type ℓ'} (P : A → Type κ) (Q : B → Type κ') (m : Result E A)
    (f : A → Result E B)
    → Leaves P m
    → ((a : A) → P a → Leaves Q (f a))
    → Leaves Q (m >>= f)
Leaves-bind P Q (ok a) f p g = g a p
Leaves-bind P Q (err e) f p g = tt
Leaves-bind P Q fault f p g = tt

pub Leaves-ok {ℓ κ ν} :
    {E : Type ν} {A : Type ℓ} (P : A → Type κ) (m : Result E A) {a : A}
    → Leaves P m
    → m ≡ ok a
    → P a
Leaves-ok P (ok a) p e = subst P (cc) p
Leaves-ok P (err why) p e = cc
Leaves-ok P fault p e = cc

pub Leaves-any {ℓ ν} : {E : Type ν} {A : Type ℓ} (m : Result E A) → Leaves (λ _. Unit {0}) m
Leaves-any (ok a) = tt
Leaves-any (err e) = tt
Leaves-any fault = tt

pub Leaves-weaken {ℓ κ κ' ν} :
    {E : Type ν} {A : Type ℓ} (P : A → Type κ) (Q : A → Type κ') (m : Result E A)
    → Leaves P m
    → ((a : A) → P a → Q a)
    → Leaves Q m
Leaves-weaken P Q (ok a) p f = f a p
Leaves-weaken P Q (err e) p f = tt
Leaves-weaken P Q fault p f = tt

-- A value is the value of its result.
pub Leaves-self {ℓ ν} : {E : Type ν} {A : Type ℓ} (m : Result E A) → Leaves (λ a. m ≡ ok a) m
Leaves-self (ok a) = refl
Leaves-self (err e) = tt
Leaves-self fault = tt
