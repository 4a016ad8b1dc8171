-- ===== src/Prelude/Results.antt =====
-- Calls that may raise: the error is a value.
use mathlib.Core.Path.{◌≡◌, refl}
use mathlib.Core.Bool.{Bool, true, false}
use mathlib.Core.Logic.{◌⊎◌, inl, inr}

pub data Result {ℓ κ} (E : Type ℓ) (A : Type κ) : Type (ℓ ⊔ κ) where
  err : E → Result E A
  ok : A → Result E A

infixl 5 ◌>>◌ ◌>>=◌
-- What a call returned goes to the code after it.
abbrev pub ◌>>=◌ {ε α β} :
    {E : Type ε} {A : Type α} {B : Type β} (call : Result E A) (after : A → Result E B) → Result E B
err raised >>= after = err raised
ok value >>= after = after value

-- A call that returns nothing.
abbrev pub ◌>>◌ {ε β} :
    {E : Type ε} {B : Type β} (call : Result E (Unit {0})) (after : Result E B) → Result E B
call >> after = call >>= λ done. after

-- `if bad: raise error`
abbrev pub raise_if {ℓ} : {E : Type ℓ} → Bool → E → Result E (Unit {0})
raise_if true e = err e
raise_if false e = ok tt

pub Result-cases {ℓ κ} :
    {E : Type ℓ} {A : Type κ} (r : Result E A) → ((a : A) × (r ≡ ok a)) ⊎ ((e : E) × (r ≡ err e))
Result-cases (ok a) = inl (a, refl)
Result-cases (err e) = inr (e, refl)

-- Inversion of a chain that succeeded.
pub >>=-eq-ok {ε α β} :
    {E : Type ε} {A : Type α} {B : Type β} (call : Result E A) (after : A → Result E B) {last : B}
    → (call >>= after) ≡ ok last
    → (first : A) × (call ≡ ok first) × (after first ≡ ok last)
>>=-eq-ok (err raised) after came = cc
>>=-eq-ok (ok value) after came = (value, refl, came)
