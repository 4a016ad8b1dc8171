-- ===== src/Prelude/Digits.antt =====
-- Numbers as text: `str(n)` and `format(n, "x")`.
use Prim.Native.Nat.{ℕ, zero, suc, ◌+◌, ◌/◌, ◌%◌}
use mathlib.Core.List.{[], ◌∷◌, ◌++◌}
use pcc_gateway.Prelude.Tests.{ltb, if◌then◌else◌}
use pcc_gateway.Prelude.Strings.{Text}

-- 0-9 and a-f
unfoldable pub digit_char : ℕ → ℕ
digit_char d = if ltb d 10 then 48 + d else 87 + d

-- Each round divides by the base, so `suc n` rounds are more than enough for `n`.
unfoldable pub digits_loop : ℕ → ℕ → ℕ → Text
unfolding digit_char
digits_loop zero base n = []
digits_loop (suc fuel) base n =
    let before = digits_loop fuel base (n / base) in
    if ltb n base then digit_char n ∷ [] else before ++ digit_char (n % base) ∷ []

unfoldable pub decimal : ℕ → Text
unfolding digits_loop
decimal n = digits_loop (suc n) 10 n

unfoldable pub hex : ℕ → Text
unfolding digits_loop
hex n = digits_loop (suc n) 16 n
