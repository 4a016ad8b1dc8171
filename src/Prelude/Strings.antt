-- ===== src/Prelude/Strings.antt =====
-- Bytes and text as lists of numbers: Python's `bytes` by value, and `str` by code points. The
-- gateway's text comes from Latin-1 bytes; `lower`, `upper` and `strip` are exact on that range.
use Prim.Native.Nat.{ℕ, suc, ◌+◌, ◌-◌, ◌*◌}
use Prim.Native.Char.{code}
use Prim.Native.String.{String}
use mathlib.Core.Path.{◌≡◌, refl}
use mathlib.Core.Logic.{◌↔◌}
use mathlib.Core.Bool.{Bool, true, false, ◌&&◌, ◌||◌}
use mathlib.Core.Option.{Option, none, some}
use mathlib.Core.List.{List, [], ◌∷◌, ◌++◌, map}
use native.Mathlib.Omega.{arith}
use pcc_gateway.Prelude.Tests.{◌==◌, between, if◌then◌else◌}
use pcc_gateway.Prelude.Lists.{is_empty}

abbrev pub Text : Type 0
Text = List ℕ

-- The code points of a literal: its bytes, if it is ASCII.
abbrev pub codes : String → Text
codes String.[] = []
codes (String.◌∷◌ c s) = code c ∷ codes s

unfoldable pub text_eq : Text → Text → Bool
text_eq [] [] = true
text_eq [] (y ∷ ys) = false
text_eq (x ∷ xs) [] = false
text_eq (x ∷ xs) (y ∷ ys) = x == y && text_eq xs ys

pub text_eq_iff : (a b : Text) → (text_eq a b ≡ true) ↔ (a ≡ b)
unfolding text_eq
text_eq_iff [] [] = (λ _. refl, λ _. refl)
text_eq_iff [] (y ∷ ys) = (λ h. cc, λ h. cc)
text_eq_iff (x ∷ xs) [] = (λ h. cc, λ h. cc)
text_eq_iff (x ∷ xs) (y ∷ ys) =
    (λ h. ground (arith, text_eq_iff xs ys), λ h. ground (arith, text_eq_iff xs ys))

pub text_eq_refl : (a : Text) → text_eq a a ≡ true
text_eq_refl a = (text_eq_iff a a).1 refl

-- `text in texts`
unfoldable pub text_in : Text → List Text → Bool
text_in t [] = false
text_in t (u ∷ us) = text_eq t u || text_in t us

-- `character in text`
unfoldable pub char_in : ℕ → Text → Bool
char_in c [] = false
char_in c (x ∷ xs) = x == c || char_in c xs

-- `str.lower` of one Latin-1 character: A-Z, and À-Þ without the multiplication sign.
unfoldable pub lower_char : ℕ → ℕ
lower_char c = if between 65 90 c || between 192 214 c || between 216 222 c then c + 32 else c

unfoldable pub lower : Text → Text
unfolding lower_char
lower = map lower_char

-- `str.upper` of one Latin-1 character: the micro sign and y with diaeresis leave the range, and
-- the sharp s becomes two letters.
unfoldable pub upper_char : ℕ → Text
upper_char c =
    if between 97 122 c || between 224 246 c || between 248 254 c
    then (c - 32) ∷ []
    else if c == 223
    then 83 ∷ 83 ∷ []
    else if c == 181
    then 924 ∷ []
    else if c == 255
    then 376 ∷ []
    else c ∷ []

unfoldable pub upper : Text → Text
unfolding upper_char
upper [] = []
upper (c ∷ cs) = upper_char c ++ upper cs

-- `str.isspace` of one Latin-1 character.
unfoldable pub is_space : ℕ → Bool
is_space c = between 9 13 c || between 28 32 c || c == 133 || c == 160

unfoldable pub strip_start : (ℕ → Bool) → Text → Text
strip_start drops [] = []
strip_start drops (c ∷ cs) = if drops c then strip_start drops cs else c ∷ cs

unfoldable pub strip_end : (ℕ → Bool) → Text → Text
strip_end drops [] = []
strip_end drops (c ∷ cs) =
    let rest = strip_end drops cs in if is_empty rest && drops c then [] else c ∷ rest

-- `str.strip`, of the characters that a test picks out.
unfoldable pub strip : (ℕ → Bool) → Text → Text
unfolding strip_start strip_end
strip drops t = strip_end drops (strip_start drops t)

-- `find` of one character.
unfoldable pub find : ℕ → Text → Option ℕ
find c [] = none
find c (x ∷ xs) =
    let rest = find c xs in
    if x == c then some 0 else elim rest [ none ↦ none | some i ↦ some (suc i) ]

unfoldable pub cons_first : ℕ → List Text → List Text
cons_first c [] = (c ∷ []) ∷ []
cons_first c (t ∷ ts) = (c ∷ t) ∷ ts

-- `split` at one character; there is always a first part.
unfoldable pub split : ℕ → Text → List Text
unfolding cons_first
split sep [] = [] ∷ []
split sep (c ∷ cs) = let rest = split sep cs in if c == sep then [] ∷ rest else cons_first c rest

-- `split` at a carriage return and a line feed.
unfoldable pub split_crlf : Text → List Text
unfolding cons_first
split_crlf [] = [] ∷ []
split_crlf (c ∷ []) = (c ∷ []) ∷ []
split_crlf (c ∷ d ∷ cs) =
    let after = split_crlf cs in
    let rest = split_crlf (d ∷ cs) in if c == 13 && d == 10 then [] ∷ after else cons_first c rest

-- `sep.join(texts)`
unfoldable pub join : Text → List Text → Text
join sep [] = []
join sep (t ∷ []) = t
join sep (t ∷ u ∷ us) = t ++ sep ++ join sep (u ∷ us)

-- The value of a text of decimal digits, most significant first, after a prefix of value `n`.
unfoldable pub decimal_from : ℕ → Text → ℕ
decimal_from n [] = n
decimal_from n (c ∷ cs) = decimal_from (n * 10 + (c - 48)) cs

unfoldable pub all_digits : Text → Bool
all_digits [] = true
all_digits (c ∷ cs) = between 48 57 c && all_digits cs

-- `int(text)` refuses more digits than `sys.int_info.default_max_str_digits`.
abbrev pub int_max_str_digits : ℕ
int_max_str_digits = 4300
