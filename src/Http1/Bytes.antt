-- ===== src/Http1/Bytes.antt =====
-- The byte and text helpers of pcc_gateway/http1.py.
use pcc_gateway.Prelude.{
  ℕ, suc, Bool, true, false, not, ◌&&◌, ◌||◌, List, [], ◌∷◌, Option, none, some, Text, ltb, ◌==◌,
  between, if◌then◌else◌, is_empty, lower, strip, is_space, split, Result, ok, err,
}
use pcc_gateway.Http1.Error.{Raised, reject, bad_header}

unfoldable pub is_token_byte : ℕ → Bool
is_token_byte c =
    between 48 57 c
    || between 65 90 c
    || between 97 122 c
    || c == 33
    || between 35 39 c
    || between 42 43 c
    || between 45 46 c
    || between 94 96 c
    || c == 124
    || c == 126

unfoldable pub all_token : Text → Bool
all_token [] = true
all_token (c ∷ cs) = is_token_byte c && all_token cs

-- `_is_token`
unfoldable pub is_token : Text → Bool
unfolding all_token is_token_byte
is_token t = not (is_empty t) && all_token t

unfoldable pub is_bad_value_byte : ℕ → Bool
is_bad_value_byte c = c == 0 || c == 10 || c == 13 || c == 127 || ltb c 32 && not (c == 9)

-- `_contains_bad_value_byte`
unfoldable pub contains_bad_value_byte : Text → Bool
unfolding is_bad_value_byte
contains_bad_value_byte [] = false
contains_bad_value_byte (c ∷ cs) = is_bad_value_byte c || contains_bad_value_byte cs

abbrev pub later : Option ℕ → Option ℕ
later none = none
later (some i) = some (suc i)

-- `_find_double_crlf`; `none` is -1.
unfoldable pub find_double_crlf : Text → Option ℕ
find_double_crlf (a ∷ b ∷ c ∷ d ∷ rest) =
    let next = later (find_double_crlf (b ∷ c ∷ d ∷ rest)) in
    if a == 13 && b == 10 && c == 13 && d == 10 then some 0 else next
find_double_crlf _ = none

-- `_find_crlf`
unfoldable pub find_crlf : Text → Option ℕ
find_crlf (a ∷ b ∷ rest) =
    let next = later (find_crlf (b ∷ rest)) in if a == 13 && b == 10 then some 0 else next
find_crlf _ = none

unfoldable pub tokens_of : List Text → List Text
tokens_of [] = []
tokens_of (item ∷ items) =
    let token = lower (strip is_space item) in
    let rest = tokens_of items in if is_empty token then rest else token ∷ rest

-- `_split_commas`
unfoldable pub split_commas : Text → List Text
unfolding tokens_of lower strip is_space split
split_commas value = tokens_of (split 44 value)

-- `_latin1_bytes`; `_latin1_text`, its inverse, changes no number.
unfoldable pub latin1_bytes : Text → Result Raised Text
latin1_bytes [] = ok []
latin1_bytes (c ∷ cs) =
    let rest : Result Raised Text = elim (latin1_bytes cs) [
      | err e ↦ err e
      | ok bytes ↦ ok (c ∷ bytes)
    ] in
    if ltb 255 c then reject 500 bad_header else rest
