-- ===== src/Http1/Chunk.antt =====
-- `_parse_chunk_size_line` and `_quoted_chunk_extension_value` of pcc_gateway/http1.py. An index into
-- the line is the part of the line that starts there.
use pcc_gateway.Prelude.{
  ℕ, zero, suc, ◌+◌, ◌-◌, ◌*◌, Bool, true, false, not, ◌&&◌, ◌||◌, [], ◌∷◌, Option, none, some,
  Text, ltb, leb, ◌==◌, between, if◌then◌else◌, length, take, drop, find, Result, ok, err, ◌>>=◌,
}
use pcc_gateway.Http1.Error.{Raised, out_of_fuel, reject, bad_chunk_size, bad_chunk_extension}
use pcc_gateway.Http1.Bytes.{is_token}

unfoldable pub is_quotable : ℕ → Bool
is_quotable c = c == 9 || c == 32 || between 33 126 c || leb 128 c

unfoldable pub is_plain : ℕ → Bool
is_plain c = c == 9 || c == 32 || c == 33 || between 35 91 c || between 93 126 c || leb 128 c

-- The loop over `value[1:-1]`; the flag says that the byte before was a backslash.
unfoldable pub quoted_text : Bool → Text → Bool
quoted_text true [] = false
quoted_text false [] = true
quoted_text true (c ∷ cs) = is_quotable c && quoted_text false cs
quoted_text false (c ∷ cs) =
    let rest = quoted_text (c == 92) cs in if c == 92 then rest else is_plain c && rest

-- What stands between the first byte and a last byte that is a quote.
unfoldable pub up_to_quote : Text → Option Text
up_to_quote [] = none
up_to_quote (c ∷ []) = if c == 34 then some [] else none
up_to_quote (c ∷ d ∷ cs) = elim (up_to_quote (d ∷ cs)) [ none ↦ none | some t ↦ some (c ∷ t) ]

-- `_quoted_chunk_extension_value`
unfoldable pub quoted_chunk_extension_value : Text → Bool
unfolding quoted_text up_to_quote is_quotable is_plain
quoted_chunk_extension_value [] = false
quoted_chunk_extension_value (c ∷ cs) =
    c == 34 && elim (up_to_quote cs) [ none ↦ false | some inner ↦ quoted_text false inner ]

unfoldable pub hex_digit : ℕ → Option ℕ
hex_digit c =
    if between 48 57 c
    then some (c - 48)
    else if between 65 70 c
    then some (c - 55)
    else if between 97 102 c
    then some (c - 87)
    else none

unfoldable pub hex_loop : ℕ → Text → Result Raised ℕ
unfolding hex_digit
hex_loop size [] = ok size
hex_loop size (c ∷ cs) = elim (hex_digit c) [
  | none ↦ reject 400 bad_chunk_size
  | some digit ↦ hex_loop (size * 16 + digit) cs
]

-- The longest first part with no byte that a test picks out, and what follows it.
unfoldable pub span_until : (ℕ → Bool) → Text → Text × Text
span_until stops [] = ([], [])
span_until stops (c ∷ cs) =
    let rest = span_until stops cs in if stops c then ([], c ∷ cs) else (c ∷ rest.0, rest.1)

-- The loop to the end of a quoted value: what it passes, the closing quote included, and the rest.
unfoldable pub quoted_scan : Bool → Text → Text × Text
quoted_scan escaped [] = ([], [])
quoted_scan true (c ∷ cs) = let rest = quoted_scan false cs in (c ∷ rest.0, rest.1)
quoted_scan false (c ∷ cs) =
    let rest = quoted_scan (c == 92) cs in if c == 34 then (c ∷ [], cs) else (c ∷ rest.0, rest.1)

unfoldable pub is_semicolon : ℕ → Bool
is_semicolon c = c == 59

-- A value after the equals sign; the result is the rest of the line, at its end or at a semicolon.
unfoldable pub extension_value : Text → Result Raised Text
unfolding quoted_scan span_until is_semicolon
extension_value [] = reject 400 bad_chunk_extension
extension_value (c ∷ cs) =
    let scanned = quoted_scan false cs in
    let quoted : Result Raised Text =
      if not (quoted_chunk_extension_value (c ∷ scanned.0))
      then reject 400 bad_chunk_extension
      else elim scanned.1 [
        | [] ↦ ok []
        | d ∷ rest ↦ if d == 59 then ok (d ∷ rest) else reject 400 bad_chunk_extension
      ] in
    let spanned = span_until is_semicolon (c ∷ cs) in
    let plain : Result Raised Text =
      if is_token spanned.0 then ok spanned.1 else reject 400 bad_chunk_extension in
    if c == 34 then quoted else plain

unfoldable pub is_name_end : ℕ → Bool
is_name_end c = c == 59 || c == 61

-- What follows an extension's name.
unfoldable pub extension_tail : Text → Result Raised Text
unfolding extension_value
extension_tail [] = ok []
extension_tail (c ∷ cs) = if c == 59 then ok (c ∷ cs) else extension_value cs

-- One round: from a semicolon to the next one, or to the end.
unfoldable pub extension : Text → Result Raised Text
unfolding extension_tail span_until is_name_end
extension [] = ok []
extension (c ∷ cs) =
    let spanned = span_until is_name_end cs in
    if not (c == 59)
    then reject 400 bad_chunk_extension
    else if not (is_token spanned.0)
    then reject 400 bad_chunk_extension
    else extension_tail spanned.1

unfoldable pub extension_loop : ℕ → Text → Result Raised (Unit {0})
unfolding extension
extension_loop fuel [] = ok tt
extension_loop zero (c ∷ cs) = err out_of_fuel
extension_loop (suc n) (c ∷ cs) = elim (extension (c ∷ cs)) [
  | err e ↦ err e
  | ok rest ↦ extension_loop n rest
]

abbrev pub size_end : Text → ℕ
size_end line = elim (find 59 line) [ none ↦ length line | some i ↦ i ]

-- `_parse_chunk_size_line`. Each round of the second loop passes its semicolon at least.
unfoldable pub parse_chunk_size_line : Text → Result Raised ℕ
unfolding hex_loop extension_loop
parse_chunk_size_line line =
    let end = size_end line in
    if end == 0 || ltb 16 end then reject 400 bad_chunk_size else do
      size ← hex_loop 0 (take end line)
      extension_loop (length (drop end line)) (drop end line) >>= λ _. ok size
