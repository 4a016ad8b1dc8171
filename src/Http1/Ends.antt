-- ===== src/Http1/Ends.antt =====
-- The parsers of pcc_gateway/http1.py and the model's fuel.
use pcc_gateway.Prelude.{
  ℕ, zero, suc, ◌+◌, ◌*◌, ◌≤◌, ◌≢◌, subst, Bool, true, false, ◌||◌, List, [], ◌∷◌, ◌++◌, Option,
  none, some, inl, inr, Text, length, take, drop, ltb, ◌==◌, Result, ok, err, ◌>>=◌, raise_if,
  arith, Option-cases, Bool-cases, Result-cases, split_crlf,
}
use pcc_gateway.Http1.Error.{Raised, Code, reject, http1_error, out_of_fuel}
use pcc_gateway.Http1.Chunk.{
  parse_chunk_size_line, size_end, hex_loop, hex_digit, extension_loop, extension, extension_tail,
  extension_value, span_until, quoted_scan, is_name_end, is_semicolon,
}
use pcc_gateway.Http1.Head.{
  Headers, Names, add_value, RequestLine, header_line, headers_loop, parse_headers,
  content_length_of, chunked_of, expect_of, check_host, check_target, check_version,
  split_request_line, parse_request_line, frame, parse_head, parse_lines,
}

pub record Ends {ℓ} {A : Type ℓ} (r : Result Raised A) : Type ℓ where
  pub never : r ≢ err out_of_fuel

Ends-ok {ℓ} : {A : Type ℓ} (a : A) → Ends (ok a)
Ends-ok a = record { never = λ h. cc }

Ends-reject {ℓ} : {A : Type ℓ} (status : ℕ) (code : Code) → Ends {A = A} (reject status code)
Ends-reject status code = record { never = λ h. cc }

Ends-bind {ℓ κ} :
    {A : Type ℓ} {B : Type κ} (m : Result Raised A) (f : A → Result Raised B)
    → Ends m
    → ((a : A) → Ends (f a))
    → Ends (m >>= f)
Ends-bind (ok a) f h k = k a
Ends-bind (err e) f h k = record { never = λ p. h.never (ground arith) }

Ends-raise_if : (b : Bool) (status : ℕ) (code : Code) → Ends (raise_if b (http1_error status code))
Ends-raise_if true status code = Ends-reject status code
Ends-raise_if false status code = Ends-ok tt

ruleset ends_rules = (Ends-ok, Ends-reject, Ends-bind, Ends-raise_if)

-- An error that a part passes on.
Ends-pass {ℓ κ} :
    {A : Type ℓ} {B : Type κ} (e : Raised) → Ends {A = A} (err e) → Ends {A = B} (err e)
Ends-pass e h = record { never = λ p. h.never (ground arith) }

hex_loop-Ends : (size : ℕ) (t : Text) → Ends (hex_loop size t)
unfolding hex_loop
hex_loop-Ends size [] = Ends-ok size
hex_loop-Ends size (c ∷ cs) = elim (Option-cases (hex_digit c)) [
  | inl e ↦ rw (e, hex_loop) (Ends-reject _ _)
  | inr (d, e) ↦ rw (e, hex_loop) (hex_loop-Ends (size * 16 + d) cs)
]

-- The rest after a span is no longer than the text.
span_until-le : (stops : ℕ → Bool) (t : Text) → length (span_until stops t).1 ≤ length t
unfolding span_until
span_until-le stops [] = omega arith
span_until-le stops (c ∷ cs) = ground (arith, span_until-le stops cs)

quoted_scan-le : (escaped : Bool) (t : Text) → length (quoted_scan escaped t).1 ≤ length t
unfolding quoted_scan
quoted_scan-le true [] = omega arith
quoted_scan-le false [] = omega arith
quoted_scan-le true (c ∷ cs) = omega (arith, quoted_scan-le false cs)
quoted_scan-le false (c ∷ cs) = ground (arith, quoted_scan-le (c == 92) cs)

-- A round ends, with a rest no longer than `n`.
abbrev Shorter : ℕ → Result Raised Text → Type 0
Shorter n (ok rest) = length rest ≤ n
Shorter n (err e) = e ≢ out_of_fuel

extension_value-Shorter : (t : Text) → Shorter (length t) (extension_value t)
unfolding extension_value
extension_value-Shorter [] = λ h. cc
extension_value-Shorter (c ∷ cs) =
    ground (arith, quoted_scan-le false cs, span_until-le is_semicolon (c ∷ cs))

extension_tail-Shorter : (t : Text) → Shorter (length t) (extension_tail t)
unfolding extension_tail
extension_tail-Shorter [] = omega arith
extension_tail-Shorter (c ∷ cs) = ground (arith, extension_value-Shorter cs)

extension-Shorter : (c : ℕ) (cs : Text) → Shorter (length cs) (extension (c ∷ cs))
unfolding extension
extension-Shorter c cs =
    ground
      (arith, span_until-le is_name_end cs, extension_tail-Shorter (span_until is_name_end cs).1)

-- The fuel of the second loop is enough: each round passes a byte.
extension_loop-Ends : (n : ℕ) (t : Text) → length t ≤ n → Ends (extension_loop n t)
unfolding extension_loop
extension_loop-Ends zero [] h = Ends-ok tt
extension_loop-Ends (suc n) [] h = Ends-ok tt
extension_loop-Ends zero (c ∷ cs) h = absurd (omega arith)
extension_loop-Ends (suc n) (c ∷ cs) h = elim (Result-cases (extension (c ∷ cs))) [
  | inl (rest, e) ↦
      rw (e, extension_loop)
        (let short = subst (Shorter (length cs)) e (extension-Shorter c cs) in
          extension_loop-Ends n rest (omega arith))
  | inr (e, p) ↦
      rw (p, extension_loop)
        (record {
          never = λ q. subst (Shorter (length cs)) p (extension-Shorter c cs) (ground arith);
        })
]

-- Every chunk-size line is read to its end, or refused.
pub parse_chunk_size_line-Ends : (line : Text) → Ends (parse_chunk_size_line line)
unfolding parse_chunk_size_line
parse_chunk_size_line-Ends line =
    let end = size_end line in
    elim (Bool-cases (end == 0 || ltb 16 end)) [
      | inl e ↦ rw e (Ends-reject _ _)
      | inr e ↦ rw e (
          Ends-bind (hex_loop 0 (take end line)) _ (hex_loop-Ends 0 (take end line)) λ size.
            Ends-bind (extension_loop (length (drop end line)) (drop end line)) _
              (extension_loop-Ends _ (drop end line) (omega arith)) (λ _. Ends-ok size))
    ]

header_line-Ends : (max count : ℕ) (line : Text) → Ends (header_line max count line)
unfolding header_line
header_line-Ends max count line = ground arith

headers_loop-Ends :
    (max : ℕ) (headers : Headers) (names : Names) (lines : List Text)
    → Ends (headers_loop max headers names lines)
unfolding headers_loop
headers_loop-Ends max headers names [] = Ends-ok _
headers_loop-Ends max headers names ([] ∷ lines) = headers_loop-Ends max headers names lines
headers_loop-Ends max headers names ((c ∷ cs) ∷ lines) =
    elim (Result-cases (header_line max (length headers) (c ∷ cs))) [
      | inl ((name, value), e) ↦
          rw (e, headers_loop)
            (headers_loop-Ends max (headers ++ (name, value) ∷ []) (add_value name value names)
              lines)
      | inr (e, p) ↦
          rw (p, headers_loop)
            (Ends-pass e (subst (λ r. Ends r) p (header_line-Ends max (length headers) (c ∷ cs))))
    ]

pub parse_headers-Ends : (lines : List Text) (max : ℕ) → Ends (parse_headers lines max)
unfolding parse_headers
parse_headers-Ends lines max = headers_loop-Ends max [] [] lines

content_length_of-Ends : (max : ℕ) (o : Option (List Text)) → Ends (content_length_of max o)
unfolding content_length_of
content_length_of-Ends max none = Ends-ok _
content_length_of-Ends max (some []) = Ends-reject _ _
content_length_of-Ends max (some (raw ∷ [])) = ground arith
content_length_of-Ends max (some (raw ∷ more ∷ raws)) = Ends-reject _ _

chunked_of-Ends : (l : Option ℕ) (o : Option (List Text)) → Ends (chunked_of l o)
unfolding chunked_of
chunked_of-Ends l none = Ends-ok _
chunked_of-Ends (some n) (some values) = Ends-reject _ _
chunked_of-Ends none (some values) = ground arith

expect_of-Ends : (o : Option (List Text)) → Ends (expect_of o)
unfolding expect_of
expect_of-Ends none = Ends-ok _
expect_of-Ends (some values) = ground arith

check_host-Ends : (version : Text) (o : Option (List Text)) → Ends (check_host version o)
unfolding check_host
check_host-Ends version none = ground arith
check_host-Ends version (some []) = Ends-reject _ _
check_host-Ends version (some (host ∷ [])) = Ends-ok _
check_host-Ends version (some (host ∷ more ∷ hosts)) = Ends-reject _ _

frame-Ends :
    (max : ℕ) (line : RequestLine) (headers : Headers) (names : Names)
    → Ends (frame max line headers names)
unfolding frame
frame-Ends max line headers names =
    search (ends_rules, check_host-Ends, content_length_of-Ends, chunked_of-Ends, expect_of-Ends)

check_target-Ends : (target : Text) → Ends (check_target target)
unfolding check_target
check_target-Ends [] = Ends-reject _ _
check_target-Ends (c ∷ cs) = ground arith

check_version-Ends : (version : Text) → Ends (check_version version)
unfolding check_version
check_version-Ends version = ground arith

split_request_line-Ends : (line : Text) (parts : List Text) → Ends (split_request_line line parts)
unfolding split_request_line
split_request_line-Ends line [] = Ends-reject _ _
split_request_line-Ends line (method ∷ []) = Ends-reject _ _
split_request_line-Ends line (method ∷ target ∷ []) = Ends-reject _ _
split_request_line-Ends line (method ∷ target ∷ version ∷ []) =
    search (ends_rules, check_target-Ends, check_version-Ends) depth 9
split_request_line-Ends line (method ∷ target ∷ version ∷ more ∷ parts) = Ends-reject _ _

parse_request_line-Ends : (max : ℕ) (line : Text) → Ends (parse_request_line max line)
unfolding parse_request_line
parse_request_line-Ends max line = search (ends_rules, split_request_line-Ends)

parse_lines-Ends :
    (line count bytes : ℕ) (lines : List Text) → Ends (parse_lines line count bytes lines)
unfolding parse_lines
parse_lines-Ends line count bytes [] = Ends-reject _ _
parse_lines-Ends line count bytes (first ∷ rest) =
    search (ends_rules, parse_request_line-Ends, parse_headers-Ends, frame-Ends)

-- Every head is parsed or refused.
pub parse_head-Ends :
    (line count bytes : ℕ) (block : Text) → Ends (parse_head line count bytes block)
unfolding parse_head
parse_head-Ends line count bytes block = parse_lines-Ends line count bytes (split_crlf block)
