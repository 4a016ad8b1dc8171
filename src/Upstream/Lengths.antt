-- ===== src/Upstream/Lengths.antt =====
-- The length that a response head of pcc_gateway/proxy_http1.py declares.
use pcc_gateway.Prelude.{
  ℕ, ◌+◌, ◌≤◌, ◌<◌, ◌≡◌, ◌≢◌, subst, List, [], ◌∷◌, Option, none, some, Text, codes, length,
  length-drop, drop, ok, err, arith, Option-cases, Result-cases, inl, inr,
}
use pcc_gateway.Http1.Bytes.{find_double_crlf, find_crlf}
use pcc_gateway.Http1.Head.{Headers, Names, values_of, parse_headers}
use pcc_gateway.Upstream.Response.{
  UpstreamError, loop_cut_off, cut_blank, check_status, status_of, ResponseHead, StatusLine,
  status_line, decimal_length, length_of, coding_of, head_of, parse_lines,
}

-- No length, or one within a limit.
abbrev pub Within : ℕ → Option ℕ → Type 0
Within max none = Unit
Within max (some n) = n ≤ max

decimal_length-Within :
    (max : ℕ) (raw : Text) (o : Option ℕ) → decimal_length max raw ≡ ok o → Within max o
unfolding decimal_length
decimal_length-Within max raw none h = tt
decimal_length-Within max raw (some n) h = ground (arith, h)

length_of-Within :
    (max : ℕ) (values : Option (List Text)) (o : Option ℕ)
    → length_of max values ≡ ok o
    → Within max o
unfolding length_of
length_of-Within max none none h = tt
length_of-Within max none (some n) h = cc
length_of-Within max (some []) o h = cc
length_of-Within max (some (raw ∷ [])) o h = decimal_length-Within max raw o h
length_of-Within max (some (raw ∷ other ∷ values)) o h = cc

head_of-Within :
    (method : Text) (max : ℕ) (line : StatusLine) (headers : Headers) (names : Names)
    (head : ResponseHead)
    → head_of method max line headers names ≡ ok head
    → Within max head.content_length
unfolding head_of
head_of-Within method max line headers names head h =
    let given = values_of (codes "content-length") names in
    elim (Result-cases (length_of max given)) [
      | inr (e, f) ↦ absurd (ground (arith, h, f))
      | inl (o, f) ↦
          elim (Result-cases (coding_of o (values_of (codes "transfer-encoding") names))) [
            | inr (e, g) ↦ absurd (ground (arith, h, f, g))
            | inl (chunked, g) ↦
                let same : o ≡ head.content_length = ground (arith, h, f, g) in
                subst (Within max) same (length_of-Within max given o f)
          ]
    ]

pub parse_lines-Within :
    (method : Text) (count max : ℕ) (lines : List Text) (head : ResponseHead)
    → parse_lines method count max lines ≡ ok head
    → Within max head.content_length
unfolding parse_lines
parse_lines-Within method count max [] head h = cc
parse_lines-Within method count max (first ∷ lines) head h =
    elim (Result-cases (status_line first)) [
      | inr (e, f) ↦ absurd (ground (arith, h, f))
      | inl (line, f) ↦ elim (Result-cases (parse_headers lines count)) [
        | inr (e, g) ↦ absurd (ground (arith, h, f, g))
        | inl ((headers, names), g) ↦
            head_of-Within method max line headers names head (ground (arith, h, f, g))
      ]
    ]

status_of-ne : (status : Text) (e : UpstreamError) → status_of status ≡ err e → e ≢ loop_cut_off
unfolding status_of
status_of-ne status e h = λ p. ground (arith, h, p)

check_status-ne :
    (version status reason : Text) (e : UpstreamError)
    → check_status version status reason ≡ err e
    → e ≢ loop_cut_off
unfolding check_status
check_status-ne version status reason e h = elim (Result-cases (status_of status)) [
  | inl (n, f) ↦ λ p. ground (arith, h, f, p)
  | inr (error, f) ↦ λ p. ground (arith, h, f, p, status_of-ne status error f)
]

status_line-ne : (line : Text) (e : UpstreamError) → status_line line ≡ err e → e ≢ loop_cut_off
unfolding status_line
status_line-ne line e h = elim (Option-cases (cut_blank line).1) [
  | inl f ↦ λ p. ground (arith, h, f, p)
  | inr (second, f) ↦
      let reason : Text = elim (cut_blank second).1 [ none ↦ [] | some reason ↦ reason ] in
      λ p. ground (arith, h, f, p, check_status-ne (cut_blank line).0 (cut_blank second).0 reason e)
]

length_of-ne :
    (max : ℕ) (values : Option (List Text)) (e : UpstreamError)
    → length_of max values ≡ err e
    → e ≢ loop_cut_off
unfolding length_of decimal_length
length_of-ne max none e h = cc
length_of-ne max (some []) e h = λ p. cc
length_of-ne max (some (raw ∷ [])) e h = λ p. ground (arith, h, p)
length_of-ne max (some (raw ∷ other ∷ values)) e h = λ p. cc

coding_of-ne :
    (o : Option ℕ) (values : Option (List Text)) (e : UpstreamError)
    → coding_of o values ≡ err e
    → e ≢ loop_cut_off
unfolding coding_of
coding_of-ne o none e h = cc
coding_of-ne (some n) (some values) e h = λ p. cc
coding_of-ne none (some values) e h = λ p. ground (arith, h, p)

head_of-ne :
    (method : Text) (max : ℕ) (line : StatusLine) (headers : Headers) (names : Names)
    (e : UpstreamError)
    → head_of method max line headers names ≡ err e
    → e ≢ loop_cut_off
unfolding head_of
head_of-ne method max line headers names e h =
    let given = values_of (codes "content-length") names in
    elim (Result-cases (length_of max given)) [
      | inr (error, f) ↦ λ p. ground (arith, h, f, p, length_of-ne max given error f)
      | inl (o, f) ↦
          elim (Result-cases (coding_of o (values_of (codes "transfer-encoding") names))) [
            | inr (error, g) ↦ λ p. ground (
              arith,
              h,
              f,
              g,
              p,
              coding_of-ne o (values_of (codes "transfer-encoding") names) error g,
            )
            | inl (chunked, g) ↦ λ p. ground (arith, h, f, g, p)
          ]
    ]

pub parse_lines-ne :
    (method : Text) (count max : ℕ) (lines : List Text) (e : UpstreamError)
    → parse_lines method count max lines ≡ err e
    → e ≢ loop_cut_off
unfolding parse_lines
parse_lines-ne method count max [] e h = λ p. cc
parse_lines-ne method count max (first ∷ lines) e h = elim (Result-cases (status_line first)) [
  | inr (error, f) ↦ λ p. ground (arith, h, f, p, status_line-ne first error f)
  | inl (line, f) ↦ elim (Result-cases (parse_headers lines count)) [
    | inr (error, g) ↦ λ p. ground (arith, h, f, g, p)
    | inl ((headers, names), g) ↦
        head_of-ne method max line headers names e (ground (arith, h, f, g))
  ]
]

-- What is behind a marker is shorter.
pub drop-find_double_crlf :
    (t : Text) (marker : ℕ)
    → find_double_crlf t ≡ some marker
    → length (drop (marker + 4) t) < length t
unfolding find_double_crlf
drop-find_double_crlf [] marker h = cc
drop-find_double_crlf (c ∷ cs) marker h = omega (arith, length-drop (marker + 4) (c ∷ cs))

pub drop-find_crlf :
    (t : Text) (marker : ℕ) → find_crlf t ≡ some marker → length (drop (marker + 2) t) < length t
unfolding find_crlf
drop-find_crlf [] marker h = cc
drop-find_crlf (c ∷ cs) marker h = omega (arith, length-drop (marker + 2) (c ∷ cs))
