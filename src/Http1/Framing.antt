-- ===== src/Http1/Framing.antt =====
-- What an accepted request head says about its body: the framing checks of `_parse_head`.
use pcc_gateway.Prelude.{
  ℕ, ◌≤◌, ◌≡◌, refl, Bool, true, false, List, [], ◌∷◌, Option, none, some, Text, codes, split_crlf,
  ℤ, pos, negsuc, ok, >>=-eq-ok, arith,
}
use pcc_gateway.Http1.Head.{
  Headers, Names, values_of, RequestHead, RequestLine, parse_request_line, parse_headers,
  content_length_of, chunked_of, expect_of, check_host, declared, frame, parse_lines, parse_head,
}

-- The parts of a head that `frame` accepted.
pub record Framed (max : ℕ) (line : RequestLine) (headers : Headers) (names : Names)
    (r : RequestHead) : Type 0 where
  pub length : Option ℕ
  pub host : check_host line.version (values_of (codes "host") names) ≡ ok tt
  pub length_read : content_length_of max (values_of (codes "content-length") names) ≡ ok length
  pub coding_read : chunked_of length (values_of (codes "transfer-encoding") names) ≡ ok r.chunked
  pub expect_read : expect_of (values_of (codes "expect") names) ≡ ok r.expect_continue
  pub content_length : r.content_length ≡ declared length r.chunked
  pub request_line :
      (r.method ≡ line.method) × (r.target ≡ line.target) × (r.version ≡ line.version)
  pub fields : r.headers ≡ headers

pub frame_inv :
    (max : ℕ) (line : RequestLine) (headers : Headers) (names : Names) (r : RequestHead)
    → frame max line headers names ≡ ok r
    → Framed max line headers names r
unfolding frame
frame_inv max line headers names r h =
    let hosts = values_of (codes "host") names in
    let lengths = values_of (codes "content-length") names in
    let codings = values_of (codes "transfer-encoding") names in
    let expects = values_of (codes "expect") names in
    let (u, host, h1) = >>=-eq-ok (check_host line.version hosts) _ h in
    let (length, length_read, h2) = >>=-eq-ok (content_length_of max lengths) _ h1 in
    let (chunked, coding_read, h3) = >>=-eq-ok (chunked_of length codings) _ h2 in
    let (expect, expect_read, h4) = >>=-eq-ok (expect_of expects) _ h3 in
    record {
      length = length;
      host = host;
      length_read = length_read;
      coding_read = ground arith;
      expect_read = ground arith;
      content_length = ground arith;
      request_line = ground arith;
      fields = ground arith;
    }

-- A declared length lies within the limit; a chunked body declares none.
pub content_length_of-le :
    (max : ℕ) (o : Option (List Text)) (n : ℕ) → content_length_of max o ≡ ok (some n) → n ≤ max
unfolding content_length_of
content_length_of-le max none n h = cc
content_length_of-le max (some []) n h = cc
content_length_of-le max (some (raw ∷ [])) n h = ground arith
content_length_of-le max (some (raw ∷ other ∷ raws)) n h = cc

abbrev pub LengthFits : ℕ → ℤ → Type 0
LengthFits max (pos n) = n ≤ max
LengthFits max (negsuc n) = Unit

declared-LengthFits :
    (max : ℕ) (o : Option (List Text)) (length : Option ℕ) (chunked : Bool)
    → content_length_of max o ≡ ok length
    → LengthFits max (declared length chunked)
unfolding declared
declared-LengthFits max o (some n) chunked h = content_length_of-le max o n h
declared-LengthFits max o none true h = tt
declared-LengthFits max o none false h = omega arith

-- The parts of a head that `parse_head` accepted.
pub parse_head_inv :
    (max_line max_count max : ℕ) (block : Text) (r : RequestHead)
    → parse_head max_line max_count max block ≡ ok r
    → (first : Text) × (rest : List Text) × (line : RequestLine) × (headers : Headers)
      × (names : Names) × (split_crlf block ≡ first ∷ rest)
      × (parse_request_line max_line first ≡ ok line)
      × (parse_headers rest max_count ≡ ok (headers, names))
      × Framed max line headers names r
unfolding parse_head
parse_head_inv max_line max_count max block r h = go (split_crlf block) refl h
  where
    go :
        (lines : List Text)
        → split_crlf block ≡ lines
        → parse_lines max_line max_count max lines ≡ ok r
        → (first : Text) × (rest : List Text) × (line : RequestLine) × (headers : Headers)
          × (names : Names) × (split_crlf block ≡ first ∷ rest)
          × (parse_request_line max_line first ≡ ok line)
          × (parse_headers rest max_count ≡ ok (headers, names))
          × Framed max line headers names r
    go [] e p = absurd (cc)
    go (first ∷ rest) e p =
        let (line, read, p1) = >>=-eq-ok (parse_request_line max_line first) _ p in
        let (parsed, fields, p2) = >>=-eq-ok (parse_headers rest max_count) _ p1 in
        (
          first,
          rest,
          line,
          parsed.0,
          parsed.1,
          e,
          read,
          fields,
          frame_inv max line parsed.0 parsed.1 r p2,
        )

pub parse_head-LengthFits :
    (max_line max_count max : ℕ) (block : Text) (r : RequestHead)
    → parse_head max_line max_count max block ≡ ok r
    → LengthFits max r.content_length
parse_head-LengthFits max_line max_count max block r h =
    let (_, _, _, _, names, _, _, _, framed) = parse_head_inv max_line max_count max block r h in
    rw framed.content_length (
      declared-LengthFits max (values_of (codes "content-length") names) framed.length r.chunked
        framed.length_read)
