-- ===== src/Http1/Head.antt =====
-- `RequestHead`, `_parse_headers` and `Http1ServerCodec._parse_head` of pcc_gateway/http1.py.
use pcc_gateway.Prelude.{
  ℕ, suc, Bool, true, false, not, ◌&&◌, ◌||◌, List, [], ◌∷◌, ◌++◌, Option, none, some, Text, codes,
  text_eq, text_in, char_in, lower, strip, find, split, split_crlf, decimal_from, all_digits,
  int_max_str_digits, ltb, leb, ◌==◌, if◌then◌else◌, is_empty, length, take, drop, ℤ, pos, negsuc,
  Result, ok, err, ◌>>=◌, ◌>>◌, raise_if,
}
use pcc_gateway.Http1.Error.{
  Raised, http1_error, value_error, reject, bad_header, obs_fold, bad_header_name, bad_header_value,
  too_many_headers, empty_request_line, request_line_too_long, bad_request_line, bad_method,
  bad_target, unsupported_target_form, bad_version, missing_host, duplicate_host, ambiguous_length,
  bad_content_length, body_too_large, ambiguous_framing, unsupported_transfer_coding,
  unsupported_expectation,
}
use pcc_gateway.Http1.Bytes.{is_token, contains_bad_value_byte, split_commas}

abbrev pub Headers : Type 0
Headers = List (Text × Text)

-- The dictionary `names`: the values of each name in their order.
abbrev pub Names : Type 0
Names = List (Text × List Text)

unfoldable pub values_of : Text → Names → Option (List Text)
values_of name [] = none
values_of name ((other, values) ∷ rest) =
    if text_eq other name then some values else values_of name rest

unfoldable pub add_value : Text → Text → Names → Names
add_value name value [] = (name, value ∷ []) ∷ []
add_value name value ((other, values) ∷ rest) =
    if text_eq other name
    then (other, values ++ value ∷ []) ∷ rest
    else (other, values) ∷ add_value name value rest

pub record RequestHead : Type 0 where
  pub method : Text
  pub target : Text
  pub version : Text
  pub headers : Headers
  pub keep_alive : Bool
  pub expect_continue : Bool
  pub content_length : ℤ
  pub chunked : Bool

-- `RequestHead.header`, with no default
unfoldable pub header : Text → Headers → Option Text
header wanted [] = none
header wanted ((key, value) ∷ rest) =
    if text_eq key (lower wanted) then some value else header wanted rest

unfoldable pub is_blank : ℕ → Bool
is_blank c = c == 32 || c == 9

unfoldable pub starts_blank : Text → Bool
unfolding is_blank
starts_blank [] = false
starts_blank (c ∷ cs) = is_blank c

-- One line of a header block that is not empty; `count` headers stand before it.
unfoldable pub header_line : ℕ → ℕ → Text → Result Raised (Text × Text)
unfolding starts_blank
header_line max_count count line =
    let colon : ℕ = elim (find 58 line) [ none ↦ 0 | some i ↦ i ] in
    let name = take colon line in
    let value = drop (suc colon) line in
    if starts_blank line
    then reject 400 obs_fold
    else if colon == 0
    then reject 400 bad_header
    else if not (is_token name)
    then reject 400 bad_header_name
    else if contains_bad_value_byte value
    then reject 400 bad_header_value
    else if leb max_count count
    then reject 431 too_many_headers
    else ok (lower name, strip is_blank value)

unfoldable pub headers_loop : ℕ → Headers → Names → List Text → Result Raised (Headers × Names)
unfolding header_line
headers_loop max_count headers names [] = ok (headers, names)
headers_loop max_count headers names ([] ∷ lines) = headers_loop max_count headers names lines
headers_loop max_count headers names ((c ∷ cs) ∷ lines) =
    elim (header_line max_count (length headers) (c ∷ cs)) [
      | err e ↦ err e
      | ok (name, value) ↦
          headers_loop max_count (headers ++ (name, value) ∷ []) (add_value name value names) lines
    ]

-- `_parse_headers`
unfoldable pub parse_headers : List Text → ℕ → Result Raised (Headers × Names)
unfolding headers_loop
parse_headers lines max_count = headers_loop max_count [] [] lines

unfoldable pub parse_decimal : ℕ → Text → Result Raised ℕ
parse_decimal max_body_bytes raw =
    if is_empty raw || not (all_digits raw)
    then reject 400 bad_content_length
    else if ltb int_max_str_digits (length raw)
    then err value_error
    else if ltb max_body_bytes (decimal_from 0 raw)
    then reject 413 body_too_large
    else ok (decimal_from 0 raw)

-- The length that the head declares.
unfoldable pub content_length_of : ℕ → Option (List Text) → Result Raised (Option ℕ)
unfolding parse_decimal
content_length_of max_body_bytes none = ok none
content_length_of max_body_bytes (some (raw ∷ [])) =
    if char_in 44 raw
    then reject 400 ambiguous_length
    else elim (parse_decimal max_body_bytes raw) [ err e ↦ err e | ok n ↦ ok (some n) ]
content_length_of max_body_bytes (some values) = reject 400 ambiguous_length

unfoldable pub comma_tokens : Option (List Text) → List Text
comma_tokens none = []
comma_tokens (some []) = []
comma_tokens (some (value ∷ values)) = split_commas value ++ comma_tokens (some values)

unfoldable pub texts_eq : List Text → List Text → Bool
texts_eq [] [] = true
texts_eq [] (u ∷ us) = false
texts_eq (t ∷ ts) [] = false
texts_eq (t ∷ ts) (u ∷ us) = text_eq t u && texts_eq ts us

unfoldable pub chunked_of : Option ℕ → Option (List Text) → Result Raised Bool
chunked_of content_length none = ok false
chunked_of (some n) (some values) = reject 400 ambiguous_framing
chunked_of none (some values) =
    if texts_eq (comma_tokens (some values)) (codes "chunked" ∷ [])
    then ok true
    else reject 501 unsupported_transfer_coding

unfoldable pub keep_alive_of : Text → Option (List Text) → Bool
keep_alive_of version connection =
    let tokens = comma_tokens connection in
    if text_in (codes "close") tokens
    then false
    else text_eq version (codes "HTTP/1.1")
      || text_eq version (codes "HTTP/1.0") && text_in (codes "keep-alive") tokens

unfoldable pub expect_of : Option (List Text) → Result Raised Bool
expect_of none = ok false
expect_of (some values) =
    if texts_eq (comma_tokens (some values)) (codes "100-continue" ∷ [])
    then ok true
    else reject 417 unsupported_expectation

-- The checks of `Host`.
unfoldable pub check_host : Text → Option (List Text) → Result Raised (Unit {0})
check_host version none =
    if text_eq version (codes "HTTP/1.1") then reject 400 missing_host else ok tt
check_host version (some (host ∷ [])) = ok tt
check_host version (some hosts) = reject 400 duplicate_host

unfoldable pub bad_target_byte : Text → Bool
bad_target_byte [] = false
bad_target_byte (c ∷ cs) = leb c 32 || c == 127 || bad_target_byte cs

unfoldable pub check_target : Text → Result Raised (Unit {0})
unfolding bad_target_byte
check_target [] = reject 400 bad_target
check_target (c ∷ cs) =
    if not (c == 47)
    then reject 400 unsupported_target_form
    else if bad_target_byte (c ∷ cs)
    then reject 400 bad_target
    else ok tt

unfoldable pub check_version : Text → Result Raised (Unit {0})
check_version version =
    if text_eq version (codes "HTTP/1.1") || text_eq version (codes "HTTP/1.0")
    then ok tt
    else reject 505 bad_version

pub record RequestLine : Type 0 where
  pub method : Text
  pub target : Text
  pub version : Text

unfoldable pub split_request_line : Text → List Text → Result Raised RequestLine
unfolding check_target check_version
split_request_line line (method ∷ target ∷ version ∷ []) = do
  raise_if (char_in 9 line) (http1_error 400 bad_request_line)
  raise_if (not (is_token method)) (http1_error 400 bad_method)
  check_target target
  check_version version
  ok (record { method = method; target = target; version = version })
split_request_line line _ = reject 400 bad_request_line

unfoldable pub parse_request_line : ℕ → Text → Result Raised RequestLine
unfolding split_request_line
parse_request_line max_request_line line = do
  raise_if (is_empty line) (http1_error 400 empty_request_line)
  raise_if (ltb max_request_line (length line)) (http1_error 414 request_line_too_long)
  split_request_line line (split 32 line)

-- The field `content_length` of a head: -1 where the body is chunked.
unfoldable pub declared : Option ℕ → Bool → ℤ
declared (some n) chunked = pos n
declared none true = negsuc 0
declared none false = pos 0

-- From the request line and the header fields to the head.
unfoldable pub frame : ℕ → RequestLine → Headers → Names → Result Raised RequestHead
unfolding check_host content_length_of chunked_of expect_of declared
frame max_body_bytes line headers names = do
  check_host line.version (values_of (codes "host") names)
  length ← content_length_of max_body_bytes (values_of (codes "content-length") names)
  chunked ← chunked_of length (values_of (codes "transfer-encoding") names)
  expect_continue ← expect_of (values_of (codes "expect") names)
  ok (record {
    method = line.method;
    target = line.target;
    version = line.version;
    headers = headers;
    keep_alive = keep_alive_of line.version (values_of (codes "connection") names);
    expect_continue = expect_continue;
    content_length = declared length chunked;
    chunked = chunked;
  })

-- The lines of a block; `split_crlf` never gives none.
unfoldable pub parse_lines : ℕ → ℕ → ℕ → List Text → Result Raised RequestHead
unfolding parse_request_line parse_headers frame
parse_lines max_request_line max_header_count max_body_bytes [] = reject 400 empty_request_line
parse_lines max_request_line max_header_count max_body_bytes (first ∷ rest) = do
  line ← parse_request_line max_request_line first
  parsed ← parse_headers rest max_header_count
  frame max_body_bytes line parsed.0 parsed.1

-- `_parse_head`, less the codec's next state: `Codec.begin_body` sets it.
unfoldable pub parse_head : ℕ → ℕ → ℕ → Text → Result Raised RequestHead
unfolding parse_lines
parse_head max_request_line max_header_count max_body_bytes block =
    parse_lines max_request_line max_header_count max_body_bytes (split_crlf block)
