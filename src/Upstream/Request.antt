-- ===== src/Upstream/Request.antt =====
-- `encode_proxy_request_head` of pcc_gateway/proxy_http1.py.
use pcc_gateway.Prelude.{
  ℕ, Bool, true, false, not, ◌&&◌, ◌||◌, List, [], ◌∷◌, ◌++◌, Text, codes, text_eq, text_in, lower,
  ltb, leb, ◌==◌, if◌then◌else◌, is_empty, decimal, ℤ, pos, negsuc, Result, ok, err,
}
use pcc_gateway.Http1.Bytes.{is_token, contains_bad_value_byte}
use pcc_gateway.Proxy.Headers.{Fields, forwarded_request_headers}
use pcc_gateway.Upstream.Response.{
  UpstreamError, bad_request, bad_target, bad_upstream, unknown_framing, ambiguous_framing,
  bad_header, plain_value_error,
}

-- Every character is less than a bound: `text.encode` of an encoding raises otherwise.
unfoldable pub all_less : ℕ → Text → Bool
all_less bound [] = true
all_less bound (c ∷ cs) = ltb c bound && all_less bound cs

-- A byte that a target must not have.
unfoldable pub has_bad_target : Text → Bool
has_bad_target [] = false
has_bad_target (c ∷ cs) = leb c 32 || c == 127 || has_bad_target cs

abbrev pub crlf : Text
crlf = 13 ∷ 10 ∷ []

-- The fields that the gateway writes itself.
abbrev pub framing_names : List Text
framing_names = codes "host" ∷ codes "content-length" ∷ codes "transfer-encoding" ∷ []

-- The fields that go on behind `host`.
unfoldable pub output_fields : Bool → Fields → Fields
unfolding lower text_in text_eq
output_fields handled [] = []
output_fields handled ((name, value) ∷ rest) =
    let others = output_fields handled rest in
    if text_in (lower name) framing_names || (handled && text_eq (lower name) (codes "expect"))
    then others
    else (name, value) ∷ others

abbrev pub field_line : Text → Text → Text
field_line name value = name ++ (codes ": " ++ (value ++ crlf))

-- The lines of the fields.
unfoldable pub field_lines : Fields → Result UpstreamError Text
unfolding all_less is_token contains_bad_value_byte
field_lines [] = ok []
field_lines ((name, value) ∷ rest) =
    if not (all_less 128 name) || not (all_less 256 value)
    then err plain_value_error
    else if not (is_token name) || contains_bad_value_byte value
    then err bad_header
    else elim (field_lines rest) [ err e ↦ err e | ok lines ↦ ok (field_line name value ++ lines) ]

-- What the body of a request is framed by: the chunked coding, or a length.
unfoldable pub framing_line : ℤ → Bool → Result UpstreamError Text
unfolding decimal
framing_line (pos n) true = err ambiguous_framing
framing_line (pos n) false = ok (codes "content-length: " ++ (decimal n ++ crlf))
framing_line (negsuc n) true = ok (codes "transfer-encoding: chunked" ++ crlf)
framing_line (negsuc n) false = err unknown_framing

-- What an exchange knows of a request.
pub record ProxyRequest : Type 0 where
  pub method : Text
  pub target : Text
  pub headers : Fields
  pub upstream_authority : Text
  pub client_ip : Text
  pub scheme : Text
  pub original_host : Text
  pub content_length : ℤ
  pub chunked : Bool
  pub trust_forwarded : Bool
  pub expect_continue_handled : Bool

-- All the fields but the framing, `host` first.
unfoldable pub fields_of : ProxyRequest → Fields
unfolding output_fields forwarded_request_headers
fields_of r =
    (codes "host", r.upstream_authority)
    ∷ output_fields r.expect_continue_handled
        (forwarded_request_headers r.headers r.client_ip r.scheme r.original_host r.trust_forwarded)

abbrev pub request_line : ProxyRequest → Text
request_line r = r.method ++ (codes " " ++ (r.target ++ codes " HTTP/1.1\r\n"))

-- `encode_proxy_request_head`
unfoldable pub encode_proxy_request_head : ProxyRequest → Result UpstreamError Text
unfolding all_less is_token has_bad_target framing_line field_lines fields_of
encode_proxy_request_head r =
    if not (all_less 128 r.method) || not (all_less 256 r.target)
    then err plain_value_error
    else if not (is_token r.method) || is_empty r.target
    then err bad_request
    else if has_bad_target r.target
    then err bad_target
    else if is_empty r.upstream_authority
    then err bad_upstream
    else elim (framing_line r.content_length r.chunked) [
      | err e ↦ err e
      | ok framing ↦ elim (field_lines (fields_of r)) [
        | err e ↦ err e
        | ok lines ↦ ok (request_line r ++ (lines ++ (framing ++ crlf)))
      ]
    ]
