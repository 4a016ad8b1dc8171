-- ===== src/Upstream/Injection.antt =====
-- The lines of a request head that pcc_gateway/proxy_http1.py writes.
use pcc_gateway.Prelude.{
  ◌≡◌, refl, sym, ◌∙◌, ap, Bool, true, false, ◌&&◌, ◌||◌, [], ◌∷◌, ◌++◌, Text, codes, text_eq,
  text_in, char_in, lower, All, ok, arith, Bool-cases, Result-cases, inl, inr,
}
use pcc_gateway.Http1.Bytes.{
  is_token, all_token, is_token_byte, contains_bad_value_byte, is_bad_value_byte,
}
use pcc_gateway.Proxy.Headers.{Fields, forwarded_request_headers}
use pcc_gateway.Upstream.Request.{
  has_bad_target, crlf, framing_names, output_fields, field_line, field_lines, framing_line,
  ProxyRequest, fields_of, request_line, encode_proxy_request_head,
}

-- A text without a carriage return and a line feed.
pub record IsOneLine (t : Text) : Type 0 where
  pub no_return : char_in 13 t ≡ false
  pub no_feed : char_in 10 t ≡ false

all_token-IsOneLine : (t : Text) → all_token t ≡ true → IsOneLine t
unfolding all_token is_token_byte char_in
all_token-IsOneLine [] h = record { no_return = refl; no_feed = refl }
all_token-IsOneLine (c ∷ cs) h =
    let rest = all_token-IsOneLine cs (ground (arith, h)) in
    let no_return = rest.no_return in
    let no_feed = rest.no_feed in
    record { no_return = ground (arith, h); no_feed = ground (arith, h) }

is_token-IsOneLine : (t : Text) → is_token t ≡ true → IsOneLine t
unfolding is_token
is_token-IsOneLine t h = all_token-IsOneLine t (ground (arith, h))

value-IsOneLine : (t : Text) → contains_bad_value_byte t ≡ false → IsOneLine t
unfolding contains_bad_value_byte is_bad_value_byte char_in
value-IsOneLine [] h = record { no_return = refl; no_feed = refl }
value-IsOneLine (c ∷ cs) h =
    let rest = value-IsOneLine cs (ground (arith, h)) in
    let no_return = rest.no_return in
    let no_feed = rest.no_feed in
    record { no_return = ground (arith, h); no_feed = ground (arith, h) }

target-IsOneLine : (t : Text) → has_bad_target t ≡ false → IsOneLine t
unfolding has_bad_target char_in
target-IsOneLine [] h = record { no_return = refl; no_feed = refl }
target-IsOneLine (c ∷ cs) h =
    let rest = target-IsOneLine cs (ground (arith, h)) in
    let no_return = rest.no_return in
    let no_feed = rest.no_feed in
    record { no_return = ground (arith, h); no_feed = ground (arith, h) }

-- A field whose name and value stay on their line.
abbrev pub IsOneLineField : Text × Text → Type 0
IsOneLineField (name, value) = IsOneLine name × IsOneLine value

-- A field that neither names a host nor frames a body.
pub record IsPlain (field : Text × Text) : Type 0 where
  pub plain : text_in (lower field.0) framing_names ≡ false

-- The lines of some fields, one after the other.
unfoldable pub lines_of : Fields → Text
lines_of [] = []
lines_of ((name, value) ∷ rest) = field_line name value ++ lines_of rest

field_lines-IsOneLineField :
    (fields : Fields) (lines : Text)
    → field_lines fields ≡ ok lines
    → (lines ≡ lines_of fields) × All IsOneLineField fields
unfolding field_lines lines_of
field_lines-IsOneLineField [] lines h = (ground (arith, h), tt)
field_lines-IsOneLineField ((name, value) ∷ rest) lines h = elim (Result-cases (field_lines rest)) [
  | inr (e, f) ↦ absurd (ground (arith, h, f))
  | inl (more, f) ↦
      let (same, safe) = field_lines-IsOneLineField rest more f in
      let all : field_line name value ++ more ≡ lines = ground (arith, h, f) in
      (
        sym all ∙ ap (λ t. field_line name value ++ t) same,
        (
          (is_token-IsOneLine name (ground (arith, h)), value-IsOneLine value (ground (arith, h))),
          safe,
        ),
      )
]

output_fields-IsPlain :
    (handled : Bool) (fields : Fields) → All IsPlain (output_fields handled fields)
unfolding output_fields
output_fields-IsPlain handled [] = tt
output_fields-IsPlain handled ((name, value) ∷ rest) =
    elim (Bool-cases
      (text_in (lower name) framing_names || (handled && text_eq (lower name) (codes "expect")))) [
        | inl e ↦ rw (e, output_fields) (output_fields-IsPlain handled rest)
        | inr e ↦
            rw (e, output_fields)
              (record { plain = ground (arith, e) }, output_fields-IsPlain handled rest)
      ]

-- What a request head is made of.
pub record IsWritten (r : ProxyRequest) (bytes : Text) : Type 0 where
  pub others : Fields
  pub framing : Text
  pub framed : framing_line r.content_length r.chunked ≡ ok framing
  pub written :
      bytes
      ≡ request_line r
        ++ (lines_of ((codes "host", r.upstream_authority) ∷ others) ++ (framing ++ crlf))
  pub method_line : IsOneLine r.method
  pub target_line : IsOneLine r.target
  pub field_safe : All IsOneLineField ((codes "host", r.upstream_authority) ∷ others)
  pub field_plain : All IsPlain others

-- A request head that is written has one line for the request, one for the host, one for each field that goes on, and one
-- that frames the body, and ends there: no part of it breaks its line, and no field that goes on names a host,
-- a length or a transfer coding.
pub encode_proxy_request_head-IsWritten :
    (r : ProxyRequest) (bytes : Text) → encode_proxy_request_head r ≡ ok bytes → IsWritten r bytes
unfolding encode_proxy_request_head fields_of
encode_proxy_request_head-IsWritten r bytes h =
    elim (Result-cases (framing_line r.content_length r.chunked)) [
      | inr (e, f) ↦ absurd (ground (arith, h, f))
      | inl (framing, f) ↦ elim (Result-cases (field_lines (fields_of r))) [
        | inr (e, g) ↦ absurd (ground (arith, h, f, g))
        | inl (lines, g) ↦
            let (same, safe) = field_lines-IsOneLineField (fields_of r) lines g in
            let forwarded =
              forwarded_request_headers r.headers r.client_ip r.scheme r.original_host
                r.trust_forwarded in
            let all : request_line r ++ (lines ++ (framing ++ crlf)) ≡ bytes =
              ground (arith, h, f, g) in
            record {
              others = output_fields r.expect_continue_handled forwarded;
              framing = framing;
              framed = f;
              written = sym all ∙ ap (λ t. request_line r ++ (t ++ (framing ++ crlf))) same;
              method_line = is_token-IsOneLine r.method (ground (arith, h, f, g));
              target_line = target-IsOneLine r.target (ground (arith, h, f, g));
              field_safe = safe;
              field_plain = output_fields-IsPlain r.expect_continue_handled forwarded;
            }
      ]
    ]
