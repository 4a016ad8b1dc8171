-- ===== src/Upstream/Response.antt =====
-- Response heads of pcc_gateway/proxy_http1.py, as `Http1UpstreamCodec._parse_head` reads them.
use pcc_gateway.Prelude.{
  ℕ, suc, Bool, true, false, not, ◌&&◌, ◌||◌, List, [], ◌∷◌, Option, none, some, Text, codes,
  text_eq, text_in, char_in, find, decimal_from, all_digits, int_max_str_digits, between, ltb, ◌==◌,
  if◌then◌else◌, is_empty, length, take, drop, Result, ok, err,
}
use pcc_gateway.Http1.Error.{Code}
use pcc_gateway.Http1.Bytes.{contains_bad_value_byte}
use pcc_gateway.Http1.Head.{Headers, Names, values_of, parse_headers, comma_tokens, texts_eq}

-- `ProxyProtocolError` by its code; a code that an `Http1Error` had stands in `chunk_line`.
pub data UpstreamError : Type 0 where
  empty_status_line bad_status_line bad_version bad_status bad_reason bad_header : UpstreamError
  ambiguous_length bad_length body_too_large ambiguous_framing : UpstreamError
  unsupported_transfer_coding upgrade_rejected response_complete headers_too_large : UpstreamError
  pipelined_response chunk_line_too_long chunk_too_large bad_chunk_ending : UpstreamError
  trailers_too_large bad_trailer incomplete_response : UpstreamError
  bad_request bad_target bad_upstream unknown_framing : UpstreamError
  chunk_line : Code → UpstreamError
  -- a `ValueError` that is no `ProxyProtocolError`
  plain_value_error : UpstreamError
  -- no exception of the source: a loop of the model that was cut off
  loop_cut_off : UpstreamError

-- `UpstreamResponseHead`
pub record ResponseHead : Type 0 where
  pub status : ℕ
  pub reason : Text
  pub version : Text
  pub headers : Headers
  pub content_length : Option ℕ
  pub chunked : Bool
  pub keep_alive : Bool
  pub informational : Bool
  pub body_expected : Bool

-- The text before the first blank, and behind it if there is one.
unfoldable pub cut_blank : Text → Text × Option Text
cut_blank line = elim (find 32 line) [
  | none ↦ (line, none)
  | some i ↦ (take i line, some (drop (suc i) line))
]

pub record StatusLine : Type 0 where
  pub version : Text
  pub status : ℕ
  pub reason : Text

-- A status of three digits, from 100 on.
unfoldable pub status_of : Text → Result UpstreamError ℕ
status_of status =
    if not (length status == 3) || not (all_digits status)
    then err bad_status
    else if ltb (decimal_from 0 status) 100
    then err bad_status
    else ok (decimal_from 0 status)

-- The parts of a status line, in the order of the checks.
unfoldable pub check_status : Text → Text → Text → Result UpstreamError StatusLine
unfolding status_of
check_status version status reason =
    let line : ℕ → StatusLine = λ n. record { version = version; status = n; reason = reason } in
    if not (text_eq version (codes "HTTP/1.0") || text_eq version (codes "HTTP/1.1"))
    then err bad_version
    else if not (length status == 3) || not (all_digits status)
    then err bad_status
    else if contains_bad_value_byte reason
    then err bad_reason
    else elim (status_of status) [ err e ↦ err e | ok n ↦ ok (line n) ]

unfoldable pub status_line : Text → Result UpstreamError StatusLine
unfolding cut_blank check_status
status_line line =
    let (version, rest) = cut_blank line in
    if is_empty line then err empty_status_line else elim rest [
      | none ↦ err bad_status_line
      | some second ↦
          (let (status, third) = cut_blank second in
            check_status version status (elim third [ none ↦ [] | some reason ↦ reason ]))
    ]

unfoldable pub decimal_length : ℕ → Text → Result UpstreamError (Option ℕ)
decimal_length max_body_bytes raw =
    if char_in 44 raw || is_empty raw
    then err ambiguous_length
    else if not (all_digits raw)
    then err bad_length
    else if ltb int_max_str_digits (length raw)
    then err plain_value_error
    else if ltb max_body_bytes (decimal_from 0 raw)
    then err body_too_large
    else ok (some (decimal_from 0 raw))

unfoldable pub length_of : ℕ → Option (List Text) → Result UpstreamError (Option ℕ)
unfolding decimal_length
length_of max_body_bytes none = ok none
length_of max_body_bytes (some (raw ∷ [])) = decimal_length max_body_bytes raw
length_of max_body_bytes (some values) = err ambiguous_length

unfoldable pub coding_of : Option ℕ → Option (List Text) → Result UpstreamError Bool
unfolding comma_tokens texts_eq
coding_of content_length none = ok false
coding_of (some n) (some values) = err ambiguous_framing
coding_of none (some values) =
    if texts_eq (comma_tokens (some values)) (codes "chunked" ∷ [])
    then ok true
    else err unsupported_transfer_coding

unfoldable pub may_keep_alive : Text → Option (List Text) → Bool
unfolding comma_tokens
may_keep_alive version connection =
    let tokens = comma_tokens connection in
    if text_in (codes "close") tokens
    then false
    else if text_eq version (codes "HTTP/1.0") && text_in (codes "keep-alive") tokens
    then true
    else text_eq version (codes "HTTP/1.1")

unfoldable pub expects_body : Text → ℕ → Bool
expects_body method status =
    not (text_eq method (codes "HEAD") || between 100 199 status || status == 204 || status == 304)

-- The body of a response goes on until the upstream closes.
unfoldable pub ends_by_close : Bool → ℕ → Option ℕ → Bool → Bool
ends_by_close body_expected status content_length chunked =
    not (between 100 199 status)
    && body_expected
    && not chunked
    && elim content_length [ none ↦ true | some n ↦ false ]

-- The head behind a status line.
unfoldable pub head_of : Text → ℕ → StatusLine → Headers → Names → Result UpstreamError ResponseHead
unfolding length_of coding_of may_keep_alive expects_body ends_by_close values_of
head_of method max_body_bytes line headers names =
    elim (length_of max_body_bytes (values_of (codes "content-length") names)) [
      | err e ↦ err e
      | ok content_length ↦
          elim (coding_of content_length (values_of (codes "transfer-encoding") names)) [
            | err e ↦ err e
            | ok chunked ↦
                let expected = expects_body method line.status in
                if line.status == 101
                then err upgrade_rejected
                else ok (record {
                  status = line.status;
                  reason = line.reason;
                  version = line.version;
                  headers = headers;
                  content_length = content_length;
                  chunked = chunked;
                  keep_alive =
                      not (ends_by_close expected line.status content_length chunked)
                      && may_keep_alive line.version (values_of (codes "connection") names);
                  informational = between 100 199 line.status;
                  body_expected = expected;
                })
          ]
    ]

-- `_parse_head`, apart from the state that the decoder goes to.
unfoldable pub parse_lines : Text → ℕ → ℕ → List Text → Result UpstreamError ResponseHead
unfolding status_line head_of parse_headers
parse_lines method max_header_count max_body_bytes [] = err empty_status_line
parse_lines method max_header_count max_body_bytes (first ∷ lines) = elim (status_line first) [
  | err e ↦ err e
  | ok line ↦ elim (parse_headers lines max_header_count) [
    | err e ↦ err bad_header
    | ok (headers, names) ↦ head_of method max_body_bytes line headers names
  ]
]
