-- ===== src/Upstream/Codec.antt =====
-- `Http1UpstreamCodec` of pcc_gateway/proxy_http1.py: one final response, and informational heads before it.
use pcc_gateway.Prelude.{
  ℕ, zero, suc, ◌+◌, ◌-◌, ◌*◌, Bool, true, false, not, ◌&&◌, ◌||◌, List, [], ◌∷◌, ◌++◌, Option,
  none, some, Text, codes, upper, split_crlf, ltb, ◌==◌, if◌then◌else◌, is_empty, length, take,
  drop, min, ℤ, pos, pos_part, leb_ℤ, Result, ok, err,
}
use pcc_gateway.Http1.Error.{Raised, http1_error, value_error, out_of_fuel, buffer_error}
use pcc_gateway.Http1.Bytes.{find_double_crlf, find_crlf}
use pcc_gateway.Http1.Chunk.{parse_chunk_size_line}
use pcc_gateway.Http1.Head.{Headers, Names, values_of, parse_headers}
use pcc_gateway.Proxy.Headers.{sanitize_hop_by_hop}
use pcc_gateway.Upstream.Response.{
  UpstreamError, ResponseHead, parse_lines, body_too_large, response_complete, headers_too_large,
  pipelined_response, chunk_line_too_long, chunk_too_large, bad_chunk_ending, trailers_too_large,
  bad_trailer, incomplete_response, chunk_line, plain_value_error, loop_cut_off,
}

pub data UpstreamState : Type 0 where
  at_head fixed_body chunk_size chunk_data chunk_crlf trailers until_eof completed : UpstreamState

pub record UpstreamCodec : Type 0 where
  pub request_method : Text
  pub max_header_bytes : ℕ
  pub max_header_count : ℕ
  pub max_body_bytes : ℕ
  pub max_chunk_bytes : ℕ
  pub buffer : Text
  pub state : UpstreamState
  pub remaining : ℕ
  pub body_received : ℕ
  pub complete : Bool
  pub closed : Bool

-- `__init__`; the limits on the body and on chunks are taken as natural numbers.
unfoldable pub new_codec : Text → ℤ → ℤ → ℕ → ℕ → Result UpstreamError UpstreamCodec
unfolding upper
new_codec request_method max_header_bytes max_header_count max_body_bytes max_chunk_bytes =
    if leb_ℤ max_header_bytes (pos 0) || leb_ℤ max_header_count (pos 0)
    then err plain_value_error
    else ok (record {
      request_method = upper request_method;
      max_header_bytes = pos_part max_header_bytes;
      max_header_count = pos_part max_header_count;
      max_body_bytes = max_body_bytes;
      max_chunk_bytes = max_chunk_bytes;
      buffer = [];
      state = at_head;
      remaining = 0;
      body_received = 0;
      complete = false;
      closed = false;
    })

-- `UpstreamResponseHead`, `UpstreamResponseBody` and `UpstreamResponseEnd`
pub data UpstreamEvent : Type 0 where
  response_head : ResponseHead → UpstreamEvent
  response_body : Text → UpstreamEvent
  response_end : Headers → UpstreamEvent

-- A round of the loop raises, ends the loop or goes on; its events come with it. What a call raised, its events
-- are lost to the caller.
pub data Round : Type 0 where
  raised : UpstreamError → UpstreamCodec → Round
  stopped : UpstreamCodec → List UpstreamEvent → Round
  going : UpstreamCodec → List UpstreamEvent → Round

abbrev pub finished_codec : UpstreamCodec → UpstreamCodec
finished_codec c = record c { state = completed; complete = true }

-- `_finish`, and the check for bytes behind the response.
unfoldable pub finish_round : UpstreamCodec → List UpstreamEvent → Headers → Round
finish_round c events fields =
    if is_empty c.buffer
    then stopped (finished_codec c) (events ++ response_end fields ∷ [])
    else raised pipelined_response (finished_codec c)

-- The body that a head frames: by a length, by chunks, or by the end of the connection.
unfoldable pub begin_body : UpstreamCodec → List UpstreamEvent → Option ℕ → Bool → Round
unfolding finish_round
begin_body c seen (some n) chunked =
    if n == 0
    then finish_round c seen []
    else going (record c { remaining = n; state = fixed_body }) seen
begin_body c seen none true = going (record c { state = chunk_size }) seen
begin_body c seen none false = going (record c { state = until_eof }) seen

-- Where the decoder goes from a head.
unfoldable pub after_head : UpstreamCodec → ResponseHead → Round
unfolding finish_round begin_body
after_head c head =
    let seen = response_head head ∷ [] in
    if head.informational
    then going c seen
    else if not head.body_expected
    then finish_round c seen []
    else begin_body c seen head.content_length head.chunked

unfoldable pub head_round : UpstreamCodec → Round
unfolding find_double_crlf split_crlf parse_lines after_head
head_round c = elim (find_double_crlf c.buffer) [
  | none ↦
      if ltb c.max_header_bytes (length c.buffer) then raised headers_too_large c else stopped c []
  | some marker ↦
      let rest : UpstreamCodec = record c { buffer = drop (marker + 4) c.buffer } in
      if ltb c.max_header_bytes (marker + 4)
      then raised headers_too_large c
      else elim (parse_lines c.request_method c.max_header_count c.max_body_bytes
          (split_crlf (take marker c.buffer))) [
            | err e ↦ raised e rest
            | ok head ↦ after_head rest head
          ]
]

-- The bytes of a body that are there.
abbrev pub taken : UpstreamCodec → ℕ
taken c = min c.remaining (length c.buffer)

abbrev pub advanced : UpstreamCodec → UpstreamCodec
advanced c = record c {
  buffer = drop (taken c) c.buffer;
  remaining = c.remaining - taken c;
  body_received = c.body_received + taken c;
}

-- `if chunk: events.append(…)`
abbrev pub body_events : Text → List UpstreamEvent
body_events [] = []
body_events (b ∷ bs) = response_body (b ∷ bs) ∷ []

unfoldable pub fixed_round : UpstreamCodec → Round
unfolding finish_round
fixed_round c =
    let events = body_events (take (taken c) c.buffer) in
    if is_empty c.buffer
    then stopped c []
    else if (advanced c).remaining == 0
    then finish_round (advanced c) events []
    else going (advanced c) events

-- The codec behind the line of a chunk's size.
unfoldable pub begin_chunk : UpstreamCodec → ℕ → Round
begin_chunk c size =
    if ltb c.max_chunk_bytes size
    then raised chunk_too_large c
    else if ltb c.max_body_bytes (c.body_received + size)
    then raised body_too_large c
    else if size == 0
    then going (record c { state = trailers }) []
    else going (record c { remaining = size; state = chunk_data }) []

-- The error of a line that is no chunk's size.
abbrev pub line_error : Raised → UpstreamError
line_error (http1_error status code) = chunk_line code
line_error value_error = plain_value_error
line_error (buffer_error e) = plain_value_error
line_error out_of_fuel = loop_cut_off

unfoldable pub size_round : UpstreamCodec → Round
unfolding find_crlf parse_chunk_size_line begin_chunk
size_round c = elim (find_crlf c.buffer) [
  | none ↦ if ltb 128 (length c.buffer) then raised chunk_line_too_long c else stopped c []
  | some marker ↦
      let rest : UpstreamCodec = record c { buffer = drop (marker + 2) c.buffer } in
      if ltb 128 marker
      then raised chunk_line_too_long c
      else elim (parse_chunk_size_line (take marker c.buffer)) [
        | err e ↦ raised (line_error e) rest
        | ok size ↦ begin_chunk rest size
      ]
]

unfoldable pub data_round : UpstreamCodec → Round
data_round c =
    let events = body_events (take (taken c) c.buffer) in
    if is_empty c.buffer
    then stopped c []
    else if (advanced c).remaining == 0
    then going (record (advanced c) { state = chunk_crlf }) events
    else going (advanced c) events

-- `self.buffer[:2] == b"\r\n"`
unfoldable pub starts_crlf : Text → Bool
starts_crlf (a ∷ b ∷ rest) = a == 13 && b == 10
starts_crlf _ = false

unfoldable pub crlf_round : UpstreamCodec → Round
unfolding starts_crlf
crlf_round c =
    if ltb (length c.buffer) 2
    then stopped c []
    else if not (starts_crlf c.buffer)
    then raised bad_chunk_ending c
    else going (record c { buffer = drop 2 c.buffer; state = chunk_size }) []

abbrev pub is_given : Option (List Text) → Bool
is_given none = false
is_given (some values) = true

-- The fields of a trailer block.
unfoldable pub end_trailers : UpstreamCodec → Headers → Names → Round
unfolding values_of sanitize_hop_by_hop finish_round
end_trailers c fields names =
    if is_given (values_of (codes "content-length") names)
      || is_given (values_of (codes "transfer-encoding") names)
    then raised bad_trailer c
    else finish_round c [] (sanitize_hop_by_hop fields)

unfoldable pub trailer_round : UpstreamCodec → Round
unfolding starts_crlf find_double_crlf split_crlf parse_headers end_trailers finish_round
trailer_round c =
    let blank : UpstreamCodec = record c { buffer = drop 2 c.buffer } in
    let block : Round = elim (find_double_crlf c.buffer) [
      | none ↦
          if ltb c.max_header_bytes (length c.buffer)
          then raised trailers_too_large c
          else stopped c []
      | some marker ↦
          let rest : UpstreamCodec = record c { buffer = drop (marker + 4) c.buffer } in
          if ltb c.max_header_bytes (marker + 4)
          then raised trailers_too_large c
          else elim (parse_headers (split_crlf (take marker c.buffer)) c.max_header_count) [
            | err e ↦ raised bad_trailer rest
            | ok (fields, names) ↦ end_trailers rest fields names
          ]
    ] in
    if starts_crlf c.buffer then finish_round blank [] [] else block

unfoldable pub eof_round : UpstreamCodec → Round
eof_round c =
    let counted : UpstreamCodec = record c { body_received = c.body_received + length c.buffer } in
    if is_empty c.buffer
    then stopped c []
    else if ltb c.max_body_bytes (c.body_received + length c.buffer)
    then raised body_too_large counted
    else stopped (record counted { buffer = [] }) (response_body c.buffer ∷ [])

-- One round of the loop of `feed`.
unfoldable pub round : UpstreamState → UpstreamCodec → Round
unfolding head_round fixed_round size_round data_round crlf_round trailer_round eof_round
round at_head = head_round
round fixed_body = fixed_round
round chunk_size = size_round
round chunk_data = data_round
round chunk_crlf = crlf_round
round trailers = trailer_round
round until_eof = eof_round
round completed = λ c. stopped c []

-- What a call returns or raises, with the decoder that it leaves.
abbrev pub Fed : Type 0
Fed = Result UpstreamError (List UpstreamEvent) × UpstreamCodec

-- What a round leaves of a call, with the rounds after it.
abbrev pub next_fed : (UpstreamCodec → List UpstreamEvent → Fed) → List UpstreamEvent → Round → Fed
next_fed after events (raised e next) = (err e, next)
next_fed after events (stopped next more) = (ok (events ++ more), next)
next_fed after events (going next more) = after next (events ++ more)

-- The loop of `feed`.
unfoldable pub feed_loop : ℕ → UpstreamCodec → List UpstreamEvent → Fed
unfolding round
feed_loop zero c events = (err loop_cut_off, c)
feed_loop (suc fuel) c events = next_fed (feed_loop fuel) events (round c.state c)

-- A round that goes on takes a byte, or ends the data of a chunk.
abbrev pub feed_fuel : UpstreamCodec → ℕ
feed_fuel c = 2 * length c.buffer + 2

-- `feed`
unfoldable pub feed : UpstreamCodec → Text → Fed
unfolding feed_loop
feed c bytes =
    let filled : UpstreamCodec = record c { buffer = c.buffer ++ bytes } in
    if c.closed || c.complete
    then if is_empty bytes then (ok [], c) else (err response_complete, c)
    else feed_loop (feed_fuel filled) filled []

abbrev pub is_until_eof : UpstreamState → Bool
is_until_eof until_eof = true
is_until_eof _ = false

-- `eof`; the call of `feed` in it finds the decoder closed and returns no event.
unfoldable pub eof : UpstreamCodec → Fed
unfolding feed
eof c =
    let shut : UpstreamCodec = record c { closed = true } in
    let (events, fed) = if shut.complete then (ok [], shut) else feed shut [] in
    if is_until_eof c.state
    then elim events [
      | err e ↦ (err e, fed)
      | ok seen ↦ (ok (seen ++ response_end [] ∷ []), finished_codec fed)
    ]
    else if c.complete
    then (ok [], shut)
    else (err incomplete_response, shut)
