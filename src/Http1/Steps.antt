-- ===== src/Http1/Steps.antt =====
-- The rounds of the loop of `Http1ServerCodec._feed_pending` of pcc_gateway/http1.py, one function
-- for each state of the decoder.
use pcc_gateway.Prelude.{
  ℕ, ◌+◌, ◌-◌, Bool, true, false, not, ◌&&◌, ◌||◌, [], ◌∷◌, ◌++◌, none, some, Text, codes,
  split_crlf, ltb, leb, ◌==◌, if◌then◌else◌, length, take, drop, get_or, ok, err,
}
use pcc_gateway.Http1.Error.{
  http1_error, buffer_error, Code, body_too_large, headers_too_large, request_line_too_long,
  chunk_line_too_long, chunk_too_large, bad_chunk_ending, trailers_too_large, forbidden_trailer,
}
use pcc_gateway.Http1.Bytes.{find_double_crlf, find_crlf}
use pcc_gateway.Http1.Chunk.{parse_chunk_size_line}
use pcc_gateway.Http1.Head.{Headers, Names, RequestHead, values_of, parse_headers, parse_head}
use pcc_gateway.Http1.State.{
  body_chunk, Event, request_head, body, request_end, State, head, fixed_body, chunk_size,
  chunk_data, trailers, Codec, reset_message, begin_body, Feed, Turn, more, done, failed,
}

abbrev pub fail : ℕ → Code → Feed → Turn
fail status code f = failed (http1_error status code) f

abbrev pub emit : Event → Feed → Feed
emit e f = record f { events = f.events ++ e ∷ [] }

abbrev pub set_codec : Codec → Feed → Feed
set_codec c f = record f { codec = c }

-- A message is complete: `max_messages` of them end the call, where 0 stands for no limit.
unfoldable pub complete : ℕ → Feed → Turn
complete max f =
    let f' = record f { completed = f.completed + 1 } in
    if ltb 0 max && leb max (f.completed + 1) then done f' else more f'

unfoldable pub begin_message : ℕ → RequestHead → Feed → Turn
unfolding complete begin_body
begin_message max r f =
    let (c, has_body) = begin_body r f.codec in
    let f' = emit (request_head r) (set_codec c f) in
    if has_body then more f' else complete max (emit (request_end []) f')

unfoldable pub step_head : ℕ → Feed → Turn
unfolding begin_message
step_head max f =
    let c = f.codec in
    elim (find_double_crlf c.buffer) [
      | none ↦
          if ltb c.max_header_bytes (length c.buffer)
          then fail 431 headers_too_large f
          else elim (find_crlf c.buffer) [
            | some i ↦ done f
            | none ↦
                if ltb c.max_request_line (length c.buffer)
                then fail 414 request_line_too_long f
                else done f
          ]
      | some marker ↦
          if ltb c.max_header_bytes (marker + 4)
          then fail 431 headers_too_large f
          else (let f' = set_codec (record c { buffer = drop (marker + 4) c.buffer }) f in
              elim (parse_head c.max_request_line c.max_header_count c.max_body_bytes
                (take marker c.buffer)) [ err e ↦ failed e f' | ok r ↦ begin_message max r f' ])
    ]

-- `events.append(BodyChunk(chunk))`
unfoldable pub with_chunk : Text → Feed → (Feed → Turn) → Turn
unfolding body_chunk
with_chunk bytes f k = elim (body_chunk bytes f.heap) [
  | err e ↦ failed (buffer_error e) f
  | ok (chunk, h) ↦ k (emit (body chunk) (record f { heap = h }))
]

unfoldable pub after_fixed : ℕ → Feed → Turn
unfolding complete reset_message
after_fixed max f =
    if f.codec.remaining == 0
    then complete max (set_codec (reset_message f.codec) (emit (request_end []) f))
    else done f

unfoldable pub step_fixed_body : ℕ → Feed → Turn
unfolding after_fixed
step_fixed_body max f =
    let c = f.codec in
    let count = if ltb (length c.buffer) c.remaining then length c.buffer else c.remaining in
    let f' =
      set_codec
        (record c {
          buffer = drop count c.buffer;
          remaining = c.remaining - count;
          body_received = c.body_received + count;
        })
        f in
    if length c.buffer == 0
    then done f
    else if ltb 0 count
    then with_chunk (take count c.buffer) f' (after_fixed max)
    else after_fixed max f'

-- The limits on a chunk's size, and the state that follows.
unfoldable pub begin_chunk : ℕ → Feed → Turn
begin_chunk size f =
    let c = f.codec in
    if ltb c.max_chunk_bytes size
    then fail 413 chunk_too_large f
    else if ltb c.max_body_bytes (c.body_received + size)
    then fail 413 body_too_large f
    else if size == 0
    then more (set_codec (record c { state = trailers }) f)
    else more (set_codec (record c { remaining = size; state = chunk_data }) f)

unfoldable pub step_chunk_size : Feed → Turn
unfolding begin_chunk
step_chunk_size f =
    let c = f.codec in
    elim (find_crlf c.buffer) [
      | none ↦ if ltb 128 (length c.buffer) then fail 400 chunk_line_too_long f else done f
      | some marker ↦
          if ltb 128 marker
          then fail 400 chunk_line_too_long f
          else (let f' = set_codec (record c { buffer = drop (marker + 2) c.buffer }) f in
              elim (parse_chunk_size_line (take marker c.buffer)) [
                | err e ↦ failed e f'
                | ok size ↦ begin_chunk size f'
              ])
    ]

unfoldable pub chunk_done : Feed → Turn
chunk_done f = more (set_codec (record f.codec { state = chunk_size }) f)

unfoldable pub step_chunk_data : Feed → Turn
unfolding chunk_done
step_chunk_data f =
    let c = f.codec in
    let f' =
      set_codec
        (record c {
          buffer = drop (c.remaining + 2) c.buffer;
          remaining = 0;
          body_received = c.body_received + c.remaining;
        })
        f in
    if ltb (length c.buffer) (c.remaining + 2)
    then done f
    else if not (get_or c.buffer c.remaining 0 == 13)
        || not (get_or c.buffer (c.remaining + 1) 0 == 10)
    then fail 400 bad_chunk_ending f
    else with_chunk (take c.remaining c.buffer) f' chunk_done

unfoldable pub is_named : Text → Names → Bool
is_named name names = elim (values_of name names) [ none ↦ false | some values ↦ true ]

unfoldable pub end_message : ℕ → Headers → Feed → Turn
unfolding complete reset_message
end_message max fields f =
    complete max (set_codec (reset_message f.codec) (emit (request_end fields) f))

unfoldable pub step_trailers : ℕ → Feed → Turn
unfolding end_message is_named
step_trailers max f =
    let c = f.codec in
    if leb 2 (length c.buffer) && get_or c.buffer 0 0 == 13 && get_or c.buffer 1 0 == 10
    then end_message max [] (set_codec (record c { buffer = drop 2 c.buffer }) f)
    else elim (find_double_crlf c.buffer) [
      | none ↦
          if ltb c.max_header_bytes (length c.buffer) then fail 431 trailers_too_large f else done f
      | some marker ↦
          if ltb c.max_header_bytes (marker + 4)
          then fail 431 trailers_too_large f
          else (let f' = set_codec (record c { buffer = drop (marker + 4) c.buffer }) f in
              elim (parse_headers (split_crlf (take marker c.buffer)) c.max_header_count) [
                | err e ↦ failed e f'
                | ok (fields, names) ↦
                    if is_named (codes "content-length") names
                      || is_named (codes "transfer-encoding") names
                      || is_named (codes "host") names
                    then fail 400 forbidden_trailer f'
                    else end_message max fields f'
              ])
    ]

unfoldable pub step_in : State → ℕ → Feed → Turn
unfolding step_head step_fixed_body step_chunk_size step_chunk_data step_trailers
step_in head max f = step_head max f
step_in fixed_body max f = step_fixed_body max f
step_in chunk_size max f = step_chunk_size f
step_in chunk_data max f = step_chunk_data f
step_in trailers max f = step_trailers max f

-- One round of the loop of `_feed_pending`. The five states are all that there are, so the source's
-- last branch, an unknown state, has no counterpart.
unfoldable pub step : ℕ → Feed → Turn
unfolding step_in with_chunk
step max f = step_in f.codec.state max f
