-- ===== src/Dns/Framing.antt =====
-- Payloads of pcc_gateway/dns.py with and without the length that TCP puts before them.
use pcc_gateway.Prelude.{
  All, [], ◌∷◌, Bool-cases, inl, inr, ◌==◌, ◌↔◌, ◌⊎◌, ℕ, ◌+◌, ◌*◌, ◌/◌, ◌%◌, ◌≤◌, ◌<◌, Result, ◌≡◌,
  ◌≢◌, refl, ◌∙◌, ap, true, false, ◌||◌, Text, length, ok, err, arith, lt→leb,
}
use pcc_gateway.Dns.Wire.{DnsError, id_mismatch, bad_tcp_frame}
use pcc_gateway.Dns.Response.{parse_response}
use pcc_gateway.Dns.Operation.{Operation, Shared, framed, unframed, receive}

-- An operation that still waits for its answer.
pub record IsWaiting (o : Operation) (now_ms : ℕ) : Type 0 where
  pub alive : (o.is_cancelled || o.done) ≡ false
  pub timely : now_ms < o.deadline_ms

parse_response-framed :
    (message name : Text) (query_id qtype : ℕ)
    → 10 ≤ length message
    → length message ≤ 65535
    → length message ≢ query_id
    → parse_response (framed message) query_id name qtype ≡ err id_mismatch
unfolding parse_response framed
parse_response-framed message name query_id qtype low high apart =
    let size : length message / 256 % 256 * 256 + length message % 256 ≡ length message =
      omega arith in
    ground (arith, size)

receive-refused :
    (s : Shared) (payload : Text) (now_ms : ℕ) (e : DnsError)
    → IsWaiting s.operation now_ms
    → unframed s.operation.use_tcp payload ≡ err e
    → receive s payload now_ms ≡ (err e, s)
unfolding receive
receive-refused s payload now_ms e w h =
    let alive = w.alive in
    let timely = lt→leb s.operation.deadline_ms now_ms w.timely in
    rw (alive, timely, h, receive) refl

receive-unparsed :
    (s : Shared) (payload message : Text) (now_ms : ℕ) (e : DnsError)
    → IsWaiting s.operation now_ms
    → unframed s.operation.use_tcp payload ≡ ok message
    → parse_response message s.operation.query_id s.operation.name s.operation.qtype ≡ err e
    → receive s payload now_ms ≡ (err e, s)
unfolding receive
receive-unparsed s payload message now_ms e w h k =
    let alive = w.alive in
    let timely = lt→leb s.operation.deadline_ms now_ms w.timely in
    rw (alive, timely, h, k, receive) refl

-- An operation that was not told to use TCP takes the length of a TCP frame for the id of a reply: it refuses every
-- frame of 10 bytes or more, unless its length is the query's id.
pub receive-framed :
    (s : Shared) (message : Text) (now_ms : ℕ)
    → s.operation.use_tcp ≡ false
    → IsWaiting s.operation now_ms
    → 10 ≤ length message
    → length message ≤ 65535
    → length message ≢ s.operation.query_id
    → receive s (framed message) now_ms ≡ (err id_mismatch, s)
unfolding unframed
receive-framed s message now_ms plain w low high apart =
    receive-unparsed s (framed message) (framed message) now_ms id_mismatch w
      (ap (λ b. unframed b (framed message)) plain)
      (parse_response-framed message s.operation.name s.operation.query_id s.operation.qtype low
        high apart)

unfoldable pub IsBytes : Text → Type 0
IsBytes bytes = All (λ b. b < 256) bytes

-- A frame says how long its message is.
unframed-sized :
    (high low : ℕ) (message : Text)
    → high * 256 + low ≡ length message
    → unframed true (high ∷ low ∷ message) ≡ ok message
unfolding unframed
unframed-sized high low message h = ground arith

unframed-missized :
    (high low : ℕ) (message : Text)
    → high * 256 + low ≢ length message
    → unframed true (high ∷ low ∷ message) ≡ err bad_tcp_frame
unfolding unframed
unframed-missized high low message h = ground arith

pair :
    (high low : ℕ) (message : Text) (high' low' : ℕ)
    → high ≡ high'
    → low ≡ low'
    → ◌≡◌ {A = Text} (high ∷ low ∷ message) (high' ∷ low' ∷ message)
pair high low message high' low' h l = cc

sized-framed :
    (high low : ℕ) (message : Text)
    → high < 256
    → low < 256
    → high * 256 + low ≡ length message
    → high ∷ low ∷ message ≡ framed message
unfolding framed
sized-framed high low message h l e =
    pair high low message (length message / 256 % 256) (length message % 256) (omega arith)
      (omega arith)

unframed-framed :
    (message : Text) → length message ≤ 65535 → unframed true (framed message) ≡ ok message
unfolding framed
unframed-framed message short =
    unframed-sized (length message / 256 % 256) (length message % 256) message (omega arith)

short_refused : (payload : Text) → length payload < 2 → unframed true payload ≡ err bad_tcp_frame
unfolding unframed
short_refused payload h = ground arith

-- A payload of bytes is a frame, and is read as its message, or it is refused.
unframed-cases :
    (payload : Text)
    → IsBytes payload
    → ((message : Text) × (length message ≤ 65535)
        × (payload ≡ framed message)
        × (unframed true payload ≡ ok message))
      ⊎ (unframed true payload ≡ err bad_tcp_frame)
unfolding IsBytes
unframed-cases [] bytes = inr (short_refused [] (omega arith))
unframed-cases (b ∷ []) bytes = inr (short_refused (b ∷ []) (omega arith))
unframed-cases (high ∷ low ∷ message) (h, (l, rest)) =
    elim (Bool-cases (high * 256 + low == length message)) [
      | inl e ↦
          let size : high * 256 + low ≡ length message = ground arith in
          inl (
            message,
            omega (arith, size),
            sized-framed high low message h l size,
            unframed-sized high low message size,
          )
      | inr e ↦ inr (unframed-missized high low message (λ size. ground arith))
    ]

refused-absurd :
    (message : Text) (r : Result DnsError Text) → r ≡ err bad_tcp_frame → r ≢ ok message
refused-absurd message r h k = cc

-- With TCP, an operation reads a message of at most 65535 bytes from a payload of bytes exactly if the
-- payload is the frame that a query of these bytes has.
pub unframed_iff :
    (message payload : Text)
    → length message ≤ 65535
    → IsBytes payload
    → (unframed true payload ≡ ok message) ↔ (payload ≡ framed message)
unframed_iff message payload short bytes = (
  λ h. elim (unframed-cases payload bytes) [
    | inl (other, _, e, k) ↦ let same : other ≡ message = cc in e ∙ ap framed same
    | inr k ↦ absurd (refused-absurd message (unframed true payload) k h)
  ],
  λ e. ap (unframed true) e ∙ unframed-framed message short,
)

-- An operation that uses TCP refuses every payload of bytes that is not the frame of a message, as a payload by
-- UDP is not, and stays as it is.
pub receive-unframed :
    (s : Shared) (payload : Text) (now_ms : ℕ)
    → s.operation.use_tcp ≡ true
    → IsWaiting s.operation now_ms
    → IsBytes payload
    → ((message : Text) → length message ≤ 65535 → payload ≢ framed message)
    → receive s payload now_ms ≡ (err bad_tcp_frame, s)
receive-unframed s payload now_ms by_tcp w bytes apart =
    receive-refused s payload now_ms bad_tcp_frame w (
      ap (λ b. unframed b payload) by_tcp ∙ elim (unframed-cases payload bytes) [
        | inl (message, short, e, _) ↦ absurd (apart message short e)
        | inr k ↦ k
      ])
