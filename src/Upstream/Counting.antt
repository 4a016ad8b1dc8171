-- ===== src/Upstream/Counting.antt =====
-- The body bytes that a round of the decoder of pcc_gateway/proxy_http1.py passes on, and that it ends.
use pcc_gateway.Prelude.{
  ℕ, ◌+◌, ◌-◌, ◌*◌, ◌≤◌, ◌<◌, ◌≡◌, ◌≢◌, refl, ap, Bool, true, false, not, List, [], ◌∷◌, ◌++◌, Text,
  ltb, ◌==◌, if◌then◌else◌, is_empty, length, length-take, length-drop, take, drop, Result, err,
  arith, Bool-cases, Option-cases, Result-cases, inl, inr,
}
use pcc_gateway.Http1.Bytes.{find_crlf}
use pcc_gateway.Http1.Error.{Raised, http1_error, value_error, buffer_error, out_of_fuel}
use pcc_gateway.Http1.Ends.{Ends, parse_chunk_size_line-Ends}
use pcc_gateway.Http1.Chunk.{parse_chunk_size_line}
use pcc_gateway.Http1.Head.{Headers}
use pcc_gateway.Upstream.Response.{loop_cut_off, bad_chunk_ending, chunk_too_large, body_too_large}
use pcc_gateway.Upstream.Codec.{
  UpstreamState, at_head, fixed_body, chunk_size, chunk_data, chunk_crlf, trailers, until_eof,
  UpstreamCodec, UpstreamEvent, response_head, response_body, response_end, Round, raised, stopped,
  going, line_error, finish_round, taken, advanced, body_events, fixed_round, begin_chunk,
  size_round, data_round, starts_crlf, crlf_round, eof_round,
}
use pcc_gateway.Upstream.Lengths.{drop-find_crlf}

-- The bytes of the body events.
unfoldable pub body_total : List UpstreamEvent → ℕ
body_total [] = 0
body_total (response_head head ∷ events) = body_total events
body_total (response_body bytes ∷ events) = length bytes + body_total events
body_total (response_end fields ∷ events) = body_total events

pub body_total-append :
    (xs ys : List UpstreamEvent) → body_total (xs ++ ys) ≡ body_total xs + body_total ys
unfolding body_total
body_total-append [] ys = omega arith
body_total-append (response_head head ∷ xs) ys = body_total-append xs ys
body_total-append (response_body bytes ∷ xs) ys = omega (arith, body_total-append xs ys)
body_total-append (response_end fields ∷ xs) ys = body_total-append xs ys

body_total-body_events : (t : Text) → body_total (body_events t) ≡ length t
unfolding body_total
body_total-body_events [] = refl
body_total-body_events (b ∷ bs) = omega arith

-- The body bytes that a state still waits for.
abbrev pub pending : UpstreamState → ℕ → ℕ
pending fixed_body remaining = remaining
pending chunk_data remaining = remaining
pending _ remaining = 0

-- The body bytes that came before the head.
abbrev pub early : UpstreamState → ℕ → ℕ
early at_head received = received
early _ received = 0

-- The body is within its limit, what is still to come included, and there is none before the head.
pub record IsLimited (c : UpstreamCodec) : Type 0 where
  pub within : c.body_received + pending c.state c.remaining ≤ c.max_body_bytes
  pub fresh : early c.state c.body_received ≡ 0

-- A round from `c` to `next` that passes `events` on: the body bytes are counted, and the limits are kept.
pub record Counts (c next : UpstreamCodec) (events : List UpstreamEvent) : Type 0 where
  pub counted : next.body_received ≡ c.body_received + body_total events
  pub limited : IsLimited next
  pub limit : next.max_body_bytes ≡ c.max_body_bytes

abbrev pub is_data : UpstreamState → ℕ
is_data chunk_data = 1
is_data _ = 0

-- What a round that goes on makes smaller.
abbrev pub weight : UpstreamCodec → ℕ
weight c = 2 * length c.buffer + is_data c.state

abbrev pub Good : UpstreamCodec → Round → Type 0
Good c (raised e next) = e ≢ loop_cut_off
Good c (stopped next events) = Counts c next events
Good c (going next events) = Counts c next events × (weight next < weight c)

pub same-Counts : (c : UpstreamCodec) → IsLimited c → Counts c c []
unfolding body_total
same-Counts c l = record { counted = omega arith; limited = l; limit = refl }

pub finish_round-Good :
    (c next : UpstreamCodec) (events : List UpstreamEvent) (fields : Headers)
    → next.body_received ≡ c.body_received + body_total events
    → next.body_received ≤ next.max_body_bytes
    → next.max_body_bytes ≡ c.max_body_bytes
    → Good c (finish_round next events fields)
unfolding finish_round body_total
finish_round-Good c next events fields h k m = elim (Bool-cases (is_empty next.buffer)) [
  | inr e ↦ rw (e, finish_round) (λ p. cc)
  | inl e ↦
      rw (e, finish_round)
        record {
          counted = omega (arith, body_total-append events (response_end fields ∷ []));
          limited = record { within = omega arith; fresh = refl };
          limit = m;
        }
]

pub choice-Good :
    (c : UpstreamCodec) (b : Bool) (x y : Round)
    → (b ≡ true → Good c x)
    → (b ≡ false → Good c y)
    → Good c (if b then x else y)
choice-Good c true x y h k = h refl
choice-Good c false x y h k = k refl

-- What a body state takes from the buffer.
module _ (c : UpstreamCodec) where
  advanced-counted :
      (advanced c).body_received
      ≡ c.body_received + body_total (body_events (take (taken c) c.buffer))
  advanced-counted =
      omega
        (arith, body_total-body_events (take (taken c) c.buffer), length-take (taken c) c.buffer)

  advanced-within :
      c.body_received + c.remaining ≤ c.max_body_bytes
      → (advanced c).body_received + (advanced c).remaining ≤ c.max_body_bytes
  advanced-within h = omega arith

  advanced-length :
      is_empty c.buffer ≡ false
      → ((advanced c).remaining == 0) ≡ false
      → length (advanced c).buffer < length c.buffer
  advanced-length e f = ground (arith, e, f, length-drop (taken c) c.buffer)

  advanced-shorter : length (advanced c).buffer ≤ length c.buffer
  advanced-shorter = omega (arith, length-drop (taken c) c.buffer)

pub fixed_round-Good :
    (c : UpstreamCodec) → c.state ≡ fixed_body → IsLimited c → Good c (fixed_round c)
unfolding fixed_round
fixed_round-Good c s l =
    let events = body_events (take (taken c) c.buffer) in
    let bound : c.body_received + c.remaining ≤ c.max_body_bytes =
      omega (arith, l.within, ap (λ t. pending t c.remaining) s) in
    let more : Round = going (advanced c) events in
    let last = finish_round (advanced c) events [] in
    choice-Good c (is_empty c.buffer) (stopped c [])
      (if (advanced c).remaining == 0 then last else more) (λ e. same-Counts c l)
      λ e.
        choice-Good c ((advanced c).remaining == 0) last more
          (λ f.
            finish_round-Good c (advanced c) events [] (advanced-counted c)
              (omega (arith, advanced-within c bound)) refl)
          λ f. (
            record {
              counted = advanced-counted c;
              limited = record {
                within =
                    omega (
                      arith,
                      advanced-within c bound,
                      ap (λ t. pending t (c.remaining - taken c)) s,
                    );
                fresh = ap (λ t. early t (c.body_received + taken c)) s;
              };
              limit = refl;
            },
            omega (arith, advanced-length c e f),
          )

pub data_round-Good :
    (c : UpstreamCodec) → c.state ≡ chunk_data → IsLimited c → Good c (data_round c)
unfolding data_round
data_round-Good c s l =
    let events = body_events (take (taken c) c.buffer) in
    let bound : c.body_received + c.remaining ≤ c.max_body_bytes =
      omega (arith, l.within, ap (λ t. pending t c.remaining) s) in
    let more : Round = going (advanced c) events in
    let last : Round = going (record (advanced c) { state = chunk_crlf }) events in
    choice-Good c (is_empty c.buffer) (stopped c [])
      (if (advanced c).remaining == 0 then last else more) (λ e. same-Counts c l)
      λ e.
        choice-Good c ((advanced c).remaining == 0) last more
          (λ f. (
            record {
              counted = advanced-counted c;
              limited = record { within = omega (arith, advanced-within c bound); fresh = refl };
              limit = refl;
            },
            omega (arith, advanced-shorter c, ap is_data s),
          ))
          λ f. (
            record {
              counted = advanced-counted c;
              limited = record {
                within =
                    omega (
                      arith,
                      advanced-within c bound,
                      ap (λ t. pending t (c.remaining - taken c)) s,
                    );
                fresh = ap (λ t. early t (c.body_received + taken c)) s;
              };
              limit = refl;
            },
            omega (arith, advanced-length c e f),
          )

-- The limit without what is still to come.
pub received_at_most : (c : UpstreamCodec) → IsLimited c → c.body_received ≤ c.max_body_bytes
received_at_most c l = omega (arith, l.within)

pub crlf_round-Good : (c : UpstreamCodec) → IsLimited c → Good c (crlf_round c)
unfolding crlf_round body_total
crlf_round-Good c l =
    let next : Round = going (record c { buffer = drop 2 c.buffer; state = chunk_size }) [] in
    choice-Good c (ltb (length c.buffer) 2) (stopped c [])
      (if not (starts_crlf c.buffer) then raised bad_chunk_ending c else next)
      (λ e. same-Counts c l)
      λ e.
        choice-Good c (not (starts_crlf c.buffer)) (raised bad_chunk_ending c) next (λ f p. cc)
          λ f. (
            record {
              counted = omega arith;
              limited = record { within = omega (arith, received_at_most c l); fresh = refl };
              limit = refl;
            },
            ground (arith, e, length-drop 2 c.buffer),
          )

begin_chunk-Good :
    (c next : UpstreamCodec) (size : ℕ)
    → next.body_received ≡ c.body_received
    → next.max_body_bytes ≡ c.max_body_bytes
    → length next.buffer < length c.buffer
    → Good c (begin_chunk next size)
unfolding begin_chunk body_total
begin_chunk-Good c next size h m less =
    let ended : Round = going (record next { state = trailers }) [] in
    let begun : Round = going (record next { remaining = size; state = chunk_data }) [] in
    let sized = if size == 0 then ended else begun in
    let limited =
      if ltb next.max_body_bytes (next.body_received + size)
      then raised body_too_large next
      else sized in
    choice-Good c (ltb next.max_chunk_bytes size) (raised chunk_too_large next) limited (λ e p. cc)
      λ e.
        choice-Good c (ltb next.max_body_bytes (next.body_received + size))
          (raised body_too_large next) sized (λ f p. cc)
          λ f.
            choice-Good c (size == 0) ended begun
              (λ g. (
                record {
                  counted = omega (arith, h);
                  limited = record { within = ground (arith, f); fresh = refl };
                  limit = m;
                },
                omega (arith, less),
              ))
              λ g. (
                record {
                  counted = omega (arith, h);
                  limited = record { within = ground (arith, f); fresh = refl };
                  limit = m;
                },
                omega (arith, less),
              )

line_error-ne :
    (error : Raised) {r : Result Raised ℕ}
    → Ends r
    → r ≡ err error
    → line_error error ≢ loop_cut_off
line_error-ne (http1_error status code) ends e = λ p. cc
line_error-ne value_error ends e = λ p. cc
line_error-ne (buffer_error b) ends e = λ p. cc
line_error-ne out_of_fuel ends e = λ p. ends.never e

pub size_round-Good : (c : UpstreamCodec) → IsLimited c → Good c (size_round c)
unfolding size_round
size_round-Good c l = elim (Option-cases (find_crlf c.buffer)) [
  | inl e ↦ elim (Bool-cases (ltb 128 (length c.buffer))) [
    | inl f ↦ rw (e, f, size_round) (λ p. cc)
    | inr f ↦ rw (e, f, size_round) (same-Counts c l)
  ]
  | inr (marker, e) ↦
      let rest : UpstreamCodec = record c { buffer = drop (marker + 2) c.buffer } in
      elim (Bool-cases (ltb 128 marker)) [
        | inl f ↦ rw (e, f, size_round) (λ p. cc)
        | inr f ↦ elim (Result-cases (parse_chunk_size_line (take marker c.buffer))) [
          | inr (error, g) ↦
              rw (e, f, g, size_round)
                (line_error-ne error (parse_chunk_size_line-Ends (take marker c.buffer)) g)
          | inl (size, g) ↦
              rw (e, f, g, size_round)
                (begin_chunk-Good c rest size refl refl (drop-find_crlf c.buffer marker e))
        ]
      ]
]

pub eof_round-Good : (c : UpstreamCodec) → c.state ≡ until_eof → IsLimited c → Good c (eof_round c)
unfolding eof_round body_total
eof_round-Good c s l =
    let counted : UpstreamCodec = record c { body_received = c.body_received + length c.buffer } in
    let over : Round = raised body_too_large counted in
    let passed : Round = stopped (record counted { buffer = [] }) (response_body c.buffer ∷ []) in
    let too_long = ltb c.max_body_bytes (c.body_received + length c.buffer) in
    choice-Good c (is_empty c.buffer) (stopped c []) (if too_long then over else passed)
      (λ e. same-Counts c l)
      λ e.
        choice-Good c too_long over passed (λ f p. cc)
          λ f. record {
            counted = omega arith;
            limited = record {
              within = ground (arith, f, ap (λ t. pending t c.remaining) s);
              fresh = ap (λ t. early t (c.body_received + length c.buffer)) s;
            };
            limit = refl;
          }
