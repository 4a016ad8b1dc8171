-- ===== src/Upstream/Feeding.antt =====
-- What every call of `feed` of pcc_gateway/proxy_http1.py passes on, and that it ends.
use pcc_gateway.Prelude.{
  ℕ, zero, suc, ◌+◌, ◌≤◌, ◌<◌, ◌≡◌, ◌≢◌, refl, sym, ◌∙◌, ap, Bool, true, false, not, ◌||◌, List, [],
  ◌∷◌, ◌++◌, Option, none, some, Text, codes, split_crlf, ltb, ◌==◌, if◌then◌else◌, is_empty,
  length, take, drop, ok, err, arith, Bool-cases, Option-cases, Result-cases, inl, inr,
}
use pcc_gateway.Http1.Bytes.{find_double_crlf}
use pcc_gateway.Http1.Head.{Headers, Names, values_of, parse_headers}
use pcc_gateway.Proxy.Headers.{sanitize_hop_by_hop}
use pcc_gateway.Upstream.Response.{loop_cut_off, bad_trailer, ResponseHead, parse_lines}
use pcc_gateway.Upstream.Codec.{
  UpstreamState, at_head, fixed_body, chunk_size, chunk_data, chunk_crlf, trailers, until_eof,
  completed, UpstreamCodec, UpstreamEvent, response_head, Round, raised, stopped, going,
  finish_round, begin_body, Fed, next_fed, feed_loop, feed_fuel, feed, after_head, head_round,
  starts_crlf, is_given, end_trailers, trailer_round, round,
}
use pcc_gateway.Upstream.Lengths.{Within, parse_lines-ne, parse_lines-Within, drop-find_double_crlf}
use pcc_gateway.Upstream.Counting.{
  body_total, body_total-append, pending, early, IsLimited, Counts, is_data, weight, Good,
  same-Counts, finish_round-Good, choice-Good, fixed_round-Good, data_round-Good, received_at_most,
  crlf_round-Good, size_round-Good, eof_round-Good,
}

end_trailers-Good :
    (c next : UpstreamCodec) (fields : Headers) (names : Names)
    → next.body_received ≡ c.body_received
    → next.body_received ≤ next.max_body_bytes
    → next.max_body_bytes ≡ c.max_body_bytes
    → Good c (end_trailers next fields names)
unfolding end_trailers body_total
end_trailers-Good c next fields names h k m =
    let banned =
      is_given (values_of (codes "content-length") names)
      || is_given (values_of (codes "transfer-encoding") names) in
    let last = finish_round next [] (sanitize_hop_by_hop fields) in
    choice-Good c banned (raised bad_trailer next) last (λ e p. cc)
      λ e. finish_round-Good c next [] (sanitize_hop_by_hop fields) (omega (arith, h)) k m

trailer_round-Good : (c : UpstreamCodec) → IsLimited c → Good c (trailer_round c)
unfolding trailer_round body_total
trailer_round-Good c l = elim (Bool-cases (starts_crlf c.buffer)) [
  | inl e ↦
      rw (e, trailer_round)
        (finish_round-Good c (record c { buffer = drop 2 c.buffer }) [] [] (omega arith)
          (received_at_most c l) refl)
  | inr e ↦ elim (Option-cases (find_double_crlf c.buffer)) [
    | inl f ↦ elim (Bool-cases (ltb c.max_header_bytes (length c.buffer))) [
      | inl g ↦ rw (e, f, g, trailer_round) (λ p. cc)
      | inr g ↦ rw (e, f, g, trailer_round) (same-Counts c l)
    ]
    | inr (marker, f) ↦
        let rest : UpstreamCodec = record c { buffer = drop (marker + 4) c.buffer } in
        elim (Bool-cases (ltb c.max_header_bytes (marker + 4))) [
          | inl g ↦ rw (e, f, g, trailer_round) (λ p. cc)
          | inr g ↦
              elim (Result-cases
                (parse_headers (split_crlf (take marker c.buffer)) c.max_header_count)) [
                  | inr (error, k) ↦ rw (e, f, g, k, trailer_round) (λ p. cc)
                  | inl ((fields, names), k) ↦
                      rw (e, f, g, k, trailer_round)
                        (end_trailers-Good c rest fields names refl (received_at_most c l) refl)
                ]
        ]
  ]
]

begin_body-Good :
    (c next : UpstreamCodec) (seen : List UpstreamEvent) (o : Option ℕ) (chunked : Bool)
    → body_total seen ≡ 0
    → next.body_received ≡ 0
    → next.body_received ≡ c.body_received
    → next.max_body_bytes ≡ c.max_body_bytes
    → length next.buffer < length c.buffer
    → Within next.max_body_bytes o
    → Good c (begin_body next seen o chunked)
unfolding begin_body
begin_body-Good c next seen (some n) chunked t z h m less w =
    choice-Good c (n == 0) (finish_round next seen [])
      (going (record next { remaining = n; state = fixed_body }) seen)
      (λ e. finish_round-Good c next seen [] (omega (arith, t, h)) (omega (arith, z)) m)
      λ e. (
        record {
          counted = omega (arith, t, h);
          limited = record { within = omega (arith, z, w); fresh = refl };
          limit = m;
        },
        omega (arith, less),
      )
begin_body-Good c next seen none true t z h m less w = (
  record {
    counted = omega (arith, t, h);
    limited = record { within = omega (arith, z); fresh = refl };
    limit = m;
  },
  omega (arith, less),
)
begin_body-Good c next seen none false t z h m less w = (
  record {
    counted = omega (arith, t, h);
    limited = record { within = omega (arith, z); fresh = refl };
    limit = m;
  },
  omega (arith, less),
)

after_head-Good :
    (c next : UpstreamCodec) (head : ResponseHead)
    → next.state ≡ at_head
    → next.body_received ≡ 0
    → next.body_received ≡ c.body_received
    → next.max_body_bytes ≡ c.max_body_bytes
    → length next.buffer < length c.buffer
    → Within next.max_body_bytes head.content_length
    → Good c (after_head next head)
unfolding after_head body_total
after_head-Good c next head s z h m less w =
    let seen = response_head head ∷ [] in
    let begun = begin_body next seen head.content_length head.chunked in
    let last = finish_round next seen [] in
    let again : Round = going next seen in
    choice-Good c head.informational again (if not head.body_expected then last else begun)
      (λ e. (
        record {
          counted = omega (arith, h);
          limited = record {
            within = omega (arith, z, ap (λ t. pending t next.remaining) s);
            fresh = ap (λ t. early t next.body_received) s ∙ z;
          };
          limit = m;
        },
        omega (arith, less, ap is_data s),
      ))
      λ e.
        choice-Good c (not head.body_expected) last begun
          (λ f. finish_round-Good c next seen [] (omega (arith, h)) (omega (arith, z)) m)
          λ f. begin_body-Good c next seen head.content_length head.chunked refl z h m less w

head_round-Good : (c : UpstreamCodec) → c.state ≡ at_head → IsLimited c → Good c (head_round c)
unfolding head_round
head_round-Good c s l = elim (Option-cases (find_double_crlf c.buffer)) [
  | inl e ↦ elim (Bool-cases (ltb c.max_header_bytes (length c.buffer))) [
    | inl f ↦ rw (e, f, head_round) (λ p. cc)
    | inr f ↦ rw (e, f, head_round) (same-Counts c l)
  ]
  | inr (marker, e) ↦
      let rest : UpstreamCodec = record c { buffer = drop (marker + 4) c.buffer } in
      let lines = split_crlf (take marker c.buffer) in
      let zero_received : c.body_received ≡ 0 =
        sym (ap (λ t. early t c.body_received) s) ∙ l.fresh in
      elim (Bool-cases (ltb c.max_header_bytes (marker + 4))) [
        | inl f ↦ rw (e, f, head_round) (λ p. cc)
        | inr f ↦
            elim (Result-cases
              (parse_lines c.request_method c.max_header_count c.max_body_bytes lines)) [
                | inr (error, g) ↦
                    rw (e, f, g, head_round)
                      (parse_lines-ne c.request_method c.max_header_count c.max_body_bytes lines
                        error g)
                | inl (head, g) ↦
                    rw (e, f, g, head_round)
                      (after_head-Good c rest head s zero_received refl refl
                        (drop-find_double_crlf c.buffer marker e)
                        (parse_lines-Within c.request_method c.max_header_count c.max_body_bytes
                          lines head g))
              ]
      ]
]

round-Good :
    (s : UpstreamState) (c : UpstreamCodec) → c.state ≡ s → IsLimited c → Good c (round s c)
unfolding round
round-Good at_head c e l = head_round-Good c e l
round-Good fixed_body c e l = fixed_round-Good c e l
round-Good chunk_size c e l = size_round-Good c l
round-Good chunk_data c e l = data_round-Good c e l
round-Good chunk_crlf c e l = crlf_round-Good c l
round-Good trailers c e l = trailer_round-Good c l
round-Good until_eof c e l = eof_round-Good c e l
round-Good completed c e l = same-Counts c l

Counts-trans :
    (a b c : UpstreamCodec) (xs ys : List UpstreamEvent)
    → Counts a b xs
    → Counts b c ys
    → Counts a c (xs ++ ys)
Counts-trans a b c xs ys h k = record {
  counted = omega (arith, h.counted, k.counted, body_total-append xs ys);
  limited = k.limited;
  limit = k.limit ∙ h.limit;
}

is_data-le : (s : UpstreamState) → is_data s ≤ 1
is_data-le at_head = omega arith
is_data-le fixed_body = omega arith
is_data-le chunk_size = omega arith
is_data-le chunk_data = omega arith
is_data-le chunk_crlf = omega arith
is_data-le trailers = omega arith
is_data-le until_eof = omega arith
is_data-le completed = omega arith

weight_less : (c : UpstreamCodec) → weight c < feed_fuel c
weight_less c = omega (arith, is_data-le c.state)

-- What a call of `feed` from a decoder `start` leaves: the loop was not cut off, and the body bytes that it returns are counted.
abbrev pub IsFed : UpstreamCodec → Fed → Type 0
IsFed start (err e, next) = e ≢ loop_cut_off
IsFed start (ok events, next) = Counts start next events

next_fed-IsFed :
    (start c : UpstreamCodec) (events : List UpstreamEvent)
    (after : UpstreamCodec → List UpstreamEvent → Fed) (r : Round)
    → Counts start c events
    → Good c r
    → ((next : UpstreamCodec) (all : List UpstreamEvent)
        → Counts start next all
        → weight next < weight c
        → IsFed start (after next all))
    → IsFed start (next_fed after events r)
next_fed-IsFed start c events after (raised e next) h good k = good
next_fed-IsFed start c events after (stopped next more) h good k =
    Counts-trans start c next events more h good
next_fed-IsFed start c events after (going next more) h good k =
    k next (events ++ more) (Counts-trans start c next events more h good.0) good.1

feed_loop-IsFed :
    (fuel : ℕ) (start c : UpstreamCodec) (events : List UpstreamEvent)
    → Counts start c events
    → weight c < fuel
    → IsFed start (feed_loop fuel c events)
unfolding feed_loop
feed_loop-IsFed zero start c events h less = absurd (omega (arith, less))
feed_loop-IsFed (suc fuel) start c events h less =
    next_fed-IsFed start c events (feed_loop fuel) (round c.state c) h
      (round-Good c.state c refl h.limited)
      λ next all k smaller. feed_loop-IsFed fuel start next all k (omega (arith, less, smaller))

-- Every call of `feed` ends. If it returns events, the body bytes in them are exactly those that the decoder counts, and the count,
-- with what the head or the chunk still announces, stays within the limit on the body.
pub feed-IsFed : (c : UpstreamCodec) (bytes : Text) → IsLimited c → IsFed c (feed c bytes)
unfolding feed body_total
feed-IsFed c bytes l =
    let filled : UpstreamCodec = record c { buffer = c.buffer ++ bytes } in
    let same : Counts c c [] = record { counted = omega arith; limited = l; limit = refl } in
    let start : Counts c filled [] = record {
      counted = omega arith;
      limited = record { within = l.within; fresh = l.fresh };
      limit = refl;
    } in
    elim (Bool-cases (c.closed || c.complete)) [
      | inl e ↦ elim (Bool-cases (is_empty bytes)) [
        | inl f ↦ rw (e, f, feed) same
        | inr f ↦ rw (e, f, feed) (λ p. cc)
      ]
      | inr e ↦
          rw (e, feed) (feed_loop-IsFed (feed_fuel filled) c filled [] start (weight_less filled))
    ]
