-- ===== src/Dns/Replying.antt =====
-- Queries and the replies to them, in pcc_gateway/dns.py.
use mathlib.Core.List.{append_assoc}
use pcc_gateway.Prelude.{
  ℕ, suc, ◌+◌, ◌*◌, ◌/◌, ◌%◌, ◌≤◌, ◌≡◌, sym, ◌∙◌, ap, false, [], ◌∷◌, ◌++◌, Text, text_eq_refl,
  ==_refl, length, length-append, get_or, take, drop, pos, ok, arith, Result-cases, inl, inr,
}
use pcc_gateway.Dns.Wire.{
  u16, encode_name, decode_name, canonical_name, put_u16, query_of, build_query, dns_class_in,
}
use pcc_gateway.Dns.Names.{decode_name-encode_name}
use pcc_gateway.Dns.Response.{answers_loop, response_body, parse_response}

-- The reply that says nothing but that the query came: its question, and no answer.
abbrev pub empty_reply : Text → Text
empty_reply query = take 2 query ++ 128 ∷ 0 ∷ drop 4 query

-- A query, with the question behind its header.
record IsQuery (query_id : ℕ) (name : Text) (qtype : ℕ) (query : Text) : Type 0 where
  question : Text
  encoded : encode_name name ≡ ok question
  written :
      query
      ≡ put_u16 query_id
        ++ (put_u16 256
            ++ (put_u16 1
                ++ (put_u16 0
                    ++ (put_u16 0
                        ++ (put_u16 0 ++ (question ++ (put_u16 qtype ++ put_u16 dns_class_in)))))))
  id_bound : query_id ≤ 65535
  type_bound : qtype ≤ 65535

build_query-IsQuery :
    (query_id : ℕ) (name : Text) (qtype : ℕ) (query : Text)
    → build_query (pos query_id) name qtype ≡ ok query
    → IsQuery query_id name qtype query
unfolding build_query query_of
build_query-IsQuery query_id name qtype query h = elim (Result-cases (encode_name name)) [
  | inr (e, f) ↦ absurd (ground (arith, h, f))
  | inl (question, f) ↦ record {
    question = question;
    encoded = f;
    written = ground (arith, h, f);
    id_bound = ground (arith, h);
    type_bound = ground (arith, h);
  }
]

get_or_after : (xs ys : Text) (i d : ℕ) → get_or (xs ++ ys) (length xs + i) d ≡ get_or ys i d
get_or_after [] ys i d =
    let none_before : 0 + i ≡ i = omega arith in ap (λ n. get_or ys n d) none_before
get_or_after (x ∷ xs) ys i d =
    let one_before : suc (length xs) + i ≡ suc (length xs + i) = omega arith in
    ap (λ n. get_or (x ∷ (xs ++ ys)) n d) one_before ∙ get_or_after xs ys i d

-- A number of 16 bits is read back where it was put.
u16_put :
    (front back : Text) (value offset : ℕ)
    → value ≤ 65535
    → offset ≡ length front
    → u16 (front ++ (put_u16 value ++ back)) offset ≡ ok value
unfolding u16
u16_put front back value offset h e =
    let bytes = front ++ (put_u16 value ++ back) in
    let low : get_or bytes (length front + 0) 0 ≡ value / 256 % 256 =
      get_or_after front (put_u16 value ++ back) 0 0 in
    let high : get_or bytes (length front + 1) 0 ≡ value % 256 =
      get_or_after front (put_u16 value ++ back) 1 0 in
    let start : offset ≡ length front + 0 = omega (arith, e) in
    let second : offset + 1 ≡ length front + 1 = omega (arith, e) in
    let low_at : get_or bytes offset 0 ≡ value / 256 % 256 =
      ap (λ n. get_or bytes n 0) start ∙ low in
    let high_at : get_or bytes (offset + 1) 0 ≡ value % 256 =
      ap (λ n. get_or bytes n 0) second ∙ high in
    ground (arith, low_at, high_at, length-append front (put_u16 value ++ back))

module _ (query_id : ℕ) (name : Text) (qtype : ℕ) (question : Text) where
  abbrev header : Text
  header = put_u16 query_id ++ (128 ∷ 0 ∷ 0 ∷ 1 ∷ 0 ∷ 0 ∷ 0 ∷ 0 ∷ 0 ∷ 0 ∷ [])

  abbrev reply : Text
  reply = header ++ (question ++ (put_u16 qtype ++ put_u16 dns_class_in))

  reply_body :
      encode_name name ≡ ok question → qtype ≤ 65535 → response_body reply name qtype 0 ≡ ok []
  unfolding response_body answers_loop
  reply_body h t =
      let tail = put_u16 qtype ++ put_u16 dns_class_in in
      let named : decode_name reply 12 ≡ ok (canonical_name name, 12 + length question) =
        decode_name-encode_name name question header tail h in
      let apart : header ++ (question ++ tail)
          ≡ (header ++ question) ++ (put_u16 qtype ++ put_u16 dns_class_in) =
        sym (append_assoc header question tail) in
      let typed : u16 reply (12 + length question) ≡ ok qtype =
        ap (λ b. u16 b (12 + length question)) apart
        ∙ u16_put (header ++ question) (put_u16 dns_class_in) qtype (12 + length question) t
            (omega (arith, length-append header question)) in
      let classed : u16 reply (12 + length question + 2) ≡ ok dns_class_in =
        ap (λ b. u16 b (12 + length question + 2))
          (apart ∙ sym (append_assoc (header ++ question) (put_u16 qtype) (put_u16 dns_class_in)))
        ∙ u16_put (header ++ question ++ put_u16 qtype) [] dns_class_in (12 + length question + 2)
            (omega arith)
            (omega (
              arith,
              length-append header question,
              length-append (header ++ question) (put_u16 qtype),
            )) in
      ground (arith, named, typed, classed, text_eq_refl (canonical_name name), ==_refl qtype)

  reply_lem :
      encode_name name ≡ ok question
      → qtype ≤ 65535
      → query_id ≤ 65535
      → parse_response reply query_id name qtype
        ≡ ok (record { query_id = query_id; is_truncated = false; rcode = 0; answers = [] })
  unfolding parse_response
  reply_lem h t i =
      let same : query_id / 256 % 256 * 256 + query_id % 256 ≡ query_id = omega arith in
      ground (arith, same, reply_body h t)

-- The query that `build_query` makes is answered by its own echo: the reply with the id and the question of the query, and
-- no answer, is accepted for it.
pub parse_response-build_query :
    (query_id : ℕ) (name : Text) (qtype : ℕ) (query : Text)
    → build_query (pos query_id) name qtype ≡ ok query
    → parse_response (empty_reply query) query_id name qtype
      ≡ ok (record { query_id = query_id; is_truncated = false; rcode = 0; answers = [] })
parse_response-build_query query_id name qtype query h =
    let q = build_query-IsQuery query_id name qtype query h in
    ap (λ t. parse_response (empty_reply t) query_id name qtype) q.written
    ∙ reply_lem query_id name qtype q.question q.encoded q.type_bound q.id_bound
