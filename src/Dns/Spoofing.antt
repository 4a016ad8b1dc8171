-- ===== src/Dns/Spoofing.antt =====
-- What a reply must have before the resolver of pcc_gateway/dns.py takes an address from it.
use pcc_gateway.Prelude.{
  ℕ, ◌+◌, ◌*◌, ◌/◌, ◌%◌, ◌≡◌, ◌∙◌, ap, true, false, List, Text, text_eq_iff, ltb, ◌==◌, length,
  get_or, ok, arith, Bool-cases, Result-cases, inl, inr,
}
use pcc_gateway.Dns.Wire.{u16, decode_name, canonical_name, dns_class_in}
use pcc_gateway.Dns.Response.{Response, Answer, response_body, parse_response}

-- A response to a query: the id, the flag of a response, no other opcode, and the question itself.
pub record IsAnswering (query_id : ℕ) (name : Text) (qtype : ℕ) (payload : Text) : Type 0 where
  pub id : get_or payload 0 0 * 256 + get_or payload 1 0 ≡ query_id
  pub flagged : (get_or payload 2 0 * 256 + get_or payload 3 0) / 32768 % 2 ≡ 1
  pub opcode : (get_or payload 2 0 * 256 + get_or payload 3 0) / 2048 % 16 ≡ 0
  pub stop : ℕ
  pub named : decode_name payload 12 ≡ ok (canonical_name name, stop)
  pub typed : u16 payload stop ≡ ok qtype
  pub classed : u16 payload (stop + 2) ≡ ok dns_class_in

body_question :
    (payload name : Text) (qtype count : ℕ) (answers : List Answer)
    → response_body payload name qtype count ≡ ok answers
    → (stop : ℕ) × (decode_name payload 12 ≡ ok (canonical_name name, stop))
      × (u16 payload stop ≡ ok qtype)
      × (u16 payload (stop + 2) ≡ ok dns_class_in)
unfolding response_body
body_question payload name qtype count answers h = elim (Result-cases (decode_name payload 12)) [
  | inr (e, f) ↦ absurd (ground (arith, h, f))
  | inl ((found, stop), f) ↦ elim (Result-cases (u16 payload stop)) [
    | inr (e, g) ↦ absurd (ground (arith, h, f, g))
    | inl (found_type, g) ↦ elim (Result-cases (u16 payload (stop + 2))) [
      | inr (e, k) ↦ absurd (ground (arith, h, f, g, k))
      | inl (found_class, k) ↦
          let same : found ≡ canonical_name name =
            (text_eq_iff found (canonical_name name)).0 (ground (arith, h, f, g, k)) in
          let types : found_type ≡ qtype = ground (arith, h, f, g, k) in
          let classes : found_class ≡ dns_class_in = ground (arith, h, f, g, k) in
          (stop, f ∙ ap (λ t. ok (t, stop)) same, g ∙ ap ok types, k ∙ ap ok classes)
    ]
  ]
]

odd_bit : (n : ℕ) → (n % 2 == 0) ≡ false → n % 2 ≡ 1
odd_bit n h = ground arith

zero_test : (n : ℕ) → (n == 0) ≡ true → n ≡ 0
zero_test n h = ground arith

flag_tests :
    (payload : Text) (query_id : ℕ) (name : Text) (qtype : ℕ) (response : Response)
    → parse_response payload query_id name qtype ≡ ok response
    → (((get_or payload 2 0 * 256 + get_or payload 3 0) / 32768 % 2 == 0) ≡ false)
      × (((get_or payload 2 0 * 256 + get_or payload 3 0) / 2048 % 16 == 0) ≡ true)
unfolding parse_response
flag_tests payload query_id name qtype response h =
    let flags = get_or payload 2 0 * 256 + get_or payload 3 0 in
    elim (Bool-cases (ltb (length payload) 12)) [
      | inl e ↦ absurd (ground (arith, h, e))
      | inr e ↦ elim (Bool-cases (get_or payload 0 0 * 256 + get_or payload 1 0 == query_id)) [
        | inr f ↦ absurd (ground (arith, h, e, f))
        | inl f ↦ elim (Bool-cases (flags / 32768 % 2 == 0)) [
          | inl g ↦ absurd (ground (arith, h, e, f, g))
          | inr g ↦ elim (Bool-cases (flags / 2048 % 16 == 0)) [
            | inr k ↦ absurd (ground (arith, h, e, f, g, k))
            | inl k ↦ (g, k)
          ]
        ]
      ]
    ]

-- A payload that is accepted for a query has the query's id, is flagged as a response to a plain query, and echoes
-- the query's name, type and class.
pub parse_response-IsAnswering :
    (payload : Text) (query_id : ℕ) (name : Text) (qtype : ℕ) (response : Response)
    → parse_response payload query_id name qtype ≡ ok response
    → IsAnswering query_id name qtype payload
unfolding parse_response
parse_response-IsAnswering payload query_id name qtype response h =
    let count = get_or payload 6 0 * 256 + get_or payload 7 0 in
    let flags = get_or payload 2 0 * 256 + get_or payload 3 0 in
    let tests = flag_tests payload query_id name qtype response h in
    elim (Result-cases (response_body payload name qtype count)) [
      | inr (e, f) ↦ absurd (ground (arith, h, f))
      | inl (answers, f) ↦
          let (stop, named, typed, classed) = body_question payload name qtype count answers f in
          record {
            id = ground (arith, h, f);
            flagged = odd_bit (flags / 32768) tests.0;
            opcode = zero_test (flags / 2048 % 16) tests.1;
            stop = stop;
            named = named;
            typed = typed;
            classed = classed;
          }
    ]
