-- ===== src/Dns/Deadlines.antt =====
-- The deadline of an operation of pcc_gateway/dns.py.
use pcc_gateway.Prelude.{
  ℕ, ◌≡◌, refl, not, ◌&&◌, List, Text, ◌==◌, is_empty, arith, Bool-cases, Result-cases, inl, inr,
}
use pcc_gateway.Dns.Operation.{
  Failure, nxdomain, no_address, Shared, receive, unframed, use_response, negative_answer,
  positive_answer, check_deadline,
}
use pcc_gateway.Dns.Response.{Response, parse_response, answer_values}

positive_answer-deadline :
    (s : Shared) (values : List Text) (ttl now_ms : ℕ)
    → (positive_answer s values ttl now_ms).1.operation.deadline_ms ≡ s.operation.deadline_ms
unfolding positive_answer
positive_answer-deadline s values ttl now_ms = ground arith

negative_answer-deadline :
    (s : Shared) (why : Failure) (now_ms : ℕ)
    → (negative_answer s why now_ms).operation.deadline_ms ≡ s.operation.deadline_ms
unfolding negative_answer
negative_answer-deadline s why now_ms = refl

use_response-deadline :
    (s : Shared) (response : Response) (now_ms : ℕ)
    → (use_response s response now_ms).1.operation.deadline_ms ≡ s.operation.deadline_ms
unfolding use_response
use_response-deadline s response now_ms =
    elim (Bool-cases (response.is_truncated && not s.operation.use_tcp)) [
      | inl e ↦ rw (e, use_response) refl
      | inr e ↦ elim (Bool-cases (response.rcode == 3)) [
        | inl f ↦ rw (e, f, use_response) (negative_answer-deadline s nxdomain now_ms)
        | inr f ↦ elim (Bool-cases (response.rcode == 0)) [
          | inr g ↦ rw (e, f, g, use_response) refl
          | inl g ↦
              elim (Result-cases (answer_values response s.operation.name s.operation.qtype)) [
                | inr (error, k) ↦ rw (e, f, g, k, use_response) refl
                | inl ((values, ttl), k) ↦ elim (Bool-cases (is_empty values)) [
                  | inl l ↦
                      rw (e, f, g, k, l, use_response)
                        (negative_answer-deadline s no_address now_ms)
                  | inr l ↦
                      rw (e, f, g, k, l, use_response)
                        (positive_answer-deadline s values ttl now_ms)
                ]
              ]
        ]
      ]
    ]

pub receive-deadline :
    (s : Shared) (payload : Text) (now_ms : ℕ)
    → (receive s payload now_ms).1.operation.deadline_ms ≡ s.operation.deadline_ms
unfolding receive check_deadline
receive-deadline s payload now_ms = elim (Result-cases (unframed s.operation.use_tcp payload)) [
  | inr (e, f) ↦ ground (arith, f)
  | inl (message, f) ↦
      elim (Result-cases
        (parse_response message s.operation.query_id s.operation.name s.operation.qtype)) [
          | inr (e, g) ↦ ground (arith, f, g)
          | inl (response, g) ↦ ground (arith, f, g, use_response-deadline s response now_ms)
        ]
]
