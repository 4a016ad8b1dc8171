-- ===== src/Dns/Allowed.antt =====
-- The addresses that an operation of pcc_gateway/dns.py takes from its replies.
use pcc_gateway.Prelude.{
  ℕ, ◌≡◌, refl, sym, ◌∙◌, ap, Bool, true, false, not, ◌&&◌, ◌||◌, List, [], ◌∷◌, Text, leb, ◌==◌,
  if◌then◌else◌, is_empty, All, ok, arith, Bool-cases, Option-cases, Result-cases, inl, inr,
}
use pcc_gateway.Dns.Response.{Response, parse_response, answer_values}
use pcc_gateway.Dns.Policy.{
  AddressPolicy, Key, key_of, Binding, accept, remember, bind, sort_texts, find_key, put_key,
  is_rebinding, is_allow,
}
use pcc_gateway.Dns.Address.{
  AddressClass, unspecified, loopback, private, link_local, multicast, public, invalid,
  address_class,
}
use pcc_gateway.Dns.Accepts.{permits, IsAllowed, accept-IsAllowed}
use pcc_gateway.Dns.Rebinding.{accept-remember}
use pcc_gateway.Dns.Operation.{
  timed_out, Operation, Shared, unframed, negative_answer, positive_answer, use_response, receive,
}

module _ (kind : AddressClass) where
  -- The flags of a policy are not its bindings.
  permits-bindings :
      (policy : AddressPolicy) (bindings : List (Key × Binding))
      → permits (record policy { bindings = bindings }) kind ≡ permits policy kind
  permits-bindings policy bindings = elim kind [
    | unspecified ↦ refl
    | loopback ↦ refl
    | private ↦ refl
    | link_local ↦ refl
    | multicast ↦ refl
    | public ↦ refl
    | invalid ↦ refl
  ]

  bind-permits :
      (policy bound : AddressPolicy) (key : Key) (current : Binding)
      → bind policy key current ≡ ok bound
      → permits bound kind ≡ permits policy kind
  unfolding bind
  bind-permits policy bound key current h =
      let bindings = put_key key current policy.bindings in
      let changed : AddressPolicy = record policy { bindings = bindings } in
      let by : changed ≡ bound → permits bound kind ≡ permits policy kind =
        λ e. ap (λ p. permits p kind) (sym e) ∙ permits-bindings policy bindings in
      elim (Option-cases (find_key key policy.bindings)) [
        | inl e ↦ by (ground (arith, h, e))
        | inr (previous, e) ↦ elim (Bool-cases (is_rebinding policy.rebind_mode previous current)) [
          | inl f ↦ absurd (ground (arith, h, e, f))
          | inr f ↦ elim (Bool-cases (is_allow policy.rebind_mode)) [
            | inr g ↦ by (ground (arith, h, e, f, g))
            | inl g ↦
                let same : policy ≡ bound = ground (arith, h, e, f, g) in
                ap (λ p. permits p kind) (sym same)
          ]
        ]
      ]

  accept-permits :
      (policy bound : AddressPolicy) (name : Text) (values accepted : List Text) (qtype : ℕ)
      → accept policy name values qtype ≡ ok (accepted, bound)
      → permits bound kind ≡ permits policy kind
  unfolding remember
  accept-permits policy bound name values accepted qtype h =
      let (canonical, classes, g) = accept-remember policy bound name values accepted qtype h in
      let current : Binding = record {
        values = sort_texts canonical;
        classes = sort_texts classes;
      } in
      elim (Bool-cases (is_empty canonical)) [
        | inl e ↦
            let same : policy ≡ bound = ground (arith, g, e) in ap (λ p. permits p kind) (sym same)
        | inr e ↦ elim (Result-cases (bind policy (key_of name qtype) current)) [
          | inr (error, f) ↦ absurd (ground (arith, g, e, f))
          | inl (after, f) ↦
              let last : after ≡ bound = ground (arith, g, e, f) in
              ap (λ p. permits p kind) (sym last)
              ∙ bind-permits policy after (key_of name qtype) current f
        ]
      ]

-- What one policy lets pass, the same policy with more bindings lets pass.
IsAllowed-accept :
    (policy bound : AddressPolicy) (name : Text) (values accepted others : List Text) (qtype : ℕ)
    → accept policy name values qtype ≡ ok (accepted, bound)
    → All (IsAllowed policy qtype) others
    → All (IsAllowed bound qtype) others
IsAllowed-accept policy bound name values accepted [] qtype h all = tt
IsAllowed-accept policy bound name values accepted (other ∷ others) qtype h all = (
  record {
    spelling = all.0.spelling;
    normal = all.0.normal;
    allowed =
        accept-permits (address_class other) policy bound name values accepted qtype h
        ∙ all.0.allowed;
  },
  IsAllowed-accept policy bound name values accepted others qtype h all.1,
)

-- The addresses of an operation are ones that its policy allows.
abbrev pub HasAllowed : Shared → Type 0
HasAllowed s = All (IsAllowed s.policy s.operation.qtype) s.operation.values

positive_answer-HasAllowed :
    (s : Shared) (values : List Text) (ttl now_ms : ℕ)
    → HasAllowed s
    → HasAllowed (positive_answer s values ttl now_ms).1
unfolding positive_answer
positive_answer-HasAllowed s values ttl now_ms a =
    elim (Result-cases (accept s.policy s.operation.name values s.operation.qtype)) [
      | inr (e, f) ↦ rw (f, positive_answer) a
      | inl ((accepted, bound), f) ↦
          rw (f, positive_answer)
            (IsAllowed-accept s.policy bound s.operation.name values accepted accepted
              s.operation.qtype f
              (accept-IsAllowed s.policy bound s.operation.name values accepted s.operation.qtype
                f))
    ]

use_response-HasAllowed :
    (s : Shared) (response : Response) (now_ms : ℕ)
    → HasAllowed s
    → HasAllowed (use_response s response now_ms).1
unfolding use_response negative_answer
use_response-HasAllowed s response now_ms a =
    elim (Bool-cases (response.is_truncated && not s.operation.use_tcp)) [
      | inl e ↦ rw (e, use_response) a
      | inr e ↦ elim (Bool-cases (response.rcode == 3)) [
        | inl f ↦ rw (e, f, use_response) a
        | inr f ↦ elim (Bool-cases (response.rcode == 0)) [
          | inr g ↦ rw (e, f, g, use_response) a
          | inl g ↦
              elim (Result-cases (answer_values response s.operation.name s.operation.qtype)) [
                | inr (error, k) ↦ rw (e, f, g, k, use_response) a
                | inl ((values, ttl), k) ↦ elim (Bool-cases (is_empty values)) [
                  | inl l ↦ rw (e, f, g, k, l, use_response) a
                  | inr l ↦
                      rw (e, f, g, k, l, use_response)
                        (positive_answer-HasAllowed s values ttl now_ms a)
                ]
              ]
        ]
      ]
    ]

expired-HasAllowed :
    (b : Bool) (s : Shared)
    → HasAllowed s
    → HasAllowed (record s {
      operation =
          (if◌then◌else◌ {A = Bool × Operation} b
            (true, record s.operation { error = timed_out; done = true })
            (false, s.operation)).1;
    })
expired-HasAllowed true s a = a
expired-HasAllowed false s a = a

-- Whatever payload an operation receives, its addresses stay ones that its policy allows: in canonical form, of the type that
-- was asked for and of an allowed class.
pub receive-HasAllowed :
    (s : Shared) (payload : Text) (now_ms : ℕ)
    → HasAllowed s
    → HasAllowed (receive s payload now_ms).1
unfolding receive
receive-HasAllowed s payload now_ms a =
    elim (Bool-cases (s.operation.is_cancelled || s.operation.done)) [
      | inl e ↦ rw (e, receive) a
      | inr e ↦ elim (Bool-cases (leb s.operation.deadline_ms now_ms)) [
        | inl f ↦
            rw (e, f, receive)
              (expired-HasAllowed (not s.operation.done && not s.operation.is_cancelled && true) s
                a)
        | inr f ↦ elim (Result-cases (unframed s.operation.use_tcp payload)) [
          | inr (error, g) ↦ rw (e, f, g, receive) a
          | inl (message, g) ↦
              elim (Result-cases
                (parse_response message s.operation.query_id s.operation.name s.operation.qtype)) [
                  | inr (error, k) ↦ rw (e, f, g, k, receive) a
                  | inl (response, k) ↦
                      rw (e, f, g, k, receive) (use_response-HasAllowed s response now_ms a)
                ]
        ]
      ]
    ]
