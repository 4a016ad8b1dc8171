-- ===== src/Dns/Begins.antt =====
-- What the resolver of pcc_gateway/dns.py starts: its query ids and its drivers.
use pcc_gateway.Prelude.{
  ℕ, ◌+◌, ◌%◌, ◌≤◌, ◌<◌, ◌≡◌, refl, Bool, true, false, not, ◌&&◌, ◌||◌, List, [], ◌∷◌, Text, codes,
  leb, ◌==◌, if◌then◌else◌, length, Result, ok, err, arith, Bool-cases, Option-cases, Result-cases,
  inl, inr,
}
use pcc_gateway.Dns.Wire.{DnsError, value_error, dns_a, dns_aaaa}
use pcc_gateway.Dns.Address.{normalize_numeric_address}
use pcc_gateway.Dns.Cache.{CacheEntry, get}
use pcc_gateway.Dns.Policy.{accept}
use pcc_gateway.Dns.Operation.{Operation, new_operation}
use pcc_gateway.Dns.Lines.{lookup}
use pcc_gateway.Dns.Bounded.{IsBounded}
use pcc_gateway.Dns.Drives.{new_driver-IsBounded}
use pcc_gateway.Dns.Resolver.{
  Resolver, next_id, allocate_operation, Begun, finished, asking, known_values, ask_servers,
  ask_cache, look_up, expired_start, begin_driver, shared_of, cached_values,
}

-- The ids of queries are 16-bit numbers that are not 0.
pub record IsReady (r : Resolver) : Type 0 where
  pub id_low : 0 < r.next_query_id
  pub id_high : r.next_query_id ≤ 65535
  pub tolerant : 0 < r.config.max_invalid_replies

new_operation-deadline :
    (query_id : ℕ) (name : Text) (qtype deadline_ms : ℕ) (o : Operation)
    → new_operation query_id name qtype deadline_ms ≡ ok o
    → o.deadline_ms ≡ deadline_ms
unfolding new_operation
new_operation-deadline query_id name qtype deadline_ms o h = ground arith

next_id-bound : (n : ℕ) → (0 < next_id n) × (next_id n ≤ 65535)
unfolding next_id
next_id-bound n = (ground arith, ground arith)

allocate-IsReady :
    (r : Resolver) (name : Text) (qtype deadline_ms : ℕ)
    → IsReady r
    → IsReady (allocate_operation r name qtype deadline_ms).1
unfolding allocate_operation
allocate-IsReady r name qtype deadline_ms i = record {
  id_low = (next_id-bound r.next_query_id).0;
  id_high = (next_id-bound r.next_query_id).1;
  tolerant = i.tolerant;
}

either-IsReady : (b : Bool) (x y : Resolver) → IsReady x → IsReady y → IsReady (if b then x else y)
either-IsReady true x y h k = h
either-IsReady false x y h k = k

-- Every driver that a resolver starts is within its bounds.
abbrev pub IsSound : Result DnsError Begun → Type 0
IsSound (err e) = Unit
IsSound (ok (finished values source error)) = Unit
IsSound (ok (asking d)) = IsBounded d

ask_servers-IsSound :
    (r : Resolver) (name : Text) (qtype now_ms deadline_ms : ℕ)
    → IsReady r
    → now_ms ≤ deadline_ms
    → IsSound (ask_servers r name qtype now_ms deadline_ms).0
      × IsReady (ask_servers r name qtype now_ms deadline_ms).1
unfolding ask_servers
ask_servers-IsSound r name qtype now_ms deadline_ms i h =
    let fresh = new_operation r.next_query_id name qtype deadline_ms in
    let start_server = if r.config.rotate then r.next_server else 0 in
    let left = (allocate_operation r name qtype deadline_ms).1 in
    let ready = allocate-IsReady r name qtype deadline_ms i in
    elim (Result-cases fresh) [
      | inr (e, f) ↦ rw (f, ask_servers) (tt, allocate-IsReady r name qtype deadline_ms i)
      | inl (o, f) ↦
          let deadline = new_operation-deadline r.next_query_id name qtype deadline_ms o f in
          rw (f, ask_servers)
            (
              new_driver-IsBounded (shared_of r o) r.config now_ms start_server
                  (omega (arith, deadline)) i.tolerant,
              either-IsReady (not (length r.config.servers == 0) && r.config.rotate)
                  (record left { next_server = (r.next_server + 1) % length r.config.servers }) left
                  (record {
                    id_low = ready.id_low;
                    id_high = ready.id_high;
                    tolerant = ready.tolerant;
                  })
                  ready,
            )
    ]

cached-IsSound : (entry : CacheEntry) → IsSound (ok (cached_values entry))
cached-IsSound entry = elim (Bool-cases entry.negative) [
  | inl e ↦ rw (e, cached_values) tt
  | inr e ↦ rw (e, cached_values) tt
]

ask_cache-IsSound :
    (r : Resolver) (name : Text) (qtype now_ms deadline_ms : ℕ)
    → IsReady r
    → now_ms ≤ deadline_ms
    → IsSound (ask_cache r name qtype now_ms deadline_ms).0
      × IsReady (ask_cache r name qtype now_ms deadline_ms).1
unfolding ask_cache
ask_cache-IsSound r name qtype now_ms deadline_ms i h =
    let looked : Resolver = record r { cache = (get r.cache name qtype now_ms).1 } in
    let ready : IsReady looked = record {
      id_low = i.id_low;
      id_high = i.id_high;
      tolerant = i.tolerant;
    } in
    elim (Option-cases (get r.cache name qtype now_ms).0) [
      | inl e ↦ rw (e, ask_cache) (ask_servers-IsSound looked name qtype now_ms deadline_ms ready h)
      | inr (entry, e) ↦ rw (e, ask_cache) (cached-IsSound entry, ready)
    ]

known_values-IsSound :
    (r : Resolver) (name : Text) (values : List Text) (qtype : ℕ) (source : Text)
    → IsReady r
    → IsSound (known_values r name values qtype source).0
      × IsReady (known_values r name values qtype source).1
unfolding known_values
known_values-IsSound r name values qtype source i =
    elim (Result-cases (accept r.policy name values qtype)) [
      | inr (e, f) ↦ rw (f, known_values) (tt, i)
      | inl ((accepted, policy), f) ↦
          rw (f, known_values)
            (tt, record { id_low = i.id_low; id_high = i.id_high; tolerant = i.tolerant })
    ]

expired-IsSound : (operation : Result DnsError Operation) → IsSound (expired_start operation)
expired-IsSound (err e) = tt
expired-IsSound (ok o) = tt

abbrev IsSoundStart : Result DnsError Begun × Resolver → Type 0
IsSoundStart (begun, r) = IsSound begun × IsReady r

choice-IsSound :
    (b : Bool) (x y : Result DnsError Begun × Resolver)
    → IsSoundStart x
    → (b ≡ false → IsSoundStart y)
    → IsSoundStart (if b then x else y)
choice-IsSound true x y h k = h
choice-IsSound false x y h k = k refl

look_up-IsSound :
    (r : Resolver) (name : Text) (qtype now_ms deadline_ms : ℕ)
    → IsReady r
    → now_ms ≤ deadline_ms
    → IsSoundStart (look_up r name qtype now_ms deadline_ms)
unfolding look_up
look_up-IsSound r name qtype now_ms deadline_ms i h =
    elim (Option-cases (normalize_numeric_address name qtype)) [
      | inr (numeric, g) ↦
          rw (g, look_up) (known_values-IsSound r name (numeric ∷ []) qtype (codes "numeric") i)
      | inl g ↦ elim (Option-cases (lookup r.hosts name qtype)) [
        | inr (values, k) ↦
            rw (g, k, look_up) (known_values-IsSound r name values qtype (codes "hosts") i)
        | inl k ↦ rw (g, k, look_up) (ask_cache-IsSound r name qtype now_ms deadline_ms i h)
      ]
    ]

-- Whatever `begin_driver` is asked for, the ids of queries stay 16-bit numbers that are not 0, and a driver that it starts
-- is within its bounds.
pub begin_driver-IsSound :
    (r : Resolver) (name : Text) (qtype now_ms deadline_ms : ℕ)
    → IsReady r
    → IsSound (begin_driver r name qtype now_ms deadline_ms).0
      × IsReady (begin_driver r name qtype now_ms deadline_ms).1
unfolding begin_driver
begin_driver-IsSound r name qtype now_ms deadline_ms i =
    let known = look_up r name qtype now_ms deadline_ms in
    let (operation, left) = allocate_operation r name qtype deadline_ms in
    let expired : Result DnsError Begun × Resolver = (expired_start operation, left) in
    let timely = if leb deadline_ms now_ms then expired else known in
    choice-IsSound (not (qtype == dns_a || qtype == dns_aaaa)) (err value_error, r) timely (tt, i)
      λ e.
        choice-IsSound (leb deadline_ms now_ms) expired known
          (expired-IsSound operation, allocate-IsReady r name qtype deadline_ms i)
          λ f. look_up-IsSound r name qtype now_ms deadline_ms i (ground (arith, f))
