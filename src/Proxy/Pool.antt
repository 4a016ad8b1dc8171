-- ===== src/Proxy/Pool.antt =====
-- `UpstreamGroup`, `UpstreamEndpoint` and `UpstreamLease` of pcc_gateway/proxy.py: who may use an upstream. Groups and endpoints
-- stand under numbers, since several groups may share an endpoint; the locks make each call one step.
use pcc_gateway.Prelude.{
  ℕ, zero, suc, ◌+◌, ◌-◌, ◌%◌, Bool, true, false, not, List, [], ◌∷◌, ◌++◌, Option, none, some, ltb,
  leb, ◌==◌, if◌then◌else◌, length, get_or, set, Result, ok, err,
}

-- The counters of an `UpstreamEndpoint`.
pub record Endpoint : Type 0 where
  pub weight : ℕ
  pub active : ℕ
  pub failures : ℕ

-- An `UpstreamGroup`, with the numbers of its endpoints.
pub record Group : Type 0 where
  pub members : List ℕ
  pub max_active : ℕ
  pub active : ℕ
  pub cursor : ℕ

-- An `UpstreamLease`
pub record Lease : Type 0 where
  pub group : ℕ
  pub endpoint : ℕ
  pub is_released : Bool

-- All of them; a lease is known by its place.
pub record Pool : Type 0 where
  pub groups : ℕ → Group
  pub endpoints : ℕ → Endpoint
  pub leases : List Lease

abbrev pub put_at {ℓ} : {A : Type ℓ} → ℕ → A → (ℕ → A) → ℕ → A
put_at i a f j = if i == j then a else f j

-- `RuntimeError`
pub data PoolError : Type 0 where
  admission_underflow released_twice : PoolError

-- The test of `try_acquire`
unfoldable pub has_room : Endpoint → ℕ → Bool
has_room endpoint group_active = not (ltb (group_active + endpoint.weight) endpoint.active)

-- The loop of `acquire`: the endpoint that has room, and the cursor.
unfoldable pub acquire_loop : ℕ → (ℕ → Endpoint) → Group → ℕ → Option ℕ × ℕ
unfolding has_room
acquire_loop zero endpoints group cursor = (none, cursor)
acquire_loop (suc attempts) endpoints group cursor =
    let endpoint = get_or group.members cursor 0 in
    let next = (cursor + 1) % length group.members in
    let rest = acquire_loop attempts endpoints group next in
    if has_room (endpoints endpoint) group.active then (some endpoint, next) else rest

-- `acquire`: the place of the lease, if there is one.
unfoldable pub acquire : Pool → ℕ → Option ℕ × Pool
unfolding acquire_loop
acquire p g =
    let group = p.groups g in
    let (chosen, cursor) = acquire_loop (length group.members) p.endpoints group group.cursor in
    let turned : Group = record group { cursor = cursor } in
    if leb group.max_active group.active then (none, p) else elim chosen [
      | none ↦ (none, record p { groups = put_at g turned p.groups })
      | some e ↦ (
        some (length p.leases),
        record p {
          groups = put_at g (record turned { active = group.active + 1 }) p.groups;
          endpoints =
              put_at e (record (p.endpoints e) { active = (p.endpoints e).active + 1 }) p.endpoints;
          leases = p.leases ++ record { group = g; endpoint = e; is_released = false } ∷ [];
        },
      )
    ]

-- `UpstreamEndpoint.release`
unfoldable pub release_endpoint : Endpoint → Bool → Result PoolError Endpoint
release_endpoint endpoint failed =
    if endpoint.active == 0
    then err admission_underflow
    else ok (record {
      weight = endpoint.weight;
      active = endpoint.active - 1;
      failures = if failed then endpoint.failures + 1 else endpoint.failures;
    })

-- `release_lease` of a lease, by the group that it was taken from.
unfoldable pub release_lease : Pool → ℕ → Lease → Bool → Result PoolError (Unit {0}) × Pool
unfolding release_endpoint
release_lease p place lease failed =
    let marked : Pool = record p {
      leases = set p.leases place (record lease { is_released = true });
    } in
    let group = p.groups lease.group in
    if lease.is_released
    then (err released_twice, p)
    else elim (release_endpoint (p.endpoints lease.endpoint) failed) [
      | err e ↦ (err e, marked)
      | ok endpoint ↦ (
        ok tt,
        record marked {
          endpoints = put_at lease.endpoint endpoint p.endpoints;
          groups = put_at lease.group (record group { active = group.active - 1 }) p.groups;
        },
      )
    ]
