-- ===== src/Proxy/Leases.antt =====
-- The counters of the pools of pcc_gateway/proxy.py, and the leases that are out.
use pcc_gateway.Prelude.{
  ℕ, zero, suc, ◌+◌, ◌-◌, ◌≤◌, ◌≡◌, refl, sym, ◌∙◌, ap, subst, Bool, true, false, not, ◌&&◌, List,
  [], ◌∷◌, ◌++◌, Option, none, some, leb, ◌==◌, ==_refl, ==_iff, if◌then◌else◌, length, get_elem?,
  set, Result, ok, err, arith, Bool-cases, Option-cases, inl, inr,
}
use pcc_gateway.Proxy.Pool.{
  Endpoint, Lease, Pool, put_at, PoolError, released_twice, acquire_loop, acquire, release_endpoint,
  release_lease,
}

-- The leases that a group, or an endpoint, has out.
abbrev pub one_if : Bool → ℕ
one_if true = 1
one_if false = 0

pub data Side : Type 0 where
  by_group by_endpoint : Side

abbrev pub counts : Side → ℕ → Lease → Bool
counts by_group n lease = not lease.is_released && lease.group == n
counts by_endpoint n lease = not lease.is_released && lease.endpoint == n

unfoldable pub out : Side → ℕ → List Lease → ℕ
out side n [] = 0
out side n (lease ∷ leases) = one_if (counts side n lease) + out side n leases

out-append :
    (side : Side) (n : ℕ) (xs : List Lease) (lease : Lease)
    → out side n (xs ++ lease ∷ []) ≡ out side n xs + one_if (counts side n lease)
unfolding out
out-append side n [] lease = omega arith
out-append side n (x ∷ xs) lease = omega (arith, out-append side n xs lease)

counts-released :
    (side : Side) (n : ℕ) (lease : Lease)
    → counts side n (record lease { is_released = true }) ≡ false
counts-released by_group n lease = refl
counts-released by_endpoint n lease = refl

-- A release takes the lease off the count.
out-set :
    (side : Side) (n : ℕ) (xs : List Lease) (place : ℕ) (lease : Lease)
    → get_elem? xs place ≡ some lease
    → out side n (set xs place (record lease { is_released = true })) + one_if (counts side n lease)
      ≡ out side n xs
unfolding out
out-set side n [] place lease h = cc
out-set side n (x ∷ xs) zero lease h =
    let same : x ≡ lease = ground (arith, h) in
    omega (arith, ap one_if (counts-released side n lease), ap (λ l. one_if (counts side n l)) same)
out-set side n (x ∷ xs) (suc place) lease h = omega (arith, out-set side n xs place lease h)

-- Each counter is the number of the leases that are out, and a group has no more than its limit.
pub record IsCounted (p : Pool) : Type 0 where
  pub groups : (g : ℕ) → (p.groups g).active ≡ out by_group g p.leases
  pub endpoints : (e : ℕ) → (p.endpoints e).active ≡ out by_endpoint e p.leases
  pub limit : (g : ℕ) → (p.groups g).active ≤ (p.groups g).max_active

acquire-IsCounted : (p : Pool) (g : ℕ) → IsCounted p → IsCounted (acquire p g).1
unfolding acquire
acquire-IsCounted p g c =
    let group = p.groups g in
    let (chosen, cursor) = acquire_loop (length group.members) p.endpoints group group.cursor in
    elim (Bool-cases (leb group.max_active group.active)) [
      | inl f ↦ rw (f, acquire) c
      | inr f ↦ elim (Option-cases chosen) [
        | inl k ↦
            rw (f, k, acquire)
              record {
                groups = λ n. elim (Bool-cases (g == n)) [
                  | inl s ↦
                      rw (s) (c.groups g ∙ ap (λ t. out by_group t p.leases) ((==_iff g n).0 s))
                  | inr s ↦ rw (s) (c.groups n)
                ];
                endpoints = c.endpoints;
                limit = λ n. elim (Bool-cases (g == n)) [
                  | inl s ↦ rw (s) (c.limit g)
                  | inr s ↦ rw (s) (c.limit n)
                ];
              }
        | inr (e, k) ↦
            rw (f, k, acquire)
              (let lease : Lease = record { group = g; endpoint = e; is_released = false } in
                record {
                  groups = λ n. elim (Bool-cases (g == n)) [
                    | inl s ↦ rw (s) (
                        omega (
                          arith,
                          c.groups g,
                          out-append by_group n p.leases lease,
                          ap one_if s,
                          ap (λ t. out by_group t p.leases) ((==_iff g n).0 s),
                        ))
                    | inr s ↦ rw (s) (
                        omega
                          (arith, c.groups n, out-append by_group n p.leases lease, ap one_if s))
                  ];
                  endpoints = λ n. elim (Bool-cases (e == n)) [
                    | inl s ↦ rw (s) (
                        omega (
                          arith,
                          c.endpoints e,
                          out-append by_endpoint n p.leases lease,
                          ap one_if s,
                          ap (λ t. out by_endpoint t p.leases) ((==_iff e n).0 s),
                        ))
                    | inr s ↦ rw (s) (
                        omega (
                          arith,
                          c.endpoints n,
                          out-append by_endpoint n p.leases lease,
                          ap one_if s,
                        ))
                  ];
                  limit = λ n. elim (Bool-cases (g == n)) [
                    | inl s ↦ rw (s) (ground (arith, f))
                    | inr s ↦ rw (s) (c.limit n)
                  ];
                })
      ]
    ]

-- A lease that is out.
pub record IsOut (p : Pool) (place : ℕ) (lease : Lease) : Type 0 where
  pub found : get_elem? p.leases place ≡ some lease
  pub open_lease : lease.is_released ≡ false

counts-open :
    (lease : Lease)
    → lease.is_released ≡ false
    → (counts by_group lease.group lease ≡ true) × (counts by_endpoint lease.endpoint lease ≡ true)
counts-open lease h =
    (ground (arith, h, ==_refl lease.group), ground (arith, h, ==_refl lease.endpoint))

-- The pool without a lease.
abbrev pub given_back : Pool → ℕ → Lease → Endpoint → Pool
given_back p place lease endpoint = record {
  groups =
      put_at lease.group
        (record (p.groups lease.group) { active = (p.groups lease.group).active - 1 }) p.groups;
  endpoints = put_at lease.endpoint endpoint p.endpoints;
  leases = set p.leases place (record lease { is_released = true });
}

module _ (p : Pool) (place : ℕ) (lease : Lease) (c : IsCounted p) (o : IsOut p place lease) where
  group_held :
      (p.groups lease.group).active
      ≡ out by_group lease.group (set p.leases place (record lease { is_released = true })) + 1
  group_held = omega (
    arith,
    c.groups lease.group,
    out-set by_group lease.group p.leases place lease o.found,
    ap one_if (counts-open lease o.open_lease).0,
  )

  endpoint_held :
      (p.endpoints lease.endpoint).active
      ≡ out by_endpoint lease.endpoint (set p.leases place (record lease { is_released = true }))
        + 1
  endpoint_held = omega (
    arith,
    c.endpoints lease.endpoint,
    out-set by_endpoint lease.endpoint p.leases place lease o.found,
    ap one_if (counts-open lease o.open_lease).1,
  )

  other-group :
      (n : ℕ)
      → (lease.group == n) ≡ false
      → out by_group n (set p.leases place (record lease { is_released = true }))
        ≡ out by_group n p.leases
  other-group n s =
      let apart : counts by_group n lease ≡ false = ground (arith, s, o.open_lease) in
      omega (arith, out-set by_group n p.leases place lease o.found, ap one_if apart)

  other-endpoint :
      (n : ℕ)
      → (lease.endpoint == n) ≡ false
      → out by_endpoint n (set p.leases place (record lease { is_released = true }))
        ≡ out by_endpoint n p.leases
  other-endpoint n s =
      let apart : counts by_endpoint n lease ≡ false = ground (arith, s, o.open_lease) in
      omega (arith, out-set by_endpoint n p.leases place lease o.found, ap one_if apart)

  given_back-IsCounted :
      (endpoint : Endpoint)
      → endpoint.active + 1 ≡ (p.endpoints lease.endpoint).active
      → IsCounted (given_back p place lease endpoint)
  given_back-IsCounted endpoint h =
      let left = set p.leases place (record lease { is_released = true }) in
      record {
        groups = λ n. elim (Bool-cases (lease.group == n)) [
          | inl s ↦ rw (s) (
              omega (arith, group_held, ap (λ t. out by_group t left) ((==_iff lease.group n).0 s)))
          | inr s ↦ rw (s) (c.groups n ∙ sym (other-group n s))
        ];
        endpoints = λ n. elim (Bool-cases (lease.endpoint == n)) [
          | inl s ↦ rw (s) (
              omega (
                arith,
                h,
                endpoint_held,
                ap (λ t. out by_endpoint t left) ((==_iff lease.endpoint n).0 s),
              ))
          | inr s ↦ rw (s) (c.endpoints n ∙ sym (other-endpoint n s))
        ];
        limit = λ n. elim (Bool-cases (lease.group == n)) [
          | inl s ↦ rw (s) (omega (arith, c.limit lease.group))
          | inr s ↦ rw (s) (c.limit n)
        ];
      }

  -- A lease that is out is given back without an error, whatever its group and its endpoint share with others, and every
  -- counter is the number of the leases that are out again.
  pub release_lease-IsCounted :
      (failed : Bool)
      → ((release_lease p place lease failed).0 ≡ ok tt)
        × IsCounted (release_lease p place lease failed).1
  unfolding release_lease release_endpoint
  release_lease-IsCounted failed =
      let open_lease = o.open_lease in
      let held : ((p.endpoints lease.endpoint).active == 0) ≡ false =
        ground (arith, endpoint_held) in
      rw (open_lease, held, release_lease)
        (
          refl,
          given_back-IsCounted
              (record {
                weight = (p.endpoints lease.endpoint).weight;
                active = (p.endpoints lease.endpoint).active - 1;
                failures =
                    if failed
                    then (p.endpoints lease.endpoint).failures + 1
                    else (p.endpoints lease.endpoint).failures;
              })
              (omega (arith, endpoint_held)),
        )

pub data PoolCall : Type 0 where
  take_from : ℕ → PoolCall
  give_back : ℕ → Bool → PoolCall

-- `release` of the lease at a place, if there is one.
abbrev pub give_at : Pool → ℕ → Bool → Option Lease → Pool
give_at p place failed none = p
give_at p place failed (some lease) = (release_lease p place lease failed).1

-- The pools after some calls, the first one first.
unfoldable pub pool_after : Pool → List PoolCall → Pool
unfolding acquire release_lease
pool_after p [] = p
pool_after p (take_from g ∷ calls) = pool_after (acquire p g).1 calls
pool_after p (give_back place failed ∷ calls) =
    pool_after (give_at p place failed (get_elem? p.leases place)) calls

release_twice :
    (p : Pool) (place : ℕ) (lease : Lease) (failed : Bool)
    → lease.is_released ≡ true
    → release_lease p place lease failed ≡ (err released_twice, p)
unfolding release_lease
release_twice p place lease failed e = simp (e) refl

give_at-IsCounted :
    (p : Pool) (place : ℕ) (failed : Bool) (o : Option Lease)
    → get_elem? p.leases place ≡ o
    → IsCounted p
    → IsCounted (give_at p place failed o)
unfolding release_lease
give_at-IsCounted p place failed none h c = c
give_at-IsCounted p place failed (some lease) h c = elim (Bool-cases lease.is_released) [
  | inl e ↦
      subst IsCounted
        (ap (λ (r : Result PoolError (Unit {0}) × Pool). r.1)
          (sym (release_twice p place lease failed e)))
        c
  | inr e ↦
      (release_lease-IsCounted p place lease c (record { found = h; open_lease = e }) failed).1
]

-- Whatever leases are taken and given back, in any order and more than once: the counter of each group and of each
-- endpoint is the number of its leases that are out, and no group has more out than its limit.
pub pool_after-IsCounted :
    (p : Pool) (calls : List PoolCall) → IsCounted p → IsCounted (pool_after p calls)
unfolding pool_after
pool_after-IsCounted p [] c = c
pool_after-IsCounted p (take_from g ∷ calls) c =
    pool_after-IsCounted (acquire p g).1 calls (acquire-IsCounted p g c)
pool_after-IsCounted p (give_back place failed ∷ calls) c =
    pool_after-IsCounted (give_at p place failed (get_elem? p.leases place)) calls
      (give_at-IsCounted p place failed (get_elem? p.leases place) refl c)
