-- ===== src/Dns/Resolver.antt =====
-- `Resolver` of pcc_gateway/dns.py: numeric names, then hosts, then the cache, then the servers. Its
-- operations share its cache and its policy.
use pcc_gateway.Prelude.{
  ℕ, ◌+◌, ◌%◌, not, ◌&&◌, ◌||◌, List, [], ◌∷◌, none, some, Text, codes, leb, ◌==◌, if◌then◌else◌,
  length, ℤ, pos, pos_part, ltb_ℤ, leb_ℤ, Result, ok, err,
}
use pcc_gateway.Dns.Wire.{DnsError, value_error, dns_a, dns_aaaa}
use pcc_gateway.Dns.Address.{normalize_numeric_address}
use pcc_gateway.Dns.Policy.{AddressPolicy, accept}
use pcc_gateway.Dns.Cache.{Cache, CacheEntry, get}
use pcc_gateway.Dns.Operation.{
  Failure, no_failure, timed_out, cached_negative, Operation, Shared, new_operation,
}
use pcc_gateway.Dns.Config.{ResolverConfig}
use pcc_gateway.Dns.Lines.{Hosts, lookup}
use pcc_gateway.Dns.Attempts.{Driver}
use pcc_gateway.Dns.Driver.{new_driver}

pub record Resolver : Type 0 where
  pub cache : Cache
  pub config : ResolverConfig
  pub hosts : Hosts
  pub policy : AddressPolicy
  pub next_query_id : ℕ
  pub next_server : ℕ

-- `Resolver.__init__`
unfoldable pub new_resolver :
    Cache → ResolverConfig → Hosts → AddressPolicy → ℤ → Result DnsError Resolver
new_resolver cache config hosts policy query_seed =
    if leb_ℤ query_seed (pos 0) || ltb_ℤ (pos 65535) query_seed
    then err value_error
    else ok (record {
      cache = cache;
      config = config;
      hosts = hosts;
      policy = policy;
      next_query_id = pos_part query_seed;
      next_server = 0;
    })

-- The query id after another one, which is never 0.
unfoldable pub next_id : ℕ → ℕ
next_id query_id = let next = (query_id + 1) % 65536 in if next == 0 then 1 else next

-- `_allocate_operation`
unfoldable pub allocate_operation : Resolver → Text → ℕ → ℕ → Result DnsError Operation × Resolver
unfolding next_id new_operation
allocate_operation r name qtype deadline_ms = (
  new_operation r.next_query_id name qtype deadline_ms,
  record r { next_query_id = next_id r.next_query_id },
)

-- What `begin` returns.
pub data Started : Type 0 where
  from_cache : CacheEntry → Started
  from_servers : Operation → Started

-- `begin`
unfoldable pub begin : Resolver → Text → ℕ → ℕ → ℕ → Result DnsError Started × Resolver
unfolding get allocate_operation
begin r name qtype now_ms deadline_ms =
    let (cached, cache) = get r.cache name qtype now_ms in
    let looked : Resolver = record r { cache = cache } in
    elim cached [
      | some entry ↦ (ok (from_cache entry), looked)
      | none ↦
          let (operation, left) = allocate_operation looked name qtype deadline_ms in
          (elim operation [ err e ↦ err e | ok o ↦ ok (from_servers o) ], left)
    ]

-- The driver of `begin_driver`: one that is done from the start, or one that asks the servers.
pub data Begun : Type 0 where
  finished : List Text → Text → Failure → Begun
  asking : Driver → Begun

-- Addresses that are known without a server.
unfoldable pub known_values :
    Resolver → Text → List Text → ℕ → Text → Result DnsError Begun × Resolver
unfolding accept
known_values r name values qtype source = elim (accept r.policy name values qtype) [
  | err e ↦ (err e, r)
  | ok (accepted, policy) ↦ (ok (finished accepted source no_failure), record r { policy = policy })
]

-- An operation on the resolver's cache and policy.
abbrev pub shared_of : Resolver → Operation → Shared
shared_of r operation = record { operation = operation; cache = r.cache; policy = r.policy }

-- A driver that asks the servers, from the next one in turn if they rotate.
unfoldable pub ask_servers : Resolver → Text → ℕ → ℕ → ℕ → Result DnsError Begun × Resolver
unfolding allocate_operation new_driver
ask_servers r name qtype now_ms deadline_ms =
    let (operation, left) = allocate_operation r name qtype deadline_ms in
    let servers = length r.config.servers in
    let start_server = if r.config.rotate then r.next_server else 0 in
    let turned : Resolver =
      if not (servers == 0) && r.config.rotate
      then record left { next_server = (r.next_server + 1) % servers }
      else left in
    elim operation [
      | err e ↦ (err e, left)
      | ok o ↦ (ok (asking (new_driver (shared_of r o) r.config now_ms start_server)), turned)
    ]

abbrev pub cached_values : CacheEntry → Begun
cached_values entry =
    if entry.negative
    then finished [] (codes "cache") cached_negative
    else finished entry.values (codes "cache") no_failure

-- The cache and the servers, when neither the name nor the hosts are the answer.
unfoldable pub ask_cache : Resolver → Text → ℕ → ℕ → ℕ → Result DnsError Begun × Resolver
unfolding get ask_servers
ask_cache r name qtype now_ms deadline_ms =
    let (cached, cache) = get r.cache name qtype now_ms in
    let looked : Resolver = record r { cache = cache } in
    elim cached [
      | some entry ↦ (ok (cached_values entry), looked)
      | none ↦ ask_servers looked name qtype now_ms deadline_ms
    ]

-- An operation whose deadline is over.
abbrev pub expired_start : Result DnsError Operation → Result DnsError Begun
expired_start (err e) = err e
expired_start (ok o) = ok (finished [] [] timed_out)

-- The sources of an address, one after the other.
unfoldable pub look_up : Resolver → Text → ℕ → ℕ → ℕ → Result DnsError Begun × Resolver
unfolding normalize_numeric_address lookup known_values ask_cache
look_up r name qtype now_ms deadline_ms = elim (normalize_numeric_address name qtype) [
  | some numeric ↦ known_values r name (numeric ∷ []) qtype (codes "numeric")
  | none ↦ elim (lookup r.hosts name qtype) [
    | some values ↦ known_values r name values qtype (codes "hosts")
    | none ↦ ask_cache r name qtype now_ms deadline_ms
  ]
]

-- `begin_driver`
unfoldable pub begin_driver : Resolver → Text → ℕ → ℕ → ℕ → Result DnsError Begun × Resolver
unfolding allocate_operation look_up
begin_driver r name qtype now_ms deadline_ms =
    let (operation, left) = allocate_operation r name qtype deadline_ms in
    if not (qtype == dns_a || qtype == dns_aaaa)
    then (err value_error, r)
    else if leb deadline_ms now_ms
    then (expired_start operation, left)
    else look_up r name qtype now_ms deadline_ms
