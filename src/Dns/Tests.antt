-- ===== src/Dns/Tests.antt =====
-- Runs of the definitions of pcc_gateway/dns.py on concrete inputs, and witnesses of the theorems.
use pcc_gateway.Prelude.{
  ◌↔◌, ◌≢◌, ◌≤◌, ℕ, zero, suc, ◌+◌, ◌<◌, ◌≤◌, ◌≡◌, ◌≢◌, refl, Bool, true, false, List, [], ◌∷◌,
  ◌++◌, Option, none, some, Text, codes, length, if◌then◌else◌, ltb, All, ℤ, pos, negsuc, Result,
  ok, err, arith,
}
use pcc_gateway.Dns.Wire.{
  bad_compression, bad_name, bad_tcp_frame, id_mismatch, out_of_fuel, dns_rebinding, canonical_name,
  encode_name, decode_name, build_query, dns_a, dns_aaaa,
}
use pcc_gateway.Dns.Ends.{decode_name-ne-fuel}
use pcc_gateway.Dns.Names.{decode_name-encode_name}
use pcc_gateway.Dns.Address.{public, address_class, normalize_numeric_address}
use pcc_gateway.Dns.Response.{parse_response}
use pcc_gateway.Dns.Replying.{empty_reply, parse_response-build_query}
use pcc_gateway.Dns.Spoofing.{IsAnswering, parse_response-IsAnswering}
use pcc_gateway.Dns.Policy.{AddressPolicy, pin, default_policy, accept, sort_texts}
use pcc_gateway.Dns.Accepts.{IsAllowed, accept-IsAllowed}
use pcc_gateway.Dns.Rebinding.{accept_all, accept_pin}
use pcc_gateway.Dns.Cache.{Cache, new_cache, get, put, clamped_ttl}
use pcc_gateway.Dns.Cached.{
  IsFitting, call_get, call_put, cache_after, cache_after-IsFitting, get-put,
}
use pcc_gateway.Dns.Operation.{Operation, Shared, no_failure, framed, unframed, receive}
use pcc_gateway.Dns.Allowed.{HasAllowed, receive-HasAllowed}
use pcc_gateway.Dns.Framing.{IsWaiting, IsBytes, receive-framed, unframed_iff, receive-unframed}
use pcc_gateway.Dns.Config.{
  Server, ResolverConfig, io_ok, io_error, nobody, bounded_resolver_option,
}
use pcc_gateway.Dns.Lines.{Hosts, splitlines, words}
use pcc_gateway.Dns.Attempts.{Transport, Driver}
use pcc_gateway.Dns.Driver.{new_driver, step}
use pcc_gateway.Dns.Bounded.{IsBounded}
use pcc_gateway.Dns.Drives.{drive, drive-IsBounded, step-deadline, new_driver-IsBounded}
use pcc_gateway.Dns.Resolver.{Resolver, begin_driver}
use pcc_gateway.Dns.Begins.{IsReady, IsSound, begin_driver-IsSound}

-- "Ab.c" on the wire
abbrev wire_name : Text
wire_name = 2 ∷ 97 ∷ 98 ∷ 1 ∷ 99 ∷ 0 ∷ []

encoded : encode_name (codes "Ab.c.") ≡ ok wire_name
unfolding encode_name pcc_gateway.Prelude.lower pcc_gateway.Prelude.strip_end
    pcc_gateway.Prelude.split pcc_gateway.Routing.Path.ends
encoded = refl

encoded_hyphen : encode_name (codes "-a.c") ≡ err bad_name
unfolding encode_name pcc_gateway.Prelude.lower pcc_gateway.Prelude.strip_end
    pcc_gateway.Prelude.split
encoded_hyphen = refl

decoded_circle : decode_name (192 ∷ 2 ∷ 192 ∷ 0 ∷ []) 0 ≡ err bad_compression
unfolding decode_name
decoded_circle = refl

decode_name-encode_name_example :
    decode_name ((7 ∷ []) ++ (wire_name ++ 9 ∷ [])) 1 ≡ ok (codes "ab.c", 7)
unfolding canonical_name pcc_gateway.Prelude.lower pcc_gateway.Prelude.strip_end
decode_name-encode_name_example =
    decode_name-encode_name (codes "Ab.c.") wire_name (7 ∷ []) (9 ∷ []) encoded

decode_name-ne-fuel_example : decode_name (192 ∷ 0 ∷ []) 0 ≢ err out_of_fuel
decode_name-ne-fuel_example = decode_name-ne-fuel (192 ∷ 0 ∷ []) 0

-- An IPv4-compatible address is not a mapped one.
compatible : address_class (codes "::127.0.0.1") ≡ public
unfolding address_class
compatible = refl

leading_zero : normalize_numeric_address (codes "10.0.0.01") 0 ≡ none
unfolding normalize_numeric_address
leading_zero = refl

padded :
    normalize_numeric_address (codes " 2001:DB8::1 ") dns_aaaa ≡ some (codes "2001:db8:0:0:0:0:0:1")
unfolding normalize_numeric_address
padded = refl

-- The query for "ab.c" with the id 258.
abbrev query_bytes : Text
query_bytes =
    1 ∷ 2 ∷ 1 ∷ 0 ∷ 0 ∷ 1 ∷ 0 ∷ 0 ∷ 0 ∷ 0 ∷ 0 ∷ 0 ∷ 2 ∷ 97 ∷ 98 ∷ 1 ∷ 99 ∷ 0 ∷ 0 ∷ 1 ∷ 0 ∷ 1 ∷ []

built : build_query (pos 258) (codes "ab.c") dns_a ≡ ok query_bytes
unfolding build_query pcc_gateway.Prelude.lower pcc_gateway.Prelude.strip_end
    pcc_gateway.Prelude.split pcc_gateway.Routing.Path.ends
built = refl

parse_response-build_query_example :
    parse_response (empty_reply query_bytes) 258 (codes "ab.c") dns_a
    ≡ ok (record { query_id = 258; is_truncated = false; rcode = 0; answers = [] })
parse_response-build_query_example =
    parse_response-build_query 258 (codes "ab.c") dns_a query_bytes built

parse_response-IsAnswering_example : IsAnswering 258 (codes "ab.c") dns_a (empty_reply query_bytes)
unfolding parse_response pcc_gateway.Prelude.lower pcc_gateway.Prelude.strip_end
parse_response-IsAnswering_example =
    parse_response-IsAnswering (empty_reply query_bytes) 258 (codes "ab.c") dns_a
      (record { query_id = 258; is_truncated = false; rcode = 0; answers = [] }) refl

abbrev pinning : AddressPolicy
pinning = record default_policy { rebind_mode = pin }

abbrev bound : AddressPolicy
bound = record pinning {
  bindings =
      (
        record { name = codes "ab.c"; qtype = 1 },
        record {
          values = codes "10.0.0.1" ∷ codes "10.0.0.2" ∷ [];
          classes = codes "private" ∷ [];
        },
      )
      ∷ [];
}

first_accepted :
    accept pinning (codes "ab.c") (codes "10.0.0.2" ∷ codes "10.0.0.1" ∷ []) dns_a
    ≡ ok (codes "10.0.0.2" ∷ codes "10.0.0.1" ∷ [], bound)
unfolding accept pcc_gateway.Prelude.lower
first_accepted = refl

then_accepted :
    accept bound (codes "AB.c.") (codes "10.0.0.1" ∷ codes "10.0.0.2" ∷ []) dns_a
    ≡ ok (codes "10.0.0.1" ∷ codes "10.0.0.2" ∷ [], bound)
unfolding accept pcc_gateway.Prelude.lower
then_accepted = refl

rebound : accept bound (codes "ab.c") (codes "10.0.0.1" ∷ []) dns_a ≡ err dns_rebinding
unfolding accept pcc_gateway.Prelude.lower
rebound = refl

accept-IsAllowed_example : All (IsAllowed pinning dns_a) (codes "10.0.0.2" ∷ codes "10.0.0.1" ∷ [])
accept-IsAllowed_example =
    accept-IsAllowed pinning bound (codes "ab.c") (codes "10.0.0.2" ∷ codes "10.0.0.1" ∷ [])
      (codes "10.0.0.2" ∷ codes "10.0.0.1" ∷ []) dns_a first_accepted

accept_pin_example :
    sort_texts (codes "10.0.0.1" ∷ codes "10.0.0.2" ∷ [])
    ≡ sort_texts (codes "10.0.0.2" ∷ codes "10.0.0.1" ∷ [])
unfolding canonical_name pcc_gateway.Prelude.strip_end pcc_gateway.Prelude.lower accept_all
accept_pin_example =
    accept_pin pinning bound bound (codes "ab.c") (codes "AB.c.")
      (codes "10.0.0.2" ∷ codes "10.0.0.1" ∷ []) (codes "10.0.0.1" ∷ codes "10.0.0.2" ∷ [])
      (codes "10.0.0.2" ∷ codes "10.0.0.1" ∷ []) (codes "10.0.0.1" ∷ codes "10.0.0.2" ∷ []) dns_a
      ((codes "ab.c", codes "10.0.0.3" ∷ [], 1) ∷ []) refl refl first_accepted refl then_accepted
      refl

abbrev small_cache : Cache
small_cache = record {
  max_entries = 1;
  negative_ttl_ms = 5;
  min_ttl_ms = 1;
  max_ttl_ms = 100;
  entries = [];
  order = [];
}

cache_made : new_cache (pos 1) (pos 5) (pos 1) (pos 100) ≡ ok small_cache
unfolding new_cache
cache_made = refl

cache_after-IsFitting_example : IsFitting (
    cache_after small_cache (
      call_put (codes "a") 1 [] 7 0 false []
      ∷ call_put (codes "b") 1 [] 7 0 false []
      ∷ call_get (codes "b") 1 1
      ∷ []))
cache_after-IsFitting_example =
    cache_after-IsFitting (pos 1) (pos 5) (pos 1) (pos 100) small_cache
      (call_put (codes "a") 1 [] 7 0 false []
        ∷ call_put (codes "b") 1 [] 7 0 false []
        ∷ call_get (codes "b") 1 1
        ∷ [])
      cache_made

get-put_example :
    (get (put small_cache (codes "A.") 1 [] 7 10 false []).1 (codes "a") 1 16).0
    ≡ some (record { values = []; expires_ms = 17; negative = false; source = [] })
unfolding canonical_name pcc_gateway.Prelude.strip_end pcc_gateway.Prelude.lower clamped_ttl put
get-put_example = get-put small_cache (codes "A.") (codes "a") 1 [] 7 10 16 false [] refl

abbrev operation : Operation
operation = record {
  query_id = 258;
  name = codes "ab.c";
  qtype = 1;
  deadline_ms = 100;
  query = query_bytes;
  use_tcp = false;
  done = false;
  is_cancelled = false;
  values = [];
  error = no_failure;
}

abbrev shared : Shared
shared = record { operation = operation; cache = small_cache; policy = pinning }

-- The question, and an answer with one address.
abbrev reply_bytes : Text
reply_bytes =
    1 ∷ 2 ∷ 128 ∷ 0 ∷ 0 ∷ 1 ∷ 0 ∷ 1 ∷ 0 ∷ 0 ∷ 0 ∷ 0 ∷ 2 ∷ 97 ∷ 98 ∷ 1 ∷ 99 ∷ 0 ∷ 0 ∷ 1 ∷ 0 ∷ 1 ∷ 192
    ∷ 12 ∷ 0 ∷ 1 ∷ 0 ∷ 1 ∷ 0 ∷ 0 ∷ 0 ∷ 9 ∷ 0 ∷ 4 ∷ 10 ∷ 0 ∷ 0 ∷ 1 ∷ []

resolved : (receive shared reply_bytes 5).1.operation.values ≡ codes "10.0.0.1" ∷ []
unfolding receive pcc_gateway.Prelude.lower
resolved = refl

receive-HasAllowed_example : HasAllowed (receive shared reply_bytes 5).1
receive-HasAllowed_example = receive-HasAllowed shared reply_bytes 5 tt

waiting : IsWaiting operation 5
waiting = record { alive = refl; timely = omega arith }

receive-framed_example : receive shared (framed reply_bytes) 5 ≡ (err id_mismatch, shared)
receive-framed_example =
    receive-framed shared reply_bytes 5 refl waiting (omega arith) (omega arith) (omega arith)

abbrev tcp_shared : Shared
tcp_shared = record shared { operation = record operation { use_tcp = true } }

-- A reply by UDP to an operation that uses TCP.
udp_refused : receive tcp_shared reply_bytes 5 ≡ (err bad_tcp_frame, tcp_shared)
unfolding receive
udp_refused = refl

abbrev small_frame : Text
small_frame = 0 ∷ 2 ∷ 7 ∷ 9 ∷ []

small_frame-IsBytes : IsBytes small_frame
unfolding IsBytes
small_frame-IsBytes = (omega arith, (omega arith, (omega arith, (omega arith, tt))))

one_byte-IsBytes : IsBytes (0 ∷ [])
unfolding IsBytes
one_byte-IsBytes = (omega arith, tt)

unframed_iff_example :
    (unframed true small_frame ≡ ok (7 ∷ 9 ∷ [])) ↔ (small_frame ≡ framed (7 ∷ 9 ∷ []))
unframed_iff_example = unframed_iff (7 ∷ 9 ∷ []) small_frame (omega arith) small_frame-IsBytes

half_framed : (message : Text) → length message ≤ 65535 → 0 ∷ [] ≢ framed message
unfolding framed
half_framed message short = λ e. cc

-- A payload of one byte.
receive-unframed_example : receive tcp_shared (0 ∷ []) 5 ≡ (err bad_tcp_frame, tcp_shared)
receive-unframed_example =
    receive-unframed tcp_shared (0 ∷ []) 5 refl (record { alive = refl; timely = omega arith })
      one_byte-IsBytes half_framed

abbrev servers : List Server
servers = record { address = codes "10.0.0.53"; port = 53 } ∷ []

abbrev resolver_config : ResolverConfig
resolver_config = record {
  servers = servers;
  attempts_per_server = 2;
  attempt_timeout_ms = 10;
  max_invalid_replies = 4;
  max_udp_bytes = 4096;
  max_tcp_bytes = 65535;
  rotate = false;
  use_tcp = false;
}

-- A transport that has one handle, which is never ready to be read.
abbrev transport : Transport
transport [] = record {
  status = io_error;
  handle = none;
  count = 0;
  content = [];
  peer = nobody;
  error = [];
}
transport (call ∷ calls) = record {
  status = io_ok;
  handle = some 3;
  count = 22;
  content = [];
  peer = nobody;
  error = [];
}

driven : (drive transport (new_driver shared resolver_config 0 0) (1 ∷ 2 ∷ 3 ∷ [])).send_offset ≡ 22
unfolding drive new_driver
driven = refl

drive-IsBounded_example :
    IsBounded
      (drive transport (new_driver shared resolver_config 0 0) (1 ∷ 2 ∷ 3 ∷ 4 ∷ 50 ∷ 100 ∷ []))
drive-IsBounded_example =
    drive-IsBounded transport shared resolver_config 0 0 (1 ∷ 2 ∷ 3 ∷ 4 ∷ 50 ∷ 100 ∷ [])
      (omega arith) (omega arith)

abbrev driver : Driver
unfolding new_driver
driver = new_driver shared resolver_config 0 0

step-deadline_example :
    ((step transport driver 100).1.done ≡ true) × ((step transport driver 100).1.handle ≡ none)
unfolding driver new_driver
step-deadline_example =
    step-deadline transport driver 100
      (new_driver-IsBounded shared resolver_config 0 0 (omega arith) (omega arith)) (omega arith)

abbrev hosts : Hosts
hosts = record { max_entries = 4; entries = [] }

abbrev resolver : Resolver
resolver = record {
  cache = small_cache;
  config = resolver_config;
  hosts = hosts;
  policy = pinning;
  next_query_id = 65535;
  next_server = 0;
}

begin_driver-IsSound_example :
    IsSound (begin_driver resolver (codes "ab.c") dns_a 0 100).0
    × IsReady (begin_driver resolver (codes "ab.c") dns_a 0 100).1
begin_driver-IsSound_example =
    begin_driver-IsSound resolver (codes "ab.c") dns_a 0 100
      (record { id_low = omega arith; id_high = omega arith; tolerant = omega arith })

wrapped_id : (begin_driver resolver (codes "ab.c") dns_a 0 100).1.next_query_id ≡ 1
unfolding begin_driver pcc_gateway.Prelude.lower pcc_gateway.Routing.Path.ends
wrapped_id = refl

host_lines : splitlines (codes "a\r\nb\n") ≡ codes "a" ∷ codes "b" ∷ []
unfolding splitlines
host_lines = refl

host_words : words (codes " a  bc ") ≡ codes "a" ∷ codes "bc" ∷ []
unfolding words
host_words = refl

timeout_option : bounded_resolver_option (codes "99") 1 30 ≡ some 30
unfolding bounded_resolver_option
timeout_option = refl
