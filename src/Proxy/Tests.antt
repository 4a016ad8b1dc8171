-- ===== src/Proxy/Tests.antt =====
-- Tests of pcc_gateway/proxy.py, and the theorems at concrete inputs.
use mathlib.Core.List.{Memᴰ}
use pcc_gateway.Prelude.{
  arith, if◌then◌else◌, ◌==◌, ok, text_eq_iff, ap, sym, subst, ◌∙◌, split, lower, strip, text_eq,
  text_in, ℕ, ◌≡◌, refl, Bool, true, false, List, [], ◌∷◌, Text, codes, All, pos, ◌+◌, ◌%◌, length,
  drop, take, ◌++◌,
}
use pcc_gateway.Http1.Smuggling.{field_values}
use pcc_gateway.Proxy.Pool.{Pool, acquire, release_lease}
use pcc_gateway.Proxy.Leases.{
  out, IsCounted, take_from, give_back, pool_after, pool_after-IsCounted, release_lease-IsCounted,
}
use pcc_gateway.Dns.Policy.{sort_texts}
use pcc_gateway.Proxy.Rotation.{Rotation, settled, ordered_addresses}
use pcc_gateway.Proxy.Turns.{IsSteady, ordered_addresses-IsTurned}
use pcc_gateway.Proxy.Headers.{token_of, Fields, sanitize_hop_by_hop, forwarded_request_headers}
use pcc_gateway.Proxy.Retry.{allows, proxy_failure_status}
use pcc_gateway.Proxy.Kept.{sanitize-keeps}
use pcc_gateway.Proxy.Forwarding.{
  Named, here, there, EndToEnd, sanitize-EndToEnd, forwarded_request_headers-once,
}

abbrev addresses : List Text
addresses = codes "192.0.2.1" ∷ codes "192.0.2.2" ∷ codes "192.0.2.3" ∷ []

abbrev turned : Rotation
turned = record { address_cursor = 1; last_address_set = addresses }

second_first :
    (ordered_addresses turned (codes "192.0.2.3" ∷ codes "192.0.2.1" ∷ codes "192.0.2.2" ∷ [])).0
    ≡ codes "192.0.2.2" ∷ codes "192.0.2.3" ∷ codes "192.0.2.1" ∷ []
unfolding ordered_addresses
second_first = refl

turned-IsSteady : IsSteady turned
unfolding IsSteady
turned-IsSteady = omega arith

ordered_addresses-IsTurned_example :
    (ordered_addresses turned addresses ≡ (
      drop (settled turned (sort_texts addresses)).address_cursor (sort_texts addresses)
          ++ take (settled turned (sort_texts addresses)).address_cursor (sort_texts addresses),
      record {
        address_cursor =
            ((settled turned (sort_texts addresses)).address_cursor + 1)
            % length (sort_texts addresses);
        last_address_set = sort_texts addresses;
      },
    ))
    × IsSteady (ordered_addresses turned addresses).1
ordered_addresses-IsTurned_example =
    ordered_addresses-IsTurned turned (codes "192.0.2.1")
      (codes "192.0.2.2" ∷ codes "192.0.2.3" ∷ []) turned-IsSteady

abbrev fields : Fields
fields =
    (codes "Host", codes "front")
    ∷ (codes "Connection", codes "close, X-Private")
    ∷ (codes "x-private", codes "1")
    ∷ (codes "X-Forwarded-For", codes "forged")
    ∷ []

sanitized :
    sanitize_hop_by_hop fields
    ≡ (codes "host", codes "front") ∷ (codes "x-forwarded-for", codes "forged") ∷ []
unfolding sanitize_hop_by_hop pcc_gateway.Prelude.text_in pcc_gateway.Prelude.text_eq
    pcc_gateway.Prelude.lower pcc_gateway.Proxy.Headers.connection_named_fields
    pcc_gateway.Prelude.split pcc_gateway.Prelude.strip pcc_gateway.Prelude.is_space
sanitized = refl

sanitize-EndToEnd_example : All (EndToEnd fields) (sanitize_hop_by_hop fields)
sanitize-EndToEnd_example = sanitize-EndToEnd fields

abbrev sent : Fields
sent = forwarded_request_headers fields (codes "192.0.2.4") (codes "https") (codes "front") false

forwarded_request_headers-once_example :
    (field_values (codes "x-forwarded-proto") sent ≡ codes "https" ∷ [])
    × (field_values (codes "x-forwarded-host") sent ≡ codes "front" ∷ [])
    × (false ≡ false → field_values (codes "x-forwarded-for") sent ≡ codes "192.0.2.4" ∷ [])
forwarded_request_headers-once_example =
    forwarded_request_headers-once fields (codes "192.0.2.4") (codes "https") (codes "front") false

late_failure :
    allows
      (record { attempts = pos 3; methods = codes "GET" ∷ [] })
      (codes "get")
      (pos 1)
      false
      (codes "body-timeout")
      true
    ≡ false
unfolding allows pcc_gateway.Prelude.text_in pcc_gateway.Prelude.text_eq pcc_gateway.Prelude.upper
late_failure = refl

body_timeout : proxy_failure_status (codes "request-body-timeout") ≡ 408
unfolding proxy_failure_status pcc_gateway.Prelude.text_in pcc_gateway.Prelude.text_eq
body_timeout = refl

abbrev closing : Fields
closing = (codes "Host", codes "front") ∷ (codes "Connection", codes "close") ∷ []

closing_split : split 44 (codes "close") ≡ codes "close" ∷ []
unfolding split
closing_split = refl

close_token : text_eq (token_of (codes "close")) (codes "host") ≡ false
unfolding token_of text_eq lower strip pcc_gateway.Prelude.is_space
close_token = refl

host_unnamed_later : Named (codes "host") ((codes "Connection", codes "close") ∷ []) → ⊥
host_unnamed_later (here name value item rest e m same) =
    only (subst (λ items. Memᴰ item items) closing_split m)
  where
    only : Memᴰ item (codes "close" ∷ []) → ⊥
    only (Memᴰ.head f) =
        (let g : token_of (codes "close") ≡ codes "host" = ap token_of (sym f) ∙ same in
          let k = (text_eq_iff (token_of (codes "close")) (codes "host")).1 g in
          let l = close_token in absurd (cc))
    only (Memᴰ.tail k) = elim k [ ]
host_unnamed_later (there f rest n) = elim n [ ]

host_unnamed : Named (lower (codes "Host")) closing → ⊥
unfolding lower text_eq
host_unnamed (here name value item rest e m same) = absurd (cc)
host_unnamed (there f rest n) = host_unnamed_later n

sanitize-keeps_example : Memᴰ (lower (codes "Host"), codes "front") (sanitize_hop_by_hop closing)
unfolding lower text_in text_eq
sanitize-keeps_example =
    sanitize-keeps closing (codes "Host") (codes "front") (Memᴰ.head refl) refl host_unnamed

-- With trusted fields the incoming chain goes on twice: as it came, and with the client's address.
chain_twice :
    field_values
      (codes "x-forwarded-for")
      (forwarded_request_headers fields (codes "192.0.2.4") (codes "https") (codes "front") true)
    ≡ codes "forged" ∷ codes "forged, 192.0.2.4" ∷ []
unfolding forwarded_request_headers text_in text_eq lower
    pcc_gateway.Proxy.Headers.connection_named_fields split strip pcc_gateway.Prelude.is_space
chain_twice = refl

-- Groups of two endpoints, which they share.
abbrev pool : Pool
pool = record {
  groups = λ g. record { members = 0 ∷ 1 ∷ []; max_active = 2; active = 0; cursor = 0 };
  endpoints = λ e. record { weight = 1; active = 0; failures = 0 };
  leases = [];
}

counted : IsCounted pool
unfolding out
counted = record { groups = λ g. refl; endpoints = λ e. refl; limit = λ g. omega arith }

pool_after-IsCounted_example : IsCounted (
    pool_after pool
      (take_from 0 ∷ take_from 1 ∷ give_back 0 true ∷ give_back 0 true ∷ take_from 0 ∷ []))
pool_after-IsCounted_example =
    pool_after-IsCounted pool
      (take_from 0 ∷ take_from 1 ∷ give_back 0 true ∷ give_back 0 true ∷ take_from 0 ∷ []) counted

in_turn :
    (acquire (acquire pool 0).1 0).1.leases
    ≡ record { group = 0; endpoint = 0; is_released = false }
      ∷ record { group = 0; endpoint = 1; is_released = false }
      ∷ []
unfolding acquire
in_turn = refl

-- The pool with one lease out.
abbrev leased : Pool
leased = record {
  groups = λ g.
      if 0 == g
      then record { members = 0 ∷ 1 ∷ []; max_active = 2; active = 1; cursor = 1 }
      else record { members = 0 ∷ 1 ∷ []; max_active = 2; active = 0; cursor = 0 };
  endpoints = λ e.
      if 0 == e
      then record { weight = 1; active = 1; failures = 0 }
      else record { weight = 1; active = 0; failures = 0 };
  leases = record { group = 0; endpoint = 0; is_released = false } ∷ [];
}

leased-IsCounted : IsCounted leased
unfolding out
leased-IsCounted = record {
  groups = λ g. ground arith;
  endpoints = λ e. ground arith;
  limit = λ g. ground arith;
}

release_lease-IsCounted_example :
    ((release_lease leased 0 (record { group = 0; endpoint = 0; is_released = false }) true).0
      ≡ ok tt)
    × IsCounted
        (release_lease leased 0 (record { group = 0; endpoint = 0; is_released = false }) true).1
release_lease-IsCounted_example =
    release_lease-IsCounted leased 0 (record { group = 0; endpoint = 0; is_released = false })
      leased-IsCounted (record { found = refl; open_lease = refl }) true
