-- ===== src/Proxy/Rotation.antt =====
-- The addresses of an `UpstreamEndpoint` of pcc_gateway/proxy.py, in turn.
use pcc_gateway.Prelude.{
  ℕ, zero, suc, ◌+◌, ◌%◌, List, [], ◌∷◌, Text, if◌then◌else◌, is_empty, length, get_or, Result, ok,
  err,
}
use pcc_gateway.Dns.Wire.{DnsError, value_error}
use pcc_gateway.Dns.Policy.{AddressPolicy, sort_texts, texts_eq, accept}

-- `address_cursor` and `last_address_set`
pub record Rotation : Type 0 where
  pub address_cursor : ℕ
  pub last_address_set : List Text

abbrev pub new_rotation : Rotation
new_rotation = record { address_cursor = 0; last_address_set = [] }

-- A set that differs from the last one begins at its first address.
unfoldable pub settled : Rotation → List Text → Rotation
unfolding texts_eq
settled r address_set =
    if texts_eq address_set r.last_address_set
    then r
    else record { address_cursor = 0; last_address_set = address_set }

-- The loop over the addresses from the cursor on; `left` are still to come.
unfoldable pub rotate_loop : ℕ → List Text → ℕ → ℕ → List Text
rotate_loop zero address_set cursor index = []
rotate_loop (suc left) address_set cursor index =
    get_or address_set ((cursor + index) % length address_set) []
    ∷ rotate_loop left address_set cursor (index + 1)

-- `_ordered_addresses_unlocked`, and so `ordered_addresses`
unfoldable pub ordered_addresses : Rotation → List Text → List Text × Rotation
unfolding sort_texts settled rotate_loop
ordered_addresses r values =
    let address_set = sort_texts values in
    let s = settled r address_set in
    if is_empty values then ([], r) else (
      rotate_loop (length address_set) address_set s.address_cursor 0,
      record s { address_cursor = (s.address_cursor + 1) % length address_set },
    )

-- `choose_address`
unfoldable pub choose_address : Rotation → List Text → Result DnsError Text × Rotation
unfolding sort_texts settled
choose_address r values =
    let address_set = sort_texts values in
    let s = settled r address_set in
    if is_empty values then (err value_error, r) else (
      ok (get_or address_set (s.address_cursor % length address_set) []),
      record s { address_cursor = (s.address_cursor + 1) % length values },
    )

-- `accept_and_order_addresses`
unfoldable pub accept_and_order_addresses :
    AddressPolicy
    → Rotation
    → Text
    → List Text
    → ℕ
    → Result DnsError (List Text) × (AddressPolicy × Rotation)
unfolding accept ordered_addresses
accept_and_order_addresses policy r host values qtype = elim (accept policy host values qtype) [
  | err e ↦ (err e, (policy, r))
  | ok (accepted, bound) ↦
      (let (ordered, next) = ordered_addresses r accepted in (ok ordered, (bound, next)))
]
