-- ===== src/Dns/Policy.antt =====
-- `DnsAddressPolicy` of pcc_gateway/dns.py: which addresses a name may have, now and later. The
-- bindings change under a lock, so a call to `accept` is one step.
use pcc_gateway.Prelude.{
  ℕ, Bool, true, false, not, ◌&&◌, List, [], ◌∷◌, ◌++◌, Option, none, some, Text, codes, text_eq,
  text_in, ltb, ◌==◌, if◌then◌else◌, is_empty, Result, ok, err,
}
use pcc_gateway.Dns.Wire.{
  DnsError, address_policy, address_policy_private, address_policy_loopback,
  address_policy_link_local, address_policy_multicast, address_policy_unspecified, dns_rebinding,
  canonical_name,
}
use pcc_gateway.Dns.Address.{
  AddressClass, unspecified, loopback, private, link_local, multicast, public, invalid,
  address_class, normalize_numeric_address,
}

-- A name and a type, as the tables of the resolver are keyed.
pub record Key : Type 0 where
  pub name : Text
  pub qtype : ℕ

unfoldable pub key_eq : Key → Key → Bool
unfolding text_eq
key_eq a b = text_eq a.name b.name && a.qtype == b.qtype

-- `(name.rstrip(".").lower(), qtype)`
abbrev pub key_of : Text → ℕ → Key
key_of name qtype = record { name = canonical_name name; qtype = qtype }

-- The Boolean order of two texts.
unfoldable pub text_lt : Text → Text → Bool
text_lt [] [] = false
text_lt [] (y ∷ ys) = true
text_lt (x ∷ xs) [] = false
text_lt (x ∷ xs) (y ∷ ys) = if x == y then text_lt xs ys else ltb x y

unfoldable pub insert_text : Text → List Text → List Text
unfolding text_lt
insert_text t [] = t ∷ []
insert_text t (u ∷ us) = let rest = insert_text t us in if text_lt u t then u ∷ rest else t ∷ u ∷ us

-- `sorted` of texts.
unfoldable pub sort_texts : List Text → List Text
unfolding insert_text
sort_texts [] = []
sort_texts (t ∷ ts) = insert_text t (sort_texts ts)

unfoldable pub texts_eq : List Text → List Text → Bool
unfolding text_eq
texts_eq [] [] = true
texts_eq [] (u ∷ us) = false
texts_eq (t ∷ ts) [] = false
texts_eq (t ∷ ts) (u ∷ us) = text_eq t u && texts_eq ts us

-- The texts that `_address_class` returns.
abbrev pub class_name : AddressClass → Text
class_name unspecified = codes "unspecified"
class_name loopback = codes "loopback"
class_name private = codes "private"
class_name link_local = codes "link-local"
class_name multicast = codes "multicast"
class_name public = codes "public"
class_name invalid = codes "invalid"

pub data RebindMode : Type 0 where
  allow same_class pin : RebindMode

-- The values and the classes that a name had first or last.
pub record Binding : Type 0 where
  pub values : List Text
  pub classes : List Text

pub record AddressPolicy : Type 0 where
  pub allow_private : Bool
  pub allow_loopback : Bool
  pub allow_link_local : Bool
  pub allow_multicast : Bool
  pub allow_unspecified : Bool
  pub rebind_mode : RebindMode
  pub bindings : List (Key × Binding)

-- `DnsAddressPolicy()`
abbrev pub default_policy : AddressPolicy
default_policy = record {
  allow_private = true;
  allow_loopback = true;
  allow_link_local = false;
  allow_multicast = false;
  allow_unspecified = false;
  rebind_mode = same_class;
  bindings = [];
}

-- A dictionary by `Key`.
module _ {A : Type 0} where
  unfoldable pub find_key : Key → List (Key × A) → Option A
  unfolding key_eq
  find_key key [] = none
  find_key key ((other, value) ∷ rest) = if key_eq other key then some value else find_key key rest

  -- A new key goes to the end, as in Python.
  unfoldable pub put_key : Key → A → List (Key × A) → List (Key × A)
  unfolding key_eq
  put_key key value [] = (key, value) ∷ []
  put_key key value ((other, old) ∷ rest) =
      let later = put_key key value rest in
      if key_eq other key then (other, value) ∷ rest else (other, old) ∷ later

-- The error of a class that the flags exclude.
unfoldable pub class_error : AddressPolicy → AddressClass → Option DnsError
class_error policy private = if not policy.allow_private then some address_policy_private else none
class_error policy loopback =
    if not policy.allow_loopback then some address_policy_loopback else none
class_error policy link_local =
    if not policy.allow_link_local then some address_policy_link_local else none
class_error policy multicast =
    if not policy.allow_multicast then some address_policy_multicast else none
class_error policy unspecified =
    if not policy.allow_unspecified then some address_policy_unspecified else none
class_error policy public = none
class_error policy invalid = none

abbrev pub append_new : Text → List Text → List Text
append_new t ts = if text_in t ts then ts else ts ++ t ∷ []

-- The loop of `accept`: the addresses without doubles, and their classes.
unfoldable pub accept_loop :
    AddressPolicy → ℕ → List Text → List Text → List Text → Result DnsError (List Text × List Text)
unfolding normalize_numeric_address address_class class_error text_in
accept_loop policy qtype [] canonical classes = ok (canonical, classes)
accept_loop policy qtype (value ∷ values) canonical classes =
    elim (normalize_numeric_address value qtype) [
      | none ↦ err address_policy
      | some normalized ↦
          let kind = address_class normalized in
          elim (class_error policy kind) [
            | some e ↦ err e
            | none ↦
                if text_in normalized canonical
                then accept_loop policy qtype values canonical classes
                else accept_loop policy qtype values (canonical ++ normalized ∷ [])
                    (append_new (class_name kind) classes)
          ]
    ]

-- Does the binding of a name forbid another?
unfoldable pub is_rebinding : RebindMode → Binding → Binding → Bool
unfolding texts_eq
is_rebinding allow previous current = false
is_rebinding same_class previous current = not (texts_eq previous.classes current.classes)
is_rebinding pin previous current = not (texts_eq previous.values current.values)

abbrev pub is_allow : RebindMode → Bool
is_allow allow = true
is_allow same_class = false
is_allow pin = false

-- What happens under the lock.
unfoldable pub bind : AddressPolicy → Key → Binding → Result DnsError AddressPolicy
unfolding find_key put_key is_rebinding
bind policy key current =
    let bound = record policy { bindings = put_key key current policy.bindings } in
    elim (find_key key policy.bindings) [
      | none ↦ ok bound
      | some previous ↦
          if is_rebinding policy.rebind_mode previous current
          then err dns_rebinding
          else if not (is_allow policy.rebind_mode)
          then ok bound
          else ok policy
    ]

-- What `accept` does with the addresses that the flags let pass.
unfoldable pub remember :
    AddressPolicy → Key → List Text → List Text → Result DnsError (List Text × AddressPolicy)
unfolding sort_texts bind
remember policy key canonical classes =
    if is_empty canonical
    then ok (canonical, policy)
    else elim (bind policy key
        (record { values = sort_texts canonical; classes = sort_texts classes })) [
          | err e ↦ err e
          | ok bound ↦ ok (canonical, bound)
        ]

-- `accept`
unfoldable pub accept :
    AddressPolicy → Text → List Text → ℕ → Result DnsError (List Text × AddressPolicy)
unfolding accept_loop canonical_name remember
accept policy name values qtype = elim (accept_loop policy qtype values [] []) [
  | err e ↦ err e
  | ok (canonical, classes) ↦ remember policy (key_of name qtype) canonical classes
]
