-- ===== src/Dns/Accepts.antt =====
-- What the address policy of pcc_gateway/dns.py lets pass.
use pcc_gateway.Prelude.{
  ℕ, ◌≡◌, refl, Bool, true, ◌∙◌, ap, subst, List, [], ◌∷◌, ◌++◌, none, some, Text, text_in, All,
  All-append, ok, arith, Bool-cases, Option-cases, Result-cases, inl, inr,
}
use pcc_gateway.Dns.Address.{
  AddressClass, unspecified, loopback, private, link_local, multicast, public, invalid,
  address_class, normalize_numeric_address,
}
use pcc_gateway.Dns.Policy.{
  Key, key_of, AddressPolicy, class_error, class_name, append_new, accept_loop, accept, remember,
}

-- Each class of addresses has its flag, but for public ones.
abbrev pub permits : AddressPolicy → AddressClass → Bool
permits policy unspecified = policy.allow_unspecified
permits policy loopback = policy.allow_loopback
permits policy private = policy.allow_private
permits policy link_local = policy.allow_link_local
permits policy multicast = policy.allow_multicast
permits policy public = true
permits policy invalid = true

class_error-permits :
    (policy : AddressPolicy) (kind : AddressClass)
    → class_error policy kind ≡ none
    → permits policy kind ≡ true
unfolding class_error
class_error-permits policy unspecified h = ground (arith, h)
class_error-permits policy loopback h = ground (arith, h)
class_error-permits policy private h = ground (arith, h)
class_error-permits policy link_local h = ground (arith, h)
class_error-permits policy multicast h = ground (arith, h)
class_error-permits policy public h = refl
class_error-permits policy invalid h = refl

-- An address that a policy lets pass: a numeric one in canonical form, of a class that the flags allow.
pub record IsAllowed (policy : AddressPolicy) (qtype : ℕ) (address : Text) : Type 0 where
  pub spelling : Text
  pub normal : normalize_numeric_address spelling qtype ≡ some address
  pub allowed : permits policy (address_class address) ≡ true

accept_loop-IsAllowed :
    (policy : AddressPolicy) (qtype : ℕ) (values canonical classes accepted kinds : List Text)
    → All (IsAllowed policy qtype) canonical
    → accept_loop policy qtype values canonical classes ≡ ok (accepted, kinds)
    → All (IsAllowed policy qtype) accepted
unfolding accept_loop
accept_loop-IsAllowed policy qtype [] canonical classes accepted kinds all h =
    subst (All (IsAllowed policy qtype)) (ground (arith, h)) all
accept_loop-IsAllowed policy qtype (value ∷ values) canonical classes accepted kinds all h =
    elim (Option-cases (normalize_numeric_address value qtype)) [
      | inl e ↦ absurd (ground (arith, h, e))
      | inr (address, e) ↦ elim (Option-cases (class_error policy (address_class address))) [
        | inr (error, f) ↦ absurd (ground (arith, h, e, f))
        | inl f ↦ elim (Bool-cases (text_in address canonical)) [
          | inl g ↦
              accept_loop-IsAllowed policy qtype values canonical classes accepted kinds all
                (ground (arith, h, e, f, g))
          | inr g ↦
              accept_loop-IsAllowed policy qtype values (canonical ++ address ∷ [])
                (append_new (class_name (address_class address)) classes) accepted kinds
                (All-append (IsAllowed policy qtype) canonical (address ∷ []) all (
                  record {
                    spelling = value;
                    normal = e;
                    allowed = class_error-permits policy (address_class address) f;
                  },
                  tt,
                ))
                (ground (arith, h, e, f, g))
        ]
      ]
    ]

pub accepted_values :
    (policy bound : AddressPolicy) (key : Key) (canonical classes accepted : List Text)
    → remember policy key canonical classes ≡ ok (accepted, bound)
    → canonical ≡ accepted
unfolding remember
accepted_values policy bound key canonical classes accepted h = ground arith

-- Every address that `accept` returns is the canonical form of a numeric address of the type asked for, and
-- of a class that the policy's flags allow.
pub accept-IsAllowed :
    (policy bound : AddressPolicy) (name : Text) (values accepted : List Text) (qtype : ℕ)
    → accept policy name values qtype ≡ ok (accepted, bound)
    → All (IsAllowed policy qtype) accepted
unfolding accept
accept-IsAllowed policy bound name values accepted qtype h =
    elim (Result-cases (accept_loop policy qtype values [] [])) [
      | inr (e, f) ↦ absurd (ground (arith, h, f))
      | inl ((canonical, classes), f) ↦
          let same =
            accepted_values policy bound (key_of name qtype) canonical classes accepted
              (ground (arith, h, f)) in
          accept_loop-IsAllowed policy qtype values [] [] accepted classes tt
            (f ∙ ap (λ t. ok (t, classes)) same)
    ]
