-- ===== src/Dns/Rebinding.antt =====
-- The pinned names of the address policy of pcc_gateway/dns.py.
use pcc_gateway.Prelude.{
  ℕ, ◌≡◌, refl, sym, ◌∙◌, ap, subst, true, false, List, [], ◌∷◌, some, Text, text_eq_iff, is_empty,
  ok, err, arith, Bool-cases, Result-cases, inl, inr,
}
use pcc_gateway.Dns.Wire.{canonical_name}
use pcc_gateway.Dns.Policy.{
  Key, key_of, key_eq, find_key, put_key, pin, Binding, AddressPolicy, accept_loop, accept,
  remember, bind, is_rebinding, texts_eq, sort_texts,
}
use pcc_gateway.Dns.Accepts.{accepted_values}
use pcc_gateway.Dns.Keys.{key_eq→≡, find-put, find-put_other}

pub texts_eq→≡ : (ts us : List Text) → texts_eq ts us ≡ true → ts ≡ us
unfolding texts_eq
texts_eq→≡ [] [] h = refl
texts_eq→≡ [] (u ∷ us) h = cc
texts_eq→≡ (t ∷ ts) [] h = cc
texts_eq→≡ (t ∷ ts) (u ∷ us) h =
    let first : t ≡ u = (text_eq_iff t u).0 (ground (arith, h)) in
    let rest = texts_eq→≡ ts us (ground (arith, h)) in cc

-- A policy that pins names, and the addresses that one of them has.
record IsPinned (policy : AddressPolicy) (key : Key) (values : List Text) : Type 0 where
  mode : policy.rebind_mode ≡ pin
  binding : Binding
  found : find_key key policy.bindings ≡ some binding
  same : binding.values ≡ values

-- A binding that the policy lets pass is the one that it keeps.
bind-IsPinned :
    (policy bound : AddressPolicy) (key : Key) (current : Binding)
    → policy.rebind_mode ≡ pin
    → bind policy key current ≡ ok bound
    → IsPinned bound key current.values
unfolding bind is_rebinding
bind-IsPinned policy bound key current mode h =
    let put : bound.bindings ≡ put_key key current policy.bindings = ground (arith, h, mode) in
    record {
      mode = ground (arith, h, mode);
      binding = current;
      found = ap (find_key key) put ∙ find-put key current policy.bindings;
      same = refl;
    }

-- A pinned name keeps its addresses when it is bound again.
bind_again :
    (policy bound : AddressPolicy) (key : Key) (current : Binding) (values : List Text)
    → IsPinned policy key values
    → bind policy key current ≡ ok bound
    → current.values ≡ values
unfolding bind is_rebinding
bind_again policy bound key current values p h =
    let found = p.found in
    let mode = p.mode in
    let eq : texts_eq p.binding.values current.values ≡ true = ground (arith, h, found, mode) in
    sym (texts_eq→≡ p.binding.values current.values eq) ∙ p.same

-- Binding any name leaves the pinned ones alone.
bind-keeps :
    (policy bound : AddressPolicy) (key other : Key) (current : Binding) (values : List Text)
    → IsPinned policy key values
    → bind policy other current ≡ ok bound
    → IsPinned bound key values
unfolding bind is_rebinding
bind-keeps policy bound key other current values p h = elim (Bool-cases (key_eq other key)) [
  | inl e ↦
      let mine = key_eq→≡ other key e in
      let again : bind policy key current ≡ ok bound =
        ap (λ t. bind policy t current) (sym mine) ∙ h in
      subst (IsPinned bound key) (bind_again policy bound key current values p again)
        (bind-IsPinned policy bound key current p.mode again)
  | inr e ↦
      let mode = p.mode in
      let put : bound.bindings ≡ put_key other current policy.bindings = ground (arith, h, mode) in
      record {
        mode = ground (arith, h, mode);
        binding = p.binding;
        found =
            ap (find_key key) put ∙ find-put_other other key current policy.bindings e ∙ p.found;
        same = p.same;
      }
]

module _ (policy bound : AddressPolicy) (canonical classes accepted : List Text) where
  remember-IsPinned :
      (key : Key)
      → policy.rebind_mode ≡ pin
      → is_empty accepted ≡ false
      → remember policy key canonical classes ≡ ok (accepted, bound)
      → IsPinned bound key (sort_texts accepted)
  unfolding remember
  remember-IsPinned key mode full h =
      let same = accepted_values policy bound key canonical classes accepted h in
      let current : Binding = record {
        values = sort_texts canonical;
        classes = sort_texts classes;
      } in
      let left : is_empty canonical ≡ false = ap is_empty same ∙ full in
      elim (Result-cases (bind policy key current)) [
        | inr (e, f) ↦ absurd (ground (arith, h, f, left))
        | inl (after, f) ↦
            let last : after ≡ bound = ground (arith, h, f, left) in
            subst (λ p. IsPinned p key (sort_texts accepted)) last
              (subst (IsPinned after key) (ap sort_texts same)
                (bind-IsPinned policy after key current mode f))
      ]

  remember_again :
      (key : Key) (values : List Text)
      → IsPinned policy key values
      → is_empty accepted ≡ false
      → remember policy key canonical classes ≡ ok (accepted, bound)
      → sort_texts accepted ≡ values
  unfolding remember
  remember_again key values p full h =
      let same = accepted_values policy bound key canonical classes accepted h in
      let current : Binding = record {
        values = sort_texts canonical;
        classes = sort_texts classes;
      } in
      let left : is_empty canonical ≡ false = ap is_empty same ∙ full in
      elim (Result-cases (bind policy key current)) [
        | inr (e, f) ↦ absurd (ground (arith, h, f, left))
        | inl (after, f) ↦ ap sort_texts (sym same) ∙ bind_again policy after key current values p f
      ]

  remember-keeps :
      (key other : Key) (values : List Text)
      → IsPinned policy key values
      → remember policy other canonical classes ≡ ok (accepted, bound)
      → IsPinned bound key values
  unfolding remember
  remember-keeps key other values p h =
      let current : Binding = record {
        values = sort_texts canonical;
        classes = sort_texts classes;
      } in
      elim (Bool-cases (is_empty canonical)) [
        | inl e ↦
            let last : policy ≡ bound = ground (arith, h, e) in
            subst (λ q. IsPinned q key values) last p
        | inr e ↦ elim (Result-cases (bind policy other current)) [
          | inr (error, f) ↦ absurd (ground (arith, h, f, e))
          | inl (after, f) ↦
              let last : after ≡ bound = ground (arith, h, f, e) in
              subst (λ q. IsPinned q key values) last
                (bind-keeps policy after key other current values p f)
        ]
      ]

-- The call that ends `accept`.
pub accept-remember :
    (policy bound : AddressPolicy) (name : Text) (values accepted : List Text) (qtype : ℕ)
    → accept policy name values qtype ≡ ok (accepted, bound)
    → (canonical : List Text) × (classes : List Text) × (remember policy
          (key_of name qtype)
          canonical
          classes
        ≡ ok (accepted, bound))
unfolding accept
accept-remember policy bound name values accepted qtype h =
    elim (Result-cases (accept_loop policy qtype values [] [])) [
      | inr (e, f) ↦ absurd (ground (arith, h, f))
      | inl ((canonical, classes), f) ↦ (canonical, classes, ground (arith, h, f))
    ]

-- A policy after the answers for some names, of which some may be refused.
unfoldable pub accept_all : AddressPolicy → List (Text × List Text × ℕ) → AddressPolicy
unfolding accept
accept_all policy [] = policy
accept_all policy ((name, values, qtype) ∷ answers) = elim (accept policy name values qtype) [
  | err e ↦ accept_all policy answers
  | ok (accepted, bound) ↦ accept_all bound answers
]

accept_all-keeps :
    (policy : AddressPolicy) (key : Key) (values : List Text)
    (answers : List (Text × List Text × ℕ))
    → IsPinned policy key values
    → IsPinned (accept_all policy answers) key values
unfolding accept_all
accept_all-keeps policy key values [] p = p
accept_all-keeps policy key values ((name, found, qtype) ∷ answers) p =
    elim (Result-cases (accept policy name found qtype)) [
      | inr (e, f) ↦ rw (f, accept_all) (accept_all-keeps policy key values answers p)
      | inl ((accepted, bound), f) ↦
          let (canonical, classes, g) = accept-remember policy bound name found accepted qtype f in
          rw (f, accept_all)
            (accept_all-keeps bound key values answers (
              remember-keeps policy bound canonical classes accepted key (key_of name qtype) values
                p g))
    ]

-- Under the `pin` mode a name has one set of addresses: once an answer with addresses was accepted for a name and a
-- type, every later answer with addresses that is accepted for them, whatever was asked in between, has the
-- same addresses, in any order and under any spelling of the name's case and last dots.
pub accept_pin :
    (policy first last : AddressPolicy) (name again : Text)
    (values later accepted found : List Text) (qtype : ℕ) (answers : List (Text × List Text × ℕ))
    → policy.rebind_mode ≡ pin
    → canonical_name name ≡ canonical_name again
    → accept policy name values qtype ≡ ok (accepted, first)
    → is_empty accepted ≡ false
    → accept (accept_all first answers) again later qtype ≡ ok (found, last)
    → is_empty found ≡ false
    → sort_texts found ≡ sort_texts accepted
accept_pin policy first last name again values later accepted found qtype answers mode same h full k
      more =
    let (canonical, classes, g) = accept-remember policy first name values accepted qtype h in
    let (others, kinds, l) =
      accept-remember (accept_all first answers) last again later found qtype k in
    let key = key_of name qtype in
    let pinned = remember-IsPinned policy first canonical classes accepted key mode full g in
    let kept = accept_all-keeps first key (sort_texts accepted) answers pinned in
    let moved =
      ap
        (λ t. remember (accept_all first answers) (record { name = t; qtype = qtype }) others kinds)
        same
      ∙ l in
    remember_again (accept_all first answers) last others kinds found key (sort_texts accepted) kept
      more moved
