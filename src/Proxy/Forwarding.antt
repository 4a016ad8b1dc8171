-- ===== src/Proxy/Forwarding.antt =====
-- What reaches an upstream from pcc_gateway/proxy.py.
use mathlib.Core.List.{Memᴰ}
use pcc_gateway.Prelude.{
  ◌≡◌, ◌≢◌, refl, ◌∙◌, sym, ap, subst, Bool, true, false, not, ◌&&◌, ◌||◌, List, [], ◌∷◌, ◌++◌,
  Text, codes, text_eq, text_eq_iff, text_eq_refl, text_in, lower, split, is_empty, Bool-cases, All,
  inl, inr, arith,
}
use pcc_gateway.Http1.Smuggling.{field_values}
use pcc_gateway.Proxy.Headers.{
  Fields, hop_by_hop, token_of, add_tokens, named_loop, connection_named_fields, keep_fields,
  sanitize_hop_by_hop, is_forwarded, kept_fields, incoming_for, chain_of, forwarded_request_headers,
}

text_in-append : (t : Text) (ts us : List Text) → text_in t ts ≡ true → text_in t (ts ++ us) ≡ true
unfolding text_in
text_in-append t [] us h = absurd (cc)
text_in-append t (u ∷ ts) us h = ground (arith, text_in-append t ts us)

text_in-last : (t : Text) (ts : List Text) → text_in t (ts ++ t ∷ []) ≡ true
unfolding text_in
text_in-last t [] = ground (arith, text_eq_refl t)
text_in-last t (u ∷ ts) = ground (arith, text_in-last t ts)

add_tokens-keeps :
    (t : Text) (named items : List Text)
    → text_in t named ≡ true
    → text_in t (add_tokens named items) ≡ true
unfolding add_tokens
add_tokens-keeps t named [] h = h
add_tokens-keeps t named (item ∷ items) h = ground (
  arith,
  add_tokens-keeps t named items,
  add_tokens-keeps t (named ++ token_of item ∷ []) items,
  text_in-append t named (token_of item ∷ []),
)

add_tokens-finds :
    (item : Text) (named items : List Text)
    → Memᴰ item items
    → is_empty (token_of item) ≡ false
    → text_in (token_of item) (add_tokens named items) ≡ true
unfolding add_tokens
add_tokens-finds item named [] m h = elim m [ ]
add_tokens-finds item named (other ∷ items) (Memᴰ.tail m) h = ground (
  arith,
  add_tokens-finds item named items m h,
  add_tokens-finds item (named ++ token_of other ∷ []) items m h,
)
add_tokens-finds item named (other ∷ items) (Memᴰ.head e) h =
    rw (← e) (elim (Bool-cases (text_in (token_of item) named)) [
      | inl f ↦ rw (h, f) (add_tokens-keeps (token_of item) named items f)
      | inr f ↦
          rw (h, f)
            (add_tokens-keeps (token_of item) (named ++ token_of item ∷ []) items
              (text_in-last (token_of item) named))
    ])

-- A field `Connection` of a head names this token.
pub data Named (t : Text) : Fields → Type 0 where
  here :
      (name value item : Text) (rest : Fields)
      → text_eq (lower name) (codes "connection") ≡ true
      → Memᴰ item (split 44 value)
      → token_of item ≡ t
      → Named t ((name, value) ∷ rest)
  there : (field : Text × Text) (rest : Fields) → Named t rest → Named t (field ∷ rest)

named_loop-keeps :
    (t : Text) (named : List Text) (fs : Fields)
    → text_in t named ≡ true
    → text_in t (named_loop named fs) ≡ true
unfolding named_loop
named_loop-keeps t named [] h = h
named_loop-keeps t named ((name, value) ∷ rest) h = ground (
  arith,
  named_loop-keeps t named rest,
  named_loop-keeps t (add_tokens named (split 44 value)) rest,
  add_tokens-keeps t named (split 44 value),
)

named_loop-finds :
    (t : Text) (named : List Text) (fs : Fields)
    → Named t fs
    → is_empty t ≡ false
    → text_in t (named_loop named fs) ≡ true
unfolding named_loop
named_loop-finds t named fs (here name value item rest e m same) h = rw (e) (
    named_loop-keeps t (add_tokens named (split 44 value)) rest (
      subst (λ u. text_in u (add_tokens named (split 44 value)) ≡ true) same
        (add_tokens-finds item named (split 44 value) m (ap is_empty same ∙ h))))
named_loop-finds t named fs (there (name, value) rest n) h = ground (
  arith,
  named_loop-finds t named rest n h,
  named_loop-finds t (add_tokens named (split 44 value)) rest n h,
)

text_in-other : (t u : Text) (us : List Text) → text_in t us ≡ true → text_in u us ≡ false → t ≢ u
text_in-other t u us h k =
    λ e. (let l : text_in t us ≡ text_in u us = ap (λ v. text_in v us) e in absurd (cc))

-- A field that may go to an upstream.
abbrev pub EndToEnd : Fields → Text × Text → Type 0
EndToEnd headers field =
    (text_in field.0 hop_by_hop ≡ false)
    × ((t : Text) → Named t headers → is_empty t ≡ false → t ≢ field.0)

keep_fields-EndToEnd :
    (headers : Fields) (dropped : List Text) (fs : Fields)
    → ((t : Text) → Named t headers → is_empty t ≡ false → text_in t dropped ≡ true)
    → All (EndToEnd headers) (keep_fields dropped fs)
unfolding keep_fields
keep_fields-EndToEnd headers dropped [] h = tt
keep_fields-EndToEnd headers dropped ((name, value) ∷ rest) h =
    elim (Bool-cases (text_in (lower name) hop_by_hop || text_in (lower name) dropped)) [
      | inl e ↦ rw (e, keep_fields) (keep_fields-EndToEnd headers dropped rest h)
      | inr e ↦
          rw (e, keep_fields)
            (
              (
                ground arith,
                λ t n full. text_in-other t (lower name) dropped (h t n full) (ground arith),
              ),
              keep_fields-EndToEnd headers dropped rest h,
            )
    ]

-- No field that `sanitize_hop_by_hop` returns has a hop-by-hop name, or a name that some `Connection` field
-- of the head lists, in whatever case and white space.
pub sanitize-EndToEnd : (headers : Fields) → All (EndToEnd headers) (sanitize_hop_by_hop headers)
unfolding sanitize_hop_by_hop connection_named_fields
sanitize-EndToEnd headers =
    keep_fields-EndToEnd headers (named_loop [] headers) headers
      (λ t n full. named_loop-finds t [] headers n full)

field_values-both :
    (name : Text) (fs gs : Fields)
    → field_values name (fs ++ gs) ≡ field_values name fs ++ field_values name gs
field_values-both name [] gs = refl
field_values-both name ((key, value) ∷ fs) gs = ground (arith, field_values-both name fs gs)

-- A name of the three that is dropped leaves no value.
kept_fields-none :
    (trust : Bool) (name : Text) (fs : Fields)
    → is_forwarded name ≡ true
    → (trust && text_eq name (codes "x-forwarded-for")) ≡ false
    → field_values name (kept_fields trust fs) ≡ []
unfolding kept_fields
kept_fields-none trust name [] h k = refl
kept_fields-none trust name ((key, value) ∷ fs) h k = elim (Bool-cases (text_eq key name)) [
  | inl e ↦
      let same : name ≡ key = sym ((text_eq_iff key name).0 e) in
      rw
        (
          subst (λ n. is_forwarded n ≡ true) same h,
          subst (λ n. (trust && text_eq n (codes "x-forwarded-for")) ≡ false) same k,
          kept_fields,
        )
        (kept_fields-none trust name fs h k)
  | inr e ↦
      elim (Bool-cases (is_forwarded key && not (trust && text_eq key (codes "x-forwarded-for")))) [
        | inl f ↦ rw (f, kept_fields) (kept_fields-none trust name fs h k)
        | inr f ↦ rw (f, kept_fields, e) (kept_fields-none trust name fs h k)
      ]
]

incoming_for-untrusted : (fs : Fields) → incoming_for false [] fs ≡ []
unfolding incoming_for
incoming_for-untrusted [] = refl
incoming_for-untrusted ((name, value) ∷ rest) = incoming_for-untrusted rest

-- The values of one of the three names in the end: those of the fields put last.
last_values :
    (name : Text) (trust : Bool) (kept put : Fields)
    → is_forwarded name ≡ true
    → (trust && text_eq name (codes "x-forwarded-for")) ≡ false
    → field_values name (kept_fields trust kept ++ put) ≡ field_values name put
last_values name trust kept put h k =
    field_values-both name (kept_fields trust kept) put
    ∙ ap (λ vs. vs ++ field_values name put) (kept_fields-none trust name kept h k)

and_false : (b : Bool) → (b && false) ≡ false
and_false true = refl
and_false false = refl

-- A request that goes to an upstream says once where it came from: the scheme and the host are those that
-- the gateway puts there, whatever fields came in, and the client's address alone is in `x-forwarded-for`
-- unless incoming fields are trusted.
pub forwarded_request_headers-once :
    (headers : Fields) (client_ip scheme host : Text) (trust : Bool)
    → (field_values
          (codes "x-forwarded-proto")
          (forwarded_request_headers headers client_ip scheme host trust)
        ≡ scheme ∷ [])
      × (field_values
            (codes "x-forwarded-host")
            (forwarded_request_headers headers client_ip scheme host trust)
          ≡ host ∷ [])
      × (trust ≡ false
          → field_values
              (codes "x-forwarded-for")
              (forwarded_request_headers headers client_ip scheme host trust)
            ≡ client_ip ∷ [])
unfolding forwarded_request_headers text_eq chain_of is_forwarded text_in
forwarded_request_headers-once headers client_ip scheme host trust = (
  last_values _ trust (sanitize_hop_by_hop headers) _ refl (and_false trust),
  last_values _ trust (sanitize_hop_by_hop headers) _ refl (and_false trust),
  λ off.
      last_values _ trust (sanitize_hop_by_hop headers) _ refl (rw (off) refl)
      ∙ rw (off, incoming_for-untrusted (sanitize_hop_by_hop headers)) refl,
)
