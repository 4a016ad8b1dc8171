-- ===== src/Proxy/Kept.antt =====
-- What `sanitize_hop_by_hop` of pcc_gateway/proxy.py keeps.
use mathlib.Core.List.{Memᴰ}
use pcc_gateway.Prelude.{
  ◌≡◌, refl, sym, ap, true, false, not, ◌&&◌, ◌||◌, ◌⊎◌, List, [], ◌∷◌, ◌++◌, Text, codes, text_eq,
  text_eq_iff, text_in, lower, split, is_empty, Bool-cases, inl, inr, arith,
}
use pcc_gateway.Proxy.Headers.{
  Fields, hop_by_hop, token_of, add_tokens, named_loop, connection_named_fields, keep_fields,
  sanitize_hop_by_hop,
}
use pcc_gateway.Proxy.Forwarding.{Named, here, there}

text_in-snoc :
    (t u : Text) (us : List Text)
    → text_in t (us ++ u ∷ []) ≡ true
    → (text_in t us ≡ true) ⊎ (u ≡ t)
unfolding text_in
text_in-snoc t u [] h = inr (sym ((text_eq_iff t u).0 (ground arith)))
text_in-snoc t u (v ∷ us) h = elim (Bool-cases (text_eq t v)) [
  | inl e ↦ inl (rw (e) refl)
  | inr e ↦ elim (text_in-snoc t u us (ground arith)) [ inl k ↦ inl (ground arith) | inr k ↦ inr k ]
]

-- An item of a list whose token is this one.
TokenOf : Text → List Text → Type 0
TokenOf t items = (item : Text) × Memᴰ item items × (token_of item ≡ t)

later_token : (t item : Text) (items : List Text) → TokenOf t items → TokenOf t (item ∷ items)
unfolding TokenOf
later_token t item items (found, m, e) = (found, Memᴰ.tail m, e)

add_tokens-from :
    (t : Text) (named items : List Text)
    → text_in t (add_tokens named items) ≡ true
    → (text_in t named ≡ true) ⊎ TokenOf t items
unfolding add_tokens TokenOf
add_tokens-from t named [] h = inl h
add_tokens-from t named (item ∷ items) h =
    elim (Bool-cases (not (is_empty (token_of item)) && not (text_in (token_of item) named))) [
      | inr e ↦ elim (add_tokens-from t named items (ground arith)) [
        | inl k ↦ inl k
        | inr k ↦ inr (later_token t item items k)
      ]
      | inl e ↦ elim (add_tokens-from t (named ++ token_of item ∷ []) items (ground arith)) [
        | inl k ↦ elim (text_in-snoc t (token_of item) named k) [
          | inl l ↦ inl l
          | inr l ↦ inr (item, Memᴰ.head refl, l)
        ]
        | inr k ↦ inr (later_token t item items k)
      ]
    ]

named_loop-from :
    (t : Text) (named : List Text) (fs : Fields)
    → text_in t (named_loop named fs) ≡ true
    → (text_in t named ≡ true) ⊎ Named t fs
unfolding named_loop TokenOf
named_loop-from t named [] h = inl h
named_loop-from t named ((name, value) ∷ rest) h =
    elim (Bool-cases (text_eq (lower name) (codes "connection"))) [
      | inr e ↦ elim (named_loop-from t named rest (ground arith)) [
        | inl k ↦ inl k
        | inr k ↦ inr (there (name, value) rest k)
      ]
      | inl e ↦ elim (named_loop-from t (add_tokens named (split 44 value)) rest (ground arith)) [
        | inr k ↦ inr (there (name, value) rest k)
        | inl k ↦ elim (add_tokens-from t named (split 44 value) k) [
          | inl l ↦ inl l
          | inr (item, m, same) ↦ inr (here name value item rest e m same)
        ]
      ]
    ]

keep_fields-member :
    (dropped : List Text) (fs : Fields) (name value : Text)
    → Memᴰ (name, value) fs
    → (text_in (lower name) hop_by_hop || text_in (lower name) dropped) ≡ false
    → Memᴰ (lower name, value) (keep_fields dropped fs)
unfolding keep_fields
keep_fields-member dropped [] name value m h = elim m [ ]
keep_fields-member dropped ((key, other) ∷ rest) name value (Memᴰ.head e) h =
    let same_key : name ≡ key = ap (λ f. f.0) e in
    let same_value : value ≡ other = ap (λ f. f.1) e in
    rw (← same_key, ← same_value, h, keep_fields) (Memᴰ.head refl)
keep_fields-member dropped ((key, other) ∷ rest) name value (Memᴰ.tail m) h =
    elim (Bool-cases (text_in (lower key) hop_by_hop || text_in (lower key) dropped)) [
      | inl e ↦ rw (e, keep_fields) (keep_fields-member dropped rest name value m h)
      | inr e ↦ rw (e, keep_fields) (Memᴰ.tail (keep_fields-member dropped rest name value m h))
    ]

-- Every field of a head whose name is not hop-by-hop, and which no `Connection` field of the head lists,
-- is in what `sanitize_hop_by_hop` returns, with its name in lower case and its value as it was.
pub sanitize-keeps :
    (headers : Fields) (name value : Text)
    → Memᴰ (name, value) headers
    → text_in (lower name) hop_by_hop ≡ false
    → (Named (lower name) headers → ⊥)
    → Memᴰ (lower name, value) (sanitize_hop_by_hop headers)
unfolding sanitize_hop_by_hop connection_named_fields text_in
sanitize-keeps headers name value m h k =
    keep_fields-member (named_loop [] headers) headers name value m
      (elim (Bool-cases (text_in (lower name) (named_loop [] headers))) [
        | inr e ↦ rw (h, e) refl
        | inl e ↦ elim (named_loop-from (lower name) [] headers e) [
          | inl l ↦ absurd (ground arith)
          | inr l ↦ absurd (k l)
        ]
      ])
