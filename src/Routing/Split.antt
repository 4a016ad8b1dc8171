-- ===== src/Routing/Split.antt =====
-- `split` and `join` at one character.
use mathlib.Core.List.{append_assoc}
use pcc_gateway.Prelude.{
  ℕ, ◌≡◌, refl, ◌∙◌, ap, false, List, [], ◌∷◌, ◌++◌, Text, char_in, split, join, cons_first, ◌==◌,
  All, Bool-cases, inl, inr, arith, ==_refl, ==_iff,
}

-- A text without the separator.
pub record Lacks (sep : ℕ) (t : Text) : Type 0 where
  pub lacks : char_in sep t ≡ false

split-lone : (sep : ℕ) (t : Text) → char_in sep t ≡ false → split sep t ≡ t ∷ []
unfolding char_in split cons_first
split-lone sep [] h = refl
split-lone sep (c ∷ cs) h = ground (arith, split-lone sep cs)

split-first :
    (sep : ℕ) (t rest : Text)
    → char_in sep t ≡ false
    → split sep (t ++ sep ∷ rest) ≡ t ∷ split sep rest
unfolding char_in split cons_first
split-first sep [] rest h = ground (arith, ==_refl sep)
split-first sep (c ∷ cs) rest h = ground (arith, split-first sep cs rest)

pub split-join :
    (sep : ℕ) (t : Text) (ts : List Text)
    → All (Lacks sep) (t ∷ ts)
    → split sep (join (sep ∷ []) (t ∷ ts)) ≡ t ∷ ts
unfolding join
split-join sep t [] h = split-lone sep t h.0.lacks
split-join sep t (u ∷ us) h =
    ap (split sep) (append_assoc t (sep ∷ []) (join (sep ∷ []) (u ∷ us)))
    ∙ split-first sep t (join (sep ∷ []) (u ∷ us)) h.0.lacks
    ∙ ap (λ rest. t ∷ rest) (split-join sep u us h.1)

cons_first-Lacks :
    (sep c : ℕ) (ts : List Text)
    → (c == sep) ≡ false
    → All (Lacks sep) ts
    → All (Lacks sep) (cons_first c ts)
unfolding cons_first char_in
cons_first-Lacks sep c [] e h = (record { lacks = ground arith }, tt)
cons_first-Lacks sep c (t ∷ ts) e h = (let k = h.0.lacks in record { lacks = ground arith }, h.1)

pub split-Lacks : (sep : ℕ) (t : Text) → All (Lacks sep) (split sep t)
unfolding split char_in
split-Lacks sep [] = (record { lacks = refl }, tt)
split-Lacks sep (c ∷ cs) = elim (Bool-cases (c == sep)) [
  | inl e ↦ rw (e, split) (record { lacks = refl }, split-Lacks sep cs)
  | inr e ↦ rw (e, split) (cons_first-Lacks sep c (split sep cs) e (split-Lacks sep cs))
]

join-cons_first :
    (sep c : ℕ) (ts : List Text) → join (sep ∷ []) (cons_first c ts) ≡ c ∷ join (sep ∷ []) ts
unfolding join cons_first
join-cons_first sep c [] = refl
join-cons_first sep c (t ∷ []) = refl
join-cons_first sep c (t ∷ u ∷ us) = refl

join-nil-cons_first :
    (sep c : ℕ) (ts : List Text)
    → join (sep ∷ []) ([] ∷ cons_first c ts) ≡ sep ∷ join (sep ∷ []) (cons_first c ts)
unfolding join cons_first
join-nil-cons_first sep c [] = refl
join-nil-cons_first sep c (t ∷ ts) = refl

join-nil_first :
    (sep : ℕ) (cs : Text)
    → join (sep ∷ []) ([] ∷ split sep cs) ≡ sep ∷ join (sep ∷ []) (split sep cs)
unfolding join split
join-nil_first sep [] = refl
join-nil_first sep (c ∷ cs) = elim (Bool-cases (c == sep)) [
  | inl e ↦ rw (e, split) refl
  | inr e ↦ rw (e, split) (join-nil-cons_first sep c (split sep cs))
]

pub join-split : (sep : ℕ) (t : Text) → join (sep ∷ []) (split sep t) ≡ t
unfolding split join
join-split sep [] = refl
join-split sep (c ∷ cs) = elim (Bool-cases (c == sep)) [
  | inl e ↦ rw (e, split) (join-nil_first sep cs ∙ ground (arith, join-split sep cs, ==_iff c sep))
  | inr e ↦
      rw (e, split)
        (join-cons_first sep c (split sep cs) ∙ ap (λ rest. c ∷ rest) (join-split sep cs))
]
