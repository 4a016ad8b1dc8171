-- ===== src/Http1/Smuggling.antt =====
-- The framing of a body by the head fields that `_parse_head` of pcc_gateway/http1.py accepts.
use mathlib.Core.List.{append-nil}
use pcc_gateway.Prelude.{
  ℕ, ◌≡◌, ◌≢◌, refl, sym, Bool, true, false, List, [], ◌∷◌, ◌++◌, Option, none, some, if◌then◌else◌,
  inl, inr, text_eq, text_eq_iff, Text, codes, ℤ, pos, negsuc, ok, arith, Bool-cases, Result-cases,
  length, all_digits, decimal_from, is_empty,
}
use pcc_gateway.Http1.Head.{
  Headers, Names, values_of, add_value, RequestHead, header_line, headers_loop, parse_headers,
  content_length_of, chunked_of, comma_tokens, texts_eq, declared, parse_head,
}
use pcc_gateway.Http1.Framing.{parse_head_inv}

-- The values of a name among the header fields, in their order.
abbrev pub field_values : Text → Headers → List Text
field_values name [] = []
field_values name ((key, value) ∷ rest) =
    let others = field_values name rest in if text_eq key name then value ∷ others else others

-- A dictionary of names holds the values that the fields have.
abbrev listed : Option (List Text) → List Text
listed none = []
listed (some values) = values

abbrev NonEmpty : Option (List Text) → Type 0
NonEmpty none = Unit
NonEmpty (some []) = ⊥
NonEmpty (some (v ∷ vs)) = Unit

field_values-append :
    (name key value : Text) (headers : Headers)
    → field_values name (headers ++ (key, value) ∷ [])
      ≡ field_values name headers ++ (if text_eq key name then value ∷ [] else [])
field_values-append name key value [] = ground arith
field_values-append name key value ((k, v) ∷ rest) =
    ground (arith, field_values-append name key value rest)

listed-add_value :
    (name key value : Text) (names : Names)
    → listed (values_of name (add_value key value names))
      ≡ listed (values_of name names) ++ (if text_eq key name then value ∷ [] else [])
unfolding values_of add_value
listed-add_value name key value [] = ground arith
listed-add_value name key value ((k, vs) ∷ rest) = ground (
  arith,
  append-nil vs,
  append-nil (listed (values_of name rest)),
  text_eq_iff k key,
  text_eq_iff k name,
  text_eq_iff key name,
  listed-add_value name key value rest,
)

snoc-NonEmpty : (vs : List Text) (v : Text) → NonEmpty (some (vs ++ v ∷ []))
snoc-NonEmpty [] v = tt
snoc-NonEmpty (w ∷ vs) v = tt

add_value-NonEmpty :
    (name key value : Text) (names : Names)
    → NonEmpty (values_of name names)
    → NonEmpty (values_of name (add_value key value names))
unfolding values_of add_value
add_value-NonEmpty name key value [] h = elim (Bool-cases (text_eq key name)) [
  | inl e ↦ rw (e, NonEmpty) tt
  | inr e ↦ rw (e, NonEmpty) tt
]
add_value-NonEmpty name key value ((k, vs) ∷ rest) h =
    ground (arith, snoc-NonEmpty vs value, add_value-NonEmpty name key value rest)

-- The dictionary and the list of fields agree.
record Agree (headers : Headers) (names : Names) : Type 0 where
  values : (name : Text) → listed (values_of name names) ≡ field_values name headers
  present : (name : Text) → NonEmpty (values_of name names)

Agree-add :
    (key value : Text) (headers : Headers) (names : Names)
    → Agree headers names
    → Agree (headers ++ (key, value) ∷ []) (add_value key value names)
Agree-add key value headers names a = record {
  values = λ name. ground (
    arith,
    a.values name,
    listed-add_value name key value names,
    field_values-append name key value headers,
  );
  present = λ name. add_value-NonEmpty name key value names (a.present name);
}

headers_loop-Agree :
    (max : ℕ) (headers : Headers) (names : Names) (lines : List Text) (fields : Headers)
    (dict : Names)
    → Agree headers names
    → headers_loop max headers names lines ≡ ok (fields, dict)
    → Agree fields dict
unfolding headers_loop
headers_loop-Agree max headers names [] fields dict a h =
    let same : headers ≡ fields = ground arith in
    let same_names : names ≡ dict = ground arith in rw (← same, ← same_names) a
headers_loop-Agree max headers names ([] ∷ lines) fields dict a h =
    headers_loop-Agree max headers names lines fields dict a h
headers_loop-Agree max headers names ((c ∷ cs) ∷ lines) fields dict a h =
    elim (Result-cases (header_line max (length headers) (c ∷ cs))) [
      | inl ((name, value), e) ↦
          headers_loop-Agree max (headers ++ (name, value) ∷ []) (add_value name value names) lines
            fields dict (Agree-add name value headers names a) (ground arith)
      | inr (x, e) ↦ absurd (ground arith)
    ]

parse_headers-Agree :
    (lines : List Text) (max : ℕ) (fields : Headers) (dict : Names)
    → parse_headers lines max ≡ ok (fields, dict)
    → Agree fields dict
unfolding parse_headers values_of
parse_headers-Agree lines max fields dict h =
    headers_loop-Agree max [] [] lines fields dict
      (record { values = λ name. refl; present = λ name. tt }) h

-- The number that a decimal text stands for, if it is one that `int` reads.
abbrev pub Decimal : Text → ℕ → Type 0
Decimal raw n = (is_empty raw ≡ false) × (all_digits raw ≡ true) × (decimal_from 0 raw ≡ n)

-- What the fields of a head say about its body.
pub data Framing (headers : Headers) (chunked : Bool) (content_length : ℤ) : Type 0 where
  by_chunks :
      chunked ≡ true
      → content_length ≡ negsuc 0
      → field_values (codes "content-length") headers ≡ []
      → field_values (codes "transfer-encoding") headers ≢ []
      → comma_tokens (some (field_values (codes "transfer-encoding") headers))
        ≡ codes "chunked" ∷ []
      → Framing headers chunked content_length
  by_length :
      (raw : Text) (n : ℕ)
      → chunked ≡ false
      → content_length ≡ pos n
      → field_values (codes "content-length") headers ≡ raw ∷ []
      → Decimal raw n
      → field_values (codes "transfer-encoding") headers ≡ []
      → Framing headers chunked content_length
  no_body :
      chunked ≡ false
      → content_length ≡ pos 0
      → field_values (codes "content-length") headers ≡ []
      → field_values (codes "transfer-encoding") headers ≡ []
      → Framing headers chunked content_length

pub texts_eq→≡ : (ts us : List Text) → texts_eq ts us ≡ true → ts ≡ us
unfolding texts_eq
texts_eq→≡ [] [] h = refl
texts_eq→≡ [] (u ∷ us) h = cc
texts_eq→≡ (t ∷ ts) [] h = cc
texts_eq→≡ (t ∷ ts) (u ∷ us) h = ground (arith, text_eq_iff t u, texts_eq→≡ ts us)

Framing-of :
    (max : ℕ) (headers : Headers) (lengths codings : Option (List Text)) (length : Option ℕ)
    (chunked : Bool)
    → listed lengths ≡ field_values (codes "content-length") headers
    → listed codings ≡ field_values (codes "transfer-encoding") headers
    → NonEmpty codings
    → content_length_of max lengths ≡ ok length
    → chunked_of length codings ≡ ok chunked
    → Framing headers chunked (declared length chunked)
unfolding content_length_of chunked_of declared
Framing-of max headers none none none false l c p read coded = no_body refl refl (sym l) (sym c)
Framing-of max headers none none none true l c p read coded = absurd (cc)
Framing-of max headers none none (some n) chunked l c p read coded = absurd (cc)
Framing-of max headers none (some []) length chunked l c p read coded = absurd p
Framing-of max headers none (some (v ∷ vs)) none true l c p read coded =
    by_chunks refl refl (sym l) (λ e. cc) (rw (← c) (texts_eq→≡ _ _ (ground arith)))
Framing-of max headers none (some (v ∷ vs)) none false l c p read coded = absurd (ground arith)
Framing-of max headers none (some (v ∷ vs)) (some n) chunked l c p read coded = absurd (cc)
Framing-of max headers (some []) codings length chunked l c p read coded = absurd (cc)
Framing-of max headers (some (raw ∷ [])) codings none chunked l c p read coded =
    absurd (ground arith)
Framing-of max headers (some (raw ∷ [])) none (some n) false l c p read coded =
    by_length raw n refl refl (sym l) (ground arith) (sym c)
Framing-of max headers (some (raw ∷ [])) none (some n) true l c p read coded = absurd (cc)
Framing-of max headers (some (raw ∷ [])) (some vs) (some n) chunked l c p read coded = absurd (cc)
Framing-of max headers (some (raw ∷ other ∷ raws)) codings length chunked l c p read coded =
    absurd (cc)

-- A head that `parse_head` accepts frames its body in one way: by chunks, when its fields name the
-- chunked coding alone and no length; by one length, which is a decimal number, when they name no
-- coding; or not at all, when they name neither.
pub parse_head-Framing :
    (max_line max_count max : ℕ) (block : Text) (r : RequestHead)
    → parse_head max_line max_count max block ≡ ok r
    → Framing r.headers r.chunked r.content_length
parse_head-Framing max_line max_count max block r h =
    let (_, rest, _, headers, names, _, _, parsed, framed) =
      parse_head_inv max_line max_count max block r h in
    let agree = parse_headers-Agree rest max_count headers names parsed in
    rw (framed.fields, framed.content_length)
      (Framing-of max headers _ _ framed.length r.chunked (agree.values (codes "content-length"))
        (agree.values (codes "transfer-encoding")) (agree.present (codes "transfer-encoding"))
        framed.length_read framed.coding_read)
