-- ===== src/Dns/Names.antt =====
-- Names of pcc_gateway/dns.py: `encode_name` and `decode_name`.
use mathlib.Core.List.{append_assoc, append-nil}
use pcc_gateway.Prelude.{
  ℕ, zero, suc, ◌+◌, ◌≤◌, ◌<◌, ◌≡◌, refl, sym, ◌∙◌, ap, subst, true, List, [], ◌∷◌, ◌++◌, none,
  Text, lower, lower_char, split, join, cons_first, slice, drop, length, length-append, take-append,
  drop-append, get_or, ◌==◌, strip_end, All, ok, arith, Bool-cases, Result-cases, inl, inr,
}
use pcc_gateway.Routing.Split.{join-split}
use pcc_gateway.Dns.Wire.{
  canonical_name, is_ascii, encode_label, encode_labels, encode_name, decode_loop, decode_fuel,
  decode_name,
}

get_or-append : (xs ys : Text) (y d : ℕ) → get_or (xs ++ y ∷ ys) (length xs) d ≡ y
get_or-append [] ys y d = refl
get_or-append (x ∷ xs) ys y d = get_or-append xs ys y d

slice-append : (xs ys zs : Text) → slice (length xs) (length ys) (xs ++ (ys ++ zs)) ≡ ys
slice-append xs ys zs = rw (drop-append xs (ys ++ zs)) (take-append ys zs)

-- A text in lower case, which `lower` leaves as it is.
pub record IsLower (t : Text) : Type 0 where
  pub same : lower t ≡ t

lower-IsLower : (t : Text) → IsLower (lower t)
unfolding lower
lower-IsLower [] = record { same = refl }
lower-IsLower (c ∷ cs) = record { same = ground (arith, (lower-IsLower cs).same) }

IsLower-tail : (c : ℕ) (cs : Text) → lower (c ∷ cs) ≡ c ∷ cs → (lower_char c ≡ c) × (lower cs ≡ cs)
unfolding lower
IsLower-tail c cs h = (ap (λ t. get_or t 0 0) h, ap (λ t. drop 1 t) h)

cons_first-IsLower :
    (c : ℕ) (ts : List Text) → lower_char c ≡ c → All IsLower ts → All IsLower (cons_first c ts)
unfolding cons_first lower
cons_first-IsLower c [] h k = (record { same = ground arith }, tt)
cons_first-IsLower c (t ∷ ts) h k = (let e = k.0.same in record { same = ground arith }, k.1)

split-IsLower : (sep : ℕ) (t : Text) → lower t ≡ t → All IsLower (split sep t)
unfolding split lower
split-IsLower sep [] h = (record { same = refl }, tt)
split-IsLower sep (c ∷ cs) h =
    let (first, rest) = IsLower-tail c cs h in
    elim (Bool-cases (c == sep)) [
      | inl e ↦ rw (e, split) (record { same = refl }, split-IsLower sep cs rest)
      | inr e ↦
          rw (e, split) (cons_first-IsLower c (split sep cs) first (split-IsLower sep cs rest))
    ]

-- What `encode_label` accepts, and what it writes.
record Encoded (label bytes : Text) : Type 0 where
  written : bytes ≡ length label ∷ label
  full : 0 < length label
  short : length label ≤ 63
  ascii : is_ascii label ≡ true

encode_label-Encoded : (label bytes : Text) → encode_label label ≡ ok bytes → Encoded label bytes
unfolding encode_label
encode_label-Encoded label bytes h = record {
  written = ground arith;
  full = ground arith;
  short = ground arith;
  ascii = ground arith;
}

slice_label :
    (pre label rest : Text)
    → slice (length pre + 1) (length label) (pre ++ length label ∷ (label ++ rest)) ≡ label
slice_label pre label rest =
    let n : Text = length label ∷ [] in
    let e : length (pre ++ n) ≡ length pre + 1 = length-append pre n in
    subst (λ k. slice k (length label) (pre ++ length label ∷ (label ++ rest)) ≡ label) e
      (rw (← append_assoc pre n (label ++ rest)) (slice-append (pre ++ n) label rest))

label_length :
    (pre label rest : Text)
    → length (pre ++ length label ∷ (label ++ rest)) ≡ length pre + 1 + length label + length rest
label_length pre label rest =
    omega (arith, length-append pre (length label ∷ (label ++ rest)), length-append label rest)

-- One label, with no pointer before it.
decode_label :
    (fuel : ℕ) (pre label rest : Text) (done : List Text)
    → 0 < length label
    → length label ≤ 63
    → is_ascii label ≡ true
    → lower label ≡ label
    → decode_loop (suc fuel) (pre ++ length label ∷ (label ++ rest)) (length pre) none [] done
      ≡ decode_loop fuel
          (pre ++ length label ∷ (label ++ rest))
          (length pre + 1 + length label)
          none
          []
          (done ++ label ∷ [])
unfolding decode_loop
decode_label fuel pre label rest done p q a l = ground (
  arith,
  get_or-append pre (label ++ rest) (length label) 0,
  slice_label pre label rest,
  label_length pre label rest,
)

decode_end :
    (fuel : ℕ) (pre rest : Text) (done : List Text)
    → decode_loop (suc fuel) (pre ++ 0 ∷ rest) (length pre) none [] done
      ≡ ok (join (46 ∷ []) done, length pre + 1)
unfolding decode_loop
decode_end fuel pre rest done =
    ground (arith, get_or-append pre rest 0 0, length-append pre (0 ∷ rest))

-- What is read and what is left, before and after a label.
moved :
    (pre label rest : Text)
    → pre ++ length label ∷ (label ++ rest) ≡ (pre ++ length label ∷ label) ++ rest
moved pre label rest = sym (append_assoc pre (length label ∷ label) rest)

-- The two calls that a longer list of labels makes.
encode_labels-cons :
    (label : Text) (labels : List Text) (enc : Text)
    → encode_labels (label ∷ labels) ≡ ok enc
    → (rest : Text) × (Encoded label (length label ∷ label))
      × (encode_labels labels ≡ ok rest)
      × (enc ≡ (length label ∷ label) ++ rest)
unfolding encode_labels
encode_labels-cons label labels enc h = elim (Result-cases (encode_label label)) [
  | inr (e, f) ↦ absurd (ground (arith, f))
  | inl (bytes, e) ↦ elim (Result-cases (encode_labels labels)) [
    | inr (g, f) ↦ absurd (ground (arith, e, f))
    | inl (rest, f) ↦
        let k = encode_label-Encoded label bytes e in
        let w = k.written in (rest, subst (Encoded label) w k, f, ground (arith, e, f, w))
  ]
]

decode_labels :
    (labels : List Text) (fuel : ℕ) (pre enc post : Text) (done : List Text)
    → length labels < fuel
    → All IsLower labels
    → encode_labels labels ≡ ok enc
    → decode_loop fuel (pre ++ (enc ++ 0 ∷ post)) (length pre) none [] done
      ≡ ok (join (46 ∷ []) (done ++ labels), length pre + length enc + 1)
unfolding encode_labels
decode_labels labels zero pre enc post done h l e = absurd (omega arith)
decode_labels [] (suc fuel) pre enc post done h l e =
    let none_left : [] ≡ enc = ground arith in
    subst
      (λ t.
        decode_loop (suc fuel) (pre ++ (t ++ 0 ∷ post)) (length pre) none [] done
        ≡ ok (join (46 ∷ []) (done ++ []), length pre + length t + 1))
      none_left
      (rw (append-nil done)
        (decode_end fuel pre post done ∙ ap (λ n. ok (join (46 ∷ []) done, n)) (omega arith)))
decode_labels (label ∷ labels) (suc fuel) pre enc post done h l e =
    let (rest, k, f, w) = encode_labels-cons label labels enc e in
    let size = length label in
    let all = rest ++ 0 ∷ post in
    let bytes : pre ++ (enc ++ 0 ∷ post) ≡ pre ++ size ∷ (label ++ all) =
      ap (λ t. pre ++ t)
        (ap (λ t. t ++ 0 ∷ post) w ∙ append_assoc (size ∷ label) rest (0 ∷ post)) in
    let place : length pre + 1 + size ≡ length (pre ++ size ∷ label) =
      omega (arith, length-append pre (size ∷ label)) in
    let stop : length (pre ++ size ∷ label) + length rest + 1 ≡ length pre + length enc + 1 =
      omega (arith, length-append pre (size ∷ label), length-append label rest, ap length w) in
    let ih =
      decode_labels labels fuel (pre ++ size ∷ label) rest post (done ++ label ∷ []) (omega arith)
        l.1 f in
    ap (λ t. decode_loop (suc fuel) t (length pre) none [] done) bytes
    ∙ decode_label fuel pre label all done k.full k.short k.ascii l.0.same
    ∙ ap (λ n. decode_loop fuel (pre ++ size ∷ (label ++ all)) n none [] (done ++ label ∷ [])) place
    ∙ ap (λ t. decode_loop fuel t (length (pre ++ size ∷ label)) none [] (done ++ label ∷ []))
        (moved pre label all)
    ∙ ih
    ∙ ap (λ n. ok (join (46 ∷ []) (done ++ label ∷ [] ++ labels), n)) stop
    ∙ ap (λ t. ok (join (46 ∷ []) t, length pre + length enc + 1))
        (append_assoc done (label ∷ []) labels)

-- Each label takes a byte at least.
encode_labels-length :
    (labels : List Text) (enc : Text) → encode_labels labels ≡ ok enc → length labels ≤ length enc
encode_labels-length [] enc e = omega arith
encode_labels-length (label ∷ labels) enc e =
    let (rest, k, f, w) = encode_labels-cons label labels enc e in
    omega (arith, encode_labels-length labels rest f, length-append label rest, ap length w)

encode_name-labels :
    (name bytes : Text)
    → encode_name name ≡ ok bytes
    → (enc : Text) × (encode_labels (split 46 (canonical_name name)) ≡ ok enc)
      × (bytes ≡ enc ++ 0 ∷ [])
unfolding encode_name
encode_name-labels name bytes h =
    elim (Result-cases (encode_labels (split 46 (canonical_name name)))) [
      | inl (enc, e) ↦ (enc, e, ground (arith, e))
      | inr (f, e) ↦ absurd (ground (arith, e))
    ]

-- What `encode_name` writes, `decode_name` reads back, anywhere in a message: the name in lower case
-- without its last dots, and the place behind it.
pub decode_name-encode_name :
    (name bytes pre post : Text)
    → encode_name name ≡ ok bytes
    → decode_name (pre ++ (bytes ++ post)) (length pre)
      ≡ ok (canonical_name name, length pre + length bytes)
unfolding decode_name canonical_name
decode_name-encode_name name bytes pre post h =
    let (enc, e, w) = encode_name-labels name bytes h in
    let canonical = canonical_name name in
    let labels = split 46 canonical in
    let same_bytes : pre ++ (bytes ++ post) ≡ pre ++ (enc ++ 0 ∷ post) =
      ap (λ t. pre ++ t) (ap (λ t. t ++ post) w ∙ append_assoc enc (0 ∷ []) post) in
    let all : length (pre ++ (enc ++ 0 ∷ post)) ≡ length pre + length enc + 1 + length post =
      omega (arith, length-append pre (enc ++ 0 ∷ post), length-append enc (0 ∷ post)) in
    let stop : length pre + length enc + 1 ≡ length pre + length bytes =
      omega (arith, length-append enc (0 ∷ []), ap length w) in
    ap (λ t. decode_name t (length pre)) same_bytes
    ∙ decode_labels labels (decode_fuel (pre ++ (enc ++ 0 ∷ post))) pre enc post []
        (omega (arith, encode_labels-length labels enc e))
        (split-IsLower 46 canonical (lower-IsLower (strip_end (λ c. c == 46) name)).same) e
    ∙ ap (λ n. ok (join (46 ∷ []) labels, n)) stop
    ∙ ap (λ t. ok (t, length pre + length bytes)) (join-split 46 canonical)
