-- ===== src/Routing/Normal.antt =====
-- The paths that `normalize_path` of pcc_gateway/routing.py accepts.
use mathlib.Core.List.{append_assoc, append-nil}
use pcc_gateway.Prelude.{
  ℕ, zero, suc, ◌≡◌, refl, ◌∙◌, ap, sym, false, ◌||◌, List, [], ◌∷◌, ◌++◌, Text, char_in, text_eq,
  split, join, All, All-append, Bool-cases, Result-cases, inl, inr, arith, ok, err, drop,
}
use pcc_gateway.Routing.Path.{
  escapes_root, dot, dot_dot, starts, drop_last, normalize_loop, segments_of, path_of,
  normalize_path,
}
use pcc_gateway.Routing.Split.{Lacks, split-join, split-Lacks}

-- A segment that `normalize_path` puts out.
pub record Clean (segment : Text) : Type 0 where
  pub full : text_eq segment [] ≡ false
  pub no_dot : text_eq segment dot ≡ false
  pub no_dot_dot : text_eq segment dot_dot ≡ false
  pub no_slash : char_in 47 segment ≡ false
  pub no_nul : char_in 0 segment ≡ false
  pub no_backslash : char_in 92 segment ≡ false

drop_last-Clean : (ts : List Text) → All Clean ts → All Clean (drop_last ts)
unfolding drop_last
drop_last-Clean [] h = h
drop_last-Clean (t ∷ []) h = tt
drop_last-Clean (t ∷ u ∷ us) h = (h.0, drop_last-Clean (u ∷ us) h.1)

-- What `..` does.
go_up-Clean :
    (output segments out : List Text)
    → All Clean output
    → ((kept : List Text) → All Clean kept → normalize_loop kept segments ≡ ok out → All Clean out)
    → elim output [
      | [] ↦ err escapes_root
      | first ∷ rest ↦ normalize_loop (drop_last (first ∷ rest)) segments
    ]
      ≡ ok out
    → All Clean out
go_up-Clean [] segments out h k e = absurd (cc)
go_up-Clean (first ∷ rest) segments out h k e =
    k (drop_last (first ∷ rest)) (drop_last-Clean (first ∷ rest) h) e

normalize_loop-Clean :
    (output segments out : List Text)
    → All Clean output
    → All (Lacks 47) segments
    → normalize_loop output segments ≡ ok out
    → All Clean out
unfolding normalize_loop
normalize_loop-Clean output [] out h k e = let s : output ≡ out = ground arith in rw (← s) h
normalize_loop-Clean output (segment ∷ segments) out h k e =
    elim (Bool-cases (text_eq segment [] || text_eq segment dot)) [
      | inl f ↦ normalize_loop-Clean output segments out h k.1 (ground arith)
      | inr f ↦ elim (Bool-cases (text_eq segment dot_dot)) [
        | inl g ↦
            go_up-Clean output segments out h
              (λ kept c. normalize_loop-Clean kept segments out c k.1) (ground arith)
        | inr g ↦ elim (Bool-cases (char_in 0 segment || char_in 92 segment)) [
          | inl u ↦ absurd (ground arith)
          | inr u ↦
              let l = k.0.lacks in
              normalize_loop-Clean (output ++ segment ∷ []) segments out
                (All-append Clean output (segment ∷ []) h (
                  record {
                    full = ground arith;
                    no_dot = ground arith;
                    no_dot_dot = g;
                    no_slash = l;
                    no_nul = ground arith;
                    no_backslash = ground arith;
                  },
                  tt,
                ))
                k.1 (ground arith)
        ]
      ]
    ]

normalize_loop-normal :
    (output segments : List Text)
    → All Clean segments
    → normalize_loop output segments ≡ ok (output ++ segments)
unfolding normalize_loop
normalize_loop-normal output [] h = ground (arith, append-nil output)
normalize_loop-normal output (segment ∷ segments) h =
    let c = h.0 in
    rw (c.full, c.no_dot, c.no_dot_dot, c.no_nul, c.no_backslash, normalize_loop)
      (rw (normalize_loop-normal (output ++ segment ∷ []) segments h.1, append_assoc output) refl)

Clean-Lacks : (ts : List Text) → All Clean ts → All (Lacks 47) ts
Clean-Lacks [] h = tt
Clean-Lacks (t ∷ ts) h = (record { lacks = h.0.no_slash }, Clean-Lacks ts h.1)

pub drop-Lacks : (n : ℕ) (ts : List Text) → All (Lacks 47) ts → All (Lacks 47) (drop n ts)
drop-Lacks zero ts h = h
drop-Lacks (suc n) [] h = h
drop-Lacks (suc n) (t ∷ ts) h = drop-Lacks n ts h.1

reread : (out : List Text) → All Clean out → normalize_loop [] (segments_of (path_of out)) ≡ ok out
unfolding segments_of path_of normalize_loop split join text_eq
reread [] h = refl
reread (t ∷ ts) h =
    ap (λ segments. normalize_loop [] segments) (split-join 47 t ts (Clean-Lacks (t ∷ ts) h))
    ∙ normalize_loop-normal [] (t ∷ ts) h

-- A path that `normalize_path` returns has no empty, dot or dot-dot segment, no slash or backslash or NUL
-- in a segment, and comes back from `normalize_path` unchanged.
pub normalize_path_idem :
    (path normal : Text)
    → normalize_path path ≡ ok normal
    → ((out : List Text) × All Clean out × (normal ≡ path_of out))
      × (normalize_path normal ≡ ok normal)
unfolding normalize_path path_of segments_of
normalize_path_idem path normal h = elim (Bool-cases (starts 47 path)) [
  | inr e ↦ absurd (ground arith)
  | inl e ↦ elim (Result-cases (normalize_loop [] (segments_of path))) [
    | inr (x, f) ↦ absurd (ground arith)
    | inl (out, f) ↦
        let clean =
          normalize_loop-Clean [] (segments_of path) out tt (drop-Lacks 1 _ (split-Lacks 47 path))
            f in
        let same : path_of out ≡ normal = ground arith in
        ((out, clean, sym same), rw (← same, reread out clean, normalize_path) refl)
  ]
]
