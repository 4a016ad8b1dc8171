-- ===== src/Routing/Path.antt =====
-- `split_target`, `normalize_path` and `_normalize_host` of pcc_gateway/routing.py.
use pcc_gateway.Prelude.{
  ℕ, suc, ◌-◌, Bool, true, false, not, ◌&&◌, ◌||◌, List, [], ◌∷◌, ◌++◌, Option, none, some, Text,
  text_eq, char_in, lower, strip, is_space, find, split, join, ◌==◌, if◌then◌else◌, is_empty, take,
  drop, slice, Result, ok, err,
}

-- The exceptions of pcc_gateway/routing.py; a `ValueError` for each message.
pub data RouteError : Type 0 where
  bad_start has_query bad_name bad_name_character tail_not_last dot_segment partial_braces :
      RouteError
  not_origin_form escapes_root unsafe_path : RouteError
  unknown_parameter duplicate_binding unsupported_scalar : RouteError
  frozen_table route_conflict route_not_found binding_error key_error int_too_long : RouteError
  method_not_allowed : List Text → RouteError

-- `split_target`
unfoldable pub split_target : Text → Text × Text
split_target target = elim (find 63 target) [
  | none ↦ (target, [])
  | some question ↦ (take question target, drop (suc question) target)
]

abbrev pub dot : Text
dot = 46 ∷ []

abbrev pub dot_dot : Text
dot_dot = 46 ∷ 46 ∷ []

-- The first character of a text is this one.
abbrev pub starts : ℕ → Text → Bool
starts c [] = false
starts c (d ∷ ds) = d == c

-- The last one.
unfoldable pub ends : ℕ → Text → Bool
ends c [] = false
ends c (d ∷ []) = d == c
ends c (d ∷ e ∷ es) = ends c (e ∷ es)

unfoldable pub drop_last : List Text → List Text
drop_last [] = []
drop_last (t ∷ []) = []
drop_last (t ∷ u ∷ us) = t ∷ drop_last (u ∷ us)

-- The loop of `normalize_path` over the segments, with the segments put out so far.
unfoldable pub normalize_loop : List Text → List Text → Result RouteError (List Text)
unfolding drop_last
normalize_loop output [] = ok output
normalize_loop output (segment ∷ segments) = elim (text_eq segment [] || text_eq segment dot) [
  | true ↦ normalize_loop output segments
  | false ↦ elim (text_eq segment dot_dot) [
    | true ↦ elim output [
      | [] ↦ err escapes_root
      | first ∷ rest ↦ normalize_loop (drop_last (first ∷ rest)) segments
    ]
    | false ↦
        if char_in 0 segment || char_in 92 segment
        then err unsafe_path
        else normalize_loop (output ++ segment ∷ []) segments
  ]
]

-- `path.split("/")[1:]`
unfoldable pub segments_of : Text → List Text
segments_of path = drop 1 (split 47 path)

-- A slash and the segments with slashes between them.
unfoldable pub path_of : List Text → Text
path_of segments = 47 ∷ join (47 ∷ []) segments

-- `normalize_path`
unfoldable pub normalize_path : Text → Result RouteError Text
unfolding normalize_loop segments_of path_of
normalize_path path =
    if starts 47 path
    then elim (normalize_loop [] (segments_of path)) [
      | err e ↦ err e
      | ok output ↦ ok (path_of output)
    ]
    else err not_origin_form

-- `rfind` of one character.
unfoldable pub rfind : ℕ → Text → Option ℕ
rfind c [] = none
rfind c (x ∷ xs) = elim (rfind c xs) [
  | none ↦ if x == c then some 0 else none
  | some i ↦ some (suc i)
]

-- An address in brackets, with or without a port.
unfoldable pub bracketed_host : Text → Text
bracketed_host value = elim (find 93 value) [
  | none ↦ value
  | some closing ↦
      let suffix = drop (suc closing) value in
      if not (is_empty suffix) && not (starts 58 suffix) then value else slice 1 (closing - 1) value
]

unfoldable pub same_place : Option ℕ → Option ℕ → Bool
same_place (some i) (some j) = i == j
same_place _ _ = false

unfoldable pub plain_host : Text → Text
unfolding rfind same_place
plain_host value = elim (find 58 value) [
  | none ↦ value
  | some colon ↦ if same_place (some colon) (rfind 58 value) then take colon value else value
]

-- `_normalize_host`
unfoldable pub normalize_host : Text → Text
unfolding bracketed_host plain_host
normalize_host host =
    let value = lower (strip is_space host) in
    if starts 91 value then bracketed_host value else plain_host value
