-- ===== src/Routing/Pattern.antt =====
-- `_compile_path`, `Route` and `RouteMatch` of pcc_gateway/routing.py. A handler is a handle, which the
-- table does not look into.
use pcc_gateway.Prelude.{
  ℕ, ◌-◌, Bool, true, false, not, ◌&&◌, ◌||◌, List, [], ◌∷◌, ◌++◌, Option, none, some, Text, codes,
  text_eq, text_in, char_in, lower, upper, join, decimal_from, all_digits, int_max_str_digits, ltb,
  ◌==◌, between, if◌then◌else◌, is_empty, length, take, slice, ℤ, pos, neg, Result, ok, err, ◌>>=◌,
  ◌>>◌,
}
use pcc_gateway.Routing.Path.{
  RouteError, bad_start, has_query, bad_name, bad_name_character, tail_not_last, dot_segment,
  partial_braces, unknown_parameter, duplicate_binding, unsupported_scalar, binding_error,
  key_error, int_too_long, dot, dot_dot, starts, ends, segments_of, normalize_host,
}

-- The kinds 0, 1 and 2 of a compiled segment.
pub data Segment : Type 0 where
  exact parameter tail : Text → Segment

unfoldable pub kind : Segment → ℕ
kind (exact t) = 0
kind (parameter t) = 1
kind (tail t) = 2

-- `str.isalnum` of one Latin-1 character.
unfoldable pub is_alnum : ℕ → Bool
is_alnum c =
    between 48 57 c
    || between 65 90 c
    || between 97 122 c
    || c == 170
    || between 178 179 c
    || c == 181
    || between 185 186 c
    || between 188 190 c
    || between 192 214 c
    || between 216 246 c
    || between 248 255 c

unfoldable pub all_name_characters : Text → Bool
unfolding is_alnum
all_name_characters [] = true
all_name_characters (c ∷ cs) = (c == 95 || is_alnum c) && all_name_characters cs

-- The text between the braces of a segment, the star of a tail included.
abbrev pub inner : Text → Text
inner segment = slice 1 (length segment - 2) segment

abbrev pub without_last : Text → Text
without_last t = take (length t - 1) t

unfoldable pub parameter_name : List Text → Text → Result RouteError Text
unfolding all_name_characters
parameter_name names name =
    if is_empty name || text_in name names
    then err bad_name
    else if not (all_name_characters name)
    then err bad_name_character
    else ok name

unfoldable pub literal : Text → Result RouteError Segment
literal segment =
    if is_empty segment || text_eq segment dot || text_eq segment dot_dot
    then err dot_segment
    else if char_in 123 segment || char_in 125 segment
    then err partial_braces
    else ok (exact segment)

-- One segment in braces; the flag says that it is the last one.
unfoldable pub braced : Bool → List Text → Text → Result RouteError Segment
unfolding parameter_name
braced last names name =
    let captured =
      elim (parameter_name names (without_last name)) as (λ _. Result RouteError Segment) [
        | err e ↦ err e
        | ok n ↦ if last then ok (tail n) else err tail_not_last
      ] in
    let single = elim (parameter_name names name) as (λ _. Result RouteError Segment) [
      | err e ↦ err e
      | ok n ↦ ok (parameter n)
    ] in
    if ends 42 name then captured else single

unfoldable pub compile_segment : Bool → List Text → Text → Result RouteError Segment
unfolding braced literal
compile_segment last names segment =
    if starts 123 segment && ends 125 segment
    then braced last names (inner segment)
    else literal segment

unfoldable pub name_of : Segment → List Text
name_of (exact t) = []
name_of (parameter name) = name ∷ []
name_of (tail name) = name ∷ []

-- The loop over the raw segments; `names` are the parameters so far.
unfoldable pub compile_loop : List Text → List Text → Result RouteError (List Segment)
unfolding compile_segment name_of
compile_loop names [] = ok []
compile_loop names (raw ∷ raws) = elim (compile_segment (is_empty raws) names raw) [
  | err e ↦ err e
  | ok segment ↦ elim (compile_loop (names ++ name_of segment) raws) [
    | err e ↦ err e
    | ok segments ↦ ok (segment ∷ segments)
  ]
]

unfoldable pub names_of : List Segment → List Text
unfolding name_of
names_of [] = []
names_of (segment ∷ segments) = name_of segment ++ names_of segments

-- `raw == [""]` stands for no segment.
unfoldable pub drop_single_empty : List Text → List Text
drop_single_empty ([] ∷ []) = []
drop_single_empty raw = raw

-- `_compile_path`; the parameter names and the tail are those of the segments.
unfoldable pub compile_path : Text → Result RouteError (List Segment)
unfolding compile_loop drop_single_empty
compile_path pattern =
    if not (starts 47 pattern)
    then err bad_start
    else if char_in 63 pattern || char_in 35 pattern
    then err has_query
    else compile_loop [] (drop_single_empty (segments_of pattern))

pub record Route : Type 0 where
  pub method : Text
  pub path : Text
  pub handler : ℕ
  pub name : Text
  pub host : Text
  pub kind : Text
  pub target : Text
  pub segments : List Segment
  pub bindings : List (Text × Text)

-- The checks of the bindings; `bound` are the parameters so far. A binding is a pair here, so the
-- check of its length has no counterpart.
unfoldable pub check_bindings :
    List Text → List Text → List (Text × Text) → Result RouteError (Unit {0})
check_bindings names bound [] = ok tt
check_bindings names bound ((name, scalar) ∷ rest) =
    if not (text_in name names)
    then err unknown_parameter
    else if text_in name bound
    then err duplicate_binding
    else if not (text_in scalar (codes "str" ∷ codes "int" ∷ codes "bool" ∷ []))
    then err unsupported_scalar
    else check_bindings names (bound ++ name ∷ []) rest

-- `Route(method, path, handler, name, host, kind, target, bindings)`
unfoldable pub new_route :
    Text → Text → ℕ → Text → Text → Text → Text → List (Text × Text) → Result RouteError Route
unfolding check_bindings names_of
new_route method path handler name host kind target bindings = do
  segments ← compile_path path
  check_bindings (names_of segments) [] bindings
  ok (record {
    method = upper method;
    path = path;
    handler = handler;
    name = name;
    host = normalize_host host;
    kind = kind;
    target = target;
    segments = segments;
    bindings = bindings;
  })

unfoldable pub shape : Segment → Text
shape (exact t) = t
shape (parameter name) = codes "{}"
shape (tail name) = codes "{*}"

unfoldable pub shapes : List Segment → List Text
unfolding shape
shapes [] = []
shapes (segment ∷ segments) = shape segment ∷ shapes segments

-- `Route.signature`
unfoldable pub signature : Route → Text
unfolding shapes
signature r = r.host ++ codes "|" ++ r.method ++ codes "|/" ++ join (codes "/") (shapes r.segments)

-- The dictionary of a match.
abbrev pub Params : Type 0
Params = List (Text × Text)

unfoldable pub param : Text → Params → Option Text
param name [] = none
param name ((key, value) ∷ rest) = if text_eq key name then some value else param name rest

pub data Scalar : Type 0 where
  str : Text → Scalar
  int : ℤ → Scalar
  bool : Bool → Scalar

unfoldable pub digits_value : Text → Result RouteError ℕ
digits_value t =
    if not (all_digits t)
    then err binding_error
    else if ltb int_max_str_digits (length t)
    then err int_too_long
    else ok (decimal_from 0 t)

unfoldable pub bind_int : Text → Result RouteError Scalar
unfolding digits_value
bind_int [] = err binding_error
bind_int (c ∷ cs) =
    let negative = elim (digits_value cs) as (λ _. Result RouteError Scalar) [
      | err e ↦ err e
      | ok n ↦ ok (int (neg (pos n)))
    ] in
    let positive = elim (digits_value (c ∷ cs)) as (λ _. Result RouteError Scalar) [
      | err e ↦ err e
      | ok n ↦ ok (int (pos n))
    ] in
    if c == 45 then (if is_empty cs then err binding_error else negative) else positive

unfoldable pub bind_bool : Text → Result RouteError Scalar
bind_bool raw =
    if text_in (lower raw) (codes "1" ∷ codes "true" ∷ codes "yes" ∷ [])
    then ok (bool true)
    else if text_in (lower raw) (codes "0" ∷ codes "false" ∷ codes "no" ∷ [])
    then ok (bool false)
    else err binding_error

-- One binding; a scalar kind that is none of the three adds no value.
unfoldable pub bind_value : Text → Text → Result RouteError (List Scalar)
unfolding bind_int bind_bool
bind_value scalar raw =
    let one : Result RouteError Scalar → Result RouteError (List Scalar) =
      λ r. elim r [ err e ↦ err e | ok v ↦ ok (v ∷ []) ] in
    if text_eq scalar (codes "str")
    then ok (str raw ∷ [])
    else if text_eq scalar (codes "int")
    then one (bind_int raw)
    else if text_eq scalar (codes "bool")
    then one (bind_bool raw)
    else ok []

-- `RouteMatch.bound_values`
unfoldable pub bound_values : List (Text × Text) → Params → Result RouteError (List Scalar)
unfolding bind_value
bound_values [] params = ok []
bound_values ((name, scalar) ∷ rest) params = elim (param name params) [
  | none ↦ err key_error
  | some raw ↦ elim (bind_value scalar raw) [
    | err e ↦ err e
    | ok values ↦ elim (bound_values rest params) [
      | err e ↦ err e
      | ok others ↦ ok (values ++ others)
    ]
  ]
]
