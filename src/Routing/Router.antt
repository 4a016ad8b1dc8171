-- ===== src/Routing/Router.antt =====
-- `_match_segments` and `Router` of pcc_gateway/routing.py.
use pcc_gateway.Prelude.{
  ℕ, ◌+◌, Bool, true, false, ◌&&◌, ◌||◌, List, [], ◌∷◌, ◌++◌, Option, none, some, Text, codes,
  text_eq, text_in, upper, join, ltb, ◌==◌, if◌then◌else◌, is_empty, length, Result, ok, err,
}
use pcc_gateway.Routing.Path.{
  RouteError, frozen_table, route_conflict, route_not_found, method_not_allowed, split_target,
  segments_of, normalize_path, normalize_host,
}
use pcc_gateway.Routing.Pattern.{
  Segment, exact, parameter, tail, kind, Route, signature, Params, drop_single_empty,
}

-- The loop of `_match_segments` over the compiled segments and the values that are left.
unfoldable pub match_loop : List Segment → List Text → Option Params
match_loop [] [] = some []
match_loop [] (value ∷ values) = none
match_loop (tail name ∷ segments) values = some ((name, join (codes "/") values) ∷ [])
match_loop (exact t ∷ segments) [] = none
match_loop (exact t ∷ segments) (value ∷ values) =
    let rest = match_loop segments values in if text_eq value t then rest else none
match_loop (parameter name ∷ segments) [] = none
match_loop (parameter name ∷ segments) (value ∷ values) = elim (match_loop segments values) [
  | none ↦ none
  | some params ↦ some ((name, value) ∷ params)
]

-- `_match_segments`: `none` if the path does not match.
unfoldable pub match_segments : List Segment → Text → Result RouteError (Option Params)
unfolding match_loop
match_segments segments path = elim (normalize_path path) [
  | err e ↦ err e
  | ok normalized ↦ ok (match_loop segments (drop_single_empty (segments_of normalized)))
]

pub record Router : Type 0 where
  pub routes : List Route
  pub frozen : Bool

unfoldable pub has_signature : Text → List Route → Bool
has_signature wanted [] = false
has_signature wanted (route ∷ routes) =
    text_eq (signature route) wanted || has_signature wanted routes

-- `Router.add`
unfoldable pub add : Route → Router → Result RouteError Router
unfolding has_signature
add route r =
    if r.frozen
    then err frozen_table
    else if has_signature (signature route) r.routes
    then err route_conflict
    else ok (record r { routes = r.routes ++ route ∷ [] })

unfoldable pub weight : List Segment → ℕ
weight [] = 0
weight (segment ∷ segments) = kind segment + weight segments

-- The sort key of the first route is less than that of the second.
unfoldable pub before : Route → Route → Bool
unfolding weight kind
before a b =
    ltb (weight a.segments) (weight b.segments)
    || weight a.segments == weight b.segments && ltb (length b.segments) (length a.segments)

unfoldable pub insert : Route → List Route → List Route
insert route [] = route ∷ []
insert route (other ∷ others) =
    let rest = insert route others in
    if before other route then other ∷ rest else route ∷ other ∷ others

-- `list.sort` by the key: a stable sort, and so any stable sort.
unfoldable pub sort : List Route → List Route
unfolding insert
sort [] = []
sort (route ∷ routes) = insert route (sort routes)

-- `Router.freeze`
unfoldable pub freeze : Router → Router
unfolding sort
freeze r = record { routes = sort r.routes; frozen = true }

unfoldable pub add_all : List Route → Router → Result RouteError Router
unfolding add
add_all [] r = ok r
add_all (route ∷ routes) r = elim (add route r) [ err e ↦ err e | ok r' ↦ add_all routes r' ]

-- `Router(routes)`
unfoldable pub new_router : List Route → Result RouteError Router
unfolding add_all freeze
new_router routes = elim (add_all routes (record { routes = []; frozen = false })) [
  | err e ↦ err e
  | ok r ↦ ok (freeze r)
]

pub record RouteMatch : Type 0 where
  pub route : Route
  pub params : Params

-- The loop of `Router.match` ended without a match: `allowed` are the methods that the path has.
unfoldable pub no_match : List Text → Result RouteError RouteMatch
no_match [] = err route_not_found
no_match (method ∷ methods) = err (method_not_allowed (method ∷ methods))

unfoldable pub host_fits : Text → Text → Bool
host_fits host wanted = is_empty host || text_eq host wanted

unfoldable pub method_fits : Text → Text → Bool
method_fits method wanted = text_eq method wanted || text_eq method (codes "*")

unfoldable pub match_routes :
    List Text → Text → Text → Text → List Route → Result RouteError RouteMatch
unfolding no_match host_fits method_fits match_segments
match_routes allowed method host path [] = no_match allowed
match_routes allowed method host path (route ∷ routes) =
    let skipped = match_routes allowed method host path routes in
    let other = if text_in route.method allowed then allowed else allowed ++ route.method ∷ [] in
    let refused = match_routes other method host path routes in
    if host_fits route.host host
    then elim (match_segments route.segments path) [
      | err e ↦ err e
      | ok none ↦ skipped
      | ok (some params) ↦
          if method_fits route.method method
          then ok (record { route = route; params = params })
          else refused
    ]
    else skipped

-- `Router.match`
unfoldable pub match : Text → Text → Text → Router → Result RouteError RouteMatch
unfolding match_routes
match method target host r =
    match_routes [] (upper method) (normalize_host host) (split_target target).0 r.routes
