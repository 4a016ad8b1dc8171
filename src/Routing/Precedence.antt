-- ===== src/Routing/Precedence.antt =====
-- `Router.match` of pcc_gateway/routing.py against the table that it stands for.
use mathlib.Core.List.{Memᴰ}
use pcc_gateway.Prelude.{
  ◌≡◌, ◌≢◌, refl, subst, sym, Bool, true, false, ◌&&◌, List, [], ◌∷◌, ◌++◌, none, some, Text,
  text_in, upper, if◌then◌else◌, All, Bool-cases, inl, inr, arith, ok, err, Result-cases,
}
use pcc_gateway.Routing.Path.{split_target, normalize_host}
use pcc_gateway.Routing.Pattern.{Route, Segment, exact, parameter, tail, kind}
use pcc_gateway.Routing.Router.{
  Router, RouteMatch, weight, before, sort, new_router, match_segments, host_fits, method_fits,
  no_match, match_routes, match,
}
use pcc_gateway.Routing.Sorting.{Sorted, All-sort, sort-Sorted, sort-All, new_router-routes}

-- The route's host and path fit the request.
abbrev pub on_path : Text → Text → Route → Bool
on_path host path route = host_fits route.host host && elim (match_segments route.segments path) [
  | err e ↦ false
  | ok none ↦ false
  | ok (some params) ↦ true
]

-- So does its method.
abbrev pub fits : Text → Text → Text → Route → Bool
fits method host path route = on_path host path route && method_fits route.method method

-- A match is of the first route of the table that fits: each route before it does not, each after it
-- stands in the table's order.
pub record Matched (method host path : Text) (m : RouteMatch) (routes : List Route) : Type 0 where
  pub params : match_segments m.route.segments path ≡ ok (some m.params)
  pub fitting : fits method host path m.route ≡ true
  pub member : Memᴰ m.route routes
  pub first :
      Sorted routes
      → All (λ other. fits method host path other ≡ true → before other m.route ≡ false) routes

-- A route that does not fit says nothing about the order.
skip :
    (method host path : Text) (route : Route) (routes : List Route) (m : RouteMatch)
    → fits method host path route ≡ false
    → Matched method host path m routes
    → Matched method host path m (route ∷ routes)
skip method host path route routes m e k = record {
  params = k.params;
  fitting = k.fitting;
  member = Memᴰ.tail k.member;
  first = λ sorted. (λ f. absurd (cc), k.first sorted.1);
}

-- The order of the table bounds the routes after a match.
behind :
    (method host path : Text) (route : Route) (routes : List Route)
    → All (λ later. before later route ≡ false) routes
    → All (λ other. fits method host path other ≡ true → before other route ≡ false) routes
behind method host path route [] h = tt
behind method host path route (other ∷ others) h =
    (λ f. h.0, behind method host path route others h.1)

no_match-fails : (allowed : List Text) (m : RouteMatch) → no_match allowed ≢ ok m
unfolding no_match
no_match-fails [] m h = cc
no_match-fails (a ∷ others) m h = cc

irreflexive : (route : Route) → before route route ≡ false
unfolding before
irreflexive route = ground arith

match_routes-Matched :
    (allowed : List Text) (method host path : Text) (routes : List Route) (m : RouteMatch)
    → match_routes allowed method host path routes ≡ ok m
    → Matched method host path m routes
unfolding match_routes
match_routes-Matched allowed method host path [] m h = absurd (no_match-fails allowed m h)
match_routes-Matched allowed method host path (route ∷ routes) m h =
    elim (Bool-cases (host_fits route.host host)) [
      | inr e ↦
          skip method host path route routes m (rw (e) refl)
            (match_routes-Matched allowed method host path routes m (ground arith))
      | inl e ↦ elim (Result-cases (match_segments route.segments path)) [
        | inr (x, f) ↦ absurd (ground arith)
        | inl (none, f) ↦
            skip method host path route routes m (rw (e, f) refl)
              (match_routes-Matched allowed method host path routes m (ground arith))
        | inl (some params, f) ↦ elim (Bool-cases (method_fits route.method method)) [
          | inl g ↦
              let same : record { route = route; params = params } ≡ m = ground arith in
              rw (← same) (record {
                params = f;
                fitting = rw (e, f, g) refl;
                member = Memᴰ.head refl;
                first = λ sorted.
                    (λ k. irreflexive route, behind method host path route routes sorted.0);
              })
          | inr g ↦ skip method host path route routes m (rw (e, f, g) refl) (
              match_routes-Matched
                (if text_in route.method allowed then allowed else allowed ++ route.method ∷ [])
                method host path routes m (ground arith))
        ]
      ]
    ]

All-member :
    (routes others : List Route)
    → (pick : (r : Route) → Memᴰ r others → Memᴰ r routes) → All (λ r. Memᴰ r routes) others
All-member routes [] pick = tt
All-member routes (r ∷ rs) pick =
    (pick r (Memᴰ.head refl), All-member routes rs (λ other k. pick other (Memᴰ.tail k)))

member_all :
    (P : Route → Type 0) (route : Route) (routes : List Route)
    → Memᴰ route routes
    → All P routes
    → P route
member_all P route [] k h = elim k [ ]
member_all P route (r ∷ rs) (Memᴰ.head e) h = subst P (sym e) h.0
member_all P route (r ∷ rs) (Memᴰ.tail k) h = member_all P route rs k h.1

-- Every segment is a literal one.
abbrev pub all_exact : List Segment → Bool
all_exact [] = true
all_exact (exact t ∷ segments) = all_exact segments
all_exact (parameter t ∷ segments) = false
all_exact (tail t ∷ segments) = false

all_exact-weight : (segments : List Segment) → all_exact segments ≡ true → weight segments ≡ 0
unfolding weight kind
all_exact-weight [] h = refl
all_exact-weight (exact t ∷ segments) h = omega (arith, all_exact-weight segments h)
all_exact-weight (parameter t ∷ segments) h = absurd (cc)
all_exact-weight (tail t ∷ segments) h = absurd (cc)

weight-all_exact : (segments : List Segment) → weight segments ≡ 0 → all_exact segments ≡ true
unfolding weight kind
weight-all_exact [] h = refl
weight-all_exact (exact t ∷ segments) h = weight-all_exact segments (omega (arith, h))
weight-all_exact (parameter t ∷ segments) h = absurd (omega (arith, h))
weight-all_exact (tail t ∷ segments) h = absurd (omega (arith, h))

before-weight : (a b : Route) → before a b ≡ false → weight a.segments ≡ 0 → weight b.segments ≡ 0
unfolding before
before-weight a b h k = ground (arith, k)

-- A route of literal segments gives way to such routes only.
exact_first :
    (fit : Route → Bool) (m : Route) (routes : List Route)
    → All (λ other. fit other ≡ true → before other m ≡ false) routes
    → All
        (λ other. fit other ≡ true → all_exact other.segments ≡ true → all_exact m.segments ≡ true)
        routes
exact_first fit m [] h = tt
exact_first fit m (other ∷ others) h = (
  λ f e.
      weight-all_exact m.segments
        (before-weight other m (h.0 f) (all_exact-weight other.segments e)),
  exact_first fit m others h.1,
)

-- If a router made of these routes matches a request, the route is one of them, its host, path and method
-- fit the request, the parameters are those that its segments read off the path, and no route that fits
-- is of a smaller key: less weight, where a parameter weighs 1 and a tail 2, whatever its length, or the same
-- weight and more segments. So a route of literal segments alone is never passed over for another kind; a
-- tail weighs less than three parameters.
pub match_precedence :
    (routes : List Route) (r : Router) (method target host : Text) (m : RouteMatch)
    → new_router routes ≡ ok r
    → match method target host r ≡ ok m
    → Memᴰ m.route routes
      × (fits (upper method) (normalize_host host) (split_target target).0 m.route ≡ true)
      × (match_segments m.route.segments (split_target target).0 ≡ ok (some m.params))
      × All
          (λ other.
            fits (upper method) (normalize_host host) (split_target target).0 other ≡ true
            → before other m.route ≡ false)
          routes
      × All
          (λ other.
            fits (upper method) (normalize_host host) (split_target target).0 other ≡ true
            → all_exact other.segments ≡ true
            → all_exact m.route.segments ≡ true)
          routes
unfolding match
match_precedence routes r method target host m h k =
    let table = new_router-routes routes r h in
    let found =
      match_routes-Matched [] (upper method) (normalize_host host) (split_target target).0 r.routes
        m k in
    let sorted = subst Sorted (sym table) (sort-Sorted routes) in
    let first = All-sort _ routes (subst (All _) table (found.first sorted)) in
    (
      member_all (λ route. Memᴰ route routes) m.route (sort routes)
          (subst (λ rs. Memᴰ m.route rs) table found.member)
          (sort-All (λ route. Memᴰ route routes) routes (All-member routes routes (λ other k. k))),
      found.fitting,
      found.params,
      first,
      exact_first (fits (upper method) (normalize_host host) (split_target target).0) m.route routes
          first,
    )
