-- ===== src/Routing/Refusal.antt =====
-- The requests that `Router.match` of pcc_gateway/routing.py refuses: the path, or only its method.
use pcc_gateway.Prelude.{
  ◌≡◌, refl, ◌∙◌, subst, Bool, true, false, ◌&&◌, ◌||◌, List, [], ◌∷◌, ◌++◌, none, some, Text,
  text_eq, text_eq_iff, text_in, char_in, upper, if◌then◌else◌, All, Bool-cases, inl, inr, arith,
  ok, err, Result-cases,
}
use pcc_gateway.Routing.Path.{
  RouteError, method_not_allowed, not_origin_form, escapes_root, unsafe_path, dot, dot_dot,
  drop_last, segments_of, normalize_loop, normalize_path, split_target, normalize_host,
}
use pcc_gateway.Routing.Pattern.{Route}
use pcc_gateway.Routing.Router.{
  Router, before, insert, sort, new_router, match_segments, host_fits, method_fits, no_match,
  match_routes, match,
}
use pcc_gateway.Routing.Sorting.{All-sort, new_router-routes}
use pcc_gateway.Routing.Precedence.{on_path, fits}

-- The errors of a path.
abbrev pub is_path_error : RouteError → Bool
is_path_error not_origin_form = true
is_path_error escapes_root = true
is_path_error unsafe_path = true
is_path_error _ = false

go_up-error :
    (output segments : List Text) (e : RouteError)
    → ((kept : List Text) → normalize_loop kept segments ≡ err e → is_path_error e ≡ true)
    → elim output [
      | [] ↦ err escapes_root
      | first ∷ rest ↦ normalize_loop (drop_last (first ∷ rest)) segments
    ]
      ≡ err e
    → is_path_error e ≡ true
go_up-error [] segments e k h = ground arith
go_up-error (first ∷ rest) segments e k h = k (drop_last (first ∷ rest)) h

normalize_loop-error :
    (output segments : List Text) (e : RouteError)
    → normalize_loop output segments ≡ err e
    → is_path_error e ≡ true
unfolding normalize_loop
normalize_loop-error output [] e h = absurd (cc)
normalize_loop-error output (segment ∷ segments) e h =
    elim (Bool-cases (text_eq segment [] || text_eq segment dot)) [
      | inl f ↦ normalize_loop-error output segments e (ground arith)
      | inr f ↦ elim (Bool-cases (text_eq segment dot_dot)) [
        | inl g ↦
            go_up-error output segments e (λ kept c. normalize_loop-error kept segments e c)
              (ground arith)
        | inr g ↦ elim (Bool-cases (char_in 0 segment || char_in 92 segment)) [
          | inl u ↦ ground arith
          | inr u ↦ normalize_loop-error (output ++ segment ∷ []) segments e (ground arith)
        ]
      ]
    ]

match_segments-error :
    (route : Route) (path : Text) (e : RouteError)
    → match_segments route.segments path ≡ err e
    → is_path_error e ≡ true
unfolding match_segments normalize_path
match_segments-error route path e h = ground (arith, normalize_loop-error [] (segments_of path) e)

-- Some route of the path has this method.
abbrev pub offers : Text → Text → Text → List Route → Bool
offers host path t [] = false
offers host path t (route ∷ routes) =
    on_path host path route && text_eq route.method t || offers host path t routes

text_in-snoc :
    (t u : Text) (us : List Text) → text_in t (us ++ u ∷ []) ≡ (text_in t us || text_eq t u)
unfolding text_in
text_in-snoc t u [] = ground arith
text_in-snoc t u (v ∷ vs) = ground (arith, text_in-snoc t u vs)

-- The methods that an error names.
abbrev pub methods_of : RouteError → List Text
methods_of (method_not_allowed methods) = methods
methods_of _ = []

-- What a loop over these routes has seen that ended without a match, and what it raised.
record Refused (allowed : List Text) (method host path : Text) (routes : List Route)
    (e : RouteError) : Type 0 where
  final : no_match (methods_of e) ≡ err e
  unfit : All (λ other. fits method host path other ≡ false) routes
  offered : (t : Text) → text_in t (methods_of e) ≡ (text_in t allowed || offers host path t routes)

no_match-methods :
    (allowed : List Text) (e : RouteError) → no_match allowed ≡ err e → methods_of e ≡ allowed
unfolding no_match
no_match-methods [] e h = ground arith
no_match-methods (a ∷ others) e h = ground arith

skip :
    (allowed : List Text) (method host path : Text) (route : Route) (routes : List Route)
    (e : RouteError)
    → on_path host path route ≡ false
    → Refused allowed method host path routes e
    → Refused allowed method host path (route ∷ routes) e
skip allowed method host path route routes e off r = record {
  final = r.final;
  unfit = (rw (off) refl, r.unfit);
  offered = λ t. rw (r.offered t, off) refl;
}

no_match-final :
    (allowed : List Text) (e : RouteError)
    → no_match allowed ≡ err e
    → no_match (methods_of e) ≡ err e
no_match-final allowed e h = rw (no_match-methods allowed e h) h

text_in-eq :
    (t u : Text) (us : List Text) → text_in u us ≡ true → text_eq u t ≡ true → text_in t us ≡ true
text_in-eq t u us h e = let same : u ≡ t = (text_eq_iff u t).0 e in rw (← same) h

offered_again :
    (allowed : List Text) (t m : Text) (rest : Bool)
    → (text_in t (if text_in m allowed then allowed else allowed ++ m ∷ []) || rest)
      ≡ (text_in t allowed || (text_eq m t || rest))
offered_again allowed t m rest = elim (Bool-cases (text_in m allowed)) [
  | inr e ↦ rw (e) (ground (arith, text_in-snoc t m allowed, text_eq_iff t m, text_eq_iff m t))
  | inl e ↦ rw (e) (elim (Bool-cases (text_eq m t)) [
    | inl f ↦ rw (text_in-eq t m allowed e f) refl
    | inr f ↦ rw (f) refl
  ])
]

match_routes-Refused :
    (allowed : List Text) (method host path : Text) (routes : List Route) (e : RouteError)
    → match_routes allowed method host path routes ≡ err e
    → is_path_error e ≡ false
    → Refused allowed method host path routes e
unfolding match_routes
match_routes-Refused allowed method host path [] e h n = record {
  final = no_match-final allowed e h;
  unfit = tt;
  offered = λ t. rw (no_match-methods allowed e h) (ground arith);
}
match_routes-Refused allowed method host path (route ∷ routes) e h n =
    elim (Bool-cases (host_fits route.host host)) [
      | inr f ↦
          skip allowed method host path route routes _ (rw (f) refl)
            (match_routes-Refused allowed method host path routes e (ground arith) n)
      | inl f ↦ elim (Result-cases (match_segments route.segments path)) [
        | inr (x, g) ↦ absurd (let k = match_segments-error route path x g in ground arith)
        | inl (none, g) ↦
            skip allowed method host path route routes _ (rw (f, g) refl)
              (match_routes-Refused allowed method host path routes e (ground arith) n)
        | inl (some params, g) ↦ elim (Bool-cases (method_fits route.method method)) [
          | inl u ↦ absurd (ground arith)
          | inr u ↦
              let r =
                match_routes-Refused
                  (if text_in route.method allowed then allowed else allowed ++ route.method ∷ [])
                  method host path routes e (ground arith) n in
              record {
                final = r.final;
                unfit = (rw (f, g, u) refl, r.unfit);
                offered = λ t.
                    rw (r.offered t, f, g)
                      (offered_again allowed t route.method (offers host path t routes));
              }
        ]
      ]
    ]

offers-insert :
    (host path t : Text) (route : Route) (routes : List Route)
    → offers host path t (insert route routes) ≡ offers host path t (route ∷ routes)
unfolding insert
offers-insert host path t route [] = refl
offers-insert host path t route (other ∷ others) = elim (Bool-cases (before other route)) [
  | inl e ↦ rw (e, insert) (rw (offers-insert host path t route others) (ground arith))
  | inr e ↦ rw (e, insert) refl
]

offers-sort :
    (host path t : Text) (routes : List Route)
    → offers host path t (sort routes) ≡ offers host path t routes
unfolding sort
offers-sort host path t [] = refl
offers-sort host path t (route ∷ routes) =
    offers-insert host path t route (sort routes) ∙ rw (offers-sort host path t routes) refl

-- If a router made of these routes refuses a request whose path is valid, no route of it fits the request,
-- and the error names exactly the methods that the routes on the request's host and path have: none of
-- them makes it a missing route, and any a method that is not allowed.
pub match_refusal :
    (routes : List Route) (r : Router) (method target host : Text) (e : RouteError)
    → new_router routes ≡ ok r
    → match method target host r ≡ err e
    → is_path_error e ≡ false
    → (no_match (methods_of e) ≡ err e)
      × All
          (λ other. fits (upper method) (normalize_host host) (split_target target).0 other ≡ false)
          routes
      × ((t : Text)
          → text_in t (methods_of e)
            ≡ offers (normalize_host host) (split_target target).0 t routes)
unfolding match text_in
match_refusal routes r method target host e h k n =
    let table = new_router-routes routes r h in
    let refused =
      match_routes-Refused [] (upper method) (normalize_host host) (split_target target).0 r.routes
        e k n in
    (
      refused.final,
      All-sort _ routes (subst (All _) table refused.unfit),
      λ t.
          refused.offered t
          ∙ subst
              (λ rs.
                offers (normalize_host host) (split_target target).0 t r.routes
                ≡ offers (normalize_host host) (split_target target).0 t rs)
              table refl
          ∙ offers-sort (normalize_host host) (split_target target).0 t routes,
    )
