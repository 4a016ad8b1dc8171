-- ===== src/Routing/Sorting.antt =====
-- The order of a frozen route table of pcc_gateway/routing.py.
use mathlib.Core.List.{append_assoc, append-nil}
use pcc_gateway.Prelude.{
  ◌≡◌, ◌∙◌, ap, Bool, true, false, List, [], ◌∷◌, ◌++◌, if◌then◌else◌, All, Bool-cases, inl, inr,
  arith, ok, Result-cases,
}
use pcc_gateway.Routing.Pattern.{Route}
use pcc_gateway.Routing.Router.{Router, before, insert, sort, freeze, add, add_all, new_router}

before-asym : (a b : Route) → before a b ≡ true → before b a ≡ false
unfolding before
before-asym a b h = ground arith

before_trans : (a b c : Route) → before b a ≡ false → before c b ≡ false → before c a ≡ false
unfolding before
before_trans a b c h k = ground arith

-- No route stands after one that it goes before.
abbrev pub Sorted : List Route → Type 0
Sorted [] = Unit
Sorted (route ∷ routes) = All (λ later. before later route ≡ false) routes × Sorted routes

module _ (P : Route → Type 0) where
  pub insert-All :
      (route : Route) (routes : List Route) → P route → All P routes → All P (insert route routes)
  unfolding insert
  insert-All route [] h k = (h, tt)
  insert-All route (other ∷ others) h k = elim (Bool-cases (before other route)) [
    | inl e ↦ rw (e, insert) (k.0, insert-All route others h k.1)
    | inr e ↦ rw (e, insert) (h, k)
  ]

  inserted-All :
      (b : Bool) (route other : Route) (others more : List Route)
      → (All P more → P route × All P others)
      → All P (if b then other ∷ more else route ∷ other ∷ others)
      → P route × All P (other ∷ others)
  inserted-All true route other others more k h = let l = k h.1 in (l.0, (h.0, l.1))
  inserted-All false route other others more k h = h

  All-insert :
      (route : Route) (routes : List Route) → All P (insert route routes) → P route × All P routes
  unfolding insert
  All-insert route [] h = h
  All-insert route (other ∷ others) h =
      inserted-All (before other route) route other others (insert route others)
        (All-insert route others) h

  pub All-sort : (routes : List Route) → All P (sort routes) → All P routes
  unfolding sort
  All-sort [] h = tt
  All-sort (route ∷ routes) h =
      let k = All-insert route (sort routes) h in (k.0, All-sort routes k.1)

  pub sort-All : (routes : List Route) → All P routes → All P (sort routes)
  unfolding sort
  sort-All [] h = tt
  sort-All (route ∷ routes) h = insert-All route (sort routes) h.0 (sort-All routes h.1)

later_trans :
    (a b : Route) (routes : List Route)
    → before b a ≡ false
    → All (λ later. before later b ≡ false) routes
    → All (λ later. before later a ≡ false) routes
later_trans a b [] h k = tt
later_trans a b (c ∷ cs) h k = (before_trans a b c h k.0, later_trans a b cs h k.1)

insert-Sorted : (route : Route) (routes : List Route) → Sorted routes → Sorted (insert route routes)
unfolding insert
insert-Sorted route [] h = (tt, tt)
insert-Sorted route (other ∷ others) h = elim (Bool-cases (before other route)) [
  | inl e ↦
      rw (e, insert)
        (
          insert-All (λ later. before later other ≡ false) route others (before-asym other route e)
              h.0,
          insert-Sorted route others h.1,
        )
  | inr e ↦ rw (e, insert) ((e, later_trans route other others e h.0), h)
]

pub sort-Sorted : (routes : List Route) → Sorted (sort routes)
unfolding sort
sort-Sorted [] = tt
sort-Sorted (route ∷ routes) = insert-Sorted route (sort routes) (sort-Sorted routes)

add-routes :
    (route : Route) (r r' : Router) → add route r ≡ ok r' → r'.routes ≡ r.routes ++ route ∷ []
unfolding add
add-routes route r r' h = ground arith

add_all-routes :
    (routes : List Route) (r r' : Router)
    → add_all routes r ≡ ok r'
    → r'.routes ≡ r.routes ++ routes
unfolding add_all
add_all-routes [] r r' h = ground (arith, append-nil r.routes)
add_all-routes (route ∷ routes) r r' h = elim (Result-cases (add route r)) [
  | inr (x, e) ↦ absurd (ground arith)
  | inl (s, e) ↦
      add_all-routes routes s r' (ground arith)
      ∙ ap (λ rs. rs ++ routes) (add-routes route r s e)
      ∙ append_assoc r.routes (route ∷ []) routes
]

-- The table of a router that was made of a list of routes.
pub new_router-routes :
    (routes : List Route) (r : Router) → new_router routes ≡ ok r → r.routes ≡ sort routes
unfolding new_router freeze
new_router-routes routes r h =
    elim (Result-cases (add_all routes (record { routes = []; frozen = false }))) [
      | inr (x, e) ↦ absurd (ground arith)
      | inl (s, e) ↦ (let t = add_all-routes routes _ s e in ground arith)
    ]
