-- ===== src/Routing/Tests.antt =====
-- Tests of the routes of pcc_gateway/routing.py, and the theorems at concrete inputs.
use mathlib.Core.List.{Memᴰ}
use pcc_gateway.Prelude.{
  ℕ, codes, Text, ◌∷◌, ◌≡◌, ◌≢◌, refl, List, [], true, false, Bool, Result, ok, err, All, upper,
  text_in, some,
}
use pcc_gateway.Routing.Path.{
  method_not_allowed, split_target, normalize_host, normalize_path, path_of,
}
use pcc_gateway.Routing.Pattern.{Segment, exact, parameter, tail, Route}
use pcc_gateway.Routing.Router.{Router, before, new_router, match_segments, no_match, match}
use pcc_gateway.Routing.Normal.{Clean, normalize_path_idem}
use pcc_gateway.Routing.Precedence.{fits, all_exact, match_precedence}
use pcc_gateway.Routing.Refusal.{offers, match_refusal}

dotted_normal : normalize_path (codes "/a/./b/../c/") ≡ ok (codes "/a/c")
unfolding normalize_path pcc_gateway.Prelude.split pcc_gateway.Prelude.text_eq
    pcc_gateway.Prelude.char_in pcc_gateway.Prelude.join
dotted_normal = refl

normalize_path_idem_example :
    ((out : List Text) × All Clean out × (codes "/a/c" ≡ path_of out))
    × (normalize_path (codes "/a/c") ≡ ok (codes "/a/c"))
normalize_path_idem_example =
    normalize_path_idem (codes "/a/./b/../c/") (codes "/a/c") dotted_normal

abbrev route_of : Text → List Segment → Route
route_of path segments = record {
  method = codes "GET";
  path = path;
  handler = 0;
  name = [];
  host = [];
  kind = codes "http";
  target = [];
  segments = segments;
  bindings = [];
}

-- `GET /users/{id}` stands first in the list, and `GET /users/me` goes before it.
abbrev by_id : Route
by_id = route_of (codes "/users/{id}") (exact (codes "users") ∷ parameter (codes "id") ∷ [])

abbrev me : Route
me = route_of (codes "/users/me") (exact (codes "users") ∷ exact (codes "me") ∷ [])

abbrev table : Router
table = record { routes = me ∷ by_id ∷ []; frozen = true }

table_made : new_router (by_id ∷ me ∷ []) ≡ ok table
unfolding new_router pcc_gateway.Prelude.text_eq pcc_gateway.Routing.Pattern.signature
    pcc_gateway.Prelude.join before
table_made = refl

me_matched :
    match (codes "get") (codes "/users/me?x") (codes "Example.org:80") table
    ≡ ok (record { route = me; params = [] })
unfolding match normalize_path split_target pcc_gateway.Prelude.find pcc_gateway.Prelude.split
    pcc_gateway.Prelude.text_eq pcc_gateway.Prelude.char_in
    pcc_gateway.Routing.Pattern.drop_single_empty pcc_gateway.Prelude.join upper
me_matched = refl

match_precedence_example :
    Memᴰ me (by_id ∷ me ∷ [])
    × (fits
          (upper (codes "get"))
          (normalize_host (codes "Example.org:80"))
          (split_target (codes "/users/me?x")).0
          me
        ≡ true)
    × (match_segments me.segments (split_target (codes "/users/me?x")).0 ≡ ok (some []))
    × All
        (λ other.
          fits
              (upper (codes "get"))
              (normalize_host (codes "Example.org:80"))
              (split_target (codes "/users/me?x")).0
              other
            ≡ true
          → before other me ≡ false)
        (by_id ∷ me ∷ [])
    × All
        (λ other.
          fits
              (upper (codes "get"))
              (normalize_host (codes "Example.org:80"))
              (split_target (codes "/users/me?x")).0
              other
            ≡ true
          → all_exact other.segments ≡ true
          → all_exact me.segments ≡ true)
        (by_id ∷ me ∷ [])
match_precedence_example =
    match_precedence (by_id ∷ me ∷ []) table (codes "get") (codes "/users/me?x")
      (codes "Example.org:80") (record { route = me; params = [] }) table_made me_matched

-- `GET /{rest*}` and `GET /{a}/{b}/{c}`: a tail goes before three parameters.
abbrev rest : Route
rest = route_of (codes "/{rest*}") (tail (codes "rest") ∷ [])

abbrev three : Route
three =
    route_of (codes "/{a}/{b}/{c}")
      (parameter (codes "a") ∷ parameter (codes "b") ∷ parameter (codes "c") ∷ [])

abbrev tail_table : Router
tail_table = record { routes = rest ∷ three ∷ []; frozen = true }

tail_table_made : new_router (three ∷ rest ∷ []) ≡ ok tail_table
unfolding new_router pcc_gateway.Prelude.text_eq pcc_gateway.Routing.Pattern.signature
    pcc_gateway.Prelude.join before
tail_table_made = refl

rest_matched :
    match (codes "get") (codes "/x/y/z") [] tail_table
    ≡ ok (record { route = rest; params = (codes "rest", codes "x/y/z") ∷ [] })
unfolding match normalize_path split_target pcc_gateway.Prelude.find pcc_gateway.Prelude.split
    pcc_gateway.Prelude.text_eq pcc_gateway.Prelude.char_in
    pcc_gateway.Routing.Pattern.drop_single_empty pcc_gateway.Prelude.join upper
rest_matched = refl

post_refused :
    match (codes "POST") (codes "/users/7") [] table ≡ err (method_not_allowed (codes "GET" ∷ []))
unfolding match normalize_path split_target pcc_gateway.Prelude.find pcc_gateway.Prelude.split
    pcc_gateway.Prelude.text_eq pcc_gateway.Prelude.char_in
    pcc_gateway.Routing.Pattern.drop_single_empty pcc_gateway.Prelude.join upper text_in
post_refused = refl

match_refusal_example :
    (no_match (codes "GET" ∷ []) ≡ err (method_not_allowed (codes "GET" ∷ [])))
    × All
        (λ other.
          fits (upper (codes "POST")) (normalize_host []) (split_target (codes "/users/7")).0 other
          ≡ false)
        (by_id ∷ me ∷ [])
    × ((t : Text)
        → text_in t (codes "GET" ∷ [])
          ≡ offers (normalize_host []) (split_target (codes "/users/7")).0 t (by_id ∷ me ∷ []))
match_refusal_example =
    match_refusal (by_id ∷ me ∷ []) table (codes "POST") (codes "/users/7") []
      (method_not_allowed (codes "GET" ∷ [])) table_made post_refused refl
