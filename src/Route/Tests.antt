-- ===== src/Route/Tests.antt =====
-- Runs of the router over the table of tests/test_route.c, and its theorems at that table.
use gargantua.Common.{
  true, Bool, ℕ, false, none, some, List, [], ◌∷◌, Bytes, codes, ◌≡◌, refl, String, str_eq, ◌↔◌,
  length, ◌≤◌, ◌<◌,
}
use gargantua.Route.{
  Route, RequestParams, matched, path_matches, matches_loop, next_segment, is_dynamic,
  dynamic_segment_count, dynamic_count_loop, search_loop, search_step, search_match, consider,
  conclude, route_find_exact, route_find, max_path_params, max_segments,
}
use gargantua.Route.Allow.{allowed, unknown, route_allow, allow_loop}
use gargantua.Route.Choice.{candidates, TooLongIn, picked, route_find_exact-picked}
use gargantua.Route.Segments.{Fills, segments, path_matches_iff}

-- A handler is a number here.
abbrev entry : String → String → ℕ → Route ℕ
entry method url handler = record {
  method = codes method;
  url = codes url;
  content_type = codes "application/json";
  status = 200;
  handler = some handler;
}

abbrev table : List (Route ℕ)
table =
    entry "GET" "/notes" 1
    ∷ entry "POST" "/notes" 2
    ∷ entry "GET" "/notes/{id}" 3
    ∷ entry "DELETE" "/notes/{id}" 4
    ∷ entry "GET" "/a/{x}/b/{y}" 5
    ∷ entry "GET" "/notes/new" 6
    ∷ []

abbrev values : List Bytes → RequestParams
values vs = record { path_value = vs; query = []; invalid = false }

route_find-table :
    (route_find table (codes "GET") (codes "/a/one/b/two")
      ≡ (some (entry "GET" "/a/{x}/b/{y}" 5), values (codes "one" ∷ codes "two" ∷ [])))
    × (route_find table (codes "HEAD") (codes "/notes")
        ≡ (some (entry "GET" "/notes" 1), values []))
    × (route_find table (codes "GET") (codes "/notes/new")
        ≡ (some (entry "GET" "/notes/new" 6), values []))
    × (route_find table (codes "PUT") (codes "/notes") ≡ (none, values []))
unfolding route_find route_find_exact search_loop search_step search_match consider conclude
    path_matches matches_loop next_segment is_dynamic dynamic_segment_count dynamic_count_loop
    str_eq
route_find-table = (refl, refl, refl, refl)

route_allow-table :
    (route_allow table (codes "/notes") 2048 ≡ allowed (codes "GET, HEAD, POST, OPTIONS"))
    × (route_allow table (codes "/unknown") 2048 ≡ unknown)
unfolding route_allow allow_loop route_find route_find_exact search_loop search_step search_match
    consider conclude path_matches matches_loop next_segment is_dynamic dynamic_segment_count
    dynamic_count_loop str_eq
route_allow-table = (refl, refl)

path_matches_iff_example :
    (path_matches (codes "/notes/{id}") (codes "/notes/42") ≡ matched (codes "42" ∷ [])) ↔ (
      Fills (segments (codes "/notes/{id}")) (segments (codes "/notes/42")) (codes "42" ∷ [])
      × (length (codes "42" ∷ []) ≤ max_path_params)
      × (length (segments (codes "/notes/42")) < max_segments))
path_matches_iff_example =
    path_matches_iff (codes "/notes/{id}") (codes "/notes/42") (codes "42" ∷ [])

route_find_exact-picked_example :
    (bad : Bool) × ((bad ≡ true) ↔ TooLongIn (codes "GET") (codes "/notes/new") table)
    × (route_find_exact table (codes "GET") (codes "/notes/new")
        ≡ picked (candidates (codes "GET") (codes "/notes/new") table) bad)
route_find_exact-picked_example = route_find_exact-picked table (codes "GET") (codes "/notes/new")
