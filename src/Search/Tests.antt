-- ===== src/Search/Tests.antt =====
-- Tests and witnesses of the tree of core/search/tree.go.
use go_zero_update.Common.{
  ℕ, ◌≡◌, refl, true, ◌&&◌, not, List, [], ◌∷◌, Option, none, some, if◌then◌else◌, returns,
}
use go_zero_update.Common.Maps.{is_some, store}
use go_zero_update.Search.Tree.{
  Bytes, slash, colon, Node, duplicated_item, duplicated_slash, Params, new_node, add_route,
  search_route, add, add_from, lookup_child, get_children, set_child, store_child, bytes_eq, next,
  enter_next, next_from, for_each, visit, try_below, try_leaf,
}
use go_zero_update.Search.Tree.Segments.{split, keys_of, keys_eq}
use go_zero_update.Search.Tree.Keys.{item_at}
use go_zero_update.Search.Tree.Adding.{route_error, rest_of}
use go_zero_update.Search.Tree.Invariant.{well_formed}
use go_zero_update.Search.Tree.Finding.{Answer}
use go_zero_update.Search.Tree.Runs.{add_all, log_all, Found}
use go_zero_update.Search.Tree.Adding
use go_zero_update.Search.Tree.Invariant
use go_zero_update.Search.Tree.Finding
use go_zero_update.Search.Tree.Runs

-- `/a/:b`, `/a` and `/a//b`.
abbrev route_a_b : Bytes
route_a_b = slash ∷ b'a' ∷ slash ∷ colon ∷ b'b' ∷ []

abbrev route_a : Bytes
route_a = slash ∷ b'a' ∷ []

abbrev route_doubled : Bytes
route_doubled = slash ∷ b'a' ∷ slash ∷ slash ∷ b'b' ∷ []

abbrev one_route : Node ℕ
one_route = (add_route (new_node none) route_a_b (some 5)).1

abbrev calls : List (Bytes × Option ℕ)
calls = (route_a_b, some 5) ∷ (route_a, some 6) ∷ (route_a, some 7) ∷ (route_doubled, some 8) ∷ []

abbrev path_a_x : Bytes
path_a_x = b'a' ∷ slash ∷ b'x' ∷ []

-- The errors of these calls.
add_all_errors :
    (add_all calls (new_node none)).0
    ≡ none ∷ none ∷ some duplicated_item ∷ some duplicated_slash ∷ []
unfolding add_all add_route add add_from lookup_child get_children set_child store_child bytes_eq
add_all_errors = refl

-- The path `/a/x` matches `/a/:b`, with `x` for `b`.
search_route_found :
    search_route (add_all calls (new_node none)).1 (slash ∷ path_a_x)
    ≡ returns (some (5, ((b'b' ∷ [], b'x' ∷ []) ∷ [])))
unfolding add_all add_route search_route next enter_next next_from for_each visit try_below try_leaf
    add add_from lookup_child get_children set_child store_child bytes_eq store
search_route_found = refl

add_route-item_at_example :
    ((add_route one_route route_a (some 6)).0 ≡ route_error route_a (some 6) one_route)
    × ((q : List Bytes)
        → item_at q (add_route one_route route_a (some 6)).1 ≡ (
            if not (is_some (route_error route_a (some 6) one_route))
              && keys_eq (keys_of (split (rest_of route_a))) q
            then some 6
            else item_at q one_route))
add_route-item_at_example = Adding.add_route-item_at one_route route_a (some 6)

one_route-well_formed : well_formed one_route ≡ true
unfolding add_route well_formed add add_from lookup_child get_children set_child store_child
    bytes_eq
one_route-well_formed = refl

add_route-well_formed_example : well_formed (add_route one_route route_a (some 6)).1 ≡ true
add_route-well_formed_example =
    Invariant.add_route-well_formed one_route route_a (some 6) one_route-well_formed

search_route-Answer_example :
    (o : Option (ℕ × Params)) × ((search_route one_route (slash ∷ path_a_x) ≡ returns o)
      × Answer (split path_a_x) one_route o)
search_route-Answer_example = Finding.search_route-Answer one_route path_a_x one_route-well_formed

search_route-add_all_example :
    ((add_all calls (new_node none)).0 ≡ (log_all calls []).0)
    × ((o : Option (ℕ × Params)) × ((search_route
              (add_all calls (new_node none)).1
              (slash ∷ path_a_x)
            ≡ returns o)
          × Found (split path_a_x) (log_all calls []).1 o))
search_route-add_all_example = Runs.search_route-add_all calls path_a_x
