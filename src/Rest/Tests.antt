-- ===== src/Rest/Tests.antt =====
-- Tests and witnesses of the router of rest/router/patrouter.go. The paths are clean as they stand.
use go_zero_update.Common.{ℕ, ◌≡◌, refl, false, List, [], ◌∷◌, ◌++◌, Option, none, some, returns}
use go_zero_update.Common.Maps.{lookup, store}
use go_zero_update.Common.Texts.{has_prefix, trim_prefix, count_byte, contains_byte, join}
use go_zero_update.Search.Tree.{
  Bytes, slash, colon, add_route, add, add_from, add_leaf, add_below, enter_add, lookup_child,
  get_children, set_child, store_child, search_route, next, enter_next, next_from, for_each, visit,
  try_below, try_leaf, bytes_eq,
}
use go_zero_update.Search.Tree.Segments.{split}
use go_zero_update.Rest.Router.{
  star, PatRouter, handled, not_allowed_page, duplicated_wildcard, new_router, handle, serve_http,
  valid_method, last_part, serve_clean, refuse, methods_allowed, tree_methods, wildcard_methods,
  match_wildcards, wildcard_of, find_wildcard,
}
use go_zero_update.Rest.Router.Serving.{wildcard_in}
use go_zero_update.Rest.Router.Replies.{Right}
use go_zero_update.Rest.Router.Effects.{handle_error, Added, wildcard_error}
use go_zero_update.Rest.Router.Runs.{handle_all}
use go_zero_update.Rest.Router.Guards
use go_zero_update.Rest.Router.Guards.{Guarded}
use go_zero_update.Rest.Router.Effects
use go_zero_update.Rest.Router.Patterns
use go_zero_update.Rest.Router.Runs

abbrev as_is : Bytes → Bytes
as_is path = path

abbrev get_method : Bytes
get_method = b'G' ∷ b'E' ∷ b'T' ∷ []

abbrev put_method : Bytes
put_method = b'P' ∷ b'U' ∷ b'T' ∷ []

-- `/m/:id` and `/m/*p`.
abbrev route_id : Bytes
route_id = slash ∷ b'm' ∷ slash ∷ colon ∷ b'i' ∷ b'd' ∷ []

abbrev route_wild : Bytes
route_wild = slash ∷ b'm' ∷ slash ∷ star ∷ b'p' ∷ []

abbrev calls : List (Bytes × (Bytes × Option ℕ))
calls = (get_method, (route_id, some 1)) ∷ (get_method, (route_wild, some 2)) ∷ []

abbrev path_two : Bytes
path_two = b'm' ∷ slash ∷ b'x' ∷ slash ∷ b'y' ∷ []

abbrev router : PatRouter ℕ
router = (handle as_is new_router get_method route_wild (some 2)).1

handle_all-Guarded_example : Guarded (handle_all as_is calls (new_router {H = ℕ}))
handle_all-Guarded_example = Guards.handle_all-Guarded as_is calls

handle_effect_example :
    ((handle as_is router get_method route_wild (some 3)).0
      ≡ handle_error as_is router get_method route_wild (some 3))
    × Added router get_method route_wild
        (some 3)
        (handle_error as_is router get_method route_wild (some 3))
        (handle as_is router get_method route_wild (some 3)).1
handle_effect_example = Effects.handle_effect as_is router get_method route_wild (some 3)

-- A wildcard route again.
handle_again : (handle as_is router get_method route_wild (some 3)).0 ≡ some duplicated_wildcard
unfolding handle valid_method last_part new_router bytes_eq count_byte contains_byte split lookup
    store
handle_again = refl

first_wildcard : wildcard_error {H = ℕ} new_router get_method route_wild ≡ none
unfolding wildcard_error count_byte last_part split wildcard_in lookup new_router
first_wildcard = refl

wildcard_of-accepted_example :
    (prefix : Bytes) × ((name : Bytes) × ((route_wild ≡ prefix ++ star ∷ name)
        × ((wildcard_of route_wild ≡ (prefix, name)) × (contains_byte slash name ≡ false))))
wildcard_of-accepted_example =
    Patterns.wildcard_of-accepted {H = ℕ} new_router get_method (b'm' ∷ slash ∷ star ∷ b'p' ∷ [])
      first_wildcard

serve_http-Right_example :
    Right
      (handle_all as_is calls new_router)
      get_method
      path_two
      (serve_http as_is (handle_all as_is calls new_router) get_method (slash ∷ path_two))
serve_http-Right_example =
    Runs.serve_http-Right as_is calls get_method (slash ∷ path_two) path_two refl

-- `/m/x/y` goes to the wildcard route, and another method is refused.
serve_two :
    serve_http as_is (handle_all as_is calls new_router) get_method (slash ∷ path_two)
    ≡ returns (handled 2 (some ((b'p' ∷ [], b'x' ∷ slash ∷ b'y' ∷ []) ∷ [])))
unfolding serve_http handle_all handle valid_method last_part new_router serve_clean refuse
    methods_allowed tree_methods wildcard_methods match_wildcards wildcard_of find_wildcard
    add_route add add_from add_leaf add_below enter_add lookup_child get_children set_child
    store_child search_route next enter_next next_from for_each visit try_below try_leaf bytes_eq
    has_prefix trim_prefix count_byte contains_byte join split lookup store
serve_two = refl

serve_put :
    serve_http as_is (handle_all as_is calls new_router) put_method (slash ∷ path_two)
    ≡ returns (not_allowed_page (get_method ∷ []))
unfolding serve_http handle_all handle valid_method last_part new_router serve_clean refuse
    methods_allowed tree_methods wildcard_methods match_wildcards wildcard_of find_wildcard
    add_route add add_from add_leaf add_below enter_add lookup_child get_children set_child
    store_child search_route next enter_next next_from for_each visit try_below try_leaf bytes_eq
    has_prefix trim_prefix count_byte contains_byte join split lookup store
serve_put = refl
