-- ===== src/Rest/Router/Handling.antt =====
-- What `Handle` of rest/router/patrouter.go does to the routes, on every branch.
use go_zero_update.Common.{
  ◌≡◌, refl, inl, inr, true, List, [], ◌∷◌, Option, none, some, ltb, Bool-cases,
}
use go_zero_update.Common.Maps.{is_some, lookup, store, Distinct, store-Distinct}
use go_zero_update.Common.Texts.{count_byte, contains_byte}
use go_zero_update.Search.Tree.{Bytes, slash, starts, bytes, bytes_eq, Node, new_node, add_route}
use go_zero_update.Search.Tree.Segments.{split}
use go_zero_update.Search.Tree.Invariant.{well_formed, add_route-well_formed}
use go_zero_update.Rest.Router.{
  star, PatRouter, valid_method, last_part, or_new, new_router, handle_wildcard, handle_tree,
  handle,
}
use go_zero_update.Rest.Router.Serving.{FormedTrees}
use go_zero_update.Rest.Router.Wildcards.{DistinctRoutes}
use go_zero_update.Rest.Router.Replies.{IsValid, lookup-FormedTrees, lookup-DistinctRoutes}

module _ {ℓ} {H : Type ℓ} where
  -- The tree of a method, or the new one that `Handle` makes.
  abbrev pub tree_of : PatRouter H → Bytes → Node H
  tree_of r method = or_new (new_node none) (lookup bytes method r.trees)

  store-FormedTrees :
      (m : Bytes) (tree : Node H) (trees : List (Bytes × Node H))
      → FormedTrees trees
      → well_formed tree ≡ true
      → FormedTrees (store bytes m tree trees)
  unfolding store
  store-FormedTrees m tree [] h f = (f, tt)
  store-FormedTrees m tree ((n, t) ∷ trees) h f = elim (Bool-cases (bytes_eq n m)) [
    | inl e ↦ rw e (f, h.1)
    | inr e ↦ rw e (h.0, store-FormedTrees m tree trees (h.1) f)
  ]

  store-DistinctRoutes :
      (m : Bytes) (routes : List (Bytes × Option H))
      (table : List (Bytes × List (Bytes × Option H)))
      → DistinctRoutes table
      → Distinct bytes routes
      → DistinctRoutes (store bytes m routes table)
  unfolding store
  store-DistinctRoutes m routes [] h f = (f, tt)
  store-DistinctRoutes m routes ((n, t) ∷ table) h f = elim (Bool-cases (bytes_eq n m)) [
    | inl e ↦ rw e (f, h.1)
    | inr e ↦ rw e (h.0, store-DistinctRoutes m routes table (h.1) f)
  ]

  pub new_router-IsValid : IsValid {H = H} new_router
  unfolding new_router
  new_router-IsValid = record {
    formed = tt;
    trees_distinct = tt;
    tables_distinct = tt;
    routes_distinct = tt;
  }

  tree_of-well_formed :
      (r : PatRouter H) (method : Bytes) → IsValid r → well_formed (tree_of r method) ≡ true
  unfolding well_formed
  tree_of-well_formed r method v = at (lookup bytes method r.trees) refl
    where
      at :
          (o : Option (Node H))
          → lookup bytes method r.trees ≡ o
          → well_formed (or_new (new_node none) o) ≡ true
      at none e = refl
      at (some tree) e = lookup-FormedTrees method r.trees tree (v.formed) e

  handle_tree-IsValid :
      (r : PatRouter H) (method path : Bytes) (handler : Option H)
      → IsValid r
      → IsValid (handle_tree r method path handler).1
  unfolding handle_tree
  handle_tree-IsValid r method path handler v =
      let tree = (add_route (tree_of r method) path handler).1 in
      record {
        formed = store-FormedTrees method tree r.trees (v.formed) (
            add_route-well_formed (tree_of r method) path handler (tree_of-well_formed r method v));
        trees_distinct = store-Distinct bytes method tree r.trees (v.trees_distinct);
        tables_distinct = v.tables_distinct;
        routes_distinct = v.routes_distinct;
      }

  -- What `Handle` does with a wildcard path, apart from its checks.
  unfoldable pub add_wildcard : PatRouter H → Bytes → Bytes → Option H → PatRouter H
  add_wildcard r method path handler =
      let routes = or_new [] (lookup bytes method r.wildcard_routes) in
      record r {
        wildcard_routes = store bytes method (store bytes path handler routes) r.wildcard_routes;
      }

  add_wildcard-IsValid :
      (r : PatRouter H) (method path : Bytes) (handler : Option H)
      → IsValid r
      → IsValid (add_wildcard r method path handler)
  unfolding add_wildcard
  add_wildcard-IsValid r method path handler v =
      let routes = or_new [] (lookup bytes method r.wildcard_routes) in
      let distinct = lookup-DistinctRoutes method r.wildcard_routes (v.routes_distinct) in
      record {
        formed = v.formed;
        trees_distinct = v.trees_distinct;
        tables_distinct =
            store-Distinct bytes method (store bytes path handler routes) r.wildcard_routes
              (v.tables_distinct);
        routes_distinct =
            store-DistinctRoutes method (store bytes path handler routes) r.wildcard_routes
              (v.routes_distinct) (store-Distinct bytes path handler routes distinct);
      }

  handle_wildcard-IsValid :
      (r : PatRouter H) (method path : Bytes) (handler : Option H)
      → IsValid r
      → IsValid (handle_wildcard r method path handler).1
  unfolding handle_wildcard add_wildcard
  handle_wildcard-IsValid r method path handler v =
      let added = add_wildcard-IsValid r method path handler v in
      elim (Bool-cases (ltb 1 (count_byte star path))) [
        | inl e ↦ rw e v
        | inr e ↦ elim (Bool-cases (starts star (last_part (split path)))) [
          | inr f ↦ rw (e, f) v
          | inl f ↦
              elim (Bool-cases
                (is_some (lookup bytes path (or_new [] (lookup bytes method r.wildcard_routes))))) [
                  | inl g ↦ rw (e, f, g) v
                  | inr g ↦ rw (e, f, g) added
                ]
        ]
      ]

  -- `Handle` keeps the router valid, whatever it is given and also when it returns an error: every
  -- tree has the shape that a search needs, and no method and no wildcard route stands twice.
  pub handle-IsValid :
      (clean : Bytes → Bytes) (r : PatRouter H) (method path : Bytes) (handler : Option H)
      → IsValid r
      → IsValid (handle clean r method path handler).1
  unfolding handle
  handle-IsValid clean r method path handler v = elim (Bool-cases (valid_method method)) [
    | inr e ↦ rw e v
    | inl e ↦ elim (Bool-cases (starts slash path)) [
      | inr f ↦ rw (e, f) v
      | inl f ↦ elim (Bool-cases (contains_byte star (clean path))) [
        | inl g ↦ rw (e, f, g) (handle_wildcard-IsValid r method (clean path) handler v)
        | inr g ↦ rw (e, f, g) (handle_tree-IsValid r method (clean path) handler v)
      ]
    ]
  ]
