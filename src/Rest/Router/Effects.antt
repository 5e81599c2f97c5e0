-- ===== src/Rest/Router/Effects.antt =====
-- The errors of `Handle` of rest/router/patrouter.go, and the routes after it.
use go_zero_update.Common.{
  ◌≡◌, refl, ap, ◌∙◌, inl, inr, true, false, ◌&&◌, ◌||◌, not, List, [], Option, none, some,
  if◌then◌else◌, ltb, arith, Bool-cases,
}
use go_zero_update.Common.Maps.{is_some, lookup, store, lookup-store}
use go_zero_update.Common.Texts.{count_byte, contains_byte}
use go_zero_update.Search.Tree.{
  Bytes, slash, starts, bytes, bytes_eq, bytes_eq_iff, Node, AddError, new_node, add_route,
}
use go_zero_update.Search.Tree.Segments.{split, keys_of, keys_eq}
use go_zero_update.Search.Tree.Keys.{item_at, item_at-new_node}
use go_zero_update.Search.Tree.Adding.{add_route-item_at, route_error, rest_of}
use go_zero_update.Rest.Router.{
  star, PatRouter, HandleError, invalid_method, invalid_path, many_wildcards, wildcard_not_last,
  duplicated_wildcard, valid_method, last_part, or_new, tree_error, handle_wildcard, handle_tree,
  handle,
}
use go_zero_update.Rest.Router.Serving.{route_in, wildcard_in}
use go_zero_update.Rest.Router.Handling.{tree_of, add_wildcard}

is_some-tree_error : (e : Option AddError) → is_some (tree_error e) ≡ is_some e
is_some-tree_error none = refl
is_some-tree_error (some e) = refl

module _ {ℓ} {H : Type ℓ} where
  -- The errors that `Handle` should return for a clean path.
  unfoldable pub wildcard_error : PatRouter H → Bytes → Bytes → Option HandleError
  wildcard_error r method path =
      if ltb 1 (count_byte star path)
      then some many_wildcards
      else if not (starts star (last_part (split path)))
      then some wildcard_not_last
      else if is_some (wildcard_in r.wildcard_routes method path)
      then some duplicated_wildcard
      else none

  unfoldable pub path_error : PatRouter H → Bytes → Bytes → Option H → Option HandleError
  path_error r method path handler =
      if contains_byte star path
      then wildcard_error r method path
      else tree_error (route_error path handler (tree_of r method))

  -- The errors for any arguments.
  unfoldable pub handle_error :
      (Bytes → Bytes) → PatRouter H → Bytes → Bytes → Option H → Option HandleError
  handle_error clean r method path handler =
      if not (valid_method method)
      then some invalid_method
      else if not (starts slash path)
      then some invalid_path
      else path_error r method (clean path) handler

  -- The routes after a call for a clean path: only the one that is added changes.
  abbrev pub Added :
      PatRouter H → Bytes → Bytes → Option H → Option HandleError → PatRouter H → Type ℓ
  Added r method path handler err r' =
      ((m : Bytes) (ks : List Bytes)
        → route_in r'.trees m ks ≡ (
            if not (is_some err || contains_byte star path)
              && bytes_eq method m
              && keys_eq (keys_of (split (rest_of path))) ks
            then handler
            else route_in r.trees m ks))
      × ((m route : Bytes)
          → wildcard_in r'.wildcard_routes m route ≡ (
              if not (is_some err)
                && contains_byte star path
                && bytes_eq method m
                && bytes_eq path route
              then some handler
              else wildcard_in r.wildcard_routes m route))

  route_in-store :
      (trees : List (Bytes × Node H)) (method m : Bytes) (tree : Node H) (ks : List Bytes)
      → route_in (store bytes method tree trees) m ks
        ≡ (if bytes_eq method m then item_at ks tree else route_in trees m ks)
  unfolding route_in
  route_in-store trees method m tree ks = ground (arith, lookup-store bytes method m tree trees)

  item_at-tree_of :
      (r : PatRouter H) (m : Bytes) (ks : List Bytes)
      → item_at ks (tree_of r m) ≡ route_in r.trees m ks
  unfolding route_in
  item_at-tree_of r m ks = at (lookup bytes m r.trees)
    where
      at :
          (o : Option (Node H))
          → item_at ks (or_new (new_node none) o)
            ≡ (elim o [ none ↦ none | some tree ↦ item_at ks tree ])
      at none = item_at-new_node ks
      at (some tree) = refl

  handle_tree-Added :
      (r : PatRouter H) (method path : Bytes) (handler : Option H)
      → contains_byte star path ≡ false
      → ((handle_tree r method path handler).0 ≡ path_error r method path handler)
        × Added r method path handler
            (path_error r method path handler)
            (handle_tree r method path handler).1
  unfolding handle_tree path_error
  handle_tree-Added r method path handler plain =
      let (err, items) = add_route-item_at (tree_of r method) path handler in
      rw plain (
        ap tree_error err,
        (
          λ m ks.
              route_in-store r.trees method m (add_route (tree_of r method) path handler).1 ks
              ∙ ground (
                arith,
                items ks,
                item_at-tree_of r m ks,
                item_at-tree_of r method ks,
                bytes_eq_iff method m,
                is_some-tree_error (route_error path handler (tree_of r method)),
              ),
          λ m route. ground (arith, plain),
        ),
      )

  wildcard_in-add_wildcard :
      (r : PatRouter H) (method path : Bytes) (handler : Option H) (m route : Bytes)
      → wildcard_in (add_wildcard r method path handler).wildcard_routes m route ≡ (
          if bytes_eq method m && bytes_eq path route
          then some handler
          else wildcard_in r.wildcard_routes m route)
  unfolding wildcard_in add_wildcard
  wildcard_in-add_wildcard r method path handler m route =
      let routes = or_new [] (lookup bytes method r.wildcard_routes) in
      ground (
        arith,
        lookup-store bytes method m (store bytes path handler routes) r.wildcard_routes,
        lookup-store bytes path route handler routes,
        bytes_eq_iff method m,
      )

  handle_wildcard-add_wildcard :
      (r : PatRouter H) (method path : Bytes) (handler : Option H)
      → handle_wildcard r method path handler ≡ (
        wildcard_error r method path,
        if is_some (wildcard_error r method path) then r else add_wildcard r method path handler,
      )
  unfolding handle_wildcard wildcard_error wildcard_in add_wildcard
  handle_wildcard-add_wildcard r method path handler = ground arith

  handle_wildcard-Added :
      (r : PatRouter H) (method path : Bytes) (handler : Option H)
      → contains_byte star path ≡ true
      → ((handle_wildcard r method path handler).0 ≡ path_error r method path handler)
        × Added r method path handler
            (path_error r method path handler)
            (handle_wildcard r method path handler).1
  unfolding path_error add_wildcard
  handle_wildcard-Added r method path handler wild =
      rw (handle_wildcard-add_wildcard r method path handler, wild)
        (
          refl,
          (
            λ m ks. ground (arith, wild),
            λ m route. ground (arith, wild, wildcard_in-add_wildcard r method path handler m route),
          ),
        )

  -- `Handle` returns the error that it should on every branch: for a method or a path that is not
  -- valid, for a wildcard that stands twice, not last or again, and for a route that the tree of the
  -- method refuses. If there is no error the route of the clean path has the handler from then on, in
  -- the table of the wildcard routes if there is a wildcard, and else in the tree. All other routes
  -- keep theirs, and after an error all do.
  pub handle_effect :
      (clean : Bytes → Bytes) (r : PatRouter H) (method path : Bytes) (handler : Option H)
      → ((handle clean r method path handler).0 ≡ handle_error clean r method path handler)
        × Added r method
            (clean path)
            handler
            (handle_error clean r method path handler)
            (handle clean r method path handler).1
  unfolding handle handle_error
  handle_effect clean r method path handler = elim (Bool-cases (valid_method method)) [
    | inr e ↦ rw e (refl, (λ m ks. refl, λ m route. refl))
    | inl e ↦ elim (Bool-cases (starts slash path)) [
      | inr f ↦ rw (e, f) (refl, (λ m ks. refl, λ m route. refl))
      | inl f ↦ elim (Bool-cases (contains_byte star (clean path))) [
        | inl g ↦ rw (e, f, g) (rw g at (handle_wildcard-Added r method (clean path) handler g))
        | inr g ↦ rw (e, f, g) (rw g at (handle_tree-Added r method (clean path) handler g))
      ]
    ]
  ]
