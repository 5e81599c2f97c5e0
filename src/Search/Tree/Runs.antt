-- ===== src/Search/Tree/Runs.antt =====
-- Calls of `Add` and then a `Search` of core/search/tree.go, against a list of the routes with their
-- items.
use go_zero_update.Common.{
  ◌≡◌, refl, sym, ◌∙◌, true, List, [], ◌∷◌, ◌==◌, if◌then◌else◌, arith, Option, none, some, returns,
}
use go_zero_update.Common.Maps.{is_some}
use go_zero_update.Search.Tree.{
  Bytes, slash, Node, AddError, duplicated_item, duplicated_slash, empty_item, not_from_root,
  Params, new_node, add_route, search_route,
}
use go_zero_update.Search.Tree.Segments.{split, keys_of, has_empty, keys_eq, accepts, params_of}
use go_zero_update.Search.Tree.Keys.{item_at, item_at-new_node}
use go_zero_update.Search.Tree.Adding.{add_route-item_at, route_error}
use go_zero_update.Search.Tree.Invariant.{well_formed, add_route-well_formed}
use go_zero_update.Search.Tree.Finding.{Answer, search_route-Answer}

module _ {ℓ} {A : Type ℓ} where
  -- The item of a list of keys in the list of what has been added.
  unfoldable pub held : List Bytes → List (List Bytes × A) → Option A
  held q [] = none
  held q ((ks, x) ∷ log) = if keys_eq ks q then some x else held q log

  -- What adding should do to that list.
  unfoldable pub log_keys :
      List Bytes → A → List (List Bytes × A) → Option AddError × List (List Bytes × A)
  log_keys ks x log =
      if has_empty ks
      then (some duplicated_slash, log)
      else if is_some (held ks log)
      then (some duplicated_item, log)
      else (none, (ks, x) ∷ log)

  unfoldable pub log_add :
      Bytes → Option A → List (List Bytes × A) → Option AddError × List (List Bytes × A)
  log_add [] item log = (some not_from_root, log)
  log_add (c ∷ route) none log = (some (if c == slash then empty_item else not_from_root), log)
  log_add (c ∷ route) (some x) log =
      if c == slash then log_keys (keys_of (split route)) x log else (some not_from_root, log)

  -- Calls of `Add` with these routes and items: the errors and the tree, or the list.
  unfoldable pub add_all : List (Bytes × Option A) → Node A → List (Option AddError) × Node A
  add_all [] root = ([], root)
  add_all ((route, item) ∷ calls) root =
      let (err, root') = add_route root route item in
      let (errs, last) = add_all calls root' in (err ∷ errs, last)

  unfoldable pub log_all :
      List (Bytes × Option A)
      → List (List Bytes × A)
      → List (Option AddError) × List (List Bytes × A)
  log_all [] log = ([], log)
  log_all ((route, item) ∷ calls) log =
      let (err, log') = log_add route item log in
      let (errs, last) = log_all calls log' in (err ∷ errs, last)

  -- The tree holds what the list holds.
  abbrev Same : Node A → List (List Bytes × A) → Type ℓ
  Same n log = (q : List Bytes) → item_at q n ≡ held q log

  log_add-Same :
      (root : Node A) (log : List (List Bytes × A)) (route : Bytes) (item : Option A)
      → Same root log
      → ((add_route root route item).0 ≡ (log_add route item log).0)
        × Same (add_route root route item).1 (log_add route item log).1
  unfolding log_add log_keys route_error held
  log_add-Same root log [] item same =
      ((add_route-item_at root [] item).0, λ q. (add_route-item_at root [] item).1 q ∙ same q)
  log_add-Same root log (c ∷ route) none same = (
    (add_route-item_at root (c ∷ route) none).0,
    λ q. (add_route-item_at root (c ∷ route) none).1 q ∙ same q,
  )
  log_add-Same root log (c ∷ route) (some x) same =
      let added = add_route-item_at root (c ∷ route) (some x) in
      (
        added.0 ∙ ground (arith, same (keys_of (split route))),
        λ q. added.1 q ∙ ground (arith, same (keys_of (split route)), same q),
      )

  -- Calls of `Add` on a tree, and the list that says what they should do: the same errors, the same
  -- items, and a tree that `Search` can search.
  add_all-Same :
      (calls : List (Bytes × Option A)) (root : Node A) (log : List (List Bytes × A))
      → Same root log
      → well_formed root ≡ true
      → ((add_all calls root).0 ≡ (log_all calls log).0)
        × (Same (add_all calls root).1 (log_all calls log).1
            × (well_formed (add_all calls root).1 ≡ true))
  unfolding add_all log_all
  add_all-Same [] root log same h = (refl, (same, h))
  add_all-Same ((route, item) ∷ calls) root log same h =
      let (err, same') = log_add-Same root log route item same in
      let (errs, (last, h')) =
        add_all-Same calls (add_route root route item).1 (log_add route item log).1 same'
          (add_route-well_formed root route item h) in
      (rw (err, errs) refl, (last, h'))

  -- What a search should find in the list of what has been added: the item of some keys that match, with
  -- the parameters of the match, or nothing if no keys match.
  abbrev pub Found : List Bytes → List (List Bytes × A) → Option (A × Params) → Type ℓ
  Found ts log none = (ks : List Bytes) → (if accepts ks ts then held ks log else none) ≡ none
  Found ts log (some (x, params)) =
      (ks : List Bytes) × ((held ks log ≡ some x)
        × ((accepts ks ts ≡ true) × (params ≡ params_of ks ts)))

  Answer-Found :
      (ts : List Bytes) (n : Node A) (log : List (List Bytes × A)) (o : Option (A × Params))
      → Same n log
      → Answer ts n o
      → Found ts log o
  Answer-Found ts n log none same answer = λ ks. ground (arith, same ks, answer ks)
  Answer-Found ts n log (some (x, params)) same (ks, (here, right)) =
      (ks, (sym (same ks) ∙ here, right))

  -- Any calls of `Add` on a new tree return the errors of the list of what has been added, which
  -- keeps the first item of each list of keys and refuses what is not a route. A search with a path
  -- that begins with a slash then does not panic: it finds the item of a route on the list that
  -- matches the path, with the parameters of the match, and it finds nothing only if no route on the
  -- list matches.
  pub search_route-add_all :
      (calls : List (Bytes × Option A)) (path : Bytes)
      → ((add_all calls (new_node none)).0 ≡ (log_all calls []).0)
        × ((o : Option (A × Params)) × ((search_route
                  (add_all calls (new_node none)).1
                  (slash ∷ path)
                ≡ returns o)
              × Found (split path) (log_all calls []).1 o))
  unfolding held well_formed
  search_route-add_all calls path =
      let (errs, (same, h)) =
        add_all-Same calls (new_node none) [] (λ q. item_at-new_node q) refl in
      let (o, (ran, answer)) = search_route-Answer (add_all calls (new_node none)).1 path h in
      (errs, (o, (ran, Answer-Found (split path) _ _ o same answer)))
