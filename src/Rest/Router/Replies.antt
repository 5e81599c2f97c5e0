-- ===== src/Rest/Router/Replies.antt =====
-- `ServeHTTP` of rest/router/patrouter.go against the routes that the router holds.
use go_zero_update.Common.{
  ◌≡◌, refl, ◌⊎◌, inl, inr, Bool, true, false, ◌||◌, List, [], ◌∷◌, ◌++◌, Option, none, some,
  if◌then◌else◌, Outcome, returns, arith, Bool-cases, Option-cases,
}
use go_zero_update.Common.Maps.{lookup, Distinct}
use go_zero_update.Common.Texts.{has_prefix, trim_prefix}
use go_zero_update.Search.Tree.{Bytes, slash, bytes, bytes_eq, is_nil, Node, Params}
use go_zero_update.Search.Tree.Segments.{split, accepts, params_of}
use go_zero_update.Search.Tree.Invariant.{well_formed}
use go_zero_update.Rest.Router.{
  PatRouter, Reply, handled, wildcard_of, or_new, wildcard_methods, methods_allowed,
  reply_not_found, reply_not_allowed, search_method, serve_wildcard, refuse, call, serve_clean,
}
use go_zero_update.Rest.Router.Serving.{
  mem, mem-append, FormedTrees, route_in, wildcard_in, HasRoute, NoRoute, HasWildcard, NoWildcard,
  Found, search_route-Found, TreeSays, tree_methods-TreeSays,
}
use go_zero_update.Rest.Router.Wildcards.{
  DistinctRoutes, Matched, match_wildcards-Matched, WildcardSays, wildcard_methods-WildcardSays,
}

module _ {ℓ} {H : Type ℓ} where
  pub record IsValid (r : PatRouter H) : Type ℓ where
    pub formed : FormedTrees r.trees
    pub trees_distinct : Distinct bytes r.trees
    pub tables_distinct : Distinct bytes r.wildcard_routes
    pub routes_distinct : DistinctRoutes r.wildcard_routes

  -- Whether a method is in the list of the methods allowed says whether it is another one that has a
  -- route for the path.
  abbrev pub Explains : PatRouter H → Bytes → Bytes → Bool → Bytes → Type ℓ
  Explains r method p true m =
      (bytes_eq m method ≡ false)
      × (HasRoute r.trees (split p) m ⊎ HasWildcard r.wildcard_routes (slash ∷ p) m)
  Explains r method p false m =
      (bytes_eq m method ≡ true)
      ⊎ (NoRoute r.trees (split p) m × NoWildcard r.wildcard_routes (slash ∷ p) m)

  -- A right answer to a request for the path `/p`.
  pub data Right (r : PatRouter H) (method p : Bytes) (o : Outcome (Reply H)) : Type ℓ where
    by_route :
        (ks : List Bytes) (x : H)
        → route_in r.trees method ks ≡ some x
        → accepts ks (split p) ≡ true
        → o
          ≡ returns (
              handled x
                (if is_nil (params_of ks (split p)) then none else some (params_of ks (split p))))
        → Right r method p o
    by_wildcard :
        NoRoute r.trees (split p) method
        → (route : Bytes) (h : Option H) → wildcard_in r.wildcard_routes method route ≡ some h
        → has_prefix (wildcard_of route).0 (slash ∷ p) ≡ true
        → o ≡ call h ((wildcard_of route).1, trim_prefix (wildcard_of route).0 (slash ∷ p))
        → Right r method p o
    refused :
        NoRoute r.trees (split p) method
        → NoWildcard r.wildcard_routes (slash ∷ p) method
        → (ms : List Bytes) → ((m : Bytes) → Explains r method p (mem m ms) m)
        → o
          ≡ returns (
              if is_nil ms then reply_not_found r.not_found else reply_not_allowed r.not_allowed ms)
        → Right r method p o

  pub lookup-FormedTrees :
      (m : Bytes) (trees : List (Bytes × Node H)) (tree : Node H)
      → FormedTrees trees
      → lookup bytes m trees ≡ some tree
      → well_formed tree ≡ true
  unfolding lookup
  lookup-FormedTrees m [] tree h e = cc
  lookup-FormedTrees m ((n, t) ∷ trees) tree h e = ground (arith, lookup-FormedTrees m trees tree)

  pub lookup-DistinctRoutes :
      (m : Bytes) (table : List (Bytes × List (Bytes × Option H)))
      → DistinctRoutes table
      → Distinct bytes (or_new [] (lookup bytes m table))
  unfolding lookup
  lookup-DistinctRoutes m [] h = tt
  lookup-DistinctRoutes m ((n, routes) ∷ table) h = elim (Bool-cases (bytes_eq n m)) [
    | inl e ↦ rw e (h.0)
    | inr e ↦ rw e (lookup-DistinctRoutes m table (h.1))
  ]

  search_method-Found :
      (r : PatRouter H) (method p : Bytes)
      → IsValid r
      → (found : Option (H × Params)) × ((search_method r method (slash ∷ p) ≡ returns found)
          × Found r.trees p method found)
  unfolding search_method route_in
  search_method-Found r method p v = elim (Option-cases (lookup bytes method r.trees)) [
    | inl e ↦ (none, (rw (search_method, e) refl, λ ks. rw (route_in, e) (ground arith)))
    | inr (tree, e) ↦
        let (found, (ran, answer)) =
          search_route-Found r.trees p method tree
            (lookup-FormedTrees method r.trees tree (v.formed) e) e in
        (found, (rw (search_method, e) ran, answer))
  ]

  Explains-both :
      (r : PatRouter H) (method p m : Bytes) (a b : Bool)
      → TreeSays r.trees method p a m
      → WildcardSays r.wildcard_routes method (slash ∷ p) b m
      → Explains r method p (a || b) m
  Explains-both r method p m true b (other, has) says = (other, inl has)
  Explains-both r method p m false true trees (other, has) = (other, inr has)
  Explains-both r method p m false false (inl same) says = inl same
  Explains-both r method p m false false (inr nothing) (inl same) = inl same
  Explains-both r method p m false false (inr nothing) (inr nowhere) = inr (nothing, nowhere)

  refuse-Right :
      (r : PatRouter H) (method p : Bytes)
      → IsValid r
      → NoRoute r.trees (split p) method
      → NoWildcard r.wildcard_routes (slash ∷ p) method
      → Right r method p (refuse r method (slash ∷ p))
  unfolding refuse methods_allowed
  refuse-Right r method p v nothing nowhere =
      let (ms, (ran, trees)) =
        tree_methods-TreeSays r.trees method p (v.formed) (v.trees_distinct) in
      let ws = wildcard_methods method (slash ∷ p) r.wildcard_routes in
      refused nothing nowhere (ms ++ ws)
        (λ m. rw (mem-append m ms ws) (
          Explains-both r method p m (mem m ms) (mem m ws) (trees m) (
            wildcard_methods-WildcardSays r.wildcard_routes method (slash ∷ p) (v.routes_distinct)
              (v.tables_distinct) m)))
        (rw ran refl)

  serve_wildcard-Matched :
      (r : PatRouter H) (method path : Bytes)
      → IsValid r
      → Matched
          (or_new [] (lookup bytes method r.wildcard_routes))
          path
          (serve_wildcard r method path)
  unfolding serve_wildcard
  serve_wildcard-Matched r method path v =
      match_wildcards-Matched path (or_new [] (lookup bytes method r.wildcard_routes))
        (lookup-DistinctRoutes method r.wildcard_routes (v.routes_distinct))

  -- `ServeHTTP` on a router of valid trees and tables, for a path that begins with a slash, does what
  -- it should on every branch. A route of the method that matches the path comes first, with the
  -- parameters of the match. If there is none, a wildcard route of the method whose prefix fits is
  -- taken, with the rest of the path as its variable; only a nil handler of it panics. If there is
  -- none either, the request is refused: the list of the methods allowed has exactly the other
  -- methods with a route or a wildcard route for the path, and an empty list means not found.
  pub serve_clean-Right :
      (r : PatRouter H) (method p : Bytes)
      → IsValid r
      → Right r method p (serve_clean r method (slash ∷ p))
  unfolding serve_clean wildcard_in
  serve_clean-Right r method p v =
      let (found, (ran, answer)) = search_method-Found r method p v in
      rw ran (by_found found answer)
    where
      by_wildcards :
          NoRoute r.trees (split p) method
          → (o : Option (Option H × (Bytes × Bytes)))
          → Matched (or_new [] (lookup bytes method r.wildcard_routes)) (slash ∷ p) o
          → Right r method p (elim o [
            | some (handler, var) ↦ call handler var
            | none ↦ refuse r method (slash ∷ p)
          ])
      by_wildcards nothing none nowhere = refuse-Right r method p v nothing (λ route. nowhere route)
      by_wildcards nothing (some (h, (name, value))) (route, (held, (fits, (e, e')))) =
          by_wildcard nothing route h held fits (rw (e, e') refl)

      by_found :
          (found : Option (H × Params))
          → Found r.trees p method found
          → Right r method p (elim found [
            | some (h, params) ↦ returns (handled h (if is_nil params then none else some params))
            | none ↦ elim (serve_wildcard r method (slash ∷ p)) [
              | some (handler, var) ↦ call handler var
              | none ↦ refuse r method (slash ∷ p)
            ]
          ])
      by_found none nothing =
          by_wildcards nothing (serve_wildcard r method (slash ∷ p))
            (serve_wildcard-Matched r method (slash ∷ p) v)
      by_found (some (x, params)) (ks, (held, (fits, same))) =
          by_route ks x held fits (rw same refl)
