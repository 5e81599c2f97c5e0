-- ===== src/Rest/Router/Serving.antt =====
-- What `ServeHTTP` of rest/router/patrouter.go does, on every branch.
use go_zero_update.Common.{
  ◌≡◌, refl, ◌⊎◌, inl, inr, Bool, true, false, ◌||◌, List, [], ◌∷◌, ◌++◌, Option, none, some,
  if◌then◌else◌, returns, arith, Bool-cases,
}
use go_zero_update.Common.Maps.{is_some, lookup, Distinct}
use go_zero_update.Common.Texts.{has_prefix}
use go_zero_update.Search.Tree.{
  Bytes, slash, bytes, bytes_eq, bytes_eq_iff, Node, Params, search_route,
}
use go_zero_update.Search.Tree.Segments.{split, accepts, params_of}
use go_zero_update.Search.Tree.Keys.{item_at}
use go_zero_update.Search.Tree.Invariant.{well_formed}
use go_zero_update.Search.Tree.Finding.{Answer, search_route-Answer}
use go_zero_update.Rest.Router.{wildcard_of, or_new, tree_methods}

unfoldable pub mem : Bytes → List Bytes → Bool
mem m [] = false
mem m (n ∷ ns) = bytes_eq n m || mem m ns

pub mem-append : (m : Bytes) (a b : List Bytes) → mem m (a ++ b) ≡ (mem m a || mem m b)
unfolding mem
mem-append m [] b = refl
mem-append m (n ∷ a) b = ground (arith, mem-append m a b)

module _ {ℓ} {H : Type ℓ} where
  -- The trees of the router have the shape that `Add` keeps, one for each method.
  abbrev pub FormedTrees : List (Bytes × Node H) → Type 0
  FormedTrees [] = Unit
  FormedTrees ((m, tree) ∷ trees) = (well_formed tree ≡ true) × FormedTrees trees

  -- The handler of a route of a method.
  unfoldable pub route_in : List (Bytes × Node H) → Bytes → List Bytes → Option H
  route_in trees m ks = elim (lookup bytes m trees) [ none ↦ none | some tree ↦ item_at ks tree ]

  -- The handler of a wildcard route of a method, which may be nil.
  unfoldable pub wildcard_in :
      List (Bytes × List (Bytes × Option H)) → Bytes → Bytes → Option (Option H)
  wildcard_in routes m route = lookup bytes route (or_new [] (lookup bytes m routes))

  abbrev pub HasRoute : List (Bytes × Node H) → List Bytes → Bytes → Type ℓ
  HasRoute trees ts m =
      (ks : List Bytes) × ((x : H) × ((route_in trees m ks ≡ some x) × (accepts ks ts ≡ true)))

  abbrev pub NoRoute : List (Bytes × Node H) → List Bytes → Bytes → Type ℓ
  NoRoute trees ts m =
      (ks : List Bytes) → (if accepts ks ts then route_in trees m ks else none) ≡ none

  abbrev pub HasWildcard : List (Bytes × List (Bytes × Option H)) → Bytes → Bytes → Type ℓ
  HasWildcard routes path m =
      (route : Bytes) × ((h : Option H) × ((wildcard_in routes m route ≡ some h)
          × (has_prefix (wildcard_of route).0 path ≡ true)))

  abbrev pub NoWildcard : List (Bytes × List (Bytes × Option H)) → Bytes → Bytes → Type ℓ
  NoWildcard routes path m =
      (route : Bytes)
      → (if has_prefix (wildcard_of route).0 path then wildcard_in routes m route else none) ≡ none

  -- What a search found in the trees, for a method and a path.
  abbrev pub Found : List (Bytes × Node H) → Bytes → Bytes → Option (H × Params) → Type ℓ
  Found trees p m none = NoRoute trees (split p) m
  Found trees p m (some (x, params)) =
      (ks : List Bytes) × ((route_in trees m ks ≡ some x)
        × ((accepts ks (split p) ≡ true) × (params ≡ params_of ks (split p))))

  pub search_route-Found :
      (trees : List (Bytes × Node H)) (p m : Bytes) (tree : Node H)
      → well_formed tree ≡ true
      → lookup bytes m trees ≡ some tree
      → (o : Option (H × Params)) × ((search_route tree (slash ∷ p) ≡ returns o)
          × Found trees p m o)
  unfolding route_in
  search_route-Found trees p m tree h e =
      let (o, (ran, answer)) = search_route-Answer tree p h in (o, (ran, at o answer))
    where
      at : (o : Option (H × Params)) → Answer (split p) tree o → Found trees p m o
      at none answer = λ ks. rw (route_in, e) (answer ks)
      at (some (x, params)) (ks, (held, right)) = (ks, (rw (route_in, e) held, right))

  -- Whether a method is listed says whether a tree of another method has a route for the path.
  abbrev pub TreeSays : List (Bytes × Node H) → Bytes → Bytes → Bool → Bytes → Type ℓ
  TreeSays trees method p true m = (bytes_eq m method ≡ false) × HasRoute trees (split p) m
  TreeSays trees method p false m = (bytes_eq m method ≡ true) ⊎ NoRoute trees (split p) m

  TreeSays-cons :
      (trees : List (Bytes × Node H)) (method p m : Bytes) (tree : Node H) (n : Bytes) (b : Bool)
      → bytes_eq m n ≡ false
      → TreeSays trees method p b n
      → TreeSays ((m, tree) ∷ trees) method p b n
  unfolding route_in lookup
  TreeSays-cons trees method p m tree n true e (other, (ks, (x, (held, fits)))) =
      (other, (ks, (x, (rw (route_in, lookup, e) held, fits))))
  TreeSays-cons trees method p m tree n false e (inl same) = inl same
  TreeSays-cons trees method p m tree n false e (inr nothing) =
      inr (λ ks. rw (route_in, lookup, e) (nothing ks))

  -- The method of the first tree is not listed for the trees behind it.
  TreeSays-absent :
      (trees : List (Bytes × Node H)) (method p n : Bytes) (b : Bool)
      → lookup bytes n trees ≡ none
      → TreeSays trees method p b n
      → b ≡ false
  unfolding route_in
  TreeSays-absent trees method p n true absent (other, (ks, (x, (held, fits)))) =
      ground (arith, absent)
  TreeSays-absent trees method p n false absent says = refl

  TreeSays-Found :
      (trees : List (Bytes × Node H)) (method p m : Bytes) (found : Option (H × Params)) (n : Bytes)
      → bytes_eq m method ≡ false
      → m ≡ n
      → Found trees p m found
      → TreeSays trees method p (is_some found) n
  TreeSays-Found trees method p m none n other e nothing = inr (λ ks. rw (← e) (nothing ks))
  TreeSays-Found trees method p m (some (x, params)) n other e (ks, (held, (fits, same))) =
      (rw (← e) other, (ks, (x, (rw (← e) held, fits))))

  pub tree_methods-TreeSays :
      (trees : List (Bytes × Node H)) (method p : Bytes)
      → FormedTrees trees
      → Distinct bytes trees
      → (ms : List Bytes) × ((tree_methods method (slash ∷ p) trees ≡ returns ms)
          × ((m : Bytes) → TreeSays trees method p (mem m ms) m))
  unfolding tree_methods mem route_in lookup
  tree_methods-TreeSays [] method p h d = ([], (refl, λ m. inr (λ ks. ground arith)))
  tree_methods-TreeSays ((m, tree) ∷ trees) method p h d =
      let (ms, (ran, says)) = tree_methods-TreeSays trees method p (h.1) (d.1) in
      elim (Bool-cases (bytes_eq m method)) [
        | inl e ↦ (ms, (rw e ran, λ n. skipped ms says e n (Bool-cases (bytes_eq m n))))
        | inr e ↦
            let here : lookup bytes m ((m, tree) ∷ trees) ≡ some tree =
              ground (arith, bytes_eq_iff m m) in
            let (found, (ran', answer)) =
              search_route-Found ((m, tree) ∷ trees) p m tree (h.0) here in
            (
              if is_some found then m ∷ ms else ms,
              (
                rw (e, ran', ran) refl,
                λ n. listed ms says e found answer n (Bool-cases (bytes_eq m n)),
              ),
            )
      ]
    where
      skipped :
          (ms : List Bytes)
          → ((n : Bytes) → TreeSays trees method p (mem n ms) n)
          → bytes_eq m method ≡ true
          → (n : Bytes) → (bytes_eq m n ≡ true) ⊎ (bytes_eq m n ≡ false)
          → TreeSays ((m, tree) ∷ trees) method p (mem n ms) n
      skipped ms says e n (inr other) =
          TreeSays-cons trees method p m tree n (mem n ms) other (says n)
      skipped ms says e n (inl same) =
          let is : m ≡ n = (bytes_eq_iff m n).0 same in
          let absent : lookup bytes n trees ≡ none = rw (← is) (d.0) in
          rw (TreeSays-absent trees method p n (mem n ms) absent (says n)) (inl (rw (← is) e))

      listed :
          (ms : List Bytes)
          → ((n : Bytes) → TreeSays trees method p (mem n ms) n)
          → bytes_eq m method ≡ false
          → (found : Option (H × Params)) → Found ((m, tree) ∷ trees) p m found
          → (n : Bytes) → (bytes_eq m n ≡ true) ⊎ (bytes_eq m n ≡ false)
          → TreeSays ((m, tree) ∷ trees) method p (mem n (if is_some found then m ∷ ms else ms)) n
      listed ms says e none answer n (inr other) =
          TreeSays-cons trees method p m tree n (mem n ms) other (says n)
      listed ms says e (some found) answer n (inr other) =
          rw other (TreeSays-cons trees method p m tree n (mem n ms) other (says n))
      listed ms says e none answer n (inl same) =
          let is : m ≡ n = (bytes_eq_iff m n).0 same in
          let absent : lookup bytes n trees ≡ none = rw (← is) (d.0) in
          rw (TreeSays-absent trees method p n (mem n ms) absent (says n))
            (TreeSays-Found ((m, tree) ∷ trees) method p m none n e is answer)
      listed ms says e (some found) answer n (inl same) =
          let is : m ≡ n = (bytes_eq_iff m n).0 same in
          rw same (TreeSays-Found ((m, tree) ∷ trees) method p m (some found) n e is answer)
