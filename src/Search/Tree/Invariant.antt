-- ===== src/Search/Tree/Invariant.antt =====
-- The shape of the trees that `Add` of core/search/tree.go builds: no key is empty, the keys of a map
-- differ, and those with a colon are in the map of the parameters.
use go_zero_update.Common.{
  ◌≡◌, refl, sym, ◌∙◌, Bool, true, false, ◌&&◌, not, List, [], ◌∷◌, ◌++◌, ◌==◌, if◌then◌else◌,
  arith, Option, none, some, inl, inr, Bool-cases,
}
use go_zero_update.Common.Maps.{is_some}
use go_zero_update.Search.Tree.{
  Bytes, slash, colon, starts, is_nil, bytes_eq_iff, Node, node, Children, nil, child, AddError,
  lookup_child, store_child, get_children, set_child, set_item, child_or_new, enter_add, add_leaf,
  add_below, add_from, add, add_route,
}
use go_zero_update.Search.Tree.Segments.{split_from, split_from-first, split_from-next}
use go_zero_update.Search.Tree.Keys.{lookup_child-store_child}
use go_zero_update.Search.Tree.Adding.{first-slash, keys_of-last, leaf_of, add_leaf-child}

unfoldable mutual
  pub well_formed {ℓ} : {A : Type ℓ} → Node A → Bool
  well_formed (node item statics params) = well_keyed false statics && well_keyed true params

  pub well_keyed {ℓ} : {A : Type ℓ} → Bool → Children A → Bool
  well_keyed b nil = true
  well_keyed b (child k n cs) =
      not (is_nil k)
      && (if starts colon k then b else not b)
      && not (is_some (lookup_child k cs))
      && well_formed n
      && well_keyed b cs

module _ {ℓ} {A : Type ℓ} where
  pub lookup_child-well_formed :
      (b : Bool) (k : Bytes) (cs : Children A) (c : Node A)
      → well_keyed b cs ≡ true
      → lookup_child k cs ≡ some c
      → (is_nil k ≡ false) × ((starts colon k ≡ b) × (well_formed c ≡ true))
  unfolding well_keyed lookup_child
  lookup_child-well_formed b k nil c h e = (cc, (cc, cc))
  lookup_child-well_formed b k (child j m cs) c h e =
      ground (arith, lookup_child-well_formed b k cs c, bytes_eq_iff j k)

  store_child-well_keyed :
      (b : Bool) (k : Bytes) (n : Node A) (cs : Children A)
      → well_keyed b cs ≡ true
      → is_nil k ≡ false
      → starts colon k ≡ b
      → well_formed n ≡ true
      → well_keyed b (store_child k n cs) ≡ true
  unfolding well_keyed store_child lookup_child
  store_child-well_keyed b k n nil h f s g = ground arith
  store_child-well_keyed b k n (child j m cs) h f s g = ground (
    arith,
    store_child-well_keyed b k n cs,
    bytes_eq_iff j k,
    bytes_eq_iff k j,
    lookup_child-store_child k j n cs,
  )

  set_child-well_formed :
      (n : Node A) (k : Bytes) (c : Node A)
      → well_formed n ≡ true
      → is_nil k ≡ false
      → well_formed c ≡ true
      → well_formed (set_child n k c) ≡ true
  unfolding well_formed set_child
  set_child-well_formed (node item statics params) k c h f g =
      ground
        (arith, store_child-well_keyed false k c statics, store_child-well_keyed true k c params)

  set_item-well_formed :
      (n : Node A) (x : A) → well_formed n ≡ true → well_formed (set_item n x) ≡ true
  unfolding well_formed
  set_item-well_formed (node item statics params) x h = h

  pub lookup_child-children :
      (n : Node A) (k : Bytes) (c : Node A)
      → well_formed n ≡ true
      → lookup_child k (get_children n k) ≡ some c
      → (is_nil k ≡ false) × (well_formed c ≡ true)
  unfolding well_formed get_children
  lookup_child-children (node item statics params) k c h e =
      ground (
        arith,
        lookup_child-well_formed false k statics c,
        lookup_child-well_formed true k params c,
      )

  child_or_new-well_formed :
      (n : Node A) (k : Bytes)
      → well_formed n ≡ true
      → well_formed (child_or_new (lookup_child k (get_children n k))) ≡ true
  unfolding well_formed
  child_or_new-well_formed n k h = by_child (lookup_child k (get_children n k)) refl
    where
      by_child :
          (o : Option (Node A))
          → lookup_child k (get_children n k) ≡ o
          → well_formed (child_or_new o) ≡ true
      by_child none e = refl
      by_child (some c) e = (lookup_child-children n k c h e).1

  add_leaf-well_formed :
      (token : Bytes) (x : A) (n : Node A)
      → is_nil token ≡ false
      → well_formed n ≡ true
      → well_formed (add_leaf token x n).1 ≡ true
  unfolding leaf_of
  add_leaf-well_formed token x n f h = rw (add_leaf-child token x n) (
      ground (
        arith,
        set_child-well_formed n token
            (set_item (child_or_new (lookup_child token (get_children n token))) x),
        set_item-well_formed (child_or_new (lookup_child token (get_children n token))) x,
        child_or_new-well_formed n token,
      ))

  add_below-well_formed :
      (token : Bytes) (n : Node A) (go : Node A → Option AddError × Node A)
      → is_nil token ≡ false
      → well_formed n ≡ true
      → ((c : Node A) → well_formed c ≡ true → well_formed (go c).1 ≡ true)
      → well_formed (add_below token go n).1 ≡ true
  unfolding add_below
  add_below-well_formed token n go f h below =
      let c = child_or_new (lookup_child token (get_children n token)) in
      set_child-well_formed n token (go c).1 h f (below c (child_or_new-well_formed n token h))

  enter_add-well_formed :
      (route : Bytes) (x : A) (n : Node A)
      → well_formed n ≡ true
      → ((m : Node A) (t : Bytes) (ts : List Bytes)
          → split_from route [] ≡ t ∷ ts
          → is_nil t ≡ false
          → well_formed m ≡ true
          → well_formed (add_from route [] x m).1 ≡ true)
      → well_formed (enter_add route (add_from route [] x) x n).1 ≡ true
  unfolding enter_add
  enter_add-well_formed [] x n h below = ground (arith, set_item-well_formed n x)
  enter_add-well_formed (c ∷ route) x n h below = elim (Bool-cases (c == slash)) [
    | inl e ↦ rw e h
    | inr e ↦
        let (t, (ts, (cut, f))) = split_from-first route (c ∷ []) refl in
        rw e (below n t ts (split_from-next c route [] e ∙ cut) f h)
  ]

  add_from-well_formed :
      (route token : Bytes) (x : A) (n : Node A) (t : Bytes) (ts : List Bytes)
      → split_from route token ≡ t ∷ ts
      → is_nil t ≡ false
      → well_formed n ≡ true
      → well_formed (add_from route token x n).1 ≡ true
  unfolding add_from
  add_from-well_formed [] token x n t ts e f h =
      add_leaf-well_formed token x n (keys_of-last token t ts e f).1 h
  add_from-well_formed (c ∷ route) token x n t ts e f h = elim (Bool-cases (c == slash)) [
    | inl s ↦ rw s (
        add_below-well_formed token n (enter_add route (add_from route [] x) x)
          (first-slash c route token t ts s e f) h
          (λ m g.
            enter_add-well_formed route x m g
              (λ m' u us cut full w. add_from-well_formed route [] x m' u us cut full w)))
    | inr s ↦ rw s (
        add_from-well_formed route (token ++ c ∷ []) x n t ts
          (sym (split_from-next c route token s) ∙ e) f h)
  ]

  -- `Tree.Add` keeps the shape of a tree, also when it returns an error: no key is empty, the keys of
  -- a map differ, and the keys with a colon are those in the map of the parameters.
  pub add_route-well_formed :
      (root : Node A) (route : Bytes) (item : Option A)
      → well_formed root ≡ true
      → well_formed (add_route root route item).1 ≡ true
  unfolding add_route add
  add_route-well_formed root [] item h = h
  add_route-well_formed root (c ∷ route) none h = h
  add_route-well_formed root (c ∷ route) (some x) h = elim (Bool-cases (c == slash)) [
    | inl e ↦ rw e (
        enter_add-well_formed route x root h
          (λ m t ts cut f g. add_from-well_formed route [] x m t ts cut f g))
    | inr e ↦ rw e h
  ]
