-- ===== src/Search/Tree/Adding.antt =====
-- What `Add` of core/search/tree.go does to the items of the tree, on every branch.
use go_zero_update.Common.{
  ℕ, ◌≡◌, refl, sym, ap, ◌∙◌, true, false, ◌&&◌, not, List, [], ◌∷◌, ◌++◌, ◌==◌, if◌then◌else◌,
  arith, Option, none, some, inl, inr, Bool-cases,
}
use go_zero_update.Common.Maps.{is_some}
use go_zero_update.Search.Tree.{
  Bytes, slash, is_nil, bytes_eq_iff, Node, AddError, duplicated_item, duplicated_slash, empty_item,
  not_from_root, item_of, new_node, lookup_child, get_children, set_child, set_item, child_or_new,
  enter_add, add_leaf, add_below, add_from, add, add_route,
}
use go_zero_update.Search.Tree.Segments.{
  split_from, split, keys_of, has_empty, keys_eq, split_from-first, split_from-next,
  split_from-slash, keys_of-cons,
}
use go_zero_update.Search.Tree.Keys.{
  item_at, item_at-set_child, item_at-child_or_new, item_at-set_item,
}

abbrev pub rest_of : Bytes → Bytes
rest_of [] = []
rest_of (c ∷ route) = route

keys_of-nil : keys_of (split_from [] []) ≡ []
unfolding keys_of split_from
keys_of-nil = refl

pub keys_of-last :
    (token t : Bytes) (ts : List Bytes)
    → split_from [] token ≡ t ∷ ts
    → is_nil t ≡ false
    → (keys_of (split_from [] token) ≡ token ∷ []) × (is_nil token ≡ false)
unfolding keys_of split_from
keys_of-last token t ts e h = (ground arith, ground arith)

pub first-slash :
    (c : ℕ) (route token t : Bytes) (ts : List Bytes)
    → (c == slash) ≡ true
    → split_from (c ∷ route) token ≡ t ∷ ts
    → is_nil t ≡ false
    → is_nil token ≡ false
first-slash c route token t ts s e h =
    let cut : token ∷ split_from route [] ≡ t ∷ ts = sym (split_from-slash c route token s) ∙ e in
    ground arith

module _ {ℓ} {A : Type ℓ} where
  -- The error that adding at these keys should give.
  abbrev pub add_error : List Bytes → Node A → Option AddError
  add_error ks n =
      if has_empty ks
      then some duplicated_slash
      else if is_some (item_at ks n)
      then some duplicated_item
      else none

  -- `r` is what adding `x` at the keys `ks` to `n` should return: if there is no error the item stands
  -- at the keys, and no other item has changed.
  abbrev Adds : List Bytes → A → Node A → Option AddError × Node A → Type ℓ
  Adds ks x n r =
      (r.0 ≡ add_error ks n)
      × ((q : List Bytes)
          → item_at q r.1 ≡ (if not (is_some r.0) && keys_eq ks q then some x else item_at q n))

  unfoldable pub leaf_of :
      (o : Option (Node A)) (token : Bytes) (x : A) (n : Node A) → Option AddError × Node A
  leaf_of o token x n =
      if is_some (item_of (child_or_new o))
      then (some duplicated_item, n)
      else (none, set_child n token (set_item (child_or_new o) x))

  pub add_leaf-child :
      (token : Bytes) (x : A) (n : Node A)
      → add_leaf token x n ≡ leaf_of (lookup_child token (get_children n token)) token x n
  unfolding add_leaf leaf_of
  add_leaf-child token x n = by_child (lookup_child token (get_children n token))
    where
      by_child :
          (o : Option (Node A))
          → ◌≡◌ {A = Option AddError × Node A}
              (elim o [
                | some c ↦
                    if is_some (item_of c)
                    then (some duplicated_item, n)
                    else (none, set_child n token (set_item c x))
                | none ↦ (none, set_child n token (new_node (some x)))
              ])
              (if is_some (item_of (child_or_new o))
                then (some duplicated_item, n)
                else (none, set_child n token (set_item (child_or_new o) x)))
      by_child none = refl
      by_child (some c) = refl

  item_at-nil : (n : Node A) → item_at [] n ≡ item_of n
  unfolding item_at
  item_at-nil n = refl

  add_leaf-Adds :
      (token : Bytes) (x : A) (n : Node A)
      → is_nil token ≡ false
      → Adds (token ∷ []) x n (add_leaf token x n)
  unfolding leaf_of has_empty keys_eq
  add_leaf-Adds token x n h =
      let c = child_or_new (lookup_child token (get_children n token)) in
      let here : item_of c ≡ item_at (token ∷ []) n =
        sym (item_at-nil c) ∙ item_at-child_or_new n token [] in
      rw (add_leaf-child token x n) (ground (arith, here), λ q. added c here q)
    where
      added :
          (c : Node A)
          → item_of c ≡ item_at (token ∷ []) n
          → (q : List Bytes)
          → item_at q (leaf_of (lookup_child token (get_children n token)) token x n).1 ≡ (
              if not (is_some (leaf_of (lookup_child token (get_children n token)) token x n).0)
                && keys_eq (token ∷ []) q
              then some x
              else item_at q n)
      added c here [] = ground (
        arith,
        item_at-set_child n token
            (set_item (child_or_new (lookup_child token (get_children n token))) x) [],
      )
      added c here (j ∷ q) = ground (
        arith,
        item_at-set_child n token
            (set_item (child_or_new (lookup_child token (get_children n token))) x) (j ∷ q),
        item_at-set_item (child_or_new (lookup_child token (get_children n token))) x q,
        item_at-child_or_new n token q,
        bytes_eq_iff token j,
      )

  add_below-Adds :
      (token : Bytes) (ks : List Bytes) (x : A) (n : Node A)
      (go : Node A → Option AddError × Node A)
      → is_nil token ≡ false
      → ((c : Node A) → Adds ks x c (go c))
      → Adds (token ∷ ks) x n (add_below token go n)
  unfolding add_below has_empty keys_eq
  add_below-Adds token ks x n go h below =
      (ground (arith, (below c).0, item_at-child_or_new n token ks), λ q. added q)
    where
      c : Node A
      c = child_or_new (lookup_child token (get_children n token))

      added :
          (q : List Bytes)
          → item_at q (add_below token go n).1 ≡ (
              if not (is_some (add_below token go n).0) && keys_eq (token ∷ ks) q
              then some x
              else item_at q n)
      added [] = ground (arith, item_at-set_child n token (go c).1 [])
      added (j ∷ q) = ground (
        arith,
        item_at-set_child n token (go c).1 (j ∷ q),
        (below c).1 q,
        item_at-child_or_new n token q,
        bytes_eq_iff token j,
      )

  doubled : (ks : List Bytes) (x : A) (n : Node A) → Adds ([] ∷ ks) x n (some duplicated_slash, n)
  unfolding has_empty
  doubled ks x n = (refl, λ q. refl)

  -- The end of the route, at its node.
  at_end :
      (x : A) (n : Node A)
      → Adds [] x n
          (if is_some (item_of n) then (some duplicated_item, n) else (none, set_item n x))
  unfolding has_empty
  at_end x n = (ground (arith, item_at-nil n), λ q. ground (arith, item_at-set_item n x q))

  enter_add-Adds :
      (route : Bytes) (x : A) (n : Node A)
      → ((m : Node A) (t : Bytes) (ts : List Bytes)
          → split_from route [] ≡ t ∷ ts
          → is_nil t ≡ false
          → Adds (keys_of (split_from route [])) x m (add_from route [] x m))
      → Adds (keys_of (split_from route [])) x n (enter_add route (add_from route [] x) x n)
  unfolding enter_add
  enter_add-Adds [] x n below = rw keys_of-nil (at_end x n)
  enter_add-Adds (c ∷ route) x n below = elim (Bool-cases (c == slash)) [
    | inl e ↦
        rw (e, split_from-slash c route [] e, keys_of-cons [] route [])
          (doubled (keys_of (split_from route [])) x n)
    | inr e ↦
        let (t, (ts, (cut, f))) = split_from-first route (c ∷ []) refl in
        rw e (below n t ts (split_from-next c route [] e ∙ cut) f)
  ]

  add_from-Adds :
      (route token : Bytes) (x : A) (n : Node A) (t : Bytes) (ts : List Bytes)
      → split_from route token ≡ t ∷ ts
      → is_nil t ≡ false
      → Adds (keys_of (split_from route token)) x n (add_from route token x n)
  unfolding add_from
  add_from-Adds [] token x n t ts e h =
      let (last, full) = keys_of-last token t ts e h in rw last (add_leaf-Adds token x n full)
  add_from-Adds (c ∷ route) token x n t ts e h = elim (Bool-cases (c == slash)) [
    | inl s ↦
        rw (s, split_from-slash c route token s, keys_of-cons token route [])
          (add_below-Adds token (keys_of (split_from route [])) x n
            (enter_add route (add_from route [] x) x) (first-slash c route token t ts s e h)
            (λ m. enter_add-Adds route x m (λ m' u us f g. add_from-Adds route [] x m' u us f g)))
    | inr s ↦
        rw (s, split_from-next c route token s)
          (add_from-Adds route (token ++ c ∷ []) x n t ts
            (sym (split_from-next c route token s) ∙ e) h)
  ]

  -- What `Tree.Add` should return on a route, by its first byte and the item.
  unfoldable pub route_error : Bytes → Option A → Node A → Option AddError
  route_error [] item root = some not_from_root
  route_error (c ∷ route) none root = some (if c == slash then empty_item else not_from_root)
  route_error (c ∷ route) (some x) root =
      if c == slash then add_error (keys_of (split route)) root else some not_from_root

  -- `Tree.Add` returns the error that it should, if any. If there is none, the item is found at the
  -- keys of the route from then on. On every branch, errors included, nothing else changes: each
  -- other list of keys holds the item that it held.
  pub add_route-item_at :
      (root : Node A) (route : Bytes) (item : Option A)
      → ((add_route root route item).0 ≡ route_error route item root)
        × ((q : List Bytes)
            → item_at q (add_route root route item).1 ≡ (
                if not (is_some (route_error route item root))
                  && keys_eq (keys_of (split (rest_of route))) q
                then item
                else item_at q root))
  unfolding add_route add route_error split
  add_route-item_at root [] item = (refl, λ q. refl)
  add_route-item_at root (c ∷ route) none = (refl, λ q. refl)
  add_route-item_at root (c ∷ route) (some x) = elim (Bool-cases (c == slash)) [
    | inl e ↦
        let added =
          enter_add-Adds route x root (λ m t ts cut f. add_from-Adds route [] x m t ts cut f) in
        rw e (
          added.0,
          λ q.
              added.1 q
              ∙ ap
                  (λ r.
                    if not (is_some r) && keys_eq (keys_of (split_from route [])) q
                    then some x
                    else item_at q root)
                  added.0,
        )
    | inr e ↦ rw e (refl, λ q. refl)
  ]
