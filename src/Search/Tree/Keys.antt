-- ===== src/Search/Tree/Keys.antt =====
-- What a tree of core/search/tree.go holds: the item at each list of keys.
use go_zero_update.Common.{◌≡◌, refl, ap, List, [], ◌∷◌, if◌then◌else◌, arith, Option, none, some}
use go_zero_update.Search.Tree.Segments.{keys_eq}
use go_zero_update.Search.Tree.{
  Bytes, colon, starts, bytes_eq, bytes_eq_iff, Node, node, Children, nil, child, item_of, new_node,
  lookup_child, store_child, get_children, set_child, set_item, child_or_new,
}

abbrev pub rest : List Bytes → List Bytes
rest [] = []
rest (k ∷ ks) = ks

-- `a` if the list begins with the key `k`, and `b` if not.
abbrev pub below_or_other {ℓ} : {B : Type ℓ} → Bytes → B → B → List Bytes → B
below_or_other k a b [] = b
below_or_other k a b (j ∷ q) = if bytes_eq k j then a else b

module _ {ℓ} {A : Type ℓ} where
  unfoldable pub item_at : List Bytes → Node A → Option A
  item_at [] n = item_of n
  item_at (k ∷ ks) n = elim (lookup_child k (get_children n k)) [
    | none ↦ none
    | some c ↦ item_at ks c
  ]

  pub lookup_child-store_child :
      (k j : Bytes) (n : Node A) (cs : Children A)
      → lookup_child j (store_child k n cs) ≡ (if bytes_eq k j then some n else lookup_child j cs)
  unfolding lookup_child store_child
  lookup_child-store_child k j n nil = refl
  lookup_child-store_child k j n (child i m cs) = ground (
    arith,
    bytes_eq_iff k j,
    bytes_eq_iff i k,
    bytes_eq_iff i j,
    lookup_child-store_child k j n cs,
  )

  -- A write to the child of one key.
  pub lookup_child-set_child :
      (n : Node A) (k j : Bytes) (c : Node A)
      → lookup_child j (get_children (set_child n k c) j)
        ≡ (if bytes_eq k j then some c else lookup_child j (get_children n j))
  unfolding get_children set_child
  lookup_child-set_child (node item statics params) k j c = ground (
    arith,
    bytes_eq_iff k j,
    ap (starts colon),
    lookup_child-store_child k j c statics,
    lookup_child-store_child k j c params,
  )

  item_of-set_child : (n : Node A) (k : Bytes) (c : Node A) → item_of (set_child n k c) ≡ item_of n
  unfolding set_child
  item_of-set_child (node item statics params) k c = ground arith

  pub item_at-set_child :
      (n : Node A) (k : Bytes) (c : Node A) (q : List Bytes)
      → item_at q (set_child n k c) ≡ below_or_other k (item_at (rest q) c) (item_at q n) q
  unfolding item_at
  item_at-set_child n k c [] = item_of-set_child n k c
  item_at-set_child n k c (j ∷ q) = ground (arith, lookup_child-set_child n k j c)

  -- A new node holds nothing.
  pub item_at-new_node : (q : List Bytes) → ◌≡◌ {A = Option A} (item_at q (new_node none)) none
  unfolding item_at get_children lookup_child
  item_at-new_node [] = refl
  item_at-new_node (k ∷ q) = ground arith

  below-child_or_new :
      (o : Option (Node A)) (q : List Bytes)
      → item_at q (child_or_new o) ≡ (elim o [ none ↦ none | some c ↦ item_at q c ])
  below-child_or_new none q = item_at-new_node q
  below-child_or_new (some c) q = refl

  pub item_at-child_or_new :
      (n : Node A) (k : Bytes) (q : List Bytes)
      → item_at q (child_or_new (lookup_child k (get_children n k))) ≡ item_at (k ∷ q) n
  unfolding item_at
  item_at-child_or_new n k q = below-child_or_new (lookup_child k (get_children n k)) q

  pub item_at-set_item :
      (n : Node A) (x : A) (q : List Bytes)
      → item_at q (set_item n x) ≡ (if keys_eq [] q then some x else item_at q n)
  unfolding item_at keys_eq get_children
  item_at-set_item (node item statics params) x [] = refl
  item_at-set_item (node item statics params) x (k ∷ q) = ground arith
