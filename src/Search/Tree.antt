-- ===== src/Search/Tree.antt =====
-- core/search/tree.go: a tree that associates routes with items. A segment that begins with a colon
-- stands for any segment, and is a parameter of the result.
--
-- A text is the list of its bytes. The maps of children are lists in the order in which `forEach`
-- meets them. Every child is a node that `newNode` made, so that the test for a nil child
-- (`errInvalidState`) has no counterpart.
pub mod Segments
pub mod Keys
pub mod Adding
pub mod Invariant
pub mod Finding
pub mod Runs
use go_zero_update.Common.{
  ℕ, zero, suc, ◌≡◌, refl, Bool, true, false, ◌&&◌, List, [], ◌∷◌, ◌++◌, Option, none, some, ◌==◌,
  if◌then◌else◌, Outcome, returns, panics, ◌>>=◌, ◌↔◌, arith,
}
use go_zero_update.Common.Maps.{Eq, is_some, store}
unfoldable pub use go_zero_update.Common.Texts.{bytes_eq}
pub use go_zero_update.Common.Texts.{Bytes, bytes_eq_iff, bytes}

abbrev pub colon : ℕ
colon = b':'

abbrev pub slash : ℕ
slash = b'/'

abbrev pub is_nil {ℓ} : {A : Type ℓ} → List A → Bool
is_nil [] = true
is_nil (x ∷ xs) = false

-- `len(route) > 0 && route[0] == b`.
abbrev pub starts : ℕ → Bytes → Bool
starts b [] = false
starts b (c ∷ cs) = c == b

-- `node`, with the two maps of its children: the static segments, and the parameters.
mutual
  pub data Node {ℓ} (A : Type ℓ) : Type ℓ where
    node : Option A → Children A → Children A → Node A

  pub data Children {ℓ} (A : Type ℓ) : Type ℓ where
    nil : Children A
    child : Bytes → Node A → Children A → Children A

-- `errDupItem`, `errDupSlash`, `errEmptyItem` and `errNotFromRoot`; the first two name the route.
pub data AddError : Type 0 where
  duplicated_item : AddError
  duplicated_slash : AddError
  empty_item : AddError
  not_from_root : AddError

module _ {ℓ} {A : Type ℓ} where
  abbrev pub item_of : Node A → Option A
  item_of (node item statics params) = item

  -- `newNode`.
  abbrev pub new_node : Option A → Node A
  new_node item = node item nil nil

  unfoldable pub lookup_child : Bytes → Children A → Option (Node A)
  lookup_child k nil = none
  lookup_child k (child j n cs) = if bytes_eq j k then some n else lookup_child k cs

  unfoldable pub store_child : Bytes → Node A → Children A → Children A
  store_child k n nil = child k n nil
  store_child k n (child j m cs) =
      if bytes_eq j k then child k n cs else child j m (store_child k n cs)

  -- `getChildren`, and a write to the map that it returns.
  unfoldable pub get_children : Node A → Bytes → Children A
  get_children (node item statics params) token = if starts colon token then params else statics

  unfoldable pub set_child : Node A → Bytes → Node A → Node A
  set_child (node item statics params) token n =
      if starts colon token
      then node item statics (store_child token n params)
      else node item (store_child token n statics) params

  abbrev pub set_item : Node A → A → Node A
  set_item (node item statics params) x = node (some x) statics params

  -- The beginning of `add`, before its loop: an error or `go`.
  unfoldable pub enter_add :
      Bytes → (Node A → Option AddError × Node A) → A → Node A → Option AddError × Node A
  enter_add [] go x n =
      if is_some (item_of n) then (some duplicated_item, n) else (none, set_item n x)
  enter_add (c ∷ route) go x n = if c == slash then (some duplicated_slash, n) else go n

  -- What `add` does with the last segment, after its loop.
  unfoldable pub add_leaf : Bytes → A → Node A → Option AddError × Node A
  add_leaf token x n = elim (lookup_child token (get_children n token)) [
    | some c ↦
        if is_some (item_of c)
        then (some duplicated_item, n)
        else (none, set_child n token (set_item c x))
    | none ↦ (none, set_child n token (new_node (some x)))
  ]

  abbrev child_or_new : Option (Node A) → Node A
  child_or_new (some c) = c
  child_or_new none = new_node none

  -- What `add` does at a slash: `go` adds the rest of the route below the child.
  unfoldable pub add_below :
      Bytes → (Node A → Option AddError × Node A) → Node A → Option AddError × Node A
  add_below token go n =
      let (err, c) = go (child_or_new (lookup_child token (get_children n token))) in
      (err, set_child n token c)

  -- The loop of `add` over the bytes of the route; `token` holds the bytes before the current one.
  unfoldable pub add_from : Bytes → Bytes → A → Node A → Option AddError × Node A
  unfolding enter_add add_leaf add_below
  add_from [] token x n = add_leaf token x n
  add_from (c ∷ route) token x n =
      let below = add_below token (enter_add route (add_from route [] x) x) n in
      let onward = add_from route (token ++ c ∷ []) x n in if c == slash then below else onward

  unfoldable pub add : Bytes → A → Node A → Option AddError × Node A
  unfolding enter_add
  add route x n = enter_add route (add_from route [] x) x n

  -- `Tree.Add` on the root; `none` is the nil item.
  unfoldable pub add_route : Node A → Bytes → Option A → Option AddError × Node A
  add_route root [] item = (some not_from_root, root)
  add_route root (c ∷ route) none = (some (if c == slash then empty_item else not_from_root), root)
  add_route root (c ∷ route) (some x) =
      if c == slash then add route x root else (some not_from_root, root)

-- A result of a search: the item and the parameters.
abbrev pub Params : Type 0
Params = List (Bytes × Bytes)

-- `match`: whether it is found, and the parameter if it is named. It panics at an empty pattern.
pub match : Bytes → Bytes → Outcome (Bool × Option (Bytes × Bytes))
unfolding bytes_eq
match [] token = panics
match (c ∷ name) token =
    if c == colon
    then returns (true, some (name, token))
    else returns (bytes_eq (c ∷ name) token, none)

-- `addParam`, if the match is named.
abbrev pub add_param : Option (Bytes × Bytes) → Params → Params
add_param none params = params
add_param (some (k, v)) params = store bytes k v params

module _ {ℓ} {A : Type ℓ} where
  abbrev pub found_here : Option A → Option (A × Params)
  found_here none = none
  found_here (some x) = some (x, [])

  -- A call of `fn` in `forEach` returns what it has put in the result if it returns true.
  unfoldable pub visit :
      (Bytes → Node A → Outcome (Option (A × Params))) → Children A → Outcome (Option (A × Params))
  visit fn nil = returns none
  visit fn (child k n cs) =
      fn k n >>= λ r. elim r [ some found ↦ returns (some found) | none ↦ visit fn cs ]

  unfoldable pub for_each :
      (Bytes → Node A → Outcome (Option (A × Params))) → Node A → Outcome (Option (A × Params))
  for_each fn (node item statics params) = visit fn statics >>= λ r. elim r [
    | some found ↦ returns (some found)
    | none ↦ visit fn params
  ]

  -- The beginning of `next`, before its loop.
  unfoldable pub enter_next :
      Bytes → (Node A → Outcome (Option (A × Params))) → Node A → Outcome (Option (A × Params))
  enter_next route go n =
      if is_nil route && is_some (item_of n) then returns (found_here (item_of n)) else go n

  -- The two functions that `next` hands to `forEach`: at a slash, and after the loop.
  unfoldable pub try_below :
      Bytes
      → (Node A → Outcome (Option (A × Params)))
      → Bytes
      → Node A
      → Outcome (Option (A × Params))
  unfolding match
  try_below token go k n = do
    (found, named) ← match k token
    if found
        then (go n >>= λ r.
            returns (elim r [ none ↦ none | some (x, params) ↦ some (x, add_param named params) ]))
        else returns none

  unfoldable pub try_leaf : Bytes → Bytes → Node A → Outcome (Option (A × Params))
  unfolding match
  try_leaf token k n = do
    (found, named) ← match k token
    returns (elim (item_of n) [
      | none ↦ none
      | some x ↦ if found then some (x, add_param named []) else none
    ])

  -- The loop of `next` over the bytes of the route; `token` holds the bytes before the current one.
  unfoldable pub next_from : Bytes → Bytes → Node A → Outcome (Option (A × Params))
  next_from [] token n = for_each (try_leaf token) n
  next_from (c ∷ route) token n =
      let below = for_each (try_below token (enter_next route (next_from route []))) n in
      let onward = next_from route (token ++ c ∷ []) n in if c == slash then below else onward

  unfoldable pub next : Bytes → Node A → Outcome (Option (A × Params))
  next route n = enter_next route (next_from route []) n

  -- `Tree.Search` on the root; `none` is `NotFound` and false.
  unfoldable pub search_route : Node A → Bytes → Outcome (Option (A × Params))
  search_route root [] = returns none
  search_route root (c ∷ route) = if c == slash then next route root else returns none
