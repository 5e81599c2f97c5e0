-- ===== src/Stringx/Trie.antt =====
-- core/stringx/node.go and core/stringx/trie.go: a trie of keywords with links for failed matches.
--
-- The nodes of a trie point to one another, so they stand in a store: a node is its number, the root
-- is 0, and each field of the nodes is a function. A text is the list of its runes. A loop along the
-- links runs on fuel, one round more than the depth of the node that it starts from, and the loop over
-- the queue of `build` on a round for each node. `none` is a nil pointer that is read, or fuel that has
-- run out.
pub mod Names
pub mod Growing
pub mod Adding
pub mod Links
pub mod Matches
pub mod Advancing
pub mod Finding
pub mod Fails
pub mod Queueing
pub mod Steps
pub mod Building
use go_zero_update.Common.{
  ℕ, zero, suc, ◌+◌, ◌-◌, Bool, true, false, List, [], ◌∷◌, ◌++◌, map, Option, none, some, ◌==◌,
  ==_iff, if◌then◌else◌, length,
}
use go_zero_update.Common.Store.{write}
use go_zero_update.Common.Maps.{Eq, lookup, store}
use go_zero_update.Stringx.{Text}

abbrev pub runes : Eq ℕ
runes = record { beq = ◌==◌; beq_iff = ==_iff }

-- The nodes; `next_node` is the number of the next one.
pub record Nodes : Type 0 where
  pub children : ℕ → List (ℕ × ℕ)
  pub fail : ℕ → Option ℕ
  pub depth : ℕ → ℕ
  pub end : ℕ → Bool
  pub next_node : ℕ

-- `new(node)`, the root.
abbrev pub new_nodes : Nodes
new_nodes = record {
  children = λ i. [];
  fail = λ i. none;
  depth = λ i. 0;
  end = λ i. false;
  next_node = 1;
}

-- A new child of a node.
unfoldable pub new_child : Nodes → ℕ → ℕ → ℕ → Nodes
new_child t nd i char = record t {
  children =
      write (write t.children t.next_node []) nd (store runes char t.next_node (t.children nd));
  fail = write t.fail t.next_node none;
  depth = write t.depth t.next_node (i + 1);
  end = write t.end t.next_node false;
  next_node = t.next_node + 1;
}

-- The loop of `add`, with the node that it comes to.
unfoldable pub add_from : Nodes → ℕ → ℕ → Text → Nodes × ℕ
unfolding new_child
add_from t nd i [] = (t, nd)
add_from t nd i (char ∷ chars) = elim (lookup runes char (t.children nd)) [
  | some child ↦ add_from t child (i + 1) chars
  | none ↦ add_from (new_child t nd i char) t.next_node (i + 1) chars
]

unfoldable pub add : Nodes → Text → Nodes
unfolding add_from
add t word =
    let (t', nd) = add_from t 0 0 word in
    if length word == 0 then t else record t' { end = write t'.end nd true }

-- The loop of `build` over the nodes `cur` that may have the child to link to.
unfoldable pub fail_for : ℕ → Nodes → ℕ → ℕ → Option ℕ
fail_for zero t key cur = none
fail_for (suc n) t key cur = elim (t.fail cur) [
  | none ↦ some 0
  | some f ↦ elim (lookup runes key (t.children f)) [
    | some fail ↦ some fail
    | none ↦ fail_for n t key f
  ]
]

-- The links of the children of a node, and of the root.
unfoldable pub link_children : Nodes → ℕ → List (ℕ × ℕ) → Nodes
unfolding fail_for
link_children t nd [] = t
link_children t nd ((key, child) ∷ rest) =
    link_children (record t { fail = write t.fail child (fail_for (suc (t.depth nd)) t key nd) }) nd
      rest

unfoldable pub link_root : Nodes → List (ℕ × ℕ) → Nodes
link_root t [] = t
link_root t ((key, child) ∷ rest) = link_root (record t { fail = write t.fail child (some 0) }) rest

abbrev pub targets : List (ℕ × ℕ) → List ℕ
targets children = map (λ p. p.1) children

-- The loop of `build` over its queue.
unfoldable pub build_from : ℕ → Nodes → List ℕ → Option Nodes
unfolding link_children
build_from n t [] = some t
build_from zero t (nd ∷ nodes) = none
build_from (suc n) t (nd ∷ nodes) =
    build_from n (link_children t nd (t.children nd)) (nodes ++ targets (t.children nd))

unfoldable pub build : Nodes → Option Nodes
unfolding link_root build_from
build t = build_from t.next_node (link_root t (t.children 0)) (targets (t.children 0))

-- A keyword in a text, from `start` up to `stop`.
pub record Scope : Type 0 where
  pub start : ℕ
  pub stop : ℕ

-- The loop of `find` along the links, until there is a child for the rune: the new `cur` and `child`.
unfoldable pub descend : ℕ → Nodes → ℕ → ℕ → Option (ℕ × Option ℕ)
descend zero t char cur = if cur == 0 then some (cur, none) else none
descend (suc n) t char cur =
    let below : Option (ℕ × Option ℕ) = elim (t.fail cur) [
      | none ↦ none
      | some f ↦ elim (lookup runes char (t.children f)) [
        | some child ↦ some (child, some child)
        | none ↦ descend n t char f
      ]
    ] in
    if cur == 0 then some (cur, none) else below

-- The scopes that end behind the rune at `i`.
unfoldable pub scopes_at : ℕ → Nodes → ℕ → ℕ → Option (List Scope)
scopes_at zero t i child = if child == 0 then some [] else none
scopes_at (suc n) t i child =
    let below : Option (List Scope) = elim (t.fail child) [
      | none ↦ none
      | some f ↦ elim (scopes_at n t i f) [
        | none ↦ none
        | some scopes ↦ some (
            if t.end child
            then record { start = i + 1 - t.depth child; stop = i + 1 } ∷ scopes
            else scopes)
      ]
    ] in
    if child == 0 then some [] else below

-- The node for the next rune.
unfoldable pub advance : Nodes → ℕ → ℕ → Option (ℕ × Option ℕ)
unfolding descend
advance t char cur = elim (lookup runes char (t.children cur)) [
  | some child ↦ some (child, some child)
  | none ↦ descend (suc (t.depth cur)) t char cur
]

-- `find`, from the rune at `i`.
unfoldable pub find_from : Nodes → ℕ → ℕ → Text → Option (List Scope)
unfolding advance scopes_at
find_from t i cur [] = some []
find_from t i cur (char ∷ chars) = elim (advance t char cur) [
  | none ↦ none
  | some (cur', none) ↦ find_from t (i + 1) cur' chars
  | some (cur', some child) ↦ elim (scopes_at (suc (t.depth child)) t i child) [
    | none ↦ none
    | some scopes ↦ elim (find_from t (i + 1) cur' chars) [
      | none ↦ none
      | some more ↦ some (scopes ++ more)
    ]
  ]
]

unfoldable pub find : Nodes → Text → Option (List Scope)
unfolding find_from
find t chars = find_from t 0 0 chars

-- `NewTrie` and `NewReplacer`, as far as they make the nodes.
unfoldable pub add_all : Nodes → List Text → Nodes
unfolding add
add_all t [] = t
add_all t (word ∷ words) = add_all (add t word) words

unfoldable pub new_trie : List Text → Option Nodes
unfolding add_all build
new_trie words = build (add_all new_nodes words)
