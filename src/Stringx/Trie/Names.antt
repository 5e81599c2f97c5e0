-- ===== src/Stringx/Trie/Names.antt =====
-- The nodes of the trie of core/stringx/node.go by their names: the name of a node is the runes on the
-- way to it, the last one first.
use go_zero_update.Common.{
  ℕ, ◌<◌, ◌≡◌, refl, sym, ap, ◌∙◌, inl, inr, Bool, false, List, [], ◌∷◌, Option, none, some,
  Option-cases, length, arith,
}
use go_zero_update.Common.Maps.{lookup, Distinct}
use go_zero_update.Stringx.{Text}
use go_zero_update.Stringx.Trie.{Nodes, runes}

abbrev pub Edges : Type 0
Edges = ℕ → List (ℕ × ℕ)

unfoldable pub node_of : Edges → Text → Option ℕ
node_of children [] = some 0
node_of children (c ∷ r) = elim (node_of children r) [
  | none ↦ none
  | some i ↦ lookup runes c (children i)
]

-- Whether the trie has a word.
unfoldable pub is_end : Edges → (ℕ → Bool) → Text → Bool
unfolding node_of
is_end children end r = elim (node_of children r) [ none ↦ false | some i ↦ end i ]

-- The nodes below `next` are a tree with these names.
pub record Shape (children : Edges) (depth : ℕ → ℕ) (next : ℕ) (name : ℕ → Text) : Type 0 where
  pub some_node : 0 < next
  pub root : name 0 ≡ []
  pub step :
      (i c j : ℕ)
      → i < next
      → lookup runes c (children i) ≡ some j
      → (j < next) × (name j ≡ c ∷ name i)
  pub by_name : (i : ℕ) → i < next → node_of children (name i) ≡ some i
  pub deep : (i : ℕ) → i < next → depth i ≡ length (name i)
  pub distinct : (i : ℕ) → i < next → Distinct runes (children i)

abbrev pub IsTrie : Nodes → (ℕ → Text) → Type 0
IsTrie t name = Shape t.children t.depth t.next_node name

pub node_of_below :
    (children : Edges) (c : ℕ) (r : Text) (i : ℕ)
    → node_of children r ≡ some i
    → node_of children (c ∷ r) ≡ lookup runes c (children i)
unfolding node_of
node_of_below children c r i h = rw (node_of, h) refl

pub node_of-cons :
    (children : Edges) (c : ℕ) (r : Text) (j : ℕ)
    → node_of children (c ∷ r) ≡ some j
    → (i : ℕ) × ((node_of children r ≡ some i) × (lookup runes c (children i) ≡ some j))
unfolding node_of
node_of-cons children c r j h = elim (Option-cases (node_of children r)) [
  | inl e ↦ absurd (ground (arith, h, e))
  | inr (i, e) ↦ (i, (e, sym (node_of_below children c r i e) ∙ h))
]

module _ (children : Edges) (depth : ℕ → ℕ) (next : ℕ) (name : ℕ → Text)
    (v : Shape children depth next name) where
  pub node_of-name : (r : Text) (i : ℕ) → node_of children r ≡ some i → (i < next) × (name i ≡ r)
  unfolding node_of
  node_of-name [] i h = let same : 0 ≡ i = cc h in rw (← same) (v.some_node, v.root)
  node_of-name (c ∷ r) j h =
      let (i, (found, below)) = node_of-cons children c r j h in
      let (inside, here) = node_of-name r i found in
      let (in_, there) = v.step i c j inside below in (in_, there ∙ ap (λ l. c ∷ l) here)
