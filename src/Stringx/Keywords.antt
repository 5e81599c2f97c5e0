-- ===== src/Stringx/Keywords.antt =====
-- core/stringx/trie.go: the keywords in a text, and the text with its keywords masked.
--
-- A text is the list of the runes that `[]rune(text)` gives. The set of `collectKeywords` is an
-- association list in the order of one iteration. `none` is a panic: a slice or an index out of range,
-- or what stops the search.
pub mod Occurrences
pub mod Masks
pub mod Covers
pub mod Filtering
use go_zero_update.Common.{
  ℕ, zero, suc, ◌+◌, ◌-◌, Bool, true, false, ◌&&◌, not, List, [], ◌∷◌, map, Option, none, some, ltb,
  leb, ◌==◌, if◌then◌else◌, length, take, drop, set,
}
use go_zero_update.Common.Texts.{bytes}
use go_zero_update.Common.Maps.{store}
use go_zero_update.Stringx.{Text}
use go_zero_update.Stringx.Trie.{Nodes, Scope, new_nodes, add_all, build, find}

pub record TrieNode : Type 0 where
  pub node : Nodes
  pub mask : ℕ

abbrev pub default_mask : ℕ
default_mask = b'*'

-- `WithMask`.
unfoldable pub with_mask : ℕ → TrieNode → TrieNode
with_mask mask n = record n { mask = mask }

-- The options of `NewTrie`.
unfoldable pub apply_options : TrieNode → List (TrieNode → TrieNode) → TrieNode
apply_options n [] = n
apply_options n (opt ∷ opts) = apply_options (opt n) opts

-- `NewTrie`.
unfoldable pub new_trie_node : List Text → List (TrieNode → TrieNode) → Option TrieNode
unfolding apply_options
new_trie_node words opts =
    let n = apply_options (record { node = new_nodes; mask = 0 }) opts in
    let mask = if n.mask == 0 then default_mask else n.mask in
    elim (build (add_all n.node words)) [
      | none ↦ none
      | some node ↦ some (record { node = node; mask = mask })
    ]

-- `chars[start:stop]`.
unfoldable pub slice : Text → ℕ → ℕ → Option Text
slice chars start stop =
    if leb start stop && leb stop (length chars)
    then some (take (stop - start) (drop start chars))
    else none

-- `lang.PlaceholderType`.
abbrev pub Placeholder : Type 0
Placeholder = Unit

-- The set of `collectKeywords`.
unfoldable pub collect_from :
    Text → List (Text × Placeholder) → List Scope → Option (List (Text × Placeholder))
unfolding slice
collect_from chars keys [] = some keys
collect_from chars keys (v ∷ scopes) = elim (slice chars v.start v.stop) [
  | none ↦ none
  | some key ↦ collect_from chars (store bytes key tt keys) scopes
]

unfoldable pub collect_keywords : Text → List Scope → Option (List Text)
unfolding collect_from
collect_keywords chars scopes = elim (collect_from chars [] scopes) [
  | none ↦ none
  | some keys ↦ some (map (λ p. p.0) keys)
]

-- The loop of `replaceWithAsterisk` from `i`, with `n` rounds left.
unfoldable pub mask_from : ℕ → ℕ → Text → ℕ → Option Text
mask_from mask zero chars i = some chars
mask_from mask (suc n) chars i =
    let rest = mask_from mask n (set chars i mask) (i + 1) in
    if ltb i (length chars) then rest else none

unfoldable pub replace_with_asterisk : ℕ → Text → ℕ → ℕ → Option Text
unfolding mask_from
replace_with_asterisk mask chars start stop = mask_from mask (stop - start) chars start

-- The loop of `Filter` over the scopes.
unfoldable pub replace_all : ℕ → Text → List Scope → Option Text
unfolding replace_with_asterisk
replace_all mask chars [] = some chars
replace_all mask chars (v ∷ scopes) = elim (replace_with_asterisk mask chars v.start v.stop) [
  | none ↦ none
  | some chars' ↦ replace_all mask chars' scopes
]

-- `Filter`: the sentence, the keywords, and whether there are any.
unfoldable pub filter_text : TrieNode → Text → Option (Text × (List Text × Bool))
unfolding collect_keywords replace_all
filter_text n chars =
    let run : Option (Text × (List Text × Bool)) = elim (find n.node chars) [
      | none ↦ none
      | some scopes ↦ elim (collect_keywords chars scopes) [
        | none ↦ none
        | some keywords ↦ elim (replace_all n.mask chars scopes) [
          | none ↦ none
          | some sentence ↦ some (sentence, (keywords, not (length keywords == 0)))
        ]
      ]
    ] in
    if length chars == 0 then some (chars, ([], false)) else run

-- `FindKeywords`.
unfoldable pub find_keywords : TrieNode → Text → Option (List Text)
unfolding collect_keywords
find_keywords n chars =
    let run : Option (List Text) = elim (find n.node chars) [
      | none ↦ none
      | some scopes ↦ collect_keywords chars scopes
    ] in
    if length chars == 0 then some [] else run
