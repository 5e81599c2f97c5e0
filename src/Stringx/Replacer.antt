-- ===== src/Stringx/Replacer.antt =====
-- core/stringx/replacer.go: the words of a map replaced in a text, the leftmost one first and the
-- longest of those.
--
-- The map of the words is an association list in the order of one iteration, and a text the list of
-- its runes. So the keys of the map are UTF-8: Go reads the map with the runes found, written as
-- UTF-8 again, and does not find another key. `sort_slice` stands for `sort.Slice` of Go. `none` is a
-- panic, as in the search.
pub mod Greedy
pub mod Walks
pub mod Replacing
mod Tests
use go_zero_update.Common.{
  ℕ, zero, suc, ◌+◌, ◌-◌, Bool, true, false, ◌&&◌, ◌||◌, List, [], ◌∷◌, ◌++◌, map, Option, none,
  some, ltb, ◌==◌, if◌then◌else◌, length,
}
use go_zero_update.Common.Texts.{bytes}
use go_zero_update.Common.Maps.{lookup}
use go_zero_update.Stringx.{Text}
use go_zero_update.Stringx.Trie.{Nodes, Scope, new_trie, find}
use go_zero_update.Stringx.Keywords.{slice}

pub record Replacer : Type 0 where
  pub node : Nodes
  pub mapping : List (Text × Text)

-- `replaceTimes`.
abbrev pub replace_times : ℕ
replace_times = 2

-- `NewReplacer`.
unfoldable pub new_replacer : List (Text × Text) → Option Replacer
new_replacer mapping = elim (new_trie (map (λ p. p.0) mapping)) [
  | none ↦ none
  | some node ↦ some (record { node = node; mapping = mapping })
]

-- The order of `doReplace`.
abbrev pub before : Scope → Scope → Bool
before u v = ltb u.start v.start || (u.start == v.start && ltb v.stop u.stop)

-- `r.mapping[key]`.
unfoldable pub substitute : List (Text × Text) → Text → Text
substitute mapping key = elim (lookup bytes key mapping) [ none ↦ [] | some text ↦ text ]

-- The loop of `doReplace` over the sorted scopes, from `index`, with the rest of the text behind it.
unfoldable pub replace_from : List (Text × Text) → Text → ℕ → List Scope → Option Text
unfolding substitute slice
replace_from mapping chars index [] =
    if ltb index (length chars) then slice chars index (length chars) else some []
replace_from mapping chars index (scp ∷ scopes) =
    let skipped = replace_from mapping chars index scopes in
    let after = replace_from mapping chars scp.stop scopes in
    let written : Option Text = elim (slice chars index scp.start) [
      | none ↦ none
      | some text ↦ elim (slice chars scp.start scp.stop) [
        | none ↦ none
        | some key ↦ elim after [
          | none ↦ none
          | some rest ↦ some (text ++ (substitute mapping key ++ rest))
        ]
      ]
    ] in
    if ltb scp.start index then skipped else written

module _ (sort_slice : (Scope → Scope → Bool) → List Scope → List Scope) where
  -- `doReplace`.
  unfoldable pub do_replace : Replacer → Text → Option (Text × Bool)
  unfolding replace_from
  do_replace r text = elim (find r.node text) [
    | none ↦ none
    | some scopes ↦
        let replaced : Option (Text × Bool) =
          elim (replace_from r.mapping text 0 (sort_slice before scopes)) [
            | none ↦ none
            | some out ↦ some (out, true)
          ] in
        if length scopes == 0 then some (text, false) else replaced
  ]

  -- The loop of `Replace`, with `n` rounds left.
  unfoldable pub replace_rounds : ℕ → Replacer → Text → Option Text
  unfolding do_replace
  replace_rounds zero r text = some text
  replace_rounds (suc n) r text = elim (do_replace r text) [
    | none ↦ none
    | some (text', false) ↦ some text'
    | some (text', true) ↦ replace_rounds n r text'
  ]

  unfoldable pub replace : Replacer → Text → Option Text
  unfolding replace_rounds
  replace r text = replace_rounds replace_times r text
