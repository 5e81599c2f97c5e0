-- ===== src/Stringx/Tests.antt =====
-- The helpers of core/stringx/strings.go at concrete inputs.
use go_zero_update.Common.{some, ◌≡◌, refl, ◌||◌, List, map, [], ◌∷◌, ◌==◌, panics}
use go_zero_update.Common.Int.{pos}
use go_zero_update.Common.Texts.{join}
use go_zero_update.Stringx.{Text, first_n, filter, remove, join_texts, substr}
use go_zero_update.Stringx.Compaction
use go_zero_update.Stringx.Compaction.{keep, is_in}
use go_zero_update.Stringx.Joining
use go_zero_update.Stringx.Trie.{Nodes, new_trie, find}
use go_zero_update.Stringx.Trie.Adding.{has_word}
use go_zero_update.Stringx.Trie.Matches.{matches_from}
use go_zero_update.Stringx.Trie.Finding
use go_zero_update.Stringx.Starts
use go_zero_update.Stringx.Unions
use go_zero_update.Stringx.Unions.{union}
use go_zero_update.Stringx.Keywords.Occurrences.{has_text}
use go_zero_update.Stringx.Keywords.{TrieNode, with_mask, new_trie_node}
use go_zero_update.Stringx.Keywords.Filtering
use go_zero_update.Stringx.Keywords.Filtering.{TextsOnce, Filtered, mask_of}
use go_zero_update.Stringx.Joining.{is_empty}

abbrev word : Text
word = b'a' ∷ b'b' ∷ b'a' ∷ b'c' ∷ []

filter-keep_example : filter word (λ b. b == b'a') ≡ keep (λ b. b == b'a') word
filter-keep_example = Compaction.filter-keep word (λ b. b == b'a')

abbrev words : List Text
words = (b'a' ∷ []) ∷ [] ∷ (b'b' ∷ b'c' ∷ []) ∷ (b'a' ∷ []) ∷ []

remove-keep_example : remove words ((b'a' ∷ []) ∷ []) ≡ keep (λ v. is_in v ((b'a' ∷ []) ∷ [])) words
remove-keep_example = Compaction.remove-keep words ((b'a' ∷ []) ∷ [])

join_texts-keep_example : join_texts b'/' words ≡ join b'/' (keep is_empty words)
join_texts-keep_example = Joining.join_texts-keep b'/' words

-- The three_words he, she and hers in a text.
abbrev three_words : List Text
three_words = (b'h' ∷ b'e' ∷ []) ∷ (b's' ∷ b'h' ∷ b'e' ∷ []) ∷ (b'h' ∷ b'e' ∷ b'r' ∷ b's' ∷ []) ∷ []

abbrev ushers : Text
ushers = b'u' ∷ b's' ∷ b'h' ∷ b'e' ∷ b'r' ∷ b's' ∷ []

find-matches_from_example :
    (t : Nodes) × ((new_trie three_words ≡ some t)
      × (find t ushers ≡ some (matches_from (has_word three_words) 0 [] ushers)))
find-matches_from_example = Finding.find-matches_from three_words ushers

found :
    matches_from (has_word three_words) 0 [] ushers
    ≡ record { start = 1; stop = 4 }
      ∷ record { start = 2; stop = 4 }
      ∷ record { start = 2; stop = 6 }
      ∷ []
unfolding has_word matches_from go_zero_update.Common.Texts.bytes_eq
found = refl

new_trie_node-Filtered_example :
    (n : TrieNode) × ((new_trie_node three_words (map with_mask (b'#' ∷ [])) ≡ some n)
      × Filtered three_words ushers (mask_of 0 (b'#' ∷ [])) n)
new_trie_node-Filtered_example = Filtering.new_trie_node-Filtered three_words (b'#' ∷ []) ushers

first_n-cut_to_example : first_n ushers (pos 2) ((b'.' ∷ []) ∷ []) ≡ b'u' ∷ b's' ∷ b'.' ∷ []
unfolding go_zero_update.Stringx.Starts.cut_to go_zero_update.Stringx.Starts.concat
first_n-cut_to_example = Starts.first_n-cut_to ushers (pos 2) ((b'.' ∷ []) ∷ [])

union-has_text_example :
    ((k : Text)
      → has_text (union words three_words) k ≡ (has_text words k || has_text three_words k))
    × TextsOnce (union words three_words)
union-has_text_example = Unions.union-has_text words three_words

-- A substring that ends before it starts.
substr_panics : substr word (pos 3) (pos 1) ≡ panics
unfolding substr
substr_panics = refl
