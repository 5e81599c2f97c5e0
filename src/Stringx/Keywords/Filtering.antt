-- ===== src/Stringx/Keywords/Filtering.antt =====
-- `Filter` and `FindKeywords` of core/stringx/trie.go, by the words that stand in the text.
use go_zero_update.Common.{
  ℕ, ◌<◌, ◌≡◌, refl, ap, ◌∙◌, inl, inr, false, ◌&&◌, not, List, [], ◌∷◌, some, ◌==◌, if◌then◌else◌,
  length, get_or, map, arith, Bool-cases,
}
use go_zero_update.Common.Texts.{bytes}
use go_zero_update.Common.Maps.{is_some, lookup, Distinct}
use go_zero_update.Stringx.{Text}
use go_zero_update.Stringx.Trie.{Nodes, Scope, new_nodes, add_all, build, find, new_trie}
use go_zero_update.Stringx.Trie.Adding.{has_word}
use go_zero_update.Stringx.Trie.Matches.{matches_from}
use go_zero_update.Stringx.Trie.Finding.{find-matches_from}
use go_zero_update.Stringx.Trie.Links.{no_runes}
use go_zero_update.Stringx.Keywords.{
  Placeholder, TrieNode, with_mask, apply_options, new_trie_node, default_mask, collect_keywords,
  replace_all, filter_text, find_keywords,
}
use go_zero_update.Stringx.Keywords.Occurrences.{has_text, occurs, has_scope, has_scope-occurs}
use go_zero_update.Stringx.Keywords.Masks.{collect_from-Collected, replace_all-Masked}
use go_zero_update.Stringx.Keywords.Covers.{
  covered, contains_text, occurs-InRange, in_scopes-covered, cut_in-contains_text,
}

-- The mask that the last option gives.
unfoldable pub mask_of : ℕ → List ℕ → ℕ
mask_of mask [] = if mask == 0 then b'*' else mask
mask_of mask (m ∷ masks) = mask_of m masks

abbrev pub TextsOnce : List Text → Type 0
TextsOnce [] = Unit
TextsOnce (k ∷ ks) = (has_text ks k ≡ false) × TextsOnce ks

-- `Filter` and `FindKeywords` of a trie of some words, for one text.
pub record Filtered (words : List Text) (chars : Text) (mask : ℕ) (n : TrieNode) : Type 0 where
  pub sentence : Text
  pub words_found : List Text
  pub result : filter_text n chars ≡ some (sentence, (words_found, not (length words_found == 0)))
  pub searched : find_keywords n chars ≡ some words_found
  pub size : length sentence ≡ length chars
  pub masked :
      (i : ℕ)
      → i < length chars
      → get_or sentence i 0 ≡ (if covered words chars i then mask else get_or chars i 0)
  pub found :
      (k : Text)
      → has_text words_found k ≡ (not (length k == 0) && has_text words k && contains_text k chars)
  pub once : TextsOnce words_found

apply_masks :
    (masks : List ℕ) (n : TrieNode)
    → let m = apply_options n (map with_mask masks) in
      (m.node ≡ n.node) × ((if m.mask == 0 then default_mask else m.mask) ≡ mask_of n.mask masks)
unfolding apply_options mask_of with_mask
apply_masks [] n = (refl, refl)
apply_masks (m ∷ masks) n = apply_masks masks (with_mask m n)

pub has_text-lookup :
    (keys : List (Text × Placeholder)) (k : Text)
    → has_text (map (λ p. p.0) keys) k ≡ is_some (lookup bytes k keys)
unfolding has_text lookup
has_text-lookup [] k = refl
has_text-lookup ((key, u) ∷ keys) k = ground (arith, has_text-lookup keys k)

pub Distinct-TextsOnce :
    (keys : List (Text × Placeholder)) → Distinct bytes keys → TextsOnce (map (λ p. p.0) keys)
Distinct-TextsOnce [] d = tt
Distinct-TextsOnce ((key, u) ∷ keys) d =
    (has_text-lookup keys key ∙ ap (λ o. is_some o) (d.0), Distinct-TextsOnce keys (d.1))

filter_text_run :
    (n : TrieNode) (chars : Text) (scopes : List Scope) (keywords : List Text) (sentence : Text)
    → find n.node chars ≡ some scopes
    → collect_keywords chars scopes ≡ some keywords
    → replace_all n.mask chars scopes ≡ some sentence
    → (length chars == 0) ≡ false
    → (filter_text n chars ≡ some (sentence, (keywords, not (length keywords == 0))))
      × (find_keywords n chars ≡ some keywords)
unfolding filter_text find_keywords
filter_text_run n chars scopes keywords sentence f k r e =
    (rw (filter_text, e, f, k, r) refl, rw (find_keywords, e, f, k) refl)

module _ (words : List Text) (n : TrieNode) where
  no_text-Filtered : (chars : Text) → chars ≡ [] → Filtered words chars n.mask n
  unfolding filter_text find_keywords has_text contains_text
  no_text-Filtered chars e = rw e (record {
    sentence = [];
    words_found = [];
    result = refl;
    searched = refl;
    size = refl;
    masked = λ i h. absurd (omega (arith, h));
    found = λ k. ground arith;
    once = tt;
  })

  text-Filtered :
      (chars : Text) (scopes : List Scope)
      → find n.node chars ≡ some scopes
      → ((a b : ℕ) → has_scope a b scopes ≡ occurs words chars a b)
      → (length chars == 0) ≡ false
      → Filtered words chars n.mask n
  unfolding collect_keywords lookup
  text-Filtered chars scopes f all e =
      let inside = occurs-InRange words chars scopes all in
      let c = collect_from-Collected chars scopes [] inside in
      let m = replace_all-Masked n.mask scopes chars inside in
      let keywords = map (λ p. p.0) c.after in
      let k : collect_keywords chars scopes ≡ some keywords =
        rw (collect_keywords, c.result) refl in
      let (run, searched) = filter_text_run n chars scopes keywords m.after f k m.result e in
      record {
        sentence = m.after;
        words_found = keywords;
        result = run;
        searched = searched;
        size = m.size;
        masked = λ i h.
            m.runes_after i h
            ∙ ap (λ b. if b then n.mask else get_or chars i 0)
                (in_scopes-covered words chars scopes all i);
        found = λ t.
            has_text-lookup c.after t
            ∙ c.keys_found t
            ∙ cut_in-contains_text words chars scopes all t;
        once = Distinct-TextsOnce c.after (c.distinct tt);
      }

new_trie-build : (words : List Text) → build (add_all new_nodes words) ≡ new_trie words
unfolding new_trie
new_trie-build words = refl

new_trie_node_run :
    (words : List Text) (opts : List (TrieNode → TrieNode)) (t : Nodes) (mask : ℕ)
    → (apply_options (record { node = new_nodes; mask = 0 }) opts).node ≡ new_nodes
    → (let m = (apply_options (record { node = new_nodes; mask = 0 }) opts).mask in
        if m == 0 then default_mask else m)
      ≡ mask
    → new_trie words ≡ some t
    → new_trie_node words opts ≡ some (record { node = t; mask = mask })
unfolding new_trie_node
new_trie_node_run words opts t mask e f h = rw (new_trie_node, e, new_trie-build words ∙ h, f) refl

-- A trie of any words and masks is made. Its `Filter` puts the mask on just the runes that a keyword of
-- the text stands over, and with `FindKeywords` it returns just the words that stand in the text, each
-- once.
pub new_trie_node-Filtered :
    (words : List Text) (masks : List ℕ) (chars : Text)
    → (n : TrieNode) × ((new_trie_node words (map with_mask masks) ≡ some n)
        × Filtered words chars (mask_of 0 masks) n)
unfolding mask_of
new_trie_node-Filtered words masks chars =
    let (t, (built, search)) = find-matches_from words chars in
    let (node, mask) = apply_masks masks (record { node = new_nodes; mask = 0 }) in
    let n : TrieNode = record { node = t; mask = mask_of 0 masks } in
    (
      n,
      (
        new_trie_node_run words (map with_mask masks) t (mask_of 0 masks) node mask built,
        elim (Bool-cases (length chars == 0)) [
          | inl e ↦ no_text-Filtered words n chars (no_runes chars (ground (arith, e)))
          | inr e ↦
              text-Filtered words n chars (matches_from (has_word words) 0 [] chars) search
                (has_scope-occurs words chars) e
        ],
      ),
    )
