-- ===== src/Stringx/Trie/Adding.antt =====
-- `add` of core/stringx/node.go: the trie has one more word.
use go_zero_update.Common.{
  ℕ, ◌+◌, ◌<◌, ◌≡◌, refl, sym, ap, ◌∙◌, inl, inr, Bool, true, false, ◌&&◌, ◌||◌, not, List, [], ◌∷◌,
  none, some, Option-cases, ◌==◌, length, arith, Bool-cases,
}
use go_zero_update.Common.Texts.{bytes_eq, bytes_eq_iff}
use go_zero_update.Common.Store.{write}
use go_zero_update.Common.Maps.{lookup}
use go_zero_update.Stringx.{Text}
use go_zero_update.Stringx.Trie.{Nodes, runes, new_nodes, new_child, add_from, add, add_all}
use go_zero_update.Stringx.Trie.Names.{node_of, is_end, IsTrie, node_of-name}
use go_zero_update.Stringx.Trie.Growing.{with_child, longer, name_last, new_child-IsTrie, end_new}

-- A text read on from a name.
unfoldable pub rev_onto : Text → Text → Text
rev_onto [] r = r
rev_onto (c ∷ cs) r = rev_onto cs (c ∷ r)

-- What the loop of `add` leaves: a trie with the same words, at the node of the text read.
pub record Added (t : Nodes) (text : Text) (r : Nodes × ℕ) : Type 0 where
  pub name : ℕ → Text
  pub is_trie : IsTrie r.0 name
  pub inside : r.1 < r.0.next_node
  pub here : name r.1 ≡ text
  pub same : (q : Text) → is_end r.0.children r.0.end q ≡ is_end t.children t.end q
  pub unlinked : ((i : ℕ) → t.fail i ≡ none) → (i : ℕ) → r.0.fail i ≡ none

new_child-fail :
    (t : Nodes) (nd i c : ℕ)
    → ((j : ℕ) → t.fail j ≡ none)
    → (j : ℕ) → (new_child t nd i c).fail j ≡ none
unfolding new_child
new_child-fail t nd i c h j = ground (arith, h j)

new_child-sizes :
    (t : Nodes) (nd i c : ℕ)
    → ((new_child t nd i c).next_node ≡ t.next_node + 1)
      × ((new_child t nd i c).depth t.next_node ≡ i + 1)
unfolding new_child
new_child-sizes t nd i c =
    let itself : (t.next_node == t.next_node) ≡ true = ground arith in (refl, rw itself refl)

add_from-Added :
    (chars : Text) (t : Nodes) (name : ℕ → Text) (nd i : ℕ)
    → IsTrie t name
    → nd < t.next_node
    → i ≡ t.depth nd
    → Added t (rev_onto chars (name nd)) (add_from t nd i chars)
unfolding add_from rev_onto
add_from-Added [] t name nd i v h e = record {
  name = name;
  is_trie = v;
  inside = h;
  here = refl;
  same = λ q. refl;
  unlinked = λ u. u;
}
add_from-Added (c ∷ cs) t name nd i v h e = elim (Option-cases (lookup runes c (t.children nd))) [
  | inr (child, f) ↦
      let (in_, there) = v.step nd c child h f in
      let level : i + 1 ≡ t.depth child =
        omega (arith, e, v.deep nd h, v.deep child in_, ap length there) in
      rw (add_from, f, ← there) (add_from-Added cs t name child (i + 1) v in_ level)
  | inl f ↦
      let t' = with_child t name v nd c h f in
      let name' = longer t name v nd c h f in
      let v' = new_child-IsTrie t name v nd c h f in
      let (size, level) = new_child-sizes t nd (t.depth nd) c in
      let rest =
        add_from-Added cs t' name' t.next_node (t.depth nd + 1) v' (omega (arith, size))
          (sym level) in
      let last = name_last t name v nd c h f in
      rw (add_from, f, e)
        (record {
          name = rest.name;
          is_trie = rest.is_trie;
          inside = rest.inside;
          here = rest.here ∙ ap (rev_onto cs) last;
          same = λ q. rest.same q ∙ end_new t name v nd c h f q;
          unlinked = λ u. rest.unlinked (new_child-fail t nd (t.depth nd) c u);
        })
]

-- The words of a trie, and one more.
unfoldable pub is_word : Text → Text → Bool
unfolding rev_onto
is_word word q = not (length word == 0) && bytes_eq (rev_onto word []) q

unfoldable pub has_word : List Text → Text → Bool
unfolding is_word
has_word [] q = false
has_word (word ∷ words) q = is_word word q || has_word words q

name_found :
    (t : Nodes) (name : ℕ → Text) (nd : ℕ) (q : Text)
    → IsTrie t name
    → nd < t.next_node
    → bytes_eq (name nd) q ≡ true
    → node_of t.children q ≡ some nd
name_found t name nd q v h e =
    let same : name nd ≡ q = ground (arith, e, bytes_eq_iff (name nd) q) in
    sym (ap (node_of t.children) same) ∙ v.by_name nd h

write-end :
    (t : Nodes) (name : ℕ → Text) (nd : ℕ) (q : Text)
    → IsTrie t name
    → nd < t.next_node
    → is_end t.children (write t.end nd true) q
      ≡ (bytes_eq (name nd) q || is_end t.children t.end q)
unfolding is_end
write-end t name nd q v h = elim (Option-cases (node_of t.children q)) [
  | inl e ↦ elim (Bool-cases (bytes_eq (name nd) q)) [
    | inl f ↦ absurd (ground (arith, name_found t name nd q v h f, e))
    | inr f ↦ rw (is_end, e, f) refl
  ]
  | inr (i, e) ↦
      let (in_, there) = node_of-name t.children t.depth t.next_node name v q i e in
      elim (Bool-cases (nd == i)) [
        | inl f ↦
            let here : nd ≡ i = ground (arith, f) in
            let same : bytes_eq (name nd) q ≡ true =
              (bytes_eq_iff (name nd) q).1 (ap name here ∙ there) in
            rw (is_end, e, f, same) refl
        | inr f ↦ elim (Bool-cases (bytes_eq (name nd) q)) [
          | inl g ↦ absurd (ground (arith, name_found t name nd q v h g, e, f))
          | inr g ↦ rw (is_end, e, f, g) refl
        ]
      ]
]

-- A trie with a set of words.
pub record HasWords (t : Nodes) (words : Text → Bool) : Type 0 where
  pub name : ℕ → Text
  pub is_trie : IsTrie t name
  pub ends : (q : Text) → is_end t.children t.end q ≡ words q
  pub unlinked : (i : ℕ) → t.fail i ≡ none

add-HasWords :
    (t : Nodes) (words : Text → Bool) (word : Text)
    → HasWords t words
    → HasWords (add t word) (λ q. is_word word q || words q)
unfolding add is_word
add-HasWords t words word v = elim (Bool-cases (length word == 0)) [
  | inl e ↦
      rw (add, e)
        (record { name = v.name; is_trie = v.is_trie; ends = v.ends; unlinked = v.unlinked })
  | inr e ↦
      let r = add_from t 0 0 word in
      let level : 0 ≡ t.depth 0 =
        sym (v.is_trie.deep 0 v.is_trie.some_node ∙ ap length v.is_trie.root) in
      let a = add_from-Added word t v.name 0 0 v.is_trie v.is_trie.some_node level in
      let text : a.name r.1 ≡ rev_onto word [] = a.here ∙ ap (rev_onto word) v.is_trie.root in
      rw (add, e)
        (record {
          name = a.name;
          is_trie = a.is_trie;
          ends = λ q.
              write-end r.0 a.name r.1 q a.is_trie a.inside
              ∙ ground (arith, a.same q, v.ends q, ap (λ l. bytes_eq l q) text);
          unlinked = a.unlinked v.unlinked;
        })
]

add_all-HasWords :
    (ws : List Text) (t : Nodes) (words : Text → Bool)
    → HasWords t words
    → (n : Text → Bool) × (HasWords (add_all t ws) n
        × ((q : Text) → n q ≡ (has_word ws q || words q)))
unfolding add_all has_word
add_all-HasWords [] t words v = (words, (v, λ q. refl))
add_all-HasWords (w ∷ ws) t words v =
    let (n, (u, e)) =
      add_all-HasWords ws (add t w) (λ q. is_word w q || words q) (add-HasWords t words w v) in
    (n, (u, λ q. e q ∙ ground arith))

empty-HasWords : HasWords new_nodes (λ q. false)
unfolding node_of is_end lookup
empty-HasWords = record {
  name = λ i. [];
  is_trie = record {
    some_node = omega arith;
    root = refl;
    step = λ i c j h e. absurd (ground (arith, e));
    by_name = λ i h. let first : 0 ≡ i = omega (arith, h) in ap some first;
    deep = λ i h. refl;
    distinct = λ i h. tt;
  };
  ends = λ q. elim (Option-cases (node_of (λ i. []) q)) [
    | inl e ↦ rw (is_end, e) refl
    | inr (i, e) ↦ rw (is_end, e) refl
  ];
  unlinked = λ i. refl;
}

-- The trie of some words has just these.
pub new_nodes-HasWords : (ws : List Text) → HasWords (add_all new_nodes ws) (has_word ws)
new_nodes-HasWords ws =
    let (n, (u, e)) = add_all-HasWords ws new_nodes (λ q. false) empty-HasWords in
    record {
      name = u.name;
      is_trie = u.is_trie;
      ends = λ q. u.ends q ∙ e q ∙ ground arith;
      unlinked = u.unlinked;
    }
