-- ===== src/Stringx/Trie/Growing.antt =====
-- A new node of the trie of core/stringx/node.go: a longer name, and the same words.
use go_zero_update.Common.{
  ℕ, ◌+◌, ◌<◌, ◌≡◌, refl, sym, ap, ◌∙◌, inl, inr, true, false, ◌&&◌, [], ◌∷◌, none, some,
  Option-cases, ◌==◌, if◌then◌else◌, arith, Bool-cases,
}
use go_zero_update.Common.Store.{write}
use go_zero_update.Common.Maps.{lookup, Distinct, lookup-store, store-Distinct}
use go_zero_update.Stringx.{Text}
use go_zero_update.Stringx.Trie.{Nodes, runes, new_child}
use go_zero_update.Stringx.Trie.Names.{
  node_of, is_end, IsTrie, node_of-cons, node_of_below, node_of-name,
}

module _ (t : Nodes) (name : ℕ → Text) (v : IsTrie t name) (nd c : ℕ) (inside : nd < t.next_node)
    (free : lookup runes c (t.children nd) ≡ none) where
  abbrev pub with_child : Nodes
  with_child = new_child t nd (t.depth nd) c

  abbrev pub longer : ℕ → Text
  longer = write name t.next_node (c ∷ name nd)

  children_new :
      (i d : ℕ)
      → i < t.next_node
      → lookup runes d (with_child.children i)
        ≡ (if nd == i && c == d then some t.next_node else lookup runes d (t.children i))
  unfolding new_child
  children_new i d h = elim (Bool-cases (nd == i)) [
    | inl e ↦
        let same : nd ≡ i = ground (arith, e) in
        rw e (
          lookup-store runes c d t.next_node (t.children nd)
          ∙ ap (λ k. if c == d then some t.next_node else lookup runes d (t.children k)) same)
    | inr e ↦ let other : (t.next_node == i) ≡ false = ground (arith, h) in rw (e, other) refl
  ]

  children_last : (d : ℕ) → lookup runes d (with_child.children t.next_node) ≡ none
  unfolding new_child lookup
  children_last d =
      let other : (nd == t.next_node) ≡ false = ground (arith, inside) in
      let itself : (t.next_node == t.next_node) ≡ true = ground arith in rw (other, itself) refl

  name_old : (i : ℕ) → i < t.next_node → longer i ≡ name i
  name_old i h = let other : (t.next_node == i) ≡ false = ground (arith, h) in rw other refl

  pub name_last : longer t.next_node ≡ c ∷ name nd
  name_last = let itself : (t.next_node == t.next_node) ≡ true = ground arith in rw itself refl

  apart : (i d j : ℕ) → lookup runes d (t.children i) ≡ some j → (nd == i && c == d) ≡ false
  apart i d j h = elim (Bool-cases (nd == i && c == d)) [
    | inl e ↦
        let here : nd ≡ i = ground (arith, e) in
        let same : c ≡ d = ground (arith, e) in
        let both : some j ≡ none =
          sym h
          ∙ sym (ap (λ k. lookup runes d (t.children k)) here)
          ∙ sym (ap (λ k. lookup runes k (t.children nd)) same)
          ∙ free in
        absurd (ground (arith, both))
    | inr e ↦ e
  ]

  node_of_old :
      (r : Text) (i : ℕ) → node_of t.children r ≡ some i → node_of with_child.children r ≡ some i
  unfolding node_of
  node_of_old [] i h = h
  node_of_old (d ∷ r) j h =
      let (i, (found, below)) = node_of-cons t.children d r j h in
      let (in_, _) = node_of-name t.children t.depth t.next_node name v r i found in
      let other = apart i d j below in
      node_of_below with_child.children d r i (node_of_old r i found)
      ∙ children_new i d in_
      ∙ rw other below

  node_of_last : node_of with_child.children (c ∷ name nd) ≡ some t.next_node
  node_of_last =
      let itself : (nd == nd && c == c) ≡ true = ground arith in
      node_of_below with_child.children c (name nd) nd
        (node_of_old (name nd) nd (v.by_name nd inside))
      ∙ children_new nd c inside
      ∙ rw itself refl

  children-Distinct : (i : ℕ) → i < t.next_node + 1 → Distinct runes (with_child.children i)
  unfolding new_child
  children-Distinct i h = elim (Bool-cases (nd == i)) [
    | inl e ↦ rw e (store-Distinct runes c t.next_node (t.children nd) (v.distinct nd inside))
    | inr e ↦ elim (Bool-cases (t.next_node == i)) [
      | inl f ↦ rw (e, f) tt
      | inr f ↦ rw (e, f) (v.distinct i (ground (arith, f, h)))
    ]
  ]

  pub new_child-IsTrie : IsTrie with_child longer
  unfolding new_child
  new_child-IsTrie = record {
    some_node = omega arith;
    root = name_old 0 v.some_node ∙ v.root;
    step = λ i d j h e. elim (Bool-cases (i == t.next_node)) [
      | inl f ↦
          let last : i ≡ t.next_node = ground (arith, f) in
          let none_there : some j ≡ none =
            sym e ∙ ap (λ k. lookup runes d (with_child.children k)) last ∙ children_last d in
          absurd (ground (arith, none_there))
      | inr f ↦
          let in_ : i < t.next_node = ground (arith, f, h) in
          let found = sym (children_new i d in_) ∙ e in
          elim (Bool-cases (nd == i && c == d)) [
            | inl g ↦
                let fresh : some t.next_node ≡ some j = sym (rw g refl) ∙ found in
                let here : nd ≡ i = ground (arith, g) in
                let same : c ≡ d = ground (arith, g) in
                let child : t.next_node ≡ j = cc fresh in
                (
                  omega (arith, child),
                  ap longer (sym child)
                      ∙ name_last
                      ∙ ap (λ k. c ∷ name k) here
                      ∙ ap (λ b. b ∷ name i) same
                      ∙ ap (λ l. d ∷ l) (sym (name_old i in_)),
                )
            | inr g ↦
                let old : lookup runes d (t.children i) ≡ some j = sym (rw g refl) ∙ found in
                let (child, there) = v.step i d j in_ old in
                (
                  omega (arith, child),
                  name_old j child ∙ there ∙ ap (λ l. d ∷ l) (sym (name_old i in_)),
                )
          ]
    ];
    by_name = λ i h. elim (Bool-cases (i == t.next_node)) [
      | inl f ↦
          let last : i ≡ t.next_node = ground (arith, f) in
          rw last (ap (node_of with_child.children) name_last ∙ node_of_last)
      | inr f ↦
          let in_ : i < t.next_node = ground (arith, f, h) in
          ap (node_of with_child.children) (name_old i in_)
          ∙ node_of_old (name i) i (v.by_name i in_)
    ];
    deep = λ i h. elim (Bool-cases (i == t.next_node)) [
      | inl f ↦
          let last : (t.next_node == i) ≡ true = ground (arith, f) in
          rw last (omega (arith, v.deep nd inside))
      | inr f ↦
          let other : (t.next_node == i) ≡ false = ground (arith, f) in
          rw other (v.deep i (ground (arith, f, h)))
    ];
    distinct = children-Distinct;
  }

  pub end_new : (r : Text) → is_end with_child.children with_child.end r ≡ is_end t.children t.end r
  unfolding is_end new_child
  end_new r = elim (Option-cases (node_of t.children r)) [
    | inr (i, e) ↦
        let (in_, _) = node_of-name t.children t.depth t.next_node name v r i e in
        let other : (t.next_node == i) ≡ false = ground (arith, in_) in
        rw (is_end, e, node_of_old r i e, other) refl
    | inl e ↦ elim (Option-cases (node_of with_child.children r)) [
      | inl f ↦ rw (is_end, e, f) refl
      | inr (j, f) ↦ elim (Bool-cases (t.next_node == j)) [
        | inl g ↦ rw (is_end, e, f, g) refl
        | inr g ↦
            let (in_, there) =
              node_of-name with_child.children with_child.depth with_child.next_node longer
                new_child-IsTrie r j f in
            let old : j < t.next_node = ground (arith, in_, g) in
            let found : none ≡ some j =
              sym e ∙ ap (node_of t.children) (sym there ∙ name_old j old) ∙ v.by_name j old in
            absurd (ground (arith, found))
      ]
    ]
  ]
