-- ===== src/Stringx/Trie/Advancing.antt =====
-- A step of `find` of core/stringx/node.go: it comes to the longest name that the text read ends with.
use go_zero_update.Common.{
  ℕ, zero, suc, ◌<◌, ◌≡◌, refl, sym, ap, ◌∙◌, inl, inr, true, false, ◌∷◌, Option, none, some,
  Option-cases, ◌==◌, if◌then◌else◌, length, arith, Bool-cases,
}
use go_zero_update.Common.Texts.{
  has_prefix, has_prefix_trans, length-has_prefix, has_prefix_whole, has_prefix-cons,
  cons-has_prefix,
}
use go_zero_update.Common.Maps.{lookup}
use go_zero_update.Stringx.{Text}
use go_zero_update.Stringx.Trie.{Nodes, runes, descend, advance}
use go_zero_update.Stringx.Trie.Names.{Edges, IsTrie}
use go_zero_update.Stringx.Trie.Links.{
  known, Next, Linked, known_below, known-cons, nil_prefix, no_runes, only_root,
}

-- Every link is right.
abbrev pub IsLinked : Nodes → (ℕ → Text) → Type 0
IsLinked t name = (i : ℕ) → i < t.next_node → 0 < length (name i) → Linked t name i

-- `s` is the longest name that `p` starts with.
pub record Best (children : Edges) (p s : Text) : Type 0 where
  pub prefix : has_prefix s p ≡ true
  pub longest : (q : Text) → has_prefix q p ≡ true → known children q ≡ true → has_prefix q s ≡ true

-- Every name that goes on with a rune `c` starts `s`, of the names that `r` starts with.
record Carries (children : Edges) (c : ℕ) (r s : Text) : Type 0 where
  prefix : has_prefix s r ≡ true
  longest :
      (q : Text) → has_prefix q r ≡ true → known children (c ∷ q) ≡ true → has_prefix q s ≡ true

Best-Carries : (children : Edges) (c : ℕ) (r s : Text) → Best children r s → Carries children c r s
Best-Carries children c r s b = record {
  prefix = b.prefix;
  longest = λ q a k. b.longest q a (known-cons children c q k);
}

Carries-Best :
    (children : Edges) (c : ℕ) (r s : Text) → Carries children c r s → Best children (c ∷ r) (c ∷ s)
Carries-Best children c r s b = record {
  prefix = cons-has_prefix c s r b.prefix;
  longest = λ q a k. elim (has_prefix-cons c q r a) [
    | inl empty ↦ rw empty (nil_prefix _)
    | inr (q', (same, a')) ↦
        rw same (cons-has_prefix c q' s (b.longest q' a' (ap (known children) (sym same) ∙ k)))
  ];
}

-- What a step leaves: the node, and the child for the scopes.
pub record Reached (t : Nodes) (name : ℕ → Text) (p : Text) (run : Option (ℕ × Option ℕ))
    : Type 0 where
  pub cur : ℕ
  pub result : run ≡ some (cur, if cur == 0 then none else some cur)
  pub inside : cur < t.next_node
  pub best : Best t.children p (name cur)

module _ (t : Nodes) (name : ℕ → Text) (v : IsTrie t name) (linked : IsLinked t name) where
  child_Reached :
      (c cur g : ℕ) (r : Text)
      → cur < t.next_node
      → lookup runes c (t.children cur) ≡ some g
      → Carries t.children c r (name cur)
      → Reached t name (c ∷ r) (some (g, some g))
  child_Reached c cur g r h e b =
      let (in_, there) = v.step cur c g h e in
      let other : (g == 0) ≡ false = elim (Bool-cases (g == 0)) [
        | inl f ↦
            let same : g ≡ 0 = ground (arith, f) in
            absurd (omega (arith, ap length (sym there ∙ ap name same ∙ v.root)))
        | inr f ↦ f
      ] in
      record {
        cur = g;
        result = rw other refl;
        inside = in_;
        best = rw there (Carries-Best t.children c r (name cur) b);
      }

  Next-Carries :
      (c cur f : ℕ) (r : Text)
      → cur < t.next_node
      → lookup runes c (t.children cur) ≡ none
      → Next t.children (name cur) (name f)
      → Carries t.children c r (name cur)
      → Carries t.children c r (name f)
  Next-Carries c cur f r h e n b = record {
    prefix = has_prefix_trans (name f) (name cur) r n.prefix b.prefix;
    longest = λ q a k.
        let inner = b.longest q a k in
        let size = length-has_prefix q (name cur) inner in
        elim (Bool-cases (length q == length (name cur))) [
          | inl eq ↦
              let whole = has_prefix_whole q (name cur) inner (ground (arith, eq)) in
              let gone =
                sym k
                ∙ ap (λ l. known t.children (c ∷ l)) whole
                ∙ known_below t.children c (name cur) cur (v.by_name cur h) e in
              absurd (ground (arith, gone))
          | inr ne ↦ n.longest q inner (known-cons t.children c q k) (ground (arith, ne, size))
        ];
  }

  root_Reached :
      (c : ℕ) (r : Text)
      → lookup runes c (t.children 0) ≡ none
      → Carries t.children c r (name 0)
      → Reached t name (c ∷ r) (some (0, none))
  root_Reached c r e b = record {
    cur = 0;
    result = refl;
    inside = v.some_node;
    best = rw v.root (record {
      prefix = nil_prefix _;
      longest = λ q a k. elim (has_prefix-cons c q r a) [
        | inl empty ↦ rw empty (nil_prefix _)
        | inr (q', (same, a')) ↦
            let inner = b.longest q' a' (ap (known t.children) (sym same) ∙ k) in
            let size = length-has_prefix q' (name 0) inner in
            let empty = no_runes q' (omega (arith, size, ap length v.root)) in
            let gone =
              sym k
              ∙ ap (known t.children) (same ∙ ap (λ l. c ∷ l) (empty ∙ sym v.root))
              ∙ known_below t.children c (name 0) 0 (v.by_name 0 v.some_node) e in
            absurd (ground (arith, gone))
      ];
    });
  }

  descend-Reached :
      (n c cur : ℕ) (r : Text)
      → cur < t.next_node
      → length (name cur) < n
      → lookup runes c (t.children cur) ≡ none
      → Carries t.children c r (name cur)
      → Reached t name (c ∷ r) (descend n t c cur)
  unfolding descend
  descend-Reached zero c cur r h l e b = absurd (omega (arith, l))
  descend-Reached (suc n) c cur r h l e b = elim (Bool-cases (cur == 0)) [
    | inl z ↦
        let root : cur ≡ 0 = ground (arith, z) in
        let free = sym (ap (λ x. lookup runes c (t.children x)) root) ∙ e in
        rw (descend, z, root) (root_Reached c r free (rw (← root) b))
    | inr z ↦
        let deep : 0 < length (name cur) = elim (Bool-cases (length (name cur) == 0)) [
          | inl f ↦
              let root = only_root t name v cur h (ground (arith, f)) in
              absurd (ground (arith, z, root))
          | inr f ↦ ground (arith, f)
        ] in
        let to = linked cur h deep in
        let next = Next-Carries c cur to.to r h e to.leads b in
        elim (Option-cases (lookup runes c (t.children to.to))) [
          | inr (g, found) ↦
              rw (descend, z, to.link, found) (child_Reached c to.to g r to.inside found next)
          | inl free ↦
              rw (descend, z, to.link, free)
                (descend-Reached n c to.to r to.inside (omega (arith, l, to.leads.shorter)) free
                  next)
        ]
  ]

  pub advance-Reached :
      (c cur : ℕ) (r : Text)
      → cur < t.next_node
      → Best t.children r (name cur)
      → Reached t name (c ∷ r) (advance t c cur)
  unfolding advance
  advance-Reached c cur r h b =
      let carries = Best-Carries t.children c r (name cur) b in
      elim (Option-cases (lookup runes c (t.children cur))) [
        | inr (g, found) ↦ rw (advance, found) (child_Reached c cur g r h found carries)
        | inl free ↦
            rw (advance, free)
              (descend-Reached (suc (t.depth cur)) c cur r h (omega (arith, v.deep cur h)) free
                carries)
      ]
