-- ===== src/Stringx/Trie/Links.antt =====
-- The links of the trie of core/stringx/node.go: each leads to the longest other name that the runes
-- read so far end with.
use go_zero_update.Common.{
  ℕ, zero, suc, ◌<◌, ◌≤◌, ◌≡◌, refl, sym, ap, ◌∙◌, inl, inr, Bool, true, false, [], ◌∷◌, none, some,
  Option-cases, ◌==◌, length, arith, Bool-cases,
}
use go_zero_update.Common.Texts.{
  has_prefix, has_prefix_trans, length-has_prefix, has_prefix_whole, has_prefix-cons,
  cons-has_prefix,
}
use go_zero_update.Common.Maps.{is_some, lookup}
use go_zero_update.Stringx.{Text}
use go_zero_update.Stringx.Trie.{Nodes, runes, fail_for}
use go_zero_update.Stringx.Trie.Names.{Edges, node_of, IsTrie, node_of_below}

-- The names of the trie.
abbrev pub known : Edges → Text → Bool
known children q = is_some (node_of children q)

-- `s` is the longest proper prefix of `p` that is a name.
pub record Next (children : Edges) (p s : Text) : Type 0 where
  pub prefix : has_prefix s p ≡ true
  pub shorter : length s < length p
  pub longest :
      (q : Text)
      → has_prefix q p ≡ true
      → known children q ≡ true
      → length q < length p
      → has_prefix q s ≡ true

pub record Linked (t : Nodes) (name : ℕ → Text) (i : ℕ) : Type 0 where
  pub to : ℕ
  pub link : t.fail i ≡ some to
  pub inside : to < t.next_node
  pub leads : Next t.children (name i) (name to)

pub nil_prefix : (s : Text) → has_prefix [] s ≡ true
unfolding has_prefix
nil_prefix s = refl

pub known_below :
    (children : Edges) (c : ℕ) (r : Text) (i : ℕ)
    → node_of children r ≡ some i
    → lookup runes c (children i) ≡ none
    → known children (c ∷ r) ≡ false
known_below children c r i h e = rw (node_of_below children c r i h, e) refl

pub no_runes : (s : Text) → length s ≤ 0 → s ≡ []
no_runes [] h = refl
no_runes (c ∷ s) h = absurd (omega (arith, h))

pub known-cons :
    (children : Edges) (c : ℕ) (q : Text) → known children (c ∷ q) ≡ true → known children q ≡ true
unfolding node_of
known-cons children c q h = elim (Option-cases (node_of children q)) [
  | inl e ↦ absurd (ground (arith, h, e))
  | inr (i, e) ↦ ground (arith, e)
]

-- The links up to a depth are right, and the root has none.
abbrev pub LinkedTo : Nodes → (ℕ → Text) → ℕ → Type 0
LinkedTo t name d =
    (t.fail 0 ≡ none)
    × ((i : ℕ) → i < t.next_node → 0 < length (name i) → length (name i) ≤ d → Linked t name i)

module _ (t : Nodes) (name : ℕ → Text) (v : IsTrie t name) where
  -- A child of the node that a link leads to.
  Next-child :
      (key f g : ℕ) (p : Text)
      → f < t.next_node
      → Next t.children p (name f)
      → lookup runes key (t.children f) ≡ some g
      → (g < t.next_node) × ((name g ≡ key ∷ name f) × Next t.children (key ∷ p) (name g))
  Next-child key f g p h n e =
      let (in_, there) = v.step f key g h e in
      (
        in_,
        (
          there,
          rw there (record {
            prefix = cons-has_prefix key (name f) p n.prefix;
            shorter = omega (arith, n.shorter);
            longest = λ q a k l. elim (has_prefix-cons key q p a) [
              | inl none_left ↦ rw none_left (nil_prefix _)
              | inr (q', (same, b)) ↦
                  let inner =
                    n.longest q' b
                      (known-cons t.children key q' (ap (known t.children) (sym same) ∙ k))
                      (omega (arith, l, ap length same)) in
                  rw same (cons-has_prefix key q' (name f) inner)
            ];
          }),
        ),
      )

  pub only_root : (x : ℕ) → x < t.next_node → length (name x) ≤ 0 → x ≡ 0
  unfolding node_of
  only_root x h e =
      let empty : name x ≡ [] = no_runes (name x) e in
      let found : some x ≡ some 0 = sym (v.by_name x h) ∙ ap (node_of t.children) empty in cc found

  -- A node without the child that its link leads to hands over to the next link.
  Next-below :
      (key f : ℕ) (p s : Text)
      → f < t.next_node
      → Next t.children p (name f)
      → lookup runes key (t.children f) ≡ none
      → Next t.children (key ∷ name f) s
      → Next t.children (key ∷ p) s
  Next-below key f p s h n e m = record {
    prefix =
        has_prefix_trans s (key ∷ name f) (key ∷ p) m.prefix
          (cons-has_prefix key (name f) p n.prefix);
    shorter = omega (arith, m.shorter, n.shorter);
    longest = λ q a k l. elim (has_prefix-cons key q p a) [
      | inl none_left ↦ rw none_left (nil_prefix s)
      | inr (q', (same, b)) ↦
          let inner =
            n.longest q' b (known-cons t.children key q' (ap (known t.children) (sym same) ∙ k))
              (omega (arith, l, ap length same)) in
          let size = length-has_prefix q' (name f) inner in
          elim (Bool-cases (length q' == length (name f))) [
            | inl eq ↦
                let whole = has_prefix_whole q' (name f) inner (ground (arith, eq)) in
                let gone =
                  sym k
                  ∙ ap (known t.children) (same ∙ ap (λ l. key ∷ l) whole)
                  ∙ known_below t.children key (name f) f (v.by_name f h) e in
                absurd (ground (arith, gone))
            | inr ne ↦
                m.longest q (rw same (cons-has_prefix key q' (name f) inner)) k
                  (ground (arith, ne, size, ap length same))
          ]
    ];
  }

  -- The loop of `build` for one child.
  pub fail_for-Next :
      (n d key x : ℕ)
      → LinkedTo t name d
      → x < t.next_node
      → length (name x) ≤ d
      → length (name x) < n
      → (g : ℕ) × ((fail_for n t key x ≡ some g)
          × ((g < t.next_node) × Next t.children (key ∷ name x) (name g)))
  unfolding fail_for
  fail_for-Next zero d key x l h e f = absurd (omega (arith, f))
  fail_for-Next (suc n) d key x l h e f = elim (Bool-cases (length (name x) == 0)) [
    | inl z ↦
        let root = only_root x h (ground (arith, z)) in
        let stop : fail_for (suc n) t key x ≡ some 0 = rw (fail_for, ap t.fail root ∙ l.0) refl in
        let size : length (name x) ≡ 0 = ground (arith, z) in
        (
          0,
          (
            stop,
            (
              v.some_node,
              rw v.root (record {
                prefix = nil_prefix _;
                shorter = omega arith;
                longest = λ q a k m. rw (no_runes q (omega (arith, m, size))) (nil_prefix _);
              }),
            ),
          ),
        )
    | inr z ↦
        let to = l.1 x h (ground (arith, z)) e in
        elim (Option-cases (lookup runes key (t.children to.to))) [
          | inr (g, found) ↦
              let (in_, (_, next)) = Next-child key to.to g (name x) to.inside to.leads found in
              (g, (rw (fail_for, to.link, found) refl, (in_, next)))
          | inl free ↦
              let (g, (run, (in_, next))) =
                fail_for-Next n d key to.to l to.inside (omega (arith, e, to.leads.shorter))
                  (omega (arith, f, to.leads.shorter)) in
              (
                g,
                (
                  rw (fail_for, to.link, free) run,
                  (in_, Next-below key to.to (name x) (name g) to.inside to.leads free next),
                ),
              )
        ]
  ]
