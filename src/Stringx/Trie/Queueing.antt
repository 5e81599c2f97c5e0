-- ===== src/Stringx/Trie/Queueing.antt =====
-- The queue of `build` of core/stringx/node.go goes through the nodes of a trie level by level.
use go_zero_update.Common.{
  ℕ, zero, suc, ◌<◌, ◌≤◌, ◌≡◌, refl, sym, ap, ◌∙◌, inl, inr, Bool, true, false, ◌||◌, List, [], ◌∷◌,
  ◌++◌, none, some, ◌==◌, length, arith, Bool-cases,
}
use go_zero_update.Common.Store.{mem, Nodup}
use go_zero_update.Common.Maps.{lookup}
use go_zero_update.Stringx.{Text}
use go_zero_update.Stringx.Trie.{Nodes, runes}
use go_zero_update.Stringx.Trie.Names.{node_of, IsTrie, node_of-cons, node_of-name}
use go_zero_update.Stringx.Trie.Links.{Linked, LinkedTo, only_root}

-- The sizes along a list do not fall, and stay in their bounds.
abbrev pub Levels : (ℕ → ℕ) → ℕ → ℕ → List ℕ → Type 0
Levels size lo hi [] = Unit
Levels size lo hi (i ∷ is) = (lo ≤ size i) × ((size i ≤ hi) × Levels size (size i) hi is)

least-Levels :
    (size : ℕ → ℕ) (lo hi : ℕ) (is : List ℕ)
    → Levels size lo hi is
    → (i : ℕ) → mem i is ≡ true
    → lo ≤ size i
unfolding mem
least-Levels size lo hi [] l i h = absurd (ground (arith, h))
least-Levels size lo hi (j ∷ is) l i h = elim (Bool-cases (j == i)) [
  | inl e ↦ let same : j ≡ i = ground (arith, e) in omega (arith, l.0, ap size same)
  | inr e ↦
      let rest = least-Levels size (size j) hi is (l.1.1) i (ground (arith, h, e)) in
      omega (arith, l.0, rest)
]

pub append-Levels :
    (size : ℕ → ℕ) (lo hi top : ℕ) (is js : List ℕ)
    → Levels size lo hi is
    → hi ≤ top
    → lo ≤ top
    → ((j : ℕ) → mem j js ≡ true → size j ≡ top)
    → Levels size lo top (is ++ js)
unfolding mem
append-Levels size lo hi top [] [] l a b h = tt
append-Levels size lo hi top [] (j ∷ js) l a b h =
    let here = h j (ground arith) in
    (
      omega (arith, b, here),
      (
        omega (arith, here),
        append-Levels size (size j) (size j) top [] js tt (omega (arith, here))
            (omega (arith, here)) (λ k m. h k (ground (arith, m))),
      ),
    )
append-Levels size lo hi top (i ∷ is) js l a b h = (
  l.0,
  (
    omega (arith, a, l.1.0),
    append-Levels size (size i) hi top is js (l.1.1) a (omega (arith, a, l.1.0)) h,
  ),
)

-- How `build` stands: `done` are the nodes it has taken from the queue, with the root.
pub record Queue (t : Nodes) (name : ℕ → Text) (done : ℕ → Bool) (nodes : List ℕ) (lo : ℕ)
    : Type 0 where
  pub root_link : t.fail 0 ≡ none
  pub root_done : done 0 ≡ true
  pub below :
      (p c i : ℕ)
      → p < t.next_node
      → lookup runes c (t.children p) ≡ some i
      → done p ≡ true
      → Linked t name i × ((mem i nodes || done i) ≡ true)
  pub fresh :
      (p c i : ℕ)
      → p < t.next_node
      → lookup runes c (t.children p) ≡ some i
      → done p ≡ false
      → (mem i nodes ≡ false) × (done i ≡ false)
  pub queued :
      (i : ℕ)
      → mem i nodes ≡ true
      → (i < t.next_node) × ((0 < length (name i)) × (Linked t name i × (done i ≡ false)))
  pub once : Nodup nodes
  pub levels : Levels (λ i. length (name i)) lo (suc lo) nodes

-- The node above a node.
pub parent :
    (t : Nodes) (name : ℕ → Text) (i : ℕ)
    → IsTrie t name
    → i < t.next_node
    → 0 < length (name i)
    → (p : ℕ) × (c : ℕ) × ((p < t.next_node)
        × ((lookup runes c (t.children p) ≡ some i) × (length (name i) ≡ suc (length (name p)))))
parent t name i v h d = split (name i) refl
  where
    split :
        (s : Text)
        → name i ≡ s
        → (p : ℕ) × (c : ℕ) × ((p < t.next_node)
            × ((lookup runes c (t.children p) ≡ some i)
                × (length (name i) ≡ suc (length (name p)))))
    split [] e = absurd (omega (arith, d, ap length e))
    split (c ∷ r) e =
        let (p, (found, child)) =
          node_of-cons t.children c r i (ap (node_of t.children) (sym e) ∙ v.by_name i h) in
        let (in_, here) = node_of-name t.children t.depth t.next_node name v r p found in
        (p, c, (in_, (child, omega (arith, ap length e, ap length here))))

module _ (t : Nodes) (name : ℕ → Text) (v : IsTrie t name) where
  -- The levels above the queue are done.
  pub done_above :
      (done : ℕ → Bool) (nodes : List ℕ) (lo bound : ℕ)
      → Queue t name done nodes lo
      → ((i : ℕ) → mem i nodes ≡ true → bound ≤ length (name i))
      → (n i : ℕ) → length (name i) < n
      → i < t.next_node
      → length (name i) < bound
      → done i ≡ true
  done_above done nodes lo bound q least zero i l h a = absurd (omega (arith, l))
  done_above done nodes lo bound q least (suc n) i l h a =
      elim (Bool-cases (length (name i) == 0)) [
        | inl z ↦ ap done (only_root t name v i h (ground (arith, z))) ∙ q.root_done
        | inr z ↦
            let (p, c, (in_, (child, size))) = parent t name i v h (ground (arith, z)) in
            let above =
              done_above done nodes lo bound q least n p (omega (arith, l, size)) in_
                (omega (arith, a, size)) in
            let (_, next) = q.below p c i in_ child above in
            elim (Bool-cases (mem i nodes)) [
              | inl e ↦ absurd (omega (arith, least i e, a))
              | inr e ↦ ground (arith, next, e)
            ]
      ]

  pub linked_above :
      (done : ℕ → Bool) (nodes : List ℕ) (lo bound : ℕ)
      → Queue t name done nodes lo
      → ((i : ℕ) → mem i nodes ≡ true → bound ≤ length (name i))
      → LinkedTo t name bound
  linked_above done nodes lo bound q least = (
    q.root_link,
    λ i h a b.
        let (p, c, (in_, (child, size))) = parent t name i v h a in
        let above =
          done_above done nodes lo bound q least (suc (length (name p))) p (omega arith) in_
            (omega (arith, b, size)) in
        (q.below p c i in_ child above).0,
  )

  -- The nodes below different nodes are different.
  pub one_parent :
      (p r c d i : ℕ)
      → p < t.next_node
      → r < t.next_node
      → lookup runes c (t.children p) ≡ some i
      → lookup runes d (t.children r) ≡ some i
      → p ≡ r
  one_parent p r c d i h k e f =
      let texts : c ∷ name p ≡ d ∷ name r = sym ((v.step p c i h e).1) ∙ (v.step r d i k f).1 in
      let same : name p ≡ name r = cc texts in
      let both : some p ≡ some r =
        sym (v.by_name p h) ∙ ap (node_of t.children) same ∙ v.by_name r k in
      cc both

  pub head_least :
      (done : ℕ → Bool) (nd lo : ℕ) (nodes : List ℕ)
      → Queue t name done (nd ∷ nodes) lo
      → (i : ℕ) → mem i (nd ∷ nodes) ≡ true
      → length (name nd) ≤ length (name i)
  unfolding mem
  head_least done nd lo nodes q i h = elim (Bool-cases (nd == i)) [
    | inl e ↦ let same : nd ≡ i = ground (arith, e) in omega (arith, ap (λ j. length (name j)) same)
    | inr e ↦
        least-Levels (λ j. length (name j)) (length (name nd)) (suc lo) nodes (q.levels.1.1) i
          (ground (arith, h, e))
  ]
