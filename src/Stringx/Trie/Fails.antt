-- ===== src/Stringx/Trie/Fails.antt =====
-- The links that `build` of core/stringx/node.go sets for the children of one node.
use go_zero_update.Common.{
  ℕ, suc, ◌<◌, ◌≤◌, ◌≡◌, refl, sym, ap, ◌∙◌, inl, inr, true, false, List, [], ◌∷◌, Option, none,
  some, ◌==◌, length, arith, Bool-cases,
}
use go_zero_update.Common.Store.{write, mem, Nodup}
use go_zero_update.Common.Maps.{lookup, Distinct}
use go_zero_update.Stringx.{Text}
use go_zero_update.Stringx.Trie.{Nodes, runes, targets, link_children, link_root}
use go_zero_update.Stringx.Trie.Names.{IsTrie}
use go_zero_update.Stringx.Trie.Links.{Next, Linked, LinkedTo, nil_prefix, no_runes, fail_for-Next}

abbrev pub with_fail : Nodes → (ℕ → Option ℕ) → Nodes
with_fail t fail = record t { fail = fail }

-- The links of some nodes are set, and no other.
pub record Relinked (t : Nodes) (name : ℕ → Text) (l : List (ℕ × ℕ)) (run : Nodes) : Type 0 where
  pub fail : ℕ → Option ℕ
  pub result : run ≡ with_fail t fail
  pub set : (i : ℕ) → mem i (targets l) ≡ true → Linked (with_fail t fail) name i
  pub others : (i : ℕ) → mem i (targets l) ≡ false → fail i ≡ t.fail i

-- The children of a node with the name `p`.
abbrev pub Kids : ℕ → (ℕ → Text) → Text → List (ℕ × ℕ) → Type 0
Kids next name p l = (key i : ℕ) → lookup runes key l ≡ some i → (i < next) × (name i ≡ key ∷ p)

pub relink :
    (t : Nodes) (name : ℕ → Text) (fail : ℕ → Option ℕ) (i : ℕ)
    → fail i ≡ t.fail i
    → Linked t name i
    → Linked (with_fail t fail) name i
relink t name fail i e l = record {
  to = l.to;
  link = e ∙ l.link;
  inside = l.inside;
  leads = l.leads;
}

other_key :
    (key k i child : ℕ) (rest : List (ℕ × ℕ))
    → lookup runes key rest ≡ none
    → lookup runes k rest ≡ some i
    → lookup runes k ((key, child) ∷ rest) ≡ some i
unfolding lookup
other_key key k i child rest d h = elim (Bool-cases (key == k)) [
  | inl e ↦
      let same : key ≡ k = ground (arith, e) in
      let gone : some i ≡ none = sym h ∙ ap (λ j. lookup runes j rest) (sym same) ∙ d in
      absurd (ground (arith, gone))
  | inr e ↦ rw e h
]

first_key :
    (key child : ℕ) (rest : List (ℕ × ℕ)) → lookup runes key ((key, child) ∷ rest) ≡ some child
unfolding lookup
first_key key child rest = let itself : (key == key) ≡ true = ground arith in rw itself refl

pub mem-lookup :
    (key i : ℕ) (l : List (ℕ × ℕ)) → lookup runes key l ≡ some i → mem i (targets l) ≡ true
unfolding lookup mem
mem-lookup key i [] h = absurd (ground (arith, h))
mem-lookup key i ((k, j) ∷ rest) h = elim (Bool-cases (k == key)) [
  | inl e ↦ let same : some j ≡ some i = sym (rw e refl) ∙ h in ground (arith, same)
  | inr e ↦
      let found : lookup runes key rest ≡ some i = sym (rw e refl) ∙ h in
      ground (arith, mem-lookup key i rest found)
]

pub lookup-mem :
    (i : ℕ) (l : List (ℕ × ℕ))
    → Distinct runes l
    → mem i (targets l) ≡ true
    → (key : ℕ) × (lookup runes key l ≡ some i)
unfolding mem
lookup-mem i [] d h = absurd (ground (arith, h))
lookup-mem i ((key, j) ∷ rest) d h = elim (Bool-cases (j == i)) [
  | inl e ↦ let same : j ≡ i = ground (arith, e) in (key, first_key key j rest ∙ ap some same)
  | inr e ↦
      let (k, found) = lookup-mem i rest (d.1) (ground (arith, h, e)) in
      (k, other_key key k i j rest (d.0) found)
]

module _ (next : ℕ) (name : ℕ → Text) (p : Text) where
  tail-Kids :
      (key child : ℕ) (rest : List (ℕ × ℕ))
      → lookup runes key rest ≡ none
      → Kids next name p ((key, child) ∷ rest)
      → Kids next name p rest
  tail-Kids key child rest d h = λ k i e. h k i (other_key key k i child rest d e)

  pub targets-Nodup : (l : List (ℕ × ℕ)) → Distinct runes l → Kids next name p l → Nodup (targets l)
  unfolding mem
  targets-Nodup [] d h = tt
  targets-Nodup ((key, child) ∷ rest) d h =
      let once : mem child (targets rest) ≡ false = elim (Bool-cases (mem child (targets rest))) [
        | inr e ↦ e
        | inl e ↦
            let (k, found) = lookup-mem child rest (d.1) e in
            let one = (h k child (other_key key k child child rest (d.0) found)).1 in
            let two = (h key child (first_key key child rest)).1 in
            let texts : key ∷ p ≡ k ∷ p = sym two ∙ one in
            let same : key ≡ k = cc texts in
            let gone : none ≡ some child = sym (d.0) ∙ ap (λ j. lookup runes j rest) same ∙ found in
            absurd (ground (arith, gone))
      ] in
      (once, targets-Nodup rest (d.1) (tail-Kids key child rest (d.0) h))

module _ (name : ℕ → Text) where
  nothing_Set : (t : Nodes) → Relinked t name [] t
  unfolding mem
  nothing_Set t = record {
    fail = t.fail;
    result = refl;
    set = λ i h. absurd (ground (arith, h));
    others = λ i h. refl;
  }

  -- One link more, set before the others.
  cons_Set :
      (t run : Nodes) (key child g : ℕ) (rest : List (ℕ × ℕ))
      → g < t.next_node
      → Next t.children (name child) (name g)
      → Relinked (with_fail t (write t.fail child (some g))) name rest run
      → Relinked t name ((key, child) ∷ rest) run
  unfolding mem
  cons_Set t run key child g rest h n s = record {
    fail = s.fail;
    result = s.result;
    set = λ i m. elim (Bool-cases (mem i (targets rest))) [
      | inl e ↦ s.set i e
      | inr e ↦
          let same : child ≡ i = ground (arith, m, e) in
          let itself : (child == i) ≡ true = ground (arith, same) in
          record { to = g; link = s.others i e ∙ rw itself refl; inside = h; leads = rw (← same) n }
    ];
    others = λ i m.
        let other : (child == i) ≡ false = ground (arith, m) in
        s.others i (ground (arith, m)) ∙ rw other refl;
  }

top_Next : (children : ℕ → List (ℕ × ℕ)) (key : ℕ) → Next children (key ∷ []) []
top_Next children key = record {
  prefix = nil_prefix _;
  shorter = omega arith;
  longest = λ q a k m. rw (no_runes q (omega (arith, m))) (nil_prefix _);
}

pub link_root-Relinked :
    (l : List (ℕ × ℕ)) (t : Nodes) (name : ℕ → Text)
    → IsTrie t name
    → Distinct runes l
    → Kids t.next_node name [] l
    → Relinked t name l (link_root t l)
unfolding link_root
link_root-Relinked [] t name v d h = nothing_Set name t
link_root-Relinked ((key, child) ∷ rest) t name v d h =
    let t' = with_fail t (write t.fail child (some 0)) in
    let there = (h key child (first_key key child rest)).1 in
    cons_Set name t (link_root t' rest) key child 0 rest v.some_node
      (rw (there, v.root) (top_Next t.children key))
      (link_root-Relinked rest t' name v (d.1)
        (tail-Kids t.next_node name [] key child rest (d.0) h))

write-LinkedTo :
    (t : Nodes) (name : ℕ → Text) (d child : ℕ) (g : Option ℕ)
    → IsTrie t name
    → d < length (name child)
    → LinkedTo t name d
    → LinkedTo (with_fail t (write t.fail child g)) name d
write-LinkedTo t name d child g v h l =
    let kept : (i : ℕ) → length (name i) ≤ d → write t.fail child g i ≡ t.fail i = λ i e.
      elim (Bool-cases (child == i)) [
        | inl f ↦
            let same : child ≡ i = ground (arith, f) in
            absurd (omega (arith, h, e, ap (λ j. length (name j)) same))
        | inr f ↦ rw f refl
      ] in
    (
      kept 0 (omega (arith, ap length v.root)) ∙ l.0,
      λ i a b e. relink t name (write t.fail child g) i (kept i e) (l.1 i a b e),
    )

pub link_children-Relinked :
    (l : List (ℕ × ℕ)) (t : Nodes) (name : ℕ → Text) (nd : ℕ)
    → IsTrie t name
    → nd < t.next_node
    → Distinct runes l
    → Kids t.next_node name (name nd) l
    → LinkedTo t name (length (name nd))
    → Relinked t name l (link_children t nd l)
unfolding link_children
link_children-Relinked [] t name nd v a d h e = nothing_Set name t
link_children-Relinked ((key, child) ∷ rest) t name nd v a d h e =
    let there = (h key child (first_key key child rest)).1 in
    let (g, (run, (in_, next))) =
      fail_for-Next t name v (suc (t.depth nd)) (length (name nd)) key nd e a (omega arith)
        (omega (arith, v.deep nd a)) in
    let t' = with_fail t (write t.fail child (some g)) in
    let kept =
      write-LinkedTo t name (length (name nd)) child (some g) v (omega (arith, ap length there))
        e in
    rw (link_children, run)
      (cons_Set name t (link_children t' nd rest) key child g rest in_ (rw there next) (
        link_children-Relinked rest t' name nd v a (d.1)
          (tail-Kids t.next_node name (name nd) key child rest (d.0) h) kept))
