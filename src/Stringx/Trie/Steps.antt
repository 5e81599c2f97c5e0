-- ===== src/Stringx/Trie/Steps.antt =====
-- One round of `build` of core/stringx/node.go: it takes a node and queues its children.
use go_zero_update.Common.{
  ℕ, suc, ◌<◌, ◌≡◌, refl, sym, ap, ◌∙◌, inl, inr, Bool, true, false, List, ◌∷◌, ◌++◌, some, ◌==◌,
  length, arith, Bool-cases,
}
use go_zero_update.Common.Store.{write, mem, mem-append, append-Nodup}
use go_zero_update.Common.Maps.{lookup}
use go_zero_update.Stringx.{Text}
use go_zero_update.Stringx.Trie.{Nodes, runes, targets, link_children}
use go_zero_update.Stringx.Trie.Names.{IsTrie}
use go_zero_update.Stringx.Trie.Links.{Linked}
use go_zero_update.Stringx.Trie.Fails.{
  with_fail, Relinked, Kids, relink, mem-lookup, lookup-mem, targets-Nodup, link_children-Relinked,
}
use go_zero_update.Stringx.Trie.Queueing.{
  Queue, append-Levels, linked_above, one_parent, head_least,
}

module _ (t : Nodes) (name : ℕ → Text) (v : IsTrie t name) where
  pub kids : (nd : ℕ) → nd < t.next_node → Kids t.next_node name (name nd) (t.children nd)
  kids nd h = λ key i e. v.step nd key i h e

  still_Linked :
      (l : List (ℕ × ℕ)) (run : Nodes) (s : Relinked t name l run) (i : ℕ)
      → Linked t name i
      → Linked (with_fail t s.fail) name i
  still_Linked l run s i h = elim (Bool-cases (mem i (targets l))) [
    | inl e ↦ s.set i e
    | inr e ↦ relink t name s.fail i (s.others i e) h
  ]

  module _ (done : ℕ → Bool) (nd lo : ℕ) (nodes : List ℕ)
      (q : Queue t name done (nd ∷ nodes) lo) where
    abbrev pub done' : ℕ → Bool
    done' = write done nd true

    abbrev pub nodes' : List ℕ
    nodes' = nodes ++ targets (t.children nd)

    pub head_queued :
        (nd < t.next_node) × ((0 < length (name nd)) × (Linked t name nd × (done nd ≡ false)))
    unfolding mem
    head_queued = q.queued nd (ground arith)

    pub head_Relinked : Relinked t name (t.children nd) (link_children t nd (t.children nd))
    head_Relinked =
        let (in_, _) = head_queued in
        link_children-Relinked (t.children nd) t name nd v in_ (v.distinct nd in_) (kids nd in_) (
          linked_above t name v done (nd ∷ nodes) lo (length (name nd)) q
            (head_least t name v done nd lo nodes q))

    -- A child of the node taken is new.
    kid :
        (i : ℕ)
        → mem i (targets (t.children nd)) ≡ true
        → (key : ℕ) × ((lookup runes key (t.children nd) ≡ some i)
            × ((i < t.next_node)
                × ((length (name i) ≡ suc (length (name nd)))
                    × ((mem i (nd ∷ nodes) ≡ false) × (done i ≡ false)))))
    kid i h =
        let (in_, (_, (_, undone))) = head_queued in
        let (key, found) = lookup-mem i (t.children nd) (v.distinct nd in_) h in
        let (there, text) = v.step nd key i in_ found in
        (key, (found, (there, (ap length text, q.fresh nd key i in_ found undone))))

    apart_done : (i : ℕ) → mem i nodes' ≡ true → done' i ≡ false
    unfolding mem
    apart_done i h = elim (Bool-cases (mem i nodes)) [
      | inl e ↦
          let (_, (_, (_, undone))) = q.queued i (ground (arith, e)) in
          let other : (nd == i) ≡ false = elim (Bool-cases (nd == i)) [
            | inl f ↦
                let same : nd ≡ i = ground (arith, f) in
                let twice : true ≡ false = sym e ∙ ap (λ j. mem j nodes) (sym same) ∙ q.once.0 in
                absurd (ground (arith, twice))
            | inr f ↦ f
          ] in
          rw other undone
      | inr e ↦
          let below : mem i (targets (t.children nd)) ≡ true =
            ground (arith, mem-append i nodes (targets (t.children nd)), h, e) in
          let (_, (_, (_, (_, (new, undone))))) = kid i below in
          let other : (nd == i) ≡ false = ground (arith, new) in rw other undone
    ]

    pub next_Queue : Queue (with_fail t head_Relinked.fail) name done' nodes' (length (name nd))
    unfolding mem
    next_Queue =
        let s = head_Relinked in
        let run = link_children t nd (t.children nd) in
        let (in_, (deep, (_, undone))) = head_queued in
        record {
          root_link =
              s.others 0 (elim (Bool-cases (mem 0 (targets (t.children nd)))) [
                | inl e ↦
                    let (_, (_, (_, (size, _)))) = kid 0 e in
                    absurd (omega (arith, size, ap length v.root))
                | inr e ↦ e
              ])
              ∙ q.root_link;
          root_done = ground (arith, q.root_done);
          below = λ p c i h e f. elim (Bool-cases (nd == p)) [
            | inl g ↦
                let same : nd ≡ p = ground (arith, g) in
                let child : mem i (targets (t.children nd)) ≡ true =
                  mem-lookup c i (t.children nd)
                    (ap (λ j. lookup runes c (t.children j)) same ∙ e) in
                (s.set i child, ground (arith, mem-append i nodes (targets (t.children nd)), child))
            | inr g ↦
                let (linked, next) = q.below p c i h e (sym (rw g refl) ∙ f) in
                (
                  still_Linked (t.children nd) run s i linked,
                  ground (arith, mem-append i nodes (targets (t.children nd)), next),
                )
          ];
          fresh = λ p c i h e f.
              let other : (nd == p) ≡ false = ground (arith, f) in
              let (new, undone_i) = q.fresh p c i h e (sym (rw other refl) ∙ f) in
              let no_kid : mem i (targets (t.children nd)) ≡ false =
                elim (Bool-cases (mem i (targets (t.children nd)))) [
                  | inl g ↦
                      let (d, (found, _)) = kid i g in
                      let same = one_parent t name v p nd c d i h in_ e found in
                      absurd (ground (arith, other, same))
                  | inr g ↦ g
                ] in
              (
                ground (arith, mem-append i nodes (targets (t.children nd)), no_kid, new),
                ground (arith, undone_i, new),
              );
          queued = λ i h.
              let undone_i = apart_done i h in
              elim (Bool-cases (mem i nodes)) [
                | inl e ↦
                    let (there, (size, (linked, _))) = q.queued i (ground (arith, e)) in
                    (there, (size, (still_Linked (t.children nd) run s i linked, undone_i)))
                | inr e ↦
                    let child : mem i (targets (t.children nd)) ≡ true =
                      ground (arith, mem-append i nodes (targets (t.children nd)), h, e) in
                    let (_, (_, (there, (size, _)))) = kid i child in
                    (there, (omega (arith, size), (s.set i child, undone_i)))
              ];
          once =
              append-Nodup nodes (targets (t.children nd)) (q.once.1)
                (targets-Nodup t.next_node name (name nd) (t.children nd) (v.distinct nd in_)
                  (kids nd in_))
                (λ i h. elim (Bool-cases (mem i (targets (t.children nd)))) [
                  | inl e ↦
                      let (_, (_, (_, (_, (new, _))))) = kid i e in absurd (ground (arith, new, h))
                  | inr e ↦ e
                ]);
          levels =
              append-Levels (λ i. length (name i)) (length (name nd)) (suc lo)
                (suc (length (name nd))) nodes (targets (t.children nd)) (q.levels.1.1)
                (omega (arith, q.levels.0)) (omega arith)
                (λ i h. let (_, (_, (_, (size, _)))) = kid i h in size);
        }
