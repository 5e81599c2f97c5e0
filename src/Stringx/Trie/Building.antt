-- ===== src/Stringx/Trie/Building.antt =====
-- `build` of core/stringx/node.go sets every link of a trie.
use go_zero_update.Common.{
  ℕ, zero, suc, ◌<◌, ◌≤◌, ◌≡◌, refl, sym, ap, ◌∙◌, inl, inr, Bool, true, false, List, [], ◌∷◌, ◌++◌,
  Option, none, some, ◌==◌, if◌then◌else◌, length, arith, Bool-cases,
}
use go_zero_update.Common.Store.{write, mem}
use go_zero_update.Common.Maps.{lookup}
use go_zero_update.Stringx.{Text}
use go_zero_update.Stringx.Trie.{Nodes, runes, targets, link_root, build_from, build}
use go_zero_update.Stringx.Trie.Names.{IsTrie}
use go_zero_update.Stringx.Trie.Links.{only_root}
use go_zero_update.Stringx.Trie.Advancing.{IsLinked}
use go_zero_update.Stringx.Trie.Fails.{
  with_fail, Relinked, mem-lookup, lookup-mem, targets-Nodup, link_root-Relinked,
}
use go_zero_update.Stringx.Trie.Queueing.{Queue, Levels, done_above, parent}
use go_zero_update.Stringx.Trie.Steps.{kids, head_queued, head_Relinked, next_Queue}

-- The nodes that are not done.
undone : (ℕ → Bool) → ℕ → ℕ
undone done zero = 0
undone done (suc n) = if done n then undone done n else suc (undone done n)

undone_same : (done : ℕ → Bool) (nd n : ℕ) → n ≤ nd → undone (write done nd true) n ≡ undone done n
unfolding undone
undone_same done nd zero h = refl
undone_same done nd (suc n) h =
    let other : (nd == n) ≡ false = ground (arith, h) in
    rw (undone, other, undone_same done nd n (omega (arith, h))) refl

undone_less :
    (done : ℕ → Bool) (nd n : ℕ)
    → nd < n
    → done nd ≡ false
    → undone done n ≡ suc (undone (write done nd true) n)
unfolding undone
undone_less done nd zero h e = absurd (omega (arith, h))
undone_less done nd (suc n) h e = elim (Bool-cases (nd == n)) [
  | inl f ↦
      let same : nd ≡ n = ground (arith, f) in
      let here : done n ≡ false = ap done (sym same) ∙ e in
      rw (f, here) (ap suc (sym (undone_same done nd n (omega (arith, same)))))
  | inr f ↦ rw f (ground (arith, undone_less done nd n (ground (arith, f, h)) e))
]

-- What `build` leaves.
pub record Built (t : Nodes) (name : ℕ → Text) (run : Option Nodes) : Type 0 where
  pub fail : ℕ → Option ℕ
  pub result : run ≡ some (with_fail t fail)
  pub root : fail 0 ≡ none
  pub linked : IsLinked (with_fail t fail) name

all_Linked :
    (t : Nodes) (name : ℕ → Text) (done : ℕ → Bool) (lo : ℕ)
    → IsTrie t name
    → Queue t name done [] lo
    → IsLinked t name
unfolding mem
all_Linked t name done lo v q = λ i h d.
    let (p, c, (in_, (child, size))) = parent t name i v h d in
    let above =
      done_above t name v done [] lo (length (name i)) q (λ j m. absurd (ground (arith, m)))
        (suc (length (name p))) p (omega arith) in_ (omega (arith, size)) in
    (q.below p c i in_ child above).0

build_from_done : (n : ℕ) (t : Nodes) → build_from n t [] ≡ some t
unfolding build_from
build_from_done zero t = refl
build_from_done (suc n) t = refl

build_from-Built :
    (n : ℕ) (t : Nodes) (name : ℕ → Text) (done : ℕ → Bool) (nodes : List ℕ) (lo : ℕ)
    → IsTrie t name
    → Queue t name done nodes lo
    → undone done t.next_node ≤ n
    → Built t name (build_from n t nodes)
unfolding build_from
build_from-Built n t name done [] lo v q h = record {
  fail = t.fail;
  result = build_from_done n t;
  root = q.root_link;
  linked = all_Linked t name done lo v q;
}
build_from-Built zero t name done (nd ∷ nodes) lo v q h =
    let (in_, (_, (_, fresh))) = head_queued t name v done nd lo nodes q in
    absurd (omega (arith, undone_less done nd t.next_node in_ fresh, h))
build_from-Built (suc n) t name done (nd ∷ nodes) lo v q h =
    let (in_, (_, (_, fresh))) = head_queued t name v done nd lo nodes q in
    let s = head_Relinked t name v done nd lo nodes q in
    let rest =
      build_from-Built n (with_fail t s.fail) name (write done nd true)
        (nodes ++ targets (t.children nd)) (length (name nd)) v
        (next_Queue t name v done nd lo nodes q)
        (omega (arith, undone_less done nd t.next_node in_ fresh, h)) in
    record {
      fail = rest.fail;
      result = ap (λ x. build_from n x (nodes ++ targets (t.children nd))) s.result ∙ rest.result;
      root = rest.root;
      linked = rest.linked;
    }

undone_all : (n : ℕ) → undone (λ i. i == 0) n ≤ n
unfolding undone
undone_all zero = omega arith
undone_all (suc n) = ground (arith, undone_all n)

level_one :
    (size : ℕ → ℕ) (lo : ℕ) (is : List ℕ)
    → lo ≤ 1
    → ((i : ℕ) → mem i is ≡ true → size i ≡ 1)
    → Levels size lo 2 is
unfolding mem
level_one size lo [] a h = tt
level_one size lo (i ∷ is) a h =
    let here = h i (ground arith) in
    (
      omega (arith, here, a),
      (
        omega (arith, here),
        level_one size (size i) is (omega (arith, here)) (λ j m. h j (ground (arith, m))),
      ),
    )

root_Queue :
    (t : Nodes) (name : ℕ → Text) (v : IsTrie t name)
    → ((i : ℕ) → t.fail i ≡ none)
    → (s : Relinked t name (t.children 0) (link_root t (t.children 0)))
    → Queue (with_fail t s.fail) name (λ i. i == 0) (targets (t.children 0)) 1
root_Queue t name v none_yet s =
    let kid : (i : ℕ)
        → mem i (targets (t.children 0)) ≡ true
        → (i < t.next_node) × (length (name i) ≡ 1) =
      λ i h.
        let (key, found) = lookup-mem i (t.children 0) (v.distinct 0 v.some_node) h in
        let (there, text) = v.step 0 key i v.some_node found in
        (there, omega (arith, ap length text, ap length v.root)) in
    record {
      root_link =
          s.others 0 (elim (Bool-cases (mem 0 (targets (t.children 0)))) [
            | inl e ↦ absurd (omega (arith, (kid 0 e).1, ap length v.root))
            | inr e ↦ e
          ])
          ∙ none_yet 0;
      root_done = refl;
      below = λ p c i h e f.
          let same : p ≡ 0 = ground (arith, f) in
          let child =
            mem-lookup c i (t.children 0)
              (ap (λ j. lookup runes c (t.children j)) (sym same) ∙ e) in
          (s.set i child, ground (arith, child));
      fresh = λ p c i h e f.
          let deep : 0 < length (name p) = elim (Bool-cases (length (name p) == 0)) [
            | inl g ↦
                let root = only_root t name v p h (ground (arith, g)) in
                absurd (ground (arith, f, root))
            | inr g ↦ ground (arith, g)
          ] in
          let size = ap length ((v.step p c i h e).1) in
          (
            elim (Bool-cases (mem i (targets (t.children 0)))) [
              | inl g ↦ absurd (omega (arith, (kid i g).1, size, deep))
              | inr g ↦ g
            ],
            elim (Bool-cases (i == 0)) [
              | inl g ↦
                  let same : i ≡ 0 = ground (arith, g) in
                  absurd (omega (arith, size, ap (λ j. length (name j)) same, ap length v.root))
              | inr g ↦ g
            ],
          );
      queued = λ i h.
          let (there, size) = kid i h in
          (
            there,
            (
              omega (arith, size),
              (
                s.set i h,
                elim (Bool-cases (i == 0)) [
                  | inl e ↦
                      let same : i ≡ 0 = ground (arith, e) in
                      absurd (omega (arith, size, ap (λ j. length (name j)) same, ap length v.root))
                  | inr e ↦ e
                ],
              ),
            ),
          );
      once =
          targets-Nodup t.next_node name (name 0) (t.children 0) (v.distinct 0 v.some_node)
            (kids t name v 0 v.some_node);
      levels =
          level_one (λ i. length (name i)) 1 (targets (t.children 0)) (omega arith)
            (λ i h. (kid i h).1);
    }

-- `build` of a trie with no links yet.
pub build-Built :
    (t : Nodes) (name : ℕ → Text)
    → IsTrie t name
    → ((i : ℕ) → t.fail i ≡ none)
    → Built t name (build t)
unfolding build
build-Built t name v none_yet =
    let s = link_root-Relinked (t.children 0) t name v (v.distinct 0 v.some_node) (λ key i e.
      let (there, text) = v.step 0 key i v.some_node e in
      (there, text ∙ ap (λ l. key ∷ l) v.root)) in
    let rest =
      build_from-Built t.next_node (with_fail t s.fail) name (λ i. i == 0) (targets (t.children 0))
        1 v (root_Queue t name v none_yet s) (undone_all t.next_node) in
    record {
      fail = rest.fail;
      result = ap (λ x. build_from t.next_node x (targets (t.children 0))) s.result ∙ rest.result;
      root = rest.root;
      linked = rest.linked;
    }
