-- ===== src/Stringx/Trie/Finding.antt =====
-- `find` of core/stringx/node.go finds what a search without a trie finds.
use go_zero_update.Common.{
  ℕ, zero, suc, ◌+◌, ◌-◌, ◌<◌, ◌≤◌, ◌≡◌, ◌≢◌, refl, sym, ap, ◌∙◌, inl, inr, Bool, true, false, List,
  [], ◌∷◌, ◌++◌, none, some, Option-cases, ◌==◌, length, take, length-take, arith, Bool-cases,
}
use go_zero_update.Common.Texts.{has_prefix, length-has_prefix, has_prefix_self}
use go_zero_update.Stringx.{Text}
use go_zero_update.Stringx.Trie.{
  Nodes, Scope, new_nodes, advance, scopes_at, find_from, find, add_all, new_trie,
}
use go_zero_update.Stringx.Trie.Names.{Edges, node_of, is_end, IsTrie}
use go_zero_update.Stringx.Trie.Adding.{has_word, new_nodes-HasWords}
use go_zero_update.Stringx.Trie.Fails.{with_fail}
use go_zero_update.Stringx.Trie.Building.{build-Built}
use go_zero_update.Stringx.Trie.Links.{known, Next, Linked, only_root}
use go_zero_update.Stringx.Trie.Matches.{
  matches_at, matches_from, matches_from-nil, matches_from-cons, take-has_prefix, take_whole,
  matches_at_shorter, matches_at_skip,
}
use go_zero_update.Stringx.Trie.Advancing.{IsLinked, Best, advance-Reached}

-- A text that no node has is no word.
unknown_end :
    (children : Edges) (end : ℕ → Bool) (q : Text)
    → known children q ≡ false
    → is_end children end q ≡ false
unfolding is_end
unknown_end children end q h = elim (Option-cases (node_of children q)) [
  | inl e ↦ rw (is_end, e) refl
  | inr (i, e) ↦ absurd (ground (arith, h, e))
]

module _ (t : Nodes) (name : ℕ → Text) (v : IsTrie t name) (linked : IsLinked t name)
    (words : Text → Bool) (ends : (q : Text) → is_end t.children t.end q ≡ words q) where
  -- A start of a text that is longer than the names it may have is no word.
  no_word :
      (r : Text) (j : ℕ)
      → j ≤ length r
      → ((q : Text) → has_prefix q r ≡ true → known t.children q ≡ true → length q ≢ j)
      → words (take j r) ≡ false
  no_word r j b h = elim (Bool-cases (known t.children (take j r))) [
    | inl e ↦ absurd (h (take j r) (take-has_prefix j r) e (omega (arith, length-take j r, b)))
    | inr e ↦ sym (ends (take j r)) ∙ unknown_end t.children t.end (take j r) e
  ]

  -- The words that a text ends with are those that its longest name ends with.
  Best-matches_at :
      (stop : ℕ) (r s : Text)
      → Best t.children r s
      → matches_at words stop r (length r) ≡ matches_at words stop s (length s)
  Best-matches_at stop r s b =
      matches_at_skip words stop r (length r) (length s) (length-has_prefix s r b.prefix) (λ j a c.
        no_word r j c (λ q p k e. omega (arith, a, e, length-has_prefix q s (b.longest q p k))))
      ∙ matches_at_shorter words stop s r (length s) b.prefix (omega arith)

  -- The words shorter than a name are those of its link.
  Next-matches_at :
      (stop n : ℕ) (p s : Text)
      → Next t.children p s
      → length p ≡ suc n
      → matches_at words stop p n ≡ matches_at words stop s (length s)
  Next-matches_at stop n p s b e =
      matches_at_skip words stop p n (length s) (omega (arith, b.shorter, e)) (λ j a c.
        no_word p j (omega (arith, c, e)) (λ q d k f.
          omega (arith, a, f, length-has_prefix q s (b.longest q d k (omega (arith, f, c, e))))))
      ∙ matches_at_shorter words stop s p (length s) b.prefix (omega arith)

  is_deep : (x : ℕ) → x < t.next_node → (x == 0) ≡ false → (n : ℕ) × (length (name x) ≡ suc n)
  is_deep x h z = elim (Bool-cases (length (name x) == 0)) [
    | inl f ↦
        let root = only_root t name v x h (ground (arith, f)) in absurd (ground (arith, z, root))
    | inr f ↦ (length (name x) - 1, ground (arith, f))
  ]

  end_name : (x : ℕ) → x < t.next_node → t.end x ≡ words (name x)
  unfolding is_end
  end_name x h = sym (rw (is_end, v.by_name x h) refl) ∙ ends (name x)

  scopes_at_link :
      (n i x k : ℕ)
      → x < t.next_node
      → (x == 0) ≡ false
      → length (name x) ≡ suc k
      → (to : Linked t name x)
      → scopes_at n t i to.to ≡ some (matches_at words (i + 1) (name to.to) (length (name to.to)))
      → scopes_at (suc n) t i x ≡ some (matches_at words (i + 1) (name x) (length (name x)))
  unfolding scopes_at matches_at
  scopes_at_link n i x k h z size to below =
      let shorter = Next-matches_at (i + 1) k (name x) (name to.to) to.leads size in
      let whole : take (suc k) (name x) ≡ name x =
        ap (λ j. take j (name x)) (sym size) ∙ take_whole (name x) in
      let level : t.depth x ≡ suc k = v.deep x h ∙ size in
      let text : some (matches_at words (i + 1) (name x) (suc k))
          ≡ some (matches_at words (i + 1) (name x) (length (name x))) =
        ap (λ j. some (matches_at words (i + 1) (name x) j)) (sym size) in
      rw (scopes_at, z, to.link, below, level, matches_at, whole, shorter, end_name x h) refl ∙ text

  -- The scopes along the links.
  scopes_at-matches_at :
      (n i x : ℕ)
      → x < t.next_node
      → length (name x) < n
      → scopes_at n t i x ≡ some (matches_at words (i + 1) (name x) (length (name x)))
  unfolding scopes_at matches_at
  scopes_at-matches_at zero i x h l = absurd (omega (arith, l))
  scopes_at-matches_at (suc n) i x h l = elim (Bool-cases (x == 0)) [
    | inl z ↦ let root : x ≡ 0 = ground (arith, z) in rw (scopes_at, root, v.root) refl
    | inr z ↦
        let (k, size) = is_deep x h z in
        let to = linked x h (omega (arith, size)) in
        let below = scopes_at-matches_at n i to.to to.inside (omega (arith, l, to.leads.shorter)) in
        scopes_at_link n i x k h z size to below
  ]

  -- One round of `find`, by where its step comes to.
  find_from_root :
      (i cur c : ℕ) (cs : Text)
      → advance t c cur ≡ some (0, none)
      → find_from t i cur (c ∷ cs) ≡ find_from t (i + 1) 0 cs
  unfolding find_from
  find_from_root i cur c cs h = rw (find_from, h) refl

  find_from_child :
      (i cur c g : ℕ) (cs : Text) (here more : List Scope)
      → advance t c cur ≡ some (g, some g)
      → scopes_at (suc (t.depth g)) t i g ≡ some here
      → find_from t (i + 1) g cs ≡ some more
      → find_from t i cur (c ∷ cs) ≡ some (here ++ more)
  unfolding find_from
  find_from_child i cur c g cs here more h e f = rw (find_from, h, e, f) refl

  no_match : (stop x : ℕ) → x ≡ 0 → matches_at words stop (name x) (length (name x)) ≡ []
  unfolding matches_at
  no_match stop x e = rw (e, v.root) refl

  pub find_from-matches_from :
      (cs : Text) (i cur : ℕ) (r : Text)
      → cur < t.next_node
      → Best t.children r (name cur)
      → find_from t i cur cs ≡ some (matches_from words i r cs)
  unfolding find_from
  find_from-matches_from [] i cur r h b = ap some (sym (matches_from-nil words i r))
  find_from-matches_from (c ∷ cs) i cur r h b =
      let to = advance-Reached t name v linked c cur r h b in
      let rest = find_from-matches_from cs (i + 1) to.cur (c ∷ r) to.inside to.best in
      let here = Best-matches_at (i + 1) (c ∷ r) (name to.cur) to.best in
      let more = matches_from words (i + 1) (c ∷ r) cs in
      let whole = ap some (matches_from-cons words i r c cs ∙ ap (λ l. l ++ more) here) in
      elim (Bool-cases (to.cur == 0)) [
        | inl z ↦
            let root : to.cur ≡ 0 = ground (arith, z) in
            let none_here = ap (λ l. some (l ++ more)) (no_match (i + 1) to.cur root) in
            let step : advance t c cur ≡ some (0, none) = to.result ∙ rw (z, root) refl in
            find_from_root i cur c cs step
            ∙ ap (λ x. find_from t (i + 1) x cs) (sym root)
            ∙ rest
            ∙ sym none_here
            ∙ sym whole
        | inr z ↦
            let step : advance t c cur ≡ some (to.cur, some to.cur) = to.result ∙ rw z refl in
            let found = matches_at words (i + 1) (name to.cur) (length (name to.cur)) in
            let scopes =
              scopes_at-matches_at (suc (t.depth to.cur)) i to.cur to.inside
                (omega (arith, v.deep to.cur to.inside)) in
            find_from_child i cur c to.cur cs found more step scopes rest ∙ sym whole
      ]

-- The trie of some words is built once for all texts.
pub new_trie-find :
    (words : List Text)
    → (t : Nodes) × ((new_trie words ≡ some t)
        × ((chars : Text) → find t chars ≡ some (matches_from (has_word words) 0 [] chars)))
unfolding new_trie find
new_trie-find words =
    let empty = add_all new_nodes words in
    let u = new_nodes-HasWords words in
    let b = build-Built empty u.name u.is_trie u.unlinked in
    let t = with_fail empty b.fail in
    let first : Best t.children [] (u.name 0) =
      rw u.is_trie.root (record { prefix = has_prefix_self []; longest = λ q a k. a }) in
    (
      t,
      (
        b.result,
        λ chars.
            find_from-matches_from t u.name u.is_trie b.linked (has_word words) u.ends chars 0 0 []
              u.is_trie.some_node first,
      ),
    )

-- The trie of some words is built, and a search in it finds just what a search for each word at each
-- rune finds, in the order of the ends, the longest word first.
pub find-matches_from :
    (words : List Text) (chars : Text)
    → (t : Nodes) × ((new_trie words ≡ some t)
        × (find t chars ≡ some (matches_from (has_word words) 0 [] chars)))
find-matches_from words chars =
    let (t, (built, search)) = new_trie-find words in (t, (built, search chars))
