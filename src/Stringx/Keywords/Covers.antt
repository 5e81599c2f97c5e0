-- ===== src/Stringx/Keywords/Covers.antt =====
-- What the scopes of a search in core/stringx/trie.go say of the words in the text.
use go_zero_update.Common.{
  ℕ, zero, suc, ◌+◌, ◌-◌, ◌<◌, ◌≤◌, ◌≡◌, refl, sym, ap, ◌∙◌, inl, inr, Bool, true, false, ◌&&◌,
  ◌||◌, not, List, [], ◌∷◌, ◌==◌, ltb, leb, length, take, drop, length-take, length-drop, arith,
  Bool-cases,
}
use go_zero_update.Common.Texts.{bytes_eq, bytes_eq_iff, has_prefix, length-has_prefix}
use go_zero_update.Stringx.{Text}
use go_zero_update.Stringx.Trie.{Scope}
use go_zero_update.Stringx.Trie.Matches.{take-has_prefix}
use go_zero_update.Stringx.Trie.Links.{no_runes}
use go_zero_update.Stringx.Keywords.Occurrences.{cut, has_text, occurs, has_scope}
use go_zero_update.Stringx.Keywords.Masks.{InRange, cut_in, in_scopes}

-- Some number below `n` passes a test.
unfoldable pub any_below : ℕ → (ℕ → Bool) → Bool
any_below zero p = false
any_below (suc n) p = p n || any_below n p

-- Whether a keyword stands in a text over the rune at `i`.
unfoldable pub covered : List Text → Text → ℕ → Bool
unfolding any_below occurs
covered words chars i =
    any_below (suc i) (λ a. any_below (suc (length chars)) (λ b. ltb i b && occurs words chars a b))

-- Whether a text has another one in it.
unfoldable pub contains_text : Text → Text → Bool
contains_text k [] = length k == 0
contains_text k (c ∷ cs) = has_prefix k (c ∷ cs) || contains_text k cs

any_below-some : (n : ℕ) (p : ℕ → Bool) → any_below n p ≡ true → (i : ℕ) × ((i < n) × (p i ≡ true))
unfolding any_below
any_below-some zero p h = absurd (ground (arith, h))
any_below-some (suc n) p h = elim (Bool-cases (p n)) [
  | inl e ↦ (n, (omega arith, e))
  | inr e ↦
      let (i, (in_, here)) = any_below-some n p (ground (arith, h, e)) in
      (i, (omega (arith, in_), here))
]

some_below : (n : ℕ) (p : ℕ → Bool) (i : ℕ) → i < n → p i ≡ true → any_below n p ≡ true
unfolding any_below
some_below zero p i h e = absurd (omega (arith, h))
some_below (suc n) p i h e = elim (Bool-cases (i == n)) [
  | inl f ↦ let same : i ≡ n = ground (arith, f) in ground (arith, ap p same, e)
  | inr f ↦ ground (arith, some_below n p i (ground (arith, h, f)) e)
]

-- Two tests that hold together are the same.
both_ways : (a b : Bool) → (a ≡ true → b ≡ true) → (b ≡ true → a ≡ true) → a ≡ b
both_ways true b h f = sym (h refl)
both_ways false true h f = f refl
both_ways false false h f = refl

in_scopes-some :
    (i : ℕ) (scopes : List Scope)
    → in_scopes i scopes ≡ true
    → (a b : ℕ) × ((has_scope a b scopes ≡ true) × ((a ≤ i) × (i < b)))
unfolding in_scopes has_scope
in_scopes-some i [] h = absurd (ground (arith, h))
in_scopes-some i (v ∷ scopes) h = elim (Bool-cases (leb v.start i && ltb i v.stop)) [
  | inl e ↦ (v.start, v.stop, (ground arith, (ground (arith, e), ground (arith, e))))
  | inr e ↦
      let (a, b, (found, over)) = in_scopes-some i scopes (ground (arith, h, e)) in
      (a, b, (ground (arith, found), over))
]

some_in_scopes :
    (i a b : ℕ) (scopes : List Scope)
    → has_scope a b scopes ≡ true
    → a ≤ i
    → i < b
    → in_scopes i scopes ≡ true
unfolding in_scopes has_scope
some_in_scopes i a b [] h e f = absurd (ground (arith, h))
some_in_scopes i a b (v ∷ scopes) h e f = elim (Bool-cases (v.start == a && v.stop == b)) [
  | inl g ↦ ground (arith, g, e, f)
  | inr g ↦ ground (arith, some_in_scopes i a b scopes (ground (arith, h, g)) e f)
]

cut_in-some :
    (k chars : Text) (scopes : List Scope)
    → cut_in k chars scopes ≡ true
    → (a b : ℕ) × ((has_scope a b scopes ≡ true) × (cut chars a b ≡ k))
unfolding cut_in has_scope
cut_in-some k chars [] h = absurd (ground (arith, h))
cut_in-some k chars (v ∷ scopes) h = elim (Bool-cases (bytes_eq (cut chars v.start v.stop) k)) [
  | inl e ↦ (
    v.start,
    v.stop,
    (ground arith, ground (arith, e, bytes_eq_iff (cut chars v.start v.stop) k)),
  )
  | inr e ↦
      let (a, b, (found, same)) = cut_in-some k chars scopes (ground (arith, h, e)) in
      (a, b, (ground (arith, found), same))
]

some_cut_in :
    (chars : Text) (a b : ℕ) (scopes : List Scope)
    → has_scope a b scopes ≡ true
    → cut_in (cut chars a b) chars scopes ≡ true
unfolding cut_in has_scope
some_cut_in chars a b [] h = absurd (ground (arith, h))
some_cut_in chars a b (v ∷ scopes) h = elim (Bool-cases (v.start == a && v.stop == b)) [
  | inl g ↦
      let first : v.start ≡ a = ground (arith, g) in
      let last : v.stop ≡ b = ground (arith, g) in
      let same : cut chars v.start v.stop ≡ cut chars a b =
        ap (λ n. cut chars n v.stop) first ∙ ap (cut chars a) last in
      ground (arith, (bytes_eq_iff (cut chars v.start v.stop) (cut chars a b)).1 same)
  | inr g ↦ ground (arith, some_cut_in chars a b scopes (ground (arith, h, g)))
]

prefix_take : (k s : Text) → has_prefix k s ≡ true → take (length k) s ≡ k
unfolding has_prefix
prefix_take [] s h = refl
prefix_take (d ∷ k) [] h = absurd (ground (arith, h))
prefix_take (d ∷ k) (c ∷ s) h =
    let same : d ≡ c = ground (arith, h) in
    ap (λ b. b ∷ take (length k) s) (sym same)
    ∙ ap (λ l. d ∷ l) (prefix_take k s (ground (arith, h)))

-- A text in another one stands at some rune of it.
contains_text-some :
    (k chars : Text)
    → contains_text k chars ≡ true
    → (a : ℕ) × ((a + length k ≤ length chars) × (take (length k) (drop a chars) ≡ k))
unfolding contains_text
contains_text-some k [] h =
    let size : length k ≡ 0 = ground (arith, h) in
    (
      0,
      (
        omega (arith, size),
        sym (ap (λ l. take (length l) []) (sym (no_runes k (omega (arith, size)))))
            ∙ sym (no_runes k (omega (arith, size))),
      ),
    )
contains_text-some k (c ∷ cs) h = elim (Bool-cases (has_prefix k (c ∷ cs))) [
  | inl e ↦ (0, (omega (arith, length-has_prefix k (c ∷ cs) e), prefix_take k (c ∷ cs) e))
  | inr e ↦
      let (a, (size, same)) = contains_text-some k cs (ground (arith, h, e)) in
      (suc a, (omega (arith, size), same))
]

some_contains_text :
    (chars : Text) (a n : ℕ)
    → a + n ≤ length chars
    → contains_text (take n (drop a chars)) chars ≡ true
unfolding contains_text
some_contains_text [] a n h =
    let size : length {A = ℕ} (take n (drop a [])) ≡ 0 =
      omega (arith, length-take {A = ℕ} n (drop a []), length-drop {A = ℕ} a []) in
    ground (arith, size)
some_contains_text (c ∷ cs) zero n h = ground (arith, take-has_prefix n (c ∷ cs))
some_contains_text (c ∷ cs) (suc a) n h =
    ground (arith, some_contains_text cs a n (omega (arith, h)))

module _ (words : List Text) (chars : Text) (scopes : List Scope)
    (all : (a b : ℕ) → has_scope a b scopes ≡ occurs words chars a b) where
  pub occurs-InRange : InRange (length chars) scopes
  unfolding occurs
  occurs-InRange a b h =
      let here = sym (all a b) ∙ h in (ground (arith, here), ground (arith, here))

  pub in_scopes-covered : (i : ℕ) → in_scopes i scopes ≡ covered words chars i
  unfolding covered
  in_scopes-covered i =
      let over : ℕ → ℕ → Bool = λ a b. ltb i b && occurs words chars a b in
      let stops : ℕ → Bool = λ a. any_below (suc (length chars)) (over a) in
      both_ways (in_scopes i scopes) (covered words chars i)
        (λ h.
          let (a, b, (found, (from, to))) = in_scopes-some i scopes h in
          let (_, inside) = occurs-InRange a b found in
          let here = sym (all a b) ∙ found in
          some_below (suc i) stops a (omega (arith, from)) (
            some_below (suc (length chars)) (over a) b (omega (arith, inside))
              (ground (arith, here, to))))
        (λ h.
          let (a, (from, some_stop)) = any_below-some (suc i) stops h in
          let (b, (_, here)) = any_below-some (suc (length chars)) (over a) some_stop in
          some_in_scopes i a b scopes (all a b ∙ ground (arith, here)) (omega (arith, from))
            (ground (arith, here)))

  pub cut_in-contains_text :
      (k : Text)
      → cut_in k chars scopes ≡ (not (length k == 0) && has_text words k && contains_text k chars)
  unfolding occurs
  cut_in-contains_text k =
      both_ways (cut_in k chars scopes)
        (not (length k == 0) && has_text words k && contains_text k chars)
        (λ h.
          let (a, b, (found, same)) = cut_in-some k chars scopes h in
          let here = sym (all a b) ∙ found in
          let (from, to) = occurs-InRange a b found in
          let word = ap (has_text words) same in
          let inside =
            ap (λ l. contains_text l chars) (sym same)
            ∙ some_contains_text chars a (b - a) (omega (arith, from, to)) in
          let size = ap length (sym same) ∙ length-take (b - a) (drop a chars) in
          ground (arith, here, word, inside, size, length-drop a chars, to))
        (λ h.
          let (a, (size, same)) = contains_text-some k chars (ground (arith, h)) in
          let text : cut chars a (a + length k) ≡ k =
            ap (λ n. take n (drop a chars)) (omega arith) ∙ same in
          let here : occurs words chars a (a + length k) ≡ true =
            ground (arith, h, size, ap (has_text words) text) in
          sym (ap (λ l. cut_in l chars scopes) text)
          ∙ some_cut_in chars a (a + length k) scopes (all a (a + length k) ∙ here))
