-- ===== src/Stringx/Keywords/Occurrences.antt =====
-- Where the keywords of core/stringx/trie.go stand in a text: what the search finds, by its start and
-- its stop.
use go_zero_update.Common.{
  ℕ, zero, suc, ◌+◌, ◌-◌, ◌<◌, ◌≤◌, ◌≡◌, refl, sym, ap, ◌∙◌, inl, inr, Bool, false, ◌&&◌, ◌||◌,
  List, [], ◌∷◌, ◌++◌, ◌==◌, ltb, leb, length, take, drop, length-take, length-drop, arith,
  Bool-cases, append_assoc,
}
use go_zero_update.Common.Texts.{bytes_eq, bytes_eq_iff}
use go_zero_update.Stringx.{Text}
use go_zero_update.Stringx.Trie.{Scope}
use go_zero_update.Stringx.Trie.Adding.{rev_onto, has_word}
use go_zero_update.Stringx.Trie.Matches.{
  matches_at, matches_from, matches_from-cons, matches_from-nil,
}

-- The runes from `a` up to `b`.
abbrev pub cut : Text → ℕ → ℕ → Text
cut chars a b = take (b - a) (drop a chars)

unfoldable pub has_text : List Text → Text → Bool
has_text [] s = false
has_text (word ∷ words) s = bytes_eq word s || has_text words s

-- Whether a keyword stands in a text from `a` up to `b`.
unfoldable pub occurs : List Text → Text → ℕ → ℕ → Bool
occurs words chars a b = ltb a b && leb b (length chars) && has_text words (cut chars a b)

unfoldable pub has_scope : ℕ → ℕ → List Scope → Bool
has_scope a b [] = false
has_scope a b (v ∷ scopes) = (v.start == a && v.stop == b) || has_scope a b scopes

pub has_scope-append :
    (a b : ℕ) (xs ys : List Scope)
    → has_scope a b (xs ++ ys) ≡ (has_scope a b xs || has_scope a b ys)
unfolding has_scope
has_scope-append a b [] ys = refl
has_scope-append a b (x ∷ xs) ys = ground (arith, has_scope-append a b xs ys)

has_scope-matches_at :
    (words : Text → Bool) (a b stop : ℕ) (r : Text) (k : ℕ)
    → k ≤ stop
    → has_scope a b (matches_at words stop r k)
      ≡ (stop == b && ltb a b && leb (b - a) k && words (take (b - a) r))
unfolding has_scope matches_at
has_scope-matches_at words a b stop r zero h = ground arith
has_scope-matches_at words a b stop r (suc k) h =
    let rest = has_scope-matches_at words a b stop r k (omega (arith, h)) in
    elim (Bool-cases (stop == b && b - a == suc k && ltb a b)) [
      | inl e ↦
          let size : b - a ≡ suc k = ground (arith, e) in
          let word = ap (λ j. words (take j r)) size in ground (arith, h, e, rest, word)
      | inr e ↦ ground (arith, h, e, rest)
    ]

rev_onto_append : (s r : Text) → rev_onto s r ≡ rev_onto s [] ++ r
unfolding rev_onto
rev_onto_append [] r = refl
rev_onto_append (c ∷ s) r =
    rev_onto_append s (c ∷ r)
    ∙ sym (append_assoc (rev_onto s []) (c ∷ []) r)
    ∙ ap (λ l. l ++ r) (sym (rev_onto_append s (c ∷ [])))

length-rev_onto : (s r : Text) → length (rev_onto s r) ≡ length s + length r
unfolding rev_onto
length-rev_onto [] r = omega arith
length-rev_onto (c ∷ s) r = omega (arith, length-rev_onto s (c ∷ r))

one_more :
    (i b c : ℕ) (cs r : Text)
    → i < b
    → rev_onto (take (b - i) (c ∷ cs)) r ≡ rev_onto (take (b - (i + 1)) cs) (c ∷ r)
unfolding rev_onto
one_more i b c cs r h =
    let size : b - i ≡ suc (b - (i + 1)) = omega (arith, h) in
    ap (λ n. rev_onto (take n (c ∷ cs)) r) size

last_one : (i b c : ℕ) (cs r : Text) → i + 1 ≡ b → rev_onto (take (b - (i + 1)) cs) (c ∷ r) ≡ c ∷ r
unfolding rev_onto
last_one i b c cs r h =
    let size : b - (i + 1) ≡ 0 = omega (arith, h) in ap (λ n. rev_onto (take n cs) (c ∷ r)) size

has_scope-matches_from :
    (words : Text → Bool) (a b i : ℕ) (cs r : Text)
    → length r ≡ i
    → has_scope a b (matches_from words i r cs) ≡ (
        ltb i b
        && leb b (i + length cs)
        && ltb a b
        && words (take (b - a) (rev_onto (take (b - i) cs) r)))
unfolding has_scope
has_scope-matches_from words a b i [] r h = rw (matches_from-nil words i r) (ground arith)
has_scope-matches_from words a b i (c ∷ cs) r h =
    let rest = has_scope-matches_from words a b (i + 1) cs (c ∷ r) (omega (arith, h)) in
    let here = has_scope-matches_at words a b (i + 1) (c ∷ r) (length (c ∷ r)) (omega (arith, h)) in
    rw
      (
        matches_from-cons words i r c cs,
        has_scope-append a b (matches_at words (i + 1) (c ∷ r) (length (c ∷ r)))
            (matches_from words (i + 1) (c ∷ r) cs),
        here,
        rest,
      )
      (elim (Bool-cases (ltb i b)) [
        | inr e ↦ ground (arith, e)
        | inl e ↦
            let more = ap (λ l. words (take (b - a) l)) (one_more i b c cs r (ground (arith, e))) in
            elim (Bool-cases (i + 1 == b)) [
              | inl f ↦
                  let last =
                    ap (λ l. words (take (b - a) l)) (last_one i b c cs r (ground (arith, f))) in
                  ground (arith, e, f, more, last, h)
              | inr f ↦ ground (arith, e, f, more)
            ]
      ])

take_append : (s r : Text) → take (length s) (s ++ r) ≡ s
take_append [] r = refl
take_append (c ∷ s) r = ap (λ l. c ∷ l) (take_append s r)

take_drop : (a n m : ℕ) (s : Text) → m ≡ a + n → take m s ≡ take a s ++ take n (drop a s)
take_drop zero n m s h = let same : m ≡ n = omega (arith, h) in ap (λ k. take k s) same
take_drop (suc a) n zero s h = absurd (omega (arith, h))
take_drop (suc a) zero (suc m) [] h = refl
take_drop (suc a) (suc n) (suc m) [] h = refl
take_drop (suc a) n (suc m) (c ∷ s) h = ap (λ l. c ∷ l) (take_drop a n m s (omega (arith, h)))

rev_onto_join : (s u r : Text) → rev_onto (s ++ u) r ≡ rev_onto u (rev_onto s r)
unfolding rev_onto
rev_onto_join [] u r = refl
rev_onto_join (c ∷ s) u r = rev_onto_join s u (c ∷ r)

-- The last runes of a text, last first, are those of its end.
take-rev_onto : (u r : Text) (n : ℕ) → n ≡ length u → take n (rev_onto u r) ≡ rev_onto u []
take-rev_onto u r n h =
    let size : n ≡ length (rev_onto u []) = omega (arith, h, length-rev_onto u []) in
    ap (take n) (rev_onto_append u r)
    ∙ ap (λ k. take k (rev_onto u [] ++ r)) size
    ∙ take_append (rev_onto u []) r

-- The runes from `a` up to `b`, last first.
read_back :
    (chars : Text) (a b : ℕ)
    → a < b
    → b ≤ length chars
    → take (b - a) (rev_onto (take b chars) []) ≡ rev_onto (cut chars a b) []
read_back chars a b h e =
    let whole : take b chars ≡ take a chars ++ cut chars a b =
      take_drop a (b - a) b chars (omega (arith, h)) in
    let size : b - a ≡ length (cut chars a b) =
      omega (arith, h, e, length-take (b - a) (drop a chars), length-drop a chars) in
    ap (λ l. take (b - a) (rev_onto l [])) whole
    ∙ ap (take (b - a)) (rev_onto_join (take a chars) (cut chars a b) [])
    ∙ take-rev_onto (cut chars a b) (rev_onto (take a chars) []) (b - a) size

rev_rev : (s r : Text) → rev_onto (rev_onto s r) [] ≡ rev_onto r s
unfolding rev_onto
rev_rev [] r = refl
rev_rev (c ∷ s) r = rev_rev s (c ∷ r)

bytes_eq-rev_onto : (s u : Text) → bytes_eq (rev_onto s []) (rev_onto u []) ≡ bytes_eq s u
unfolding rev_onto
bytes_eq-rev_onto s u = elim (Bool-cases (bytes_eq s u)) [
  | inl e ↦
      let same : s ≡ u = ground (arith, e, bytes_eq_iff s u) in
      (bytes_eq_iff (rev_onto s []) (rev_onto u [])).1 (ap (λ l. rev_onto l []) same) ∙ sym e
  | inr e ↦ elim (Bool-cases (bytes_eq (rev_onto s []) (rev_onto u []))) [
    | inr f ↦ f ∙ sym e
    | inl f ↦
        let backward : rev_onto s [] ≡ rev_onto u [] =
          ground (arith, f, bytes_eq_iff (rev_onto s []) (rev_onto u [])) in
        let same : s ≡ u = sym (rev_rev s []) ∙ ap (λ l. rev_onto l []) backward ∙ rev_rev u [] in
        absurd (ground (arith, e, (bytes_eq_iff s u).1 same))
  ]
]

has_word-has_text :
    (words : List Text) (s : Text)
    → 0 < length s
    → has_word words (rev_onto s []) ≡ has_text words s
unfolding has_word has_text
has_word-has_text [] s h = refl
has_word-has_text (word ∷ words) s h =
    let rest = has_word-has_text words s h in
    let same = bytes_eq-rev_onto word s in
    elim (Bool-cases (bytes_eq word s)) [
      | inl e ↦
          let text : word ≡ s = ground (arith, e, bytes_eq_iff word s) in
          ground (arith, rest, same, e, h, ap length text)
      | inr e ↦ ground (arith, rest, same, e)
    ]

-- The scopes of a search are where the keywords stand.
pub has_scope-occurs :
    (words : List Text) (chars : Text) (a b : ℕ)
    → has_scope a b (matches_from (has_word words) 0 [] chars) ≡ occurs words chars a b
unfolding occurs
has_scope-occurs words chars a b =
    has_scope-matches_from (has_word words) a b 0 chars [] refl
    ∙ elim (Bool-cases (ltb a b && leb b (length chars))) [
      | inr e ↦ ground (arith, e)
      | inl e ↦
          let size : length (cut chars a b) ≡ b - a =
            ground (arith, e, length-take (b - a) (drop a chars), length-drop a chars) in
          let back =
            ap (has_word words) (read_back chars a b (ground (arith, e)) (ground (arith, e))) in
          let text = has_word-has_text words (cut chars a b) (ground (arith, size, e)) in
          ground (arith, e, back, text)
    ]
