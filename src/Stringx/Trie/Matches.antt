-- ===== src/Stringx/Trie/Matches.antt =====
-- A search of keywords with no trie, to compare the one of core/stringx/node.go with: at each rune it
-- tries every start.
use go_zero_update.Common.{
  ℕ, zero, suc, ◌+◌, ◌-◌, ◌<◌, ◌≤◌, ◌≡◌, refl, ap, ◌∙◌, inl, inr, Bool, true, false, List, [], ◌∷◌,
  ◌++◌, ◌==◌, if◌then◌else◌, length, take, arith, Bool-cases,
}
use go_zero_update.Common.Texts.{has_prefix}
use go_zero_update.Stringx.{Text}
use go_zero_update.Stringx.Trie.{Scope}

-- The words of at most `k` runes that end at `stop`, the longest one first; `r` is the text before
-- `stop`, the last rune first.
unfoldable pub matches_at : (Text → Bool) → ℕ → Text → ℕ → List Scope
matches_at words stop r zero = []
matches_at words stop r (suc k) =
    let rest = matches_at words stop r k in
    if words (take (suc k) r) then record { start = stop - suc k; stop = stop } ∷ rest else rest

-- The words in a text, from the rune at `i`; `r` is the text before it, the last rune first.
unfoldable pub matches_from : (Text → Bool) → ℕ → Text → Text → List Scope
unfolding matches_at
matches_from words i r [] = []
matches_from words i r (c ∷ cs) =
    matches_at words (i + 1) (c ∷ r) (length (c ∷ r)) ++ matches_from words (i + 1) (c ∷ r) cs

pub matches_from-nil : (words : Text → Bool) (i : ℕ) (r : Text) → matches_from words i r [] ≡ []
unfolding matches_from
matches_from-nil words i r = refl

pub matches_from-cons :
    (words : Text → Bool) (i : ℕ) (r : Text) (c : ℕ) (cs : Text)
    → matches_from words i r (c ∷ cs)
      ≡ matches_at words (i + 1) (c ∷ r) (length (c ∷ r)) ++ matches_from words (i + 1) (c ∷ r) cs
unfolding matches_from
matches_from-cons words i r c cs = refl

pub take-has_prefix : (k : ℕ) (s : Text) → has_prefix (take k s) s ≡ true
unfolding has_prefix
take-has_prefix zero s = refl
take-has_prefix (suc k) [] = refl
take-has_prefix (suc k) (c ∷ s) = ground (arith, take-has_prefix k s)

pub take_whole : (s : Text) → take (length s) s ≡ s
take_whole [] = refl
take_whole (c ∷ s) = ap (λ l. c ∷ l) (take_whole s)

take_shorter : (k : ℕ) (s r : Text) → has_prefix s r ≡ true → k ≤ length s → take k r ≡ take k s
unfolding has_prefix
take_shorter zero s r h e = refl
take_shorter (suc k) [] r h e = absurd (omega (arith, e))
take_shorter (suc k) (c ∷ s) [] h e = absurd (ground (arith, h))
take_shorter (suc k) (c ∷ s) (d ∷ r) h e =
    let same : d ≡ c = ground (arith, h) in
    ap (λ b. b ∷ take k r) same
    ∙ ap (λ l. c ∷ l) (take_shorter k s r (ground (arith, h)) (omega (arith, e)))

-- Short words are found in a short text too.
pub matches_at_shorter :
    (words : Text → Bool) (stop : ℕ) (s r : Text) (k : ℕ)
    → has_prefix s r ≡ true
    → k ≤ length s
    → matches_at words stop r k ≡ matches_at words stop s k
unfolding matches_at
matches_at_shorter words stop s r zero h e = refl
matches_at_shorter words stop s r (suc k) h e =
    rw
      (
        matches_at,
        take_shorter (suc k) s r h e,
        matches_at_shorter words stop s r k h (omega (arith, e)),
      )
      refl

-- The lengths of no word add nothing.
pub matches_at_skip :
    (words : Text → Bool) (stop : ℕ) (r : Text) (k m : ℕ)
    → m ≤ k
    → ((j : ℕ) → m < j → j ≤ k → words (take j r) ≡ false)
    → matches_at words stop r k ≡ matches_at words stop r m
unfolding matches_at
matches_at_skip words stop r zero m h e =
    let same : 0 ≡ m = omega (arith, h) in ap (matches_at words stop r) same
matches_at_skip words stop r (suc k) m h e = elim (Bool-cases (suc k == m)) [
  | inl f ↦ let same : suc k ≡ m = ground (arith, f) in ap (matches_at words stop r) same
  | inr f ↦
      let below : m ≤ k = ground (arith, f, h) in
      rw (matches_at, e (suc k) (omega (arith, below)) (omega arith))
        (matches_at_skip words stop r k m below (λ j a b. e j a (omega (arith, b))))
]
