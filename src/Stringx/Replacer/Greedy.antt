-- ===== src/Stringx/Replacer/Greedy.antt =====
-- Replacing the words of a map with no search, to compare core/stringx/replacer.go with: from the left,
-- the longest word at each rune.
use go_zero_update.Common.{
  ℕ, zero, suc, ◌-◌, ◌<◌, ◌≤◌, ◌≡◌, refl, sym, ap, ◌∙◌, inl, inr, true, false, List, [], ◌∷◌, ◌++◌,
  ◌==◌, if◌then◌else◌, length, take, drop, arith, Bool-cases,
}
use go_zero_update.Stringx.{Text}
use go_zero_update.Stringx.Keywords.Occurrences.{has_text}
use go_zero_update.Stringx.Replacer.{substitute}

-- The length of the longest word of at most `k` runes that a text starts with, or 0.
unfoldable pub longest : List Text → ℕ → Text → ℕ
longest words zero s = 0
longest words (suc k) s =
    let shorter = longest words k s in if has_text words (take (suc k) s) then suc k else shorter

-- A text without its first `skip` runes, with its words replaced.
unfoldable pub greedy : List (Text × Text) → List Text → ℕ → Text → Text
unfolding longest
greedy mapping words skip [] = []
greedy mapping words (suc skip) (c ∷ s) = greedy mapping words skip s
greedy mapping words zero (c ∷ s) =
    let n = longest words (length (c ∷ s)) (c ∷ s) in
    let rest = greedy mapping words (n - 1) s in
    if n == 0 then c ∷ rest else substitute mapping (take n (c ∷ s)) ++ rest

longest_skip :
    (words : List Text) (s : Text) (k m : ℕ)
    → m ≤ k
    → ((j : ℕ) → m < j → j ≤ k → has_text words (take j s) ≡ false)
    → longest words k s ≡ longest words m s
unfolding longest
longest_skip words s zero m h e =
    let same : 0 ≡ m = omega (arith, h) in ap (λ n. longest words n s) same
longest_skip words s (suc k) m h e = elim (Bool-cases (suc k == m)) [
  | inl f ↦ let same : suc k ≡ m = ground (arith, f) in ap (λ n. longest words n s) same
  | inr f ↦
      let below : m ≤ k = ground (arith, f, h) in
      rw (longest, e (suc k) (omega (arith, below)) (omega arith))
        (longest_skip words s k m below (λ j a b. e j a (omega (arith, b))))
]

longest_here :
    (words : List Text) (s : Text) (n : ℕ)
    → has_text words (take (suc n) s) ≡ true
    → longest words (suc n) s ≡ suc n
unfolding longest
longest_here words s n h = rw (longest, h) refl

module _ (mapping : List (Text × Text)) (words : List Text) where
  -- Runes skipped are runes dropped.
  pub greedy_skip :
      (skip : ℕ) (s : Text) → greedy mapping words skip s ≡ greedy mapping words 0 (drop skip s)
  unfolding greedy
  greedy_skip zero s = refl
  greedy_skip (suc skip) [] = refl
  greedy_skip (suc skip) (c ∷ s) = greedy_skip skip s

  -- The text at a rune by the length of its word.
  chosen : ℕ → Text → ℕ → Text
  chosen c s n =
      let rest = greedy mapping words (n - 1) s in
      if n == 0 then c ∷ rest else substitute mapping (take n (c ∷ s)) ++ rest

  -- A rune where no word starts stays.
  pub greedy_kept :
      (c : ℕ) (s : Text)
      → ((j : ℕ) → 0 < j → j ≤ length (c ∷ s) → has_text words (take j (c ∷ s)) ≡ false)
      → greedy mapping words 0 (c ∷ s) ≡ c ∷ greedy mapping words 0 s
  unfolding greedy chosen
  greedy_kept c s h =
      let none_here : longest words (length (c ∷ s)) (c ∷ s) ≡ 0 =
        longest_skip words (c ∷ s) (length (c ∷ s)) 0 (omega arith) h in
      ap (chosen c s) none_here

  -- The longest word is replaced.
  pub greedy_replaced :
      (c n : ℕ) (s : Text)
      → n ≤ length s
      → has_text words (take (suc n) (c ∷ s)) ≡ true
      → ((j : ℕ) → suc n < j → j ≤ length (c ∷ s) → has_text words (take j (c ∷ s)) ≡ false)
      → greedy mapping words 0 (c ∷ s)
        ≡ substitute mapping (take (suc n) (c ∷ s)) ++ greedy mapping words 0 (drop n s)
  unfolding greedy chosen
  greedy_replaced c n s e f h =
      let here : longest words (length (c ∷ s)) (c ∷ s) ≡ suc n =
        longest_skip words (c ∷ s) (length (c ∷ s)) (suc n) (omega (arith, e)) h
        ∙ longest_here words (c ∷ s) n f in
      let rest : n ≡ suc n - 1 = omega arith in
      let more : (suc n == 0) ≡ false = ground arith in
      ap (chosen c s) here
      ∙ rw more (
          ap (λ k. substitute mapping (take (suc n) (c ∷ s)) ++ greedy mapping words k s)
            (sym rest))
      ∙ ap (λ l. substitute mapping (take (suc n) (c ∷ s)) ++ l) (greedy_skip n s)
