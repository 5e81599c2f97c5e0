-- ===== src/Stringx/Replacer/Walks.antt =====
-- Greedy replacing over the runes of a text: up to the next word, and over it.
use go_zero_update.Common.{
  ℕ, zero, suc, ◌+◌, ◌-◌, ◌<◌, ◌≤◌, ◌≡◌, refl, sym, ap, ◌∙◌, true, false, List, [], ◌∷◌, ◌++◌,
  length, take, drop, length-drop, arith, append-nil,
}
use go_zero_update.Stringx.{Text}
use go_zero_update.Stringx.Trie.Matches.{take_whole}
use go_zero_update.Stringx.Keywords.Occurrences.{cut, has_text, occurs}
use go_zero_update.Stringx.Replacer.{substitute}
use go_zero_update.Stringx.Replacer.Greedy.{greedy, greedy_kept, greedy_replaced}

drop_drop : (a n m : ℕ) (s : Text) → m ≡ a + n → drop n (drop a s) ≡ drop m s
drop_drop zero n m s h = let same : n ≡ m = omega (arith, h) in ap (λ k. drop k s) same
drop_drop (suc a) n zero s h = absurd (omega (arith, h))
drop_drop (suc a) zero (suc m) [] h = refl
drop_drop (suc a) (suc n) (suc m) [] h = refl
drop_drop (suc a) n (suc m) (c ∷ s) h = drop_drop a n m s (omega (arith, h))

drop_rune : (a : ℕ) (s : Text) → a < length s → (c : ℕ) × (drop a s ≡ c ∷ drop (a + 1) s)
drop_rune a [] h = absurd (omega (arith, h))
drop_rune zero (c ∷ s) h = (c, refl)
drop_rune (suc a) (c ∷ s) h =
    let (d, e) = drop_rune a s (omega (arith, h)) in
    let next : suc a + 1 ≡ suc (a + 1) = omega arith in
    (d, e ∙ ap (λ l. d ∷ l) (sym (ap (λ k. drop k (c ∷ s)) next)))

pub drop_end : (n : ℕ) (s : Text) → length s ≤ n → drop n s ≡ []
drop_end zero [] h = refl
drop_end zero (c ∷ s) h = absurd (omega (arith, h))
drop_end (suc n) [] h = refl
drop_end (suc n) (c ∷ s) h = drop_end n s (omega (arith, h))

pub take_rest : (a : ℕ) (s : Text) → take (length s - a) (drop a s) ≡ drop a s
take_rest a s = ap (λ n. take n (drop a s)) (sym (length-drop a s)) ∙ take_whole (drop a s)

module _ (mapping : List (Text × Text)) (words : List Text) (chars : Text) where
  word_at :
      (a j : ℕ)
      → 0 < j
      → a + j ≤ length chars
      → occurs words chars a (a + j) ≡ has_text words (take j (drop a chars))
  unfolding occurs
  word_at a j h e =
      let size : a + j - a ≡ j = omega arith in
      let text = ap (λ n. has_text words (take n (drop a chars))) size in ground (arith, h, e, text)

  -- The runes up to the next word stay.
  pub walk :
      (d index : ℕ)
      → index + d ≤ length chars
      → ((a b : ℕ) → index ≤ a → a < index + d → occurs words chars a b ≡ false)
      → greedy mapping words 0 (drop index chars)
        ≡ take d (drop index chars) ++ greedy mapping words 0 (drop (index + d) chars)
  walk zero index h e = ap (λ n. greedy mapping words 0 (drop n chars)) (omega arith)
  walk (suc d) index h e =
      let (c, here) = drop_rune index chars (omega (arith, h)) in
      let size : length (drop index chars) ≡ length chars - index = length-drop index chars in
      let none_here : (j : ℕ)
          → 0 < j
          → j ≤ length (c ∷ drop (index + 1) chars)
          → has_text words (take j (c ∷ drop (index + 1) chars)) ≡ false =
        λ j f g.
          let inside : index + j ≤ length chars = omega (arith, g, size, ap length here, h) in
          ap (λ l. has_text words (take j l)) (sym here)
          ∙ sym (word_at index j f inside)
          ∙ e index (index + j) (omega arith) (omega arith) in
      let rest =
        walk d (index + 1) (omega (arith, h))
          (λ a b f g. e a b (omega (arith, f)) (omega (arith, g))) in
      let last : index + 1 + d ≡ index + suc d = omega arith in
      ap (greedy mapping words 0) here
      ∙ greedy_kept mapping words c (drop (index + 1) chars) none_here
      ∙ ap (λ l. c ∷ l) rest
      ∙ ap (λ n. c ∷ (take d (drop (index + 1) chars) ++ greedy mapping words 0 (drop n chars)))
          last
      ∙ ap (λ l. take (suc d) l ++ greedy mapping words 0 (drop (index + suc d) chars)) (sym here)

  -- The longest word at a rune is replaced.
  pub jump :
      (a b : ℕ)
      → occurs words chars a b ≡ true
      → ((c : ℕ) → b < c → occurs words chars a c ≡ false)
      → greedy mapping words 0 (drop a chars)
        ≡ substitute mapping (cut chars a b) ++ greedy mapping words 0 (drop b chars)
  unfolding occurs
  jump a b h e =
      let from : a < b = ground (arith, h) in
      let to : b ≤ length chars = ground (arith, h) in
      let (c, here) = drop_rune a chars (omega (arith, from, to)) in
      let n = b - a - 1 in
      let tail = drop (a + 1) chars in
      let size : length tail ≡ length chars - (a + 1) = length-drop (a + 1) chars in
      let span : b - a ≡ suc n = omega (arith, from) in
      let word : cut chars a b ≡ take (suc n) (c ∷ tail) =
        ap (λ k. take k (drop a chars)) span ∙ ap (take (suc n)) here in
      let found : has_text words (cut chars a b) ≡ true = ground (arith, h) in
      let longer : (j : ℕ)
          → suc n < j
          → j ≤ length (c ∷ tail)
          → has_text words (take j (c ∷ tail)) ≡ false =
        λ j f g.
          let inside : a + j ≤ length chars = omega (arith, g, size, from, to) in
          ap (λ l. has_text words (take j l)) (sym here)
          ∙ sym (word_at a j (omega (arith, f)) inside)
          ∙ e (a + j) (omega (arith, f, from)) in
      ap (greedy mapping words 0) here
      ∙ greedy_replaced mapping words c n tail (omega (arith, size, from, to))
          (sym (ap (has_text words) word) ∙ found) longer
      ∙ ap (λ l. substitute mapping l ++ greedy mapping words 0 (drop n tail)) (sym word)
      ∙ ap (λ l. substitute mapping (cut chars a b) ++ greedy mapping words 0 l)
          (drop_drop (a + 1) n b chars (omega (arith, from)))

  pub no_more :
      (index : ℕ)
      → index ≤ length chars
      → ((a b : ℕ) → index ≤ a → occurs words chars a b ≡ false)
      → greedy mapping words 0 (drop index chars) ≡ drop index chars
  unfolding greedy
  no_more index h e =
      let d = length chars - index in
      let last : drop (index + d) chars ≡ [] = drop_end (index + d) chars (omega arith) in
      walk d index (omega (arith, h)) (λ a b f g. e a b f)
      ∙ ap (λ l. take d (drop index chars) ++ greedy mapping words 0 l) last
      ∙ append-nil (take d (drop index chars))
      ∙ take_rest index chars
