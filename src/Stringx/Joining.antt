-- ===== src/Stringx/Joining.antt =====
-- `Join` of core/stringx/strings.go.
use go_zero_update.Common.{
  ℕ, ◌≡◌, refl, sym, ap, ◌∙◌, inl, inr, Bool, true, List, [], ◌∷◌, ◌++◌, append_assoc, append-nil,
  ltb, ◌==◌, length, arith, Bool-cases,
}
use go_zero_update.Common.Texts.{join}
use go_zero_update.Stringx.{Text, total_size, join_from, join_texts}
use go_zero_update.Stringx.Compaction.{keep}

abbrev pub is_empty : Text → Bool
is_empty e = length e == 0

-- Texts with the byte in front of each.
unfoldable behind : ℕ → List Text → Text
behind sep [] = []
behind sep (e ∷ es) = sep ∷ e ++ behind sep es

join-cons : (sep : ℕ) (e : Text) (es : List Text) → join sep (e ∷ es) ≡ e ++ behind sep es
unfolding join behind
join-cons sep e [] = sym (append-nil e)
join-cons sep e (f ∷ es) = ap (λ l. e ++ sep ∷ l) (join-cons sep f es)

longer : (buf s e : Text) → ltb 0 (length buf) ≡ true → ltb 0 (length ((buf ++ s) ++ e)) ≡ true
longer [] s e h = absurd (ground (arith, h))
longer (b ∷ buf) s e h = ground arith

join_from-behind :
    (sep : ℕ) (buf : Text) (elem : List Text)
    → ltb 0 (length buf) ≡ true
    → join_from sep buf elem ≡ buf ++ behind sep (keep is_empty elem)
unfolding join_from behind keep
join_from-behind sep buf [] h = sym (append-nil buf)
join_from-behind sep buf (e ∷ elem) h = elim (Bool-cases (length e == 0)) [
  | inl f ↦ rw (join_from, f) (join_from-behind sep buf elem h)
  | inr f ↦
      rw (join_from, f, h)
        (join_from-behind sep ((buf ++ sep ∷ []) ++ e) elem (longer buf (sep ∷ []) e h)
          ∙ append_assoc (buf ++ sep ∷ []) e (behind sep (keep is_empty elem))
          ∙ append_assoc buf (sep ∷ []) (e ++ behind sep (keep is_empty elem)))
]

join_from-nil : (sep : ℕ) (elem : List Text) → join_from sep [] elem ≡ join sep (keep is_empty elem)
unfolding join_from keep join
join_from-nil sep [] = refl
join_from-nil sep (e ∷ elem) = elim (Bool-cases (length e == 0)) [
  | inl f ↦ rw (join_from, f) (join_from-nil sep elem)
  | inr f ↦
      let some_text : ltb 0 (length e) ≡ true = ground (arith, f) in
      rw (join_from, f)
        (join_from-behind sep e elem some_text ∙ sym (join-cons sep e (keep is_empty elem)))
]

total_size-keep : (elem : List Text) → (total_size elem == 0) ≡ true → keep is_empty elem ≡ []
unfolding total_size keep
total_size-keep [] h = refl
total_size-keep (e ∷ elem) h =
    let none_here : (length e == 0) ≡ true = ground (arith, h) in
    rw none_here (total_size-keep elem (ground (arith, h)))

-- `Join` puts the byte between the texts that are not empty.
pub join_texts-keep :
    (sep : ℕ) (elem : List Text) → join_texts sep elem ≡ join sep (keep is_empty elem)
unfolding join_texts join
join_texts-keep sep elem = elim (Bool-cases (total_size elem == 0)) [
  | inl f ↦ rw (join_texts, f) (sym (ap (join sep) (total_size-keep elem f)))
  | inr f ↦ rw (join_texts, f) (join_from-nil sep elem)
]
