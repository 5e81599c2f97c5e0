-- ===== src/Stringx/Starts.antt =====
-- `FirstN` of core/stringx/strings.go: a short text stays, and a long one is cut.
use go_zero_update.Common.{
  ℕ, ◌+◌, ◌≤◌, ◌≡◌, refl, sym, ap, ◌∙◌, inl, inr, true, List, [], ◌∷◌, ◌++◌, append_assoc,
  append-nil, ltb, ◌==◌, if◌then◌else◌, length, take, arith, Bool-cases,
}
use go_zero_update.Common.Int.{ℤ, pos, negsuc}
use go_zero_update.Stringx.{Text, append_each, first_n_from, first_n}

-- Texts put one behind the other.
unfoldable pub concat : List Text → Text
concat [] = []
concat (t ∷ ts) = t ++ concat ts

-- A text cut behind `n` runes, if it is longer, with an ending.
unfoldable pub cut_to : ℤ → List Text → Text → Text
cut_to (pos n) ellipsis s = if ltb n (length s) then take n s ++ concat ellipsis else s
cut_to (negsuc n) ellipsis s = s

append_each-concat :
    (ellipsis : List Text) (ret : Text) → append_each ret ellipsis ≡ ret ++ concat ellipsis
unfolding append_each concat
append_each-concat [] ret = sym (append-nil ret)
append_each-concat (t ∷ ts) ret = append_each-concat ts (ret ++ t) ∙ append_assoc ret t (concat ts)

first_n_from_pos :
    (rest s : Text) (n i : ℕ) (ellipsis : List Text)
    → i ≤ n
    → first_n_from s (pos n) ellipsis i rest
      ≡ (if ltb n (i + length rest) then append_each (take n s) ellipsis else s)
unfolding first_n_from
first_n_from_pos [] s n i ellipsis h = ground (arith, h)
first_n_from_pos (c ∷ rest) s n i ellipsis h = elim (Bool-cases (i == n)) [
  | inl e ↦
      let same : i ≡ n = ground (arith, e) in
      let more : ltb n (i + length (c ∷ rest)) ≡ true = ground (arith, same) in
      rw (e, more) (ap (λ k. append_each (take k s) ellipsis) same)
  | inr e ↦
      let next : i + 1 + length rest ≡ i + length (c ∷ rest) = omega arith in
      rw e (
        first_n_from_pos rest s n (i + 1) ellipsis (ground (arith, e, h))
        ∙ ap (λ k. if ltb n k then append_each (take n s) ellipsis else s) next)
]

first_n_from_negsuc :
    (rest s : Text) (n i : ℕ) (ellipsis : List Text) → first_n_from s (negsuc n) ellipsis i rest ≡ s
unfolding first_n_from
first_n_from_negsuc [] s n i ellipsis = refl
first_n_from_negsuc (c ∷ rest) s n i ellipsis = first_n_from_negsuc rest s n (i + 1) ellipsis

-- `FirstN` cuts a text that has more than `n` runes behind them and puts the endings there. Any other
-- text stays, and so does every text if `n` is negative.
pub first_n-cut_to :
    (s : Text) (n : ℤ) (ellipsis : List Text) → first_n s n ellipsis ≡ cut_to n ellipsis s
unfolding first_n cut_to
first_n-cut_to s (pos n) ellipsis =
    let first : 0 + length s ≡ length s = omega arith in
    first_n_from_pos s s n 0 ellipsis (omega arith)
    ∙ ap (λ k. if ltb n k then append_each (take n s) ellipsis else s) first
    ∙ ap (λ t. if ltb n (length s) then t else s) (append_each-concat ellipsis (take n s))
first_n-cut_to s (negsuc n) ellipsis = first_n_from_negsuc s s n 0 ellipsis
