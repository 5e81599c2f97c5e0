-- ===== src/Stringx/Compaction.antt =====
-- The loops of core/stringx/strings.go that move what they keep to the front of a slice.
use go_zero_update.Common.{
  ℕ, zero, suc, ◌+◌, ◌<◌, ◌≤◌, ◌≡◌, refl, sym, ap, ◌∙◌, inl, inr, Bool, false, List, [], ◌∷◌, ◌++◌,
  append_assoc, append-nil, ltb, ◌||◌, if◌then◌else◌, length, length-set, get_or, set, take, drop,
  arith, Bool-cases,
}
use go_zero_update.Common.Texts.{bytes_eq}
use go_zero_update.Stringx.{Text, filter_from, filter, remove_from, remove_one, remove}

module _ {ℓ} {A : Type ℓ} where
  -- What stays, in its order.
  unfoldable pub keep : (A → Bool) → List A → List A
  keep drops [] = []
  keep drops (x ∷ xs) = let rest = keep drops xs in if drops x then rest else x ∷ rest

  take-set : (xs : List A) (n : ℕ) (x : A) → take n (set xs n x) ≡ take n xs
  take-set [] n x = refl
  take-set (y ∷ xs) zero x = refl
  take-set (y ∷ xs) (suc n) x = ap (λ l. y ∷ l) (take-set xs n x)

  take_one_more :
      (xs : List A) (n : ℕ) (d : A)
      → n < length xs
      → take (suc n) xs ≡ take n xs ++ get_or xs n d ∷ []
  take_one_more [] n d h = absurd (omega (arith, h))
  take_one_more (y ∷ xs) zero d h = refl
  take_one_more (y ∷ xs) (suc n) d h = ap (λ l. y ∷ l) (take_one_more xs n d (omega (arith, h)))

  take_more-set :
      (xs : List A) (n : ℕ) (x : A)
      → n < length xs
      → take (suc n) (set xs n x) ≡ take n xs ++ x ∷ []
  take_more-set [] n x h = absurd (omega (arith, h))
  take_more-set (y ∷ xs) zero x h = refl
  take_more-set (y ∷ xs) (suc n) x h = ap (λ l. y ∷ l) (take_more-set xs n x (omega (arith, h)))

  drop-set : (xs : List A) (n j : ℕ) (x : A) → n < j → drop j (set xs n x) ≡ drop j xs
  drop-set xs n zero x h = absurd (omega (arith, h))
  drop-set [] n (suc j) x h = refl
  drop-set (y ∷ xs) zero (suc j) x h = refl
  drop-set (y ∷ xs) (suc n) (suc j) x h = drop-set xs n j x (omega (arith, h))

  drop_cons :
      (xs : List A) (i : ℕ) (d : A) → i < length xs → drop i xs ≡ get_or xs i d ∷ drop (suc i) xs
  drop_cons [] i d h = absurd (omega (arith, h))
  drop_cons (y ∷ xs) zero d h = refl
  drop_cons (y ∷ xs) (suc i) d h = drop_cons xs i d (omega (arith, h))

  drop_all : (xs : List A) (i : ℕ) → length xs ≤ i → drop i xs ≡ []
  drop_all [] zero h = refl
  drop_all [] (suc i) h = refl
  drop_all (y ∷ xs) zero h = absurd (omega (arith, h))
  drop_all (y ∷ xs) (suc i) h = drop_all xs i (omega (arith, h))

-- A write of the rune at `i` to the place `n`, if it is not there.
abbrev pub moved {ℓ} : {A : Type ℓ} → List A → ℕ → ℕ → A → List A
moved xs n i x = if ltb n i then set xs n x else xs

module _ {ℓ} {A : Type ℓ} (xs : List A) (n i : ℕ) (d : A) (h : n ≤ i) (below : i < length xs) where
  moved-length : length (moved xs n i (get_or xs i d)) ≡ length xs
  moved-length = elim (Bool-cases (ltb n i)) [
    | inl e ↦ rw e (length-set xs n (get_or xs i d))
    | inr e ↦ rw e refl
  ]

  moved-take : take n (moved xs n i (get_or xs i d)) ≡ take n xs
  moved-take = elim (Bool-cases (ltb n i)) [
    | inl e ↦ rw e (take-set xs n (get_or xs i d))
    | inr e ↦ rw e refl
  ]

  moved-drop : drop (i + 1) (moved xs n i (get_or xs i d)) ≡ drop (suc i) xs
  moved-drop =
      let next : i + 1 ≡ suc i = omega arith in
      elim (Bool-cases (ltb n i)) [
        | inl e ↦ rw (e, next) (drop-set xs n (suc i) (get_or xs i d) (omega (arith, h)))
        | inr e ↦ rw (e, next) refl
      ]

  moved_more : take (n + 1) (moved xs n i (get_or xs i d)) ≡ take n xs ++ get_or xs i d ∷ []
  moved_more =
      let next : n + 1 ≡ suc n = omega arith in
      elim (Bool-cases (ltb n i)) [
        | inl e ↦ rw (e, next) (take_more-set xs n (get_or xs i d) (omega (arith, h, below)))
        | inr e ↦
            let same : n ≡ i = ground (arith, e, h) in
            rw (e, next)
              (take_one_more xs n d (omega (arith, h, below))
                ∙ ap (λ j. take n xs ++ get_or xs j d ∷ []) same)
      ]

-- What a loop keeps is in front of the slice, and the rest follows.
filter_from-keep :
    (drops : ℕ → Bool) (k i n : ℕ) (xs : Text)
    → n ≤ i
    → i + k ≡ length xs
    → take (filter_from drops k i n xs).1 (filter_from drops k i n xs).0
      ≡ take n xs ++ keep drops (drop i xs)
unfolding filter_from keep
filter_from-keep drops zero i n xs h e = sym (
    ap (λ l. take n xs ++ keep drops l) (drop_all xs i (omega (arith, e))) ∙ append-nil (take n xs))
filter_from-keep drops (suc k) i n xs h e =
    let x = get_or xs i 0 in
    let below : i < length xs = omega (arith, e) in
    let size : i + 1 + k ≡ length (moved xs n i x) =
      omega (arith, e, moved-length xs n i 0 h below) in
    let rest = moved-drop xs n i 0 h below in
    let here = ap (keep drops) (drop_cons xs i 0 below) in
    elim (Bool-cases (drops x)) [
      | inl f ↦
          rw (filter_from, f)
            (filter_from-keep drops k (i + 1) n (moved xs n i x) (omega (arith, h)) size
              ∙ ap (λ l. l ++ keep drops (drop (i + 1) (moved xs n i x)))
                  (moved-take xs n i 0 h below)
              ∙ ap (λ l. take n xs ++ keep drops l) rest
              ∙ ap (λ l. take n xs ++ l) (sym (here ∙ rw f refl)))
      | inr f ↦
          rw (filter_from, f)
            (filter_from-keep drops k (i + 1) (n + 1) (moved xs n i x) (omega (arith, h)) size
              ∙ ap (λ l. l ++ keep drops (drop (i + 1) (moved xs n i x)))
                  (moved_more xs n i 0 h below)
              ∙ ap (λ l. (take n xs ++ x ∷ []) ++ keep drops l) rest
              ∙ append_assoc (take n xs) (x ∷ []) (keep drops (drop (suc i) xs))
              ∙ ap (λ l. take n xs ++ l) (sym (here ∙ rw f refl)))
    ]

-- `Filter` keeps the runes that its function does not accept, in their order.
pub filter-keep : (s : Text) (drops : ℕ → Bool) → filter s drops ≡ keep drops s
unfolding filter
filter-keep s drops = filter_from-keep drops (length s) 0 0 s (omega arith) (omega arith)

-- The loop of `Remove` writes an element that it keeps in any case; the slice is the same.
set_same : (xs : List Text) (i : ℕ) → set xs i (get_or xs i []) ≡ xs
set_same [] i = refl
set_same (x ∷ xs) zero = refl
set_same (x ∷ xs) (suc i) = ap (λ l. x ∷ l) (set_same xs i)

remove_from-keep :
    (str : Text) (k i n : ℕ) (xs : List Text)
    → n ≤ i
    → i + k ≡ length xs
    → take (remove_from str k i n xs).1 (remove_from str k i n xs).0
      ≡ take n xs ++ keep (λ v. bytes_eq v str) (drop i xs)
unfolding remove_from keep
remove_from-keep str zero i n xs h e = sym (
    ap (λ l. take n xs ++ keep (λ v. bytes_eq v str) l) (drop_all xs i (omega (arith, e)))
    ∙ append-nil (take n xs))
remove_from-keep str (suc k) i n xs h e =
    let x = get_or xs i [] in
    let drops : Text → Bool = λ v. bytes_eq v str in
    let below : i < length xs = omega (arith, e) in
    let here = ap (keep drops) (drop_cons xs i [] below) in
    let next : i + 1 ≡ suc i = omega arith in
    let written : set xs n x ≡ moved xs n i x = elim (Bool-cases (ltb n i)) [
      | inl f ↦ rw f refl
      | inr f ↦ let same : n ≡ i = ground (arith, f, h) in rw (f, same) (set_same xs i)
    ] in
    let size : i + 1 + k ≡ length (moved xs n i x) =
      omega (arith, e, moved-length xs n i [] h below) in
    elim (Bool-cases (bytes_eq x str)) [
      | inl f ↦
          rw (remove_from, f)
            (remove_from-keep str k (i + 1) n xs (omega (arith, h)) (omega (arith, e))
              ∙ ap (λ j. take n xs ++ keep drops (drop j xs)) next
              ∙ ap (λ l. take n xs ++ l) (sym (here ∙ rw f refl)))
      | inr f ↦
          rw (remove_from, f, written)
            (remove_from-keep str k (i + 1) (n + 1) (moved xs n i x) (omega (arith, h)) size
              ∙ ap (λ l. l ++ keep drops (drop (i + 1) (moved xs n i x)))
                  (moved_more xs n i [] h below)
              ∙ ap (λ l. (take n xs ++ x ∷ []) ++ keep drops l) (moved-drop xs n i [] h below)
              ∙ append_assoc (take n xs) (x ∷ []) (keep drops (drop (suc i) xs))
              ∙ ap (λ l. take n xs ++ l) (sym (here ∙ rw f refl)))
    ]

remove_one-keep :
    (str : Text) (out : List Text) → remove_one str out ≡ keep (λ v. bytes_eq v str) out
unfolding remove_one
remove_one-keep str out = remove_from-keep str (length out) 0 0 out (omega arith) (omega arith)

unfoldable pub is_in : Text → List Text → Bool
is_in v [] = false
is_in v (str ∷ strs) = bytes_eq v str || is_in v strs

keep-keep : (a b : Text → Bool) (xs : List Text) → keep b (keep a xs) ≡ keep (λ v. a v || b v) xs
unfolding keep
keep-keep a b [] = refl
keep-keep a b (x ∷ xs) = ground (arith, keep-keep a b xs)

keep_none : (xs : List Text) → keep (λ v. false) xs ≡ xs
unfolding keep
keep_none [] = refl
keep_none (x ∷ xs) = ap (λ l. x ∷ l) (keep_none xs)

-- `Remove` keeps the texts that are not among those to remove, in their order.
pub remove-keep :
    (strings strs : List Text) → remove strings strs ≡ keep (λ v. is_in v strs) strings
unfolding remove is_in
remove-keep strings [] = sym (keep_none strings)
remove-keep strings (str ∷ strs) =
    remove-keep (remove_one str strings) strs
    ∙ ap (keep (λ v. is_in v strs)) (remove_one-keep str strings)
    ∙ keep-keep (λ v. bytes_eq v str) (λ v. is_in v strs) strings
