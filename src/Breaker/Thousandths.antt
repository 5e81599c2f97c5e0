-- ===== src/Breaker/Thousandths.antt =====
-- Signed numbers of thousandths with a NaN, for the breaker of core/breaker/googlebreaker.go at concrete
-- inputs: they obey the laws that it relies on.
use native.Mathlib.Nat.{zero-div}
use go_zero_update.Common.{
  ℕ, ◌+◌, ◌-◌, ◌*◌, ◌/◌, ◌≤◌, ◌<◌, ◌≡◌, refl, ap, ◌∙◌, Bool, true, false, not, Option, none, some,
  leb, ◌==◌, if◌then◌else◌, arith, inl, inr, Bool-cases,
}
use go_zero_update.Common.Int.{ℤ, pos, negsuc, sub_ℕ}
use go_zero_update.Breaker.Google.{Float}
use go_zero_update.Breaker.Google.Accept.{FloatLaws}

abbrev Number : Type 0
Number = Option ℤ

-- -n.
abbrev negated : ℕ → ℤ
negated n = sub_ℕ 0 n

abbrev sub_ℤ : ℤ → ℤ → ℤ
sub_ℤ (pos a) (pos b) = sub_ℕ a b
sub_ℤ (pos a) (negsuc b) = pos (a + b + 1)
sub_ℤ (negsuc a) (pos b) = negsuc (a + b)
sub_ℤ (negsuc a) (negsuc b) = sub_ℕ b a

-- The product of the signs, and a function of the two sizes.
abbrev by_sizes : (ℕ → ℕ → ℕ) → ℤ → ℤ → ℤ
by_sizes f (pos a) (pos b) = pos (f a b)
by_sizes f (pos a) (negsuc b) = negated (f a (b + 1))
by_sizes f (negsuc a) (pos b) = negated (f (a + 1) b)
by_sizes f (negsuc a) (negsuc b) = pos (f (a + 1) (b + 1))

abbrev le_ℤ : ℤ → ℤ → Bool
le_ℤ (pos a) (pos b) = leb a b
le_ℤ (pos a) (negsuc b) = false
le_ℤ (negsuc a) (pos b) = true
le_ℤ (negsuc a) (negsuc b) = leb b a

abbrev on_numbers : (ℤ → ℤ → ℤ) → Number → Number → Number
on_numbers f (some a) (some b) = some (f a b)
on_numbers f _ _ = none

abbrev test_numbers : (ℤ → ℤ → Bool) → Number → Number → Bool
test_numbers f (some a) (some b) = f a b
test_numbers f _ _ = false

abbrev is_zero : ℤ → Bool
is_zero (pos n) = n == 0
is_zero (negsuc n) = false

abbrev thousand : ℤ → ℤ
thousand i = by_sizes (λ a b. a * b) i (pos 1000)

abbrev divided : Number → Number → Number
divided (some a) (some b) = if is_zero b then none else some (by_sizes (λ n m. n * 1000 / m) a b)
divided _ _ = none

abbrev pub thousandths : Float
thousandths = record {
  F = Number;
  of_int = λ i. some (thousand i);
  k = some (pos 1500);
  min_k = some (pos 1100);
  sub = on_numbers sub_ℤ;
  mul = on_numbers (by_sizes (λ a b. a * b / 1000));
  div = divided;
  less = test_numbers (λ a b. not (le_ℤ b a));
  not_positive = λ x. test_numbers le_ℤ x (some (pos 0));
}

abbrev Le : Number → Number → Type 0
Le x y = test_numbers le_ℤ x y ≡ true

-- No number is too large: only the NaN is out of range.
abbrev Within : ℕ → Number → Type 0
Within e none = ⊥
Within e (some i) = Unit

le_refl : (e : ℕ) (x : Number) → Within e x → Le x x
le_refl e none h = absurd h
le_refl e (some (pos a)) h = ground arith
le_refl e (some (negsuc a)) h = ground arith

le_trans : (x y z : Number) → Le x y → Le y z → Le x z
le_trans none y z h f = absurd (ground (arith, h))
le_trans (some x) none z h f = absurd (ground (arith, h))
le_trans (some x) (some y) none h f = absurd (ground (arith, f))
le_trans (some (pos x)) (some (pos y)) (some (pos z)) h f = ground (arith, h, f)
le_trans (some (pos x)) (some (pos y)) (some (negsuc z)) h f = absurd (ground (arith, f))
le_trans (some (pos x)) (some (negsuc y)) (some z) h f = absurd (ground (arith, h))
le_trans (some (negsuc x)) (some y) (some (pos z)) h f = refl
le_trans (some (negsuc x)) (some (pos y)) (some (negsuc z)) h f = absurd (ground (arith, f))
le_trans (some (negsuc x)) (some (negsuc y)) (some (negsuc z)) h f = ground (arith, h, f)

not_less :
    (e : ℕ) (x y : Number)
    → Within e x
    → Within e y
    → test_numbers (λ a b. not (le_ℤ b a)) x y ≡ false
    → Le y x
not_less e none y h f g = absurd h
not_less e (some x) none h f g = absurd f
not_less e (some x) (some y) h f g = ground (arith, g)

sub-Within :
    (e : ℕ) (x y : Number) → Within e x → Within e y → Within (e + 1) (on_numbers sub_ℤ x y)
sub-Within e none y h f = absurd h
sub-Within e (some x) none h f = absurd f
sub-Within e (some x) (some y) h f = tt

mul-Within :
    (a b : ℕ) (x y : Number)
    → Within a x
    → Within b y
    → Within (a + b) (on_numbers (by_sizes (λ n m. n * m / 1000)) x y)
mul-Within a b none y h f = absurd h
mul-Within a b (some x) none h f = absurd f
mul-Within a b (some x) (some y) h f = tt

Within-more : (a b : ℕ) (x : Number) → a ≤ b → Within a x → Within b x
Within-more a b none h f = absurd f
Within-more a b (some x) h f = tt

div-Within :
    (e : ℕ) (x : Number) (n : ℕ)
    → 0 < n
    → Within e x
    → Within e (divided x (some (thousand (pos n))))
div-Within e none n h f = absurd f
div-Within e (some x) n h f = let other : (n * 1000 == 0) ≡ false = ground (arith, h) in rw other tt

negated-le : (n c : ℕ) → le_ℤ (negated n) (pos c) ≡ true
negated-le n c = ground arith

sub_ℤ-le : (x y : ℤ) → le_ℤ x y ≡ true → le_ℤ (sub_ℤ x y) (pos 0) ≡ true
sub_ℤ-le (pos a) (pos b) h = ground (arith, h)
sub_ℤ-le (pos a) (negsuc b) h = absurd (ground (arith, h))
sub_ℤ-le (negsuc a) (pos b) h = refl
sub_ℤ-le (negsuc a) (negsuc b) h = ground (arith, h)

divided-le :
    (i : ℤ) (m : ℕ)
    → le_ℤ i (pos 0) ≡ true
    → le_ℤ (by_sizes (λ n k. n * 1000 / k) i (pos m)) (pos 0) ≡ true
divided-le (pos a) m h =
    let none_left : a * 1000 ≡ 0 = ground (arith, h) in
    ap (λ n. leb (n / m) 0) none_left ∙ ap (λ n. leb n 0) (zero-div m)
divided-le (negsuc a) m h = negated-le ((a + 1) * 1000 / m) 0

of_int_mono : (a b c : ℕ) → a ≤ b + c → Le (some (thousand (sub_ℕ a b))) (some (thousand (pos c)))
of_int_mono a b c h = elim (Bool-cases (leb b a)) [
  | inl e ↦ rw e (ground (arith, h, e))
  | inr e ↦ rw e (negated-le ((b - a - 1 + 1) * 1000) (c * 1000))
]

le-mul :
    (e : ℕ) (w : Number) (n : ℕ)
    → Within e w
    → Le (some (pos 1000)) w
    → Le
        (some (pos (n * 1000)))
        (on_numbers (by_sizes (λ a b. a * b / 1000)) w (some (pos (n * 1000))))
le-mul e none n h f = absurd h
le-mul e (some (pos w)) n h f =
    let large : 1000 ≤ w = ground (arith, f) in
    let product : 1000 * (n * 1000) ≤ w * (n * 1000) = grind (arith, large) in
    ground (arith, product)
le-mul e (some (negsuc w)) n h f = absurd (ground (arith, f))

difference_sign :
    (e : ℕ) (x y : Number) (n : ℕ)
    → Within e x
    → Within e y
    → Le x y
    → test_numbers le_ℤ
        (divided (on_numbers sub_ℤ x y) (some (thousand (pos (n + 1)))))
        (some (pos 0))
      ≡ true
difference_sign e none y n h f l = absurd h
difference_sign e (some x) none n h f l = absurd f
difference_sign e (some x) (some y) n h f l =
    let other : ((n + 1) * 1000 == 0) ≡ false = ground arith in
    rw other (divided-le (sub_ℤ x y) ((n + 1) * 1000) (sub_ℤ-le x y l))

pub thousandths-FloatLaws : FloatLaws thousandths
thousandths-FloatLaws = record {
  Within = Within;
  Le = Le;
  within_more = Within-more;
  k_within = tt;
  min_k_within = tt;
  of_int_within = λ i h. tt;
  sub_within = λ e x y h. sub-Within e x y;
  mul_within = λ a b x y h. mul-Within a b x y;
  div_within = λ e x n h g. div-Within e x n h;
  le_refl = le_refl;
  le_trans = le_trans;
  not_less = not_less;
  of_int_mono = λ a b c f g h. of_int_mono a b c;
  one-le-min_k = refl;
  le-mul = λ e w n f g. le-mul e w n;
  difference_sign = λ e x y n f g. difference_sign e x y n;
}
