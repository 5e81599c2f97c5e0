-- ===== src/Breaker/Google/Accept.antt =====
-- When core/breaker/googlebreaker.go lets a request pass whatever the random generator says.
use go_zero_update.Common.{
  ℕ, ◌+◌, ◌^◌, ◌≤◌, ◌<◌, ◌≡◌, refl, Bool, true, false, leb, arith, inl, inr, Bool-cases,
}
use go_zero_update.Common.Int.{ℤ, pos, negsuc, sub_ℕ}
use go_zero_update.Breaker.Counts.{bucket_count}
use go_zero_update.Breaker.History.{WindowResult, history}
use go_zero_update.Breaker.Google.{
  Float, Readings, Breaker, at_least, drop_ratio, must_pass, accept, protection, force_pass,
}

-- The int64 of Go.
abbrev pub Int64 : ℤ → Type 0
Int64 (pos n) = n < 2 ^ 63
Int64 (negsuc n) = n < 2 ^ 63

-- What IEEE 754 guarantees of float64, as far as the breaker relies on it. `Within e x` says that x is
-- finite and at most 2 ^ e away from 0, and `Le` is the order `<=`, in which a NaN has no place. A sum or
-- a product in its range is finite, and rounding respects the order. `k` is 1.5 and `min_k` is 1.1.
pub record FloatLaws (float : Float) : Type 1 where
  pub Within : ℕ → float.F → Type 0
  pub Le : float.F → float.F → Type 0
  pub within_more : (a b : ℕ) (x : float.F) → a ≤ b → Within a x → Within b x
  pub k_within : Within 1 float.k
  pub min_k_within : Within 1 float.min_k
  pub of_int_within : (i : ℤ) → Int64 i → Within 63 (float.of_int i)
  pub sub_within :
      (e : ℕ) (x y : float.F) → e < 1023 → Within e x → Within e y → Within (e + 1) (float.sub x y)
  pub mul_within :
      (a b : ℕ) (x y : float.F)
      → a + b ≤ 1023
      → Within a x
      → Within b y
      → Within (a + b) (float.mul x y)
  pub div_within :
      (e : ℕ) (x : float.F) (n : ℕ)
      → 0 < n
      → n < 2 ^ 63
      → Within e x
      → Within e (float.div x (float.of_int (pos n)))
  pub le_refl : (e : ℕ) (x : float.F) → Within e x → Le x x
  pub le_trans : (x y z : float.F) → Le x y → Le y z → Le x z
  pub not_less : (e : ℕ) (x y : float.F) → Within e x → Within e y → float.less x y ≡ false → Le y x
  pub of_int_mono :
      (a b c : ℕ)
      → a < 2 ^ 63
      → b < 2 ^ 63
      → c < 2 ^ 63
      → a ≤ b + c
      → Le (float.of_int (sub_ℕ a b)) (float.of_int (pos c))
  pub one-le-min_k : Le (float.of_int (pos 1)) float.min_k
  pub le-mul :
      (e : ℕ) (w : float.F) (n : ℕ)
      → e + 63 ≤ 1023
      → n < 2 ^ 63
      → Within e w
      → Le (float.of_int (pos 1)) w
      → Le (float.of_int (pos n)) (float.mul w (float.of_int (pos n)))
  pub difference_sign :
      (e : ℕ) (x y : float.F) (n : ℕ)
      → e < 1023
      → n + 1 < 2 ^ 63
      → Within e x
      → Within e y
      → Le x y
      → float.not_positive (float.div (float.sub x y) (float.of_int (pos (n + 1)))) ≡ true

-- Counts that fit in the int64 that they are in Go, as does the total plus 1.
abbrev pub Fits : WindowResult → Type 0
Fits h = (h.total_count + 1 < 2 ^ 63) × ((h.accepts < 2 ^ 63) × (h.failing_buckets < 2 ^ 63))

sub_ℕ-Int64 : (a b : ℕ) → a < 2 ^ 63 → b < 2 ^ 63 → Int64 (sub_ℕ a b)
sub_ℕ-Int64 a b h e = elim (Bool-cases (leb b a)) [
  | inl f ↦ rw f (omega (arith, h))
  | inr f ↦ rw f (omega (arith, e))
]

module _ (float : Float) (laws : FloatLaws float) where
  open float use {F, of_int, k, min_k, sub, mul, div}
  open laws use {Within, Le}

  -- The weight before it is raised to `min_k`.
  weight_Within :
      (n : ℕ)
      → n < 2 ^ 63
      → Within 66 (sub k (div (mul (sub k min_k) (of_int (pos n))) (of_int (pos bucket_count))))
  weight_Within n h =
      let gap = laws.sub_within 1 k min_k (omega arith) laws.k_within laws.min_k_within in
      let product =
        laws.mul_within 2 63 (sub k min_k) (of_int (pos n)) (omega arith) gap
          (laws.of_int_within (pos n) h) in
      let part =
        laws.div_within 65 (mul (sub k min_k) (of_int (pos n))) bucket_count (omega arith)
          (omega arith) product in
      laws.sub_within 65 k _ (omega arith) (laws.within_more 1 65 k (omega arith) laws.k_within)
        part

  at_least-Within : (x : F) → Within 66 x → Within 66 (at_least float x min_k)
  unfolding at_least
  at_least-Within x h = elim (Bool-cases (float.less x min_k)) [
    | inl below ↦ rw below (laws.within_more 1 66 min_k (omega arith) laws.min_k_within)
    | inr above ↦ rw above h
  ]

  min_k-le-at_least : (x : F) → Within 66 x → Le min_k (at_least float x min_k)
  unfolding at_least
  min_k-le-at_least x h = elim (Bool-cases (float.less x min_k)) [
    | inl below ↦ rw below (laws.le_refl 1 min_k laws.min_k_within)
    | inr above ↦ rw above (
        laws.not_less 66 x min_k h (laws.within_more 1 66 min_k (omega arith) laws.min_k_within)
          above)
  ]

  drop_ratio-not_positive :
      (h : WindowResult)
      → Fits h
      → h.total_count ≤ protection + h.accepts
      → float.not_positive (drop_ratio float h) ≡ true
  unfolding drop_ratio
  drop_ratio-not_positive h (total_fits, (accepts_fit, failing_fit)) few =
      let weight = weight_Within h.failing_buckets failing_fit in
      let at_least_weight = at_least-Within _ weight in
      let total_less : h.total_count < 2 ^ 63 = omega (arith, total_fits) in
      let accepts_within = laws.of_int_within (pos h.accepts) accepts_fit in
      let total_within =
        laws.of_int_within (sub_ℕ h.total_count protection)
          (sub_ℕ-Int64 h.total_count protection total_less (omega arith)) in
      laws.difference_sign 129 _ _ h.total_count (omega arith) total_fits
        (laws.within_more 63 129 _ (omega arith) total_within)
        (laws.mul_within 66 63 _ (of_int (pos h.accepts)) (omega arith) at_least_weight
          accepts_within)
        (laws.le_trans _ (of_int (pos h.accepts)) _
          (laws.of_int_mono h.total_count protection h.accepts total_less (omega arith) accepts_fit
            few)
          (laws.le-mul 66 _ h.accepts (omega arith) accepts_fit at_least_weight
            (laws.le_trans _ min_k _ laws.one-le-min_k (min_k-le-at_least _ weight))))

  -- While at most 5 of the requests in view have failed or been dropped, every request is let
  -- through, whatever the random generator answers, and the breaker does not change. The floats
  -- obey `FloatLaws`, and the counts fit in an int64.
  pub accept-few :
      (b : Breaker float) (clock : Readings) (true_on_proba : F → Bool)
      → Fits (history b.stat clock.at_history)
      → (history b.stat clock.at_history).total_count
        ≤ protection + (history b.stat clock.at_history).accepts
      → accept float b clock true_on_proba ≡ (false, b)
  unfolding accept
  accept-few b clock true_on_proba fits few =
      rw (drop_ratio-not_positive (history b.stat clock.at_history) fits few) refl

-- Once more than a second has passed since the last request that the breaker let through against
-- its drop ratio, the next request is let through, whatever its ratio.
pub accept-after_pause :
    (float : Float) (b : Breaker float) (clock : Readings) (true_on_proba : float.F → Bool)
    → 0 < b.last_pass
    → b.last_pass + force_pass < clock.at_since
    → (accept float b clock true_on_proba).0 ≡ false
unfolding accept must_pass
accept-after_pause float b clock true_on_proba h late = ground arith
