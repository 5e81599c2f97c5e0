-- ===== src/Common/Table.antt =====
-- The values of a function at `s`, `s + 1`, ..., as a list.
use Prim.Native.Nat.{ℕ, zero, suc, ◌+◌, ◌-◌, ◌<◌, ◌≤◌}
use mathlib.Core.Path.{◌≡◌, refl, ap, ap₂, ◌∙◌}
use mathlib.Core.List.{List, [], ◌∷◌, ◌++◌}
use native.Mathlib.Omega.{arith}
use go_zero_update.Common.Lists.{length, take, drop, replicate}

module _ {ℓ} {A : Type ℓ} where
  abbrev pub table : (ℕ → A) → ℕ → ℕ → List A
  table f s zero = []
  table f s (suc n) = f s ∷ table f (s + 1) n

  pub length-table : (f : ℕ → A) (s n : ℕ) → length (table f s n) ≡ n
  length-table f s zero = refl
  length-table f s (suc n) = ap suc (length-table f (s + 1) n)

  pub table-suc : (f : ℕ → A) (s n : ℕ) → table f s (suc n) ≡ table f s n ++ f (s + n) ∷ []
  table-suc f s zero = let e : s ≡ s + 0 = omega arith in ap (λ k. f k ∷ []) e
  table-suc f s (suc n) =
      let e : s + 1 + n ≡ s + suc n = omega arith in
      ap (λ l. f s ∷ l) (table-suc f (s + 1) n ∙ ap (λ k. table f (s + 1) n ++ f k ∷ []) e)

  pub table-add : (f : ℕ → A) (s m n : ℕ) → table f s (m + n) ≡ table f s m ++ table f (s + m) n
  table-add f s zero n =
      let e : 0 + n ≡ n = omega arith in let e' : s ≡ s + 0 = omega arith in ap₂ (table f) e' e
  table-add f s (suc m) n =
      let e : suc m + n ≡ suc (m + n) = omega arith in
      let e' : s + 1 + m ≡ s + suc m = omega arith in
      ap (table f s) e
      ∙ ap (λ l. f s ∷ l) (table-add f (s + 1) m n ∙ ap (λ k. table f (s + 1) m ++ table f k n) e')

  pub drop-table : (f : ℕ → A) (k s n : ℕ) → drop k (table f s n) ≡ table f (s + k) (n - k)
  drop-table f zero s n =
      let e : s ≡ s + 0 = omega arith in let e' : n ≡ n - 0 = omega arith in ap₂ (table f) e e'
  drop-table f (suc k) s zero =
      let e : ◌≡◌ {A = ℕ} 0 (0 - suc k) = omega arith in ap (table f (s + suc k)) e
  drop-table f (suc k) s (suc n) =
      let e : s + 1 + k ≡ s + suc k = omega arith in
      let e' : n - k ≡ suc n - suc k = omega arith in drop-table f k (s + 1) n ∙ ap₂ (table f) e e'

  pub take-table : (f : ℕ → A) (k s n : ℕ) → k ≤ n → take k (table f s n) ≡ table f s k
  take-table f zero s n h = refl
  take-table f (suc k) s zero h = absurd (omega arith)
  take-table f (suc k) s (suc n) h = ap (λ l. f s ∷ l) (take-table f k (s + 1) n (omega arith))

  pub table-eq :
      (f g : ℕ → A) (s n : ℕ)
      → ((j : ℕ) → s ≤ j → j < s + n → f j ≡ g j)
      → table f s n ≡ table g s n
  table-eq f g s zero h = refl
  table-eq f g s (suc n) h =
      ap₂ (λ a l. a ∷ l) (h s (omega arith) (omega arith))
        (table-eq f g (s + 1) n (λ j p q. h j (omega arith) (omega arith)))

  pub table-replicate : (a : A) (s n : ℕ) → table (λ j. a) s n ≡ replicate n a
  table-replicate a s zero = refl
  table-replicate a s (suc n) = ap (λ l. a ∷ l) (table-replicate a (s + 1) n)
