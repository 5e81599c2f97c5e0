-- ===== src/Common/Circular.antt =====
-- Reading a slice as a ring: the elements at `start`, `start + 1`, ..., each index taken modulo
-- the length.
use Prim.Native.Nat.{ℕ, zero, suc, ◌+◌, ◌-◌, ◌%◌, ◌<◌, ◌≤◌}
use mathlib.Core.Path.{◌≡◌, refl, sym, ap, ap₂, ◌∙◌}
use mathlib.Core.Logic.{◌≢◌}
use mathlib.Core.List.{List, [], ◌∷◌, ◌++◌}
use native.Mathlib.Omega.{arith}
use native.Mathlib.Nat.{mod-eq_of_lt, mod-add-mod, mod-eq-sub-mod, div-add-mod}
use native.Mathlib.Decide.{dec_lt}
use go_zero_update.Common.Lists.{
  length, get_or, set, take, drop, replicate, length-append, length-set, length-take, length-drop,
  get_or-set_ne, get_or-append_left, get_or-append_right, get_or-drop, get_or-take,
}

pub mod-ne : (a b n : ℕ) → a < b → b < a + n → a % n ≢ b % n
mod-ne a b n h k e = grind (arith, div-add-mod a n, div-add-mod b n)

pub mod-suc : (a n : ℕ) → (a % n + 1) % n ≡ (a + 1) % n
mod-suc a n = mod-add-mod a n 1

-- The index of `start + i` for a start and an offset inside the ring.
pub mod-once_low : (a n : ℕ) → a < n → a % n ≡ a
mod-once_low a n h = mod-eq_of_lt h

pub mod-once_high : (a n : ℕ) → n ≤ a → a < n + n → a % n ≡ a - n
mod-once_high a n h k =
    grind (arith, mod-eq-sub-mod {n = a} {m = n} h, mod-eq_of_lt {n = a - n} {m = n})

module _ {ℓ} {A : Type ℓ} (d : A) where
  pub ext :
      (xs ys : List A)
      → length xs ≡ length ys
      → ((i : ℕ) → i < length xs → get_or xs i d ≡ get_or ys i d)
      → xs ≡ ys
  ext [] [] e h = refl
  ext [] (y ∷ ys) e h = absurd (omega arith)
  ext (x ∷ xs) [] e h = absurd (omega arith)
  ext (x ∷ xs) (y ∷ ys) e h =
      ap₂ (λ a l. a ∷ l) (h 0 (omega arith))
        (ext xs ys (omega arith) (λ i p. h (suc i) (omega arith)))

  abbrev pub circular : List A → ℕ → ℕ → List A
  circular xs start zero = []
  circular xs start (suc n) = get_or xs (start % length xs) d ∷ circular xs (start + 1) n

  pub length-circular : (xs : List A) (start n : ℕ) → length (circular xs start n) ≡ n
  length-circular xs start zero = refl
  length-circular xs start (suc n) = ap suc (length-circular xs (start + 1) n)

  pub get_or-circular :
      (xs : List A) (start n i : ℕ)
      → i < n
      → get_or (circular xs start n) i d ≡ get_or xs ((start + i) % length xs) d
  get_or-circular xs start zero i h = absurd (omega arith)
  get_or-circular xs start (suc n) zero h =
      let e : start ≡ start + 0 = omega arith in ap (λ k. get_or xs (k % length xs) d) e
  get_or-circular xs start (suc n) (suc i) h =
      let e : start + 1 + i ≡ start + suc i = omega arith in
      get_or-circular xs (start + 1) n i (omega arith) ∙ ap (λ k. get_or xs (k % length xs) d) e

  pub circular-mod :
      (xs : List A) (s t n : ℕ) → s % length xs ≡ t % length xs → circular xs s n ≡ circular xs t n
  circular-mod xs s t zero e = refl
  circular-mod xs s t (suc n) e =
      ap₂ (λ k l. get_or xs k d ∷ l) e
        (circular-mod xs (s + 1) (t + 1) n
          (sym (mod-suc s (length xs)) ∙ ap (λ k. (k + 1) % length xs) e ∙ mod-suc t (length xs)))

  -- A window that is one longer ends in one more element.
  pub circular-suc :
      (xs : List A) (s n : ℕ)
      → circular xs s (suc n) ≡ circular xs s n ++ get_or xs ((s + n) % length xs) d ∷ []
  circular-suc xs s zero =
      let e : s ≡ s + 0 = omega arith in ap (λ k. get_or xs (k % length xs) d ∷ []) e
  circular-suc xs s (suc n) =
      let e : s + 1 + n ≡ s + suc n = omega arith in
      ap (λ l. get_or xs (s % length xs) d ∷ l)
        (circular-suc xs (s + 1) n
          ∙ ap (λ k. circular xs (s + 1) n ++ get_or xs (k % length xs) d ∷ []) e)

  -- A write to a place outside the window is not seen in it.
  pub circular-set :
      (xs : List A) (s n j : ℕ) (v : A)
      → s + n ≤ j
      → j < s + length xs
      → circular (set xs (j % length xs) v) s n ≡ circular xs s n
  circular-set xs s zero j v h k = refl
  circular-set xs s (suc n) j v h k =
      ap₂ (λ a l. a ∷ l)
        (ap (λ m. get_or (set xs (j % length xs) v) (s % m) d) (length-set xs (j % length xs) v)
          ∙ get_or-set_ne xs (j % length xs) (s % length xs) v d
              (λ e. mod-ne s j (length xs) (omega arith) k (sym e)))
        (circular-set xs (s + 1) n j v (omega arith) (omega arith))

  -- The whole ring, read from `h` on.
  pub circular-all :
      (xs : List A) (h : ℕ) → h < length xs → circular xs h (length xs) ≡ drop h xs ++ take h xs
  circular-all xs h p = ext _ _ (lengths) at_index
    where
      lengths : length (circular xs h (length xs)) ≡ length (drop h xs ++ take h xs)
      lengths = omega (
        arith,
        length-circular xs h (length xs),
        length-append (drop h xs) (take h xs),
        length-drop h xs,
        length-take h xs,
      )

      at_index :
          (i : ℕ)
          → i < length (circular xs h (length xs))
          → get_or (circular xs h (length xs)) i d ≡ get_or (drop h xs ++ take h xs) i d
      at_index i q = elim (dec_lt (h + i) (length xs)) [
        | yes low ↦
            get_or-circular xs h (length xs) i inside
            ∙ ap (λ k. get_or xs k d) (mod-once_low (h + i) (length xs) low)
            ∙ sym (get_or-drop h xs i d)
            ∙ sym (
                get_or-append_left (drop h xs) (take h xs) i d
                  (omega (arith, inside, length-drop h xs)))
        | no high ↦
            get_or-circular xs h (length xs) i inside
            ∙ ap (λ k. get_or xs k d)
                (mod-once_high (h + i) (length xs) (omega arith) (omega (arith, inside)))
            ∙ sym (get_or-take h xs (h + i - length xs) d (omega (arith, inside)))
            ∙ sym (get_or-append_right (drop h xs) (take h xs) (h + i - length xs) d)
            ∙ ap (λ k. get_or (drop h xs ++ take h xs) k d) (back (omega arith))
      ]
        where
          inside : i < length xs
          inside = omega (arith, length-circular xs h (length xs))

          back : length xs ≤ h + i → length (drop h xs) + (h + i - length xs) ≡ i
          back high = omega (arith, length-drop h xs)

  -- Reading a prefix from the start.
  pub circular-append : (xs ys : List A) → circular (xs ++ ys) 0 (length xs) ≡ xs
  circular-append xs ys = ext _ _ (length-circular (xs ++ ys) 0 (length xs)) at_index
    where
      at_index :
          (i : ℕ)
          → i < length (circular (xs ++ ys) 0 (length xs))
          → get_or (circular (xs ++ ys) 0 (length xs)) i d ≡ get_or xs i d
      at_index i q =
          get_or-circular (xs ++ ys) 0 (length xs) i inside
          ∙ ap (λ k. get_or (xs ++ ys) k d) (place (omega (arith, inside, length-append xs ys)))
          ∙ get_or-append_left xs ys i d inside
        where
          inside : i < length xs
          inside = omega (arith, length-circular (xs ++ ys) 0 (length xs))

          place : 0 + i < length (xs ++ ys) → (0 + i) % length (xs ++ ys) ≡ i
          place small = omega (arith, mod-once_low (0 + i) (length (xs ++ ys)) small)

  -- A longer window is one window and then the next.
  pub circular-add :
      (xs : List A) (s m n : ℕ) → circular xs s (m + n) ≡ circular xs s m ++ circular xs (s + m) n
  circular-add xs s zero n =
      let e : 0 + n ≡ n = omega arith in
      let e' : s ≡ s + 0 = omega arith in ap (circular xs s) e ∙ ap (λ k. circular xs k n) e'
  circular-add xs s (suc m) n =
      let e : suc m + n ≡ suc (m + n) = omega arith in
      let e' : s + 1 + m ≡ s + suc m = omega arith in
      ap (circular xs s) e
      ∙ ap (λ l. get_or xs (s % length xs) d ∷ l)
          (circular-add xs (s + 1) m n ∙ ap (λ k. circular xs (s + 1) m ++ circular xs k n) e')

  pub drop-circular :
      (xs : List A) (k s n : ℕ) → drop k (circular xs s n) ≡ circular xs (s + k) (n - k)
  drop-circular xs zero s n =
      let e : s ≡ s + 0 = omega arith in let e' : n ≡ n - 0 = omega arith in ap₂ (circular xs) e e'
  drop-circular xs (suc k) s zero =
      let e : ◌≡◌ {A = ℕ} 0 (0 - suc k) = omega arith in ap (circular xs (s + suc k)) e
  drop-circular xs (suc k) s (suc n) =
      let e : s + 1 + k ≡ s + suc k = omega arith in
      let e' : n - k ≡ suc n - suc k = omega arith in
      drop-circular xs k (s + 1) n ∙ ap₂ (circular xs) e e'

  pub take-circular : (xs : List A) (k s n : ℕ) → k ≤ n → take k (circular xs s n) ≡ circular xs s k
  take-circular xs zero s n h = refl
  take-circular xs (suc k) s zero h = absurd (omega arith)
  take-circular xs (suc k) s (suc n) h =
      ap (λ l. get_or xs (s % length xs) d ∷ l) (take-circular xs k (s + 1) n (omega arith))

  get_or-replicate : (n i : ℕ) → get_or (replicate n d) i d ≡ d
  get_or-replicate zero i = refl
  get_or-replicate (suc n) zero = refl
  get_or-replicate (suc n) (suc i) = get_or-replicate n i

  pub circular-replicate : (n s m : ℕ) → circular (replicate n d) s m ≡ replicate m d
  circular-replicate n s zero = refl
  circular-replicate n s (suc m) =
      ap₂ (λ a l. a ∷ l) (get_or-replicate n (s % length (replicate n d)))
        (circular-replicate n (s + 1) m)
