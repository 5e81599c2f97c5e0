-- ===== src/Collection/TimingWheel/Slots.antt =====
-- Slots of core/collection/timingwheel.go as lists of tasks.
use go_zero_update.Common.{
  ℕ, ◌<◌, ◌≡◌, ◌≢◌, refl, ap, true, false, ◌&&◌, ◌||◌, not, List, [], ◌∷◌, ◌++◌, ◌==◌,
  if◌then◌else◌, length, get_or, set, length-set, get_or-set_self, get_or-set_ne, arith, ◌⊎◌, inl,
  inr, Bool-cases, ==_iff,
}
use go_zero_update.Common.Store.{mem, Nodup}
use go_zero_update.Collection.TimingWheel.{remove_item, push_slot, remove_slot}

mem-push : (i j : ℕ) (js : List ℕ) → mem i (js ++ j ∷ []) ≡ (mem i js || j == i)
unfolding mem
mem-push i j [] = ground arith
mem-push i j (k ∷ js) = ground (arith, mem-push i j js)

push-Nodup : (j : ℕ) (js : List ℕ) → Nodup js → mem j js ≡ false → Nodup (js ++ j ∷ [])
unfolding mem
push-Nodup j [] d h = (refl, tt)
push-Nodup j (k ∷ js) d h = (ground (arith, mem-push k j js), push-Nodup j js (d.1) (ground arith))

remove_item-absent : (i : ℕ) (js : List ℕ) → mem i js ≡ false → remove_item i js ≡ js
unfolding mem remove_item
remove_item-absent i [] h = refl
remove_item-absent i (j ∷ js) h = ground (arith, remove_item-absent i js)

mem-remove_item :
    (i j : ℕ) (js : List ℕ) → Nodup js → mem i (remove_item j js) ≡ (mem i js && not (j == i))
unfolding mem remove_item
mem-remove_item i j [] d = refl
mem-remove_item i j (k ∷ js) d =
    ground (arith, mem-remove_item i j js (d.1), ==_iff k j, ap (λ n. mem n js))

remove_item-Nodup : (j : ℕ) (js : List ℕ) → Nodup js → Nodup (remove_item j js)
unfolding mem remove_item
remove_item-Nodup j [] d = tt
remove_item-Nodup j (k ∷ js) d = elim (Bool-cases (k == j)) [
  | inl e ↦ rw e (d.1)
  | inr e ↦ rw e (ground (arith, mem-remove_item k j js (d.1), d.0), remove_item-Nodup j js (d.1))
]

abbrev pub slot : List (List ℕ) → ℕ → List ℕ
slot slots p = get_or slots p []

-- The slots after a write to one of them.
slot-set :
    (slots : List (List ℕ)) (p q : ℕ) (js : List ℕ)
    → p < length slots
    → slot (set slots p js) q ≡ (if p == q then js else slot slots q)
slot-set slots p q js h = elim (Bool-cases (p == q)) [
  | inl e ↦ let is : p ≡ q = ground arith in rw (e, ← is) (get_or-set_self slots p js [] h)
  | inr e ↦ let apart : p ≢ q = λ s. ground arith in rw e (get_or-set_ne slots p q js [] apart)
]

pub mem-push_slot :
    (slots : List (List ℕ)) (p q i j : ℕ)
    → p < length slots
    → mem i (slot (push_slot slots p j) q) ≡ (mem i (slot slots q) || (p == q && j == i))
unfolding push_slot
mem-push_slot slots p q i j h =
    rw (slot-set slots p q (slot slots p ++ j ∷ []) h) (split (Bool-cases (p == q)))
  where
    split :
        ((p == q) ≡ true) ⊎ ((p == q) ≡ false)
        → mem i (if p == q then slot slots p ++ j ∷ [] else slot slots q)
          ≡ (mem i (slot slots q) || (p == q && j == i))
    split (inl e) = let is : p ≡ q = ground arith in rw (e, mem-push i j (slot slots p), is) refl
    split (inr e) = ground (arith, e)

pub mem-remove_slot :
    (slots : List (List ℕ)) (p q i j : ℕ)
    → p < length slots
    → Nodup (slot slots p)
    → mem i (slot (remove_slot slots p j) q) ≡ (mem i (slot slots q) && not (p == q && j == i))
unfolding remove_slot
mem-remove_slot slots p q i j h d =
    rw (slot-set slots p q (remove_item j (slot slots p)) h) (split (Bool-cases (p == q)))
  where
    split :
        ((p == q) ≡ true) ⊎ ((p == q) ≡ false)
        → mem i (if p == q then remove_item j (slot slots p) else slot slots q)
          ≡ (mem i (slot slots q) && not (p == q && j == i))
    split (inl e) =
        let is : p ≡ q = ground arith in rw (e, mem-remove_item i j (slot slots p) d, is) refl
    split (inr e) = ground (arith, e)

pub push_slot-Nodup :
    (slots : List (List ℕ)) (p q j : ℕ)
    → p < length slots
    → mem j (slot slots p) ≡ false
    → ((r : ℕ) → Nodup (slot slots r))
    → Nodup (slot (push_slot slots p j) q)
unfolding push_slot
push_slot-Nodup slots p q j h f d =
    rw (slot-set slots p q (slot slots p ++ j ∷ []) h) (elim (Bool-cases (p == q)) [
      | inl e ↦ rw e (push-Nodup j (slot slots p) (d p) f)
      | inr e ↦ rw e (d q)
    ])

pub remove_slot-Nodup :
    (slots : List (List ℕ)) (p q j : ℕ)
    → p < length slots
    → ((r : ℕ) → Nodup (slot slots r))
    → Nodup (slot (remove_slot slots p j) q)
unfolding remove_slot
remove_slot-Nodup slots p q j h d =
    rw (slot-set slots p q (remove_item j (slot slots p)) h) (elim (Bool-cases (p == q)) [
      | inl e ↦ rw e (remove_item-Nodup j (slot slots p) (d p))
      | inr e ↦ rw e (d q)
    ])

pub length-push_slot :
    (slots : List (List ℕ)) (p j : ℕ) → length (push_slot slots p j) ≡ length slots
unfolding push_slot
length-push_slot slots p j = length-set slots p (slot slots p ++ j ∷ [])

pub length-remove_slot :
    (slots : List (List ℕ)) (p j : ℕ) → length (remove_slot slots p j) ≡ length slots
unfolding remove_slot
length-remove_slot slots p j = length-set slots p (remove_item j (slot slots p))
