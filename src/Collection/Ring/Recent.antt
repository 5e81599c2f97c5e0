-- ===== src/Collection/Ring/Recent.antt =====
-- The ring of core/collection/ring.go against the list of all items added.
use mathlib.Core.Path.{ap₂}
use native.Mathlib.Decide.{dec_lt}
use native.Mathlib.Nat.{mod-lt, mod-mod, mod-eq-sub-mod, add-mod_right, zero-add}
use go_zero_update.Common.{
  ℕ, suc, ◌+◌, ◌-◌, ◌*◌, ◌%◌, ◌≤◌, ◌<◌, ◌≡◌, sym, ap, ◌∙◌, List, [], ◌∷◌, ◌++◌, arith, length,
  get_or, set, drop, returns, length-set, length-append, length-replicate, get_or-set_self,
  keep_last, keep_last-append, drop-append, append_assoc, append-nil,
}
use go_zero_update.Common.Circular
use go_zero_update.Common.Circular.{circular}
use go_zero_update.Collection.Ring.{Ring, new_ring, wrap_index, add, take_all}

pub record IsValid {ℓ} {A : Type ℓ} (r : Ring A) : Type 0 where
  pub not_empty : 0 < length r.elements
  pub index_bound : r.index < length r.elements * 2

module _ {ℓ} {A : Type ℓ} (nil : A) where
  -- An add keeps a ring valid: it is not empty, and its index stays below twice its length, so that
  -- the index does not grow with the number of adds.
  pub add-IsValid : (r : Ring A) (v : A) → IsValid r → IsValid (add nil r v)
  unfolding add
  add-IsValid r v h = ground (arith, length-set r.elements (r.index % length r.elements) v)

  take_all-low :
      (r : Ring A)
      → r.index ≤ length r.elements
      → take_all nil r ≡ circular nil r.elements 0 r.index
  unfolding take_all
  take_all-low r h = ground arith

  take_all-high :
      (r : Ring A)
      → length r.elements ≤ r.index
      → 0 < length r.elements
      → take_all nil r ≡ circular nil r.elements r.index (length r.elements)
  unfolding take_all
  take_all-high r h p = elim (dec_lt (length r.elements) r.index) [
    | yes above ↦
        more above
        ∙ Circular.circular-mod nil r.elements (r.index % length r.elements) r.index
            (length r.elements) (mod-mod r.index (length r.elements))
    | no exact ↦
        let e : r.index ≡ length r.elements = omega arith in
        equal e
        ∙ ap (λ k. circular nil r.elements 0 k) e
        ∙ Circular.circular-mod nil r.elements 0 r.index (length r.elements) (round e)
  ]
    where
      more :
          length r.elements < r.index
          → take_all nil r
            ≡ circular nil r.elements (r.index % length r.elements) (length r.elements)
      more q = ground arith

      equal : r.index ≡ length r.elements → take_all nil r ≡ circular nil r.elements 0 r.index
      equal e = ground arith

      round : r.index ≡ length r.elements → 0 % length r.elements ≡ r.index % length r.elements
      round e =
          Circular.mod-once_low 0 (length r.elements) p
          ∙ sym (
              Circular.mod-once_high r.index (length r.elements) (omega arith) (omega arith)
              ∙ omega arith)

  -- A ring that is not yet full grows by the item.
  add-low :
      (r : Ring A) (v : A)
      → r.index < length r.elements
      → take_all nil (add nil r v) ≡ take_all nil r ++ v ∷ []
  unfolding add wrap_index
  add-low r v low =
      let els = set r.elements (r.index % length r.elements) v in
      let same : length els ≡ length r.elements =
        length-set r.elements (r.index % length r.elements) v in
      let here : r.index % length r.elements ≡ r.index =
        Circular.mod-once_low r.index (length r.elements) low in
      let here' : (0 + r.index) % length els ≡ r.index % length r.elements =
        ap₂ (λ a m. a % m) (zero-add r.index) same in
      let next : wrap_index (r.index + 1) (length r.elements) ≡ suc r.index = next_low low in
      take_all-low (add nil r v) (omega (arith, next, same))
      ∙ ap (λ k. circular nil els 0 k) next
      ∙ Circular.circular-suc nil els 0 r.index
      ∙ ap₂ (λ l a. l ++ a ∷ [])
          (Circular.circular-set nil r.elements 0 r.index r.index v (omega arith) (omega arith)
            ∙ sym (take_all-low r (omega arith)))
          (ap (λ k. get_or els k nil) here'
            ∙ get_or-set_self r.elements (r.index % length r.elements) v nil (omega (arith, here)))
    where
      next_low :
          r.index < length r.elements → wrap_index (r.index + 1) (length r.elements) ≡ suc r.index
      next_low q = ground arith

  -- A full ring drops its oldest item.
  add-high :
      (r : Ring A) (v : A)
      → IsValid r
      → length r.elements ≤ r.index
      → take_all nil (add nil r v) ≡ drop 1 (take_all nil r) ++ v ∷ []
  unfolding add wrap_index
  add-high r v h high =
      let n = length r.elements in
      let j = r.index + n in
      let els = set r.elements (r.index % n) v in
      let same : length els ≡ n = length-set r.elements (r.index % n) v in
      let turn : r.index % n ≡ j % n = sym (add-mod_right r.index n) in
      let more : n ≡ suc (n - 1) = omega (arith, h.not_empty) in
      let last : r.index + 1 + (n - 1) ≡ j = omega (arith, h.not_empty) in
      let window = circular nil r.elements (r.index + 1) (n - 1) in
      let window_same : circular nil els (r.index + 1) (n - 1) ≡ window =
        ap (λ k. circular nil (set r.elements k v) (r.index + 1) (n - 1)) turn
        ∙ Circular.circular-set nil r.elements (r.index + 1) (n - 1) j v
            (omega (arith, h.not_empty)) (omega (arith, h.not_empty)) in
      let last_item : get_or els ((r.index + 1 + (n - 1)) % length els) nil ≡ v =
        ap₂ (λ a m. get_or els (a % m) nil) last same
        ∙ ap (λ k. get_or els k nil) (sym turn)
        ∙ get_or-set_self r.elements (r.index % n) v nil (mod-lt r.index h.not_empty) in
      let before : take_all nil r ≡ get_or r.elements (r.index % n) nil ∷ window =
        take_all-high r high h.not_empty ∙ ap (λ k. circular nil r.elements r.index k) more in
      take_all-high (add nil r v) (omega (arith, next_bound, same))
        (omega (arith, same, h.not_empty))
      ∙ Circular.circular-mod nil els (wrap_index (r.index + 1) n) (r.index + 1) (length els) (
          ap (λ m. wrap_index (r.index + 1) n % m) same
          ∙ next_mod
          ∙ ap (λ m. (r.index + 1) % m) (sym same))
      ∙ ap (λ k. circular nil els (r.index + 1) k) (same ∙ more)
      ∙ Circular.circular-suc nil els (r.index + 1) (n - 1)
      ∙ ap₂ (λ l a. l ++ a ∷ []) window_same last_item
      ∙ sym (ap (λ l. drop 1 l ++ v ∷ []) before)
    where
      next_bound : length r.elements ≤ wrap_index (r.index + 1) (length r.elements)
      next_bound = ground arith

      next_mod :
          wrap_index (r.index + 1) (length r.elements) % length r.elements
          ≡ (r.index + 1) % length r.elements
      next_mod = ground (arith, mod-eq-sub-mod {n = r.index + 1} {m = length r.elements})

  pub take_all-add :
      (r : Ring A) (v : A)
      → IsValid r
      → take_all nil (add nil r v) ≡ keep_last (length r.elements) (take_all nil r ++ v ∷ [])
  take_all-add r v h = elim (dec_lt r.index (length r.elements)) [
    | yes low ↦ add-low r v low ∙ ap (λ k. drop k (take_all nil r ++ v ∷ [])) (fits low)
    | no high ↦
        add-high r v h (omega arith)
        ∙ sym (drop-cons (omega arith))
        ∙ ap (λ k. drop k (take_all nil r ++ v ∷ [])) (over (omega arith))
  ]
    where
      all_length : length r.elements ≤ r.index → length (take_all nil r) ≡ length r.elements
      all_length q =
          ap length (take_all-high r q h.not_empty)
          ∙ Circular.length-circular nil r.elements r.index (length r.elements)

      fits : r.index < length r.elements → 0 ≡ length (take_all nil r ++ v ∷ []) - length r.elements
      fits q = omega (
        arith,
        length-append (take_all nil r) (v ∷ []),
        ap length (take_all-low r (omega arith)),
        Circular.length-circular nil r.elements 0 r.index,
      )

      over : length r.elements ≤ r.index → 1 ≡ length (take_all nil r ++ v ∷ []) - length r.elements
      over q = omega (arith, length-append (take_all nil r) (v ∷ []), all_length q)

      drop-cons :
          length r.elements ≤ r.index
          → drop 1 (take_all nil r ++ v ∷ []) ≡ drop 1 (take_all nil r) ++ v ∷ []
      drop-cons q =
          drop-append 1 (take_all nil r) (v ∷ []) (omega (arith, all_length q, h.not_empty))

  pub add_all : Ring A → List A → Ring A
  add_all r [] = r
  add_all r (x ∷ xs) = add_all (add nil r x) xs

  -- The length of the slice never changes.
  length-add : (r : Ring A) (v : A) → length (add nil r v).elements ≡ length r.elements
  unfolding add
  length-add r v = length-set r.elements (r.index % length r.elements) v

  take_all-from :
      (xs old : List A) (r : Ring A)
      → IsValid r
      → take_all nil r ≡ keep_last (length r.elements) old
      → take_all nil (add_all r xs) ≡ keep_last (length r.elements) (old ++ xs)
  unfolding add_all
  take_all-from [] old r v e = e ∙ ap (keep_last (length r.elements)) (sym (append-nil old))
  take_all-from (x ∷ xs) old r v e =
      let n = length r.elements in
      let now : take_all nil (add nil r x) ≡ keep_last n (old ++ x ∷ []) =
        take_all-add r x v
        ∙ ap (λ l. keep_last n (l ++ x ∷ [])) e
        ∙ keep_last-append n old (x ∷ []) in
      take_all-from xs (old ++ x ∷ []) (add nil r x) (add-IsValid r x v)
        (now ∙ ap (λ m. keep_last m (old ++ x ∷ [])) (sym (length-add r x)))
      ∙ ap₂ keep_last (length-add r x) (append_assoc old (x ∷ []) xs)

  new_ring-IsValid :
      (n : ℕ) (r : Ring A)
      → new_ring nil n ≡ returns r
      → IsValid r × (length r.elements ≡ n) × (r.index ≡ 0)
  unfolding new_ring
  new_ring-IsValid n r e = ground (arith, length-replicate n nil)

  -- A ring of size `n` holds, after any adds, the last `n` items added, oldest first.
  pub take_all-add_all :
      (n : ℕ) (xs : List A) (r : Ring A)
      → new_ring nil n ≡ returns r
      → take_all nil (add_all r xs) ≡ keep_last n xs
  take_all-add_all n xs r e =
      let (valid, size, start) = new_ring-IsValid n r e in
      let zeros : ◌≡◌ {A = ℕ} 0 (0 - length r.elements) = omega arith in
      let empty : take_all nil r ≡ keep_last (length r.elements) [] =
        take_all-low r (omega (arith, start))
        ∙ ap (circular nil r.elements 0) start
        ∙ ap (λ k. drop k []) zeros in
      take_all-from xs [] r valid empty ∙ ap (λ m. keep_last m xs) size
