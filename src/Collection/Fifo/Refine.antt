-- ===== src/Collection/Fifo/Refine.antt =====
-- The circular queue of core/collection/fifo.go against a plain list.
use native.Mathlib.Decide.{dec_lt}
use native.Mathlib.Nat.{mod-lt, mod-mod, mod-add-mod, zero-add}
use mathlib.Core.Path.{ap₂}
use go_zero_update.Common.{
  inl, inr, ◌&&◌, ltb, ◌==◌, Bool-cases, length-drop, length-take, copy_twice, drop-replicate, ℕ,
  ◌+◌, ◌-◌, ◌%◌, ◌≤◌, ◌<◌, ◌≡◌, refl, sym, ap, ◌∙◌, Bool, true, false, List, [], ◌∷◌, ◌++◌, arith,
  returns, length, get_or, set, take, drop, replicate, copy, get_or-set_self, add_assoc,
  length-replicate, length-append, suc, length-set,
}
use go_zero_update.Common.Circular
use go_zero_update.Common.Circular.{circular}
use go_zero_update.Collection.Fifo.{Queue, new_queue, grown, grow, append_element, put, take_first}

-- The queue as a list: the reply to a `Take`, and what it leaves.
abbrev pub first {ℓ} : {A : Type ℓ} → A → List A → A × Bool
first nil [] = (nil, false)
first nil (x ∷ xs) = (x, true)

abbrev pub rest {ℓ} : {A : Type ℓ} → List A → List A
rest [] = []
rest (x ∷ xs) = xs

module _ {ℓ} {A : Type ℓ} (nil : A) where
  -- The elements in the queue, oldest first.
  unfoldable pub contents : Queue A → List A
  contents q = circular nil q.elements q.head q.count

  pub record IsValid (q : Queue A) : Type 0 where
    pub size_pos : 0 < q.size
    pub head_in : q.head < length q.elements
    pub count_fits : q.count ≤ length q.elements
    pub tail_at : q.tail ≡ (q.head + q.count) % length q.elements

  pub new_queue-IsValid : (size : ℕ) → 0 < size → IsValid (new_queue nil size)
  unfolding new_queue
  new_queue-IsValid size h = record {
    size_pos = h;
    head_in = omega (arith, length-replicate size nil);
    count_fits = omega arith;
    tail_at = sym (Circular.mod-once_low 0 _ (omega (arith, length-replicate size nil)));
  }

  ring-length :
      (q : Queue A)
      → q.head < length q.elements
      → length q.elements ≡ length (drop q.head q.elements ++ take q.head q.elements)
  ring-length q h = omega (
    arith,
    length-append (drop q.head q.elements) (take q.head q.elements),
    length-drop q.head q.elements,
    length-take q.head q.elements,
  )

  -- After the growth the slice holds the old ring, read from its head, and `size` free places.
  grown-append :
      (q : Queue A)
      → q.head < length q.elements
      → grown nil q ≡ (drop q.head q.elements ++ take q.head q.elements) ++ replicate q.size nil
  unfolding grown
  grown-append q h =
      let front = drop q.head q.elements in
      let back = take q.head q.elements in
      let nodes = replicate (length q.elements + q.size) nil in
      let n : length q.elements - q.head ≡ length front = sym (length-drop q.head q.elements) in
      let total : length front + length back ≡ length q.elements =
        omega (arith, length-drop q.head q.elements, length-take q.head q.elements) in
      ap (λ k. take k (copy nodes front) ++ copy (drop k (copy nodes front)) back) n
      ∙ copy_twice front back nodes
          (omega (arith, total, length-replicate (length q.elements + q.size) nil))
      ∙ ap (λ k. (front ++ back) ++ drop k nodes) total
      ∙ ap (λ t. (front ++ back) ++ t) (drop-replicate (length q.elements) q.size nil)

  -- The head and the tail meet in a queue that is not empty exactly when it is full.
  count-full :
      (q : Queue A) → IsValid q → q.head ≡ q.tail → 0 < q.count → q.count ≡ length q.elements
  count-full q v e p = elim (dec_lt q.count (length q.elements)) [
    | yes low ↦ absurd (
        Circular.mod-ne q.head (q.head + q.count) (length q.elements) (omega arith) (omega arith)
          (Circular.mod-once_low q.head _ v.head_in ∙ e ∙ v.tail_at))
    | no high ↦ omega arith
  ]

  room-left :
      (q : Queue A)
      → IsValid q
      → (q.head == q.tail && ltb 0 q.count) ≡ false
      → q.count < length q.elements
  room-left q v e = elim (dec_lt q.count (length q.elements)) [
    | yes low ↦ low
    | no high ↦
        let full : q.count ≡ length q.elements = omega arith in
        let meet : q.tail ≡ q.head =
          v.tail_at ∙ Circular.mod-once_high _ _ (omega arith) (omega arith) ∙ omega arith in
        absurd (ground arith)
  ]

  grown_contents :
      (q : Queue A)
      → IsValid q
      → circular nil (grown nil q) 0 (length q.elements)
        ≡ circular nil q.elements q.head (length q.elements)
  grown_contents q v =
      let ring = drop q.head q.elements ++ take q.head q.elements in
      let n : length q.elements ≡ length ring = ring-length q v.head_in in
      ap (λ t. circular nil t 0 (length q.elements)) (grown-append q v.head_in)
      ∙ ap (λ k. circular nil (ring ++ replicate q.size nil) 0 k) n
      ∙ Circular.circular-append nil ring (replicate q.size nil)
      ∙ sym (Circular.circular-all nil q.elements q.head v.head_in)

  length-grown : (q : Queue A) → IsValid q → length (grown nil q) ≡ length q.elements + q.size
  length-grown q v =
      ap length (grown-append q v.head_in)
      ∙ omega (
        arith,
        ring-length q v.head_in,
        length-append (drop q.head q.elements ++ take q.head q.elements) (replicate q.size nil),
        length-replicate q.size nil,
      )

  grow-IsValid :
      (q : Queue A)
      → IsValid q
      → IsValid (grow nil q)
        × (contents (grow nil q) ≡ contents q)
        × ((grow nil q).count < length (grow nil q).elements)
  unfolding grow contents
  grow-IsValid q v = elim (Bool-cases (q.head == q.tail && ltb 0 q.count)) [
    | inl meet ↦
        let full : q.count ≡ length q.elements = count-full q v (ground arith) (ground arith) in
        rw meet (
          record {
            size_pos = v.size_pos;
            head_in = omega (arith, length-grown q v, v.size_pos, v.head_in);
            count_fits = omega (arith, length-grown q v, v.count_fits);
            tail_at = sym (
                Circular.mod-once_low (0 + q.count) (length (grown nil q))
                  (omega (arith, length-grown q v, v.size_pos))
                ∙ zero-add q.count
                ∙ full);
          },
          ap (λ k. circular nil (grown nil q) 0 k) full
              ∙ grown_contents q v
              ∙ ap (λ k. circular nil q.elements q.head k) (sym full),
          omega (arith, length-grown q v, v.size_pos),
        )
    | inr apart ↦ rw apart (v, refl, room-left q v apart)
  ]

  append_element-contents :
      (q : Queue A) (x : A)
      → IsValid q
      → q.count < length q.elements
      → (q' : Queue A) × (append_element nil q x ≡ returns q')
        × IsValid q'
        × (contents q' ≡ contents q ++ x ∷ [])
  unfolding append_element contents
  append_element-contents q x v room = (
    record q {
      elements = set q.elements q.tail x;
      tail = (q.tail + 1) % length q.elements;
      count = q.count + 1;
    },
    ground (arith, inside),
    record {
      size_pos = v.size_pos;
      head_in = omega (arith, v.head_in, length-set q.elements q.tail x);
      count_fits = omega (arith, length-set q.elements q.tail x);
      tail_at =
          ap (λ k. (k + 1) % length q.elements) v.tail_at
          ∙ Circular.mod-suc (q.head + q.count) (length q.elements)
          ∙ ap₂ (λ a m. a % m) (add_assoc q.head q.count 1) (sym (length-set q.elements q.tail x));
    },
    ap (λ k. circular nil (set q.elements q.tail x) q.head k) more
        ∙ Circular.circular-suc nil (set q.elements q.tail x) q.head q.count
        ∙ ap₂ (λ l a. l ++ a ∷ [])
            (ap (λ t. circular nil (set q.elements t x) q.head q.count) v.tail_at
              ∙ Circular.circular-set nil q.elements q.head q.count (q.head + q.count) x
                  (omega arith) (omega arith))
            (ap (λ k. get_or (set q.elements q.tail x) k nil)
                (ap (λ m. (q.head + q.count) % m) (length-set q.elements q.tail x) ∙ sym v.tail_at)
              ∙ get_or-set_self q.elements q.tail x nil inside),
  )
    where
      more : q.count + 1 ≡ suc q.count
      more = omega arith

      inside : q.tail < length q.elements
      inside = omega (arith, v.tail_at, mod-lt (q.head + q.count) {m = length q.elements})

  -- `put` does not panic on a valid queue: it adds the element at the end of what is queued.
  pub put-contents :
      (q : Queue A) (x : A)
      → IsValid q
      → (q' : Queue A) × (put nil q x ≡ returns q')
        × IsValid q'
        × (contents q' ≡ contents q ++ x ∷ [])
  unfolding put
  put-contents q x v =
      let (valid, same, room) = grow-IsValid q v in
      let (q', eq, valid', more) = append_element-contents (grow nil q) x valid room in
      (q', eq, valid', more ∙ ap (λ l. l ++ x ∷ []) same)

  -- `take_first` does not panic on a valid queue: it returns the oldest element, if there is one.
  pub take_first-contents :
      (q : Queue A)
      → IsValid q
      → (q' : Queue A) × (take_first nil q ≡ returns (first nil (contents q), q'))
        × IsValid q'
        × (contents q' ≡ rest (contents q))
  unfolding take_first contents
  take_first-contents q v = elim (dec_lt 0 q.count) [
    | no none_left ↦
        let e : q.count ≡ 0 = omega arith in
        let nothing : contents q ≡ [] = ap (λ k. circular nil q.elements q.head k) e in
        (q, cc (emptied e, ap (first nil) nothing), v, nothing ∙ sym (ap rest nothing))
    | yes some_left ↦
        let e : q.count ≡ suc (q.count - 1) = omega arith in
        let start : q.head % length q.elements ≡ q.head =
          Circular.mod-once_low q.head (length q.elements) v.head_in in
        let queued : contents q
            ≡ get_or q.elements q.head nil ∷ circular nil q.elements (q.head + 1) (q.count - 1) =
          ap (λ k. circular nil q.elements q.head k) e
          ∙ ap (λ k. get_or q.elements k nil ∷ circular nil q.elements (q.head + 1) (q.count - 1))
              start in
        (
          record q { head = (q.head + 1) % length q.elements; count = q.count - 1 },
          cc (served some_left, ap (first nil) queued),
          record {
            size_pos = v.size_pos;
            head_in = mod-lt (q.head + 1) (omega arith);
            count_fits = omega arith;
            tail_at =
                v.tail_at
                ∙ ap (λ k. k % length q.elements) (shift some_left)
                ∙ sym (mod-add-mod (q.head + 1) (length q.elements) (q.count - 1));
          },
          Circular.circular-mod nil q.elements ((q.head + 1) % length q.elements) (q.head + 1)
                (q.count - 1) (mod-mod (q.head + 1) (length q.elements))
              ∙ sym (ap rest queued),
        )
  ]
    where
      emptied : q.count ≡ 0 → take_first nil q ≡ returns ((nil, false), q)
      emptied e = ground arith

      served :
          0 < q.count
          → take_first nil q
            ≡ returns (
              (get_or q.elements q.head nil, true),
              record q { head = (q.head + 1) % length q.elements; count = q.count - 1 },
            )
      served p = ground arith

      shift : 0 < q.count → q.head + q.count ≡ q.head + 1 + (q.count - 1)
      shift p = omega arith
