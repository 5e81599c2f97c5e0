-- ===== src/Collection/TimingWheel/Operations.antt =====
-- Every operation of the wheel of core/collection/timingwheel.go but `Drain` keeps its invariant.
use go_zero_update.Common.{
  ℕ, ◌+◌, ◌-◌, ◌%◌, ◌<◌, ◌≡◌, refl, sym, ap, ◌∙◌, true, false, List, [], ◌∷◌, ◌==◌, if◌then◌else◌,
  ltb, some, length, arith, inl, inr, Bool-cases, mod-lt,
}
use go_zero_update.Common.Maps.{Eq, lookup, store, delete, lookup-store, lookup-delete}
use go_zero_update.Common.Store.{write, mem, Nodup}
use go_zero_update.Collection.TimingWheel.{
  Position, TimingWheel, push_slot, remove_slot, visit, scan, on_tick,
}
use go_zero_update.Collection.TimingWheel.Slots.{
  slot, mem-remove_slot, mem-push_slot, length-remove_slot,
}
use go_zero_update.Collection.TimingWheel.Visits.{
  IsValid, drop_removed-IsValid, write-IsValid, run_task-IsValid, place-IsValid,
}

module _ {ℓ κ} {K : Type ℓ} {V : Type κ} (eq : Eq K) where
  -- A task with a distance left goes to another slot.
  move_on-IsValid :
      (w : TimingWheel K V) (i p : ℕ)
      → IsValid eq w
      → mem i (slot w.slots w.ticked_pos) ≡ true
      → (w.items i).removed ≡ false
      → p < w.num_slots
      → IsValid eq (record w {
        slots = push_slot (remove_slot w.slots w.ticked_pos i) p i;
        timers = store eq (w.items i).key (record { pos = p; item = i }) w.timers;
        items = write w.items i (record (w.items i) { diff = 0; removed = false });
      })
  move_on-IsValid w i p v m r inside =
      let within : w.ticked_pos < length w.slots = omega (arith, v.slots_size, v.ticked) in
      let key = (w.items i).key in
      place-IsValid eq
        (record w { slots = remove_slot w.slots w.ticked_pos i; timers = delete eq key w.timers }) i
        p (record (w.items i) { diff = 0; removed = false })
        (store eq key (record { pos = p; item = i }) w.timers) w.next_item
        (run_task-IsValid eq w i v m r)
        (λ q. ground (
          arith,
          mem-remove_slot w.slots w.ticked_pos q i i within (v.nodup w.ticked_pos),
          v.live q i,
          v.live w.ticked_pos i m r,
          r,
        ))
        (ground (arith, lookup-delete eq key key w.timers, eq.beq_iff key key)) refl (v.some_slot)
        inside
        (λ k. ground (
          arith,
          lookup-store eq key k (record { pos = p; item = i }) w.timers,
          lookup-delete eq key k w.timers,
        ))
        (v.fresh w.ticked_pos i m) (omega arith)

  pub visit-IsValid :
      (w : TimingWheel K V) (i : ℕ)
      → IsValid eq w
      → mem i (slot w.slots w.ticked_pos) ≡ true
      → IsValid eq (visit eq w i).0
  unfolding visit
  visit-IsValid w i v m = elim (Bool-cases ((w.items i).removed)) [
    | inl e ↦ rw e (drop_removed-IsValid eq w i v e)
    | inr e ↦ elim (Bool-cases (ltb 0 (w.items i).circle)) [
      | inl f ↦
          rw (e, f)
            (write-IsValid eq w i
              (record (w.items i) { circle = (w.items i).circle - 1; removed = false }) v refl
              (sym e) (small e))
      | inr f ↦ elim (Bool-cases (ltb 0 (w.items i).diff)) [
        | inl g ↦
            rw (e, f, g)
              (move_on-IsValid w i ((w.ticked_pos + (w.items i).diff) % w.num_slots) v m e
                (mod-lt (w.ticked_pos + (w.items i).diff) (v.some_slot)))
        | inr g ↦ rw (e, f, g) (run_task-IsValid eq w i v m e)
      ]
    ]
  ]
    where
      small : (w.items i).removed ≡ false → (w.items i).diff < w.num_slots
      small e =
          ((v.known (w.items i).key (record { pos = w.ticked_pos; item = i })
            (v.live w.ticked_pos i m e)).1.1.1.1)

  pub visit-num_slots : (w : TimingWheel K V) (i : ℕ) → (visit eq w i).0.num_slots ≡ w.num_slots
  unfolding visit
  visit-num_slots w i = ground arith

  pub visit-ticked_pos : (w : TimingWheel K V) (i : ℕ) → (visit eq w i).0.ticked_pos ≡ w.ticked_pos
  unfolding visit
  visit-ticked_pos w i = ground arith

  -- The other tasks of the slot stay until they are visited.
  visit-mem :
      (w : TimingWheel K V) (i j : ℕ)
      → IsValid eq w
      → (i == j) ≡ false
      → mem j (slot w.slots w.ticked_pos) ≡ true
      → mem j (slot (visit eq w i).0.slots (visit eq w i).0.ticked_pos) ≡ true
  unfolding visit
  visit-mem w i j v apart m =
      let within : w.ticked_pos < length w.slots = omega (arith, v.slots_size, v.ticked) in
      let p = (w.ticked_pos + (w.items i).diff) % w.num_slots in
      let inside : p < length (remove_slot w.slots w.ticked_pos i) =
        rw (length-remove_slot w.slots w.ticked_pos i, v.slots_size)
          (mod-lt (w.ticked_pos + (w.items i).diff) (v.some_slot)) in
      let off =
        mem-remove_slot w.slots w.ticked_pos w.ticked_pos j i within (v.nodup w.ticked_pos) in
      let on = mem-push_slot (remove_slot w.slots w.ticked_pos i) p w.ticked_pos j i inside in
      ground (arith, off, on)

  abbrev pub AllIn : TimingWheel K V → List ℕ → Type 0
  AllIn w [] = Unit
  AllIn w (i ∷ js) = (mem i (slot w.slots w.ticked_pos) ≡ true) × AllIn w js

  pub visit-AllIn :
      (w : TimingWheel K V) (i : ℕ) (js : List ℕ)
      → IsValid eq w
      → mem i js ≡ false
      → AllIn w js
      → AllIn (visit eq w i).0 js
  unfolding mem
  visit-AllIn w i [] v f h = tt
  visit-AllIn w i (j ∷ js) v f h =
      (visit-mem w i j v (ground arith) (h.0), visit-AllIn w i js v (ground arith) (h.1))

  pub scan-IsValid :
      (w : TimingWheel K V) (js : List ℕ)
      → IsValid eq w
      → Nodup js
      → AllIn w js
      → IsValid eq (scan eq w js).0
  unfolding scan
  scan-IsValid w [] v d h = v
  scan-IsValid w (i ∷ js) v d h =
      scan-IsValid (visit eq w i).0 js (visit-IsValid w i v (h.0)) (d.1)
        (visit-AllIn w i js v (d.0) (h.1))

  -- The wheel one slot further.
  abbrev pub turned : TimingWheel K V → TimingWheel K V
  turned w = record w { ticked_pos = (w.ticked_pos + 1) % w.num_slots }

  pub turned-IsValid : (w : TimingWheel K V) → IsValid eq w → IsValid eq (turned w)
  turned-IsValid w v = record {
    slots_size = v.slots_size;
    some_slot = v.some_slot;
    ticked = mod-lt (w.ticked_pos + 1) (v.some_slot);
    nodup = v.nodup;
    live = v.live;
    known = v.known;
    fresh = v.fresh;
  }

  mem-AllIn :
      (w : TimingWheel K V) (js : List ℕ)
      → ((i : ℕ) → (if mem i js then mem i (slot w.slots w.ticked_pos) else true) ≡ true)
      → AllIn w js
  unfolding mem
  mem-AllIn w [] h = tt
  mem-AllIn w (i ∷ js) h = (ground (arith, h i), mem-AllIn w js (λ j. ground (arith, h j)))

  pub slot-AllIn : (w : TimingWheel K V) → AllIn w (slot w.slots w.ticked_pos)
  slot-AllIn w = mem-AllIn w (slot w.slots w.ticked_pos) (λ i. ground arith)

  pub on_tick-IsValid : (w : TimingWheel K V) → IsValid eq w → IsValid eq (on_tick eq w).0
  unfolding on_tick
  on_tick-IsValid w v =
      let v' = turned-IsValid w v in
      scan-IsValid (turned w) (slot w.slots (turned w).ticked_pos) v'
        (v'.nodup (turned w).ticked_pos) (slot-AllIn (turned w))

  pub remove_task-IsValid :
      (w : TimingWheel K V) (key : K) (t : Position)
      → IsValid eq w
      → lookup eq key w.timers ≡ some t
      → IsValid eq (record w {
        items = write w.items t.item (record (w.items t.item) { removed = true });
        timers = delete eq key w.timers;
      })
  remove_task-IsValid w key t v h =
      let (inside, (there, (same, (alive, small)))) = v.known key t h in
      record {
        slots_size = v.slots_size;
        some_slot = v.some_slot;
        ticked = v.ticked;
        nodup = v.nodup;
        live = λ p j m r. elim (Bool-cases (t.item == j)) [
          | inl f ↦ absurd (ground (arith, r, f))
          | inr f ↦
              let was = v.live p j m (ground (arith, r, f)) in
              rw f (
                lookup-delete eq key (w.items j).key w.timers
                ∙ ground (
                  arith,
                  was,
                  h,
                  f,
                  eq.beq_iff key (w.items j).key,
                  ap (λ k. lookup eq k w.timers),
                ))
        ];
        known = λ k t' e.
            let was : lookup eq k w.timers ≡ some t' =
              ground (arith, e, lookup-delete eq key k w.timers) in
            let (a, (b, (c, (d, f)))) = v.known k t' was in
            let apart : (t.item == t'.item) ≡ false = ground (
              arith,
              same,
              c,
              e,
              lookup-delete eq key k w.timers,
              eq.beq_iff key k,
              ap (λ n. (w.items n).key),
            ) in
            (a, (b, rw apart (c, (d, f))));
        fresh = v.fresh;
      }
