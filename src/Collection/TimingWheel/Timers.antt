-- ===== src/Collection/TimingWheel/Timers.antt =====
-- Setting, removing and moving a timer of core/collection/timingwheel.go.
use go_zero_update.Common.{
  ℕ, ◌+◌, ◌-◌, ◌*◌, ◌/◌, ◌%◌, ◌<◌, ◌≡◌, refl, sym, ap, ◌∙◌, true, false, List, ◌==◌, ltb, leb, none,
  some, arith, inl, inr, Bool-cases, mod-lt,
}
use native.Mathlib.Nat.{mod-add-div, add-mod-mod, mul_comm}
use go_zero_update.Common.Maps.{Eq, lookup, store, delete, lookup-store, lookup-delete}
use go_zero_update.Common.Store.{write, mem}
use go_zero_update.Collection.TimingWheel.{
  Entry, Position, TimingWheel, set_timer_position, place_new, move_to,
}
use go_zero_update.Collection.TimingWheel.Slots.{slot}
use go_zero_update.Collection.TimingWheel.Visits.{IsValid, write-IsValid, place-IsValid}
use go_zero_update.Collection.TimingWheel.Operations.{remove_task-IsValid}
use go_zero_update.Collection.TimingWheel.Due.{distance, mod_once}

-- The number of steps, as whole turns and a rest.
turns : (n steps : ℕ) → 0 < steps → ((steps - 1) / n * n + (steps - 1) % n) + 1 ≡ steps
turns n steps f = omega (arith, mod-add-div (steps - 1) n, mul_comm n ((steps - 1) / n))

-- A number of steps ahead on a ring, by the rest alone.
ahead_rest : (n t steps : ℕ) → 0 < steps → (t + steps) % n ≡ (t + 1 + (steps - 1) % n) % n
ahead_rest n t steps f =
    let whole : t + 1 + (steps - 1) ≡ t + steps = omega (arith) in
    sym (ap (λ a. a % n) whole) ∙ sym (add-mod-mod (t + 1) (steps - 1) n)

-- The position and the circle of a number of steps are that many ticks away.
pub distance-steps :
    (n t steps : ℕ)
    → t < n
    → 0 < steps
    → distance n t ((t + steps) % n) + (steps - 1) / n * n ≡ steps
unfolding distance
distance-steps n t steps h f =
    let r = (steps - 1) % n in
    let below : r < n = mod-lt (steps - 1) (omega arith) in
    let same = ahead_rest n t steps f in
    let whole = turns n steps f in
    let once = mod_once (t + 1 + r) n (omega (arith, below)) in
    ground (arith, same, whole, once, below)

module _ {ℓ κ} {K : Type ℓ} {V : Type κ} (eq : Eq K) where
  pub next_item-fresh :
      (w : TimingWheel K V) (q : ℕ) → IsValid eq w → mem w.next_item (slot w.slots q) ≡ false
  next_item-fresh w q v = ground (arith, v.fresh q w.next_item)

  -- A new task at a position for a key whose timer, if it has one, has been removed from the wheel.
  pub place_new-IsValid :
      (w : TimingWheel K V) (p : ℕ) (e : Entry K V) (timers : List (K × Position))
      → IsValid eq (record w { timers = timers })
      → lookup eq e.key timers ≡ none
      → ((k : K) → eq.beq e.key k ≡ false → lookup eq k timers ≡ lookup eq k w.timers)
      → e.removed ≡ false
      → e.diff < w.num_slots
      → p < w.num_slots
      → IsValid eq (place_new eq w p e)
  unfolding place_new set_timer_position
  place_new-IsValid w p e timers v absent others alive small inside =
      let itself : (w.next_item == w.next_item) ≡ true = ground arith in
      let at : Position = record { pos = p; item = w.next_item } in
      rw itself (
        place-IsValid eq (record w { timers = timers }) w.next_item p e (store eq e.key at w.timers)
          (w.next_item + 1) v (λ q. next_item-fresh (record w { timers = timers }) q v) absent alive
          small inside (λ k. ground (arith, lookup-store eq e.key k at w.timers, others k))
          (omega arith) (omega arith))

  pub move_to-IsValid :
      (w : TimingWheel K V) (k : K) (t : Position) (p c : ℕ)
      → IsValid eq w
      → lookup eq k w.timers ≡ some t
      → p < w.num_slots
      → IsValid eq (move_to eq w t p c)
  unfolding move_to
  move_to-IsValid w k t p c v h inside =
      let (within, (there, (same, (alive, small)))) = v.known k t h in
      let e = w.items t.item in
      elim (Bool-cases (leb t.pos p)) [
        | inl f ↦ rw f (
            write-IsValid eq w t.item (record e { circle = c; diff = p - t.pos }) v refl refl
              (omega (arith, inside, v.some_slot)))
        | inr f ↦ elim (Bool-cases (ltb 0 c)) [
          | inl g ↦
              let below : w.num_slots + p - t.pos < w.num_slots = ground (arith, f, within) in
              rw (f, g)
                (write-IsValid eq w t.item
                  (record e { circle = c - 1; diff = w.num_slots + p - t.pos }) v refl refl below)
          | inr g ↦
              rw (f, g)
                (place_new-IsValid
                  (record w { items = write w.items t.item (record e { removed = true }) }) p
                  (record e { circle = 0; diff = 0; removed = false }) (delete eq k w.timers)
                  (remove_task-IsValid eq w k t v h)
                  (ground (arith, lookup-delete eq k e.key w.timers, same, eq.beq_iff k e.key))
                  (λ j apart.
                    ground (
                      arith,
                      lookup-delete eq k j w.timers,
                      same,
                      apart,
                      ap (λ i. eq.beq i j) same,
                    ))
                  refl (v.some_slot) inside)
        ]
      ]
