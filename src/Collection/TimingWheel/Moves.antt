-- ===== src/Collection/TimingWheel/Moves.antt =====
-- Setting and moving a timer of core/collection/timingwheel.go, and when it is due then.
use go_zero_update.Common.{
  ℕ, suc, ◌+◌, ◌-◌, ◌*◌, ◌/◌, ◌%◌, ◌<◌, ◌≤◌, ◌≡◌, refl, sym, ap, ◌∙◌, true, false, [], ◌∷◌, ◌++◌,
  ◌==◌, if◌then◌else◌, ltb, leb, none, some, Option-cases, replicate, arith, inl, inr, Bool-cases,
  mod-lt,
}
use native.Mathlib.Nat.{div-eq-sub-div}
use go_zero_update.Common.Maps.{Eq, lookup}
use go_zero_update.Common.Store.{write}
use go_zero_update.Collection.TimingWheel.{
  Entry, Position, TimingWheel, position_and_circle, place_new, move_to, move_task, set_task,
}
use go_zero_update.Collection.TimingWheel.Visits.{IsValid, write-IsValid}
use go_zero_update.Collection.TimingWheel.Due.{due}
use go_zero_update.Collection.TimingWheel.Ticks.{due-at}
use go_zero_update.Collection.TimingWheel.Fires.{ticks_of, ticks_of-due}
use go_zero_update.Collection.TimingWheel.Timers.{
  distance-steps, place_new-IsValid, move_to-IsValid,
}
use go_zero_update.Collection.TimingWheel.Delays.{
  moved, forward, backward, write-due_other, place_new-due, timer-fresh, place_new-due_other,
}

pub steps_pos : (d i : ℕ) → 0 < i → i ≤ d → 0 < d / i
steps_pos d i h f = omega (arith, div-eq-sub-div h f)

module _ {ℓ κ} {K : Type ℓ} {V : Type κ} (eq : Eq K) where
  move_to-due :
      (w : TimingWheel K V) (k : K) (t : Position) (steps : ℕ)
      → IsValid eq w
      → lookup eq k w.timers ≡ some t
      → 0 < steps
      → due eq (move_to eq w t ((w.ticked_pos + steps) % w.num_slots) ((steps - 1) / w.num_slots)) k
        ≡ some (
          moved w.num_slots w.ticked_pos t.pos ((w.ticked_pos + steps) % w.num_slots) steps,
          (w.items t.item).value,
        )
  unfolding move_to moved
  move_to-due w k t steps v h pos =
      let e = w.items t.item in
      let n = w.num_slots in
      let p = (w.ticked_pos + steps) % n in
      let c = (steps - 1) / n in
      let (within, (there, (same, (alive, small)))) = v.known k t h in
      let inside : p < n = mod-lt (w.ticked_pos + steps) (v.some_slot) in
      let away = distance-steps n w.ticked_pos steps v.ticked pos in
      let itself : (t.item == t.item) ≡ true = ground arith in
      elim (Bool-cases (leb t.pos p)) [
        | inl f ↦
            let e' : Entry K V = record e { circle = c; diff = p - t.pos } in
            rw (move_to, f)
              (due-at eq (record w { items = write w.items t.item e' }) k t e' h (rw itself refl)
                ∙ ap (λ a. some (a, e.value))
                    (forward n w.ticked_pos t.pos p c steps v.ticked within inside f away))
        | inr f ↦ elim (Bool-cases (ltb 0 c)) [
          | inl g ↦
              let e' : Entry K V = record e { circle = c - 1; diff = n + p - t.pos } in
              rw (move_to, f, g)
                (due-at eq (record w { items = write w.items t.item e' }) k t e' h (rw itself refl)
                  ∙ ap (λ a. some (a, e.value))
                      (backward n w.ticked_pos t.pos p c steps v.ticked within inside f
                        (ground (arith, g)) away))
          | inr g ↦
              let w' : TimingWheel K V = record w {
                items = write w.items t.item (record e { removed = true });
              } in
              let e' : Entry K V = record e { circle = 0; diff = 0; removed = false } in
              let none_left : c ≡ 0 = ground (arith, g) in
              rw (move_to, f, g)
                (ap (due eq (place_new eq w' p e')) (sym same)
                  ∙ place_new-due eq w' p e'
                  ∙ ap (λ a. some (a, e.value)) (omega (arith, away, ap (λ a. a * n) none_left)))
        ]
      ]

  move_to-due_other :
      (w : TimingWheel K V) (k j : K) (t : Position) (p c : ℕ)
      → IsValid eq w
      → lookup eq k w.timers ≡ some t
      → eq.beq k j ≡ false
      → due eq (move_to eq w t p c) j ≡ due eq w j
  unfolding move_to
  move_to-due_other w k j t p c v h apart =
      let e = w.items t.item in
      elim (Bool-cases (leb t.pos p)) [
        | inl f ↦
            rw (move_to, f)
              (write-due_other eq w k j t (record e { circle = c; diff = p - t.pos }) v h apart)
        | inr f ↦ elim (Bool-cases (ltb 0 c)) [
          | inl g ↦
              rw (move_to, f, g)
                (write-due_other eq w k j t
                  (record e { circle = c - 1; diff = w.num_slots + p - t.pos }) v h apart)
          | inr g ↦
              let w' : TimingWheel K V = record w {
                items = write w.items t.item (record e { removed = true });
              } in
              let e' : Entry K V = record e { circle = 0; diff = 0; removed = false } in
              let (_, (_, (same, _))) = v.known k t h in
              rw (move_to, f, g)
                (place_new-due_other eq w' p e' j (λ s a. timer-fresh eq w j s v a)
                    (ap (λ i. eq.beq i j) same ∙ apart)
                  ∙ write-due_other eq w k j t (record e { removed = true }) v h apart)
        ]
      ]

  -- `moveTask` of a timer of a well-formed wheel, with a delay of an interval at least: the timer keeps
  -- its value, and it is due after the ticks that `moved` says, which are the whole intervals of the
  -- delay but for a move across the current slot.
  pub move_task-due :
      (w : TimingWheel K V) (k : K) (t : Position) (delay : ℕ)
      → IsValid eq w
      → 0 < w.interval
      → w.interval ≤ delay
      → lookup eq k w.timers ≡ some t
      → due eq (move_task eq w k delay).0 k
        ≡ some (
          moved w.num_slots w.ticked_pos t.pos
              ((w.ticked_pos + delay / w.interval) % w.num_slots)
              (delay / w.interval),
          (w.items t.item).value,
        )
  unfolding move_task position_and_circle
  move_task-due w k t delay v i d h =
      let far : ltb delay w.interval ≡ false = ground arith in
      rw (move_task, h, far)
        (move_to-due w k t (delay / w.interval) v h (steps_pos delay w.interval i d))

  -- `setTask` for a key without a timer.
  pub set_task-due :
      (w : TimingWheel K V) (k : K) (x : V) (delay : ℕ)
      → IsValid eq w
      → 0 < w.interval
      → lookup eq k w.timers ≡ none
      → due eq (set_task eq w k x delay).0 k
        ≡ some ((if ltb delay w.interval then w.interval else delay) / w.interval, x)
  unfolding set_task position_and_circle
  set_task-due w k x delay v i h =
      let d = if ltb delay w.interval then w.interval else delay in
      let n = w.num_slots in
      let p = (w.ticked_pos + d / w.interval) % n in
      let c = (d / w.interval - 1) / n in
      let away =
        distance-steps n w.ticked_pos (d / w.interval) v.ticked
          (steps_pos d w.interval i (ground arith)) in
      rw (set_task, h)
        (place_new-due eq w p (record { key = k; value = x; circle = c; diff = 0; removed = false })
          ∙ ap (λ a. some (a, x)) (omega (arith, away)))

  pub move_task-IsValid :
      (w : TimingWheel K V) (k : K) (delay : ℕ)
      → IsValid eq w
      → IsValid eq (move_task eq w k delay).0
  unfolding move_task position_and_circle
  move_task-IsValid w k delay v = elim (Option-cases (lookup eq k w.timers)) [
    | inl h ↦ rw (move_task, h) v
    | inr (t, h) ↦ elim (Bool-cases (ltb delay w.interval)) [
      | inl f ↦ rw (move_task, h, f) v
      | inr f ↦
          rw (move_task, h, f)
            (move_to-IsValid eq w k t ((w.ticked_pos + delay / w.interval) % w.num_slots)
              ((delay / w.interval - 1) / w.num_slots) v h
              (mod-lt (w.ticked_pos + delay / w.interval) (v.some_slot)))
    ]
  ]

  pub set_task-IsValid :
      (w : TimingWheel K V) (k : K) (x : V) (delay : ℕ)
      → IsValid eq w
      → IsValid eq (set_task eq w k x delay).0
  unfolding set_task position_and_circle
  set_task-IsValid w k x delay v =
      let d = if ltb delay w.interval then w.interval else delay in
      elim (Option-cases (lookup eq k w.timers)) [
        | inl h ↦
            rw (set_task, h)
              (place_new-IsValid eq w ((w.ticked_pos + d / w.interval) % w.num_slots)
                (record {
                  key = k;
                  value = x;
                  circle = (d / w.interval - 1) / w.num_slots;
                  diff = 0;
                  removed = false;
                })
                w.timers v h (λ j a. refl) refl (v.some_slot)
                (mod-lt (w.ticked_pos + d / w.interval) (v.some_slot)))
        | inr (t, h) ↦
            let (_, (_, (_, (_, small)))) = v.known k t h in
            let e : Entry K V = record (w.items t.item) { value = x } in
            rw (set_task, h)
              (move_task-IsValid (record w { items = write w.items t.item e }) k d
                (write-IsValid eq w t.item e v refl refl small))
      ]

  -- A timer that `setTask` sets for a key without one, on a well-formed wheel, runs after as many ticks
  -- as its delay has whole intervals, and one at least: at that tick once and with its value, and at
  -- none of the ticks before and of the `m` ticks after.
  pub ticks_of-set_task :
      (w : TimingWheel K V) (k : K) (x : V) (delay m : ℕ)
      → IsValid eq w
      → 0 < w.interval
      → lookup eq k w.timers ≡ none
      → let steps = (if ltb delay w.interval then w.interval else delay) / w.interval in
        ticks_of eq (steps + m) k (set_task eq w k x delay).0
        ≡ replicate (steps - 1) [] ++ (x ∷ []) ∷ replicate m []
  ticks_of-set_task w k x delay m v i h =
      let steps = (if ltb delay w.interval then w.interval else delay) / w.interval in
      let pos : 0 < steps =
        steps_pos (if ltb delay w.interval then w.interval else delay) w.interval i
          (ground arith) in
      let some_step : suc (steps - 1) ≡ steps = omega (arith, pos) in
      let count : steps - 1 + suc m ≡ steps + m = omega (arith, pos) in
      rw (← count) (
        ticks_of-due eq (steps - 1) m k x (set_task eq w k x delay).0
          (set_task-IsValid w k x delay v)
          (set_task-due w k x delay v i h ∙ ap (λ a. some (a, x)) (sym some_step)))

  -- `setTask` for a key with a timer: the new value, and the delay as `moveTask` has it.
  pub set_task-moved :
      (w : TimingWheel K V) (k : K) (t : Position) (x : V) (delay : ℕ)
      → IsValid eq w
      → 0 < w.interval
      → lookup eq k w.timers ≡ some t
      → let steps = (if ltb delay w.interval then w.interval else delay) / w.interval in
        due eq (set_task eq w k x delay).0 k
        ≡ some
            (moved w.num_slots w.ticked_pos t.pos ((w.ticked_pos + steps) % w.num_slots) steps, x)
  unfolding set_task
  set_task-moved w k t x delay v i h =
      let d = if ltb delay w.interval then w.interval else delay in
      let (_, (_, (_, (_, small)))) = v.known k t h in
      let e : Entry K V = record (w.items t.item) { value = x } in
      let w' : TimingWheel K V = record w { items = write w.items t.item e } in
      let itself : (t.item == t.item) ≡ true = ground arith in
      let at : (w'.items t.item).value ≡ x = rw itself refl in
      rw (set_task, h)
        (move_task-due w' k t d (write-IsValid eq w t.item e v refl refl small) i (ground arith) h
          ∙ ap
              (λ a. some (
                moved w.num_slots w.ticked_pos t.pos ((w.ticked_pos + d / w.interval) % w.num_slots)
                    (d / w.interval),
                a,
              ))
              at)

  pub move_task-due_other :
      (w : TimingWheel K V) (k j : K) (delay : ℕ)
      → IsValid eq w
      → eq.beq k j ≡ false
      → due eq (move_task eq w k delay).0 j ≡ due eq w j
  unfolding move_task
  move_task-due_other w k j delay v apart = elim (Option-cases (lookup eq k w.timers)) [
    | inl h ↦ rw (move_task, h) refl
    | inr (t, h) ↦ elim (Bool-cases (ltb delay w.interval)) [
      | inl f ↦ rw (move_task, h, f) refl
      | inr f ↦
          rw (move_task, h, f)
            (move_to-due_other w k j t (position_and_circle eq w delay).0
              (position_and_circle eq w delay).1 v h apart)
    ]
  ]

  pub set_task-due_other :
      (w : TimingWheel K V) (k j : K) (x : V) (delay : ℕ)
      → IsValid eq w
      → eq.beq k j ≡ false
      → due eq (set_task eq w k x delay).0 j ≡ due eq w j
  unfolding set_task
  set_task-due_other w k j x delay v apart =
      let d = if ltb delay w.interval then w.interval else delay in
      elim (Option-cases (lookup eq k w.timers)) [
        | inl h ↦
            rw (set_task, h)
              (place_new-due_other eq w (position_and_circle eq w d).0
                (record {
                  key = k;
                  value = x;
                  circle = (position_and_circle eq w d).1;
                  diff = 0;
                  removed = false;
                })
                j (λ s a. timer-fresh eq w j s v a) apart)
        | inr (t, h) ↦
            let (_, (_, (_, (_, small)))) = v.known k t h in
            let e : Entry K V = record (w.items t.item) { value = x } in
            rw (set_task, h)
              (move_task-due_other (record w { items = write w.items t.item e }) k j d
                  (write-IsValid eq w t.item e v refl refl small) apart
                ∙ write-due_other eq w k j t e v h apart)
      ]
