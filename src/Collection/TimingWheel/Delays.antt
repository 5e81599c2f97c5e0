-- ===== src/Collection/TimingWheel/Delays.antt =====
-- When timers are due after `setTask`, `moveTask` and `removeTask` of core/collection/timingwheel.go.
use go_zero_update.Common.{
  ℕ, ◌+◌, ◌-◌, ◌*◌, ◌/◌, ◌<◌, ◌≡◌, refl, sym, ap, ◌∙◌, true, false, ◌&&◌, ◌==◌, if◌then◌else◌, ltb,
  leb, none, some, Option-cases, arith, inl, inr, Bool-cases,
}
use go_zero_update.Common.Maps.{Eq, lookup, delete, lookup-store, lookup-delete}
use go_zero_update.Common.Store.{write}
use go_zero_update.Collection.TimingWheel.{
  Entry, Position, TimingWheel, set_timer_position, place_new, remove_task,
}
use go_zero_update.Collection.TimingWheel.Visits.{IsValid}
use go_zero_update.Collection.TimingWheel.Due.{distance, due}
use go_zero_update.Collection.TimingWheel.Ticks.{due-at, due-none, due-timers, circle_sum}
use go_zero_update.Collection.TimingWheel.Timers.{next_item-fresh}

-- The ticks that `moveTask` leaves for a timer: `steps`, but for a timer that stands at or behind the
-- current slot and moves to one ahead of it, or the other way round.
unfoldable pub moved : ℕ → ℕ → ℕ → ℕ → ℕ → ℕ
moved n ticked at p steps =
    if leb at p
    then (if leb at ticked && ltb ticked p then steps + n else steps)
    else if ltb 0 ((steps - 1) / n)
    then (if leb p ticked && ltb ticked at then steps - n else steps)
    else steps

-- The two moves in place.
pub forward :
    (n ticked at p c steps : ℕ)
    → ticked < n
    → at < n
    → p < n
    → leb at p ≡ true
    → distance n ticked p + c * n ≡ steps
    → distance n ticked at + (c * n + (p - at))
      ≡ (if leb at ticked && ltb ticked p then steps + n else steps)
unfolding distance
forward n ticked at p c steps t h f g e = ground (arith, e)

pub backward :
    (n ticked at p c steps : ℕ)
    → ticked < n
    → at < n
    → p < n
    → leb at p ≡ false
    → 0 < c
    → distance n ticked p + c * n ≡ steps
    → distance n ticked at + ((c - 1) * n + (n + p - at))
      ≡ (if leb p ticked && ltb ticked at then steps - n else steps)
unfolding distance
backward n ticked at p c steps t h f g pos e =
    let turn : (c - 1) * n + n ≡ c * n = omega (arith, circle_sum c n 0 pos) in
    ground (arith, e, turn)

module _ {ℓ κ} {K : Type ℓ} {V : Type κ} (eq : Eq K) where
  -- A write to the task of another key.
  pub write-due_other :
      (w : TimingWheel K V) (k j : K) (t : Position) (e : Entry K V)
      → IsValid eq w
      → lookup eq k w.timers ≡ some t
      → eq.beq k j ≡ false
      → due eq (record w { items = write w.items t.item e }) j ≡ due eq w j
  unfolding due
  write-due_other w k j t e v h apart = elim (Option-cases (lookup eq j w.timers)) [
    | inl f ↦ rw (due, f) refl
    | inr (s, f) ↦
        let (_, (_, (same, _))) = v.known k t h in
        let (_, (_, (other, _))) = v.known j s f in
        let away : (t.item == s.item) ≡ false =
          ground (arith, same, other, apart, eq.beq_iff k j, ap (λ i. (w.items i).key)) in
        rw (due, f, away) refl
  ]

  pub place_new-lookup :
      (w : TimingWheel K V) (p : ℕ) (e : Entry K V) (k : K)
      → lookup eq k (place_new eq w p e).timers ≡ (
          if eq.beq e.key k
          then some (record { pos = p; item = w.next_item })
          else lookup eq k w.timers)
  unfolding place_new set_timer_position
  place_new-lookup w p e k =
      let itself : (w.next_item == w.next_item) ≡ true = ground arith in
      rw itself (lookup-store eq e.key k (record { pos = p; item = w.next_item }) w.timers)

  -- A new task is as far away as its slot and its circle say.
  pub place_new-due :
      (w : TimingWheel K V) (p : ℕ) (e : Entry K V)
      → due eq (place_new eq w p e) e.key
        ≡ some (distance w.num_slots w.ticked_pos p + (e.circle * w.num_slots + e.diff), e.value)
  unfolding due place_new set_timer_position
  place_new-due w p e =
      let itself : (w.next_item == w.next_item) ≡ true = ground arith in
      let at : Position = record { pos = p; item = w.next_item } in
      let found : lookup eq e.key (place_new eq w p e).timers ≡ some at =
        ground (arith, place_new-lookup w p e e.key, eq.beq_iff e.key e.key) in
      due-at eq (place_new eq w p e) e.key at e found (rw itself refl)

  -- The task of a timer is an old one.
  pub timer-fresh :
      (w : TimingWheel K V) (j : K) (s : Position)
      → IsValid eq w
      → lookup eq j w.timers ≡ some s
      → (w.next_item == s.item) ≡ false
  timer-fresh w j s v f =
      let (_, (there, _)) = v.known j s f in ground (arith, there, next_item-fresh eq w s.pos v)

  pub place_new-due_other :
      (w : TimingWheel K V) (p : ℕ) (e : Entry K V) (j : K)
      → ((s : Position) → lookup eq j w.timers ≡ some s → (w.next_item == s.item) ≡ false)
      → eq.beq e.key j ≡ false
      → due eq (place_new eq w p e) j ≡ due eq w j
  unfolding due place_new set_timer_position
  place_new-due_other w p e j v apart =
      let found : lookup eq j (place_new eq w p e).timers ≡ lookup eq j w.timers =
        ground (arith, place_new-lookup w p e j, apart) in
      elim (Option-cases (lookup eq j w.timers)) [
        | inl f ↦ due-none eq (place_new eq w p e) j (found ∙ f) ∙ sym (due-none eq w j f)
        | inr (s, f) ↦
            let away = v s f in
            due-at eq (place_new eq w p e) j s (w.items s.item) (found ∙ f) (rw away refl)
            ∙ sym (due-at eq w j s (w.items s.item) f refl)
      ]

  -- A removed timer is due no more, and no other timer changes.
  pub remove_task-due :
      (w : TimingWheel K V) (k j : K)
      → IsValid eq w
      → due eq (remove_task eq w k) j ≡ (if eq.beq k j then none else due eq w j)
  unfolding remove_task
  remove_task-due w k j v = elim (Option-cases (lookup eq k w.timers)) [
    | inl h ↦ elim (Bool-cases (eq.beq k j)) [
      | inl f ↦
          rw (remove_task, h, f)
            (due-none eq w j (ground (arith, h, f, eq.beq_iff k j, ap (λ i. lookup eq i w.timers))))
      | inr f ↦ rw (remove_task, h, f) refl
    ]
    | inr (t, h) ↦
        let gone = lookup-delete eq k j w.timers in
        let w' : TimingWheel K V = record w {
          items = write w.items t.item (record (w.items t.item) { removed = true });
          timers = delete eq k w.timers;
        } in
        elim (Bool-cases (eq.beq k j)) [
          | inl f ↦ rw (remove_task, h, f) (due-none eq w' j (ground (arith, gone, f)))
          | inr f ↦
              rw (remove_task, h, f)
                (due-timers eq (record w { items = w'.items }) (delete eq k w.timers) j
                    (ground (arith, gone, f))
                  ∙ write-due_other w k j t (record (w.items t.item) { removed = true }) v h f)
        ]
  ]
