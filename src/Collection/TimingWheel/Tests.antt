-- ===== src/Collection/TimingWheel/Tests.antt =====
-- The timing wheel of core/collection/timingwheel.go at concrete inputs.
use go_zero_update.Common.{
  true, ℕ, suc, ◌+◌, ◌-◌, ◌/◌, ◌%◌, ◌≡◌, refl, false, List, [], ◌∷◌, ◌++◌, replicate, ◌==◌, ==_iff,
  if◌then◌else◌, ltb, some, arith,
}
use go_zero_update.Common.Maps.{Eq, lookup, store}
use go_zero_update.Collection.TimingWheel.{
  Entry, TimingWheel, Event, tick_event, set_event, move_event, remove_event, new_timing_wheel,
  on_tick, scan, visit, move_task, set_task, place_new, push_slot, position_and_circle, step,
  drain_all,
}
use go_zero_update.Collection.TimingWheel.Visits.{IsValid}
use go_zero_update.Collection.TimingWheel.Due.{distance, due, runs_of}
use go_zero_update.Collection.TimingWheel.Fires
use go_zero_update.Collection.TimingWheel.Fires.{nearer, runs_now, ticks_of}
use go_zero_update.Collection.TimingWheel.Delays.{moved}
use go_zero_update.Collection.TimingWheel.Moves
use go_zero_update.Collection.TimingWheel.Rounds
use go_zero_update.Collection.TimingWheel.Rounds.{
  empty_wheel, new_timing_wheel-IsValid, run, run-IsValid, event_of,
}
use go_zero_update.Collection.TimingWheel.Drains
use go_zero_update.Collection.TimingWheel.Drains.{value_of}

abbrev numbers : Eq ℕ
numbers = record { beq = ◌==◌; beq_iff = ==_iff }

abbrev blank : Entry ℕ ℕ
blank = record { key = 0; value = 0; circle = 0; diff = 0; removed = false }

-- Three slots, and an interval of 10.
abbrev start : TimingWheel ℕ ℕ
start = empty_wheel numbers 10 3 blank

start-IsValid : IsValid numbers start
unfolding new_timing_wheel
start-IsValid = (new_timing_wheel-IsValid numbers 10 3 true blank start refl).0

-- Two timers, one of them due in four ticks, and one tick.
abbrev events : List (Event ℕ ℕ)
events = set_event 7 70 45 ∷ set_event 8 80 20 ∷ tick_event ∷ []

abbrev busy : TimingWheel ℕ ℕ
busy = (run numbers start events).0

busy-IsValid : IsValid numbers busy
busy-IsValid =
    run-IsValid numbers start events start-IsValid
      ((λ e. ground (arith, e)), ((λ e. ground (arith, e)), ((λ e. ground (arith, e)), tt)))

busy-due : due numbers busy 7 ≡ some (3, 70)
unfolding run step on_tick scan set_task lookup place_new store push_slot position_and_circle visit
    due distance
busy-due = refl

on_tick-due_example :
    (due numbers (on_tick numbers busy).0 7 ≡ nearer numbers (due numbers busy 7))
    × (runs_of numbers 7 (on_tick numbers busy).1 ≡ runs_now numbers (due numbers busy 7))
on_tick-due_example = Fires.on_tick-due numbers busy 7 busy-IsValid

ticks_of-due_example :
    ticks_of numbers (2 + suc 4) 7 busy ≡ replicate 2 [] ++ (70 ∷ []) ∷ replicate 4 []
ticks_of-due_example = Fires.ticks_of-due numbers 2 4 7 70 busy busy-IsValid busy-due

-- The timer stands at the current slot, and five ticks become eight.
move_task-due_example :
    due numbers (move_task numbers busy 7 50).0 7
    ≡ some (moved 3 0 0 ((0 + 50 / 10) % 3) (50 / 10), 70)
unfolding run step on_tick scan set_task lookup place_new store push_slot position_and_circle visit
move_task-due_example =
    Moves.move_task-due numbers busy 7 (record { pos = 0; item = 0 }) 50 busy-IsValid (omega arith)
      (omega arith) refl

moved_late : moved 3 0 0 ((0 + 50 / 10) % 3) (50 / 10) ≡ 8
unfolding moved
moved_late = refl

ticks_of-set_task_example :
    ticks_of numbers ((if ltb 35 10 then 10 else 35) / 10 + 2) 9 (set_task numbers busy 9 90 35).0
    ≡ replicate ((if ltb 35 10 then 10 else 35) / 10 - 1) [] ++ (90 ∷ []) ∷ replicate 2 []
unfolding run step on_tick scan set_task lookup place_new store push_slot position_and_circle visit
ticks_of-set_task_example =
    Moves.ticks_of-set_task numbers busy 9 90 35 2 busy-IsValid (omega arith) refl

step-IsValid_example : IsValid numbers (step numbers busy (move_event 7 50)).0
step-IsValid_example =
    Rounds.step-IsValid numbers busy (move_event 7 50) busy-IsValid (λ e. ground (arith, e))

step-due_other_example : due numbers (step numbers busy (remove_event 7)).0 8 ≡ due numbers busy 8
unfolding event_of
step-due_other_example =
    Rounds.step-due_other numbers busy (remove_event 7) 7 8 busy-IsValid refl refl

drain_all-due_example :
    runs_of numbers 7 (drain_all numbers busy).1 ≡ value_of numbers (due numbers busy 7)
drain_all-due_example = Drains.drain_all-due numbers busy 7 busy-IsValid
