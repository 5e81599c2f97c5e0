-- ===== src/Collection/TimingWheel/Rounds.antt =====
-- The rounds of the event loop of core/collection/timingwheel.go.
use go_zero_update.Common.{
  Bool, not, ℕ, zero, suc, ◌-◌, ◌<◌, ◌≡◌, ◌≢◌, refl, ap, ◌∙◌, false, ◌||◌, List, [], ◌∷◌, ◌++◌,
  ◌==◌, Option, none, some, Option-cases, replicate, length-replicate, arith, inl, inr, Bool-cases,
}
use go_zero_update.Common.Maps.{Eq, lookup}
use go_zero_update.Common.Store.{mem}
use go_zero_update.Collection.TimingWheel.{
  Entry, TimingWheel, new_timing_wheel, Event, tick_event, set_event, move_event, remove_event,
  drain_event, remove_task, step,
}
use go_zero_update.Collection.TimingWheel.Slots.{slot}
use go_zero_update.Collection.TimingWheel.Visits.{IsValid}
use go_zero_update.Collection.TimingWheel.Operations.{remove_task-IsValid, on_tick-IsValid}
use go_zero_update.Collection.TimingWheel.Due.{due}
use go_zero_update.Collection.TimingWheel.Moves.{
  move_task-IsValid, set_task-IsValid, move_task-due_other, set_task-due_other,
}
use go_zero_update.Collection.TimingWheel.Delays.{remove_task-due}

empty_slot : (n p : ℕ) → slot (replicate n []) p ≡ []
empty_slot zero p = refl
empty_slot (suc n) zero = refl
empty_slot (suc n) (suc p) = empty_slot n p

-- The events of one key.
unfoldable pub event_of {ℓ κ} : {K : Type ℓ} {V : Type κ} → Event K V → Option K
event_of tick_event = none
event_of (set_event k x delay) = some k
event_of (move_event k delay) = some k
event_of (remove_event k) = some k
event_of drain_event = none

module _ {ℓ κ} {K : Type ℓ} {V : Type κ} (eq : Eq K) where
  -- Every round of the event loop but a drain keeps a wheel well formed.
  pub step-IsValid :
      (w : TimingWheel K V) (event : Event K V)
      → IsValid eq w
      → event ≢ drain_event
      → IsValid eq (step eq w event).0
  unfolding step remove_task
  step-IsValid w tick_event v _ = on_tick-IsValid eq w v
  step-IsValid w (set_event k x delay) v _ = set_task-IsValid eq w k x delay v
  step-IsValid w (move_event k delay) v _ = move_task-IsValid eq w k delay v
  step-IsValid w (remove_event k) v _ = elim (Option-cases (lookup eq k w.timers)) [
    | inl h ↦ rw (remove_task, h) v
    | inr (t, h) ↦ rw (remove_task, h) (remove_task-IsValid eq w k t v h)
  ]
  step-IsValid w drain_event v other = absurd (other refl)

  -- On a well-formed wheel, setting, moving or removing the timer of one key changes no other timer.
  pub step-due_other :
      (w : TimingWheel K V) (event : Event K V) (k j : K)
      → IsValid eq w
      → event_of event ≡ some k
      → eq.beq k j ≡ false
      → due eq (step eq w event).0 j ≡ due eq w j
  unfolding step event_of
  step-due_other w tick_event k j v h apart = absurd (ground (arith, h))
  step-due_other w (set_event i x delay) k j v h apart =
      let same : i ≡ k = cc h in
      set_task-due_other eq w i j x delay v (ap (λ a. eq.beq a j) same ∙ apart)
  step-due_other w (move_event i delay) k j v h apart =
      let same : i ≡ k = cc h in
      move_task-due_other eq w i j delay v (ap (λ a. eq.beq a j) same ∙ apart)
  step-due_other w (remove_event i) k j v h apart =
      let same : i ≡ k = cc h in
      ground (arith, remove_task-due eq w i j v, ap (λ a. eq.beq a j) same ∙ apart)
  step-due_other w drain_event k j v h apart = absurd (ground (arith, h))

  abbrev pub empty_wheel : ℕ → ℕ → Entry K V → TimingWheel K V
  empty_wheel interval n blank = record {
    interval = interval;
    slots = replicate n [];
    timers = [];
    ticked_pos = n - 1;
    num_slots = n;
    items = λ i. blank;
    next_item = 0;
  }

  empty_wheel-IsValid :
      (interval n : ℕ) (blank : Entry K V) → 0 < n → IsValid eq (empty_wheel interval n blank)
  unfolding lookup mem
  empty_wheel-IsValid interval n blank h = record {
    slots_size = length-replicate n [];
    some_slot = h;
    ticked = omega (arith, h);
    nodup = λ p. rw (empty_slot n p) tt;
    live = λ p i m r. absurd (ground (arith, m, ap (mem i) (empty_slot n p)));
    known = λ k t e. absurd (ground (arith, e));
    fresh = λ p i m. absurd (ground (arith, m, ap (mem i) (empty_slot n p)));
  }

  -- A new wheel is well formed, and its interval is not 0.
  pub new_timing_wheel-IsValid :
      (interval n : ℕ) (has_execute : Bool) (blank : Entry K V) (w : TimingWheel K V)
      → new_timing_wheel eq interval n has_execute blank ≡ some w
      → IsValid eq w × (0 < w.interval)
  unfolding new_timing_wheel
  new_timing_wheel-IsValid interval n has_execute blank w h =
      elim (Bool-cases ((interval == 0) || (n == 0) || not has_execute)) [
        | inl e ↦ absurd (ground (arith, h, e))
        | inr e ↦
            let same : empty_wheel interval n blank ≡ w = cc (h, e) in
            rw (← same)
              (empty_wheel-IsValid interval n blank (ground (arith, e)), ground (arith, e))
      ]

  unfoldable pub run : TimingWheel K V → List (Event K V) → TimingWheel K V × List (K × V)
  run w [] = (w, [])
  run w (event ∷ events) =
      let (w', tasks) = step eq w event in let (last, more) = run w' events in (last, tasks ++ more)

  abbrev pub NoDrain : List (Event K V) → Type (ℓ ⊔ κ)
  NoDrain [] = Unit
  NoDrain (event ∷ events) = (event ≢ drain_event) × NoDrain events

  pub run-IsValid :
      (w : TimingWheel K V) (events : List (Event K V))
      → IsValid eq w
      → NoDrain events
      → IsValid eq (run w events).0
  unfolding run
  run-IsValid w [] v h = v
  run-IsValid w (event ∷ events) v (h, hs) =
      run-IsValid (step eq w event).0 events (step-IsValid w event v h) hs
