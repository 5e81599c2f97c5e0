-- ===== src/Collection/TimingWheel.antt =====
-- core/collection/timingwheel.go: timers on a wheel of slots, one slot for each tick.
--
-- The tasks of the wheel are shared between a slot and the table of the timers, so they stand in a
-- store: a pointer to a task is its number, and `items` reads it. A method returns the new wheel and
-- the calls of `execute` that it starts, in order. The event loop of `run` takes one event at a
-- time, and `step` is one round of it. The table of the timers is a plain map, which
-- `Collection.SafeMap` is shown to behave as. The keys are not nil. A delay is a number of time
-- units, with 0 for what is not above 0.
mod Tests
pub mod Slots
pub mod Visits
pub mod Operations
pub mod Due
pub mod Ticks
pub mod Fires
pub mod Timers
pub mod Delays
pub mod Moves
pub mod Rounds
pub mod Drains
use go_zero_update.Common.{
  ℕ, zero, suc, ◌+◌, ◌-◌, ◌*◌, ◌/◌, ◌%◌, Bool, true, false, ◌||◌, not, List, [], ◌∷◌, ◌++◌, map,
  Option, none, some, ltb, leb, ◌==◌, if◌then◌else◌, length, get_or, set, replicate,
}
use go_zero_update.Common.Store.{write}
use go_zero_update.Common.Maps.{Eq, is_some, lookup, store, delete}

-- `timingEntry`; its delay is not read once it is on the wheel.
pub record Entry {ℓ κ} (K : Type ℓ) (V : Type κ) : Type (ℓ ⊔ κ) where
  pub key : K
  pub value : V
  pub circle : ℕ
  pub diff : ℕ
  pub removed : Bool

-- `positionEntry`.
pub record Position : Type 0 where
  pub pos : ℕ
  pub item : ℕ

-- `TimingWheel`, without its ticker and its channels; `next_item` is the next free pointer.
pub record TimingWheel {ℓ κ} (K : Type ℓ) (V : Type κ) : Type (ℓ ⊔ κ) where
  pub interval : ℕ
  pub slots : List (List ℕ)
  pub timers : List (K × Position)
  pub ticked_pos : ℕ
  pub num_slots : ℕ
  pub items : ℕ → Entry K V
  pub next_item : ℕ

-- `ErrClosed` and `ErrArgument`.
pub data WheelError : Type 0 where
  closed : WheelError
  argument : WheelError

unfoldable pub remove_item : ℕ → List ℕ → List ℕ
remove_item i [] = []
remove_item i (j ∷ js) = if j == i then js else j ∷ remove_item i js

-- `PushBack` on a slot, and `Remove` from it.
unfoldable pub push_slot : List (List ℕ) → ℕ → ℕ → List (List ℕ)
push_slot slots p i = set slots p (get_or slots p [] ++ i ∷ [])

unfoldable pub remove_slot : List (List ℕ) → ℕ → ℕ → List (List ℕ)
unfolding remove_item
remove_slot slots p i = set slots p (remove_item i (get_or slots p []))

-- What `run` takes from its channels, the ticks included.
pub data Event {ℓ κ} (K : Type ℓ) (V : Type κ) : Type (ℓ ⊔ κ) where
  tick_event : Event K V
  set_event : K → V → ℕ → Event K V
  move_event : K → ℕ → Event K V
  remove_event : K → Event K V
  drain_event : Event K V

-- The error of `SetTimer`, `MoveTimer`, `RemoveTimer` and `Drain`, which hand an event over if the
-- wheel has not been stopped.
unfoldable pub submit {ℓ κ} : {K : Type ℓ} {V : Type κ} → Bool → Event K V → Option WheelError
submit stopped tick_event = none
submit stopped (set_event key value delay) =
    if delay == 0 then some argument else if stopped then some closed else none
submit stopped (move_event key delay) =
    if delay == 0 then some argument else if stopped then some closed else none
submit stopped (remove_event key) = if stopped then some closed else none
submit stopped drain_event = if stopped then some closed else none

module _ {ℓ κ} {K : Type ℓ} {V : Type κ} (eq : Eq K) where
  -- `NewTimingWheelWithTicker`, and the checks of `NewTimingWheel`; `has_execute` says that `execute` is
  -- not nil. The store begins with `blank`.
  unfoldable pub new_timing_wheel : ℕ → ℕ → Bool → Entry K V → Option (TimingWheel K V)
  new_timing_wheel interval num_slots has_execute blank =
      if (interval == 0) || (num_slots == 0) || not has_execute
      then none
      else some (record {
        interval = interval;
        slots = replicate num_slots [];
        timers = [];
        ticked_pos = num_slots - 1;
        num_slots = num_slots;
        items = λ i. blank;
        next_item = 0;
      })

  -- `getPositionAndCircle`.
  unfoldable pub position_and_circle : TimingWheel K V → ℕ → ℕ × ℕ
  position_and_circle w d =
      let steps = d / w.interval in
      ((w.ticked_pos + steps) % w.num_slots, (steps - 1) / w.num_slots)

  -- `setTimerPosition`.
  unfoldable pub set_timer_position : TimingWheel K V → ℕ → ℕ → TimingWheel K V
  set_timer_position w p i = record w {
    timers = store eq (w.items i).key (record { pos = p; item = i }) w.timers;
  }

  -- A new task at the back of a slot, with its position in the table.
  unfoldable pub place_new : TimingWheel K V → ℕ → Entry K V → TimingWheel K V
  unfolding set_timer_position
  place_new w p e =
      set_timer_position
        (record w {
          items = write w.items w.next_item e;
          next_item = w.next_item + 1;
          slots = push_slot w.slots p w.next_item;
        })
        p w.next_item

  -- `moveTask` of the timer at `t`, to the position and the circle of the new delay.
  unfoldable pub move_to : TimingWheel K V → Position → ℕ → ℕ → TimingWheel K V
  move_to w t p c =
      let e = w.items t.item in
      if leb t.pos p
      then record w { items = write w.items t.item (record e { circle = c; diff = p - t.pos }) }
      else if ltb 0 c
      then record w {
        items = write w.items t.item (record e { circle = c - 1; diff = w.num_slots + p - t.pos });
      }
      else place_new (record w { items = write w.items t.item (record e { removed = true }) }) p
          (record e { circle = 0; diff = 0; removed = false })

  -- `moveTask`, with the calls of `execute`.
  unfoldable pub move_task : TimingWheel K V → K → ℕ → TimingWheel K V × List (K × V)
  move_task w key delay = elim (lookup eq key w.timers) [
    | none ↦ (w, [])
    | some t ↦
        if ltb delay w.interval
        then (w, ((w.items t.item).key, (w.items t.item).value) ∷ [])
        else (move_to w t (position_and_circle w delay).0 (position_and_circle w delay).1, [])
  ]

  -- `setTask`.
  unfoldable pub set_task : TimingWheel K V → K → V → ℕ → TimingWheel K V × List (K × V)
  set_task w key value delay =
      let d = if ltb delay w.interval then w.interval else delay in
      elim (lookup eq key w.timers) [
        | some t ↦
            move_task
              (record w {
                items = write w.items t.item (record (w.items t.item) { value = value });
              })
              key d
        | none ↦ (
          place_new w (position_and_circle w d).0 (record {
            key = key;
            value = value;
            circle = (position_and_circle w d).1;
            diff = 0;
            removed = false;
          }),
          [],
        )
      ]

  -- `removeTask`.
  unfoldable pub remove_task : TimingWheel K V → K → TimingWheel K V
  remove_task w key = elim (lookup eq key w.timers) [
    | none ↦ w
    | some t ↦ record w {
      items = write w.items t.item (record (w.items t.item) { removed = true });
      timers = delete eq key w.timers;
    }
  ]

  -- One round of the loop of `scanAndRunTasks`, for a task of the slot of the tick. A task that moves
  -- on goes to another slot, since `diff` is below the number of slots.
  unfoldable pub visit : TimingWheel K V → ℕ → TimingWheel K V × List (K × V)
  visit w i =
      let e = w.items i in
      let p = (w.ticked_pos + e.diff) % w.num_slots in
      let off = remove_slot w.slots w.ticked_pos i in
      if e.removed
      then (record w { slots = off }, [])
      else if ltb 0 e.circle
      then (record w { items = write w.items i (record e { circle = e.circle - 1 }) }, [])
      else if ltb 0 e.diff
      then (
        record w {
          slots = push_slot off p i;
          timers = store eq e.key (record { pos = p; item = i }) w.timers;
          items = write w.items i (record e { diff = 0 });
        },
        [],
      )
      else (record w { slots = off; timers = delete eq e.key w.timers }, (e.key, e.value) ∷ [])

  -- The loop, over the tasks that the slot had at its start.
  unfoldable pub scan : TimingWheel K V → List ℕ → TimingWheel K V × List (K × V)
  scan w [] = (w, [])
  scan w (i ∷ js) =
      let (w', tasks) = visit w i in let (last, more) = scan w' js in (last, tasks ++ more)

  -- `onTick`.
  unfoldable pub on_tick : TimingWheel K V → TimingWheel K V × List (K × V)
  on_tick w =
      let w' = record w { ticked_pos = (w.ticked_pos + 1) % w.num_slots } in
      scan w' (get_or w'.slots w'.ticked_pos [])

  -- `drainAll`, with the calls of the function that it is given.
  unfoldable pub drain_slot : (ℕ → Entry K V) → List ℕ → List (K × V)
  drain_slot items [] = []
  drain_slot items (i ∷ js) =
      let more = drain_slot items js in
      if (items i).removed then more else ((items i).key, (items i).value) ∷ more

  unfoldable pub drain_slots : (ℕ → Entry K V) → List (List ℕ) → List (K × V)
  drain_slots items [] = []
  drain_slots items (l ∷ ls) = drain_slot items l ++ drain_slots items ls

  unfoldable pub drain_all : TimingWheel K V → TimingWheel K V × List (K × V)
  drain_all w = (record w { slots = map (λ l. []) w.slots }, drain_slots w.items w.slots)

  -- One round of `run`.
  unfoldable pub step : TimingWheel K V → Event K V → TimingWheel K V × List (K × V)
  step w tick_event = on_tick w
  step w (set_event key value delay) = set_task w key value delay
  step w (move_event key delay) = move_task w key delay
  step w (remove_event key) = (remove_task w key, [])
  step w drain_event = drain_all w
