-- ===== src/Collection/RollingWindow/Log.antt =====
-- The rolling window of core/collection/rollingwindow.go over a whole run of `Add` from its creation.
use mathlib.Core.Path.{ap₂, subst}
use mathlib.Core.List.{foldl}
use Prim.Native.Nat.{min}
use native.Mathlib.Decide.{dec_le}
use go_zero_update.Common.{
  ℕ, ◌+◌, ◌-◌, ◌*◌, ◌/◌, ◌≤◌, ◌<◌, panics, ◌≡◌, refl, sym, ap, ◌∙◌, true, false, Bool, ◌&&◌, List,
  [], length-replicate, ltb, inl, inr, Bool-cases, ◌∷◌, arith, drop, take, replicate, ◌==◌,
  if◌then◌else◌, returns,
}
use go_zero_update.Common.Circular
use go_zero_update.Common.Table
use go_zero_update.Common.Table.{table}
use go_zero_update.Collection.RollingWindow.{
  BucketInterface, RollingWindow, new_rolling_window, span, update_offset, add_current, add, reduce,
}
use go_zero_update.Collection.RollingWindow.Window
use go_zero_update.Collection.RollingWindow.Slots.{
  slot_of, slot, slots, newest, Tracks, slots-fresh, slot_of-later, span-min, update_offset-Tracks,
  add_current-Tracks,
}
use go_zero_update.Collection.RollingWindow.Window.{IsValid, window, older, current, seen}

module _ {ℓ κ} {V : Type ℓ} {B : Type κ} (bucket : BucketInterface V B)
    (reset-fresh : (b : B) → bucket.reset b ≡ bucket.fresh) (start interval size : ℕ) where
  open bucket use {fresh, add as add_value}

  abbrev pub in_slot : List (ℕ × V) → ℕ → B
  in_slot = slot bucket reset-fresh start interval size

  abbrev pub in_slots : List (ℕ × V) → ℕ → ℕ → List B
  in_slots = slots bucket reset-fresh start interval size

  abbrev pub latest : List (ℕ × V) → ℕ
  latest = newest bucket reset-fresh start interval size

  abbrev pub Follows : RollingWindow B → List (ℕ × V) → ℕ → Type (ℓ ⊔ κ)
  Follows = Tracks bucket reset-fresh start interval size

  -- A call of `Add` with its two readings of the clock.
  pub record Event : Type ℓ where
    pub now : ℕ
    pub later : ℕ
    pub value : V

  unfoldable pub add_all : RollingWindow B → List Event → RollingWindow B
  add_all w [] = w
  add_all w (e ∷ events) = add_all (add bucket w e.now e.later e.value) events

  -- The log of the calls, the latest first.
  unfoldable pub logged : List (ℕ × V) → List Event → List (ℕ × V)
  logged log [] = log
  logged log (e ∷ events) = logged ((e.now, e.value) ∷ log) events

  -- The clock does not go back, and the two readings of a call fall in one slot.
  abbrev pub Timely : ℕ → List Event → Type 0
  Timely last [] = Unit
  Timely last (e ∷ events) =
      (last ≤ e.now)
      × (e.now ≤ e.later)
      × (slot_of start interval size e.later ≡ slot_of start interval size e.now)
      × Timely e.later events

  abbrev pub last_reading : ℕ → List Event → ℕ
  last_reading last [] = last
  last_reading last (e ∷ events) = last_reading e.later events

  add-Tracks :
      (w : RollingWindow B) (log : List (ℕ × V)) (c : ℕ) (e : Event)
      → Follows w log c
      → w.last_time ≤ e.now
      → e.now ≤ e.later
      → slot_of start interval size e.later ≡ slot_of start interval size e.now
      → Follows
          (add bucket w e.now e.later e.value)
          ((e.now, e.value) ∷ log)
          (slot_of start interval size e.now)
  unfolding add
  add-Tracks w log c e h p q r =
      add_current-Tracks bucket reset-fresh start interval size
        (update_offset bucket w e.now e.later) log (slot_of start interval size e.now) e.now e.value
        (update_offset-Tracks bucket reset-fresh start interval size w log c e.now e.later h p q r)
        refl

  -- The start of the current interval is never after the last reading of the clock.
  last_time-le :
      (w : RollingWindow B) (e : Event)
      → w.last_time ≤ e.now
      → e.now ≤ e.later
      → (add bucket w e.now e.later e.value).last_time ≤ e.later
  unfolding add update_offset add_current
  last_time-le w e p q = ground arith

  pub add_all-Tracks :
      (events : List Event) (w : RollingWindow B) (log : List (ℕ × V)) (last : ℕ)
      → Follows w log (latest log)
      → w.last_time ≤ last
      → Timely last events
      → Follows (add_all w events) (logged log events) (latest (logged log events))
        × ((add_all w events).last_time ≤ last_reading last events)
  unfolding add_all logged newest
  add_all-Tracks [] w log last h p t = (h, p)
  add_all-Tracks (e ∷ events) w log last h p (q, r, same, t) =
      add_all-Tracks events (add bucket w e.now e.later e.value) ((e.now, e.value) ∷ log) e.later
        (add-Tracks w log (latest log) e h (omega arith) r same) (last_time-le w e (omega arith) r)
        t

  -- What `reduce` visits at the time `now`.
  unfoldable pub in_view_at : Bool → List (ℕ × V) → ℕ → List B
  in_view_at ignore_current log now =
      let t = slot_of start interval size now in
      if t == latest log && ignore_current
      then in_slots log (t + 1 - size) (size - 1)
      else in_slots log (t + 1 - size) (latest log + size - t)

  -- `drop` past the end of the window leaves nothing, as `in_view_at` says.
  drop-slots :
      (log : List (ℕ × V)) (c k : ℕ)
      → size ≤ c
      → drop (min k size) (in_slots log (c + 1 - size) size)
        ≡ in_slots log (c + k + 1 - size) (c + size - (c + k))
  drop-slots log c k h = elim (dec_le k size) [
    | yes few ↦
        let all : min k size ≡ k = omega arith in
        let begin : c + 1 - size + k ≡ c + k + 1 - size = omega arith in
        let count : size - k ≡ c + size - (c + k) = omega arith in
        ap (λ m. drop m (in_slots log (c + 1 - size) size)) all
        ∙ Table.drop-table (in_slot log) k (c + 1 - size) size
        ∙ ap₂ (in_slots log) begin count
    | no many ↦
        let all : min k size ≡ size = omega arith in
        let nothing : size - size ≡ 0 = omega arith in
        let count : 0 ≡ c + size - (c + k) = omega arith in
        ap (λ m. drop m (in_slots log (c + 1 - size) size)) all
        ∙ Table.drop-table (in_slot log) size (c + 1 - size) size
        ∙ ap (in_slots log (c + 1 - size + size)) nothing
        ∙ ap (in_slots log (c + k + 1 - size)) count
  ]

  seen-in_view_at :
      (w : RollingWindow B) (log : List (ℕ × V)) (now : ℕ)
      → Follows w log (latest log)
      → w.last_time ≤ now
      → seen bucket reset-fresh w now ≡ in_view_at w.ignore_current log now
  unfolding seen in_view_at
  seen-in_view_at w log now h p =
      let c = latest log in
      let k = (now - w.last_time) / interval in
      let t = slot_of start interval size now in
      let place : t ≡ c + k = slot_of-later bucket reset-fresh start interval size now h p in
      let gone : span w now ≡ min k size =
        span-min bucket reset-fresh start interval size now h p in
      let pos : 0 < size = omega (arith, h.valid.size_pos, h.same_size) in
      let front : take (w.size - 1) (window bucket reset-fresh w)
          ≡ in_slots log (c + 1 - size) (size - 1) =
        ap₂ (λ n l. take (n - 1) l) h.same_size h.buckets
        ∙ Table.take-table (in_slot log) (size - 1) (c + 1 - size) size (omega arith) in
      let back : drop (span w now) (window bucket reset-fresh w)
          ≡ in_slots log (t + 1 - size) (c + size - t) =
        ap₂ drop gone h.buckets
        ∙ drop-slots log c k h.in_view
        ∙ ap (λ m. in_slots log (m + 1 - size) (c + size - m)) (sym place) in
      let same_test : (span w now == 0) ≡ (t == c) = ground (arith, place, gone, pos) in
      elim (Bool-cases (t == c && w.ignore_current)) [
        | inl e ↦
            let here : c ≡ t = ground arith in
            rw (same_test, e) (front ∙ ap (λ m. in_slots log (m + 1 - size) (size - 1)) here)
        | inr e ↦ rw (same_test, e) back
      ]

  pub reduce-Tracks {σ} :
      {S : Type σ} (w : RollingWindow B) (log : List (ℕ × V)) (now : ℕ) (fn : S → B → S) (s : S)
      → Follows w log (latest log)
      → w.last_time ≤ now
      → reduce bucket w now fn s ≡ foldl fn s (in_view_at w.ignore_current log now)
  reduce-Tracks w log now fn s h p =
      Window.reduce-seen bucket reset-fresh w now fn s h.valid
      ∙ ap (foldl fn s) (seen-in_view_at w log now h p)

  add-ignore :
      (w : RollingWindow B) (e : Event)
      → (add bucket w e.now e.later e.value).ignore_current ≡ w.ignore_current
  unfolding add update_offset add_current
  add-ignore w e = ground arith

  add_all-ignore :
      (events : List Event) (w : RollingWindow B)
      → (add_all w events).ignore_current ≡ w.ignore_current
  unfolding add_all
  add_all-ignore [] w = refl
  add_all-ignore (e ∷ events) w =
      add_all-ignore events (add bucket w e.now e.later e.value) ∙ add-ignore w e

  fresh_window : Bool → RollingWindow B
  fresh_window ignore_current = record {
    size = size;
    buckets = replicate size fresh;
    interval = interval;
    offset = 0;
    ignore_current = ignore_current;
    last_time = start;
  }

  fresh_window-Tracks :
      (ignore_current : Bool)
      → 0 < size
      → 0 < interval
      → Follows (fresh_window ignore_current) [] size
  unfolding fresh_window window slot
  fresh_window-Tracks ignore_current h p = record {
    valid = record {
      size_pos = h;
      interval_pos = p;
      length_size = length-replicate size fresh;
      offset_in = h;
    };
    same_size = refl;
    same_interval = refl;
    in_view = omega arith;
    begun = omega (arith, ap (λ n. n * interval) none_yet);
    none_later = λ j q. refl;
    buckets =
        Circular.circular-replicate fresh size (0 + 1) size
        ∙ sym (
            slots-fresh bucket reset-fresh start interval size [] (size + 1 - size) size
              (λ j q. refl));
  }
    where
      none_yet : size - size ≡ 0
      none_yet = omega arith

  new_rolling_window-made :
      (ignore_current : Bool) (w : RollingWindow B)
      → new_rolling_window bucket size interval ignore_current start ≡ returns w
      → (0 < size) × (fresh_window ignore_current ≡ w)
  unfolding new_rolling_window fresh_window
  new_rolling_window-made ignore_current w e = elim (Bool-cases (ltb size 1)) [
    | inl small ↦ absurd (refused small)
    | inr large ↦ (ground arith, made large)
  ]
    where
      refused : ltb size 1 ≡ true → ⊥
      refused small = let bad : panics ≡ returns w = rw small at e in cc

      made : ltb size 1 ≡ false → fresh_window ignore_current ≡ w
      made large =
          let good : returns (fresh_window ignore_current) ≡ returns w = rw large at e in cc

  new_rolling_window-Tracks :
      (ignore_current : Bool) (w : RollingWindow B)
      → 0 < interval
      → new_rolling_window bucket size interval ignore_current start ≡ returns w
      → Follows w [] size × (w.ignore_current ≡ ignore_current) × (w.last_time ≡ start)
  unfolding fresh_window
  new_rolling_window-Tracks ignore_current w p e =
      let (h, same) = new_rolling_window-made ignore_current w e in
      (
        subst (λ v. Follows v [] size) same (fresh_window-Tracks ignore_current h p),
        sym (ap (λ v. v.ignore_current) same),
        sym (ap (λ v. v.last_time) same),
      )

  -- After a run the window follows the log, and `now` is in no earlier slot than the latest event.
  pub run-Tracks :
      (ignore_current : Bool) (w : RollingWindow B) (events : List Event) (now : ℕ)
      → 0 < interval
      → new_rolling_window bucket size interval ignore_current start ≡ returns w
      → Timely start events
      → last_reading start events ≤ now
      → Follows (add_all w events) (logged [] events) (latest (logged [] events))
        × (latest (logged [] events) ≤ slot_of start interval size now)
  unfolding newest
  run-Tracks ignore_current w events now p e t q =
      let (tracks, ignores, begun) = new_rolling_window-Tracks ignore_current w p e in
      let (after, bound) = add_all-Tracks events w [] start tracks (omega (arith, begun)) t in
      (
        after,
        omega (arith, slot_of-later bucket reset-fresh start interval size now after (omega arith)),
      )

  -- Take a new window with a positive interval and any sequence of adds on a clock that never goes
  -- back, where the two readings of an add fall in one slot. A later `reduce` then folds exactly the
  -- buckets of the slots in view, oldest first, each holding the values added in its slot, in order:
  -- the last `size` slots up to that of the latest add, without the current one if it is ignored
  -- and `reduce` is called in it.
  pub reduce-add_all {σ} :
      {S : Type σ} (ignore_current : Bool) (w : RollingWindow B) (events : List Event) (now : ℕ)
      (fn : S → B → S) (s : S)
      → 0 < interval
      → new_rolling_window bucket size interval ignore_current start ≡ returns w
      → Timely start events
      → last_reading start events ≤ now
      → reduce bucket (add_all w events) now fn s
        ≡ foldl fn s (in_view_at ignore_current (logged [] events) now)
  unfolding newest
  reduce-add_all ignore_current w events now fn s p e t q =
      let (tracks, ignores, begun) = new_rolling_window-Tracks ignore_current w p e in
      let (after, bound) = add_all-Tracks events w [] start tracks (omega (arith, begun)) t in
      reduce-Tracks (add_all w events) (logged [] events) now fn s after (omega arith)
      ∙ ap (λ b. foldl fn s (in_view_at b (logged [] events) now))
          (add_all-ignore events w ∙ ignores)
