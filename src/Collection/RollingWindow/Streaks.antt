-- ===== src/Collection/RollingWindow/Streaks.antt =====
-- A count that one kind of event of a rolling window raises and another one sets back, by the events in
-- view.
use mathlib.Core.List.{foldl}
use go_zero_update.Common.{
  ℕ, zero, suc, ◌+◌, ◌-◌, ◌≤◌, ◌<◌, ◌≡◌, refl, sym, ap, ◌∙◌, false, ◌&&◌, List, [], ltb, ◌∷◌, ◌++◌,
  arith, ◌==◌, if◌then◌else◌, returns,
}
use go_zero_update.Common.Table
use go_zero_update.Common.Table.{table}
use go_zero_update.Collection.RollingWindow.{
  BucketInterface, RollingWindow, new_rolling_window, reduce,
}
use go_zero_update.Collection.RollingWindow.Slots.{slot_of, slot, newest}
use go_zero_update.Collection.RollingWindow.Log
use go_zero_update.Collection.RollingWindow.Log.{Event, add_all, logged, in_view_at}
use go_zero_update.Collection.RollingWindow.Totals
use go_zero_update.Collection.RollingWindow.Totals.{total, total-append, and_false, weight_between}

-- The slots among `s`, ..., `s + n - 1` that have an event that counts, and from which on no slot up to
-- the last one has an event that stops.
unfoldable pub streak_between {ℓ} :
    {V : Type ℓ} → (ℕ → ℕ) → (V → ℕ) → (V → ℕ) → List (ℕ × V) → ℕ → ℕ → ℕ
streak_between place counts stops log s zero = 0
streak_between place counts stops log s (suc n) =
    (if ltb 0 (weight_between place counts log s 1) && weight_between place stops log s (suc n) == 0
      then 1
      else 0)
    + streak_between place counts stops log (s + 1) n

module _ {κ} {B : Type κ} (up down : B → ℕ) where
  -- The same for the buckets, the oldest one first.
  streak_of : List B → ℕ
  streak_of [] = 0
  streak_of (b ∷ bs) = (if ltb 0 (up b) && total down (b ∷ bs) == 0 then 1 else 0) + streak_of bs

  streak_of_none : (bs : List B) → total up bs ≡ 0 → streak_of bs ≡ 0
  unfolding streak_of
  streak_of_none [] h = refl
  streak_of_none (b ∷ bs) h = ground (arith, h, streak_of_none bs (omega (arith, h)))

  -- Buckets of no event at the end change nothing.
  streak_of-append :
      (bs cs : List B) → total up cs ≡ 0 → total down cs ≡ 0 → streak_of (bs ++ cs) ≡ streak_of bs
  unfolding streak_of
  streak_of-append [] cs h e = streak_of_none cs h
  streak_of-append (b ∷ bs) cs h e =
      ground (arith, streak_of-append bs cs h e, total-append down bs cs, e)

  -- A fold that counts the buckets of the one kind and is set back by those of the other.
  foldl-streak_of {σ} :
      {S : Type σ} (fn : S → B → S) (g : S → ℕ)
      → ((s : S) (b : B)
          → g (fn s b) ≡ (if ltb 0 (down b) then 0 else if ltb 0 (up b) then g s + 1 else g s))
      → (s : S) (bs : List B)
      → g (foldl fn s bs) ≡ (if total down bs == 0 then g s else 0) + streak_of bs
  unfolding streak_of
  foldl-streak_of fn g h s [] = ground arith
  foldl-streak_of fn g h s (b ∷ bs) = ground (arith, foldl-streak_of fn g h (fn s b) bs, h s b)

module _ {ℓ κ} {V : Type ℓ} {B : Type κ} (bucket : BucketInterface V B)
    (reset-fresh : (b : B) → bucket.reset b ≡ bucket.fresh) (start interval size : ℕ)
    (up down : B → ℕ) (counts stops : V → ℕ) (up-fresh : up bucket.fresh ≡ 0)
    (down-fresh : down bucket.fresh ≡ 0)
    (up-add : (b : B) (x : V) → up (bucket.add b x) ≡ up b + counts x)
    (down-add : (b : B) (x : V) → down (bucket.add b x) ≡ down b + stops x) where
  abbrev place : ℕ → ℕ
  place = slot_of start interval size

  abbrev bucket_of : List (ℕ × V) → ℕ → B
  bucket_of = slot bucket reset-fresh start interval size

  streak_of-between :
      (log : List (ℕ × V)) (s n : ℕ)
      → streak_of up down (table (bucket_of log) s n) ≡ streak_between place counts stops log s n
  unfolding streak_of streak_between
  streak_of-between log s zero = refl
  streak_of-between log s (suc n) = ground (
    arith,
    streak_of-between log (s + 1) n,
    Totals.total-weight_between bucket reset-fresh start interval size up counts up-fresh up-add log
        s 1,
    Totals.total-weight_between bucket reset-fresh start interval size down stops down-fresh
        down-add log s (suc n),
  )

  streak_of-in_view :
      (log : List (ℕ × V)) (now c : ℕ)
      → c ≡ newest bucket reset-fresh start interval size log
      → c ≤ place now
      → ((j : ℕ) → c < j → bucket_of log j ≡ bucket.fresh)
      → streak_of up down (in_view_at bucket reset-fresh start interval size false log now)
        ≡ streak_between place counts stops log (place now + 1 - size) size
  unfolding in_view_at
  streak_of-in_view log now c e h later =
      let t = place now in
      let s = t + 1 - size in
      let n = c + size - t in
      let split : n + (size - n) ≡ size = omega arith in
      let none_up =
        Totals.total-none bucket reset-fresh start interval size up counts up-fresh up-add log
          (s + n) (size - n) (λ j p. later j (omega arith)) in
      let none_down =
        Totals.total-none bucket reset-fresh start interval size down stops down-fresh down-add log
          (s + n) (size - n) (λ j p. later j (omega arith)) in
      rw (and_false (t == newest bucket reset-fresh start interval size log)) (
        ap (λ k. streak_of up down (table (bucket_of log) s (k + size - t))) (sym e)
        ∙ sym (
            streak_of-append up down (table (bucket_of log) s n)
              (table (bucket_of log) (s + n) (size - n)) none_up none_down)
        ∙ ap (streak_of up down) (sym (Table.table-add (bucket_of log) s n (size - n)))
        ∙ ap (λ k. streak_of up down (table (bucket_of log) s k)) split
        ∙ streak_of-between log s size)

  -- What a `reduce` finds that counts the buckets of the one kind and sets the count back at the
  -- other, after any run.
  pub reduce-streak_between {σ} :
      {S : Type σ} (w : RollingWindow B)
      (events : List (Event bucket reset-fresh start interval size)) (now : ℕ) (fn : S → B → S)
      (g : S → ℕ) (s : S)
      → 0 < interval
      → new_rolling_window bucket size interval false start ≡ returns w
      → Log.Timely bucket reset-fresh start interval size start events
      → Log.last_reading bucket reset-fresh start interval size start events ≤ now
      → ((r : S) (b : B)
          → g (fn r b) ≡ (if ltb 0 (down b) then 0 else if ltb 0 (up b) then g r + 1 else g r))
      → g s ≡ 0
      → g (reduce bucket (add_all bucket reset-fresh start interval size w events) now fn s)
        ≡ streak_between place counts stops
            (logged bucket reset-fresh start interval size [] events)
            (place now + 1 - size)
            size
  reduce-streak_between w events now fn g s p e t q h z =
      let log = logged bucket reset-fresh start interval size [] events in
      let seen = in_view_at bucket reset-fresh start interval size false log now in
      let (tracks, late) =
        Log.run-Tracks bucket reset-fresh start interval size false w events now p e t q in
      ap g
        (Log.reduce-add_all bucket reset-fresh start interval size false w events now fn s p e t q)
      ∙ foldl-streak_of up down fn g h s seen
      ∙ ground (arith, z)
      ∙ streak_of-in_view log now _ refl (omega (arith, late)) (tracks.none_later)
