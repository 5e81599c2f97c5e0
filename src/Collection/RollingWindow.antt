-- ===== src/Collection/RollingWindow.antt =====
-- core/collection/rollingwindow.go: counts of events over the last `size` intervals.
--
-- Each reading of the clock (`timex.Now`, `timex.Since`) is an argument. The interval is positive:
-- Go panics when it divides by an interval of 0.
pub mod Window
pub mod Slots
pub mod Log
pub mod Totals
pub mod Streaks
use mathlib.Core.List.{foldl}
use go_zero_update.Common.{
  ℕ, zero, suc, ◌+◌, ◌-◌, ◌/◌, ◌%◌, Bool, true, false, ◌&&◌, List, ltb, ◌==◌, if◌then◌else◌,
  Outcome, returns, panics, length, get_or, set, replicate,
}
use go_zero_update.Common.Circular.{circular}

-- `BucketInterface`, with the bucket that `newBucket` returns. A method returns the new bucket.
pub record BucketInterface {ℓ κ} (V : Type ℓ) (B : Type κ) : Type (ℓ ⊔ κ) where
  pub fresh : B
  pub add : B → V → B
  pub reset : B → B

-- `RollingWindow`, with the buckets of its `win`; the size of `win` is that of the window.
pub record RollingWindow {ℓ} (B : Type ℓ) : Type ℓ where
  pub size : ℕ
  pub buckets : List B
  pub interval : ℕ
  pub offset : ℕ
  pub ignore_current : Bool
  pub last_time : ℕ

-- `span`: the intervals since the last bucket began, at most `size`. Go divides signed numbers, and
-- rounds towards 0: a clock before `lastTime` by an interval or more gives `size`.
unfoldable pub span {ℓ} : {B : Type ℓ} → RollingWindow B → ℕ → ℕ
span w now =
    if ltb now w.last_time
    then (if (w.last_time - now) / w.interval == 0 then 0 else w.size)
    else if ltb ((now - w.last_time) / w.interval) w.size
    then (now - w.last_time) / w.interval
    else w.size

module _ {ℓ κ} {V : Type ℓ} {B : Type κ} (bucket : BucketInterface V B) where
  open bucket use {fresh, add as add_value, reset}

  -- `NewRollingWindow`; the option `IgnoreCurrentBucket` is `ignore_current`.
  unfoldable pub new_rolling_window : ℕ → ℕ → Bool → ℕ → Outcome (RollingWindow B)
  new_rolling_window size interval ignore_current now =
      if ltb size 1
      then panics
      else returns (record {
        size = size;
        buckets = replicate size fresh;
        interval = interval;
        offset = 0;
        ignore_current = ignore_current;
        last_time = now;
      })

  -- `window.add` and `window.resetBucket`.
  window_add : List B → ℕ → ℕ → V → List B
  window_add buckets size offset v =
      set buckets (offset % size) (add_value (get_or buckets (offset % size) fresh) v)

  reset_bucket : List B → ℕ → ℕ → List B
  reset_bucket buckets size offset =
      set buckets (offset % size) (reset (get_or buckets (offset % size) fresh))

  -- The loop of `updateOffset`, with the rounds left and the counter `i`.
  reset_expired : ℕ → ℕ → ℕ → ℕ → List B → List B
  reset_expired zero i offset size buckets = buckets
  reset_expired (suc rounds) i offset size buckets =
      reset_expired rounds (i + 1) offset size (reset_bucket buckets size ((offset + i + 1) % size))

  -- `updateOffset`. It reads the clock twice: in `span`, and for the new `lastTime`. The
  -- remainder of Go has the sign of its dividend.
  unfoldable pub update_offset : RollingWindow B → ℕ → ℕ → RollingWindow B
  unfolding span reset_expired reset_bucket
  update_offset w now later = if span w now == 0 then w else record w {
    buckets = reset_expired (span w now) 0 w.offset w.size w.buckets;
    offset = (w.offset + span w now) % w.size;
    last_time =
        if ltb later w.last_time
        then later + (w.last_time - later) % w.interval
        else later - (later - w.last_time) % w.interval;
  }

  pub add_current : RollingWindow B → V → RollingWindow B
  unfolding window_add
  add_current w v = record w { buckets = window_add w.buckets w.size w.offset v }

  -- `Add`.
  unfoldable pub add : RollingWindow B → ℕ → ℕ → V → RollingWindow B
  unfolding update_offset add_current
  add w now later v = add_current (update_offset w now later) v

  -- The number of buckets that `Reduce` visits.
  pub visited : RollingWindow B → ℕ → ℕ
  visited w now = if span w now == 0 && w.ignore_current then w.size - 1 else w.size - span w now

  -- `window.reduce` visits `count` buckets from `start` on, each index modulo the size.
  pub window_reduce {σ} : {S : Type σ} → List B → ℕ → ℕ → (S → B → S) → S → S
  window_reduce buckets start count fn s = foldl fn s (circular fresh buckets start count)

  -- `Reduce`; what `fn` writes to is the state `s`.
  unfoldable pub reduce {σ} : {S : Type σ} → RollingWindow B → ℕ → (S → B → S) → S → S
  unfolding visited window_reduce span
  reduce w now fn s =
      if ltb 0 (visited w now)
      then window_reduce w.buckets ((w.offset + span w now + 1) % w.size) (visited w now) fn s
      else s
