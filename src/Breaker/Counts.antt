-- ===== src/Breaker/Counts.antt =====
-- What `history` of core/breaker/googlebreaker.go reports after any run of marks.
use native.Mathlib.Nat.{zero-add}
use go_zero_update.Common.{
  ℕ, ◌+◌, ◌-◌, ◌/◌, ◌≤◌, ◌≡◌, refl, ◌∙◌, false, List, [], arith, ◌==◌, if◌then◌else◌, returns,
}
use go_zero_update.Collection.RollingWindow.{RollingWindow, new_rolling_window}
use go_zero_update.Collection.RollingWindow.Slots.{slot_of}
use go_zero_update.Collection.RollingWindow.Log
use go_zero_update.Collection.RollingWindow.Log.{Event, add_all, logged}
use go_zero_update.Collection.RollingWindow.Totals
use go_zero_update.Collection.RollingWindow.Totals.{weight_between}
use go_zero_update.Collection.RollingWindow.Streaks
use go_zero_update.Collection.RollingWindow.Streaks.{streak_between}
use go_zero_update.Breaker.Bucket.{Bucket, buckets, add, reset-fresh, fail_mark, drop_mark}
use go_zero_update.Breaker.History.{WindowResult, history, note_bucket, zero_result}

-- The constants of the breaker: 40 buckets of 250 ms, in nanoseconds.
abbrev pub bucket_count : ℕ
bucket_count = 40

abbrev pub bucket_duration : ℕ
bucket_duration = 10_000_000_000 / 40

-- 1 for the mark of a success, 0 for the two others.
abbrev pub success_weight : ℕ → ℕ
success_weight v = if v == fail_mark then 0 else if v == drop_mark then 0 else 1

-- 1 for the mark of a failure; a dropped request is none.
abbrev pub failure_weight : ℕ → ℕ
failure_weight v = if v == fail_mark then 1 else 0

success-add : (b : Bucket) (v : ℕ) → (add b v).success ≡ b.success + success_weight v
unfolding add
success-add b v = ground arith

failure-add : (b : Bucket) (v : ℕ) → (add b v).failure ≡ b.failure + failure_weight v
unfolding add
failure-add b v = ground arith

module _ (start : ℕ) where
  abbrev pub Mark : Type 0
  Mark = Event buckets reset-fresh start bucket_duration bucket_count

  abbrev pub add_marks : RollingWindow Bucket → List Mark → RollingWindow Bucket
  add_marks = add_all buckets reset-fresh start bucket_duration bucket_count

  abbrev pub mark_log : List Mark → List (ℕ × ℕ)
  mark_log = logged buckets reset-fresh start bucket_duration bucket_count []

  abbrev pub place : ℕ → ℕ
  place = slot_of start bucket_duration bucket_count

  module _ (w : RollingWindow Bucket) (marks : List Mark) (now : ℕ)
      (made : new_rolling_window buckets bucket_count bucket_duration false start ≡ returns w)
      (timely : Log.Timely buckets reset-fresh start bucket_duration bucket_count start marks)
      (last : Log.last_reading buckets reset-fresh start bucket_duration bucket_count start marks
        ≤ now) where
    -- `total_count` is the number of marks of the last 40 intervals.
    pub total_count-marks :
        (history (add_marks w marks) now).total_count
        ≡ weight_between place (λ v. 1) (mark_log marks) (place now + 1 - bucket_count) bucket_count
    unfolding history add note_bucket
    total_count-marks =
        Totals.reduce-weight_between buckets reset-fresh start bucket_duration bucket_count
          (λ b. b.sum) (λ v. 1) refl sum-add w marks now note_bucket (λ r. r.total_count)
          zero_result (omega arith) made timely last note-sum
        ∙ zero-add _
      where
        sum-add : (b : Bucket) (v : ℕ) → (add b v).sum ≡ b.sum + 1
        sum-add b v = ground arith

        note-sum :
            (r : WindowResult) (b : Bucket) → (note_bucket r b).total_count ≡ r.total_count + b.sum
        note-sum r b = refl

    -- `accepts` is the number of successes among them.
    pub accepts-marks :
        (history (add_marks w marks) now).accepts
        ≡ weight_between place success_weight
            (mark_log marks)
            (place now + 1 - bucket_count)
            bucket_count
    unfolding history add note_bucket
    accepts-marks =
        Totals.reduce-weight_between buckets reset-fresh start bucket_duration bucket_count
          (λ b. b.success) success_weight refl success-add w marks now note_bucket (λ r. r.accepts)
          zero_result (omega arith) made timely last note-success
        ∙ zero-add _
      where
        note-success :
            (r : WindowResult) (b : Bucket) → (note_bucket r b).accepts ≡ r.accepts + b.success
        note-success r b = refl

    -- `failing_buckets` is the number of the last 40 intervals with a failure and no success from then
    -- on, and `working_buckets` that of those with a success and no failure from then on.
    pub failing_buckets-marks :
        (history (add_marks w marks) now).failing_buckets
        ≡ streak_between place failure_weight success_weight
            (mark_log marks)
            (place now + 1 - bucket_count)
            bucket_count
    unfolding history note_bucket
    failing_buckets-marks =
        Streaks.reduce-streak_between buckets reset-fresh start bucket_duration bucket_count
          (λ b. b.failure) (λ b. b.success) failure_weight success_weight refl refl failure-add
          success-add w marks now note_bucket (λ r. r.failing_buckets) zero_result (omega arith)
          made timely last (λ r b. refl) refl

    pub working_buckets-marks :
        (history (add_marks w marks) now).working_buckets
        ≡ streak_between place success_weight failure_weight
            (mark_log marks)
            (place now + 1 - bucket_count)
            bucket_count
    unfolding history note_bucket
    working_buckets-marks =
        Streaks.reduce-streak_between buckets reset-fresh start bucket_duration bucket_count
          (λ b. b.success) (λ b. b.failure) success_weight failure_weight refl refl success-add
          failure-add w marks now note_bucket (λ r. r.working_buckets) zero_result (omega arith)
          made timely last (λ r b. refl) refl
