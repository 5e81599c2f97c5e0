-- ===== src/Breaker/History.antt =====
-- `history` of core/breaker/googlebreaker.go.
use go_zero_update.Common.{ℕ, ◌+◌, ltb, if◌then◌else◌}
use go_zero_update.Collection.RollingWindow.{RollingWindow, reduce}
use go_zero_update.Breaker.Bucket.{Bucket, buckets}

pub record WindowResult : Type 0 where
  pub accepts : ℕ
  pub total_count : ℕ
  pub failing_buckets : ℕ
  pub working_buckets : ℕ

abbrev pub zero_result : WindowResult
zero_result = record { accepts = 0; total_count = 0; failing_buckets = 0; working_buckets = 0 }

-- The function that `history` hands to `Reduce`.
unfoldable pub note_bucket : WindowResult → Bucket → WindowResult
note_bucket r b = record {
  accepts = r.accepts + b.success;
  total_count = r.total_count + b.sum;
  failing_buckets =
      if ltb 0 b.success
      then 0
      else if ltb 0 b.failure
      then r.failing_buckets + 1
      else r.failing_buckets;
  working_buckets =
      if ltb 0 b.failure
      then 0
      else if ltb 0 b.success
      then r.working_buckets + 1
      else r.working_buckets;
}

unfoldable pub history : RollingWindow Bucket → ℕ → WindowResult
history stat now = reduce buckets stat now note_bucket zero_result
