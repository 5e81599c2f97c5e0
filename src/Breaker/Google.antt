-- ===== src/Breaker/Google.antt =====
-- core/breaker/googlebreaker.go: the throttle that drops requests in proportion to the failures.
pub mod Accept
pub mod Trace
use go_zero_update.Common.{
  ℕ, ◌+◌, ◌-◌, Bool, true, false, ◌&&◌, ltb, if◌then◌else◌, Option, none, some, Outcome, ◌>>=◌,
  returns, panics,
}
use go_zero_update.Common.Int.{ℤ, pos, sub_ℕ}
use go_zero_update.Collection.RollingWindow.{RollingWindow, new_rolling_window, add}
use go_zero_update.Breaker.Bucket.{Bucket, buckets, success_mark, fail_mark, drop_mark}
use go_zero_update.Breaker.Counts.{bucket_count, bucket_duration}
use go_zero_update.Breaker.History.{WindowResult, history}

-- The float64 of Go, which is no code of the repository: a type with its operations.
pub record Float : Type 1 where
  pub F : Type 0
  pub of_int : ℤ → F
  pub k : F
  pub min_k : F
  pub sub : F → F → F
  pub mul : F → F → F
  pub div : F → F → F
  pub less : F → F → Bool
  pub not_positive : F → Bool

-- `forcePassDuration`, a second in nanoseconds, and `protection`.
abbrev pub force_pass : ℕ
force_pass = 1_000_000_000

abbrev pub protection : ℕ
protection = 5

-- The times that a call reads from the clock, in the order of the reads.
pub record Readings : Type 0 where
  pub at_history : ℕ
  pub at_since : ℕ
  pub at_set : ℕ
  pub at_mark : ℕ
  pub at_align : ℕ

module _ (float : Float) where
  open float use {F, of_int, k, min_k, sub, mul, div, less, not_positive}

  -- `googleBreaker`; its `k` is always the constant.
  pub record Breaker : Type 0 where
    pub stat : RollingWindow Bucket
    pub last_pass : ℕ

  -- `newGoogleBreaker`.
  unfoldable pub new_google_breaker : ℕ → Outcome Breaker
  new_google_breaker now = do
    stat ← new_rolling_window buckets bucket_count bucket_duration false now
    returns (record { stat = stat; last_pass = 0 })

  -- `mathx.AtLeast`.
  at_least : F → F → F
  at_least x lower = if less x lower then lower else x

  -- `dropRatio`, before it is scaled by the working buckets.
  pub drop_ratio : WindowResult → F
  unfolding at_least
  drop_ratio h =
      let w =
        sub k
          (div (mul (sub k min_k) (of_int (pos h.failing_buckets))) (of_int (pos bucket_count))) in
      let weighted_accepts = mul (at_least w min_k) (of_int (pos h.accepts)) in
      div (sub (of_int (sub_ℕ h.total_count protection)) weighted_accepts)
        (of_int (pos (h.total_count + 1)))

  scaled_ratio : WindowResult → F
  scaled_ratio h =
      mul (drop_ratio h)
        (div (of_int (sub_ℕ bucket_count h.working_buckets)) (of_int (pos bucket_count)))

  -- Whether a second has passed since the last pass.
  pub must_pass : ℕ → ℕ → Bool
  must_pass last_pass now = ltb 0 last_pass && ltb (last_pass + force_pass) now

  -- `accept`: whether the request is rejected, and the breaker after it. `true_on_proba` is the answer
  -- of the random generator.
  unfoldable pub accept : Breaker → Readings → (F → Bool) → Bool × Breaker
  unfolding drop_ratio scaled_ratio must_pass history
  accept b clock true_on_proba =
      let h = history b.stat clock.at_history in
      if not_positive (drop_ratio h)
      then (false, b)
      else if must_pass b.last_pass clock.at_since
      then (false, record b { last_pass = clock.at_set })
      else if true_on_proba (scaled_ratio h)
      then (true, b)
      else (false, record b { last_pass = clock.at_set })

  -- `markDrop`, `markFailure` and `markSuccess`.
  unfoldable pub mark : Breaker → Readings → ℕ → Breaker
  mark b clock v = record b { stat = add buckets b.stat clock.at_mark clock.at_align v }

  module _ {E : Type 0} (unavailable : E) where
    -- The end of `doReq`, when the request has returned or panicked: `acceptable` may panic too.
    settle :
        Breaker
        → Readings
        → Outcome (Option E)
        → (Option E → Outcome Bool)
        → Outcome (Option E) × Breaker
    settle b clock panics acceptable = (panics, mark b clock fail_mark)
    settle b clock (returns err) acceptable = elim (acceptable err) [
      | panics ↦ (panics, mark b clock fail_mark)
      | returns true ↦ (returns err, mark b clock success_mark)
      | returns false ↦ (returns err, mark b clock fail_mark)
    ]

    -- `doReq`. An error is an `Option`, with `none` for nil; `req` is what the request would do.
    unfoldable pub do_req :
        Breaker
        → Readings
        → (F → Bool)
        → Outcome (Option E)
        → Option (E → Outcome (Option E))
        → (Option E → Outcome Bool)
        → Outcome (Option E) × Breaker
    unfolding settle
    do_req b clock true_on_proba req fallback acceptable =
        let (rejected, b') = accept b clock true_on_proba in
        if rejected
        then (
          elim fallback [ none ↦ returns (some unavailable) | some f ↦ f unavailable ],
          mark b' clock drop_mark,
        )
        else settle b' clock req acceptable

    -- `allow`: an error, or a promise that marks a success or a failure.
    pub allow : Breaker → Readings → (F → Bool) → Option E × Breaker
    allow b clock true_on_proba =
        let (rejected, b') = accept b clock true_on_proba in
        if rejected then (some unavailable, mark b' clock drop_mark) else (none, b')

  -- The two methods of a promise.
  pub promise_accept : Breaker → Readings → Breaker
  promise_accept b clock = mark b clock success_mark

  pub promise_reject : Breaker → Readings → Breaker
  promise_reject b clock = mark b clock fail_mark
