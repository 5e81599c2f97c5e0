-- ===== src/Breaker/Google/Trace.antt =====
-- The calls of `doReq` of core/breaker/googlebreaker.go one after the other: each leaves one mark.
use go_zero_update.Common.{
  ℕ, ◌+◌, ◌-◌, ◌≤◌, ◌≡◌, refl, ap, ◌∙◌, Bool, true, false, List, [], ◌∷◌, arith, Option, Outcome,
  ◌>>=◌, returns, panics, inl, inr, Bool-cases,
}
use go_zero_update.Collection.RollingWindow.{RollingWindow, new_rolling_window, add}
use go_zero_update.Collection.RollingWindow.Log
use go_zero_update.Collection.RollingWindow.Totals.{weight_between}
use go_zero_update.Collection.RollingWindow.Streaks.{streak_between}
use go_zero_update.Breaker.Bucket.{Bucket, buckets, reset-fresh, success_mark, fail_mark, drop_mark}
use go_zero_update.Breaker.Counts
use go_zero_update.Breaker.Counts.{
  Mark, add_marks, mark_log, place, bucket_count, bucket_duration, success_weight, failure_weight,
}
use go_zero_update.Breaker.History.{history}
use go_zero_update.Breaker.Google.{
  Float, Readings, Breaker, new_google_breaker, accept, mark, settle, do_req,
}

-- What a call should be counted as: dropped if it was rejected, a success if the request returned
-- with an acceptable error, and a failure if anything else happened, a panic included.
abbrev pub mark_of {ℓ} : {E : Type ℓ} → Bool → Outcome (Option E) → (Option E → Outcome Bool) → ℕ
mark_of true req acceptable = drop_mark
mark_of false panics acceptable = fail_mark
mark_of false (returns err) acceptable = elim (acceptable err) [
  | returns true ↦ success_mark
  | _ ↦ fail_mark
]

module _ (float : Float) {E : Type 0} (unavailable : E) where
  -- The arguments of a call.
  pub record Call : Type 0 where
    pub clock : Readings
    pub true_on_proba : float.F → Bool
    pub req : Outcome (Option E)
    pub fallback : Option (E → Outcome (Option E))
    pub acceptable : Option E → Outcome Bool

  call : Breaker float → Call → Outcome (Option E) × Breaker float
  call b c = do_req float unavailable b c.clock c.true_on_proba c.req c.fallback c.acceptable

  unfoldable pub run : Breaker float → List Call → Breaker float
  unfolding call
  run b [] = b
  run b (c ∷ calls) = run (call b c).1 calls

  module _ (start : ℕ) where
    -- The mark of one call, and of each of a sequence.
    call_mark : Breaker float → Call → Mark start
    call_mark b c = record {
      now = c.clock.at_mark;
      later = c.clock.at_align;
      value = mark_of (accept float b c.clock c.true_on_proba).0 c.req c.acceptable;
    }

    unfoldable pub trace : Breaker float → List Call → List (Mark start)
    unfolding call_mark call
    trace b [] = []
    trace b (c ∷ calls) = call_mark b c ∷ trace (call b c).1 calls

    accept-stat :
        (b : Breaker float) (clock : Readings) (coin : float.F → Bool)
        → (accept float b clock coin).1.stat ≡ b.stat
    unfolding accept
    accept-stat b clock coin = ground arith

    settle-stat :
        (b : Breaker float) (clock : Readings) (req : Outcome (Option E))
        (acceptable : Option E → Outcome Bool)
        → (settle float unavailable b clock req acceptable).1.stat
          ≡ add buckets b.stat clock.at_mark clock.at_align (mark_of false req acceptable)
    unfolding settle mark
    settle-stat b clock panics acceptable = refl
    settle-stat b clock (returns err) acceptable = ground arith

    call-stat :
        (b : Breaker float) (c : Call)
        → (call b c).1.stat
          ≡ add buckets b.stat c.clock.at_mark c.clock.at_align (call_mark b c).value
    unfolding call call_mark do_req mark
    call-stat b c = elim (Bool-cases (accept float b c.clock c.true_on_proba).0) [
      | inl rejected ↦ rw rejected (ap (count drop_mark) (accept-stat b c.clock c.true_on_proba))
      | inr passed ↦ rw passed (
          settle-stat (accept float b c.clock c.true_on_proba).1 c.clock c.req c.acceptable
          ∙ ap (count (mark_of false c.req c.acceptable)) (accept-stat b c.clock c.true_on_proba))
    ]
      where
        count : ℕ → RollingWindow Bucket → RollingWindow Bucket
        count v stat = add buckets stat c.clock.at_mark c.clock.at_align v

    run-trace :
        (b : Breaker float) (calls : List Call)
        → (run b calls).stat ≡ add_marks start b.stat (trace b calls)
    unfolding run trace call_mark Log.add_all
    run-trace b [] = refl
    run-trace b (c ∷ calls) =
        run-trace (call b c).1 calls
        ∙ ap (λ stat. add_marks start stat (trace (call b c).1 calls)) (call-stat b c)

    new_google_breaker-stat :
        (b : Breaker float)
        → new_google_breaker float start ≡ returns b
        → new_rolling_window buckets bucket_count bucket_duration false start ≡ returns b.stat
    unfolding new_google_breaker
    new_google_breaker-stat b e =
        made (new_rolling_window buckets bucket_count bucket_duration false start) e
      where
        made :
            (o : Outcome (RollingWindow Bucket))
            → ◌≡◌ {A = Outcome (Breaker float)}
                (o >>= λ stat. returns (record { stat = stat; last_pass = 0 }))
                (returns b)
            → o ≡ returns b.stat
        made (returns w) h = ground arith
        made panics h = cc

    -- What a new breaker knows after any sequence of calls of `doReq`: the number of requests of the
    -- last 40 intervals, and how many of them succeeded. A request counts once, as dropped, failed or
    -- succeeded, and one that panics has failed. The clock never goes back, and the two readings
    -- with which a mark is added fall in one interval.
    pub run-history :
        (b : Breaker float) (calls : List Call) (now : ℕ)
        → new_google_breaker float start ≡ returns b
        → Log.Timely buckets reset-fresh start bucket_duration bucket_count start (trace b calls)
        → Log.last_reading buckets reset-fresh start bucket_duration bucket_count start
            (trace b calls)
          ≤ now
        → ((history (run b calls).stat now).total_count
            ≡ weight_between
                (place start)
                (λ v. 1)
                (mark_log start (trace b calls))
                (place start now + 1 - bucket_count)
                bucket_count)
          × ((history (run b calls).stat now).accepts
              ≡ weight_between
                  (place start)
                  success_weight
                  (mark_log start (trace b calls))
                  (place start now + 1 - bucket_count)
                  bucket_count)
    run-history b calls now new timely last =
        let made = new_google_breaker-stat b new in
        (
          ap (λ stat. (history stat now).total_count) (run-trace b calls)
              ∙ Counts.total_count-marks start b.stat (trace b calls) now made timely last,
          ap (λ stat. (history stat now).accepts) (run-trace b calls)
              ∙ Counts.accepts-marks start b.stat (trace b calls) now made timely last,
        )

    -- The two other counts of a new breaker after any sequence of calls of `doReq`. Of the last 40
    -- intervals `failing_buckets` counts those with a failed request and no success in them or later,
    -- and `working_buckets` those with a success and no failed request in them or later. The clock
    -- never goes back, and the two readings with which a mark is added fall in one interval.
    pub run-streak_between :
        (b : Breaker float) (calls : List Call) (now : ℕ)
        → new_google_breaker float start ≡ returns b
        → Log.Timely buckets reset-fresh start bucket_duration bucket_count start (trace b calls)
        → Log.last_reading buckets reset-fresh start bucket_duration bucket_count start
            (trace b calls)
          ≤ now
        → ((history (run b calls).stat now).failing_buckets
            ≡ streak_between
                (place start)
                failure_weight
                success_weight
                (mark_log start (trace b calls))
                (place start now + 1 - bucket_count)
                bucket_count)
          × ((history (run b calls).stat now).working_buckets
              ≡ streak_between
                  (place start)
                  success_weight
                  failure_weight
                  (mark_log start (trace b calls))
                  (place start now + 1 - bucket_count)
                  bucket_count)
    run-streak_between b calls now new timely last =
        let made = new_google_breaker-stat b new in
        (
          ap (λ stat. (history stat now).failing_buckets) (run-trace b calls)
              ∙ Counts.failing_buckets-marks start b.stat (trace b calls) now made timely last,
          ap (λ stat. (history stat now).working_buckets) (run-trace b calls)
              ∙ Counts.working_buckets-marks start b.stat (trace b calls) now made timely last,
        )
