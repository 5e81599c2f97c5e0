-- ===== src/Breaker/Tests.antt =====
-- The breaker of core/breaker at concrete inputs.
use go_zero_update.Common.{
  ℕ, ◌+◌, ◌-◌, ◌≡◌, refl, ap, true, false, [], ◌∷◌, arith, none, returns, panics, replicate, List,
  ◌++◌, take,
}
use go_zero_update.Collection.RollingWindow.{RollingWindow, new_rolling_window, reduce}
use go_zero_update.Collection.RollingWindow.Totals.{weight_between}
use go_zero_update.Collection.RollingWindow.Streaks.{streak_between}
use go_zero_update.Breaker.Bucket
use go_zero_update.Breaker.Bucket.{Bucket, zero_bucket, buckets, success_mark, fail_mark}
use go_zero_update.Breaker.Counts.{
  bucket_count, bucket_duration, place, mark_log, success_weight, failure_weight,
}
use go_zero_update.Breaker.History.{history, note_bucket}
use go_zero_update.Collection.RollingWindow
use go_zero_update.Breaker.Google
use go_zero_update.Breaker.Thousandths.{thousandths, thousandths-FloatLaws}
use go_zero_update.Breaker.Google.{Readings, Breaker, accept}
use go_zero_update.Breaker.Google.Accept
use go_zero_update.Breaker.Google.Trace
use go_zero_update.Breaker.Google.Trace.{Call, run, trace}
use go_zero_update.Breaker.ErrorWindow.{new_error_window, string}
use go_zero_update.Breaker.ErrorWindow.Last
use go_zero_update.Breaker.ErrorWindow.Last.{add_each, last_first}

abbrev window : RollingWindow Bucket
window = record {
  size = bucket_count;
  buckets = replicate bucket_count zero_bucket;
  interval = bucket_duration;
  offset = 0;
  ignore_current = false;
  last_time = 1000;
}

abbrev closed : Breaker thousandths
closed = record { stat = window; last_pass = 0 }

abbrev at : ℕ → Readings
at t = record { at_history = t; at_since = t; at_set = t; at_mark = t; at_align = t + 1 }

abbrev good : Call thousandths {E = ℕ} 503
good = record {
  clock = at 2000;
  true_on_proba = λ p. true;
  req = returns none;
  fallback = none;
  acceptable = λ e. returns true;
}

abbrev bad : Call thousandths {E = ℕ} 503
bad = record good { clock = at 300_000_000; req = panics }

-- One success and one panic, a slot later.
run-history_example :
    ((history (run thousandths 503 closed (good ∷ bad ∷ [])).stat 600_000_000).total_count
      ≡ weight_between
          (place 1000)
          (λ v. 1)
          (mark_log 1000 (trace thousandths 503 1000 closed (good ∷ bad ∷ [])))
          (place 1000 600_000_000 + 1 - bucket_count)
          bucket_count)
    × ((history (run thousandths 503 closed (good ∷ bad ∷ [])).stat 600_000_000).accepts
        ≡ weight_between
            (place 1000)
            success_weight
            (mark_log 1000 (trace thousandths 503 1000 closed (good ∷ bad ∷ [])))
            (place 1000 600_000_000 + 1 - bucket_count)
            bucket_count)
unfolding Google.new_google_breaker new_rolling_window trace
run-history_example =
    Trace.run-history thousandths 503 1000 closed (good ∷ bad ∷ []) 600_000_000 refl
      (omega arith, omega arith, omega arith, (omega arith, omega arith, omega arith, tt))
      (omega arith)

-- The same run, counted.
two_calls :
    (history (run thousandths 503 closed (good ∷ bad ∷ [])).stat 600_000_000)
    ≡ record { accepts = 1; total_count = 2; failing_buckets = 1; working_buckets = 0 }
unfolding history run reduce Google.do_req accept note_bucket Google.mark RollingWindow.add
    Bucket.add Bucket.reset
two_calls = refl

-- The breaker after this run; its clock is then read at 600 ms.
abbrev busy : Breaker thousandths
busy = run thousandths 503 closed (good ∷ bad ∷ [])

accept-few_example : accept thousandths busy (at 600_000_000) (λ p. true) ≡ (false, busy)
accept-few_example =
    Accept.accept-few thousandths thousandths-FloatLaws busy (at 600_000_000) (λ p. true)
      (
        omega (arith, ap (λ h. h.total_count) two_calls),
        (
          omega (arith, ap (λ h. h.accepts) two_calls),
          omega (arith, ap (λ h. h.failing_buckets) two_calls),
        ),
      )
      (omega (arith, ap (λ h. h.total_count) two_calls, ap (λ h. h.accepts) two_calls))

run-streak_between_example :
    ((history (run thousandths 503 closed (good ∷ bad ∷ [])).stat 600_000_000).failing_buckets
      ≡ streak_between
          (place 1000)
          failure_weight
          success_weight
          (mark_log 1000 (trace thousandths 503 1000 closed (good ∷ bad ∷ [])))
          (place 1000 600_000_000 + 1 - bucket_count)
          bucket_count)
    × ((history (run thousandths 503 closed (good ∷ bad ∷ [])).stat 600_000_000).working_buckets
        ≡ streak_between
            (place 1000)
            success_weight
            failure_weight
            (mark_log 1000 (trace thousandths 503 1000 closed (good ∷ bad ∷ [])))
            (place 1000 600_000_000 + 1 - bucket_count)
            bucket_count)
unfolding Google.new_google_breaker new_rolling_window trace
run-streak_between_example =
    Trace.run-streak_between thousandths 503 1000 closed (good ∷ bad ∷ []) 600_000_000 refl
      (omega arith, omega arith, omega arith, (omega arith, omega arith, omega arith, tt))
      (omega arith)

-- Texts, with a time in front of a reason and a newline behind it.
abbrev stamped : ℕ → List ℕ → List ℕ
stamped now reason = now ∷ b' ' ∷ reason

abbrev lines : List (List ℕ) → List ℕ
lines [] = []
lines (l ∷ ls) = l ++ b'\n' ∷ lines ls

abbrev failures : List (ℕ × List ℕ)
failures =
    (1, b'a' ∷ [])
    ∷ (2, b'b' ∷ [])
    ∷ (3, [])
    ∷ (4, [])
    ∷ (5, b'c' ∷ [])
    ∷ (6, [])
    ∷ (7, b'd' ∷ [])
    ∷ []

string-add_each_example :
    string [] lines (add_each [] stamped (new_error_window []) failures)
    ≡ lines (take 5 (last_first [] stamped [] failures))
string-add_each_example = Last.string-add_each [] stamped lines failures
