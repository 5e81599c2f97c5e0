-- ===== src/Breaker/Bucket.antt =====
-- core/breaker/bucket.go: the counts of one interval. The counters are int64 in Go: a bucket counts
-- the calls of a quarter of a second, which are far from 2 ^ 63.
use go_zero_update.Common.{ℕ, ◌+◌, ◌≡◌, refl, ◌==◌, if◌then◌else◌, arith}
use go_zero_update.Collection.RollingWindow.{BucketInterface}

-- The constants `success`, `fail` and `drop`.
abbrev pub success_mark : ℕ
success_mark = 0

abbrev pub fail_mark : ℕ
fail_mark = 1

abbrev pub drop_mark : ℕ
drop_mark = 2

pub record Bucket : Type 0 where
  pub sum : ℕ
  pub success : ℕ
  pub failure : ℕ
  pub drop : ℕ

abbrev pub zero_bucket : Bucket
zero_bucket = record { sum = 0; success = 0; failure = 0; drop = 0 }

-- The methods `drop`, `fail` and `succeed`.
unfoldable pub drop_one : Bucket → Bucket
drop_one b = record b { sum = b.sum + 1; drop = b.drop + 1 }

unfoldable pub fail_one : Bucket → Bucket
fail_one b = record b { sum = b.sum + 1; failure = b.failure + 1 }

unfoldable pub succeed_one : Bucket → Bucket
succeed_one b = record b { sum = b.sum + 1; success = b.success + 1 }

unfoldable pub add : Bucket → ℕ → Bucket
unfolding drop_one fail_one succeed_one
add b v =
    if v == fail_mark then fail_one b else if v == drop_mark then drop_one b else succeed_one b

unfoldable pub reset : Bucket → Bucket
reset b = record b { sum = 0; success = 0; failure = 0; drop = 0 }

-- What the breaker hands to its rolling window: `new(bucket)` and the two methods.
abbrev pub buckets : BucketInterface ℕ Bucket
buckets = record { fresh = zero_bucket; add = add; reset = reset }

pub reset-fresh : (b : Bucket) → reset b ≡ zero_bucket
unfolding reset
reset-fresh b = refl

-- Every event is counted once.
pub Balanced : Bucket → Type 0
Balanced b = b.sum ≡ b.success + b.failure + b.drop

pub add-Balanced : (b : Bucket) (v : ℕ) → Balanced b → Balanced (add b v)
unfolding add Balanced
add-Balanced b v h = ground arith
