-- ===== src/Breaker/ErrorWindow.antt =====
-- core/breaker/breaker.go: the window of the last reasons of failure. `fmt.Sprintf` and `strings.Join`,
-- with the formats that the code gives them, are the parameters `format` and `join`.
pub mod Last
use Prim.Native.Nat.{min}
use go_zero_update.Common.{ℕ, zero, suc, ◌+◌, ◌-◌, ◌%◌, List, [], ◌∷◌, get_or, set, replicate}

abbrev pub num_history_reasons : ℕ
num_history_reasons = 5

-- `errorWindow`, without its lock.
pub record ErrorWindow {ℓ} (R : Type ℓ) : Type ℓ where
  pub reasons : List R
  pub index : ℕ
  pub count : ℕ

module _ {ℓ} {R : Type ℓ} (empty : R) where
  -- `new(errorWindow)`, with the empty text in each place.
  unfoldable pub new_error_window : ErrorWindow R
  new_error_window = record { reasons = replicate num_history_reasons empty; index = 0; count = 0 }

  -- The loop of `String`, with the rounds left; `i` is the counter of the code plus the number of
  -- places, so that it does not fall below 0.
  unfoldable pub collect_reasons : List R → ℕ → ℕ → List R
  collect_reasons reasons zero i = []
  collect_reasons reasons (suc rounds) i =
      get_or reasons (i % num_history_reasons) empty ∷ collect_reasons reasons rounds (i - 1)

module _ {ℓ κ} {R : Type ℓ} {T : Type κ} (format : T → R → R) where
  -- `add` at the time `now`.
  unfoldable pub add : ErrorWindow R → T → R → ErrorWindow R
  add w now reason = record {
    reasons = set w.reasons w.index (format now reason);
    index = (w.index + 1) % num_history_reasons;
    count = min (w.count + 1) num_history_reasons;
  }

module _ {ℓ} {R : Type ℓ} (empty : R) (join : List R → R) where
  -- `String`.
  unfoldable pub string : ErrorWindow R → R
  string w = join (collect_reasons empty w.reasons w.count (w.index + num_history_reasons - 1))
