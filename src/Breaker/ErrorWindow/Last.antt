-- ===== src/Breaker/ErrorWindow/Last.antt =====
-- The error window of core/breaker/breaker.go reports the last five reasons.
use Prim.Native.Nat.{min}
use go_zero_update.Common.{
  ℕ, zero, suc, ◌+◌, ◌-◌, ◌<◌, ◌≤◌, ◌%◌, ◌≡◌, ◌≢◌, refl, sym, ap, ◌∙◌, List, [], ◌∷◌, take, length,
  get_or, set, arith, length-set, get_or-set_self, get_or-set_ne, inl, inr, Bool-cases, ltb,
}
use go_zero_update.Breaker.ErrorWindow.{
  num_history_reasons, ErrorWindow, new_error_window, collect_reasons, add, string,
}

take-take {ℓ} : {R : Type ℓ} → (m n : ℕ) (xs : List R) → m ≤ n → take m (take n xs) ≡ take m xs
take-take zero n xs h = refl
take-take (suc m) zero xs h = absurd (omega arith)
take-take (suc m) (suc n) [] h = refl
take-take (suc m) (suc n) (x ∷ xs) h = ap (λ l. x ∷ l) (take-take m n xs (omega arith))

module _ {ℓ} {R : Type ℓ} (empty : R) where
  -- The reasons that the window reports.
  reported : ErrorWindow R → List R
  reported w = collect_reasons empty w.reasons w.count (w.index + num_history_reasons - 1)

  -- The reads of the loop stay away from the place that is written.
  collect_reasons-set :
      (xs : List R) (i : ℕ) (x : R) (n j : ℕ)
      → i < 5
      → i + n ≤ j
      → j < i + 5
      → collect_reasons empty (set xs i x) n j ≡ collect_reasons empty xs n j
  unfolding collect_reasons
  collect_reasons-set xs i x zero j a b c = refl
  collect_reasons-set xs i x (suc n) j a b c =
      let apart : i ≢ j % 5 = λ e. omega (arith, e) in
      rw
        (
          get_or-set_ne xs i (j % 5) x empty apart,
          collect_reasons-set xs i x n (j - 1) a (omega arith) (omega arith),
        )
        refl

  collect_reasons-later :
      (xs : List R) (n j : ℕ)
      → n ≤ j + 1
      → collect_reasons empty xs n (j + 5) ≡ collect_reasons empty xs n j
  unfolding collect_reasons
  collect_reasons-later xs zero j h = refl
  collect_reasons-later xs (suc zero) j h =
      let here : (j + 5) % 5 ≡ j % 5 = omega arith in rw here refl
  collect_reasons-later xs (suc (suc n)) j h =
      let here : (j + 5) % 5 ≡ j % 5 = omega arith in
      let next : j + 5 - 1 ≡ j - 1 + 5 = omega arith in
      rw (here, next, collect_reasons-later xs (suc n) (j - 1) (omega arith)) refl

  take-collect_reasons :
      (xs : List R) (m n j : ℕ)
      → take m (collect_reasons empty xs n j) ≡ collect_reasons empty xs (min m n) j
  unfolding collect_reasons
  take-collect_reasons xs zero n j = let none_left : min 0 n ≡ 0 = omega arith in rw none_left refl
  take-collect_reasons xs (suc m) zero j =
      let none_left : min (suc m) 0 ≡ 0 = omega arith in rw none_left refl
  take-collect_reasons xs (suc m) (suc n) j =
      let less : min (suc m) (suc n) ≡ suc (min m n) = omega arith in
      rw less (ap (λ l. get_or xs (j % 5) empty ∷ l) (take-collect_reasons xs m n (j - 1)))

  IsValid : ErrorWindow R → Type 0
  IsValid w =
      (length w.reasons ≡ num_history_reasons)
      × ((w.index < num_history_reasons) × (w.count ≤ num_history_reasons))

  -- Where the loop begins after a write.
  collect_reasons-turn :
      (xs : List R) (i n : ℕ)
      → i < 5
      → n ≤ 5
      → collect_reasons empty xs n ((i + 1) % 5 + 5 - 1) ≡ collect_reasons empty xs n (i + 5)
  collect_reasons-turn xs i n a b = elim (Bool-cases (ltb i 4)) [
    | inl e ↦
        let onward : (i + 1) % 5 + 5 - 1 ≡ i + 5 = ground arith in
        ap (λ j. collect_reasons empty xs n j) onward
    | inr e ↦
        let first : (i + 1) % 5 + 5 - 1 ≡ 4 = ground arith in
        let last : i + 5 ≡ 4 + 5 = ground arith in
        rw (first, last) (sym (collect_reasons-later xs n 4 b))
  ]

  -- The place that is written is read first.
  collect_reasons-written :
      (xs : List R) (i : ℕ) (x : R) (n : ℕ)
      → i < 5
      → n ≤ 4
      → length xs ≡ 5
      → collect_reasons empty (set xs i x) (suc n) ((i + 1) % 5 + 5 - 1)
        ≡ x ∷ collect_reasons empty xs n (i + 5 - 1)
  unfolding collect_reasons
  collect_reasons-written xs i x n a b c =
      let place : (i + 5) % 5 ≡ i = omega (arith, a) in
      collect_reasons-turn (set xs i x) i (suc n) a (omega (arith, b))
      ∙ rw
          (
            place,
            get_or-set_self xs i x empty (omega (arith, a, c)),
            collect_reasons-set xs i x n (i + 5 - 1) a (omega (arith, b)) (omega arith),
          )
          refl

  module _ {κ} {T : Type κ} (format : T → R → R) where
    add-IsValid :
        (w : ErrorWindow R) (now : T) (reason : R) → IsValid w → IsValid (add format w now reason)
    unfolding add IsValid
    add-IsValid w now reason (a, (b, c)) =
        (length-set w.reasons w.index (format now reason) ∙ a, (omega arith, omega arith))

    add-reported :
        (w : ErrorWindow R) (now : T) (reason : R)
        → IsValid w
        → reported (add format w now reason) ≡ take 5 (format now reason ∷ reported w)
    unfolding add IsValid reported
    add-reported w now reason (a, (b, c)) =
        let x = format now reason in
        let more : min (w.count + 1) 5 ≡ suc (min 4 w.count) = omega (arith, c) in
        rw more (collect_reasons-written w.reasons w.index x (min 4 w.count) b (omega arith) a)
        ∙ ap (λ l. x ∷ l) (sym (take-collect_reasons w.reasons 4 w.count (w.index + 5 - 1)))

    abbrev pub add_each : ErrorWindow R → List (T × R) → ErrorWindow R
    add_each w [] = w
    add_each w ((now, reason) ∷ calls) = add_each (add format w now reason) calls

    -- All reasons with their times, the last first.
    abbrev pub last_first : List R → List (T × R) → List R
    last_first log [] = log
    last_first log ((now, reason) ∷ calls) = last_first (format now reason ∷ log) calls

    add_each-reported :
        (w : ErrorWindow R) (log : List R) (calls : List (T × R))
        → IsValid w
        → reported w ≡ take 5 log
        → reported (add_each w calls) ≡ take 5 (last_first log calls)
    add_each-reported w log [] h e = e
    add_each-reported w log ((now, reason) ∷ calls) h e =
        add_each-reported (add format w now reason) (format now reason ∷ log) calls
          (add-IsValid w now reason h)
          (add-reported w now reason h
            ∙ ap (λ l. take 5 (format now reason ∷ l)) e
            ∙ ap (λ l. format now reason ∷ l) (take-take 4 5 log (omega arith)))

    -- After any calls of `add` on a new error window `String` joins the last five reasons with their
    -- times, the last first, or all of them if there are fewer.
    pub string-add_each :
        (join : List R → R) (calls : List (T × R))
        → string empty join (add_each (new_error_window empty) calls)
          ≡ join (take 5 (last_first [] calls))
    unfolding string new_error_window IsValid reported collect_reasons
    string-add_each join calls = ap join (
        add_each-reported (new_error_window empty) [] calls (refl, (omega arith, omega arith)) refl)
