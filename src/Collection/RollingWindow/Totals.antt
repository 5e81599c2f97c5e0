-- ===== src/Collection/RollingWindow/Totals.antt =====
-- A sum over the buckets in view of a rolling window is a sum over the events in view.
use mathlib.Core.List.{foldl}
use go_zero_update.Common.{
  ℕ, zero, suc, ◌+◌, ◌-◌, ◌≤◌, ◌<◌, ◌≡◌, refl, sym, ap, ◌∙◌, true, false, Bool, ◌&&◌, List, [], ltb,
  leb, ◌∷◌, ◌++◌, arith, ◌==◌, if◌then◌else◌, returns,
}
use go_zero_update.Common.Table
use go_zero_update.Common.Table.{table}
use go_zero_update.Collection.RollingWindow.{
  BucketInterface, RollingWindow, new_rolling_window, reduce,
}
use go_zero_update.Collection.RollingWindow.Slots.{slot_of, slot, newest}
use go_zero_update.Collection.RollingWindow.Log
use go_zero_update.Collection.RollingWindow.Log.{Event, add_all, logged, in_view_at}

-- The sum of a measure over buckets.
abbrev pub total {ℓ} : {B : Type ℓ} → (B → ℕ) → List B → ℕ
total f [] = 0
total f (b ∷ bs) = f b + total f bs

pub total-append {ℓ} :
    {B : Type ℓ} (f : B → ℕ) (bs cs : List B) → total f (bs ++ cs) ≡ total f bs + total f cs
total-append f [] cs = omega arith
total-append f (b ∷ bs) cs = omega (arith, total-append f bs cs)

-- The sum of a weight over the logged events whose slots are `s`, ..., `s + n - 1`.
abbrev pub weight_between {ℓ} : {V : Type ℓ} → (ℕ → ℕ) → (V → ℕ) → List (ℕ × V) → ℕ → ℕ → ℕ
weight_between place weight [] s n = 0
weight_between place weight ((t, x) ∷ log) s n =
    (if leb s (place t) && ltb (place t) (s + n) then weight x else 0)
    + weight_between place weight log s n

pub and_false : (b : Bool) → (b && false) ≡ false
and_false true = refl
and_false false = refl

module _ {ℓ κ} {V : Type ℓ} {B : Type κ} (bucket : BucketInterface V B)
    (reset-fresh : (b : B) → bucket.reset b ≡ bucket.fresh) (start interval size : ℕ) (f : B → ℕ)
    (weight : V → ℕ) (f-fresh : f bucket.fresh ≡ 0)
    (f-add : (b : B) (x : V) → f (bucket.add b x) ≡ f b + weight x) where
  abbrev place : ℕ → ℕ
  place = slot_of start interval size

  abbrev bucket_of : List (ℕ × V) → ℕ → B
  bucket_of = slot bucket reset-fresh start interval size

  total-cons :
      (log : List (ℕ × V)) (t : ℕ) (x : V) (s n : ℕ)
      → total f (table (bucket_of ((t, x) ∷ log)) s n)
        ≡ (if leb s (place t) && ltb (place t) (s + n) then weight x else 0)
          + total f (table (bucket_of log) s n)
  unfolding slot
  total-cons log t x s zero = ground arith
  total-cons log t x s (suc n) =
      ground (arith, total-cons log t x (s + 1) n, f-add (bucket_of log s) x)

  total-nil : (s n : ℕ) → total f (table (bucket_of []) s n) ≡ 0
  unfolding slot
  total-nil s zero = refl
  total-nil s (suc n) = omega (arith, f-fresh, total-nil (s + 1) n)

  pub total-weight_between :
      (log : List (ℕ × V)) (s n : ℕ)
      → total f (table (bucket_of log) s n) ≡ weight_between place weight log s n
  total-weight_between [] s n = total-nil s n
  total-weight_between ((t, x) ∷ log) s n =
      total-cons log t x s n
      ∙ ap (λ k. (if leb s (place t) && ltb (place t) (s + n) then weight x else 0) + k)
          (total-weight_between log s n)

  pub total-none :
      (log : List (ℕ × V)) (s n : ℕ)
      → ((j : ℕ) → s ≤ j → bucket_of log j ≡ bucket.fresh)
      → total f (table (bucket_of log) s n) ≡ 0
  total-none log s zero h = refl
  total-none log s (suc n) h = omega (
    arith,
    f-fresh,
    ap f (h s (omega arith)),
    total-none log (s + 1) n (λ j p. h j (omega arith)),
  )

  -- Where no event is later than slot `c`, the slots after `c` add nothing.
  total-in_view :
      (log : List (ℕ × V)) (now c : ℕ)
      → c ≡ newest bucket reset-fresh start interval size log
      → c ≤ place now
      → ((j : ℕ) → c < j → bucket_of log j ≡ bucket.fresh)
      → total f (in_view_at bucket reset-fresh start interval size false log now)
        ≡ weight_between place weight log (place now + 1 - size) size
  unfolding in_view_at
  total-in_view log now c e h later =
      let t = place now in
      let s = t + 1 - size in
      let n = c + size - t in
      let split : n + (size - n) ≡ size = omega arith in
      let late = total-none log (s + n) (size - n) (λ j p. later j (omega arith)) in
      rw (and_false (t == newest bucket reset-fresh start interval size log)) (
        ap (λ k. total f (table (bucket_of log) s (k + size - t))) (sym e)
        ∙ parts log s n (size - n) late
        ∙ ap (λ k. total f (table (bucket_of log) s k)) split
        ∙ total-weight_between log s size)
    where
      parts :
          (l : List (ℕ × V)) (s m n : ℕ)
          → total f (table (bucket_of l) (s + m) n) ≡ 0
          → total f (table (bucket_of l) s m) ≡ total f (table (bucket_of l) s (m + n))
      parts l s m n z = omega (
        arith,
        z,
        ap (total f) (Table.table-add (bucket_of l) s m n),
        total-append f (table (bucket_of l) s m) (table (bucket_of l) (s + m) n),
      )

  -- A fold that adds the measure of each bucket to a part of its state.
  foldl-total {σ} :
      {S : Type σ} (fn : S → B → S) (g : S → ℕ)
      → ((s : S) (b : B) → g (fn s b) ≡ g s + f b)
      → (s : S) (bs : List B) → g (foldl fn s bs) ≡ g s + total f bs
  foldl-total fn g h s [] = omega arith
  foldl-total fn g h s (b ∷ bs) = omega (arith, foldl-total fn g h (fn s b) bs, h s b)

  -- What a `reduce` that adds up a measure finds, after any run: the weights of the events of the
  -- last `size` slots.
  pub reduce-weight_between {σ} :
      {S : Type σ} (w : RollingWindow B)
      (events : List (Event bucket reset-fresh start interval size)) (now : ℕ) (fn : S → B → S)
      (g : S → ℕ) (s : S)
      → 0 < interval
      → new_rolling_window bucket size interval false start ≡ returns w
      → Log.Timely bucket reset-fresh start interval size start events
      → Log.last_reading bucket reset-fresh start interval size start events ≤ now
      → ((r : S) (b : B) → g (fn r b) ≡ g r + f b)
      → g (reduce bucket (add_all bucket reset-fresh start interval size w events) now fn s)
        ≡ g s
          + weight_between place weight
              (logged bucket reset-fresh start interval size [] events)
              (place now + 1 - size)
              size
  reduce-weight_between w events now fn g s p e t q h =
      let log = logged bucket reset-fresh start interval size [] events in
      let (tracks, late) =
        Log.run-Tracks bucket reset-fresh start interval size false w events now p e t q in
      ap g
        (Log.reduce-add_all bucket reset-fresh start interval size false w events now fn s p e t q)
      ∙ foldl-total fn g h s (in_view_at bucket reset-fresh start interval size false log now)
      ∙ ap (λ k. g s + k) (total-in_view log now _ refl (omega (arith, late)) (tracks.none_later))
