-- ===== src/Collection/TimingWheel/Fires.antt =====
-- When the timers of core/collection/timingwheel.go run.
use go_zero_update.Common.{
  ℕ, zero, suc, ◌+◌, ◌-◌, ◌<◌, ◌≡◌, ◌≢◌, refl, sym, ap, ◌∙◌, false, List, [], ◌∷◌, ◌++◌, ◌==◌,
  if◌then◌else◌, Option, none, some, Option-cases, replicate, arith, inl, inr, Bool-cases,
}
use go_zero_update.Common.Maps.{Eq, lookup}
use go_zero_update.Common.Store.{mem}
use go_zero_update.Collection.TimingWheel.{TimingWheel, on_tick}
use go_zero_update.Collection.TimingWheel.Slots.{slot}
use go_zero_update.Collection.TimingWheel.Visits.{IsValid}
use go_zero_update.Collection.TimingWheel.Operations.{
  turned, turned-IsValid, slot-AllIn, on_tick-IsValid,
}
use go_zero_update.Collection.TimingWheel.Due.{distance, distance-turn, distance-next, due, runs_of}
use go_zero_update.Collection.TimingWheel.Ticks.{
  left_over, due-at, scan_other, scan-none, scan-Visited,
}

distance-pos : (n t p : ℕ) → t < n → 0 < distance n t p
unfolding distance
distance-pos n t p h = ground arith

module _ {ℓ κ} {K : Type ℓ} {V : Type κ} (eq : Eq K) where
  -- A timer one tick later, and what runs of it at this tick.
  abbrev pub nearer : Option (ℕ × V) → Option (ℕ × V)
  nearer none = none
  nearer (some (n, x)) = if n == 1 then none else some (n - 1, x)

  abbrev pub runs_now : Option (ℕ × V) → List V
  runs_now none = []
  runs_now (some (n, x)) = if n == 1 then x ∷ [] else []

  nearer-suc :
      (n : ℕ) (x : V)
      → (nearer (some (suc n, x)) ≡ (if n == 0 then none else some (n, x)))
        × (runs_now (some (suc n, x)) ≡ (if n == 0 then x ∷ [] else []))
  nearer-suc zero x = (refl, refl)
  nearer-suc (suc n) x =
      let later : (suc (suc n) == 1) ≡ false = ground arith in
      let some_left : (suc n == 0) ≡ false = ground arith in
      let less : suc (suc n) - 1 ≡ suc n = omega arith in
      (rw (later, some_left, less) refl, rw (later, some_left) refl)

  nearer_not_one :
      (n m : ℕ) (x : V)
      → m + 1 ≡ n
      → 0 < m
      → (nearer (some (n, x)) ≡ some (m, x)) × (runs_now (some (n, x)) ≡ [])
  nearer_not_one n m x e h =
      let later : (n == 1) ≡ false = ground arith in
      let less : n - 1 ≡ m = omega arith in (rw (later, less) refl, rw later refl)

  -- On a well-formed wheel a tick brings every timer one tick nearer, and `execute` is called for the timers that are due at
  -- this tick, each once and with its value, and for no others.
  pub on_tick-due :
      (w : TimingWheel K V) (k : K)
      → IsValid eq w
      → (due eq (on_tick eq w).0 k ≡ nearer (due eq w k))
        × (runs_of eq k (on_tick eq w).1 ≡ runs_now (due eq w k))
  unfolding on_tick due
  on_tick-due w k v =
      let w' = turned eq w in
      let v' = turned-IsValid eq w v in
      let js = slot w.slots w'.ticked_pos in
      let d = v'.nodup w'.ticked_pos in
      let a = slot-AllIn eq w' in
      elim (Option-cases (lookup eq k w.timers)) [
        | inl e ↦
            let (gone, quiet) = scan-none eq w' js k v' d a e in
            let none_due : due eq w k ≡ none = rw (due, e) refl in
            (gone ∙ ap nearer (sym none_due), quiet ∙ ap runs_now (sym none_due))
        | inr (t, e) ↦
            let (inside, (there, (same, (alive, small)))) = v.known k t e in
            let was = due-at eq w k t (w.items t.item) e refl in
            let now = due-at eq w' k t (w.items t.item) e refl in
            elim (Bool-cases (t.pos == w'.ticked_pos)) [
              | inl f ↦
                  let here : t.pos ≡ w'.ticked_pos = ground arith in
                  let (next, ran) = scan-Visited eq w' js k t v' d a e here (rw (← here) there) in
                  let one : distance w.num_slots w.ticked_pos t.pos + left_over eq w t
                      ≡ suc (left_over eq w t) =
                    omega (
                      arith,
                      ap (distance w.num_slots w.ticked_pos) here,
                      distance-next w.num_slots w.ticked_pos (v.ticked),
                    ) in
                  let (near, run) = nearer-suc (left_over eq w t) (w.items t.item).value in
                  (
                    next
                        ∙ sym near
                        ∙ ap nearer (sym (was ∙ ap (λ n. some (n, (w.items t.item).value)) one)),
                    ran
                        ∙ sym run
                        ∙ ap runs_now (sym (was ∙ ap (λ n. some (n, (w.items t.item).value)) one)),
                  )
              | inr f ↦
                  let apart : t.pos ≢ w'.ticked_pos = λ s. ground arith in
                  let away : mem t.item js ≡ false =
                    ground (arith, v.live w'.ticked_pos t.item, alive, same, e, f) in
                  let (kept, quiet) = scan_other eq w' js k t v' d a e away in
                  let turn = distance-turn w.num_slots w.ticked_pos t.pos (v.ticked) inside apart in
                  let positive = distance-pos w.num_slots w'.ticked_pos t.pos (v'.ticked) in
                  let (near, run) =
                    nearer_not_one (distance w.num_slots w.ticked_pos t.pos + left_over eq w t)
                      (distance w.num_slots w'.ticked_pos t.pos + left_over eq w t)
                      (w.items t.item).value (omega (arith, turn)) (omega (arith, positive)) in
                  (
                    kept ∙ now ∙ sym near ∙ ap nearer (sym was),
                    quiet ∙ sym run ∙ ap runs_now (sym was),
                  )
            ]
      ]

  -- What runs of a key, tick by tick.
  unfoldable pub ticks_of : ℕ → K → TimingWheel K V → List (List V)
  ticks_of zero k w = []
  ticks_of (suc n) k w = runs_of eq k (on_tick eq w).1 ∷ ticks_of n k (on_tick eq w).0

  ticks_of-none :
      (n : ℕ) (k : K) (w : TimingWheel K V)
      → IsValid eq w
      → due eq w k ≡ none
      → ticks_of n k w ≡ replicate n []
  unfolding ticks_of
  ticks_of-none zero k w v h = refl
  ticks_of-none (suc n) k w v h =
      let (later, quiet) = on_tick-due w k v in
      rw (quiet, h)
        (ap (λ l. [] ∷ l)
          (ticks_of-none n k (on_tick eq w).0 (on_tick-IsValid eq w v) (later ∙ ap nearer h)))

  -- On a well-formed wheel a timer that is `n + 1` ticks away runs at just that tick, once and with its value, if nothing but
  -- ticks happens: it runs at none of the `n` ticks before, and at none of any number of ticks after.
  pub ticks_of-due :
      (n m : ℕ) (k : K) (x : V) (w : TimingWheel K V)
      → IsValid eq w
      → due eq w k ≡ some (suc n, x)
      → ticks_of (n + suc m) k w ≡ replicate n [] ++ (x ∷ []) ∷ replicate m []
  unfolding ticks_of
  ticks_of-due zero m k x w v h =
      let (later, ran) = on_tick-due w k v in
      let count : 0 + suc m ≡ suc m = omega arith in
      rw (count, ran, h)
        (ap (λ l. (x ∷ []) ∷ l)
          (ticks_of-none m k (on_tick eq w).0 (on_tick-IsValid eq w v) (later ∙ ap nearer h)))
  ticks_of-due (suc n) m k x w v h =
      let (later, quiet) = on_tick-due w k v in
      let (near, still) = nearer-suc (suc n) x in
      let count : suc n + suc m ≡ suc (n + suc m) = omega arith in
      let some_left : (suc n == 0) ≡ false = ground arith in
      let at : nearer (due eq w k) ≡ some (suc n, x) = ap nearer h ∙ near ∙ rw some_left refl in
      let nothing : runs_now (due eq w k) ≡ [] = ap runs_now h ∙ still ∙ rw some_left refl in
      rw (count, quiet, nothing)
        (ap (λ l. [] ∷ l)
          (ticks_of-due n m k x (on_tick eq w).0 (on_tick-IsValid eq w v) (later ∙ at)))
