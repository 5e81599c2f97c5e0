-- ===== src/Collection/TimingWheel/Due.antt =====
-- How many ticks of the wheel of core/collection/timingwheel.go a timer is away, and what a tick does.
use go_zero_update.Common.{
  ℕ, ◌+◌, ◌-◌, ◌*◌, ◌%◌, ◌<◌, ◌≡◌, ◌≢◌, refl, ap, true, false, List, [], ◌∷◌, ◌++◌, ◌==◌,
  if◌then◌else◌, ltb, Option, none, some, arith, inl, inr, Bool-cases, mod-eq_of_lt,
}
use go_zero_update.Common.Maps.{Eq, lookup, lookup-store, lookup-delete}
use go_zero_update.Common.Store.{mem}
use go_zero_update.Collection.TimingWheel.{Position, TimingWheel, visit}
use go_zero_update.Collection.TimingWheel.Slots.{slot}
use go_zero_update.Collection.TimingWheel.Visits.{IsValid}

-- The ticks until the wheel comes to a slot: 1 for the next one, and all slots for the current one.
unfoldable pub distance : ℕ → ℕ → ℕ → ℕ
distance num_slots ticked p = if ltb ticked p then p - ticked else p + num_slots - ticked

-- `%` of a number below twice the modulus.
pub mod_once : (a n : ℕ) → a < n + n → a % n ≡ (if ltb a n then a else a - n)
mod_once a n h = elim (Bool-cases (ltb a n)) [
  | inl e ↦ rw e (mod-eq_of_lt (ground arith))
  | inr e ↦ let over : a ≡ (a - n) + n = ground arith in rw e (grind (arith, over))
]

pub distance_self : (n t : ℕ) → t < n → distance n t t ≡ n
unfolding distance
distance_self n t h = ground arith

pub distance-ahead : (n t d : ℕ) → t < n → 0 < d → d < n → distance n t ((t + d) % n) ≡ d
unfolding distance
distance-ahead n t d h f g = ground (arith, mod_once (t + d) n)

pub distance-turn :
    (n t p : ℕ) → t < n → p < n → p ≢ (t + 1) % n → distance n ((t + 1) % n) p + 1 ≡ distance n t p
unfolding distance
distance-turn n t p h f g = ground (arith, mod_once (t + 1) n)

pub distance-next : (n t : ℕ) → t < n → distance n t ((t + 1) % n) ≡ 1
unfolding distance
distance-next n t h = ground (arith, mod_once (t + 1) n)

-- The ticks until a task runs.
abbrev pub ticks_left {ℓ κ} : {K : Type ℓ} {V : Type κ} → TimingWheel K V → Position → ℕ
ticks_left w t =
    distance w.num_slots w.ticked_pos t.pos
    + ((w.items t.item).circle * w.num_slots + (w.items t.item).diff)

module _ {ℓ κ} {K : Type ℓ} {V : Type κ} (eq : Eq K) where
  -- When the timer of a key is due, and with which value.
  unfoldable pub due : TimingWheel K V → K → Option (ℕ × V)
  due w k = elim (lookup eq k w.timers) [
    | none ↦ none
    | some t ↦ some (ticks_left w t, (w.items t.item).value)
  ]

  -- The values that the calls of `execute` have for a key.
  unfoldable pub runs_of : K → List (K × V) → List V
  runs_of k [] = []
  runs_of k ((j, v) ∷ tasks) = if eq.beq j k then v ∷ runs_of k tasks else runs_of k tasks

  pub runs_of-append :
      (k : K) (a b : List (K × V)) → runs_of k (a ++ b) ≡ runs_of k a ++ runs_of k b
  unfolding runs_of
  runs_of-append k [] b = refl
  runs_of-append k ((j, v) ∷ a) b = ground (arith, runs_of-append k a b)

  -- A visit of another task.
  pub visit_other :
      (w : TimingWheel K V) (i : ℕ) (k : K) (t : Position)
      → IsValid eq w
      → mem i (slot w.slots w.ticked_pos) ≡ true
      → lookup eq k w.timers ≡ some t
      → (i == t.item) ≡ false
      → (lookup eq k (visit eq w i).0.timers ≡ some t)
        × (((visit eq w i).0.items t.item ≡ w.items t.item) × (runs_of k (visit eq w i).1 ≡ []))
  unfolding visit runs_of
  visit_other w i k t v m h apart =
      let p = (w.ticked_pos + (w.items i).diff) % w.num_slots in
      let away : (w.items i).removed ≡ false → eq.beq (w.items i).key k ≡ false = λ r. ground (
        arith,
        v.live w.ticked_pos i m r,
        h,
        apart,
        eq.beq_iff (w.items i).key k,
        ap (λ j. lookup eq j w.timers),
      ) in
      elim (Bool-cases ((w.items i).removed)) [
        | inl e ↦ rw e (h, (refl, refl))
        | inr e ↦
            let other = away e in
            (
              ground (
                arith,
                e,
                h,
                other,
                lookup-store eq (w.items i).key k (record { pos = p; item = i }) w.timers,
                lookup-delete eq (w.items i).key k w.timers,
              ),
              (ground (arith, apart, e), ground (arith, other, e)),
            )
      ]

  -- A visit does not make a timer.
  pub visit-none :
      (w : TimingWheel K V) (i : ℕ) (k : K)
      → IsValid eq w
      → mem i (slot w.slots w.ticked_pos) ≡ true
      → lookup eq k w.timers ≡ none
      → (lookup eq k (visit eq w i).0.timers ≡ none) × (runs_of k (visit eq w i).1 ≡ [])
  unfolding visit runs_of
  visit-none w i k v m h = elim (Bool-cases ((w.items i).removed)) [
    | inl e ↦ rw e (h, refl)
    | inr e ↦
        let p = (w.ticked_pos + (w.items i).diff) % w.num_slots in
        let other : eq.beq (w.items i).key k ≡ false = ground (
          arith,
          v.live w.ticked_pos i m e,
          h,
          eq.beq_iff (w.items i).key k,
          ap (λ j. lookup eq j w.timers),
        ) in
        (
          ground (
            arith,
            e,
            h,
            other,
            lookup-store eq (w.items i).key k (record { pos = p; item = i }) w.timers,
            lookup-delete eq (w.items i).key k w.timers,
          ),
          ground (arith, other, e),
        )
  ]
