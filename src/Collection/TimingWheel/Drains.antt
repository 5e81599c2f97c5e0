-- ===== src/Collection/TimingWheel/Drains.antt =====
-- `drainAll` of core/collection/timingwheel.go.
use go_zero_update.Common.{
  ℕ, zero, suc, ◌≡◌, refl, sym, ap, ◌∙◌, Bool, true, false, ◌&&◌, not, List, [], ◌∷◌, ◌++◌, ◌==◌,
  Option, none, some, Option-cases, append-nil, arith, inl, inr, Bool-cases,
}
use go_zero_update.Common.Maps.{Eq, lookup}
use go_zero_update.Common.Store.{mem, Nodup}
use go_zero_update.Collection.TimingWheel.{Entry, TimingWheel, drain_slot, drain_slots, drain_all}
use go_zero_update.Collection.TimingWheel.Slots.{slot}
use go_zero_update.Collection.TimingWheel.Visits.{IsValid}
use go_zero_update.Collection.TimingWheel.Due.{due, runs_of, runs_of-append}

module _ {ℓ κ} {K : Type ℓ} {V : Type κ} (eq : Eq K) (items : ℕ → Entry K V) (k : K) where
  -- A task that runs for the key.
  abbrev pub of_key : ℕ → Bool
  of_key i = not (items i).removed && eq.beq (items i).key k

  pub drain_slot-none :
      (l : List ℕ)
      → ((i : ℕ) → mem i l ≡ true → of_key i ≡ false)
      → runs_of eq k (drain_slot eq items l) ≡ []
  unfolding drain_slot runs_of mem
  drain_slot-none [] h = refl
  drain_slot-none (i ∷ l) h =
      ground (arith, drain_slot-none l (λ j m. h j (ground (arith, m))), h i (ground arith))

  pub drain_slot-one :
      (l : List ℕ) (i : ℕ)
      → Nodup l
      → mem i l ≡ true
      → of_key i ≡ true
      → ((j : ℕ) → mem j l ≡ true → of_key j ≡ true → j ≡ i)
      → runs_of eq k (drain_slot eq items l) ≡ (items i).value ∷ []
  unfolding drain_slot runs_of mem
  drain_slot-one [] i d m o h = absurd (ground (arith, m))
  drain_slot-one (j ∷ l) i (d, ds) m o h = elim (Bool-cases (j == i)) [
    | inl e ↦
        let same : j ≡ i = ground arith in
        let others : (n : ℕ) → mem n l ≡ true → of_key n ≡ false = λ n a.
          elim (Bool-cases (of_key n)) [
            | inl f ↦ absurd (ground (arith, h n (ground (arith, a)) f, same, d, a))
            | inr f ↦ f
          ] in
        ground (arith, o, drain_slot-none l others, ap items same)
    | inr e ↦
        let away : of_key j ≡ false = elim (Bool-cases (of_key j)) [
          | inl f ↦ absurd (ground (arith, h j (ground arith) f, e))
          | inr f ↦ f
        ] in
        ground (
          arith,
          away,
          drain_slot-one l i ds (ground (arith, m, e)) o (λ n a f. h n (ground (arith, a)) f),
        )
  ]

  pub drain_slots-none :
      (ls : List (List ℕ))
      → ((q i : ℕ) → mem i (slot ls q) ≡ true → of_key i ≡ false)
      → runs_of eq k (drain_slots eq items ls) ≡ []
  unfolding drain_slots runs_of
  drain_slots-none [] h = refl
  drain_slots-none (l ∷ ls) h = ground (
    arith,
    runs_of-append eq k (drain_slot eq items l) (drain_slots eq items ls),
    drain_slot-none l (h 0),
    drain_slots-none ls (λ q. h (suc q)),
  )

  pub drain_slots-one :
      (ls : List (List ℕ)) (p i : ℕ)
      → ((q : ℕ) → Nodup (slot ls q))
      → mem i (slot ls p) ≡ true
      → of_key i ≡ true
      → ((q j : ℕ) → mem j (slot ls q) ≡ true → of_key j ≡ true → (q ≡ p) × (j ≡ i))
      → runs_of eq k (drain_slots eq items ls) ≡ (items i).value ∷ []
  unfolding drain_slots mem
  drain_slots-one [] p i d m o h = absurd (ground (arith, m))
  drain_slots-one (l ∷ ls) zero i d m o h =
      let quiet : runs_of eq k (drain_slots eq items ls) ≡ [] = drain_slots-none ls (λ q j a.
        elim (Bool-cases (of_key j)) [
          | inl f ↦ absurd (ground (arith, (h (suc q) j a f).0))
          | inr f ↦ f
        ]) in
      runs_of-append eq k (drain_slot eq items l) (drain_slots eq items ls)
      ∙ ap (λ a. runs_of eq k (drain_slot eq items l) ++ a) quiet
      ∙ append-nil (runs_of eq k (drain_slot eq items l))
      ∙ drain_slot-one l i (d 0) m o (λ j a f. (h 0 j a f).1)
  drain_slots-one (l ∷ ls) (suc p) i d m o h =
      let quiet : runs_of eq k (drain_slot eq items l) ≡ [] = drain_slot-none l (λ j a.
        elim (Bool-cases (of_key j)) [
          | inl f ↦ absurd (ground (arith, (h 0 j a f).0))
          | inr f ↦ f
        ]) in
      runs_of-append eq k (drain_slot eq items l) (drain_slots eq items ls)
      ∙ ap (λ a. a ++ runs_of eq k (drain_slots eq items ls)) quiet
      ∙ drain_slots-one ls p i (λ q. d (suc q)) m o
          (λ q j a f. let (far, same) = h (suc q) j a f in (ground (arith, far), same))

module _ {ℓ κ} {K : Type ℓ} {V : Type κ} (eq : Eq K) where
  -- The value of the timer of a key, if it has one.
  abbrev pub value_of : Option (ℕ × V) → List V
  value_of none = []
  value_of (some (n, x)) = x ∷ []

  -- A drain of a well-formed wheel runs the timer of every key that has one, once and with its value,
  -- and nothing for the other keys.
  pub drain_all-due :
      (w : TimingWheel K V) (k : K)
      → IsValid eq w
      → runs_of eq k (drain_all eq w).1 ≡ value_of (due eq w k)
  unfolding drain_all due
  drain_all-due w k v = elim (Option-cases (lookup eq k w.timers)) [
    | inl e ↦
        rw (due, e)
          (drain_slots-none eq w.items k w.slots (λ q i m.
            elim (Bool-cases (of_key eq w.items k i)) [
              | inl f ↦ absurd (
                  ground (
                    arith,
                    v.live q i m (ground (arith, f)),
                    e,
                    eq.beq_iff (w.items i).key k,
                    f,
                    ap (λ j. lookup eq j w.timers),
                  ))
              | inr f ↦ f
            ]))
    | inr (t, e) ↦
        let (_, (there, (same, (alive, _)))) = v.known k t e in
        rw (due, e)
          (drain_slots-one eq w.items k w.slots t.pos t.item v.nodup there
            (ground (arith, alive, same, eq.beq_iff (w.items t.item).key k))
            (λ q j m f.
              let at : some (record { pos = q; item = j }) ≡ some t =
                sym (v.live q j m (ground (arith, f)))
                ∙ ap (λ i. lookup eq i w.timers) (ground (arith, f, eq.beq_iff (w.items j).key k))
                ∙ e in
              (cc at, cc at)))
  ]
