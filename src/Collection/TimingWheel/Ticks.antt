-- ===== src/Collection/TimingWheel/Ticks.antt =====
-- A tick of the wheel of core/collection/timingwheel.go brings every timer one tick nearer, and runs
-- those that are due.
use go_zero_update.Common.{
  ℕ, zero, suc, ◌+◌, ◌-◌, ◌*◌, ◌%◌, ◌<◌, ◌≡◌, refl, sym, ap, ◌∙◌, true, false, List, [], ◌∷◌, ◌==◌,
  if◌then◌else◌, ltb, Option, none, some, arith, inl, inr, Bool-cases,
}
use native.Mathlib.Nat.{zero-mul}
use mathlib.Core.List.{append-nil}
use go_zero_update.Common.Maps.{Eq, lookup, store, delete, lookup-store, lookup-delete}
use go_zero_update.Common.Store.{write, mem, Nodup}
use go_zero_update.Collection.TimingWheel.{
  Entry, Position, TimingWheel, push_slot, remove_slot, visit, scan,
}
use go_zero_update.Collection.TimingWheel.Visits.{IsValid}
use go_zero_update.Collection.TimingWheel.Operations.{
  visit-IsValid, visit-AllIn, AllIn, visit-num_slots, visit-ticked_pos,
}
use go_zero_update.Collection.TimingWheel.Due.{
  distance, distance_self, distance-ahead, due, runs_of, runs_of-append, visit_other, visit-none,
}

pub circle_sum : (c n d : ℕ) → 0 < c → n + ((c - 1) * n + d) ≡ c * n + d
circle_sum zero n d h = absurd (omega arith)
circle_sum (suc c) n d h = grind arith

circle_pos : (c n d : ℕ) → 0 < c → 0 < n → 0 < c * n + d
circle_pos c n d h f = grind arith

module _ {ℓ κ} {K : Type ℓ} {V : Type κ} (eq : Eq K) where
  -- The ticks that are left of a task, when the wheel has come to its slot.
  abbrev pub left_over : TimingWheel K V → Position → ℕ
  left_over w t = (w.items t.item).circle * w.num_slots + (w.items t.item).diff

  -- What the visit of its task does to a timer.
  abbrev pub Visited : ℕ → V → K → TimingWheel K V × List (K × V) → Type κ
  Visited n x k r =
      (due eq r.0 k ≡ (if n == 0 then none else some (n, x)))
      × (runs_of eq k r.1 ≡ (if n == 0 then x ∷ [] else []))

  pub due-at :
      (w : TimingWheel K V) (k : K) (t : Position) (e : Entry K V)
      → lookup eq k w.timers ≡ some t
      → w.items t.item ≡ e
      → due eq w k
        ≡ some
            (distance w.num_slots w.ticked_pos t.pos + (e.circle * w.num_slots + e.diff), e.value)
  unfolding due
  due-at w k t e h f = rw (due, h, f) refl

  pub due-none : (w : TimingWheel K V) (k : K) → lookup eq k w.timers ≡ none → due eq w k ≡ none
  unfolding due
  due-none w k h = rw (due, h) refl

  -- Nothing of the table counts for a key but its entry.
  pub due-timers :
      (w : TimingWheel K V) (timers : List (K × Position)) (k : K)
      → lookup eq k timers ≡ lookup eq k w.timers
      → due eq (record w { timers = timers }) k ≡ due eq w k
  unfolding due
  due-timers w timers k h = rw (due, h) refl

  visit-Visited :
      (w : TimingWheel K V) (k : K) (t : Position)
      → IsValid eq w
      → lookup eq k w.timers ≡ some t
      → t.pos ≡ w.ticked_pos
      → Visited (left_over w t) (w.items t.item).value k (visit eq w t.item)
  unfolding visit due runs_of
  visit-Visited w k t v h here =
      let (inside, (there, (same, (alive, small)))) = v.known k t h in
      let e = w.items t.item in
      let is : eq.beq e.key k ≡ true = (eq.beq_iff e.key k).1 same in
      let n = w.num_slots in
      let itself : (t.item == t.item) ≡ true = ground arith in
      let p = (w.ticked_pos + e.diff) % n in
      elim (Bool-cases (ltb 0 e.circle)) [
        | inl f ↦
            let some_left : (left_over w t == 0) ≡ false =
              ground (arith, f, circle_pos e.circle n e.diff, v.some_slot) in
            let sum : distance n w.ticked_pos t.pos + ((e.circle - 1) * n + e.diff)
                ≡ left_over w t =
              ground (
                arith,
                f,
                here,
                circle_sum e.circle n e.diff,
                distance_self n w.ticked_pos (v.ticked),
              ) in
            (
              rw (alive, f, some_left)
                  (due-at
                      (record w {
                        items =
                            write w.items t.item
                              (record e { circle = e.circle - 1; removed = false });
                      })
                      k t (record e { circle = e.circle - 1; removed = false }) h (rw itself refl)
                    ∙ ap (λ m. some (m, e.value)) sum),
              rw (alive, f, some_left) refl,
            )
        | inr f ↦
            let flat : e.circle * n ≡ 0 = ground (arith, f, ap (λ c. c * n), zero-mul n) in
            elim (Bool-cases (ltb 0 e.diff)) [
              | inl g ↦
                  let some_left : (left_over w t == 0) ≡ false = ground (arith, g) in
                  let moved : lookup eq k
                        (store eq e.key (record { pos = p; item = t.item }) w.timers)
                      ≡ some (record { pos = p; item = t.item }) =
                    lookup-store eq e.key k (record { pos = p; item = t.item }) w.timers
                    ∙ rw is refl in
                  let sum : distance n w.ticked_pos p + (e.circle * n + 0) ≡ left_over w t =
                    ground (
                      arith,
                      flat,
                      distance-ahead n w.ticked_pos e.diff (v.ticked) (ground arith) small,
                    ) in
                  (
                    rw (alive, f, g, some_left)
                        (due-at
                            (record w {
                              slots = push_slot (remove_slot w.slots w.ticked_pos t.item) p t.item;
                              timers = store eq e.key (record { pos = p; item = t.item }) w.timers;
                              items = write w.items t.item (record e { diff = 0; removed = false });
                            })
                            k (record { pos = p; item = t.item })
                            (record e { diff = 0; removed = false }) moved (rw itself refl)
                          ∙ ap (λ m. some (m, e.value)) sum),
                    rw (alive, f, g, some_left) refl,
                  )
              | inr g ↦
                  let none_left : (left_over w t == 0) ≡ true = ground (arith, g, flat) in
                  let gone : lookup eq k (delete eq e.key w.timers) ≡ none =
                    lookup-delete eq e.key k w.timers ∙ rw is refl in
                  (
                    rw (alive, f, g, none_left) (rw (due, gone) refl),
                    rw (alive, f, g, none_left, is) refl,
                  )
            ]
      ]

  due-lookup :
      (w w' : TimingWheel K V) (k : K) (t : Position)
      → lookup eq k w.timers ≡ some t
      → lookup eq k w'.timers ≡ some t
      → w'.items t.item ≡ w.items t.item
      → w'.num_slots ≡ w.num_slots
      → w'.ticked_pos ≡ w.ticked_pos
      → due eq w' k ≡ due eq w k
  unfolding due
  due-lookup w w' k t h h' e n p = rw (due, h, h', e, n, p) refl

  -- The tasks behind leave a timer alone.
  pub scan_other :
      (w : TimingWheel K V) (js : List ℕ) (k : K) (t : Position)
      → IsValid eq w
      → Nodup js
      → AllIn eq w js
      → lookup eq k w.timers ≡ some t
      → mem t.item js ≡ false
      → (due eq (scan eq w js).0 k ≡ due eq w k) × (runs_of eq k (scan eq w js).1 ≡ [])
  unfolding scan mem runs_of
  scan_other w [] k t v d a h f = (refl, refl)
  scan_other w (i ∷ js) k t v d a h f =
      let (h', (e, r)) = visit_other eq w i k t v (a.0) h (ground arith) in
      let w' = (visit eq w i).0 in
      let (same, quiet) =
        scan_other w' js k t (visit-IsValid eq w i v (a.0)) (d.1)
          (visit-AllIn eq w i js v (d.0) (a.1)) h' (ground arith) in
      (
        same ∙ due-lookup w w' k t h h' e (visit-num_slots eq w i) (visit-ticked_pos eq w i),
        runs_of-append eq k (visit eq w i).1 (scan eq w' js).1 ∙ rw (r, quiet) refl,
      )

  pub scan-none :
      (w : TimingWheel K V) (js : List ℕ) (k : K)
      → IsValid eq w
      → Nodup js
      → AllIn eq w js
      → lookup eq k w.timers ≡ none
      → (due eq (scan eq w js).0 k ≡ none) × (runs_of eq k (scan eq w js).1 ≡ [])
  unfolding scan runs_of due
  scan-none w [] k v d a h = (rw (due, h) refl, refl)
  scan-none w (i ∷ js) k v d a h =
      let (h', r) = visit-none eq w i k v (a.0) h in
      let w' = (visit eq w i).0 in
      let (gone, quiet) =
        scan-none w' js k (visit-IsValid eq w i v (a.0)) (d.1) (visit-AllIn eq w i js v (d.0) (a.1))
          h' in
      (gone, runs_of-append eq k (visit eq w i).1 (scan eq w' js).1 ∙ rw (r, quiet) refl)

  -- A visit leaves the timer of its task at that task.
  visit-item :
      (w : TimingWheel K V) (k : K) (t t' : Position)
      → IsValid eq w
      → lookup eq k w.timers ≡ some t
      → lookup eq k (visit eq w t.item).0.timers ≡ some t'
      → t'.item ≡ t.item
  unfolding visit
  visit-item w k t t' v h h' =
      let p = (w.ticked_pos + (w.items t.item).diff) % w.num_slots in
      ground (
        arith,
        h,
        h',
        lookup-store eq (w.items t.item).key k (record { pos = p; item = t.item }) w.timers,
        lookup-delete eq (w.items t.item).key k w.timers,
      )

  scan_rest :
      (w : TimingWheel K V) (js : List ℕ) (k : K) (o : Option Position)
      → IsValid eq w
      → Nodup js
      → AllIn eq w js
      → lookup eq k w.timers ≡ o
      → (elim o [ none ↦ false | some t ↦ mem t.item js ]) ≡ false
      → (due eq (scan eq w js).0 k ≡ due eq w k) × (runs_of eq k (scan eq w js).1 ≡ [])
  unfolding due
  scan_rest w js k none v d a h f =
      let (gone, quiet) = scan-none w js k v d a h in (gone ∙ rw (due, h) refl, quiet)
  scan_rest w js k (some t) v d a h f = scan_other w js k t v d a h f

  pub scan-Visited :
      (w : TimingWheel K V) (js : List ℕ) (k : K) (t : Position)
      → IsValid eq w
      → Nodup js
      → AllIn eq w js
      → lookup eq k w.timers ≡ some t
      → t.pos ≡ w.ticked_pos
      → mem t.item js ≡ true
      → Visited (left_over w t) (w.items t.item).value k (scan eq w js)
  unfolding scan mem runs_of
  scan-Visited w [] k t v d a h here m = cc
  scan-Visited w (i ∷ js) k t v d a h here m =
      let w' = (visit eq w i).0 in
      let v' = visit-IsValid eq w i v (a.0) in
      let a' = visit-AllIn eq w i js v (d.0) (a.1) in
      let split = runs_of-append eq k (visit eq w i).1 (scan eq w' js).1 in
      elim (Bool-cases (i == t.item)) [
        | inl e ↦
            let is : t.item ≡ i = ground arith in
            let (gone, ran) : Visited (left_over w t) (w.items t.item).value k (visit eq w i) =
              rw (← is) (visit-Visited w k t v h here) in
            let behind : mem t.item js ≡ false = rw is (d.0) in
            let (same, quiet) =
              scan_rest w' js k (lookup eq k w'.timers) v' (d.1) a' refl
                (ahead (lookup eq k w'.timers) refl behind is) in
            (same ∙ gone, split ∙ rw (quiet, append-nil (runs_of eq k (visit eq w i).1)) ran)
        | inr e ↦
            let (h', (f, r)) = visit_other eq w i k t v (a.0) h e in
            let (later, ran) =
              scan-Visited w' js k t v' (d.1) a' h' (here ∙ sym (visit-ticked_pos eq w i))
                (ground arith) in
            (
              later ∙ rw (f, visit-num_slots eq w i) refl,
              split ∙ rw r (ran ∙ rw (f, visit-num_slots eq w i) refl),
            )
      ]
    where
      ahead :
          (o : Option Position)
          → lookup eq k (visit eq w i).0.timers ≡ o
          → mem t.item js ≡ false
          → t.item ≡ i
          → (elim o [ none ↦ false | some t' ↦ mem t'.item js ]) ≡ false
      ahead none e f is = refl
      ahead (some t') e f is =
          let same : t'.item ≡ t.item = visit-item w k t t' v h (rw is e) in rw same f
