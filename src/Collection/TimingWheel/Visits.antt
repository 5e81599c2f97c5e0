-- ===== src/Collection/TimingWheel/Visits.antt =====
-- The invariant of the wheel of core/collection/timingwheel.go, and one task of a tick.
use go_zero_update.Common.{
  ℕ, ◌<◌, ◌≤◌, ◌≡◌, ap, ◌∙◌, true, false, List, ◌==◌, if◌then◌else◌, none, some, length, arith, inl,
  inr, Bool-cases,
}
use go_zero_update.Common.Maps.{Eq, lookup, delete, lookup-delete}
use go_zero_update.Common.Store.{write, mem, Nodup}
use go_zero_update.Collection.TimingWheel.{Entry, Position, TimingWheel, push_slot, remove_slot}
use go_zero_update.Collection.TimingWheel.Slots.{
  slot, mem-push_slot, mem-remove_slot, push_slot-Nodup, remove_slot-Nodup, length-push_slot,
  length-remove_slot,
}

module _ {ℓ κ} {K : Type ℓ} {V : Type κ} (eq : Eq K) where
  -- What the table says of a timer is so.
  abbrev pub Known : TimingWheel K V → K → Position → Type ℓ
  Known w k t =
      (t.pos < w.num_slots)
      × ((mem t.item (slot w.slots t.pos) ≡ true)
          × (((w.items t.item).key ≡ k)
              × (((w.items t.item).removed ≡ false) × ((w.items t.item).diff < w.num_slots))))

  pub record IsValid (w : TimingWheel K V) : Type ℓ where
    pub slots_size : length w.slots ≡ w.num_slots
    pub some_slot : 0 < w.num_slots
    pub ticked : w.ticked_pos < w.num_slots
    pub nodup : (p : ℕ) → Nodup (slot w.slots p)
    pub live :
        (p i : ℕ)
        → mem i (slot w.slots p) ≡ true
        → (w.items i).removed ≡ false
        → lookup eq (w.items i).key w.timers ≡ some (record { pos = p; item = i })
    pub known : (k : K) (t : Position) → lookup eq k w.timers ≡ some t → Known w k t
    pub fresh : (p i : ℕ) → mem i (slot w.slots p) ≡ true → i < w.next_item

  -- A task that is removed leaves the slot.
  pub drop_removed-IsValid :
      (w : TimingWheel K V) (i : ℕ)
      → IsValid w
      → (w.items i).removed ≡ true
      → IsValid (record w { slots = remove_slot w.slots w.ticked_pos i })
  drop_removed-IsValid w i v h =
      let inside : w.ticked_pos < length w.slots = omega (arith, v.slots_size, v.ticked) in
      record {
        slots_size = length-remove_slot w.slots w.ticked_pos i ∙ v.slots_size;
        some_slot = v.some_slot;
        ticked = v.ticked;
        nodup = λ p. remove_slot-Nodup w.slots w.ticked_pos p i inside (v.nodup);
        live = λ p j m r.
            v.live p j
              (ground (
                arith,
                m,
                mem-remove_slot w.slots w.ticked_pos p j i inside (v.nodup w.ticked_pos),
              ))
              r;
        known = λ k t e.
            let (a, (b, (c, (d, f)))) = v.known k t e in
            (
              a,
              (
                ground (
                  arith,
                  b,
                  d,
                  h,
                  mem-remove_slot w.slots w.ticked_pos t.pos t.item i inside (v.nodup w.ticked_pos),
                  ap (λ n. (w.items n).removed),
                ),
                (c, (d, f)),
              ),
            );
        fresh = λ p j m. v.fresh p j (
            ground
              (arith, m, mem-remove_slot w.slots w.ticked_pos p j i inside (v.nodup w.ticked_pos)));
      }

  -- A write to a task that keeps its key and does not revive or remove it.
  pub write-IsValid :
      (w : TimingWheel K V) (i : ℕ) (e : Entry K V)
      → IsValid w
      → e.key ≡ (w.items i).key
      → e.removed ≡ (w.items i).removed
      → e.diff < w.num_slots
      → IsValid (record w { items = write w.items i e })
  write-IsValid w i e v same kept small = record {
    slots_size = v.slots_size;
    some_slot = v.some_slot;
    ticked = v.ticked;
    nodup = v.nodup;
    live = λ p j m r. elim (Bool-cases (i == j)) [
      | inl f ↦
          let is : i ≡ j = ground arith in
          rw (f, same, is)
            (v.live p j m (ground (arith, kept, r, f, is, ap (λ n. (w.items n).removed) is)))
      | inr f ↦ rw f (v.live p j m (ground (arith, r, f)))
    ];
    known = λ k t h.
        let (a, (b, (c, (d, f)))) = v.known k t h in
        elim (Bool-cases (i == t.item)) [
          | inl g ↦
              let is : i ≡ t.item = ground arith in
              (
                a,
                (
                  b,
                  rw g (
                    same ∙ ap (λ n. (w.items n).key) is ∙ c,
                    (kept ∙ ap (λ n. (w.items n).removed) is ∙ d, small),
                  ),
                ),
              )
          | inr g ↦ (a, (b, rw g (c, (d, f))))
        ];
    fresh = v.fresh;
  }

  -- A task that runs leaves the slot and the table.
  pub run_task-IsValid :
      (w : TimingWheel K V) (i : ℕ)
      → IsValid w
      → mem i (slot w.slots w.ticked_pos) ≡ true
      → (w.items i).removed ≡ false
      → IsValid (record w {
        slots = remove_slot w.slots w.ticked_pos i;
        timers = delete eq (w.items i).key w.timers;
      })
  run_task-IsValid w i v m r =
      let inside : w.ticked_pos < length w.slots = omega (arith, v.slots_size, v.ticked) in
      let here = v.live w.ticked_pos i m r in
      let off = λ (p : ℕ) (j : ℕ).
        mem-remove_slot w.slots w.ticked_pos p j i inside (v.nodup w.ticked_pos) in
      record {
        slots_size = length-remove_slot w.slots w.ticked_pos i ∙ v.slots_size;
        some_slot = v.some_slot;
        ticked = v.ticked;
        nodup = λ p. remove_slot-Nodup w.slots w.ticked_pos p i inside (v.nodup);
        live = λ p j m' r'.
            let was : mem j (slot w.slots p) ≡ true = ground (arith, m', off p j) in
            let there = v.live p j was r' in
            lookup-delete eq (w.items i).key (w.items j).key w.timers
            ∙ ground (
              arith,
              there,
              here,
              m',
              off p j,
              eq.beq_iff (w.items i).key (w.items j).key,
              ap (λ k. lookup eq k w.timers),
            );
        known = λ k t e.
            let was : lookup eq k w.timers ≡ some t =
              ground (arith, e, lookup-delete eq (w.items i).key k w.timers) in
            let (a, (b, (c, (d, f)))) = v.known k t was in
            (
              a,
              (
                off t.pos t.item
                    ∙ ground (
                      arith,
                      b,
                      c,
                      e,
                      lookup-delete eq (w.items i).key k w.timers,
                      eq.beq_iff (w.items i).key k,
                      ap (λ n. (w.items n).key),
                    ),
                (c, (d, f)),
              ),
            );
        fresh = λ p j m'. v.fresh p j (ground (arith, m', off p j));
      }

  -- A task that is in no slot and not in the table is put in both.
  pub place-IsValid :
      (w : TimingWheel K V) (i p : ℕ) (e : Entry K V) (timers : List (K × Position)) (next : ℕ)
      → IsValid w
      → ((q : ℕ) → mem i (slot w.slots q) ≡ false)
      → lookup eq e.key w.timers ≡ none
      → e.removed ≡ false
      → e.diff < w.num_slots
      → p < w.num_slots
      → ((k : K)
          → lookup eq k timers ≡ (
              if eq.beq e.key k then some (record { pos = p; item = i }) else lookup eq k w.timers))
      → i < next
      → w.next_item ≤ next
      → IsValid (record w {
        slots = push_slot w.slots p i;
        timers = timers;
        items = write w.items i e;
        next_item = next;
      })
  place-IsValid w i p e timers next v nowhere absent alive small inside table above later =
      let within : p < length w.slots = omega (arith, v.slots_size, inside) in
      let on = λ (q j : ℕ). mem-push_slot w.slots p q j i within in
      record {
        slots_size = length-push_slot w.slots p i ∙ v.slots_size;
        some_slot = v.some_slot;
        ticked = v.ticked;
        nodup = λ q. push_slot-Nodup w.slots p q i within (nowhere p) (v.nodup);
        live = λ q j m r. elim (Bool-cases (i == j)) [
          | inl f ↦
              let is : i ≡ j = ground arith in
              let there : p ≡ q =
                ground (arith, m, on q j, nowhere q, is, ap (λ n. mem n (slot w.slots q)) is) in
              rw (f, table e.key, ← there, ← is) (ground (arith, eq.beq_iff e.key e.key))
          | inr f ↦
              let was : mem j (slot w.slots q) ≡ true = ground (arith, m, on q j, f) in
              rw f (
                table (w.items j).key
                ∙ ground (
                  arith,
                  v.live q j was (ground (arith, r, f)),
                  absent,
                  eq.beq_iff e.key (w.items j).key,
                  ap (λ k. lookup eq k w.timers),
                ))
        ];
        known = λ k t h. elim (Bool-cases (eq.beq e.key k)) [
          | inl f ↦
              let at : record { pos = p; item = i } ≡ t = ground (arith, h, table k, f) in
              rw (← at) (
                inside,
                (
                  on p i ∙ ground arith,
                  (
                    ground (arith, f, eq.beq_iff e.key k),
                    (ground (arith, alive), ground (arith, small)),
                  ),
                ),
              )
          | inr f ↦
              let (a, (b, (c, (d, g)))) = v.known k t (ground (arith, h, table k, f)) in
              let apart : (i == t.item) ≡ false =
                ground (arith, b, nowhere t.pos, ap (λ n. mem n (slot w.slots t.pos))) in
              (a, (on t.pos t.item ∙ ground (arith, b), rw apart (c, (d, g))))
        ];
        fresh = λ q j m. ground (arith, m, on q j, v.fresh q j, above, later);
      }
