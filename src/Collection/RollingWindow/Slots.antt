-- ===== src/Collection/RollingWindow/Slots.antt =====
-- The rolling window of core/collection/rollingwindow.go against the log of all events. Time is cut
-- into slots of one interval, counted from the creation of the window; the slot of the creation has
-- the number `size`, so that every slot in view has a number.
use mathlib.Core.Path.{ap₂}
use native.Mathlib.Nat.{mul-add-div_right, div-add-mod'}
use Prim.Native.Nat.{min}
use native.Mathlib.Decide.{dec_le}
use go_zero_update.Common.{
  ℕ, suc, ◌+◌, ◌-◌, ◌*◌, ◌/◌, ◌%◌, ◌≤◌, ◌<◌, ◌≡◌, refl, sym, ap, ◌∙◌, List, [], ◌∷◌, ◌++◌, arith,
  length, drop, replicate, ◌==◌, if◌then◌else◌,
}
use go_zero_update.Common.Table
use go_zero_update.Common.Table.{table}
use go_zero_update.Collection.RollingWindow.{
  BucketInterface, RollingWindow, span, update_offset, add_current,
}
use go_zero_update.Collection.RollingWindow.Window
use go_zero_update.Collection.RollingWindow.Window.{IsValid, window, older, current, seen}

-- The number of the slot that holds the time `t`.
abbrev pub slot_of : ℕ → ℕ → ℕ → ℕ → ℕ
slot_of start interval size t = (t - start) / interval + size

snoc_injective {ℓ} :
    {A : Type ℓ} (xs ys : List A) (a b : A)
    → length xs ≡ length ys
    → xs ++ a ∷ [] ≡ ys ++ b ∷ []
    → (xs ≡ ys) × (a ≡ b)
snoc_injective [] [] a b h e = (refl, cc)
snoc_injective [] (y ∷ ys) a b h e = absurd (omega arith)
snoc_injective (x ∷ xs) [] a b h e = absurd (omega arith)
snoc_injective (x ∷ xs) (y ∷ ys) a b h e =
    let (same, last) = snoc_injective xs ys a b (omega arith) (cc) in (cc, last)

module _ {ℓ κ} {V : Type ℓ} {B : Type κ} (bucket : BucketInterface V B)
    (reset-fresh : (b : B) → bucket.reset b ≡ bucket.fresh) (start interval size : ℕ) where
  open bucket use {fresh, add as add_value}

  -- The bucket of slot `j` after the events of `log`, which has the latest event first.
  unfoldable pub slot : List (ℕ × V) → ℕ → B
  slot [] j = fresh
  slot ((t, x) ∷ log) j =
      if slot_of start interval size t == j then add_value (slot log j) x else slot log j

  -- The buckets of the `n` slots from `s` on.
  abbrev pub slots : List (ℕ × V) → ℕ → ℕ → List B
  slots log s n = table (slot log) s n

  -- The slot of the latest event, or of the creation.
  unfoldable pub newest : List (ℕ × V) → ℕ
  newest [] = size
  newest ((t, x) ∷ log) = slot_of start interval size t

  pub record Tracks (w : RollingWindow B) (log : List (ℕ × V)) (c : ℕ) : Type (ℓ ⊔ κ) where
    pub valid : IsValid w
    pub same_size : w.size ≡ size
    pub same_interval : w.interval ≡ interval
    pub in_view : size ≤ c
    pub begun : w.last_time ≡ start + (c - size) * interval
    pub none_later : (j : ℕ) → c < j → slot log j ≡ fresh
    pub buckets : window bucket reset-fresh w ≡ slots log (c + 1 - size) size

  pub slots-fresh :
      (log : List (ℕ × V)) (s n : ℕ)
      → ((j : ℕ) → s ≤ j → slot log j ≡ fresh)
      → slots log s n ≡ replicate n fresh
  slots-fresh log s n h =
      Table.table-eq (slot log) (λ j. fresh) s n (λ j p q. h j p) ∙ Table.table-replicate fresh s n

  -- An event of a slot leaves the slots before it alone.
  slots-cons :
      (log : List (ℕ × V)) (t : ℕ) (x : V) (s n : ℕ)
      → s + n ≤ slot_of start interval size t
      → slots ((t, x) ∷ log) s n ≡ slots log s n
  unfolding slot
  slots-cons log t x s n h =
      Table.table-eq (slot ((t, x) ∷ log)) (slot log) s n (λ j p q. ground arith)

  -- The intervals that have passed, and the slot that holds the time.
  pub slot_of-later :
      {w : RollingWindow B} {log : List (ℕ × V)} {c : ℕ} (t : ℕ)
      → Tracks w log c
      → w.last_time ≤ t
      → slot_of start interval size t ≡ c + (t - w.last_time) / interval
  slot_of-later {w} {c} t h p =
      let passed = t - w.last_time in
      let since : t - start ≡ (c - size) * interval + passed = omega (arith, h.begun) in
      ap (λ k. k / interval + size) since
      ∙ ap (λ k. k + size)
          (mul-add-div_right (omega (arith, h.valid.interval_pos, h.same_interval)) (c - size)
            passed)
      ∙ omega (arith, h.in_view)

  slots-later :
      (log : List (ℕ × V)) (c k : ℕ)
      → size ≤ c
      → ((j : ℕ) → c < j → slot log j ≡ fresh)
      → drop (min k size) (slots log (c + 1 - size) size) ++ replicate (min k size) fresh
        ≡ slots log (c + k + 1 - size) size
  slots-later log c k h f = elim (dec_le k size) [
    | yes few ↦
        let all : min k size ≡ k = omega arith in
        let s' = c + k + 1 - size in
        let begin : c + 1 - size + k ≡ s' = omega arith in
        let split : size - k + k ≡ size = omega arith in
        ap (λ m. drop m (slots log (c + 1 - size) size) ++ replicate m fresh) all
        ∙ ap₂ ◌++◌
            (Table.drop-table (slot log) k (c + 1 - size) size
              ∙ ap (λ s. slots log s (size - k)) begin)
            (sym (slots-fresh log (s' + (size - k)) k (λ j p. f j (omega arith))))
        ∙ sym (Table.table-add (slot log) s' (size - k) k)
        ∙ ap (slots log s') split
    | no many ↦
        let all : min k size ≡ size = omega arith in
        let s' = c + k + 1 - size in
        let nothing : size - size ≡ 0 = omega arith in
        ap (λ m. drop m (slots log (c + 1 - size) size) ++ replicate m fresh) all
        ∙ ap (λ l. l ++ replicate size fresh)
            (Table.drop-table (slot log) size (c + 1 - size) size
              ∙ ap (slots log (c + 1 - size + size)) nothing)
        ∙ sym (slots-fresh log s' size (λ j p. f j (omega arith)))
  ]

  pub span-min :
      {w : RollingWindow B} {log : List (ℕ × V)} {c : ℕ} (now : ℕ)
      → Tracks w log c
      → w.last_time ≤ now
      → span w now ≡ min ((now - w.last_time) / interval) size
  unfolding span
  span-min {w} now h p =
      ground (arith, ap (λ i. (now - w.last_time) / i) h.same_interval, h.same_size)

  aligned :
      (c k last later : ℕ)
      → size ≤ c
      → last ≡ start + (c - size) * interval
      → last ≤ later
      → (later - last) / interval ≡ k
      → later - (later - last) % interval ≡ start + (c + k - size) * interval
  aligned c k last later h e p q =
      let d = c - size in
      let sum : c + k - size ≡ d + k = omega arith in
      omega (
        arith,
        div-add-mod' (later - last) interval,
        ap (λ n. n * interval) q,
        ap (λ n. n * interval) sum,
      )

  -- The window after `update_offset`, if both readings of the clock fall in one slot.
  pub update_offset-Tracks :
      (w : RollingWindow B) (log : List (ℕ × V)) (c now later : ℕ)
      → Tracks w log c
      → w.last_time ≤ now
      → now ≤ later
      → slot_of start interval size later ≡ slot_of start interval size now
      → Tracks (update_offset bucket w now later) log (slot_of start interval size now)
  unfolding update_offset
  update_offset-Tracks w log c now later h p q e =
      let k = (now - w.last_time) / interval in
      let place : slot_of start interval size now ≡ c + k = slot_of-later now h p in
      let place' : slot_of start interval size later ≡ c + (later - w.last_time) / interval =
        slot_of-later later h (omega arith) in
      let same : (later - w.last_time) / interval ≡ k = omega (arith, place, place') in
      let moved : (update_offset bucket w now later).last_time ≡ start + (c + k - size) * interval =
        moved_time same in
      record {
        valid = (Window.update_offset-window bucket reset-fresh w now later h.valid).0;
        same_size = ground (arith, h.same_size);
        same_interval = ground (arith, h.same_interval);
        in_view = omega arith;
        begun = moved ∙ ap (λ n. start + (n - size) * interval) (sym place);
        none_later = λ j r. h.none_later j (omega (arith, place));
        buckets =
            (Window.update_offset-window bucket reset-fresh w now later h.valid).1
            ∙ ap₂ (λ m l. drop m l ++ replicate m fresh) (span-min now h p) h.buckets
            ∙ slots-later log c k h.in_view h.none_later
            ∙ ap (λ s. slots log (s + 1 - size) size) (sym place);
      }
    where
      moved_time :
          (later - w.last_time) / interval ≡ (now - w.last_time) / interval
          → (update_offset bucket w now later).last_time
            ≡ start + (c + (now - w.last_time) / interval - size) * interval
      moved_time same = ground (
        arith,
        span-min now h p,
        h.begun,
        h.valid.size_pos,
        h.same_size,
        h.same_interval,
        aligned c ((now - w.last_time) / interval) w.last_time later h.in_view h.begun (omega arith)
            same,
        ap (λ i. (later - w.last_time) % i) h.same_interval,
      )

  pub add_current-Tracks :
      (w : RollingWindow B) (log : List (ℕ × V)) (c t : ℕ) (x : V)
      → Tracks w log c
      → slot_of start interval size t ≡ c
      → Tracks (add_current bucket w x) ((t, x) ∷ log) c
  unfolding slot add_current
  add_current-Tracks w log c t x h e = record {
    valid = (Window.add_current-window bucket reset-fresh w x h.valid).0;
    same_size = h.same_size;
    same_interval = h.same_interval;
    in_view = h.in_view;
    begun = h.begun;
    none_later = λ j p. ground (arith, h.none_later j p);
    buckets = added;
  }
    where
      s : ℕ
      s = c + 1 - size

      more : size ≡ suc (size - 1)
      more = omega (arith, h.valid.size_pos, h.same_size)

      here : s + (size - 1) ≡ c
      here = omega (arith, h.valid.size_pos, h.same_size, h.in_view)

      parts :
          (older bucket reset-fresh w ≡ slots log s (size - 1))
          × (current bucket reset-fresh w ≡ slot log (s + (size - 1)))
      parts =
          snoc_injective (older bucket reset-fresh w) (slots log s (size - 1))
            (current bucket reset-fresh w) (slot log (s + (size - 1)))
            (Window.length-older bucket reset-fresh w
              ∙ ap (λ k. k - 1) h.same_size
              ∙ sym (Table.length-table (slot log) s (size - 1)))
            (sym (Window.window-current bucket reset-fresh w h.valid)
              ∙ h.buckets
              ∙ ap (slots log s) more
              ∙ Table.table-suc (slot log) s (size - 1))

      counted : add_value (slot log c) x ≡ slot ((t, x) ∷ log) c
      counted = ground arith

      added : window bucket reset-fresh (add_current bucket w x) ≡ slots ((t, x) ∷ log) s size
      added =
          (Window.add_current-window bucket reset-fresh w x h.valid).1
          ∙ ap₂ (λ l b. l ++ add_value b x ∷ []) (parts.0) (parts.1 ∙ ap (slot log) here)
          ∙ ap₂ (λ l b. l ++ b ∷ []) (sym (slots-cons log t x s (size - 1) (omega (arith, here))))
              (counted ∙ ap (slot ((t, x) ∷ log)) (sym here))
          ∙ sym (Table.table-suc (slot ((t, x) ∷ log)) s (size - 1))
          ∙ ap (slots ((t, x) ∷ log) s) (sym more)
