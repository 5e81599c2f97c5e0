-- ===== src/Collection/RollingWindow/Window.antt =====
-- The buckets of core/collection/rollingwindow.go read as a list, oldest first.
use mathlib.Core.Path.{ap₂}
use mathlib.Core.List.{foldl}
use native.Mathlib.Nat.{mod-lt, mod-mod, add-mod_right, mod-eq_of_lt}
use go_zero_update.Common.{
  ltb, get_or-set_self, replicate-append, take, append-nil, inl, inr, ◌&&◌, ◌==◌, if◌then◌else◌,
  Bool-cases, ℕ, zero, suc, ◌+◌, ◌-◌, ◌%◌, ◌≤◌, ◌<◌, ◌≡◌, refl, sym, ap, ◌∙◌, true, List, [], ◌∷◌,
  ◌++◌, arith, length, get_or, set, replicate, drop, length-set,
}
use go_zero_update.Common.Circular
use go_zero_update.Common.Circular.{circular, mod-suc}
use go_zero_update.Collection.RollingWindow.{
  BucketInterface, RollingWindow, span, reset_bucket, reset_expired, update_offset, add_current,
  window_reduce, reduce,
}

pub record IsValid {ℓ} {B : Type ℓ} (w : RollingWindow B) : Type 0 where
  pub size_pos : 0 < w.size
  pub interval_pos : 0 < w.interval
  pub length_size : length w.buckets ≡ w.size
  pub offset_in : w.offset < w.size

module _ {ℓ κ} {V : Type ℓ} {B : Type κ} (bucket : BucketInterface V B)
    (reset-fresh : (b : B) → bucket.reset b ≡ bucket.fresh) where
  open bucket use {fresh, reset}

  -- The buckets from the oldest to the current one.
  unfoldable pub window : RollingWindow B → List B
  window w = circular fresh w.buckets (w.offset + 1) w.size

  length-reset_expired :
      (n i offset size : ℕ) (buckets : List B)
      → length (reset_expired bucket n i offset size buckets) ≡ length buckets
  unfolding reset_expired reset_bucket
  length-reset_expired zero i offset size buckets = refl
  length-reset_expired (suc n) i offset size buckets =
      length-reset_expired n (i + 1) offset size _ ∙ length-set buckets _ _

  -- A reset of the bucket at `j`, as one write.
  reset_bucket-set :
      (buckets : List B) (size j : ℕ)
      → length buckets ≡ size
      → reset_bucket bucket buckets size (j % size) ≡ set buckets (j % length buckets) fresh
  unfolding reset_bucket
  reset_bucket-set buckets size j e =
      ap (set buckets (j % size % size)) (reset-fresh _)
      ∙ ap (λ k. set buckets k fresh) (mod-mod j size ∙ ap (λ m. j % m) (sym e))

  length-reset_bucket :
      (buckets : List B) (size j : ℕ) → length (reset_bucket bucket buckets size j) ≡ length buckets
  unfolding reset_bucket
  length-reset_bucket buckets size j = length-set buckets _ _

  -- The buckets that are not reset stay.
  reset_expired-kept :
      (n i offset start count size : ℕ) (buckets : List B)
      → length buckets ≡ size
      → start + count ≤ offset + i + 1 + size
      → offset + i + n < start
      → i + n ≤ size
      → circular fresh (reset_expired bucket n i offset size buckets) start count
        ≡ circular fresh buckets start count
  unfolding reset_expired
  reset_expired-kept zero i offset start count size buckets e h k b = refl
  reset_expired-kept (suc n) i offset start count size buckets e h k b =
      let j = offset + i + 1 in
      let next = reset_bucket bucket buckets size (j % size) in
      reset_expired-kept n (i + 1) offset start count size next
        (length-reset_bucket buckets size (j % size) ∙ e) (omega arith) (omega arith) (omega arith)
      ∙ ap (λ l. circular fresh l start count)
          (reset_bucket-set buckets size j e
            ∙ ap (λ m. set buckets m fresh) (sym (add-mod_right j (length buckets))))
      ∙ Circular.circular-set fresh buckets start count (j + length buckets) fresh
          (omega (arith, e)) (omega (arith, e))

  -- The others are fresh.
  reset_expired-fresh :
      (n i offset size : ℕ) (buckets : List B)
      → length buckets ≡ size
      → i + n ≤ size
      → circular fresh buckets (offset + 1) i ≡ replicate i fresh
      → circular fresh (reset_expired bucket n i offset size buckets) (offset + 1) (i + n)
        ≡ replicate (i + n) fresh
  unfolding reset_expired
  reset_expired-fresh zero i offset size buckets e b h =
      let z : i + 0 ≡ i = omega arith in
      ap (circular fresh buckets (offset + 1)) z ∙ h ∙ ap (λ k. replicate k fresh) (sym z)
  reset_expired-fresh (suc n) i offset size buckets e b h =
      let j = offset + i + 1 in
      let j' : offset + 1 + i ≡ j = omega arith in
      let next = reset_bucket bucket buckets size (j % size) in
      let written = set buckets (j % length buckets) fresh in
      let e' : i + 1 ≡ suc i = omega arith in
      let more : i + suc n ≡ i + 1 + n = omega arith in
      let grown : circular fresh next (offset + 1) (i + 1) ≡ replicate (i + 1) fresh =
        ap (λ l. circular fresh l (offset + 1) (i + 1)) (reset_bucket-set buckets size j e)
        ∙ ap (circular fresh written (offset + 1)) e'
        ∙ Circular.circular-suc fresh written (offset + 1) i
        ∙ ap₂ (λ l a. l ++ a ∷ [])
            (Circular.circular-set fresh buckets (offset + 1) i j fresh (omega arith)
                (omega (arith, e))
              ∙ h)
            (ap₂ (λ a m. get_or written (a % m) fresh) j'
                (length-set buckets (j % length buckets) fresh)
              ∙ get_or-set_self buckets (j % length buckets) fresh fresh
                  (mod-lt j (omega (arith, e))))
        ∙ replicate-append i fresh
        ∙ ap (λ k. replicate k fresh) (sym e') in
      ap (circular fresh (reset_expired bucket n (i + 1) offset size next) (offset + 1)) more
      ∙ reset_expired-fresh n (i + 1) offset size next
          (length-reset_bucket buckets size (j % size) ∙ e) (omega arith) grown
      ∙ ap (λ k. replicate k fresh) (sym more)

  span-le : (w : RollingWindow B) (now : ℕ) → span w now ≤ w.size
  unfolding span
  span-le w now = ground arith

  moved_window :
      (w : RollingWindow B) (k : ℕ)
      → IsValid w
      → k ≤ w.size
      → circular fresh
          (reset_expired bucket k 0 w.offset w.size w.buckets)
          ((w.offset + k) % w.size + 1)
          w.size
        ≡ drop k (window w) ++ replicate k fresh
  unfolding window
  moved_window w k v h =
      let moved = reset_expired bucket k 0 w.offset w.size w.buckets in
      let start = w.offset + k + 1 in
      let same : length moved ≡ w.size =
        length-reset_expired k 0 w.offset w.size w.buckets ∙ v.length_size in
      let split : w.size ≡ w.size - k + k = omega arith in
      let begin : ((w.offset + k) % w.size + 1) % length moved ≡ start % length moved =
        ap (λ m. ((w.offset + k) % w.size + 1) % m) same
        ∙ mod-suc (w.offset + k) w.size
        ∙ ap (λ m. start % m) (sym same) in
      let round : (start + (w.size - k)) % length moved ≡ (w.offset + 1) % length moved =
        ap (λ m. m % length moved) (turn same) ∙ add-mod_right (w.offset + 1) (length moved) in
      let place : start ≡ w.offset + 1 + k = omega arith in
      let all : k ≡ 0 + k = omega arith in
      Circular.circular-mod fresh moved _ start w.size begin
      ∙ ap (circular fresh moved start) split
      ∙ Circular.circular-add fresh moved start (w.size - k) k
      ∙ ap₂ ◌++◌
          (reset_expired-kept k 0 w.offset start (w.size - k) w.size w.buckets v.length_size
              (omega arith) (omega arith) (omega arith)
            ∙ ap (λ s. circular fresh w.buckets s (w.size - k)) place
            ∙ sym (Circular.drop-circular fresh w.buckets k (w.offset + 1) w.size))
          (Circular.circular-mod fresh moved _ (w.offset + 1) k round
            ∙ ap (circular fresh moved (w.offset + 1)) all
            ∙ reset_expired-fresh k 0 w.offset w.size w.buckets v.length_size (omega arith) refl
            ∙ ap (λ n. replicate n fresh) (sym all))
    where
      turn : {n : ℕ} → n ≡ w.size → w.offset + k + 1 + (w.size - k) ≡ w.offset + 1 + n
      turn e = omega arith

  -- `update_offset` drops the expired buckets and puts as many fresh ones behind the others.
  pub update_offset-window :
      (w : RollingWindow B) (now later : ℕ)
      → IsValid w
      → IsValid (update_offset bucket w now later)
        × (window (update_offset bucket w now later)
            ≡ drop (span w now) (window w) ++ replicate (span w now) fresh)
  unfolding update_offset window
  update_offset-window w now later v = elim (Bool-cases (span w now == 0)) [
    | inl same ↦
        let none_gone : span w now ≡ 0 = ground arith in
        rw same (
          v,
          sym (append-nil (window w))
              ∙ ap (λ k. drop k (window w) ++ replicate k fresh) (sym none_gone),
        )
    | inr moved ↦ rw moved (
      record {
        size_pos = v.size_pos;
        interval_pos = v.interval_pos;
        length_size = length-reset_expired (span w now) 0 w.offset w.size w.buckets ∙ v.length_size;
        offset_in = mod-lt (w.offset + span w now) v.size_pos;
      },
      moved_window w (span w now) v (span-le w now),
    )
  ]

  -- The older buckets and the newest one, which values are added to.
  unfoldable pub older : RollingWindow B → List B
  older w = circular fresh w.buckets (w.offset + 1) (w.size - 1)

  pub length-older : (w : RollingWindow B) → length (older w) ≡ w.size - 1
  unfolding older
  length-older w = Circular.length-circular fresh w.buckets (w.offset + 1) (w.size - 1)

  unfoldable pub current : RollingWindow B → B
  current w = get_or w.buckets w.offset fresh

  pub window-current : (w : RollingWindow B) → IsValid w → window w ≡ older w ++ current w ∷ []
  unfolding window older current
  window-current w v =
      let more : w.size ≡ suc (w.size - 1) = omega (arith, v.size_pos) in
      let last : w.offset + 1 + (w.size - 1) ≡ w.offset + w.size = omega (arith, v.size_pos) in
      ap (circular fresh w.buckets (w.offset + 1)) more
      ∙ Circular.circular-suc fresh w.buckets (w.offset + 1) (w.size - 1)
      ∙ ap
          (λ k.
            circular fresh w.buckets (w.offset + 1) (w.size - 1) ++ get_or w.buckets k fresh ∷ [])
          (ap₂ (λ a m. a % m) last v.length_size
            ∙ add-mod_right w.offset w.size
            ∙ mod-eq_of_lt v.offset_in)

  pub add_current-window :
      (w : RollingWindow B) (x : V)
      → IsValid w
      → IsValid (add_current bucket w x)
        × (window (add_current bucket w x) ≡ older w ++ bucket.add (current w) x ∷ [])
  unfolding add_current older current
  add_current-window w x v =
      let j = w.offset % w.size in
      let here : j ≡ w.offset = mod-eq_of_lt v.offset_in in
      let value = bucket.add (get_or w.buckets j fresh) x in
      let written = set w.buckets j value in
      let same : length written ≡ w.size = length-set w.buckets j value ∙ v.length_size in
      let valid : IsValid (add_current bucket w x) = record {
        size_pos = v.size_pos;
        interval_pos = v.interval_pos;
        length_size = same;
        offset_in = v.offset_in;
      } in
      let turn : j ≡ (w.offset + w.size) % length w.buckets =
        sym (add-mod_right w.offset w.size)
        ∙ ap (λ m. (w.offset + w.size) % m) (sym v.length_size) in
      (
        valid,
        window-current (add_current bucket w x) valid
            ∙ ap₂ (λ l b. l ++ b ∷ [])
                (ap (λ k. circular fresh (set w.buckets k value) (w.offset + 1) (w.size - 1)) turn
                  ∙ Circular.circular-set fresh w.buckets (w.offset + 1) (w.size - 1)
                      (w.offset + w.size) value (omega (arith, v.size_pos))
                      (omega (arith, v.size_pos, v.length_size)))
                (ap (λ k. get_or written k fresh) (sym here)
                  ∙ get_or-set_self w.buckets j value fresh
                      (omega (arith, here, v.offset_in, v.length_size))
                  ∙ ap (λ k. bucket.add (get_or w.buckets k fresh) x) here),
      )

  -- The buckets that `reduce` visits, oldest first.
  unfoldable pub seen : RollingWindow B → ℕ → List B
  seen w now =
      if span w now == 0 && w.ignore_current
      then take (w.size - 1) (window w)
      else drop (span w now) (window w)

  pub reduce-seen {σ} :
      {S : Type σ} (w : RollingWindow B) (now : ℕ) (fn : S → B → S) (s : S)
      → IsValid w
      → reduce bucket w now fn s ≡ foldl fn s (seen w now)
  unfolding reduce seen window
  reduce-seen {S} w now fn s v = elim (Bool-cases (span w now == 0 && w.ignore_current)) [
    | inl partial ↦ rw partial (visit (w.size - 1) (take (w.size - 1) (window w)) (front partial))
    | inr whole ↦ rw whole (visit (w.size - span w now) (drop (span w now) (window w)) back)
  ]
    where
      start : ℕ
      start = (w.offset + span w now + 1) % w.size

      not_none : (n : ℕ) → ltb 0 (suc n) ≡ true
      not_none n = ground arith

      visit :
          (n : ℕ) (l : List B)
          → circular fresh w.buckets start n ≡ l
          → (if ltb 0 n then window_reduce bucket w.buckets start n fn s else s) ≡ foldl fn s l
      visit zero l e = ap (foldl fn s) e
      visit (suc n) l e = rw (not_none n) (ap (foldl fn s) e)

      begin :
          (n : ℕ)
          → circular fresh w.buckets start n
            ≡ circular fresh w.buckets (w.offset + span w now + 1) n
      begin n = Circular.circular-mod fresh w.buckets start (w.offset + span w now + 1) n (
          ap (λ m. start % m) v.length_size
          ∙ mod-mod (w.offset + span w now + 1) w.size
          ∙ ap (λ m. (w.offset + span w now + 1) % m) (sym v.length_size))

      front :
          (span w now == 0 && w.ignore_current) ≡ true
          → circular fresh w.buckets start (w.size - 1) ≡ take (w.size - 1) (window w)
      front e =
          let at_start : w.offset + span w now + 1 ≡ w.offset + 1 = ground arith in
          begin (w.size - 1)
          ∙ ap (λ k. circular fresh w.buckets k (w.size - 1)) at_start
          ∙ sym (
              Circular.take-circular fresh w.buckets (w.size - 1) (w.offset + 1) w.size
                (omega arith))

      back : circular fresh w.buckets start (w.size - span w now) ≡ drop (span w now) (window w)
      back =
          let place : w.offset + span w now + 1 ≡ w.offset + 1 + span w now = omega arith in
          begin (w.size - span w now)
          ∙ ap (λ k. circular fresh w.buckets k (w.size - span w now)) place
          ∙ sym (Circular.drop-circular fresh w.buckets (span w now) (w.offset + 1) w.size)
