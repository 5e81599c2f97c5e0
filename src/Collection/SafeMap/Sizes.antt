-- ===== src/Collection/SafeMap/Sizes.antt =====
-- `Range` and `Size` of core/collection/safemap.go.
use go_zero_update.Common.{
  ◌≡◌, refl, ap, true, List, [], ◌∷◌, ◌++◌, none, arith, length, length-append,
}
use go_zero_update.Common.Maps.{Eq, is_some, or_else, lookup, Distinct}
use go_zero_update.Collection.SafeMap.{SafeMap, new_safe_map, get, range_over, range, size}
use go_zero_update.Collection.SafeMap.Contents.{Change, run, run-IsValid}

module _ {ℓ κ} {K : Type ℓ} {V : Type κ} (eq : Eq K) where
  range_over-all : (m : List (K × V)) → range_over eq (λ k v. true) m ≡ (m, true)
  unfolding range_over
  range_over-all [] = refl
  range_over-all ((k, v) ∷ m) = ap (λ r. ((k, v) ∷ r.0, r.1)) (range_over-all m)

  lookup-append :
      (k : K) (a b : List (K × V)) → lookup eq k (a ++ b) ≡ or_else (lookup eq k a) (lookup eq k b)
  unfolding lookup
  lookup-append k [] b = refl
  lookup-append k ((j, v) ∷ a) b = ground (arith, lookup-append k a b)

  append-Distinct :
      (a b : List (K × V))
      → Distinct eq a
      → Distinct eq b
      → ((k : K) → is_some (lookup eq k a) ≡ true → lookup eq k b ≡ none)
      → Distinct eq (a ++ b)
  unfolding lookup
  append-Distinct [] b d e h = e
  append-Distinct ((k, v) ∷ a) b d e h = (
    ground (arith, lookup-append k a b, h k, eq.beq_iff k k),
    append-Distinct a b (d.1) e (λ j p. ground (arith, h j)),
  )

  range-all : (m : SafeMap K V) → range eq m (λ k v. true) ≡ m.dirty_old ++ m.dirty_new
  unfolding range
  range-all m = rw (range_over-all m.dirty_old, range_over-all m.dirty_new)

  -- After any sequence of `Set` and `Del` on a new map, a `Range` that is never stopped visits each
  -- key at most once, with the value that `Get` finds, and every key that `Get` finds; `Size` is the
  -- number of these visits.
  pub range-run :
      (changes : List (Change K V))
      → Distinct eq (range eq (run eq (new_safe_map eq) changes) (λ k v. true))
        × ((k : K)
            → lookup eq k (range eq (run eq (new_safe_map eq) changes) (λ k v. true))
              ≡ get eq (run eq (new_safe_map eq) changes) k)
        × (length (range eq (run eq (new_safe_map eq) changes) (λ k v. true))
            ≡ size eq (run eq (new_safe_map eq) changes))
  unfolding get size
  range-run changes =
      let m = run eq (new_safe_map eq) changes in
      let valid = run-IsValid eq changes in
      rw (range-all m) (
        append-Distinct m.dirty_old m.dirty_new (valid.old_distinct) (valid.new_distinct)
            (valid.apart),
        (λ k. lookup-append k m.dirty_old m.dirty_new),
        length-append m.dirty_old m.dirty_new,
      )
