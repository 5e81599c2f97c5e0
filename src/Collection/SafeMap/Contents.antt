-- ===== src/Collection/SafeMap/Contents.antt =====
-- The two generations of core/collection/safemap.go as one map.
use go_zero_update.Common.{
  ◌≡◌, refl, ap, ◌∙◌, true, List, [], ◌∷◌, Option, none, some, arith, if◌then◌else◌,
}
use go_zero_update.Common.Maps
use go_zero_update.Common.Maps.{Eq, is_some, or_else, lookup, store, delete, store_all, Distinct}
use go_zero_update.Collection.SafeMap.{
  SafeMap, new_safe_map, delete_key, retire_old, retire_new, del, get, set,
}

-- The calls that change the map.
pub data Change {ℓ κ} (K : Type ℓ) (V : Type κ) : Type (ℓ ⊔ κ) where
  set_call : K → V → Change K V
  del_call : K → Change K V

module _ {ℓ κ} {K : Type ℓ} {V : Type κ} (eq : Eq K) where
  -- No key occurs twice, in one generation or in both.
  pub record IsValid (m : SafeMap K V) : Type (ℓ ⊔ κ) where
    pub old_distinct : Distinct eq m.dirty_old
    pub new_distinct : Distinct eq m.dirty_new
    pub apart : (k : K) → is_some (lookup eq k m.dirty_old) ≡ true → lookup eq k m.dirty_new ≡ none

  new_safe_map-IsValid : IsValid (new_safe_map eq)
  unfolding new_safe_map lookup
  new_safe_map-IsValid = record { old_distinct = tt; new_distinct = tt; apart = λ k h. refl }

  -- `Set` writes one key and keeps the map valid.
  get-set :
      (m : SafeMap K V) (key : K) (value : V) (k : K)
      → IsValid m
      → get eq (set eq m key value) k ≡ (if eq.beq key k then some value else get eq m k)
  unfolding get set
  get-set m key value k h = ground (
    arith,
    h.apart k,
    h.apart key,
    eq.beq_iff key k,
    Maps.lookup-store eq key k value m.dirty_old,
    Maps.lookup-store eq key k value m.dirty_new,
    Maps.lookup-delete eq key k m.dirty_old,
    Maps.lookup-delete eq key k m.dirty_new,
  )

  set-IsValid : (m : SafeMap K V) (key : K) (value : V) → IsValid m → IsValid (set eq m key value)
  unfolding set
  set-IsValid m key value h = record {
    old_distinct = ground (
      arith,
      h.old_distinct,
      Maps.store-Distinct eq key value m.dirty_old,
      Maps.delete-Distinct eq key m.dirty_old,
    );
    new_distinct = ground (
      arith,
      h.new_distinct,
      Maps.store-Distinct eq key value m.dirty_new,
      Maps.delete-Distinct eq key m.dirty_new,
    );
    apart = λ k p. ground (
      arith,
      h.apart k,
      h.apart key,
      eq.beq_iff key k,
      Maps.lookup-store eq key k value m.dirty_old,
      Maps.lookup-store eq key k value m.dirty_new,
      Maps.lookup-delete eq key k m.dirty_old,
      Maps.lookup-delete eq key k m.dirty_new,
    );
  }

  delete_key-IsValid : (m : SafeMap K V) (key : K) → IsValid m → IsValid (delete_key eq m key)
  unfolding delete_key
  delete_key-IsValid m key h = record {
    old_distinct = ground (arith, h.old_distinct, Maps.delete-Distinct eq key m.dirty_old);
    new_distinct = ground (arith, h.new_distinct, Maps.delete-Distinct eq key m.dirty_new);
    apart = λ k p. ground (
      arith,
      h.apart k,
      eq.beq_iff key k,
      Maps.lookup-delete eq key k m.dirty_old,
      Maps.lookup-delete eq key k m.dirty_new,
    );
  }

  get-delete_key :
      (m : SafeMap K V) (key k : K)
      → IsValid m
      → get eq (delete_key eq m key) k ≡ (if eq.beq key k then none else get eq m k)
  unfolding get delete_key
  get-delete_key m key k h = ground (
    arith,
    h.apart key,
    eq.beq_iff key k,
    Maps.lookup-delete eq key k m.dirty_old,
    Maps.lookup-delete eq key k m.dirty_new,
  )

  -- The moves between the generations change nothing that can be seen.
  retire_old-IsValid : (m : SafeMap K V) → IsValid m → IsValid (retire_old eq m)
  unfolding retire_old lookup
  retire_old-IsValid m h = record {
    old_distinct =
        ground (
          arith,
          h.old_distinct,
          Maps.store_all-Distinct eq m.dirty_old m.dirty_new h.new_distinct,
        );
    new_distinct = ground (arith, h.new_distinct);
    apart = λ k p. ground (arith, h.apart k);
  }

  get-retire_old : (m : SafeMap K V) (k : K) → IsValid m → get eq (retire_old eq m) k ≡ get eq m k
  unfolding get retire_old lookup
  get-retire_old m k h =
      ground (arith, h.apart k, Maps.lookup-store_all eq k m.dirty_old m.dirty_new h.old_distinct)

  retire_new-IsValid : (m : SafeMap K V) → IsValid m → IsValid (retire_new eq m)
  unfolding retire_new lookup
  retire_new-IsValid m h = record {
    old_distinct =
        ground (
          arith,
          h.old_distinct,
          Maps.store_all-Distinct eq m.dirty_new m.dirty_old h.old_distinct,
        );
    new_distinct = ground (arith, h.new_distinct);
    apart = λ k p. ground (arith, h.apart k);
  }

  get-retire_new : (m : SafeMap K V) (k : K) → IsValid m → get eq (retire_new eq m) k ≡ get eq m k
  unfolding get retire_new lookup
  get-retire_new m k h =
      ground (arith, h.apart k, Maps.lookup-store_all eq k m.dirty_new m.dirty_old h.new_distinct)

  del-IsValid : (m : SafeMap K V) (key : K) → IsValid m → IsValid (del eq m key)
  unfolding del
  del-IsValid m key h =
      retire_new-IsValid (retire_old eq (delete_key eq m key))
        (retire_old-IsValid (delete_key eq m key) (delete_key-IsValid m key h))

  get-del :
      (m : SafeMap K V) (key k : K)
      → IsValid m
      → get eq (del eq m key) k ≡ (if eq.beq key k then none else get eq m k)
  unfolding del
  get-del m key k h =
      let d = delete_key-IsValid m key h in
      get-retire_new (retire_old eq (delete_key eq m key)) k
        (retire_old-IsValid (delete_key eq m key) d)
      ∙ get-retire_old (delete_key eq m key) k d
      ∙ get-delete_key m key k h

  pub run : SafeMap K V → List (Change K V) → SafeMap K V
  run m [] = m
  run m (set_call key value ∷ changes) = run (set eq m key value) changes
  run m (del_call key ∷ changes) = run (del eq m key) changes

  -- The same calls on a function from keys to values.
  pub run_function : (K → Option V) → List (Change K V) → K → Option V
  run_function f [] = f
  run_function f (set_call key value ∷ changes) =
      run_function (λ k. if eq.beq key k then some value else f k) changes
  run_function f (del_call key ∷ changes) =
      run_function (λ k. if eq.beq key k then none else f k) changes

  run-function :
      (changes : List (Change K V)) (m : SafeMap K V) (f : K → Option V)
      → IsValid m
      → ((k : K) → get eq m k ≡ f k)
      → ((k : K) → get eq (run m changes) k ≡ run_function f changes k) × IsValid (run m changes)
  unfolding run run_function
  run-function [] m f h e = (e, h)
  run-function (set_call key value ∷ changes) m f h e =
      run-function changes (set eq m key value) _ (set-IsValid m key value h)
        (λ k. get-set m key value k h ∙ ap (λ o. if eq.beq key k then some value else o) (e k))
  run-function (del_call key ∷ changes) m f h e =
      run-function changes (del eq m key) _ (del-IsValid m key h)
        (λ k. get-del m key k h ∙ ap (λ o. if eq.beq key k then none else o) (e k))

  -- After any sequence of `Set` and `Del` on a new map, `Get` finds what a plain map would hold: the
  -- moves between the two generations are never seen.
  pub get-run :
      (changes : List (Change K V)) (k : K)
      → get eq (run (new_safe_map eq) changes) k ≡ run_function (λ j. none) changes k
  unfolding get new_safe_map lookup
  get-run changes k =
      (run-function changes (new_safe_map eq) (λ j. none) new_safe_map-IsValid (λ j. refl)).0 k

  pub run-IsValid : (changes : List (Change K V)) → IsValid (run (new_safe_map eq) changes)
  unfolding get new_safe_map lookup
  run-IsValid changes =
      (run-function changes (new_safe_map eq) (λ j. none) new_safe_map-IsValid (λ j. refl)).1
