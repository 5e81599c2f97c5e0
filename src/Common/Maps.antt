-- ===== src/Common/Maps.antt =====
-- Go maps as association lists, in one order of iteration. The keys have a test of equality.
use Prim.Native.Nat.{suc}
use mathlib.Core.Path.{◌≡◌, refl, ap}
use mathlib.Core.Logic.{◌↔◌}
use mathlib.Core.Bool.{Bool, true, false}
use mathlib.Core.Option.{Option, none, some}
use mathlib.Core.List.{List, [], ◌∷◌}
use native.Mathlib.Omega.{arith}
use go_zero_update.Common.Tests.{if◌then◌else◌}
use go_zero_update.Common.Lists.{length}

pub record Eq {ℓ} (K : Type ℓ) : Type ℓ where
  pub beq : K → K → Bool
  pub beq_iff : (a b : K) → (beq a b ≡ true) ↔ (a ≡ b)

abbrev pub is_some {ℓ} : {A : Type ℓ} → Option A → Bool
is_some none = false
is_some (some a) = true

abbrev pub or_else {ℓ} : {A : Type ℓ} → Option A → Option A → Option A
or_else none b = b
or_else (some a) b = some a

module _ {ℓ κ} {K : Type ℓ} {V : Type κ} (eq : Eq K) where
  open eq use {beq, beq_iff}

  unfoldable pub lookup : K → List (K × V) → Option V
  lookup k [] = none
  lookup k ((j, v) ∷ m) = if beq j k then some v else lookup k m

  -- `m[k] = v`.
  unfoldable pub store : K → V → List (K × V) → List (K × V)
  store k v [] = (k, v) ∷ []
  store k v ((j, w) ∷ m) = if beq j k then (k, v) ∷ m else (j, w) ∷ store k v m

  -- `delete(m, k)`.
  unfoldable pub delete : K → List (K × V) → List (K × V)
  delete k [] = []
  delete k ((j, w) ∷ m) = if beq j k then delete k m else (j, w) ∷ delete k m

  -- `for k, v := range src { dst[k] = v }`.
  unfoldable pub store_all : List (K × V) → List (K × V) → List (K × V)
  store_all [] dst = dst
  store_all ((k, v) ∷ src) dst = store_all src (store k v dst)

  -- No key occurs twice.
  abbrev pub Distinct : List (K × V) → Type κ
  Distinct [] = Unit
  Distinct ((k, v) ∷ m) = (lookup k m ≡ none) × Distinct m

  pub lookup-store :
      (k j : K) (v : V) (m : List (K × V))
      → lookup j (store k v m) ≡ (if beq k j then some v else lookup j m)
  unfolding lookup store
  lookup-store k j v [] = refl
  lookup-store k j v ((i, w) ∷ m) =
      ground (arith, beq_iff k j, beq_iff i k, beq_iff i j, lookup-store k j v m)

  pub lookup-delete :
      (k j : K) (m : List (K × V)) → lookup j (delete k m) ≡ (if beq k j then none else lookup j m)
  unfolding lookup delete
  lookup-delete k j [] = ground arith
  lookup-delete k j ((i, w) ∷ m) =
      ground (arith, beq_iff k j, beq_iff i k, beq_iff i j, lookup-delete k j m)

  pub store-Distinct : (k : K) (v : V) (m : List (K × V)) → Distinct m → Distinct (store k v m)
  unfolding lookup store
  store-Distinct k v [] d = (refl, tt)
  store-Distinct k v ((i, w) ∷ m) d =
      ground (arith, beq_iff i k, beq_iff k i, lookup-store k i v m, store-Distinct k v m (d.1))

  pub delete-Distinct : (k : K) (m : List (K × V)) → Distinct m → Distinct (delete k m)
  unfolding delete
  delete-Distinct k [] d = tt
  delete-Distinct k ((i, w) ∷ m) d = ground (arith, lookup-delete k i m, delete-Distinct k m (d.1))

  pub length-store :
      (k : K) (v : V) (m : List (K × V))
      → length (store k v m) ≡ (if is_some (lookup k m) then length m else suc (length m))
  unfolding lookup store
  length-store k v [] = refl
  length-store k v ((i, w) ∷ m) = ground (arith, length-store k v m)

  pub length-delete :
      (k : K) (m : List (K × V))
      → Distinct m
      → length m ≡ (if is_some (lookup k m) then suc (length (delete k m)) else length (delete k m))
  unfolding lookup delete
  length-delete k [] d = refl
  length-delete k ((i, w) ∷ m) d =
      ground (arith, length-delete k m (d.1), beq_iff i k, ap (λ j. is_some (lookup j m)))

  pub lookup-store_all :
      (j : K) (src dst : List (K × V))
      → Distinct src
      → lookup j (store_all src dst) ≡ or_else (lookup j src) (lookup j dst)
  unfolding lookup store_all
  lookup-store_all j [] dst d = refl
  lookup-store_all j ((k, v) ∷ src) dst d =
      ground
        (arith, lookup-store_all j src (store k v dst) (d.1), lookup-store k j v dst, beq_iff k j)

  pub store_all-Distinct : (src dst : List (K × V)) → Distinct dst → Distinct (store_all src dst)
  unfolding store_all
  store_all-Distinct [] dst d = d
  store_all-Distinct ((k, v) ∷ src) dst d =
      store_all-Distinct src (store k v dst) (store-Distinct k v dst d)
