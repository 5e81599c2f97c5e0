-- ===== src/Common/Store.antt =====
-- A store of shared objects: an object is a number, and a field of the objects is a function of it.
use Prim.Native.Nat.{ℕ}
use mathlib.Core.Path.{◌≡◌, refl}
use mathlib.Core.Bool.{Bool, true, false, ◌||◌}
use mathlib.Core.List.{List, [], ◌∷◌, ◌++◌}
use native.Mathlib.Omega.{arith}
use go_zero_update.Common.Tests.{◌==◌, if◌then◌else◌}

-- A write to a field of the object `i`.
abbrev pub write {ℓ} : {A : Type ℓ} → (ℕ → A) → ℕ → A → ℕ → A
write items i e j = if i == j then e else items j

unfoldable pub mem : ℕ → List ℕ → Bool
mem i [] = false
mem i (j ∷ js) = j == i || mem i js

-- No object stands twice in a list.
abbrev pub Nodup : List ℕ → Type 0
Nodup [] = Unit
Nodup (i ∷ js) = (mem i js ≡ false) × Nodup js

pub mem-append : (i : ℕ) (js ks : List ℕ) → mem i (js ++ ks) ≡ (mem i js || mem i ks)
unfolding mem
mem-append i [] ks = refl
mem-append i (j ∷ js) ks = ground (arith, mem-append i js ks)

pub append-Nodup :
    (js ks : List ℕ)
    → Nodup js
    → Nodup ks
    → ((i : ℕ) → mem i js ≡ true → mem i ks ≡ false)
    → Nodup (js ++ ks)
unfolding mem
append-Nodup [] ks d e h = e
append-Nodup (j ∷ js) ks d e h =
    let here : mem j ks ≡ false = h j (ground arith) in
    (
      ground (arith, mem-append j js ks, d.0, here),
      append-Nodup js ks (d.1) e (λ i m. h i (ground (arith, m))),
    )
