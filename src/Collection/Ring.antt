-- ===== src/Collection/Ring.antt =====
-- core/collection/ring.go: the fixed size ring that keeps the last items added.
pub mod Recent
use go_zero_update.Common.{
  ℕ, ◌+◌, ◌-◌, ◌*◌, ◌%◌, List, leb, ltb, ◌==◌, if◌then◌else◌, Outcome, returns, panics, length, set,
  replicate,
}
use go_zero_update.Common.Circular.{circular}

-- `Ring`, without its lock.
pub record Ring {ℓ} (A : Type ℓ) : Type ℓ where
  pub elements : List A
  pub index : ℕ

-- `r.index -= rlen` once the index reaches `rlen<<1`.
pub wrap_index : ℕ → ℕ → ℕ
wrap_index index rlen = if leb (rlen * 2) index then index - rlen else index

module _ {ℓ} {A : Type ℓ} (nil : A) where
  -- `NewRing`, which refuses a size below 1.
  unfoldable pub new_ring : ℕ → Outcome (Ring A)
  new_ring n =
      if ltb n 1 then panics else returns (record { elements = replicate n nil; index = 0 })

  -- The write is in range, since a ring of `new_ring` is not empty.
  pub add : Ring A → A → Ring A
  unfolding wrap_index
  add r v = record {
    elements = set r.elements (r.index % length r.elements) v;
    index = wrap_index (r.index + 1) (length r.elements);
  }

  -- `Take`: the `size` elements from `start` on, each index modulo the length.
  pub take_all : Ring A → List A
  take_all r =
      let rlen = length r.elements in
      let size = if ltb rlen r.index then rlen else r.index in
      let start = if ltb rlen r.index then r.index % rlen else 0 in
      circular nil r.elements start size
