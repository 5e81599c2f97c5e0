-- ===== src/Collection/SafeMap.antt =====
-- core/collection/safemap.go: a map in two generations, so that its memory can be released.
pub mod Contents
pub mod Sizes
use go_zero_update.Common.{
  ℕ, ◌+◌, Bool, true, false, ◌&&◌, List, [], ◌∷◌, ◌++◌, Option, none, some, ltb, leb, if◌then◌else◌,
  length,
}
use go_zero_update.Common.Maps.{Eq, is_some, or_else, lookup, store, delete, store_all}

abbrev pub copy_threshold : ℕ
copy_threshold = 1000

abbrev pub max_deletion : ℕ
max_deletion = 10000

-- `SafeMap`, without its lock.
pub record SafeMap {ℓ κ} (K : Type ℓ) (V : Type κ) : Type (ℓ ⊔ κ) where
  pub deletion_old : ℕ
  pub deletion_new : ℕ
  pub dirty_old : List (K × V)
  pub dirty_new : List (K × V)

module _ {ℓ κ} {K : Type ℓ} {V : Type κ} (eq : Eq K) where
  pub new_safe_map : SafeMap K V
  new_safe_map = record { deletion_old = 0; deletion_new = 0; dirty_old = []; dirty_new = [] }

  -- The three parts of `Del`: the deletion, and the two moves between the generations.
  delete_key : SafeMap K V → K → SafeMap K V
  delete_key m key =
      if is_some (lookup eq key m.dirty_old)
      then record m { dirty_old = delete eq key m.dirty_old; deletion_old = m.deletion_old + 1 }
      else if is_some (lookup eq key m.dirty_new)
      then record m { dirty_new = delete eq key m.dirty_new; deletion_new = m.deletion_new + 1 }
      else m

  retire_old : SafeMap K V → SafeMap K V
  retire_old m =
      if leb max_deletion m.deletion_old && ltb (length m.dirty_old) copy_threshold
      then record {
        dirty_old = store_all eq m.dirty_old m.dirty_new;
        deletion_old = m.deletion_new;
        dirty_new = [];
        deletion_new = 0;
      }
      else m

  retire_new : SafeMap K V → SafeMap K V
  retire_new m =
      if leb max_deletion m.deletion_new && ltb (length m.dirty_new) copy_threshold
      then record m {
        dirty_old = store_all eq m.dirty_new m.dirty_old;
        dirty_new = [];
        deletion_new = 0;
      }
      else m

  pub del : SafeMap K V → K → SafeMap K V
  unfolding delete_key retire_old retire_new
  del m key = retire_new (retire_old (delete_key m key))

  pub get : SafeMap K V → K → Option V
  get m key = or_else (lookup eq key m.dirty_old) (lookup eq key m.dirty_new)

  pub set : SafeMap K V → K → V → SafeMap K V
  set m key value =
      if leb m.deletion_old max_deletion
      then (if is_some (lookup eq key m.dirty_new)
          then record m {
            dirty_new = delete eq key m.dirty_new;
            deletion_new = m.deletion_new + 1;
            dirty_old = store eq key value m.dirty_old;
          }
          else record m { dirty_old = store eq key value m.dirty_old })
      else if is_some (lookup eq key m.dirty_old)
      then record m {
        dirty_old = delete eq key m.dirty_old;
        deletion_old = m.deletion_old + 1;
        dirty_new = store eq key value m.dirty_new;
      }
      else record m { dirty_new = store eq key value m.dirty_new }

  -- One of the loops of `Range`: the calls of `f`, and whether to go on with the next map.
  range_over : (K → V → Bool) → List (K × V) → List (K × V) × Bool
  range_over f [] = ([], true)
  range_over f ((k, v) ∷ m) =
      let (calls, go_on) = range_over f m in
      if f k v then ((k, v) ∷ calls, go_on) else ((k, v) ∷ [], false)

  -- The calls of `f` that `Range` makes, in order.
  pub range : SafeMap K V → (K → V → Bool) → List (K × V)
  unfolding range_over
  range m f =
      let (calls, go_on) = range_over f m.dirty_old in
      if go_on then calls ++ (range_over f m.dirty_new).0 else calls

  pub size : SafeMap K V → ℕ
  size m = length m.dirty_old + length m.dirty_new
