-- ===== src/Collection/Cache.antt =====
-- core/collection/cache.go: the cache and its list of the keys used last, without the timing wheel,
-- whose calls are results, and without the statistics.
--
-- An element of the list is named by the key that it holds: the keys of the list differ.
pub mod Keys
pub mod Refine
pub mod Runs
use go_zero_update.Common.{
  ℕ, zero, suc, List, [], ◌∷◌, ◌++◌, Option, none, some, ltb, if◌then◌else◌, length,
}
use go_zero_update.Common.Maps.{Eq, is_some, lookup, store, delete}

-- `keyLru`; its `onEvict` is `on_evict` of the cache.
pub record KeyLru {ℓ} (K : Type ℓ) : Type ℓ where
  pub limit : ℕ
  pub evicts : List K
  pub elements : List (K × K)

-- `Cache`: its data, and its `lruCache`, with `none` for `emptyLru`.
pub record Cache {ℓ κ} (K : Type ℓ) (V : Type κ) : Type (ℓ ⊔ κ) where
  pub data_map : List (K × V)
  pub lru_cache : Option (KeyLru K)

-- The calls of the timing wheel.
pub data Timer {ℓ κ} (K : Type ℓ) (V : Type κ) : Type (ℓ ⊔ κ) where
  set_timer : K → V → ℕ → Timer K V
  move_timer : K → ℕ → Timer K V
  remove_timer : K → Timer K V

module _ {ℓ} {K : Type ℓ} where
  -- `Back` of the list.
  unfoldable pub back : List K → Option K
  back [] = none
  back (k ∷ []) = some k
  back (k ∷ j ∷ ks) = back (j ∷ ks)

  module _ (eq : Eq K) where
    open eq use {beq}

    -- `Remove` of the list.
    unfoldable pub remove_from : K → List K → List K
    remove_from e [] = []
    remove_from e (k ∷ ks) = if beq k e then ks else k ∷ remove_from e ks

    unfoldable pub remove_element : KeyLru K → K → KeyLru K
    remove_element l e = record l {
      evicts = remove_from e l.evicts;
      elements = delete eq e l.elements;
    }

    -- `removeOldest`, with the key for `onEvict`.
    unfoldable pub remove_oldest : KeyLru K → KeyLru K × Option K
    remove_oldest l = elim (back l.evicts) [
      | none ↦ (l, none)
      | some e ↦ (remove_element l e, some e)
    ]

    -- A new item in front.
    unfoldable pub push_key : KeyLru K → K → KeyLru K
    push_key l key = record l { evicts = key ∷ l.evicts; elements = store eq key key l.elements }

    -- `add` and `remove` of `keyLru`, with the key for `onEvict`.
    unfoldable pub lru_add : KeyLru K → K → KeyLru K × Option K
    unfolding push_key
    lru_add l key = elim (lookup eq key l.elements) [
      | some e ↦ (record l { evicts = e ∷ remove_from e l.evicts }, none)
      | none ↦
          if ltb l.limit (length (push_key l key).evicts)
          then remove_oldest (push_key l key)
          else (push_key l key, none)
    ]

    unfoldable pub lru_remove : KeyLru K → K → KeyLru K × Option K
    lru_remove l key = elim (lookup eq key l.elements) [
      | some e ↦ (remove_element l e, some e)
      | none ↦ (l, none)
    ]

-- `newKeyLru`.
abbrev pub new_key_lru {ℓ} : {K : Type ℓ} → ℕ → KeyLru K
new_key_lru limit = record { limit = limit; evicts = []; elements = [] }

module _ {ℓ κ} {K : Type ℓ} {V : Type κ} (eq : Eq K) where
  -- `NewCache`, with a limit as `WithLimit` sets it, where 0 is no limit.
  unfoldable pub new_cache : ℕ → Cache K V
  new_cache limit = record {
    data_map = [];
    lru_cache = if ltb 0 limit then some (new_key_lru limit) else none;
  }

  -- `onEvict`.
  unfoldable pub on_evict : Cache K V → Option K → Cache K V × List (Timer K V)
  on_evict c none = (c, [])
  on_evict c (some key) = (record c { data_map = delete eq key c.data_map }, remove_timer key ∷ [])

  -- `c.lruCache.add(key)` and `c.lruCache.remove(key)`.
  unfoldable pub touch : Cache K V → K → Cache K V × List (Timer K V)
  touch c key = elim (c.lru_cache) [
    | none ↦ (c, [])
    | some l ↦ on_evict (record c { lru_cache = some (lru_add eq l key).0 }) (lru_add eq l key).1
  ]

  unfoldable pub forget : Cache K V → K → Cache K V × List (Timer K V)
  forget c key = elim (c.lru_cache) [
    | none ↦ (c, [])
    | some l ↦
        on_evict (record c { lru_cache = some (lru_remove eq l key).0 }) (lru_remove eq l key).1
  ]

  -- `Del`.
  unfoldable pub del : Cache K V → K → Cache K V × List (Timer K V)
  del c key =
      let (c', timers) = forget (record c { data_map = delete eq key c.data_map }) key in
      (c', timers ++ remove_timer key ∷ [])

  -- `doGet`.
  unfoldable pub do_get : Cache K V → K → Option V × (Cache K V × List (Timer K V))
  do_get c key = elim (lookup eq key c.data_map) [
    | none ↦ (none, (c, []))
    | some v ↦ (some v, touch c key)
  ]

  -- `SetWithExpire`; `expiry` is the unstable expiry.
  unfoldable pub set_with_expire : Cache K V → K → V → ℕ → Cache K V × List (Timer K V)
  set_with_expire c key value expiry =
      let (c', timers) = touch (record c { data_map = store eq key value c.data_map }) key in
      (
        c',
        timers
            ++ (if is_some (lookup eq key c.data_map)
                then move_timer key expiry
                else set_timer key value expiry)
              ∷ [],
      )
