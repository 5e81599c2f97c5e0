-- ===== src/Collection/Cache/Runs.antt =====
-- Calls of the cache of core/collection/cache.go, against a list of entries, the last used first.
use go_zero_update.Common.{
  ℕ, ◌<◌, ◌≤◌, ◌≡◌, refl, true, List, [], ◌∷◌, Option, none, some, ltb, length, arith, inl, inr,
  Bool-cases,
}
use go_zero_update.Common.Maps.{
  Eq, is_some, lookup, store, delete, lookup-store, lookup-delete, delete-Distinct, store-Distinct,
  length-store, length-delete,
}
use go_zero_update.Collection.Cache.{
  Cache, remove_element, lru_remove, new_key_lru, new_cache, on_evict, forget, del, do_get,
  set_with_expire,
}
use go_zero_update.Collection.Cache.Keys.{delete-absent}
use go_zero_update.Collection.Cache.Refine.{put_first, Refines, touch-Refines, remove_element-LruOf}

pub data Call {ℓ κ} (K : Type ℓ) (V : Type κ) : Type (ℓ ⊔ κ) where
  get_call : K → Call K V
  set_call : K → V → ℕ → Call K V
  del_call : K → Call K V

module _ {ℓ κ} {K : Type ℓ} {V : Type κ} (eq : Eq K) where
  -- A call with its answer, if it is a `Get`.
  unfoldable pub step : Call K V → Cache K V → Option V × Cache K V
  step (get_call key) c = ((do_get eq c key).0, (do_get eq c key).1.0)
  step (set_call key v expiry) c = (none, (set_with_expire eq c key v expiry).0)
  step (del_call key) c = (none, (del eq c key).0)

  -- What it should do to the list of entries.
  unfoldable pub list_step : ℕ → Call K V → List (K × V) → Option V × List (K × V)
  list_step limit (get_call key) s = elim (lookup eq key s) [
    | none ↦ (none, s)
    | some v ↦ (some v, put_first eq limit key v s)
  ]
  list_step limit (set_call key v expiry) s = (none, put_first eq limit key v s)
  list_step limit (del_call key) s = (none, delete eq key s)

  unfoldable pub run : List (Call K V) → Cache K V → List (Option V) × Cache K V
  run [] c = ([], c)
  run (call ∷ calls) c =
      let (answer, c') = step call c in
      let (answers, last) = run calls c' in (answer ∷ answers, last)

  unfoldable pub list_run : ℕ → List (Call K V) → List (K × V) → List (Option V) × List (K × V)
  list_run limit [] s = ([], s)
  list_run limit (call ∷ calls) s =
      let (answer, s') = list_step limit call s in
      let (answers, last) = list_run limit calls s' in (answer ∷ answers, last)

  set-Refines :
      (limit : ℕ) (c : Cache K V) (s : List (K × V)) (key : K) (v : V) (expiry : ℕ)
      → Refines eq limit c s
      → Refines eq limit (set_with_expire eq c key v expiry).0 (put_first eq limit key v s)
  unfolding set_with_expire
  set-Refines limit c s key v expiry h =
      touch-Refines eq limit (record c { data_map = store eq key v c.data_map }) (h.lru) s key v
        (h.with_lru) (h.lru_of) (h.distinct) (h.bounded)
        (store-Distinct eq key v c.data_map (h.data_distinct))
        (λ k. ground (arith, lookup-store eq key k v c.data_map, h.same_data k))
        (ground (arith, length-store eq key v c.data_map, h.same_data key, h.same_size))

  get-Refines :
      (limit : ℕ) (c : Cache K V) (s : List (K × V)) (key : K) (o : Option V)
      → lookup eq key s ≡ o
      → Refines eq limit c s
      → ((step (get_call key) c).0 ≡ (list_step limit (get_call key) s).0)
        × Refines eq limit (step (get_call key) c).1 (list_step limit (get_call key) s).1
  unfolding step list_step do_get
  get-Refines limit c s key none e h = rw (step, list_step, do_get, h.same_data key, e) (refl, h)
  get-Refines limit c s key (some v) e h =
      rw (step, list_step, do_get, h.same_data key, e)
        (
          refl,
          touch-Refines eq limit c (h.lru) s key v (h.with_lru) (h.lru_of) (h.distinct) (h.bounded)
              (h.data_distinct) (λ k. ground (arith, h.same_data k, eq.beq_iff key k, e))
              (ground (arith, h.same_size, e)),
        )

  del-Refines :
      (limit : ℕ) (c : Cache K V) (s : List (K × V)) (key : K)
      → Refines eq limit c s
      → Refines eq limit (del eq c key).0 (delete eq key s)
  unfolding del forget lru_remove on_evict
  del-Refines limit c s key h = elim (Bool-cases (is_some (lookup eq key s))) [
    | inl e ↦
        let found : lookup eq key (h.lru).elements ≡ some key =
          ground (arith, (h.lru_of).same_elements key) in
        let twice : delete eq key (delete eq key c.data_map) ≡ delete eq key c.data_map =
          delete-absent eq key (delete eq key c.data_map)
            (ground (arith, lookup-delete eq key key c.data_map, eq.beq_iff key key)) in
        rw (forget, h.with_lru, lru_remove, found, twice)
          (record {
            lru = remove_element eq (h.lru) key;
            with_lru = refl;
            lru_of = remove_element-LruOf eq limit (h.lru) s key (h.distinct) (h.lru_of);
            same_data = λ k.
                ground (
                  arith,
                  lookup-delete eq key k c.data_map,
                  lookup-delete eq key k s,
                  h.same_data k,
                );
            distinct = delete-Distinct eq key s (h.distinct);
            data_distinct = delete-Distinct eq key c.data_map (h.data_distinct);
            same_size = ground (
              arith,
              h.same_size,
              h.same_data key,
              length-delete eq key s (h.distinct),
              length-delete eq key c.data_map (h.data_distinct),
            );
            bounded = ground (arith, h.bounded, length-delete eq key s (h.distinct));
          })
    | inr e ↦
        let unlisted : lookup eq key (h.lru).elements ≡ none =
          ground (arith, (h.lru_of).same_elements key) in
        let gone = delete-absent eq key c.data_map (ground (arith, h.same_data key)) in
        let kept = delete-absent eq key s (ground (arith, e)) in
        rw (forget, h.with_lru, lru_remove, unlisted, gone, kept)
          (record {
            lru = h.lru;
            with_lru = refl;
            lru_of = h.lru_of;
            same_data = h.same_data;
            distinct = h.distinct;
            data_distinct = h.data_distinct;
            same_size = h.same_size;
            bounded = h.bounded;
          })
  ]

  step-Refines :
      (limit : ℕ) (call : Call K V) (c : Cache K V) (s : List (K × V))
      → Refines eq limit c s
      → ((step call c).0 ≡ (list_step limit call s).0)
        × Refines eq limit (step call c).1 (list_step limit call s).1
  unfolding step list_step
  step-Refines limit (get_call key) c s h = get-Refines limit c s key (lookup eq key s) refl h
  step-Refines limit (set_call key v expiry) c s h = (refl, set-Refines limit c s key v expiry h)
  step-Refines limit (del_call key) c s h = (refl, del-Refines limit c s key h)

  run-Refines :
      (limit : ℕ) (calls : List (Call K V)) (c : Cache K V) (s : List (K × V))
      → Refines eq limit c s
      → ((run calls c).0 ≡ (list_run limit calls s).0)
        × Refines eq limit (run calls c).1 (list_run limit calls s).1
  unfolding run list_run
  run-Refines limit [] c s h = (refl, h)
  run-Refines limit (call ∷ calls) c s h =
      let (answer, h') = step-Refines limit call c s h in
      let (answers, last) = run-Refines limit calls (step call c).1 (list_step limit call s).1 h' in
      (rw (answer, answers) refl, last)

  new_cache-Refines : (limit : ℕ) → 0 < limit → Refines {V = V} eq limit (new_cache eq limit) []
  unfolding new_cache lookup
  new_cache-Refines limit h =
      let limited : ltb 0 limit ≡ true = ground arith in
      rw limited (record {
        lru = new_key_lru limit;
        with_lru = refl;
        lru_of = record { same_limit = refl; same_keys = refl; same_elements = λ k. refl };
        same_data = λ k. refl;
        distinct = tt;
        data_distinct = tt;
        same_size = refl;
        bounded = omega arith;
      })

  -- Any calls of `Get`, `Set` and `Del` on a new cache with a limit above 0 answer like a list of
  -- entries on which an entry that is read or set comes to the front, and the last one goes if
  -- there are more than the limit. The cache then holds the entries of the list, as many as the
  -- list does, and never more than the limit.
  pub run-new_cache :
      (limit : ℕ) (calls : List (Call K V))
      → 0 < limit
      → ((run calls (new_cache eq limit)).0 ≡ (list_run limit calls []).0)
        × (((k : K)
              → lookup eq k (run calls (new_cache eq limit)).1.data_map
                ≡ lookup eq k (list_run limit calls []).1)
            × ((length (run calls (new_cache eq limit)).1.data_map
                  ≡ length (list_run limit calls []).1)
                × (length (run calls (new_cache eq limit)).1.data_map ≤ limit)))
  run-new_cache limit calls h =
      let (answers, r) =
        run-Refines limit calls (new_cache eq limit) [] (new_cache-Refines limit h) in
      (answers, (r.same_data, (r.same_size, ground (arith, r.same_size, r.bounded))))
