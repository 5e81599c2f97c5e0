-- ===== src/Collection/Cache/Refine.antt =====
-- The cache of core/collection/cache.go with a limit, against a list of entries, the last used first.
use go_zero_update.Common.{
  ℕ, suc, ◌≤◌, ◌≡◌, refl, sym, ap, ◌∙◌, true, List, ◌∷◌, none, some, ltb, if◌then◌else◌, length,
  arith, inl, inr, Bool-cases,
}
use go_zero_update.Common.Maps.{
  Eq, is_some, lookup, delete, Distinct, lookup-store, lookup-delete, delete-Distinct,
  length-delete,
}
use go_zero_update.Collection.Cache.{
  KeyLru, Cache, back, remove_from, remove_element, remove_oldest, push_key, lru_add, on_evict,
  touch,
}
use go_zero_update.Collection.Cache.Keys.{
  keys, drop_last, length-keys, back-keys, keys-delete, back-lookup, drop_last-delete,
}

remove_oldest-back {ℓ} :
    {K : Type ℓ}
    → (eq : Eq K) (l : KeyLru K) (e : K) → back l.evicts ≡ some e
    → remove_oldest eq l ≡ (remove_element eq l e, some e)
unfolding remove_oldest
remove_oldest-back eq l e h = rw (remove_oldest, h) refl

module _ {ℓ κ} {K : Type ℓ} {V : Type κ} (eq : Eq K) where
  -- What using an entry does to the list: it comes to the front, and the last one goes if there are
  -- more than `limit`.
  unfoldable pub put_first : ℕ → K → V → List (K × V) → List (K × V)
  put_first limit key v s =
      if is_some (lookup eq key s)
      then (key, v) ∷ delete eq key s
      else if ltb limit (suc (length s))
      then drop_last ((key, v) ∷ s)
      else (key, v) ∷ s

  pub record LruOf (limit : ℕ) (l : KeyLru K) (s : List (K × V)) : Type (ℓ ⊔ κ) where
    pub same_limit : l.limit ≡ limit
    pub same_keys : l.evicts ≡ keys s
    pub same_elements :
        (k : K) → lookup eq k l.elements ≡ (if is_some (lookup eq k s) then some k else none)

  pub remove_element-LruOf :
      (limit : ℕ) (l : KeyLru K) (s : List (K × V)) (e : K)
      → Distinct eq s
      → LruOf limit l s
      → LruOf limit (remove_element eq l e) (delete eq e s)
  unfolding remove_element
  remove_element-LruOf limit l s e d h = record {
    same_limit = h.same_limit;
    same_keys = ap (remove_from eq e) (h.same_keys) ∙ sym (keys-delete eq e s d);
    same_elements = λ k.
        ground (arith, lookup-delete eq e k l.elements, lookup-delete eq e k s, h.same_elements k);
  }

  -- An entry that is there comes to the front.
  lru_add-present :
      (limit : ℕ) (l : KeyLru K) (s : List (K × V)) (key : K) (v : V)
      → Distinct eq s
      → is_some (lookup eq key s) ≡ true
      → LruOf limit l s
      → ((lru_add eq l key).1 ≡ none)
        × LruOf limit (lru_add eq l key).0 ((key, v) ∷ delete eq key s)
  unfolding lru_add lookup
  lru_add-present limit l s key v d p h =
      let found : lookup eq key l.elements ≡ some key = ground (arith, h.same_elements key) in
      rw (lru_add, found)
        (
          refl,
          record {
            same_limit = h.same_limit;
            same_keys =
                ap (λ ks. key ∷ remove_from eq key ks) (h.same_keys)
                ∙ ap (λ ks. key ∷ ks) (sym (keys-delete eq key s d));
            same_elements =
                λ k. ground (arith, lookup-delete eq key k s, h.same_elements k, eq.beq_iff key k);
          },
        )

  push_key-LruOf :
      (limit : ℕ) (l : KeyLru K) (s : List (K × V)) (key : K) (v : V)
      → LruOf limit l s
      → LruOf limit (push_key eq l key) ((key, v) ∷ s)
  unfolding lookup push_key
  push_key-LruOf limit l s key v h = record {
    same_limit = h.same_limit;
    same_keys = ap (λ ks. key ∷ ks) (h.same_keys);
    same_elements = λ k.
        ground (arith, lookup-store eq key k key l.elements, h.same_elements k, eq.beq_iff key k);
  }

  -- The end of `add` for a new key.
  lru_add-absent :
      (limit : ℕ) (l : KeyLru K) (s : List (K × V)) (key : K)
      → lookup eq key s ≡ none
      → LruOf limit l s
      → lru_add eq l key ≡ (
          if ltb limit (suc (length s))
          then remove_oldest eq (push_key eq l key)
          else (push_key eq l key, none))
  unfolding lru_add push_key
  lru_add-absent limit l s key p h =
      let found : lookup eq key l.elements ≡ none = ground (arith, h.same_elements key) in
      let long : length l.evicts ≡ length s = ap length (h.same_keys) ∙ length-keys s in
      rw (lru_add, found, h.same_limit, long) refl

  -- The cache keeps the entries of the list.
  pub record Refines (limit : ℕ) (c : Cache K V) (s : List (K × V)) : Type (ℓ ⊔ κ) where
    pub lru : KeyLru K
    pub with_lru : c.lru_cache ≡ some lru
    pub lru_of : LruOf limit lru s
    pub same_data : (k : K) → lookup eq k c.data_map ≡ lookup eq k s
    pub distinct : Distinct eq s
    pub data_distinct : Distinct eq c.data_map
    pub same_size : length c.data_map ≡ length s
    pub bounded : length s ≤ limit

  -- `add` of the list of keys, for a key whose entry is already in the data.
  pub touch-Refines :
      (limit : ℕ) (c : Cache K V) (l : KeyLru K) (s : List (K × V)) (key : K) (v : V)
      → c.lru_cache ≡ some l
      → LruOf limit l s
      → Distinct eq s
      → length s ≤ limit
      → Distinct eq c.data_map
      → ((k : K) → lookup eq k c.data_map ≡ (if eq.beq key k then some v else lookup eq k s))
      → length c.data_map ≡ (if is_some (lookup eq key s) then length s else suc (length s))
      → Refines limit (touch eq c key).0 (put_first limit key v s)
  unfolding touch on_evict put_first lookup
  touch-Refines limit c l s key v w h d b dd same size =
      elim (Bool-cases (is_some (lookup eq key s))) [
        | inl e ↦
            let moved = lru_add-present limit l s key v d e h in
            rw (w, moved.0, e)
              (record {
                lru = (lru_add eq l key).0;
                with_lru = refl;
                lru_of = moved.1;
                same_data = λ k. same k ∙ ground (arith, lookup-delete eq key k s);
                distinct = (
                  ground (arith, lookup-delete eq key key s, eq.beq_iff key key),
                  delete-Distinct eq key s d,
                );
                data_distinct = dd;
                same_size = ground (arith, size, length-delete eq key s d);
                bounded = ground (arith, b, length-delete eq key s d);
              })
        | inr e ↦
            let absent : lookup eq key s ≡ none = ground (arith, e) in
            let pushed = push_key-LruOf limit l s key v h in
            let added = lru_add-absent limit l s key absent h in
            elim (Bool-cases (ltb limit (suc (length s)))) [
              | inl f ↦
                  let (last, at_back) = back-keys (key, v) s in
                  let step : lru_add eq l key
                      ≡ (remove_element eq (push_key eq l key) last, some last) =
                    added
                    ∙ rw f (
                        remove_oldest-back eq (push_key eq l key) last
                          (ap back (pushed.same_keys) ∙ at_back)) in
                  let gone : drop_last ((key, v) ∷ s) ≡ delete eq last ((key, v) ∷ s) =
                    drop_last-delete eq last ((key, v) ∷ s) (absent, d) at_back in
                  let there = back-lookup eq last ((key, v) ∷ s) at_back in
                  let shorter = length-delete eq last ((key, v) ∷ s) (absent, d) in
                  rw (w, step, e, f, gone)
                    (record {
                      lru = remove_element eq (push_key eq l key) last;
                      with_lru = refl;
                      lru_of =
                          remove_element-LruOf limit (push_key eq l key) ((key, v) ∷ s) last
                            (absent, d) pushed;
                      same_data = λ k. ground (
                        arith,
                        same k,
                        lookup-delete eq last k c.data_map,
                        lookup-delete eq last k ((key, v) ∷ s),
                      );
                      distinct = delete-Distinct eq last ((key, v) ∷ s) (absent, d);
                      data_distinct = delete-Distinct eq last c.data_map dd;
                      same_size = ground (
                        arith,
                        size,
                        e,
                        there,
                        shorter,
                        same last,
                        length-delete eq last c.data_map dd,
                      );
                      bounded = ground (arith, there, shorter, b);
                    })
              | inr f ↦
                  let step : lru_add eq l key ≡ (push_key eq l key, none) = added ∙ rw f refl in
                  rw (w, step, e, f)
                    (record {
                      lru = push_key eq l key;
                      with_lru = refl;
                      lru_of = pushed;
                      same_data = λ k. same k;
                      distinct = (absent, d);
                      data_distinct = dd;
                      same_size = ground (arith, size, e);
                      bounded = ground (arith, f);
                    })
            ]
      ]
