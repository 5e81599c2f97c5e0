-- ===== src/Collection/Cache/Keys.antt =====
-- The keys of a list of entries, as the list of keys of core/collection/cache.go holds them.
use go_zero_update.Common.{
  suc, ◌≡◌, refl, sym, ap, ◌∙◌, true, List, [], ◌∷◌, none, some, length, arith, inl, inr,
  Bool-cases,
}
use go_zero_update.Common.Maps.{Eq, is_some, lookup, delete, Distinct}
use go_zero_update.Collection.Cache.{back, remove_from}

module _ {ℓ κ} {K : Type ℓ} {V : Type κ} where
  abbrev pub keys : List (K × V) → List K
  keys [] = []
  keys ((k, v) ∷ s) = k ∷ keys s

  abbrev pub drop_last : List (K × V) → List (K × V)
  drop_last [] = []
  drop_last (p ∷ []) = []
  drop_last (p ∷ q ∷ s) = p ∷ drop_last (q ∷ s)

  pub length-keys : (s : List (K × V)) → length (keys s) ≡ length s
  length-keys [] = refl
  length-keys ((k, v) ∷ s) = ap suc (length-keys s)

  pub back-keys : (p : K × V) (s : List (K × V)) → (e : K) × (back (keys (p ∷ s)) ≡ some e)
  unfolding back
  back-keys p [] = (p.0, refl)
  back-keys p (q ∷ s) = back-keys q s

  module _ (eq : Eq K) where
    pub delete-absent : (k : K) (s : List (K × V)) → lookup eq k s ≡ none → delete eq k s ≡ s
    unfolding lookup delete
    delete-absent k [] h = refl
    delete-absent k ((j, v) ∷ s) h = ground (arith, delete-absent k s)

    pub keys-delete :
        (k : K) (s : List (K × V))
        → Distinct eq s
        → keys (delete eq k s) ≡ remove_from eq k (keys s)
    unfolding delete remove_from
    keys-delete k [] d = refl
    keys-delete k ((j, v) ∷ s) d = elim (Bool-cases (eq.beq j k)) [
      | inl e ↦
          let absent : lookup eq k s ≡ none =
            ap (λ i. lookup eq i s) (sym ((eq.beq_iff j k).0 e)) ∙ d.0 in
          rw (e, delete-absent k s absent) refl
      | inr e ↦ rw (e, keys-delete k s (d.1)) refl
    ]

    pub back-lookup :
        (e : K) (s : List (K × V)) → back (keys s) ≡ some e → is_some (lookup eq e s) ≡ true
    unfolding back lookup
    back-lookup e [] h = cc
    back-lookup e ((k, v) ∷ []) h = ground (arith, eq.beq_iff k e)
    back-lookup e ((k, v) ∷ q ∷ s) h = ground (arith, back-lookup e (q ∷ s))

    -- Without its last entry a list is without the key of that entry.
    pub drop_last-delete :
        (e : K) (s : List (K × V))
        → Distinct eq s
        → back (keys s) ≡ some e
        → drop_last s ≡ delete eq e s
    unfolding back delete
    drop_last-delete e [] d h = refl
    drop_last-delete e ((k, v) ∷ []) d h = ground (arith, eq.beq_iff k e)
    drop_last-delete e ((k, v) ∷ q ∷ s) d h = ground (
      arith,
      drop_last-delete e (q ∷ s) (d.1) h,
      back-lookup e (q ∷ s) h,
      eq.beq_iff k e,
      ap (λ i. lookup eq i (q ∷ s)),
    )
