-- ===== src/Search/Tree/Finding.antt =====
-- What `Search` of core/search/tree.go finds: an item whose keys match the path, if there is one.
use go_zero_update.Common.{
  ℕ, ◌≡◌, refl, ap, ◌∙◌, Bool, true, false, ◌&&◌, List, [], ◌∷◌, ◌++◌, ◌==◌, if◌then◌else◌, arith,
  Option, none, some, inl, inr, Bool-cases, Outcome, returns,
}
use go_zero_update.Common.Maps.{store}
use go_zero_update.Search.Tree.{
  Bytes, slash, colon, starts, is_nil, bytes_eq, bytes_eq_iff, bytes, Node, node, Children, nil,
  child, Params, lookup_child, get_children, match, visit, for_each, enter_next, try_below,
  try_leaf, next_from, next, search_route,
}
use go_zero_update.Search.Tree.Segments.{
  split_from, split, split_from-cons, split_from-first, split_from-next, split_from-slash,
  accepts_segment, accepts, params_of,
}
use go_zero_update.Search.Tree.Keys.{item_at}
use go_zero_update.Search.Tree.Invariant.{well_formed, well_keyed, lookup_child-well_formed}

accepts-cons :
    (k t u : Bytes) (ks us : List Bytes)
    → accepts (k ∷ ks) (t ∷ u ∷ us) ≡ (accepts_segment k t && accepts ks (u ∷ us))
unfolding accepts
accepts-cons k t u [] us = refl
accepts-cons k t u (j ∷ ks) us = refl

-- A path that goes on does not end at the node.
accepts-onward : (c : ℕ) (route : Bytes) → accepts [] (split_from (c ∷ route) []) ≡ false
unfolding accepts
accepts-onward c route = elim (Bool-cases (c == slash)) [
  | inl e ↦
      let (u, (us, cut)) = split_from-cons route [] in rw (split_from-slash c route [] e, cut) refl
  | inr e ↦
      let (t, (ts, (cut, f))) = split_from-first route (c ∷ []) refl in
      rw (split_from-next c route [] e, cut) (full t ts f)
]
  where
    full : (t : Bytes) (ts : List Bytes) → is_nil t ≡ false → accepts [] (t ∷ ts) ≡ false
    full t [] f = f
    full t (u ∷ ts) f = refl

module _ {ℓ} {A : Type ℓ} where
  -- `o` is a right answer to a search for the segments `ts` from `n`: the item at some keys that match
  -- them, with the parameters of the match, or nothing if there is no such item.
  abbrev pub Answer : List Bytes → Node A → Option (A × Params) → Type ℓ
  Answer ts n none = (ks : List Bytes) → (if accepts ks ts then item_at ks n else none) ≡ none
  Answer ts n (some (x, params)) =
      (ks : List Bytes) × ((item_at ks n ≡ some x)
        × ((accepts ks ts ≡ true) × (params ≡ params_of ks ts)))

  -- The same below the node.
  abbrev AnswerBelow : List Bytes → Node A → Option (A × Params) → Type ℓ
  AnswerBelow ts n none =
      (k : Bytes) (ks : List Bytes)
      → (if accepts (k ∷ ks) ts then item_at (k ∷ ks) n else none) ≡ none
  AnswerBelow ts n (some (x, params)) =
      (k : Bytes) × ((ks : List Bytes) × ((item_at (k ∷ ks) n ≡ some x)
          × ((accepts (k ∷ ks) ts ≡ true) × (params ≡ params_of (k ∷ ks) ts))))

  unfoldable item_in : Children A → Bytes → List Bytes → Option A
  item_in cs k ks = elim (lookup_child k cs) [ none ↦ none | some c ↦ item_at ks c ]

  -- The same in one map of children.
  abbrev AnswerIn : List Bytes → Children A → Option (A × Params) → Type ℓ
  AnswerIn ts cs none =
      (k : Bytes) (ks : List Bytes) → (if accepts (k ∷ ks) ts then item_in cs k ks else none) ≡ none
  AnswerIn ts cs (some (x, params)) =
      (k : Bytes) × ((ks : List Bytes) × ((item_in cs k ks ≡ some x)
          × ((accepts (k ∷ ks) ts ≡ true) × (params ≡ params_of (k ∷ ks) ts))))

  -- The same at one child.
  abbrev AnswerAt : List Bytes → Bytes → Node A → Option (A × Params) → Type ℓ
  AnswerAt ts k c none =
      (ks : List Bytes) → (if accepts (k ∷ ks) ts then item_at ks c else none) ≡ none
  AnswerAt ts k c (some (x, params)) =
      (ks : List Bytes) × ((item_at ks c ≡ some x)
        × ((accepts (k ∷ ks) ts ≡ true) × (params ≡ params_of (k ∷ ks) ts)))

  visit-AnswerIn :
      (b : Bool) (ts : List Bytes) (cs : Children A)
      (fn : Bytes → Node A → Outcome (Option (A × Params)))
      → well_keyed b cs ≡ true
      → ((k : Bytes) (c : Node A)
          → is_nil k ≡ false
          → well_formed c ≡ true
          → (o : Option (A × Params)) × ((fn k c ≡ returns o) × AnswerAt ts k c o))
      → (o : Option (A × Params)) × ((visit fn cs ≡ returns o) × AnswerIn ts cs o)
  unfolding visit well_keyed item_in lookup_child
  visit-AnswerIn b ts nil fn h at = (none, (refl, λ k ks. ground arith))
  visit-AnswerIn b ts (child k c cs) fn h at =
      let (o, (ran, answer)) = at k c (ground arith) (ground arith) in
      first o (visit-AnswerIn b ts cs fn (ground arith) at) ran answer
    where
      onward :
          (o : Option (A × Params))
          → AnswerAt ts k c none
          → AnswerIn ts cs o
          → AnswerIn ts (child k c cs) o
      onward none here later = λ j ks. ground (arith, here ks, later j ks, bytes_eq_iff k j)
      onward (some (x, params)) here (j, (ks, (held, right))) =
          (j, (ks, (ground (arith, bytes_eq_iff k j), right)))

      first :
          (o : Option (A × Params))
          → (o' : Option (A × Params)) × ((visit fn cs ≡ returns o') × AnswerIn ts cs o')
          → fn k c ≡ returns o
          → AnswerAt ts k c o
          → (o' : Option (A × Params)) × ((visit fn (child k c cs) ≡ returns o')
              × AnswerIn ts (child k c cs) o')
      first none (o, (rest, later)) ran answer = (o, (rw (ran, rest) refl, onward o answer later))
      first (some (x, params)) rest ran (ks, (held, right)) =
          (some (x, params), (rw ran refl, (k, (ks, (ground (arith, bytes_eq_iff k k), right)))))

  -- The map that an item stands in is the one of its key.
  item_in-starts :
      (b : Bool) (cs : Children A) (k : Bytes) (ks : List Bytes) (x : A)
      → well_keyed b cs ≡ true
      → item_in cs k ks ≡ some x
      → starts colon k ≡ b
  unfolding item_in
  item_in-starts b cs k ks x h held = by_child (lookup_child k cs) refl held
    where
      by_child :
          (o : Option (Node A))
          → lookup_child k cs ≡ o
          → (elim o [ none ↦ none | some c ↦ item_at ks c ]) ≡ some x
          → starts colon k ≡ b
      by_child none e here = cc
      by_child (some c) e here = (lookup_child-well_formed b k cs c h e).1.0

  for_each-AnswerBelow :
      (ts : List Bytes) (n : Node A) (fn : Bytes → Node A → Outcome (Option (A × Params)))
      → well_formed n ≡ true
      → ((k : Bytes) (c : Node A)
          → is_nil k ≡ false
          → well_formed c ≡ true
          → (o : Option (A × Params)) × ((fn k c ≡ returns o) × AnswerAt ts k c o))
      → (o : Option (A × Params)) × ((for_each fn n ≡ returns o) × AnswerBelow ts n o)
  unfolding for_each well_formed item_at item_in get_children
  for_each-AnswerBelow ts (node item statics params) fn h at =
      both (visit-AnswerIn false ts statics fn (ground arith) at)
        (visit-AnswerIn true ts params fn (ground arith) at)
    where
      n : Node A
      n = node item statics params

      neither :
          (o : Option (A × Params))
          → AnswerIn ts statics none
          → AnswerIn ts params o
          → AnswerBelow ts n o
      neither none left right = λ k ks. ground (arith, left k ks, right k ks)
      neither (some (x, found)) left (k, (ks, (held, right))) =
          (k, (ks, (ground (arith, item_in-starts true params k ks x), right)))

      both :
          (o : Option (A × Params)) × ((visit fn statics ≡ returns o) × AnswerIn ts statics o)
          → (o : Option (A × Params)) × ((visit fn params ≡ returns o) × AnswerIn ts params o)
          → (o : Option (A × Params)) × ((for_each fn n ≡ returns o) × AnswerBelow ts n o)
      both (none, (ran, left)) (o, (ran', right)) = (o, (rw (ran, ran') refl, neither o left right))
      both (some (x, found), (ran, (k, (ks, (held, right))))) other = (
        some (x, found),
        (rw ran refl, (k, (ks, (ground (arith, item_in-starts false statics k ks x), right)))),
      )

  try_leaf-AnswerAt :
      (token k : Bytes) (c : Node A)
      → is_nil k ≡ false
      → (o : Option (A × Params)) × ((try_leaf token k c ≡ returns o) × AnswerAt (token ∷ []) k c o)
  unfolding try_leaf match accepts accepts_segment params_of item_at store
  try_leaf-AnswerAt token [] (node item statics params) h = (none, (cc, λ ks. cc))
  try_leaf-AnswerAt token (b ∷ k) (node none statics params) h =
      (none, (ground arith, λ ks. leafless ks))
    where
      leafless :
          (ks : List Bytes)
          → (if accepts ((b ∷ k) ∷ ks) (token ∷ [])
              then item_at ks (node none statics params)
              else none)
            ≡ none
      leafless [] = ground arith
      leafless (j ∷ ks) = refl
  try_leaf-AnswerAt token (b ∷ k) (node (some x) statics params) h =
      elim (Bool-cases (b == colon)) [
        | inl e ↦ (some (x, (k, token) ∷ []), (rw e refl, ([], (refl, (rw e refl, rw e refl)))))
        | inr e ↦ elim (Bool-cases (bytes_eq (b ∷ k) token)) [
          | inl e' ↦ (some (x, []), (rw (e, e') refl, ([], (refl, (rw (e, e') refl, rw e refl)))))
          | inr e' ↦ (none, (rw (e, e') refl, λ ks. unmatched e e' ks))
        ]
      ]
    where
      unmatched :
          (b == colon) ≡ false
          → bytes_eq (b ∷ k) token ≡ false
          → (ks : List Bytes)
          → (if accepts ((b ∷ k) ∷ ks) (token ∷ [])
              then item_at ks (node (some x) statics params)
              else none)
            ≡ none
      unmatched e e' [] = rw (e, e') refl
      unmatched e e' (j ∷ ks) = refl

  try_below-AnswerAt :
      (token u : Bytes) (us : List Bytes) (k : Bytes) (c : Node A)
      (go : Node A → Outcome (Option (A × Params)))
      → is_nil k ≡ false
      → (o : Option (A × Params)) × ((go c ≡ returns o) × Answer (u ∷ us) c o)
      → (o : Option (A × Params)) × ((try_below token go k c ≡ returns o)
          × AnswerAt (token ∷ u ∷ us) k c o)
  unfolding try_below match accepts accepts_segment params_of
  try_below-AnswerAt token u us [] c go h below = (none, (cc, λ ks. cc))
  try_below-AnswerAt token u us (b ∷ k) c go h (none, (ran, nothing)) = (
    none,
    (ground (arith, ran), λ ks. ground (arith, nothing ks, accepts-cons (b ∷ k) token u ks us)),
  )
  try_below-AnswerAt token u us (b ∷ k) c go h
        (some (x, params), (ran, (ks, (held, (fits, same))))) =
      elim (Bool-cases (b == colon)) [
        | inl e ↦ (
          some (x, store bytes k token params),
          (
            rw (e, ran) refl,
            (
              ks,
              (
                held,
                (
                  accepts-cons (b ∷ k) token u ks us ∙ ground (arith, fits, e),
                  rw e (ap (store bytes k token) same),
                ),
              ),
            ),
          ),
        )
        | inr e ↦ elim (Bool-cases (bytes_eq (b ∷ k) token)) [
          | inl e' ↦ (
            some (x, params),
            (
              rw (e, e', ran) refl,
              (
                ks,
                (held, (accepts-cons (b ∷ k) token u ks us ∙ ground (arith, fits, e'), rw e same)),
              ),
            ),
          )
          | inr e' ↦ (
            none,
            (rw (e, e') refl, λ ks. ground (arith, e, e', accepts-cons (b ∷ k) token u ks us)),
          )
        ]
      ]

  enter_next-Answer :
      (route : Bytes) (n : Node A) (go : Node A → Outcome (Option (A × Params)))
      → (o : Option (A × Params)) × ((go n ≡ returns o) × AnswerBelow (split_from route []) n o)
      → (o : Option (A × Params)) × ((enter_next route go n ≡ returns o)
          × Answer (split_from route []) n o)
  unfolding enter_next split_from accepts item_at params_of
  enter_next-Answer [] (node (some x) statics params) go below =
      (some (x, []), (refl, ([], (refl, (refl, refl)))))
  enter_next-Answer [] (node none statics params) go (none, (ran, nothing)) =
      (none, (ran, λ ks. here ks))
    where
      here :
          (ks : List Bytes)
          → (if accepts ks ([] ∷ []) then item_at ks (node none statics params) else none) ≡ none
      here [] = refl
      here (k ∷ ks) = nothing k ks
  enter_next-Answer [] (node none statics params) go (some found, (ran, (k, (ks, right)))) =
      (some found, (ran, (k ∷ ks, right)))
  enter_next-Answer (c ∷ route) n go (none, (ran, nothing)) = (none, (ran, λ ks. here ks))
    where
      here :
          (ks : List Bytes)
          → (if accepts ks (split_from (c ∷ route) []) then item_at ks n else none) ≡ none
      here [] = rw (accepts-onward c route) refl
      here (k ∷ ks) = nothing k ks
  enter_next-Answer (c ∷ route) n go (some found, (ran, (k, (ks, right)))) =
      (some found, (ran, (k ∷ ks, right)))

  below-AnswerAt :
      (token : Bytes) (ts : List Bytes) (u : Bytes) (us : List Bytes) (k : Bytes) (c : Node A)
      (go : Node A → Outcome (Option (A × Params)))
      → ts ≡ u ∷ us
      → is_nil k ≡ false
      → (o : Option (A × Params)) × ((go c ≡ returns o) × Answer ts c o)
      → (o : Option (A × Params)) × ((try_below token go k c ≡ returns o)
          × AnswerAt (token ∷ ts) k c o)
  below-AnswerAt token ts u us k c go cut f =
      rw cut (λ below. try_below-AnswerAt token u us k c go f below)

  next_from-AnswerBelow :
      (route token : Bytes) (n : Node A)
      → well_formed n ≡ true
      → (o : Option (A × Params)) × ((next_from route token n ≡ returns o)
          × AnswerBelow (split_from route token) n o)
  unfolding next_from split_from
  next_from-AnswerBelow [] token n h =
      for_each-AnswerBelow (token ∷ []) n (try_leaf token) h
        (λ k c f g. try_leaf-AnswerAt token k c f)
  next_from-AnswerBelow (c ∷ route) token n h = elim (Bool-cases (c == slash)) [
    | inl e ↦
        let (u, (us, cut)) = split_from-cons route [] in
        rw e (
          for_each-AnswerBelow (token ∷ split_from route []) n
            (try_below token (enter_next route (next_from route []))) h
            (λ k m f g.
              below-AnswerAt token (split_from route []) u us k m
                (enter_next route (next_from route [])) cut f
                (enter_next-Answer route m (next_from route [])
                  (next_from-AnswerBelow route [] m g))))
    | inr e ↦ rw e (next_from-AnswerBelow route (token ++ c ∷ []) n h)
  ]

  -- `Tree.Search` on a tree of the shape that `Add` keeps, for a path that begins with a slash: it does
  -- not panic, and it is right on every branch. If it finds an item, the tree holds it at keys that
  -- match the segments of the path, and the parameters are those of the match; if it finds none, the
  -- tree holds no item at any keys that match.
  pub search_route-Answer :
      (root : Node A) (route : Bytes)
      → well_formed root ≡ true
      → (o : Option (A × Params)) × ((search_route root (slash ∷ route) ≡ returns o)
          × Answer (split route) root o)
  unfolding search_route next split
  search_route-Answer root route h =
      enter_next-Answer route root (next_from route []) (next_from-AnswerBelow route [] root h)
