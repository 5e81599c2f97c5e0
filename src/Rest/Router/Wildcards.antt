-- ===== src/Rest/Router/Wildcards.antt =====
-- What the wildcard routes of rest/router/patrouter.go answer for a path.
use go_zero_update.Common.{
  ◌≡◌, refl, ◌∙◌, ◌⊎◌, inl, inr, Bool, true, false, List, [], ◌∷◌, Option, none, some,
  if◌then◌else◌, arith, Bool-cases,
}
use go_zero_update.Common.Maps.{is_some, lookup, Distinct}
use go_zero_update.Common.Texts.{has_prefix, trim_prefix}
use go_zero_update.Search.Tree.{Bytes, bytes, bytes_eq, bytes_eq_iff}
use go_zero_update.Rest.Router.{wildcard_of, match_wildcards, wildcard_methods}
use go_zero_update.Rest.Router.Serving.{mem, wildcard_in, HasWildcard, NoWildcard}

module _ {ℓ} {H : Type ℓ} where
  -- No wildcard route stands twice in the table of a method.
  abbrev pub DistinctRoutes : List (Bytes × List (Bytes × Option H)) → Type ℓ
  DistinctRoutes [] = Unit
  DistinctRoutes ((m, routes) ∷ rest) = Distinct bytes routes × DistinctRoutes rest

  -- A right answer of one table: a route whose prefix fits, or none if no prefix fits.
  abbrev pub Matched :
      List (Bytes × Option H) → Bytes → Option (Option H × (Bytes × Bytes)) → Type ℓ
  Matched routes path none =
      (route : Bytes)
      → (if has_prefix (wildcard_of route).0 path then lookup bytes route routes else none) ≡ none
  Matched routes path (some (h, (name, value))) =
      (route : Bytes) × ((lookup bytes route routes ≡ some h)
        × ((has_prefix (wildcard_of route).0 path ≡ true)
            × ((name ≡ (wildcard_of route).1) × (value ≡ trim_prefix (wildcard_of route).0 path))))

  pub match_wildcards-Matched :
      (path : Bytes) (routes : List (Bytes × Option H))
      → Distinct bytes routes
      → Matched routes path (match_wildcards path routes)
  unfolding match_wildcards lookup
  match_wildcards-Matched path [] d = λ route. ground arith
  match_wildcards-Matched path ((w, h) ∷ routes) d =
      elim (Bool-cases (has_prefix (wildcard_of w).0 path)) [
        | inl e ↦ rw e (w, (ground (arith, bytes_eq_iff w w), (e, (refl, refl))))
        | inr e ↦
            rw e
              (behind e (match_wildcards path routes) (match_wildcards-Matched path routes (d.1)))
      ]
    where
      behind :
          has_prefix (wildcard_of w).0 path ≡ false
          → (o : Option (Option H × (Bytes × Bytes))) → Matched routes path o
          → Matched ((w, h) ∷ routes) path o
      behind e none nothing = λ route. ground (arith, e, nothing route, bytes_eq_iff w route)
      behind e (some (g, (name, value))) (route, (held, right)) =
          (route, (ground (arith, held, d.0, bytes_eq_iff w route), right))

  abbrev pub WildcardSays :
      List (Bytes × List (Bytes × Option H)) → Bytes → Bytes → Bool → Bytes → Type ℓ
  WildcardSays table method path true m = (bytes_eq m method ≡ false) × HasWildcard table path m
  WildcardSays table method path false m = (bytes_eq m method ≡ true) ⊎ NoWildcard table path m

  WildcardSays-cons :
      (table : List (Bytes × List (Bytes × Option H))) (method path m : Bytes)
      (routes : List (Bytes × Option H)) (n : Bytes) (b : Bool)
      → bytes_eq m n ≡ false
      → WildcardSays table method path b n
      → WildcardSays ((m, routes) ∷ table) method path b n
  unfolding wildcard_in lookup
  WildcardSays-cons table method path m routes n true e (other, (route, (h, (held, fits)))) =
      (other, (route, (h, (rw (wildcard_in, lookup, e) held, fits))))
  WildcardSays-cons table method path m routes n false e (inl same) = inl same
  WildcardSays-cons table method path m routes n false e (inr nothing) =
      inr (λ route. rw (wildcard_in, lookup, e) (nothing route))

  WildcardSays-absent :
      (table : List (Bytes × List (Bytes × Option H))) (method path n : Bytes) (b : Bool)
      → lookup bytes n table ≡ none
      → WildcardSays table method path b n
      → b ≡ false
  unfolding wildcard_in lookup
  WildcardSays-absent table method path n true absent (other, (route, (h, (held, fits)))) =
      ground (arith, absent)
  WildcardSays-absent table method path n false absent says = refl

  pub wildcard_in-table :
      (table : List (Bytes × List (Bytes × Option H))) (m route : Bytes)
      (routes : List (Bytes × Option H))
      → lookup bytes m table ≡ some routes
      → wildcard_in table m route ≡ lookup bytes route routes
  unfolding wildcard_in
  wildcard_in-table table m route routes e = rw (wildcard_in, e) refl

  WildcardSays-Matched :
      (table : List (Bytes × List (Bytes × Option H))) (method path m : Bytes)
      (routes : List (Bytes × Option H)) (o : Option (Option H × (Bytes × Bytes))) (n : Bytes)
      → bytes_eq m method ≡ false
      → m ≡ n
      → lookup bytes m table ≡ some routes
      → Matched routes path o
      → WildcardSays table method path (is_some o) n
  WildcardSays-Matched table method path m routes none n other e at nothing =
      inr (λ route. rw (← e) (rw (wildcard_in-table table m route routes at) (nothing route)))
  WildcardSays-Matched table method path m routes (some (h, var)) n other e at
        (route, (held, (fits, same))) =
      (
        rw (← e) other,
        (route, (h, (rw (← e) (wildcard_in-table table m route routes at ∙ held), fits))),
      )

  pub wildcard_methods-WildcardSays :
      (table : List (Bytes × List (Bytes × Option H))) (method path : Bytes)
      → DistinctRoutes table
      → Distinct bytes table
      → (m : Bytes) → WildcardSays table method path (mem m (wildcard_methods method path table)) m
  unfolding wildcard_methods mem wildcard_in lookup
  wildcard_methods-WildcardSays [] method path h d n = inr (λ route. unlisted route)
    where
      unlisted :
          (route : Bytes)
          → (if has_prefix (wildcard_of route).0 path then wildcard_in {H = H} [] n route else none)
            ≡ none
      unlisted route = ground arith
  wildcard_methods-WildcardSays ((m, routes) ∷ table) method path h d n =
      let says = wildcard_methods-WildcardSays table method path (h.1) (d.1) n in
      elim (Bool-cases (bytes_eq m n)) [
        | inr other ↦
            let kept =
              WildcardSays-cons table method path m routes n
                (mem n (wildcard_methods method path table)) other says in
            elim (Bool-cases (bytes_eq m method)) [
              | inl e ↦ rw e kept
              | inr e ↦ elim (Bool-cases (is_some (match_wildcards path routes))) [
                | inl f ↦ rw (e, f, other) kept
                | inr f ↦ rw (e, f) kept
              ]
            ]
        | inl same ↦
            let is : m ≡ n = (bytes_eq_iff m n).0 same in
            let absent : lookup bytes n table ≡ none = rw (← is) (d.0) in
            let unlisted =
              WildcardSays-absent table method path n (mem n (wildcard_methods method path table))
                absent says in
            elim (Bool-cases (bytes_eq m method)) [
              | inl e ↦ rw (e, unlisted) (inl (rw (← is) e))
              | inr e ↦
                  let here : lookup bytes m ((m, routes) ∷ table) ≡ some routes =
                    ground (arith, bytes_eq_iff m m) in
                  let matched =
                    WildcardSays-Matched ((m, routes) ∷ table) method path m routes
                      (match_wildcards path routes) n e is here
                      (match_wildcards-Matched path routes (h.0)) in
                  elim (Bool-cases (is_some (match_wildcards path routes))) [
                    | inl f ↦ rw (e, f, same) (rw f at matched)
                    | inr f ↦ rw (e, f, unlisted) (rw f at matched)
                  ]
            ]
      ]
