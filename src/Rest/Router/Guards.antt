-- ===== src/Rest/Router/Guards.antt =====
-- What the checks of `Handle` of rest/router/patrouter.go keep out of the routes.
use go_zero_update.Common.{
  ◌≡◌, refl, sym, ap, ◌∙◌, inl, inr, Bool, true, false, ◌&&◌, ◌||◌, not, List, [], ◌∷◌, ◌++◌,
  Option, none, some, ◌==◌, arith, Bool-cases,
}
use go_zero_update.Common.Maps.{is_some, lookup}
use go_zero_update.Common.Texts.{count_byte, contains_byte}
use go_zero_update.Search.Tree.{Bytes, slash, starts, bytes_eq, bytes_eq_iff}
use go_zero_update.Search.Tree.Segments.{split, split_from, keys_of, keys_eq, keys_eq_iff}
use go_zero_update.Search.Tree.Adding.{rest_of}
use go_zero_update.Rest.Router.{star, PatRouter, valid_method, last_part, new_router, handle}
use go_zero_update.Rest.Router.Serving.{route_in, wildcard_in}
use go_zero_update.Rest.Router.Effects.{wildcard_error, path_error, handle_error, handle_effect}
use go_zero_update.Rest.Router.Patterns.{contains_byte-append}
use go_zero_update.Rest.Router.Runs.{handle_all}

-- A wildcard route: one star, at the start of the last part.
unfoldable pub is_wildcard : Bytes → Bool
is_wildcard route = count_byte star route == 1 && starts star (last_part (split route))

-- No key has a star.
unfoldable pub star_free : List Bytes → Bool
star_free [] = true
star_free (k ∷ ks) = not (contains_byte star k) && star_free ks

-- The routes of a router that only `Handle` has filled.
pub record Guarded {ℓ} {H : Type ℓ} (r : PatRouter H) : Type ℓ where
  pub wild :
      (m route : Bytes) (h : Option H)
      → wildcard_in r.wildcard_routes m route ≡ some h
      → (valid_method m ≡ true) × (is_wildcard route ≡ true)
  pub plain :
      (m : Bytes) (ks : List Bytes) (h : H)
      → route_in r.trees m ks ≡ some h
      → (valid_method m ≡ true) × (star_free ks ≡ true)

split_from-star_free :
    (s token : Bytes)
    → contains_byte star token ≡ false
    → contains_byte star s ≡ false
    → star_free (split_from s token) ≡ true
unfolding star_free split_from contains_byte
split_from-star_free [] token h e = ground (arith, h)
split_from-star_free (c ∷ s) token h e = elim (Bool-cases (c == slash)) [
  | inl f ↦ rw f (ground (arith, h, split_from-star_free s [] refl (ground (arith, e))))
  | inr f ↦
      let longer = contains_byte-append star token (c ∷ []) in
      rw f (
        split_from-star_free s (token ++ c ∷ []) (ground (arith, longer, h, e)) (ground (arith, e)))
]

split-star_free : (s : Bytes) → contains_byte star s ≡ false → star_free (split s) ≡ true
unfolding split contains_byte
split-star_free s h = split_from-star_free s [] refl h

none_of {ℓ} : {E : Type ℓ} (e : Option E) → is_some e ≡ false → e ≡ none
none_of none h = refl
none_of (some x) h = absurd (ground (arith, h))

keys_of-star_free : (ts : List Bytes) → star_free ts ≡ true → star_free (keys_of ts) ≡ true
unfolding star_free keys_of
keys_of-star_free [] h = refl
keys_of-star_free (t ∷ []) h = ground (arith, h)
keys_of-star_free (t ∷ u ∷ ts) h = ground (arith, h, keys_of-star_free (u ∷ ts) (ground (arith, h)))

contains_byte-rest_of :
    (path : Bytes) → contains_byte star path ≡ false → contains_byte star (rest_of path) ≡ false
unfolding contains_byte
contains_byte-rest_of [] h = refl
contains_byte-rest_of (c ∷ path) h = ground (arith, h)

count_byte-contains_byte :
    (s : Bytes) → contains_byte star s ≡ true → (count_byte star s == 0) ≡ false
unfolding count_byte contains_byte
count_byte-contains_byte [] h = absurd (ground (arith, h))
count_byte-contains_byte (c ∷ s) h = ground (arith, h, count_byte-contains_byte s)

module _ {ℓ} {H : Type ℓ} (clean : Bytes → Bytes) where
  handle_error-method :
      (r : PatRouter H) (method path : Bytes) (handler : Option H)
      → handle_error clean r method path handler ≡ none
      → valid_method method ≡ true
  unfolding handle_error
  handle_error-method r method path handler h = ground (arith, h)

  handle_error-is_wildcard :
      (r : PatRouter H) (method path : Bytes) (handler : Option H)
      → handle_error clean r method path handler ≡ none
      → contains_byte star (clean path) ≡ true
      → is_wildcard (clean path) ≡ true
  unfolding handle_error path_error wildcard_error is_wildcard
  handle_error-is_wildcard r method path handler h e =
      ground (arith, h, e, count_byte-contains_byte (clean path) e)

  handle-Guarded :
      (r : PatRouter H) (method path : Bytes) (handler : Option H)
      → Guarded r
      → Guarded (handle clean r method path handler).1
  handle-Guarded r method path handler v =
      let (_, (routes, wildcards)) = handle_effect clean r method path handler in
      let err = handle_error clean r method path handler in
      let p = clean path in
      record {
        wild = λ m route h e.
            elim (Bool-cases (
              not (is_some err) && contains_byte star p && bytes_eq method m && bytes_eq p route)) [
                | inr f ↦ v.wild m route h (sym (rw f refl) ∙ sym (wildcards m route) ∙ e)
                | inl f ↦
                    let checked = none_of err (ground (arith, f)) in
                    let starred : contains_byte star p ≡ true = ground (arith, f) in
                    let same : method ≡ m = ground (arith, f, bytes_eq_iff method m) in
                    let this : p ≡ route = ground (arith, f, bytes_eq_iff p route) in
                    (
                      sym (ap valid_method same)
                          ∙ handle_error-method r method path handler checked,
                      sym (ap is_wildcard this)
                          ∙ handle_error-is_wildcard r method path handler checked starred,
                    )
              ];
        plain = λ m ks h e.
            elim (Bool-cases (
              not (is_some err || contains_byte star p)
              && bytes_eq method m
              && keys_eq (keys_of (split (rest_of p))) ks)) [
                | inr f ↦ v.plain m ks h (sym (rw f refl) ∙ sym (routes m ks) ∙ e)
                | inl f ↦
                    let checked = none_of err (ground (arith, f)) in
                    let free : contains_byte star p ≡ false = ground (arith, f) in
                    let same : method ≡ m = ground (arith, f, bytes_eq_iff method m) in
                    let keys = keys_of (split (rest_of p)) in
                    let this : keys ≡ ks = ground (arith, f, keys_eq_iff keys ks) in
                    (
                      sym (ap valid_method same)
                          ∙ handle_error-method r method path handler checked,
                      sym (ap star_free this)
                          ∙ keys_of-star_free (split (rest_of p))
                              (split-star_free (rest_of p) (contains_byte-rest_of p free)),
                    )
              ];
      }

  new_router-Guarded : Guarded {H = H} new_router
  unfolding new_router route_in wildcard_in lookup
  new_router-Guarded = record {
    wild = λ m route h e. absurd (ground (arith, e));
    plain = λ m ks h e. absurd (ground (arith, e));
  }

  calls-Guarded :
      (calls : List (Bytes × (Bytes × Option H))) (r : PatRouter H)
      → Guarded r
      → Guarded (handle_all clean calls r)
  unfolding handle_all
  calls-Guarded [] r v = v
  calls-Guarded ((method, (path, handler)) ∷ calls) r v =
      calls-Guarded calls (handle clean r method path handler).1
        (handle-Guarded r method path handler v)

  -- After any calls of `Handle` on a new router, those that failed included, every route is under a
  -- valid method. Each wildcard route has one star, which begins its last part, and no route in a tree
  -- has a key with a star.
  pub handle_all-Guarded :
      (calls : List (Bytes × (Bytes × Option H))) → Guarded (handle_all clean calls new_router)
  handle_all-Guarded calls = calls-Guarded calls new_router new_router-Guarded
