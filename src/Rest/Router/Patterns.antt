-- ===== src/Rest/Router/Patterns.antt =====
-- The wildcard routes of rest/router/patrouter.go as texts: a prefix, a star and a name.
use go_zero_update.Common.{
  ℕ, ◌+◌, ◌≤◌, ◌≡◌, refl, sym, ap, ◌∙◌, inl, inr, true, false, ◌||◌, List, [], ◌∷◌, ◌++◌, none,
  ◌==◌, arith, Bool-cases, append_assoc, append-nil,
}
use go_zero_update.Common.Texts.{
  has_prefix, trim_prefix, count_byte, contains_byte, join, count_byte-append,
}
use go_zero_update.Search.Tree.{Bytes, slash, starts, is_nil}
use go_zero_update.Search.Tree.Segments.{split, split_from, split_from-cons, split_from-slash}
use go_zero_update.Rest.Router.{star, PatRouter, find_wildcard, wildcard_of, last_part}
use go_zero_update.Rest.Router.Effects.{wildcard_error}

join-append :
    (before : List Bytes) (token : Bytes)
    → is_nil before ≡ false
    → join slash (before ++ token ∷ []) ≡ join slash before ++ slash ∷ token
unfolding join
join-append [] token h = cc
join-append (b ∷ []) token h = refl
join-append (b ∷ c ∷ before) token h =
    ap (λ t. b ++ slash ∷ t) (join-append (c ∷ before) token refl)
    ∙ sym (append_assoc b (slash ∷ join slash (c ∷ before)) (slash ∷ token))

count_byte-slash : (s : Bytes) → count_byte star (slash ∷ s) ≡ count_byte star s
unfolding count_byte
count_byte-slash s = refl

count_byte-star : (s : Bytes) → count_byte star (star ∷ s) ≡ 1 + count_byte star s
unfolding count_byte
count_byte-star s = omega arith

pub contains_byte-append :
    (b : ℕ) (s t : Bytes) → contains_byte b (s ++ t) ≡ (contains_byte b s || contains_byte b t)
unfolding contains_byte
contains_byte-append b [] t = refl
contains_byte-append b (c ∷ s) t = ground (arith, contains_byte-append b s t)

last_part-cons :
    (token s : Bytes) → last_part (token ∷ split_from s []) ≡ last_part (split_from s [])
unfolding last_part
last_part-cons token s = let (u, (ts, e)) = split_from-cons s [] in rw e refl

is_nil-append : (before : List Bytes) (token : Bytes) → is_nil (before ++ token ∷ []) ≡ false
is_nil-append [] token = refl
is_nil-append (b ∷ before) token = refl

starts-count : (token : Bytes) → starts star token ≡ true → 1 ≤ count_byte star token
unfolding count_byte
starts-count [] h = cc
starts-count (c ∷ token) h = ground arith

trim_prefix-star : (token : Bytes) → trim_prefix (star ∷ []) (star ∷ token) ≡ token
unfolding trim_prefix has_prefix
trim_prefix-star token = refl

contains_byte-cons :
    (b c : ℕ) (s : Bytes) → contains_byte b (c ∷ s) ≡ ((c == b) || contains_byte b s)
unfolding contains_byte
contains_byte-cons b c s = refl

contains_byte-nil : (b : ℕ) → contains_byte b [] ≡ false
unfolding contains_byte
contains_byte-nil b = refl

-- The loop, with the parts before and the bytes read of the current one.
abbrev Cut : List Bytes → Bytes → Bytes → Type 0
Cut before token s =
    (q : Bytes) × ((name : Bytes) × ((token ++ s ≡ q ++ star ∷ name)
        × ((find_wildcard before (split_from s token) ≡ (join slash before ++ slash ∷ q, name))
            × (contains_byte slash name ≡ false))))

split_from-Cut :
    (s token : Bytes) (before : List Bytes)
    → is_nil before ≡ false
    → count_byte star (token ++ s) ≤ 1
    → contains_byte slash token ≡ false
    → starts star (last_part (split_from s token)) ≡ true
    → Cut before token s
unfolding split_from last_part find_wildcard
split_from-Cut [] [] before b n f h = cc
split_from-Cut [] (c ∷ token) before b n f h =
    let is : c ≡ star = ground arith in
    let free : contains_byte slash token ≡ false =
      ground (arith, contains_byte-cons slash c token) in
    (
      [],
      (
        token,
        (rw (append-nil (c ∷ token), is) refl, (rw (is, b, trim_prefix-star token) refl, free)),
      ),
    )
split_from-Cut (c ∷ s) token before b n f h = elim (Bool-cases (c == slash)) [
  | inl e ↦
      let is : c ≡ slash = ground arith in
      let later = rw e at h in
      let counts = count_byte-append star token (c ∷ s) in
      let ends : starts star (last_part (split_from s [])) ≡ true =
        rw (← last_part-cons token s) later in
      let rest : count_byte star (c ∷ s) ≡ count_byte star s = rw is (count_byte-slash s) in
      let (q, (name, (cut, (found, free)))) =
        split_from-Cut s [] (before ++ token ∷ []) (is_nil-append before token)
          (omega (arith, n, counts, rest)) (contains_byte-nil slash) ends in
      let behind : 1 ≤ count_byte star s =
        rw cut (omega (arith, count_byte-append star q (star ∷ name), count_byte-star name)) in
      let plain : starts star token ≡ false =
        ground (arith, starts-count token, n, counts, rest, behind) in
      (
        token ++ slash ∷ q,
        (
          name,
          (
            rw (is, cut) (sym (append_assoc token (slash ∷ q) (star ∷ name))),
            (
              rw (e, plain, found, join-append before token b)
                  (ap (λ t. (t, name))
                    (append_assoc (join slash before) (slash ∷ token) (slash ∷ q))),
              free,
            ),
          ),
        ),
      )
  | inr e ↦
      let (q, (name, (cut, (found, free)))) =
        split_from-Cut s (token ++ c ∷ []) before b (rw (append_assoc token (c ∷ []) s) n)
          (rw
            (
              contains_byte-append slash token (c ∷ []),
              f,
              contains_byte-cons slash c [],
              e,
              contains_byte-nil slash,
            )
            refl)
          (rw e at h) in
      (q, (name, (sym (append_assoc token (c ∷ []) s) ∙ cut, (rw e found, free))))
]

-- A wildcard route that `Handle` takes has a prefix, a star and a name without a slash, and the loop of
-- `ServeHTTP` finds just these two: everything before the star, and everything behind it.
pub wildcard_of-accepted {ℓ} :
    {H : Type ℓ} (r : PatRouter H) (method path : Bytes)
    → wildcard_error r method (slash ∷ path) ≡ none
    → (prefix : Bytes) × ((name : Bytes) × ((slash ∷ path ≡ prefix ++ star ∷ name)
          × ((wildcard_of (slash ∷ path) ≡ (prefix, name)) × (contains_byte slash name ≡ false))))
unfolding wildcard_error wildcard_of split find_wildcard join
wildcard_of-accepted r method path h =
    let once : count_byte star path ≤ 1 = ground (arith, count_byte-slash path) in
    let ends : starts star (last_part (split_from path [])) ≡ true =
      ground (arith, last_part-cons [] path, split_from-slash slash path [] refl) in
    let (q, (name, (cut, (found, free)))) =
      split_from-Cut path [] ([] ∷ []) refl once (contains_byte-nil slash) ends in
    (slash ∷ q, (name, (ap (λ t. slash ∷ t) cut, (found, free))))
