-- ===== src/Search/Tree/Segments.antt =====
-- Routes and paths of core/search/tree.go as lists of segments.
use go_zero_update.Common.{
  ℕ, ◌≡◌, refl, Bool, true, false, ◌&&◌, ◌||◌, inl, inr, Bool-cases, List, [], ◌∷◌, ◌++◌, ◌==◌,
  if◌then◌else◌, arith, ◌↔◌,
}
use go_zero_update.Common.Maps.{store}
use go_zero_update.Search.Tree.{
  Bytes, slash, colon, is_nil, starts, bytes_eq, bytes_eq_iff, bytes, Params,
}

-- The text cut at the slashes; `token` is what has been read of the first segment.
unfoldable pub split_from : Bytes → Bytes → List Bytes
split_from [] token = token ∷ []
split_from (c ∷ route) token =
    if c == slash then token ∷ split_from route [] else split_from route (token ++ c ∷ [])

unfoldable pub split : Bytes → List Bytes
unfolding split_from
split route = split_from route []

-- The keys of a route: its segments, without the empty one behind a slash at the end.
unfoldable pub keys_of : List Bytes → List Bytes
keys_of [] = []
keys_of (t ∷ []) = if is_nil t then [] else t ∷ []
keys_of (t ∷ u ∷ ts) = t ∷ keys_of (u ∷ ts)

unfoldable pub has_empty : List Bytes → Bool
has_empty [] = false
has_empty (k ∷ ks) = is_nil k || has_empty ks

unfoldable pub keys_eq : List Bytes → List Bytes → Bool
keys_eq [] [] = true
keys_eq [] (b ∷ bs) = false
keys_eq (a ∷ as_) [] = false
keys_eq (a ∷ as_) (b ∷ bs) = bytes_eq a b && keys_eq as_ bs

pub keys_eq_iff : (a b : List Bytes) → (keys_eq a b ≡ true) ↔ (a ≡ b)
unfolding keys_eq
keys_eq_iff [] [] = ((λ e. refl), (λ e. refl))
keys_eq_iff [] (b ∷ bs) = ((λ e. cc), (λ e. cc))
keys_eq_iff (a ∷ as_) [] = ((λ e. cc), (λ e. cc))
keys_eq_iff (a ∷ as_) (b ∷ bs) = (
  (λ e. ground (arith, keys_eq_iff as_ bs, bytes_eq_iff a b)),
  (λ e. ground (arith, keys_eq_iff as_ bs, bytes_eq_iff a b)),
)

-- A key stands for itself, or for any segment.
unfoldable pub accepts_segment : Bytes → Bytes → Bool
accepts_segment k t = starts colon k || bytes_eq k t

-- Keys match a path segment by segment; a slash at the end of the path is passed over.
unfoldable pub accepts : List Bytes → List Bytes → Bool
unfolding accepts_segment
accepts [] [] = false
accepts [] (t ∷ []) = is_nil t
accepts [] (t ∷ u ∷ ts) = false
accepts (k ∷ ks) [] = false
accepts (k ∷ []) (t ∷ []) = accepts_segment k t
accepts (k ∷ j ∷ ks) (t ∷ []) = false
accepts (k ∷ ks) (t ∷ u ∷ ts) = accepts_segment k t && accepts ks (u ∷ ts)

abbrev pub name_of : Bytes → Bytes
name_of [] = []
name_of (c ∷ name) = name

-- The parameters of a match: of two with one name the first counts.
unfoldable pub params_of : List Bytes → List Bytes → Params
params_of [] ts = []
params_of (k ∷ ks) [] = []
params_of (k ∷ ks) (t ∷ ts) =
    if starts colon k then store bytes (name_of k) t (params_of ks ts) else params_of ks ts

-- A text has at least one segment.
pub split_from-cons :
    (route token : Bytes) → (t : Bytes) × ((ts : List Bytes) × (split_from route token ≡ t ∷ ts))
unfolding split_from
split_from-cons [] token = (token, ([], refl))
split_from-cons (c ∷ route) token = elim (Bool-cases (c == slash)) [
  | inl e ↦ (token, (split_from route [], rw e))
  | inr e ↦ let (t, (ts, h)) = split_from-cons route (token ++ c ∷ []) in (t, (ts, rw e h))
]

is_nil-append : (token : Bytes) (c : ℕ) → is_nil (token ++ c ∷ []) ≡ false
is_nil-append [] c = refl
is_nil-append (b ∷ token) c = refl

-- The first segment is not empty once a byte of it has been read.
pub split_from-first :
    (route token : Bytes)
    → is_nil token ≡ false
    → (t : Bytes) × ((ts : List Bytes) × ((split_from route token ≡ t ∷ ts) × (is_nil t ≡ false)))
unfolding split_from
split_from-first [] token h = (token, ([], (refl, h)))
split_from-first (c ∷ route) token h = elim (Bool-cases (c == slash)) [
  | inl e ↦ (token, (split_from route [], (rw e, h)))
  | inr e ↦
      let (t, (ts, (h', f))) = split_from-first route (token ++ c ∷ []) (is_nil-append token c) in
      (t, (ts, (rw e h', f)))
]

-- The first segment of a text that does not begin with a slash is not empty.
pub split_from-next :
    (c : ℕ) (route token : Bytes)
    → (c == slash) ≡ false
    → split_from (c ∷ route) token ≡ split_from route (token ++ c ∷ [])
unfolding split_from
split_from-next c route token e = rw e

pub split_from-slash :
    (c : ℕ) (route token : Bytes)
    → (c == slash) ≡ true
    → split_from (c ∷ route) token ≡ token ∷ split_from route []
unfolding split_from
split_from-slash c route token e = rw e

pub keys_of-cons :
    (t : Bytes) (route token : Bytes)
    → keys_of (t ∷ split_from route token) ≡ t ∷ keys_of (split_from route token)
unfolding keys_of
keys_of-cons t route token = let (u, (ts, e)) = split_from-cons route token in rw e
