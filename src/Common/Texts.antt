-- ===== src/Common/Texts.antt =====
-- Texts as lists of bytes, and what the code uses of Go's package strings.
use Prim.Native.Nat.{ℕ, suc, ◌+◌, ◌≤◌}
use mathlib.Core.Path.{◌≡◌, refl, ap}
use mathlib.Core.Logic.{◌↔◌, ◌⊎◌, inl, inr}
use mathlib.Core.Bool.{Bool, true, false, ◌&&◌, ◌||◌}
use mathlib.Core.List.{List, [], ◌∷◌, ◌++◌}
use native.Mathlib.Omega.{arith}
use go_zero_update.Common.Tests.{◌==◌, if◌then◌else◌}
use go_zero_update.Common.Lists.{length, drop}
use go_zero_update.Common.Maps.{Eq}

abbrev pub Bytes : Type 0
Bytes = List ℕ

unfoldable pub bytes_eq : Bytes → Bytes → Bool
bytes_eq [] [] = true
bytes_eq [] (b ∷ bs) = false
bytes_eq (a ∷ as_) [] = false
bytes_eq (a ∷ as_) (b ∷ bs) = a == b && bytes_eq as_ bs

pub bytes_eq_iff : (a b : Bytes) → (bytes_eq a b ≡ true) ↔ (a ≡ b)
unfolding bytes_eq
bytes_eq_iff [] [] = ((λ e. refl), (λ e. refl))
bytes_eq_iff [] (b ∷ bs) = ((λ e. cc), (λ e. cc))
bytes_eq_iff (a ∷ as_) [] = ((λ e. cc), (λ e. cc))
bytes_eq_iff (a ∷ as_) (b ∷ bs) =
    ((λ e. ground (arith, bytes_eq_iff as_ bs)), (λ e. ground (arith, bytes_eq_iff as_ bs)))

abbrev pub bytes : Eq Bytes
bytes = record { beq = bytes_eq; beq_iff = bytes_eq_iff }

-- `strings.HasPrefix(s, prefix)`, with the prefix first.
unfoldable pub has_prefix : List ℕ → List ℕ → Bool
has_prefix [] s = true
has_prefix (p ∷ prefix) [] = false
has_prefix (p ∷ prefix) (c ∷ s) = p == c && has_prefix prefix s

-- `strings.TrimPrefix`, with the prefix first.
unfoldable pub trim_prefix : List ℕ → List ℕ → List ℕ
unfolding has_prefix
trim_prefix prefix s = if has_prefix prefix s then drop (length prefix) s else s

-- `strings.Count` of one byte, and `strings.Contains`.
unfoldable pub count_byte : ℕ → List ℕ → ℕ
count_byte b [] = 0
count_byte b (c ∷ s) = if c == b then suc (count_byte b s) else count_byte b s

unfoldable pub contains_byte : ℕ → List ℕ → Bool
contains_byte b [] = false
contains_byte b (c ∷ s) = c == b || contains_byte b s

-- `strings.Join` with one byte.
unfoldable pub join : ℕ → List (List ℕ) → List ℕ
join b [] = []
join b (s ∷ []) = s
join b (s ∷ t ∷ ts) = s ++ b ∷ join b (t ∷ ts)

pub drop-append {ℓ} : {A : Type ℓ} (s t : List A) → drop (length s) (s ++ t) ≡ t
drop-append [] t = refl
drop-append (c ∷ s) t = drop-append s t

pub has_prefix-append : (s t : List ℕ) → has_prefix s (s ++ t) ≡ true
unfolding has_prefix
has_prefix-append [] t = refl
has_prefix-append (c ∷ s) t = ground (arith, has_prefix-append s t)

-- A text with a prefix is the prefix and what `trim_prefix` leaves.
pub append-trim_prefix :
    (prefix s : List ℕ) → has_prefix prefix s ≡ true → prefix ++ trim_prefix prefix s ≡ s
unfolding has_prefix trim_prefix
append-trim_prefix [] s h = refl
append-trim_prefix (p ∷ prefix) [] h = cc
append-trim_prefix (p ∷ prefix) (c ∷ s) h = ground (arith, append-trim_prefix prefix s)

pub count_byte-append :
    (b : ℕ) (s t : List ℕ) → count_byte b (s ++ t) ≡ count_byte b s + count_byte b t
unfolding count_byte
count_byte-append b [] t = omega arith
count_byte-append b (c ∷ s) t = ground (arith, count_byte-append b s t)

pub has_prefix_self : (s : List ℕ) → has_prefix s s ≡ true
unfolding has_prefix
has_prefix_self [] = refl
has_prefix_self (c ∷ s) = ground (arith, has_prefix_self s)

pub has_prefix_trans :
    (p q r : List ℕ) → has_prefix p q ≡ true → has_prefix q r ≡ true → has_prefix p r ≡ true
unfolding has_prefix
has_prefix_trans [] q r h f = refl
has_prefix_trans (a ∷ p) [] r h f = absurd (ground (arith, h))
has_prefix_trans (a ∷ p) (b ∷ q) [] h f = absurd (ground (arith, f))
has_prefix_trans (a ∷ p) (b ∷ q) (c ∷ r) h f = ground (arith, has_prefix_trans p q r)

pub length-has_prefix : (p q : List ℕ) → has_prefix p q ≡ true → length p ≤ length q
unfolding has_prefix
length-has_prefix [] q h = omega arith
length-has_prefix (a ∷ p) [] h = absurd (ground (arith, h))
length-has_prefix (a ∷ p) (b ∷ q) h = ground (arith, length-has_prefix p q)

-- A prefix that is no shorter is the whole text.
pub has_prefix_whole : (p q : List ℕ) → has_prefix p q ≡ true → length q ≤ length p → p ≡ q
unfolding has_prefix
has_prefix_whole [] [] h f = refl
has_prefix_whole [] (b ∷ q) h f = absurd (omega (arith, f))
has_prefix_whole (a ∷ p) [] h f = absurd (ground (arith, h))
has_prefix_whole (a ∷ p) (b ∷ q) h f = ground (arith, has_prefix_whole p q)

-- Of two prefixes of a text the shorter one is a prefix of the other.
pub has_prefix_shorter :
    (p q r : List ℕ)
    → has_prefix p r ≡ true
    → has_prefix q r ≡ true
    → length p ≤ length q
    → has_prefix p q ≡ true
unfolding has_prefix
has_prefix_shorter [] q r h f l = refl
has_prefix_shorter (a ∷ p) [] r h f l = absurd (omega (arith, l))
has_prefix_shorter (a ∷ p) (b ∷ q) [] h f l = absurd (ground (arith, h))
has_prefix_shorter (a ∷ p) (b ∷ q) (c ∷ r) h f l = ground (arith, has_prefix_shorter p q r)

-- A prefix of a text with one rune in front.
pub has_prefix-cons :
    (c : ℕ) (q r : List ℕ)
    → has_prefix q (c ∷ r) ≡ true
    → (q ≡ []) ⊎ ((q' : List ℕ) × ((q ≡ c ∷ q') × (has_prefix q' r ≡ true)))
unfolding has_prefix
has_prefix-cons c [] r h = inl refl
has_prefix-cons c (a ∷ q) r h =
    let same : a ≡ c = ground (arith, h) in inr (q, (ap (λ b. b ∷ q) same, ground (arith, h)))

pub cons-has_prefix :
    (c : ℕ) (q r : List ℕ) → has_prefix q r ≡ true → has_prefix (c ∷ q) (c ∷ r) ≡ true
unfolding has_prefix
cons-has_prefix c q r h = ground (arith, h)
