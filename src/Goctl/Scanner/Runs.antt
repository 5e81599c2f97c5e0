-- ===== src/Goctl/Scanner/Runs.antt =====
-- Calling `NextToken` of tools/goctl/pkg/parser/api/scanner/scanner.go until it moves no more.
use go_zero_update.Common.{
  ◌==◌, ℕ, zero, suc, ◌+◌, ◌-◌, ◌<◌, ◌≤◌, ◌≡◌, refl, sym, ap, ◌∙◌, ◌⊎◌, inl, inr, true, false, List,
  [], ◌∷◌, ◌++◌, Option, Option-cases, ltb→lt, none, some, ltb, if◌then◌else◌, length, get_or,
  arith, Bool-cases,
}
use go_zero_update.Common.Int.{negsuc}
use go_zero_update.Goctl.Token.{Runes}
use go_zero_update.Goctl.Scanner.{Scanner, is_space, Scanned, new_scanner, read_rune}
use go_zero_update.Goctl.Scanner.Switch.{next_token}
use go_zero_update.Goctl.Scanner.Reads.{at, Fits, peeked, rune-inside}
use go_zero_update.Goctl.Scanner.Words.{Next, spanned, ended, stays, refused}
use go_zero_update.Goctl.Scanner.Tokens.{line_ends, next_token-Found}

-- The results of as many calls as it takes, with rounds for the calls.
unfoldable pub tokens : ℕ → Scanner → Option (List Scanned)
tokens zero s = none
tokens (suc n) s = elim (next_token s) [
  | none ↦ none
  | some (t, s') ↦ elim (tokens n s') [
    | none ↦ if ltb s.position s'.position then none else some (t ∷ [])
    | some ts ↦ if ltb s.position s'.position then some (t ∷ ts) else some (t ∷ [])
  ]
]

-- The scanner after a call, which has moved only if it was inside the input.
reached :
    (s : Scanner) (p : ℕ) (r : Scanned × Scanner)
    → Next s p r
    → (q : ℕ) × ((p ≤ q) × ((r.1 ≡ at s q) × ((p < length s.data_) ⊎ (q ≡ p))))
reached s p r (spanned from t s' h i v) = (v.stop, (omega (arith, v.after), (v.reads, inl i)))
reached s p r (ended h) = (p, (omega arith, (refl, inr refl)))
reached s p r (stays t h g) = (p, (omega arith, (refl, inr refl)))
reached s p r (refused e q i h) = (q, (h, (refl, inl i)))

-- Spaces are inside the input.
space-inside :
    (xs : List ℕ) (p q : ℕ)
    → p ≤ q
    → ((i : ℕ) → p ≤ i → i < q → is_space (get_or xs i 0) ≡ true)
    → (p < length xs) ⊎ (q ≡ p)
space-inside xs p q h f = elim (Bool-cases (p == q)) [
  | inl e ↦ inr (ground (arith, e))
  | inr e ↦ inl (
      rune-inside xs p (get_or xs p 0) refl
        (λ z. ground (arith, f p (omega arith) (ground (arith, e, h)), z)))
]

moved-inside :
    (p start q size : ℕ)
    → p ≤ start
    → start ≤ q
    → p < q
    → (start < size) ⊎ (q ≡ start)
    → (p < size) ⊎ (start ≡ p)
    → p < size
moved-inside p start q size h f g a b = ground arith

moving :
    (n : ℕ) (s : Scanner) (r : Scanned × Scanner) (ts : List Scanned)
    → next_token s ≡ some r
    → ltb s.position r.1.position ≡ true
    → tokens n r.1 ≡ some ts
    → (us : List Scanned) × (tokens (suc n) s ≡ some us)
unfolding tokens
moving n s (t, s') ts h e f = (t ∷ ts, rw (tokens, h, f, e) refl)

resting :
    (n : ℕ) (s : Scanner) (r : Scanned × Scanner)
    → next_token s ≡ some r
    → ltb s.position r.1.position ≡ false
    → (us : List Scanned) × (tokens (suc n) s ≡ some us)
unfolding tokens
resting n s (t, s') h e = elim (Option-cases (tokens n s')) [
  | inl k ↦ (t ∷ [], rw (tokens, h, k, e) refl)
  | inr (ts, k) ↦ (t ∷ [], rw (tokens, h, k, e) refl)
]

-- `NextToken` can be called until the scanner moves no more: after a call for each rune that is left
-- and one more it does not.
pub tokens-Some :
    (n : ℕ) (s : Scanner) (p : ℕ)
    → Fits s
    → length s.data_ - p < n
    → (ts : List Scanned) × (tokens n (at s p) ≡ some ts)
unfolding tokens
tokens-Some zero s p h f = absurd (omega (arith, f))
tokens-Some (suc n) s p h f =
    let found = next_token-Found s p h in
    let (q, (far, (reads, why))) = reached _ found.start found.result found.right in
    let here = space-inside s.data_ p found.start found.after found.spaces in
    let s1 : Scanner = record s { lines = s.lines ++ line_ends s.data_ p (found.start - p) } in
    elim (Bool-cases (ltb p q)) [
      | inl e ↦
          let below : p < length s.data_ =
            moved-inside p found.start q (length s.data_) found.after far (ground (arith, e)) why
              here in
          let (ts, rest) = tokens-Some n s1 q h (omega (arith, below, f, ltb→lt p q e)) in
          moving n (at s p) found.result ts found.found (ap (λ x. ltb p x.position) reads ∙ e)
            (ap (tokens n) reads ∙ rest)
      | inr e ↦ resting n (at s p) found.result found.found (ap (λ x. ltb p x.position) reads ∙ e)
    ]

-- A new scanner stands at the start of its input, on its first line.
pub new_scanner-at :
    (filename : Runes) (input : List ℕ) (s : Scanner)
    → new_scanner filename input ≡ some s
    → (s ≡ at s 0) × (Fits s × (s.data_ ≡ input))
unfolding new_scanner read_rune
new_scanner-at filename input s h = elim (Bool-cases (length input == 0)) [
  | inl e ↦ absurd (ground (arith, h, e))
  | inr e ↦
      let s0 : Scanner = record {
        filename = filename;
        size = length input;
        data_ = input;
        position = 0;
        read_position = 0;
        ch = 0;
        lines = negsuc 0 ∷ [];
      } in
      let same : read_rune s0 ≡ s = cc (h, e) in
      let first : at s0 0 ≡ read_rune s0 =
        ap (λ c. record s0 { ch = c; read_position = 0 + 1 }) (sym (peeked input 0)) in
      rw (← same, ← first) (refl, (refl, refl))
]

-- Reading a new input ends: after a call of `NextToken` for each rune and one more at the latest the
-- scanner moves no more.
pub tokens-new_scanner :
    (filename : Runes) (input : List ℕ) (s : Scanner)
    → new_scanner filename input ≡ some s
    → (ts : List Scanned) × (tokens (suc (length input)) s ≡ some ts)
tokens-new_scanner filename input s h =
    let (start, (fits, same)) = new_scanner-at filename input s h in
    rw start (tokens-Some (suc (length input)) s 0 fits (omega (arith, ap length same)))
