-- ===== src/Goctl/Scanner/Reads.antt =====
-- What the reads of tools/goctl/pkg/parser/api/scanner/scanner.go leave: a scanner at a later place of
-- the same input.
use go_zero_update.Common.{
  ℕ, zero, suc, ◌+◌, ◌-◌, ◌<◌, ◌≤◌, ◌≡◌, ◌≢◌, refl, sym, ap, ◌∙◌, ◌⊎◌, inl, inr, Bool, true, false,
  List, [], ◌∷◌, ltb, leb, ◌==◌, if◌then◌else◌, length, get_or, take, drop, arith, Bool-cases,
}
use go_zero_update.Goctl.Token.{TokenType, Token, illegal_token, new_illegal_token}
use go_zero_update.Goctl.Scanner.{Scanner, read_rune, peek_rune, read_while, illegal, span, rounds}

-- The scanner at a place of its input.
abbrev pub at : Scanner → ℕ → Scanner
at s p = record s { position = p; read_position = p + 1; ch = get_or s.data_ p 0 }

-- The size is that of the input.
abbrev pub Fits : Scanner → Type 0
Fits s = s.size ≡ length s.data_

get_or-beyond : (xs : List ℕ) (i : ℕ) → length xs ≤ i → get_or xs i 0 ≡ 0
get_or-beyond [] i h = refl
get_or-beyond (x ∷ xs) zero h = absurd (omega (arith, h))
get_or-beyond (x ∷ xs) (suc i) h = get_or-beyond xs i (omega (arith, h))

-- A rune that is not 0 is inside the input.
pub rune-inside : (xs : List ℕ) (p c : ℕ) → get_or xs p 0 ≡ c → c ≢ 0 → p < length xs
rune-inside xs p c e h = elim (Bool-cases (ltb p (length xs))) [
  | inl f ↦ ground (arith, f)
  | inr f ↦ absurd (h (sym e ∙ get_or-beyond xs p (ground (arith, f))))
]

pub peeked :
    (xs : List ℕ) (i : ℕ) → (if leb (length xs) i then 0 else get_or xs i 0) ≡ get_or xs i 0
peeked xs i = elim (Bool-cases (leb (length xs) i)) [
  | inl f ↦ rw f (sym (get_or-beyond xs i (ground (arith, f))))
  | inr f ↦ rw f refl
]

pub read-at : (s : Scanner) (p : ℕ) → Fits s → read_rune (at s p) ≡ at s (p + 1)
unfolding read_rune
read-at s p h =
    ap (λ c. record s { position = p + 1; read_position = p + 1 + 1; ch = c })
      (ap (λ n. if leb n (p + 1) then 0 else get_or s.data_ (p + 1) 0) h ∙ peeked s.data_ (p + 1))

pub peek-at : (s : Scanner) (p : ℕ) → Fits s → peek_rune (at s p) ≡ get_or s.data_ (p + 1) 0
unfolding peek_rune
peek-at s p h =
    ap (λ n. if leb n (p + 1) then 0 else get_or s.data_ (p + 1) 0) h ∙ peeked s.data_ (p + 1)

-- A loop of reads stops at the first rune that fails the test, if the rune 0 does.
pub record Stops (test : ℕ → Bool) (s : Scanner) (p : ℕ) (s' : Scanner) : Type 0 where
  pub stop : ℕ
  pub after : p ≤ stop
  pub inside : stop ≤ length s.data_
  pub reads : s' ≡ at s stop
  pub passed : (i : ℕ) → p ≤ i → i < stop → test (get_or s.data_ i 0) ≡ true
  pub fails : test (get_or s.data_ stop 0) ≡ false

pub read_while-Stops :
    (test : ℕ → Bool) (n : ℕ) (s : Scanner) (p : ℕ)
    → Fits s
    → test 0 ≡ false
    → p ≤ length s.data_
    → length s.data_ - p < n
    → Stops test s p (read_while test n (at s p))
unfolding read_while
read_while-Stops test zero s p h z i f = absurd (omega (arith, f))
read_while-Stops test (suc n) s p h z i f = elim (Bool-cases (test (get_or s.data_ p 0))) [
  | inl e ↦
      let below : p < length s.data_ = elim (Bool-cases (ltb p (length s.data_))) [
        | inl g ↦ ground (arith, g)
        | inr g ↦
            absurd (ground (arith, e, z, ap test (get_or-beyond s.data_ p (ground (arith, g)))))
      ] in
      let rest =
        read_while-Stops test n s (p + 1) h z (omega (arith, below)) (omega (arith, f, below)) in
      rw (e, read-at s p h)
        (record {
          stop = rest.stop;
          after = omega (arith, rest.after);
          inside = rest.inside;
          reads = rest.reads;
          passed = λ j a b. elim (Bool-cases (j == p)) [
            | inl g ↦
                let same : j ≡ p = ground (arith, g) in ap (λ k. test (get_or s.data_ k 0)) same ∙ e
            | inr g ↦ rest.passed j (ground (arith, a, g)) b
          ];
          fails = rest.fails;
        })
  | inr e ↦ rw e (record {
    stop = p;
    after = omega arith;
    inside = i;
    reads = refl;
    passed = λ j a b. absurd (omega (arith, a, b));
    fails = e;
  })
]

pub loop-Stops :
    (test : ℕ → Bool) (s : Scanner) (p : ℕ)
    → Fits s
    → test 0 ≡ false
    → p ≤ length s.data_
    → Stops test s p (read_while test (rounds (at s p)) (at s p))
loop-Stops test s p h z i = read_while-Stops test (suc (s.size - p)) s p h z i (omega (arith, h))

pub Stops-moves :
    (test : ℕ → Bool) (s : Scanner) (p : ℕ) (s' : Scanner) (d : Stops test s p s')
    → test (get_or s.data_ p 0) ≡ true
    → p < d.stop
Stops-moves test s p s' d e = elim (Bool-cases (p == d.stop)) [
  | inl f ↦
      let same : p ≡ d.stop = ground (arith, f) in
      absurd (ground (arith, e, d.fails, ap (λ k. test (get_or s.data_ k 0)) same))
  | inr f ↦ ground (arith, f, d.after)
]

-- A token that begins at `from`, of a scanner that was at `p`: the scanner has moved on, and the token
-- has the text from `from` up to there, unless it is an illegal one.
pub record Spans (s : Scanner) (from p : ℕ) (r : Token × Scanner) : Type 0 where
  pub stop : ℕ
  pub after : p < stop
  pub reads : r.1 ≡ at s stop
  pub text :
      (r.0.type ≡ illegal_token)
      ⊎ ((stop ≤ length s.data_) × (r.0.text ≡ take (stop - from) (drop from s.data_)))

module _ (s : Scanner) (from : ℕ) (fits : Fits s) where
  pub later-Spans : (p q : ℕ) (r : Token × Scanner) → p ≤ q → Spans s from q r → Spans s from p r
  later-Spans p q r h v = record {
    stop = v.stop;
    after = omega (arith, v.after, h);
    reads = v.reads;
    text = v.text;
  }

  pub span-Spans :
      (tp : TokenType) (p q : ℕ)
      → p < q
      → q ≤ length s.data_
      → Spans s from p (span tp (at s q) from, at s q)
  span-Spans tp p q h i = record { stop = q; after = h; reads = refl; text = inr (i, refl) }

  pub illegal-Spans : (p q : ℕ) → p ≤ q → Spans s from p (illegal (at s q))
  unfolding illegal new_illegal_token
  illegal-Spans p q h = record {
    stop = q + 1;
    after = omega (arith, h);
    reads = read-at s q fits;
    text = inl refl;
  }

-- A slice by its first rune.
pub slice_cons :
    (xs : List ℕ) (p q : ℕ)
    → p < q
    → p < length xs
    → take (q - p) (drop p xs) ≡ get_or xs p 0 ∷ take (q - (p + 1)) (drop (p + 1) xs)
slice_cons [] p q h i = absurd (omega (arith, i))
slice_cons (x ∷ xs) zero zero h i = absurd (omega (arith, h))
slice_cons (x ∷ xs) zero (suc q) h i =
    let one : suc q - 0 ≡ suc q = omega arith in
    let rest : suc q - (0 + 1) ≡ q = omega arith in
    let next : 0 + 1 ≡ suc zero = omega arith in
    ap (λ n. take n (x ∷ xs)) one
    ∙ ap (λ n. x ∷ take n xs) (sym rest)
    ∙ ap (λ n. x ∷ take (suc q - (0 + 1)) (drop n (x ∷ xs))) (sym next)
slice_cons (x ∷ xs) (suc p) q h i =
    let less : q - suc p ≡ q - 1 - p = omega arith in
    let rest : q - (suc p + 1) ≡ q - 1 - (p + 1) = omega arith in
    let next : suc p + 1 ≡ suc (p + 1) = omega arith in
    ap (λ n. take n (drop p xs)) less
    ∙ slice_cons xs p (q - 1) (omega (arith, h)) (omega (arith, i))
    ∙ ap (λ n. get_or xs p 0 ∷ take n (drop (p + 1) xs)) (sym rest)
    ∙ ap (λ n. get_or xs p 0 ∷ take (q - (suc p + 1)) (drop n (x ∷ xs))) (sym next)
