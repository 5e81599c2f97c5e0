-- ===== src/Goctl/Scanner/Tokens.antt =====
-- `NextToken` of tools/goctl/pkg/parser/api/scanner/scanner.go, from one place of the input to the next.
use go_zero_update.Common.{
  ℕ, zero, suc, ◌+◌, ◌-◌, ◌<◌, ◌≤◌, ◌≡◌, refl, sym, ap, ◌∙◌, inl, inr, true, false, List, [], ◌∷◌,
  ◌++◌, append_assoc, append-nil, Option, some, Option-cases, ◌==◌, if◌then◌else◌, length, get_or,
  arith, Bool-cases,
}
use go_zero_update.Common.Int.{ℤ, pos}
use go_zero_update.Goctl.Token.{TokenType, Token, quo_token, string_token, raw_string_token}
use go_zero_update.Goctl.Scanner.{
  Scanner, Scanned, rounds, is_space, is_digit, is_identifier_letter, is_white_space,
  skip_white_space,
}
use go_zero_update.Goctl.Scanner.Switch.{
  single, single_type, always, next_other, next_visible, next_token,
}
use go_zero_update.Goctl.Scanner.Reads.{
  at, Fits, rune-inside, read-at, peek-at, Spans, illegal-Spans,
}
use go_zero_update.Goctl.Scanner.Durations.{int_or_duration-Spans}
use go_zero_update.Goctl.Scanner.Words.{
  Next, ended, Done, new_token-Spans, ident-Spans, line_comment-Spans, string-Done, document-Done,
  dot-Next, at-Next, known, not_zero, spanned-Done,
}

-- The ends of lines among `n` runes.
unfoldable pub line_ends : List ℕ → ℕ → ℕ → List ℤ
line_ends xs p zero = []
line_ends xs p (suc n) =
    let rest = line_ends xs (p + 1) n in if get_or xs p 0 == b'\n' then pos p ∷ rest else rest

-- The spaces before a token: the scanner stands at the first rune that is none, and has noted every
-- end of a line on the way.
pub record Skips (s : Scanner) (p : ℕ) (s' : Scanner) : Type 0 where
  pub stop : ℕ
  pub after : p ≤ stop
  pub reads : s' ≡ at (record s { lines = s.lines ++ line_ends s.data_ p (stop - p) }) stop
  pub spaces : (i : ℕ) → p ≤ i → i < stop → is_space (get_or s.data_ i 0) ≡ true
  pub ends : is_space (get_or s.data_ stop 0) ≡ false

-- One rune more in front of the spaces.
more-Skips :
    (s s1 : Scanner) (p : ℕ) (s' : Scanner) (rest : Skips s1 (p + 1) s')
    → s1.data_ ≡ s.data_
    → is_space (get_or s.data_ p 0) ≡ true
    → at
        (record s1 { lines = s1.lines ++ line_ends s1.data_ (p + 1) (rest.stop - (p + 1)) })
        rest.stop
      ≡ at
          (record s { lines = s.lines ++ line_ends s.data_ p (suc (rest.stop - (p + 1))) })
          rest.stop
    → Skips s p s'
more-Skips s s1 p s' rest same e lines =
    let one : suc (rest.stop - (p + 1)) ≡ rest.stop - p = omega (arith, rest.after) in
    record {
      stop = rest.stop;
      after = omega (arith, rest.after);
      reads =
          rest.reads
          ∙ lines
          ∙ ap (λ n. at (record s { lines = s.lines ++ line_ends s.data_ p n }) rest.stop) one;
      spaces = λ j a b. elim (Bool-cases (j == p)) [
        | inl g ↦
            let here : j ≡ p = ground (arith, g) in ap (λ k. is_space (get_or s.data_ k 0)) here ∙ e
        | inr g ↦
            ap (λ xs. is_space (get_or xs j 0)) (sym same) ∙ rest.spaces j (ground (arith, a, g)) b
      ];
      ends = ap (λ xs. is_space (get_or xs rest.stop 0)) (sym same) ∙ rest.ends;
    }

skip-Skips :
    (n : ℕ) (s : Scanner) (p : ℕ)
    → Fits s
    → length s.data_ - p < n
    → Skips s p (skip_white_space n (at s p))
unfolding skip_white_space is_white_space line_ends
skip-Skips zero s p h f = absurd (omega (arith, f))
skip-Skips (suc n) s p h f = elim (Bool-cases (is_space (get_or s.data_ p 0))) [
  | inl e ↦ elim (Bool-cases (get_or s.data_ p 0 == b'\n')) [
    | inl g ↦
        let s1 : Scanner = record s { lines = s.lines ++ pos p ∷ [] } in
        let below = rune-inside s.data_ p b'\n' (ground (arith, g)) (λ k. ground (arith, k)) in
        let rest = skip-Skips n s1 (p + 1) h (omega (arith, below, f)) in
        let count = rest.stop - (p + 1) in
        let longer : s1.lines ++ line_ends s.data_ (p + 1) count
            ≡ s.lines ++ line_ends s.data_ p (suc count) =
          append_assoc s.lines (pos p ∷ []) (line_ends s.data_ (p + 1) count)
          ∙ rw (line_ends, g) refl in
        rw (e, g, read-at s1 p h)
          (more-Skips s s1 p (skip_white_space n (at s1 (p + 1))) rest refl e
            (ap (λ l. at (record s { lines = l }) rest.stop) longer))
    | inr g ↦
        let below = rune-inside s.data_ p (get_or s.data_ p 0) refl (λ k. ground (arith, e, k)) in
        let rest = skip-Skips n s (p + 1) h (omega (arith, below, f)) in
        let count = rest.stop - (p + 1) in
        let longer : s.lines ++ line_ends s.data_ (p + 1) count
            ≡ s.lines ++ line_ends s.data_ p (suc count) =
          rw (line_ends, g) refl in
        rw (e, g, read-at s p h)
          (more-Skips s s p (skip_white_space n (at s (p + 1))) rest refl e
            (ap (λ l. at (record s { lines = l }) rest.stop) longer))
  ]
  | inr e ↦
      let plain : (get_or s.data_ p 0 == b'\n') ≡ false = ground (arith, e) in
      let none_left : p - p ≡ 0 = omega arith in
      let same : s.lines ++ line_ends s.data_ p (p - p) ≡ s.lines =
        ap (λ k. s.lines ++ line_ends s.data_ p k) none_left ∙ append-nil s.lines in
      rw (e, plain)
        (record {
          stop = p;
          after = omega arith;
          reads = ap (λ l. at (record s { lines = l }) p) (sym same);
          spaces = λ j a b. absurd (omega (arith, a, b));
          ends = e;
        })
]

module _ (s : Scanner) (fits : Fits s) where
  always-Done :
      (p : ℕ) (r : Token × Scanner) → p < length s.data_ → Spans s p p r → Done s fits p (always r)
  always-Done p (t, s') i h = spanned-Done s fits p i h

  other-Done : (p : ℕ) → Done s fits p (next_other (at s p))
  unfolding next_other
  other-Done p = elim (Bool-cases (get_or s.data_ p 0 == b'/')) [
    | inl e ↦
        let inside = known s fits p b'/' e refl in
        elim (Bool-cases (get_or s.data_ (p + 1) 0 == b'/')) [
          | inl f ↦
              rw (next_other, e, peek-at s p fits, f)
                (always-Done p _ inside (line_comment-Spans s fits p inside (ground (arith, e))))
          | inr f ↦ elim (Bool-cases (get_or s.data_ (p + 1) 0 == b'*')) [
            | inl g ↦ rw (next_other, e, peek-at s p fits, f, g) (document-Done s fits p e g)
            | inr g ↦
                rw (next_other, e, peek-at s p fits, f, g)
                  (always-Done p _ inside
                    (new_token-Spans s fits quo_token p p (omega arith) inside))
          ]
        ]
    | inr e ↦ elim (Bool-cases (get_or s.data_ p 0 == b'.')) [
      | inl f ↦ rw (next_other, e, f) (_, (refl, dot-Next s fits p f))
      | inr f ↦ elim (Bool-cases (get_or s.data_ p 0 == b'@')) [
        | inl g ↦ rw (next_other, e, f, g) (_, (refl, at-Next s fits p g))
        | inr g ↦ elim (Bool-cases (get_or s.data_ p 0 == b'"')) [
          | inl k ↦ rw (next_other, e, f, g, k) (string-Done s fits b'"' string_token p refl k)
          | inr k ↦ elim (Bool-cases (get_or s.data_ p 0 == b'`')) [
            | inl l ↦
                rw (next_other, e, f, g, k, l) (string-Done s fits b'`' raw_string_token p refl l)
            | inr l ↦ elim (Bool-cases (get_or s.data_ p 0 == 0)) [
              | inl o ↦ rw (next_other, e, f, g, k, l, o) (_, (refl, ended (ground (arith, o))))
              | inr o ↦
                  let inside = not_zero s fits p o in
                  elim (Bool-cases (is_identifier_letter (get_or s.data_ p 0))) [
                    | inl a ↦
                        rw (next_other, e, f, g, k, l, o, a)
                          (always-Done p _ inside (ident-Spans s fits p inside (ground (arith, a))))
                    | inr a ↦ elim (Bool-cases (is_digit (get_or s.data_ p 0))) [
                      | inl b ↦
                          rw (next_other, e, f, g, k, l, o, a, b)
                            (always-Done p _ inside (int_or_duration-Spans s p fits b))
                      | inr b ↦
                          rw (next_other, e, f, g, k, l, o, a, b)
                            (always-Done p _ inside (illegal-Spans s p fits p p (omega arith)))
                    ]
                  ]
            ]
          ]
        ]
      ]
    ]
  ]

single-inside :
    (s : Scanner) (p : ℕ) (tp : TokenType)
    → single_type single (get_or s.data_ p 0) ≡ some tp
    → p < length s.data_
unfolding single_type
single-inside s p tp h =
    rune-inside s.data_ p (get_or s.data_ p 0) refl (λ z. cc (h, ap (single_type single) z))

visible-Done : (s : Scanner) (fits : Fits s) (p : ℕ) → Done s fits p (next_visible (at s p))
unfolding next_visible
visible-Done s fits p = elim (Option-cases (single_type single (get_or s.data_ p 0))) [
  | inl e ↦ rw (next_visible, e) (other-Done s fits p)
  | inr (tp, e) ↦
      rw (next_visible, e)
        (always-Done s fits p _ (single-inside s p tp e)
          (new_token-Spans s fits tp p p (omega arith) (single-inside s p tp e)))
]

-- What `NextToken` has at a place of the input.
pub record Found (s : Scanner) (p : ℕ) (o : Option (Scanned × Scanner)) : Type 0 where
  pub start : ℕ
  pub after : p ≤ start
  pub spaces : (i : ℕ) → p ≤ i → i < start → is_space (get_or s.data_ i 0) ≡ true
  pub ends : is_space (get_or s.data_ start 0) ≡ false
  pub result : Scanned × Scanner
  pub found : o ≡ some result
  pub right : Next (record s { lines = s.lines ++ line_ends s.data_ p (start - p) }) start result

-- `NextToken` at any place `p` of an input always has a result: after the spaces from `p` on, whose
-- ends of lines it notes, it has a token with just the text that the scanner moves over, or an illegal
-- token over which it moves, or the end, or an error; it stays where it is only at the end, after an
-- error, and at an `@` behind which the input ends. The one gap is the first of two dots.
pub next_token-Found : (s : Scanner) (p : ℕ) → Fits s → Found s p (next_token (at s p))
unfolding next_token
next_token-Found s p h =
    let skipped = skip-Skips (rounds (at s p)) s p h (omega (arith, h)) in
    let s1 : Scanner = record s { lines = s.lines ++ line_ends s.data_ p (skipped.stop - p) } in
    let done = visible-Done s1 h skipped.stop in
    record {
      start = skipped.stop;
      after = skipped.after;
      spaces = skipped.spaces;
      ends = skipped.ends;
      result = done.0;
      found = ap next_visible skipped.reads ∙ done.1.0;
      right = done.1.1;
    }
