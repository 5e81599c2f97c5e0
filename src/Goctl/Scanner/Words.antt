-- ===== src/Goctl/Scanner/Words.antt =====
-- The other tokens of tools/goctl/pkg/parser/api/scanner/scanner.go: names, comments, strings, marks.
use go_zero_update.Common.{
  ℕ, zero, suc, ◌+◌, ◌-◌, ◌<◌, ◌≤◌, ◌≡◌, refl, sym, ap, ◌∙◌, ◌⊎◌, inl, inr, Bool, true, false, ◌&&◌,
  ◌||◌, not, [], ◌∷◌, Option, some, ◌==◌, length, get_or, take, drop, arith, Bool-cases,
}
use go_zero_update.Common.Texts.{bytes_eq, bytes_eq_iff}
use go_zero_update.Goctl.Token.{
  Runes, TokenType, Token, eof, illegal_token, any_token, ident_token, comment_token, dot_token,
  document_token, new_illegal_token,
}
use go_zero_update.Goctl.Scanner.{
  Mode, document_open, document_half_close, string_open, Scanner, Scanned, token, failed, ScanError,
  read_while, rounds, is_digit, is_letter, is_identifier_letter, text_of, new_token,
}
use go_zero_update.Goctl.Scanner.Literals.{
  interface_text, handler_text, server_text, doc_text, scan_ident, scan_line_comment,
  scan_letter_set, scan_at, scan_dot, string_mode, document_mode, scan_string_from, scan_string,
  scan_document_from, scan_document,
}
use go_zero_update.Goctl.Scanner.Reads.{
  at, Fits, rune-inside, read-at, peek-at, Stops-moves, loop-Stops, Spans, span-Spans, slice_cons,
}

-- What `NextToken` may have at a place `p` that is no space: a token, the end of the input, an error,
-- or the illegal token of an `@` with nothing behind it, at which the scanner stays.
pub data Next (s : Scanner) (p : ℕ) : Scanned × Scanner → Type 0 where
  spanned :
      (from : ℕ) (t : Token) (s' : Scanner)
      → (from ≡ p) ⊎ ((from ≡ p + 1) × (t.type ≡ dot_token))
      → p < length s.data_
      → Spans s from p (t, s')
      → Next s p (token t, s')
  ended : get_or s.data_ p 0 ≡ 0 → Next s p (token eof, at s p)
  stays :
      (t : Token)
      → t.type ≡ illegal_token
      → (get_or s.data_ p 0 ≡ b'@') × (get_or s.data_ (p + 1) 0 ≡ 0)
      → Next s p (token t, at s p)
  refused : (e : ScanError) (q : ℕ) → p < length s.data_ → p ≤ q → Next s p (failed e, at s q)

module _ (s : Scanner) (fits : Fits s) where
  pub new_token-Spans :
      (tp : TokenType) (p q : ℕ) → p ≤ q → q < length s.data_ → Spans s q p (new_token tp (at s q))
  unfolding new_token
  new_token-Spans tp p q h i =
      let none_left : q + 1 - (q + 1) ≡ 0 = omega arith in
      record {
        stop = q + 1;
        after = omega (arith, h);
        reads = read-at s q fits;
        text = inr (
          omega (arith, i),
          sym (
              slice_cons s.data_ q (q + 1) (omega arith) i
              ∙ ap (λ n. get_or s.data_ q 0 ∷ take n (drop (q + 1) s.data_)) none_left),
        );
      }

  abbrev name_rune : ℕ → Bool
  name_rune b = is_identifier_letter b || is_digit b

  pub ident-Spans :
      (p : ℕ)
      → p < length s.data_
      → name_rune (get_or s.data_ p 0) ≡ true
      → Spans s p p (scan_ident (at s p))
  unfolding scan_ident
  ident-Spans p i e =
      let d = loop-Stops name_rune s p fits refl (omega (arith, i)) in
      let moved = Stops-moves name_rune s p (read_while name_rune (rounds (at s p)) (at s p)) d e in
      let rest = (get_or s.data_ d.stop 0 == b'{') && (get_or s.data_ (d.stop + 1) 0 == b'}') in
      elim (Bool-cases (bytes_eq (text_of (at s d.stop) p) interface_text && rest)) [
        | inl f ↦
            let inside =
              rune-inside s.data_ (d.stop + 1) b'}' (ground (arith, f)) (λ h. ground (arith, h)) in
            rw
              (
                scan_ident,
                d.reads,
                peek-at s d.stop fits,
                f,
                read-at s d.stop fits,
                read-at s (d.stop + 1) fits,
              )
              (span-Spans s p fits any_token p (d.stop + 1 + 1) (omega (arith, moved))
                (omega (arith, inside)))
        | inr f ↦
            rw (scan_ident, d.reads, peek-at s d.stop fits, f)
              (span-Spans s p fits ident_token p d.stop moved d.inside)
      ]

  abbrev line_rune : ℕ → Bool
  line_rune b = not (b == b'\n') && not (b == 0)

  pub line_comment-Spans :
      (p : ℕ)
      → p < length s.data_
      → line_rune (get_or s.data_ p 0) ≡ true
      → Spans s p p (scan_line_comment (at s p))
  unfolding scan_line_comment
  line_comment-Spans p i e =
      let d = loop-Stops line_rune s p fits refl (omega (arith, i)) in
      let moved = Stops-moves line_rune s p (read_while line_rune (rounds (at s p)) (at s p)) d e in
      rw (scan_line_comment, d.reads) (span-Spans s p fits comment_token p d.stop moved d.inside)

  pub known : (p c : ℕ) → (get_or s.data_ p 0 == c) ≡ true → (c == 0) ≡ false → p < length s.data_
  known p c e z = rune-inside s.data_ p c (ground (arith, e)) (λ h. ground (arith, h, z))

  pub not_zero : (p : ℕ) → (get_or s.data_ p 0 == 0) ≡ false → p < length s.data_
  not_zero p e = rune-inside s.data_ p (get_or s.data_ p 0) refl (λ h. ground (arith, h, e))

  -- A call that has a result, of the right kind.
  abbrev pub Done : ℕ → Option (Scanned × Scanner) → Type 0
  Done p o = (r : Scanned × Scanner) × ((o ≡ some r) × Next s p r)

  refused-Done :
      {e : ScanError} (p q : ℕ) → p < length s.data_ → p ≤ q → Done p (some (failed e, at s q))
  refused-Done {e} p q i h = ((failed e, at s q), (refl, refused e q i h))

  pub spanned-Done :
      {t : Token} {s' : Scanner} (p : ℕ)
      → p < length s.data_
      → Spans s p p (t, s')
      → Done p (some (token t, s'))
  spanned-Done {t} {s'} p i h = ((token t, s'), (refl, spanned p t s' (inl refl) i h))

  string_open-Done :
      (delim : ℕ) (tp : TokenType) (p n q : ℕ)
      → (delim == 0) ≡ false
      → p < q
      → q ≤ length s.data_
      → length s.data_ - q < n
      → Done p (scan_string_from delim tp p n string_open (at s q))
  unfolding scan_string_from string_mode
  string_open-Done delim tp p zero q z h i f = absurd (omega (arith, f))
  string_open-Done delim tp p (suc n) q z h i f = elim (Bool-cases (get_or s.data_ q 0 == delim)) [
    | inl e ↦
        let inside = known q delim e z in
        rw (scan_string_from, e, read-at s q fits)
          (spanned-Done p (omega (arith, h, inside))
            (span-Spans s p fits tp p (q + 1) (omega (arith, h)) (omega (arith, inside))))
    | inr e ↦ elim (Bool-cases (get_or s.data_ q 0 == 0)) [
      | inl g ↦
          rw (scan_string_from, e, g) (refused-Done p q (omega (arith, h, i)) (omega (arith, h)))
      | inr g ↦
          let inside = not_zero q g in
          rw (scan_string_from, e, g, read-at s q fits)
            (string_open-Done delim tp p n (q + 1) z (omega (arith, h)) (omega (arith, inside))
              (omega (arith, inside, f)))
    ]
  ]

  pub string-Done :
      (delim : ℕ) (tp : TokenType) (p : ℕ)
      → (delim == 0) ≡ false
      → (get_or s.data_ p 0 == delim) ≡ true
      → Done p (scan_string delim tp (at s p))
  unfolding scan_string scan_string_from string_mode
  string-Done delim tp p z e =
      let inside = known p delim e z in
      let (r, (got, right)) =
        string_open-Done delim tp p (s.size - p) (p + 1) z (omega arith) (omega (arith, inside))
          (omega (arith, inside, fits)) in
      (r, (rw (scan_string, scan_string_from, e, read-at s p fits) got, right))

  abbrev mode_of : Bool → Mode
  mode_of true = document_half_close
  mode_of false = document_open

  document_open-Done :
      (p n q : ℕ) (star : Bool)
      → p < q
      → q ≤ length s.data_
      → length s.data_ - q < n
      → Done p (scan_document_from p n (mode_of star) (at s q))
  unfolding scan_document_from document_mode
  document_open-Done p zero q star h i f = absurd (omega (arith, f))
  document_open-Done p (suc n) q star h i f = elim (Bool-cases (get_or s.data_ q 0 == 0)) [
    | inl e ↦ elim star as (λ b. Done p (scan_document_from p (suc n) (mode_of b) (at s q))) [
      | true ↦
          rw (scan_document_from, e) (refused-Done p q (omega (arith, h, i)) (omega (arith, h)))
      | false ↦
          rw (scan_document_from, e) (refused-Done p q (omega (arith, h, i)) (omega (arith, h)))
    ]
    | inr e ↦
        let inside = not_zero q e in
        let next : (b : Bool) → Done p (scan_document_from p n (mode_of b) (at s (q + 1))) = λ b.
          document_open-Done p n (q + 1) b (omega (arith, h)) (omega (arith, inside))
            (omega (arith, inside, f)) in
        elim (Bool-cases (get_or s.data_ q 0 == b'/')) [
          | inl g ↦ elim star as (λ b. Done p (scan_document_from p (suc n) (mode_of b) (at s q))) [
            | true ↦
                rw (scan_document_from, e, g, read-at s q fits)
                  (spanned-Done p (omega (arith, h, inside)) (
                    span-Spans s p fits document_token p (q + 1) (omega (arith, h))
                      (omega (arith, inside))))
            | false ↦
                let plain : (get_or s.data_ q 0 == b'*') ≡ false = ground (arith, g) in
                rw (scan_document_from, e, g, read-at s q fits, document_mode, plain) (next false)
          ]
          | inr g ↦ elim star as (λ b. Done p (scan_document_from p (suc n) (mode_of b) (at s q))) [
            | true ↦ rw (scan_document_from, e, g, read-at s q fits) (next true)
            | false ↦ elim (Bool-cases (get_or s.data_ q 0 == b'*')) [
              | inl k ↦
                  rw (scan_document_from, e, g, read-at s q fits, document_mode, k) (next true)
              | inr k ↦
                  rw (scan_document_from, e, g, read-at s q fits, document_mode, k) (next false)
            ]
          ]
        ]
  ]

  pub document-Done :
      (p : ℕ)
      → (get_or s.data_ p 0 == b'/') ≡ true
      → (get_or s.data_ (p + 1) 0 == b'*') ≡ true
      → Done p (scan_document (at s p))
  unfolding scan_document scan_document_from document_mode
  document-Done p e f =
      let inside = known p b'/' e refl in
      let second = known (p + 1) b'*' f refl in
      let slash_nonzero : (get_or s.data_ p 0 == 0) ≡ false = ground (arith, e) in
      let star_nonzero : (get_or s.data_ (p + 1) 0 == 0) ≡ false = ground (arith, f) in
      let star_other : (get_or s.data_ (p + 1) 0 == b'/') ≡ false = ground (arith, f) in
      let left : s.size - p ≡ suc (s.size - p - 1) = omega (arith, fits, inside) in
      rw
        (
          scan_document,
          left,
          scan_document_from,
          slash_nonzero,
          e,
          read-at s p fits,
          star_nonzero,
          star_other,
          document_mode,
          f,
          read-at s (p + 1) fits,
        )
        (document_open-Done p (s.size - p - 1) (p + 1 + 1) false (omega arith)
          (omega (arith, second)) (omega (arith, second, fits)))

  three_dots :
      (p : ℕ)
      → (get_or s.data_ p 0 == b'.') ≡ true
      → (get_or s.data_ (p + 1) 0 == b'.') ≡ true
      → (get_or s.data_ (p + 1 + 1) 0 == b'.') ≡ true
      → take (p + 1 + 1 + 1 - p) (drop p s.data_) ≡ b'.' ∷ b'.' ∷ b'.' ∷ []
  three_dots p e f g =
      let q = p + 1 + 1 + 1 in
      let none_left : q - (p + 1 + 1 + 1) ≡ 0 = omega arith in
      let first : get_or s.data_ p 0 ≡ b'.' = ground (arith, e) in
      let second : get_or s.data_ (p + 1) 0 ≡ b'.' = ground (arith, f) in
      let third : get_or s.data_ (p + 1 + 1) 0 ≡ b'.' = ground (arith, g) in
      slice_cons s.data_ p q (omega arith) (known p b'.' e refl)
      ∙ ap (λ l. get_or s.data_ p 0 ∷ l)
          (slice_cons s.data_ (p + 1) q (omega arith) (known (p + 1) b'.' f refl))
      ∙ ap (λ l. get_or s.data_ p 0 ∷ get_or s.data_ (p + 1) 0 ∷ l)
          (slice_cons s.data_ (p + 1 + 1) q (omega arith) (known (p + 1 + 1) b'.' g refl))
      ∙ ap
          (λ n.
            get_or s.data_ p 0
            ∷ get_or s.data_ (p + 1) 0
            ∷ get_or s.data_ (p + 1 + 1) 0
            ∷ take n (drop q s.data_))
          none_left
      ∙ cc (first, second, third)

  -- A dot, the second of two dots, or three.
  pub dot-Next : (p : ℕ) → (get_or s.data_ p 0 == b'.') ≡ true → Next s p (scan_dot (at s p))
  unfolding scan_dot new_token
  dot-Next p e =
      let inside = known p b'.' e refl in
      elim (Bool-cases (get_or s.data_ (p + 1) 0 == b'.')) [
        | inl f ↦
            let second = known (p + 1) b'.' f refl in
            elim (Bool-cases (get_or s.data_ (p + 1 + 1) 0 == b'.')) [
              | inl g ↦
                  let third = known (p + 1 + 1) b'.' g refl in
                  rw
                    (
                      scan_dot,
                      peek-at s p fits,
                      f,
                      read-at s p fits,
                      peek-at s (p + 1) fits,
                      g,
                      read-at s (p + 1) fits,
                      read-at s (p + 1 + 1) fits,
                    )
                    (spanned p _ (at s (p + 1 + 1 + 1)) (inl refl) inside (record {
                      stop = p + 1 + 1 + 1;
                      after = omega arith;
                      reads = refl;
                      text = inr (omega (arith, third), sym (three_dots p e f g));
                    }))
              | inr g ↦
                  rw (scan_dot, peek-at s p fits, f, read-at s p fits, peek-at s (p + 1) fits, g)
                    (spanned (p + 1) (new_token dot_token (at s (p + 1))).0
                      (new_token dot_token (at s (p + 1))).1 (inr (refl, refl)) inside
                      (new_token-Spans dot_token p (p + 1) (omega arith) second))
            ]
        | inr f ↦
            rw (scan_dot, peek-at s p fits, f)
              (spanned p (new_token dot_token (at s p)).0 (new_token dot_token (at s p)).1
                (inl refl) inside (new_token-Spans dot_token p p (omega arith) inside))
      ]

  -- An `@` and a word behind it.
  named-Spans :
      (p q : ℕ) (word : Runes) (t : Token)
      → (get_or s.data_ p 0 == b'@') ≡ true
      → p < q
      → q ≤ length s.data_
      → bytes_eq (take (q - (p + 1)) (drop (p + 1) s.data_)) word ≡ true
      → t.text ≡ b'@' ∷ word
      → Spans s p p (t, at s q)
  named-Spans p q word t e h i w f =
      let first : get_or s.data_ p 0 ≡ b'@' = ground (arith, e) in
      let letters : take (q - (p + 1)) (drop (p + 1) s.data_) ≡ word =
        ground (arith, w, bytes_eq_iff (take (q - (p + 1)) (drop (p + 1) s.data_)) word) in
      record {
        stop = q;
        after = h;
        reads = refl;
        text =
            inr (i, f ∙ sym (slice_cons s.data_ p q h (known p b'@' e refl) ∙ cc (first, letters)));
      }

  pub at-Next : (p : ℕ) → (get_or s.data_ p 0 == b'@') ≡ true → Next s p (scan_at (at s p))
  unfolding scan_at scan_letter_set new_illegal_token
  at-Next p e =
      let inside = known p b'@' e refl in
      let d = loop-Stops is_letter s (p + 1) fits refl (omega (arith, inside)) in
      let letters = take (d.stop - (p + 1)) (drop (p + 1) s.data_) in
      elim (Bool-cases (is_letter (get_or s.data_ (p + 1) 0))) [
        | inr f ↦ elim (Bool-cases (get_or s.data_ (p + 1) 0 == 0)) [
          | inl g ↦
              rw (scan_at, peek-at s p fits, f, g)
                (stays _ refl (ground (arith, e), ground (arith, g)))
          | inr g ↦ rw (scan_at, peek-at s p fits, f, g) (refused _ p inside (omega arith))
        ]
        | inl f ↦
            let moved : p < d.stop = omega (arith, d.after) in
            elim (Bool-cases (bytes_eq letters handler_text)) [
              | inl g ↦
                  rw (scan_at, peek-at s p fits, f, read-at s p fits, d.reads, g)
                    (spanned p _ (at s d.stop) (inl refl) inside
                      (named-Spans p d.stop handler_text _ e moved d.inside g refl))
              | inr g ↦ elim (Bool-cases (bytes_eq letters server_text)) [
                | inl k ↦
                    rw (scan_at, peek-at s p fits, f, read-at s p fits, d.reads, g, k)
                      (spanned p _ (at s d.stop) (inl refl) inside
                        (named-Spans p d.stop server_text _ e moved d.inside k refl))
                | inr k ↦ elim (Bool-cases (bytes_eq letters doc_text)) [
                  | inl l ↦
                      rw (scan_at, peek-at s p fits, f, read-at s p fits, d.reads, g, k, l)
                        (spanned p _ (at s d.stop) (inl refl) inside
                          (named-Spans p d.stop doc_text _ e moved d.inside l refl))
                  | inr l ↦
                      rw (scan_at, peek-at s p fits, f, read-at s p fits, d.reads, g, k, l)
                        (refused _ d.stop inside (omega (arith, moved)))
                ]
              ]
            ]
      ]
