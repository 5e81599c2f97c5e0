-- ===== src/Goctl/Scanner/Durations.antt =====
-- The durations of tools/goctl/pkg/parser/api/scanner/scanner.go: each function reads on, and has a
-- token with the text that it read, or an illegal one.
use go_zero_update.Common.{
  ℕ, ◌+◌, ◌<◌, ◌≤◌, ◌≡◌, refl, inl, inr, true, false, ◌||◌, not, ◌==◌, if◌then◌else◌, length,
  get_or, arith, Bool-cases,
}
use go_zero_update.Goctl.Token.{int_token, duration_token}
use go_zero_update.Goctl.Scanner.{Scanner, is_digit, skip_digits, illegal}
use go_zero_update.Goctl.Scanner.Units.{
  scan_nanosecond, scan_microsecond, scan_millisecond, scan_second, scan_minute,
  scan_millisecond_or_minute, scan_hour, scan_duration, scan_int_or_duration,
}
use go_zero_update.Goctl.Scanner.Reads.{
  at, Fits, rune-inside, read-at, Stops, Stops-moves, loop-Stops, Spans, later-Spans, span-Spans,
  illegal-Spans,
}

module _ (s : Scanner) (from : ℕ) (fits : Fits s) where
  abbrev rune_at : ℕ → ℕ
  rune_at p = get_or s.data_ p 0

  skip-Stops : (p : ℕ) → p ≤ length s.data_ → Stops is_digit s p (skip_digits (at s p))
  unfolding skip_digits
  skip-Stops p i = loop-Stops is_digit s p fits refl i

  known-inside : (p c : ℕ) → (rune_at p == c) ≡ true → (c == 0) ≡ false → p < length s.data_
  known-inside p c e z = rune-inside s.data_ p c (ground (arith, e)) (λ h. ground (arith, h, z))

  digit-inside : (p : ℕ) → is_digit (rune_at p) ≡ true → p < length s.data_
  digit-inside p e = rune-inside s.data_ p (rune_at p) refl (λ h. ground (arith, h, e))

  nanosecond-Spans : (p : ℕ) → p < length s.data_ → Spans s from p (scan_nanosecond from (at s p))
  unfolding scan_nanosecond
  nanosecond-Spans p i = elim (Bool-cases (rune_at (p + 1) == b's')) [
    | inl e ↦
        let inside = known-inside (p + 1) b's' e refl in
        rw (scan_nanosecond, read-at s p fits, e, read-at s (p + 1) fits)
          (span-Spans s from fits duration_token p (p + 1 + 1) (omega arith)
            (omega (arith, inside)))
    | inr e ↦
        rw (scan_nanosecond, read-at s p fits, e)
          (illegal-Spans s from fits p (p + 1) (omega arith))
  ]

  microsecond-Spans : (p : ℕ) → p < length s.data_ → Spans s from p (scan_microsecond from (at s p))
  unfolding scan_microsecond
  microsecond-Spans p i = elim (Bool-cases (rune_at (p + 1) == b's')) [
    | inl e ↦
        let inside = known-inside (p + 1) b's' e refl in
        let d = skip-Stops (p + 1 + 1) (omega (arith, inside)) in
        elim (Bool-cases (is_digit (rune_at (p + 1 + 1)))) [
          | inl f ↦ elim (Bool-cases (rune_at d.stop == b'n')) [
            | inl g ↦
                rw (scan_microsecond, read-at s p fits, e, read-at s (p + 1) fits, f, d.reads, g)
                  (later-Spans s from fits p d.stop (scan_nanosecond from (at s d.stop))
                    (omega (arith, d.after))
                    (nanosecond-Spans d.stop (known-inside d.stop b'n' g refl)))
            | inr g ↦
                rw (scan_microsecond, read-at s p fits, e, read-at s (p + 1) fits, f, d.reads, g)
                  (illegal-Spans s from fits p d.stop (omega (arith, d.after)))
          ]
          | inr f ↦
              rw (scan_microsecond, read-at s p fits, e, read-at s (p + 1) fits, f)
                (span-Spans s from fits duration_token p (p + 1 + 1) (omega arith)
                  (omega (arith, inside)))
        ]
    | inr e ↦
        rw (scan_microsecond, read-at s p fits, e)
          (illegal-Spans s from fits p (p + 1) (omega arith))
  ]

  -- From an earlier place.
  nano-after :
      (p q : ℕ)
      → p ≤ q
      → (rune_at q == b'n') ≡ true
      → Spans s from p (scan_nanosecond from (at s q))
  nano-after p q h e =
      later-Spans s from fits p q (scan_nanosecond from (at s q)) h
        (nanosecond-Spans q (known-inside q b'n' e refl))

  micro-after :
      (p q : ℕ)
      → p ≤ q
      → (rune_at q == 181) ≡ true
      → Spans s from p (scan_microsecond from (at s q))
  micro-after p q h e =
      later-Spans s from fits p q (scan_microsecond from (at s q)) h
        (microsecond-Spans q (known-inside q 181 e refl))

  millisecond-Spans : (p : ℕ) → p < length s.data_ → Spans s from p (scan_millisecond from (at s p))
  unfolding scan_millisecond
  millisecond-Spans p i =
      let d = skip-Stops (p + 1) (omega (arith, i)) in
      let far : p ≤ d.stop = omega (arith, d.after) in
      elim (Bool-cases (is_digit (rune_at (p + 1)))) [
        | inr f ↦
            rw (scan_millisecond, read-at s p fits, f)
              (span-Spans s from fits duration_token p (p + 1) (omega arith) (omega (arith, i)))
        | inl f ↦ elim (Bool-cases (rune_at d.stop == b'n')) [
          | inl g ↦
              rw (scan_millisecond, read-at s p fits, f, d.reads, g) (nano-after p d.stop far g)
          | inr g ↦ elim (Bool-cases (rune_at d.stop == 181)) [
            | inl k ↦
                rw (scan_millisecond, read-at s p fits, f, d.reads, g, k)
                  (micro-after p d.stop far k)
            | inr k ↦
                rw (scan_millisecond, read-at s p fits, f, d.reads, g, k)
                  (illegal-Spans s from fits p d.stop far)
          ]
        ]
      ]

  -- Behind digits, an `m` that must be a millisecond's.
  milli-after :
      (p q : ℕ)
      → p ≤ q
      → (rune_at q == b'm') ≡ true
      → Spans s from p (
          if not ((at s (q + 1)).ch == b's')
          then illegal (at s (q + 1))
          else scan_millisecond from (at s (q + 1)))
  milli-after p q h e = elim (Bool-cases (rune_at (q + 1) == b's')) [
    | inl f ↦ rw f (
        later-Spans s from fits p (q + 1) (scan_millisecond from (at s (q + 1))) (omega (arith, h))
          (millisecond-Spans (q + 1) (known-inside (q + 1) b's' f refl)))
    | inr f ↦ rw f (illegal-Spans s from fits p (q + 1) (omega (arith, h)))
  ]

  second-Spans : (p : ℕ) → p < length s.data_ → Spans s from p (scan_second from (at s p))
  unfolding scan_second
  second-Spans p i =
      let d = skip-Stops (p + 1) (omega (arith, i)) in
      let far : p ≤ d.stop = omega (arith, d.after) in
      elim (Bool-cases (is_digit (rune_at (p + 1)))) [
        | inr f ↦
            rw (scan_second, read-at s p fits, f)
              (span-Spans s from fits duration_token p (p + 1) (omega arith) (omega (arith, i)))
        | inl f ↦ elim (Bool-cases (rune_at d.stop == b'n')) [
          | inl g ↦ rw (scan_second, read-at s p fits, f, d.reads, g) (nano-after p d.stop far g)
          | inr g ↦ elim (Bool-cases (rune_at d.stop == 181)) [
            | inl k ↦
                rw (scan_second, read-at s p fits, f, d.reads, g, k) (micro-after p d.stop far k)
            | inr k ↦ elim (Bool-cases (rune_at d.stop == b'm')) [
              | inl l ↦
                  rw (scan_second, read-at s p fits, f, d.reads, g, k, l, read-at s d.stop fits)
                    (milli-after p d.stop far l)
              | inr l ↦
                  rw (scan_second, read-at s p fits, f, d.reads, g, k, l)
                    (illegal-Spans s from fits p d.stop far)
            ]
          ]
        ]
      ]

  second-after :
      (p q : ℕ) → p ≤ q → (rune_at q == b's') ≡ true → Spans s from p (scan_second from (at s q))
  second-after p q h e =
      later-Spans s from fits p q (scan_second from (at s q)) h
        (second-Spans q (known-inside q b's' e refl))

  -- `scanMinute` stands behind the unit.
  minute-Spans : (p q : ℕ) → p < q → q ≤ length s.data_ → Spans s from p (scan_minute from (at s q))
  unfolding scan_minute
  minute-Spans p q h i =
      let d = skip-Stops q i in
      let far : p ≤ d.stop = omega (arith, d.after, h) in
      elim (Bool-cases (is_digit (rune_at q))) [
        | inr f ↦ rw (scan_minute, f) (span-Spans s from fits duration_token p q h i)
        | inl f ↦ elim (Bool-cases (rune_at d.stop == b'n')) [
          | inl g ↦ rw (scan_minute, f, d.reads, g) (nano-after p d.stop far g)
          | inr g ↦ elim (Bool-cases (rune_at d.stop == 181)) [
            | inl k ↦ rw (scan_minute, f, d.reads, g, k) (micro-after p d.stop far k)
            | inr k ↦ elim (Bool-cases (rune_at d.stop == b'm')) [
              | inl l ↦
                  rw (scan_minute, f, d.reads, g, k, l, read-at s d.stop fits)
                    (milli-after p d.stop far l)
              | inr l ↦ elim (Bool-cases (rune_at d.stop == b's')) [
                | inl o ↦ rw (scan_minute, f, d.reads, g, k, l, o) (second-after p d.stop far o)
                | inr o ↦
                    rw (scan_minute, f, d.reads, g, k, l, o)
                      (illegal-Spans s from fits p d.stop far)
              ]
            ]
          ]
        ]
      ]

  m-Spans : (p : ℕ) → p < length s.data_ → Spans s from p (scan_millisecond_or_minute from (at s p))
  unfolding scan_millisecond_or_minute
  m-Spans p i = elim (Bool-cases (rune_at (p + 1) == b's')) [
    | inl e ↦
        rw (scan_millisecond_or_minute, read-at s p fits, e)
          (later-Spans s from fits p (p + 1) (scan_millisecond from (at s (p + 1))) (omega arith)
            (millisecond-Spans (p + 1) (known-inside (p + 1) b's' e refl)))
    | inr e ↦ elim (Bool-cases ((rune_at (p + 1) == 0) || not (is_digit (rune_at (p + 1))))) [
      | inl f ↦
          rw (scan_millisecond_or_minute, read-at s p fits, e, f)
            (span-Spans s from fits duration_token p (p + 1) (omega arith) (omega (arith, i)))
      | inr f ↦
          rw (scan_millisecond_or_minute, read-at s p fits, e, f)
            (minute-Spans p (p + 1) (omega arith) (omega (arith, i)))
    ]
  ]

  m-after :
      (p q : ℕ)
      → p ≤ q
      → (rune_at q == b'm') ≡ true
      → Spans s from p (scan_millisecond_or_minute from (at s q))
  m-after p q h e =
      later-Spans s from fits p q (scan_millisecond_or_minute from (at s q)) h
        (m-Spans q (known-inside q b'm' e refl))

  hour-Spans : (p : ℕ) → p < length s.data_ → Spans s from p (scan_hour from (at s p))
  unfolding scan_hour
  hour-Spans p i =
      let d = skip-Stops (p + 1) (omega (arith, i)) in
      let far : p ≤ d.stop = omega (arith, d.after) in
      elim (Bool-cases (is_digit (rune_at (p + 1)))) [
        | inr f ↦
            rw (scan_hour, read-at s p fits, f)
              (span-Spans s from fits duration_token p (p + 1) (omega arith) (omega (arith, i)))
        | inl f ↦ elim (Bool-cases (rune_at d.stop == b'n')) [
          | inl g ↦ rw (scan_hour, read-at s p fits, f, d.reads, g) (nano-after p d.stop far g)
          | inr g ↦ elim (Bool-cases (rune_at d.stop == 181)) [
            | inl k ↦
                rw (scan_hour, read-at s p fits, f, d.reads, g, k) (micro-after p d.stop far k)
            | inr k ↦ elim (Bool-cases (rune_at d.stop == b'm')) [
              | inl l ↦
                  rw (scan_hour, read-at s p fits, f, d.reads, g, k, l) (m-after p d.stop far l)
              | inr l ↦ elim (Bool-cases (rune_at d.stop == b's')) [
                | inl o ↦
                    rw (scan_hour, read-at s p fits, f, d.reads, g, k, l, o)
                      (second-after p d.stop far o)
                | inr o ↦
                    rw (scan_hour, read-at s p fits, f, d.reads, g, k, l, o)
                      (illegal-Spans s from fits p d.stop far)
              ]
            ]
          ]
        ]
      ]

  duration-Spans : (p q : ℕ) → p ≤ q → Spans s from p (scan_duration from (at s q))
  unfolding scan_duration
  duration-Spans p q h = elim (Bool-cases (rune_at q == b'n')) [
    | inl g ↦ rw (scan_duration, g) (nano-after p q h g)
    | inr g ↦ elim (Bool-cases (rune_at q == 181)) [
      | inl k ↦ rw (scan_duration, g, k) (micro-after p q h k)
      | inr k ↦ elim (Bool-cases (rune_at q == b'm')) [
        | inl l ↦ rw (scan_duration, g, k, l) (m-after p q h l)
        | inr l ↦ elim (Bool-cases (rune_at q == b's')) [
          | inl o ↦ rw (scan_duration, g, k, l, o) (second-after p q h o)
          | inr o ↦ elim (Bool-cases (rune_at q == b'h')) [
            | inl a ↦
                rw (scan_duration, g, k, l, o, a)
                  (later-Spans s from fits p q (scan_hour from (at s q)) h
                    (hour-Spans q (known-inside q b'h' a refl)))
            | inr a ↦ rw (scan_duration, g, k, l, o, a) (illegal-Spans s from fits p q h)
          ]
        ]
      ]
    ]
  ]

-- The digits at a place, and a duration if a unit stands behind them.
pub int_or_duration-Spans :
    (s : Scanner) (p : ℕ)
    → Fits s
    → is_digit (get_or s.data_ p 0) ≡ true
    → Spans s p p (scan_int_or_duration (at s p))
unfolding scan_int_or_duration
int_or_duration-Spans s p fits e =
    let i = digit-inside s p fits p e in
    let d = skip-Stops s p fits p (omega (arith, i)) in
    let moved : p < d.stop = Stops-moves is_digit s p (skip_digits (at s p)) d e in
    elim (Bool-cases (
      (rune_at s p fits d.stop == b'n')
      || (rune_at s p fits d.stop == 181)
      || (rune_at s p fits d.stop == b'm')
      || (rune_at s p fits d.stop == b's')
      || (rune_at s p fits d.stop == b'h'))) [
        | inl f ↦ rw (scan_int_or_duration, d.reads, f) (duration-Spans s p fits p d.stop d.after)
        | inr f ↦
            rw (scan_int_or_duration, d.reads, f)
              (span-Spans s p fits int_token p d.stop moved d.inside)
      ]
