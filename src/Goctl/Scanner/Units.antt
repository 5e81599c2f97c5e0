-- ===== src/Goctl/Scanner/Units.antt =====
-- tools/goctl/pkg/parser/api/scanner/scanner.go: `scanDuration` and the methods for its units.
use go_zero_update.Common.{ℕ, ◌||◌, not, ◌==◌, if◌then◌else◌}
use go_zero_update.Goctl.Token.{Token, int_token, duration_token}
use go_zero_update.Goctl.Scanner.{Scanner, illegal, is_digit, read_rune, skip_digits, span}

-- The durations; each begins at `from`.
unfoldable pub scan_nanosecond : ℕ → Scanner → Token × Scanner
scan_nanosecond from s0 =
    let s = read_rune s0 in
    if not (s.ch == b's')
    then illegal s
    else let s' = read_rune s in (span duration_token s' from, s')

unfoldable pub scan_microsecond : ℕ → Scanner → Token × Scanner
scan_microsecond from s0 =
    let s = read_rune s0 in
    let s' = read_rune s in
    let d = skip_digits s' in
    if not (s.ch == b's')
    then illegal s
    else if not (is_digit s'.ch)
    then (span duration_token s' from, s')
    else if not (d.ch == b'n')
    then illegal d
    else scan_nanosecond from d

-- What stands behind the digits that follow a unit: `n` and `µ` for all, and what the unit allows.
unfoldable pub scan_millisecond : ℕ → Scanner → Token × Scanner
scan_millisecond from s0 =
    let s = read_rune s0 in
    let d = skip_digits s in
    if not (is_digit s.ch)
    then (span duration_token s from, s)
    else if d.ch == b'n'
    then scan_nanosecond from d
    else if d.ch == 181
    then scan_microsecond from d
    else illegal d

unfoldable pub scan_second : ℕ → Scanner → Token × Scanner
scan_second from s0 =
    let s = read_rune s0 in
    let d = skip_digits s in
    if not (is_digit s.ch)
    then (span duration_token s from, s)
    else if d.ch == b'n'
    then scan_nanosecond from d
    else if d.ch == 181
    then scan_microsecond from d
    else if d.ch == b'm'
    then (let d' = read_rune d in
        if not (d'.ch == b's') then illegal d' else scan_millisecond from d')
    else illegal d

unfoldable pub scan_minute : ℕ → Scanner → Token × Scanner
scan_minute from s =
    let d = skip_digits s in
    if not (is_digit s.ch)
    then (span duration_token s from, s)
    else if d.ch == b'n'
    then scan_nanosecond from d
    else if d.ch == 181
    then scan_microsecond from d
    else if d.ch == b'm'
    then (let d' = read_rune d in
        if not (d'.ch == b's') then illegal d' else scan_millisecond from d')
    else if d.ch == b's'
    then scan_second from d
    else illegal d

unfoldable pub scan_millisecond_or_minute : ℕ → Scanner → Token × Scanner
scan_millisecond_or_minute from s0 =
    let s = read_rune s0 in
    if not (s.ch == b's')
    then (if s.ch == 0 || not (is_digit s.ch)
        then (span duration_token s from, s)
        else scan_minute from s)
    else scan_millisecond from s

unfoldable pub scan_hour : ℕ → Scanner → Token × Scanner
scan_hour from s0 =
    let s = read_rune s0 in
    let d = skip_digits s in
    if not (is_digit s.ch)
    then (span duration_token s from, s)
    else if d.ch == b'n'
    then scan_nanosecond from d
    else if d.ch == 181
    then scan_microsecond from d
    else if d.ch == b'm'
    then scan_millisecond_or_minute from d
    else if d.ch == b's'
    then scan_second from d
    else illegal d

unfoldable pub scan_duration : ℕ → Scanner → Token × Scanner
scan_duration from s =
    if s.ch == b'n'
    then scan_nanosecond from s
    else if s.ch == 181
    then scan_microsecond from s
    else if s.ch == b'm'
    then scan_millisecond_or_minute from s
    else if s.ch == b's'
    then scan_second from s
    else if s.ch == b'h'
    then scan_hour from s
    else illegal s

unfoldable pub scan_int_or_duration : Scanner → Token × Scanner
scan_int_or_duration s =
    let d = skip_digits s in
    if d.ch == b'n' || d.ch == 181 || d.ch == b'm' || d.ch == b's' || d.ch == b'h'
    then scan_duration s.position d
    else (span int_token d s.position, d)
