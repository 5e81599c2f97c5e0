-- ===== src/Goctl/Scanner/Switch.antt =====
-- tools/goctl/pkg/parser/api/scanner/scanner.go: `NextToken`.
use go_zero_update.Common.{ℕ, List, [], ◌∷◌, Option, none, some, ◌==◌, if◌then◌else◌}
use go_zero_update.Goctl.Token.{
  TokenType, Token, eof, string_token, raw_string_token, sub_token, mul_token, quo_token,
  assign_token, lparen_token, lbrack_token, lbrace_token, comma_token, rparen_token, rbrace_token,
  rbrack_token, semicolon_token, colon_token,
}
use go_zero_update.Goctl.Scanner.{
  Scanned, Scanner, illegal, is_digit, is_identifier_letter, new_token, peek_rune, rounds,
  skip_white_space, token,
}
use go_zero_update.Goctl.Scanner.Units.{scan_int_or_duration}
use go_zero_update.Goctl.Scanner.Literals.{
  scan_at, scan_document, scan_dot, scan_ident, scan_line_comment, scan_string,
}

-- The tokens of one rune.
abbrev pub single : List (ℕ × TokenType)
single =
    (b'-', sub_token)
    ∷ (b'*', mul_token)
    ∷ (b'(', lparen_token)
    ∷ (b'[', lbrack_token)
    ∷ (b'{', lbrace_token)
    ∷ (b',', comma_token)
    ∷ (b')', rparen_token)
    ∷ (b']', rbrack_token)
    ∷ (b'}', rbrace_token)
    ∷ (b';', semicolon_token)
    ∷ (b':', colon_token)
    ∷ (b'=', assign_token)
    ∷ []

unfoldable pub single_type : List (ℕ × TokenType) → ℕ → Option TokenType
single_type [] ch = none
single_type ((c, tp) ∷ rest) ch =
    let more = single_type rest ch in if ch == c then some tp else more

abbrev pub always : Token × Scanner → Option (Scanned × Scanner)
always (t, s) = some (token t, s)

-- The cases of `NextToken` behind those of one rune.
unfoldable pub next_other : Scanner → Option (Scanned × Scanner)
next_other s =
    if s.ch == b'/'
    then (if peek_rune s == b'/'
        then always (scan_line_comment s)
        else if peek_rune s == b'*'
        then scan_document s
        else always (new_token quo_token s))
    else if s.ch == b'.'
    then some (scan_dot s)
    else if s.ch == b'@'
    then some (scan_at s)
    else if s.ch == b'"'
    then scan_string b'"' string_token s
    else if s.ch == b'`'
    then scan_string b'`' raw_string_token s
    else if s.ch == 0
    then some (token eof, s)
    else if is_identifier_letter s.ch
    then always (scan_ident s)
    else if is_digit s.ch
    then always (scan_int_or_duration s)
    else always (illegal s)

-- The switch of `NextToken`. The cases are apart, so that their order is free.
unfoldable pub next_visible : Scanner → Option (Scanned × Scanner)
unfolding single_type next_other
next_visible s = elim (single_type single s.ch) [
  | some tp ↦ always (new_token tp s)
  | none ↦ next_other s
]

-- `NextToken`.
unfoldable pub next_token : Scanner → Option (Scanned × Scanner)
unfolding skip_white_space next_visible
next_token s = next_visible (skip_white_space (rounds s) s)
