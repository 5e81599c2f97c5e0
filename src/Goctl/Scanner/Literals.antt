-- ===== src/Goctl/Scanner/Literals.antt =====
-- tools/goctl/pkg/parser/api/scanner/scanner.go: names, comments, strings, documents, the
-- words behind an `@`, and dots.
use go_zero_update.Common.{
  ℕ, zero, suc, ◌&&◌, ◌||◌, not, List, [], ◌∷◌, Option, none, some, ◌==◌, if◌then◌else◌,
}
use go_zero_update.Common.Texts.{bytes_eq}
use go_zero_update.Goctl.Token.{
  Runes, TokenType, Token, tokens, new_illegal_token, eof_token, comment_token, document_token,
  ident_token, mul_token, quo_token, dot_token, ellipsis_token, at_doc_token, at_handler_token,
  at_server_token, any_token,
}
use go_zero_update.Goctl.Scanner.{
  Mode, Scanned, Scanner, document_half_close, document_half_open, document_open, failed, init_mode,
  is_digit, is_identifier_letter, is_letter, new_position, new_token, peek_rune, position_at,
  read_rune, read_while, rounds, span, string_close, string_open, text_of, token,
}

abbrev pub interface_text : Runes
interface_text = b'i' ∷ b'n' ∷ b't' ∷ b'e' ∷ b'r' ∷ b'f' ∷ b'a' ∷ b'c' ∷ b'e' ∷ []

unfoldable pub scan_ident : Scanner → Token × Scanner
scan_ident s =
    let d = read_while (λ b. is_identifier_letter b || is_digit b) (rounds s) s in
    if bytes_eq (text_of d s.position) interface_text && (d.ch == b'{' && peek_rune d == b'}')
    then (let d' = read_rune (read_rune d) in (span any_token d' s.position, d'))
    else (span ident_token d s.position, d)

unfoldable pub scan_line_comment : Scanner → Token × Scanner
scan_line_comment s =
    let d = read_while (λ b. not (b == b'\n') && not (b == 0)) (rounds s) s in
    (span comment_token d s.position, d)

unfoldable pub scan_letter_set : Scanner → Scanner
scan_letter_set s = read_while is_letter (rounds s) s

abbrev expected_string : Scanner → Runes → List Runes → Scanned
expected_string s actual expected =
    failed (record { at = position_at s; expected = expected; actual = actual })

-- The mode after a rune of a string or of a document that does not end it.
unfoldable pub string_mode : ℕ → ℕ → Mode → Mode
string_mode delim ch init_mode = if ch == delim then string_open else init_mode
string_mode delim ch mode = mode

unfoldable pub document_mode : ℕ → Mode → Mode
document_mode ch init_mode = if ch == b'/' then document_half_open else init_mode
document_mode ch document_half_open = if ch == b'*' then document_open else document_half_open
document_mode ch document_open = if ch == b'*' then document_half_close else document_open
document_mode ch mode = mode

-- The loop of `scanString`, which has no result if the rounds do not suffice.
unfoldable pub scan_string_from :
    ℕ → TokenType → ℕ → ℕ → Mode → Scanner → Option (Scanned × Scanner)
unfolding string_mode
scan_string_from delim tp from zero mode s = none
scan_string_from delim tp from (suc n) mode s =
    let again = scan_string_from delim tp from n (string_mode delim s.ch mode) (read_rune s) in
    let closed = read_rune s in
    if s.ch == delim
    then elim mode [ string_open ↦ some (token (span tp closed from), closed) | _ ↦ again ]
    else if s.ch == 0
    then elim mode [
      | init_mode ↦ some (expected_string s (tokens eof_token) (tokens tp ∷ []), s)
      | string_open ↦ some (expected_string s (tokens eof_token) ((delim ∷ []) ∷ []), s)
      | string_close ↦ some (token (span tp s from), s)
      | _ ↦ again
    ]
    else again

unfoldable pub scan_string : ℕ → TokenType → Scanner → Option (Scanned × Scanner)
unfolding scan_string_from
scan_string delim tp s = scan_string_from delim tp s.position (rounds s) init_mode s

-- The loop of `scanDocument`.
unfoldable pub scan_document_from : ℕ → ℕ → Mode → Scanner → Option (Scanned × Scanner)
unfolding document_mode
scan_document_from from zero mode s = none
scan_document_from from (suc n) mode s =
    let again = scan_document_from from n (document_mode s.ch mode) (read_rune s) in
    let closed = read_rune s in
    let missing = expected_string s (tokens eof_token) in
    if s.ch == 0
    then elim mode [
      | init_mode ↦ some (missing (tokens mul_token ∷ []), s)
      | document_half_open ↦ some (missing (tokens mul_token ∷ []), s)
      | document_open ↦ some (missing (tokens mul_token ∷ []), s)
      | document_half_close ↦ some (missing (tokens quo_token ∷ []), s)
      | _ ↦ again
    ]
    else if s.ch == b'/'
    then elim mode [
      | document_half_open ↦ some (expected_string s (tokens quo_token) (tokens mul_token ∷ []), s)
      | document_half_close ↦ some (token (span document_token closed from), closed)
      | _ ↦ again
    ]
    else again

unfoldable pub scan_document : Scanner → Option (Scanned × Scanner)
unfolding scan_document_from
scan_document s = scan_document_from s.position (rounds s) init_mode s

abbrev pub handler_text : Runes
handler_text = b'h' ∷ b'a' ∷ b'n' ∷ b'd' ∷ b'l' ∷ b'e' ∷ b'r' ∷ []

abbrev pub server_text : Runes
server_text = b's' ∷ b'e' ∷ b'r' ∷ b'v' ∷ b'e' ∷ b'r' ∷ []

abbrev pub doc_text : Runes
doc_text = b'd' ∷ b'o' ∷ b'c' ∷ []

-- A token with a text of its own.
abbrev named : TokenType → Runes → Scanner → ℕ → Scanned
named tp text s from = token (record { type = tp; text = text; position = new_position s from })

unfoldable pub scan_at : Scanner → Scanned × Scanner
scan_at s =
    let peek = peek_rune s in
    let s' = read_rune s in
    let d = scan_letter_set s' in
    let letters = text_of d s'.position in
    if not (is_letter peek)
    then (if peek == 0
        then (token (new_illegal_token s.ch (position_at s)), s)
        else (expected_string s (peek ∷ []) (tokens ident_token ∷ []), s))
    else if bytes_eq letters handler_text
    then (named at_handler_token (b'@' ∷ handler_text) d s.position, d)
    else if bytes_eq letters server_text
    then (named at_server_token (b'@' ∷ server_text) d s.position, d)
    else if bytes_eq letters doc_text
    then (named at_doc_token (b'@' ∷ doc_text) d s.position, d)
    else (
      expected_string d (b'@' ∷ letters)
          (tokens at_doc_token ∷ tokens at_handler_token ∷ tokens at_server_token ∷ []),
      d,
    )

-- The case of a dot.
unfoldable pub scan_dot : Scanner → Scanned × Scanner
scan_dot s =
    let s1 = read_rune s in
    let s3 = read_rune (read_rune s1) in
    if not (peek_rune s == b'.')
    then (token (new_token dot_token s).0, (new_token dot_token s).1)
    else if not (peek_rune s1 == b'.')
    then (token (new_token dot_token s1).0, (new_token dot_token s1).1)
    else (named ellipsis_token (b'.' ∷ b'.' ∷ b'.' ∷ []) s3 s.position, s3)
