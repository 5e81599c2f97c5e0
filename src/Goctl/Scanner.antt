-- ===== src/Goctl/Scanner.antt =====
-- tools/goctl/pkg/parser/api/scanner/scanner.go: the scanner of api files.
--
-- The input is the list of its runes. A loop runs on rounds, one more than the runes that are left.
-- The text of an error is its parts: the position, what was expected, and what was found instead.

pub mod Units
pub mod Literals
pub mod Switch
pub mod Reads
pub mod Durations
pub mod Words
pub mod Tokens
pub mod Runs
use go_zero_update.Common.{
  ℕ, zero, suc, ◌+◌, ◌-◌, Bool, true, false, ◌&&◌, ◌||◌, not, List, [], ◌∷◌, ◌++◌, Option, none,
  some, ltb, leb, ◌==◌, if◌then◌else◌, length, get_or, take, drop,
}
use go_zero_update.Common.Int.{ℤ, pos, negsuc}
use go_zero_update.Common.Texts.{bytes_eq}
use go_zero_update.Goctl.Token.{
  Runes, Position, TokenType, Token, tokens, eof, new_illegal_token, error_token, illegal_token,
  eof_token, comment_token, document_token, ident_token, int_token, duration_token, string_token,
  raw_string_token, sub_token, mul_token, quo_token, assign_token, lparen_token, lbrack_token,
  lbrace_token, comma_token, dot_token, rparen_token, rbrace_token, rbrack_token, semicolon_token,
  colon_token, ellipsis_token, at_doc_token, at_handler_token, at_server_token, any_token,
}

-- `mode`.
pub data Mode : Type 0 where
  init_mode : Mode
  document_half_open : Mode
  document_open : Mode
  document_half_close : Mode
  document_close : Mode
  string_open : Mode
  string_close : Mode

-- `Scanner`.
pub record Scanner : Type 0 where
  pub filename : Runes
  pub size : ℕ
  pub data_ : List ℕ
  pub position : ℕ
  pub read_position : ℕ
  pub ch : ℕ
  pub lines : List ℤ

-- The text of `assertExpected` and of `assertExpectedString`, before it is printed.
pub record ScanError : Type 0 where
  pub at : Position
  pub expected : List Runes
  pub actual : Runes

pub data Scanned : Type 0 where
  token : Token → Scanned
  failed : ScanError → Scanned

-- A slice of the input. The scanner asks for none beyond its end.
abbrev pub text_of : Scanner → ℕ → Runes
text_of s from = take (s.position - from) (drop from s.data_)

-- `readRune` and `peekRune`.
unfoldable pub read_rune : Scanner → Scanner
read_rune s = record s {
  ch = if leb s.size s.read_position then 0 else get_or s.data_ s.read_position 0;
  position = s.read_position;
  read_position = s.read_position + 1;
}

unfoldable pub peek_rune : Scanner → ℕ
peek_rune s = if leb s.size s.read_position then 0 else get_or s.data_ s.read_position 0

-- `position - s.lines[line-1]`.
abbrev pub column_from : ℕ → ℤ → ℤ
column_from p (pos l) = if leb l p then pos (p - l) else negsuc (l - p - 1)
column_from p (negsuc l) = pos (p + (l + 1))

unfoldable pub new_position : Scanner → ℕ → Position
new_position s p =
    let line = length s.lines in
    record {
      filename = s.filename;
      line = line;
      column = column_from p (get_or s.lines (line - 1) (pos 0));
    }

unfoldable pub position_at : Scanner → Position
unfolding new_position
position_at s = new_position s s.position

abbrev pub is_digit : ℕ → Bool
is_digit b = leb b'0' b && leb b b'9'

abbrev pub is_letter : ℕ → Bool
is_letter b = (leb b'a' b && leb b b'z') || (leb b'A' b && leb b b'Z')

abbrev pub is_identifier_letter : ℕ → Bool
is_identifier_letter b = if is_letter b then true else b == b'_'

abbrev pub is_space : ℕ → Bool
is_space b = b == b' ' || b == b'\t' || b == b'\r' || b == b'\x0C' || b == b'\x0B' || b == b'\n'

-- `isWhiteSpace`, which notes where a line ends.
unfoldable pub is_white_space : Scanner → ℕ → Scanner × Bool
is_white_space s b =
    (if b == b'\n' then record s { lines = s.lines ++ pos s.position ∷ [] } else s, is_space b)

unfoldable pub skip_white_space : ℕ → Scanner → Scanner
skip_white_space zero s = s
skip_white_space (suc n) s =
    let (s', space) = is_white_space s s.ch in
    let rest = skip_white_space n (read_rune s') in if space then rest else s'

-- The loops that read while the rune passes a test.
unfoldable pub read_while : (ℕ → Bool) → ℕ → Scanner → Scanner
read_while test zero s = s
read_while test (suc n) s =
    let rest = read_while test n (read_rune s) in if test s.ch then rest else s

abbrev pub rounds : Scanner → ℕ
rounds s = suc (s.size - s.position)

unfoldable pub skip_digits : Scanner → Scanner
unfolding read_while
skip_digits s = read_while is_digit (rounds s) s

-- A token of the input from a position on.
abbrev pub span : TokenType → Scanner → ℕ → Token
span tp s from = record { type = tp; text = text_of s from; position = new_position s from }

unfoldable pub new_token : TokenType → Scanner → Token × Scanner
new_token tp s = (record { type = tp; text = s.ch ∷ []; position = position_at s }, read_rune s)

unfoldable pub illegal : Scanner → Token × Scanner
illegal s = (new_illegal_token s.ch (new_position s s.position), read_rune s)

-- `NewScanner` of an input that has been read and decoded; none for the error of an empty input.
unfoldable pub new_scanner : Runes → List ℕ → Option Scanner
new_scanner filename input =
    if length input == 0
    then none
    else some (
        read_rune (record {
          filename = filename;
          size = length input;
          data_ = input;
          position = 0;
          read_position = 0;
          ch = 0;
          lines = negsuc 0 ∷ [];
        }))
