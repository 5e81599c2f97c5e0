-- ===== src/Goctl/Tests.antt =====
-- The scanner of tools/goctl at concrete inputs.
use go_zero_update.Common.{
  ℕ, suc, ◌≡◌, refl, List, [], ◌∷◌, map, Option, none, some, length, if◌then◌else◌, ◌==◌, ◌>>=◌,
  returns, panics,
}
use go_zero_update.Common.Int.{negsuc}
use go_zero_update.Common.Texts.{bytes_eq}
use go_zero_update.Goctl.Token.{
  Runes, func_token, api_keyword_end_token, type_index, lookup_keyword, is_keyword, type_string,
}
use go_zero_update.Goctl.Token.Keywords
use go_zero_update.Goctl.Token.Keywords.{plain}
use go_zero_update.Goctl.Scanner.{
  Scanner, Scanned, token, failed, new_scanner, read_rune, is_white_space, read_while, skip_digits,
}
use go_zero_update.Goctl.Scanner.Units.{scan_int_or_duration, scan_duration, scan_second}
use go_zero_update.Goctl.Scanner.Literals.{scan_ident}
use go_zero_update.Goctl.Scanner.Switch.{next_token}
use go_zero_update.Goctl.Scanner.Reads.{at}
use go_zero_update.Goctl.Scanner.Tokens
use go_zero_update.Goctl.Scanner.Tokens.{Found}
use go_zero_update.Goctl.Scanner.Runs
use go_zero_update.Goctl.Scanner.Runs.{tokens}

-- `a 1s`
abbrev input : List ℕ
input = b'a' ∷ b' ' ∷ b'1' ∷ b's' ∷ []

abbrev start : Scanner
start = record {
  filename = [];
  size = 4;
  data_ = input;
  position = 0;
  read_position = 1;
  ch = b'a';
  lines = negsuc 0 ∷ [];
}

next_token-Found_example : Found start 1 (next_token (at start 1))
next_token-Found_example = Tokens.next_token-Found start 1 refl

tokens-new_scanner_example : (ts : List Scanned) × (tokens (suc (length input)) start ≡ some ts)
unfolding new_scanner read_rune
tokens-new_scanner_example = Runs.tokens-new_scanner [] input start refl

lookup_keyword-type_string_example :
    (type_string func_token >>= λ s. returns (lookup_keyword s)) ≡ (
      if type_index func_token == type_index api_keyword_end_token
      then panics
      else returns (if is_keyword (plain func_token) then some func_token else none))
lookup_keyword-type_string_example = Keywords.lookup_keyword-type_string func_token

abbrev text_read : Scanned → Runes
text_read (token t) = t.text
text_read (failed e) = e.actual

abbrev texts_of : Option (List Scanned) → List Runes
texts_of none = []
texts_of (some ts) = map text_read ts

texts_read : texts_of (tokens 5 start) ≡ (b'a' ∷ []) ∷ (b'1' ∷ b's' ∷ []) ∷ [] ∷ []
unfolding tokens next_token is_white_space scan_ident bytes_eq read_while read_rune
    scan_int_or_duration skip_digits scan_duration scan_second
texts_read = refl
