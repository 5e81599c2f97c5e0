-- ===== src/Goctl/Token.antt =====
-- tools/goctl/pkg/parser/api/token/token.go: the tokens of an api file.
--
-- A string is the list of its runes.
pub mod Keywords
use go_zero_update.Common.{
  ℕ, ◌+◌, ◌<◌, ◌≡◌, refl, Bool, true, false, ◌&&◌, ◌||◌, not, List, [], ◌∷◌, Option, none, some,
  ltb, leb, ◌==◌, if◌then◌else◌, Outcome, returns, panics,
}
use go_zero_update.Common.Int.{ℤ, pos}
use go_zero_update.Common.Maps.{is_some, lookup}
use go_zero_update.Common.Texts.{bytes_eq, bytes}

abbrev pub Runes : Type 0
Runes = List ℕ

-- `Position` of position.go.
pub record Position : Type 0 where
  pub filename : Runes
  pub line : ℕ
  pub column : ℤ

-- `Type`, its constants in their order, the ones that bound a group included.
pub data TokenType : Type 0 where
  token_bg : TokenType
  error_token : TokenType
  illegal_token : TokenType
  eof_token : TokenType
  comment_token : TokenType
  document_token : TokenType
  literal_beg_token : TokenType
  ident_token : TokenType
  int_token : TokenType
  duration_token : TokenType
  string_token : TokenType
  raw_string_token : TokenType
  path_token : TokenType
  literal_end_token : TokenType
  operator_beg_token : TokenType
  sub_token : TokenType
  mul_token : TokenType
  quo_token : TokenType
  assign_token : TokenType
  lparen_token : TokenType
  lbrack_token : TokenType
  lbrace_token : TokenType
  comma_token : TokenType
  dot_token : TokenType
  rparen_token : TokenType
  rbrace_token : TokenType
  rbrack_token : TokenType
  semicolon_token : TokenType
  colon_token : TokenType
  ellipsis_token : TokenType
  operator_end_token : TokenType
  golang_keyword_beg_token : TokenType
  break_token : TokenType
  case_token : TokenType
  chan_token : TokenType
  const_token : TokenType
  continue_token : TokenType
  default_token : TokenType
  defer_token : TokenType
  else_token : TokenType
  fallthrough_token : TokenType
  for_token : TokenType
  func_token : TokenType
  go_token : TokenType
  goto_token : TokenType
  if_token : TokenType
  import_token : TokenType
  interface_token : TokenType
  map_token : TokenType
  package_token : TokenType
  range_token : TokenType
  return_token : TokenType
  select_token : TokenType
  struct_token : TokenType
  switch_token : TokenType
  type_token : TokenType
  var_token : TokenType
  golang_keyword_end_token : TokenType
  api_keyword_bg_token : TokenType
  at_doc_token : TokenType
  at_handler_token : TokenType
  at_server_token : TokenType
  any_token : TokenType
  api_keyword_end_token : TokenType
  token_end : TokenType

-- `Token`.
pub record Token : Type 0 where
  pub type : TokenType
  pub text : Runes
  pub position : Position

-- The number of a constant: `iota`.
abbrev pub type_index : TokenType → ℕ
type_index token_bg = 0
type_index error_token = 1
type_index illegal_token = 2
type_index eof_token = 3
type_index comment_token = 4
type_index document_token = 5
type_index literal_beg_token = 6
type_index ident_token = 7
type_index int_token = 8
type_index duration_token = 9
type_index string_token = 10
type_index raw_string_token = 11
type_index path_token = 12
type_index literal_end_token = 13
type_index operator_beg_token = 14
type_index sub_token = 15
type_index mul_token = 16
type_index quo_token = 17
type_index assign_token = 18
type_index lparen_token = 19
type_index lbrack_token = 20
type_index lbrace_token = 21
type_index comma_token = 22
type_index dot_token = 23
type_index rparen_token = 24
type_index rbrace_token = 25
type_index rbrack_token = 26
type_index semicolon_token = 27
type_index colon_token = 28
type_index ellipsis_token = 29
type_index operator_end_token = 30
type_index golang_keyword_beg_token = 31
type_index break_token = 32
type_index case_token = 33
type_index chan_token = 34
type_index const_token = 35
type_index continue_token = 36
type_index default_token = 37
type_index defer_token = 38
type_index else_token = 39
type_index fallthrough_token = 40
type_index for_token = 41
type_index func_token = 42
type_index go_token = 43
type_index goto_token = 44
type_index if_token = 45
type_index import_token = 46
type_index interface_token = 47
type_index map_token = 48
type_index package_token = 49
type_index range_token = 50
type_index return_token = 51
type_index select_token = 52
type_index struct_token = 53
type_index switch_token = 54
type_index type_token = 55
type_index var_token = 56
type_index golang_keyword_end_token = 57
type_index api_keyword_bg_token = 58
type_index at_doc_token = 59
type_index at_handler_token = 60
type_index at_server_token = 61
type_index any_token = 62
type_index api_keyword_end_token = 63
type_index token_end = 64

-- The array `tokens`, which ends at `any_token`. An index with no text has the empty one.
abbrev pub tokens : TokenType → Runes
tokens illegal_token = b'I' ∷ b'L' ∷ b'L' ∷ b'E' ∷ b'G' ∷ b'A' ∷ b'L' ∷ []
tokens eof_token = b'E' ∷ b'O' ∷ b'F' ∷ []
tokens comment_token = b'C' ∷ b'O' ∷ b'M' ∷ b'M' ∷ b'E' ∷ b'N' ∷ b'T' ∷ []
tokens document_token = b'D' ∷ b'O' ∷ b'C' ∷ b'U' ∷ b'M' ∷ b'E' ∷ b'N' ∷ b'T' ∷ []
tokens ident_token = b'I' ∷ b'D' ∷ b'E' ∷ b'N' ∷ b'T' ∷ []
tokens int_token = b'I' ∷ b'N' ∷ b'T' ∷ []
tokens duration_token = b'D' ∷ b'U' ∷ b'R' ∷ b'A' ∷ b'T' ∷ b'I' ∷ b'O' ∷ b'N' ∷ []
tokens string_token = b'S' ∷ b'T' ∷ b'R' ∷ b'I' ∷ b'N' ∷ b'G' ∷ []
tokens raw_string_token = b'R' ∷ b'A' ∷ b'W' ∷ b'_' ∷ b'S' ∷ b'T' ∷ b'R' ∷ b'I' ∷ b'N' ∷ b'G' ∷ []
tokens path_token = b'P' ∷ b'A' ∷ b'T' ∷ b'H' ∷ []
tokens sub_token = b'-' ∷ []
tokens mul_token = b'*' ∷ []
tokens quo_token = b'/' ∷ []
tokens assign_token = b'=' ∷ []
tokens lparen_token = b'(' ∷ []
tokens lbrack_token = b'[' ∷ []
tokens lbrace_token = b'{' ∷ []
tokens comma_token = b',' ∷ []
tokens dot_token = b'.' ∷ []
tokens rparen_token = b')' ∷ []
tokens rbrace_token = b'}' ∷ []
tokens rbrack_token = b']' ∷ []
tokens semicolon_token = b';' ∷ []
tokens colon_token = b':' ∷ []
tokens ellipsis_token = b'.' ∷ b'.' ∷ b'.' ∷ []
tokens break_token = b'b' ∷ b'r' ∷ b'e' ∷ b'a' ∷ b'k' ∷ []
tokens case_token = b'c' ∷ b'a' ∷ b's' ∷ b'e' ∷ []
tokens chan_token = b'c' ∷ b'h' ∷ b'a' ∷ b'n' ∷ []
tokens const_token = b'c' ∷ b'o' ∷ b'n' ∷ b's' ∷ b't' ∷ []
tokens continue_token = b'c' ∷ b'o' ∷ b'n' ∷ b't' ∷ b'i' ∷ b'n' ∷ b'u' ∷ b'e' ∷ []
tokens default_token = b'd' ∷ b'e' ∷ b'f' ∷ b'a' ∷ b'u' ∷ b'l' ∷ b't' ∷ []
tokens defer_token = b'd' ∷ b'e' ∷ b'f' ∷ b'e' ∷ b'r' ∷ []
tokens else_token = b'e' ∷ b'l' ∷ b's' ∷ b'e' ∷ []
tokens fallthrough_token =
    b'f' ∷ b'a' ∷ b'l' ∷ b'l' ∷ b't' ∷ b'h' ∷ b'r' ∷ b'o' ∷ b'u' ∷ b'g' ∷ b'h' ∷ []
tokens for_token = b'f' ∷ b'o' ∷ b'r' ∷ []
tokens func_token = b'f' ∷ b'u' ∷ b'n' ∷ b'c' ∷ []
tokens go_token = b'g' ∷ b'o' ∷ []
tokens goto_token = b'g' ∷ b'o' ∷ b't' ∷ b'o' ∷ []
tokens if_token = b'i' ∷ b'f' ∷ []
tokens import_token = b'i' ∷ b'm' ∷ b'p' ∷ b'o' ∷ b'r' ∷ b't' ∷ []
tokens interface_token = b'i' ∷ b'n' ∷ b't' ∷ b'e' ∷ b'r' ∷ b'f' ∷ b'a' ∷ b'c' ∷ b'e' ∷ []
tokens map_token = b'm' ∷ b'a' ∷ b'p' ∷ []
tokens package_token = b'p' ∷ b'a' ∷ b'c' ∷ b'k' ∷ b'a' ∷ b'g' ∷ b'e' ∷ []
tokens range_token = b'r' ∷ b'a' ∷ b'n' ∷ b'g' ∷ b'e' ∷ []
tokens return_token = b'r' ∷ b'e' ∷ b't' ∷ b'u' ∷ b'r' ∷ b'n' ∷ []
tokens select_token = b's' ∷ b'e' ∷ b'l' ∷ b'e' ∷ b'c' ∷ b't' ∷ []
tokens struct_token = b's' ∷ b't' ∷ b'r' ∷ b'u' ∷ b'c' ∷ b't' ∷ []
tokens switch_token = b's' ∷ b'w' ∷ b'i' ∷ b't' ∷ b'c' ∷ b'h' ∷ []
tokens type_token = b't' ∷ b'y' ∷ b'p' ∷ b'e' ∷ []
tokens var_token = b'v' ∷ b'a' ∷ b'r' ∷ []
tokens at_doc_token = b'@' ∷ b'd' ∷ b'o' ∷ b'c' ∷ []
tokens at_handler_token = b'@' ∷ b'h' ∷ b'a' ∷ b'n' ∷ b'd' ∷ b'l' ∷ b'e' ∷ b'r' ∷ []
tokens at_server_token = b'@' ∷ b's' ∷ b'e' ∷ b'r' ∷ b'v' ∷ b'e' ∷ b'r' ∷ []
tokens any_token = b'i' ∷ b'n' ∷ b't' ∷ b'e' ∷ b'r' ∷ b'f' ∷ b'a' ∷ b'c' ∷ b'e' ∷ b'{' ∷ b'}' ∷ []
tokens t = []

-- `Type.String`; the array has no element for `api_keyword_end_token`.
unfoldable pub type_string : TokenType → Outcome Runes
type_string t =
    if leb (type_index token_bg) (type_index t) && ltb (type_index t) (type_index token_end)
    then (if ltb (type_index t) (type_index any_token + 1) then returns (tokens t) else panics)
    else returns []

-- The table `keywords`.
abbrev pub keywords : List (Runes × TokenType)
keywords =
    (b'b' ∷ b'r' ∷ b'e' ∷ b'a' ∷ b'k' ∷ [], break_token)
    ∷ (b'c' ∷ b'a' ∷ b's' ∷ b'e' ∷ [], case_token)
    ∷ (b'c' ∷ b'h' ∷ b'a' ∷ b'n' ∷ [], chan_token)
    ∷ (b'c' ∷ b'o' ∷ b'n' ∷ b's' ∷ b't' ∷ [], const_token)
    ∷ (b'c' ∷ b'o' ∷ b'n' ∷ b't' ∷ b'i' ∷ b'n' ∷ b'u' ∷ b'e' ∷ [], continue_token)
    ∷ (b'd' ∷ b'e' ∷ b'f' ∷ b'a' ∷ b'u' ∷ b'l' ∷ b't' ∷ [], default_token)
    ∷ (b'd' ∷ b'e' ∷ b'f' ∷ b'e' ∷ b'r' ∷ [], defer_token)
    ∷ (b'e' ∷ b'l' ∷ b's' ∷ b'e' ∷ [], else_token)
    ∷ (
      b'f' ∷ b'a' ∷ b'l' ∷ b'l' ∷ b't' ∷ b'h' ∷ b'r' ∷ b'o' ∷ b'u' ∷ b'g' ∷ b'h' ∷ [],
      fallthrough_token,
    )
    ∷ (b'f' ∷ b'o' ∷ b'r' ∷ [], for_token)
    ∷ (b'f' ∷ b'u' ∷ b'n' ∷ b'c' ∷ [], func_token)
    ∷ (b'g' ∷ b'o' ∷ [], go_token)
    ∷ (b'g' ∷ b'o' ∷ b't' ∷ b'o' ∷ [], goto_token)
    ∷ (b'i' ∷ b'f' ∷ [], if_token)
    ∷ (b'i' ∷ b'm' ∷ b'p' ∷ b'o' ∷ b'r' ∷ b't' ∷ [], import_token)
    ∷ (b'i' ∷ b'n' ∷ b't' ∷ b'e' ∷ b'r' ∷ b'f' ∷ b'a' ∷ b'c' ∷ b'e' ∷ [], interface_token)
    ∷ (b'm' ∷ b'a' ∷ b'p' ∷ [], map_token)
    ∷ (b'p' ∷ b'a' ∷ b'c' ∷ b'k' ∷ b'a' ∷ b'g' ∷ b'e' ∷ [], package_token)
    ∷ (b'r' ∷ b'a' ∷ b'n' ∷ b'g' ∷ b'e' ∷ [], range_token)
    ∷ (b'r' ∷ b'e' ∷ b't' ∷ b'u' ∷ b'r' ∷ b'n' ∷ [], return_token)
    ∷ (b's' ∷ b'e' ∷ b'l' ∷ b'e' ∷ b'c' ∷ b't' ∷ [], select_token)
    ∷ (b's' ∷ b't' ∷ b'r' ∷ b'u' ∷ b'c' ∷ b't' ∷ [], struct_token)
    ∷ (b's' ∷ b'w' ∷ b'i' ∷ b't' ∷ b'c' ∷ b'h' ∷ [], switch_token)
    ∷ (b't' ∷ b'y' ∷ b'p' ∷ b'e' ∷ [], type_token)
    ∷ (b'v' ∷ b'a' ∷ b'r' ∷ [], var_token)
    ∷ []

-- The keys of `httpMethod` and of `baseDataType`.
abbrev pub http_methods : List Runes
http_methods =
    (b'g' ∷ b'e' ∷ b't' ∷ [])
    ∷ (b'h' ∷ b'e' ∷ b'a' ∷ b'd' ∷ [])
    ∷ (b'p' ∷ b'o' ∷ b's' ∷ b't' ∷ [])
    ∷ (b'p' ∷ b'u' ∷ b't' ∷ [])
    ∷ (b'p' ∷ b'a' ∷ b't' ∷ b'c' ∷ b'h' ∷ [])
    ∷ (b'd' ∷ b'e' ∷ b'l' ∷ b'e' ∷ b't' ∷ b'e' ∷ [])
    ∷ (b'c' ∷ b'o' ∷ b'n' ∷ b'n' ∷ b'e' ∷ b'c' ∷ b't' ∷ [])
    ∷ (b'o' ∷ b'p' ∷ b't' ∷ b'i' ∷ b'o' ∷ b'n' ∷ b's' ∷ [])
    ∷ (b't' ∷ b'r' ∷ b'a' ∷ b'c' ∷ b'e' ∷ [])
    ∷ []

abbrev pub base_types : List Runes
base_types =
    (b'b' ∷ b'o' ∷ b'o' ∷ b'l' ∷ [])
    ∷ (b'u' ∷ b'i' ∷ b'n' ∷ b't' ∷ b'8' ∷ [])
    ∷ (b'u' ∷ b'i' ∷ b'n' ∷ b't' ∷ b'1' ∷ b'6' ∷ [])
    ∷ (b'u' ∷ b'i' ∷ b'n' ∷ b't' ∷ b'3' ∷ b'2' ∷ [])
    ∷ (b'u' ∷ b'i' ∷ b'n' ∷ b't' ∷ b'6' ∷ b'4' ∷ [])
    ∷ (b'i' ∷ b'n' ∷ b't' ∷ b'8' ∷ [])
    ∷ (b'i' ∷ b'n' ∷ b't' ∷ b'1' ∷ b'6' ∷ [])
    ∷ (b'i' ∷ b'n' ∷ b't' ∷ b'3' ∷ b'2' ∷ [])
    ∷ (b'i' ∷ b'n' ∷ b't' ∷ b'6' ∷ b'4' ∷ [])
    ∷ (b'f' ∷ b'l' ∷ b'o' ∷ b'a' ∷ b't' ∷ b'3' ∷ b'2' ∷ [])
    ∷ (b'f' ∷ b'l' ∷ b'o' ∷ b'a' ∷ b't' ∷ b'6' ∷ b'4' ∷ [])
    ∷ (b'c' ∷ b'o' ∷ b'm' ∷ b'p' ∷ b'l' ∷ b'e' ∷ b'x' ∷ b'6' ∷ b'4' ∷ [])
    ∷ (b'c' ∷ b'o' ∷ b'm' ∷ b'p' ∷ b'l' ∷ b'e' ∷ b'x' ∷ b'1' ∷ b'2' ∷ b'8' ∷ [])
    ∷ (b's' ∷ b't' ∷ b'r' ∷ b'i' ∷ b'n' ∷ b'g' ∷ [])
    ∷ (b'i' ∷ b'n' ∷ b't' ∷ [])
    ∷ (b'u' ∷ b'i' ∷ b'n' ∷ b't' ∷ [])
    ∷ (b'u' ∷ b'i' ∷ b'n' ∷ b't' ∷ b'p' ∷ b't' ∷ b'r' ∷ [])
    ∷ (b'b' ∷ b'y' ∷ b't' ∷ b'e' ∷ [])
    ∷ (b'r' ∷ b'u' ∷ b'n' ∷ b'e' ∷ [])
    ∷ (b'a' ∷ b'n' ∷ b'y' ∷ [])
    ∷ []

unfoldable pub is_one_of : Runes → List Runes → Bool
is_one_of text [] = false
is_one_of text (v ∷ vs) = bytes_eq text v || is_one_of text vs

-- The methods of `Token`; `Is` takes its list.
unfoldable pub is_type : Token → TokenType → Bool
is_type t tp = type_index t.type == type_index tp

unfoldable pub is_keyword : Token → Bool
is_keyword t =
    ltb (type_index golang_keyword_beg_token) (type_index t.type)
    && ltb (type_index t.type) (type_index golang_keyword_end_token)

unfoldable pub is_base_type : Token → Bool
unfolding is_one_of
is_base_type t = is_one_of t.text base_types

unfoldable pub is_http_method : Token → Bool
unfolding is_one_of
is_http_method t = is_one_of t.text http_methods

unfoldable pub fork : Token → TokenType → Token
fork t tp = record { type = tp; text = t.text; position = t.position }

unfoldable pub valid : Token → Bool
valid t = not (type_index t.type == type_index token_bg)

-- `LookupKeyword`.
unfoldable pub lookup_keyword : Runes → Option TokenType
lookup_keyword text = lookup bytes text keywords

-- `EofToken` and `ErrorToken`, with the zero values of the other fields.
abbrev pub no_position : Position
no_position = record { filename = []; line = 0; column = pos 0 }

abbrev pub eof : Token
eof = record { type = eof_token; text = []; position = no_position }

-- `NewIllegalToken`.
unfoldable pub new_illegal_token : ℕ → Position → Token
new_illegal_token b p = record { type = illegal_token; text = b ∷ []; position = p }
