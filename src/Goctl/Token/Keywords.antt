-- ===== src/Goctl/Token/Keywords.antt =====
-- The keywords of tools/goctl/pkg/parser/api/token/token.go.
use go_zero_update.Common.{◌≡◌, refl, none, some, ◌==◌, if◌then◌else◌, ◌>>=◌, returns, panics}
use go_zero_update.Common.Texts.{bytes_eq}
use go_zero_update.Common.Maps.{lookup}
use go_zero_update.Goctl.Token.{
  TokenType, Token, type_index, tokens, type_string, lookup_keyword, is_keyword, no_position,
  token_bg, error_token, illegal_token, eof_token, comment_token, document_token, literal_beg_token,
  ident_token, int_token, duration_token, string_token, raw_string_token, path_token,
  literal_end_token, operator_beg_token, sub_token, mul_token, quo_token, assign_token,
  lparen_token, lbrack_token, lbrace_token, comma_token, dot_token, rparen_token, rbrace_token,
  rbrack_token, semicolon_token, colon_token, ellipsis_token, operator_end_token,
  golang_keyword_beg_token, break_token, case_token, chan_token, const_token, continue_token,
  default_token, defer_token, else_token, fallthrough_token, for_token, func_token, go_token,
  goto_token, if_token, import_token, interface_token, map_token, package_token, range_token,
  return_token, select_token, struct_token, switch_token, type_token, var_token,
  golang_keyword_end_token, api_keyword_bg_token, at_doc_token, at_handler_token, at_server_token,
  any_token, api_keyword_end_token, token_end,
}

-- A token with the text of its type.
abbrev pub plain : TokenType → Token
plain t = record { type = t; text = tokens t; position = no_position }

-- `String` of a type panics for `api_keyword_end`, which is below `token_end` but behind the end of
-- `tokens`. `LookupKeyword` of what it returns for any other type is that type, if `IsKeyword` says that
-- it is a keyword, and nothing if not.
pub lookup_keyword-type_string :
    (t : TokenType)
    → (type_string t >>= λ s. returns (lookup_keyword s)) ≡ (
        if type_index t == type_index api_keyword_end_token
        then panics
        else returns (if is_keyword (plain t) then some t else none))
unfolding type_string lookup_keyword is_keyword lookup bytes_eq
lookup_keyword-type_string token_bg = refl
lookup_keyword-type_string error_token = refl
lookup_keyword-type_string illegal_token = refl
lookup_keyword-type_string eof_token = refl
lookup_keyword-type_string comment_token = refl
lookup_keyword-type_string document_token = refl
lookup_keyword-type_string literal_beg_token = refl
lookup_keyword-type_string ident_token = refl
lookup_keyword-type_string int_token = refl
lookup_keyword-type_string duration_token = refl
lookup_keyword-type_string string_token = refl
lookup_keyword-type_string raw_string_token = refl
lookup_keyword-type_string path_token = refl
lookup_keyword-type_string literal_end_token = refl
lookup_keyword-type_string operator_beg_token = refl
lookup_keyword-type_string sub_token = refl
lookup_keyword-type_string mul_token = refl
lookup_keyword-type_string quo_token = refl
lookup_keyword-type_string assign_token = refl
lookup_keyword-type_string lparen_token = refl
lookup_keyword-type_string lbrack_token = refl
lookup_keyword-type_string lbrace_token = refl
lookup_keyword-type_string comma_token = refl
lookup_keyword-type_string dot_token = refl
lookup_keyword-type_string rparen_token = refl
lookup_keyword-type_string rbrace_token = refl
lookup_keyword-type_string rbrack_token = refl
lookup_keyword-type_string semicolon_token = refl
lookup_keyword-type_string colon_token = refl
lookup_keyword-type_string ellipsis_token = refl
lookup_keyword-type_string operator_end_token = refl
lookup_keyword-type_string golang_keyword_beg_token = refl
lookup_keyword-type_string break_token = refl
lookup_keyword-type_string case_token = refl
lookup_keyword-type_string chan_token = refl
lookup_keyword-type_string const_token = refl
lookup_keyword-type_string continue_token = refl
lookup_keyword-type_string default_token = refl
lookup_keyword-type_string defer_token = refl
lookup_keyword-type_string else_token = refl
lookup_keyword-type_string fallthrough_token = refl
lookup_keyword-type_string for_token = refl
lookup_keyword-type_string func_token = refl
lookup_keyword-type_string go_token = refl
lookup_keyword-type_string goto_token = refl
lookup_keyword-type_string if_token = refl
lookup_keyword-type_string import_token = refl
lookup_keyword-type_string interface_token = refl
lookup_keyword-type_string map_token = refl
lookup_keyword-type_string package_token = refl
lookup_keyword-type_string range_token = refl
lookup_keyword-type_string return_token = refl
lookup_keyword-type_string select_token = refl
lookup_keyword-type_string struct_token = refl
lookup_keyword-type_string switch_token = refl
lookup_keyword-type_string type_token = refl
lookup_keyword-type_string var_token = refl
lookup_keyword-type_string golang_keyword_end_token = refl
lookup_keyword-type_string api_keyword_bg_token = refl
lookup_keyword-type_string at_doc_token = refl
lookup_keyword-type_string at_handler_token = refl
lookup_keyword-type_string at_server_token = refl
lookup_keyword-type_string any_token = refl
lookup_keyword-type_string api_keyword_end_token = refl
lookup_keyword-type_string token_end = refl
