-- ===== src/Lexer/Separator.antt =====
-- libscpi/src/lexer.c: white space, line ends and the single characters between the parts of a
-- program message.
use scpi_parser.Base.{ℕ, Bool, if◌then◌else◌}
use scpi_parser.Lexer.{
  LexState, Lexed, TokenType, comma, semicolon, colon, specific_character, nl, ws, skip_ws,
  skip_chr, iseos, token, reject, accept,
}

unfoldable pub white_space : LexState → Lexed
unfolding skip_ws
white_space s = accept ws s (skip_ws s).1

-- A token of the one character `chr`.
unfoldable pub one_character : TokenType → ℕ → LexState → Lexed
unfolding skip_chr
one_character t chr s =
    let (found, s') = skip_chr chr s in
    if found then record { result = 1; token = token t s.at 1; state = s' } else reject s

unfoldable pub comma_token : LexState → Lexed
unfolding one_character
comma_token = one_character comma b','

unfoldable pub semicolon_token : LexState → Lexed
unfolding one_character
semicolon_token = one_character semicolon b';'

unfoldable pub colon_token : LexState → Lexed
unfolding one_character
colon_token = one_character colon b':'

unfoldable pub specific_character_token : ℕ → LexState → Lexed
unfolding one_character
specific_character_token = one_character specific_character

unfoldable pub new_line : LexState → Lexed
unfolding skip_chr
new_line s = accept nl s (skip_chr b'\n' (skip_chr b'\r' s).1).1

unfoldable pub is_eos : LexState → Bool
is_eos = iseos
