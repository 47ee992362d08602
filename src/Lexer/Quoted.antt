-- ===== src/Lexer/Quoted.antt =====
-- libscpi/src/lexer.c: strings in single or double quotes, and expressions in parentheses.
pub mod Outcome
pub mod Text
use scpi_parser.Base.{
  ℕ, ◌+◌, Bool, true, false, not, ◌&&◌, List, [], ◌∷◌, ◌==◌, leb, if◌then◌else◌, Bytes,
}
use scpi_parser.Lexer.{
  LexState, Lexed, TokenType, single_quote, double_quote, program_expression, within, next_is,
  advance, skip_while, skip_chr, token, reject, accept,
}

unfoldable pub isascii7bit : ℕ → Bool
isascii7bit c = leb c 0x7f

-- Up to the quote that is not doubled, or to the first character that is not ASCII.
unfoldable pub skip_quote : ℕ → ℕ → Bytes → LexState
unfolding isascii7bit
skip_quote quote n [] = record { at = n; rest = [] }
skip_quote quote n (c ∷ []) =
    if isascii7bit c && not (c == quote)
    then record { at = n + 1; rest = [] }
    else record { at = n; rest = c ∷ [] }
skip_quote quote n (c ∷ d ∷ cs) = elim (isascii7bit c && not (c == quote)) [
  | true ↦ skip_quote quote (n + 1) (d ∷ cs)
  | false ↦ elim (c == quote && d == quote) [
    | true ↦ skip_quote quote (n + 2) cs
    | false ↦ record { at = n; rest = c ∷ d ∷ cs }
  ]
]

-- The token from the opening quote to the closing one.
unfoldable pub quoted : TokenType → ℕ → LexState → Lexed
unfolding skip_quote skip_chr
quoted t quote s =
    let s1 = skip_quote quote (advance s).at (advance s).rest in
    let (closed, s2) = skip_chr quote s1 in if closed then accept t s s2 else reject s

unfoldable pub string_data : LexState → Lexed
unfolding quoted
string_data s =
    if next_is (λ c. c == b'"') s.rest
    then quoted double_quote b'"' s
    else if next_is (λ c. c == b'\'') s.rest
    then quoted single_quote b'\'' s
    else reject s

unfoldable pub is_program_expression : ℕ → Bool
is_program_expression c =
    within 0x20 0x7e c
    && not (c == b'"')
    && not (c == b'#')
    && not (c == b'\'')
    && not (c == b'(')
    && not (c == b')')
    && not (c == b';')

-- `old` is the length that the caller's token has beforehand: without a parenthesis it is not set.
unfoldable pub expression_data : ℕ → LexState → Lexed
unfolding skip_chr
expression_data old s =
    let (_, s1) = skip_while is_program_expression (advance s) in
    let (closed, s2) = skip_chr b')' s1 in
    if next_is (λ c. c == b'(') s.rest
    then if closed then accept program_expression s s2 else reject s
    else if old == 0
    then reject s
    else record { result = old; token = token program_expression s.at old; state = s }
