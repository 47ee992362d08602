-- ===== src/Lexer/Recognise.antt =====
-- All recognisers of libscpi/src/lexer.c but that of arbitrary blocks, which alone takes bytes
-- without a token, together.
use mathlib.Core.Path.{subst}
use scpi_parser.Base.{ℕ, ◌≡◌, refl, sym, ◌⊎◌, inl, inr, true, ◌==◌}
use scpi_parser.Lexer.Span.{IsLexed}
use scpi_parser.Lexer.{LexState, Lexed, next_is, comma, semicolon, colon, specific_character}
use scpi_parser.Lexer.Separator.{
  white_space, comma_token, semicolon_token, colon_token, specific_character_token, new_line,
}
use scpi_parser.Lexer.Number.{character_data, decimal_number, suffix_data, nondecimal_number}
use scpi_parser.Lexer.Header.{program_header}
use scpi_parser.Lexer.Quoted.{string_data, expression_data}
use scpi_parser.Lexer.Outcome.{
  one_character-IsLexed, white_space-IsLexed, new_line-IsLexed, character_data-IsLexed,
  decimal_number-IsLexed, suffix_data-IsLexed, nondecimal_number-IsLexed,
}
use scpi_parser.Lexer.Header.Outcome.{program_header-IsLexed}
use scpi_parser.Lexer.Quoted.Outcome.{string_data-IsLexed, expression_data-IsLexed}

pub data Recogniser : Type 0 where
  a_white_space a_header a_character_data a_decimal a_suffix a_nondecimal : Recogniser
  a_string a_comma a_semicolon a_colon a_new_line : Recogniser
  a_character : ℕ → Recogniser
  an_expression : ℕ → Recogniser

-- An expression is tried with a token that has a length already.
abbrev pub recognise : Recogniser → LexState → Lexed
recognise a_white_space = white_space
recognise a_header = program_header
recognise a_character_data = character_data
recognise a_decimal = decimal_number
recognise a_suffix = suffix_data
recognise a_nondecimal = nondecimal_number
recognise a_string = string_data
recognise (an_expression old) = expression_data old
recognise a_comma = comma_token
recognise a_semicolon = semicolon_token
recognise a_colon = colon_token
recognise a_new_line = new_line
recognise (a_character chr) = specific_character_token chr

-- Whether a recogniser sets the length of its token: that of expressions does so only behind an
-- opening parenthesis, and otherwise takes the length that it finds for its own.
abbrev pub SetsLength : Recogniser → LexState → Type 0
SetsLength (an_expression old) s = (old ≡ 0) ⊎ (next_is (λ c. c == b'(') s.rest ≡ true)
SetsLength _ s = true ≡ true

expression_data-old :
    (old : ℕ) (s : LexState)
    → next_is (λ c. c == b'(') s.rest ≡ true
    → expression_data old s ≡ expression_data 0 s
unfolding expression_data
expression_data-old old s e = rw e refl

-- Every recogniser but that of blocks either returns 0 with an unknown token of length 0 and leaves
-- the position, or returns the number of bytes that it has passed, one at least, with a token within
-- them; that of expressions if its token had length 0 or a parenthesis opens.
pub recognise-IsLexed : (r : Recogniser) (s : LexState) → SetsLength r s → IsLexed s (recognise r s)
unfolding comma_token semicolon_token colon_token specific_character_token
recognise-IsLexed a_white_space s l = white_space-IsLexed s
recognise-IsLexed a_header s l = program_header-IsLexed s
recognise-IsLexed a_character_data s l = character_data-IsLexed s
recognise-IsLexed a_decimal s l = decimal_number-IsLexed s
recognise-IsLexed a_suffix s l = suffix_data-IsLexed s
recognise-IsLexed a_nondecimal s l = nondecimal_number-IsLexed s
recognise-IsLexed a_string s l = string_data-IsLexed s
recognise-IsLexed (an_expression old) s (inl e) =
    subst (λ n. IsLexed s (expression_data n s)) (sym e) (expression_data-IsLexed s)
recognise-IsLexed (an_expression old) s (inr e) =
    rw (expression_data-old old s e) (expression_data-IsLexed s)
recognise-IsLexed a_comma s l = one_character-IsLexed comma b',' s
recognise-IsLexed a_semicolon s l = one_character-IsLexed semicolon b';' s
recognise-IsLexed a_colon s l = one_character-IsLexed colon b':' s
recognise-IsLexed a_new_line s l = new_line-IsLexed s
recognise-IsLexed (a_character chr) s l = one_character-IsLexed specific_character chr s
