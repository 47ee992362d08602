-- ===== src/Lexer.antt =====
-- libscpi/src/lexer.c: the lexer's state, the tokens, and the functions that skip characters.
-- A state is the offset of `pos` from the start of the message and the bytes from `pos` up to
-- `buffer + len`; assigning an earlier `pos` is returning to the earlier state. A `char` is read as
-- an unsigned byte, and <ctype.h> is that of the C locale.
pub mod Span
pub mod Munch
pub mod Header
pub mod Number
pub mod Quoted
pub mod Block
pub mod Separator
pub mod Outcome
pub mod Recognise
mod Tests
use scpi_parser.Base.{
  ℕ, suc, ◌+◌, ◌-◌, ◌≡◌, Bool, true, false, ◌&&◌, ◌||◌, List, [], ◌∷◌, ◌==◌, leb, if◌then◌else◌,
  Bytes, ℤ, pos, neg,
}

-- `lex_state_t`
pub record LexState : Type 0 where
  pub at : ℕ
  pub rest : Bytes

-- `scpi_token_type_t`
pub data TokenType : Type 0 where
  comma semicolon colon specific_character question nl hexnum octnum binnum : TokenType
  program_mnemonic decimal decimal_with_suffix suffix arbitrary_block : TokenType
  single_quote double_quote program_expression compound_header : TokenType
  incomplete_compound_header common_header incomplete_common_header : TokenType
  compound_query_header common_query_header ws all_program_data invalid unknown : TokenType

-- `scpi_token_t`; `ptr` is an offset like that of the state.
pub record Token : Type 0 where
  pub type : TokenType
  pub ptr : ℕ
  pub len : ℕ

-- What a recogniser `scpiLex_...` returns and leaves behind.
pub record Lexed : Type 0 where
  pub result : ℕ
  pub token : Token
  pub state : LexState

abbrev within : ℕ → ℕ → ℕ → Bool
within lo hi c = leb lo c && leb c hi

-- <ctype.h>
unfoldable pub isdigit : ℕ → Bool
isdigit c = within b'0' b'9' c

unfoldable pub isalpha : ℕ → Bool
isalpha c = within b'a' b'z' c || within b'A' b'Z' c

unfoldable pub isalnum : ℕ → Bool
unfolding isalpha isdigit
isalnum c = isalpha c || isdigit c

unfoldable pub isxdigit : ℕ → Bool
unfolding isdigit
isxdigit c = isdigit c || within b'a' b'f' c || within b'A' b'F' c

unfoldable pub isws : ℕ → Bool
isws c = c == b' ' || c == b'\t'

unfoldable pub isbdigit : ℕ → Bool
isbdigit c = c == b'0' || c == b'1'

unfoldable pub isqdigit : ℕ → Bool
isqdigit c =
    c == b'0'
    || c == b'1'
    || c == b'2'
    || c == b'3'
    || c == b'4'
    || c == b'5'
    || c == b'6'
    || c == b'7'

unfoldable pub isplusmn : ℕ → Bool
isplusmn c = c == b'+' || c == b'-'

unfoldable pub is_h : ℕ → Bool
is_h c = c == b'h' || c == b'H'

unfoldable pub is_b : ℕ → Bool
is_b c = c == b'b' || c == b'B'

unfoldable pub is_q : ℕ → Bool
is_q c = c == b'q' || c == b'Q'

unfoldable pub is_e : ℕ → Bool
is_e c = c == b'e' || c == b'E'

abbrev pub iseos : LexState → Bool
iseos s = no_more s.rest
  where
    no_more : Bytes → Bool
    no_more [] = true
    no_more (c ∷ cs) = false

-- `!iseos(state) && test(state->pos[0])`, and the move past that character.
abbrev pub next_is : (ℕ → Bool) → Bytes → Bool
next_is p [] = false
next_is p (c ∷ cs) = p c

abbrev pub advance : LexState → LexState
advance s = forward s.at s.rest
  where
    forward : ℕ → Bytes → LexState
    forward n [] = record { at = n; rest = [] }
    forward n (c ∷ cs) = record { at = n + 1; rest = cs }

-- `if (!iseos(state) && test(...)) { state->pos++; ... }`: whether it moved.
unfoldable pub skip_if : (ℕ → Bool) → LexState → Bool × LexState
skip_if p s = if next_is p s.rest then (true, advance s) else (false, s)

-- `while (!iseos(state) && test(...)) { state->pos++; some++; }`, with the count.
unfoldable pub skip_from : (ℕ → Bool) → ℕ → Bytes → ℕ × LexState
skip_from p n [] = (0, record { at = n; rest = [] })
skip_from p n (c ∷ cs) =
    let (k, s) = skip_from p (n + 1) cs in
    if p c then (suc k, s) else (0, record { at = n; rest = c ∷ cs })

abbrev pub skip_while : (ℕ → Bool) → LexState → ℕ × LexState
skip_while p s = skip_from p s.at s.rest

unfoldable pub skip_ws : LexState → ℕ × LexState
skip_ws = skip_while isws

unfoldable pub skip_digit : LexState → Bool × LexState
skip_digit = skip_if isdigit

unfoldable pub skip_numbers : LexState → ℕ × LexState
skip_numbers = skip_while isdigit

unfoldable pub skip_plusmn : LexState → Bool × LexState
skip_plusmn = skip_if isplusmn

unfoldable pub skip_alpha : LexState → ℕ × LexState
skip_alpha = skip_while isalpha

unfoldable pub skip_chr : ℕ → LexState → Bool × LexState
skip_chr chr = skip_if (λ c. c == chr)

unfoldable pub skip_slash_dot : LexState → Bool × LexState
skip_slash_dot = skip_if (λ c. c == b'/' || c == b'.')

unfoldable pub skip_star : LexState → Bool × LexState
skip_star = skip_if (λ c. c == b'*')

unfoldable pub skip_colon : LexState → Bool × LexState
skip_colon = skip_if (λ c. c == b':')

-- A character of a program mnemonic behind the first.
unfoldable pub is_mnemonic : ℕ → Bool
unfolding isalnum
is_mnemonic c = isalnum c || c == b'_'

-- The mnemonic [a-z][a-z0-9_]*: nothing, or its first character and all that follow.
unfoldable pub skip_mnemonic : LexState → LexState
skip_mnemonic s = if next_is isalpha s.rest then (skip_while is_mnemonic (advance s)).1 else s

-- The length of the mnemonic, negative at the end of the message.
unfoldable pub skip_program_mnemonic : LexState → ℤ × LexState
unfolding skip_mnemonic
skip_program_mnemonic s =
    let s' = skip_mnemonic s in let n = s'.at - s.at in (if iseos s' then neg n else pos n, s')

abbrev pub token : TokenType → ℕ → ℕ → Token
token t p n = record { type = t; ptr = p; len = n }

-- The end of a recogniser that found nothing, and of one that passed from `s` to `s'`.
abbrev pub reject : LexState → Lexed
reject s = record { result = 0; token = token unknown s.at 0; state = s }

abbrev pub accept : TokenType → LexState → LexState → Lexed
accept t s s' =
    let n = s'.at - s.at in
    if n == 0 then reject s else record { result = n; token = token t s.at n; state = s' }
