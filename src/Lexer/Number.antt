-- ===== src/Lexer/Number.antt =====
-- libscpi/src/lexer.c: character data, decimal numbers, suffixes, and numbers of base 16, 8 and 2.
use scpi_parser.Base.{
  ℕ, zero, suc, ◌+◌, ◌-◌, Bool, not, Option, none, some, ◌==◌, if◌then◌else◌, length,
}
use scpi_parser.Lexer.{
  LexState, Lexed, TokenType, hexnum, octnum, binnum, program_mnemonic, decimal, suffix, isxdigit,
  isqdigit, isbdigit, is_h, is_q, is_b, is_e, next_is, advance, skip_while, skip_ws, skip_digit,
  skip_numbers, skip_plusmn, skip_alpha, skip_chr, skip_slash_dot, skip_mnemonic, token, reject,
  accept,
}

unfoldable pub character_data : LexState → Lexed
unfolding skip_mnemonic
character_data s = accept program_mnemonic s (skip_mnemonic s)

-- The number of digits passed.
unfoldable pub skip_mantissa : LexState → ℕ × LexState
unfolding skip_plusmn skip_numbers skip_chr
skip_mantissa s =
    let (n, s1) = skip_numbers (skip_plusmn s).1 in
    let (point, s2) = skip_chr b'.' s1 in
    let (m, s3) = skip_numbers s2 in if point then (n + m, s3) else (n, s2)

unfoldable pub skip_exponent : LexState → ℕ × LexState
unfolding skip_ws skip_plusmn skip_numbers
skip_exponent s =
    if next_is is_e s.rest then skip_numbers (skip_plusmn (skip_ws (advance s)).1).1 else (0, s)

-- White space before the exponent belongs to the number only if an exponent follows.
unfoldable pub decimal_number : LexState → Lexed
unfolding skip_mantissa skip_exponent skip_ws
decimal_number s =
    let (n, s1) = skip_mantissa s in
    let (k, s2) = skip_exponent (skip_ws s1).1 in
    if n == 0 then reject s else accept decimal s (if k == 0 then s1 else s2)

-- `skipAlpha(state); skipChr(state, '-'); skipDigit(state);`
unfoldable pub skip_unit : LexState → LexState
unfolding skip_alpha skip_chr skip_digit
skip_unit s = (skip_digit (skip_chr b'-' (skip_alpha s).1).1).1

-- The loop over further units; `none` means that the fuel has run out.
unfoldable pub skip_units : ℕ → LexState → Option LexState
unfolding skip_slash_dot skip_unit
skip_units zero s = none
skip_units (suc fuel) s =
    let (found, s1) = skip_slash_dot s in
    let rest = skip_units fuel (skip_unit s1) in if found then rest else some s1

abbrev pub state_or : LexState → Option LexState → LexState
state_or s none = s
state_or s (some s') = s'

unfoldable pub suffix_data : LexState → Lexed
unfolding skip_units skip_chr skip_alpha skip_unit
suffix_data s =
    let s1 = (skip_chr b'/' s).1 in
    let (n, _) = skip_alpha s1 in
    if n == 0
    then accept suffix s s1
    else accept suffix s (state_or s1 (skip_units (suc (length s1.rest)) (skip_unit s1)))

-- `#H`, `#Q` and `#B` have been recognised from `s` to `s'`; the token is the digits alone.
unfoldable pub based_number : TokenType → (ℕ → Bool) → LexState → LexState → Lexed
based_number t p s s' =
    let (n, s'') = skip_while p (advance s') in
    let len = s''.at - (s.at + 2) in
    if n == 0 then reject s else record {
      result = if len == 0 then 0 else len + 2;
      token = token t (s.at + 2) len;
      state = s'';
    }

unfoldable pub nondecimal_number : LexState → Lexed
unfolding based_number skip_chr
nondecimal_number s =
    let (found, s1) = skip_chr b'#' s in
    if not found
    then reject s
    else if next_is is_h s1.rest
    then based_number hexnum isxdigit s s1
    else if next_is is_q s1.rest
    then based_number octnum isqdigit s s1
    else if next_is is_b s1.rest
    then based_number binnum isbdigit s s1
    else reject s
