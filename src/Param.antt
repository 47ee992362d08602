-- ===== src/Param.antt =====
-- libscpi/src/parser.c: the parameters of a command, as its handler reads them one by one, without
-- those in floating point. The pointers that the functions are given are not null. A Boolean result
-- is followed by what the function stores, and by the session.
pub mod Outcome
pub mod Text
pub mod Choice
pub mod Tests
use scpi_parser.Base.{
  ℕ, zero, suc, ◌+◌, ◌-◌, ◌%◌, ◌^◌, Bool, true, false, not, ◌&&◌, ◌||◌, Option, none, some, List,
  [], ◌∷◌, ◌++◌, ◌==◌, ltb, leb, if◌then◌else◌, length, get_or, drop, take, set, Bytes, ℤ, pos,
  negsuc, eqb_ℤ,
}
use scpi_parser.Dispatch.{push}
use scpi_parser.Lexer.{
  LexState, Lexed, Token, TokenType, comma, hexnum, octnum, binnum, program_mnemonic, decimal,
  decimal_with_suffix, arbitrary_block, single_quote, double_quote, program_expression, unknown,
  iseos, token,
}
use scpi_parser.Lexer.Separator.{comma_token}
use scpi_parser.Message.{parse_program_data}
use scpi_parser.Pattern.{match_pattern}
use scpi_parser.Result.{strlen}
use scpi_parser.Session.{Session}

-- The functions of <stdlib.h> that read integers: the base and the bytes give the number of bytes
-- used, and the value.
pub record Numbers : Type 0 where
  pub strtol : ℕ → Bytes → ℕ × ℤ
  pub strtoul : ℕ → Bytes → ℕ × ℕ
  pub strtoll : ℕ → Bytes → ℕ × ℤ
  pub strtoull : ℕ → Bytes → ℕ × ℕ

-- The bits of a value that is stored in `w` bits.
abbrev pub wrap : ℕ → ℤ → ℕ
wrap w (pos n) = n % 2 ^ w
wrap w (negsuc n) = 2 ^ w - 1 - n % 2 ^ w

-- `scpi_parameter_t`, with the bytes from its pointer on to the end of memory, as strtol may read
-- them.
pub record Parameter : Type 0 where
  pub token : Token
  pub bytes : Bytes

abbrev pub no_parameter : TokenType → Parameter
no_parameter t = record { token = token t 0 0; bytes = [] }

abbrev pub is_comma : TokenType → Bool
is_comma comma = true
is_comma _ = false

-- The types that SCPI_Parameter accepts.
abbrev pub is_datum : TokenType → Bool
is_datum hexnum = true
is_datum octnum = true
is_datum binnum = true
is_datum program_mnemonic = true
is_datum decimal = true
is_datum decimal_with_suffix = true
is_datum arbitrary_block = true
is_datum single_quote = true
is_datum double_quote = true
is_datum program_expression = true
is_datum _ = false

abbrev pub at_state : LexState → Session → Session
at_state l s = record s { param_list = record s.param_list { lex_state = l } }

-- The parameter at `l`, behind the comma.
unfoldable pub read_datum : LexState → Session → Bool × Parameter × Session
read_datum l s =
    let r = parse_program_data l in
    let s' = at_state r.state (record s { input_count = s.input_count + 1 }) in
    let bytes = drop (r.token.ptr - l.at) l.rest ++ s.param_list.beyond in
    if is_datum r.token.type
    then (true, record { token = r.token; bytes = bytes }, s')
    else (false, no_parameter unknown, push (negsuc 150) s')

unfoldable pub parameter : Bool → Session → Bool × Parameter × Session
parameter mandatory s =
    let l = s.param_list.lex_state in
    let c = comma_token l in
    if iseos l
    then if mandatory
      then (false, no_parameter unknown, push (negsuc 108) s)
      else (false, no_parameter program_mnemonic, s)
    else if s.input_count == 0
    then read_datum l s
    else if not (is_comma c.token.type)
    then (false, no_parameter unknown, push (negsuc 102) (at_state c.state s))
    else read_datum c.state s

unfoldable pub param_is_number : Parameter → Bool → Bool
param_is_number p suffix_allowed = by_type p.token.type
  where
    by_type : TokenType → Bool
    by_type hexnum = true
    by_type octnum = true
    by_type binnum = true
    by_type decimal = true
    by_type decimal_with_suffix = suffix_allowed
    by_type _ = false

-- strBaseToInt32 and the like: whether bytes are used, and the bits of the value.
abbrev pub read_signed : ℕ → ℕ × ℤ → Bool × ℕ
read_signed w r = (ltb 0 r.0, wrap w r.1)

abbrev pub read_unsigned : ℕ → ℕ × ℕ → Bool × ℕ
read_unsigned w r = (ltb 0 r.0, r.1 % 2 ^ w)

-- `old` is the value before, which is kept if the parameter is not a number.
unfoldable pub param_sign_to_uint32 : Numbers → Parameter → Bool → ℕ → Bool × ℕ
param_sign_to_uint32 c p sign old = by_type p.token.type
  where
    by_type : TokenType → Bool × ℕ
    by_type hexnum = read_unsigned 32 (c.strtoul 16 p.bytes)
    by_type octnum = read_unsigned 32 (c.strtoul 8 p.bytes)
    by_type binnum = read_unsigned 32 (c.strtoul 2 p.bytes)
    by_type decimal =
        if sign
        then read_signed 32 (c.strtol 10 p.bytes)
        else read_unsigned 32 (c.strtoul 10 p.bytes)
    by_type decimal_with_suffix =
        if sign
        then read_signed 32 (c.strtol 10 p.bytes)
        else read_unsigned 32 (c.strtoul 10 p.bytes)
    by_type _ = (false, old)

unfoldable pub param_sign_to_uint64 : Numbers → Parameter → Bool → ℕ → Bool × ℕ
param_sign_to_uint64 c p sign old = by_type p.token.type
  where
    by_type : TokenType → Bool × ℕ
    by_type hexnum = read_unsigned 64 (c.strtoull 16 p.bytes)
    by_type octnum = read_unsigned 64 (c.strtoull 8 p.bytes)
    by_type binnum = read_unsigned 64 (c.strtoull 2 p.bytes)
    by_type decimal =
        if sign
        then read_signed 64 (c.strtoll 10 p.bytes)
        else read_unsigned 64 (c.strtoull 10 p.bytes)
    by_type decimal_with_suffix =
        if sign
        then read_signed 64 (c.strtoll 10 p.bytes)
        else read_unsigned 64 (c.strtoull 10 p.bytes)
    by_type _ = (false, old)

-- What ParamSignUInt32 and ParamSignUInt64 do with a parameter, `convert` being the conversion.
unfoldable pub number_of :
    (Parameter → ℕ → Bool × ℕ) → ℕ → Bool × Parameter × Session → Bool × ℕ × Session
number_of convert old (false, p, s) = (false, old, s)
number_of convert old (true, p, s) =
    let (ok, value) = convert p old in
    if param_is_number p false
    then (ok, value, s)
    else if param_is_number p true
    then (false, old, push (negsuc 137) s)
    else (false, old, push (negsuc 103) s)

unfoldable pub param_sign_uint32 : Numbers → ℕ → Bool → Bool → Session → Bool × ℕ × Session
param_sign_uint32 c old mandatory sign s =
    number_of (λ p. param_sign_to_uint32 c p sign) old (parameter mandatory s)

unfoldable pub param_sign_uint64 : Numbers → ℕ → Bool → Bool → Session → Bool × ℕ × Session
param_sign_uint64 c old mandatory sign s =
    number_of (λ p. param_sign_to_uint64 c p sign) old (parameter mandatory s)

unfoldable pub param_int32 : Numbers → ℕ → Bool → Session → Bool × ℕ × Session
param_int32 c old mandatory = param_sign_uint32 c old mandatory true

unfoldable pub param_uint32 : Numbers → ℕ → Bool → Session → Bool × ℕ × Session
param_uint32 c old mandatory = param_sign_uint32 c old mandatory false

unfoldable pub param_int64 : Numbers → ℕ → Bool → Session → Bool × ℕ × Session
param_int64 c old mandatory = param_sign_uint64 c old mandatory true

unfoldable pub param_uint64 : Numbers → ℕ → Bool → Session → Bool × ℕ × Session
param_uint64 c old mandatory = param_sign_uint64 c old mandatory false
