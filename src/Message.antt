-- ===== src/Message.antt =====
-- libscpi/src/parser.c: program data, and the units that a program message consists of.
pub mod Span
pub mod Unit
pub mod Progress
pub mod Empty
pub mod LineEnd
mod Tests
use scpi_parser.Base.{
  ℕ, zero, suc, ◌+◌, Bool, true, false, not, ◌&&◌, Option, none, some, ◌==◌, ltb, if◌then◌else◌,
  length, Bytes, ℤ, pos, negsuc,
}
use scpi_parser.Lexer.{
  LexState, TokenType, Token, Lexed, unknown, invalid, semicolon, nl, decimal_with_suffix,
  all_program_data, advance, token,
}
use scpi_parser.Lexer.Separator.{white_space, comma_token, semicolon_token, new_line, is_eos}
use scpi_parser.Lexer.Number.{character_data, decimal_number, suffix_data, nondecimal_number}
use scpi_parser.Lexer.Header.{program_header}
use scpi_parser.Lexer.Quoted.{string_data, expression_data}
use scpi_parser.Lexer.Block.{block_data}

-- `if (result == 0) result = ...(state, token);`
abbrev pub or_try : (LexState → Lexed) → Lexed → Lexed
or_try f r = if r.result == 0 then f r.state else r

-- The white space and the suffix behind a decimal number.
unfoldable pub with_suffix : Lexed → Lexed
with_suffix r =
    let w = white_space r.state in
    let s = suffix_data w.state in
    let len = r.token.len + (w.result + s.result) in
    if r.result == 0
    then r
    else if ltb 0 s.result
    then record { result = len; token = token decimal_with_suffix r.token.ptr len; state = s.state }
    else record { result = r.result; token = r.token; state = s.state }

abbrev pub decimal_data : LexState → Lexed
decimal_data s = with_suffix (decimal_number s)

-- One parameter, without the white space around it. A block that fails leaves a token of length 0.
unfoldable pub program_datum : LexState → Lexed
program_datum s = or_try (expression_data 0) (
    or_try block_data
      (or_try string_data (or_try decimal_data (or_try character_data (nondecimal_number s)))))

-- The result counts the white space before and behind.
unfoldable pub parse_program_data : LexState → Lexed
parse_program_data s =
    let before = white_space s in
    let r = program_datum before.state in
    let behind = white_space r.state in
    record {
      result = r.result + (before.result + behind.result);
      token = r.token;
      state = behind.state;
    }

abbrev pub is_unknown : TokenType → Bool
is_unknown unknown = true
is_unknown _ = false

-- What scpiParser_parseAllProgramData finds: its token, and the number of parameters.
pub record AllData : Type 0 where
  pub data_token : Token
  pub parameters : ℤ
  pub state : LexState

-- The loop, after `token->len += result` with the length `len`; `start` is `token->ptr`. `none`
-- means that the fuel has run out.
unfoldable pub parse_parameters : ℕ → ℕ → ℕ → ℕ → LexState → Option AllData
parse_parameters zero start len count s = none
parse_parameters (suc fuel) start len count s =
    let r = parse_program_data s in
    let c = comma_token r.state in
    let rest = parse_parameters fuel start (len + r.result + c.result) (count + 1) c.state in
    if is_unknown r.token.type
    then some
        (record { data_token = token unknown start 0; parameters = negsuc 0; state = r.state })
    else if c.result == 0
    then some (record {
      data_token = token all_program_data start (len + r.result);
      parameters = pos (count + 1);
      state = c.state;
    })
    else rest

abbrev pub invalid_token : ℕ → Token
invalid_token ptr = token unknown ptr 0

abbrev pub no_data : LexState → AllData
no_data s = record { data_token = invalid_token s.at; parameters = pos 0; state = s }

abbrev pub all_data_or : AllData → Option AllData → AllData
all_data_or d none = d
all_data_or d (some r) = r

-- The length starts at -1, and the first round adds 1.
unfoldable pub parse_all_program_data : LexState → AllData
parse_all_program_data s =
    all_data_or (no_data s) (parse_parameters (suc (length s.rest)) s.at 0 0 s)

-- `message_termination_t`
pub data Termination : Type 0 where
  by_none by_nl by_semicolon : Termination

abbrev pub is_nl : Termination → Bool
is_nl by_nl = true
is_nl _ = false

-- `scpi_parser_state_t`, and what scpiParser_detectProgramMessageUnit returns.
pub record ProgramUnit : Type 0 where
  pub header : Token
  pub program_data : Token
  pub parameters : ℤ
  pub termination : Termination
  pub result : ℕ

abbrev pub termination_of : TokenType → Termination
termination_of semicolon = by_semicolon
termination_of nl = by_nl
termination_of _ = by_none

-- The parameters, if white space separates them from the header.
unfoldable pub detect_data : LexState → AllData
detect_data s =
    let w = white_space s in
    if ltb 0 w.result then parse_all_program_data w.state else no_data w.state

-- What ends the unit: a line end or a semicolon, and the state behind it.
unfoldable pub detect_end : LexState → Lexed
detect_end s = or_try semicolon_token (new_line s)

-- Recognising a header does not fail: its result is never negative.
unfoldable pub detect_program_message_unit : Bytes → ProgramUnit
detect_program_message_unit message =
    let w = white_space (record { at = 0; rest = message }) in
    let h = program_header w.state in
    let d = detect_data h.state in
    let e = detect_end d.state in
    if not (is_eos e.state) && (e.result == 0)
    then record {
      header = token invalid h.token.ptr 1;
      program_data = invalid_token 0;
      parameters = d.parameters;
      termination = termination_of e.token.type;
      result = (advance e.state).at;
    }
    else record {
      header = h.token;
      program_data = d.data_token;
      parameters = d.parameters;
      termination = termination_of e.token.type;
      result = e.state.at;
    }
