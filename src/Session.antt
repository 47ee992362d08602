-- ===== src/Session.antt =====
-- libscpi/inc/scpi/types.h: the rest of `scpi_t`, which the dispatcher of libscpi/src/parser.c keeps
-- from command to command, and the table of commands.
use scpi_parser.Base.{ℕ, ◌+◌, Bool, Option, List, ◌++◌, length, take, drop, Bytes, ℤ}
use scpi_parser.Context.{Context}
use scpi_parser.Lexer.{LexState}

-- `scpi_param_list_t`: the row of the table, the parameters that are still to be read, what follows
-- the last of them in memory, and the header with all that follows it in memory.
pub record ParamList : Type 0 where
  pub cmd : ℕ
  pub lex_state : LexState
  pub beyond : Bytes
  pub cmd_raw : Bytes
  pub cmd_raw_length : ℕ

-- `scpi_buffer_t`; its length is that of the data.
pub record InputBuffer : Type 0 where
  pub bytes : Bytes
  pub position : ℕ

-- What the last detection of a unit found, `parser_state`, is passed on as a value.
pub record Session : Type 0 where
  pub context : Context
  pub input_count : ℕ
  pub param_list : ParamList
  pub buffer : InputBuffer
  pub idn : List (Option Bytes)

-- A handler returns whether the result is SCPI_RES_OK. A command may have none.
abbrev pub Handler : Type 0
Handler = Session → Bool × Session

-- `scpi_command_t`; the table is a list instead of ending with a null pattern.
pub record Command : Type 0 where
  pub pattern : Bytes
  pub callback : Option Handler
  pub tag : ℤ

-- A call that only concerns the context.
abbrev pub on_context : (Context → Context) → Session → Session
on_context f s = record s { context = f s.context }

-- `memcpy` and `memmove` of the bytes to the offset `at`.
abbrev pub copy_to : ℕ → Bytes → Bytes → Bytes
copy_to at bytes memory = take at memory ++ bytes ++ drop (at + length bytes) memory
