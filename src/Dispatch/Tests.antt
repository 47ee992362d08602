-- ===== src/Dispatch/Tests.antt =====
-- Messages with two commands, and the witnesses.
use scpi_parser.Base.{
  ℕ, ◌≡◌, refl, true, false, [], ◌∷◌, length, List, Bytes, some, pos, arith, not,
}
use scpi_parser.Dispatch.{
  scpi_parse, parse_units, start_parsing, process_command, compose_compound_command, Parsing,
}
use scpi_parser.Dispatch.Buffer.{KeepBuffer, no_commands, a_command, SameShape}
use scpi_parser.Dispatch.Compose.{compose_compound_command-Composed, Composed}
use scpi_parser.Dispatch.Enough.{parse_units_enough, start_parsing-Placed}
use scpi_parser.Dispatch.Outcome.{process_command-cmd_error}
use scpi_parser.Lexer.{token, unknown}
use scpi_parser.Match.Tests.{strtol}
use scpi_parser.Result.{result_int32}
use scpi_parser.Result.Tests.{quiet}
use scpi_parser.Session.{Session, Command, Handler, on_context}

-- `A:B?` answers 1, `A:C?` answers 2, and `D` fails.
abbrev pub answer : ℕ → Handler
answer n s = (true, on_context (λ c. (result_int32 n c).1) s)

abbrev pub table : List Command
table =
    record { pattern = b'A' ∷ b':' ∷ b'B' ∷ b'?' ∷ []; callback = some (answer 1); tag = pos 0 }
    ∷ record { pattern = b'A' ∷ b':' ∷ b'C' ∷ b'?' ∷ []; callback = some (answer 2); tag = pos 0 }
    ∷ record { pattern = b'D' ∷ []; callback = some (λ s. (false, s)); tag = pos 0 }
    ∷ []

abbrev pub device : Session
device = record {
  context = quiet;
  input_count = 0;
  param_list = record {
    cmd = 0;
    lex_state = record { at = 0; rest = [] };
    beyond = [];
    cmd_raw = [];
    cmd_raw_length = 0;
  };
  buffer = record { bytes = 0 ∷ 0 ∷ 0 ∷ 0 ∷ 0 ∷ 0 ∷ 0 ∷ 0 ∷ 0 ∷ 0 ∷ 0 ∷ 0 ∷ []; position = 0 };
  idn = [];
}

-- `a:b?;c?` and a line end
abbrev two_queries : Bytes
two_queries = b'a' ∷ b':' ∷ b'b' ∷ b'?' ∷ b';' ∷ b'c' ∷ b'?' ∷ b'\n' ∷ []

compose_test :
    compose_compound_command (token unknown 0 4) (token unknown 5 2) two_queries
    ≡ (true, token unknown 3 4, b'a' ∷ b':' ∷ b'b' ∷ b'a' ∷ b':' ∷ b'c' ∷ b'?' ∷ b'\n' ∷ [])
unfolding compose_compound_command scpi_parser.Dispatch.last_colon
compose_test = refl

pub table-KeepBuffer : KeepBuffer table
table-KeepBuffer =
    a_command (answer-Keeps 1) (a_command (answer-Keeps 2) (a_command fails-Keeps no_commands))
  where
    answer-Keeps : (n : ℕ) (s : Session) → SameShape s.buffer (answer n s).1.buffer
    answer-Keeps n s = record { size_eq = refl; position_eq = refl }

    fails-Keeps : (s : Session) → SameShape s.buffer s.buffer
    fails-Keeps s = record { size_eq = refl; position_eq = refl }

parse_units_enough_example :
    (q : Parsing) × (parse_units 9 strtol table (start_parsing true two_queries 8 device) ≡ some q)
    × (length q.memory ≡ 8)
parse_units_enough_example =
    parse_units_enough 8 9 strtol table (start_parsing true two_queries 8 device)
      (start_parsing-Placed true two_queries 8 device (omega arith)) (omega arith) table-KeepBuffer

compose_compound_command-Composed_example :
    Composed
      (token unknown 0 4)
      (token unknown 5 2)
      two_queries
      (compose_compound_command (token unknown 0 4) (token unknown 5 2) two_queries)
compose_compound_command-Composed_example =
    compose_compound_command-Composed (token unknown 0 4) (token unknown 5 2) two_queries
      (omega arith) (omega arith)

process_command-cmd_error_example :
    (process_command (some (λ s. (false, s))) device).1.context.cmd_error
    ≡ not (process_command (some (λ s. (false, s))) device).0
process_command-cmd_error_example = process_command-cmd_error (some (λ s. (false, s))) device
