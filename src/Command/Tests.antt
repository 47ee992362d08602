-- ===== src/Command/Tests.antt =====
-- *CLS on a device with pending events.
use scpi_parser.Base.{◌≡◌, refl, true, false, [], ◌∷◌, arith, length}
use scpi_parser.Command.Cleared.{core_cls-cleared}
use scpi_parser.Command.{core_cls}
use scpi_parser.Command.Core.{core_ese, core_ese_q}
use scpi_parser.Command.Enable.{event_status, enable-query}
use scpi_parser.Format.{uint32_to_str_base_sign}
use scpi_parser.Param.Tests.{numbers, with_data}
use scpi_parser.Param.{
  param_int32, param_sign_uint32, number_of, parameter, read_datum, param_is_number,
  param_sign_to_uint32,
}
use scpi_parser.Message.{parse_program_data, program_datum, with_suffix}
use scpi_parser.Lexer.{
  skip_if, skip_from, isws, isalpha, isplusmn, is_e, skip_mnemonic, skip_alpha, skip_chr, isdigit,
  skip_numbers, skip_plusmn, skip_slash_dot, skip_ws,
}
use scpi_parser.Lexer.Separator.{white_space}
use scpi_parser.Lexer.Block.{block_data}
use scpi_parser.Lexer.Quoted.{expression_data, string_data}
use scpi_parser.Lexer.Number.{
  nondecimal_number, character_data, decimal_number, based_number, skip_exponent, skip_mantissa,
  suffix_data, skip_unit, skip_units,
}
use scpi_parser.Result.Output.{Replies}
use scpi_parser.Session.{Session}
use scpi_parser.Context.{Context}
use scpi_parser.Fifo.Queue.{no_error}
use scpi_parser.Fifo.Refine.{contents}
use scpi_parser.Fifo.Valid.{fifo_init-IsValid}
use scpi_parser.Fifo.{fifo_init}

abbrev pending : Context
pending = record {
  interface = record {
    has_error = true;
    has_control = true;
    has_flush = true;
    has_reset = true;
    write_result = length;
  };
  output_count = 0;
  first_output = true;
  cmd_error = false;
  arbitrary_remaining = 0;
  error_queue = fifo_init (no_error ∷ no_error ∷ []) 2;
  heap = record { supply = []; allocated = 0; freed = 0 };
  registers = record {
    stb = 0x60;
    sre = 0x20;
    esr = 0x20;
    ese = 0x20;
    oper = 1;
    opere = 0;
    operc = 1;
    ques = 2;
    quese = 0;
    quesc = 0;
  };
  events = [];
}

core_cls-cleared_example :
    (contents (core_cls pending).error_queue ≡ [])
    × ((core_cls pending).heap.freed ≡ (core_cls pending).heap.allocated)
    × ((core_cls pending).registers.esr ≡ 0)
    × ((core_cls pending).registers.oper ≡ 0)
    × ((core_cls pending).registers.ques ≡ 0)
unfolding fifo_init
core_cls-cleared_example =
    core_cls-cleared pending (fifo_init-IsValid _ 2 (omega arith) (omega arith) (omega arith)) refl

abbrev with_42 : Session
with_42 = with_data (b'4' ∷ b'2' ∷ []) 0 0

abbrev with_42_read : Session
with_42_read = record with_42 {
  input_count = 1;
  param_list = record with_42.param_list { lex_state = record { at = 2; rest = [] } };
}

reads_42 : param_int32 numbers 0 true with_42 ≡ (true, 42, with_42_read)
unfolding param_int32 param_sign_uint32 number_of parameter read_datum parse_program_data
    program_datum nondecimal_number skip_if white_space skip_from isws character_data isalpha
    with_suffix decimal_number isplusmn block_data based_number skip_exponent skip_mantissa
    suffix_data expression_data string_data is_e skip_mnemonic skip_alpha skip_chr isdigit
    skip_numbers skip_plusmn skip_slash_dot skip_ws skip_unit skip_units param_is_number
    param_sign_to_uint32
reads_42 = refl

enable-query_example :
    ((core_ese numbers with_42).0 ≡ true)
    × ((core_ese_q (core_ese numbers with_42).1).0 ≡ true)
    × Replies
        (core_ese numbers with_42).1.context
        (uint32_to_str_base_sign 42 33 10 true)
        (core_ese_q (core_ese numbers with_42).1).1.context
enable-query_example = enable-query numbers with_42 with_42_read 42 event_status reads_42
