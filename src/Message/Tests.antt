-- ===== src/Message/Tests.antt =====
-- Tests of the units of a program message, and the theorems at concrete messages.
use scpi_parser.Base.{◌+◌, ◌<◌, ◌≤◌, ◌≡◌, refl, some, [], ◌∷◌, Bytes, arith, pos}
use scpi_parser.Lexer.{
  LexState, compound_header, all_program_data, token, skip_if, skip_from, skip_ws, skip_digit,
  skip_numbers, skip_plusmn, skip_alpha, skip_chr, skip_slash_dot, skip_star, skip_colon,
  skip_mnemonic, skip_program_mnemonic, is_mnemonic, isalpha, isalnum, isdigit, isplusmn, isws,
  is_e,
}
use scpi_parser.Lexer.Separator.{
  white_space, comma_token, one_character, semicolon_token, new_line, is_eos,
}
use scpi_parser.Lexer.Header.{
  program_header, common, compound, query_or, skip_common_header, skip_compound_header, skip_levels,
}
use scpi_parser.Lexer.Number.{
  character_data, decimal_number, suffix_data, nondecimal_number, based_number, skip_mantissa,
  skip_exponent, skip_unit, skip_units,
}
use scpi_parser.Message.Unit.{IsData, parse_parameters_enough}
use scpi_parser.Message.Progress.{
  detect_program_message_unit-progress, detect_program_message_unit-tokens,
}
use scpi_parser.Message.{
  AllData, parse_parameters, by_semicolon, by_none, detect_program_message_unit, detect_data,
  detect_end, parse_all_program_data, parse_program_data, program_datum, with_suffix,
}

-- `T 1,2;`
abbrev two_parameters : Bytes
two_parameters = b'T' ∷ b' ' ∷ b'1' ∷ b',' ∷ b'2' ∷ b';' ∷ []

two_parameters_test : detect_program_message_unit two_parameters ≡ record {
  header = token compound_header 0 1;
  program_data = token all_program_data 2 3;
  parameters = pos 2;
  termination = by_semicolon;
  result = 6;
}
unfolding detect_program_message_unit detect_data detect_end parse_all_program_data parse_parameters
    parse_program_data program_datum with_suffix white_space comma_token one_character
    semicolon_token new_line is_eos program_header common compound query_or skip_common_header
    skip_compound_header skip_levels character_data decimal_number suffix_data nondecimal_number
    based_number skip_mantissa skip_exponent skip_unit skip_units skip_if skip_from skip_ws
    skip_digit skip_numbers skip_plusmn skip_alpha skip_chr skip_slash_dot skip_star skip_colon
    skip_mnemonic skip_program_mnemonic is_mnemonic isalpha isalnum isdigit isplusmn isws is_e
two_parameters_test = refl

-- `T 1 ,2`: the white space behind the number is passed, but not counted, and the token of the
-- parameters ends before the second one.
lost_space_test :
    detect_program_message_unit (b'T' ∷ b' ' ∷ b'1' ∷ b' ' ∷ b',' ∷ b'2' ∷ []) ≡ record {
      header = token compound_header 0 1;
      program_data = token all_program_data 2 3;
      parameters = pos 2;
      termination = by_none;
      result = 6;
    }
unfolding detect_program_message_unit detect_data detect_end parse_all_program_data parse_parameters
    parse_program_data program_datum with_suffix white_space comma_token one_character
    semicolon_token new_line is_eos program_header common compound query_or skip_common_header
    skip_compound_header skip_levels character_data decimal_number suffix_data nondecimal_number
    based_number skip_mantissa skip_exponent skip_unit skip_units skip_if skip_from skip_ws
    skip_digit skip_numbers skip_plusmn skip_alpha skip_chr skip_slash_dot skip_star skip_colon
    skip_mnemonic skip_program_mnemonic is_mnemonic isalpha isalnum isdigit isplusmn isws is_e
lost_space_test = refl

detect_program_message_unit-progress_example :
    (0 < (detect_program_message_unit two_parameters).result)
    × ((detect_program_message_unit two_parameters).result ≤ 6)
detect_program_message_unit-progress_example =
    detect_program_message_unit-progress two_parameters (omega arith)

detect_program_message_unit-tokens_example :
    ((detect_program_message_unit two_parameters).header.ptr
        + (detect_program_message_unit two_parameters).header.len
      ≤ (detect_program_message_unit two_parameters).result)
    × ((detect_program_message_unit two_parameters).program_data.ptr
          + (detect_program_message_unit two_parameters).program_data.len
        ≤ (detect_program_message_unit two_parameters).result)
detect_program_message_unit-tokens_example = detect_program_message_unit-tokens two_parameters

-- `1,2;`, two bytes into the message
abbrev data_state : LexState
data_state = record { at = 2; rest = b'1' ∷ b',' ∷ b'2' ∷ b';' ∷ [] }

parse_parameters_enough_test :
    (d : AllData) × (parse_parameters 5 2 0 0 data_state ≡ some d) × IsData 2 data_state d
parse_parameters_enough_test =
    parse_parameters_enough 5 2 0 0 data_state (omega arith) (omega arith)
