-- ===== src/Message/Empty.antt =====
-- libscpi/src/parser.c: the detection of a unit at the end of a message.
use scpi_parser.Base.{◌≡◌, refl, []}
use scpi_parser.Lexer.Header.{
  program_header, common, compound, skip_common_header, skip_compound_header, query_or, skip_levels,
}
use scpi_parser.Lexer.Separator.{white_space, is_eos, new_line, semicolon_token, one_character}
use scpi_parser.Lexer.{
  unknown, skip_if, skip_from, skip_star, skip_colon, skip_program_mnemonic, skip_mnemonic, skip_ws,
  skip_chr,
}
use scpi_parser.Message.{by_none, detect_data, detect_end, detect_program_message_unit}

-- The unit of nothing.
pub detect_program_message_unit-nil :
    ((detect_program_message_unit []).result ≡ 0)
    × ((detect_program_message_unit []).header.type ≡ unknown)
    × ((detect_program_message_unit []).termination ≡ by_none)
unfolding detect_program_message_unit detect_data detect_end program_header common compound
    skip_common_header skip_compound_header query_or skip_levels white_space is_eos new_line
    semicolon_token one_character skip_if skip_from skip_star skip_colon skip_program_mnemonic
    skip_mnemonic skip_ws skip_chr
detect_program_message_unit-nil = (refl, refl, refl)
