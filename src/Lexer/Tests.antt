-- ===== src/Lexer/Tests.antt =====
-- Tests of the lexer, and the theorems at concrete messages.
use scpi_parser.Base.{◌<◌, ◌^◌, ◌≡◌, refl, inr, true, some, [], ◌∷◌, Bytes, arith}
use scpi_parser.Lexer.{
  LexState, Lexed, arbitrary_block, decimal, unknown, hexnum, incomplete_compound_header,
  double_quote, single_quote, common_query_header, compound_query_header, skip_from, token,
  is_mnemonic, isalpha, isalnum, isdigit, isplusmn, isws, is_e, isxdigit, is_h, is_q, is_b,
}
use scpi_parser.Lexer.Span.{IsLexed, Follows}
use scpi_parser.Lexer.Munch.{passed}
use scpi_parser.Lexer.Recognise.{an_expression, recognise, recognise-IsLexed}
use scpi_parser.Lexer.Number.{decimal_number, nondecimal_number}
use scpi_parser.Lexer.Header.{Skip, program_header, skip_levels, skip_ok}
use scpi_parser.Lexer.Header.Compound.{program_header-levels}
use scpi_parser.Lexer.Header.Outcome.{skip_levels_enough}
use scpi_parser.Lexer.Quoted.{string_data, isascii7bit}
use scpi_parser.Lexer.Quoted.Text.{string_data-doubled, double}
use scpi_parser.Lexer.Block.{block_data, block_length}
use scpi_parser.Lexer.Block.Read.{block_data-whole, block_data-partial, block_length_bound}

abbrev at_start : Bytes → LexState
at_start bs = record { at = 0; rest = bs }

-- `-1.5E 3,`
abbrev number_text : Bytes
number_text = b'-' ∷ b'1' ∷ b'.' ∷ b'5' ∷ b'E' ∷ b' ' ∷ b'3' ∷ b',' ∷ []

decimal_test : decimal_number (at_start number_text) ≡ passed decimal 0 7 (b',' ∷ [])
unfolding decimal_number scpi_parser.Lexer.skip_if skip_from isplusmn isdigit isws is_e
decimal_test = refl

-- `1 V`: the space and the unit are not part of the number.
decimal_unit_test :
    decimal_number (at_start (b'1' ∷ b' ' ∷ b'V' ∷ [])) ≡ passed decimal 0 1 (b' ' ∷ b'V' ∷ [])
unfolding decimal_number scpi_parser.Lexer.skip_if skip_from isplusmn isdigit isws is_e
decimal_unit_test = refl

-- `#H1f`
hex_test :
    nondecimal_number (at_start (b'#' ∷ b'H' ∷ b'1' ∷ b'f' ∷ []))
    ≡ record { result = 4; token = token hexnum 2 2; state = record { at = 4; rest = [] } }
unfolding nondecimal_number scpi_parser.Lexer.skip_if is_h skip_from isxdigit
hex_test = refl

-- `*IDN?`
common_test :
    program_header (at_start (b'*' ∷ b'I' ∷ b'D' ∷ b'N' ∷ b'?' ∷ []))
    ≡ passed common_query_header 0 5 []
unfolding program_header scpi_parser.Lexer.Header.common scpi_parser.Lexer.Header.skip_common_header
    scpi_parser.Lexer.skip_star scpi_parser.Lexer.skip_if scpi_parser.Lexer.skip_program_mnemonic
    isalpha skip_from is_mnemonic scpi_parser.Lexer.Header.query_or scpi_parser.Lexer.skip_chr
common_test = refl

-- `SYST:`
incomplete_test :
    program_header (at_start (b'S' ∷ b'Y' ∷ b'S' ∷ b'T' ∷ b':' ∷ []))
    ≡ passed incomplete_compound_header 0 5 []
unfolding program_header scpi_parser.Lexer.Header.common scpi_parser.Lexer.Header.skip_common_header
    scpi_parser.Lexer.skip_star scpi_parser.Lexer.skip_if scpi_parser.Lexer.Header.compound
    scpi_parser.Lexer.Header.skip_compound_header scpi_parser.Lexer.skip_program_mnemonic
    scpi_parser.Lexer.skip_colon isalpha skip_from is_mnemonic skip_levels
incomplete_test = refl

-- `"a"`, the closing quote missing
open_string_test :
    string_data (at_start (b'"' ∷ b'a' ∷ []))
    ≡ record { result = 0; token = token unknown 0 0; state = at_start (b'"' ∷ b'a' ∷ []) }
unfolding string_data scpi_parser.Lexer.skip_if
open_string_test = refl

abbrev expression_text : Bytes
expression_text = b'(' ∷ b'1' ∷ b')' ∷ b'x' ∷ []

recognise-IsLexed_example :
    IsLexed (at_start expression_text) (recognise (an_expression 4) (at_start expression_text))
recognise-IsLexed_example =
    recognise-IsLexed (an_expression 4) (at_start expression_text) (inr refl)

-- `:SYST:ERR? 1`
program_header-levels_example :
    program_header (
      at_start
        (b':' ∷ b'S' ∷ b'Y' ∷ b'S' ∷ b'T' ∷ b':' ∷ b'E' ∷ b'R' ∷ b'R' ∷ b'?' ∷ b' ' ∷ b'1' ∷ []))
    ≡ passed compound_query_header 0 10 (b' ' ∷ b'1' ∷ [])
unfolding isalpha is_mnemonic
program_header-levels_example =
    program_header-levels true true 0 (b'S' ∷ b'Y' ∷ b'S' ∷ b'T' ∷ [])
      ((b'E' ∷ b'R' ∷ b'R' ∷ []) ∷ []) (b' ' ∷ b'1' ∷ []) refl refl refl

-- `:A:B`
skip_levels_enough_test :
    (r : Skip × LexState) × (skip_levels 5 (at_start (b':' ∷ b'A' ∷ b':' ∷ b'B' ∷ [])) ≡ some r)
    × Follows (at_start (b':' ∷ b'A' ∷ b':' ∷ b'B' ∷ [])) r.1
skip_levels_enough_test =
    skip_levels_enough 5 (at_start (b':' ∷ b'A' ∷ b':' ∷ b'B' ∷ [])) (omega arith)

-- `"a""b",`
string_data-doubled_example :
    string_data (at_start (b'"' ∷ b'a' ∷ b'"' ∷ b'"' ∷ b'b' ∷ b'"' ∷ b',' ∷ []))
    ≡ passed double_quote 0 6 (b',' ∷ [])
unfolding isascii7bit
string_data-doubled_example =
    string_data-doubled double 0 (b'a' ∷ b'"' ∷ b'b' ∷ []) (b',' ∷ []) refl refl

-- `#13abc,`
block_data-whole_example :
    block_data (at_start (b'#' ∷ b'1' ∷ b'3' ∷ b'a' ∷ b'b' ∷ b'c' ∷ b',' ∷ [])) ≡ record {
      result = 6;
      token = token arbitrary_block 3 3;
      state = record { at = 6; rest = b',' ∷ [] };
    }
unfolding isdigit
block_data-whole_example =
    block_data-whole 0 (b'3' ∷ []) (b'a' ∷ b'b' ∷ b'c' ∷ b',' ∷ []) refl (omega arith) (omega arith)
      (omega arith)

-- `#13ab`
block_data-partial_test :
    block_data (at_start (b'#' ∷ b'1' ∷ b'3' ∷ b'a' ∷ b'b' ∷ []))
    ≡ record { result = 0; token = token unknown 0 0; state = record { at = 5; rest = [] } }
unfolding isdigit
block_data-partial_test =
    block_data-partial 0 (b'3' ∷ []) (b'a' ∷ b'b' ∷ []) refl (omega arith) (omega arith)
      (omega arith)

block_length_bound_test :
    ((block_length 2 0 (at_start (b'4' ∷ b'2' ∷ []))).1 < 10 ^ 9) × (10 ^ 9 < 2 ^ 31)
block_length_bound_test = block_length_bound 2 (at_start (b'4' ∷ b'2' ∷ [])) (omega arith)
