-- ===== src/Param/Tests.antt =====
-- Parameters of a command whose data is `42,"a"`, with a reader of digits for the C library.
use scpi_parser.Base.{ℕ, ◌≡◌, ◌≤◌, refl, true, [], ◌∷◌, ◌++◌, length, Bytes, arith}
use scpi_parser.Dispatch.Tests.{device}
use scpi_parser.Lexer.Quoted.{string_data, isascii7bit}
use scpi_parser.ErrorQueue.{strnlen}
use scpi_parser.Match.Tests.{strtol}
use scpi_parser.Param.Outcome.{Read, parameter-Read}
use scpi_parser.Param.Text.{copy_text, text_of}
use scpi_parser.Param.Text.Copied.{length-copy_text, text_of-result_text}
use scpi_parser.Param.{Numbers, parameter}
use scpi_parser.Result.Output.{output}
use scpi_parser.Result.Tests.{quiet}
use scpi_parser.Result.{result_text}
use scpi_parser.Session.{Session}

abbrev pub numbers : Numbers
numbers = record {
  strtol = λ base. strtol;
  strtoul = λ base s. ((strtol s).0, 0);
  strtoll = λ base. strtol;
  strtoull = λ base s. ((strtol s).0, 0);
}

abbrev pub with_data : Bytes → ℕ → ℕ → Session
with_data bytes at count = record device {
  input_count = count;
  param_list = record {
    cmd = 0;
    lex_state = record { at = at; rest = bytes };
    beyond = [];
    cmd_raw = [];
    cmd_raw_length = 0;
  };
}

abbrev two_data : Session
two_data = with_data (b'4' ∷ b'2' ∷ b',' ∷ b'"' ∷ b'a' ∷ b'"' ∷ []) 4 0

parameter-Read_example : Read true two_data (parameter true two_data)
parameter-Read_example = parameter-Read true two_data

-- `""""""` and `""""""""`, two and three quotes, into a buffer of four characters: the third is
-- left out.
short_test :
    copy_text 6 b'"' 1 6 4 (b'"' ∷ b'"' ∷ b'"' ∷ b'"' ∷ b'"' ∷ b'"' ∷ []) ≡ b'"' ∷ b'"' ∷ []
unfolding copy_text
short_test = refl

long_test :
    copy_text 8 b'"' 1 8 4 (b'"' ∷ b'"' ∷ b'"' ∷ b'"' ∷ b'"' ∷ b'"' ∷ b'"' ∷ b'"' ∷ [])
    ≡ b'"' ∷ b'"' ∷ []
unfolding copy_text
long_test = refl

length-copy_text_example :
    length (copy_text 6 b'"' 1 6 4 (b'"' ∷ b'a' ∷ b'b' ∷ b'c' ∷ b'd' ∷ b'"' ∷ [])) ≤ 3
length-copy_text_example =
    length-copy_text 6 b'"' 1 6 4 (b'"' ∷ b'a' ∷ b'b' ∷ b'c' ∷ b'd' ∷ b'"' ∷ [])

text_of-result_text_example :
    text_of 9 (
      true,
      record {
        token =
            (string_data (record {
              at = 0;
              rest = output (result_text (b'a' ∷ b'"' ∷ []) quiet).1.events ++ [];
            })).token;
        bytes = output (result_text (b'a' ∷ b'"' ∷ []) quiet).1.events ++ [];
      },
      device,
    )
    ≡ (true, b'a' ∷ b'"' ∷ [], device)
unfolding strnlen isascii7bit
text_of-result_text_example =
    text_of-result_text (b'a' ∷ b'"' ∷ []) [] 9 quiet device refl refl refl refl (omega arith)
