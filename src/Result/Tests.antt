-- ===== src/Result/Tests.antt =====
-- Results on small inputs.
use scpi_parser.Base.{◌≡◌, refl, true, false, [], ◌∷◌, length, ◌++◌, arith}
use scpi_parser.Context.{Context, wrote}
use scpi_parser.ErrorQueue.{strnlen}
use scpi_parser.Lexer.{double_quote, arbitrary_block, token}
use scpi_parser.Lexer.Block.{block_data}
use scpi_parser.Lexer.Munch.{passed}
use scpi_parser.Lexer.Quoted.{isascii7bit, string_data}
use scpi_parser.Result.Output.{output}
use scpi_parser.Result.Replies.{number_32, text, write_items, joined, write_items-joined}
use scpi_parser.Result.RoundTrip.{result_text-string_data, result_arbitrary_block-block_data}
use scpi_parser.Fifo.Queue.{no_error}
use scpi_parser.Fifo.{fifo_init}
use scpi_parser.Result.{
  Written, ◌+=◌, result_text, result_int32, result_arbitrary_block, result_uint32_base,
}

abbrev pub quiet : Context
quiet = record {
  interface = record {
    has_error = true;
    has_control = true;
    has_flush = true;
    has_reset = true;
    write_result = length;
  };
  output_count = 0;
  first_output = true;
  cmd_error = false;
  arbitrary_remaining = 0;
  error_queue = fifo_init (no_error ∷ no_error ∷ []) 2;
  heap = record { supply = []; allocated = 0; freed = 0 };
  registers = record {
    stb = 0;
    sre = 0;
    esr = 0;
    ese = 0;
    oper = 0;
    opere = 0;
    operc = 0;
    ques = 0;
    quese = 0;
    quesc = 0;
  };
  events = [];
}

write_items-joined_example :
    (output (write_items (number_32 5 16 false ∷ text (b'a' ∷ []) ∷ []) quiet).events
      ≡ joined 0 (number_32 5 16 false ∷ text (b'a' ∷ []) ∷ []))
    × ((write_items (number_32 5 16 false ∷ text (b'a' ∷ []) ∷ []) quiet).output_count ≡ 2)
write_items-joined_example = write_items-joined (number_32 5 16 false ∷ text (b'a' ∷ []) ∷ []) quiet

result_text-string_data_example :
    string_data (record {
      at = 0;
      rest = output (result_text (b'a' ∷ b'"' ∷ []) quiet).1.events ++ b',' ∷ [];
    })
    ≡ passed double_quote 0 5 (b',' ∷ [])
unfolding strnlen isascii7bit
result_text-string_data_example =
    result_text-string_data (b'a' ∷ b'"' ∷ []) (b',' ∷ []) quiet refl refl refl refl

result_arbitrary_block-block_data_example :
    block_data (record {
      at = 0;
      rest = output (result_arbitrary_block (b'a' ∷ []) quiet).1.events ++ b';' ∷ [];
    })
    ≡ record {
      result = 4;
      token = token arbitrary_block 3 1;
      state = record { at = 4; rest = b';' ∷ [] };
    }
unfolding scpi_parser.Format.uint32_to_str_base scpi_parser.Format.uint32_to_str_base_sign
    scpi_parser.Format.to_str_base_sign scpi_parser.Format.put_digits scpi_parser.Format.skip_zeros
    scpi_parser.Format.first_divisor
result_arbitrary_block-block_data_example =
    result_arbitrary_block-block_data (b'a' ∷ []) (b';' ∷ []) quiet refl refl (omega arith)

text_test :
    (result_text (b'a' ∷ b'"' ∷ b'b' ∷ []) quiet).1.events
    ≡ wrote (b'"' ∷ [])
      ∷ wrote (b'a' ∷ b'"' ∷ [])
      ∷ wrote (b'"' ∷ [])
      ∷ wrote (b'b' ∷ [])
      ∷ wrote (b'"' ∷ [])
      ∷ []
unfolding result_text scpi_parser.Result.write_data scpi_parser.Result.write_quoted
    scpi_parser.Pattern.strnpbrk scpi_parser.ErrorQueue.strnlen scpi_parser.Result.write_delimiter
text_test = refl

int32_test :
    ((result_int32 5 quiet) += result_int32 0xfffffffe).1.events
    ≡ wrote (b'5' ∷ []) ∷ wrote (b',' ∷ []) ∷ wrote (b'-' ∷ b'2' ∷ []) ∷ []
unfolding result_int32 scpi_parser.Result.result_uint32_base_sign scpi_parser.Result.write_data
    scpi_parser.Format.uint32_to_str_base_sign scpi_parser.Format.to_str_base_sign
    scpi_parser.Format.first_divisor scpi_parser.Format.put_digits scpi_parser.Format.skip_zeros
    scpi_parser.Result.base_prefix scpi_parser.Result.write_delimiter
int32_test = refl

block_test :
    (result_arbitrary_block (b'a' ∷ b'b' ∷ []) quiet).1.events
    ≡ wrote (b'#' ∷ b'1' ∷ b'2' ∷ []) ∷ wrote (b'a' ∷ b'b' ∷ []) ∷ []
unfolding result_arbitrary_block scpi_parser.Result.result_arbitrary_block_data
    scpi_parser.Result.result_arbitrary_block_header scpi_parser.Result.write_data
    scpi_parser.Result.block_header scpi_parser.Format.uint32_to_str_base
    scpi_parser.Format.uint32_to_str_base_sign scpi_parser.Format.to_str_base_sign
    scpi_parser.Format.put_digits scpi_parser.Format.skip_zeros scpi_parser.Format.first_divisor
    scpi_parser.Result.write_delimiter
block_test = refl
