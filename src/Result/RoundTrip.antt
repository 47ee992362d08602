-- ===== src/Result/RoundTrip.antt =====
-- libscpi/src/parser.c: texts and blocks that an instrument writes, read again by the lexer.
use scpi_parser.Base.{
  ℕ, ◌+◌, ◌%◌, ◌^◌, ◌<◌, ◌≤◌, ◌≡◌, refl, ap, ◌∙◌, true, false, [], ◌∷◌, ◌++◌, append_assoc, ◌==◌,
  length, take, drop-append, length-append, Bytes, arith,
}
use scpi_parser.Context.{Context}
use scpi_parser.Format.{uint32_to_str_base}
use scpi_parser.Format.Decimal.{Digits, uint32_to_str_base-Digits}
use scpi_parser.Lexer.{double_quote, arbitrary_block, next_is, token}
use scpi_parser.Lexer.Munch.{all, passed}
use scpi_parser.Lexer.Block.{block_data}
use scpi_parser.Lexer.Block.Read.{block, block_data-whole}
use scpi_parser.Lexer.Quoted.{isascii7bit, string_data}
use scpi_parser.Lexer.Quoted.Text.{double, doubled, string_data-doubled}
use scpi_parser.Result.Output.{output}
use scpi_parser.Result.Replies.{Item, text, rendered, write_item-Replies, write_item}
use scpi_parser.Result.{result_text, result_arbitrary_block, block_header, strlen}

-- What the first result of a command adds to the output.
pub first_reply :
    (i : Item) (c : Context)
    → c.events ≡ []
    → c.output_count ≡ 0
    → output (write_item i c).1.events ≡ rendered i
first_reply i c e z = (write_item-Replies i c).written ∙ rw (e, z) refl

-- The text that SCPI_ResultText writes first is one string in double quotes, if it is ASCII.
pub result_text-string_data :
    (s tail : Bytes) (c : Context)
    → c.events ≡ []
    → c.output_count ≡ 0
    → all isascii7bit (take (strlen s) s) ≡ true
    → next_is (λ b. b == b'"') tail ≡ false
    → string_data (record { at = 0; rest = output (result_text s c).1.events ++ tail })
      ≡ passed double_quote 0 (length (doubled b'"' (take (strlen s) s)) + 2) tail
result_text-string_data s tail c e z a t =
    ap (λ o. string_data (record { at = 0; rest = o ++ tail })) (first_reply (text s) c e z)
    ∙ ap (λ o. string_data (record { at = 0; rest = b'"' ∷ o }))
        (append_assoc (doubled b'"' (take (strlen s) s)) (b'"' ∷ []) tail)
    ∙ string_data-doubled double 0 (take (strlen s) s) tail a t

-- The digits of the length of a block.
abbrev length_digits : Bytes → Bytes
length_digits s = uint32_to_str_base (length s) 10 10

within_word : (n : ℕ) → n < 10 ^ 9 → n % 2 ^ 32 ≡ n
within_word n h = omega arith

count_char : (k : ℕ) → k < 10 → (k + b'0') % 2 ^ 8 ≡ b'0' + k
count_char k h = omega arith

header-block :
    (s tail : Bytes)
    → length s < 10 ^ 9
    → block_header (length s) ++ s ++ tail ≡ block (length_digits s) (s ++ tail)
unfolding block_header
header-block s tail h =
    rw (within_word (length s) h, count_char (length (length_digits s)) ds.few_digits)
      (ap (λ o. b'#' ∷ (b'0' + length (length_digits s)) ∷ o)
        (append_assoc (length_digits s) s tail))
  where
    ds : Digits (length s) (length_digits s)
    ds = uint32_to_str_base-Digits (length s) h

at_most_all : (s tail : Bytes) → length s ≤ length (s ++ tail)
at_most_all s tail = omega (arith, length-append s tail)

-- The block that SCPI_ResultArbitraryBlock writes first, of fewer than 10 ^ 9 bytes, is one token
-- over exactly these bytes, and the lexer stops right behind it.
pub result_arbitrary_block-block_data :
    (s tail : Bytes) (c : Context)
    → c.events ≡ []
    → c.output_count ≡ 0
    → length s < 10 ^ 9
    → block_data (record { at = 0; rest = output (result_arbitrary_block s c).1.events ++ tail })
      ≡ record {
        result = 2 + length (length_digits s) + length s;
        token = token arbitrary_block (2 + length (length_digits s)) (length s);
        state = record { at = 2 + length (length_digits s) + length s; rest = tail };
      }
result_arbitrary_block-block_data s tail c e z h =
    ap (λ o. block_data (record { at = 0; rest = o ++ tail })) (first_reply (Item.block s) c e z)
    ∙ ap (λ o. block_data (record { at = 0; rest = o })) (header-block s tail h)
    ∙ block_data-whole 0 (length_digits s) (s ++ tail) ds.are_digits ds.some_digits ds.few_digits
        (omega (arith, ds.value, at_most_all s tail))
    ∙ rw (ds.value, drop-append s tail) refl
  where
    ds : Digits (length s) (length_digits s)
    ds = uint32_to_str_base-Digits (length s) h
