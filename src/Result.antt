-- ===== src/Result.antt =====
-- libscpi/src/parser.c: what the library writes to the output of an instrument, and the functions
-- that handlers call to write one result. Data that the code gives by a pointer and a length is a
-- list of that many bytes, and the pointer is not null. Results in floating point are left out.
pub mod Output
pub mod Replies
pub mod Quote
pub mod RoundTrip
pub mod Tests
use scpi_parser.Base.{
  ℕ, zero, suc, ◌+◌, ◌-◌, ◌%◌, ◌^◌, Bool, true, false, not, Option, none, some, [], ◌∷◌, ◌==◌, ltb,
  if◌then◌else◌, length, take, drop, Bytes, negsuc,
}
use scpi_parser.Context.{Context, wrote, flushed, emit}
use scpi_parser.ErrorQueue.{strnlen, error_push}
use scpi_parser.Format.{uint32_to_str_base_sign, uint64_to_str_base_sign, uint32_to_str_base}
use scpi_parser.Pattern.{strnpbrk}

-- A number of bytes written, and the context behind it.
abbrev pub Written : Type 0
Written = ℕ × Context

-- `result += f(context, ...)`
infixl 20 ◌+=◌
abbrev pub ◌+=◌ : Written → (Context → Written) → Written
r += f = let (n, c) = f r.1 in (r.0 + n, c)

unfoldable pub write_data : Bytes → Context → Written
write_data bytes c =
    if ltb 0 (length bytes) then (c.interface.write_result bytes, emit (wrote bytes) c) else (0, c)

-- Its result is never used.
unfoldable pub flush_data : Context → Context
flush_data c = if c.interface.has_flush then emit flushed c else c

unfoldable pub write_delimiter : Context → Written
write_delimiter c = if ltb 0 c.output_count then write_data (b',' ∷ []) c else (0, c)

-- SCPI_LINE_ENDING
abbrev pub line_ending : Bytes
line_ending = b'\r' ∷ b'\n' ∷ []

unfoldable pub write_new_line : Context → Written
write_new_line c =
    let (len, c') = write_data line_ending c in
    if not c.first_output then (len, flush_data c') else (0, c)

unfoldable pub write_semicolon : Context → Written
write_semicolon c = if ltb 0 c.output_count then write_data (b';' ∷ []) c else (0, c)

-- `context->output_count++`
abbrev pub count_output : Written → Written
count_output r = (r.0, record r.1 { output_count = r.1.output_count + 1 })

unfoldable pub result_characters : Bytes → Context → Written
result_characters bytes c = count_output ((write_delimiter c) += write_data bytes)

-- No bytes are written for the base ten, where the prefix is null.
unfoldable pub base_prefix : ℕ → Bytes
base_prefix base =
    if base == 2
    then b'#' ∷ b'B' ∷ []
    else if base == 8
    then b'#' ∷ b'Q' ∷ []
    else if base == 16
    then b'#' ∷ b'H' ∷ []
    else []

unfoldable pub result_uint32_base_sign : ℕ → ℕ → Bool → Context → Written
result_uint32_base_sign val base sign c = count_output (
    (write_delimiter c)
    += write_data (base_prefix base)
    += write_data (uint32_to_str_base_sign val 33 base sign))

unfoldable pub result_uint64_base_sign : ℕ → ℕ → Bool → Context → Written
result_uint64_base_sign val base sign c = count_output (
    (write_delimiter c)
    += write_data (base_prefix base)
    += write_data (uint64_to_str_base_sign val 65 base sign))

-- A signed value is given by the pattern of its bits.
unfoldable pub result_int32 : ℕ → Context → Written
result_int32 val = result_uint32_base_sign val 10 true

unfoldable pub result_uint32_base : ℕ → ℕ → Context → Written
result_uint32_base val base = result_uint32_base_sign val base false

unfoldable pub result_int64 : ℕ → Context → Written
result_int64 val = result_uint64_base_sign val 10 true

unfoldable pub result_uint64_base : ℕ → ℕ → Context → Written
result_uint64_base val base = result_uint64_base_sign val base false

unfoldable pub result_bool : Bool → Context → Written
result_bool val = result_uint32_base_sign (if val then 1 else 0) 10 false

-- The characters before the zero that ends a string, which may be left out.
abbrev pub strlen : Bytes → ℕ
strlen s = strnlen s (length s)

-- The loop over the quotes in a text, and what is written behind it; with the fuel, one round more
-- than there are characters, nothing is left out.
unfoldable pub write_quoted : ℕ → Bytes → Context → Written
write_quoted zero bytes c = (0, c)
write_quoted (suc fuel) bytes c = elim (strnpbrk bytes (length bytes) (b'"' ∷ [])) [
  | none ↦ write_data bytes c
  | some i ↦
      write_data (take (suc i) bytes) c
      += write_data (b'"' ∷ [])
      += write_quoted fuel (drop (suc i) bytes)
]

unfoldable pub result_text : Bytes → Context → Written
result_text bytes c = count_output (
    (write_delimiter c)
    += write_data (b'"' ∷ [])
    += write_quoted (suc (strlen bytes)) (take (strlen bytes) bytes)
    += write_data (b'"' ∷ []))

-- `#`, the number of digits, and the length as an `uint32_t`. A length of ten digits fills the
-- buffer without a zero behind it; the text is taken to end there.
unfoldable pub block_header : ℕ → Bytes
block_header len =
    let digits = uint32_to_str_base (len % 2 ^ 32) 10 10 in
    b'#' ∷ (length digits + b'0') % 2 ^ 8 ∷ digits

unfoldable pub result_arbitrary_block_header : ℕ → Context → Written
result_arbitrary_block_header len c =
    (write_delimiter (record c { arbitrary_remaining = len })) += write_data (block_header len)

unfoldable pub result_arbitrary_block_data : Bytes → Context → Written
result_arbitrary_block_data bytes c =
    let left = c.arbitrary_remaining - length bytes in
    let c1 = record c { arbitrary_remaining = left } in
    let c2 = record c1 { output_count = c.output_count + 1 } in
    if ltb c.arbitrary_remaining (length bytes)
    then (0, error_push (negsuc 309) c)
    else write_data bytes (if left == 0 then c2 else c1)

unfoldable pub result_arbitrary_block : Bytes → Context → Written
result_arbitrary_block bytes c =
    result_arbitrary_block_header (length bytes) c += result_arbitrary_block_data bytes
