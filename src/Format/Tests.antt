-- ===== src/Format/Tests.antt =====
-- Tests of the texts of integers.
use scpi_parser.Format.Text.{
  bits_32, to_str_base_sign-number, to_str_base_sign-signed, signed_number,
}
use scpi_parser.Format.Value.{number_in}
use scpi_parser.Base.{negsuc, true, ◌≤◌, ◌^◌, ◌≡◌, refl, arith, false, [], ◌∷◌, length}
use scpi_parser.Format.{
  width_32, int32_to_str, uint32_to_str_base, uint32_to_str_base_sign, to_str_base_sign,
  uint64_to_str_base, uint64_to_str_base_sign, first_divisor, skip_zeros, put_digits,
}
use scpi_parser.Format.Room.{
  base_16, base_10, length-to_str_base_sign, put_digits_enough, skip_zeros_enough,
}

minus_test : int32_to_str 0xffffffd6 12 ≡ b'-' ∷ b'4' ∷ b'2' ∷ []
unfolding int32_to_str uint32_to_str_base_sign to_str_base_sign first_divisor skip_zeros put_digits
minus_test = refl

octal_test : uint32_to_str_base 100 12 8 ≡ b'1' ∷ b'4' ∷ b'4' ∷ []
unfolding uint32_to_str_base uint32_to_str_base_sign to_str_base_sign first_divisor skip_zeros
    put_digits
octal_test = refl

hex_test : uint64_to_str_base 0xabc0 12 16 ≡ b'A' ∷ b'B' ∷ b'C' ∷ b'0' ∷ []
unfolding uint64_to_str_base uint64_to_str_base_sign to_str_base_sign first_divisor skip_zeros
    put_digits
hex_test = refl

length-to_str_base_sign_example : length (to_str_base_sign width_32 123456 3 10 false) ≤ 3
length-to_str_base_sign_example = length-to_str_base_sign width_32 123456 3 10 false

put_digits_enough_test :
    put_digits 31 12 10 1000000000 1234567890 ≡ put_digits 64 12 10 1000000000 1234567890
put_digits_enough_test =
    put_digits_enough 30 31 64 12 1000000000 1234567890 base_10 (omega arith) (omega arith)
      (omega arith)

skip_zeros_enough_test : skip_zeros 10 10 (10 ^ 9) 42 ≡ skip_zeros 64 10 (10 ^ 9) 42
skip_zeros_enough_test =
    skip_zeros_enough 9 10 64 42 base_10 (omega arith) (omega arith) (omega arith)

to_str_base_sign-number_example :
    number_in 16 0 (to_str_base_sign width_32 0xabc 33 16 false) ≡ 0xabc
to_str_base_sign-number_example =
    to_str_base_sign-number bits_32 base_16 0xabc 33 (omega arith) (omega arith)

to_str_base_sign-signed_example :
    signed_number (to_str_base_sign width_32 0xffffffd6 33 10 true) ≡ negsuc 41
to_str_base_sign-signed_example =
    to_str_base_sign-signed bits_32 0xffffffd6 33 (omega arith) (omega arith)
