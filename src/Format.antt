-- ===== src/Format.antt =====
-- libscpi/src/utils.c: integers as texts. A result is the bytes written to `str` before the zero;
-- `len` is the size of the buffer.
pub mod Room
pub mod Value
pub mod Text
pub mod Decimal
mod Tests
use scpi_parser.Base.{
  ℕ, zero, suc, ◌+◌, ◌-◌, ◌*◌, ◌/◌, ◌%◌, ◌^◌, Bool, true, false, not, ◌&&◌, ◌||◌, List, [], ◌∷◌,
  ◌++◌, ◌==◌, leb, ltb, if◌then◌else◌, length, get_or, Bytes,
}

abbrev digits : Bytes
digits =
    b'0' ∷ b'1' ∷ b'2' ∷ b'3' ∷ b'4' ∷ b'5' ∷ b'6' ∷ b'7' ∷ b'8' ∷ b'9' ∷ b'A' ∷ b'B' ∷ b'C' ∷ b'D'
    ∷ b'E' ∷ b'F' ∷ []

-- What differs between the two widths: the modulus, and the first divisor for each base.
pub record Width : Type 0 where
  pub modulus : ℕ
  pub first_2 : ℕ
  pub first_8 : ℕ
  pub first_10 : ℕ
  pub first_16 : ℕ

abbrev pub width_32 : Width
width_32 = record {
  modulus = 2 ^ 32;
  first_2 = 0x80000000;
  first_8 = 0x40000000;
  first_10 = 1000000000;
  first_16 = 0x10000000;
}

abbrev pub width_64 : Width
width_64 = record {
  modulus = 2 ^ 64;
  first_2 = 0x8000000000000000;
  first_8 = 0x8000000000000000;
  first_10 = 10000000000000000000;
  first_16 = 0x1000000000000000;
}

-- The base that is used, and its first divisor.
unfoldable pub first_divisor : Width → ℕ → ℕ × ℕ
first_divisor w base =
    if base == 2
    then (2, w.first_2)
    else if base == 8
    then (8, w.first_8)
    else if base == 16
    then (16, w.first_16)
    else (10, w.first_10)

-- `while ((uval / x) == 0) x /= base;`
unfoldable pub skip_zeros : ℕ → ℕ → ℕ → ℕ → ℕ
skip_zeros zero base x uval = x
skip_zeros (suc fuel) base x uval =
    let rest = skip_zeros fuel base (x / base) uval in if uval / x == 0 then rest else x

-- The loop over the digits, with room for `room` more characters.
unfoldable pub put_digits : ℕ → ℕ → ℕ → ℕ → ℕ → Bytes
put_digits zero room base x uval = []
put_digits (suc fuel) zero base x uval = []
put_digits (suc fuel) (suc room) base x uval =
    let digit = uval / x in
    let rest = put_digits fuel room base (x / base) (uval - digit * x) in
    get_or digits digit 0 ∷ (if not (x / base == 0) then rest else [])

-- A character, if there is room for it.
abbrev pub put_char : ℕ → ℕ → Bytes
put_char zero c = []
put_char (suc room) c = c ∷ []

-- One round more than a number has binary digits.
abbrev pub digit_fuel : ℕ
digit_fuel = 65

unfoldable pub to_str_base_sign : Width → ℕ → ℕ → ℕ → Bool → Bytes
to_str_base_sign w val len base sign =
    let (b, x) = first_divisor w base in
    let negative = sign && leb (w.modulus / 2) val && (b == 10) in
    let uval = if negative then w.modulus - val else val in
    let minus = if negative then put_char len b'-' else [] in
    if val == 0
    then put_char len b'0'
    else minus ++ put_digits digit_fuel (len - length minus) b (skip_zeros digit_fuel b x uval) uval

unfoldable pub uint32_to_str_base_sign : ℕ → ℕ → ℕ → Bool → Bytes
uint32_to_str_base_sign = to_str_base_sign width_32

unfoldable pub uint64_to_str_base_sign : ℕ → ℕ → ℕ → Bool → Bytes
uint64_to_str_base_sign = to_str_base_sign width_64

-- `val` is the pattern of the bits of the signed number.
unfoldable pub int32_to_str : ℕ → ℕ → Bytes
int32_to_str val len = uint32_to_str_base_sign val len 10 true

unfoldable pub uint32_to_str_base : ℕ → ℕ → ℕ → Bytes
uint32_to_str_base val len base = uint32_to_str_base_sign val len base false

unfoldable pub int64_to_str : ℕ → ℕ → Bytes
int64_to_str val len = uint64_to_str_base_sign val len 10 true

unfoldable pub uint64_to_str_base : ℕ → ℕ → ℕ → Bytes
uint64_to_str_base val len base = uint64_to_str_base_sign val len base false
