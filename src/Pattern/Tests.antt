-- ===== src/Pattern/Tests.antt =====
-- Tests of the matching of patterns, and the theorem at a concrete pattern.
use scpi_parser.Base.{ℕ, ◌≡◌, ◌↔◌, ◌⊎◌, refl, true, false, [], ◌∷◌, Bytes, ℤ, pos}
use scpi_parser.Lexer.{isdigit}
use scpi_parser.Pattern.{
  tolower, islower, same_caseless, compare_str, compare_str_and_num, all_digits,
  pattern_separator_short_pos, match_pattern,
}
use scpi_parser.Pattern.Form.{lowered, short_form, match_pattern-lowered}

-- A C library that reads no number.
abbrev no_number : Bytes → ℕ × ℤ
no_number s = (0, pos 0)

-- `MEASure`, and `meas`
abbrev measure : Bytes
measure = b'M' ∷ b'E' ∷ b'A' ∷ b'S' ∷ b'u' ∷ b'r' ∷ b'e' ∷ []

abbrev meas : Bytes
meas = b'm' ∷ b'e' ∷ b'a' ∷ b's' ∷ []

short_test : (match_pattern no_number measure 7 meas 4 false).0 ≡ true
unfolding match_pattern compare_str pattern_separator_short_pos islower same_caseless tolower
short_test = refl

between_test :
    (match_pattern no_number measure 7 (b'm' ∷ b'e' ∷ b'a' ∷ b's' ∷ b'u' ∷ []) 5 false).0 ≡ false
unfolding match_pattern compare_str pattern_separator_short_pos islower
between_test = refl

-- `OUT#` and `out12`
number_test :
    (match_pattern no_number
      (b'O' ∷ b'U' ∷ b'T' ∷ b'#' ∷ [])
      4
      (b'o' ∷ b'u' ∷ b't' ∷ b'1' ∷ b'2' ∷ [])
      5
      false).0
    ≡ true
unfolding match_pattern compare_str_and_num same_caseless tolower all_digits isdigit
number_test = refl

match_pattern-lowered_example :
    ((match_pattern no_number measure 7 meas 4 false).0 ≡ true)
    ↔ ((lowered measure ≡ lowered meas) ⊎ (lowered (short_form measure) ≡ lowered meas))
match_pattern-lowered_example = match_pattern-lowered no_number measure meas false refl refl
