-- ===== src/Match/Tests.antt =====
-- Commands matched with patterns, as in libscpi/test/test_scpi_utils.c, and a reader of digits for
-- `strtol`.
use scpi_parser.Base.{
  ℕ, ◌≡◌, refl, true, false, [], ◌∷◌, length, List, Bytes, some, pos, ◌+◌, ◌*◌, ◌-◌, if◌then◌else◌,
  ℤ, Bool, arith,
}
use scpi_parser.Lexer.{isdigit}
use scpi_parser.Match.Enough.{match_levels_enough}
use scpi_parser.Match.{Matching, match_command, match_levels}

abbrev digits_from : ℕ → ℕ → Bytes → ℕ × ℤ
digits_from used n [] = (used, pos n)
digits_from used n (c ∷ cs) =
    let rest = digits_from (used + 1) (n * 10 + (c - b'0')) cs in
    if isdigit c then rest else (used, pos n)

abbrev pub strtol : Bytes → ℕ × ℤ
strtol = digits_from 0 0

abbrev matches : Bytes → Bytes → Bool
matches pattern cmd = (match_command strtol pattern cmd (length cmd) [] (pos 0)).0

-- `ABc`, `:ab`, `AB` and `AC`
query_test : matches (b'A' ∷ b'B' ∷ b'c' ∷ b'?' ∷ []) (b':' ∷ b'a' ∷ b'b' ∷ b'?' ∷ []) ≡ true
unfolding match_command scpi_parser.ErrorQueue.strnlen scpi_parser.Match.match_from_start
    scpi_parser.Match.match_levels scpi_parser.Match.match_level scpi_parser.Pattern.match_pattern
    scpi_parser.Pattern.pattern_separator_pos scpi_parser.Pattern.strnpbrk
    scpi_parser.Pattern.compare_str scpi_parser.Pattern.cmd_separator_pos
    scpi_parser.Pattern.pattern_separator_short_pos scpi_parser.Pattern.islower
    scpi_parser.Pattern.same_caseless scpi_parser.Pattern.tolower scpi_parser.Match.matched
query_test = refl

not_query_test : matches (b'A' ∷ b'B' ∷ b'c' ∷ b'?' ∷ []) (b'a' ∷ b'b' ∷ []) ≡ false
unfolding match_command scpi_parser.ErrorQueue.strnlen
not_query_test = refl

-- `[:A]:B` matches `B` and `A:B`, but not `A`.
optional_test : matches (b'[' ∷ b':' ∷ b'A' ∷ b']' ∷ b':' ∷ b'B' ∷ []) (b'b' ∷ []) ≡ true
unfolding match_command scpi_parser.ErrorQueue.strnlen scpi_parser.Match.match_from_start
    scpi_parser.Match.match_levels scpi_parser.Match.match_level scpi_parser.Pattern.match_pattern
    scpi_parser.Pattern.pattern_separator_pos scpi_parser.Pattern.strnpbrk
    scpi_parser.Pattern.compare_str scpi_parser.Pattern.cmd_separator_pos
    scpi_parser.Pattern.same_caseless scpi_parser.Pattern.tolower
    scpi_parser.Pattern.pattern_separator_short_pos scpi_parser.Pattern.islower
    scpi_parser.Match.unmatched scpi_parser.Match.matched
optional_test = refl

whole_test : matches (b'[' ∷ b':' ∷ b'A' ∷ b']' ∷ b':' ∷ b'B' ∷ []) (b'A' ∷ b':' ∷ b'b' ∷ []) ≡ true
unfolding match_command scpi_parser.ErrorQueue.strnlen scpi_parser.Match.match_from_start
    scpi_parser.Match.match_levels scpi_parser.Match.match_level scpi_parser.Pattern.match_pattern
    scpi_parser.Pattern.pattern_separator_pos scpi_parser.Pattern.strnpbrk
    scpi_parser.Pattern.compare_str scpi_parser.Pattern.cmd_separator_pos
    scpi_parser.Pattern.same_caseless scpi_parser.Pattern.tolower scpi_parser.Match.matched
whole_test = refl

missing_test : matches (b'[' ∷ b':' ∷ b'A' ∷ b']' ∷ b':' ∷ b'B' ∷ []) (b'A' ∷ []) ≡ false
unfolding match_command scpi_parser.ErrorQueue.strnlen scpi_parser.Match.match_from_start
    scpi_parser.Match.match_levels scpi_parser.Match.match_level scpi_parser.Pattern.match_pattern
    scpi_parser.Pattern.pattern_separator_pos scpi_parser.Pattern.strnpbrk
    scpi_parser.Pattern.compare_str scpi_parser.Pattern.cmd_separator_pos
    scpi_parser.Pattern.same_caseless scpi_parser.Pattern.tolower scpi_parser.Match.matched
    scpi_parser.Match.all_optional
missing_test = refl

-- `A[:B]` matches `A`.
last_optional_test : matches (b'A' ∷ b'[' ∷ b':' ∷ b'B' ∷ b']' ∷ []) (b'A' ∷ []) ≡ true
unfolding match_command scpi_parser.ErrorQueue.strnlen scpi_parser.Match.match_from_start
    scpi_parser.Match.match_levels scpi_parser.Match.match_level scpi_parser.Pattern.match_pattern
    scpi_parser.Pattern.pattern_separator_pos scpi_parser.Pattern.strnpbrk
    scpi_parser.Pattern.compare_str scpi_parser.Pattern.cmd_separator_pos
    scpi_parser.Pattern.same_caseless scpi_parser.Pattern.tolower scpi_parser.Match.matched
    scpi_parser.Match.all_optional
last_optional_test = refl

-- `A#:B#` and `A12:B` give 12 and the default.
numbers_test :
    match_command strtol
      (b'A' ∷ b'#' ∷ b':' ∷ b'B' ∷ b'#' ∷ [])
      (b'A' ∷ b'1' ∷ b'2' ∷ b':' ∷ b'B' ∷ [])
      5
      (pos 0 ∷ pos 0 ∷ [])
      (pos 7)
    ≡ (true, pos 12 ∷ pos 7 ∷ [])
unfolding match_command scpi_parser.ErrorQueue.strnlen scpi_parser.Match.match_from_start
    scpi_parser.Match.match_levels scpi_parser.Match.match_level scpi_parser.Pattern.match_pattern
    scpi_parser.Pattern.pattern_separator_pos scpi_parser.Pattern.strnpbrk
    scpi_parser.Pattern.compare_str_and_num scpi_parser.Pattern.cmd_separator_pos
    scpi_parser.Pattern.same_caseless scpi_parser.Pattern.tolower isdigit scpi_parser.Match.matched
    scpi_parser.Pattern.to_int32
numbers_test = refl

abbrev one_level : Matching
one_level = record {
  pattern = b'A' ∷ b'B' ∷ [];
  pattern_len = 2;
  cmd = b'a' ∷ b'b' ∷ [];
  cmd_len = 2;
  brackets = pos 0;
  numbers = [];
  numbers_idx = 0;
}

match_levels_enough_example :
    (r : Bool × List ℤ) × (match_levels 3 strtol (pos 0) one_level ≡ some r)
match_levels_enough_example = match_levels_enough 3 strtol (pos 0) one_level (omega arith)
