-- ===== src/Match.antt =====
-- libscpi/src/utils.c: matchCommand, which goes through the levels of a pattern such as
-- `[:MEASure]:VOLTage#:DC?` and of a command. A string is its bytes from a pointer on. What the code
-- would read before the start of an empty string or behind the end of a pattern whose brackets are
-- not balanced is taken as a character of no meaning, or as the end of the match.
pub mod Enough
pub mod Tests
use scpi_parser.Base.{
  ℕ, zero, suc, ◌+◌, ◌-◌, Bool, true, false, not, ◌&&◌, Option, none, some, List, [], ◌==◌, ltb,
  if◌then◌else◌, length, get_or, set, drop, Bytes, ℤ, pos, negsuc, eqb_ℤ,
}
use scpi_parser.ErrorQueue.{strnlen}
use scpi_parser.Pattern.{pattern_separator_pos, cmd_separator_pos, match_pattern}
use scpi_parser.Result.{strlen}

-- The variables of the loop: the rest of the pattern and of the command, each with its length. No
-- numbers are wanted if the array is empty, or the pointer null.
pub record Matching : Type 0 where
  pub pattern : Bytes
  pub pattern_len : ℕ
  pub cmd : Bytes
  pub cmd_len : ℕ
  pub brackets : ℤ
  pub numbers : List ℤ
  pub numbers_idx : ℕ

abbrev pub plus_one : ℤ → ℤ
plus_one (pos n) = pos (n + 1)
plus_one (negsuc zero) = pos 0
plus_one (negsuc (suc n)) = negsuc n

abbrev pub minus_one : ℤ → ℤ
minus_one (pos zero) = negsuc 0
minus_one (pos (suc n)) = pos n
minus_one (negsuc n) = negsuc (n + 1)

-- SKIP_PATTERN, and SKIP_CMD
abbrev pub skip_pattern : ℕ → Matching → Matching
skip_pattern n m = record m { pattern = drop n m.pattern; pattern_len = m.pattern_len - n }

abbrev pub skip_cmd : ℕ → Matching → Matching
skip_cmd n m = record m { cmd = drop n m.cmd; cmd_len = m.cmd_len - n }

abbrev pub bracketed : (ℤ → ℤ) → Matching → Matching
bracketed f m = record m { brackets = f m.brackets }

-- The character at an offset of the pattern, and the first of the command.
abbrev pub pattern_at : Matching → ℕ → ℕ
pattern_at m i = get_or m.pattern i 0

abbrev pub cmd_at : Matching → ℕ
cmd_at m = get_or m.cmd 0 0

-- `brackets` behind the separator at `c`.
abbrev pub at_bracket : ℕ → ℤ → ℤ
at_bracket c b = if c == b'[' then plus_one b else if c == b']' then minus_one b else b

-- The command is complete: whether all that is left of the pattern is optional.
unfoldable pub all_optional : ℕ → Bytes → ℕ → ℤ → Bool
all_optional zero p len brackets = false
all_optional (suc fuel) p len brackets =
    let sep = pattern_separator_pos p len in
    let brackets' = at_bracket (get_or p sep 0) brackets in
    let p' = drop (sep + 1) p in
    let rest = all_optional fuel p' (len - (sep + 1)) brackets' in
    if len == 0
    then true
    else if len == sep
    then false
    else if eqb_ℤ brackets' (pos 0) && not (ltb 0 (len - (sep + 1)) && (get_or p' 0 0 == b'['))
    then len == sep + 1
    else rest

-- What a round leads to: the result with the numbers, or another round.
pub data Step : Type 0 where
  finish : Bool → List ℤ → Step
  next : Matching → Step

-- The mnemonics match, and are skipped.
unfoldable pub matched : Matching → Step
matched m =
    if (m.pattern_len == 0) && (m.cmd_len == 0)
    then finish true m.numbers
    else if (m.pattern_len == 0) && ltb 0 m.cmd_len
    then finish false m.numbers
    else if m.cmd_len == 0
    then finish (all_optional (suc m.pattern_len) m.pattern m.pattern_len m.brackets) m.numbers
    else if ltb 0 m.pattern_len && (pattern_at m 0 == cmd_at m) && (pattern_at m 0 == b':')
    then next (skip_cmd 1 (skip_pattern 1 m))
    else if ltb 1 m.pattern_len
        && (pattern_at m 1 == cmd_at m)
        && (pattern_at m 0 == b'[')
        && (pattern_at m 1 == b':')
    then next (bracketed plus_one (skip_cmd 1 (skip_pattern 2 m)))
    else if ltb 1 m.pattern_len
        && (pattern_at m 1 == cmd_at m)
        && (pattern_at m 0 == b']')
        && (pattern_at m 1 == b':')
    then next (bracketed minus_one (skip_cmd 1 (skip_pattern 2 m)))
    else if ltb 2 m.pattern_len
        && (pattern_at m 2 == cmd_at m)
        && (pattern_at m 0 == b']')
        && (pattern_at m 1 == b'[')
        && (pattern_at m 2 == b':')
    then next (skip_cmd 1 (skip_pattern 3 m))
    else finish false m.numbers

-- The mnemonics differ, and that of the pattern is skipped.
unfoldable pub unmatched : Matching → Step
unmatched m =
    if (pattern_at m 0 == b']') && (pattern_at m 1 == b':')
    then next (bracketed minus_one (skip_pattern 2 m))
    else if ltb 2 m.pattern_len
        && (pattern_at m 0 == b']')
        && (pattern_at m 1 == b'[')
        && (pattern_at m 2 == b':')
    then next (skip_pattern 3 m)
    else finish false m.numbers

abbrev pub store : ℕ → Option ℤ → List ℤ → List ℤ
store i none numbers = numbers
store i (some n) numbers = set numbers i n

unfoldable pub match_level : (Bytes → ℕ × ℤ) → ℤ → Matching → Step
match_level strtol default m =
    let sep = pattern_separator_pos m.pattern m.pattern_len in
    let cmd_sep = cmd_separator_pos m.cmd m.cmd_len in
    let numbered = ltb 0 sep && (pattern_at m (sep - 1) == b'#') in
    let wanted = numbered && ltb m.numbers_idx (length m.numbers) in
    let numbers = if wanted then set m.numbers m.numbers_idx default else m.numbers in
    let (same, number) = match_pattern strtol m.pattern sep m.cmd cmd_sep wanted in
    let m' = skip_pattern sep (record m {
      numbers = store m.numbers_idx number numbers;
      numbers_idx = if numbered then m.numbers_idx + 1 else m.numbers_idx;
    }) in
    if same then matched (skip_cmd cmd_sep m') else unmatched m'

-- The loop over the levels; `none` means that the fuel has run out.
unfoldable pub match_levels : ℕ → (Bytes → ℕ × ℤ) → ℤ → Matching → Option (Bool × List ℤ)
match_levels zero strtol default m = none
match_levels (suc fuel) strtol default m = elim (match_level strtol default m) [
  | finish result numbers ↦ some (result, numbers)
  | next m' ↦ match_levels fuel strtol default m'
]

-- The first bracket and the first colon of the pattern, and the first colon of the command.
abbrev pub skip_if_at : ℕ → Matching → Matching
skip_if_at c m = if pattern_at m 0 == c then skip_pattern 1 m else m

abbrev pub open_optional : Matching → Matching
open_optional m = if pattern_at m 0 == b'[' then bracketed plus_one (skip_pattern 1 m) else m

abbrev pub or_no_match : List ℤ → Option (Bool × List ℤ) → Bool × List ℤ
or_no_match numbers none = (false, numbers)
or_no_match numbers (some r) = r

unfoldable pub match_from_start : (Bytes → ℕ × ℤ) → ℤ → Matching → Bool × List ℤ
match_from_start strtol default m =
    let m1 = skip_if_at b':' (open_optional m) in
    let rooted = (cmd_at m1 == b':') && ltb 1 m1.cmd_len in
    let m2 = if rooted then skip_cmd 1 m1 else m1 in
    if rooted && (get_or m1.cmd 1 0 == b'*')
    then (false, m1.numbers)
    else or_no_match m1.numbers (match_levels (suc (length m2.pattern)) strtol default m2)

-- The result, and the array of numbers.
unfoldable pub match_command : (Bytes → ℕ × ℤ) → Bytes → Bytes → ℕ → List ℤ → ℤ → Bool × List ℤ
match_command strtol pattern cmd len numbers default =
    let m : Matching = record {
      pattern = pattern;
      pattern_len = strlen pattern;
      cmd = cmd;
      cmd_len = strnlen cmd len;
      brackets = pos 0;
      numbers = numbers;
      numbers_idx = 0;
    } in
    let pattern_query = get_or pattern (m.pattern_len - 1) 0 == b'?' in
    let cmd_query = get_or cmd (m.cmd_len - 1) 0 == b'?' in
    let shorter = record m { pattern_len = m.pattern_len - 1; cmd_len = m.cmd_len - 1 } in
    if pattern_query
    then if cmd_query then match_from_start strtol default shorter else (false, numbers)
    else match_from_start strtol default m

-- SCPI_Match: without an array of numbers.
unfoldable pub scpi_match : (Bytes → ℕ × ℤ) → Bytes → Bytes → ℕ → Bool
scpi_match strtol pattern value len = (match_command strtol pattern value len [] (pos 0)).0
