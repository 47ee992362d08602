-- ===== src/Lexer/Header.antt =====
-- libscpi/src/lexer.c: common and compound program headers.
pub mod Outcome
pub mod Levels
pub mod Compound
use scpi_parser.Base.{
  ℕ, zero, suc, Bool, ◌&&◌, Option, none, some, not, if◌then◌else◌, length, ℤ, pos, negsuc, leb_ℤ,
  eqb_ℤ,
}
use scpi_parser.Lexer.{
  LexState, Lexed, TokenType, compound_header, incomplete_compound_header, common_header,
  incomplete_common_header, compound_query_header, common_query_header, iseos, skip_chr, skip_star,
  skip_colon, skip_program_mnemonic, reject, accept,
}

-- SKIP_NONE, SKIP_OK and SKIP_INCOMPLETE
pub data Skip : Type 0 where
  skip_none skip_ok skip_incomplete : Skip

abbrev pub at_most_incomplete : ℤ → Bool
at_most_incomplete n = leb_ℤ n (negsuc 0)

abbrev pub at_least_ok : ℤ → Bool
at_least_ok n = leb_ℤ (pos 1) n

unfoldable pub skip_common_header : LexState → Skip × LexState
skip_common_header s =
    let (star, s1) = skip_star s in
    let (n, s2) = skip_program_mnemonic s1 in
    if not star
    then (skip_none, s1)
    else if eqb_ℤ n (pos 0) && iseos s2
    then (skip_incomplete, s2)
    else if at_most_incomplete n
    then (skip_ok, s2)
    else if at_least_ok n
    then (skip_ok, s2)
    else (skip_incomplete, s2)

-- `while (skipColon(state)) ...`, and the return behind it; `none` means that the fuel has run out.
unfoldable pub skip_levels : ℕ → LexState → Option (Skip × LexState)
skip_levels zero s = none
skip_levels (suc fuel) s =
    let (colon, s1) = skip_colon s in
    let (n, s2) = skip_program_mnemonic s1 in
    let rest = skip_levels fuel s2 in
    if not colon
    then some (skip_ok, s1)
    else if at_most_incomplete n
    then some (skip_ok, s2)
    else if eqb_ℤ n (pos 0)
    then some (skip_incomplete, s2)
    else rest

abbrev pub levels_or : LexState → Option (Skip × LexState) → Skip × LexState
levels_or s none = (skip_none, s)
levels_or s (some r) = r

unfoldable pub skip_compound_header : LexState → Skip × LexState
skip_compound_header s =
    let (colon, s1) = skip_colon s in
    let (n, s2) = skip_program_mnemonic s1 in
    if at_least_ok n
    then levels_or s2 (skip_levels (suc (length s2.rest)) s2)
    else if at_most_incomplete n
    then (skip_ok, s2)
    else if colon
    then (skip_incomplete, s2)
    else (skip_none, s2)

-- A header is a query if a question mark follows it.
unfoldable pub query_or : TokenType → TokenType → LexState → LexState → Lexed
query_or query plain s s' =
    let (found, s'') = skip_chr b'?' s' in accept (if found then query else plain) s s''

unfoldable pub compound : LexState → Skip × LexState → Lexed
compound s (skip_ok, s') = query_or compound_query_header compound_header s s'
compound s (skip_incomplete, s') = accept incomplete_compound_header s s'
compound s (skip_none, s') = reject s

unfoldable pub common : LexState → Skip × LexState → Lexed
common s (skip_ok, s') = query_or common_query_header common_header s s'
common s (skip_incomplete, s') = accept incomplete_common_header s s'
common s (skip_none, s') = compound s (skip_compound_header s')

unfoldable pub program_header : LexState → Lexed
program_header s = common s (skip_common_header s)
