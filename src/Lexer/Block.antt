-- ===== src/Lexer/Block.antt =====
-- libscpi/src/lexer.c: arbitrary block data, `#`, the number of digits, the length, and the bytes.
pub mod Read
use scpi_parser.Base.{
  ℕ, zero, suc, ◌+◌, ◌-◌, ◌*◌, Bool, not, ◌&&◌, [], ◌==◌, leb, if◌then◌else◌, length, drop, get_or,
}
use scpi_parser.Lexer.{
  LexState, Lexed, arbitrary_block, unknown, isdigit, iseos, next_is, advance, skip_chr, token,
  reject,
}

unfoldable pub is_nonzero_digit : ℕ → Bool
is_nonzero_digit c = isdigit c && not (c == b'0')

-- What the digit at `pos` stands for.
abbrev pub digit_value : LexState → ℕ
digit_value s = get_or s.rest 0 b'0' - b'0'

-- The loop over the digits of the length: the digits that are missing, the length, and the state.
unfoldable pub block_length : ℕ → ℕ → LexState → ℕ × ℕ × LexState
block_length zero n s = (0, n, s)
block_length (suc i) n s =
    let rest = block_length i (n * 10 + digit_value s) (advance s) in
    if next_is isdigit s.rest then rest else (suc i, n, s)

-- The message ends within the block: the rest of it is taken, and there is no token.
abbrev pub incomplete_block : LexState → LexState → Lexed
incomplete_block s s' = record {
  result = 0;
  token = token unknown s.at 0;
  state = record { at = s'.at + length s'.rest; rest = [] };
}

-- The block of `n` bytes at `s'`.
abbrev pub block_of : ℕ → LexState → LexState → Lexed
block_of n s s' = record {
  result = n + (s'.at - s.at);
  token = token arbitrary_block s'.at n;
  state = record { at = s'.at + n; rest = drop n s'.rest };
}

unfoldable pub block_data : LexState → Lexed
block_data s =
    let (found, s1) = skip_chr b'#' s in
    let (missing, n, s2) = block_length (digit_value s1) 0 (advance s1) in
    if not found
    then reject s
    else if next_is is_nonzero_digit s1.rest
    then (if missing == 0
        then if leb n (length s2.rest) then block_of n s s2 else incomplete_block s s2
        else if iseos s2
        then incomplete_block s s2
        else reject s)
    else if iseos s1
    then incomplete_block s s1
    else reject s
