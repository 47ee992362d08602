-- ===== src/Pattern.antt =====
-- libscpi/src/utils.c: mnemonics compared with the patterns of commands. A string is its bytes from
-- the pointer on; a length is given beside it, as in the code. <ctype.h> is that of the C locale.
pub mod Form
mod Tests
use scpi_parser.Base.{
  ℕ, zero, suc, ◌+◌, ◌-◌, Bool, true, false, not, ◌&&◌, ◌||◌, Option, none, some, List, [], ◌∷◌,
  ◌==◌, leb, ltb, if◌then◌else◌, length, get_or, drop, take, Bytes, ℤ, pos, negsuc, ◌%◌, ◌^◌,
}
use scpi_parser.Lexer.{isdigit}

unfoldable pub tolower : ℕ → ℕ
tolower c = if leb b'A' c && leb c b'Z' then c + 32 else c

unfoldable pub islower : ℕ → Bool
islower c = leb b'a' c && leb c b'z'

unfoldable pub isspace : ℕ → Bool
isspace c = c == b' ' || (leb 9 c && leb c 13)

-- Whether the strings compare as equal; a string ends with a zero at the latest.
unfoldable pub same_caseless : Bytes → Bytes → ℕ → Bool
same_caseless s t zero = true
same_caseless s t (suc n) =
    let c1 = tolower (get_or s 0 0) in
    let c2 = tolower (get_or t 0 0) in
    let rest = same_caseless (drop 1 s) (drop 1 t) n in
    if not (c1 == c2) then false else if c1 == 0 then true else rest

unfoldable pub compare_str : Bytes → ℕ → Bytes → ℕ → Bool
compare_str s1 len1 s2 len2 =
    if not (len1 == len2) then false else if same_caseless s1 s2 len2 then true else false

-- `for (i = len1; i < len2; i++)` over the digits, `n` of them
unfoldable pub all_digits : Bytes → ℕ → Bool
all_digits s zero = true
all_digits s (suc n) =
    let rest = all_digits (drop 1 s) n in if not (isdigit (get_or s 0 0)) then false else rest

-- strBaseToInt32: a `long` stored in an `int32_t` keeps the low 32 bits.
unfoldable pub to_int32 : ℤ → ℤ
to_int32 (pos n) = let m = n % 2 ^ 32 in if ltb m (2 ^ 31) then pos m else negsuc (2 ^ 32 - 1 - m)
to_int32 (negsuc n) =
    let m = n % 2 ^ 32 in if ltb m (2 ^ 31) then negsuc m else pos (2 ^ 32 - 1 - m)

-- The result, and what is assigned to `*num`. `strtol` is the C function in base 10, as it reads the
-- bytes that it is given: how many it uses, and the value; `num` is whether the pointer is not null.
unfoldable pub compare_str_and_num :
    (Bytes → ℕ × ℤ) → Bytes → ℕ → Bytes → ℕ → Bool → Bool × Option ℤ
compare_str_and_num strtol s1 len1 s2 len2 num =
    let (used, value) = strtol (drop len1 s2) in
    if ltb len2 len1
    then (false, none)
    else if not (same_caseless s1 s2 len1)
    then (false, none)
    else if not num
    then (all_digits (drop len1 s2) (len2 - len1), none)
    else if len1 == len2
    then (true, none)
    else if not (len1 + used == len2)
    then (false, none)
    else (true, some (to_int32 value))

-- The position of the first character that is not white space, `len` if there is none.
unfoldable pub skip_whitespace : Bytes → ℕ → ℕ
skip_whitespace cmd zero = 0
skip_whitespace cmd (suc len) =
    let rest = skip_whitespace (drop 1 cmd) len in
    if not (isspace (get_or cmd 0 0)) then 0 else suc rest

-- The position of the first lower-case letter.
unfoldable pub pattern_separator_short_pos : Bytes → ℕ → ℕ
pattern_separator_short_pos p zero = 0
pattern_separator_short_pos p (suc len) =
    let rest = pattern_separator_short_pos (drop 1 p) len in
    if get_or p 0 0 == 0 then 0 else if islower (get_or p 0 0) then 0 else suc rest

abbrev in_set : ℕ → Bytes → Bool
in_set c [] = false
in_set c (d ∷ set) = d == c || in_set c set

-- The offset of the first character of the set.
unfoldable pub strnpbrk : Bytes → ℕ → Bytes → Option ℕ
strnpbrk s zero set = none
strnpbrk s (suc n) set =
    let rest = strnpbrk (drop 1 s) n set in
    if get_or s 0 0 == 0 then none else if in_set (get_or s 0 0) set then some 0 else later rest
  where
    later : Option ℕ → Option ℕ
    later none = none
    later (some i) = some (suc i)

abbrev or_len : Option ℕ → ℕ → ℕ
or_len none len = len
or_len (some i) len = i

unfoldable pub pattern_separator_pos : Bytes → ℕ → ℕ
pattern_separator_pos p len = or_len (strnpbrk p len (b'?' ∷ b':' ∷ b'[' ∷ b']' ∷ [])) len

unfoldable pub cmd_separator_pos : Bytes → ℕ → ℕ
cmd_separator_pos cmd len = or_len (strnpbrk cmd len (b':' ∷ b'?' ∷ [])) len

-- `a || b`, where `b` is called only if `a` is false.
abbrev pub either : Bool × Option ℤ → Bool × Option ℤ → Bool × Option ℤ
either (true, n) r = (true, n)
either (false, n) r = r

unfoldable pub match_pattern : (Bytes → ℕ × ℤ) → Bytes → ℕ → Bytes → ℕ → Bool → Bool × Option ℤ
match_pattern strtol p plen s slen num =
    if ltb 0 plen && (get_or p (plen - 1) 0 == b'#')
    then either (compare_str_and_num strtol p (plen - 1) s slen num)
        (compare_str_and_num strtol p (pattern_separator_short_pos p (plen - 1)) s slen num)
    else (
      compare_str p plen s slen || compare_str p (pattern_separator_short_pos p plen) s slen,
      none,
    )
