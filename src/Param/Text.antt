-- ===== src/Param/Text.antt =====
-- libscpi/src/parser.c: parameters that are texts, blocks and characters.
pub mod Copied
use scpi_parser.Base.{
  ℕ, zero, suc, ◌+◌, ◌-◌, Bool, true, false, [], ◌∷◌, ◌==◌, leb, if◌then◌else◌, get_or, drop, take,
  Bytes, negsuc,
}
use scpi_parser.Dispatch.{push}
use scpi_parser.Lexer.{TokenType, arbitrary_block, single_quote, double_quote}
use scpi_parser.Session.{Session}
use scpi_parser.Param.{Parameter, parameter}

-- Without the quotes of a string.
abbrev pub unquoted : Parameter → Bytes
unquoted p = by_type p.token.type
  where
    by_type : TokenType → Bytes
    by_type single_quote = take (p.token.len - 2) (drop 1 p.bytes)
    by_type double_quote = take (p.token.len - 2) (drop 1 p.bytes)
    by_type _ = take p.token.len p.bytes

unfoldable pub characters_of : Bool × Parameter × Session → Bool × Bytes × Session
characters_of (false, p, s) = (false, [], s)
characters_of (true, p, s) = (true, unquoted p, s)

-- The pointer and the length are those of the bytes.
unfoldable pub param_characters : Bool → Session → Bool × Bytes × Session
param_characters mandatory s = characters_of (parameter mandatory s)

abbrev pub is_block : TokenType → Bool
is_block arbitrary_block = true
is_block _ = false

unfoldable pub block_of : Bool × Parameter × Session → Bool × Bytes × Session
block_of (false, p, s) = (false, [], s)
block_of (true, p, s) =
    if is_block p.token.type
    then (true, take p.token.len p.bytes, s)
    else (false, [], push (negsuc 103) s)

unfoldable pub param_arbitrary_block : Bool → Session → Bool × Bytes × Session
param_arbitrary_block mandatory s = block_of (parameter mandatory s)

-- The loop of SCPI_ParamCopyText from `i_from` on, in a string of `len` characters, into a buffer of
-- `room`; a round takes a character, so that the fuel `len` leaves nothing out.
unfoldable pub copy_text : ℕ → ℕ → ℕ → ℕ → ℕ → Bytes → Bytes
copy_text zero quote i_from len room text = []
copy_text (suc fuel) quote i_from len room text =
    let c = get_or text i_from 0 in
    let rest = copy_text fuel quote (if c == quote then i_from + 2 else i_from + 1) len room text in
    if leb (len - 1) i_from then [] else if leb room i_from then [] else c ∷ rest

unfoldable pub text_of : ℕ → Bool × Parameter × Session → Bool × Bytes × Session
text_of room (false, p, s) = (false, [], s)
text_of room (true, p, s) = by_type p.token.type
  where
    by_type : TokenType → Bool × Bytes × Session
    by_type single_quote = (true, copy_text p.token.len b'\'' 1 p.token.len room p.bytes, s)
    by_type double_quote = (true, copy_text p.token.len b'"' 1 p.token.len room p.bytes, s)
    by_type _ = (false, [], push (negsuc 103) s)

-- The characters copied, before the zero that is added if there is room.
unfoldable pub param_copy_text : ℕ → Bool → Session → Bool × Bytes × Session
param_copy_text room mandatory s = text_of room (parameter mandatory s)
