-- ===== src/Param/Choice.antt =====
-- libscpi/src/parser.c: parameters that are one of a list of choices, and Boolean parameters.
use scpi_parser.Base.{
  ℕ, Bool, true, false, not, Option, none, some, List, [], ◌∷◌, ◌==◌, if◌then◌else◌, Bytes, ℤ, pos,
  negsuc, eqb_ℤ,
}
use scpi_parser.Dispatch.{push}
use scpi_parser.Lexer.{TokenType, program_mnemonic, decimal}
use scpi_parser.Pattern.{match_pattern}
use scpi_parser.Result.{strlen}
use scpi_parser.Session.{Session}
use scpi_parser.Param.{Numbers, Parameter, parameter, param_sign_to_uint32}

-- `scpi_choice_def_t`; the list has no row for its end.
pub record Choice : Type 0 where
  pub name : Bytes
  pub tag : ℤ

abbrev pub is_mnemonic_datum : TokenType → Bool
is_mnemonic_datum program_mnemonic = true
is_mnemonic_datum _ = false

-- The tag of the first choice whose pattern matches.
unfoldable pub find_choice : (Bytes → ℕ × ℤ) → List Choice → Parameter → Option ℤ
find_choice strtol [] p = none
find_choice strtol (o ∷ options) p =
    let rest = find_choice strtol options p in
    if (match_pattern strtol o.name (strlen o.name) p.bytes p.token.len false).0
    then some o.tag
    else rest

abbrev pub chosen : Option ℤ → Session → Option ℤ × Session
chosen none s = (none, push (negsuc 223) s)
chosen (some tag) s = (some tag, s)

-- The value, if the result is TRUE.
unfoldable pub param_to_choice :
    (Bytes → ℕ × ℤ) → List Choice → Parameter → Session → Option ℤ × Session
param_to_choice strtol options p s =
    if is_mnemonic_datum p.token.type
    then chosen (find_choice strtol options p) s
    else (none, push (negsuc 103) s)

unfoldable pub choice_to_name : List Choice → ℤ → Option Bytes
choice_to_name [] tag = none
choice_to_name (o ∷ options) tag =
    let rest = choice_to_name options tag in if eqb_ℤ o.tag tag then some o.name else rest

abbrev pub scpi_bool_def : List Choice
scpi_bool_def =
    record { name = b'O' ∷ b'F' ∷ b'F' ∷ []; tag = pos 0 }
    ∷ record { name = b'O' ∷ b'N' ∷ []; tag = pos 1 }
    ∷ []

abbrev pub is_decimal : TokenType → Bool
is_decimal decimal = true
is_decimal _ = false

-- `intval ? TRUE : FALSE`
abbrev pub truth : Option ℤ × Session → Option Bool × Session
truth (none, s) = (none, s)
truth (some n, s) = (some (not (eqb_ℤ n (pos 0))), s)

unfoldable pub bool_of : Numbers → Bool × Parameter × Session → Option Bool × Session
bool_of c (false, p, s) = (none, s)
bool_of c (true, p, s) =
    if is_decimal p.token.type
    then (some (not ((param_sign_to_uint32 c p true 0).1 == 0)), s)
    else truth (param_to_choice (c.strtol 10) scpi_bool_def p s)

unfoldable pub param_bool : Numbers → Bool → Session → Option Bool × Session
param_bool c mandatory s = bool_of c (parameter mandatory s)

unfoldable pub choice_of :
    (Bytes → ℕ × ℤ) → List Choice → Bool × Parameter × Session → Option ℤ × Session
choice_of strtol options (false, p, s) = (none, s)
choice_of strtol options (true, p, s) = param_to_choice strtol options p s

unfoldable pub param_choice : (Bytes → ℕ × ℤ) → List Choice → Bool → Session → Option ℤ × Session
param_choice strtol options mandatory s = choice_of strtol options (parameter mandatory s)
