-- ===== src/Param/Outcome.antt =====
-- libscpi/src/parser.c: the outcome of SCPI_Parameter.
use scpi_parser.Base.{
  ◌+◌, ◌≡◌, refl, inl, inr, Bool, true, false, Bool-cases, ◌==◌, if◌then◌else◌, negsuc,
}
use scpi_parser.Dispatch.{push}
use scpi_parser.Dispatch.Outcome.{push-cmd_error}
use scpi_parser.Lexer.{LexState, iseos, program_mnemonic, unknown}
use scpi_parser.Lexer.Separator.{comma_token}
use scpi_parser.Lexer.Span.{Follows, Follows-refl, Follows-trans}
use scpi_parser.Lexer.Recognise.{recognise-IsLexed, a_comma}
use scpi_parser.Message.Span.{IsLexed-IsBounded, parse_program_data-IsBounded}
use scpi_parser.Message.{parse_program_data}
use scpi_parser.Session.{Session}
use scpi_parser.Param.{Parameter, no_parameter, is_comma, is_datum, read_datum, parameter}

-- A parameter is read: its token is of a type of data, it is counted, the position is behind it in
-- the data, and nothing is noted or written.
pub record Found (s : Session) (p : Parameter) (s' : Session) : Type 0 where
  pub datum : is_datum p.token.type ≡ true
  pub counted : s'.input_count ≡ s.input_count + 1
  pub context_eq : s'.context ≡ s.context
  pub follows : Follows s.param_list.lex_state s'.param_list.lex_state

-- Or there is none left, which is no error for an optional one, or an error is noted.
pub data Read (mandatory : Bool) (s : Session) : Bool × Parameter × Session → Type 0 where
  found : (p : Parameter) (s' : Session) → Found s p s' → Read mandatory s (true, p, s')
  absent :
      mandatory ≡ false
      → iseos s.param_list.lex_state ≡ true
      → Read mandatory s (false, no_parameter program_mnemonic, s)
  failed :
      (p : Parameter) (s' : Session) → s'.context.cmd_error ≡ true → Read mandatory s (false, p, s')

read_datum-Read :
    (mandatory : Bool) (l : LexState) (s : Session)
    → Follows s.param_list.lex_state l
    → Read mandatory s (read_datum l s)
unfolding read_datum
read_datum-Read mandatory l s f = elim (Bool-cases (is_datum (parse_program_data l).token.type)) [
  | inl e ↦ rw e (
      found _ _ (record {
        datum = e;
        counted = refl;
        context_eq = refl;
        follows = Follows-trans f (parse_program_data-IsBounded l).follows;
      }))
  | inr e ↦ rw e (failed _ _ (push-cmd_error _ _))
]

-- SCPI_Parameter either reads a parameter, without noting an error, or fails with an error noted,
-- or finds no parameter left where it is not mandatory, and then it changes nothing.
pub parameter-Read : (mandatory : Bool) (s : Session) → Read mandatory s (parameter mandatory s)
unfolding parameter
parameter-Read mandatory s = elim (Bool-cases (iseos l)) [
  | inl e ↦ rw e (at_end mandatory e)
  | inr e ↦ elim (Bool-cases (s.input_count == 0)) [
    | inl z ↦ rw (e, z) (read_datum-Read mandatory l s (Follows-refl l))
    | inr z ↦ elim (Bool-cases (is_comma (comma_token l).token.type)) [
      | inl k ↦ rw (e, z, k) (read_datum-Read mandatory (comma_token l).state s behind_comma)
      | inr k ↦ rw (e, z, k) (failed _ _ (push-cmd_error _ _))
    ]
  ]
]
  where
    l : LexState
    l = s.param_list.lex_state

    behind_comma : Follows l (comma_token l).state
    behind_comma = (IsLexed-IsBounded l _ (recognise-IsLexed a_comma l refl)).follows

    at_end :
        (m : Bool)
        → iseos l ≡ true
        → Read m s (
            if m
            then (false, no_parameter unknown, push (negsuc 108) s)
            else (false, no_parameter program_mnemonic, s))
    at_end true e = failed _ _ (push-cmd_error _ _)
    at_end false e = absent refl e
