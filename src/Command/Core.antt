-- ===== src/Command/Core.antt =====
-- libscpi/src/ieee488.c: the handlers of the common commands that read a parameter or write a
-- result. A handler returns whether its result is SCPI_RES_OK.
use scpi_parser.Base.{
  ℕ, ◌%◌, ◌^◌, Bool, true, false, Option, none, some, List, [], ◌∷◌, if◌then◌else◌, take, Bytes,
}
use scpi_parser.Context.{Context, RegName, stb, sre, esr, ese, was_reset, emit}
use scpi_parser.Param.{Numbers, param_int32}
use scpi_parser.Register.{reg_get, reg_set}
use scpi_parser.Result.{strlen, result_int32, result_characters}
use scpi_parser.Session.{Session, Handler, on_context}

-- SCPI_ResultInt32 of a number, and of a register.
abbrev pub answer : ℕ → Context → Context
answer n c = (result_int32 n c).1

abbrev pub answer_reg : RegName → Context → Context
answer_reg name c = answer (reg_get c name) c

-- A handler that always returns SCPI_RES_OK.
abbrev pub ok : (Context → Context) → Handler
ok f s = (true, on_context f s)

-- `(scpi_reg_val_t) value`
abbrev pub to_reg_val : ℕ → ℕ
to_reg_val n = n % 2 ^ 16

-- The value of the next parameter is stored in a register, if it is a number; `failed` is the
-- result if it is not.
unfoldable pub set_from : RegName → Bool → Bool × ℕ × Session → Bool × Session
set_from name failed (true, value, s) = (true, on_context (reg_set name (to_reg_val value)) s)
set_from name failed (false, value, s) = (failed, s)

unfoldable pub core_ese : Numbers → Handler
core_ese c s = set_from ese false (param_int32 c 0 true s)

unfoldable pub core_ese_q : Handler
core_ese_q = ok (answer_reg ese)

unfoldable pub core_esr_q : Handler
core_esr_q = ok (λ c. reg_set esr 0 (answer_reg esr c))

-- SCPI_ResultMnemonic
abbrev pub result_mnemonic : Bytes → Context → Context
result_mnemonic s c = (result_characters (take (strlen s) s) c).1

abbrev pub or_zero : Option Bytes → Bytes
or_zero none = b'0' ∷ []
or_zero (some s) = s

-- The loop of SCPI_CoreIdnQ over the four fields.
abbrev pub write_idn : List (Option Bytes) → Context → Context
write_idn [] c = c
write_idn (f ∷ fs) c = write_idn fs (result_mnemonic (or_zero f) c)

unfoldable pub core_idn_q : Handler
core_idn_q s = ok (write_idn s.idn) s

unfoldable pub core_opc_q : Handler
core_opc_q = ok (answer 1)

-- `result` is what the callback `reset` returns.
unfoldable pub core_rst : Bool → Handler
core_rst result s =
    if s.context.interface.has_reset then (result, on_context (emit was_reset) s) else (true, s)

unfoldable pub core_sre : Numbers → Handler
core_sre c s = set_from sre false (param_int32 c 0 true s)

unfoldable pub core_sre_q : Handler
core_sre_q = ok (answer_reg sre)

unfoldable pub core_stb_q : Handler
core_stb_q = ok (answer_reg stb)

unfoldable pub core_tst_q : Handler
core_tst_q = ok (answer 0)

unfoldable pub core_wai : Handler
core_wai s = (true, s)
