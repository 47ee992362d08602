-- ===== src/Command.antt =====
-- libscpi/src/ieee488.c and libscpi/src/minimal.c: the handlers that only act on the error queue and
-- the registers. Each returns SCPI_RES_OK, and so the new context alone.
pub mod Cleared
pub mod Core
pub mod Minimal
pub mod Enable
mod Tests
use scpi_parser.Base.{Bool, true, false, not, List, [], ◌∷◌, if◌then◌else◌}
use scpi_parser.Context.{Context, RegName, stb, esr, ques}
use scpi_parser.ErrorQueue.{error_clear}
use scpi_parser.Register.{
  RegGroup, group_stb, group_esr, group_oper, group_ques, group_info, reg_set, reg_set_bits,
}

abbrev is_stb : RegName → Bool
is_stb stb = true
is_stb _ = false

-- The groups in the order of `scpi_reg_group_details`.
abbrev pub groups : List RegGroup
groups = group_stb ∷ group_esr ∷ group_oper ∷ group_ques ∷ []

-- The loop of SCPI_CoreCls.
abbrev pub clear_events : List RegGroup → Context → Context
clear_events [] c = c
clear_events (g ∷ gs) c =
    clear_events gs
      (if not (is_stb (group_info g).event) then reg_set (group_info g).event 0 c else c)

unfoldable pub core_cls : Context → Context
core_cls c = clear_events groups (error_clear c)

-- ESR_OPC
unfoldable pub core_opc : Context → Context
core_opc c = reg_set_bits esr 0x01 c

unfoldable pub status_preset : Context → Context
status_preset c = reg_set ques 0 c
