-- ===== src/Command/Minimal.antt =====
-- libscpi/src/minimal.c: the handlers of the commands that every instrument has, but for
-- SYSTem:ERRor[:NEXT]?, which is in Report.
use scpi_parser.Base.{true, [], ◌∷◌, Bytes}
use scpi_parser.Context.{oper, opere, operc, ques, quese, quesc}
use scpi_parser.ErrorQueue.{error_count}
use scpi_parser.Param.{Numbers, param_int32}
use scpi_parser.Register.{reg_set}
use scpi_parser.Session.{Handler}
use scpi_parser.Command.Core.{answer, answer_reg, ok, set_from, result_mnemonic}

unfoldable pub stub : Handler
stub s = (true, s)

unfoldable pub stub_q : Handler
stub_q = ok (answer 0)

-- SCPI_STD_VERSION_REVISION
abbrev pub version_revision : Bytes
version_revision = b'1' ∷ b'9' ∷ b'9' ∷ b'9' ∷ b'.' ∷ b'0' ∷ []

unfoldable pub system_version_q : Handler
system_version_q = ok (result_mnemonic version_revision)

unfoldable pub system_error_count_q : Handler
system_error_count_q = ok (λ c. answer (error_count c) c)

unfoldable pub status_questionable_condition_q : Handler
status_questionable_condition_q = ok (answer_reg quesc)

unfoldable pub status_questionable_event_q : Handler
status_questionable_event_q = ok (λ c. reg_set ques 0 (answer_reg ques c))

unfoldable pub status_questionable_enable_q : Handler
status_questionable_enable_q = ok (answer_reg quese)

unfoldable pub status_questionable_enable : Numbers → Handler
status_questionable_enable c s = set_from quese true (param_int32 c 0 true s)

unfoldable pub status_operation_condition_q : Handler
status_operation_condition_q = ok (answer_reg operc)

unfoldable pub status_operation_event_q : Handler
status_operation_event_q = ok (λ c. reg_set oper 0 (answer_reg oper c))

unfoldable pub status_operation_enable_q : Handler
status_operation_enable_q = ok (answer_reg opere)

unfoldable pub status_operation_enable : Numbers → Handler
status_operation_enable c s = set_from opere true (param_int32 c 0 true s)
