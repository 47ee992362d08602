-- ===== src/Command/Enable.antt =====
-- libscpi/src/ieee488.c and libscpi/src/minimal.c: *ESE, *SRE, STATus:OPERation:ENABle and
-- STATus:QUEStionable:ENABle with their queries.
use scpi_parser.Base.{ℕ, ◌≡◌, refl, true}
use scpi_parser.Context.{RegName, sre, ese, opere, quese}
use scpi_parser.Format.{uint32_to_str_base_sign}
use scpi_parser.Param.{Numbers, param_int32}
use scpi_parser.Register.Enable.{IsSettable, of_ese, of_sre, of_opere, of_quese, reg_set-settable}
use scpi_parser.Register.{reg_set}
use scpi_parser.Result.Output.{Replies}
use scpi_parser.Result.Replies.{answer-Replies}
use scpi_parser.Session.{Session, Handler, on_context}
use scpi_parser.Command.Core.{
  answer_reg, to_reg_val, set_from, core_ese, core_ese_q, core_sre, core_sre_q,
}
use scpi_parser.Command.Minimal.{
  status_operation_enable, status_operation_enable_q, status_questionable_enable,
  status_questionable_enable_q,
}

-- A command that sets a register, its query, and the register.
pub data IsPair : (Numbers → Handler) → Handler → RegName → Type 0 where
  event_status : IsPair core_ese core_ese_q ese
  service_request_enable : IsPair core_sre core_sre_q sre
  operation : IsPair status_operation_enable status_operation_enable_q opere
  questionable : IsPair status_questionable_enable status_questionable_enable_q quese

settable : {f : Numbers → Handler} {q : Handler} {n : RegName} → IsPair f q n → IsSettable n
settable event_status = of_ese
settable service_request_enable = of_sre
settable operation = of_opere
settable questionable = of_quese

-- Where the parameter is read, the command stores it.
sets :
    {f : Numbers → Handler} {q : Handler} {n : RegName} (c : Numbers) (s s' : Session) (value : ℕ)
    → IsPair f q n
    → param_int32 c 0 true s ≡ (true, value, s')
    → f c s ≡ (true, on_context (reg_set n (to_reg_val value)) s')
unfolding core_ese core_sre status_operation_enable status_questionable_enable set_from
sets c s s' value event_status e = rw e refl
sets c s s' value service_request_enable e = rw e refl
sets c s s' value operation e = rw e refl
sets c s s' value questionable e = rw e refl

queries :
    {f : Numbers → Handler} {q : Handler} {n : RegName} (s : Session)
    → IsPair f q n
    → q s ≡ (true, on_context (answer_reg n) s)
unfolding core_ese_q core_sre_q status_operation_enable_q status_questionable_enable_q
queries s event_status = refl
queries s service_request_enable = refl
queries s operation = refl
queries s questionable = refl

-- *ESE, *SRE, STATus:OPERation:ENABle and STATus:QUEStionable:ENABle: if the parameter is read as a
-- number, the command succeeds, and its query then succeeds and answers the number in sixteen bits.
pub enable-query :
    {f : Numbers → Handler} {q : Handler} {n : RegName} (c : Numbers) (s s' : Session) (value : ℕ)
    → IsPair f q n
    → param_int32 c 0 true s ≡ (true, value, s')
    → ((f c s).0 ≡ true)
      × ((q (f c s).1).0 ≡ true)
      × Replies
          (f c s).1.context
          (uint32_to_str_base_sign (to_reg_val value) 33 10 true)
          (q (f c s).1).1.context
enable-query {f} {q} {n} c s s' value p e =
    rw
      (
        sets c s s' value p e,
        queries (on_context (reg_set n (to_reg_val value)) s') p,
        reg_set-settable (to_reg_val value) s'.context (settable p),
      )
      (refl, refl, answer-Replies (to_reg_val value) (reg_set n (to_reg_val value) s'.context))
