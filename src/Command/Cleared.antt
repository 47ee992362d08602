-- ===== src/Command/Cleared.antt =====
-- What *CLS leaves behind.
use scpi_parser.Base.{◌≡◌, sym, ◌∙◌, ap, []}
use scpi_parser.Command.{core_cls}
use scpi_parser.Context.{Context, esr, oper, ques}
use scpi_parser.ErrorQueue.Clear.{error_clear_lem}
use scpi_parser.ErrorQueue.Memory.{IsBalanced}
use scpi_parser.ErrorQueue.{error_clear}
use scpi_parser.Fifo.Refine.{contents}
use scpi_parser.Fifo.Valid.{IsValid}
use scpi_parser.Register.Frame.{SameRest, SameRest-trans, reg_set-SameRest}
use scpi_parser.Register.Loop.{of_oper, of_esr, of_ques}
use scpi_parser.Register.Summary.{
  reg_set-get, reg_set-oper_esr, reg_set-ques_esr, reg_set-ques_oper,
}
use scpi_parser.Register.{reg_set}

-- After *CLS the error queue is empty, with all its texts freed, and the event registers are zero.
pub core_cls-cleared :
    (c : Context)
    → IsValid c.error_queue
    → IsBalanced c
    → (contents (core_cls c).error_queue ≡ [])
      × ((core_cls c).heap.freed ≡ (core_cls c).heap.allocated)
      × ((core_cls c).registers.esr ≡ 0)
      × ((core_cls c).registers.oper ≡ 0)
      × ((core_cls c).registers.ques ≡ 0)
unfolding core_cls
core_cls-cleared c v b = (
  ap contents all.same_queue ∙ (error_clear_lem c v b).0,
  ap (λ h. h.freed) all.same_heap
      ∙ (error_clear_lem c v b).3
      ∙ sym (ap (λ h. h.allocated) all.same_heap),
  reg_set-ques_esr 0 c2 ∙ reg_set-oper_esr 0 c1 ∙ reg_set-get 0 (error_clear c) of_esr,
  reg_set-ques_oper 0 c2 ∙ reg_set-get 0 c1 of_oper,
  reg_set-get 0 c2 of_ques,
)
  where
    c1 : Context
    c1 = reg_set esr 0 (error_clear c)

    c2 : Context
    c2 = reg_set oper 0 c1

    all : SameRest (error_clear c) (reg_set ques 0 c2)
    all =
        SameRest-trans (reg_set-SameRest esr 0 (error_clear c))
          (SameRest-trans (reg_set-SameRest oper 0 c1) (reg_set-SameRest ques 0 c2))
