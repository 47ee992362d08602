-- ===== src/Register/Frame.antt =====
-- libscpi/src/ieee488.c: which parts of the context SCPI_RegSet touches.
use scpi_parser.Base.{ℕ, ◌≡◌, refl, ◌∙◌, ◌==◌, Bool-cases, inl, inr, arith}
use scpi_parser.Context.{
  RegName, stb, sre, esr, ese, oper, opere, operc, ques, quese, quesc, no_reg, Context,
}
use scpi_parser.Register.{
  group_info, reg_group, latch, assign, reg_get, update_request, reg_set, reg_set_bits,
  reg_clear_bits,
}
use scpi_parser.Register.Loop.{
  set_status, set_event, set_enable, set_condition, set_spec, reg_set_lem,
}

pub record SameRest (c c' : Context) : Type 0 where
  pub same_interface : c'.interface ≡ c.interface
  pub same_output_count : c'.output_count ≡ c.output_count
  pub same_first_output : c'.first_output ≡ c.first_output
  pub same_cmd_error : c'.cmd_error ≡ c.cmd_error
  pub same_arbitrary : c'.arbitrary_remaining ≡ c.arbitrary_remaining
  pub same_queue : c'.error_queue ≡ c.error_queue
  pub same_heap : c'.heap ≡ c.heap

pub SameRest-refl : (c : Context) → SameRest c c
SameRest-refl c = record {
  same_interface = refl;
  same_output_count = refl;
  same_first_output = refl;
  same_cmd_error = refl;
  same_arbitrary = refl;
  same_queue = refl;
  same_heap = refl;
}

pub SameRest-trans : {a b c : Context} → SameRest a b → SameRest b c → SameRest a c
SameRest-trans p q = record {
  same_interface = q.same_interface ∙ p.same_interface;
  same_output_count = q.same_output_count ∙ p.same_output_count;
  same_first_output = q.same_first_output ∙ p.same_first_output;
  same_cmd_error = q.same_cmd_error ∙ p.same_cmd_error;
  same_arbitrary = q.same_arbitrary ∙ p.same_arbitrary;
  same_queue = q.same_queue ∙ p.same_queue;
  same_heap = q.same_heap ∙ p.same_heap;
}

update_request-SameRest : (old val : ℕ) (c : Context) → SameRest c (update_request old val c)
unfolding update_request
update_request-SameRest old val c = ground arith

assign-SameRest : (n : RegName) (val : ℕ) (c : Context) → SameRest c (assign n val c)
assign-SameRest n val c = record {
  same_interface = refl;
  same_output_count = refl;
  same_first_output = refl;
  same_cmd_error = refl;
  same_arbitrary = refl;
  same_queue = refl;
  same_heap = refl;
}

set_status-SameRest : (n : RegName) (val : ℕ) (c : Context) → SameRest c (set_status n val c)
set_status-SameRest n val c = elim (Bool-cases (reg_get c n == val)) [
  | inl e ↦ rw e (SameRest-refl c)
  | inr e ↦ rw e (
      SameRest-trans (assign-SameRest n val c)
        (update_request-SameRest (reg_get c n) val (assign n val c)))
]

set_event-SameRest : (n : RegName) (val : ℕ) (c : Context) → SameRest c (set_event n val c)
set_event-SameRest n val c = elim (Bool-cases (reg_get c n == val)) [
  | inl e ↦ rw e (SameRest-refl c)
  | inr e ↦
      rw e (SameRest-trans (assign-SameRest n val c) (set_status-SameRest stb _ (assign n val c)))
]

set_condition-SameRest : (n : RegName) (val : ℕ) (c : Context) → SameRest c (set_condition n val c)
set_condition-SameRest n val c = elim (Bool-cases (reg_get c n == val)) [
  | inl e ↦ rw e (SameRest-refl c)
  | inr e ↦ rw e (
      SameRest-trans (assign-SameRest n val c) (
        set_event-SameRest (group_info (reg_group n)).event
          (latch (group_info (reg_group n)) (reg_get c n) val (assign n val c)) (assign n val c)))
]

set_enable-SameRest : (n : RegName) (val : ℕ) (c : Context) → SameRest c (set_enable n val c)
set_enable-SameRest n val c = elim (Bool-cases (reg_get c n == val)) [
  | inl e ↦ rw e (SameRest-refl c)
  | inr e ↦ rw e (assign-SameRest n val c)
]

set_spec-SameRest : (n : RegName) (val : ℕ) (c : Context) → SameRest c (set_spec n val c)
set_spec-SameRest stb = set_status-SameRest stb
set_spec-SameRest sre = set_status-SameRest sre
set_spec-SameRest esr = set_event-SameRest esr
set_spec-SameRest oper = set_event-SameRest oper
set_spec-SameRest ques = set_event-SameRest ques
set_spec-SameRest operc = set_condition-SameRest operc
set_spec-SameRest quesc = set_condition-SameRest quesc
set_spec-SameRest ese = set_enable-SameRest ese
set_spec-SameRest opere = set_enable-SameRest opere
set_spec-SameRest quese = set_enable-SameRest quese
set_spec-SameRest no_reg = λ val c. SameRest-refl c

pub reg_set-SameRest : (n : RegName) (val : ℕ) (c : Context) → SameRest c (reg_set n val c)
reg_set-SameRest n val c = rw reg_set_lem (set_spec-SameRest n val c)

pub reg_set_bits-SameRest :
    (n : RegName) (bits : ℕ) (c : Context) → SameRest c (reg_set_bits n bits c)
unfolding reg_set_bits
reg_set_bits-SameRest n bits c = reg_set-SameRest n _ c

pub reg_clear_bits-SameRest :
    (n : RegName) (bits : ℕ) (c : Context) → SameRest c (reg_clear_bits n bits c)
unfolding reg_clear_bits
reg_clear_bits-SameRest n bits c = reg_set-SameRest n _ c
