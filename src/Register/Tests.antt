-- ===== src/Register/Tests.antt =====
-- The status model on concrete registers, and instances of the theorems.
use scpi_parser.Base.{
  ◌≡◌, refl, true, false, some, [], ◌∷◌, arith, if◌then◌else◌, ◌==◌, min, max, ◌-◌, length,
}
use scpi_parser.Base.Bits.{bit}
use scpi_parser.Context.{Context, Registers, service_request, esr, operc, oper}
use scpi_parser.Fifo.{fifo_init}
use scpi_parser.Register.Latch.{reg_set-latch}
use scpi_parser.Register.Loop.{of_esr, of_operc, set_spec, rounds_enough}
use scpi_parser.Register.Request.{IsConsistent, reg_set-IsConsistent}
use scpi_parser.Register.Summary.{reg_set-event, summary_bit, enabled}
use scpi_parser.Register.{
  reg_get, reg_set, reg_set_bits, rounds, round, dispatch, update_request, summarise, latch,
}

abbrev zeros : Registers
zeros = record {
  stb = 0;
  sre = 0;
  esr = 0;
  ese = 0;
  oper = 0;
  opere = 0;
  operc = 0;
  ques = 0;
  quese = 0;
  quesc = 0;
}

-- Requests are enabled for the event summary (0x20), and events for OPC (0x01).
abbrev armed : Context
armed = record {
  interface = record {
    has_error = true;
    has_control = true;
    has_flush = true;
    has_reset = true;
    write_result = length;
  };
  output_count = 0;
  first_output = true;
  cmd_error = false;
  arbitrary_remaining = 0;
  error_queue = fifo_init [] 0;
  heap = record { supply = []; allocated = 0; freed = 0 };
  registers = record zeros { sre = 0x20; ese = 0x01; operc = 0x03; oper = 0x10 };
  events = [];
}

-- Operation complete raises the summary bit and the request bit, and asks for service once.
opc_requests :
    ((reg_set_bits esr 0x01 armed).registers.stb ≡ 0x60)
    × ((reg_set_bits esr 0x01 armed).events ≡ service_request 0x60 ∷ [])
unfolding reg_set_bits reg_set rounds round dispatch update_request summarise latch
opc_requests = (refl, refl)

-- A summary bit that is already set asks for no service again.
opc_again : (reg_set_bits esr 0x01 (reg_set_bits esr 0x01 armed)).events ≡ service_request 0x60 ∷ []
unfolding reg_set_bits reg_set rounds round dispatch update_request summarise latch
opc_again = refl

rounds_enough_example : rounds 3 operc 0x05 armed ≡ some (set_spec operc 0x05 armed)
rounds_enough_example = rounds_enough 0 operc 0x05 armed refl

reg_set-IsConsistent_example : IsConsistent (reg_set esr 0x01 armed).registers
reg_set-IsConsistent_example = reg_set-IsConsistent esr 0x01 armed refl

reg_set-event_example :
    (reg_get (reg_set esr 0x81 armed) esr ≡ 0x81)
    × (bit 5 (reg_set esr 0x81 armed).registers.stb ≡ (
        if 5 == summary_bit esr
        then if enabled esr 0x81 armed then 1 else 0
        else bit 5 armed.registers.stb))
reg_set-event_example = reg_set-event 5 0x81 armed of_esr (omega arith) (omega arith)

-- Bit 2 of the condition register rises, bit 1 falls, and bit 4 of the event register stays.
reg_set-latch_example :
    bit 2 (reg_get (reg_set operc 0x05 armed) oper)
    ≡ max (bit 2 (reg_get armed oper)) (min (bit 2 0x05) (1 - bit 2 (reg_get armed operc)))
reg_set-latch_example = reg_set-latch 2 0x05 armed of_operc (omega arith)
