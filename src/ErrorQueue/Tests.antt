-- ===== src/ErrorQueue/Tests.antt =====
-- The error queue on a ring of two errors, and instances of the theorems.
use scpi_parser.Base.{
  ◌+◌, ◌/◌, ◌≡◌, ◌≢◌, refl, true, false, some, none, [], ◌∷◌, arith, Bytes, pos, negsuc, length,
}
use scpi_parser.Base.Bits.{bit}
use scpi_parser.Context.{Context, esr}
use scpi_parser.Fifo.Queue.{no_error}
use scpi_parser.Fifo.Refine.{contents}
use scpi_parser.Fifo.Valid.{IsValid, fifo_init-IsValid}
use scpi_parser.Fifo.{Fifo, fifo_init, fifo_count}
use scpi_parser.Register.Request.{IsConsistent}
use scpi_parser.Register.{reg_set_bits}
use scpi_parser.ErrorQueue.Classes.{class_bit, set_classes-standard, set_classes-positive}
use scpi_parser.ErrorQueue.Clear.{error_clear_lem}
use scpi_parser.ErrorQueue.Contents.{error_push_ex-contents, push_spec, pushed}
use scpi_parser.ErrorQueue.Memory.{
  IsBalanced, owned, owned1, error_push_ex-IsBalanced, error_pop-balance,
}
use scpi_parser.ErrorQueue.Status.{
  Mirrors, error_push_ex-status, error_pop-Mirrors, error_clear-Mirrors,
}
use scpi_parser.ErrorQueue.{
  error_count, error_push_ex, error_pop, error_clear, set_classes, errs, strnlen,
}

abbrev ring : Fifo
ring = fifo_init (no_error ∷ no_error ∷ []) 2

abbrev device : Context
device = record {
  interface = record {
    has_error = true;
    has_control = true;
    has_flush = true;
    has_reset = true;
    write_result = length;
  };
  output_count = 0;
  first_output = true;
  cmd_error = false;
  arbitrary_remaining = 0;
  error_queue = ring;
  heap = record { supply = []; allocated = 0; freed = 0 };
  registers = record {
    stb = 0;
    sre = 0;
    esr = 0;
    ese = 0;
    oper = 0;
    opere = 0;
    operc = 0;
    ques = 0;
    quese = 0;
    quesc = 0;
  };
  events = [];
}

-- "ab" as the text of an error.
abbrev text : Bytes
text = b'a' ∷ b'b' ∷ []

device-IsValid : IsValid device.error_queue
device-IsValid = fifo_init-IsValid _ 2 (omega arith) (omega arith) (omega arith)

strnlen_stops : (strnlen (b'a' ∷ 0 ∷ b'b' ∷ []) 9 ≡ 1) × (strnlen text 1 ≡ 1)
unfolding strnlen
strnlen_stops = (refl, refl)

error_push_ex-contents_example :
    contents (error_push_ex (negsuc 112) (some text) 0 device).error_queue
    ≡ push_spec device.error_queue.size
        (pushed (negsuc 112) (some text) 0 device)
        (contents device.error_queue)
error_push_ex-contents_example =
    error_push_ex-contents (negsuc 112) (some text) 0 device device-IsValid

error_push_ex-IsBalanced_example : IsBalanced (error_push_ex (negsuc 112) (some text) 0 device)
unfolding fifo_init
error_push_ex-IsBalanced_example =
    error_push_ex-IsBalanced (negsuc 112) (some text) 0 device device-IsValid refl

error_pop-balance_test :
    (error_pop device).1.heap.allocated
    ≡ (error_pop device).1.heap.freed
      + owned1 (error_pop device).0.device_dependent_info
      + owned (contents (error_pop device).1.error_queue)
unfolding fifo_init
error_pop-balance_test = error_pop-balance device device-IsValid refl

error_clear_lem_example :
    (contents (error_clear device).error_queue ≡ [])
    × IsValid (error_clear device).error_queue
    × ((error_clear device).error_queue.size ≡ device.error_queue.size)
    × ((error_clear device).heap.freed ≡ (error_clear device).heap.allocated)
unfolding fifo_init
error_clear_lem_example = error_clear_lem device device-IsValid refl

error_push_ex-status_example :
    (bit 2 (error_push_ex (pos 7) none 0 device).registers.stb ≡ 1)
    × (error_count (error_push_ex (pos 7) none 0 device) ≢ 0)
    × IsConsistent (error_push_ex (pos 7) none 0 device).registers
    × ((error_push_ex (pos 7) none 0 device).cmd_error ≡ true)
error_push_ex-status_example = error_push_ex-status (pos 7) none 0 device device-IsValid refl

error_pop-Mirrors_example : Mirrors (error_pop device).1
unfolding error_count fifo_init fifo_count
error_pop-Mirrors_example = error_pop-Mirrors device refl

error_clear-Mirrors_test : Mirrors (error_clear device)
error_clear-Mirrors_test = error_clear-Mirrors device

set_classes-standard_test :
    set_classes (negsuc 112) errs device ≡ reg_set_bits esr (class_bit ((112 + 1) / 100)) device
set_classes-standard_test = set_classes-standard 112 device (omega arith) (omega arith)

set_classes-positive_example : set_classes (pos 7) errs device ≡ device
set_classes-positive_example = set_classes-positive 7 device
