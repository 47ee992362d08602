-- ===== src/ErrorQueue.antt =====
-- libscpi/src/error.c: the error queue, and what an error does to the status registers. The build
-- has USE_DEVICE_DEPENDENT_ERROR_INFORMATION and USE_MEMORY_ALLOCATION_FREE, as on a full system;
-- `strnlen` and `strndup` are BSD_strnlen and OUR_strndup of libscpi/src/utils.c, and `malloc` and
-- `free` the allocator of `Context.Heap`.
pub mod Classes
pub mod Clear
pub mod Contents
pub mod Frame
pub mod Memory
pub mod Status
mod Tests
use Prim.Native.Nat.{bit_and}
use scpi_parser.Base.{
  ℕ, zero, suc, ◌+◌, Bool, true, false, not, ◌&&◌, Option, none, some, List, [], ◌∷◌, ◌==◌,
  if◌then◌else◌, length, take, Bytes, ℤ, pos, negsuc, leb_ℤ,
}
use scpi_parser.Context.{Context, Heap, stb, esr, error_reported, emit}
use scpi_parser.Fifo.Queue.{Error, no_error}
use scpi_parser.Fifo.{
  Fifo, fifo_init, fifo_clear, fifo_add, fifo_remove, fifo_remove_last, fifo_count,
}
use scpi_parser.Register.{reg_get, nonzero, stb_qma, reg_set_bits, reg_clear_bits}

-- `malloc`: whether the next request succeeds.
abbrev pub supplied : List Bool → Bool
supplied [] = true
supplied (b ∷ bs) = b

abbrev pub rest_supply : List Bool → List Bool
rest_supply [] = []
rest_supply (b ∷ bs) = bs

-- The bytes before the first zero, `n` at most.
unfoldable pub strnlen : Bytes → ℕ → ℕ
strnlen [] n = 0
strnlen (c ∷ s) zero = 0
strnlen (c ∷ s) (suc n) = if c == 0 then 0 else suc (strnlen s n)

pub strndup : Bytes → ℕ → Heap → Option Bytes × Heap
strndup s n h =
    if supplied h.supply
    then (
      some (take (strnlen s n) s),
      record h { supply = rest_supply h.supply; allocated = h.allocated + 1 },
    )
    else (none, record h { supply = rest_supply h.supply })

pub free : Option Bytes → Heap → Heap
free none h = h
free (some s) h = record h { freed = h.freed + 1 }

-- Error numbers of libscpi/inc/scpi/error.h.
abbrev pub queue_overflow : ℤ
queue_overflow = negsuc 349

-- `SCPI_STD_ERROR_DESC_MAX_STRING_LENGTH`
abbrev pub max_string_length : ℕ
max_string_length = 255

-- SCPI_ERROR_SETVAL
abbrev pub set_val : ℤ → Option Bytes → Error
set_val code info = record { error_code = code; device_dependent_info = info }

pub error_init : List Error → ℕ → Context → Context
error_init slots size c = record c { error_queue = fifo_init slots size }

pub error_count : Context → ℕ
error_count c = fifo_count c.error_queue

abbrev pub report : ℤ → Context → Context
report e c = if c.interface.has_error then emit (error_reported e) c else c

pub error_emit_empty : Context → Context
error_emit_empty c =
    if (error_count c == 0) && nonzero (bit_and (reg_get c stb) stb_qma)
    then report (pos 0) (reg_clear_bits stb stb_qma c)
    else c

pub error_emit : ℤ → Context → Context
error_emit e c = report e (reg_set_bits stb stb_qma c)

-- The loop of SCPI_ErrorClear; a round removes an error, so that their count is enough fuel.
pub drain : ℕ → Context → Context
drain zero c = c
drain (suc fuel) c =
    let (e, q) = fifo_remove c.error_queue in
    elim e [
      | none ↦ c
      | some d ↦
          drain fuel (record c { error_queue = q; heap = free d.device_dependent_info c.heap })
    ]

pub error_clear : Context → Context
error_clear c =
    let c' = drain (suc (error_count c)) c in
    error_emit_empty (record c' { error_queue = fifo_clear c'.error_queue })

abbrev or_no_error : Option Error → Error
or_no_error none = no_error
or_no_error (some e) = e

-- `context` and `error` are not null.
pub error_pop : Context → Error × Context
error_pop c =
    let (e, q) = fifo_remove c.error_queue in
    (or_no_error e, error_emit_empty (record c { error_queue = q }))

abbrev removed_or : Error → Option Error → Error
removed_or e none = e
removed_or e (some d) = d

-- The branch of SCPI_ErrorAddInternal where the queue is full.
pub replace_last : Error → Context → Context
replace_last e c =
    let h = free e.device_dependent_info c.heap in
    let (last, q) = fifo_remove_last c.error_queue in
    let h' = free (removed_or e last).device_dependent_info h in
    let (_, q') = fifo_add q (some (set_val queue_overflow none)) in
    record c { error_queue = q'; heap = h' }

-- `strndup` of the text, unless it is null.
abbrev copy : Option Bytes → ℕ → Heap → Option Bytes × Heap
copy none n h = (none, h)
copy (some s) n h = strndup s n h

pub error_add_internal : ℤ → Option Bytes → ℕ → Context → Bool × Context
error_add_internal code info n c =
    let (text, h) = copy info n c.heap in
    let e = set_val code text in
    let (added, q) = fifo_add c.error_queue (some e) in
    if added
    then (true, record c { error_queue = q; heap = h })
    else (false, replace_last e (record c { error_queue = q; heap = h }))

-- `struct error_reg`
pub record ErrorReg : Type 0 where
  pub from : ℤ
  pub to : ℤ
  pub esr_bit : ℕ

-- `errs`, with the bits of libscpi/inc/scpi/ieee488.h
abbrev pub errs : List ErrorReg
errs =
    record { from = negsuc 99; to = negsuc 198; esr_bit = 0x20 }
    ∷ record { from = negsuc 199; to = negsuc 298; esr_bit = 0x10 }
    ∷ record { from = negsuc 299; to = negsuc 398; esr_bit = 0x08 }
    ∷ record { from = pos 1; to = pos 32767; esr_bit = 0x08 }
    ∷ record { from = negsuc 399; to = negsuc 498; esr_bit = 0x04 }
    ∷ record { from = negsuc 499; to = negsuc 598; esr_bit = 0x80 }
    ∷ record { from = negsuc 599; to = negsuc 698; esr_bit = 0x40 }
    ∷ record { from = negsuc 699; to = negsuc 798; esr_bit = 0x02 }
    ∷ record { from = negsuc 799; to = negsuc 898; esr_bit = 0x01 }
    ∷ []

abbrev pub in_class : ℤ → ErrorReg → Bool
in_class code r = leb_ℤ code r.from && leb_ℤ r.to code

pub set_classes : ℤ → List ErrorReg → Context → Context
set_classes code [] c = c
set_classes code (r ∷ rs) c =
    set_classes code rs (if in_class code r then reg_set_bits esr r.esr_bit c else c)

abbrev text_length : Option Bytes → ℕ → ℕ
text_length none n = n
text_length (some s) n = if n == 0 then strnlen s max_string_length else n

unfoldable pub error_push_ex : ℤ → Option Bytes → ℕ → Context → Context
error_push_ex code info n c =
    let (added, c1) = error_add_internal code info (text_length info n) c in
    let c2 = error_emit code (set_classes code errs c1) in
    let c3 = if added then c2 else error_emit queue_overflow c2 in record c3 { cmd_error = true }

unfoldable pub error_push : ℤ → Context → Context
error_push code = error_push_ex code none 0
