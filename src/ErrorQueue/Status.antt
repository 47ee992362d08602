-- ===== src/ErrorQueue/Status.antt =====
-- libscpi/src/error.c: the bit STB_QMA (bit 2) of the status byte beside the error queue.
use Prim.Native.Nat.{bit_and}
use scpi_parser.Base.{
  ℕ, ◌<◌, ◌≡◌, ◌≢◌, refl, ap, ◌∙◌, Bool, true, false, Option, List, [], ◌∷◌, arith, length,
  length-append, if◌then◌else◌, Bool-cases, inl, inr, Option-cases, Bytes, ℤ, ◌==◌,
}
use scpi_parser.Base.Bits.{bit, bit_lt, bit-bit_and, bit-bit_or}
use scpi_parser.Context.{Context, stb, esr}
use scpi_parser.Fifo.Queue.{Error, Queue, unsnoc}
use scpi_parser.Fifo.Refine.{contents, length-contents}
use scpi_parser.Fifo.Valid.{IsValid, count-remove, fifo_remove-none, fifo_clear-fields}
use scpi_parser.Fifo.{Fifo, fifo_count, fifo_remove}
use scpi_parser.Register.Request.{IsConsistent, reg_set-IsConsistent}
use scpi_parser.Register.Summary.{IsPlain, reg_set-stb}
use scpi_parser.Register.{reg_set_bits, reg_clear_bits, stb_qma, nonzero, not16}
use scpi_parser.ErrorQueue.Frame.{error_emit_empty-SameRest}
use scpi_parser.ErrorQueue.Contents.{
  error_push_ex-contents, push_spec, pushed, replace_newest, overflow,
}
use scpi_parser.ErrorQueue.{
  replace_last, report, error_emit, error_emit_empty, error_count, set_classes, errs, ErrorReg,
  in_class, error_push_ex, error_pop, error_clear, error_add_internal, text_length, queue_overflow,
}

qma-IsPlain : IsPlain 2
qma-IsPlain = omega arith

raised : (c : Context) → bit 2 (reg_set_bits stb stb_qma c).registers.stb ≡ 1
unfolding reg_set_bits
raised c =
    reg_set-stb 2 _ c qma-IsPlain
    ∙ omega (arith, bit-bit_or 2 c.registers.stb stb_qma, bit_lt 2 c.registers.stb)

lowered : (c : Context) → bit 2 (reg_clear_bits stb stb_qma c).registers.stb ≡ 0
unfolding reg_clear_bits
lowered c =
    reg_set-stb 2 _ c qma-IsPlain ∙ omega (arith, bit-bit_and 2 c.registers.stb (not16 stb_qma))

report-registers : (e : ℤ) (c : Context) → (report e c).registers ≡ c.registers
report-registers e c = ground arith

error_emit-bit : (e : ℤ) (c : Context) → bit 2 (error_emit e c).registers.stb ≡ 1
unfolding error_emit
error_emit-bit e c = rw report-registers (raised c)

error_emit-IsConsistent :
    (e : ℤ) (c : Context) → IsConsistent c.registers → IsConsistent (error_emit e c).registers
unfolding error_emit
error_emit-IsConsistent e c h =
    rw report-registers (unfold reg_set_bits in reg_set-IsConsistent stb _ c h)

set_class-IsConsistent :
    (b : Bool) (r : ErrorReg) (c : Context)
    → IsConsistent c.registers
    → IsConsistent (if b then reg_set_bits esr r.esr_bit c else c).registers
unfolding reg_set_bits
set_class-IsConsistent true r c h = reg_set-IsConsistent esr _ c h
set_class-IsConsistent false r c h = h

set_classes-IsConsistent :
    (e : ℤ) (rs : List ErrorReg) (c : Context)
    → IsConsistent c.registers
    → IsConsistent (set_classes e rs c).registers
unfolding set_classes
set_classes-IsConsistent e [] c h = h
set_classes-IsConsistent e (r ∷ rs) c h =
    set_classes-IsConsistent e rs _ (set_class-IsConsistent (in_class e r) r c h)

error_add_internal-registers :
    (code : ℤ) (info : Option Bytes) (n : ℕ) (c : Context)
    → (error_add_internal code info n c).1.registers ≡ c.registers
unfolding error_add_internal replace_last
error_add_internal-registers code info n c = ground arith

-- STB_QMA is set exactly when the queue holds an error.
abbrev pub Mirrors : Context → Type 0
Mirrors c = bit 2 c.registers.stb ≡ (if error_count c == 0 then 0 else 1)

error_count-emit_empty : (c : Context) → error_count (error_emit_empty c) ≡ error_count c
unfolding error_count
error_count-emit_empty c = ap fifo_count (error_emit_empty-SameRest c).same_queue

error_emit_empty-bit :
    (c : Context)
    → (error_count c ≢ 0 → bit 2 c.registers.stb ≡ 1)
    → bit 2 (error_emit_empty c).registers.stb ≡ (if error_count c == 0 then 0 else 1)
unfolding error_emit_empty
error_emit_empty-bit c h = elim (Bool-cases (error_count c == 0)) [
  | inl e ↦ elim (Bool-cases (nonzero (bit_and c.registers.stb stb_qma))) [
    | inl t ↦ rw (e, t) (rw report-registers (lowered c))
    | inr t ↦
        rw (e, t) (ground (arith, bit-bit_and 2 c.registers.stb stb_qma, bit_lt 2 c.registers.stb))
  ]
  | inr e ↦ rw e (h (ground arith))
]

error_emit_empty-Mirrors :
    (c : Context) → (error_count c ≢ 0 → bit 2 c.registers.stb ≡ 1) → Mirrors (error_emit_empty c)
error_emit_empty-Mirrors c h = rw error_count-emit_empty (error_emit_empty-bit c h)

length-replace_newest : (e : Error) (q : Queue) → 0 < length (replace_newest e q)
length-replace_newest e [] = omega arith
length-replace_newest e (d ∷ q) = omega (arith, length-append {0} (unsnoc d q).1 (e ∷ []))

length-push_spec : (size : ℕ) (e : Error) (q : Queue) → 0 < length (push_spec size e q)
length-push_spec size e q =
    ground (arith, length-append {0} q (e ∷ []), length-replace_newest overflow q)

error_count-push :
    (code : ℤ) (info : Option Bytes) (n : ℕ) (c : Context)
    → IsValid c.error_queue
    → error_count (error_push_ex code info n c) ≢ 0
unfolding error_count
error_count-push code info n c v e = omega (
  arith,
  length-contents (error_push_ex code info n c).error_queue,
  length-push_spec c.error_queue.size (pushed code info n c) (contents c.error_queue),
  ap length (error_push_ex-contents code info n c v),
  e',
)
  where
    e' : (error_push_ex code info n c).error_queue.count ≡ 0
    e' = unfold fifo_count in e

-- Whatever error is pushed, and whether or not the queue was full, STB_QMA is set afterwards, and
-- the queue is not empty; the service request bit stays consistent.
pub error_push_ex-status :
    (code : ℤ) (info : Option Bytes) (n : ℕ) (c : Context)
    → IsValid c.error_queue
    → IsConsistent c.registers
    → let c' = error_push_ex code info n c in
      (bit 2 c'.registers.stb ≡ 1)
      × (error_count c' ≢ 0)
      × IsConsistent c'.registers
      × (c'.cmd_error ≡ true)
unfolding error_push_ex
error_push_ex-status code info n c v h =
    elim (Bool-cases (error_add_internal code info (text_length info n) c).0) [
      | inl t ↦ (rw t (error_emit-bit code _), error_count-push code info n c v, rw t one, refl)
      | inr t ↦ (
        rw t (error_emit-bit queue_overflow _),
        error_count-push code info n c v,
        rw t (error_emit-IsConsistent queue_overflow _ one),
        refl,
      )
    ]
  where
    c1 : Context
    c1 = (error_add_internal code info (text_length info n) c).1

    one : IsConsistent (error_emit code (set_classes code errs c1)).registers
    one =
        error_emit-IsConsistent code _
          (set_classes-IsConsistent code errs c1 (rw error_add_internal-registers h))

pub error_push_ex-Mirrors :
    (code : ℤ) (info : Option Bytes) (n : ℕ) (c : Context)
    → IsValid c.error_queue
    → IsConsistent c.registers
    → Mirrors (error_push_ex code info n c)
error_push_ex-Mirrors code info n c v h = ground (arith, error_push_ex-status code info n c v h)

count_le_remove : (f : Fifo) → (fifo_remove f).1.count ≢ 0 → f.count ≢ 0
count_le_remove f h e = h (elim (Option-cases (fifo_remove f).0) [
  | inl n ↦ rw (fifo_remove-none f n) e
  | inr (d, s) ↦ omega (arith, count-remove f s)
])

-- Popping an error keeps STB_QMA in step with the queue: it is cleared when the last error goes.
pub error_pop-Mirrors : (c : Context) → Mirrors c → Mirrors (error_pop c).1
unfolding error_pop error_count fifo_count
error_pop-Mirrors c m =
    error_emit_empty-Mirrors _ (λ h. m ∙ rw (some_left (count_le_remove c.error_queue h)))
  where
    some_left : c.error_queue.count ≢ 0 → (fifo_count c.error_queue == 0) ≡ false
    some_left h = ground arith

-- After SCPI_ErrorClear STB_QMA is clear, whatever it was before.
pub error_clear-Mirrors : (c : Context) → Mirrors (error_clear c)
unfolding error_clear error_count fifo_count
error_clear-Mirrors c = error_emit_empty-Mirrors _ (λ h. absurd (h (fifo_clear-fields _).0))
