-- ===== src/ErrorQueue/Frame.antt =====
-- libscpi/src/error.c: which parts of the context the reports of an error touch.
use scpi_parser.Base.{List, [], ◌∷◌, arith, Bool-cases, inl, inr, ℤ, pos, ◌&&◌, ◌==◌, Bool}
use Prim.Native.Nat.{bit_and}
use scpi_parser.Context.{Context, stb, esr}
use scpi_parser.Register.Frame.{
  SameRest, SameRest-refl, SameRest-trans, reg_set_bits-SameRest, reg_clear_bits-SameRest,
}
use scpi_parser.Register.{reg_get, nonzero, reg_set_bits, reg_clear_bits, stb_qma}
use scpi_parser.ErrorQueue.{
  report, error_emit, error_emit_empty, error_count, set_classes, ErrorReg, in_class,
}

report-SameRest : (e : ℤ) (c : Context) → SameRest c (report e c)
report-SameRest e c = ground arith

pub error_emit-SameRest : (e : ℤ) (c : Context) → SameRest c (error_emit e c)
unfolding error_emit
error_emit-SameRest e c =
    SameRest-trans (reg_set_bits-SameRest stb stb_qma c)
      (report-SameRest e (reg_set_bits stb stb_qma c))

pub set_classes-SameRest :
    (e : ℤ) (rs : List ErrorReg) (c : Context) → SameRest c (set_classes e rs c)
unfolding set_classes
set_classes-SameRest e [] c = SameRest-refl c
set_classes-SameRest e (r ∷ rs) c = elim (Bool-cases (in_class e r)) [
  | inl h ↦
      rw h (SameRest-trans (reg_set_bits-SameRest esr r.esr_bit c) (set_classes-SameRest e rs _))
  | inr h ↦ rw h (set_classes-SameRest e rs c)
]

pub error_emit_empty-SameRest : (c : Context) → SameRest c (error_emit_empty c)
unfolding error_emit_empty
error_emit_empty-SameRest c = elim (Bool-cases test) [
  | inl h ↦ rw h (
      SameRest-trans (reg_clear_bits-SameRest stb stb_qma c)
        (report-SameRest (pos 0) (reg_clear_bits stb stb_qma c)))
  | inr h ↦ rw h (SameRest-refl c)
]
  where
    test : Bool
    test = (error_count c == 0) && nonzero (bit_and (reg_get c stb) stb_qma)
