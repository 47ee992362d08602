-- ===== src/Register/Request.antt =====
-- libscpi/src/ieee488.c: the service request bit of the status byte (STB_SRQ, bit 6).
use Prim.Native.Nat.{bit_and, bit_or}
use scpi_parser.Base.{
  ℕ, zero, suc, ◌≡◌, refl, Bool, ◌==◌, if◌then◌else◌, arith, Bool-cases, inl, inr, min,
}
use scpi_parser.Base.Bits.{
  bit, bit_lt, bit-zero, bit-bit_and, bit-bit_or, and_or_disjoint, and_and_self,
}
use scpi_parser.Context.{
  RegName, stb, sre, esr, ese, oper, opere, operc, ques, quese, quesc, no_reg, Registers, Context,
}
use scpi_parser.Register.{
  group_info, reg_group, stb_srq, not16, nonzero, assign, reg_get, update_request, reg_set,
}
use scpi_parser.Register.Loop.{
  set_status, set_event, set_enable, set_condition, set_spec, reg_set_lem,
}

-- Some bit other than STB_SRQ is set in the status byte and enabled in SRE.
abbrev pub requested : Registers → Bool
requested r = nonzero (bit_and (bit_and r.stb (not16 stb_srq)) (bit_and r.sre (not16 stb_srq)))

abbrev pub IsConsistent : Registers → Type 0
IsConsistent r = bit 6 r.stb ≡ (if requested r then 1 else 0)

-- Not STB or SRE.
abbrev pub NotStatus : RegName → Type 0
NotStatus stb = ⊥
NotStatus sre = ⊥
NotStatus _ = Unit {0}

srq_disjoint : (k : ℕ) → min (bit k stb_srq) (bit k (not16 stb_srq)) ≡ 0
srq_disjoint zero = refl
srq_disjoint (suc zero) = refl
srq_disjoint (suc (suc zero)) = refl
srq_disjoint (suc (suc (suc zero))) = refl
srq_disjoint (suc (suc (suc (suc zero)))) = refl
srq_disjoint (suc (suc (suc (suc (suc zero))))) = refl
srq_disjoint (suc (suc (suc (suc (suc (suc zero)))))) = refl
srq_disjoint (suc (suc (suc (suc (suc (suc (suc k))))))) = omega (arith, bit-zero k)

raised_bit : (x : ℕ) → bit 6 (bit_or x stb_srq) ≡ 1
raised_bit x = omega (arith, bit-bit_or 6 x stb_srq, bit_lt 6 x)

cleared_bit : (x : ℕ) → bit 6 (bit_and x (not16 stb_srq)) ≡ 0
cleared_bit x = omega (arith, bit-bit_and 6 x (not16 stb_srq))

pub update_request-IsConsistent :
    (old val : ℕ) (c : Context) → IsConsistent (update_request old val c).registers
unfolding update_request
update_request-IsConsistent old val c = ground (
  arith,
  raised_bit c.registers.stb,
  cleared_bit c.registers.stb,
  and_or_disjoint c.registers.stb stb_srq (not16 stb_srq) srq_disjoint,
  and_and_self c.registers.stb (not16 stb_srq),
)

set_status-IsConsistent :
    (n : RegName) (val : ℕ) (c : Context)
    → IsConsistent c.registers
    → IsConsistent (set_status n val c).registers
set_status-IsConsistent n val c h = elim (Bool-cases (reg_get c n == val)) [
  | inl e ↦ rw e h
  | inr e ↦ rw e (update_request-IsConsistent (reg_get c n) val (assign n val c))
]

assign-IsConsistent :
    (n : RegName) (val : ℕ) (c : Context)
    → NotStatus n
    → IsConsistent c.registers
    → IsConsistent (assign n val c).registers
assign-IsConsistent stb val c k h = elim k [ ]
assign-IsConsistent sre val c k h = elim k [ ]
assign-IsConsistent esr val c k h = h
assign-IsConsistent ese val c k h = h
assign-IsConsistent oper val c k h = h
assign-IsConsistent opere val c k h = h
assign-IsConsistent operc val c k h = h
assign-IsConsistent ques val c k h = h
assign-IsConsistent quese val c k h = h
assign-IsConsistent quesc val c k h = h
assign-IsConsistent no_reg val c k h = h

set_event-IsConsistent :
    (n : RegName) (val : ℕ) (c : Context)
    → NotStatus n
    → IsConsistent c.registers
    → IsConsistent (set_event n val c).registers
set_event-IsConsistent n val c k h = elim (Bool-cases (reg_get c n == val)) [
  | inl e ↦ rw e h
  | inr e ↦ rw e (set_status-IsConsistent stb _ (assign n val c) (assign-IsConsistent n val c k h))
]

set_condition-IsConsistent :
    (n : RegName) (val : ℕ) (c : Context)
    → NotStatus n
    → NotStatus (group_info (reg_group n)).event
    → IsConsistent c.registers
    → IsConsistent (set_condition n val c).registers
set_condition-IsConsistent n val c k l h = elim (Bool-cases (reg_get c n == val)) [
  | inl e ↦ rw e h
  | inr e ↦ rw e (set_event-IsConsistent _ _ (assign n val c) l (assign-IsConsistent n val c k h))
]

set_enable-IsConsistent :
    (n : RegName) (val : ℕ) (c : Context)
    → NotStatus n
    → IsConsistent c.registers
    → IsConsistent (set_enable n val c).registers
set_enable-IsConsistent n val c k h = elim (Bool-cases (reg_get c n == val)) [
  | inl e ↦ rw e h
  | inr e ↦ rw e (assign-IsConsistent n val c k h)
]

set_spec-IsConsistent :
    (n : RegName) (val : ℕ) (c : Context)
    → IsConsistent c.registers
    → IsConsistent (set_spec n val c).registers
set_spec-IsConsistent stb val c h = set_status-IsConsistent stb val c h
set_spec-IsConsistent sre val c h = set_status-IsConsistent sre val c h
set_spec-IsConsistent esr val c h = set_event-IsConsistent esr val c tt h
set_spec-IsConsistent oper val c h = set_event-IsConsistent oper val c tt h
set_spec-IsConsistent ques val c h = set_event-IsConsistent ques val c tt h
set_spec-IsConsistent operc val c h = set_condition-IsConsistent operc val c tt tt h
set_spec-IsConsistent quesc val c h = set_condition-IsConsistent quesc val c tt tt h
set_spec-IsConsistent ese val c h = set_enable-IsConsistent ese val c tt h
set_spec-IsConsistent opere val c h = set_enable-IsConsistent opere val c tt h
set_spec-IsConsistent quese val c h = set_enable-IsConsistent quese val c tt h
set_spec-IsConsistent no_reg val c h = h

-- Whatever register is set to whatever value, the service request bit of the status byte stays
-- set exactly when an enabled bit of the status byte is set.
pub reg_set-IsConsistent :
    (n : RegName) (val : ℕ) (c : Context)
    → IsConsistent c.registers
    → IsConsistent (reg_set n val c).registers
reg_set-IsConsistent n val c h = rw reg_set_lem (set_spec-IsConsistent n val c h)
