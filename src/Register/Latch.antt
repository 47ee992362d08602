-- ===== src/Register/Latch.antt =====
-- libscpi/src/ieee488.c: condition registers and the event registers of their groups.
use Prim.Native.Nat.{bit_and, bit_xor}
use scpi_parser.Base.{ℕ, ◌-◌, ◌≡◌, ◌≢◌, ◌∙◌, ap, false, ◌==◌, arith, min, max}
use scpi_parser.Base.Bits.{bit, bit_lt, bit-bit_and, bit-bit_or, bit-bit_xor}
use scpi_parser.Context.{RegName, operc, quesc, Context}
use scpi_parser.Register.{group_info, reg_group, reg_get, latch, reg_set, update_request}
use scpi_parser.Register.Loop.{
  reg_set_lem, IsEvent, of_oper, of_ques, IsCondition, of_operc, of_quesc,
}
use scpi_parser.Register.Summary.{set_event-get}

-- Bits that are set in `val` and were clear in `old`.
latch-bit :
    {n m : RegName} (k old val : ℕ) (c : Context)
    → IsCondition n m
    → bit k (latch (group_info (reg_group n)) old val c)
      ≡ max (bit k (reg_get c m)) (min (bit k val) (1 - bit k old))
unfolding latch
latch-bit k old val c of_operc = omega (
  arith,
  bit-bit_or k (bit_and (bit_xor old val) val) c.registers.oper,
  bit-bit_and k (bit_xor old val) val,
  bit-bit_xor k old val,
  bit_lt k old,
  bit_lt k val,
)
latch-bit k old val c of_quesc = omega (
  arith,
  bit-bit_or k (bit_and (bit_xor old val) val) c.registers.ques,
  bit-bit_and k (bit_xor old val) val,
  bit-bit_xor k old val,
  bit_lt k old,
  bit_lt k val,
)

update_request-condition :
    {n m : RegName} (old val : ℕ) (c : Context)
    → IsCondition n m
    → reg_get (update_request old val c) n ≡ reg_get c n
unfolding update_request
update_request-condition old val c of_operc = ground arith
update_request-condition old val c of_quesc = ground arith

IsCondition-IsEvent : {n m : RegName} → IsCondition n m → IsEvent m
IsCondition-IsEvent of_operc = of_oper
IsCondition-IsEvent of_quesc = of_ques

-- Setting a condition register to a new value leaves in its event register, at each bit, the old
-- event or a condition that has just risen: an event is latched, and never cleared.
pub reg_set-latch :
    {n m : RegName} (k val : ℕ) (c : Context)
    → IsCondition n m
    → reg_get c n ≢ val
    → bit k (reg_get (reg_set n val c) m)
      ≡ max (bit k (reg_get c m)) (min (bit k val) (1 - bit k (reg_get c n)))
reg_set-latch k val c of_operc h = rw reg_set_lem (
    rw (differs operc h)
      (ap (bit k) (set_event-get _ _ of_oper) ∙ latch-bit k (reg_get c operc) val _ of_operc))
  where
    differs : (n : RegName) → reg_get c n ≢ val → (reg_get c n == val) ≡ false
    differs n h = ground arith
reg_set-latch k val c of_quesc h = rw reg_set_lem (
    rw (differs quesc h)
      (ap (bit k) (set_event-get _ _ of_ques) ∙ latch-bit k (reg_get c quesc) val _ of_quesc))
  where
    differs : (n : RegName) → reg_get c n ≢ val → (reg_get c n == val) ≡ false
    differs n h = ground arith
