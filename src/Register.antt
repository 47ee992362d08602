-- ===== src/Register.antt =====
-- The status registers: the tables, SCPI_RegGet, SCPI_RegSet, SCPI_RegSetBits and
-- SCPI_RegClearBits of libscpi/src/ieee488.c, without USE_CUSTOM_REGISTERS.
pub mod Enable
pub mod Frame
pub mod Latch
pub mod Loop
pub mod Request
pub mod Summary
mod Tests
use Prim.Native.Nat.{bit_and, bit_or, bit_xor}
use scpi_parser.Base.{
  ℕ, zero, suc, ◌-◌, Bool, true, false, not, ◌&&◌, Option, none, some, ◌==◌, if◌then◌else◌,
}
use scpi_parser.Context.{
  RegName, stb, sre, esr, ese, oper, opere, operc, ques, quese, quesc, no_reg, Registers, Context,
  service_request, emit,
}

-- `scpi_reg_class_t`; the two transition filter classes belong to no register of the table.
pub data RegClass : Type 0 where
  class_stb class_sre class_even class_enab class_cond class_ntr class_ptr : RegClass

pub data RegGroup : Type 0 where
  group_stb group_esr group_oper group_ques : RegGroup

-- `scpi_reg_group_info_t`
pub record GroupInfo : Type 0 where
  pub event : RegName
  pub enable : RegName
  pub condition : RegName
  pub ptfilt : RegName
  pub ntfilt : RegName
  pub parent_reg : RegName
  pub parent_bit : ℕ

-- `scpi_reg_details[name].type`, and `.group`
abbrev pub reg_class : RegName → RegClass
reg_class stb = class_stb
reg_class sre = class_sre
reg_class esr = class_even
reg_class ese = class_enab
reg_class oper = class_even
reg_class opere = class_enab
reg_class operc = class_cond
reg_class ques = class_even
reg_class quese = class_enab
reg_class quesc = class_cond
reg_class no_reg = class_enab

abbrev pub reg_group : RegName → RegGroup
reg_group stb = group_stb
reg_group sre = group_stb
reg_group esr = group_esr
reg_group ese = group_esr
reg_group oper = group_oper
reg_group opere = group_oper
reg_group operc = group_oper
reg_group ques = group_ques
reg_group quese = group_ques
reg_group quesc = group_ques
reg_group no_reg = group_stb

-- libscpi/inc/scpi/ieee488.h
abbrev pub stb_qma : ℕ
stb_qma = 0x04

abbrev pub stb_qes : ℕ
stb_qes = 0x08

abbrev pub stb_esr : ℕ
stb_esr = 0x20

abbrev pub stb_srq : ℕ
stb_srq = 0x40

abbrev pub stb_ops : ℕ
stb_ops = 0x80

-- `scpi_reg_group_details`
abbrev pub group_info : RegGroup → GroupInfo
group_info group_stb = record {
  event = stb;
  enable = sre;
  condition = no_reg;
  ptfilt = no_reg;
  ntfilt = no_reg;
  parent_reg = no_reg;
  parent_bit = 0;
}
group_info group_esr = record {
  event = esr;
  enable = ese;
  condition = no_reg;
  ptfilt = no_reg;
  ntfilt = no_reg;
  parent_reg = stb;
  parent_bit = stb_esr;
}
group_info group_oper = record {
  event = oper;
  enable = opere;
  condition = operc;
  ptfilt = no_reg;
  ntfilt = no_reg;
  parent_reg = stb;
  parent_bit = stb_ops;
}
group_info group_ques = record {
  event = ques;
  enable = quese;
  condition = quesc;
  ptfilt = no_reg;
  ntfilt = no_reg;
  parent_reg = stb;
  parent_bit = stb_qes;
}

abbrev pub is_reg : RegName → Bool
is_reg no_reg = false
is_reg _ = true

-- `context->registers[name]`, and an assignment to it
abbrev pub read : Registers → RegName → ℕ
read r stb = r.stb
read r sre = r.sre
read r esr = r.esr
read r ese = r.ese
read r oper = r.oper
read r opere = r.opere
read r operc = r.operc
read r ques = r.ques
read r quese = r.quese
read r quesc = r.quesc
read r no_reg = 0

abbrev pub write : RegName → ℕ → Registers → Registers
write stb v r = record r { stb = v }
write sre v r = record r { sre = v }
write esr v r = record r { esr = v }
write ese v r = record r { ese = v }
write oper v r = record r { oper = v }
write opere v r = record r { opere = v }
write operc v r = record r { operc = v }
write ques v r = record r { ques = v }
write quese v r = record r { quese = v }
write quesc v r = record r { quesc = v }
write no_reg v r = r

abbrev pub assign : RegName → ℕ → Context → Context
assign n v c = record c { registers = write n v c.registers }

-- `~x` on `uint16_t`
abbrev pub not16 : ℕ → ℕ
not16 x = 0xffff - x

abbrev pub nonzero : ℕ → Bool
nonzero x = not (x == 0)

abbrev pub reg_get : Context → RegName → ℕ
reg_get c n = read c.registers n

-- SCPI_RegGet of a name that may be SCPI_REG_NONE, with the value to use for that.
abbrev pub get_unless_none : Context → RegName → ℕ → ℕ
get_unless_none c n default = if is_reg n then reg_get c n else default

-- `writeControl(context, SCPI_CTRL_SRQ, ...)`
abbrev pub write_control : ℕ → Context → Context
write_control v c = if c.interface.has_control then emit (service_request v) c else c

-- The classes STB and SRE: recompute the service request bit of STB.
pub update_request : ℕ → ℕ → Context → Context
update_request old val c =
    let status = bit_and c.registers.stb (not16 stb_srq) in
    let enabled = bit_and c.registers.sre (not16 stb_srq) in
    let ptrans = bit_and (bit_xor old val) val in
    let raised = assign stb (bit_or c.registers.stb stb_srq) c in
    if nonzero (bit_and status enabled)
    then if nonzero (bit_and ptrans val) then write_control raised.registers.stb raised else raised
    else assign stb (bit_and c.registers.stb (not16 stb_srq)) c

-- The class EVEN: the new value of the parent register.
pub summarise : GroupInfo → ℕ → Context → ℕ
summarise g val c =
    let parent = reg_get c g.parent_reg in
    if nonzero (bit_and val (get_unless_none c g.enable 0xffff))
    then bit_or parent g.parent_bit
    else bit_and parent (not16 g.parent_bit)

-- The class COND: the new value of the event register.
pub latch : GroupInfo → ℕ → ℕ → Context → ℕ
latch g old val c =
    let transitions = bit_xor old val in
    let ptrans = bit_and transitions val in
    let ntrans = bit_and transitions (not16 ptrans) in
    let filtered =
      bit_or (bit_and ptrans (get_unless_none c g.ptfilt 0))
        (bit_and ntrans (get_unless_none c g.ntfilt 0)) in
    if not (is_reg g.ptfilt) && not (is_reg g.ntfilt)
    then bit_or ptrans (reg_get c g.event)
    else bit_or filtered (reg_get c g.event)

-- One round of the loop of SCPI_RegSet: it returns, or goes round with a new name and value.
pub data Round : Type 0 where
  returns : Context → Round
  again : RegName → ℕ → Context → Round

-- The switch, and the condition of the loop.
pub dispatch : RegClass → GroupInfo → RegName → ℕ → ℕ → Context → Round
dispatch class_stb g n old val c =
    let c' = update_request old val c in if is_reg g.parent_reg then again n val c' else returns c'
dispatch class_sre g n old val c =
    let c' = update_request old val c in if is_reg g.parent_reg then again n val c' else returns c'
dispatch class_even g n old val c =
    if is_reg g.parent_reg then again g.parent_reg (summarise g val c) c else returns c
dispatch class_cond g n old val c =
    if is_reg g.parent_reg then again g.event (latch g old val c) c else returns c
dispatch class_enab g n old val c = returns c
dispatch class_ntr g n old val c = returns c
dispatch class_ptr g n old val c = returns c

pub round : RegName → ℕ → Context → Round
round n val c =
    let old = reg_get c n in
    if old == val
    then returns c
    else dispatch (reg_class n) (group_info (reg_group n)) n old val (assign n val c)

-- `none` means that the fuel has run out.
pub rounds : ℕ → RegName → ℕ → Context → Option Context
rounds zero n val c = none
rounds (suc fuel) n val c = elim (round n val c) [
  | returns c' ↦ some c'
  | again n' val' c' ↦ rounds fuel n' val' c'
]

-- A condition register, its event register, and the status byte.
abbrev pub set_fuel : ℕ
set_fuel = 3

abbrev pub or_else : Option Context → Context → Context
or_else none c = c
or_else (some c') c = c'

pub reg_set : RegName → ℕ → Context → Context
reg_set n val c = if not (is_reg n) then c else or_else (rounds set_fuel n val c) c

unfoldable pub reg_set_bits : RegName → ℕ → Context → Context
reg_set_bits n bits c = reg_set n (bit_or (reg_get c n) bits) c

unfoldable pub reg_clear_bits : RegName → ℕ → Context → Context
reg_clear_bits n bits c = reg_set n (bit_and (reg_get c n) (not16 bits)) c
