-- ===== src/Register/Summary.antt =====
-- How a change of an event register reaches the status byte, and how a change of a condition
-- register reaches its event register.
use Prim.Native.Nat.{bit_and}
use scpi_parser.Base.{
  ℕ, ◌-◌, ◌^◌, ◌<◌, ◌≡◌, ◌≢◌, refl, ◌∙◌, Bool, false, ◌==◌, if◌then◌else◌, arith, Bool-cases, inl,
  inr, ==_iff,
}
use scpi_parser.Base.Bits.{bit, bit_lt, bit-bit_and, bit-bit_or, bit-pow_ne, bit_complement}
use scpi_parser.Context.{RegName, stb, esr, oper, ques, Context}
use scpi_parser.Register.{
  group_info, reg_group, stb_srq, not16, nonzero, assign, reg_get, update_request, summarise,
  reg_set,
}
use scpi_parser.Register.Loop.{
  set_status, set_event, set_spec, reg_set_lem, IsEvent, of_esr, of_oper, of_ques,
}

-- A bit of the status byte other than the service request bit.
pub record IsPlain (k : ℕ) : Type 0 where
  pub word : k < 16
  pub plain : k ≢ 6

pub bit-not16 : (k x : ℕ) → k < 16 → x < 65536 → bit k (not16 x) ≡ 1 - bit k x
bit-not16 k x h l = omega (arith, bit_complement 16 k x (not16 x) h (omega arith))

update_request-bit :
    (k old val : ℕ) (c : Context)
    → IsPlain k
    → bit k (update_request old val c).registers.stb ≡ bit k c.registers.stb
unfolding update_request
update_request-bit k old val c p = ground (
  arith,
  bit-bit_or k c.registers.stb stb_srq,
  bit-bit_and k c.registers.stb (not16 stb_srq),
  bit-not16 k stb_srq,
  bit-pow_ne k 6,
  bit_lt k c.registers.stb,
)

set_status-bit :
    (k val : ℕ) (c : Context) → IsPlain k → bit k (set_status stb val c).registers.stb ≡ bit k val
set_status-bit k val c p = elim (Bool-cases (reg_get c stb == val)) [
  | inl e ↦ rw e (ground arith)
  | inr e ↦ rw e (update_request-bit k (reg_get c stb) val (assign stb val c) p)
]

-- The bit of the status byte that summarises an event register: `parent_bit` is its power of two.
abbrev pub summary_bit : RegName → ℕ
summary_bit esr = 5
summary_bit oper = 7
summary_bit ques = 3
summary_bit _ = 6

abbrev pub enable_of : RegName → RegName
enable_of n = (group_info (reg_group n)).enable

-- Some bit of `val` is enabled for the event register `n`.
abbrev pub enabled : RegName → ℕ → Context → Bool
enabled n val c = nonzero (bit_and val (reg_get c (enable_of n)))

summarise-bit :
    {n : RegName} (k val : ℕ) (c : Context)
    → IsEvent n
    → IsPlain k
    → bit k (summarise (group_info (reg_group n)) val c)
      ≡ (if k == summary_bit n then if enabled n val c then 1 else 0 else bit k c.registers.stb)
unfolding summarise
summarise-bit k val c of_esr p = ground (
  arith,
  bit-bit_or k c.registers.stb (2 ^ 5),
  bit-bit_and k c.registers.stb (not16 (2 ^ 5)),
  bit-not16 k (2 ^ 5),
  bit-pow_ne k 5,
  bit_lt k c.registers.stb,
)
summarise-bit k val c of_oper p = ground (
  arith,
  bit-bit_or k c.registers.stb (2 ^ 7),
  bit-bit_and k c.registers.stb (not16 (2 ^ 7)),
  bit-not16 k (2 ^ 7),
  bit-pow_ne k 7,
  bit_lt k c.registers.stb,
)
summarise-bit k val c of_ques p = ground (
  arith,
  bit-bit_or k c.registers.stb (2 ^ 3),
  bit-bit_and k c.registers.stb (not16 (2 ^ 3)),
  bit-not16 k (2 ^ 3),
  bit-pow_ne k 3,
  bit_lt k c.registers.stb,
)

update_request-get :
    {n : RegName} (old val : ℕ) (c : Context)
    → IsEvent n
    → reg_get (update_request old val c) n ≡ reg_get c n
unfolding update_request
update_request-get old val c of_esr = ground arith
update_request-get old val c of_oper = ground arith
update_request-get old val c of_ques = ground arith

set_status-get :
    {n : RegName} (val : ℕ) (c : Context)
    → IsEvent n
    → reg_get (set_status stb val c) n ≡ reg_get c n
set_status-get {n} val c k = elim (Bool-cases (reg_get c stb == val)) [
  | inl e ↦ rw e
  | inr e ↦ rw (e, update_request-get (reg_get c stb) val (assign stb val c) k) (other k)
]
  where
    other : {m : RegName} → IsEvent m → reg_get (assign stb val c) m ≡ reg_get c m
    other of_esr = refl
    other of_oper = refl
    other of_ques = refl

assign-get : {n : RegName} (val : ℕ) (c : Context) → IsEvent n → reg_get (assign n val c) n ≡ val
assign-get val c of_esr = refl
assign-get val c of_oper = refl
assign-get val c of_ques = refl

pub set_event-get :
    {n : RegName} (val : ℕ) (c : Context) → IsEvent n → reg_get (set_event n val c) n ≡ val
set_event-get {n} val c k = elim (Bool-cases (reg_get c n == val)) [
  | inl e ↦ rw e ((==_iff _ _).0 e)
  | inr e ↦ rw (e, set_status-get _ (assign n val c) k) (assign-get val c k)
]

set_spec-event :
    {n : RegName} (val : ℕ) (c : Context) → IsEvent n → set_spec n val c ≡ set_event n val c
set_spec-event val c of_esr = refl
set_spec-event val c of_oper = refl
set_spec-event val c of_ques = refl

assign-enabled :
    {n : RegName} (val : ℕ) (c : Context)
    → IsEvent n
    → (enabled n val (assign n val c) ≡ enabled n val c)
      × ((assign n val c).registers.stb ≡ c.registers.stb)
assign-enabled val c of_esr = (refl, refl)
assign-enabled val c of_oper = (refl, refl)
assign-enabled val c of_ques = (refl, refl)

-- Setting an event register to a new value stores the value, sets the register's summary bit of
-- the status byte exactly when an enabled bit of the value is set, and leaves the other bits of
-- the status byte but the service request bit.
pub reg_set-event :
    {n : RegName} (k val : ℕ) (c : Context)
    → IsEvent n
    → IsPlain k
    → reg_get c n ≢ val
    → let c' = reg_set n val c in
      (reg_get c' n ≡ val)
      × (bit k c'.registers.stb ≡ (
          if k == summary_bit n then if enabled n val c then 1 else 0 else bit k c.registers.stb))
reg_set-event {n} k val c i p h =
    rw (reg_set_lem, set_spec-event val c i) (set_event-get val c i, summary)
  where
    new : (reg_get c n == val) ≡ false
    new = ground arith

    summary :
        bit k (set_event n val c).registers.stb
        ≡ (if k == summary_bit n then if enabled n val c then 1 else 0 else bit k c.registers.stb)
    summary = rw new (
        set_status-bit k _ (assign n val c) p
        ∙ summarise-bit k val (assign n val c) i p
        ∙ rw ((assign-enabled val c i).0, (assign-enabled val c i).1))

-- Setting STB itself sets its plain bits.
pub reg_set-stb :
    (k val : ℕ) (c : Context) → IsPlain k → bit k (reg_set stb val c).registers.stb ≡ bit k val
reg_set-stb k val c p = rw reg_set_lem (set_status-bit k val c p)

-- An event register, set to any value, leaves the plain bits but its summary.
pub reg_set-other_bit :
    {n : RegName} (k val : ℕ) (c : Context)
    → IsEvent n
    → IsPlain k
    → k ≢ summary_bit n
    → bit k (reg_set n val c).registers.stb ≡ bit k c.registers.stb
reg_set-other_bit {n} k val c i p h = elim (Bool-cases (reg_get c n == val)) [
  | inl e ↦ rw (reg_set_lem, set_spec-event val c i) (rw e)
  | inr e ↦ (reg_set-event k val c i p (ground arith)).1 ∙ rw other
]
  where
    other : (k == summary_bit n) ≡ false
    other = ground arith

pub reg_set-get :
    {n : RegName} (val : ℕ) (c : Context) → IsEvent n → reg_get (reg_set n val c) n ≡ val
reg_set-get val c i = rw (reg_set_lem, set_spec-event val c i) (set_event-get val c i)

-- Setting one event register leaves another.
reg_set-frame :
    {n m : RegName} (val : ℕ) (c : Context)
    → IsEvent n
    → IsEvent m
    → reg_get (assign n val c) m ≡ reg_get c m
    → reg_get (reg_set n val c) m ≡ reg_get c m
reg_set-frame {n} val c i j h =
    rw (reg_set_lem, set_spec-event val c i)
      (elim (Bool-cases (reg_get c n == val)) [
        | inl e ↦ rw e
        | inr e ↦ rw (e, set_status-get _ (assign n val c) j) h
      ])

pub reg_set-oper_esr :
    (val : ℕ) (c : Context) → (reg_set oper val c).registers.esr ≡ c.registers.esr
reg_set-oper_esr val c = reg_set-frame val c of_oper of_esr refl

pub reg_set-ques_esr :
    (val : ℕ) (c : Context) → (reg_set ques val c).registers.esr ≡ c.registers.esr
reg_set-ques_esr val c = reg_set-frame val c of_ques of_esr refl

pub reg_set-ques_oper :
    (val : ℕ) (c : Context) → (reg_set ques val c).registers.oper ≡ c.registers.oper
reg_set-ques_oper val c = reg_set-frame val c of_ques of_oper refl
