-- ===== src/Register/Enable.antt =====
-- SCPI_RegSet of libscpi/src/ieee488.c on the registers that enable summary bits and requests.
use scpi_parser.Base.{ℕ, ◌≡◌, refl, inl, inr, Bool-cases, ◌==◌, ==_iff, arith}
use scpi_parser.Context.{RegName, sre, ese, opere, quese, Context}
use scpi_parser.Register.Loop.{set_status, set_enable, reg_set_lem}
use scpi_parser.Register.{reg_get, reg_set, update_request, assign}

-- The registers that a command sets from its parameter.
pub data IsSettable : RegName → Type 0 where
  of_ese : IsSettable ese
  of_sre : IsSettable sre
  of_opere : IsSettable opere
  of_quese : IsSettable quese

update_request-sre :
    (old val : ℕ) (c : Context) → (update_request old val c).registers.sre ≡ c.registers.sre
unfolding update_request
update_request-sre old val c = ground arith

set_enable-get :
    (n : RegName) (val : ℕ) (c : Context)
    → reg_get (assign n val c) n ≡ val
    → reg_get (set_enable n val c) n ≡ val
set_enable-get n val c h = elim (Bool-cases (reg_get c n == val)) [
  | inl e ↦ rw e ((==_iff (reg_get c n) val).0 e)
  | inr e ↦ rw e h
]

set_status-get : (val : ℕ) (c : Context) → reg_get (set_status sre val c) sre ≡ val
set_status-get val c = elim (Bool-cases (reg_get c sre == val)) [
  | inl e ↦ rw e ((==_iff (reg_get c sre) val).0 e)
  | inr e ↦ rw e (update_request-sre (reg_get c sre) val (assign sre val c))
]

-- The value that is set is the one that is read.
pub reg_set-settable :
    {n : RegName} (val : ℕ) (c : Context) → IsSettable n → reg_get (reg_set n val c) n ≡ val
reg_set-settable val c of_ese = rw (reg_set_lem ese val c) (set_enable-get ese val c refl)
reg_set-settable val c of_sre = rw (reg_set_lem sre val c) (set_status-get val c)
reg_set-settable val c of_opere = rw (reg_set_lem opere val c) (set_enable-get opere val c refl)
reg_set-settable val c of_quese = rw (reg_set_lem quese val c) (set_enable-get quese val c refl)
