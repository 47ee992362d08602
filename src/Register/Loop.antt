-- ===== src/Register/Loop.antt =====
-- The loop of SCPI_RegSet, register by register: what each kind of register makes it do.
use scpi_parser.Base.{
  ℕ, suc, ◌≡◌, refl, ◌∙◌, true, false, some, ◌==◌, if◌then◌else◌, Bool-cases, inl, inr,
}
use scpi_parser.Context.{
  RegName, stb, sre, esr, ese, oper, opere, operc, ques, quese, quesc, no_reg, Context,
}
use scpi_parser.Register.{
  group_info, reg_class, reg_group, reg_get, returns, again, dispatch, assign, update_request,
  summarise, latch, round, rounds, reg_set, is_reg,
}

-- STB and SRE: store the value, and recompute the service request bit.
abbrev pub set_status : RegName → ℕ → Context → Context
set_status n val c =
    if reg_get c n == val then c else update_request (reg_get c n) val (assign n val c)

-- An event register: store the value, and set the status byte to its summary.
abbrev pub set_event : RegName → ℕ → Context → Context
set_event n val c =
    let c' = assign n val c in
    if reg_get c n == val
    then c
    else set_status stb (summarise (group_info (reg_group n)) val c') c'

abbrev pub set_enable : RegName → ℕ → Context → Context
set_enable n val c = if reg_get c n == val then c else assign n val c

-- A condition register: store the value, and set the event register to the latched transitions.
abbrev pub set_condition : RegName → ℕ → Context → Context
set_condition n val c =
    let c' = assign n val c in
    let g = group_info (reg_group n) in
    if reg_get c n == val then c else set_event g.event (latch g (reg_get c n) val c') c'

-- What SCPI_RegSet does to each register.
abbrev pub set_spec : RegName → ℕ → Context → Context
set_spec stb = set_status stb
set_spec sre = set_status sre
set_spec esr = set_event esr
set_spec oper = set_event oper
set_spec ques = set_event ques
set_spec operc = set_condition operc
set_spec quesc = set_condition quesc
set_spec ese = set_enable ese
set_spec opere = set_enable opere
set_spec quese = set_enable quese
set_spec no_reg = λ val c. c

rounds-returns :
    (fuel : ℕ) (n : RegName) (val : ℕ) (c : Context) {c' : Context}
    → round n val c ≡ returns c'
    → rounds (suc fuel) n val c ≡ some c'
unfolding rounds
rounds-returns fuel n val c e = rw (e, rounds)

rounds-again :
    (fuel : ℕ) (n : RegName) (val : ℕ) (c : Context) {m : RegName} {v : ℕ} {c' : Context}
    → round n val c ≡ again m v c'
    → rounds (suc fuel) n val c ≡ rounds fuel m v c'
unfolding rounds
rounds-again fuel n val c e = rw (e, rounds)

round-same :
    (n : RegName) (val : ℕ) (c : Context) → (reg_get c n == val) ≡ true → round n val c ≡ returns c
unfolding round
round-same n val c e = rw e

round-new :
    (n : RegName) (val : ℕ) (c : Context)
    → (reg_get c n == val) ≡ false
    → round n val c
      ≡ dispatch (reg_class n) (group_info (reg_group n)) n (reg_get c n) val (assign n val c)
unfolding round
round-new n val c e = rw e

data IsStatus : RegName → Type 0 where
  of_stb : IsStatus stb
  of_sre : IsStatus sre

rounds-status :
    (fuel : ℕ) {n : RegName} (val : ℕ) (c : Context)
    → IsStatus n
    → rounds (suc fuel) n val c ≡ some (set_status n val c)
rounds-status fuel {n} val c k = elim (Bool-cases (reg_get c n == val)) [
  | inl e ↦ rounds-returns fuel n val c (round-same n val c e) ∙ rw e
  | inr e ↦ rounds-returns fuel n val c (round-new n val c e ∙ step k) ∙ rw e
]
  where
    step :
        {m : RegName}
        → IsStatus m
        → dispatch (reg_class m) (group_info (reg_group m)) m (reg_get c m) val (assign m val c)
          ≡ returns (update_request (reg_get c m) val (assign m val c))
    step of_stb = unfold dispatch in refl
    step of_sre = unfold dispatch in refl

pub data IsEvent : RegName → Type 0 where
  of_esr : IsEvent esr
  of_oper : IsEvent oper
  of_ques : IsEvent ques

rounds-event :
    (fuel : ℕ) {n : RegName} (val : ℕ) (c : Context)
    → IsEvent n
    → rounds (suc (suc fuel)) n val c ≡ some (set_event n val c)
rounds-event fuel {n} val c k = elim (Bool-cases (reg_get c n == val)) [
  | inl e ↦ rounds-returns _ n val c (round-same n val c e) ∙ rw e
  | inr e ↦
      rounds-again _ n val c (round-new n val c e ∙ step k) ∙ rounds-status fuel _ _ of_stb ∙ rw e
]
  where
    step :
        {m : RegName}
        → IsEvent m
        → dispatch (reg_class m) (group_info (reg_group m)) m (reg_get c m) val (assign m val c)
          ≡ again stb (summarise (group_info (reg_group m)) val (assign m val c)) (assign m val c)
    step of_esr = unfold dispatch in refl
    step of_oper = unfold dispatch in refl
    step of_ques = unfold dispatch in refl

pub data IsCondition : RegName → RegName → Type 0 where
  of_operc : IsCondition operc oper
  of_quesc : IsCondition quesc ques

rounds-condition :
    (fuel : ℕ) {n m : RegName} (val : ℕ) (c : Context)
    → IsCondition n m
    → rounds (suc (suc (suc fuel))) n val c ≡ some (set_condition n val c)
rounds-condition fuel {n} val c k = elim (Bool-cases (reg_get c n == val)) [
  | inl e ↦ rounds-returns _ n val c (round-same n val c e) ∙ rw e
  | inr e ↦
      rounds-again _ n val c (round-new n val c e ∙ (step k).1)
      ∙ rounds-event fuel _ _ (step k).0
      ∙ rw e
]
  where
    step :
        {n m : RegName}
        → IsCondition n m
        → IsEvent (group_info (reg_group n)).event
          × (dispatch (reg_class n) (group_info (reg_group n)) n (reg_get c n) val (assign n val c)
              ≡ again
                  (group_info (reg_group n)).event
                  (latch (group_info (reg_group n)) (reg_get c n) val (assign n val c))
                  (assign n val c))
    step of_operc = (of_oper, unfold dispatch in refl)
    step of_quesc = (of_ques, unfold dispatch in refl)

pub data IsEnable : RegName → Type 0 where
  of_ese : IsEnable ese
  of_opere : IsEnable opere
  of_quese : IsEnable quese

rounds-enable :
    (fuel : ℕ) {n : RegName} (val : ℕ) (c : Context)
    → IsEnable n
    → rounds (suc fuel) n val c ≡ some (set_enable n val c)
rounds-enable fuel {n} val c k = elim (Bool-cases (reg_get c n == val)) [
  | inl e ↦ rounds-returns fuel n val c (round-same n val c e) ∙ rw e
  | inr e ↦ rounds-returns fuel n val c (round-new n val c e ∙ step k) ∙ rw e
]
  where
    step :
        {m : RegName}
        → IsEnable m
        → dispatch (reg_class m) (group_info (reg_group m)) m (reg_get c m) val (assign m val c)
          ≡ returns (assign m val c)
    step of_ese = unfold dispatch in refl
    step of_opere = unfold dispatch in refl
    step of_quese = unfold dispatch in refl

-- The loop of SCPI_RegSet ends within three rounds, with the effect that the register's class
-- prescribes; more fuel changes nothing.
pub rounds_enough :
    (fuel : ℕ) (n : RegName) (val : ℕ) (c : Context)
    → is_reg n ≡ true
    → rounds (suc (suc (suc fuel))) n val c ≡ some (set_spec n val c)
rounds_enough fuel stb val c h = rounds-status _ val c of_stb
rounds_enough fuel sre val c h = rounds-status _ val c of_sre
rounds_enough fuel esr val c h = rounds-event _ val c of_esr
rounds_enough fuel oper val c h = rounds-event _ val c of_oper
rounds_enough fuel ques val c h = rounds-event _ val c of_ques
rounds_enough fuel ese val c h = rounds-enable _ val c of_ese
rounds_enough fuel opere val c h = rounds-enable _ val c of_opere
rounds_enough fuel quese val c h = rounds-enable _ val c of_quese
rounds_enough fuel operc val c h = rounds-condition _ val c of_operc
rounds_enough fuel quesc val c h = rounds-condition _ val c of_quesc
rounds_enough fuel no_reg val c h = cc

reg_set-reg :
    (n : RegName) (val : ℕ) (c : Context) → is_reg n ≡ true → reg_set n val c ≡ set_spec n val c
unfolding reg_set
reg_set-reg n val c h = rw (h, rounds_enough 0 n val c h)

pub reg_set_lem : (n : RegName) (val : ℕ) (c : Context) → reg_set n val c ≡ set_spec n val c
reg_set_lem no_reg val c = unfold reg_set in refl
reg_set_lem stb val c = reg_set-reg stb val c refl
reg_set_lem sre val c = reg_set-reg sre val c refl
reg_set_lem esr val c = reg_set-reg esr val c refl
reg_set_lem ese val c = reg_set-reg ese val c refl
reg_set_lem oper val c = reg_set-reg oper val c refl
reg_set_lem opere val c = reg_set-reg opere val c refl
reg_set_lem operc val c = reg_set-reg operc val c refl
reg_set_lem ques val c = reg_set-reg ques val c refl
reg_set_lem quese val c = reg_set-reg quese val c refl
reg_set_lem quesc val c = reg_set-reg quesc val c refl
