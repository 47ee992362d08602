-- ===== src/ErrorQueue/Classes.antt =====
-- Which bit of the standard event status register an error number sets.
use scpi_parser.Base.{ℕ, ◌+◌, ◌/◌, ◌≤◌, ◌≡◌, arith, pos, negsuc, ◌==◌, if◌then◌else◌}
use scpi_parser.Context.{Context, esr}
use scpi_parser.Register.{reg_set_bits}
use scpi_parser.ErrorQueue.{set_classes, errs}

-- The bit of the class of errors -100 j to -100 j - 99.
abbrev pub class_bit : ℕ → ℕ
class_bit j =
    if j == 1
    then 0x20
    else if j == 2
    then 0x10
    else if j == 3
    then 0x08
    else if j == 4
    then 0x04
    else if j == 5
    then 0x80
    else if j == 6
    then 0x40
    else if j == 7
    then 0x02
    else 0x01

-- A standard error -(n + 1), between -100 and -899, sets the one bit of its class.
pub set_classes-standard :
    (n : ℕ) (c : Context)
    → 99 ≤ n
    → n ≤ 898
    → set_classes (negsuc n) errs c ≡ reg_set_bits esr (class_bit ((n + 1) / 100)) c
unfolding set_classes
set_classes-standard n c h k = ground arith

-- No error number from 0 up sets a bit, those of the device designer included.
pub set_classes-positive : (n : ℕ) (c : Context) → set_classes (pos n) errs c ≡ c
unfolding set_classes
set_classes-positive n c = ground arith
