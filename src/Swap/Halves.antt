-- ===== src/Swap/Halves.antt =====
-- libscpi/src/utils.c: SCPI_Swap16 on the two bytes of a number.
use Prim.Native.Nat.{bit_and, bit_or}
use scpi_parser.Base.{ℕ, ◌+◌, ◌*◌, ◌/◌, ◌%◌, ◌^◌, ◌<◌, ◌≡◌, ◌∙◌, ap, ap₂, arith}
use scpi_parser.Base.Bits.{bit_and-zero, bit_or-zero, bit_and-odd, bit_and-even, bit_or-even}
use scpi_parser.Swap.{swap16}

low_byte : (v : ℕ) → bit_and v 0x00ff ≡ v % 256
low_byte v = omega (
  arith,
  bit_and-odd v 127,
  bit_and-odd (v / 2) 63,
  bit_and-odd (v / 2 / 2) 31,
  bit_and-odd (v / 2 / 2 / 2) 15,
  bit_and-odd (v / 2 / 2 / 2 / 2) 7,
  bit_and-odd (v / 2 / 2 / 2 / 2 / 2) 3,
  bit_and-odd (v / 2 / 2 / 2 / 2 / 2 / 2) 1,
  bit_and-odd (v / 2 / 2 / 2 / 2 / 2 / 2 / 2) 0,
  bit_and-zero (v / 2 / 2 / 2 / 2 / 2 / 2 / 2 / 2),
)

high_byte : (v : ℕ) → v < 2 ^ 16 → bit_and v 0xff00 ≡ v / 256 * 256
high_byte v h = omega (
  arith,
  bit_and-even v 32640,
  bit_and-even (v / 2) 16320,
  bit_and-even (v / 2 / 2) 8160,
  bit_and-even (v / 2 / 2 / 2) 4080,
  bit_and-even (v / 2 / 2 / 2 / 2) 2040,
  bit_and-even (v / 2 / 2 / 2 / 2 / 2) 1020,
  bit_and-even (v / 2 / 2 / 2 / 2 / 2 / 2) 510,
  bit_and-even (v / 2 / 2 / 2 / 2 / 2 / 2 / 2) 255,
  low_byte (v / 2 / 2 / 2 / 2 / 2 / 2 / 2 / 2),
)

bit_or_at : (w x y : ℕ) → w ≡ x * 2 → bit_or w y ≡ bit_or x (y / 2) * 2 + y % 2
bit_or_at w x y e = ap (λ h. bit_or h y) e ∙ bit_or-even x y

-- The bytes of two numbers that do not overlap.
bit_or_bytes : (x y : ℕ) → y < 256 → bit_or (x * 256) y ≡ x * 256 + y
bit_or_bytes x y h = omega (
  arith,
  bit_or_at (x * 256) (x * 128) y (omega arith),
  bit_or_at (x * 128) (x * 64) (y / 2) (omega arith),
  bit_or_at (x * 64) (x * 32) (y / 2 / 2) (omega arith),
  bit_or_at (x * 32) (x * 16) (y / 2 / 2 / 2) (omega arith),
  bit_or_at (x * 16) (x * 8) (y / 2 / 2 / 2 / 2) (omega arith),
  bit_or_at (x * 8) (x * 4) (y / 2 / 2 / 2 / 2 / 2) (omega arith),
  bit_or_at (x * 4) (x * 2) (y / 2 / 2 / 2 / 2 / 2 / 2) (omega arith),
  bit_or_at (x * 2) x (y / 2 / 2 / 2 / 2 / 2 / 2 / 2) (omega arith),
  ap (bit_or x) gone ∙ bit_or-zero x,
)
  where
    gone : y / 2 / 2 / 2 / 2 / 2 / 2 / 2 / 2 ≡ 0
    gone = omega arith

-- A number of 16 bits comes out with its high and its low byte exchanged.
pub swap16-bytes : (v : ℕ) → v < 2 ^ 16 → swap16 v ≡ v % 256 * 256 + v / 256
unfolding swap16
swap16-bytes v h =
    ap₂ bit_or (ap (λ b. b * 2 ^ 8) (low_byte v)) high
    ∙ bit_or_bytes (v % 256) (v / 256) (omega arith)
  where
    high : bit_and v 0xff00 / 2 ^ 8 ≡ v / 256
    high = omega (arith, high_byte v h)

-- Swapping twice gives the number back.
pub swap16-twice : (v : ℕ) → v < 2 ^ 16 → swap16 (swap16 v) ≡ v
swap16-twice v h =
    omega (arith, swap16-bytes v h, swap16-bytes (swap16 v) (omega (arith, swap16-bytes v h)))
