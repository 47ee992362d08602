-- ===== src/Base/Bits.antt =====
-- Bits of native numbers: the law of each bit of `bit_and`, `bit_or` and `bit_xor`, and
-- extensionality, from which the masks that the registers use are computed at variables.
use Prim.Native.Nat.{
  ℕ, zero, suc, ◌+◌, ◌*◌, ◌/◌, ◌%◌, ◌^◌, ◌≤◌, ◌<◌, min, max, bit_and, bit_or, bit_xor, digits,
  differ, bit_and-bitwise, bit_or-bitwise, bit_xor-bitwise,
}
use mathlib.Core.Path.{◌≡◌, refl, sym, ◌∙◌, ap}
use mathlib.Core.Logic.{◌≢◌}
use native.Mathlib.Nat.{pow-suc}
use native.Mathlib.Omega.{arith}

-- Bit number `k` of `x`, 0 or 1.
abbrev pub bit : ℕ → ℕ → ℕ
bit zero x = x % 2
bit (suc k) x = bit k (x / 2)

pub bit_lt : (k x : ℕ) → bit k x < 2
bit_lt zero x = omega arith
bit_lt (suc k) x = bit_lt k (x / 2)

pub bit-zero : (k : ℕ) → bit k 0 ≡ 0
bit-zero zero = refl
bit-zero (suc k) = bit-zero k

-- The digit by digit operation on fuel behind the native ones, one bit at a time: `f` combines two
-- bits, and `z` is what remains of the second number when the first has no digits left.
module _ (z : ℕ → ℕ) (f : ℕ → ℕ → ℕ) (f_lt : (x y : ℕ) → x < 2 → y < 2 → f x y < 2)
    (z_bit : (k b : ℕ) → bit k (z b) ≡ f 0 (bit k b)) where
  bit-digits : (k n a b : ℕ) → a ≤ n → bit k (digits z f n a b) ≡ f (bit k a) (bit k b)
  bit-digits k zero zero b h = z_bit k b ∙ ap (λ x. f x (bit k b)) (sym (bit-zero k))
  bit-digits k (suc n) zero b h = z_bit k b ∙ ap (λ x. f x (bit k b)) (sym (bit-zero k))
  bit-digits k zero (suc a) b h = absurd (omega arith)
  bit-digits zero (suc n) (suc a) b h =
      omega (arith, f_lt (suc a % 2) (b % 2) (omega arith) (omega arith))
  bit-digits (suc k) (suc n) (suc a) b h =
      ap (bit k) shifted ∙ bit-digits k n (suc a / 2) (b / 2) (omega arith)
    where
      shifted : digits z f (suc n) (suc a) b / 2 ≡ digits z f n (suc a / 2) (b / 2)
      shifted = omega (arith, f_lt (suc a % 2) (b % 2) (omega arith) (omega arith))

differ_lem : (x y : ℕ) → x < 2 → y < 2 → differ x y ≡ (x + y) % 2
differ_lem zero y p q = omega arith
differ_lem (suc zero) zero p q = refl
differ_lem (suc zero) (suc zero) p q = refl
differ_lem (suc zero) (suc (suc y)) p q = absurd (omega arith)
differ_lem (suc (suc x)) y p q = absurd (omega arith)

pub bit-bit_and : (k a b : ℕ) → bit k (bit_and a b) ≡ min (bit k a) (bit k b)
bit-bit_and k a b =
    ap (bit k) (bit_and-bitwise a b)
    ∙ bit-digits (λ y. zero) min (λ x y p q. omega arith) (λ i y. omega (arith, bit-zero i)) k a a b
        (omega arith)

pub bit-bit_or : (k a b : ℕ) → bit k (bit_or a b) ≡ max (bit k a) (bit k b)
bit-bit_or k a b =
    ap (bit k) (bit_or-bitwise a b)
    ∙ bit-digits (λ y. y) max (λ x y p q. omega arith) (λ i y. omega arith) k a a b (omega arith)

pub bit-bit_xor : (k a b : ℕ) → bit k (bit_xor a b) ≡ (bit k a + bit k b) % 2
bit-bit_xor k a b =
    ap (bit k) (bit_xor-bitwise a b)
    ∙ bit-digits (λ y. y) differ (λ x y p q. omega (arith, differ_lem x y p q))
        (λ i y. omega (arith, differ_lem 0 (bit i y) (omega arith) (bit_lt i y), bit_lt i y)) k a a
        b (omega arith)
    ∙ differ_lem (bit k a) (bit k b) (bit_lt k a) (bit_lt k b)

-- Numbers with the same bits are equal.
bit_ext_fuel : (n a b : ℕ) → a ≤ n → b ≤ n → ((k : ℕ) → bit k a ≡ bit k b) → a ≡ b
bit_ext_fuel zero a b p q h = omega arith
bit_ext_fuel (suc n) a b p q h =
    omega (arith, h 0, bit_ext_fuel n (a / 2) (b / 2) (omega arith) (omega arith) (λ k. h (suc k)))

pub bit_ext : (a b : ℕ) → ((k : ℕ) → bit k a ≡ bit k b) → a ≡ b
bit_ext a b = bit_ext_fuel (max a b) a b (omega arith) (omega arith)

-- Bounds, from the operations on the halves.
half-bit_and : (a b : ℕ) → bit_and a b / 2 ≡ bit_and (a / 2) (b / 2)
half-bit_and a b = bit_ext _ _ (λ k. bit-bit_and (suc k) a b ∙ sym (bit-bit_and k (a / 2) (b / 2)))

half-bit_or : (a b : ℕ) → bit_or a b / 2 ≡ bit_or (a / 2) (b / 2)
half-bit_or a b = bit_ext _ _ (λ k. bit-bit_or (suc k) a b ∙ sym (bit-bit_or k (a / 2) (b / 2)))

pub bit_and-le : (n a b : ℕ) → a ≤ n → bit_and a b ≤ b
bit_and-le zero zero b h = omega (arith, bit_and-bitwise 0 b)
bit_and-le zero (suc a) b h = absurd (omega arith)
bit_and-le (suc n) a b h =
    omega (arith, half-bit_and a b, bit-bit_and 0 a b, bit_and-le n (a / 2) (b / 2) (omega arith))

pub bit_or-lt : (k a b : ℕ) → a < 2 ^ k → b < 2 ^ k → bit_or a b < 2 ^ k
bit_or-lt zero zero b p q = omega (arith, bit_or-bitwise 0 b)
bit_or-lt zero (suc a) b p q = absurd (omega arith)
bit_or-lt (suc k) a b p q = omega (
  arith,
  half-bit_or a b,
  bit-bit_or 0 a b,
  pow-suc 2 k,
  bit_or-lt k (a / 2) (b / 2) (omega (arith, pow-suc 2 k)) (omega (arith, pow-suc 2 k)),
)

-- Masks.
pub and_or_disjoint :
    (x b m : ℕ) → ((k : ℕ) → min (bit k b) (bit k m) ≡ 0) → bit_and (bit_or x b) m ≡ bit_and x m
and_or_disjoint x b m h = bit_ext _ _ at_bit
  where
    at_bit : (k : ℕ) → bit k (bit_and (bit_or x b) m) ≡ bit k (bit_and x m)
    at_bit k = omega (
      arith,
      bit-bit_and k (bit_or x b) m,
      bit-bit_or k x b,
      bit-bit_and k x m,
      h k,
      bit_lt k x,
      bit_lt k b,
      bit_lt k m,
    )

pub and_and_self : (x m : ℕ) → bit_and (bit_and x m) m ≡ bit_and x m
and_and_self x m = bit_ext _ _ at_bit
  where
    at_bit : (k : ℕ) → bit k (bit_and (bit_and x m) m) ≡ bit k (bit_and x m)
    at_bit k = omega (arith, bit-bit_and k (bit_and x m) m, bit-bit_and k x m)

-- The bits of a power of two, and of a complement.
pub bit-pow_ne : (k j : ℕ) → k ≢ j → bit k (2 ^ j) ≡ 0
bit-pow_ne zero zero h = absurd (h refl)
bit-pow_ne zero (suc j) h = omega (arith, pow-suc 2 j)
bit-pow_ne (suc k) zero h = bit-zero k
bit-pow_ne (suc k) (suc j) h = ap (bit k) half ∙ bit-pow_ne k j (λ e. h (ap suc e))
  where
    half : 2 ^ suc j / 2 ≡ 2 ^ j
    half = omega (arith, pow-suc 2 j)

pub bit_complement : (w k x y : ℕ) → k < w → x + y + 1 ≡ 2 ^ w → bit k x + bit k y ≡ 1
bit_complement zero k x y h e = absurd (omega arith)
bit_complement (suc w) zero x y h e = omega (arith, pow-suc 2 w)
bit_complement (suc w) (suc k) x y h e =
    bit_complement w k (x / 2) (y / 2) (omega arith) (omega (arith, pow-suc 2 w))

-- One binary digit of a mask or of a disjoint sum at a time.
pub bit_and-zero : (v : ℕ) → bit_and v 0 ≡ 0
bit_and-zero v = omega (arith, bit_and-le v v 0 (omega arith))

pub bit_or-zero : (v : ℕ) → bit_or v 0 ≡ v
bit_or-zero v = bit_ext _ _ (λ k. bit-bit_or k v 0 ∙ omega (arith, bit-zero k))

pub bit_and-odd : (v m : ℕ) → bit_and v (m * 2 + 1) ≡ bit_and (v / 2) m * 2 + v % 2
bit_and-odd v m =
    omega
      (arith, half-bit_and v (m * 2 + 1) ∙ ap (bit_and (v / 2)) half, bit-bit_and 0 v (m * 2 + 1))
  where
    half : (m * 2 + 1) / 2 ≡ m
    half = omega arith

pub bit_and-even : (v m : ℕ) → bit_and v (m * 2) ≡ bit_and (v / 2) m * 2
bit_and-even v m =
    omega (arith, half-bit_and v (m * 2) ∙ ap (bit_and (v / 2)) half, bit-bit_and 0 v (m * 2))
  where
    half : m * 2 / 2 ≡ m
    half = omega arith

pub bit_or-even : (x y : ℕ) → bit_or (x * 2) y ≡ bit_or x (y / 2) * 2 + y % 2
bit_or-even x y =
    omega (arith, half-bit_or (x * 2) y ∙ ap (λ h. bit_or h (y / 2)) half, bit-bit_or 0 (x * 2) y)
  where
    half : x * 2 / 2 ≡ x
    half = omega arith
