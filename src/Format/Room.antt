-- ===== src/Format/Room.antt =====
-- libscpi/src/utils.c: the buffers of the texts of integers, and the fuel of their loops.
use scpi_parser.Base.{
  ℕ, zero, suc, ◌-◌, ◌*◌, ◌/◌, ◌^◌, ◌<◌, ◌≤◌, ◌≡◌, refl, inl, inr, Bool, true, false, Bool-cases,
  not, ◌&&◌, [], ◌==◌, leb, if◌then◌else◌, length, length-append, Bytes, arith,
}
use native.Mathlib.Nat.{pow-suc, pow-zero}
use scpi_parser.Format.{
  Width, first_divisor, skip_zeros, put_digits, put_char, digit_fuel, to_str_base_sign,
}

length-put_digits : (fuel room base x uval : ℕ) → length (put_digits fuel room base x uval) ≤ room
unfolding put_digits
length-put_digits zero room base x uval = omega arith
length-put_digits (suc fuel) zero base x uval = omega arith
length-put_digits (suc fuel) (suc room) base x uval = elim (Bool-cases (not (x / base == 0))) [
  | inl h ↦ rw h (omega (arith, length-put_digits fuel room base (x / base) (uval - uval / x * x)))
  | inr h ↦ rw h (omega arith)
]

length-put_char : (room c : ℕ) → length (put_char room c) ≤ room
length-put_char zero c = omega arith
length-put_char (suc room) c = omega arith

length-minus : (b : Bool) (len : ℕ) → length (if b then put_char len b'-' else []) ≤ len
length-minus true len = length-put_char len b'-'
length-minus false len = omega arith

-- No more than `len` characters are written, for every value, base, sign and either width.
pub length-to_str_base_sign :
    (w : Width) (val len base : ℕ) (sign : Bool)
    → length (to_str_base_sign w val len base sign) ≤ len
unfolding to_str_base_sign
length-to_str_base_sign w val len base sign = elim (Bool-cases (val == 0)) [
  | inl z ↦ rw z (length-put_char len b'0')
  | inr z ↦ rw z (
      omega (
        arith,
        length-append (if negative then put_char len b'-' else []) text,
        length-minus negative len,
        length-put_digits digit_fuel (len - length (if negative then put_char len b'-' else [])) b
            (skip_zeros digit_fuel b x uval) uval,
      ))
]
  where
    b : ℕ
    b = (first_divisor w base).0

    x : ℕ
    x = (first_divisor w base).1

    negative : Bool
    negative = sign && leb (w.modulus / 2) val && (b == 10)

    uval : ℕ
    uval = if negative then w.modulus - val else val

    text : Bytes
    text =
        put_digits digit_fuel (len - length (if negative then put_char len b'-' else [])) b
          (skip_zeros digit_fuel b x uval) uval

-- The bases that are used.
pub data IsBase : ℕ → Type 0 where
  base_2 : IsBase 2
  base_8 : IsBase 8
  base_10 : IsBase 10
  base_16 : IsBase 16

quotient-lt : {base : ℕ} (n x : ℕ) → IsBase base → x < 2 ^ suc n → x / base < 2 ^ n
quotient-lt n x base_2 h = omega (arith, pow-suc 2 n)
quotient-lt n x base_8 h = omega (arith, pow-suc 2 n)
quotient-lt n x base_10 h = omega (arith, pow-suc 2 n)
quotient-lt n x base_16 h = omega (arith, pow-suc 2 n)

zero-quotient : {base : ℕ} (x : ℕ) → IsBase base → x < 1 → (x / base == 0) ≡ true
zero-quotient x base_2 h = ground arith
zero-quotient x base_8 h = ground arith
zero-quotient x base_10 h = ground arith
zero-quotient x base_16 h = ground arith

-- The loop over the digits ends within as many rounds as its divisor has binary digits, and one
-- more: with that, the amount of fuel does not matter.
pub put_digits_enough :
    {base : ℕ} (n f g room x uval : ℕ)
    → IsBase base
    → x < 2 ^ n
    → n < f
    → n < g
    → put_digits f room base x uval ≡ put_digits g room base x uval
unfolding put_digits
put_digits_enough n zero g room x uval b h p q = absurd (omega arith)
put_digits_enough n (suc f) zero room x uval b h p q = absurd (omega arith)
put_digits_enough n (suc f) (suc g) zero x uval b h p q = refl
put_digits_enough zero (suc f) (suc g) (suc room) x uval b h p q = rw (zero-quotient x b h) refl
put_digits_enough {base} (suc n) (suc f) (suc g) (suc room) x uval b h p q =
    rw
      (put_digits_enough n f g room (x / base) (uval - uval / x * x) b (quotient-lt n x b h)
        (omega arith) (omega arith))
      refl

pub power-quotient : {base : ℕ} (k : ℕ) → IsBase base → base ^ suc k / base ≡ base ^ k
power-quotient k base_2 = omega (arith, pow-suc 2 k)
power-quotient k base_8 = omega (arith, pow-suc 8 k)
power-quotient k base_10 = omega (arith, pow-suc 10 k)
power-quotient k base_16 = omega (arith, pow-suc 16 k)

quotient-one : (base uval : ℕ) → 0 < uval → (uval / base ^ zero == 0) ≡ false
quotient-one base uval h = rw (pow-zero base) (ground arith)

-- The loop that removes leading zeros, from a power of the base on, ends within as many rounds as
-- the exponent, and one more, for every value but zero: with that, the amount of fuel does not
-- matter.
pub skip_zeros_enough :
    {base : ℕ} (k f g uval : ℕ)
    → IsBase base
    → 0 < uval
    → k < f
    → k < g
    → skip_zeros f base (base ^ k) uval ≡ skip_zeros g base (base ^ k) uval
unfolding skip_zeros
skip_zeros_enough k zero g uval b h p q = absurd (omega arith)
skip_zeros_enough k (suc f) zero uval b h p q = absurd (omega arith)
skip_zeros_enough {base} zero (suc f) (suc g) uval b h p q = rw (quotient-one base uval h) refl
skip_zeros_enough {base} (suc k) (suc f) (suc g) uval b h p q =
    rw (power-quotient k b, skip_zeros_enough k f g uval b h (omega arith) (omega arith)) refl
