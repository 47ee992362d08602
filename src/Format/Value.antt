-- ===== src/Format/Value.antt =====
-- libscpi/src/utils.c: the numbers that the texts of integers stand for.
use scpi_parser.Base.{
  ℕ, zero, suc, ◌+◌, ◌-◌, ◌*◌, ◌/◌, ◌^◌, ◌<◌, ◌≤◌, ◌≡◌, refl, ap, inl, inr, true, false, Bool-cases,
  [], ◌∷◌, ◌==◌, ==_iff, leb, if◌then◌else◌, get_or, Bytes, arith,
}
use native.Mathlib.Nat.{
  pow-suc, pow-zero, add-mul, mul_assoc, mul_comm, div-mul-le_self, lt-div-mul-add,
  div-lt_iff_lt-mul, div-one,
}
use scpi_parser.Format.{digits, put_digits, skip_zeros}
use scpi_parser.Format.Room.{IsBase, base_2, base_8, base_10, base_16, power-quotient}

-- What a digit stands for, and what the digits behind the number `n` do.
abbrev pub digit_number : ℕ → ℕ
digit_number c = if leb c b'9' then c - b'0' else c - b'A' + 10

abbrev pub number_in : ℕ → ℕ → Bytes → ℕ
number_in base n [] = n
number_in base n (c ∷ cs) = number_in base (n * base + digit_number c) cs

digit_number-digits : (d : ℕ) → d < 16 → digit_number (get_or digits d 0) ≡ d
digit_number-digits zero h = refl
digit_number-digits (suc zero) h = refl
digit_number-digits (suc (suc zero)) h = refl
digit_number-digits (suc (suc (suc zero))) h = refl
digit_number-digits (suc (suc (suc (suc zero)))) h = refl
digit_number-digits (suc (suc (suc (suc (suc zero))))) h = refl
digit_number-digits (suc (suc (suc (suc (suc (suc zero)))))) h = refl
digit_number-digits (suc (suc (suc (suc (suc (suc (suc zero))))))) h = refl
digit_number-digits (suc (suc (suc (suc (suc (suc (suc (suc zero)))))))) h = refl
digit_number-digits (suc (suc (suc (suc (suc (suc (suc (suc (suc zero))))))))) h = refl
digit_number-digits (suc (suc (suc (suc (suc (suc (suc (suc (suc (suc zero)))))))))) h = refl
digit_number-digits (suc (suc (suc (suc (suc (suc (suc (suc (suc (suc (suc zero))))))))))) h = refl
digit_number-digits (suc (suc (suc (suc (suc (suc (suc (suc (suc (suc (suc (suc zero)))))))))))) h =
    refl
digit_number-digits
      (suc (suc (suc (suc (suc (suc (suc (suc (suc (suc (suc (suc (suc zero))))))))))))) h =
    refl
digit_number-digits
      (suc (suc (suc (suc (suc (suc (suc (suc (suc (suc (suc (suc (suc (suc zero)))))))))))))) h =
    refl
digit_number-digits
      (suc (suc (suc (suc (suc (suc (suc (suc (suc (suc (suc (suc (suc (suc (suc zero)))))))))))))))
      h =
    refl
digit_number-digits
      (suc
        (suc (suc (suc (suc (suc (suc (suc (suc (suc (suc (suc (suc (suc (suc (suc d))))))))))))))))
      h =
    absurd (omega arith)

base_pos : {base : ℕ} → IsBase base → 1 < base
base_pos base_2 = omega arith
base_pos base_8 = omega arith
base_pos base_10 = omega arith
base_pos base_16 = omega arith

base_le : {base : ℕ} → IsBase base → base ≤ 16
base_le base_2 = omega arith
base_le base_8 = omega arith
base_le base_10 = omega arith
base_le base_16 = omega arith

pub power_pos : {base : ℕ} (k : ℕ) → IsBase base → 0 < base ^ k
power_pos {base} zero b = omega (arith, pow-zero base)
power_pos {base} (suc k) base_2 = omega (arith, pow-suc 2 k, power_pos k base_2)
power_pos {base} (suc k) base_8 = omega (arith, pow-suc 8 k, power_pos k base_8)
power_pos {base} (suc k) base_10 = omega (arith, pow-suc 10 k, power_pos k base_10)
power_pos {base} (suc k) base_16 = omega (arith, pow-suc 16 k, power_pos k base_16)

pub one-quotient : {base : ℕ} → IsBase base → (1 / base == 0) ≡ true
one-quotient base_2 = refl
one-quotient base_8 = refl
one-quotient base_10 = refl
one-quotient base_16 = refl

pub not_zero : (n : ℕ) → 0 < n → (n == 0) ≡ false
not_zero n h = ground arith

-- The digit in front, taken together with the number before it and the rest behind it.
shift_in :
    (base x n uval : ℕ) → (n * base + uval / x) * x + (uval - uval / x * x) ≡ n * (x * base) + uval
shift_in base x n uval = omega (
  arith,
  add-mul (n * base) (uval / x) x,
  mul_assoc n base x,
  ap (λ y. n * y) (mul_comm base x),
  div-mul-le_self uval x,
)

quotient-lt_base : (base x uval : ℕ) → 0 < x → uval < x * base → uval / x < base
quotient-lt_base base x uval p h = (div-lt_iff_lt-mul p).1 (omega (arith, mul_comm x base))

remainder-lt : (x uval : ℕ) → 0 < x → uval - uval / x * x < x
remainder-lt x uval p = omega (arith, lt-div-mul-add {a = uval} {b = x} p, div-mul-le_self uval x)

-- The digit in front, and what is left behind it, of a number of `k + 1` digits.
pub digit-lt : {base : ℕ} (k uval : ℕ) → IsBase base → uval < base ^ suc k → uval / base ^ k < base
digit-lt {base} k uval b h =
    quotient-lt_base base (base ^ k) uval (power_pos k b) (omega (arith, pow-suc base k))

pub rest-lt : {base : ℕ} (k uval : ℕ) → IsBase base → uval - uval / base ^ k * base ^ k < base ^ k
rest-lt {base} k uval b = remainder-lt (base ^ k) uval (power_pos k b)

pub power_one : (base : ℕ) → base ^ suc zero ≡ base
power_one base = rw (pow-suc base 0, pow-zero base) (omega arith)

pub put_digits-number :
    {base : ℕ} (k f room n uval : ℕ)
    → IsBase base
    → k < f
    → k < room
    → uval < base ^ suc k
    → number_in base n (put_digits f room base (base ^ k) uval) ≡ n * base ^ suc k + uval
unfolding put_digits
put_digits-number k zero room n uval b p q h = absurd (omega arith)
put_digits-number k (suc f) zero n uval b p q h = absurd (omega arith)
put_digits-number {base} zero (suc f) (suc room) n uval b p q h =
    rw
      (
        pow-zero base,
        one-quotient b,
        div-one uval,
        power_one base,
        digit_number-digits uval (omega (arith, power_one base, base_le b)),
      )
      refl
put_digits-number {base} (suc k) (suc f) (suc room) n uval b p q h =
    rw
      (
        power-quotient k b,
        not_zero (base ^ k) (power_pos k b),
        digit_number-digits (uval / base ^ suc k)
            (omega (arith, digit-lt (suc k) uval b h, base_le b)),
        put_digits-number k f room (n * base + uval / base ^ suc k)
            (uval - uval / base ^ suc k * base ^ suc k) b (omega arith) (omega arith)
            (rest-lt (suc k) uval b),
        pow-suc base (suc k),
      )
      (shift_in base (base ^ suc k) n uval)

small_of_zero : (x uval : ℕ) → 0 < x → (uval / x == 0) ≡ true → uval < x
small_of_zero x uval p e =
    omega (arith, lt-div-mul-add {a = uval} {b = x} p, ap (λ q. q * x) ((==_iff (uval / x) 0).0 e))

-- Behind the leading zeros the divisor is the power of the base that the first digit stands for.
pub skip_zeros-power :
    {base : ℕ} (k f uval : ℕ)
    → IsBase base
    → k < f
    → 0 < uval
    → uval < base ^ suc k
    → (j : ℕ) × (skip_zeros f base (base ^ k) uval ≡ base ^ j) × (j ≤ k) × (uval < base ^ suc j)
unfolding skip_zeros
skip_zeros-power k zero uval b p l h = absurd (omega arith)
skip_zeros-power {base} zero (suc f) uval b p l h =
    (0, rw (pow-zero base, div-one uval, not_zero uval l) refl, omega arith, h)
skip_zeros-power {base} (suc k) (suc f) uval b p l h =
    elim (Bool-cases (uval / base ^ suc k == 0)) [
      | inl e ↦
          let r =
            skip_zeros-power k f uval b (omega arith) l
              (small_of_zero _ uval (power_pos (suc k) b) e) in
          (r.0, rw (e, power-quotient k b, r.1) refl, omega (arith, r.2), r.3)
      | inr e ↦ (suc k, rw e refl, omega arith, h)
    ]
