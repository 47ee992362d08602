-- ===== src/Format/Text.antt =====
-- libscpi/src/utils.c: what the texts of integers of both widths say, in every base.
use scpi_parser.Base.{
  ℕ, zero, suc, ◌-◌, ◌/◌, ◌^◌, ◌<◌, ◌≤◌, ◌≡◌, refl, ◌∙◌, ap, sym, inl, inr, true, false, Bool-cases,
  [], ◌∷◌, ◌==◌, leb, if◌then◌else◌, get_or, Bytes, arith, ℤ, pos, neg, ==_iff,
}
use scpi_parser.Format.{
  Width, width_32, width_64, digits, put_digits, skip_zeros, first_divisor, to_str_base_sign,
  put_char, digit_fuel,
}
use scpi_parser.Format.Room.{IsBase, base_2, base_8, base_10, base_16}
use scpi_parser.Format.Value.{number_in, put_digits-number, skip_zeros-power}

-- The two widths, with their bits.
pub data IsWidth : Width → ℕ → Type 0 where
  bits_32 : IsWidth width_32 32
  bits_64 : IsWidth width_64 64

-- The first divisor is the power of the base for the first digit of the largest number.
pub record First (w : Width) (base bits : ℕ) : Type 0 where
  pub exponent : ℕ
  pub divisor : first_divisor w base ≡ (base, base ^ exponent)
  pub enough : w.modulus ≤ base ^ suc exponent
  pub few : exponent < bits

pub first : {w : Width} {base bits : ℕ} → IsWidth w bits → IsBase base → First w base bits
unfolding first_divisor
first bits_32 base_2 = record {
  exponent = 31;
  divisor = refl;
  enough = omega arith;
  few = omega arith;
}
first bits_32 base_8 = record {
  exponent = 10;
  divisor = refl;
  enough = omega arith;
  few = omega arith;
}
first bits_32 base_10 = record {
  exponent = 9;
  divisor = refl;
  enough = omega arith;
  few = omega arith;
}
first bits_32 base_16 = record {
  exponent = 7;
  divisor = refl;
  enough = omega arith;
  few = omega arith;
}
first bits_64 base_2 = record {
  exponent = 63;
  divisor = refl;
  enough = omega arith;
  few = omega arith;
}
first bits_64 base_8 = record {
  exponent = 21;
  divisor = refl;
  enough = omega arith;
  few = omega arith;
}
first bits_64 base_10 = record {
  exponent = 19;
  divisor = refl;
  enough = omega arith;
  few = omega arith;
}
first bits_64 base_16 = record {
  exponent = 15;
  divisor = refl;
  enough = omega arith;
  few = omega arith;
}

-- The digits from the first that is not zero on.
abbrev pub significant : ℕ → ℕ → ℕ → ℕ → Bytes
significant room base x uval =
    put_digits digit_fuel room base (skip_zeros digit_fuel base x uval) uval

pub significant-number :
    {base : ℕ} (k room uval : ℕ)
    → IsBase base
    → k < 65
    → k < room
    → 0 < uval
    → uval < base ^ suc k
    → number_in base 0 (significant room base (base ^ k) uval) ≡ uval
significant-number {base} k room uval b p q l h =
    let r = skip_zeros-power k 65 uval b p l h in
    rw (r.1) (
      put_digits-number r.0 65 room 0 uval b (omega (arith, r.2)) (omega (arith, r.2)) r.3
      ∙ omega arith)

digit_zero : (base len : ℕ) → 0 < len → number_in base 0 (put_char len b'0') ≡ 0
digit_zero base zero h = absurd (omega arith)
digit_zero base (suc len) h = omega arith

pub bits_le : {w : Width} {bits : ℕ} → IsWidth w bits → bits ≤ 64
bits_le bits_32 = omega arith
bits_le bits_64 = omega arith

pub nonzero_pos : (n : ℕ) → (n == 0) ≡ false → 0 < n
nonzero_pos n h = ground arith

minus_none : (len : ℕ) → len - 0 ≡ len
minus_none len = omega arith

module _ {w : Width} {base bits : ℕ} (width : IsWidth w bits) (b : IsBase base) where
  significant-first :
      (room uval : ℕ)
      → (first width b).exponent < room
      → 0 < uval
      → uval < w.modulus
      → number_in base 0 (significant room base (base ^ (first width b).exponent) uval) ≡ uval
  significant-first room uval l p h =
      significant-number (first width b).exponent room uval b
        (omega (arith, (first width b).few, bits_le width)) l p
        (omega (arith, (first width b).enough))

  pub unsigned_text :
      (val len : ℕ)
      → (val == 0) ≡ false
      → to_str_base_sign w val len base false
        ≡ significant len base (base ^ (first width b).exponent) val
  unfolding to_str_base_sign
  unsigned_text val len z = rw ((first width b).divisor, z, minus_none len) refl

  pub unsigned_number :
      (val len : ℕ)
      → val < w.modulus
      → (first width b).exponent < len
      → number_in base 0 (to_str_base_sign w val len base false) ≡ val
  unfolding to_str_base_sign
  unsigned_number val len h l = elim (Bool-cases (val == 0)) [
    | inl z ↦ rw z (digit_zero base len (omega arith) ∙ sym ((==_iff val 0).0 z))
    | inr z ↦
        ap (number_in base 0) (unsigned_text val len z)
        ∙ significant-first len val l (nonzero_pos val z) h
  ]

  -- With room for a digit for each bit, the text of an unsigned integer in a base of 2, 8, 10 or 16
  -- is read in that base as the integer, in both widths.
  pub to_str_base_sign-number :
      (val len : ℕ)
      → val < w.modulus
      → bits ≤ len
      → number_in base 0 (to_str_base_sign w val len base false) ≡ val
  to_str_base_sign-number val len h l =
      unsigned_number val len h (omega (arith, (first width b).few))

-- A decimal text that may start with a minus, and the integer whose bits are `val`.
abbrev pub signed_number : Bytes → ℤ
signed_number [] = pos 0
signed_number (c ∷ cs) =
    if c == b'-' then neg (number_in 10 0 cs) else pos (number_in 10 0 (c ∷ cs))

abbrev pub signed_of : ℕ → ℕ → ℤ
signed_of modulus val = if leb (modulus / 2) val then neg (modulus - val) else pos val

digit_not_minus : (d : ℕ) → (get_or digits d 0 == b'-') ≡ false
digit_not_minus zero = refl
digit_not_minus (suc zero) = refl
digit_not_minus (suc (suc zero)) = refl
digit_not_minus (suc (suc (suc zero))) = refl
digit_not_minus (suc (suc (suc (suc zero)))) = refl
digit_not_minus (suc (suc (suc (suc (suc zero))))) = refl
digit_not_minus (suc (suc (suc (suc (suc (suc zero)))))) = refl
digit_not_minus (suc (suc (suc (suc (suc (suc (suc zero))))))) = refl
digit_not_minus (suc (suc (suc (suc (suc (suc (suc (suc zero)))))))) = refl
digit_not_minus (suc (suc (suc (suc (suc (suc (suc (suc (suc zero))))))))) = refl
digit_not_minus (suc (suc (suc (suc (suc (suc (suc (suc (suc (suc zero)))))))))) = refl
digit_not_minus (suc (suc (suc (suc (suc (suc (suc (suc (suc (suc (suc zero))))))))))) = refl
digit_not_minus (suc (suc (suc (suc (suc (suc (suc (suc (suc (suc (suc (suc zero)))))))))))) = refl
digit_not_minus (suc (suc (suc (suc (suc (suc (suc (suc (suc (suc (suc (suc (suc zero))))))))))))) =
    refl
digit_not_minus
      (suc (suc (suc (suc (suc (suc (suc (suc (suc (suc (suc (suc (suc (suc zero)))))))))))))) =
    refl
digit_not_minus
      (suc
        (suc (suc (suc (suc (suc (suc (suc (suc (suc (suc (suc (suc (suc (suc zero))))))))))))))) =
    refl
digit_not_minus
      (suc (
        suc
          (suc (suc (suc (suc (suc (suc (suc (suc (suc (suc (suc (suc (suc (suc d)))))))))))))))) =
    refl

signed_number-plain :
    (room x uval : ℕ)
    → signed_number (significant room 10 x uval) ≡ pos (number_in 10 0 (significant room 10 x uval))
unfolding put_digits
signed_number-plain zero x uval = refl
signed_number-plain (suc room) x uval =
    rw (digit_not_minus (uval / skip_zeros digit_fuel 10 x uval)) refl

half_pos :
    {w : Width} {bits : ℕ} (val : ℕ)
    → IsWidth w bits
    → leb (w.modulus / 2) val ≡ true
    → (val == 0) ≡ false
half_pos val bits_32 h = ground arith
half_pos val bits_64 h = ground arith

zero_text : (w : Width) (len : ℕ) → signed_number (to_str_base_sign w 0 (suc len) 10 false) ≡ pos 0
unfolding to_str_base_sign
zero_text w len = refl

suc_minus : (n : ℕ) → suc n - 1 ≡ n
suc_minus n = omega arith

module _ {w : Width} {bits : ℕ} (width : IsWidth w bits) where
  negative_text :
      (val len : ℕ)
      → leb (w.modulus / 2) val ≡ true
      → to_str_base_sign w val (suc len) 10 true
        ≡ b'-' ∷ significant len 10 (10 ^ (first width base_10).exponent) (w.modulus - val)
  unfolding to_str_base_sign
  negative_text val len h =
      rw ((first width base_10).divisor, half_pos val width h, h, suc_minus len) refl

  positive_text :
      (val len : ℕ)
      → leb (w.modulus / 2) val ≡ false
      → to_str_base_sign w val len 10 true ≡ to_str_base_sign w val len 10 false
  unfolding to_str_base_sign
  positive_text val len h = rw h refl

  -- With room for a minus and a digit for each bit, the text of a signed integer is read as it.
  pub to_str_base_sign-signed :
      (val len : ℕ)
      → val < w.modulus
      → bits < len
      → signed_number (to_str_base_sign w val len 10 true) ≡ signed_of w.modulus val
  to_str_base_sign-signed val zero h l = absurd (omega arith)
  to_str_base_sign-signed val (suc len) h l = elim (Bool-cases (leb (w.modulus / 2) val)) [
    | inl n ↦
        rw (negative_text val len n, n)
          (ap neg (
            significant-first width base_10 len (w.modulus - val)
              (omega (arith, (first width base_10).few)) (omega arith)
              (omega (arith, nonzero_pos val (half_pos val width n)))))
    | inr n ↦
        rw (positive_text val (suc len) n, n)
          (elim (Bool-cases (val == 0)) [
            | inl z ↦ (rw ((==_iff val 0).0 z) (zero_text w len))
            | inr z ↦
                rw
                  (
                    unsigned_text width base_10 val (suc len) z,
                    signed_number-plain (suc len) (10 ^ (first width base_10).exponent) val,
                  )
                  (ap pos (
                    significant-first width base_10 (suc len) val
                      (omega (arith, (first width base_10).few)) (nonzero_pos val z) h))
          ])
  ]
