-- ===== src/Format/Decimal.antt =====
-- libscpi/src/utils.c: decimal texts of integers.
use scpi_parser.Base.{
  ℕ, zero, suc, ◌+◌, ◌-◌, ◌*◌, ◌/◌, ◌^◌, ◌<◌, ◌≤◌, ◌≡◌, refl, ◌∙◌, inl, inr, true, false,
  Bool-cases, [], ◌∷◌, ◌==◌, ==_iff, leb, length, get_or, Bytes, arith,
}
use scpi_parser.Lexer.{isdigit}
use scpi_parser.Lexer.Munch.{all, and-true}
use scpi_parser.Lexer.Block.Read.{number_from}
use scpi_parser.Format.{
  digits, put_digits, skip_zeros, to_str_base_sign, first_divisor, uint32_to_str_base,
  uint32_to_str_base_sign,
}
use scpi_parser.Format.Room.{base_10, power-quotient}
use scpi_parser.Format.Value.{
  number_in, put_digits-number, skip_zeros-power, digit-lt, rest-lt, power_pos, not_zero,
}
use scpi_parser.Format.Text.{significant, nonzero_pos}

isdigit-digits : (d : ℕ) → d < 10 → isdigit (get_or digits d 0) ≡ true
unfolding isdigit
isdigit-digits zero h = refl
isdigit-digits (suc zero) h = refl
isdigit-digits (suc (suc zero)) h = refl
isdigit-digits (suc (suc (suc zero))) h = refl
isdigit-digits (suc (suc (suc (suc zero)))) h = refl
isdigit-digits (suc (suc (suc (suc (suc zero))))) h = refl
isdigit-digits (suc (suc (suc (suc (suc (suc zero)))))) h = refl
isdigit-digits (suc (suc (suc (suc (suc (suc (suc zero))))))) h = refl
isdigit-digits (suc (suc (suc (suc (suc (suc (suc (suc zero)))))))) h = refl
isdigit-digits (suc (suc (suc (suc (suc (suc (suc (suc (suc zero))))))))) h = refl
isdigit-digits (suc (suc (suc (suc (suc (suc (suc (suc (suc (suc d)))))))))) h =
    absurd (omega arith)

isdigit-put_digits :
    (k f room uval : ℕ)
    → uval < 10 ^ suc k
    → all isdigit (put_digits f room 10 (10 ^ k) uval) ≡ true
unfolding put_digits
isdigit-put_digits k zero room uval h = refl
isdigit-put_digits k (suc f) zero uval h = refl
isdigit-put_digits zero (suc f) (suc room) uval h =
    rw (isdigit-digits (uval / 10 ^ 0) (digit-lt 0 uval base_10 h)) refl
isdigit-put_digits (suc k) (suc f) (suc room) uval h =
    rw
      (
        isdigit-digits (uval / 10 ^ suc k) (digit-lt (suc k) uval base_10 h),
        power-quotient k base_10,
        not_zero (10 ^ k) (power_pos k base_10),
      )
      (isdigit-put_digits k f room (uval - uval / 10 ^ suc k * 10 ^ suc k)
        (rest-lt (suc k) uval base_10))

-- The loop writes a digit at least, and one for each power of ten at most.
length-put_digits_power : (k f room uval : ℕ) → length (put_digits f room 10 (10 ^ k) uval) ≤ suc k
unfolding put_digits
length-put_digits_power k zero room uval = omega arith
length-put_digits_power k (suc f) zero uval = omega arith
length-put_digits_power zero (suc f) (suc room) uval = omega arith
length-put_digits_power (suc k) (suc f) (suc room) uval =
    rw (power-quotient k base_10, not_zero (10 ^ k) (power_pos k base_10))
      (omega (arith, length-put_digits_power k f room (uval - uval / 10 ^ suc k * 10 ^ suc k)))

length-put_digits_pos : (f room x uval : ℕ) → 0 < length (put_digits (suc f) (suc room) 10 x uval)
unfolding put_digits
length-put_digits_pos f room x uval = omega arith

not_letter : (c : ℕ) → isdigit c ≡ true → leb c b'9' ≡ true
unfolding isdigit
not_letter c h = (and-true (leb b'0' c) (leb c b'9') h).1

-- Decimal digits read by the lexer and by `number_in`.
number_from-number_in :
    (n : ℕ) (ds : Bytes) → all isdigit ds ≡ true → number_from n ds ≡ number_in 10 n ds
number_from-number_in n [] h = refl
number_from-number_in n (d ∷ ds) h =
    rw (not_letter d (and-true (isdigit d) _ h).0)
      (number_from-number_in (n * 10 + (d - b'0')) ds (and-true (isdigit d) _ h).1)

-- What the lexer needs to know of the digits of the length of a block.
pub record Digits (n : ℕ) (ds : Bytes) : Type 0 where
  pub are_digits : all isdigit ds ≡ true
  pub some_digits : 0 < length ds
  pub few_digits : length ds < 10
  pub value : number_from 0 ds ≡ n

significant-skip :
    (n : ℕ)
    → (n / 10 ^ 9 == 0) ≡ true
    → significant 10 10 (10 ^ 9) n ≡ put_digits 65 10 10 (skip_zeros 64 10 (10 ^ 8) n) n
unfolding skip_zeros
significant-skip n h = rw h refl

length_text : (n : ℕ) → (n == 0) ≡ false → uint32_to_str_base n 10 10 ≡ significant 10 10 (10 ^ 9) n
unfolding uint32_to_str_base uint32_to_str_base_sign to_str_base_sign first_divisor
length_text n z = rw z refl

nonzero-Digits : (n : ℕ) → n < 10 ^ 9 → 0 < n → Digits n (significant 10 10 (10 ^ 9) n)
nonzero-Digits n h p =
    let r = skip_zeros-power 8 64 n base_10 (omega arith) p h in
    rw (significant-skip n (ground arith), r.1)
      (record {
        are_digits = isdigit-put_digits r.0 65 10 n r.3;
        some_digits = length-put_digits_pos 64 9 (10 ^ r.0) n;
        few_digits = omega (arith, r.2, length-put_digits_power r.0 65 10 n);
        value =
            number_from-number_in 0 _ (isdigit-put_digits r.0 65 10 n r.3)
            ∙ put_digits-number r.0 65 10 0 n base_10 (omega (arith, r.2)) (omega (arith, r.2)) r.3
            ∙ omega arith;
      })

zero-Digits : Digits 0 (uint32_to_str_base 0 10 10)
unfolding uint32_to_str_base uint32_to_str_base_sign to_str_base_sign isdigit
zero-Digits = record {
  are_digits = refl;
  some_digits = omega arith;
  few_digits = omega arith;
  value = refl;
}

pub uint32_to_str_base-Digits : (n : ℕ) → n < 10 ^ 9 → Digits n (uint32_to_str_base n 10 10)
uint32_to_str_base-Digits n h = elim (Bool-cases (n == 0)) [
  | inl z ↦ rw ((==_iff n 0).0 z) zero-Digits
  | inr z ↦ rw (length_text n z) (nonzero-Digits n h (nonzero_pos n z))
]
