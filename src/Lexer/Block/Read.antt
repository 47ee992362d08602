-- ===== src/Lexer/Block/Read.antt =====
-- Arbitrary blocks as they are written, and what the recogniser makes of whole and of partial ones.
use scpi_parser.Base.{
  ℕ, zero, suc, ◌+◌, ◌-◌, ◌*◌, ◌^◌, ◌<◌, ◌≤◌, ◌≡◌, refl, ◌∙◌, ap, inl, inr, true, false, Bool-cases,
  [], ◌∷◌, ◌++◌, ◌==◌, leb, length, get_or, drop, Bytes, arith,
}
use native.Mathlib.Nat.{pow-suc, pow-le-pow_right}
use scpi_parser.Lexer.{
  LexState, Lexed, arbitrary_block, unknown, isdigit, next_is, advance, skip_chr, token,
}
use scpi_parser.Lexer.Munch.{all, and-true, moved, skip_if-cons}
use scpi_parser.Lexer.Block.{is_nonzero_digit, digit_value, block_length, block_data}

-- The number that the digits `ds` write behind `n`.
abbrev pub number_from : ℕ → Bytes → ℕ
number_from n [] = n
number_from n (d ∷ ds) = number_from (n * 10 + (d - b'0')) ds

block_length-digits :
    (n p : ℕ) (ds tail : Bytes)
    → all isdigit ds ≡ true
    → block_length (length ds) n (record { at = p; rest = ds ++ tail })
      ≡ (0, number_from n ds, record { at = p + length ds; rest = tail })
unfolding block_length
block_length-digits n p [] tail h = ap (λ s. (0, n, s)) (moved tail (omega arith))
block_length-digits n p (d ∷ ds) tail h = rw ((and-true (isdigit d) _ h).0) (
    block_length-digits (n * 10 + (d - b'0')) (p + 1) ds tail (and-true (isdigit d) _ h).1
    ∙ ap (λ s. (0, number_from (n * 10 + (d - b'0')) ds, s)) (moved tail (omega arith)))

-- The digit that counts the digits, from 1 to 9.
count_digit : (k : ℕ) → 0 < k → k < 10 → is_nonzero_digit (b'0' + k) ≡ true
unfolding is_nonzero_digit isdigit
count_digit k l h = ground arith

-- `#`, the number of digits of the length, and the length, before `bytes`.
abbrev pub block : Bytes → Bytes → Bytes
block ds bytes = b'#' ∷ (b'0' + length ds) ∷ ds ++ bytes

minus_zero : (k : ℕ) → b'0' + k - b'0' ≡ k
minus_zero k = omega arith

leb-true : (a b : ℕ) → a ≤ b → leb a b ≡ true
leb-true a b h = ground arith

leb-false : (a b : ℕ) → b < a → leb a b ≡ false
leb-false a b h = ground arith

block_eq :
    (p k n : ℕ) (rest : Bytes)
    → ◌≡◌ {A = Lexed}
        (record {
          result = n + (p + 1 + 1 + k - p);
          token = token arbitrary_block (p + 1 + 1 + k) n;
          state = record { at = p + 1 + 1 + k + n; rest = rest };
        })
        (record {
          result = 2 + k + n;
          token = token arbitrary_block (p + 2 + k) n;
          state = record { at = p + 2 + k + n; rest = rest };
        })
block_eq p k n rest = rw (at_eq, count_eq) refl
  where
    at_eq : p + 1 + 1 + k ≡ p + 2 + k
    at_eq = omega arith

    count_eq : n + (p + 2 + k - p) ≡ 2 + k + n
    count_eq = omega arith

module _ (at : ℕ) (ds bytes : Bytes) (digits : all isdigit ds ≡ true) (some_digits : 0 < length ds)
    (few_digits : length ds < 10) where
  -- The block is there as far as it goes, and the rest is what follows it.
  pub block_data-whole :
      number_from 0 ds ≤ length bytes
      → block_data (record { at = at; rest = block ds bytes }) ≡ record {
        result = 2 + length ds + number_from 0 ds;
        token = token arbitrary_block (at + 2 + length ds) (number_from 0 ds);
        state = record {
          at = at + 2 + length ds + number_from 0 ds;
          rest = drop (number_from 0 ds) bytes;
        };
      }
  unfolding block_data skip_chr
  block_data-whole l =
      rw
        (
          skip_if-cons (λ c. c == b'#') at b'#' ((b'0' + length ds) ∷ ds ++ bytes) refl,
          count_digit (length ds) some_digits few_digits,
          minus_zero (length ds),
          block_length-digits 0 (at + 1 + 1) ds bytes digits,
          leb-true _ _ l,
        )
        (block_eq at (length ds) (number_from 0 ds) _)

  pub block_data-partial :
      length bytes < number_from 0 ds
      → block_data (record { at = at; rest = block ds bytes }) ≡ record {
        result = 0;
        token = token unknown at 0;
        state = record { at = at + 2 + length ds + length bytes; rest = [] };
      }
  unfolding block_data skip_chr
  block_data-partial l =
      rw
        (
          skip_if-cons (λ c. c == b'#') at b'#' ((b'0' + length ds) ∷ ds ++ bytes) refl,
          count_digit (length ds) some_digits few_digits,
          minus_zero (length ds),
          block_length-digits 0 (at + 1 + 1) ds bytes digits,
          leb-false _ _ l,
        )
        (ap
          (λ m. record {
            result = 0;
            token = token unknown at 0;
            state = record { at = m; rest = [] };
          })
          (omega arith))

digit_value-lt : (s : LexState) → next_is isdigit s.rest ≡ true → digit_value s < 10
unfolding isdigit
digit_value-lt s = at_bytes s.rest
  where
    at_bytes : (bs : Bytes) → next_is isdigit bs ≡ true → get_or bs 0 b'0' - b'0' < 10
    at_bytes [] h = cc
    at_bytes (c ∷ cs) h = ground arith

pow_at : {a b : ℕ} → a ≡ b → 10 ^ a ≡ 10 ^ b
pow_at e = ap (λ k. 10 ^ k) e

ten_times : (j n d : ℕ) → n < 10 ^ j → d < 10 → n * 10 + d < 10 ^ suc j
ten_times j n d h l = omega (arith, pow-suc 10 j)

block_length-lt_pow :
    (i j n : ℕ) (s : LexState) → n < 10 ^ j → (block_length i n s).1 < 10 ^ (i + j)
unfolding block_length
block_length-lt_pow zero j n s h = omega (arith, pow_at {a = zero + j} {b = j} (omega arith))
block_length-lt_pow (suc i) j n s h = elim (Bool-cases (next_is isdigit s.rest)) [
  | inl d ↦ rw d (
      omega (
        arith,
        pow_at {a = i + suc j} {b = suc i + j} (omega arith),
        block_length-lt_pow i (suc j) (n * 10 + digit_value s) (advance s)
            (ten_times j n (digit_value s) h (digit_value-lt s d)),
      ))
  | inr d ↦
      rw d (
        omega
          (arith, pow-le-pow_right {n = 10} (omega arith) {i = j} {j = suc i + j} (omega arith)))
]

-- The length of a block, at most nine digits, stays below 10^9 and so within `int`, whatever the
-- message holds.
pub block_length_bound :
    (i : ℕ) (s : LexState) → i < 10 → ((block_length i 0 s).1 < 10 ^ 9) × (10 ^ 9 < 2 ^ 31)
block_length_bound i s h = (
  omega (
    arith,
    block_length-lt_pow i 0 0 s (omega arith),
    pow-le-pow_right {n = 10} (omega arith) {i = i + 0} {j = 9} (omega arith),
  ),
  omega arith,
)
