-- ===== src/Lexer/Outcome.antt =====
-- What a recogniser of libscpi/src/lexer.c leaves behind, and the fuel of its loops.
use scpi_parser.Base.{
  ℕ, zero, suc, ◌+◌, ◌-◌, ◌<◌, ◌≡◌, refl, inl, inr, Bool, true, Bool-cases, some, ◌==◌, length,
  arith, ◌||◌,
}
use scpi_parser.Lexer.Span.{
  Follows, Follows-refl, Follows-trans, Follows-length, skip_if-Follows, skip_if-true,
  skip_while-Follows, skip_while-count, advance-Follows, advance-next, skip_mnemonic-Follows,
  IsLexed, accept-IsLexed,
}
use scpi_parser.Lexer.{
  LexState, TokenType, nl, ws, program_mnemonic, decimal, suffix, next_is, advance, skip_if,
  skip_while, skip_ws, skip_digit, skip_numbers, skip_plusmn, skip_alpha, skip_chr, skip_slash_dot,
  isws, isdigit, isalpha, isplusmn, is_e, is_h, is_q, is_b, isxdigit, isqdigit, isbdigit, hexnum,
  octnum, binnum,
}
use scpi_parser.Lexer.Separator.{white_space, one_character, new_line}
use scpi_parser.Lexer.Number.{
  character_data, skip_mantissa, skip_exponent, decimal_number, skip_unit, skip_units, suffix_data,
  based_number, nondecimal_number,
}

pub one_character-IsLexed :
    (t : TokenType) (chr : ℕ) (s : LexState) → IsLexed s (one_character t chr s)
unfolding IsLexed one_character skip_chr
one_character-IsLexed t chr s = elim (Bool-cases (skip_if (λ c. c == chr) s).0) [
  | inl h ↦
      let f = skip_if-Follows (λ c. c == chr) s in
      rw h (
        inr (record {
          follows = f;
          result_eq = omega (arith, f.at_eq, skip_if-true (λ c. c == chr) s h);
          result_pos = omega arith;
          token_from = omega arith;
          token_to = omega (arith, skip_if-true (λ c. c == chr) s h);
        }))
  | inr h ↦ rw h (inl refl)
]

pub white_space-IsLexed : (s : LexState) → IsLexed s (white_space s)
unfolding white_space skip_ws
white_space-IsLexed s = accept-IsLexed ws s _ (skip_while-Follows isws s)

pub new_line-IsLexed : (s : LexState) → IsLexed s (new_line s)
unfolding new_line skip_chr
new_line-IsLexed s =
    accept-IsLexed nl s _
      (Follows-trans (skip_if-Follows (λ c. c == b'\r') s) (skip_if-Follows (λ c. c == b'\n') _))

pub character_data-IsLexed : (s : LexState) → IsLexed s (character_data s)
unfolding character_data
character_data-IsLexed s = accept-IsLexed program_mnemonic s _ (skip_mnemonic-Follows s)

skip_mantissa-Follows : (s : LexState) → Follows s (skip_mantissa s).1
unfolding skip_mantissa skip_plusmn skip_numbers skip_chr
skip_mantissa-Follows s = elim (Bool-cases (skip_if (λ c. c == b'.') s2).0) [
  | inl h ↦ rw h (
      Follows-trans before
        (Follows-trans (skip_if-Follows (λ c. c == b'.') s2) (skip_while-Follows isdigit _)))
  | inr h ↦ rw h (Follows-trans before (skip_if-Follows (λ c. c == b'.') s2))
]
  where
    s1 : LexState
    s1 = (skip_if isplusmn s).1

    s2 : LexState
    s2 = (skip_while isdigit s1).1

    before : Follows s s2
    before = Follows-trans (skip_if-Follows isplusmn s) (skip_while-Follows isdigit s1)

skip_exponent-Follows : (s : LexState) → Follows s (skip_exponent s).1
unfolding skip_exponent skip_ws skip_plusmn skip_numbers
skip_exponent-Follows s = elim (Bool-cases (next_is is_e s.rest)) [
  | inl h ↦ rw h (
      Follows-trans (advance-Follows s) (
        Follows-trans (skip_while-Follows isws _)
          (Follows-trans (skip_if-Follows isplusmn _) (skip_while-Follows isdigit _))))
  | inr h ↦ rw h (Follows-refl s)
]

pub decimal_number-IsLexed : (s : LexState) → IsLexed s (decimal_number s)
unfolding decimal_number IsLexed skip_ws
decimal_number-IsLexed s = elim (Bool-cases ((skip_mantissa s).0 == 0)) [
  | inl h ↦ rw h (inl refl)
  | inr h ↦ elim (Bool-cases ((skip_exponent (skip_ws (skip_mantissa s).1).1).0 == 0)) [
    | inl e ↦ rw (h, e) (accept-IsLexed decimal s _ (skip_mantissa-Follows s))
    | inr e ↦
        rw (h, e)
          (accept-IsLexed decimal s _ (
            Follows-trans (skip_mantissa-Follows s)
              (Follows-trans (skip_while-Follows isws _) (skip_exponent-Follows _))))
  ]
]

skip_unit-Follows : (s : LexState) → Follows s (skip_unit s)
unfolding skip_unit skip_alpha skip_chr skip_digit
skip_unit-Follows s =
    Follows-trans (skip_while-Follows isalpha s)
      (Follows-trans (skip_if-Follows (λ c. c == b'-') _) (skip_if-Follows isdigit _))

abbrev is_slash_dot : ℕ → Bool
is_slash_dot c = c == b'/' || c == b'.'

-- As much fuel as bytes, and one more, is enough for the loop of the suffix.
skip_units_enough :
    (fuel : ℕ) (s : LexState)
    → length s.rest < fuel
    → (s' : LexState) × (skip_units fuel s ≡ some s') × Follows s s'
unfolding skip_units skip_slash_dot
skip_units_enough zero s h = absurd (omega arith)
skip_units_enough (suc fuel) s h = elim (Bool-cases (skip_if is_slash_dot s).0) [
  | inl e ↦
      let (s', q, f) = skip_units_enough fuel (skip_unit (skip_if is_slash_dot s).1) (
        omega (
          arith,
          skip_if-true is_slash_dot s e,
          Follows-length (skip_unit-Follows (skip_if is_slash_dot s).1),
        )) in
      (
        s',
        rw e q,
        Follows-trans (skip_if-Follows is_slash_dot s) (Follows-trans (skip_unit-Follows _) f),
      )
  | inr e ↦ ((skip_if is_slash_dot s).1, rw e refl, skip_if-Follows is_slash_dot s)
]

pub suffix_data-IsLexed : (s : LexState) → IsLexed s (suffix_data s)
unfolding suffix_data skip_chr skip_alpha
suffix_data-IsLexed s = elim (Bool-cases ((skip_while isalpha s1).0 == 0)) [
  | inl h ↦ rw h (accept-IsLexed suffix s _ first)
  | inr h ↦
      let (s', q, f) =
        skip_units_enough (suc (length s1.rest)) (skip_unit s1)
          (omega (arith, Follows-length (skip_unit-Follows s1))) in
      rw (h, q)
        (accept-IsLexed suffix s _ (Follows-trans first (Follows-trans (skip_unit-Follows s1) f)))
]
  where
    s1 : LexState
    s1 = (skip_if (λ c. c == b'/') s).1

    first : Follows s s1
    first = skip_if-Follows (λ c. c == b'/') s

based_number-IsLexed :
    (t : TokenType) (p : ℕ → Bool) (s s' : LexState)
    → Follows s s'
    → s'.at ≡ s.at + 1
    → (advance s').at ≡ s'.at + 1
    → IsLexed s (based_number t p s s')
unfolding based_number IsLexed
based_number-IsLexed t p s s' f q m = elim (Bool-cases ((skip_while p (advance s')).0 == 0)) [
  | inl h ↦ rw h (inl refl)
  | inr h ↦ elim (Bool-cases (len == 0)) [
    | inl z ↦ absurd (ground (arith, q, m, digits.at_eq, skip_while-count p (advance s')))
    | inr z ↦
        rw (h, z)
          (inr (record {
            follows = all;
            result_eq = omega (arith, all.at_eq, digits.at_eq, q, m);
            result_pos = omega arith;
            token_from = omega arith;
            token_to = omega (arith, digits.at_eq, q, m);
          }))
  ]
]
  where
    s'' : LexState
    s'' = (skip_while p (advance s')).1

    len : ℕ
    len = s''.at - (s.at + 2)

    digits : Follows (advance s') s''
    digits = skip_while-Follows p (advance s')

    all : Follows s s''
    all = Follows-trans f (Follows-trans (advance-Follows s') digits)

based_number-step :
    (t : TokenType) (p q : ℕ → Bool) (s : LexState)
    → (skip_if (λ c. c == b'#') s).0 ≡ true
    → next_is q (skip_if (λ c. c == b'#') s).1.rest ≡ true
    → IsLexed s (based_number t p s (skip_if (λ c. c == b'#') s).1)
based_number-step t p q s h m =
    based_number-IsLexed t p s _ (skip_if-Follows (λ c. c == b'#') s)
      (skip_if-true (λ c. c == b'#') s h).0 (advance-next q _ m)

pub nondecimal_number-IsLexed : (s : LexState) → IsLexed s (nondecimal_number s)
unfolding nondecimal_number IsLexed skip_chr
nondecimal_number-IsLexed s = elim (Bool-cases (skip_if (λ c. c == b'#') s).0) [
  | inr e ↦ rw e (inl refl)
  | inl e ↦ elim (Bool-cases (next_is is_h s1.rest)) [
    | inl h ↦ rw (e, h) (based_number-step hexnum isxdigit is_h s e h)
    | inr h ↦ elim (Bool-cases (next_is is_q s1.rest)) [
      | inl q ↦ rw (e, h, q) (based_number-step octnum isqdigit is_q s e q)
      | inr q ↦ elim (Bool-cases (next_is is_b s1.rest)) [
        | inl b ↦ rw (e, h, q, b) (based_number-step binnum isbdigit is_b s e b)
        | inr b ↦ rw (e, h, q, b) (inl refl)
      ]
    ]
  ]
]
  where
    s1 : LexState
    s1 = (skip_if (λ c. c == b'#') s).1
