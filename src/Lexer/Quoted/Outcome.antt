-- ===== src/Lexer/Quoted/Outcome.antt =====
-- What the recognisers of strings and expressions leave behind.
use scpi_parser.Base.{ℕ, ◌+◌, refl, inl, inr, Bool-cases, [], ◌∷◌, ◌==◌, Bytes, not, ◌&&◌}
use scpi_parser.Lexer.Span.{
  Follows, Follows-refl, Follows-trans, Follows-step, Follows-two_steps, skip_if-Follows,
  skip_while-Follows, advance-Follows, IsLexed, accept-IsLexed,
}
use scpi_parser.Lexer.{
  LexState, TokenType, single_quote, double_quote, program_expression, next_is, advance, skip_while,
  skip_if, skip_chr,
}
use scpi_parser.Lexer.Quoted.{
  isascii7bit, skip_quote, quoted, string_data, is_program_expression, expression_data,
}

skip_quote-Follows :
    (quote n : ℕ) (bs : Bytes) → Follows (record { at = n; rest = bs }) (skip_quote quote n bs)
unfolding skip_quote
skip_quote-Follows quote n [] = Follows-refl _
skip_quote-Follows quote n (c ∷ []) = elim (Bool-cases (isascii7bit c && not (c == quote))) [
  | inl h ↦ rw h (Follows-step c (Follows-refl _))
  | inr h ↦ rw h (Follows-refl _)
]
skip_quote-Follows quote n (c ∷ d ∷ cs) = elim (Bool-cases (isascii7bit c && not (c == quote))) [
  | inl h ↦ rw (skip_quote, h) (Follows-step c (skip_quote-Follows quote (n + 1) (d ∷ cs)))
  | inr h ↦ elim (Bool-cases (c == quote && d == quote)) [
    | inl e ↦ rw (skip_quote, h, e) (Follows-two_steps c d (skip_quote-Follows quote (n + 2) cs))
    | inr e ↦ rw (skip_quote, h, e) (Follows-refl _)
  ]
]

quoted-IsLexed : (t : TokenType) (quote : ℕ) (s : LexState) → IsLexed s (quoted t quote s)
unfolding quoted IsLexed skip_chr
quoted-IsLexed t quote s = elim (Bool-cases (skip_if (λ c. c == quote) s1).0) [
  | inl h ↦ rw h (
      accept-IsLexed t s _ (
        Follows-trans (advance-Follows s)
          (Follows-trans (skip_quote-Follows quote _ _) (skip_if-Follows (λ c. c == quote) s1))))
  | inr h ↦ rw h (inl refl)
]
  where
    s1 : LexState
    s1 = skip_quote quote (advance s).at (advance s).rest

pub string_data-IsLexed : (s : LexState) → IsLexed s (string_data s)
unfolding string_data IsLexed
string_data-IsLexed s = elim (Bool-cases (next_is (λ c. c == b'"') s.rest)) [
  | inl h ↦ rw h (quoted-IsLexed double_quote b'"' s)
  | inr h ↦ elim (Bool-cases (next_is (λ c. c == b'\'') s.rest)) [
    | inl e ↦ rw (h, e) (quoted-IsLexed single_quote b'\'' s)
    | inr e ↦ rw (h, e) (inl refl)
  ]
]

pub expression_data-IsLexed : (s : LexState) → IsLexed s (expression_data 0 s)
unfolding expression_data IsLexed skip_chr
expression_data-IsLexed s = elim (Bool-cases (next_is (λ c. c == b'(') s.rest)) [
  | inl h ↦ elim (Bool-cases (skip_if (λ c. c == b')') s1).0) [
    | inl e ↦
        rw (h, e)
          (accept-IsLexed program_expression s _ (
            Follows-trans (advance-Follows s) (
              Follows-trans (skip_while-Follows is_program_expression _)
                (skip_if-Follows (λ c. c == b')') s1))))
    | inr e ↦ rw (h, e) (inl refl)
  ]
  | inr h ↦ rw h (inl refl)
]
  where
    s1 : LexState
    s1 = (skip_while is_program_expression (advance s)).1
