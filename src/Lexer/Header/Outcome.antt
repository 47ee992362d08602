-- ===== src/Lexer/Header/Outcome.antt =====
-- What the recogniser of program headers leaves behind, and the fuel of its loop over the levels.
use scpi_parser.Base.{
  ℕ, zero, suc, ◌<◌, ◌≡◌, refl, inl, inr, true, Bool-cases, some, ◌==◌, length, arith, ℤ, pos,
  eqb_ℤ, ◌&&◌,
}
use scpi_parser.Lexer.Span.{
  Follows, Follows-trans, Follows-length, skip_if-Follows, skip_if-true, skip_mnemonic-Follows,
  IsLexed, accept-IsLexed,
}
use scpi_parser.Lexer.{
  LexState, TokenType, incomplete_compound_header, incomplete_common_header, compound_query_header,
  compound_header, common_query_header, common_header, skip_if, skip_chr, skip_star, skip_colon,
  skip_program_mnemonic, iseos,
}
use scpi_parser.Lexer.Header.{
  Skip, skip_common_header, skip_levels, skip_compound_header, query_or, compound, common,
  program_header, skip_none, skip_ok, skip_incomplete, at_most_incomplete, at_least_ok,
}

skip_program_mnemonic-Follows : (s : LexState) → Follows s (skip_program_mnemonic s).1
unfolding skip_program_mnemonic
skip_program_mnemonic-Follows s = skip_mnemonic-Follows s

skip_colon-Follows : (s : LexState) → Follows s (skip_colon s).1
unfolding skip_colon
skip_colon-Follows s = skip_if-Follows (λ c. c == b':') s

skip_star-Follows : (s : LexState) → Follows s (skip_star s).1
unfolding skip_star
skip_star-Follows s = skip_if-Follows (λ c. c == b'*') s

skip_colon-true :
    (s : LexState) → (skip_colon s).0 ≡ true → length s.rest ≡ suc (length (skip_colon s).1.rest)
unfolding skip_colon
skip_colon-true s h = (skip_if-true (λ c. c == b':') s h).1

-- The loop over the levels of a compound header ends, with as much fuel as there are bytes and one
-- more, behind bytes of the message.
pub skip_levels_enough :
    (fuel : ℕ) (s : LexState)
    → length s.rest < fuel
    → (r : Skip × LexState) × (skip_levels fuel s ≡ some r) × Follows s r.1
unfolding skip_levels
skip_levels_enough zero s h = absurd (omega arith)
skip_levels_enough (suc fuel) s h = elim (Bool-cases (skip_colon s).0) [
  | inr e ↦ ((skip_ok, s1), rw e refl, skip_colon-Follows s)
  | inl e ↦ elim (Bool-cases (at_most_incomplete n)) [
    | inl i ↦ ((skip_ok, s2), rw (e, i) refl, level)
    | inr i ↦ elim (Bool-cases (eqb_ℤ n (pos 0))) [
      | inl z ↦ ((skip_incomplete, s2), rw (e, i, z) refl, level)
      | inr z ↦
          let (r, q, f) = skip_levels_enough fuel s2 (
            omega
              (arith, skip_colon-true s e, Follows-length (skip_program_mnemonic-Follows s1))) in
          (r, rw (e, i, z) q, Follows-trans level f)
    ]
  ]
]
  where
    s1 : LexState
    s1 = (skip_colon s).1

    n : ℤ
    n = (skip_program_mnemonic s1).0

    s2 : LexState
    s2 = (skip_program_mnemonic s1).1

    level : Follows s s2
    level = Follows-trans (skip_colon-Follows s) (skip_program_mnemonic-Follows s1)

skip_compound_header-Follows : (s : LexState) → Follows s (skip_compound_header s).1
unfolding skip_compound_header
skip_compound_header-Follows s = elim (Bool-cases (at_least_ok n)) [
  | inl h ↦
      let (r, q, f) = skip_levels_enough (suc (length s2.rest)) s2 (omega arith) in
      rw (h, q) (Follows-trans level f)
  | inr h ↦ elim (Bool-cases (at_most_incomplete n)) [
    | inl i ↦ rw (h, i) level
    | inr i ↦ elim (Bool-cases (skip_colon s).0) [
      | inl e ↦ rw (h, i, e) level
      | inr e ↦ rw (h, i, e) level
    ]
  ]
]
  where
    s1 : LexState
    s1 = (skip_colon s).1

    n : ℤ
    n = (skip_program_mnemonic s1).0

    s2 : LexState
    s2 = (skip_program_mnemonic s1).1

    level : Follows s s2
    level = Follows-trans (skip_colon-Follows s) (skip_program_mnemonic-Follows s1)

skip_common_header-Follows : (s : LexState) → Follows s (skip_common_header s).1
unfolding skip_common_header
skip_common_header-Follows s = elim (Bool-cases (skip_star s).0) [
  | inr e ↦ rw e (skip_star-Follows s)
  | inl e ↦ elim (Bool-cases (eqb_ℤ n (pos 0) && iseos s2)) [
    | inl h ↦ rw (e, h) both
    | inr h ↦ elim (Bool-cases (at_most_incomplete n)) [
      | inl i ↦ rw (e, h, i) both
      | inr i ↦ elim (Bool-cases (at_least_ok n)) [
        | inl o ↦ rw (e, h, i, o) both
        | inr o ↦ rw (e, h, i, o) both
      ]
    ]
  ]
]
  where
    s1 : LexState
    s1 = (skip_star s).1

    n : ℤ
    n = (skip_program_mnemonic s1).0

    s2 : LexState
    s2 = (skip_program_mnemonic s1).1

    both : Follows s s2
    both = Follows-trans (skip_star-Follows s) (skip_program_mnemonic-Follows s1)

query_or-IsLexed :
    (t u : TokenType) (s s' : LexState) → Follows s s' → IsLexed s (query_or t u s s')
unfolding query_or skip_chr
query_or-IsLexed t u s s' f = elim (Bool-cases (skip_if (λ c. c == b'?') s').0) [
  | inl h ↦ rw h (accept-IsLexed t s _ (Follows-trans f (skip_if-Follows (λ c. c == b'?') s')))
  | inr h ↦ rw h (accept-IsLexed u s _ (Follows-trans f (skip_if-Follows (λ c. c == b'?') s')))
]

compound-IsLexed : (s : LexState) (r : Skip × LexState) → Follows s r.1 → IsLexed s (compound s r)
unfolding compound IsLexed
compound-IsLexed s (skip_ok, s') f = query_or-IsLexed compound_query_header compound_header s s' f
compound-IsLexed s (skip_incomplete, s') f = accept-IsLexed incomplete_compound_header s s' f
compound-IsLexed s (skip_none, s') f = inl refl

common-IsLexed : (s : LexState) (r : Skip × LexState) → Follows s r.1 → IsLexed s (common s r)
unfolding common
common-IsLexed s (skip_ok, s') f = query_or-IsLexed common_query_header common_header s s' f
common-IsLexed s (skip_incomplete, s') f = accept-IsLexed incomplete_common_header s s' f
common-IsLexed s (skip_none, s') f =
    compound-IsLexed s (skip_compound_header s') (Follows-trans f (skip_compound_header-Follows s'))

pub program_header-IsLexed : (s : LexState) → IsLexed s (program_header s)
unfolding program_header
program_header-IsLexed s = common-IsLexed s (skip_common_header s) (skip_common_header-Follows s)
