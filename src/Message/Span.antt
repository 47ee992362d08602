-- ===== src/Message/Span.antt =====
-- How far the functions of libscpi/src/parser.c that read program data move, and what they count.
use scpi_parser.Base.{
  ℕ, zero, suc, ◌+◌, ◌≤◌, ◌≡◌, refl, sym, inl, inr, true, Bool-cases, [], ◌==◌, leb, ltb, length,
  length-take, append-nil, take, drop, ◌*◌, take-append-drop, arith,
}
use scpi_parser.Lexer.{LexState, Lexed, iseos, isdigit, next_is, advance, skip_if, skip_chr, reject}
use scpi_parser.Lexer.Span.{
  Follows, Follows-refl, Follows-trans, skip_if-Follows, advance-Follows, IsLexed,
}
use scpi_parser.Lexer.Separator.{white_space}
use scpi_parser.Lexer.Number.{suffix_data}
use scpi_parser.Lexer.Block.{
  is_nonzero_digit, digit_value, block_length, incomplete_block, block_of, block_data,
}
use scpi_parser.Lexer.Recognise.{
  recognise-IsLexed, a_white_space, a_string, a_decimal, a_suffix, an_expression, a_nondecimal,
  a_character_data,
}
use scpi_parser.Message.{or_try, with_suffix, program_datum, parse_program_data}

-- The recogniser moved forward, by as many bytes as it returned or more.
pub record IsBounded (s : LexState) (r : Lexed) : Type 0 where
  pub follows : Follows s r.state
  pub bounded : s.at + r.result ≤ r.state.at

pub Follows-at : {s s' : LexState} → Follows s s' → s.at ≤ s'.at
Follows-at f = omega (arith, f.at_eq)

pub IsLexed-IsBounded : (s : LexState) (r : Lexed) → IsLexed s r → IsBounded s r
unfolding IsLexed
IsLexed-IsBounded s r (inl e) = rw e (record { follows = Follows-refl s; bounded = omega arith })
IsLexed-IsBounded s r (inr t) = record {
  follows = t.follows;
  bounded = omega (arith, t.follows.at_eq, t.result_eq);
}

pub or_try-IsBounded :
    (f : LexState → Lexed) (s : LexState) (r : Lexed)
    → IsBounded s r
    → ((s' : LexState) → IsBounded s' (f s'))
    → IsBounded s (or_try f r)
or_try-IsBounded f s r b h = elim (Bool-cases (r.result == 0)) [
  | inl e ↦ rw e (record {
    follows = Follows-trans b.follows (h r.state).follows;
    bounded = omega (arith, Follows-at b.follows, (h r.state).bounded);
  })
  | inr e ↦ rw e b
]

-- The token of a recogniser is no longer than what it counted.
IsLexed-len : (s : LexState) (r : Lexed) → IsLexed s r → r.token.len ≤ r.result
unfolding IsLexed
IsLexed-len s r (inl e) = rw e (omega arith)
IsLexed-len s r (inr t) = omega (arith, t.token_from, t.token_to, t.follows.at_eq, t.result_eq)

with_suffix-IsBounded : (s : LexState) (r : Lexed) → IsLexed s r → IsBounded s (with_suffix r)
unfolding with_suffix
with_suffix-IsBounded s r h = elim (Bool-cases (r.result == 0)) [
  | inl e ↦ rw e b
  | inr e ↦ elim (Bool-cases (ltb 0 u.result)) [
    | inl l ↦
        rw (e, l)
          (record {
            follows = all;
            bounded =
                omega (arith, b.bounded, w_bounded.bounded, u_bounded.bounded, IsLexed-len s r h);
          })
    | inr l ↦
        rw (e, l)
          (record {
            follows = all;
            bounded =
                omega
                  (arith, b.bounded, Follows-at w_bounded.follows, Follows-at u_bounded.follows);
          })
  ]
]
  where
    b : IsBounded s r
    b = IsLexed-IsBounded s r h

    w : Lexed
    w = white_space r.state

    u : Lexed
    u = suffix_data w.state

    w_bounded : IsBounded r.state w
    w_bounded = IsLexed-IsBounded r.state w (recognise-IsLexed a_white_space r.state refl)

    u_bounded : IsBounded w.state u
    u_bounded = IsLexed-IsBounded w.state u (recognise-IsLexed a_suffix w.state refl)

    all : Follows s u.state
    all = Follows-trans b.follows (Follows-trans w_bounded.follows u_bounded.follows)

block_length-Follows : (i n : ℕ) (s : LexState) → Follows s (block_length i n s).2
unfolding block_length
block_length-Follows zero n s = Follows-refl s
block_length-Follows (suc i) n s = elim (Bool-cases (next_is isdigit s.rest)) [
  | inl d ↦ rw d (
      Follows-trans (advance-Follows s)
        (block_length-Follows i (n * 10 + digit_value s) (advance s)))
  | inr d ↦ rw d (Follows-refl s)
]

leb-le : (a b : ℕ) → leb a b ≡ true → a ≤ b
leb-le a b h = ground arith

drop-Follows :
    (n : ℕ) (s : LexState)
    → n ≤ length s.rest
    → Follows s (record { at = s.at + n; rest = drop n s.rest })
drop-Follows n s h = record {
  taken = take n s.rest;
  rest_eq = sym (take-append-drop n s.rest);
  at_eq = omega (arith, length-take n s.rest);
}

block_of-IsBounded :
    (n : ℕ) (s s' : LexState) → Follows s s' → n ≤ length s'.rest → IsBounded s (block_of n s s')
block_of-IsBounded n s s' f h = record {
  follows = Follows-trans f (drop-Follows n s' h);
  bounded = omega (arith, Follows-at f);
}

end-Follows : (s : LexState) → Follows s (record { at = s.at + length s.rest; rest = [] })
end-Follows s = record { taken = s.rest; rest_eq = sym (append-nil s.rest); at_eq = refl }

incomplete_block-IsBounded : (s s' : LexState) → Follows s s' → IsBounded s (incomplete_block s s')
incomplete_block-IsBounded s s' f = record {
  follows = Follows-trans f (end-Follows s');
  bounded = omega (arith, Follows-at f);
}

reject-IsBounded : (s : LexState) → IsBounded s (reject s)
reject-IsBounded s = record { follows = Follows-refl s; bounded = omega arith }

pub block_data-IsBounded : (s : LexState) → IsBounded s (block_data s)
unfolding block_data skip_chr
block_data-IsBounded s = elim (Bool-cases (skip_if (λ c. c == b'#') s).0) [
  | inr e ↦ rw e (reject-IsBounded s)
  | inl e ↦ elim (Bool-cases (next_is is_nonzero_digit s1.rest)) [
    | inr d ↦ elim (Bool-cases (iseos s1)) [
      | inl o ↦ rw (e, d, o) (incomplete_block-IsBounded s s1 first)
      | inr o ↦ rw (e, d, o) (reject-IsBounded s)
    ]
    | inl d ↦ elim (Bool-cases ((block_length (digit_value s1) 0 (advance s1)).0 == 0)) [
      | inr m ↦ elim (Bool-cases (iseos s2)) [
        | inl o ↦ rw (e, d, m, o) (incomplete_block-IsBounded s s2 second)
        | inr o ↦ rw (e, d, m, o) (reject-IsBounded s)
      ]
      | inl m ↦ elim (Bool-cases (leb n (length s2.rest))) [
        | inl l ↦ rw (e, d, m, l) (block_of-IsBounded n s s2 second (leb-le n _ l))
        | inr l ↦ rw (e, d, m, l) (incomplete_block-IsBounded s s2 second)
      ]
    ]
  ]
]
  where
    s1 : LexState
    s1 = (skip_if (λ c. c == b'#') s).1

    first : Follows s s1
    first = skip_if-Follows (λ c. c == b'#') s

    n : ℕ
    n = (block_length (digit_value s1) 0 (advance s1)).1

    s2 : LexState
    s2 = (block_length (digit_value s1) 0 (advance s1)).2

    second : Follows s s2
    second =
        Follows-trans first (
          Follows-trans (advance-Follows s1) (block_length-Follows (digit_value s1) 0 (advance s1)))

program_datum-IsBounded : (s : LexState) → IsBounded s (program_datum s)
unfolding program_datum
program_datum-IsBounded s =
    or_try-IsBounded _ s _
      (or_try-IsBounded _ s _
        (or_try-IsBounded _ s _
          (or_try-IsBounded _ s _
            (or_try-IsBounded _ s _ (IsLexed-IsBounded s _ (recognise-IsLexed a_nondecimal s refl))
              (λ t. IsLexed-IsBounded t _ (recognise-IsLexed a_character_data t refl)))
            (λ t. with_suffix-IsBounded t _ (recognise-IsLexed a_decimal t refl)))
          (λ t. IsLexed-IsBounded t _ (recognise-IsLexed a_string t refl)))
        block_data-IsBounded)
      (λ t. IsLexed-IsBounded t _ (recognise-IsLexed (an_expression 0) t (inl refl)))

-- Reading one parameter moves forward, by as many bytes as are counted or more: the white space
-- between a decimal number and something that is no suffix is not counted.
pub parse_program_data-IsBounded : (s : LexState) → IsBounded s (parse_program_data s)
unfolding parse_program_data
parse_program_data-IsBounded s = record {
  follows = Follows-trans before.follows (Follows-trans datum.follows behind.follows);
  bounded = omega (arith, before.bounded, datum.bounded, behind.bounded);
}
  where
    before : IsBounded s (white_space s)
    before = IsLexed-IsBounded s _ (recognise-IsLexed a_white_space s refl)

    datum : IsBounded (white_space s).state (program_datum (white_space s).state)
    datum = program_datum-IsBounded (white_space s).state

    behind :
        IsBounded
          (program_datum (white_space s).state).state
          (white_space (program_datum (white_space s).state).state)
    behind = IsLexed-IsBounded _ _ (recognise-IsLexed a_white_space _ refl)
