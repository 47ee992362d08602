-- ===== src/Message/Unit.antt =====
-- libscpi/src/parser.c: the parameters of a unit of a program message, and what ends it.
use scpi_parser.Base.{
  ℕ, zero, suc, ◌+◌, ◌≤◌, ◌<◌, ◌≡◌, refl, ap, inl, inr, false, Bool-cases, some, ◌==◌, ltb, length,
  length-append, pos, negsuc, arith,
}
use scpi_parser.Lexer.{LexState, Lexed, token, unknown, all_program_data}
use scpi_parser.Lexer.Span.{Follows, Follows-refl, Follows-trans, Follows-length, IsLexed}
use scpi_parser.Lexer.Separator.{white_space, comma_token, semicolon_token, new_line}
use scpi_parser.Lexer.Recognise.{recognise-IsLexed, a_comma, a_new_line, a_semicolon}
use scpi_parser.Message.Span.{
  IsBounded, Follows-at, IsLexed-IsBounded, or_try-IsBounded, parse_program_data-IsBounded,
}
use scpi_parser.Message.{
  parse_program_data, AllData, is_unknown, parse_parameters, parse_all_program_data, no_data,
  detect_data, detect_end,
}

IsLexed-progress :
    (s : LexState) (r : Lexed)
    → IsLexed s r
    → (r.result == 0) ≡ false
    → length r.state.rest < length s.rest
unfolding IsLexed
IsLexed-progress s r (inl e) h = absurd (ground (arith, ap (λ x. x.result) e, h))
IsLexed-progress s r (inr t) h = omega (
  arith,
  t.result_pos,
  t.result_eq,
  ap length t.follows.rest_eq,
  length-append t.follows.taken r.state.rest,
)

-- The parameters found from `s` on: the token that starts at `start` ends within what was taken.
pub record IsData (start : ℕ) (s : LexState) (d : AllData) : Type 0 where
  pub follows : Follows s d.state
  pub token_start : d.data_token.ptr ≡ start
  pub token_end : start + d.data_token.len ≤ d.state.at

-- The loop over the parameters ends, with as much fuel as there are bytes and one more, and the
-- token that it has measured lies within the bytes that it has taken.
pub parse_parameters_enough :
    (fuel start len count : ℕ) (s : LexState)
    → length s.rest < fuel
    → start + len ≤ s.at
    → (d : AllData) × (parse_parameters fuel start len count s ≡ some d) × IsData start s d
unfolding parse_parameters
parse_parameters_enough zero start len count s h l = absurd (omega arith)
parse_parameters_enough (suc fuel) start len count s h l =
    elim (Bool-cases (is_unknown r.token.type)) [
      | inl u ↦ (
        record { data_token = token unknown start 0; parameters = negsuc 0; state = r.state },
        rw u refl,
        record {
          follows = datum.follows;
          token_start = refl;
          token_end = omega (arith, l, Follows-at datum.follows);
        },
      )
      | inr u ↦ elim (Bool-cases (c.result == 0)) [
        | inl e ↦ (
          record {
            data_token = token all_program_data start (len + r.result);
            parameters = pos (count + 1);
            state = c.state;
          },
          rw (u, e) refl,
          record {
            follows = Follows-trans datum.follows separator.follows;
            token_start = refl;
            token_end = omega (arith, l, datum.bounded, Follows-at separator.follows);
          },
        )
        | inr e ↦
            let (d, q, w) =
              parse_parameters_enough fuel start (len + r.result + c.result) (count + 1) c.state
                (omega (
                  arith,
                  h,
                  Follows-length datum.follows,
                  IsLexed-progress r.state c comma_IsLexed e,
                ))
                (omega (arith, l, datum.bounded, separator.bounded)) in
            (
              d,
              rw (u, e) q,
              record {
                follows = Follows-trans datum.follows (Follows-trans separator.follows w.follows);
                token_start = w.token_start;
                token_end = w.token_end;
              },
            )
      ]
    ]
  where
    r : Lexed
    r = parse_program_data s

    c : Lexed
    c = comma_token r.state

    datum : IsBounded s r
    datum = parse_program_data-IsBounded s

    comma_IsLexed : IsLexed r.state c
    comma_IsLexed = recognise-IsLexed a_comma r.state refl

    separator : IsBounded r.state c
    separator = IsLexed-IsBounded r.state c comma_IsLexed

parse_all_program_data-IsData : (s : LexState) → IsData s.at s (parse_all_program_data s)
unfolding parse_all_program_data
parse_all_program_data-IsData s =
    let (d, q, w) =
      parse_parameters_enough (suc (length s.rest)) s.at 0 0 s (omega arith) (omega arith) in
    rw q w

no_data-IsData : (s : LexState) → IsData s.at s (no_data s)
no_data-IsData s = record { follows = Follows-refl s; token_start = refl; token_end = omega arith }

pub detect_data-IsData :
    (s : LexState) → IsData (white_space s).state.at (white_space s).state (detect_data s)
unfolding detect_data
detect_data-IsData s = elim (Bool-cases (ltb 0 (white_space s).result)) [
  | inl h ↦ rw h (parse_all_program_data-IsData (white_space s).state)
  | inr h ↦ rw h (no_data-IsData (white_space s).state)
]

pub detect_end-IsBounded : (s : LexState) → IsBounded s (detect_end s)
unfolding detect_end
detect_end-IsBounded s =
    or_try-IsBounded semicolon_token s (new_line s)
      (IsLexed-IsBounded s _ (recognise-IsLexed a_new_line s refl))
      (λ t. IsLexed-IsBounded t _ (recognise-IsLexed a_semicolon t refl))

pub header_token-IsWithin :
    (s : LexState) (r : Lexed)
    → IsLexed s r
    → (s.at ≤ r.token.ptr) × (r.token.ptr + r.token.len ≤ r.state.at)
unfolding IsLexed
header_token-IsWithin s r (inl e) = rw e (omega arith, omega arith)
header_token-IsWithin s r (inr t) = (t.token_from, t.token_to)
