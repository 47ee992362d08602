-- ===== src/Message/Progress.antt =====
-- libscpi/src/parser.c: the bytes that scpiParser_detectProgramMessageUnit takes.
use scpi_parser.Base.{
  ℕ, ◌+◌, ◌≤◌, ◌<◌, ◌≡◌, refl, ap, inl, inr, Bool, true, false, Bool-cases, [], ◌∷◌, ◌==◌, length,
  length-append, Bytes, arith, not, ◌&&◌,
}
use scpi_parser.Lexer.{LexState, Lexed, iseos, advance}
use scpi_parser.Lexer.Span.{Follows, Follows-trans, advance-Follows, IsLexed}
use scpi_parser.Lexer.Munch.{and-true}
use scpi_parser.Lexer.Separator.{white_space, is_eos}
use scpi_parser.Lexer.Header.{program_header}
use scpi_parser.Lexer.Recognise.{recognise-IsLexed, a_white_space, a_header}
use scpi_parser.Message.Span.{Follows-at, IsLexed-IsBounded}
use scpi_parser.Message.Unit.{
  IsData, detect_data-IsData, detect_end-IsBounded, header_token-IsWithin,
}
use scpi_parser.Message.{AllData, detect_data, detect_end, detect_program_message_unit}

-- At the end of the message all its bytes lie before the position; elsewhere a step is one byte.
eos-at : (s : LexState) → iseos s ≡ true → length s.rest ≡ 0
eos-at s = at_bytes s.at s.rest
  where
    at_bytes : (n : ℕ) (bs : Bytes) → iseos (record { at = n; rest = bs }) ≡ true → length bs ≡ 0
    at_bytes n [] h = refl
    at_bytes n (c ∷ cs) h = cc

advance-at : (s : LexState) → iseos s ≡ false → (advance s).at ≡ s.at + 1
advance-at s = at_bytes s.at s.rest
  where
    at_bytes :
        (n : ℕ) (bs : Bytes)
        → iseos (record { at = n; rest = bs }) ≡ false
        → (advance (record { at = n; rest = bs })).at ≡ n + 1
    at_bytes n [] h = cc
    at_bytes n (c ∷ cs) h = refl

not-true : (b : Bool) → not b ≡ true → b ≡ false
not-true false h = refl
not-true true h = cc

-- The states that the detection of a unit passes: behind the header, the data, and the end.
module _ (message : Bytes) where
  abbrev start : LexState
  start = record { at = 0; rest = message }

  abbrev header_found : Lexed
  header_found = program_header (white_space start).state

  abbrev pub data_found : AllData
  data_found = detect_data header_found.state

  abbrev end_found : Lexed
  end_found = detect_end data_found.state

  header_IsLexed : IsLexed (white_space start).state header_found
  header_IsLexed = recognise-IsLexed a_header (white_space start).state refl

  to_header : Follows start header_found.state
  to_header =
      Follows-trans (IsLexed-IsBounded start _ (recognise-IsLexed a_white_space start refl)).follows
        (IsLexed-IsBounded _ header_found header_IsLexed).follows

  data_start : Follows start (white_space header_found.state).state
  data_start =
      Follows-trans to_header
        (IsLexed-IsBounded _ _ (recognise-IsLexed a_white_space header_found.state refl)).follows

  pub to_data : Follows start data_found.state
  to_data = Follows-trans data_start (detect_data-IsData header_found.state).follows

  to_end : Follows start end_found.state
  to_end = Follows-trans to_data (detect_end-IsBounded data_found.state).follows

  -- The position and the bytes left make up the message.
  sum : {s : LexState} → Follows start s → s.at + length s.rest ≡ length message
  sum {s} f = omega (arith, f.at_eq, ap length f.rest_eq, length-append f.taken s.rest)

  -- The function stops at the end of the message, behind a line end or a semicolon, or one byte on.
  last_step :
      0 < length message
      → (0 < (detect_program_message_unit message).result)
        × (end_found.state.at ≤ (detect_program_message_unit message).result)
        × ((detect_program_message_unit message).result ≤ length message)
  unfolding detect_program_message_unit is_eos
  last_step h = elim (Bool-cases (iseos end_found.state)) [
    | inl o ↦ rw o (
      omega (arith, sum to_end, eos-at end_found.state o),
      omega arith,
      omega (arith, sum to_end),
    )
    | inr o ↦ elim (Bool-cases (end_found.result == 0)) [
      | inl e ↦
          rw (o, e)
            (
              omega (arith, advance-at end_found.state o),
              omega (arith, advance-at end_found.state o),
              omega (arith, sum to_end_step),
            )
      | inr e ↦
          rw (o, e)
            (
              ground (arith, e, (detect_end-IsBounded data_found.state).bounded),
              omega arith,
              omega (arith, sum to_end),
            )
    ]
  ]
    where
      to_end_step : Follows start (advance end_found.state)
      to_end_step = Follows-trans to_end (advance-Follows end_found.state)

  header_before : (header_found.state.at ≤ end_found.state.at)
  header_before = omega (
    arith,
    Follows-at
        (IsLexed-IsBounded _ _ (recognise-IsLexed a_white_space header_found.state refl)).follows,
    Follows-at (detect_data-IsData header_found.state).follows,
    Follows-at (detect_end-IsBounded data_found.state).follows,
  )

  invalid_step :
      (not (is_eos end_found.state) && (end_found.result == 0)) ≡ true
      → (advance end_found.state).at ≡ end_found.state.at + 1
  unfolding is_eos
  invalid_step o = advance-at end_found.state (not-true (iseos end_found.state) (and-true _ _ o).0)

-- A unit of a message that is not empty takes at least one byte, and no more than there are: the
-- loop of SCPI_Parse over the units of a message ends.
pub detect_program_message_unit-progress :
    (message : Bytes)
    → 0 < length message
    → (0 < (detect_program_message_unit message).result)
      × ((detect_program_message_unit message).result ≤ length message)
detect_program_message_unit-progress message h = let (a, b, c) = last_step message h in (a, c)

-- The tokens of the header and of the parameters lie within the bytes that the unit takes.
pub detect_program_message_unit-tokens :
    (message : Bytes)
    → ((detect_program_message_unit message).header.ptr
          + (detect_program_message_unit message).header.len
        ≤ (detect_program_message_unit message).result)
      × ((detect_program_message_unit message).program_data.ptr
            + (detect_program_message_unit message).program_data.len
          ≤ (detect_program_message_unit message).result)
unfolding detect_program_message_unit
detect_program_message_unit-tokens message =
    elim (Bool-cases
      (not (is_eos (end_found message).state) && ((end_found message).result == 0))) [
        | inl o ↦ rw o (
          omega (arith, header_before message, header_end.1, invalid_step message o),
          omega arith,
        )
        | inr o ↦ rw o (
          omega (arith, header_before message, header_end.1),
          omega (arith, found.token_start, found.token_end, Follows-at rest),
        )
      ]
  where
    header_end :
        ((white_space (start message)).state.at ≤ (header_found message).token.ptr)
        × ((header_found message).token.ptr + (header_found message).token.len
            ≤ (header_found message).state.at)
    header_end = header_token-IsWithin _ (header_found message) (header_IsLexed message)

    found :
        IsData
          (white_space (header_found message).state).state.at
          (white_space (header_found message).state).state
          (data_found message)
    found = detect_data-IsData (header_found message).state

    rest : Follows (data_found message).state (end_found message).state
    rest = (detect_end-IsBounded (data_found message).state).follows
