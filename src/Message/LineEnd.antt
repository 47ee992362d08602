-- ===== src/Message/LineEnd.antt =====
-- libscpi/src/parser.c: units of a message without a line end.
use scpi_parser.Base.{
  ℕ, ◌-◌, ◌≡◌, refl, sym, ap, ◌∙◌, inl, inr, Bool, true, false, Bool-cases, not, ◌&&◌, [], ◌∷◌,
  ◌++◌, ◌==◌, Bytes, arith,
}
use scpi_parser.Lexer.{LexState, skip_if, skip_chr, next_is, reject}
use scpi_parser.Lexer.Munch.{all, and-true}
use scpi_parser.Lexer.Separator.{new_line, semicolon_token, one_character, is_eos}
use scpi_parser.Message.{is_nl, termination_of, detect_end, detect_program_message_unit}
use scpi_parser.Message.Progress.{data_found, to_data}

-- A character that ends no line.
abbrev pub is_inline : ℕ → Bool
is_inline c = not (c == b'\r') && not (c == b'\n')

pub all-behind : (xs ys : Bytes) → all is_inline (xs ++ ys) ≡ true → all is_inline ys ≡ true
all-behind [] ys h = h
all-behind (x ∷ xs) ys h = all-behind xs ys (and-true (is_inline x) _ h).1

stays : (c : ℕ) (s : LexState) → next_is (λ d. d == c) s.rest ≡ false → (skip_chr c s).1 ≡ s
unfolding skip_chr skip_if
stays c s h = rw h refl

not-true : (b : Bool) → not b ≡ true → b ≡ false
not-true true h = sym h
not-true false h = refl

inline_next :
    (rest : Bytes)
    → all is_inline rest ≡ true
    → (next_is (λ d. d == b'\r') rest ≡ false) × (next_is (λ d. d == b'\n') rest ≡ false)
inline_next [] h = (refl, refl)
inline_next (c ∷ cs) h =
    let parts = and-true (not (c == b'\r')) _ (and-true (is_inline c) _ h).0 in
    (not-true _ parts.0, not-true _ parts.1)

new_line-inline : (s : LexState) → all is_inline s.rest ≡ true → new_line s ≡ reject s
unfolding new_line
new_line-inline s h =
    rw (stays b'\r' s (inline_next s.rest h).0, stays b'\n' s (inline_next s.rest h).1, gone s.at)
      refl
  where
    gone : (n : ℕ) → n - n ≡ 0
    gone n = omega arith

semicolon_end : (s : LexState) → is_nl (termination_of (semicolon_token s).token.type) ≡ false
unfolding semicolon_token one_character
semicolon_end s = elim (Bool-cases (skip_chr b';' s).0) [ inl e ↦ rw e refl | inr e ↦ rw e refl ]

detect_end-inline :
    (s : LexState)
    → all is_inline s.rest ≡ true
    → is_nl (termination_of (detect_end s).token.type) ≡ false
unfolding detect_end
detect_end-inline s h = rw (new_line-inline s h) (semicolon_end s)

-- The detection of a unit in bytes without a line end finds none.
pub detect_program_message_unit-inline :
    (message : Bytes)
    → all is_inline message ≡ true
    → is_nl (detect_program_message_unit message).termination ≡ false
unfolding detect_program_message_unit
detect_program_message_unit-inline message h =
    elim (Bool-cases (
      not (is_eos (detect_end (data_found message).state).state)
      && ((detect_end (data_found message).state).result == 0))) [
        | inl e ↦ rw e (detect_end-inline (data_found message).state data_inline)
        | inr e ↦ rw e (detect_end-inline (data_found message).state data_inline)
      ]
  where
    data_inline : all is_inline (data_found message).state.rest ≡ true
    data_inline =
        all-behind (to_data message).taken (data_found message).state.rest
          (ap (all is_inline) (sym (to_data message).rest_eq) ∙ h)
