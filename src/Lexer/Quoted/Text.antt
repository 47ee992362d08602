-- ===== src/Lexer/Quoted/Text.antt =====
-- Strings with their quotes doubled, as SCPI_ResultText in libscpi/src/parser.c writes them.
use scpi_parser.Base.{
  ℕ, ◌+◌, ◌≡◌, refl, ◌∙◌, inl, inr, true, false, Bool-cases, [], ◌∷◌, ◌++◌, ◌==◌, ==_iff, length,
  Bytes, arith, if◌then◌else◌,
}
use scpi_parser.Lexer.{TokenType, single_quote, double_quote, next_is, skip_chr}
use scpi_parser.Lexer.Munch.{all, and-true, moved, skip_if-cons, passed, accept-passed}
use scpi_parser.Lexer.Quoted.{isascii7bit, skip_quote, quoted, string_data}

-- The text with every quote doubled.
abbrev pub doubled : ℕ → Bytes → Bytes
doubled quote [] = []
doubled quote (c ∷ cs) =
    let rest = doubled quote cs in if c == quote then c ∷ c ∷ rest else c ∷ rest

skip_quote-plain :
    (quote n c : ℕ) (r : Bytes)
    → isascii7bit c ≡ true
    → (c == quote) ≡ false
    → skip_quote quote n (c ∷ r) ≡ skip_quote quote (n + 1) r
unfolding skip_quote
skip_quote-plain quote n c [] h e = rw (skip_quote, h, e) refl
skip_quote-plain quote n c (d ∷ r) h e = rw (skip_quote, h, e) refl

==_self : (n : ℕ) → (n == n) ≡ true
==_self n = ground arith

skip_quote-stop :
    (quote n : ℕ) (tail : Bytes)
    → next_is (λ c. c == quote) tail ≡ false
    → skip_quote quote n (quote ∷ tail) ≡ record { at = n; rest = quote ∷ tail }
unfolding skip_quote
skip_quote-stop quote n [] h =
    rw (skip_quote, ==_self quote)
      (elim (Bool-cases (isascii7bit quote)) [ inl e ↦ rw e refl | inr e ↦ rw e refl ])
skip_quote-stop quote n (d ∷ r) h = elim (Bool-cases (isascii7bit quote)) [
  | inl e ↦ rw (skip_quote, e, ==_self quote, ==_self quote, is_false) refl
  | inr e ↦ rw (skip_quote, e, ==_self quote, is_false) refl
]
  where
    is_false : (d == quote) ≡ false
    is_false = h

skip_quote-pair :
    (quote n : ℕ) (r : Bytes) → skip_quote quote n (quote ∷ quote ∷ r) ≡ skip_quote quote (n + 2) r
unfolding skip_quote
skip_quote-pair quote n r = elim (Bool-cases (isascii7bit quote)) [
  | inl e ↦ rw (skip_quote, e, ==_self quote, ==_self quote) refl
  | inr e ↦ rw (skip_quote, e, ==_self quote) refl
]

skip_quote-doubled :
    (quote n : ℕ) (text tail : Bytes)
    → all isascii7bit text ≡ true
    → next_is (λ c. c == quote) tail ≡ false
    → skip_quote quote n (doubled quote text ++ quote ∷ tail)
      ≡ record { at = n + length (doubled quote text); rest = quote ∷ tail }
skip_quote-doubled quote n [] tail h e =
    skip_quote-stop quote n tail e ∙ moved (quote ∷ tail) (omega arith)
skip_quote-doubled quote n (c ∷ cs) tail h e = elim (Bool-cases (c == quote)) [
  | inl q ↦
      rw
        (
          q,
          (==_iff c quote).0 q,
          skip_quote-pair quote n (doubled quote cs ++ quote ∷ tail),
          skip_quote-doubled quote (n + 2) cs tail (and-true (isascii7bit c) _ h).1 e,
        )
        (moved (quote ∷ tail) (omega arith))
  | inr q ↦
      rw
        (
          q,
          skip_quote-plain quote n c (doubled quote cs ++ quote ∷ tail)
              (and-true (isascii7bit c) _ h).0 q,
          skip_quote-doubled quote (n + 1) cs tail (and-true (isascii7bit c) _ h).1 e,
        )
        (moved (quote ∷ tail) (omega arith))
]

quoted-doubled :
    (t : TokenType) (quote n : ℕ) (text tail : Bytes)
    → all isascii7bit text ≡ true
    → next_is (λ c. c == quote) tail ≡ false
    → quoted t quote (record { at = n; rest = quote ∷ doubled quote text ++ quote ∷ tail })
      ≡ passed t n (length (doubled quote text) + 2) tail
unfolding quoted skip_chr
quoted-doubled t quote n text tail h e =
    rw
      (
        skip_quote-doubled quote (n + 1) text tail h e,
        skip_if-cons (λ c. c == quote) (n + 1 + length (doubled quote text)) quote tail
            (==_self quote),
      )
      (accept-passed t n _ (length (doubled quote text) + 2) _ tail (omega arith) (omega arith))

-- The two kinds of quotes.
pub data Quote : Type 0 where
  single double : Quote

abbrev pub mark : Quote → ℕ
mark single = b'\''
mark double = b'"'

abbrev pub kind : Quote → TokenType
kind single = single_quote
kind double = double_quote

-- A text of ASCII characters with the quotes in it doubled, between quotes of the one or the other
-- kind, is one string token of that kind, and the lexer stops right behind it, if no further quote
-- of the kind follows.
pub string_data-doubled :
    (q : Quote) (n : ℕ) (text tail : Bytes)
    → all isascii7bit text ≡ true
    → next_is (λ c. c == mark q) tail ≡ false
    → string_data (record { at = n; rest = mark q ∷ doubled (mark q) text ++ mark q ∷ tail })
      ≡ passed (kind q) n (length (doubled (mark q) text) + 2) tail
unfolding string_data
string_data-doubled single n text tail h = quoted-doubled single_quote b'\'' n text tail h
string_data-doubled double n text tail h = quoted-doubled double_quote b'"' n text tail h
