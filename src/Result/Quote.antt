-- ===== src/Result/Quote.antt =====
-- libscpi/src/parser.c: the loop of SCPI_ResultText over the quotes in a text.
use scpi_parser.Base.{
  ℕ, zero, suc, ◌<◌, ◌≤◌, ◌≡◌, refl, sym, inl, inr, Bool, true, false, Bool-cases, none, some, not,
  [], ◌∷◌, ◌++◌, ◌==◌, ==_iff, length, length-drop, take, drop, Bytes, arith,
}
use scpi_parser.Context.{Context}
use scpi_parser.ErrorQueue.{strnlen}
use scpi_parser.Lexer.Munch.{all, and-true}
use scpi_parser.Lexer.Quoted.Text.{doubled}
use scpi_parser.Pattern.{strnpbrk}
use scpi_parser.Result.Output.{Writes, Writes-append, write_data-Writes}
use scpi_parser.Result.{write_quoted}

abbrev quote : Bytes
quote = b'"' ∷ []

abbrev pub is_nonzero : ℕ → Bool
is_nonzero c = not (c == 0)

-- What is found in a text that has no zero in it.
data Found (s : Bytes) : Type 0 where
  nothing : strnpbrk s (length s) quote ≡ none → doubled b'"' s ≡ s → Found s
  at_offset :
      (i : ℕ)
      → strnpbrk s (length s) quote ≡ some i
      → doubled b'"' s ≡ take (suc i) s ++ (quote ++ doubled b'"' (drop (suc i) s))
      → i < length s
      → all is_nonzero (drop (suc i) s) ≡ true
      → Found s

equal_sym : (a b : ℕ) → (a == b) ≡ (b == a)
equal_sym a b = ground arith

not-true : (b : Bool) → not b ≡ true → b ≡ false
not-true true h = sym h
not-true false h = refl

found : (s : Bytes) → all is_nonzero s ≡ true → Found s
unfolding strnpbrk
found [] h = nothing refl refl
found (c ∷ cs) h = elim (Bool-cases (c == b'"')) [
  | inl q ↦
      at_offset 0 (rw (strnpbrk, (==_iff c b'"').0 q) refl) (rw (q, (==_iff c b'"').0 q) refl)
        (omega arith) (and-true (is_nonzero c) _ h).1
  | inr q ↦ elim (found cs (and-true (is_nonzero c) _ h).1) [
    | nothing e d ↦
        nothing
          (rw (strnpbrk, not-true _ (and-true (is_nonzero c) _ h).0, equal_sym b'"' c, q, e) refl)
          (rw (q, d) refl)
    | at_offset i e d l n ↦
        at_offset (suc i)
          (rw (strnpbrk, not-true _ (and-true (is_nonzero c) _ h).0, equal_sym b'"' c, q, e) refl)
          (rw (q, d) refl) (omega arith) n
  ]
]

pub write_quoted-Writes :
    (fuel : ℕ) (s : Bytes) (c : Context)
    → all is_nonzero s ≡ true
    → length s < fuel
    → Writes c (doubled b'"' s) (write_quoted fuel s c).1
unfolding write_quoted
write_quoted-Writes zero s c h l = absurd (omega arith)
write_quoted-Writes (suc fuel) s c h l = elim (found s h) [
  | nothing e d ↦ rw (write_quoted, e, d) (write_data-Writes s c)
  | at_offset i e d k n ↦
      rw (write_quoted, e, d)
        (Writes-append (write_data-Writes (take (suc i) s) c) (
          Writes-append (write_data-Writes quote _)
            (write_quoted-Writes fuel (drop (suc i) s) _ n (omega (arith, length-drop (suc i) s)))))
]

-- The characters before the zero.
pub take-strlen-all : (s : Bytes) (n : ℕ) → all is_nonzero (take (strnlen s n) s) ≡ true
unfolding strnlen
take-strlen-all [] n = refl
take-strlen-all (c ∷ s) zero = refl
take-strlen-all (c ∷ s) (suc n) = elim (Bool-cases (c == 0)) [
  | inl h ↦ rw h refl
  | inr h ↦ rw (h, h) (take-strlen-all s n)
]

pub length-take-strlen : (s : Bytes) (n : ℕ) → length (take (strnlen s n) s) ≤ strnlen s n
unfolding strnlen
length-take-strlen [] n = omega arith
length-take-strlen (c ∷ s) zero = omega arith
length-take-strlen (c ∷ s) (suc n) = elim (Bool-cases (c == 0)) [
  | inl h ↦ rw h (omega arith)
  | inr h ↦ rw h (omega (arith, length-take-strlen s n))
]
