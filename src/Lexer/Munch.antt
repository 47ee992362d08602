-- ===== src/Lexer/Munch.antt =====
-- libscpi/src/lexer.c: the loops that skip characters, on bytes that are known.
use scpi_parser.Base.{
  ℕ, suc, ◌+◌, ◌-◌, ◌<◌, ◌==◌, ◌≡◌, refl, ap, inl, inr, Bool, true, false, Bool-cases, ◌&&◌, [],
  ◌∷◌, ◌++◌, length, Bytes, arith,
}
use scpi_parser.Lexer.{
  LexState, next_is, skip_from, skip_while, skip_if, Lexed, TokenType, token, accept,
}

-- All bytes pass the test.
abbrev pub all : (ℕ → Bool) → Bytes → Bool
all p [] = true
all p (c ∷ cs) = p c && all p cs

pub and-true : (a b : Bool) → (a && b) ≡ true → ((a ≡ true) × (b ≡ true))
and-true true b h = (refl, h)
and-true false b h = (h, cc)

-- The same bytes at two positions that are equal.
pub moved :
    {m n : ℕ} (rest : Bytes)
    → m ≡ n
    → ◌≡◌ {A = LexState} (record { at = m; rest = rest }) (record { at = n; rest = rest })
moved rest e = ap (λ k. record { at = k; rest = rest }) e

-- A loop takes the characters that pass its test up to the first that does not.
pub skip_while-append :
    (p : ℕ → Bool) (n : ℕ) (w tail : Bytes)
    → all p w ≡ true
    → next_is p tail ≡ false
    → skip_while p (record { at = n; rest = w ++ tail })
      ≡ (length w, record { at = n + length w; rest = tail })
unfolding skip_from
skip_while-append p n [] [] h e = ap (λ s. (0, s)) (moved [] (omega arith))
skip_while-append p n [] (c ∷ cs) h e = rw e (ap (λ s. (0, s)) (moved (c ∷ cs) (omega arith)))
skip_while-append p n (c ∷ w) tail h e =
    rw
      (
        (and-true (p c) (all p w) h).0,
        skip_while-append p (n + 1) w tail (and-true (p c) (all p w) h).1 e,
      )
      (ap (λ s. (suc (length w), s)) (moved tail (omega arith)))

pub skip_if-cons :
    (p : ℕ → Bool) (n c : ℕ) (tail : Bytes)
    → p c ≡ true
    → skip_if p (record { at = n; rest = c ∷ tail }) ≡ (true, record { at = n + 1; rest = tail })
unfolding skip_if
skip_if-cons p n c tail h = rw h refl

pub skip_if-none :
    (p : ℕ → Bool) (s : LexState) → next_is p s.rest ≡ false → skip_if p s ≡ (false, s)
unfolding skip_if
skip_if-none p s h = rw h refl

-- The outcome of a recogniser whose token of type `t` is all the `k` bytes that it takes from `n`.
abbrev pub passed : TokenType → ℕ → ℕ → Bytes → Lexed
passed t n k tail = record {
  result = k;
  token = token t n k;
  state = record { at = n + k; rest = tail };
}

pub accept-passed :
    (t : TokenType) (n : ℕ) (bs : Bytes) (k m : ℕ) (tail : Bytes)
    → m ≡ n + k
    → 0 < k
    → accept t (record { at = n; rest = bs }) (record { at = m; rest = tail }) ≡ passed t n k tail
accept-passed t n bs k m tail e h = elim (Bool-cases (m - n == 0)) [
  | inl z ↦ absurd (ground (arith, e, h, z))
  | inr z ↦ rw (z, length_eq, e) refl
]
  where
    length_eq : m - n ≡ k
    length_eq = omega arith
