-- ===== src/Lexer/Span.antt =====
-- libscpi/src/lexer.c: moving over bytes of a message, and the outcome of a recogniser.
use scpi_parser.Base.{
  ℕ, suc, ◌+◌, ◌-◌, ◌<◌, ◌≤◌, ◌≡◌, refl, sym, ap, ◌∙◌, ◌⊎◌, inl, inr, Bool, true, Bool-cases, [],
  ◌∷◌, ◌++◌, append_assoc, ◌==◌, length, length-append, Bytes, arith,
}
use scpi_parser.Lexer.{
  LexState, Lexed, TokenType, next_is, advance, skip_if, skip_from, skip_while, skip_mnemonic,
  is_mnemonic, isalpha, reject, accept,
}

-- The second state is behind the first, by the bytes `taken`.
pub record Follows (s s' : LexState) : Type 0 where
  pub taken : Bytes
  pub rest_eq : s.rest ≡ taken ++ s'.rest
  pub at_eq : s'.at ≡ s.at + length taken

pub Follows-refl : (s : LexState) → Follows s s
Follows-refl s = record { taken = []; rest_eq = refl; at_eq = omega arith }

pub Follows-trans : {s s' s'' : LexState} → Follows s s' → Follows s' s'' → Follows s s''
Follows-trans f g = record {
  taken = f.taken ++ g.taken;
  rest_eq = f.rest_eq ∙ ap (λ r. f.taken ++ r) g.rest_eq ∙ sym (append_assoc f.taken g.taken _);
  at_eq = omega (arith, f.at_eq, g.at_eq, length-append f.taken g.taken);
}

pub Follows-step :
    {n : ℕ} {bs : Bytes} {s : LexState} (c : ℕ)
    → Follows (record { at = n + 1; rest = bs }) s
    → Follows (record { at = n; rest = c ∷ bs }) s
Follows-step c f = record {
  taken = c ∷ f.taken;
  rest_eq = ap (λ r. c ∷ r) f.rest_eq;
  at_eq = omega (arith, f.at_eq);
}

pub Follows-two_steps :
    {n : ℕ} {bs : Bytes} {s : LexState} (c d : ℕ)
    → Follows (record { at = n + 2; rest = bs }) s
    → Follows (record { at = n; rest = c ∷ d ∷ bs }) s
Follows-two_steps c d f = record {
  taken = c ∷ d ∷ f.taken;
  rest_eq = ap (λ r. c ∷ d ∷ r) f.rest_eq;
  at_eq = omega (arith, f.at_eq);
}

module _ (p : ℕ → Bool) where
  skip_if-Follows_at :
      (n : ℕ) (bs : Bytes)
      → Follows (record { at = n; rest = bs }) (skip_if p (record { at = n; rest = bs })).1
  unfolding skip_if
  skip_if-Follows_at n [] = record { taken = []; rest_eq = refl; at_eq = omega arith }
  skip_if-Follows_at n (c ∷ cs) = elim (Bool-cases (p c)) [
    | inl h ↦ rw h record { taken = c ∷ []; rest_eq = refl; at_eq = refl }
    | inr h ↦ rw h record { taken = []; rest_eq = refl; at_eq = omega arith }
  ]

  pub skip_if-Follows : (s : LexState) → Follows s (skip_if p s).1
  skip_if-Follows s = skip_if-Follows_at s.at s.rest

  skip_from-Follows :
      (n : ℕ) (bs : Bytes) → Follows (record { at = n; rest = bs }) (skip_from p n bs).1
  unfolding skip_from
  skip_from-Follows n [] = record { taken = []; rest_eq = refl; at_eq = omega arith }
  skip_from-Follows n (c ∷ cs) = elim (Bool-cases (p c)) [
    | inl h ↦ rw h (Follows-step c (skip_from-Follows (n + 1) cs))
    | inr h ↦ rw h record { taken = []; rest_eq = refl; at_eq = omega arith }
  ]

  pub skip_while-Follows : (s : LexState) → Follows s (skip_while p s).1
  skip_while-Follows s = skip_from-Follows s.at s.rest

pub advance-Follows : (s : LexState) → Follows s (advance s)
advance-Follows s = forward s.at s.rest
  where
    forward :
        (n : ℕ) (bs : Bytes)
        → Follows (record { at = n; rest = bs }) (advance (record { at = n; rest = bs }))
    forward n [] = record { taken = []; rest_eq = refl; at_eq = omega arith }
    forward n (c ∷ cs) = record { taken = c ∷ []; rest_eq = refl; at_eq = refl }

-- The count of a loop that skips characters.
pub skip_while-count :
    (p : ℕ → Bool) (s : LexState) → (skip_while p s).1.at ≡ s.at + (skip_while p s).0
unfolding skip_from
skip_while-count p s = at_bytes s.at s.rest
  where
    at_bytes : (n : ℕ) (bs : Bytes) → (skip_from p n bs).1.at ≡ n + (skip_from p n bs).0
    at_bytes n [] = omega arith
    at_bytes n (c ∷ cs) = elim (Bool-cases (p c)) [
      | inl h ↦ rw h (omega (arith, at_bytes (n + 1) cs))
      | inr h ↦ rw h (omega arith)
    ]

pub advance-next :
    (p : ℕ → Bool) (s : LexState) → next_is p s.rest ≡ true → (advance s).at ≡ s.at + 1
advance-next p s = at_bytes s.at s.rest
  where
    at_bytes :
        (n : ℕ) (bs : Bytes)
        → next_is p bs ≡ true
        → (advance (record { at = n; rest = bs })).at ≡ n + 1
    at_bytes n [] h = cc
    at_bytes n (c ∷ cs) h = refl

pub skip_mnemonic-Follows : (s : LexState) → Follows s (skip_mnemonic s)
unfolding skip_mnemonic
skip_mnemonic-Follows s = elim (Bool-cases (next_is isalpha s.rest)) [
  | inl h ↦ rw h (Follows-trans (advance-Follows s) (skip_while-Follows is_mnemonic (advance s)))
  | inr h ↦ rw h (Follows-refl s)
]

pub Follows-length : {s s' : LexState} → Follows s s' → length s'.rest ≤ length s.rest
Follows-length f = omega (arith, ap length f.rest_eq, length-append f.taken _)

-- A move past one character.
pub skip_if-true :
    (p : ℕ → Bool) (s : LexState)
    → (skip_if p s).0 ≡ true
    → (((skip_if p s).1.at ≡ s.at + 1) × (length s.rest ≡ suc (length (skip_if p s).1.rest)))
unfolding skip_if
skip_if-true p s = at_bytes s.at s.rest
  where
    at_bytes :
        (n : ℕ) (bs : Bytes)
        → (skip_if p (record { at = n; rest = bs })).0 ≡ true
        → (((skip_if p (record { at = n; rest = bs })).1.at ≡ n + 1)
            × (length bs ≡ suc (length (skip_if p (record { at = n; rest = bs })).1.rest)))
    at_bytes n [] h = cc
    at_bytes n (c ∷ cs) h = elim (Bool-cases (p c)) [ inl e ↦ rw e (refl, refl) | inr e ↦ cc ]

-- A recogniser either finds nothing and stays, or takes the bytes that it counts, at least one,
-- and its token lies within them.
pub record IsTaken (s : LexState) (r : Lexed) : Type 0 where
  pub follows : Follows s r.state
  pub result_eq : r.result ≡ length follows.taken
  pub result_pos : 0 < r.result
  pub token_from : s.at ≤ r.token.ptr
  pub token_to : r.token.ptr + r.token.len ≤ r.state.at

unfoldable pub IsLexed : LexState → Lexed → Type 0
IsLexed s r = (r ≡ reject s) ⊎ IsTaken s r

pub accept-IsLexed : (t : TokenType) (s s' : LexState) → Follows s s' → IsLexed s (accept t s s')
unfolding IsLexed
accept-IsLexed t s s' f = elim (Bool-cases (s'.at - s.at == 0)) [
  | inl h ↦ rw h (inl refl)
  | inr h ↦ rw h (
      inr (record {
        follows = f;
        result_eq = omega (arith, f.at_eq);
        result_pos = ground arith;
        token_from = omega arith;
        token_to = omega (arith, f.at_eq);
      }))
]
