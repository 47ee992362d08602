-- ===== src/Lexer/Header/Levels.antt =====
-- Compound headers as they are written, and what the recogniser of headers makes of them.
use scpi_parser.Base.{
  ℕ, zero, suc, ◌+◌, ◌-◌, ◌<◌, ◌≤◌, ◌≡◌, refl, sym, ◌∙◌, ap, ap₂, ◌⊎◌, inl, inr, Bool, true, false,
  some, List, [], ◌∷◌, ◌++◌, ◌==◌, leb, length, length-append, Bytes, arith, ℤ, pos, neg, ◌&&◌,
}
use scpi_parser.Lexer.{
  LexState, isalpha, isalnum, isdigit, is_mnemonic, next_is, skip_if, skip_colon, skip_mnemonic,
  skip_program_mnemonic,
}
use scpi_parser.Lexer.Munch.{all, and-true, moved, skip_while-append, skip_if-cons, skip_if-none}
use scpi_parser.Lexer.Header.{skip_levels, skip_compound_header, skip_ok}

-- A mnemonic: a letter, then letters, digits and underscores.
abbrev pub is_word : Bytes → Bool
is_word [] = false
is_word (c ∷ cs) = isalpha c && all is_mnemonic cs

abbrev pub are_words : List Bytes → Bool
are_words [] = true
are_words (w ∷ ws) = is_word w && are_words ws

-- `ws`, each behind a colon, before `tail`.
abbrev pub levels : List Bytes → Bytes → Bytes
levels [] tail = tail
levels (w ∷ ws) tail = b':' ∷ w ++ levels ws tail

-- The characters of the levels.
abbrev pub width : List Bytes → ℕ
width [] = 0
width (w ∷ ws) = 1 + length w + width ws

-- The count of a mnemonic of `k` characters before `tail`.
abbrev counted : Bytes → ℕ → ℤ
counted [] k = neg k
counted (c ∷ cs) k = pos k

span_eq : (n : ℕ) (cs : Bytes) → n + 1 + length cs - n ≡ suc (length cs)
span_eq n cs = omega arith

skip_program_mnemonic-append :
    (n : ℕ) (w tail : Bytes)
    → is_word w ≡ true
    → next_is is_mnemonic tail ≡ false
    → skip_program_mnemonic (record { at = n; rest = w ++ tail })
      ≡ (counted tail (length w), record { at = n + length w; rest = tail })
unfolding skip_program_mnemonic skip_mnemonic
skip_program_mnemonic-append n [] tail h e = cc
skip_program_mnemonic-append n (c ∷ cs) [] h e =
    rw
      (
        (and-true (isalpha c) _ h).0,
        skip_while-append is_mnemonic (n + 1) cs [] (and-true (isalpha c) _ h).1 e,
      )
      (ap₂ (λ k s. (neg k, s)) (span_eq n cs) (moved [] (omega arith)))
skip_program_mnemonic-append n (c ∷ cs) (d ∷ ds) h e =
    rw
      (
        (and-true (isalpha c) _ h).0,
        skip_while-append is_mnemonic (n + 1) cs (d ∷ ds) (and-true (isalpha c) _ h).1 e,
      )
      (ap₂ (λ k s. (pos k, s)) (span_eq n cs) (moved (d ∷ ds) (omega arith)))

suc_ne_zero : (n : ℕ) → (suc n == 0) ≡ false
suc_ne_zero n = ground arith

leb_zero : (n : ℕ) → leb 0 n ≡ true
leb_zero n = ground arith

leb_one : (n : ℕ) → leb 1 (suc n) ≡ true
leb_one n = ground arith

counted-cases :
    (tail : Bytes) (k : ℕ) → (counted tail k ≡ pos k) ⊎ ((counted tail k ≡ neg k) × (tail ≡ []))
counted-cases [] k = inr (refl, refl)
counted-cases (c ∷ cs) k = inl refl

levels-nil : (ws : List Bytes) (tail : Bytes) → levels ws tail ≡ [] → (width ws ≡ 0) × (tail ≡ [])
levels-nil [] tail h = (refl, h)
levels-nil (w ∷ ws) tail h = cc

length-levels : (ws : List Bytes) (tail : Bytes) → length ws ≤ length (levels ws tail)
length-levels [] tail = omega arith
length-levels (w ∷ ws) tail = omega (arith, length-append w (levels ws tail), length-levels ws tail)

levels-next :
    (ws : List Bytes) (tail : Bytes)
    → next_is is_mnemonic tail ≡ false
    → next_is is_mnemonic (levels ws tail) ≡ false
unfolding is_mnemonic isalnum isalpha isdigit
levels-next [] tail h = h
levels-next (w ∷ ws) tail h = refl

module _ (tail : Bytes) (stop : next_is is_mnemonic tail ≡ false)
    (no_colon : next_is (λ c. c == b':') tail ≡ false) where
  skip_levels-levels :
      (fuel n : ℕ) (ws : List Bytes)
      → are_words ws ≡ true
      → length ws < fuel
      → skip_levels fuel (record { at = n; rest = levels ws tail })
        ≡ some (skip_ok, record { at = n + width ws; rest = tail })
  unfolding skip_levels skip_colon
  skip_levels-levels zero n ws h lt = absurd (omega arith)
  skip_levels-levels (suc fuel) n [] h lt =
      rw (skip_if-none (λ c. c == b':') (record { at = n; rest = tail }) no_colon)
        (ap (λ s. some (skip_ok, s)) (moved tail (omega arith)))
  skip_levels-levels (suc fuel) n ([] ∷ ws) h lt = cc
  skip_levels-levels (suc fuel) n ((c ∷ cs) ∷ ws) h lt =
      elim (counted-cases (levels ws tail) (suc (length cs))) [
        | inl p ↦
            rw (colon, mnemonic, p, suc_ne_zero (length cs))
              (skip_levels-levels fuel (n + 1 + suc (length cs)) ws
                  (and-true (is_word (c ∷ cs)) _ h).1 (omega arith)
                ∙ ap (λ s. some (skip_ok, s)) (moved tail (omega arith)))
        | inr (p, z) ↦
            rw (colon, mnemonic, p, z, leb_zero (length cs))
              (ap (λ s. some (skip_ok, s))
                (ap₂ (λ a r. record { at = a; rest = r }) (omega (arith, (levels-nil ws tail z).0))
                  (sym (levels-nil ws tail z).1)))
      ]
    where
      colon :
          skip_if (λ c. c == b':') (record { at = n; rest = b':' ∷ (c ∷ cs) ++ levels ws tail })
          ≡ (true, record { at = n + 1; rest = (c ∷ cs) ++ levels ws tail })
      colon = skip_if-cons (λ c. c == b':') n b':' ((c ∷ cs) ++ levels ws tail) refl

      mnemonic :
          skip_program_mnemonic (record { at = n + 1; rest = (c ∷ cs) ++ levels ws tail }) ≡ (
            counted (levels ws tail) (suc (length cs)),
            record { at = n + 1 + suc (length cs); rest = levels ws tail },
          )
      mnemonic =
          skip_program_mnemonic-append (n + 1) (c ∷ cs) (levels ws tail)
            (and-true (is_word (c ∷ cs)) _ h).0 (levels-next ws tail stop)

  -- The header from its first mnemonic on, with or without a colon before.
  pub skip_compound_header-levels :
      (n : ℕ) (s : LexState) (c : Bool) (w : Bytes) (ws : List Bytes)
      → skip_colon s ≡ (c, record { at = n; rest = w ++ levels ws tail })
      → is_word w ≡ true
      → are_words ws ≡ true
      → skip_compound_header s ≡ (skip_ok, record { at = n + length w + width ws; rest = tail })
  unfolding skip_compound_header
  skip_compound_header-levels n s c [] ws q h hs = cc
  skip_compound_header-levels n s c (d ∷ ds) ws q h hs =
      elim (counted-cases (levels ws tail) (suc (length ds))) [
        | inl p ↦
            rw
              (
                q,
                skip_program_mnemonic-append n (d ∷ ds) (levels ws tail) h
                    (levels-next ws tail stop),
                p,
                leb_one (length ds),
                skip_levels-levels (suc (length (levels ws tail))) (n + suc (length ds)) ws hs
                    (omega (arith, length-levels ws tail)),
              )
              refl
        | inr (p, z) ↦
            rw
              (
                q,
                skip_program_mnemonic-append n (d ∷ ds) (levels ws tail) h
                    (levels-next ws tail stop),
                p,
                z,
                leb_zero (length ds),
              )
              (ap (λ s. (skip_ok, s))
                (ap₂ (λ a r. record { at = a; rest = r }) (omega (arith, (levels-nil ws tail z).0))
                  (sym (levels-nil ws tail z).1)))
      ]
