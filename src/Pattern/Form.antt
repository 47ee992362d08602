-- ===== src/Pattern/Form.antt =====
-- libscpi/src/utils.c: the long and the short form of a pattern.
use mathlib.Core.Path.{subst}
use scpi_parser.Base.{
  ℕ, zero, suc, ◌-◌, ◌≤◌, ◌≡◌, ◌≢◌, refl, sym, ◌∙◌, ap, ◌↔◌, ◌⊎◌, inl, inr, Bool, true, false,
  Bool-cases, not, ◌&&◌, ◌||◌, [], ◌∷◌, ◌==◌, ==_iff, leb, ltb, if◌then◌else◌, length, length-take,
  get_or, take, drop, map, Bytes, ℤ, arith,
}
use scpi_parser.Lexer.Munch.{all, and-true}
use scpi_parser.Pattern.{
  tolower, islower, same_caseless, compare_str, pattern_separator_short_pos, match_pattern,
}

-- The bytes in lower case.
abbrev pub lowered : Bytes → Bytes
lowered s = map tolower s

abbrev pub is_nonzero : ℕ → Bool
is_nonzero c = not (c == 0)

not-true : (b : Bool) → not b ≡ true → b ≡ false
not-true false h = refl
not-true true h = cc

tolower-nonzero : (c : ℕ) → is_nonzero c ≡ true → (tolower c == 0) ≡ false
unfolding tolower
tolower-nonzero c h = elim (Bool-cases (leb b'A' c && leb c b'Z')) [
  | inl u ↦ rw u (ground arith)
  | inr u ↦ rw u (not-true (c == 0) h)
]

head_eq : (c d : ℕ) (cs ds : Bytes) → ◌≡◌ {A = Bytes} (c ∷ cs) (d ∷ ds) → c ≡ d
head_eq c d cs ds e = ap (λ l. get_or l 0 0) e

tail_eq : (c d : ℕ) (cs ds : Bytes) → ◌≡◌ {A = Bytes} (c ∷ cs) (d ∷ ds) → cs ≡ ds
tail_eq c d cs ds e = ap (λ l. drop 1 l) e

==-false : (c d : ℕ) → (c == d) ≡ false → c ≢ d
==-false c d h = ground arith

same_caseless-step :
    (c d : ℕ) (cs ds : Bytes)
    → is_nonzero d ≡ true
    → (same_caseless cs ds (length ds) ≡ true) ↔ (lowered (take (length ds) cs) ≡ lowered ds)
    → (same_caseless (c ∷ cs) (d ∷ ds) (suc (length ds)) ≡ true)
      ↔ (tolower c ∷ lowered (take (length ds) cs) ≡ tolower d ∷ lowered ds)
unfolding same_caseless
same_caseless-step c d cs ds h rest = elim (Bool-cases (tolower c == tolower d)) [
  | inr q ↦ rw q (
    (λ e. cc),
    (λ e. absurd (
        ==-false (tolower c) (tolower d) q
          (head_eq (tolower c) (tolower d) (lowered (take (length ds) cs)) (lowered ds) e))),
  )
  | inl q ↦
      rw (q, (==_iff (tolower c) (tolower d)).0 q, tolower-nonzero d h)
        (
          (λ e. ap (λ r. tolower d ∷ r) (rest.0 e)),
          (λ e.
              rest.1
                (tail_eq (tolower d) (tolower d) (lowered (take (length ds) cs)) (lowered ds) e)),
        )
]

same_caseless-lowered :
    (s t : Bytes)
    → length t ≤ length s
    → all is_nonzero t ≡ true
    → (same_caseless s t (length t) ≡ true) ↔ (lowered (take (length t) s) ≡ lowered t)
unfolding same_caseless
same_caseless-lowered s [] l h = ((λ e. refl), (λ e. refl))
same_caseless-lowered [] (d ∷ ds) l h = absurd (omega arith)
same_caseless-lowered (c ∷ cs) (d ∷ ds) l h =
    same_caseless-step c d cs ds (and-true (is_nonzero d) _ h).0
      (same_caseless-lowered cs ds (omega arith) (and-true (is_nonzero d) _ h).1)

length-lowered : (s : Bytes) → length (lowered s) ≡ length s
length-lowered [] = refl
length-lowered (c ∷ cs) = omega (arith, length-lowered cs)

-- The first `k` characters of the pattern are the whole string.
compare_str-lowered :
    (p s : Bytes) (k : ℕ)
    → k ≤ length p
    → all is_nonzero s ≡ true
    → (compare_str p k s (length s) ≡ true) ↔ (lowered (take k p) ≡ lowered s)
unfolding compare_str
compare_str-lowered p s k l h = elim (Bool-cases (k == length s)) [
  | inr q ↦ rw q (
    (λ e. cc),
    (λ e. absurd (
        ==-false k (length s) q (
          omega
            (arith, ap length e, length-lowered s, length-lowered (take k p), length-take k p)))),
  )
  | inl q ↦ elim (Bool-cases (same_caseless p s (length s))) [
    | inl y ↦
        rw (q, (==_iff k (length s)).0 q, y)
          ((λ e. (whole ((==_iff k (length s)).0 q)).0 y), (λ e. refl))
    | inr n ↦
        rw (q, (==_iff k (length s)).0 q, n)
          ((λ e. cc), (λ e. sym n ∙ (whole ((==_iff k (length s)).0 q)).1 e))
  ]
]
  where
    whole :
        k ≡ length s
        → (same_caseless p s (length s) ≡ true) ↔ (lowered (take (length s) p) ≡ lowered s)
    whole e = same_caseless-lowered p s (omega (arith, e)) h

take_all : (p : Bytes) → take (length p) p ≡ p
take_all [] = refl
take_all (c ∷ cs) = ap (λ r. c ∷ r) (take_all cs)

short_pos-le : (p : Bytes) (n : ℕ) → pattern_separator_short_pos p n ≤ n
unfolding pattern_separator_short_pos
short_pos-le p zero = omega arith
short_pos-le p (suc n) = elim (Bool-cases (get_or p 0 0 == 0)) [
  | inl z ↦ rw z (omega arith)
  | inr z ↦ elim (Bool-cases (islower (get_or p 0 0))) [
    | inl l ↦ rw (z, l) (omega arith)
    | inr l ↦ rw (z, l) (omega (arith, short_pos-le (drop 1 p) n))
  ]
]

absurd_at : {b : Bool} → false ≡ true → b ≡ true
absurd_at e = cc

or-true :
    {A B : Type 0} (a b : Bool) → (a ≡ true) ↔ A → (b ≡ true) ↔ B → ((a || b) ≡ true) ↔ (A ⊎ B)
or-true true b f g = ((λ e. inl (f.0 refl)), (λ e. refl))
or-true {A = A} {B = B} false b f g = ((λ e. inr (g.0 e)), back)
  where
    back : A ⊎ B → b ≡ true
    back (inl x) = absurd_at (f.1 x)
    back (inr y) = g.1 y

whole_pattern :
    (p s : Bytes)
    → all is_nonzero s ≡ true
    → (compare_str p (length p) s (length s) ≡ true) ↔ (lowered p ≡ lowered s)
whole_pattern p s h =
    ((λ e. ap lowered (sym (take_all p)) ∙ both.0 e), (λ e. both.1 (ap lowered (take_all p) ∙ e)))
  where
    both :
        (compare_str p (length p) s (length s) ≡ true) ↔ (lowered (take (length p) p) ≡ lowered s)
    both = compare_str-lowered p s (length p) (omega arith) h

-- The short form of a pattern: the bytes before the first letter `a` to `z`; a zero ends the
-- pattern.
abbrev pub short_form : Bytes → Bytes
short_form [] = []
short_form (c ∷ cs) = if c == 0 || (leb 97 c && leb c 122) then [] else c ∷ short_form cs

take-short_pos : (p : Bytes) → take (pattern_separator_short_pos p (length p)) p ≡ short_form p
unfolding pattern_separator_short_pos islower
take-short_pos [] = refl
take-short_pos (c ∷ cs) = elim (Bool-cases (c == 0)) [
  | inl z ↦ rw z refl
  | inr z ↦ elim (Bool-cases (leb 97 c && leb c 122)) [
    | inl l ↦ rw (z, l) refl
    | inr l ↦ rw (z, l) (ap (λ r. c ∷ r) (take-short_pos cs))
  ]
]

-- A pattern that does not end with `#` matches a string without zero bytes exactly if the string is,
-- in upper or lower case, the whole pattern, or the pattern up to its first lower-case letter.
pub match_pattern-lowered :
    (strtol : Bytes → ℕ × ℤ) (p s : Bytes) (num : Bool)
    → (ltb 0 (length p) && (get_or p (length p - 1) 0 == b'#')) ≡ false
    → all is_nonzero s ≡ true
    → ((match_pattern strtol p (length p) s (length s) num).0 ≡ true)
      ↔ ((lowered p ≡ lowered s) ⊎ (lowered (short_form p) ≡ lowered s))
unfolding match_pattern
match_pattern-lowered strtol p s num q h = rw q (
    or-true _ _ (whole_pattern p s h) (
      subst
        (λ t.
          (compare_str p (pattern_separator_short_pos p (length p)) s (length s) ≡ true)
          ↔ (lowered t ≡ lowered s))
        (take-short_pos p)
        (compare_str-lowered p s (pattern_separator_short_pos p (length p))
          (short_pos-le p (length p)) h)))
