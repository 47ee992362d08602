-- ===== src/Lexer/Header/Compound.antt =====
-- A compound header as it is written, and the token that it becomes.
use scpi_parser.Base.{
  ℕ, ◌+◌, ◌<◌, ◌≡◌, refl, sym, ◌∙◌, ap, inl, inr, Bool-cases, ==_iff, Bool, true, false, not, ◌&&◌,
  List, [], ◌∷◌, ◌++◌, ◌==◌, if◌then◌else◌, length, Bytes, arith,
}
use scpi_parser.Lexer.{
  compound_query_header, compound_header, isalpha, isalnum, isdigit, is_mnemonic, next_is, skip_chr,
  skip_star, skip_colon,
}
use scpi_parser.Lexer.Munch.{and-true, moved, skip_if-cons, skip_if-none, passed, accept-passed}
use scpi_parser.Lexer.Header.Levels.{is_word, are_words, levels, width, skip_compound_header-levels}
use scpi_parser.Lexer.Header.{skip_common_header, query_or, compound, common, program_header}

abbrev pub leading : Bool → Bytes → Bytes
leading true text = b':' ∷ text
leading false text = text

abbrev pub marked : Bool → Bytes → Bytes
marked true tail = b'?' ∷ tail
marked false tail = tail

abbrev pub one_if : Bool → ℕ
one_if true = 1
one_if false = 0

-- Anything may follow a question mark; a header without one ends at the first character that
-- cannot continue it.
abbrev pub may_follow : Bool → Bytes → Bool
may_follow true tail = true
may_follow false tail =
    not (next_is is_mnemonic tail)
    && not (next_is (λ c. c == b':') tail)
    && not (next_is (λ c. c == b'?') tail)

none_of :
    (a b c : Bool) → (not a && not b && not c) ≡ true → (a ≡ false) × (b ≡ false) × (c ≡ false)
none_of false false false h = (refl, refl, refl)
none_of false false true h = cc
none_of false true c h = cc
none_of true b c h = cc

marked-stops :
    (query : Bool) (tail : Bytes)
    → may_follow query tail ≡ true
    → (next_is is_mnemonic (marked query tail) ≡ false)
      × (next_is (λ c. c == b':') (marked query tail) ≡ false)
unfolding is_mnemonic isalnum isalpha isdigit
marked-stops true tail h = (refl, refl)
marked-stops false tail h = let (a, b, c) = none_of _ _ _ h in (a, b)

query_or-marked :
    (query : Bool) (n k m : ℕ) (bs tail : Bytes)
    → may_follow query tail ≡ true
    → m ≡ n + k
    → 0 < k
    → query_or compound_query_header compound_header
        (record { at = n; rest = bs })
        (record { at = m; rest = marked query tail })
      ≡ passed (if query then compound_query_header else compound_header) n (k + one_if query) tail
unfolding query_or skip_chr
query_or-marked true n k m bs tail h e l =
    rw (skip_if-cons (λ c. c == b'?') m b'?' tail refl)
      (accept-passed compound_query_header n bs (k + 1) (m + 1) tail (omega arith) (omega arith))
query_or-marked false n k m bs tail h e l =
    rw (skip_if-none (λ c. c == b'?') (record { at = m; rest = tail }) no_mark)
      (accept-passed compound_header n bs (k + 0) m tail (omega arith) (omega arith))
  where
    no_mark : next_is (λ c. c == b'?') tail ≡ false
    no_mark =
        (none_of (next_is is_mnemonic tail) (next_is (λ c. c == b':') tail)
          (next_is (λ c. c == b'?') tail) h).2

absurd_true : {b : Bool} → true ≡ false → b ≡ false
absurd_true h = cc

letter-other : (c d : ℕ) → isalpha c ≡ true → isalpha d ≡ false → (c == d) ≡ false
letter-other c d h e = elim (Bool-cases (c == d)) [
  | inl q ↦ absurd_true (sym h ∙ ap isalpha ((==_iff c d).0 q) ∙ e)
  | inr q ↦ q
]

is_word-pos : (w : Bytes) → is_word w ≡ true → 0 < length w
is_word-pos [] h = cc
is_word-pos (c ∷ cs) h = omega arith

start_star :
    (lead : Bool) (w text : Bytes)
    → is_word w ≡ true
    → next_is (λ c. c == b'*') (leading lead (w ++ text)) ≡ false
unfolding isalpha
start_star true w text h = refl
start_star false [] text h = cc
start_star false (c ∷ cs) text h = letter-other c b'*' (and-true (isalpha c) _ h).0 refl

skip_colon-leading :
    (lead : Bool) (n : ℕ) (w text : Bytes)
    → is_word w ≡ true
    → skip_colon (record { at = n; rest = leading lead (w ++ text) })
      ≡ (lead, record { at = n + one_if lead; rest = w ++ text })
unfolding skip_colon isalpha
skip_colon-leading true n w text h = skip_if-cons (λ c. c == b':') n b':' (w ++ text) refl
skip_colon-leading false n [] text h = cc
skip_colon-leading false n (c ∷ cs) text h =
    skip_if-none (λ c. c == b':') (record { at = n; rest = (c ∷ cs) ++ text })
      (letter-other c b':' (and-true (isalpha c) _ h).0 refl)
    ∙ ap (λ s. (false, s)) (moved ((c ∷ cs) ++ text) (omega arith))

-- A compound header, that is mnemonics with colons between them, perhaps a colon before and a
-- question mark behind, is one token, a query exactly if the question mark is there; the lexer
-- stops behind it, if what follows cannot continue the header.
pub program_header-levels :
    (lead query : Bool) (n : ℕ) (w : Bytes) (ws : List Bytes) (tail : Bytes)
    → is_word w ≡ true
    → are_words ws ≡ true
    → may_follow query tail ≡ true
    → program_header (record { at = n; rest = leading lead (w ++ levels ws (marked query tail)) })
      ≡ passed
          (if query then compound_query_header else compound_header)
          n
          (one_if lead + length w + width ws + one_if query)
          tail
unfolding program_header skip_common_header common compound skip_star
program_header-levels lead query n w ws tail h hs f =
    rw
      (
        skip_if-none (λ c. c == b'*')
            (record { at = n; rest = leading lead (w ++ levels ws (marked query tail)) })
            (start_star lead w _ h),
        skip_compound_header-levels (marked query tail) (marked-stops query tail f).0
            (marked-stops query tail f).1 (n + one_if lead)
            (record { at = n; rest = leading lead (w ++ levels ws (marked query tail)) }) lead w ws
            (skip_colon-leading lead n w (levels ws (marked query tail)) h) h hs,
      )
      (query_or-marked query n (one_if lead + length w + width ws) _ _ tail f (omega arith)
        (omega (arith, is_word-pos w h)))
