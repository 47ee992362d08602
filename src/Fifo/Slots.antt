-- ===== src/Fifo/Slots.antt =====
-- The elements that a ring holds, read round the array.
use native.Mathlib.Nat.{mod-add-mod, mod-eq_of_lt, mod-eq-sub-mod, add-zero}
use native.Mathlib.Decide.{dec_lt}
use scpi_parser.Base.{
  ℕ, zero, suc, ◌+◌, ◌-◌, ◌%◌, ◌≤◌, ◌<◌, ◌≡◌, ◌≢◌, refl, sym, ap, ap₂, ◌∙◌, List, [], ◌∷◌, ◌++◌,
  arith, length, get_or, set, get_or-set_ne,
}
use scpi_parser.Fifo.Queue.{Error, no_error, Queue, unsnoc}

module _ (slots : List Error) (size : ℕ) where
  -- The `n` elements from index `h` on, each index taken modulo the size.
  abbrev pub elements : ℕ → ℕ → Queue
  elements h zero = []
  elements h (suc n) = get_or slots (h % size) no_error ∷ elements (h + 1) n

  pub length-elements : (h n : ℕ) → length (elements h n) ≡ n
  length-elements h zero = refl
  length-elements h (suc n) = ap suc (length-elements (h + 1) n)

  pub elements_snoc :
      (h n : ℕ) → elements h (suc n) ≡ elements h n ++ get_or slots ((h + n) % size) no_error ∷ []
  elements_snoc h zero = ap (λ i. get_or slots (i % size) no_error ∷ []) (sym (add-zero h))
  elements_snoc h (suc n) =
      ap (λ q. get_or slots (h % size) no_error ∷ q)
        (elements_snoc (h + 1) n
          ∙ ap (λ i. elements (h + 1) n ++ get_or slots (i % size) no_error ∷ []) (omega arith))

  pub elements-mod : (h k n : ℕ) → elements (h % size + k) n ≡ elements (h + k) n
  elements-mod h k zero = refl
  elements-mod h k (suc n) =
      ap₂ (λ i q. get_or slots i no_error ∷ q) (mod-add-mod h size k)
        (ap (λ i. elements i n) (omega arith)
          ∙ elements-mod h (k + 1) n
          ∙ ap (λ i. elements i n) (omega arith))

-- Indices less than a round apart differ.
pub mod-ne : (a b s : ℕ) → a < b → b < a + s → b < s + s → a % s ≢ b % s
mod-ne a b s h k l = elim (dec_lt b s) [
  | yes p ↦ omega (arith, mod-eq_of_lt {n = a} {m = s} (omega arith), mod-eq_of_lt p)
  | no p ↦ elim (dec_lt a s) [
    | yes q ↦ omega (
      arith,
      mod-eq_of_lt q,
      mod-eq-sub-mod {n = b} {m = s} (omega arith),
      mod-eq_of_lt {n = b - s} {m = s} (omega arith),
    )
    | no q ↦ omega (
      arith,
      mod-eq-sub-mod {n = a} {m = s} (omega arith),
      mod-eq_of_lt {n = a - s} {m = s} (omega arith),
      mod-eq-sub-mod {n = b} {m = s} (omega arith),
      mod-eq_of_lt {n = b - s} {m = s} (omega arith),
    )
  ]
]

pub elements-set :
    (slots : List Error) (size i : ℕ) (e : Error) (h n : ℕ)
    → h + n ≤ i
    → i < h + size
    → i < size + size
    → elements (set slots (i % size) e) size h n ≡ elements slots size h n
elements-set slots size i e h zero p q r = refl
elements-set slots size i e h (suc n) p q r =
    ap₂ ◌∷◌
      (get_or-set_ne slots (i % size) (h % size) e no_error
        (λ x. mod-ne h i size (omega arith) q r (sym x)))
      (elements-set slots size i e (h + 1) n (omega arith) (omega arith) r)

pub unsnoc-append : (d e : Error) (q : Queue) → unsnoc d (q ++ e ∷ []) ≡ (e, d ∷ q)
unfolding unsnoc
unsnoc-append d e [] = refl
unsnoc-append d e (c ∷ q) = rw (unsnoc-append c e q)
