-- ===== src/StaticHeap/ReadBack.antt =====
-- libscpi/src/utils.c: a text in the static heap, as scpiheap_get_parts finds it.
use scpi_parser.Base.{
  ℕ, ap₂, zero, suc, ◌+◌, ◌-◌, ◌≤◌, ◌<◌, ◌≡◌, refl, ap, sym, ◌∙◌, inl, inr, Bool-cases, false, true,
  none, some, [], ◌∷◌, ◌++◌, ◌==◌, get_or, get_or-drop, length, length-take, length-drop, take,
  take-append, drop, Bytes, arith, append-nil,
}
use scpi_parser.ErrorQueue.{strnlen}
use scpi_parser.StaticHeap.Written.{take-split}
use scpi_parser.StaticHeap.{ErrorInfoHeap, Parts, scpiheap_get_parts}

unfoldable pub second_part : ErrorInfoHeap → Parts → Bytes
second_part h p = elim p.s2 [ none ↦ [] | some i ↦ take p.len2 (drop i h.bytes) ]

-- The text at `s`, put together from its parts.
unfoldable pub text_at : ErrorInfoHeap → ℕ → Bytes
text_at h s = elim (scpiheap_get_parts h (some s)) [
  | none ↦ []
  | some p ↦ take p.len1 (drop s h.bytes) ++ second_part h p
]

strnlen-ended :
    (s r : Bytes) (n k m : ℕ) → k ≤ strnlen s n → k ≤ m → strnlen (take k s ++ (0 ∷ r)) m ≡ k
unfolding strnlen
strnlen-ended s r n zero zero l e = refl
strnlen-ended s r n zero (suc m) l e = refl
strnlen-ended [] r n (suc k) m l e = absurd (omega (arith, l))
strnlen-ended (c ∷ s) r zero (suc k) m l e = absurd (omega (arith, l))
strnlen-ended (c ∷ s) r (suc n) (suc k) zero l e = absurd (omega arith)
strnlen-ended (c ∷ s) r (suc n) (suc k) (suc m) l e = elim (Bool-cases (c == 0)) [
  | inl h ↦ absurd (omega (arith, rw h at l))
  | inr h ↦ rw h (ap suc (strnlen-ended s r n k m (omega (arith, rw h at l)) (omega arith)))
]

strnlen-full : (s r : Bytes) (n k : ℕ) → k ≤ strnlen s n → strnlen (take k s ++ r) k ≡ k
unfolding strnlen
strnlen-full s [] n zero l = refl
strnlen-full s (x ∷ r) n zero l = refl
strnlen-full [] r n (suc k) l = absurd (omega (arith, l))
strnlen-full (c ∷ s) r zero (suc k) l = absurd (omega (arith, l))
strnlen-full (c ∷ s) r (suc n) (suc k) l = elim (Bool-cases (c == 0)) [
  | inl h ↦ absurd (omega (arith, rw h at l))
  | inr h ↦ rw h (ap suc (strnlen-full s r n k (omega (arith, rw h at l))))
]

strnlen-drop :
    (s : Bytes) (n r : ℕ) → r ≤ strnlen s n → strnlen (drop r s) (n - r) ≡ strnlen s n - r
unfolding strnlen
strnlen-drop s n zero l = ap (strnlen s) {x = n - 0} {y = n} (omega arith) ∙ (omega arith)
strnlen-drop [] n (suc r) l = absurd (omega (arith, l))
strnlen-drop (c ∷ s) zero (suc r) l = absurd (omega (arith, l))
strnlen-drop (c ∷ s) (suc n) (suc r) l = elim (Bool-cases (c == 0)) [
  | inl h ↦ absurd (omega (arith, rw h at l))
  | inr h ↦ rw h (
      ap (strnlen (drop r s)) {x = suc n - suc r} {y = n - r} (omega arith)
      ∙ strnlen-drop s n r (omega (arith, rw h at l))
      ∙ (omega arith))
]

pub strnlen_bound : (s : Bytes) (n : ℕ) → strnlen s n ≤ length s
unfolding strnlen
strnlen_bound [] n = omega arith
strnlen_bound (c ∷ s) zero = omega arith
strnlen_bound (c ∷ s) (suc n) = elim (Bool-cases (c == 0)) [
  | inl h ↦ rw h (omega arith)
  | inr h ↦ rw h (omega (arith, strnlen_bound s n))
]

first_byte :
    (s r : Bytes) (n k : ℕ) → 0 < k → k ≤ strnlen s n → (get_or (take k s ++ r) 0 0 == 0) ≡ false
unfolding strnlen
first_byte s r n zero z l = absurd (omega arith)
first_byte [] r n (suc k) z l = absurd (omega (arith, l))
first_byte (c ∷ s) r zero (suc k) z l = absurd (omega (arith, l))
first_byte (c ∷ s) r (suc n) (suc k) z l = elim (Bool-cases (c == 0)) [
  | inl h ↦ absurd (omega (arith, rw h at l))
  | inr h ↦ h
]

module _ (h : ErrorInfoHeap) (head n m : ℕ) (s r : Bytes) (some_bytes : 0 < m)
    (text : m ≤ strnlen s n) where
  shown : drop head h.bytes ≡ take m s ++ r → (get_or h.bytes head 0 == 0) ≡ false
  shown e =
      ap (λ c. c == 0)
        (ap (λ i. get_or h.bytes i 0) {x = head} {y = head + 0} (omega arith)
          ∙ sym (get_or-drop head 0 h.bytes 0)
          ∙ ap (λ b. get_or b 0 0) e)
      ∙ first_byte s r n m some_bytes text

  taken : take m (take m s ++ r) ≡ take m s
  taken = ap (λ i. take i (take m s ++ r)) (sym full) ∙ take-append (take m s) r
    where
      full : length (take m s) ≡ m
      full = omega (arith, length-take m s, text, strnlen_bound s n)

pub parts-whole :
    (h : ErrorInfoHeap) (head n k : ℕ) (s r : Bytes)
    → 0 < k
    → k ≤ strnlen s n
    → head + k < h.size
    → drop head h.bytes ≡ take k s ++ (0 ∷ r)
    → scpiheap_get_parts h (some head) ≡ some (record { len1 = k; s2 = none; len2 = 0 })
unfolding scpiheap_get_parts
parts-whole h head n k s r z l i e = rw (shown h head n k s (0 ∷ r) z l e, e, found, not_last) refl
  where
    found : strnlen (take k s ++ (0 ∷ r)) (h.size - head) ≡ k
    found = strnlen-ended s r n k (h.size - head) l (omega arith)

    not_last : (head + k - 1 == h.size - 1) ≡ false
    not_last = ground arith

pub text_at-whole :
    (h : ErrorInfoHeap) (head n k : ℕ) (s r : Bytes)
    → 0 < k
    → k ≤ strnlen s n
    → head + k < h.size
    → drop head h.bytes ≡ take k s ++ (0 ∷ r)
    → text_at h head ≡ take k s
unfolding text_at second_part
text_at-whole h head n k s r z l i e =
    rw (text_at, parts-whole h head n k s r z l i e, e)
      (append-nil (take k (take k s ++ (0 ∷ r))) ∙ taken h head n k s (0 ∷ r) z l)

pub parts-wrapped :
    (h : ErrorInfoHeap) (head n m k : ℕ) (s r : Bytes)
    → 0 < m
    → m ≤ k
    → k ≤ strnlen s n
    → head + m ≡ h.size
    → k - m ≤ h.size
    → drop head h.bytes ≡ take m s ++ []
    → h.bytes ≡ take (k - m) (drop m s) ++ (0 ∷ r)
    → scpiheap_get_parts h (some head) ≡ some (record { len1 = m; s2 = some 0; len2 = k - m })
unfolding scpiheap_get_parts
parts-wrapped h head n m k s r z le l i fits e e' =
    rw (shown h head n m s [] z short e, e, found, last, second) refl
  where
    short : m ≤ strnlen s n
    short = omega (arith, l, le)

    found : strnlen (take m s ++ []) (h.size - head) ≡ m
    found =
        ap (strnlen (take m s ++ [])) {x = h.size - head} {y = m} (omega (arith, i))
        ∙ strnlen-full s [] n m short

    last : (head + m - 1 == h.size - 1) ≡ true
    last = ground (arith, i)

    second : strnlen h.bytes h.size ≡ k - m
    second =
        ap (λ d. strnlen d h.size) e'
        ∙ strnlen-ended (drop m s) r (n - m) (k - m) h.size
            (omega (arith, strnlen-drop s n m short, l)) fits

pub text_at-wrapped :
    (h : ErrorInfoHeap) (head n m k : ℕ) (s r : Bytes)
    → 0 < m
    → m ≤ k
    → k ≤ strnlen s n
    → head + m ≡ h.size
    → k - m ≤ h.size
    → drop head h.bytes ≡ take m s ++ []
    → h.bytes ≡ take (k - m) (drop m s) ++ (0 ∷ r)
    → text_at h head ≡ take k s
unfolding text_at second_part
text_at-wrapped h head n m k s r z le l i fits e e' =
    rw (text_at, parts-wrapped h head n m k s r z le l i fits e e', e)
      (ap₂ (λ a b. a ++ b) (taken h head n m s [] z (omega (arith, l, le)))
          (ap (take (k - m)) e' ∙ taken_second)
        ∙ take-split m k s le)
  where
    full : length (take (k - m) (drop m s)) ≡ k - m
    full = omega (arith, length-take (k - m) (drop m s), length-drop m s, l, strnlen_bound s n)

    taken_second : take (k - m) (take (k - m) (drop m s) ++ (0 ∷ r)) ≡ take (k - m) (drop m s)
    taken_second =
        ap (λ q. take q (take (k - m) (drop m s) ++ (0 ∷ r))) (sym full)
        ∙ take-append (take (k - m) (drop m s)) (0 ∷ r)
