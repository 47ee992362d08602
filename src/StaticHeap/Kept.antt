-- ===== src/StaticHeap/Kept.antt =====
-- libscpi/src/utils.c: what scpiheap_strndup leaves in the static heap.
use mathlib.Core.Option.{some-injective}
use scpi_parser.Base.{
  ℕ, zero, suc, ◌+◌, ◌-◌, ◌≤◌, ◌<◌, ◌≡◌, refl, ap, sym, ◌∙◌, inl, inr, Bool, Bool-cases, false,
  true, some, [], ◌∷◌, ◌++◌, ◌==◌, ltb, ◌||◌, not, get_or, length, length-append, length-take,
  length-drop, take, drop, Bytes, arith, append_assoc, ◌⊎◌,
}
use scpi_parser.Dispatch.Copy.{drop-copy_to, drop-copy_to_beyond, length-copy_to}
use scpi_parser.ErrorQueue.{strnlen}
use scpi_parser.Session.{copy_to}
use scpi_parser.StaticHeap.Written.{put_text-before, put_text-whole, put_text-wrapped}
use scpi_parser.StaticHeap.{ErrorInfoHeap, put_text, end_text, scpiheap_strndup}
use scpi_parser.StaticHeap.ReadBack.{text_at, strnlen_bound, text_at-whole, text_at-wrapped}

pub record IsHeap (h : ErrorInfoHeap) : Type 0 where
  pub size_eq : h.size ≡ length h.bytes
  pub inside : h.wr < h.size
  pub counted : h.count ≤ h.size

drop-all : (n : ℕ) (xs : Bytes) → length xs ≤ n → drop n xs ≡ []
drop-all zero [] l = refl
drop-all zero (x ∷ xs) l = absurd (omega arith)
drop-all (suc n) [] l = refl
drop-all (suc n) (x ∷ xs) l = drop-all n xs (omega arith)

module _ (h : ErrorInfoHeap) (s : Bytes) (n : ℕ) (good : IsHeap h)
    (room : strnlen s n + 1 ≤ h.count) where
  pub written : length (take (strnlen s n) s ++ (0 ∷ [])) ≡ strnlen s n + 1
  written = omega (
    arith,
    length-append (take (strnlen s n) s) (0 ∷ []),
    length-take (strnlen s n) s,
    strnlen_bound s n,
  )

  pub first_part : h.size - h.wr < strnlen s n + 1 → length (take (h.size - h.wr) s) ≡ h.size - h.wr
  first_part l = omega (arith, length-take (h.size - h.wr) s, strnlen_bound s n, l)

  pub second_part_length :
      h.size - h.wr < strnlen s n + 1
      → length (take (strnlen s n - (h.size - h.wr)) (drop (h.size - h.wr) s) ++ (0 ∷ []))
        ≡ strnlen s n - (h.size - h.wr) + 1
  second_part_length l = omega (
    arith,
    length-append (take (strnlen s n - (h.size - h.wr)) (drop (h.size - h.wr) s)) (0 ∷ []),
    length-take (strnlen s n - (h.size - h.wr)) (drop (h.size - h.wr) s),
    length-drop (h.size - h.wr) s,
    strnlen_bound s n,
  )

  first_kept :
      h.size - h.wr < strnlen s n + 1
      → length (copy_to h.wr (take (h.size - h.wr) s) h.bytes) ≡ length h.bytes
  first_kept l =
      length-copy_to h.wr (take (h.size - h.wr) s) h.bytes
        (omega (arith, first_part l, good.size_eq, good.inside))

  length-wrapped :
      h.size - h.wr < strnlen s n + 1
      → length (
          copy_to 0
            (take (strnlen s n - (h.size - h.wr)) (drop (h.size - h.wr) s) ++ (0 ∷ []))
            (copy_to h.wr (take (h.size - h.wr) s) h.bytes))
        ≡ length h.bytes
  length-wrapped l =
      length-copy_to 0 (take (strnlen s n - (h.size - h.wr)) (drop (h.size - h.wr) s) ++ (0 ∷ []))
        (copy_to h.wr (take (h.size - h.wr) s) h.bytes)
        (omega (arith, first_kept l, second_part_length l, good.size_eq, good.counted, room))
      ∙ first_kept l

  put-IsHeap : IsHeap (end_text (put_text (s ++ (0 ∷ [])) (strnlen s n + 1) h))
  put-IsHeap = elim sizes [
    | inl l ↦ rw (put_text-before h s k long good.size_eq good.inside l) (record {
      size_eq =
          good.size_eq
          ∙ sym (length-copy_to h.wr _ h.bytes (omega (arith, written, good.size_eq, l)));
      inside = omega (arith, l);
      counted = omega (arith, good.counted);
    })
    | inr (inl e) ↦ rw (put_text-whole h s k long good.size_eq good.inside e) (record {
      size_eq =
          good.size_eq
          ∙ sym (
              length-copy_to h.wr _ h.bytes (omega (arith, written, good.size_eq, good.inside, e)));
      inside = omega (arith, good.inside);
      counted = omega (arith, good.counted);
    })
    | inr (inr l) ↦ rw (put_text-wrapped h s k long good.size_eq good.inside l) (record {
      size_eq = good.size_eq ∙ sym (length-wrapped l);
      inside = omega (arith, room, good.counted, good.inside, l);
      counted = omega (arith, good.counted);
    })
  ]
    where
      k : ℕ
      k = strnlen s n

      long : k ≤ length s
      long = strnlen_bound s n

      sizes : (k + 1 < h.size - h.wr) ⊎ ((k + 1 ≡ h.size - h.wr) ⊎ (h.size - h.wr < k + 1))
      sizes = ground arith

module _ (h : ErrorInfoHeap) (s : Bytes) (n : ℕ) (good : IsHeap h) (positive : 0 < strnlen s n)
    (room : strnlen s n + 1 ≤ h.count) where
  pub text_there :
      h.wr + (strnlen s n + 1) ≤ h.size
      → drop h.wr (copy_to h.wr (take (strnlen s n) s ++ (0 ∷ [])) h.bytes)
        ≡ take (strnlen s n) s
          ++ (0 ∷ drop (h.wr + length (take (strnlen s n) s ++ (0 ∷ []))) h.bytes)
  text_there l =
      drop-copy_to h.wr (take (strnlen s n) s ++ (0 ∷ [])) h.bytes
        (omega (arith, written h s n good room, good.size_eq))
      ∙ append_assoc (take (strnlen s n) s) (0 ∷ []) _

  pub first_there :
      h.size - h.wr < strnlen s n + 1
      → drop h.wr (
          copy_to 0
            (take (strnlen s n - (h.size - h.wr)) (drop (h.size - h.wr) s) ++ (0 ∷ []))
            (copy_to h.wr (take (h.size - h.wr) s) h.bytes))
        ≡ take (h.size - h.wr) s ++ []
  first_there l =
      drop-copy_to_beyond 0 back memory
        (omega (arith, kept, behind, good.size_eq, good.counted, room)) h.wr
        (omega (arith, behind, good.counted, room, good.inside))
      ∙ drop-copy_to h.wr front h.bytes (omega (arith, ahead, good.size_eq, good.inside))
      ∙ ap (λ r. front ++ r)
          (drop-all (h.wr + length front) h.bytes (omega (arith, ahead, good.size_eq, good.inside)))
    where
      front : Bytes
      front = take (h.size - h.wr) s

      back : Bytes
      back = take (strnlen s n - (h.size - h.wr)) (drop (h.size - h.wr) s) ++ (0 ∷ [])

      memory : Bytes
      memory = copy_to h.wr front h.bytes

      ahead : length front ≡ h.size - h.wr
      ahead = first_part h s n good room l

      behind : length back ≡ strnlen s n - (h.size - h.wr) + 1
      behind = second_part_length h s n good room l

      kept : length memory ≡ length h.bytes
      kept = first_kept h s n good room l

  pub text-put :
      text_at (end_text (put_text (s ++ (0 ∷ [])) (strnlen s n + 1) h)) h.wr ≡ take (strnlen s n) s
  text-put = elim (sizes) [
    | inl l ↦ rw (put_text-before h s k long good.size_eq good.inside l) (
        text_at-whole _ h.wr n k s _ positive (omega arith) (omega (arith, l))
          (text_there (omega (arith, l))))
    | inr (inl e) ↦ rw (put_text-whole h s k long good.size_eq good.inside e) (
        text_at-whole _ h.wr n k s _ positive (omega arith) (omega (arith, e))
          (text_there (omega (arith, e, good.inside))))
    | inr (inr l) ↦ rw (put_text-wrapped h s k long good.size_eq good.inside l) (
        text_at-wrapped _ h.wr n (h.size - h.wr) k s _ (omega (arith, good.inside))
          (omega (arith, l)) (omega arith) (omega (arith, good.inside))
          (omega (arith, room, good.counted)) (first_there l)
          (append_assoc (take (k - (h.size - h.wr)) (drop (h.size - h.wr) s)) (0 ∷ []) _))
  ]
    where
      k : ℕ
      k = strnlen s n

      long : k ≤ length s
      long = strnlen_bound s n

      sizes : (k + 1 < h.size - h.wr) ⊎ ((k + 1 ≡ h.size - h.wr) ⊎ (h.size - h.wr < k + 1))
      sizes = ground arith

pub positive_text : (s : Bytes) (n : ℕ) → 0 < n → (get_or s 0 0 == 0) ≡ false → 0 < strnlen s n
unfolding strnlen
positive_text [] n p f = absurd (ground (arith, f))
positive_text (c ∷ s) zero p f = absurd (omega arith)
positive_text (c ∷ s) (suc n) p f = rw f (omega arith)

-- What holds where a text is stored.
stored_where : (a b c d : Bool) → (a || not b || c || d) ≡ false → (c ≡ false) × (d ≡ false)
stored_where false true false false e = (refl, refl)
stored_where true b c d e = absurd (ground (arith, e))
stored_where false false c d e = absurd (ground (arith, e))
stored_where false true true d e = absurd (ground (arith, e))
stored_where false true false true e = absurd (ground (arith, e))

-- The guards of scpiheap_strndup.
abbrev pub refused : ErrorInfoHeap → Bytes → ℕ → Bool
refused h s n =
    (h.size == 0)
    || not (get_or h.bytes h.wr 0 == 0)
    || (get_or s 0 0 == 0)
    || ltb h.count (strnlen s n + 1)

pub accepted :
    (h : ErrorInfoHeap) (s : Bytes) (n : ℕ)
    → refused h s n ≡ false
    → ((get_or s 0 0 == 0) ≡ false) × (ltb h.count (strnlen s n + 1) ≡ false)
accepted h s n r =
    stored_where (h.size == 0) (get_or h.bytes h.wr 0 == 0) (get_or s 0 0 == 0)
      (ltb h.count (strnlen s n + 1)) r

-- A text that scpiheap_strndup stores in a well-formed heap is read back whole from its parts: up
-- to the zero and `n` bytes at most, where `n` is not 0.
pub scpiheap_strndup-text_at :
    (h : ErrorInfoHeap) (s : Bytes) (n : ℕ)
    → IsHeap h
    → 0 < n
    → (head : ℕ) → (scpiheap_strndup h (some s) n).0 ≡ some head
    → text_at (scpiheap_strndup h (some s) n).1 head ≡ take (strnlen s n) s
unfolding scpiheap_strndup
scpiheap_strndup-text_at h s n good positive head e = elim (Bool-cases (refused h s n)) [
  | inl r ↦ absurd (ground (arith, rw r at e))
  | inr r ↦ rw r (
      ap (text_at stored) (sym (some-injective h.wr head (rw r at e)))
      ∙ text-put h s n good (positive_text s n positive (accepted h s n r).0)
          (ground (arith, (accepted h s n r).1)))
]
  where
    stored : ErrorInfoHeap
    stored = end_text (put_text (s ++ (0 ∷ [])) (strnlen s n + 1) h)

-- scpiheap_strndup keeps the heap well-formed, whether it stores the text or refuses it.
pub scpiheap_strndup-IsHeap :
    (h : ErrorInfoHeap) (s : Bytes) (n : ℕ) → IsHeap h → IsHeap (scpiheap_strndup h (some s) n).1
unfolding scpiheap_strndup
scpiheap_strndup-IsHeap h s n good = elim (Bool-cases (refused h s n)) [
  | inl r ↦ rw r good
  | inr r ↦ rw r (put-IsHeap h s n good (ground (arith, (accepted h s n r).1)))
]
