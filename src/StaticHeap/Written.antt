-- ===== src/StaticHeap/Written.antt =====
-- libscpi/src/utils.c: where scpiheap_strndup writes the bytes of a text.
use scpi_parser.Base.{
  ℕ, zero, suc, ◌+◌, ◌-◌, ◌≤◌, ◌<◌, ◌≡◌, refl, ap, sym, ◌∙◌, false, true, [], ◌∷◌, ◌++◌, leb, ltb,
  set, length, length-append, length-set, length-take, length-drop, take, drop, Bytes, arith,
  append_assoc,
}
use scpi_parser.Session.{copy_to}
use scpi_parser.StaticHeap.{ErrorInfoHeap, put_rest, put_text, end_text}

take-append_first : (k : ℕ) (xs ys : Bytes) → k ≤ length xs → take k (xs ++ ys) ≡ take k xs
take-append_first zero xs ys l = refl
take-append_first (suc k) [] ys l = absurd (omega arith)
take-append_first (suc k) (x ∷ xs) ys l = ap (λ r. x ∷ r) (take-append_first k xs ys (omega arith))

drop-append_first : (k : ℕ) (xs ys : Bytes) → k ≤ length xs → drop k (xs ++ ys) ≡ drop k xs ++ ys
drop-append_first zero xs ys l = refl
drop-append_first (suc k) [] ys l = absurd (omega arith)
drop-append_first (suc k) (x ∷ xs) ys l = drop-append_first k xs ys (omega arith)

pub take-split : (m k : ℕ) (xs : Bytes) → m ≤ k → take m xs ++ take (k - m) (drop m xs) ≡ take k xs
take-split zero k xs l = ap (λ n. take n xs) {x = k - 0} (omega arith)
take-split (suc m) zero xs l = absurd (omega arith)
take-split (suc m) (suc k) [] l =
    ap (λ n. take n []) {x = suc k - suc m} {y = k - m} (omega arith) ∙ take-nil (k - m)
  where
    take-nil : (n : ℕ) → take {A = ℕ} n [] ≡ []
    take-nil zero = refl
    take-nil (suc n) = refl
take-split (suc m) (suc k) (x ∷ xs) l =
    ap (λ n. x ∷ (take m xs ++ take n (drop m xs))) {x = suc k - suc m} (omega arith)
    ∙ ap (λ r. x ∷ r) (take-split m k xs (omega arith))

-- The zero replaces the byte behind the text.
set-ended :
    (k : ℕ) (s : Bytes)
    → k ≤ length s
    → set (take (k + 1) (s ++ (0 ∷ []))) k 0 ≡ take k s ++ (0 ∷ [])
set-ended zero [] l = refl
set-ended zero (c ∷ s) l = refl
set-ended (suc k) [] l = absurd (omega arith)
set-ended (suc k) (c ∷ s) l =
    ap (λ n. set (take n (c ∷ (s ++ (0 ∷ [])))) (suc k) 0) {x = suc k + 1} {y = suc (k + 1)}
      (omega arith)
    ∙ ap (λ r. c ∷ r) (set-ended k s (omega arith))

set-append : (i : ℕ) (v : ℕ) (xs ys : Bytes) → i < length xs → set (xs ++ ys) i v ≡ set xs i v ++ ys
set-append i v [] ys l = absurd (omega arith)
set-append zero v (x ∷ xs) ys l = refl
set-append (suc i) v (x ∷ xs) ys l = ap (λ r. x ∷ r) (set-append i v xs ys (omega arith))

set-append_at :
    (i : ℕ) (v : ℕ) (xs ys : Bytes) → set (xs ++ ys) (length xs + i) v ≡ xs ++ set ys i v
set-append_at i v [] ys = ap (λ n. set ys n v) {x = 0 + i} (omega arith)
set-append_at i v (x ∷ xs) ys =
    ap (λ n. set (x ∷ (xs ++ ys)) n v) {x = suc (length xs) + i} {y = suc (length xs + i)}
      (omega arith)
    ∙ ap (λ r. x ∷ r) (set-append_at i v xs ys)

set-copy_to :
    (at i v : ℕ) (xs memory : Bytes)
    → at ≤ length memory
    → i < length xs
    → length (set xs i v) ≡ length xs
    → set (copy_to at xs memory) (at + i) v ≡ copy_to at (set xs i v) memory
set-copy_to at i v xs memory l lt e =
    ap (λ r. set r (at + i) v) (append_assoc (take at memory) xs rest)
    ∙ ap (λ n. set (take at memory ++ (xs ++ rest)) (n + i) v) (sym whole)
    ∙ set-append_at i v (take at memory) (xs ++ rest)
    ∙ ap (λ r. take at memory ++ r) (set-append i v xs rest lt)
    ∙ sym (append_assoc (take at memory) (set xs i v) rest)
    ∙ ap (λ n. take at memory ++ set xs i v ++ drop (at + n) memory) (sym e)
  where
    rest : Bytes
    rest = drop (at + length xs) memory

    whole : length (take at memory) ≡ at
    whole = omega (arith, length-take at memory)

ended :
    (at k last : ℕ) (s memory : Bytes)
    → at ≤ length memory
    → k ≤ length s
    → at + k ≡ last
    → set (copy_to at (take (k + 1) (s ++ (0 ∷ []))) memory) last 0
      ≡ copy_to at (take k s ++ (0 ∷ [])) memory
ended at k last s memory l le e =
    ap (λ n. set (copy_to at (take (k + 1) (s ++ (0 ∷ []))) memory) n 0) (sym e)
    ∙ set-copy_to at k 0 (take (k + 1) (s ++ (0 ∷ []))) memory l
        (omega (arith, length-take (k + 1) (s ++ (0 ∷ [])), length-append s (0 ∷ [])))
        (length-set (take (k + 1) (s ++ (0 ∷ []))) k 0)
    ∙ ap (λ r. copy_to at r memory) (set-ended k s le)

module _ (h : ErrorInfoHeap) (s : Bytes) (k : ℕ) (long : k ≤ length s)
    (room : h.size ≡ length h.bytes) (inside : h.wr < h.size) where
  -- The text ends before the end of the ring.
  pub put_text-before :
      k + 1 < h.size - h.wr
      → end_text (put_text (s ++ (0 ∷ [])) (k + 1) h) ≡ record {
        wr = h.wr + (k + 1);
        count = h.count - (k + 1);
        size = h.size;
        bytes = copy_to h.wr (take k s ++ (0 ∷ [])) h.bytes;
      }
  unfolding put_text put_rest end_text
  put_text-before l =
      rw (off, on)
        (ap
          (λ d. record { wr = h.wr + (k + 1); count = h.count - (k + 1); size = h.size; bytes = d })
          (ended h.wr k (h.wr + (k + 1) - 1) s h.bytes (omega (arith, room)) long (omega arith)))
    where
      off : leb (h.size - h.wr) (k + 1) ≡ false
      off = ground arith

      on : ltb 0 (h.wr + (k + 1)) ≡ true
      on = ground arith

  -- Its zero is the last byte of the ring.
  pub put_text-whole :
      k + 1 ≡ h.size - h.wr
      → end_text (put_text (s ++ (0 ∷ [])) (k + 1) h) ≡ record {
        wr = 0;
        count = h.count - (k + 1);
        size = h.size;
        bytes = copy_to h.wr (take k s ++ (0 ∷ [])) h.bytes;
      }
  unfolding put_text put_rest end_text
  put_text-whole e =
      rw (on, sym e, none_left, same_count)
        (ap (λ d. record { wr = 0; count = h.count - (k + 1); size = h.size; bytes = d })
          (ended h.wr k (h.size - 1) s h.bytes (omega (arith, room)) long (omega (arith, e))))
    where
      on : leb (h.size - h.wr) (k + 1) ≡ true
      on = ground (arith, e)

      none_left : (k + 1) - (k + 1) ≡ 0
      none_left = omega arith

      same_count : h.count - (k + 1) - 0 ≡ h.count - (k + 1)
      same_count = omega arith

  -- It goes on at the start of the ring.
  pub put_text-wrapped :
      h.size - h.wr < k + 1
      → end_text (put_text (s ++ (0 ∷ [])) (k + 1) h) ≡ record {
        wr = k + 1 - (h.size - h.wr);
        count = h.count - (h.size - h.wr) - (k + 1 - (h.size - h.wr));
        size = h.size;
        bytes =
            copy_to 0
              (take (k - (h.size - h.wr)) (drop (h.size - h.wr) s) ++ (0 ∷ []))
              (copy_to h.wr (take (h.size - h.wr) s) h.bytes);
      }
  unfolding put_text put_rest end_text
  put_text-wrapped l =
      rw (on, from_start, more, start, after)
        (ap
          (λ d. record {
            wr = k + 1 - rem;
            count = h.count - rem - (k + 1 - rem);
            size = h.size;
            bytes = d;
          })
          (ap (λ n. set (copy_to 0 (take n (drop rem s ++ (0 ∷ []))) first) (k + 1 - rem - 1) 0)
              left
            ∙ ended 0 (k - rem) (k + 1 - rem - 1) (drop rem s) first (omega arith)
                (omega (arith, length-drop rem s, long)) (omega (arith, l))))
    where
      rem : ℕ
      rem = h.size - h.wr

      first : Bytes
      first = copy_to h.wr (take rem s) h.bytes

      left : k + 1 - rem ≡ k - rem + 1
      left = omega (arith, l)

      on : leb (h.size - h.wr) (k + 1) ≡ true
      on = ground (arith, l)

      from_start : 0 + (k + 1 - (h.size - h.wr)) ≡ k + 1 - (h.size - h.wr)
      from_start = omega arith

      more : ltb 0 (k + 1 - (h.size - h.wr)) ≡ true
      more = ground (arith, l)

      start : take (h.size - h.wr) (s ++ (0 ∷ [])) ≡ take (h.size - h.wr) s
      start = take-append_first (h.size - h.wr) s (0 ∷ []) (omega (arith, l, long))

      after : drop (h.size - h.wr) (s ++ (0 ∷ [])) ≡ drop (h.size - h.wr) s ++ (0 ∷ [])
      after = drop-append_first (h.size - h.wr) s (0 ∷ []) (omega (arith, l, long))
