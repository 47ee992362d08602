-- ===== src/StaticHeap/Cleared.antt =====
-- libscpi/src/utils.c: the bytes that scpiheap_free fills with zeros, one by one.
use scpi_parser.Base.{
  ℕ, zero, suc, ◌+◌, ◌-◌, ◌≤◌, ◌<◌, ◌≡◌, refl, ap, sym, ◌∙◌, ◌⊎◌, inl, inr, ◌++◌, get_or,
  get_or-drop, get_or-take, length, drop, Bytes, arith,
}
use scpi_parser.Dispatch.Copy.{drop-copy_to, drop-copy_to_behind, take-copy_to, length-copy_to}
use scpi_parser.Session.{copy_to}
use scpi_parser.StaticHeap.{ErrorInfoHeap, nuls, memset}

length-nuls : (n : ℕ) → length (nuls n) ≡ n
unfolding nuls
length-nuls zero = refl
length-nuls (suc n) = ap suc (length-nuls n)

get_or-nuls : (n i : ℕ) (ys : Bytes) → i < n → get_or (nuls n ++ ys) i 1 ≡ 0
unfolding nuls
get_or-nuls zero i ys l = absurd (omega arith)
get_or-nuls (suc n) zero ys l = refl
get_or-nuls (suc n) (suc i) ys l = get_or-nuls n i ys (omega arith)

-- A copy changes nothing before it and behind it.
get_or-copy_to :
    (at i : ℕ) (xs memory : Bytes)
    → at + length xs ≤ length memory
    → (i < at) ⊎ (at + length xs ≤ i)
    → get_or (copy_to at xs memory) i 1 ≡ get_or memory i 1
get_or-copy_to at i xs memory f (inl l) =
    sym (get_or-take at i (copy_to at xs memory) 1 l)
    ∙ ap (λ m. get_or m i 1) (take-copy_to at xs memory f)
    ∙ get_or-take at i memory 1 l
get_or-copy_to at i xs memory f (inr l) =
    ap (λ j. get_or (copy_to at xs memory) j 1) split
    ∙ sym (get_or-drop (at + length xs) (i - (at + length xs)) (copy_to at xs memory) 1)
    ∙ ap (λ m. get_or m (i - (at + length xs)) 1) (drop-copy_to_behind at xs memory f)
    ∙ get_or-drop (at + length xs) (i - (at + length xs)) memory 1
    ∙ ap (λ j. get_or memory j 1) (sym split)
  where
    split : i ≡ at + length xs + (i - (at + length xs))
    split = omega arith

get_or-memset_outside :
    (at n i : ℕ) (memory : Bytes)
    → at + n ≤ length memory
    → (i < at) ⊎ (at + n ≤ i)
    → get_or (memset at n memory) i 1 ≡ get_or memory i 1
unfolding memset
get_or-memset_outside at n i memory f (inl l) =
    get_or-copy_to at i (nuls n) memory (omega (arith, length-nuls n)) (inl l)
get_or-memset_outside at n i memory f (inr l) =
    get_or-copy_to at i (nuls n) memory (omega (arith, length-nuls n))
      (inr (omega (arith, length-nuls n)))

get_or-memset_inside :
    (at n i : ℕ) (memory : Bytes)
    → at + n ≤ length memory
    → at ≤ i
    → i < at + n
    → get_or (memset at n memory) i 1 ≡ 0
unfolding memset
get_or-memset_inside at n i memory f l m =
    ap (λ j. get_or (copy_to at (nuls n) memory) j 1) split
    ∙ sym (get_or-drop at (i - at) (copy_to at (nuls n) memory) 1)
    ∙ ap (λ b. get_or b (i - at) 1) (drop-copy_to at (nuls n) memory (omega (arith, length-nuls n)))
    ∙ get_or-nuls n (i - at) (drop (at + length (nuls n)) memory) (omega arith)
  where
    split : i ≡ at + (i - at)
    split = omega arith

length-memset :
    (at n : ℕ) (memory : Bytes)
    → at + n ≤ length memory
    → length (memset at n memory) ≡ length memory
unfolding memset
length-memset at n memory fits = length-copy_to at (nuls n) memory (omega (arith, length-nuls n))

-- The `m` bytes from `h.wr` on, round the end of the ring, are zero, all others are those of `h`.
pub record Returned (h : ErrorInfoHeap) (m : ℕ) (bytes : Bytes) : Type 0 where
  pub length_eq : length bytes ≡ h.size
  pub cleared :
      (i : ℕ)
      → i < h.size
      → ((h.wr ≤ i) × (i < h.wr + m)) ⊎ (i + h.size < h.wr + m)
      → get_or bytes i 1 ≡ 0
  pub others :
      (i : ℕ)
      → (i < h.wr) ⊎ (h.wr + m ≤ i)
      → h.wr + m ≤ i + h.size
      → get_or bytes i 1 ≡ get_or h.bytes i 1

module _ (h : ErrorInfoHeap) (whole : h.size ≡ length h.bytes) where
  pub whole-Returned :
      (m : ℕ) (text : Bytes)
      → length text ≡ m
      → h.wr + m ≤ h.size
      → Returned h m (memset h.wr m (copy_to h.wr text h.bytes))
  whole-Returned m text e f = record {
    length_eq = length-memset h.wr m put (omega (arith, same, whole)) ∙ same ∙ sym whole;
    cleared = cleared;
    others = others;
  }
    where
      put : Bytes
      put = copy_to h.wr text h.bytes

      same : length put ≡ length h.bytes
      same = length-copy_to h.wr text h.bytes (omega (arith, e, whole))

      cleared :
          (i : ℕ)
          → i < h.size
          → ((h.wr ≤ i) × (i < h.wr + m)) ⊎ (i + h.size < h.wr + m)
          → get_or (memset h.wr m put) i 1 ≡ 0
      cleared i l (inl q) = get_or-memset_inside h.wr m i put (omega (arith, same, whole)) q.0 q.1
      cleared i l (inr q) = absurd (omega (arith, q))

      others :
          (i : ℕ)
          → (i < h.wr) ⊎ (h.wr + m ≤ i)
          → h.wr + m ≤ i + h.size
          → get_or (memset h.wr m put) i 1 ≡ get_or h.bytes i 1
      others i (inl l) q =
          get_or-memset_outside h.wr m i put (omega (arith, same, whole)) (inl l)
          ∙ get_or-copy_to h.wr i text h.bytes (omega (arith, e, whole)) (inl l)
      others i (inr l) q =
          get_or-memset_outside h.wr m i put (omega (arith, same, whole)) (inr l)
          ∙ get_or-copy_to h.wr i text h.bytes (omega (arith, e, whole)) (inr (omega (arith, e)))

  pub wrapped-Returned :
      (m1 m2 : ℕ) (front back : Bytes)
      → length front ≡ m1
      → length back ≡ m2
      → h.wr + m1 ≡ h.size
      → m2 ≤ h.wr
      → Returned h
          (m1 + m2)
          (memset h.wr m1 (memset 0 m2 (copy_to 0 back (copy_to h.wr front h.bytes))))
  wrapped-Returned m1 m2 front back e1 e2 f l = record {
    length_eq = length-memset h.wr m1 half (omega (arith, whole, same2)) ∙ same2 ∙ sym whole;
    cleared = cleared;
    others = others;
  }
    where
      put1 : Bytes
      put1 = copy_to h.wr front h.bytes

      same : length put1 ≡ length h.bytes
      same = length-copy_to h.wr front h.bytes (omega (arith, e1, whole))

      put2 : Bytes
      put2 = copy_to 0 back put1

      same1 : length put2 ≡ length h.bytes
      same1 = length-copy_to 0 back put1 (omega (arith, e2, same, whole)) ∙ same

      half : Bytes
      half = memset 0 m2 put2

      same2 : length half ≡ length h.bytes
      same2 = length-memset 0 m2 put2 (omega (arith, same1, whole)) ∙ same1

      cleared :
          (i : ℕ)
          → i < h.size
          → ((h.wr ≤ i) × (i < h.wr + (m1 + m2))) ⊎ (i + h.size < h.wr + (m1 + m2))
          → get_or (memset h.wr m1 half) i 1 ≡ 0
      cleared i b (inl q) =
          get_or-memset_inside h.wr m1 i half (omega (arith, whole, same2)) q.0 (omega arith)
      cleared i b (inr q) =
          get_or-memset_outside h.wr m1 i half (omega (arith, whole, same2))
            (inl (omega (arith, q)))
          ∙ get_or-memset_inside 0 m2 i put2 (omega (arith, same1, whole)) (omega arith)
              (omega (arith, q))

      before : (i : ℕ) → i < h.wr → m2 ≤ i → get_or (memset h.wr m1 half) i 1 ≡ get_or h.bytes i 1
      before i b q =
          get_or-memset_outside h.wr m1 i half (omega (arith, whole, same2)) (inl b)
          ∙ get_or-memset_outside 0 m2 i put2 (omega (arith, same1, whole)) (inr (omega arith))
          ∙ get_or-copy_to 0 i back put1 (omega (arith, e2, same, whole)) (inr (omega (arith, e2)))
          ∙ get_or-copy_to h.wr i front h.bytes (omega (arith, e1, whole)) (inl b)

      others :
          (i : ℕ)
          → (i < h.wr) ⊎ (h.wr + (m1 + m2) ≤ i)
          → h.wr + (m1 + m2) ≤ i + h.size
          → get_or (memset h.wr m1 half) i 1 ≡ get_or h.bytes i 1
      others i (inl b) q = before i b (omega arith)
      others i (inr b) q =
          get_or-memset_outside h.wr m1 i half (omega (arith, whole, same2)) (inr (omega arith))
          ∙ get_or-memset_outside 0 m2 i put2 (omega (arith, same1, whole)) (inr (omega arith))
          ∙ get_or-copy_to 0 i back put1 (omega (arith, e2, same, whole)) (inr (omega (arith, e2)))
          ∙ get_or-copy_to h.wr i front h.bytes (omega (arith, e1, whole)) (inr (omega (arith, e1)))
