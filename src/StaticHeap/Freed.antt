-- ===== src/StaticHeap/Freed.antt =====
-- libscpi/src/utils.c: scpiheap_free with `rollback`, behind scpiheap_strndup.
use mathlib.Core.Option.{some-injective}
use scpi_parser.Base.{
  ℕ, ◌+◌, ◌-◌, ◌<◌, ◌≤◌, ◌≡◌, refl, ap, sym, ◌∙◌, ◌⊎◌, inl, inr, Bool-cases, true, some, none, ◌==◌,
  ltb, if◌then◌else◌, [], ◌∷◌, ◌++◌, length, take, drop, append_assoc, Bytes, arith,
}
use scpi_parser.ErrorQueue.{strnlen}
use scpi_parser.Session.{copy_to}
use scpi_parser.StaticHeap.Cleared.{Returned, whole-Returned, wrapped-Returned}
use scpi_parser.StaticHeap.Kept.{
  IsHeap, written, first_part, second_part_length, text_there, first_there, positive_text, refused,
  accepted,
}
use scpi_parser.StaticHeap.ReadBack.{strnlen_bound, parts-whole, parts-wrapped}
use scpi_parser.StaticHeap.Written.{put_text-before, put_text-whole, put_text-wrapped}
use scpi_parser.StaticHeap.{
  ErrorInfoHeap, memset, roll_back, put_text, end_text, clear_part, free_parts, scpiheap_strndup,
  scpiheap_get_parts, scpiheap_free,
}

-- The counters as free leaves them: `c` bytes free, and the next text at `w`, or at the start
-- where nothing is in use.
unfoldable pub HasFree : ℕ → ℕ → ErrorInfoHeap → Type 0
HasFree c w g = (g.count ≡ c) × (g.wr ≡ (if c == g.size then 0 else w))

-- All that scpiheap_free does to take back a text of `m` bytes, its zero included, put into `h`.
pub record TakenBack (h : ErrorInfoHeap) (m : ℕ) (g : ErrorInfoHeap) : Type 0 where
  pub free : HasFree h.count h.wr g
  pub returned : Returned h m g.bytes

roll_back-undone :
    (rb c w : ℕ) (g : ErrorInfoHeap)
    → g.count ≡ c
    → (g.wr ≡ w + rb) ⊎ ((g.wr < rb) × (g.wr + g.size ≡ w + rb))
    → ((roll_back rb true g).count ≡ c)
      × ((roll_back rb true g).wr ≡ (if c == g.size then 0 else w))
unfolding roll_back
roll_back-undone rb c w g e (inl q) = (ground (arith, e, q), ground (arith, e, q))
roll_back-undone rb c w g e (inr q) = (ground (arith, e, q.0, q.1), ground (arith, e, q.0, q.1))

size-roll_back : (rb : ℕ) (g : ErrorInfoHeap) → (roll_back rb true g).size ≡ g.size
unfolding roll_back
size-roll_back rb g = elim (Bool-cases (g.count == g.size)) [
  | inl h ↦ rw h refl
  | inr h ↦ rw h (elim (Bool-cases (ltb g.wr rb)) [ inl q ↦ rw q refl | inr q ↦ rw q refl ])
]

bytes-roll_back : (rb : ℕ) (g : ErrorInfoHeap) → (roll_back rb true g).bytes ≡ g.bytes
unfolding roll_back
bytes-roll_back rb g = elim (Bool-cases (g.count == g.size)) [
  | inl h ↦ rw h refl
  | inr h ↦ rw h (elim (Bool-cases (ltb g.wr rb)) [ inl q ↦ rw q refl | inr q ↦ rw q refl ])
]

module _ (g : ErrorInfoHeap) (c w head len1 len2 : ℕ) where
  whole-bytes :
      scpiheap_get_parts g (some head) ≡ some (record { len1 = len1; s2 = none; len2 = 0 })
      → (scpiheap_free g (some head) true).bytes ≡ memset head (len1 + 1) g.bytes
  unfolding scpiheap_free free_parts clear_part
  whole-bytes e =
      rw (scpiheap_free, e, free_parts)
        (bytes-roll_back (len1 + 1 + 0) (clear_part head (len1 + 1) g))

  wrapped-bytes :
      scpiheap_get_parts g (some head) ≡ some (record { len1 = len1; s2 = some 0; len2 = len2 })
      → (scpiheap_free g (some head) true).bytes ≡ memset head len1 (memset 0 (len2 + 1) g.bytes)
  unfolding scpiheap_free free_parts clear_part
  wrapped-bytes e =
      rw (scpiheap_free, e, free_parts)
        (bytes-roll_back (len1 + (len2 + 1)) (clear_part head len1 (clear_part 0 (len2 + 1) g)))

  whole-undone :
      scpiheap_get_parts g (some head) ≡ some (record { len1 = len1; s2 = none; len2 = 0 })
      → g.count + (len1 + 1) ≡ c
      → (g.wr ≡ w + (len1 + 1 + 0)) ⊎ ((g.wr < len1 + 1 + 0) × (g.wr + g.size ≡ w + (len1 + 1 + 0)))
      → HasFree c w (scpiheap_free g (some head) true)
  unfolding HasFree scpiheap_free free_parts clear_part
  whole-undone e q r =
      rw
        (scpiheap_free, e, free_parts, size-roll_back (len1 + 1 + 0) (clear_part head (len1 + 1) g))
        (roll_back-undone (len1 + 1 + 0) c w (clear_part head (len1 + 1) g) q r)

  wrapped-undone :
      scpiheap_get_parts g (some head) ≡ some (record { len1 = len1; s2 = some 0; len2 = len2 })
      → g.count + (len2 + 1) + len1 ≡ c
      → (g.wr < len1 + (len2 + 1)) × (g.wr + g.size ≡ w + (len1 + (len2 + 1)))
      → HasFree c w (scpiheap_free g (some head) true)
  unfolding HasFree scpiheap_free free_parts clear_part
  wrapped-undone e q r =
      rw
        (
          scpiheap_free,
          e,
          free_parts,
          size-roll_back (len1 + (len2 + 1)) (clear_part head len1 (clear_part 0 (len2 + 1) g)),
        )
        (roll_back-undone (len1 + (len2 + 1)) c w (clear_part head len1 (clear_part 0 (len2 + 1) g))
          q (inr r))

module _ (h : ErrorInfoHeap) (s : Bytes) (n : ℕ) (good : IsHeap h) (positive : 0 < strnlen s n)
    (room : strnlen s n + 1 ≤ h.count) where
  put-undone :
      TakenBack h
        (strnlen s n + 1)
        (scpiheap_free (end_text (put_text (s ++ (0 ∷ [])) (strnlen s n + 1) h)) (some h.wr) true)
  put-undone = elim sizes [
    | inl l ↦ rw (put_text-before h s k long good.size_eq good.inside l) (record {
      free =
          whole-undone before h.count h.wr h.wr k 0
            (whole_parts before (omega (arith, l)) refl (omega (arith, l))) (omega (arith, room))
            (inl (omega arith));
      returned = whole_returned before (omega (arith, l)) refl (omega (arith, l));
    })
    | inr (inl e) ↦ rw (put_text-whole h s k long good.size_eq good.inside e) (record {
      free =
          whole-undone whole h.count h.wr h.wr k 0
            (whole_parts whole (omega (arith, e)) refl (omega (arith, e, good.inside)))
            (omega (arith, room)) (inr (omega arith, omega (arith, e, good.inside)));
      returned = whole_returned whole (omega (arith, e)) refl (omega (arith, e, good.inside));
    })
    | inr (inr l) ↦ rw (put_text-wrapped h s k long good.size_eq good.inside l) (record {
      free =
          wrapped-undone wrapped h.count h.wr h.wr rem (k - rem) (wrapped_parts l)
            (omega (arith, room, l)) (omega (arith, l, good.inside), omega (arith, l, good.inside));
      returned = wrapped_returned l;
    })
  ]
    where
      k : ℕ
      k = strnlen s n

      long : k ≤ length s
      long = strnlen_bound s n

      sizes : (k + 1 < h.size - h.wr) ⊎ ((k + 1 ≡ h.size - h.wr) ⊎ (h.size - h.wr < k + 1))
      sizes = ground arith

      rem : ℕ
      rem = h.size - h.wr

      -- The text in one part.
      whole_parts :
          (g : ErrorInfoHeap)
          → h.wr + k < g.size
          → g.bytes ≡ copy_to h.wr (take k s ++ (0 ∷ [])) h.bytes
          → h.wr + (k + 1) ≤ h.size
          → scpiheap_get_parts g (some h.wr) ≡ some (record { len1 = k; s2 = none; len2 = 0 })
      whole_parts g l e f =
          parts-whole g h.wr n k s _ positive (omega arith) l
            (ap (drop h.wr) e ∙ text_there h s n good positive room f)

      whole_returned :
          (g : ErrorInfoHeap)
          → h.wr + k < g.size
          → g.bytes ≡ copy_to h.wr (take k s ++ (0 ∷ [])) h.bytes
          → h.wr + (k + 1) ≤ h.size
          → Returned h (k + 1) (scpiheap_free g (some h.wr) true).bytes
      whole_returned g l e f =
          rw (whole-bytes g 0 0 h.wr k 0 (whole_parts g l e f), e)
            (whole-Returned h good.size_eq (k + 1) (take k s ++ (0 ∷ [])) (written h s n good room)
              f)

      before : ErrorInfoHeap
      before = record {
        wr = h.wr + (k + 1);
        count = h.count - (k + 1);
        size = h.size;
        bytes = copy_to h.wr (take k s ++ (0 ∷ [])) h.bytes;
      }

      whole : ErrorInfoHeap
      whole = record before { wr = 0 }

      wrapped : ErrorInfoHeap
      wrapped = record {
        wr = k + 1 - (h.size - h.wr);
        count = h.count - (h.size - h.wr) - (k + 1 - (h.size - h.wr));
        size = h.size;
        bytes =
            copy_to 0 (take (k - (h.size - h.wr)) (drop (h.size - h.wr) s) ++ (0 ∷ []))
              (copy_to h.wr (take (h.size - h.wr) s) h.bytes);
      }

      wrapped_parts :
          rem < k + 1
          → scpiheap_get_parts wrapped (some h.wr)
            ≡ some (record { len1 = rem; s2 = some 0; len2 = k - rem })
      wrapped_parts l =
          parts-wrapped wrapped h.wr n rem k s _ (omega (arith, good.inside)) (omega (arith, l))
            (omega arith) (omega (arith, good.inside)) (omega (arith, room, good.counted))
            (first_there h s n good positive room l)
            (append_assoc (take (k - rem) (drop rem s)) (0 ∷ []) _)

      wrapped_returned :
          rem < k + 1 → Returned h (k + 1) (scpiheap_free wrapped (some h.wr) true).bytes
      wrapped_returned l =
          rw (wrapped-bytes wrapped 0 0 h.wr rem (k - rem) (wrapped_parts l), total)
            (wrapped-Returned h good.size_eq rem (k - rem + 1) (take rem s)
              (take (k - rem) (drop rem s) ++ (0 ∷ [])) (first_part h s n good room l)
              (second_part_length h s n good room l) (omega (arith, good.inside))
              (omega (arith, room, good.counted, l)))
        where
          total : k + 1 ≡ rem + (k - rem + 1)
          total = omega (arith, l)

-- Where scpiheap_strndup stored a text in a well-formed heap, with a limit above 0, scpiheap_free
-- with `rollback` counts all its bytes as free, fills them with zeros and changes no other byte, and
-- the next text goes where this one went; in a heap with nothing in use it goes to the start.
pub scpiheap_free-undone :
    (h : ErrorInfoHeap) (s : Bytes) (n : ℕ)
    → IsHeap h
    → 0 < n
    → (head : ℕ) → (scpiheap_strndup h (some s) n).0 ≡ some head
    → TakenBack h
        (strnlen s n + 1)
        (scpiheap_free (scpiheap_strndup h (some s) n).1 (some head) true)
unfolding scpiheap_strndup
scpiheap_free-undone h s n good positive head e = elim (Bool-cases (refused h s n)) [
  | inl r ↦ absurd (ground (arith, rw r at e))
  | inr r ↦
      rw (r, sym (some-injective h.wr head (rw r at e)))
        (put-undone h s n good (positive_text s n positive (accepted h s n r).0)
          (ground (arith, (accepted h s n r).1)))
]
