-- ===== src/StaticHeap.antt =====
-- libscpi/src/utils.c: the static heap, a ring of bytes for the texts of errors where `malloc` is
-- not available. A pointer into the heap is an index; the pointers to the heap itself and to the
-- results are never null. A text is the list of its bytes, with a zero behind them.
pub mod Written
pub mod ReadBack
pub mod Kept
pub mod Cleared
pub mod Freed
mod Tests
use scpi_parser.Base.{
  ℕ, zero, suc, ◌+◌, ◌-◌, Bool, ◌||◌, not, Option, none, some, List, [], ◌∷◌, ◌++◌, ◌==◌, leb, ltb,
  if◌then◌else◌, get_or, set, take, drop, Bytes,
}
use scpi_parser.ErrorQueue.{strnlen}
use scpi_parser.Session.{copy_to}

pub record ErrorInfoHeap : Type 0 where
  pub wr : ℕ
  pub count : ℕ
  pub size : ℕ
  pub bytes : Bytes

-- What scpiheap_get_parts stores: the parts of a text, with the second at `s2`.
pub record Parts : Type 0 where
  pub len1 : ℕ
  pub s2 : Option ℕ
  pub len2 : ℕ

unfoldable pub nuls : ℕ → Bytes
nuls zero = []
nuls (suc n) = 0 ∷ nuls n

unfoldable pub memset : ℕ → ℕ → Bytes → Bytes
memset at n memory = copy_to at (nuls n) memory

unfoldable pub scpiheap_init : Bytes → ℕ → ErrorInfoHeap
scpiheap_init memory len = record { wr = 0; count = len; size = len; bytes = memset 0 len memory }

-- The second `memcpy`, at the place where the first one left `wr`.
unfoldable pub put_rest : Bytes → ℕ → ErrorInfoHeap → ErrorInfoHeap
put_rest ptrs len h = record h {
  bytes = copy_to h.wr (take len ptrs) h.bytes;
  wr = h.wr + len;
  count = h.count - len;
}

unfoldable pub put_text : Bytes → ℕ → ErrorInfoHeap → ErrorInfoHeap
put_text ptrs len h =
    let rem = h.size - h.wr in
    if leb rem len
    then put_rest (drop rem ptrs) (len - rem)
        (record h { bytes = copy_to h.wr (take rem ptrs) h.bytes; wr = 0; count = h.count - rem })
    else put_rest ptrs len h

unfoldable pub end_text : ErrorInfoHeap → ErrorInfoHeap
end_text h =
    if ltb 0 h.wr
    then record h { bytes = set h.bytes (h.wr - 1) 0 }
    else record h { bytes = set h.bytes (h.size - 1) 0 }

unfoldable pub scpiheap_strndup : ErrorInfoHeap → Option Bytes → ℕ → Option ℕ × ErrorInfoHeap
scpiheap_strndup h none n = (none, h)
scpiheap_strndup h (some s) n =
    let len = strnlen s n + 1 in
    if (h.size == 0) || not (get_or h.bytes h.wr 0 == 0) || (get_or s 0 0 == 0) || ltb h.count len
    then (none, h)
    else (some h.wr, end_text (put_text (s ++ (0 ∷ [])) len h))

unfoldable pub scpiheap_get_parts : ErrorInfoHeap → Option ℕ → Option Parts
scpiheap_get_parts h none = none
scpiheap_get_parts h (some s) =
    let len1 = strnlen (drop s h.bytes) (h.size - s) in
    if get_or h.bytes s 0 == 0
    then none
    else if s + len1 - 1 == h.size - 1
    then some (record { len1 = len1; s2 = some 0; len2 = strnlen h.bytes h.size })
    else some (record { len1 = len1; s2 = none; len2 = 0 })

-- Fills a part with zeros and counts it as free.
unfoldable pub clear_part : ℕ → ℕ → ErrorInfoHeap → ErrorInfoHeap
clear_part at len h = record h { bytes = memset at len h.bytes; count = h.count + len }

-- Where the next text goes, after `rb` bytes became free.
unfoldable pub roll_back : ℕ → Bool → ErrorInfoHeap → ErrorInfoHeap
roll_back rb rollback h =
    if h.count == h.size
    then record h { wr = 0 }
    else if rollback
    then (if ltb h.wr rb then record h { wr = h.wr + h.size - rb } else record h { wr = h.wr - rb })
    else h

unfoldable pub free_parts : ℕ → Parts → Bool → ErrorInfoHeap → ErrorInfoHeap
free_parts s p rollback h = elim p.s2 [
  | some data_add ↦
      roll_back (p.len1 + (p.len2 + 1)) rollback
        (clear_part s p.len1 (clear_part data_add (p.len2 + 1) h))
  | none ↦ roll_back (p.len1 + 1 + p.len2) rollback (clear_part s (p.len1 + 1) h)
]

unfoldable pub scpiheap_free : ErrorInfoHeap → Option ℕ → Bool → ErrorInfoHeap
scpiheap_free h none rollback = h
scpiheap_free h (some s) rollback = elim (scpiheap_get_parts h (some s)) [
  | none ↦ h
  | some p ↦ free_parts s p rollback h
]
