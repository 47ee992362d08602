-- ===== src/StaticHeap/Tests.antt =====
-- libscpi/src/utils.c: the static heap at concrete contents.
use scpi_parser.Base.{◌+◌, ◌≡◌, refl, none, some, [], ◌∷◌, Bytes, true, take, arith}
use scpi_parser.ErrorQueue.{strnlen}
use scpi_parser.StaticHeap.Freed.{TakenBack, scpiheap_free-undone}
use scpi_parser.StaticHeap.Kept.{IsHeap, scpiheap_strndup-IsHeap, scpiheap_strndup-text_at}
use scpi_parser.StaticHeap.ReadBack.{text_at}
use scpi_parser.StaticHeap.{
  ErrorInfoHeap, Parts, scpiheap_init, scpiheap_strndup, scpiheap_get_parts, scpiheap_free,
}

abbrev info : Bytes
info = b'a' ∷ b'b' ∷ b'c' ∷ b'd' ∷ []

-- Eight bytes, with three left before the end of the ring.
abbrev near_end : ErrorInfoHeap
near_end = record { wr = 5; count = 8; size = 8; bytes = 0 ∷ 0 ∷ 0 ∷ 0 ∷ 0 ∷ 0 ∷ 0 ∷ 0 ∷ [] }

abbrev wrapped : ErrorInfoHeap
wrapped = record {
  wr = 2;
  count = 3;
  size = 8;
  bytes = b'd' ∷ 0 ∷ 0 ∷ 0 ∷ 0 ∷ b'a' ∷ b'b' ∷ b'c' ∷ [];
}

init_test :
    scpiheap_init (7 ∷ 7 ∷ []) 2 ≡ record { wr = 0; count = 2; size = 2; bytes = 0 ∷ 0 ∷ [] }
unfolding scpiheap_init scpi_parser.StaticHeap.memset scpi_parser.StaticHeap.nuls
init_test = refl

strndup_test : scpiheap_strndup near_end (some info) 9 ≡ (some 5, wrapped)
unfolding scpiheap_strndup strnlen scpi_parser.StaticHeap.put_text scpi_parser.StaticHeap.put_rest
    scpi_parser.StaticHeap.end_text
strndup_test = refl

parts_test : scpiheap_get_parts wrapped (some 5) ≡ some (record { len1 = 3; s2 = some 0; len2 = 1 })
unfolding scpiheap_get_parts strnlen
parts_test = refl

too_long_test : scpiheap_strndup wrapped (some info) 9 ≡ (none, wrapped)
unfolding scpiheap_strndup strnlen
too_long_test = refl

free_test : scpiheap_free wrapped (some 5) true ≡ record near_end { wr = 0 }
unfolding scpiheap_free scpiheap_get_parts strnlen scpi_parser.StaticHeap.free_parts
    scpi_parser.StaticHeap.clear_part scpi_parser.StaticHeap.roll_back scpi_parser.StaticHeap.memset
    scpi_parser.StaticHeap.nuls
free_test = refl

near_end-IsHeap : IsHeap near_end
near_end-IsHeap = record { size_eq = refl; inside = omega arith; counted = omega arith }

stored_at : (scpiheap_strndup near_end (some info) 9).0 ≡ some 5
unfolding scpiheap_strndup strnlen
stored_at = refl

scpiheap_strndup-text_at_example :
    text_at (scpiheap_strndup near_end (some info) 9).1 5 ≡ take (strnlen info 9) info
scpiheap_strndup-text_at_example =
    scpiheap_strndup-text_at near_end info 9 near_end-IsHeap (omega arith) 5 stored_at

scpiheap_free-undone_example :
    TakenBack near_end
      (strnlen info 9 + 1)
      (scpiheap_free (scpiheap_strndup near_end (some info) 9).1 (some 5) true)
scpiheap_free-undone_example =
    scpiheap_free-undone near_end info 9 near_end-IsHeap (omega arith) 5 stored_at

scpiheap_strndup-IsHeap_example : IsHeap (scpiheap_strndup near_end (some info) 9).1
scpiheap_strndup-IsHeap_example = scpiheap_strndup-IsHeap near_end info 9 near_end-IsHeap
