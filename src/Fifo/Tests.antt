-- ===== src/Fifo/Tests.antt =====
-- The run of libscpi/test/test_fifo.c on a ring of four errors, and instances of the theorems.
use scpi_parser.Base.{
  ℕ, ◌≡◌, refl, Bool, true, false, Option, none, some, List, [], ◌∷◌, arith, pos,
}
use scpi_parser.Fifo.Queue
use scpi_parser.Fifo.Queue.{Error, no_error, Op, add, remove, remove_last, clear}
use scpi_parser.Fifo.Valid.{IsValid, fifo_init-IsValid}
use scpi_parser.Fifo.Refine.{contents, call, replies, replies_refine}
use scpi_parser.Fifo.{
  Fifo, fifo_init, fifo_add, fifo_remove, fifo_remove_last, fifo_clear, fifo_count,
}

abbrev coded : ℕ → Error
coded n = record { error_code = pos n; device_dependent_info = none }

abbrev ring : Fifo
ring = fifo_init (no_error ∷ no_error ∷ no_error ∷ no_error ∷ []) 4

abbrev script : List Op
script =
    add (coded 1)
    ∷ add (coded 2)
    ∷ add (coded 3)
    ∷ add (coded 4)
    ∷ add (coded 5)
    ∷ remove_last
    ∷ add (coded 6)
    ∷ remove
    ∷ add (coded 7)
    ∷ remove
    ∷ remove
    ∷ add (coded 10)
    ∷ remove_last
    ∷ clear
    ∷ remove
    ∷ []

abbrev added : ℕ → Bool × Option Error × ℕ
added n = (true, none, n)

abbrev removed : ℕ → ℕ → Bool × Option Error × ℕ
removed e n = (true, some (coded e), n)

replies-ring :
    replies script ring
    ≡ added 1
      ∷ added 2
      ∷ added 3
      ∷ added 4
      ∷ (false, none, 4)
      ∷ removed 4 3
      ∷ added 4
      ∷ removed 1 3
      ∷ added 4
      ∷ removed 2 3
      ∷ removed 3 2
      ∷ added 3
      ∷ removed 10 2
      ∷ added 0
      ∷ (false, none, 0)
      ∷ []
unfolding replies call fifo_init fifo_add fifo_remove fifo_remove_last fifo_clear fifo_count
replies-ring = refl

ring-IsValid : IsValid ring
ring-IsValid = fifo_init-IsValid _ 4 (omega arith) (omega arith) (omega arith)

replies_refine_example : replies script ring ≡ Queue.replies ring.size script (contents ring)
replies_refine_example = replies_refine script ring-IsValid
