-- ===== src/Fifo.antt =====
-- libscpi/src/fifo.c: the ring of errors behind the error queue. Each function that changes
-- `*fifo` returns the new ring; `*value` is part of the result.
pub mod Queue
pub mod Slots
pub mod Valid
pub mod Refine
mod Tests
use scpi_parser.Base.{
  ℕ, ◌+◌, ◌-◌, ◌%◌, Bool, true, false, Option, none, some, List, ◌==◌, if◌then◌else◌, get_or, set,
}
use scpi_parser.Fifo.Queue.{Error, no_error}

-- `scpi_fifo_t`. The fields are `int16_t` and never negative; `slots` is the caller's array `data`.
pub record Fifo : Type 0 where
  pub wr : ℕ
  pub rd : ℕ
  pub count : ℕ
  pub size : ℕ
  pub slots : List Error

unfoldable pub fifo_init : List Error → ℕ → Fifo
fifo_init slots size = record { wr = 0; rd = 0; count = 0; size = size; slots = slots }

pub fifo_clear : Fifo → Fifo
fifo_clear f = record f { wr = 0; rd = 0; count = 0 }

abbrev pub fifo_is_empty : Fifo → Bool
fifo_is_empty f = f.count == 0

abbrev pub fifo_is_full : Fifo → Bool
fifo_is_full f = f.count == f.size

-- The store of an element once neither guard has returned.
abbrev store : Fifo → Error → Fifo
store f e = record f { slots = set f.slots f.wr e; wr = (f.wr + 1) % f.size; count = f.count + 1 }

-- `none` is a null `value`.
pub fifo_add : Fifo → Option Error → Bool × Fifo
fifo_add f none = (false, f)
fifo_add f (some e) = if fifo_is_full f then (false, f) else (true, store f e)

-- `none` is the result FALSE; otherwise `*value`.
pub fifo_remove : Fifo → Option Error × Fifo
fifo_remove f = if fifo_is_empty f then (none, f) else (
  some (get_or f.slots f.rd no_error),
  record f { rd = (f.rd + 1) % f.size; count = f.count - 1 },
)

abbrev back : Fifo → ℕ
back f = (f.wr + f.size - 1) % f.size

pub fifo_remove_last : Fifo → Option Error × Fifo
fifo_remove_last f =
    if fifo_is_empty f
    then (none, f)
    else (some (get_or f.slots (back f) no_error), record f { wr = back f; count = f.count - 1 })

unfoldable pub fifo_count : Fifo → ℕ
fifo_count f = f.count
