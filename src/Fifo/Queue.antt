-- ===== src/Fifo/Queue.antt =====
-- The contract of the error queue: a list of errors, oldest first, with room for `size` of them.
-- `scpi_error_t` is that of a build with USE_DEVICE_DEPENDENT_ERROR_INFORMATION (libscpi/inc/scpi/types.h).
use scpi_parser.Base.{
  ℕ, Bool, true, false, Option, none, some, List, [], ◌∷◌, ◌++◌, ltb, if◌then◌else◌, length, ℤ, pos,
  Bytes,
}

-- The text is by value: `none` is a null pointer.
pub record Error : Type 0 where
  pub error_code : ℤ
  pub device_dependent_info : Option Bytes

abbrev pub no_error : Error
no_error = record { error_code = pos 0; device_dependent_info = none }

abbrev pub Queue : Type 0
Queue = List Error

-- The queue without its newest error, and that error.
unfoldable pub unsnoc : Error → Queue → Error × Queue
unsnoc e [] = (e, [])
unsnoc e (d ∷ q) = let (last, rest) = unsnoc d q in (last, e ∷ rest)

pub data Op : Type 0 where
  add : Error → Op
  remove remove_last clear : Op

unfoldable pub take_first : Queue → Option Error × Queue
take_first [] = (none, [])
take_first (e ∷ q) = (some e, q)

unfoldable pub take_last : Queue → Option Error × Queue
unfolding unsnoc
take_last [] = (none, [])
take_last (e ∷ q) = let (last, rest) = unsnoc e q in (some last, rest)

abbrev pub is_some : Option Error → Bool
is_some none = false
is_some (some e) = true

-- One call: whether it succeeded, the error that it hands out, and the queue after it.
unfoldable pub apply : ℕ → Op → Queue → Bool × Option Error × Queue
apply size (add e) q = if ltb (length q) size then (true, none, q ++ e ∷ []) else (false, none, q)
apply size remove q = let (e, q') = take_first q in (is_some e, e, q')
apply size remove_last q = let (e, q') = take_last q in (is_some e, e, q')
apply size clear q = (true, none, [])

-- What a client sees of a sequence of calls: of each call, whether it succeeded, the error that
-- it hands out, and the number of errors then waiting.
unfoldable pub replies : ℕ → List Op → Queue → List (Bool × Option Error × ℕ)
replies size [] q = []
replies size (op ∷ ops) q =
    let (done, out, q') = apply size op q in (done, out, length q') ∷ replies size ops q'
