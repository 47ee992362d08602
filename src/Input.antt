-- ===== src/Input.antt =====
-- libscpi/src/parser.c: SCPI_Input, which collects the bytes that an instrument receives until a
-- message is complete.
pub mod Bounds
pub mod Chunks
mod Tests
use scpi_parser.Base.{
  ℕ, zero, suc, ◌+◌, ◌-◌, Bool, true, false, ◌&&◌, Option, none, some, List, [], ◌∷◌, ◌==◌, leb,
  ltb, if◌then◌else◌, length, take, drop, Bytes, ℤ, negsuc,
}
use scpi_parser.Dispatch.{push, scpi_parse}
use scpi_parser.Message.{
  ProgramUnit, Termination, by_none, is_nl, is_unknown, detect_program_message_unit,
}
use scpi_parser.Session.{Session, Command, InputBuffer, copy_to}

abbrev pub is_none : Termination → Bool
is_none by_none = true
is_none _ = false

abbrev pub with_buffer : Bytes → ℕ → Session → Session
with_buffer bytes position s = record s { buffer = record { bytes = bytes; position = position } }

-- The unit at the offset `total` of the buffer.
abbrev pub unit_at : ℕ → InputBuffer → ProgramUnit
unit_at total b = detect_program_message_unit (take (b.position - total) (drop total b.bytes))

-- A message of `total` bytes is complete: it is parsed in place, and what follows moves to the start.
-- The position is that which the handlers leave; where it is less than `total`, which the code
-- counts below zero, nothing moves.
unfoldable pub take_message : (Bytes → ℕ × ℤ) → List Command → ℕ → Session → Bool × Session
take_message strtol cmds total s =
    let (result, bytes, s') = scpi_parse strtol cmds true s.buffer.bytes total s in
    let left = s'.buffer.position - total in
    (result, with_buffer (copy_to 0 (take left (drop total bytes)) bytes) left s')

-- The loop over the units; `none` means that the fuel has run out.
unfoldable pub take_units :
    ℕ → (Bytes → ℕ × ℤ) → List Command → ℕ → Bool → Session → Option (Bool × Session)
take_units zero strtol cmds total result s = none
take_units (suc fuel) strtol cmds total result s =
    let u = unit_at total s.buffer in
    let (result', s') = take_message strtol cmds (total + u.result) s in
    let parsed = take_units fuel strtol cmds 0 result' s' in
    let rest = take_units fuel strtol cmds (total + u.result) result s in
    if is_nl u.termination
    then parsed
    else if is_unknown u.header.type && is_none u.termination
    then some (result, s)
    else if leb s.buffer.position (total + u.result)
    then some (result, s)
    else rest

abbrev pub taken_or : Bool × Session → Option (Bool × Session) → Bool × Session
taken_or r none = r
taken_or r (some r') = r'

-- The bytes are added behind those that wait, with a zero behind them.
abbrev pub append_input : Bytes → InputBuffer → InputBuffer
append_input bytes b = record {
  bytes = copy_to (b.position + length bytes) (0 ∷ []) (copy_to b.position bytes b.bytes);
  position = b.position + length bytes;
}

-- Without bytes, what waits is parsed as it is.
unfoldable pub flush_input : (Bytes → ℕ × ℤ) → List Command → Session → Bool × Session
flush_input strtol cmds s =
    let (result, bytes, s') =
      scpi_parse strtol cmds true (copy_to s.buffer.position (0 ∷ []) s.buffer.bytes)
        s.buffer.position s in
    (result, with_buffer bytes 0 s')

-- The buffer is too small for the bytes and a zero: what waits is lost.
unfoldable pub overrun_input : Session → Session
overrun_input s = push (negsuc 362) (with_buffer (copy_to 0 (0 ∷ []) s.buffer.bytes) 0 s)

unfoldable pub scpi_input : (Bytes → ℕ × ℤ) → List Command → Bytes → Session → Bool × Session
scpi_input strtol cmds [] s = flush_input strtol cmds s
scpi_input strtol cmds (b ∷ bytes) s =
    let room = length s.buffer.bytes - s.buffer.position - 1 in
    let s' = record s { buffer = append_input (b ∷ bytes) s.buffer } in
    if ltb room (length (b ∷ bytes))
    then (false, overrun_input s)
    else taken_or (true, s') (take_units (suc s'.buffer.position + 1) strtol cmds 0 true s')
