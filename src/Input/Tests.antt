-- ===== src/Input/Tests.antt =====
-- Input in pieces, into a buffer of twelve bytes.
use scpi_parser.Base.{◌≡◌, refl, true, [], ◌∷◌, some, Bool, arith}
use scpi_parser.Dispatch.Tests.{device, table, table-KeepBuffer}
use scpi_parser.Input.{take_units, scpi_input}
use scpi_parser.Input.Bounds.{HasRoom, take_units_enough, scpi_input-HasRoom}
use scpi_parser.Input.Chunks.{scpi_input-append}
use scpi_parser.Match.Tests.{strtol}
use scpi_parser.Session.{Session}

device-HasRoom : HasRoom 12 device
device-HasRoom = record { size_eq = refl; fits = omega arith }

-- `A:B?` with a line end, and the start of the next message
abbrev with_message : Session
with_message = record device {
  buffer = record {
    bytes = b'A' ∷ b':' ∷ b'B' ∷ b'?' ∷ b'\n' ∷ b'D' ∷ 0 ∷ 0 ∷ 0 ∷ 0 ∷ 0 ∷ 0 ∷ [];
    position = 6;
  };
}

with_message-HasRoom : HasRoom 12 with_message
with_message-HasRoom = record { size_eq = refl; fits = omega arith }

take_units_enough_example :
    (r : Bool × Session) × (take_units 7 strtol table 0 true with_message ≡ some r) × HasRoom 12 r.1
take_units_enough_example =
    take_units_enough strtol table table-KeepBuffer 12 7 0 true with_message with_message-HasRoom
      (omega arith) (omega arith)

scpi_input-HasRoom_example : HasRoom 12 (scpi_input strtol table (b'D' ∷ b'\n' ∷ []) with_message).1
scpi_input-HasRoom_example =
    scpi_input-HasRoom strtol table table-KeepBuffer 12 (b'D' ∷ b'\n' ∷ []) with_message
      with_message-HasRoom

scpi_input-append_example :
    scpi_input strtol table
      (b':' ∷ b'B' ∷ b'?' ∷ b'\n' ∷ [])
      (scpi_input strtol table (b'A' ∷ []) device).1
    ≡ scpi_input strtol table (b'A' ∷ b':' ∷ b'B' ∷ b'?' ∷ b'\n' ∷ []) device
scpi_input-append_example =
    scpi_input-append strtol table 12 (b'A' ∷ []) (b':' ∷ b'B' ∷ b'?' ∷ b'\n' ∷ []) device
      device-HasRoom (omega arith) (omega arith) (omega arith) refl refl
