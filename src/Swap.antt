-- ===== src/Swap.antt =====
-- libscpi/src/utils.c: the order of the bytes of an integer reversed, for arrays in binary format.
-- A value of `w` bits is below 2 ^ w; no shift drops a bit, since the masks come first.
pub mod Halves
mod Tests
use Prim.Native.Nat.{bit_and, bit_or}
use scpi_parser.Base.{ℕ, ◌*◌, ◌/◌, ◌^◌}

unfoldable pub swap16 : ℕ → ℕ
swap16 val = bit_or (bit_and val 0x00ff * 2 ^ 8) (bit_and val 0xff00 / 2 ^ 8)

unfoldable pub swap32 : ℕ → ℕ
swap32 val =
    bit_or
      (bit_or (bit_or (bit_and val 0x000000ff * 2 ^ 24) (bit_and val 0x0000ff00 * 2 ^ 8))
        (bit_and val 0x00ff0000 / 2 ^ 8))
      (bit_and val 0xff000000 / 2 ^ 24)

unfoldable pub swap64 : ℕ → ℕ
swap64 val =
    bit_or
      (bit_or
        (bit_or
          (bit_or
            (bit_or
              (bit_or
                (bit_or (bit_and val 0x00000000000000ff * 2 ^ 56)
                  (bit_and val 0x000000000000ff00 * 2 ^ 40))
                (bit_and val 0x0000000000ff0000 * 2 ^ 24))
              (bit_and val 0x00000000ff000000 * 2 ^ 8))
            (bit_and val 0x000000ff00000000 / 2 ^ 8))
          (bit_and val 0x0000ff0000000000 / 2 ^ 24))
        (bit_and val 0x00ff000000000000 / 2 ^ 40))
      (bit_and val 0xff00000000000000 / 2 ^ 56)
