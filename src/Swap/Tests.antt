-- ===== src/Swap/Tests.antt =====
-- Tests of the byte swaps.
use scpi_parser.Base.{◌+◌, ◌*◌, ◌/◌, ◌%◌, ◌≡◌, refl, arith}
use scpi_parser.Swap.Halves.{swap16-bytes, swap16-twice}
use scpi_parser.Swap.{swap16, swap32, swap64}

swap16_test : swap16 0x12ab ≡ 0xab12
unfolding swap16
swap16_test = refl

swap32_test : swap32 0x12345678 ≡ 0x78563412
unfolding swap32
swap32_test = refl

swap16-twice_test : swap16 (swap16 0x12ab) ≡ 0x12ab
swap16-twice_test = swap16-twice 0x12ab (omega arith)

swap16-bytes_test : swap16 0x12ab ≡ 0x12ab % 256 * 256 + 0x12ab / 256
swap16-bytes_test = swap16-bytes 0x12ab (omega arith)

swap64_test : swap64 0x0123456789abcdef ≡ 0xefcdab8967452301
unfolding swap64
swap64_test = refl
