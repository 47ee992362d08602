-- ===== src/Base/Text.antt =====
-- Literals as bytes.
use Prim.Native.Char.{code}
use Prim.Native.String.{String}
use mathlib.Core.List.{List}
use scpi_parser.Base.Lists.{Bytes}

-- The characters of a text, by their codes.
abbrev pub text_bytes : String → Bytes
text_bytes String.[] = List.[]
text_bytes (String.◌∷◌ c s) = List.◌∷◌ (code c) (text_bytes s)
