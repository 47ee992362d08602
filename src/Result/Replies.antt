-- ===== src/Result/Replies.antt =====
-- libscpi/src/parser.c: handlers that write several results, and the text of each.
use scpi_parser.Base.{
  ℕ, suc, ◌+◌, ◌-◌, ◌≡◌, refl, sym, ap, ap₂, ◌∙◌, Bool, true, false, List, [], ◌∷◌, ◌++◌,
  append-nil, append_assoc, ltb, if◌then◌else◌, length, take, Bytes, arith,
}
use mathlib.Core.Path.{subst}
use scpi_parser.Context.{Context}
use scpi_parser.Format.{
  to_str_base_sign, first_divisor, skip_zeros, put_digits, uint32_to_str_base_sign,
  uint64_to_str_base_sign,
}
use scpi_parser.Lexer.Quoted.Text.{doubled}
use scpi_parser.Result.Output.{
  output, separator, Writes, Writes-append, write_data-Writes, write_delimiter-Writes, Replies,
  Writes-Replies,
}
use scpi_parser.Result.Quote.{write_quoted-Writes, take-strlen-all, length-take-strlen}
use scpi_parser.Result.{
  Written, ◌+=◌, write_data, write_delimiter, count_output, result_characters, base_prefix,
  result_uint32_base_sign, result_uint64_base_sign, result_int32, result_bool, strlen, write_quoted,
  result_text, block_header, result_arbitrary_block, result_arbitrary_block_data,
  result_arbitrary_block_header,
}

-- The results that a handler can write.
pub data Item : Type 0 where
  characters : Bytes → Item
  number_32 number_64 : (val base : ℕ) (sign : Bool) → Item
  truth : Bool → Item
  text : Bytes → Item
  block : Bytes → Item

-- One call, and the calls for several.
abbrev pub write_item : Item → Context → Written
write_item (characters s) = result_characters s
write_item (number_32 val base sign) = result_uint32_base_sign val base sign
write_item (number_64 val base sign) = result_uint64_base_sign val base sign
write_item (truth b) = result_bool b
write_item (text s) = result_text s
write_item (block s) = result_arbitrary_block s

abbrev pub write_items : List Item → Context → Context
write_items [] c = c
write_items (i ∷ is) c = write_items is (write_item i c).1

-- The response data that stands for a result.
abbrev pub quoted : Bytes → Bytes
quoted s = b'"' ∷ doubled b'"' (take (strlen s) s) ++ b'"' ∷ []

abbrev pub rendered : Item → Bytes
rendered (characters s) = s
rendered (number_32 val base sign) = base_prefix base ++ uint32_to_str_base_sign val 33 base sign
rendered (number_64 val base sign) = base_prefix base ++ uint64_to_str_base_sign val 65 base sign
rendered (truth b) = if b then b'1' ∷ [] else b'0' ∷ []
rendered (text s) = quoted s
rendered (block s) = block_header (length s) ++ s

number-Replies :
    (prefix digits : Bytes) (c : Context)
    → Replies c
        (prefix ++ digits)
        (count_output ((write_delimiter c) += write_data prefix += write_data digits)).1
number-Replies prefix digits c =
    Writes-Replies ((write_delimiter c) += write_data prefix += write_data digits) (
      Writes-append (write_delimiter-Writes c)
        (Writes-append (write_data-Writes prefix _) (write_data-Writes digits _)))

text-Replies : (s : Bytes) (c : Context) → Replies c (quoted s) (result_text s c).1
unfolding result_text
text-Replies s c =
    Writes-Replies
      ((write_delimiter c)
        += write_data (b'"' ∷ [])
        += write_quoted (suc (strlen s)) (take (strlen s) s)
        += write_data (b'"' ∷ []))
      (Writes-append (write_delimiter-Writes c) (
        Writes-append (write_data-Writes (b'"' ∷ []) _) (
          Writes-append
            (write_quoted-Writes (suc (strlen s)) (take (strlen s) s) _
              (take-strlen-all s (length s)) (omega (arith, length-take-strlen s (length s))))
            (write_data-Writes (b'"' ∷ []) _))))

not_less : (n : ℕ) → ltb n n ≡ false
not_less n = ground arith

minus_self : (n : ℕ) → n - n ≡ 0
minus_self n = omega arith

-- The context of SCPI_ResultArbitraryBlockData where the block becomes complete.
abbrev completed : Context → Context
completed c = record c { arbitrary_remaining = 0; output_count = c.output_count + 1 }

data-completes :
    (s : Bytes) (c : Context)
    → c.arbitrary_remaining ≡ length s
    → (result_arbitrary_block_data s c).1 ≡ (write_data s (completed c)).1
unfolding result_arbitrary_block_data
data-completes s c h = rw (h, not_less (length s), minus_self (length s)) refl

completed-Replies :
    {c c1 d : Context} {n : ℕ} (h : Bytes) {s : Bytes}
    → Writes (record c { arbitrary_remaining = n }) (separator c.output_count ++ h) c1
    → Writes (completed c1) s d
    → Replies c (h ++ s) d
completed-Replies {c} {c1} {d} {n} h {s} w v = record {
  written =
      v.written
      ∙ ap (λ o. o ++ s) w.written
      ∙ append_assoc (output c.events) (separator c.output_count ++ h) s
      ∙ ap (λ o. output c.events ++ o) (append_assoc (separator c.output_count) h s);
  rest =
      ap (λ (x : Context). record x { arbitrary_remaining = d.arbitrary_remaining }) v.rest
      ∙ ap
          (λ (x : Context). record x {
            output_count = x.output_count + 1;
            arbitrary_remaining = d.arbitrary_remaining;
            events = d.events;
          })
          w.rest;
}

block-Replies :
    (s : Bytes) (c : Context)
    → Replies c (block_header (length s) ++ s) (result_arbitrary_block s c).1
unfolding result_arbitrary_block result_arbitrary_block_header
block-Replies s c =
    rw (data-completes s c1 (ap (λ x. x.arbitrary_remaining) header.rest))
      (completed-Replies (block_header (length s)) header (write_data-Writes s (completed c1)))
  where
    c0 : Context
    c0 = record c { arbitrary_remaining = length s }

    c1 : Context
    c1 = (result_arbitrary_block_header (length s) c).1

    header : Writes c0 (separator c.output_count ++ block_header (length s)) c1
    header =
        Writes-append (write_delimiter-Writes c0) (write_data-Writes (block_header (length s)) _)

one_text : uint32_to_str_base_sign 1 33 10 false ≡ b'1' ∷ []
unfolding uint32_to_str_base_sign to_str_base_sign first_divisor skip_zeros put_digits
one_text = refl

zero_text : uint32_to_str_base_sign 0 33 10 false ≡ b'0' ∷ []
unfolding uint32_to_str_base_sign to_str_base_sign first_divisor skip_zeros put_digits
zero_text = refl

truth_text :
    (b : Bool)
    → base_prefix 10 ++ uint32_to_str_base_sign (if b then 1 else 0) 33 10 false
      ≡ (if b then b'1' ∷ [] else b'0' ∷ [])
unfolding base_prefix
truth_text true = one_text
truth_text false = zero_text

pub write_item-Replies : (i : Item) (c : Context) → Replies c (rendered i) (write_item i c).1
unfolding result_characters result_uint32_base_sign result_uint64_base_sign result_bool
write_item-Replies (characters s) c =
    Writes-Replies ((write_delimiter c) += write_data s)
      (Writes-append (write_delimiter-Writes c) (write_data-Writes s _))
write_item-Replies (number_32 val base sign) c =
    number-Replies (base_prefix base) (uint32_to_str_base_sign val 33 base sign) c
write_item-Replies (number_64 val base sign) c =
    number-Replies (base_prefix base) (uint64_to_str_base_sign val 65 base sign) c
write_item-Replies (truth b) c =
    subst (λ t. Replies c t (result_bool b c).1) (truth_text b)
      (number-Replies (base_prefix 10) (uint32_to_str_base_sign (if b then 1 else 0) 33 10 false) c)
write_item-Replies (text s) c = text-Replies s c
write_item-Replies (block s) c = block-Replies s c

-- Several results, with a comma before each but the first of a command.
abbrev pub joined : ℕ → List Item → Bytes
joined count [] = []
joined count (i ∷ is) = separator count ++ rendered i ++ joined (count + 1) is

pub write_items-joined :
    (is : List Item) (c : Context)
    → (output (write_items is c).events ≡ output c.events ++ joined c.output_count is)
      × ((write_items is c).output_count ≡ c.output_count + length is)
write_items-joined [] c = (sym (append-nil (output c.events)), omega arith)
write_items-joined (i ∷ is) c =
    let rest = write_items-joined is (write_item i c).1 in
    (
      rest.0
          ∙ ap₂ (λ o n. o ++ joined n is) reply.written (ap (λ x. x.output_count) reply.rest)
          ∙ append_assoc (output c.events) (separator c.output_count ++ rendered i)
              (joined (c.output_count + 1) is),
      omega (arith, rest.1, ap (λ x. x.output_count) reply.rest),
    )
  where
    reply : Replies c (rendered i) (write_item i c).1
    reply = write_item-Replies i c

-- An answer of one signed integer.
pub answer-Replies :
    (n : ℕ) (c : Context) → Replies c (uint32_to_str_base_sign n 33 10 true) (result_int32 n c).1
unfolding result_int32 base_prefix
answer-Replies n c = write_item-Replies (number_32 n 10 true) c
