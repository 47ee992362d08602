-- ===== src/Dispatch/Copy.antt =====
-- Copies within memory, as `memcpy` and `memmove` make them.
use scpi_parser.Base.{
  ℕ, ◌+◌, ◌-◌, ◌≤◌, ◌≡◌, ◌∙◌, ap, sym, ◌++◌, append_assoc, length, length-append, length-take,
  length-drop, take, take-append, drop, drop-append_at, drop-drop, Bytes, arith,
}
use scpi_parser.Session.{copy_to}

module _ (at : ℕ) (bytes memory : Bytes) (fits : at + length bytes ≤ length memory) where
  length-before : length (take at memory) ≡ at
  length-before = omega (arith, length-take at memory)

  pub drop-copy_to : drop at (copy_to at bytes memory) ≡ bytes ++ drop (at + length bytes) memory
  drop-copy_to =
      ap (drop at) (append_assoc (take at memory) bytes (drop (at + length bytes) memory))
      ∙ drop-append_at at (take at memory) _ length-before

  pub drop-copy_to_behind :
      drop (at + length bytes) (copy_to at bytes memory) ≡ drop (at + length bytes) memory
  drop-copy_to_behind =
      drop-append_at (at + length bytes) (take at memory ++ bytes) _
        (omega (arith, length-append (take at memory) bytes, length-before))

  pub length-copy_to : length (copy_to at bytes memory) ≡ length memory
  length-copy_to = omega (
    arith,
    length-append (take at memory ++ bytes) (drop (at + length bytes) memory),
    length-append (take at memory) bytes,
    length-before,
    length-drop (at + length bytes) memory,
  )

  pub take-copy_to : take at (copy_to at bytes memory) ≡ take at memory
  take-copy_to =
      ap (take at) (append_assoc (take at memory) bytes (drop (at + length bytes) memory))
      ∙ ap (λ k. take k (take at memory ++ (bytes ++ drop (at + length bytes) memory)))
          (sym length-before)
      ∙ take-append (take at memory) _

  pub take-copy_to_behind :
      take (at + length bytes) (copy_to at bytes memory) ≡ take at memory ++ bytes
  take-copy_to_behind =
      ap (λ k. take k (copy_to at bytes memory)) (sym length-both)
      ∙ take-append (take at memory ++ bytes) _
    where
      length-both : length (take at memory ++ bytes) ≡ at + length bytes
      length-both = omega (arith, length-append (take at memory) bytes, length-before)

  pub drop-copy_to_beyond :
      (n : ℕ) → at + length bytes ≤ n → drop n (copy_to at bytes memory) ≡ drop n memory
  drop-copy_to_beyond n l =
      ap (λ k. drop k (copy_to at bytes memory)) further
      ∙ sym (drop-drop (n - (at + length bytes)) (at + length bytes) (copy_to at bytes memory))
      ∙ ap (drop (n - (at + length bytes))) drop-copy_to_behind
      ∙ drop-drop (n - (at + length bytes)) (at + length bytes) memory
      ∙ ap (λ k. drop k memory) (sym further)
    where
      further : n ≡ at + length bytes + (n - (at + length bytes))
      further = omega arith
