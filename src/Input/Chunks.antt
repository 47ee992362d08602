-- ===== src/Input/Chunks.antt =====
-- libscpi/src/parser.c: SCPI_Input given a message in pieces.
use scpi_parser.Base.{
  ℕ, zero, suc, ◌+◌, ◌-◌, ◌<◌, ◌≤◌, ◌≡◌, refl, sym, ap, ap₂, ◌∙◌, inl, inr, Bool, true, false,
  Bool-cases, ◌&&◌, List, [], ◌∷◌, ◌++◌, append_assoc, leb, ltb, length, length-append, take, drop,
  Bytes, ℤ, arith,
}
use scpi_parser.Dispatch.Copy.{
  length-copy_to, drop-copy_to_beyond, take-copy_to, take-copy_to_behind,
}
use scpi_parser.Lexer.Munch.{all, and-true}
use scpi_parser.Message.LineEnd.{is_inline, detect_program_message_unit-inline}
use scpi_parser.Message.{ProgramUnit, is_nl, is_unknown}
use scpi_parser.Session.{Session, Command, InputBuffer, copy_to}
use scpi_parser.Input.Bounds.{HasRoom, append_input-HasRoom}
use scpi_parser.Input.{is_none, unit_at, take_units, taken_or, append_input, scpi_input}

-- What waits in the buffer.
abbrev pub waiting : InputBuffer → Bytes
waiting b = take b.position b.bytes

inline_nil : (k : ℕ) → all is_inline (take k []) ≡ true
inline_nil zero = refl
inline_nil (suc k) = refl

suc_plus : (m n : ℕ) → suc m + n ≡ suc (m + n)
suc_plus m n = omega arith

zero_plus : (n : ℕ) → n ≡ 0 + n
zero_plus n = omega arith

inline_part :
    (n k : ℕ) (xs : Bytes)
    → all is_inline (take (n + k) xs) ≡ true
    → all is_inline (take k (drop n xs)) ≡ true
inline_part zero k xs h = ap (λ j. all is_inline (take j xs)) (zero_plus k) ∙ h
inline_part (suc n) k [] h = inline_nil k
inline_part (suc n) k (x ∷ xs) h =
    inline_part n k xs
      (and-true (is_inline x) _
        (ap (λ j. all is_inline (take j (x ∷ xs))) (sym (suc_plus n k)) ∙ h)).1

-- No unit of what waits ends a line, if what waits has none.
unit_at-inline :
    (total : ℕ) (b : InputBuffer)
    → total ≤ b.position
    → all is_inline (waiting b) ≡ true
    → is_nl (unit_at total b).termination ≡ false
unit_at-inline total b l h =
    detect_program_message_unit-inline (take (b.position - total) (drop total b.bytes)) (
      inline_part total (b.position - total) b.bytes
        (ap (λ j. all is_inline (take j b.bytes)) whole ∙ h))
  where
    whole : total + (b.position - total) ≡ b.position
    whole = omega arith

module _ (strtol : Bytes → ℕ × ℤ) (cmds : List Command) where
  -- Without a line end, the loop changes nothing.
  take_units-inline :
      (fuel total : ℕ) (result : Bool) (s : Session)
      → total ≤ s.buffer.position
      → all is_inline (waiting s.buffer) ≡ true
      → taken_or (result, s) (take_units fuel strtol cmds total result s) ≡ (result, s)
  unfolding take_units
  take_units-inline zero total result s l h = refl
  take_units-inline (suc fuel) total result s l h =
      rw (unit_at-inline total s.buffer l h)
        (elim (Bool-cases (is_unknown u.header.type && is_none u.termination)) [
          | inl k ↦ rw k refl
          | inr k ↦ elim (Bool-cases (leb s.buffer.position (total + u.result))) [
            | inl m ↦ rw (k, m) refl
            | inr m ↦
                rw (k, m) (take_units-inline fuel (total + u.result) result s (ground arith) h)
          ]
        ])
    where
      u : ProgramUnit
      u = unit_at total s.buffer

module _ (p : ℕ) (a b memory : Bytes) (fits : p + length a + length b < length memory) where
  -- Two pieces behind each other are one piece.
  copy_to-copy_to : copy_to (p + length a) b (copy_to p a memory) ≡ copy_to p (a ++ b) memory
  copy_to-copy_to =
      ap₂ (λ t d. t ++ b ++ d) (take-copy_to_behind p a memory (omega arith))
        (drop-copy_to_beyond p a memory (omega arith) (p + length a + length b) (omega arith))
      ∙ ap (λ l. l ++ drop (p + length a + length b) memory) (append_assoc (take p memory) a b)
      ∙ ap (λ k. take p memory ++ (a ++ b) ++ drop k memory) both
    where
      both : p + length a + length b ≡ p + length (a ++ b)
      both = omega (arith, length-append a b)

-- The zero is overwritten by the next piece.
copy_to-zero :
    (q : ℕ) (b memory : Bytes)
    → q + length b ≤ length memory
    → 0 < length b
    → copy_to q b (copy_to q (0 ∷ []) memory) ≡ copy_to q b memory
copy_to-zero q b memory f h =
    ap₂ (λ t d. t ++ b ++ d) (take-copy_to q (0 ∷ []) memory (omega arith))
      (drop-copy_to_beyond q (0 ∷ []) memory (omega arith) (q + length b) (omega arith))

append_input-append :
    (a b : Bytes) (s : InputBuffer)
    → 0 < length b
    → s.position + length a + length b < length s.bytes
    → append_input b (append_input a s) ≡ append_input (a ++ b) s
append_input-append a b s h f =
    rw
      (
        copy_to-zero (s.position + length a) b (copy_to s.position a s.bytes)
            (omega (arith, length-copy_to s.position a s.bytes (omega arith))) h,
        copy_to-copy_to s.position a b s.bytes f,
        both,
      )
      refl
  where
    both : s.position + length a + length b ≡ s.position + length (a ++ b)
    both = omega (arith, length-append a b)

waiting-append_input :
    (a : Bytes) (s : InputBuffer)
    → s.position + length a < length s.bytes
    → waiting (append_input a s) ≡ waiting s ++ a
waiting-append_input a s f =
    take-copy_to (s.position + length a) (0 ∷ []) (copy_to s.position a s.bytes)
      (omega (arith, length-copy_to s.position a s.bytes (omega arith)))
    ∙ take-copy_to_behind s.position a s.bytes (omega arith)

all-append :
    (xs ys : Bytes)
    → all is_inline xs ≡ true
    → all is_inline ys ≡ true
    → all is_inline (xs ++ ys) ≡ true
all-append [] ys h k = k
all-append (x ∷ xs) ys h k =
    rw ((and-true (is_inline x) _ h).0) (all-append xs ys (and-true (is_inline x) _ h).1 k)

module _ (strtol : Bytes → ℕ × ℤ) (cmds : List Command) where
  -- SCPI_Input where the bytes fit.
  abbrev input_buffer : Session → InputBuffer → Bool × Session
  input_buffer s b =
      taken_or (true, record s { buffer = b })
        (take_units (suc b.position + 1) strtol cmds 0 true (record s { buffer = b }))

  scpi_input-fits :
      (bytes : Bytes) (s : Session)
      → 0 < length bytes
      → s.buffer.position + length bytes < length s.buffer.bytes
      → scpi_input strtol cmds bytes s ≡ input_buffer s (append_input bytes s.buffer)
  unfolding scpi_input
  scpi_input-fits [] s h f = absurd (omega arith)
  scpi_input-fits (b ∷ bytes) s h f = rw (fits) refl
    where
      fits : ltb (length s.buffer.bytes - s.buffer.position - 1) (length (b ∷ bytes)) ≡ false
      fits = ground arith

  -- Bytes that arrive in two pieces have the effect of the same bytes at once, on the session and on
  -- the result, if the first piece and what waits in the buffer hold no line end and all fits into
  -- the buffer, whatever the handlers do.
  pub scpi_input-append :
      (n : ℕ) (a b : Bytes) (s : Session)
      → HasRoom n s
      → 0 < length a
      → 0 < length b
      → s.buffer.position + length a + length b < n
      → all is_inline (waiting s.buffer) ≡ true
      → all is_inline a ≡ true
      → scpi_input strtol cmds b (scpi_input strtol cmds a s).1 ≡ scpi_input strtol cmds (a ++ b) s
  scpi_input-append n a b s h i j f w v =
      ap (λ r. scpi_input strtol cmds b r.1) first
      ∙ scpi_input-fits b after j (omega (arith, size, length-after))
      ∙ ap (input_buffer s) (append_input-append a b s.buffer j (omega (arith, size)))
      ∙ sym (
          scpi_input-fits (a ++ b) s (omega (arith, length-append a b))
            (omega (arith, size, length-append a b)))
    where
      size : length s.buffer.bytes ≡ n
      size = h.size_eq

      after : Session
      after = record s { buffer = append_input a s.buffer }

      length-after : length after.buffer.bytes ≡ n
      length-after = (append_input-HasRoom a s h (omega arith)).size_eq

      first : scpi_input strtol cmds a s ≡ (true, after)
      first =
          scpi_input-fits a s i (omega (arith, size))
          ∙ take_units-inline strtol cmds (suc after.buffer.position + 1) 0 true after (omega arith)
              (ap (all is_inline) (waiting-append_input a s.buffer (omega (arith, size)))
                ∙ all-append (waiting s.buffer) a w v)
