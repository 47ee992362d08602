-- ===== src/Input/Bounds.antt =====
-- libscpi/src/parser.c: the input buffer of SCPI_Input, and its loop over the units.
use scpi_parser.Base.{
  ℕ, zero, suc, ◌+◌, ◌-◌, ◌<◌, ◌≤◌, ◌≡◌, refl, ap, ap₂, ◌∙◌, inl, inr, Bool, true, false,
  Bool-cases, some, ◌&&◌, List, [], ◌∷◌, ◌==◌, ==_iff, leb, ltb, length, length-take, length-drop,
  take, drop, Bytes, ℤ, arith,
}
use scpi_parser.Dispatch.{scpi_parse}
use scpi_parser.Dispatch.Buffer.{KeepBuffer, position-scpi_parse}
use scpi_parser.Dispatch.Copy.{length-copy_to}
use scpi_parser.Dispatch.Enough.{length-scpi_parse}
use scpi_parser.Message.{ProgramUnit, is_nl, is_unknown, detect_program_message_unit}
use scpi_parser.Message.Empty.{detect_program_message_unit-nil}
use scpi_parser.Message.Progress.{detect_program_message_unit-progress}
use scpi_parser.Session.{Session, Command, copy_to}
use scpi_parser.Input.{
  is_none, unit_at, take_message, take_units, append_input, flush_input, overrun_input, scpi_input,
}

-- The buffer has its size, and room for a zero behind the bytes that wait.
pub record HasRoom (size : ℕ) (s : Session) : Type 0 where
  pub size_eq : length s.buffer.bytes ≡ size
  pub fits : s.buffer.position < size

pub append_input-HasRoom :
    {n : ℕ} (bytes : Bytes) (s : Session)
    → HasRoom n s
    → s.buffer.position + length bytes < n
    → HasRoom n (record s { buffer = append_input bytes s.buffer })
append_input-HasRoom {n} bytes s h l = record {
  size_eq =
      length-copy_to (s.buffer.position + length bytes) (0 ∷ []) added (omega (arith, kept)) ∙ kept;
  fits = omega arith;
}
  where
    added : Bytes
    added = copy_to s.buffer.position bytes s.buffer.bytes

    kept : length added ≡ n
    kept =
        length-copy_to s.buffer.position bytes s.buffer.bytes (omega (arith, h.size_eq)) ∙ h.size_eq

module _ (strtol : Bytes → ℕ × ℤ) (cmds : List Command) (k : KeepBuffer cmds) where
  length-left :
      {n : ℕ} (s : Session) (total : ℕ)
      → HasRoom n s
      → length (take (s.buffer.position - total) (drop total s.buffer.bytes))
        ≡ s.buffer.position - total
  length-left s total h = omega (
    arith,
    h.size_eq,
    h.fits,
    length-take (s.buffer.position - total) (drop total s.buffer.bytes),
    length-drop total s.buffer.bytes,
  )

  take_message-HasRoom :
      {n : ℕ} (total : ℕ) (s : Session)
      → HasRoom n s
      → total ≤ s.buffer.position
      → HasRoom n (take_message strtol cmds total s).1
        × ((take_message strtol cmds total s).1.buffer.position ≡ s.buffer.position - total)
  unfolding take_message
  take_message-HasRoom {n} total s h l = (
    record {
      size_eq = length-copy_to 0 moved parsed (omega (arith, kept, h.fits, length-moved)) ∙ kept;
      fits = omega (arith, h.fits, same_position);
    },
    omega (arith, same_position),
  )
    where
      parsed : Bytes
      parsed = (scpi_parse strtol cmds true s.buffer.bytes total s).1

      handled : Session
      handled = (scpi_parse strtol cmds true s.buffer.bytes total s).2

      same_position : handled.buffer.position ≡ s.buffer.position
      same_position = position-scpi_parse strtol cmds k true s.buffer.bytes total s

      moved : Bytes
      moved = take (handled.buffer.position - total) (drop total parsed)

      kept : length parsed ≡ n
      kept =
          length-scpi_parse strtol cmds true s.buffer.bytes total s
            (omega (arith, h.size_eq, h.fits)) k
          ∙ h.size_eq

      length-moved : length moved ≤ s.buffer.position - total
      length-moved =
          omega (
            arith,
            same_position,
            length-take (handled.buffer.position - total) (drop total parsed),
          )

  -- A unit takes a byte at least, and what waits at most.
  unit_at-progress :
      {n : ℕ} (total : ℕ) (s : Session)
      → HasRoom n s
      → total < s.buffer.position
      → (0 < (unit_at total s.buffer).result)
        × (total + (unit_at total s.buffer).result ≤ s.buffer.position)
  unit_at-progress total s h l =
      let (a, b) =
        detect_program_message_unit-progress
          (take (s.buffer.position - total) (drop total s.buffer.bytes))
          (omega (arith, length-left s total h)) in
      (a, omega (arith, b, length-left s total h))

  -- With nothing left, the loop sees the unit of nothing.
  nothing_left :
      (total : ℕ) (s : Session)
      → (total == s.buffer.position) ≡ true
      → (is_nl (unit_at total s.buffer).termination ≡ false)
        × ((is_unknown (unit_at total s.buffer).header.type
              && is_none (unit_at total s.buffer).termination)
            ≡ true)
  nothing_left total s z = (
    ap (λ v. is_nl v.termination) empty ∙ ap is_nl detect_program_message_unit-nil.2,
    ap (λ v. is_unknown v.header.type && is_none v.termination) empty
        ∙ ap₂ (λ a b. is_unknown a && is_none b) detect_program_message_unit-nil.1
            detect_program_message_unit-nil.2,
  )
    where
      none_left : s.buffer.position - total ≡ 0
      none_left = omega (arith, (==_iff total s.buffer.position).0 z)

      empty : unit_at total s.buffer ≡ detect_program_message_unit []
      empty = ap (λ k. detect_program_message_unit (take k (drop total s.buffer.bytes))) none_left

  -- The loop of SCPI_Input ends within as many rounds as bytes are left, and one more, with a result,
  -- and the buffer has its size and room for a zero, if the handlers leave its size and position.
  pub take_units_enough :
      (n fuel total : ℕ) (result : Bool) (s : Session)
      → HasRoom n s
      → total ≤ s.buffer.position
      → s.buffer.position - total < fuel
      → (r : Bool × Session) × (take_units fuel strtol cmds total result s ≡ some r) × HasRoom n r.1
  unfolding take_units
  take_units_enough n zero total result s h l f = absurd (omega arith)
  take_units_enough n (suc fuel) total result s h l f =
      elim (Bool-cases (total == s.buffer.position)) [
        | inl z ↦ rw ((nothing_left total s z).0, (nothing_left total s z).1) ((result, s), refl, h)
        | inr z ↦
            let (some_taken, at_most) = unit_at-progress total s h (ground arith) in
            elim (Bool-cases (is_nl u.termination)) [
              | inl e ↦
                  let (room, position_eq) = take_message-HasRoom (total + u.result) s h at_most in
                  rw e (
                    take_units_enough n fuel 0 (take_message strtol cmds (total + u.result) s).0
                      (take_message strtol cmds (total + u.result) s).1 room (omega arith)
                      (omega (arith, position_eq, some_taken, at_most)))
              | inr e ↦ elim (Bool-cases (is_unknown u.header.type && is_none u.termination)) [
                | inl k ↦ rw (e, k) ((result, s), refl, h)
                | inr k ↦ elim (Bool-cases (leb s.buffer.position (total + u.result))) [
                  | inl m ↦ rw (e, k, m) ((result, s), refl, h)
                  | inr m ↦
                      rw (e, k, m)
                        (take_units_enough n fuel (total + u.result) result s h at_most
                          (omega (arith, some_taken, at_most)))
                ]
              ]
            ]
      ]
    where
      u : ProgramUnit
      u = unit_at total s.buffer

  flush_input-HasRoom :
      {n : ℕ} (s : Session) → HasRoom n s → HasRoom n (flush_input strtol cmds s).1
  unfolding flush_input
  flush_input-HasRoom {n} s h = record {
    size_eq =
        length-scpi_parse strtol cmds true ended s.buffer.position s (omega (arith, kept, h.fits)) k
        ∙ kept;
    fits = omega (arith, h.fits);
  }
    where
      ended : Bytes
      ended = copy_to s.buffer.position (0 ∷ []) s.buffer.bytes

      kept : length ended ≡ n
      kept =
          length-copy_to s.buffer.position (0 ∷ []) s.buffer.bytes
            (omega (arith, h.size_eq, h.fits))
          ∙ h.size_eq

  overrun_input-HasRoom : {n : ℕ} (s : Session) → HasRoom n s → HasRoom n (overrun_input s)
  unfolding overrun_input
  overrun_input-HasRoom s h = record {
    size_eq =
        length-copy_to 0 (0 ∷ []) s.buffer.bytes (omega (arith, h.size_eq, h.fits)) ∙ h.size_eq;
    fits = omega (arith, h.fits);
  }

  -- Whatever SCPI_Input is given, the input buffer keeps its size and room for a zero behind the bytes
  -- that wait, if the handlers, which may write into the buffer, leave its size and position.
  pub scpi_input-HasRoom :
      (n : ℕ) (bytes : Bytes) (s : Session)
      → HasRoom n s
      → HasRoom n (scpi_input strtol cmds bytes s).1
  unfolding scpi_input
  scpi_input-HasRoom n [] s h = flush_input-HasRoom s h
  scpi_input-HasRoom n (b ∷ bytes) s h =
      elim (Bool-cases (ltb (length s.buffer.bytes - s.buffer.position - 1) (length (b ∷ bytes)))) [
        | inl e ↦ rw e (overrun_input-HasRoom s h)
        | inr e ↦
            let room = append_input-HasRoom (b ∷ bytes) s h (ground (arith, h.size_eq, h.fits)) in
            let (r, found, kept) =
              take_units_enough n (suc (s.buffer.position + length (b ∷ bytes)) + 1) 0 true
                (record s { buffer = append_input (b ∷ bytes) s.buffer }) room (omega arith)
                (omega arith) in
            rw (e, found) kept
      ]
