-- ===== src/Report.antt =====
-- libscpi/src/parser.c and libscpi/src/minimal.c: SCPI_ResultError and SYSTem:ERRor[:NEXT]?, with
-- SCPI_ErrorTranslate of libscpi/src/error.c.
mod Table
pub mod Limit
mod Tests
use scpi_parser.Base.{
  ℕ, zero, suc, ◌+◌, ◌-◌, Bool, true, false, Option, none, some, List, [], ◌∷◌, ◌==◌, leb, ltb,
  if◌then◌else◌, length, take, drop, Bytes, ℤ, eqb_ℤ, text_bytes, min,
}
use scpi_parser.Context.{Context}
use scpi_parser.ErrorQueue.{error_pop, free, max_string_length}
use scpi_parser.Fifo.Queue.{Error}
use scpi_parser.Param.{wrap}
use scpi_parser.Pattern.{strnpbrk}
use scpi_parser.Report.Table.{ErrorText, list_of_errors}
use scpi_parser.Result.{
  Written, ◌+=◌, write_data, write_delimiter, write_semicolon, result_int32, strlen,
}
use scpi_parser.Session.{Handler, on_context}

-- The `switch`.
unfoldable pub translate : List ErrorText → ℤ → Bytes
translate [] code = text_bytes "Unknown error"
translate (r ∷ rows) code =
    let rest = translate rows code in if eqb_ℤ r.error_code code then r.description else rest

unfoldable pub error_translate : ℤ → Bytes
error_translate = translate list_of_errors

-- What a loop has written, and what is left of `outputlimit`.
pub record Limited : Type 0 where
  pub written : Written
  pub outputlimit : ℕ

-- `if (len[i] > outputlimit) len[i] = outputlimit;`
abbrev pub capped : ℕ → Bytes → Bytes
capped limit part = take limit part

-- The end of a part: what is left of it is written.
abbrev pub write_rest : Bytes → ℕ → Context → Limited
write_rest part limit c = record { written = write_data part c; outputlimit = limit - length part }

-- A part, no longer than the limit, with its quotes doubled; with the fuel, one round more than it
-- has characters, nothing is left out.
unfoldable pub write_part : ℕ → Bytes → ℕ → Context → Limited
write_part zero part limit c = record { written = (0, c); outputlimit = limit }
write_part (suc fuel) part limit c = elim (strnpbrk part (length part) (b'"' ∷ [])) [
  | none ↦ write_rest part limit c
  | some i ↦ elim (leb limit (i + 1)) [
    | true ↦ write_rest (take (length part - 1) part) (limit - 1) c
    | false ↦
        let w = write_data (take (i + 1) part) c += write_data (b'"' ∷ []) in
        let limit' = limit - (i + 1 + 1) in
        let r = write_part fuel (capped limit' (drop (i + 1) part)) limit' w.1 in
        record { written = (w.0 + r.written.0, r.written.1); outputlimit = r.outputlimit }
  ]
]

abbrev pub part_of : Bytes → ℕ → Context → Limited
part_of text limit c =
    write_part (suc (length text)) (capped limit (take (strlen text) text)) limit c

-- The second part, if there is one and the limit is not reached.
abbrev pub write_info : Option Bytes → ℕ → Context → Written
write_info none limit c = (0, c)
write_info (some info) limit c =
    let w = write_semicolon c in
    let r = part_of info (limit - 1) w.1 in
    if limit == 0 then (0, c) else (w.0 + r.written.0, r.written.1)

abbrev pub write_description : Error → Context → Written
write_description e c =
    let r = part_of (error_translate e.error_code) max_string_length c in
    let w = write_info e.device_dependent_info r.outputlimit r.written.1 in (r.written.0 + w.0, w.1)

unfoldable pub result_error : Error → Context → Written
result_error e c =
    result_int32 (wrap 32 e.error_code) c
    += write_delimiter
    += write_data (b'"' ∷ [])
    += write_description e
    += write_data (b'"' ∷ [])

unfoldable pub system_error_next_q : Handler
system_error_next_q s =
    let (e, c) = error_pop s.context in
    let c' = (result_error e c).1 in
    (true, record s { context = record c' { heap = free e.device_dependent_info c'.heap } })
