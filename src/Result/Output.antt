-- ===== src/Result/Output.antt =====
-- libscpi/src/parser.c: the bytes that reach the output when results are written.
use scpi_parser.Base.{
  ℕ, suc, ◌+◌, ◌≡◌, refl, sym, ap, ◌∙◌, inl, inr, true, Bool-cases, List, [], ◌∷◌, ◌++◌, append-nil,
  append_assoc, ltb, if◌then◌else◌, length, Bytes, arith,
}
use scpi_parser.Context.{Context, Event, wrote, service_request, error_reported, flushed, was_reset}
use scpi_parser.Result.{Written, write_data, write_delimiter, count_output}

-- What the calls of `write` gave to the output.
abbrev pub output : List Event → Bytes
output [] = []
output (wrote bytes ∷ es) = bytes ++ output es
output (_ ∷ es) = output es

pub output-append : (es fs : List Event) → output (es ++ fs) ≡ output es ++ output fs
output-append [] fs = refl
output-append (wrote bytes ∷ es) fs =
    ap (λ o. bytes ++ o) (output-append es fs) ∙ sym (append_assoc bytes (output es) (output fs))
output-append (service_request v ∷ es) fs = output-append es fs
output-append (error_reported e ∷ es) fs = output-append es fs
output-append (flushed ∷ es) fs = output-append es fs
output-append (was_reset ∷ es) fs = output-append es fs

-- Between the contexts `text` is written, and nothing else happens.
pub record Writes (c : Context) (text : Bytes) (d : Context) : Type 0 where
  pub written : output d.events ≡ output c.events ++ text
  pub rest : d ≡ record c { events = d.events }

pub Writes-nil : (c : Context) → Writes c [] c
Writes-nil c = record { written = sym (append-nil (output c.events)); rest = refl }

pub Writes-append :
    {c d e : Context} {s t : Bytes} → Writes c s d → Writes d t e → Writes c (s ++ t) e
Writes-append {c} {d} {e} {s} {t} a b = record {
  written = b.written ∙ ap (λ o. o ++ t) a.written ∙ append_assoc (output c.events) s t;
  rest = b.rest ∙ ap (λ (x : Context). record x { events = e.events }) a.rest;
}

pub write_data-Writes : (bytes : Bytes) (c : Context) → Writes c bytes (write_data bytes c).1
unfolding write_data
write_data-Writes [] c = Writes-nil c
write_data-Writes (b ∷ bytes) c = rw (pos_length) (record {
  written =
      output-append c.events (wrote (b ∷ bytes) ∷ [])
      ∙ ap (λ o. output c.events ++ o) (append-nil (b ∷ bytes));
  rest = refl;
})
  where
    pos_length : ltb 0 (suc (length bytes)) ≡ true
    pos_length = ground arith

-- What separates a result from those before it.
abbrev pub separator : ℕ → Bytes
separator count = if ltb 0 count then b',' ∷ [] else []

pub write_delimiter-Writes :
    (c : Context) → Writes c (separator c.output_count) (write_delimiter c).1
unfolding write_delimiter
write_delimiter-Writes c = elim (Bool-cases (ltb 0 c.output_count)) [
  | inl h ↦ rw h (write_data-Writes (b',' ∷ []) c)
  | inr h ↦ rw h (Writes-nil c)
]

-- Between the contexts one result is written, and counted.
pub record Replies (c : Context) (text : Bytes) (d : Context) : Type 0 where
  pub written : output d.events ≡ output c.events ++ (separator c.output_count ++ text)
  pub rest : d ≡ record c {
    output_count = c.output_count + 1;
    arbitrary_remaining = d.arbitrary_remaining;
    events = d.events;
  }

pub Writes-Replies :
    {c : Context} {text : Bytes} (r : Written)
    → Writes c (separator c.output_count ++ text) r.1
    → Replies c text (count_output r).1
Writes-Replies {c} {text} r w = record {
  written = w.written;
  rest =
      ap
        (λ (x : Context). record x {
          output_count = x.output_count + 1;
          arbitrary_remaining = r.1.arbitrary_remaining;
        })
        w.rest;
}
