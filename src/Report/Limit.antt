-- ===== src/Report/Limit.antt =====
-- libscpi/src/parser.c: the length of the description that SCPI_ResultError writes.
use scpi_parser.Base.{
  ℕ, zero, suc, ◌+◌, ◌-◌, ◌≤◌, ◌≡◌, refl, ap, ap₂, ◌∙◌, inl, inr, true, false, Bool-cases, Option,
  none, some, Option-cases, [], ◌∷◌, ◌++◌, ◌==◌, leb, ltb, length, length-append, length-take, take,
  drop, Bytes, arith,
}
use scpi_parser.Context.{Context}
use scpi_parser.ErrorQueue.{max_string_length}
use scpi_parser.Fifo.Queue.{Error}
use scpi_parser.Pattern.{strnpbrk}
use scpi_parser.Format.{uint32_to_str_base_sign}
use scpi_parser.Param.{wrap}
use scpi_parser.Result.Replies.{answer-Replies}
use scpi_parser.Result.Output.{
  output, separator, Replies, write_delimiter-Writes, Writes, Writes-nil, Writes-append,
  write_data-Writes,
}
use scpi_parser.Result.{◌+=◌, write_data, write_delimiter, write_semicolon, result_int32, strlen}
use scpi_parser.Report.{
  capped, write_rest, write_part, part_of, write_info, write_description, error_translate,
  result_error,
}

-- Text is written, no longer than the limit allows, and the limit is lowered by as much at least.
pub record Within (limit : ℕ) (c d : Context) (left : ℕ) : Type 0 where
  pub text : Bytes
  pub writes : Writes c text d
  pub length_le : length text + left ≤ limit

write_rest-Within :
    (part : Bytes) (limit : ℕ) (c : Context)
    → length part ≤ limit
    → Within limit c (write_rest part limit c).written.1 (write_rest part limit c).outputlimit
write_rest-Within part limit c h = record {
  text = part;
  writes = write_data-Writes part c;
  length_le = omega arith;
}

Within-append : {l m n : ℕ} {c d e : Context} → Within l c d m → Within m d e n → Within l c e n
Within-append a b = record {
  text = a.text ++ b.text;
  writes = Writes-append a.writes b.writes;
  length_le = omega (arith, a.length_le, b.length_le, length-append a.text b.text);
}

Within-less : {l m n : ℕ} {c d : Context} → l ≤ m → Within l c d n → Within m c d n
Within-less h w = record {
  text = w.text;
  writes = w.writes;
  length_le = omega (arith, w.length_le);
}

write_part-Within :
    (fuel : ℕ) (part : Bytes) (limit : ℕ) (c : Context)
    → length part ≤ limit
    → Within limit c
        (write_part fuel part limit c).written.1
        (write_part fuel part limit c).outputlimit
unfolding write_part
write_part-Within zero part limit c h = record {
  text = [];
  writes = Writes-nil c;
  length_le = omega arith;
}
write_part-Within (suc fuel) part limit c h =
    elim (Option-cases (strnpbrk part (length part) (b'"' ∷ []))) [
      | inl e ↦ rw (write_part, e) (write_rest-Within part limit c h)
      | inr (i, e) ↦ elim (Bool-cases (leb limit (i + 1))) [
        | inl k ↦
            rw (write_part, e, k)
              (Within-less {l = limit - 1} (omega arith) (
                write_rest-Within (take (length part - 1) part) (limit - 1) c
                  (omega (arith, length-take (length part - 1) part))))
        | inr k ↦
            rw (write_part, e, k)
              (Within-append (quote_within i k) (
                write_part-Within fuel (capped (limit - (i + 1 + 1)) (drop (i + 1) part))
                  (limit - (i + 1 + 1)) _
                  (omega (arith, length-take (limit - (i + 1 + 1)) (drop (i + 1) part)))))
      ]
    ]
  where
    quote_within :
        (i : ℕ)
        → leb limit (i + 1) ≡ false
        → Within limit c
            (write_data (take (i + 1) part) c += write_data (b'"' ∷ [])).1
            (limit - (i + 1 + 1))
    quote_within i k = record {
      text = take (i + 1) part ++ b'"' ∷ [];
      writes =
          Writes-append (write_data-Writes (take (i + 1) part) c) (write_data-Writes (b'"' ∷ []) _);
      length_le =
          ground (arith, length-append (take (i + 1) part) (b'"' ∷ []), length-take (i + 1) part);
    }

part_of-Within :
    (text : Bytes) (limit : ℕ) (c : Context)
    → Within limit c (part_of text limit c).written.1 (part_of text limit c).outputlimit
part_of-Within text limit c =
    write_part-Within (suc (length text)) (capped limit (take (strlen text) text)) limit c
      (omega (arith, length-take limit (take (strlen text) text)))

semicolon-Within :
    (limit : ℕ) (c : Context)
    → (limit == 0) ≡ false
    → Within limit c (write_semicolon c).1 (limit - 1)
unfolding write_semicolon
semicolon-Within limit c h = elim (Bool-cases (ltb 0 c.output_count)) [
  | inl e ↦ rw e (record {
    text = b';' ∷ [];
    writes = write_data-Writes (b';' ∷ []) c;
    length_le = ground arith;
  })
  | inr e ↦ rw e (record { text = []; writes = Writes-nil c; length_le = omega arith })
]

nothing-Within : (limit : ℕ) (c : Context) → Within limit c c 0
nothing-Within limit c = record { text = []; writes = Writes-nil c; length_le = omega arith }

write_info-Within :
    (info : Option Bytes) (limit : ℕ) (c : Context) → Within limit c (write_info info limit c).1 0
write_info-Within none limit c = nothing-Within limit c
write_info-Within (some info) limit c = elim (Bool-cases (limit == 0)) [
  | inl e ↦ rw e (nothing-Within limit c)
  | inr e ↦ rw e (
      Within-append (semicolon-Within limit c e)
        (forget (part_of-Within info (limit - 1) (write_semicolon c).1)))
]
  where
    forget : {l n : ℕ} {a b : Context} → Within l a b n → Within l a b 0
    forget w = record { text = w.text; writes = w.writes; length_le = omega (arith, w.length_le) }

write_description-Within :
    (e : Error) (c : Context) → Within max_string_length c (write_description e c).1 0
write_description-Within e c =
    Within-append (part_of-Within (error_translate e.error_code) max_string_length c)
      (write_info-Within e.device_dependent_info _ _)

after_one : (n m : ℕ) → m ≡ n + 1 → separator m ≡ b',' ∷ []
after_one n m h = rw is_pos refl
  where
    is_pos : ltb 0 m ≡ true
    is_pos = ground (arith, h)

-- Whatever the error and the information about it, SCPI_ResultError writes its number as a result, a
-- comma, and a description in double quotes of no more than 255 characters, doubled quotes counted
-- twice.
pub result_error-description :
    (e : Error) (c : Context)
    → (description : Bytes) × (output (result_error e c).1.events
        ≡ output c.events
          ++ (separator c.output_count ++ uint32_to_str_base_sign (wrap 32 e.error_code) 33 10 true)
          ++ (b',' ∷ b'"' ∷ description ++ b'"' ∷ []))
      × (length description ≤ 255)
unfolding result_error
result_error-description e c = (
  text.text,
  all.written
      ∙ ap₂ (λ o s. o ++ (s ++ (b'"' ∷ [] ++ (text.text ++ b'"' ∷ [])))) number.written
          (after_one c.output_count c1.output_count (ap (λ x. x.output_count) number.rest)),
  omega (arith, text.length_le),
)
  where
    c1 : Context
    c1 = (result_int32 (wrap 32 e.error_code) c).1

    number : Replies c (uint32_to_str_base_sign (wrap 32 e.error_code) 33 10 true) c1
    number = answer-Replies (wrap 32 e.error_code) c

    c2 : Context
    c2 = (write_data (b'"' ∷ []) (write_delimiter c1).1).1

    text : Within max_string_length c2 (write_description e c2).1 0
    text = write_description-Within e c2

    all :
        Writes c1
          (separator c1.output_count ++ (b'"' ∷ [] ++ (text.text ++ b'"' ∷ [])))
          (result_error e c).1
    all = Writes-append (write_delimiter-Writes c1) (
        Writes-append (write_data-Writes (b'"' ∷ []) _)
          (Writes-append text.writes (write_data-Writes (b'"' ∷ []) _)))
