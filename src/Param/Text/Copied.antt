-- ===== src/Param/Text/Copied.antt =====
-- libscpi/src/parser.c: what SCPI_ParamCopyText copies of a string.
use scpi_parser.Base.{
  ℕ, zero, suc, ◌+◌, ◌-◌, ◌<◌, ◌≤◌, ◌≡◌, refl, sym, ap, ◌∙◌, inl, inr, true, false, Bool-cases, [],
  ◌∷◌, ◌++◌, append_assoc, ◌==◌, leb, if◌then◌else◌, length, get_or, get_or-drop, drop, drop-drop,
  take, Bytes, arith,
}
use scpi_parser.Context.{Context}
use scpi_parser.Lexer.{next_is}
use scpi_parser.Lexer.Munch.{all}
use scpi_parser.Lexer.Quoted.{isascii7bit, string_data}
use scpi_parser.Lexer.Quoted.Text.{doubled}
use scpi_parser.Result.Output.{output}
use scpi_parser.Result.Replies.{Item}
use scpi_parser.Result.RoundTrip.{first_reply, result_text-string_data}
use scpi_parser.Result.{result_text, strlen}
use scpi_parser.Session.{Session}
use scpi_parser.Param.Text.{copy_text, text_of}

-- No more than the buffer holds is copied, of any text: behind the place `i` of the text, no more
-- characters than there are places of the buffer from `i` on.
pub length-copy_text :
    (fuel quote i len room : ℕ) (text : Bytes)
    → length (copy_text fuel quote i len room text) ≤ room - i
unfolding copy_text
length-copy_text zero quote i len room text = omega arith
length-copy_text (suc fuel) quote i len room text = elim (Bool-cases (leb (len - 1) i)) [
  | inl e ↦ rw e (omega arith)
  | inr e ↦ elim (Bool-cases (leb room i)) [
    | inl k ↦ rw (e, k) (omega arith)
    | inr k ↦ elim (Bool-cases (get_or text i 0 == quote)) [
      | inl q ↦ rw (e, k, q) (ground (arith, length-copy_text fuel quote (i + 2) len room text))
      | inr q ↦ rw (e, k, q) (ground (arith, length-copy_text fuel quote (i + 1) len room text))
    ]
  ]
]

-- The character at a place, and what is behind it.
at_place : (i : ℕ) (text : Bytes) {c : ℕ} {cs : Bytes} → drop i text ≡ c ∷ cs → get_or text i 0 ≡ c
at_place i text h =
    ap (λ k. get_or text k 0) (plus_zero i)
    ∙ sym (get_or-drop i 0 text 0)
    ∙ ap (λ l. get_or l 0 0) h
  where
    plus_zero : (n : ℕ) → n ≡ n + 0
    plus_zero n = omega arith

behind : (n i : ℕ) (text : Bytes) {cs : Bytes} → drop i text ≡ cs → drop (i + n) text ≡ drop n cs
behind n i text h = sym (drop-drop n i text) ∙ ap (drop n) h

doubled-same :
    (quote : ℕ) {c : ℕ}
    → (c == quote) ≡ true
    → (cs : Bytes) → doubled quote (c ∷ cs) ≡ c ∷ c ∷ doubled quote cs
doubled-same quote q cs = rw q refl

doubled-other :
    (quote : ℕ) {c : ℕ}
    → (c == quote) ≡ false
    → (cs : Bytes) → doubled quote (c ∷ cs) ≡ c ∷ doubled quote cs
doubled-other quote q cs = rw q refl

module _ (quote len room : ℕ) (tail text : Bytes) (enough : len - 1 ≤ room) where
  -- A round in the string and within the buffer.
  copy_step :
      (fuel i c : ℕ)
      → get_or text i 0 ≡ c
      → i < len - 1
      → copy_text (suc fuel) quote i len room text
        ≡ c ∷ copy_text fuel quote (if c == quote then i + 2 else i + 1) len room text
  unfolding copy_text
  copy_step fuel i c e h = rw (e, inside, within) refl
    where
      inside : leb (len - 1) i ≡ false
      inside = ground arith

      within : leb room i ≡ false
      within = ground (arith, enough)

  copied-doubled :
      (fuel i : ℕ) (t : Bytes)
      → drop i text ≡ doubled quote t ++ quote ∷ tail
      → i + length (doubled quote t) ≡ len - 1
      → length (doubled quote t) < fuel
      → copy_text fuel quote i len room text ≡ t
  unfolding copy_text
  copied-doubled zero i t h l f = absurd (omega arith)
  copied-doubled (suc fuel) i [] h l f = rw at_end refl
    where
      at_end : leb (len - 1) i ≡ true
      at_end = ground arith
  copied-doubled (suc fuel) i (c ∷ cs) h l f = elim (Bool-cases (c == quote)) [
    | inl q ↦
        let twice = doubled-same quote q cs in
        copy_step fuel i c (at_place i text (h ∙ ap (λ d. d ++ quote ∷ tail) twice))
          (omega (arith, l, ap length twice))
        ∙ ap (λ b. c ∷ copy_text fuel quote (if b then i + 2 else i + 1) len room text) q
        ∙ ap (λ r. c ∷ r)
            (copied-doubled fuel (i + 2) cs
              (behind 2 i text (h ∙ ap (λ d. d ++ quote ∷ tail) twice))
              (omega (arith, l, ap length twice)) (omega (arith, f, ap length twice)))
    | inr q ↦
        let once = doubled-other quote q cs in
        copy_step fuel i c (at_place i text (h ∙ ap (λ d. d ++ quote ∷ tail) once))
          (omega (arith, l, ap length once))
        ∙ ap (λ b. c ∷ copy_text fuel quote (if b then i + 2 else i + 1) len room text) q
        ∙ ap (λ r. c ∷ r)
            (copied-doubled fuel (i + 1) cs (behind 1 i text (h ∙ ap (λ d. d ++ quote ∷ tail) once))
              (omega (arith, l, ap length once)) (omega (arith, f, ap length once)))
  ]

-- A text that SCPI_ResultText writes first, if it is ASCII, is read back by SCPI_ParamCopyText from
-- the string token that the lexer makes of it, into a buffer with room for the string without its
-- last quote, as the same text.
pub text_of-result_text :
    (t tail : Bytes) (room : ℕ) (c : Context) (s : Session)
    → c.events ≡ []
    → c.output_count ≡ 0
    → all isascii7bit (take (strlen t) t) ≡ true
    → next_is (λ b. b == b'"') tail ≡ false
    → length (doubled b'"' (take (strlen t) t)) < room
    → text_of room (
      true,
      record {
        token =
            (string_data
              (record { at = 0; rest = output (result_text t c).1.events ++ tail })).token;
        bytes = output (result_text t c).1.events ++ tail;
      },
      s,
    )
      ≡ (true, take (strlen t) t, s)
unfolding text_of
text_of-result_text t tail room c s e z a n f =
    rw (result_text-string_data t tail c e z a n, first_reply (Item.text t) c e z)
      (ap (λ (x : Bytes). (true, x, s))
        (copied-doubled b'"' (length written + 2) room tail _ (omega arith) (length written + 2) 1
          (take (strlen t) t) (append_assoc written (b'"' ∷ []) tail) (omega arith) (omega arith)))
  where
    written : Bytes
    written = doubled b'"' (take (strlen t) t)
