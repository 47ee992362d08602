-- ===== src/Fifo/Refine.antt =====
-- libscpi/src/fifo.c: the ring beside the bounded queue of the errors that it holds.
use native.Mathlib.Nat.{add-zero, mod-eq_of_lt}
use native.Mathlib.Numerals.{add-one}
use scpi_parser.Base.{
  ℕ, suc, ◌+◌, ◌-◌, ◌%◌, ◌<◌, ◌≡◌, ◌≢◌, refl, sym, ap, ap₂, ◌∙◌, Bool, true, Option, none, some,
  List, [], ◌∷◌, ◌++◌, arith, length, get_or, set, get_or-set_self, Bool-cases, inl, inr, ◌==◌,
}
use scpi_parser.Fifo.Queue
use scpi_parser.Fifo.Queue.{Error, no_error, Queue, Op, add, remove, remove_last, clear, is_some}
use scpi_parser.Fifo.Slots.{
  elements, length-elements, elements_snoc, elements-mod, elements-set, unsnoc-append,
}
use scpi_parser.Fifo.Valid.{
  IsValid, mod_wrap, fifo_add-IsValid, fifo_remove-IsValid, fifo_remove_last-IsValid,
  fifo_clear-IsValid,
}
use scpi_parser.Fifo.{Fifo, fifo_clear, fifo_add, fifo_remove, fifo_remove_last, fifo_count}

-- The errors that a ring holds, oldest first.
abbrev pub contents : Fifo → Queue
contents f = elements f.slots f.size f.rd f.count

-- One call, with the reply in the form of `Queue.apply`.
unfoldable pub call : Op → Fifo → Bool × Option Error × Fifo
call (add e) f = let (done, f') = fifo_add f (some e) in (done, none, f')
call remove f = let (e, f') = fifo_remove f in (is_some e, e, f')
call remove_last f = let (e, f') = fifo_remove_last f in (is_some e, e, f')
call clear f = (true, none, fifo_clear f)

elements_add :
    {f : Fifo} (e : Error)
    → IsValid f
    → f.count < f.size
    → elements (set f.slots f.wr e) f.size f.rd (f.count + 1) ≡ contents f ++ e ∷ []
elements_add {f} e v h =
    ap (elements (set f.slots f.wr e) f.size f.rd) (add-one f.count)
    ∙ elements_snoc (set f.slots f.wr e) f.size f.rd f.count
    ∙ ap₂ (λ q d. q ++ d ∷ [])
        (rw v.wr_is (
          elements-set f.slots f.size (f.rd + f.count) e f.rd f.count (omega arith) (omega arith)
            (omega arith)))
        (rw (← v.wr_is) (get_or-set_self f.slots f.wr e no_error (omega arith)))

elements_remove :
    (f : Fifo)
    → IsValid f
    → f.count ≢ 0
    → contents f
      ≡ get_or f.slots f.rd no_error ∷ elements f.slots f.size ((f.rd + 1) % f.size) (f.count - 1)
elements_remove f v h =
    ap (elements f.slots f.size f.rd) pred
    ∙ ap₂ (λ i q. get_or f.slots i no_error ∷ q) (mod-eq_of_lt v.rd_in)
        (sym (
          ap (λ i. elements f.slots f.size i (f.count - 1)) (sym (add-zero _))
          ∙ elements-mod f.slots f.size (f.rd + 1) 0 (f.count - 1)
          ∙ ap (λ i. elements f.slots f.size i (f.count - 1)) (add-zero _)))
  where
    pred : f.count ≡ suc (f.count - 1)
    pred = omega arith

elements_remove_last :
    (f : Fifo)
    → IsValid f
    → f.count ≢ 0
    → contents f
      ≡ elements f.slots f.size f.rd (f.count - 1)
        ++ get_or f.slots ((f.wr + f.size - 1) % f.size) no_error ∷ []
elements_remove_last f v h =
    ap (elements f.slots f.size f.rd) pred
    ∙ elements_snoc f.slots f.size f.rd (f.count - 1)
    ∙ ap (λ i. elements f.slots f.size f.rd (f.count - 1) ++ get_or f.slots i no_error ∷ []) back
  where
    pred : f.count ≡ suc (f.count - 1)
    pred = omega arith

    back : (f.rd + (f.count - 1)) % f.size ≡ (f.wr + f.size - 1) % f.size
    back = ground (
      arith,
      mod_wrap (f.wr + f.size - 1) f.size,
      mod_wrap (f.rd + f.count) f.size,
      mod_wrap (f.rd + (f.count - 1)) f.size,
      v,
    )

take_last-append : (q : Queue) (e : Error) → Queue.take_last (q ++ e ∷ []) ≡ (some e, q)
unfolding Queue.take_last
take_last-append [] e = refl
take_last-append (d ∷ q) e = rw (unsnoc-append d e q)

pub length-contents : (f : Fifo) → length (contents f) ≡ f.count
length-contents f = length-elements f.slots f.size f.rd f.count

call_refines_add :
    {f : Fifo} (e : Error)
    → IsValid f
    → let (done, out, f') = call (add e) f in
      (done, out, contents f') ≡ Queue.apply f.size (add e) (contents f)
unfolding call fifo_add Queue.apply
call_refines_add {f} e v = ground (arith, length-contents f, elements_add e v)

contents_empty : (f : Fifo) → f.count ≡ 0 → contents f ≡ []
contents_empty f h = ap (elements f.slots f.size f.rd) h

pub remove_refines :
    (f : Fifo)
    → IsValid f
    → let (e, f') = fifo_remove f in (e, contents f') ≡ Queue.take_first (contents f)
unfolding fifo_remove Queue.take_first
remove_refines f v = ground (arith, contents_empty f, elements_remove f v)

pub remove_last_refines :
    (f : Fifo)
    → IsValid f
    → let (e, f') = fifo_remove_last f in (e, contents f') ≡ Queue.take_last (contents f)
unfolding fifo_remove_last
remove_last_refines f v = elim (Bool-cases (f.count == 0)) [
  | inl h ↦ rw (h, contents_empty f (ground arith)) (unfold Queue.take_last in refl)
  | inr h ↦ rw (h, elements_remove_last f v (ground arith), take_last-append)
]

-- On a valid ring each call succeeds or fails as on the queue of its contents, hands out the same
-- error, and leaves the queue's contents.
pub call_refines :
    (op : Op) {f : Fifo}
    → IsValid f
    → let (done, out, f') = call op f in
      (done, out, contents f') ≡ Queue.apply f.size op (contents f)
unfolding call Queue.apply
call_refines (add e) v = call_refines_add e v
call_refines remove {f} v = rw (← remove_refines f v)
call_refines remove_last {f} v = rw (← remove_last_refines f v)
call_refines clear v = unfold fifo_clear in refl

pub call-IsValid : (op : Op) {f : Fifo} → IsValid f → IsValid (call op f).2
unfolding call
call-IsValid (add e) v = fifo_add-IsValid (some e) v
call-IsValid remove v = fifo_remove-IsValid v
call-IsValid remove_last v = fifo_remove_last-IsValid v
call-IsValid clear v = fifo_clear-IsValid v

pub size-call : (op : Op) (f : Fifo) → (call op f).2.size ≡ f.size
unfolding call fifo_add fifo_remove fifo_remove_last fifo_clear
size-call (add e) f = ground arith
size-call _ f = ground arith

unfoldable pub replies : List Op → Fifo → List (Bool × Option Error × ℕ)
replies [] f = []
replies (op ∷ ops) f =
    let (done, out, f') = call op f in (done, out, fifo_count f') ∷ replies ops f'

-- No sequence of calls tells a valid ring from the bounded queue of its contents: every call
-- succeeds or fails alike, hands out the same error, and leaves the same count.
pub replies_refine :
    (ops : List Op) {f : Fifo} → IsValid f → replies ops f ≡ Queue.replies f.size ops (contents f)
unfolding replies Queue.replies fifo_count
replies_refine [] v = refl
replies_refine (op ∷ ops) {f} v =
    rw (replies_refine ops (call-IsValid op v), ← call_refines op v, size-call, length-elements)
