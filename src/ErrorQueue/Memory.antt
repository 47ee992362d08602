-- ===== src/ErrorQueue/Memory.antt =====
-- libscpi/src/error.c: who owns the texts of errors that `strndup` allocates, and who frees them.
use scpi_parser.Base.{
  ℕ, ◌+◌, ◌<◌, ◌≡◌, refl, sym, ap, ◌∙◌, Bool, true, false, Option, none, some, [], ◌∷◌, ◌++◌, arith,
  length, ltb, if◌then◌else◌, Bool-cases, inl, inr, Bytes, ℤ,
}
use scpi_parser.Context.{Context, Heap}
use scpi_parser.Fifo.Queue
use scpi_parser.Fifo.Queue.{Error, Queue, unsnoc}
use scpi_parser.Fifo.Refine.{contents, remove_refines, remove_last_refines}
use scpi_parser.Fifo.Valid.{IsValid, fifo_add-IsValid}
use scpi_parser.Fifo.{fifo_add, fifo_remove, fifo_remove_last}
use scpi_parser.ErrorQueue.Frame.{error_emit_empty-SameRest}
use scpi_parser.Register.Frame.{SameRest}
use scpi_parser.ErrorQueue.Contents.{
  fifo_add-contents, replace_last-contents, take_last-replace, error_push_ex-queue, overflow,
}
use scpi_parser.ErrorQueue.{
  free, strndup, copy, set_val, replace_last, error_add_internal, error_push_ex, text_length,
  error_pop, error_emit_empty, removed_or, or_no_error,
}

abbrev pub owned1 : Option Bytes → ℕ
owned1 none = 0
owned1 (some s) = 1

-- The texts that the errors of a queue own.
abbrev pub owned : Queue → ℕ
owned [] = 0
owned (e ∷ q) = owned1 e.device_dependent_info + owned q

-- Of the texts that were allocated, the freed ones and those of the queue make up the rest.
abbrev pub IsBalanced : Context → Type 0
IsBalanced c = c.heap.allocated ≡ c.heap.freed + owned (contents c.error_queue)

owned-append : (p q : Queue) → owned (p ++ q) ≡ owned p + owned q
owned-append [] q = omega arith
owned-append (e ∷ p) q = omega (arith, owned-append p q)

pub freed-free : (s : Option Bytes) (h : Heap) → (free s h).freed ≡ h.freed + owned1 s
unfolding free
freed-free none h = omega arith
freed-free (some s) h = omega arith

pub allocated-free : (s : Option Bytes) (h : Heap) → (free s h).allocated ≡ h.allocated
unfolding free
allocated-free none h = refl
allocated-free (some s) h = refl

copy-heap :
    (info : Option Bytes) (n : ℕ) (h : Heap)
    → ((copy info n h).1.allocated ≡ h.allocated + owned1 (copy info n h).0)
      × ((copy info n h).1.freed ≡ h.freed)
unfolding strndup
copy-heap none n h = omega arith
copy-heap (some s) n h = ground arith

owned-unsnoc :
    (d : Error) (q : Queue)
    → owned (d ∷ q) ≡ owned1 (unsnoc d q).0.device_dependent_info + owned (unsnoc d q).1
unfolding unsnoc
owned-unsnoc d [] = refl
owned-unsnoc d (e ∷ q) = omega (arith, owned-unsnoc e q)

owned-take_last :
    (e : Error) (q : Queue)
    → 0 < length q
    → owned q
      ≡ owned1 (removed_or e (Queue.take_last q).0).device_dependent_info
        + owned (Queue.take_last q).1
unfolding Queue.take_last
owned-take_last e [] h = absurd (omega arith)
owned-take_last e (d ∷ q) h = owned-unsnoc d q

replace_last-heap :
    (e : Error) (c : Context)
    → IsValid c.error_queue
    → 0 < length (contents c.error_queue)
    → ((replace_last e c).heap.allocated ≡ c.heap.allocated)
      × ((replace_last e c).heap.freed + owned (contents (replace_last e c).error_queue)
          ≡ c.heap.freed + owned1 e.device_dependent_info + owned (contents c.error_queue))
replace_last-heap e c v h = (
  allocated,
  omega (
    arith,
    freed,
    ap owned
        (replace_last-contents e c v ∙ sym (take_last-replace overflow (contents c.error_queue))),
    owned-append (Queue.take_last (contents c.error_queue)).1 (overflow ∷ []),
    owned-take_last e (contents c.error_queue) h,
    ap (λ t. owned1 (removed_or e t.0).device_dependent_info) (remove_last_refines c.error_queue v),
  ),
)
  where
    last : Option Error
    last = (fifo_remove_last c.error_queue).0

    h1 : Heap
    h1 = free e.device_dependent_info c.heap

    allocated : (replace_last e c).heap.allocated ≡ c.heap.allocated
    allocated =
        unfold replace_last in
        (allocated-free (removed_or e last).device_dependent_info h1
          ∙ allocated-free e.device_dependent_info c.heap)

    freed :
        (replace_last e c).heap.freed
        ≡ c.heap.freed
          + owned1 e.device_dependent_info
          + owned1 (removed_or e last).device_dependent_info
    freed =
        unfold replace_last in
        omega (
          arith,
          freed-free (removed_or e last).device_dependent_info h1,
          freed-free e.device_dependent_info c.heap,
        )

error_add_internal-IsBalanced :
    (code : ℤ) (info : Option Bytes) (n : ℕ) (c : Context)
    → IsValid c.error_queue
    → IsBalanced c
    → IsBalanced (error_add_internal code info n c).1
unfolding error_add_internal
error_add_internal-IsBalanced code info n c v b = elim (Bool-cases done) [
  | inl h ↦
      rw h
        (omega (arith, copied, ap owned (stored h), owned-append (contents c.error_queue) (e ∷ [])))
  | inr h ↦ rw h (
      omega (
        arith,
        copied,
        replace_last-heap e c' (fifo_add-IsValid (some e) v) (rw (kept h) (full h)),
        ap owned (kept h),
      ))
]
  where
    e : Error
    e = set_val code (copy info n c.heap).0

    done : Bool
    done = (fifo_add c.error_queue (some e)).0

    c' : Context
    c' = record c {
      error_queue = (fifo_add c.error_queue (some e)).1;
      heap = (copy info n c.heap).1;
    }

    copied :
        ((copy info n c.heap).1.allocated ≡ c.heap.allocated + owned1 (copy info n c.heap).0)
        × ((copy info n c.heap).1.freed ≡ c.heap.freed)
    copied = copy-heap info n c.heap

    added :
        (done ≡ ltb (length (contents c.error_queue)) c.error_queue.size)
        × (contents c'.error_queue
            ≡ (if done then contents c.error_queue ++ e ∷ [] else contents c.error_queue))
    added = fifo_add-contents e v

    stored : done ≡ true → contents c'.error_queue ≡ contents c.error_queue ++ e ∷ []
    stored h = added.1 ∙ rw h

    kept : done ≡ false → contents c'.error_queue ≡ contents c.error_queue
    kept h = added.1 ∙ rw h

    full : done ≡ false → 0 < length (contents c.error_queue)
    full h = ground (arith, added.0, v)

-- A push leaks no text and frees none twice, whether the text is stored, cannot be copied, or is
-- thrown away because the queue is full.
pub error_push_ex-IsBalanced :
    (code : ℤ) (info : Option Bytes) (n : ℕ) (c : Context)
    → IsValid c.error_queue
    → IsBalanced c
    → IsBalanced (error_push_ex code info n c)
error_push_ex-IsBalanced code info n c v b =
    let (q, h) = error_push_ex-queue code info n c in
    let b' = error_add_internal-IsBalanced code info (text_length info n) c v b in rw (q, h) b'

pub owned-take_first :
    (q : Queue)
    → owned q
      ≡ owned1 (or_no_error (Queue.take_first q).0).device_dependent_info
        + owned (Queue.take_first q).1
unfolding Queue.take_first
owned-take_first [] = refl
owned-take_first (e ∷ q) = refl

-- What `SCPI_ErrorPop` hands out is no longer owned by the queue: the caller frees it.
pub error_pop-balance :
    (c : Context)
    → IsValid c.error_queue
    → IsBalanced c
    → let (e, c') = error_pop c in
      c'.heap.allocated
      ≡ c'.heap.freed + owned1 e.device_dependent_info + owned (contents c'.error_queue)
unfolding error_pop
error_pop-balance c v b =
    rw (frame.same_heap, frame.same_queue)
      (omega (
        arith,
        owned-take_first (contents c.error_queue),
        ap (λ t. owned1 (or_no_error t.0).device_dependent_info + owned t.1)
            (remove_refines c.error_queue v),
      ))
  where
    c1 : Context
    c1 = record c { error_queue = (fifo_remove c.error_queue).1 }

    frame : SameRest c1 (error_emit_empty c1)
    frame = error_emit_empty-SameRest c1
