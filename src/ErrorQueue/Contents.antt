-- ===== src/ErrorQueue/Contents.antt =====
-- libscpi/src/error.c: the contents of the queue behind SCPI_ErrorPushEx.
use scpi_parser.Base.{
  ℕ, suc, ◌≤◌, ◌<◌, ◌≡◌, refl, sym, ap, ◌∙◌, true, Option, none, some, [], ◌∷◌, ◌++◌, arith, length,
  ltb, lt→ltb, if◌then◌else◌, Bool-cases, inl, inr, Bytes, ℤ,
}
use scpi_parser.Context.{Context}
use scpi_parser.Fifo.Queue
use scpi_parser.Fifo.Queue.{Error, Queue, unsnoc, Op, add, remove, remove_last}
use scpi_parser.Fifo.Refine.{
  contents, call, call_refines, size-call, remove_last_refines, length-contents,
}
use scpi_parser.Fifo.Valid.{IsValid, fifo_add-IsValid, fifo_remove_last-IsValid}
use scpi_parser.Fifo.{Fifo, fifo_add, fifo_remove_last}
use scpi_parser.ErrorQueue.Frame.{error_emit-SameRest, set_classes-SameRest}
use scpi_parser.Register.Frame.{SameRest, SameRest-trans}
use scpi_parser.ErrorQueue.{
  set_val, queue_overflow, copy, error_add_internal, replace_last, error_emit, set_classes, errs,
  text_length, error_push_ex,
}

-- The error that is pushed, with its text as `strndup` gives it.
abbrev pub pushed : ℤ → Option Bytes → ℕ → Context → Error
pushed code info n c = set_val code (copy info (text_length info n) c.heap).0

abbrev pub overflow : Error
overflow = set_val queue_overflow none

-- The queue with its newest error replaced; a queue with none gets `e`.
abbrev pub replace_newest : Error → Queue → Queue
replace_newest e [] = e ∷ []
replace_newest e (d ∷ q) = (unsnoc d q).1 ++ e ∷ []

abbrev pub push_spec : ℕ → Error → Queue → Queue
push_spec size e q = if ltb (length q) size then q ++ e ∷ [] else replace_newest overflow q

-- A call of `fifo_add` against the queue.
pub fifo_add-contents :
    {f : Fifo} (e : Error)
    → IsValid f
    → let (done, f') = fifo_add f (some e) in
      (done ≡ ltb (length (contents f)) f.size)
      × (contents f' ≡ (if done then contents f ++ e ∷ [] else contents f))
unfolding call Queue.apply
fifo_add-contents e v = ground (arith, call_refines (add e) v)

size-fifo_add : (e : Error) (f : Fifo) → (fifo_add f (some e)).1.size ≡ f.size
unfolding call
size-fifo_add e f = size-call (add e) f

size-fifo_remove_last : (f : Fifo) → (fifo_remove_last f).1.size ≡ f.size
unfolding call
size-fifo_remove_last f = size-call remove_last f

length-unsnoc : (d : Error) (q : Queue) → length (unsnoc d q).1 ≡ length q
unfolding unsnoc
length-unsnoc d [] = refl
length-unsnoc d (e ∷ q) = ap suc (length-unsnoc e q)

pub take_last-replace :
    (e : Error) (q : Queue) → (Queue.take_last q).1 ++ e ∷ [] ≡ replace_newest e q
unfolding Queue.take_last
take_last-replace e [] = refl
take_last-replace e (d ∷ q) = refl

length-take_last : (q : Queue) → length (Queue.take_last q).1 ≤ length q
unfolding Queue.take_last
length-take_last [] = omega arith
length-take_last (d ∷ q) = omega (arith, length-unsnoc d q)

length-take_last_lt : (q : Queue) (n : ℕ) → 0 < n → length q ≤ n → length (Queue.take_last q).1 < n
unfolding Queue.take_last
length-take_last_lt [] n h k = h
length-take_last_lt (d ∷ q) n h k = omega (arith, length-unsnoc d q)

pub replace_last-contents :
    (e : Error) (c : Context)
    → IsValid c.error_queue
    → contents (replace_last e c).error_queue ≡ replace_newest overflow (contents c.error_queue)
unfolding replace_last
replace_last-contents e c v =
    (fifo_add-contents overflow valid).1
    ∙ rw ((fifo_add-contents overflow valid).0, room)
        (ap (λ q. q ++ overflow ∷ []) shorter ∙ take_last-replace overflow (contents c.error_queue))
  where
    valid : IsValid (fifo_remove_last c.error_queue).1
    valid = fifo_remove_last-IsValid v

    shorter :
        contents (fifo_remove_last c.error_queue).1 ≡ (Queue.take_last (contents c.error_queue)).1
    shorter = ap (λ t. t.1) (remove_last_refines c.error_queue v)

    room :
        ltb
          (length (contents (fifo_remove_last c.error_queue).1))
          (fifo_remove_last c.error_queue).1.size
        ≡ true
    room =
        rw (shorter, size-fifo_remove_last)
          (lt→ltb _ _ (
            length-take_last_lt (contents c.error_queue) c.error_queue.size v.nonempty
              (omega (arith, length-contents c.error_queue, v))))

pub error_add_internal-contents :
    (code : ℤ) (info : Option Bytes) (n : ℕ) (c : Context)
    → IsValid c.error_queue
    → contents (error_add_internal code info n c).1.error_queue
      ≡ push_spec c.error_queue.size (set_val code (copy info n c.heap).0) (contents c.error_queue)
unfolding error_add_internal
error_add_internal-contents code info n c v =
    elim (Bool-cases (fifo_add c.error_queue (some e)).0) [
      | inl h ↦ rw (h, sym (fifo_add-contents e v).0 ∙ h) ((fifo_add-contents e v).1 ∙ rw h)
      | inr h ↦
          rw (h, sym (fifo_add-contents e v).0 ∙ h)
            (replace_last-contents e _ (fifo_add-IsValid (some e) v)
              ∙ ap (replace_newest overflow) ((fifo_add-contents e v).1 ∙ rw h))
    ]
  where
    e : Error
    e = set_val code (copy info n c.heap).0

-- The steps of SCPI_ErrorPushEx after the queue is written leave the queue and the allocator alone.
pub error_push_ex-queue :
    (code : ℤ) (info : Option Bytes) (n : ℕ) (c : Context)
    → let c1 = (error_add_internal code info (text_length info n) c).1 in
      ((error_push_ex code info n c).error_queue ≡ c1.error_queue)
      × ((error_push_ex code info n c).heap ≡ c1.heap)
unfolding error_push_ex
error_push_ex-queue code info n c =
    elim (Bool-cases (error_add_internal code info (text_length info n) c).0) [
      | inl h ↦ rw h (first.same_queue, first.same_heap)
      | inr h ↦ rw h (second.same_queue, second.same_heap)
    ]
  where
    c1 : Context
    c1 = (error_add_internal code info (text_length info n) c).1

    first : SameRest c1 (error_emit code (set_classes code errs c1))
    first = SameRest-trans (set_classes-SameRest code errs c1) (error_emit-SameRest code _)

    second : SameRest c1 (error_emit queue_overflow (error_emit code (set_classes code errs c1)))
    second = SameRest-trans first (error_emit-SameRest queue_overflow _)

-- A push appends the error, with its text as far as it could be copied; on a full queue it
-- replaces the newest error by SCPI_ERROR_QUEUE_OVERFLOW instead, and keeps the older ones.
pub error_push_ex-contents :
    (code : ℤ) (info : Option Bytes) (n : ℕ) (c : Context)
    → IsValid c.error_queue
    → contents (error_push_ex code info n c).error_queue
      ≡ push_spec c.error_queue.size (pushed code info n c) (contents c.error_queue)
error_push_ex-contents code info n c v =
    ap contents (error_push_ex-queue code info n c).0
    ∙ error_add_internal-contents code info (text_length info n) c v
