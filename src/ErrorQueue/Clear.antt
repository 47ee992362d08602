-- ===== src/ErrorQueue/Clear.antt =====
-- libscpi/src/error.c: SCPI_ErrorClear and its loop.
use mathlib.Core.Option.{some-injective}
use scpi_parser.Base.{
  ℕ, zero, suc, ◌+◌, ◌<◌, ◌≡◌, refl, sym, ap, ◌∙◌, none, some, [], ◌∷◌, arith, Option-cases, inl,
  inr,
}
use scpi_parser.Context.{Context}
use scpi_parser.Fifo.Queue
use scpi_parser.Fifo.Queue.{Error, Queue}
use scpi_parser.Fifo.Slots.{elements}
use scpi_parser.Fifo.Refine.{contents, remove_refines}
use scpi_parser.Fifo.Valid.{
  IsValid, fifo_remove-IsValid, fifo_clear-IsValid, count-remove, fifo_clear-fields,
}
use scpi_parser.Fifo.{fifo_remove, fifo_clear, fifo_count}
use scpi_parser.Register.Frame.{SameRest}
use scpi_parser.ErrorQueue.Frame.{error_emit_empty-SameRest}
use scpi_parser.ErrorQueue.Memory.{owned, owned1, IsBalanced, freed-free, allocated-free}
use scpi_parser.ErrorQueue.{free, error_clear, error_count, error_emit_empty, drain}

-- What is left to free once the loop has run from `c`.
record Drained (c c' : Context) : Type 0 where
  valid : IsValid c'.error_queue
  same_size : c'.error_queue.size ≡ c.error_queue.size
  allocated : c'.heap.allocated ≡ c.heap.allocated
  freed : c'.heap.freed ≡ c.heap.freed + owned (contents c.error_queue)

abbrev drained1 : Context → Error → Context
drained1 c d = record c {
  error_queue = (fifo_remove c.error_queue).1;
  heap = free d.device_dependent_info c.heap;
}

drain-none :
    (fuel : ℕ) (c : Context) → (fifo_remove c.error_queue).0 ≡ none → drain (suc fuel) c ≡ c
unfolding drain
drain-none fuel c h = rw (h, drain)

drain-some :
    (fuel : ℕ) (c : Context) {d : Error}
    → (fifo_remove c.error_queue).0 ≡ some d
    → drain (suc fuel) c ≡ drain fuel (drained1 c d)
unfolding drain
drain-some fuel c h = rw (h, drain)

owned_of_none : (q : Queue) → (Queue.take_first q).0 ≡ none → owned q ≡ 0
unfolding Queue.take_first
owned_of_none [] h = refl
owned_of_none (e ∷ q) h = cc

owned_of_some :
    (q : Queue) (d : Error)
    → (Queue.take_first q).0 ≡ some d
    → owned q ≡ owned1 d.device_dependent_info + owned (Queue.take_first q).1
unfolding Queue.take_first
owned_of_some [] d h = cc
owned_of_some (e ∷ q) d h =
    ap (λ t. owned1 t.device_dependent_info + owned q) (some-injective e d h)

drain-Drained :
    (fuel : ℕ) (c : Context)
    → IsValid c.error_queue
    → c.error_queue.count < fuel
    → Drained c (drain fuel c)
drain-Drained zero c v h = absurd (omega arith)
drain-Drained (suc fuel) c v h = elim (Option-cases (fifo_remove c.error_queue).0) [
  | inl e ↦ rw (drain-none fuel c e) (record {
    valid = v;
    same_size = refl;
    allocated = refl;
    freed = omega (
      arith,
      owned_of_none (contents c.error_queue)
          (sym (ap (λ t. t.0) (remove_refines c.error_queue v)) ∙ e),
    );
  })
  | inr (d, e) ↦
      let r =
        drain-Drained fuel (drained1 c d) (fifo_remove-IsValid v)
          (omega (arith, count-remove c.error_queue e)) in
      rw (drain-some fuel c e) (record {
        valid = r.valid;
        same_size = r.same_size ∙ (count-remove c.error_queue e).1;
        allocated = r.allocated ∙ allocated-free d.device_dependent_info c.heap;
        freed = omega (
          arith,
          r.freed,
          freed-free d.device_dependent_info c.heap,
          owned_of_some (contents c.error_queue) d
              (sym (ap (λ t. t.0) (remove_refines c.error_queue v)) ∙ e),
          ap (λ t. owned t.1) (remove_refines c.error_queue v),
        );
      })
]

-- After SCPI_ErrorClear the queue is empty, of the same size and valid, and, where no text was lost
-- before, every text ever allocated has been freed.
pub error_clear_lem :
    (c : Context)
    → IsValid c.error_queue
    → IsBalanced c
    → let c' = error_clear c in
      (contents c'.error_queue ≡ [])
      × IsValid c'.error_queue
      × (c'.error_queue.size ≡ c.error_queue.size)
      × (c'.heap.freed ≡ c'.heap.allocated)
unfolding error_clear
error_clear_lem c v b =
    rw (frame.same_queue, frame.same_heap)
      (
        ap (elements _ _ _) (fifo_clear-fields loop.error_queue).0,
        fifo_clear-IsValid left.valid,
        (fifo_clear-fields loop.error_queue).1 ∙ left.same_size,
        omega (arith, left.freed, left.allocated, b),
      )
  where
    loop : Context
    loop = drain (suc (error_count c)) c

    left : Drained c loop
    left = drain-Drained (suc (error_count c)) c v (unfold error_count fifo_count in omega arith)

    c1 : Context
    c1 = record loop { error_queue = fifo_clear loop.error_queue }

    frame : SameRest c1 (error_emit_empty c1)
    frame = error_emit_empty-SameRest c1
