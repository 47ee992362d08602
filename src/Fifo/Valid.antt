-- ===== src/Fifo/Valid.antt =====
-- libscpi/src/fifo.c: the representation invariant of `scpi_fifo_t`.
use native.Mathlib.Nat.{mod-eq_of_lt, mod-eq-sub-mod}
use scpi_parser.Base.{
  ℕ, ◌+◌, ◌-◌, ◌%◌, ◌≤◌, ◌<◌, ◌≡◌, refl, sym, ◌∙◌, List, Option, arith, length, length-set,
  if◌then◌else◌, some, none, ltb, ltb→lt, Bool-cases, inl, inr,
}
use scpi_parser.Fifo.Queue.{Error}
use scpi_parser.Fifo.{Fifo, fifo_init, fifo_clear, fifo_add, fifo_remove, fifo_remove_last}

-- `INT16_MAX`
abbrev pub max_size : ℕ
max_size = 32767

pub record IsValid (f : Fifo) : Type 0 where
  pub array : f.size ≤ length f.slots
  pub small : f.size ≤ max_size
  pub nonempty : 0 < f.size
  pub rd_in : f.rd < f.size
  pub wr_in : f.wr < f.size
  pub count_in : f.count ≤ f.size
  pub wr_is : f.wr ≡ (f.rd + f.count) % f.size

-- Adding one and wrapping, without `%`.
pub mod_wrap : (a s : ℕ) → a < s + s → 0 < s → a % s ≡ (if ltb a s then a else a - s)
mod_wrap a s h p = elim (Bool-cases (ltb a s)) [
  | inl t ↦ rw t (mod-eq_of_lt (ltb→lt a s t))
  | inr t ↦ rw t (mod-eq-sub-mod (ground arith) ∙ mod-eq_of_lt (ground arith))
]

pub fifo_init-IsValid :
    (slots : List Error) (size : ℕ)
    → 0 < size
    → size ≤ max_size
    → size ≤ length slots
    → IsValid (fifo_init slots size)
unfolding fifo_init
fifo_init-IsValid slots size p q r = record {
  array = r;
  small = q;
  nonempty = p;
  rd_in = p;
  wr_in = p;
  count_in = omega arith;
  wr_is = sym (mod-eq_of_lt p);
}

pub fifo_clear-IsValid : {f : Fifo} → IsValid f → IsValid (fifo_clear f)
unfolding fifo_clear
fifo_clear-IsValid {f} v = ground (arith, mod_wrap 0 f.size)

pub fifo_add-IsValid : {f : Fifo} (e : Option Error) → IsValid f → IsValid (fifo_add f e).1
unfolding fifo_add
fifo_add-IsValid none v = v
fifo_add-IsValid {f} (some e) v = ground (
  arith,
  length-set f.slots f.wr e,
  mod_wrap (f.wr + 1) f.size,
  mod_wrap (f.rd + f.count) f.size,
  mod_wrap (f.rd + (f.count + 1)) f.size,
)

pub fifo_remove-IsValid : {f : Fifo} → IsValid f → IsValid (fifo_remove f).1
unfolding fifo_remove
fifo_remove-IsValid {f} v = ground (
  arith,
  mod_wrap (f.rd + 1) f.size,
  mod_wrap (f.rd + f.count) f.size,
  mod_wrap ((f.rd + 1) % f.size + (f.count - 1)) f.size,
)

pub fifo_remove_last-IsValid : {f : Fifo} → IsValid f → IsValid (fifo_remove_last f).1
unfolding fifo_remove_last
fifo_remove_last-IsValid {f} v = ground (
  arith,
  mod_wrap (f.wr + f.size - 1) f.size,
  mod_wrap (f.rd + f.count) f.size,
  mod_wrap (f.rd + (f.count - 1)) f.size,
)

pub count-remove :
    (f : Fifo) {e : Error}
    → (fifo_remove f).0 ≡ some e
    → ((fifo_remove f).1.count < f.count) × ((fifo_remove f).1.size ≡ f.size)
unfolding fifo_remove
count-remove f h = ground arith

pub fifo_clear-fields : (f : Fifo) → ((fifo_clear f).count ≡ 0) × ((fifo_clear f).size ≡ f.size)
unfolding fifo_clear
fifo_clear-fields f = (refl, refl)

pub fifo_remove-none : (f : Fifo) → (fifo_remove f).0 ≡ none → (fifo_remove f).1 ≡ f
unfolding fifo_remove
fifo_remove-none f h = ground arith
