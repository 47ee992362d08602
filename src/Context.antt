-- ===== src/Context.antt =====
-- `scpi_t` of libscpi/inc/scpi/types.h, the state that every function of the library is handed,
-- and the calls of the application's interface that the library makes.
use scpi_parser.Base.{ℕ, Bool, List, [], ◌∷◌, ◌++◌, ℤ, Bytes}
use scpi_parser.Fifo.{Fifo}

-- `scpi_reg_name_t`, and the array `registers`.
pub data RegName : Type 0 where
  stb sre esr ese oper opere operc ques quese quesc : RegName
  no_reg : RegName

pub record Registers : Type 0 where
  pub stb : ℕ
  pub sre : ℕ
  pub esr : ℕ
  pub ese : ℕ
  pub oper : ℕ
  pub opere : ℕ
  pub operc : ℕ
  pub ques : ℕ
  pub quese : ℕ
  pub quesc : ℕ

-- Which callbacks of `scpi_interface_t` are not null; `write` is always called, and `write_result`
-- is what it returns for the bytes.
pub record Interface : Type 0 where
  pub has_error : Bool
  pub has_control : Bool
  pub has_flush : Bool
  pub has_reset : Bool
  pub write_result : Bytes → ℕ

-- A call of a callback: `write`, `control` with SCPI_CTRL_SRQ, `error`, `flush`, `reset`.
pub data Event : Type 0 where
  wrote : Bytes → Event
  service_request : ℕ → Event
  error_reported : ℤ → Event
  flushed : Event
  was_reset : Event

-- The allocator behind `strndup` and `free`: whether each coming request succeeds (none is
-- refused when the list has run out), and how many blocks were handed out and given back.
pub record Heap : Type 0 where
  pub supply : List Bool
  pub allocated : ℕ
  pub freed : ℕ

pub record Context : Type 0 where
  pub interface : Interface
  pub output_count : ℕ
  pub first_output : Bool
  pub cmd_error : Bool
  pub arbitrary_remaining : ℕ
  pub error_queue : Fifo
  pub heap : Heap
  pub registers : Registers
  -- the calls of the interface, oldest first
  pub events : List Event

abbrev pub emit : Event → Context → Context
emit e c = record c { events = c.events ++ e ∷ [] }
