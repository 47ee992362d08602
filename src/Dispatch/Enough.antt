-- ===== src/Dispatch/Enough.antt =====
-- libscpi/src/parser.c: the loop of SCPI_Parse over the units of a message.
use scpi_parser.Base.{
  ℕ, zero, suc, ◌+◌, ◌-◌, ◌<◌, ◌≤◌, ◌≡◌, refl, ap, ◌∙◌, inl, inr, Bool, true, false, Bool-cases,
  Option, none, some, List, ◌==◌, ==_iff, ltb, ltb→lt, length, length-take, length-drop, take, drop,
  Bytes, ℤ, arith,
}
use scpi_parser.Lexer.{Token}
use scpi_parser.Message.{ProgramUnit, detect_program_message_unit}
use scpi_parser.Message.Empty.{detect_program_message_unit-nil}
use scpi_parser.Message.Progress.{
  detect_program_message_unit-progress, detect_program_message_unit-tokens,
}
use scpi_parser.Session.{Session, Command}
use scpi_parser.Dispatch.Buffer.{
  KeepBuffer, FoundKeeps, find_command_header-Keeps, process_command-SameShape,
}
use scpi_parser.Dispatch.Compose.{Composed, compose_compound_command-Composed}
use scpi_parser.Dispatch.{
  Parsing, in_buffer, memory_of, load_params, process_command, find_command_header, shift,
  is_invalid, compose_compound_command, run_command, parse_unit, parse_units, start_parsing,
  parsing_or, scpi_parse,
}

-- What is left of the message lies in memory of the size `size`, and the header before lies before it.
pub record Placed (size : ℕ) (p : Parsing) : Type 0 where
  pub size_eq : length p.memory ≡ size
  pub inside : p.at + p.len ≤ length p.memory
  pub before : p.cmd_prev.ptr + p.cmd_prev.len ≤ p.at

-- A message in the input buffer needs handlers that keep the buffer.
abbrev pub KeepMemory : List Command → Bool → Type 0
KeepMemory cmds true = KeepBuffer cmds
KeepMemory cmds false = true ≡ true

-- What is found in the table then keeps the memory.
abbrev FoundMemory : Option (ℕ × Command) → Bool → Type 0
FoundMemory found true = FoundKeeps found
FoundMemory found false = true ≡ true

found_memory :
    (strtol : Bytes → ℕ × ℤ) (cmds : List Command) (shared : Bool) (header : Bytes) (len : ℕ)
    → KeepMemory cmds shared
    → FoundMemory (find_command_header strtol cmds 0 header len) shared
found_memory strtol cmds true header len k = find_command_header-Keeps strtol cmds 0 header len k
found_memory strtol cmds false header len k = refl

length-memory_of :
    (shared : Bool) (i : ℕ) (cmd : Command) (memory : Bytes) (s : Session)
    → FoundMemory (some (i, cmd)) shared
    → length (memory_of shared memory (process_command cmd.callback (in_buffer shared memory s)).1)
      ≡ length memory
length-memory_of true i cmd memory s k =
    (process_command-SameShape cmd.callback (in_buffer true memory s) k).size_eq
length-memory_of false i cmd memory s k = refl

-- The unit that SCPI_Parse detects next.
abbrev pub next_unit : Parsing → ProgramUnit
next_unit p = detect_program_message_unit (take p.len (drop p.at p.memory))

-- The loop goes on with what is behind the unit.
abbrev pub behind : Parsing → ℕ → Parsing → Parsing
behind p r q = record q { at = p.at + r; len = p.len - r }

length-message :
    {n : ℕ} (p : Parsing) → Placed n p → length (take p.len (drop p.at p.memory)) ≡ p.len
length-message p h =
    omega (arith, h.inside, length-take p.len (drop p.at p.memory), length-drop p.at p.memory)

unit-progress :
    {n : ℕ} (p : Parsing)
    → Placed n p
    → 0 < p.len
    → (0 < (next_unit p).result) × ((next_unit p).result ≤ p.len)
unit-progress p h l =
    let (a, b) =
      detect_program_message_unit-progress (take p.len (drop p.at p.memory))
        (omega (arith, length-message p h)) in
    (a, omega (arith, b, length-message p h))

-- A command leaves the message where it is, and its header lies before what follows.
run_command-Placed :
    {n : ℕ} (found : Option (ℕ × Command)) (header program_data : Token) (r : ℕ) (p : Parsing)
    → Placed n (behind p r p)
    → header.ptr + header.len ≤ p.at + r
    → FoundMemory found p.shared
    → Placed n (behind p r (run_command found header program_data r p))
unfolding run_command
run_command-Placed none header program_data r p h k m = record {
  size_eq = h.size_eq;
  inside = h.inside;
  before = h.before;
}
run_command-Placed (some (i, cmd)) header program_data r p h k m = record {
  size_eq = omega (arith, same_size, h.size_eq);
  inside = omega (arith, same_size, h.inside);
  before = k;
}
  where
    loaded : Session
    loaded = load_params i header program_data p.memory p.session

    same_size :
        length (
          memory_of p.shared p.memory
            (process_command cmd.callback (in_buffer p.shared p.memory loaded)).1)
        ≡ length p.memory
    same_size = length-memory_of p.shared i cmd p.memory loaded m

parse_unit-Placed :
    {n : ℕ} (strtol : Bytes → ℕ × ℤ) (cmds : List Command) (p : Parsing)
    → Placed n p
    → (next_unit p).result ≤ p.len
    → KeepMemory cmds p.shared
    → Placed n (behind p (next_unit p).result (parse_unit strtol cmds (next_unit p) p))
unfolding parse_unit
parse_unit-Placed {n} strtol cmds p h l m =
    elim (Bool-cases (is_invalid (next_unit p).header.type)) [
      | inl e ↦ rw e (stays _ _)
      | inr e ↦ elim (Bool-cases (ltb 0 (next_unit p).header.len)) [
        | inl k ↦
            rw (e, k)
              (run_command-Placed _ header.1 _ (next_unit p).result (record p { memory = header.2 })
                (record {
                  size_eq = omega (arith, composed.length_eq, h.size_eq);
                  inside = omega (arith, composed.length_eq, h.inside);
                  before = omega (arith, h.before);
                })
                (omega (arith, composed.end_eq, tokens))
                (found_memory strtol cmds p.shared (drop header.1.ptr header.2) header.1.len m))
        | inr k ↦ rw (e, k) (stays _ _)
      ]
    ]
  where
    header : Bool × Token × Bytes
    header = compose_compound_command p.cmd_prev (shift p.at (next_unit p).header) p.memory

    tokens : (next_unit p).header.ptr + (next_unit p).header.len ≤ (next_unit p).result
    tokens = (detect_program_message_unit-tokens (take p.len (drop p.at p.memory))).0

    composed : Composed p.cmd_prev (shift p.at (next_unit p).header) p.memory header
    composed =
        compose_compound_command-Composed p.cmd_prev (shift p.at (next_unit p).header) p.memory
          (omega (arith, h.before)) (omega (arith, h.inside, tokens))

    stays :
        (s : Session) (b : Bool)
        → Placed n (behind p (next_unit p).result (record p { session = s; result = b }))
    stays s b = record {
      size_eq = h.size_eq;
      inside = omega (arith, h.inside);
      before = omega (arith, h.before);
    }

-- Nothing is taken of an empty message.
unit-le : {n : ℕ} (p : Parsing) → Placed n p → (next_unit p).result ≤ p.len
unit-le p h = elim (Bool-cases (p.len == 0)) [
  | inl z ↦ rw ((==_iff p.len 0).0 z, detect_program_message_unit-nil.0) (omega arith)
  | inr z ↦ (unit-progress p h (ground arith)).1
]

shared-run_command :
    (found : Option (ℕ × Command)) (header program_data : Token) (r : ℕ) (p : Parsing)
    → (run_command found header program_data r p).shared ≡ p.shared
unfolding run_command
shared-run_command none header program_data r p = refl
shared-run_command (some (i, cmd)) header program_data r p = refl

shared-parse_unit :
    (strtol : Bytes → ℕ × ℤ) (cmds : List Command) (u : ProgramUnit) (p : Parsing)
    → (parse_unit strtol cmds u p).shared ≡ p.shared
unfolding parse_unit
shared-parse_unit strtol cmds u p = elim (Bool-cases (is_invalid u.header.type)) [
  | inl e ↦ rw e refl
  | inr e ↦ elim (Bool-cases (ltb 0 u.header.len)) [
    | inl h ↦ rw (e, h) (shared-run_command _ _ _ _ _)
    | inr h ↦ rw (e, h) refl
  ]
]

-- The loop of SCPI_Parse over the units ends within as many rounds as the message has bytes, and one
-- more: with that there is a result, and memory has the size it had, whatever the handlers do if the
-- message is not in the input buffer, and if they keep the buffer where it is.
pub parse_units_enough :
    (n fuel : ℕ) (strtol : Bytes → ℕ × ℤ) (cmds : List Command) (p : Parsing)
    → Placed n p
    → p.len < fuel
    → KeepMemory cmds p.shared
    → (q : Parsing) × (parse_units fuel strtol cmds p ≡ some q) × (length q.memory ≡ n)
unfolding parse_units
parse_units_enough n zero strtol cmds p h l m = absurd (omega arith)
parse_units_enough n (suc fuel) strtol cmds p h l m =
    elim (Bool-cases (ltb (next_unit p).result p.len)) [
      | inl e ↦
          let (a, b) = unit-progress p h (omega (arith, ltb→lt _ _ e)) in
          rw e (
            parse_units_enough n fuel strtol cmds
              (behind p (next_unit p).result (parse_unit strtol cmds (next_unit p) p))
              (parse_unit-Placed strtol cmds p h b m) (omega (arith, a, l))
              (rw (shared-parse_unit strtol cmds (next_unit p) p) m))
      | inr e ↦ rw e (
        parse_unit strtol cmds (next_unit p) p,
        refl,
        (parse_unit-Placed strtol cmds p h (unit-le p h) m).size_eq,
      )
    ]

-- SCPI_Parse starts with no header before the message, which lies in memory.
pub start_parsing-Placed :
    (shared : Bool) (memory : Bytes) (len : ℕ) (s : Session)
    → len ≤ length memory
    → Placed (length memory) (start_parsing shared memory len s)
start_parsing-Placed shared memory len s h = record {
  size_eq = refl;
  inside = omega arith;
  before = omega arith;
}

-- SCPI_Parse has a result, in memory of the size that it was given.
pub length-scpi_parse :
    (strtol : Bytes → ℕ × ℤ) (cmds : List Command) (shared : Bool) (memory : Bytes) (len : ℕ)
    (s : Session)
    → len ≤ length memory
    → KeepMemory cmds shared
    → length (scpi_parse strtol cmds shared memory len s).1 ≡ length memory
unfolding scpi_parse
length-scpi_parse strtol cmds shared memory len s h m =
    let (q, e, size) =
      parse_units_enough (length memory) (suc len) strtol cmds (start_parsing shared memory len s)
        (start_parsing-Placed shared memory len s h) (omega arith) m in
    ap (λ o. length (parsing_or (start_parsing shared memory len s) o).memory) e ∙ size
