-- ===== src/Dispatch/Buffer.antt =====
-- libscpi/src/parser.c: the input buffer, while SCPI_Parse calls the handlers.
use scpi_parser.Base.{
  ℕ, zero, suc, ◌+◌, ◌-◌, ◌≡◌, refl, ap, ◌∙◌, inl, inr, Bool, true, false, Bool-cases, Option, none,
  some, not, ◌&&◌, List, [], ◌∷◌, length, drop, take, ltb, Bytes, ℤ, pos,
}
use scpi_parser.Lexer.{Token, iseos}
use scpi_parser.Match.{match_command}
use scpi_parser.Message.{ProgramUnit, detect_program_message_unit}
use scpi_parser.Session.{Session, Handler, Command, InputBuffer}
use scpi_parser.Dispatch.{
  Parsing, in_buffer, find_command_header, call_back, is_query_header, is_invalid, process_command,
  reset_command, separate_query, run_command, parse_unit, parse_units, compose_compound_command,
  shift, load_params, start_parsing, parsing_or, scpi_parse,
}

-- The size of the buffer and the number of the bytes that wait are the same; the bytes need not be.
pub record SameShape (b c : InputBuffer) : Type 0 where
  pub size_eq : length c.bytes ≡ length b.bytes
  pub position_eq : c.position ≡ b.position

same_shape : (b c : InputBuffer) → c ≡ b → SameShape b c
same_shape b c e = record {
  size_eq = ap (λ x. length x.bytes) e;
  position_eq = ap (λ x. x.position) e;
}

-- What a handler may do to the buffer; a command without a handler does nothing.
abbrev pub Keeps : Option Handler → Type 0
Keeps none = true ≡ true
Keeps (some f) = (s : Session) → SameShape s.buffer (f s).1.buffer

-- The handlers of a table write at most into the buffer, and leave its size and its position.
pub data KeepBuffer : List Command → Type 0 where
  no_commands : KeepBuffer []
  a_command :
      {cmd : Command} {cmds : List Command}
      → Keeps cmd.callback
      → KeepBuffer cmds
      → KeepBuffer (cmd ∷ cmds)

abbrev pub FoundKeeps : Option (ℕ × Command) → Type 0
FoundKeeps none = true ≡ true
FoundKeeps (some (i, cmd)) = Keeps cmd.callback

pub find_command_header-Keeps :
    (strtol : Bytes → ℕ × ℤ) (cmds : List Command) (i : ℕ) (header : Bytes) (len : ℕ)
    → KeepBuffer cmds
    → FoundKeeps (find_command_header strtol cmds i header len)
unfolding find_command_header
find_command_header-Keeps strtol [] i header len k = refl
find_command_header-Keeps strtol (cmd ∷ cmds) i header len (a_command h k) =
    elim (Bool-cases (match_command strtol cmd.pattern header len [] (pos 0)).0) [
      | inl e ↦ rw e h
      | inr e ↦ rw e (find_command_header-Keeps strtol cmds (i + 1) header len k)
    ]

buffer-separate_query : (s : Session) → (reset_command (separate_query s)).buffer ≡ s.buffer
buffer-separate_query s = elim (Bool-cases (not s.context.first_output && is_query_header s)) [
  | inl e ↦ rw e refl
  | inr e ↦ rw e refl
]

call_back-SameShape :
    (callback : Option Handler) (is_query : Bool) (s : Session)
    → Keeps callback
    → SameShape s.buffer (call_back callback is_query s).1.buffer
unfolding call_back
call_back-SameShape none is_query s k = same_shape s.buffer s.buffer refl
call_back-SameShape (some f) is_query s k = elim (Bool-cases (f s).0) [
  | inr e ↦ elim (Bool-cases (f s).1.context.cmd_error) [
    | inl h ↦ rw (e, h) (k s)
    | inr h ↦ rw (e, h) (k s)
  ]
  | inl e ↦ elim (Bool-cases (f s).1.context.cmd_error) [
    | inl h ↦ rw (e, h) (k s)
    | inr h ↦ elim (Bool-cases ((f s).1.context.first_output && is_query)) [
      | inl q ↦ rw (e, h, q) (k s)
      | inr q ↦ rw (e, h, q) (k s)
    ]
  ]
]

pub process_command-SameShape :
    (callback : Option Handler) (s : Session)
    → Keeps callback
    → SameShape s.buffer (process_command callback s).1.buffer
unfolding process_command
process_command-SameShape callback s k =
    elim (Bool-cases (not (iseos called.param_list.lex_state) && not called.context.cmd_error)) [
      | inl e ↦ rw e shape
      | inr e ↦ rw e shape
    ]
  where
    called : Session
    called = (call_back callback (is_query_header s) (reset_command (separate_query s))).1

    back : SameShape (reset_command (separate_query s)).buffer called.buffer
    back = call_back-SameShape callback (is_query_header s) (reset_command (separate_query s)) k

    shape : SameShape s.buffer called.buffer
    shape = record {
      size_eq = back.size_eq ∙ ap (λ b. length b.bytes) (buffer-separate_query s);
      position_eq = back.position_eq ∙ ap (λ b. b.position) (buffer-separate_query s);
    }

position-in_buffer :
    (shared : Bool) (memory : Bytes) (s : Session)
    → (in_buffer shared memory s).buffer.position ≡ s.buffer.position
position-in_buffer true memory s = refl
position-in_buffer false memory s = refl

position-run_command :
    (found : Option (ℕ × Command)) (header program_data : Token) (r : ℕ) (p : Parsing)
    → FoundKeeps found
    → (run_command found header program_data r p).session.buffer.position
      ≡ p.session.buffer.position
unfolding run_command
position-run_command none header program_data r p k = refl
position-run_command (some (i, cmd)) header program_data r p k =
    (process_command-SameShape cmd.callback (in_buffer p.shared p.memory loaded) k).position_eq
    ∙ position-in_buffer p.shared p.memory loaded
  where
    loaded : Session
    loaded = load_params i header program_data p.memory p.session

module _ (strtol : Bytes → ℕ × ℤ) (cmds : List Command) (k : KeepBuffer cmds) where
  position-parse_unit :
      (u : ProgramUnit) (p : Parsing)
      → (parse_unit strtol cmds u p).session.buffer.position ≡ p.session.buffer.position
  unfolding parse_unit
  position-parse_unit u p = elim (Bool-cases (is_invalid u.header.type)) [
    | inl e ↦ rw e refl
    | inr e ↦ elim (Bool-cases (ltb 0 u.header.len)) [
      | inl h ↦
          rw (e, h)
            (position-run_command _ header.1 (shift p.at u.program_data) u.result
              (record p { memory = header.2 })
              (find_command_header-Keeps strtol cmds 0 (drop header.1.ptr header.2) header.1.len k))
      | inr h ↦ rw (e, h) refl
    ]
  ]
    where
      header : Bool × Token × Bytes
      header = compose_compound_command p.cmd_prev (shift p.at u.header) p.memory

  abbrev StaysAt : ℕ → Option Parsing → Type 0
  StaysAt n none = true ≡ true
  StaysAt n (some q) = q.session.buffer.position ≡ n

  position-parse_units :
      (n fuel : ℕ) (p : Parsing)
      → p.session.buffer.position ≡ n
      → StaysAt n (parse_units fuel strtol cmds p)
  unfolding parse_units
  position-parse_units n zero p e = refl
  position-parse_units n (suc fuel) p e = elim (Bool-cases (ltb u.result p.len)) [
    | inl h ↦ rw h (
        position-parse_units n fuel (record p' { at = p.at + u.result; len = p.len - u.result })
          (position-parse_unit u p ∙ e))
    | inr h ↦ rw h (position-parse_unit u p ∙ e)
  ]
    where
      u : ProgramUnit
      u = detect_program_message_unit (take p.len (drop p.at p.memory))

      p' : Parsing
      p' = parse_unit strtol cmds u p

  position-parsing_or :
      (n : ℕ) (p : Parsing) (o : Option Parsing)
      → p.session.buffer.position ≡ n
      → StaysAt n o
      → (parsing_or p o).session.buffer.position ≡ n
  position-parsing_or n p none e h = e
  position-parsing_or n p (some q) e h = h

  -- SCPI_Parse leaves the position of the input buffer, if the handlers do.
  pub position-scpi_parse :
      (shared : Bool) (memory : Bytes) (len : ℕ) (s : Session)
      → (scpi_parse strtol cmds shared memory len s).2.buffer.position ≡ s.buffer.position
  unfolding scpi_parse
  position-scpi_parse shared memory len s =
      position-parsing_or s.buffer.position (start_parsing shared memory len s)
        (parse_units (suc len) strtol cmds (start_parsing shared memory len s)) refl
        (position-parse_units s.buffer.position (suc len) (start_parsing shared memory len s) refl)
