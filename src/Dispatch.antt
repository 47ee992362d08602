-- ===== src/Dispatch.antt =====
-- libscpi/src/parser.c: SCPI_Parse, which goes through the units of a program message and calls the
-- handlers of their commands, with composeCompoundCommand of libscpi/src/utils.c. Memory is the
-- list of its bytes, a pointer an offset into it. `strtol` is the C function in base 10.
pub mod Buffer
pub mod Copy
pub mod Compose
pub mod Enough
pub mod Outcome
pub mod Tests
use scpi_parser.Base.{
  ℕ, zero, suc, ◌+◌, ◌-◌, Bool, true, false, not, ◌&&◌, ◌||◌, Option, none, some, List, [], ◌∷◌,
  ◌==◌, ltb, if◌then◌else◌, get_or, take, drop, Bytes, ℤ, pos, negsuc,
}
use scpi_parser.Context.{Context}
use scpi_parser.ErrorQueue.{error_push, error_push_ex}
use scpi_parser.Lexer.{LexState, Token, TokenType, unknown, invalid, iseos, token}
use scpi_parser.Match.{match_command}
use scpi_parser.Message.{ProgramUnit, detect_program_message_unit}
use scpi_parser.Result.{write_data, write_new_line}
use scpi_parser.Session.{Session, Handler, Command, on_context, copy_to}

-- The loop for the last colon: the number of bytes up to it, among `n`, or 0.
unfoldable pub last_colon : Bytes → ℕ → ℕ
last_colon prev zero = 0
last_colon prev (suc n) =
    let rest = last_colon prev n in if get_or prev n 0 == b':' then suc n else rest

-- The result, the token of the current header, and the memory. A null pointer comes with length 0.
unfoldable pub compose_compound_command : Token → Token → Bytes → Bool × Token × Bytes
compose_compound_command prev current memory =
    let first = get_or memory current.ptr 0 in
    let i = last_colon (drop prev.ptr memory) prev.len in
    if current.len == 0
    then (false, current, memory)
    else if prev.len == 0
    then (true, current, memory)
    else if first == b'*' || first == b':'
    then (true, current, memory)
    else if get_or memory prev.ptr 0 == b'*'
    then (true, current, memory)
    else if i == 0
    then (true, current, memory)
    else (
      true,
      token current.type (current.ptr - i) (current.len + i),
      copy_to (current.ptr - i) (take i (drop prev.ptr memory)) memory,
    )

-- The first row of the table whose pattern matches, with its number.
unfoldable pub find_command_header :
    (Bytes → ℕ × ℤ) → List Command → ℕ → Bytes → ℕ → Option (ℕ × Command)
find_command_header strtol [] i header len = none
find_command_header strtol (cmd ∷ cmds) i header len =
    let rest = find_command_header strtol cmds (i + 1) header len in
    if (match_command strtol cmd.pattern header len [] (pos 0)).0 then some (i, cmd) else rest

abbrev pub push : ℤ → Session → Session
push code = on_context (error_push code)

-- The call of a handler, and what its result leads to.
unfoldable pub call_back : Option Handler → Bool → Session → Bool × Session
call_back none is_query s = (true, s)
call_back (some f) is_query s =
    let (ok, s') = f s in
    if not ok
    then (false, if not s'.context.cmd_error then push (negsuc 199) s' else s')
    else if s'.context.cmd_error
    then (false, s')
    else (
      true,
      if s'.context.first_output && is_query
          then on_context (λ c. record c { first_output = false }) s'
          else s',
    )

-- What processCommand resets before it calls the handler.
abbrev pub reset_command : Session → Session
reset_command s = record s {
  context = record s.context { cmd_error = false; output_count = 0; arbitrary_remaining = 0 };
  input_count = 0;
}

abbrev pub is_query_header : Session → Bool
is_query_header s = get_or s.param_list.cmd_raw (s.param_list.cmd_raw_length - 1) 0 == b'?'

-- A semicolon before the response to a query that is not the first.
abbrev pub separate_query : Session → Session
separate_query s =
    if not s.context.first_output && is_query_header s
    then on_context (λ c. (write_data (b';' ∷ []) c).1) s
    else s

unfoldable pub process_command : Option Handler → Session → Bool × Session
process_command callback s =
    let is_query = is_query_header s in
    let (result, s2) = call_back callback is_query (reset_command (separate_query s)) in
    if not (iseos s2.param_list.lex_state) && not s2.context.cmd_error
    then (false, push (negsuc 107) s2)
    else (result, s2)

-- The variables of the loop of SCPI_Parse: `data` and `len`, the header before, and the result.
-- `shared` is whether `data` points to the input buffer, which the handlers reach as well.
pub record Parsing : Type 0 where
  pub shared : Bool
  pub memory : Bytes
  pub at : ℕ
  pub len : ℕ
  pub cmd_prev : Token
  pub result : Bool
  pub session : Session

-- The tokens of a unit count from the start of the unit.
abbrev pub shift : ℕ → Token → Token
shift at t = token t.type (at + t.ptr) t.len

-- The length without the line end.
unfoldable pub trimmed : Bytes → ℕ → ℕ
trimmed message zero = 0
trimmed message (suc n) =
    let rest = trimmed message n in
    if get_or message n 0 == b'\r' || get_or message n 0 == b'\n' then rest else suc n

abbrev pub is_invalid : TokenType → Bool
is_invalid invalid = true
is_invalid _ = false

-- `context->param_list` for a header and its data.
abbrev pub load_params : ℕ → Token → Token → Bytes → Session → Session
load_params i header program_data memory s = record s {
  param_list = record {
    cmd = i;
    lex_state = record {
      at = program_data.ptr;
      rest = take program_data.len (drop program_data.ptr memory);
    };
    beyond = drop (program_data.ptr + program_data.len) memory;
    cmd_raw = drop header.ptr memory;
    cmd_raw_length = header.len;
  };
}

-- The input buffer as a handler finds it, and the memory of the message as the handler leaves it.
abbrev pub in_buffer : Bool → Bytes → Session → Session
in_buffer true memory s = record s { buffer = record s.buffer { bytes = memory } }
in_buffer false memory s = s

abbrev pub memory_of : Bool → Bytes → Session → Bytes
memory_of true memory s = s.buffer.bytes
memory_of false memory s = memory

-- A unit with a header, composed already.
unfoldable pub run_command : Option (ℕ × Command) → Token → Token → ℕ → Parsing → Parsing
run_command none header program_data r p = record p {
  session =
      on_context
        (error_push_ex (negsuc 112) (some (drop p.at p.memory)) (trimmed (drop p.at p.memory) r))
        p.session;
  result = false;
}
run_command (some (i, cmd)) header program_data r p =
    let (ok, s) =
      process_command cmd.callback
        (in_buffer p.shared p.memory (load_params i header program_data p.memory p.session)) in
    record p {
      cmd_prev = header;
      result = p.result && ok;
      session = s;
      memory = memory_of p.shared p.memory s;
    }

unfoldable pub parse_unit : (Bytes → ℕ × ℤ) → List Command → ProgramUnit → Parsing → Parsing
parse_unit strtol cmds u p =
    let (_, header, memory) = compose_compound_command p.cmd_prev (shift p.at u.header) p.memory in
    let found = find_command_header strtol cmds 0 (drop header.ptr memory) header.len in
    if is_invalid u.header.type
    then record p { session = push (negsuc 100) p.session; result = false }
    else if ltb 0 u.header.len
    then run_command found header (shift p.at u.program_data) u.result
        (record p { memory = memory })
    else p

-- The loop over the units; `none` means that the fuel has run out.
unfoldable pub parse_units : ℕ → (Bytes → ℕ × ℤ) → List Command → Parsing → Option Parsing
parse_units zero strtol cmds p = none
parse_units (suc fuel) strtol cmds p =
    let u = detect_program_message_unit (take p.len (drop p.at p.memory)) in
    let p' = parse_unit strtol cmds u p in
    let rest =
      parse_units fuel strtol cmds (record p' { at = p.at + u.result; len = p.len - u.result }) in
    if ltb u.result p.len then rest else some p'

abbrev pub parsing_or : Parsing → Option Parsing → Parsing
parsing_or p none = p
parsing_or p (some p') = p'

-- The context as SCPI_Parse starts.
abbrev pub start_parsing : Bool → Bytes → ℕ → Session → Parsing
start_parsing shared memory len s = record {
  shared = shared;
  memory = memory;
  at = 0;
  len = len;
  cmd_prev = token unknown 0 0;
  result = true;
  session = on_context (λ c. record c { output_count = 0; first_output = true }) s;
}

-- The result, the memory, in which headers were composed, and the session.
unfoldable pub scpi_parse :
    (Bytes → ℕ × ℤ) → List Command → Bool → Bytes → ℕ → Session → Bool × Bytes × Session
scpi_parse strtol cmds shared memory len s =
    let start = start_parsing shared memory len s in
    let p = parsing_or start (parse_units (suc len) strtol cmds start) in
    (p.result, p.memory, on_context (λ c. (write_new_line c).1) p.session)
