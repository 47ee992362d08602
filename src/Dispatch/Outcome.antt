-- ===== src/Dispatch/Outcome.antt =====
-- libscpi/src/parser.c: the result of processCommand.
use scpi_parser.Base.{
  ◌≡◌, refl, inl, inr, Bool, true, false, Bool-cases, Option, none, some, not, ◌&&◌, if◌then◌else◌,
  ℤ, negsuc,
}
use scpi_parser.Context.{Context}
use scpi_parser.ErrorQueue.{error_push, error_push_ex}
use scpi_parser.Lexer.{iseos}
use scpi_parser.Session.{Session, Handler}
use scpi_parser.Dispatch.{
  call_back, reset_command, is_query_header, process_command, separate_query, push,
}

pub push-cmd_error : (code : ℤ) (c : Context) → (error_push code c).cmd_error ≡ true
unfolding error_push error_push_ex
push-cmd_error code c = refl

call_back-cmd_error :
    (f : Handler) (is_query : Bool) (s : Session)
    → (call_back (some f) is_query s).1.context.cmd_error ≡ not (call_back (some f) is_query s).0
unfolding call_back
call_back-cmd_error f is_query s = elim (Bool-cases (f s).0) [
  | inr e ↦ elim (Bool-cases (f s).1.context.cmd_error) [
    | inl h ↦ rw (e, h) refl
    | inr h ↦ rw (e, h) (push-cmd_error _ _)
  ]
  | inl e ↦ elim (Bool-cases (f s).1.context.cmd_error) [
    | inl h ↦ rw (e, h) refl
    | inr h ↦ elim (Bool-cases ((f s).1.context.first_output && is_query)) [
      | inl k ↦ rw (e, h, k) refl
      | inr k ↦ rw (e, h, k) refl
    ]
  ]
]

none-cmd_error :
    (is_query : Bool) (s : Session)
    → s.context.cmd_error ≡ false
    → (call_back none is_query s).1.context.cmd_error ≡ not (call_back none is_query s).0
unfolding call_back
none-cmd_error is_query s h = h

-- Without a handler nothing is noted, as the error of an earlier command was reset.
noted :
    (callback : Option Handler) (is_query : Bool) (s : Session)
    → (call_back callback is_query (reset_command s)).1.context.cmd_error
      ≡ not (call_back callback is_query (reset_command s)).0
noted none is_query s = none-cmd_error is_query (reset_command s) refl
noted (some f) is_query s = call_back-cmd_error f is_query (reset_command s)

-- The check for parameters that are left.
checked :
    (r : Bool × Session)
    → r.1.context.cmd_error ≡ not r.0
    → (if not (iseos r.1.param_list.lex_state) && not r.1.context.cmd_error
        then (false, push (negsuc 107) r.1)
        else r).1.context.cmd_error
      ≡ not
          (if not (iseos r.1.param_list.lex_state) && not r.1.context.cmd_error
            then (false, push (negsuc 107) r.1)
            else r).0
checked r h =
    elim (Bool-cases (not (iseos r.1.param_list.lex_state) && not r.1.context.cmd_error)) [
      | inl e ↦ rw e (push-cmd_error _ _)
      | inr e ↦ rw e h
    ]

-- The result of processCommand is FALSE exactly if an error was noted, by the handler, because the
-- handler failed, or because parameters are left, whatever the handler does.
pub process_command-cmd_error :
    (callback : Option Handler) (s : Session)
    → (process_command callback s).1.context.cmd_error ≡ not (process_command callback s).0
unfolding process_command
process_command-cmd_error callback s =
    checked _ (noted callback (is_query_header s) (separate_query s))
