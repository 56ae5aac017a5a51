-- ===== src/Dispatch.antt =====
-- error-handling.go: `errorResponse`, `nextErrorHandler` and `dispatchError`. The application's handler
-- is a tree of the calls that it makes; what a responder and a default action return is a parameter,
-- and that they were called is recorded.
pub mod AtMostOnce
pub mod Late
mod Examples
use ssh_server_go.Prelude.{
  ℕ, Bool, true, false, not, ◌&&◌, Option, none, some, List, [], ◌∷◌, Bytes, if◌then◌else◌, is_some,
}
use ssh_server_go.Errors.{Error, ErrorScope, server, ErrorOperation, resolve_error_location}

pub data DispatchError : Type 0 where
  response_expired response_already_sent response_unsupported response_incomplete : DispatchError
  next_expired next_already_called next_incomplete : DispatchError
  context_cause : (id : ℕ) → DispatchError
  other : Error → DispatchError

abbrev pub Responder : Type 0
Responder = Bytes → Bool → Option DispatchError

abbrev pub DefaultAction : Type 0
DefaultAction = ErrorScope → ErrorOperation → Error → Bool × Option DispatchError

pub record ErrorResponse : Type 0 where
  pub respond : Option Responder
  pub active : Bool
  pub attempted : Bool
  pub complete : Bool
  pub err : Option DispatchError
  pub close : Bool

abbrev pub new_error_response : Option Responder → ErrorResponse
new_error_response respond = record {
  respond = respond;
  active = true;
  attempted = false;
  complete = false;
  err = none;
  close = false;
}

pub record NextErrorHandler : Type 0 where
  pub active : Bool
  pub called : Bool
  pub complete : Bool
  pub can_continue : Bool
  pub err : Option DispatchError
  pub scope : ErrorScope
  pub operation : ErrorOperation
  pub default_action : Option DefaultAction

abbrev pub new_next_error_handler : ErrorScope → ErrorOperation → DefaultAction → NextErrorHandler
new_next_error_handler scope operation default_action = record {
  active = true;
  called = false;
  complete = false;
  can_continue = false;
  err = none;
  scope = scope;
  operation = operation;
  default_action = some default_action;
}

-- A default action that was run, and its arguments.
pub record Run : Type 0 where
  pub scope : ErrorScope
  pub operation : ErrorOperation
  pub error : Error

-- Both states of a dispatch, the calls of the responder, and those of the default action.
pub record Dispatch : Type 0 where
  pub response : ErrorResponse
  pub next : NextErrorHandler
  pub sent : List (Bytes × Bool)
  pub runs : List Run

-- The first critical section of `send`: its error, or the responder to call.
pub data Sending : Type 0 where
  refused : DispatchError → Sending
  call_responder : Responder → Sending

-- Behind the guards, by whether there is a responder.
abbrev pub begin_with : Option Responder → Bool → ErrorResponse → Sending × ErrorResponse
begin_with none close r = (
  refused response_unsupported,
  record r { attempted = true; complete = true; err = some response_unsupported },
)
begin_with (some respond) close r =
    (call_responder respond, record r { attempted = true; close = close })

unfoldable pub begin_send : Bool → ErrorResponse → Sending × ErrorResponse
begin_send close r =
    if not r.active
    then (refused response_expired, r)
    else if r.attempted
    then (refused response_already_sent, r)
    else begin_with r.respond close r

abbrev pub finish_send : Option DispatchError → ErrorResponse → ErrorResponse
finish_send e r = record r { complete = true; err = e }

abbrev pub expire_response : ErrorResponse → ErrorResponse
expire_response r = record r { active = false; respond = none }

unfoldable pub response_result : ErrorResponse → Bool × Option DispatchError
response_result r =
    if r.attempted && not r.complete then (true, some response_incomplete) else (r.attempted, r.err)

abbrev pub close_requested : ErrorResponse → Bool
close_requested r = r.close

-- The first critical section of `call`.
pub data Calling : Type 0 where
  not_called : DispatchError → Calling
  call_default : Option DefaultAction → Calling

unfoldable pub begin_call : NextErrorHandler → Calling × NextErrorHandler
begin_call n =
    if not n.active
    then (not_called next_expired, n)
    else if n.called
    then (not_called next_already_called, n)
    else (call_default n.default_action, record n { called = true })

abbrev pub finish_call : Bool × Option DispatchError → NextErrorHandler → NextErrorHandler
finish_call result n = record n { complete = true; can_continue = result.0; err = result.1 }

abbrev pub expire_next : NextErrorHandler → NextErrorHandler
expire_next n = record n { active = false; default_action = none }

abbrev pub run_action :
    Option DefaultAction → ErrorScope → ErrorOperation → Error → Bool × Option DispatchError
run_action none scope operation e = (false, none)
run_action (some action) scope operation e = action scope operation e

-- `send` to its end, and `send` in a goroutine that is inside the responder when the handler goes on.
abbrev sent_to : Bytes → Bool → Dispatch → Sending × ErrorResponse → Option DispatchError × Dispatch
sent_to message close d (refused e, r) = (some e, record d { response = r })
sent_to message close d (call_responder respond, r) =
    let e = respond message close in
    (e, record d { response = finish_send e r; sent = (message, close) ∷ d.sent })

unfoldable pub send : Bytes → Bool → Dispatch → Option DispatchError × Dispatch
unfolding begin_send
send message close d = sent_to message close d (begin_send close d.response)

abbrev left_sending : Bytes → Bool → Dispatch → Sending × ErrorResponse → Dispatch
left_sending message close d (refused e, r) = record d { response = r }
left_sending message close d (call_responder respond, r) = record d {
  response = r;
  sent = (message, close) ∷ d.sent;
}

unfoldable pub leave_sending : Bytes → Bool → Dispatch → Dispatch
unfolding begin_send
leave_sending message close d = left_sending message close d (begin_send close d.response)

-- `call` to its end, with the error that the handler passes on, and `call` that is left running. The
-- scope and the operation are those of the dispatch, whatever the handler passes.
abbrev run_of : NextErrorHandler → Error → Run
run_of n e = record { scope = n.scope; operation = n.operation; error = e }

abbrev called_with :
    Error → Dispatch → Calling × NextErrorHandler → (Bool × Option DispatchError) × Dispatch
called_with e d (not_called x, n) = ((false, some x), record d { next = n })
called_with e d (call_default action, n) =
    let result = run_action action n.scope n.operation e in
    (result, record d { next = finish_call result n; runs = run_of n e ∷ d.runs })

unfoldable pub call : Error → Dispatch → (Bool × Option DispatchError) × Dispatch
unfolding begin_call
call e d = called_with e d (begin_call d.next)

abbrev left_calling : Error → Dispatch → Calling × NextErrorHandler → Dispatch
left_calling e d (not_called x, n) = record d { next = n }
left_calling e d (call_default action, n) = record d { next = n; runs = run_of n e ∷ d.runs }

unfoldable pub leave_calling : Error → Dispatch → Dispatch
unfolding begin_call
leave_calling e d = left_calling e d (begin_call d.next)

-- What an application's handler does: it returns, or makes a call and goes on with its result.
pub data ErrorHandler : Type 0 where
  returns : (can_continue : Bool) → (filtered : Option DispatchError) → ErrorHandler
  responds : Bytes → (close : Bool) → (Option DispatchError → ErrorHandler) → ErrorHandler
  responds_behind : Bytes → (close : Bool) → ErrorHandler → ErrorHandler
  calls_next : Error → (Bool × Option DispatchError → ErrorHandler) → ErrorHandler
  calls_next_behind : Error → ErrorHandler → ErrorHandler

unfoldable pub run_handler : ErrorHandler → Dispatch → (Bool × Option DispatchError) × Dispatch
unfolding send leave_sending call leave_calling
run_handler (returns can_continue filtered) d = ((can_continue, filtered), d)
run_handler (responds message close k) d = let r = send message close d in run_handler (k r.0) r.1
run_handler (responds_behind message close h) d = run_handler h (leave_sending message close d)
run_handler (calls_next e k) d = let r = call e d in run_handler (k r.0) r.1
run_handler (calls_next_behind e h) d = run_handler h (leave_calling e d)

abbrev pub expired_dispatch : Dispatch → Dispatch
expired_dispatch d = record d { response = expire_response d.response; next = expire_next d.next }

-- `dispatchError` behind the handler. `cause` is the context's, where the scope is the server's and the
-- context ends first; the tree is then what the handler has done by that time.
abbrev pub conclude :
    Option ℕ → (Bool × Option DispatchError) × Dispatch → (Bool × Option DispatchError) × Dispatch
conclude (some cause) (result, d) = ((false, some (context_cause cause)), expired_dispatch d)
conclude none (result, d) = (
  if d.next.called && not d.next.complete then (false, some next_incomplete) else result,
  expired_dispatch d,
)

abbrev pub fresh : ErrorScope × ErrorOperation → ErrorResponse → DefaultAction → Dispatch
fresh location response action = record {
  response = response;
  next = new_next_error_handler location.0 location.1 action;
  sent = [];
  runs = [];
}

-- With a handler, on an error that is not nil, and with the response and the default action given.
unfoldable pub dispatch_handled :
    Option ℕ
    → ErrorHandler
    → ErrorScope
    → ErrorOperation
    → Error
    → ErrorResponse
    → DefaultAction
    → (Bool × Option DispatchError) × Dispatch
unfolding run_handler resolve_error_location
dispatch_handled cause handler scope operation e response action =
    conclude cause
      (run_handler handler (fresh (resolve_error_location scope operation e) response action))

-- `dispatchError`, with the response and the default action given; `none` is a nil error or handler.
unfoldable pub dispatch_error :
    Option ℕ
    → Option ErrorHandler
    → ErrorScope
    → ErrorOperation
    → Option Error
    → ErrorResponse
    → DefaultAction
    → (Bool × Option DispatchError) × Dispatch
unfolding dispatch_handled resolve_error_location
dispatch_error cause handler scope operation none response action =
    ((true, none), fresh (scope, operation) response action)
dispatch_error cause none scope operation (some e) response action =
    let location = resolve_error_location scope operation e in
    let d = fresh location response action in
    (
      action location.0 location.1 e,
      record d {
        response = expire_response response;
        runs = record { scope = location.0; operation = location.1; error = e } ∷ [];
      },
    )
dispatch_error cause (some handler) scope operation (some e) response action =
    dispatch_handled cause handler scope operation e response action
