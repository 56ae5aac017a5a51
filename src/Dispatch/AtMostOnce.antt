-- ===== src/Dispatch/AtMostOnce.antt =====
-- Whatever a handler does, it gets one response and one default action at most.
use ssh_server_go.Prelude.{
  ℕ, ◌≤◌, ◌≡◌, refl, Bool, false, Option, none, some, All, length, Bytes, arith, one,
}
use ssh_server_go.Errors.{Error, ErrorScope, ErrorOperation, resolve_error_location}
use ssh_server_go.Dispatch.{
  DispatchError, DefaultAction, ErrorResponse, Run, Dispatch, begin_send, begin_call, send,
  leave_sending, call, leave_calling, ErrorHandler, returns, responds, responds_behind, calls_next,
  calls_next_behind, run_handler, expired_dispatch, conclude, fresh, dispatch_handled,
}

-- At the location of the dispatch.
abbrev pub IsAt : ErrorScope × ErrorOperation → Run → Type 0
IsAt l r = (r.scope ≡ l.0) × (r.operation ≡ l.1)

pub record Inv (l : ErrorScope × ErrorOperation) (d : Dispatch) : Type 0 where
  pub scope : d.next.scope ≡ l.0
  pub operation : d.next.operation ≡ l.1
  pub located : All (IsAt l) d.runs
  pub sent : length d.sent ≤ one d.response.attempted
  pub runs : length d.runs ≤ one d.next.called

send-Inv :
    {l : ErrorScope × ErrorOperation} {d : Dispatch}
    → (message : Bytes) (close : Bool) → Inv l d
    → Inv l (send message close d).1
unfolding send begin_send
send-Inv message close v = ground (arith, v)

leave_sending-Inv :
    {l : ErrorScope × ErrorOperation} {d : Dispatch}
    → (message : Bytes) (close : Bool) → Inv l d
    → Inv l (leave_sending message close d)
unfolding leave_sending begin_send
leave_sending-Inv message close v = ground (arith, v)

call-Inv :
    {l : ErrorScope × ErrorOperation} {d : Dispatch} → (e : Error) → Inv l d → Inv l (call e d).1
unfolding call begin_call
call-Inv e v = ground (arith, v)

leave_calling-Inv :
    {l : ErrorScope × ErrorOperation} {d : Dispatch}
    → (e : Error) → Inv l d
    → Inv l (leave_calling e d)
unfolding leave_calling begin_call
leave_calling-Inv e v = ground (arith, v)

run_handler-Inv :
    {l : ErrorScope × ErrorOperation} {d : Dispatch}
    → (h : ErrorHandler) → Inv l d
    → Inv l (run_handler h d).1
unfolding run_handler
run_handler-Inv (returns b e) v = v
run_handler-Inv {l = l} {d = d} (responds message close k) v =
    run_handler-Inv {l = l} {d = (send message close d).1} (k (send message close d).0)
      (send-Inv message close v)
run_handler-Inv {l = l} {d = d} (responds_behind message close h) v =
    run_handler-Inv {l = l} {d = leave_sending message close d} h
      (leave_sending-Inv message close v)
run_handler-Inv {l = l} {d = d} (calls_next e k) v =
    run_handler-Inv {l = l} {d = (call e d).1} (k (call e d).0) (call-Inv e v)
run_handler-Inv {l = l} {d = d} (calls_next_behind e h) v =
    run_handler-Inv {l = l} {d = leave_calling e d} h (leave_calling-Inv e v)

-- What a dispatch leaves: at most one response, at most one default action, at the location that the
-- error gives, and both of its interfaces expired.
pub record IsOnce (l : ErrorScope × ErrorOperation) (d : Dispatch) : Type 0 where
  pub sent : length d.sent ≤ 1
  pub runs : length d.runs ≤ 1
  pub located : All (IsAt l) d.runs
  pub response_expired : d.response.active ≡ false
  pub next_expired : d.next.active ≡ false

Inv-IsOnce :
    {l : ErrorScope × ErrorOperation} {d : Dispatch} → Inv l d → IsOnce l (expired_dispatch d)
Inv-IsOnce v = record {
  sent = ground (arith, v.sent);
  runs = ground (arith, v.runs);
  located = v.located;
  response_expired = refl;
  next_expired = refl;
}

conclude-expired :
    {l : ErrorScope × ErrorOperation}
    → (cause : Option ℕ) (r : (Bool × Option DispatchError) × Dispatch)
    → IsOnce l (expired_dispatch r.1)
    → IsOnce l (conclude cause r).1
conclude-expired none (a, d) v = v
conclude-expired (some c) (a, d) v = v

fresh-Inv :
    (l : ErrorScope × ErrorOperation) (response : ErrorResponse) (action : DefaultAction)
    → Inv l (fresh l response action)
fresh-Inv l response action = record {
  scope = refl;
  operation = refl;
  located = tt;
  sent = omega arith;
  runs = omega arith;
}

-- Whatever the handler does, and also when the context ends before it returns, a dispatch makes at most
-- one response and runs the default action at most once, at the location that the error gives and not
-- at one that the handler names; afterwards both are expired.
pub dispatch_handled-IsOnce :
    (cause : Option ℕ) (handler : ErrorHandler) (scope : ErrorScope) (operation : ErrorOperation)
    (e : Error) (response : ErrorResponse) (action : DefaultAction)
    → IsOnce
        (resolve_error_location scope operation e)
        (dispatch_handled cause handler scope operation e response action).1
unfolding dispatch_handled
dispatch_handled-IsOnce cause handler scope operation e response action =
    let l = resolve_error_location scope operation e in
    conclude-expired cause (run_handler handler (fresh l response action))
      (Inv-IsOnce (run_handler-Inv handler (fresh-Inv l response action)))
