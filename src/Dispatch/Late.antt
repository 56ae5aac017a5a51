-- ===== src/Dispatch/Late.antt =====
-- A handler that goes on after its dispatch, and one that leaves nothing running.
use ssh_server_go.Prelude.{
  ℕ, ◌≡◌, refl, ◌∙◌, Bool, true, false, not, ◌&&◌, Option, none, some, Bytes, arith,
}
use ssh_server_go.Errors.{Error, ErrorScope, ErrorOperation, resolve_error_location}
use ssh_server_go.Dispatch.{
  DispatchError, DefaultAction, ErrorResponse, Dispatch, begin_send, begin_call, send,
  leave_sending, call, leave_calling, ErrorHandler, returns, responds, responds_behind, calls_next,
  calls_next_behind, run_handler, expired_dispatch, conclude, fresh, dispatch_handled,
  response_expired, next_expired,
}

-- Every call behind the end of the dispatch is without effect.
late_calls :
    (h : ErrorHandler) (d : Dispatch) → (run_handler h (expired_dispatch d)).1 ≡ expired_dispatch d
unfolding run_handler send begin_send leave_sending call begin_call leave_calling
late_calls (returns b e) d = refl
late_calls (responds message close k) d = late_calls (k (some response_expired)) d
late_calls (responds_behind message close h) d = late_calls h d
late_calls (calls_next e k) d = late_calls (k (false, some next_expired)) d
late_calls (calls_next_behind e h) d = late_calls h d

conclude-late :
    (cause : Option ℕ) (h : ErrorHandler) (r : (Bool × Option DispatchError) × Dispatch)
    → (run_handler h (conclude cause r).1).1 ≡ (conclude cause r).1
conclude-late none h (a, d) = late_calls h d
conclude-late (some c) h (a, d) = late_calls h d

-- Whatever a handler does behind the end of its dispatch, it sends nothing, runs no default action and
-- changes neither state.
pub dispatch_handled-late :
    (cause : Option ℕ) (handler late : ErrorHandler) (scope : ErrorScope)
    (operation : ErrorOperation) (e : Error) (response : ErrorResponse) (action : DefaultAction)
    → (run_handler late (dispatch_handled cause handler scope operation e response action).1).1
      ≡ (dispatch_handled cause handler scope operation e response action).1
unfolding dispatch_handled
dispatch_handled-late cause handler late scope operation e response action =
    conclude-late cause late
      (run_handler handler (fresh (resolve_error_location scope operation e) response action))

-- No call of the default action is left running.
abbrev pub WaitsForNext : ErrorHandler → Type 0
WaitsForNext (returns b e) = Unit {0}
WaitsForNext (responds message close k) = (o : Option DispatchError) → WaitsForNext (k o)
WaitsForNext (responds_behind message close h) = WaitsForNext h
WaitsForNext (calls_next e k) = (o : Bool × Option DispatchError) → WaitsForNext (k o)
WaitsForNext (calls_next_behind e h) = ⊥

-- A call of the default action has ended.
abbrev pub ended : Dispatch → Bool
ended d = not (d.next.called && not d.next.complete)

send-ended :
    (message : Bytes) (close : Bool) (d : Dispatch) → ended (send message close d).1 ≡ ended d
unfolding send begin_send
send-ended message close d = ground arith

leave_sending-ended :
    (message : Bytes) (close : Bool) (d : Dispatch)
    → ended (leave_sending message close d) ≡ ended d
unfolding leave_sending begin_send
leave_sending-ended message close d = ground arith

call-ended : (e : Error) (d : Dispatch) → ended d ≡ true → ended (call e d).1 ≡ true
unfolding call begin_call
call-ended e d h = ground arith

run_handler-ended :
    (h : ErrorHandler) (d : Dispatch)
    → WaitsForNext h
    → ended d ≡ true
    → ended (run_handler h d).1 ≡ true
unfolding run_handler
run_handler-ended (returns b e) d w p = p
run_handler-ended (responds message close k) d w p =
    run_handler-ended (k (send message close d).0) (send message close d).1
      (w (send message close d).0) (send-ended message close d ∙ p)
run_handler-ended (responds_behind message close h) d w p =
    run_handler-ended h (leave_sending message close d) w (leave_sending-ended message close d ∙ p)
run_handler-ended (calls_next e k) d w p =
    run_handler-ended (k (call e d).0) (call e d).1 (w (call e d).0) (call-ended e d p)
run_handler-ended (calls_next_behind e h) d w p = absurd w

conclude-ended :
    (r : (Bool × Option DispatchError) × Dispatch) → ended r.1 ≡ true → (conclude none r).0 ≡ r.0
conclude-ended (a, d) p = ground arith

-- A handler that leaves no call of the default action running decides: `dispatchError` returns what it
-- returns, where the context does not end first.
pub dispatch_handled-result :
    (handler : ErrorHandler) (scope : ErrorScope) (operation : ErrorOperation) (e : Error)
    (response : ErrorResponse) (action : DefaultAction)
    → WaitsForNext handler
    → (dispatch_handled none handler scope operation e response action).0
      ≡ (run_handler handler (fresh (resolve_error_location scope operation e) response action)).0
unfolding dispatch_handled
dispatch_handled-result handler scope operation e response action w =
    let d = fresh (resolve_error_location scope operation e) response action in
    conclude-ended (run_handler handler d) (run_handler-ended handler d w refl)
