-- ===== src/Session/Finish.antt =====
-- The end of a session's handler: the goroutine of `startHandler`, `applyExitError` and
-- `respondToErrorWithin` (session.go).
pub mod Ends
pub mod LeftOpen
mod Examples
use ssh_server_go.Prelude.{
  ℕ, Bool, true, false, not, ◌&&◌, ◌||◌, Option, none, some, List, [], ◌∷◌, ◌++◌, Bytes, length,
  take, ltb, if◌then◌else◌, is_some, ◌==◌,
}
use ssh_server_go.Prelude.Int.{ℤ, pos}
use ssh_server_go.Errors.{
  Error, joined, nil, cons, session, handle, reply, SessionExitError, exclusive_session_exit_error,
  plain,
}
use ssh_server_go.Dispatch.{DispatchError, Responder, dispatch_error, new_error_response}
use ssh_server_go.Session.State.{
  Session, Config, Effect, dispatched, handled_error, close_session, close_connection, wrote_error,
}
use ssh_server_go.Session.CallbackError.{
  Handled, handled_of, handler_for, failure_handled, response_failed, dispatch_or_escalate,
}
use ssh_server_go.Session.Exit.{
  ExitError, response_pending, invalid_status, called_twice, failed, exit, session_close,
}

abbrev pub max_session_error_response_bytes : ℕ
max_session_error_response_bytes = 4096

-- What happens first while the message is written: the write returns, with a count and an error, the
-- context ends, or the time is over.
pub data Written : Type 0 where
  written : (n : ℕ) → (err : Option Error) → Written
  context_ended : (cause : Error) → Written
  timed_out : Written

-- The errors of this file as values with an identity.
abbrev pub short_write : Error
short_write = plain 7

abbrev pub deadline_exceeded : Error
deadline_exceeded = plain 8

abbrev pub write_error : Bytes → Written → List Effect × Option Error
write_error message (written n none) = ([], if n == length message then none else some short_write)
write_error message (written n (some e)) = ([], some e)
write_error message (context_ended cause) = (close_connection ∷ [], some cause)
write_error message timed_out = (close_connection ∷ [], some deadline_exceeded)

-- `respondToErrorWithin`.
unfoldable pub respond_to_error : Bytes → Bool → Written → List Effect × Option Error
respond_to_error message close fate =
    let sent = take max_session_error_response_bytes message in
    let result = write_error sent fate in
    (wrote_error sent ∷ (result.0 ++ (if close then close_connection ∷ [] else [])), result.1)

-- What the outside gives at the end: the handler's error, what writing its message gives, what the
-- responder of a dispatch returns, and what sending the exit status gives.
pub record Finish : Type 0 where
  pub err : Option Error
  pub fate : Written
  pub responder : Responder
  pub outcome : Option Error

-- The errors of `Exit` as values.
abbrev pub exit_error_of : ExitError → Error
exit_error_of response_pending = plain 9
exit_error_of invalid_status = plain 10
exit_error_of called_twice = plain 11
exit_error_of (failed e) = e

-- `errors.Join` of two errors.
abbrev pub join : Option Error → Option ExitError → Option Error
join none none = none
join none (some x) = some (joined 0 (cons (exit_error_of x) nil))
join (some e) none = some (joined 0 (cons e nil))
join (some e) (some x) = some (joined 0 (cons e (cons (exit_error_of x) nil)))

abbrev pub has_message : Bytes → Bool
has_message [] = false
has_message (b ∷ bs) = true

-- `applyExitError`.
unfoldable pub apply_exit_error :
    Finish → SessionExitError → Session → List Effect × (Session × Option Error)
unfolding respond_to_error exit
apply_exit_error f x s =
    let response =
      if has_message x.message then respond_to_error x.message false f.fate else ([], none) in
    let exited = exit f.outcome x.code s in
    (response.0 ++ exited.0, (exited.1.0, join response.1 exited.1.1))

-- An error that is left goes to the dispatcher.
abbrev pub report_reply : Config → Option Error → List Effect
report_reply c none = []
report_reply c (some e) = dispatch_or_escalate c reply e

abbrev pub maybe_exit_error : Option ExitError → Option Error
maybe_exit_error none = none
maybe_exit_error (some x) = some (exit_error_of x)

abbrev pub exit_and_report : Config → Finish → ℕ → Session → List Effect × Session
exit_and_report c f status s =
    let r = exit f.outcome (pos status) s in (r.0 ++ report_reply c (maybe_exit_error r.1.1), r.1.0)

-- The end: the channel is closed at the response's request, or the session exits with a status.
abbrev pub close_or_exit : Config → Finish → (closes fails : Bool) → Session → List Effect × Session
close_or_exit c f closes fails s =
    if closes
    then ((session_close none s).0, s)
    else if s.exited
    then ([], s)
    else exit_and_report c f (if fails then 1 else 0) s

-- Behind the dispatch of an error: the error that is left closes the channel or the connection, and the
-- error of the response closes the channel.
abbrev pub close_filtered : Handled → Session → List Effect
close_filtered h s =
    if is_some h.filtered
    then (if failure_handled h then (session_close none s).0 else close_connection ∷ [])
    else []

abbrev pub response_left : Handled → Bool
response_left h = response_failed h.response_err && not (failure_handled h)

abbrev pub close_failed : Handled → Session → List Effect
close_failed h s = if response_left h then (session_close none s).0 else []

unfoldable pub finish_dispatched : Config → Finish → Handled → Session → List Effect × Session
unfolding dispatch_or_escalate exit session_close response_failed
finish_dispatched c f h s =
    let fails = not h.can_continue || (is_some h.filtered || response_left h) in
    let r = close_or_exit c f h.closes fails s in
    (close_filtered h s ++ (close_failed h s ++ r.0), r.1)

-- With an exit error, and without one.
abbrev pub apply_and_report : Config → Finish → SessionExitError → Session → List Effect × Session
apply_and_report c f x s = let r = apply_exit_error f x s in (r.0 ++ report_reply c r.1.1, r.1.0)

abbrev pub finish_exit : Config → Finish → SessionExitError → Session → List Effect × Session
finish_exit c f x s = if s.exited then ([], s) else apply_and_report c f x s

abbrev pub finish_other : Config → Finish → Option Error → Session → List Effect × Session
finish_other c f none s = close_or_exit c f false false s
finish_other c f (some e) s =
    let d =
      dispatch_error none (handler_for c.error_handler e) session handle (some e)
        (new_error_response (some f.responder)) c.default_action in
    let r = finish_dispatched c f (handled_of d) s in (handled_error d.1.sent ∷ r.0, r.1)

abbrev pub finish_by : Config → Finish → Option SessionExitError → Session → List Effect × Session
finish_by c f (some x) s = finish_exit c f x s
finish_by c f none s = finish_other c f f.err s

-- `startHandler`, from the return of the handler on.
unfoldable pub finish_handler : Config → Finish → Session → List Effect × Session
unfolding apply_exit_error dispatch_or_escalate finish_dispatched dispatch_error
    exclusive_session_exit_error
finish_handler c f s = finish_by c f (exclusive_session_exit_error f.err) s
