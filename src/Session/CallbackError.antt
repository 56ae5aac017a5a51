-- ===== src/Session/CallbackError.antt =====
-- `reply` and `handleCallbackError` (session.go).
use ssh_server_go.Prelude.{
  ◌++◌, Bool, true, false, not, ◌&&◌, ◌||◌, Option, none, some, List, [], ◌∷◌, if◌then◌else◌,
  is_some,
}
use ssh_server_go.Errors.{
  ErrorOperation, Error, plain, joined, nil, cons, session, handle, reply, is, is_only_error,
}
use ssh_server_go.Dispatch.{
  DispatchError, response_expired, response_already_sent, response_unsupported, response_incomplete,
  next_expired, next_already_called, next_incomplete, context_cause, other, ErrorHandler, Dispatch,
  new_error_response, response_result, close_requested, dispatch_error,
}
use ssh_server_go.Session.State.{
  Config, Input, Effect, replied, dispatched, handled_error, close_session, close_connection,
}

-- The errors of error-handling.go as values with an identity.
abbrev pub error_of : DispatchError → Error
error_of response_expired = plain 0
error_of response_already_sent = plain 1
error_of response_unsupported = plain 2
error_of response_incomplete = plain 3
error_of next_expired = plain 4
error_of next_already_called = plain 5
error_of next_incomplete = plain 6
error_of (context_cause id) = plain id
error_of (other e) = e

abbrev pub maybe_error_of : Option DispatchError → Option Error
maybe_error_of none = none
maybe_error_of (some e) = some (error_of e)

-- `responseErr != nil && !errors.Is(responseErr, ErrErrorResponseUnsupported)`
unfoldable pub response_failed : Option DispatchError → Bool
unfolding is
response_failed none = false
response_failed (some e) = not (is (error_of e) (plain 2))

-- What the error handler's dispatch leaves: whether to continue, the filtered error, the error of the
-- response, and whether the handler asked to close.
pub record Handled : Type 0 where
  pub can_continue : Bool
  pub filtered : Option DispatchError
  pub response_err : Option DispatchError
  pub closes : Bool

abbrev pub only_response : Handled → Bool
only_response h = is_only_error (maybe_error_of h.filtered) (maybe_error_of h.response_err)

abbrev pub failure_handled : Handled → Bool
failure_handled h = is_some h.filtered && (response_failed h.response_err && only_response h)

abbrev pub close_either : Bool → List Effect
close_either true = close_connection ∷ []
close_either false = close_session ∷ []

abbrev pub handler_for : Option (Error → ErrorHandler) → Error → Option ErrorHandler
handler_for none e = none
handler_for (some handler) e = some (handler e)

-- `dispatchErrorOrEscalate` of the session's scope, with no response: whether it closes the connection.
-- The responder that `dispatchError` makes closes it if it is asked to, and so does an error that the
-- error handler leaves.
unfoldable pub escalates : Config → ErrorOperation → Error → Bool
unfolding dispatch_error
escalates c operation e =
    let d =
      dispatch_error none (handler_for c.error_handler e) session operation (some e)
        (new_error_response (some (λ message close. some response_unsupported))) c.default_action in
    is_some d.0.1 || close_requested d.1.response

unfoldable pub dispatch_or_escalate : Config → ErrorOperation → Error → List Effect
unfolding escalates
dispatch_or_escalate c operation e =
    dispatched operation e ∷ (if escalates c operation e then close_connection ∷ [] else [])

-- Behind the dispatch, where the reply fails.
unfoldable pub reply_fails : Config → Error → Error → Handled → List Effect
unfolding dispatch_or_escalate
reply_fails c callback_error e h =
    dispatch_or_escalate c reply (joined 0 (cons callback_error (cons e nil)))
    ++ close_either (h.closes || (is_some h.filtered && not (failure_handled h)))

-- Behind the dispatch and a reply: whether the loop goes on.
unfoldable pub conclude_callback : Handled → List Effect × Bool
unfolding response_failed is_only_error
conclude_callback h =
    if is_some h.filtered
    then (close_either (h.closes || not (failure_handled h)), false)
    else if response_failed h.response_err
    then (close_either h.closes, false)
    else if h.closes
    then (close_connection ∷ [], false)
    else if not h.can_continue
    then (close_session ∷ [], false)
    else ([], true)

abbrev pub after_reply : Config → Error → Option Error → Handled → List Effect × Bool
after_reply c callback_error none h = conclude_callback h
after_reply c callback_error (some e) h = (reply_fails c callback_error e h, false)

abbrev pub handled_of : (Bool × Option DispatchError) × Dispatch → Handled
handled_of ((can_continue, filtered), d) = record {
  can_continue = can_continue;
  filtered = filtered;
  response_err = (response_result d.response).1;
  closes = close_requested d.response;
}

unfoldable pub dispatch_callback : Config → Input → Error → (Bool × Option DispatchError) × Dispatch
unfolding dispatch_error
dispatch_callback c i callback_error =
    dispatch_error none (handler_for c.error_handler callback_error) session handle
      (some callback_error) (new_error_response (some (λ message close. i.responder message false)))
      c.default_action

-- `handleCallbackError`: the effects, in their order, and whether the loop goes on.
unfoldable pub handle_callback_error : Config → Input → Error → List Effect × Bool
unfolding dispatch_callback response_result conclude_callback reply_fails
handle_callback_error c i callback_error =
    let dispatch = dispatch_callback c i callback_error in
    let result = after_reply c callback_error i.reply_failure (handled_of dispatch) in
    (handled_error dispatch.1.sent ∷ replied false ∷ result.0, result.1)

-- `reply`.
unfoldable pub reply_to : Config → Input → Bool → List Effect × Bool
unfolding dispatch_or_escalate
reply_to c i accepted = elim (i.reply_failure) [
  | none ↦ (replied accepted ∷ [], true)
  | some e ↦ (replied accepted ∷ (dispatch_or_escalate c reply e ++ close_connection ∷ []), false)
]
