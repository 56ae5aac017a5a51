-- ===== src/GlobalRequests/Rejections.antt =====
-- The dispatch of a request handler's error: the responder and the default action reject the request
-- (server.go, `handleRequests`).
use ssh_server_go.Prelude.{
  ℕ, suc, Bool, true, false, not, ◌&&◌, Option, none, some, [], Bytes, if◌then◌else◌,
}
use ssh_server_go.Errors.{Error, plain, located, request, handle, reply}
use ssh_server_go.Response.{
  ResponseError, expired, already_sent, incomplete, unsupported, reply_failed, cancelled,
  reject_from_error_handler,
}
use ssh_server_go.Dispatch as Dispatch
use ssh_server_go.Dispatch.{
  DispatchError, response_unsupported, next_incomplete, other, ErrorResponse, new_error_response,
  NextErrorHandler, new_next_error_handler, Sending, call_responder, begin_send, finish_send,
  response_result, Calling, not_called, call_default, begin_call, finish_call, ErrorHandler,
  returns, responds, responds_behind, calls_next, calls_next_behind,
}
use ssh_server_go.Session.CallbackError.{response_failed}
use ssh_server_go.GlobalRequests.Handlers.{GlobalRequest, Answering, answered, leave_answer}

-- The errors of a request's response as values with an identity.
abbrev pub response_error_of : ResponseError → Error
response_error_of expired = plain 20
response_error_of already_sent = plain 21
response_error_of incomplete = plain 22
response_error_of unsupported = plain 2
response_error_of (reply_failed id) = located 23 request reply (plain id)
response_error_of (cancelled id) = plain id

abbrev pub dispatch_error_of : Option ResponseError → Option DispatchError
dispatch_error_of none = none
dispatch_error_of (some unsupported) = some response_unsupported
dispatch_error_of (some expired) = some (other (response_error_of expired))
dispatch_error_of (some already_sent) = some (other (response_error_of already_sent))
dispatch_error_of (some incomplete) = some (other (response_error_of incomplete))
dispatch_error_of (some (reply_failed id)) = some (other (response_error_of (reply_failed id)))
dispatch_error_of (some (cancelled id)) = some (other (response_error_of (cancelled id)))

-- A dispatch of a handler's error: the request, the response and the next handler that the error
-- handler has, and how often the connection is closed.
pub record Dispatching : Type 0 where
  pub answering : Answering
  pub response : ErrorResponse
  pub next : NextErrorHandler
  pub closes : ℕ

-- The responder: it rejects a request that wants a reply, and then closes the connection if it is asked
-- to.
abbrev pub reject_with : Option ℕ → Bool → Bytes → Answering → Option DispatchError × Answering
reject_with outcome false message a = (some response_unsupported, a)
reject_with outcome true message a =
    let r = answered a (reject_from_error_handler outcome message a.response) in
    (dispatch_error_of r.0, r.1)

abbrev pub count_close : Bool → ℕ → ℕ
count_close true n = suc n
count_close false n = n

abbrev pub sent_with :
    GlobalRequest
    → Bytes
    → Bool
    → Dispatching
    → Sending × ErrorResponse
    → Option DispatchError × Dispatching
sent_with q message close d (Dispatch.refused e, r) = (some e, record d { response = r })
sent_with q message close d (call_responder responder, r) =
    let rejected = reject_with q.outcome q.want_reply message d.answering in
    (
      rejected.0,
      record d {
        answering = rejected.1;
        response = finish_send rejected.0 r;
        closes = count_close close d.closes;
      },
    )

unfoldable pub send_rejection :
    GlobalRequest → Bytes → Bool → Dispatching → Option DispatchError × Dispatching
unfolding begin_send reject_from_error_handler
send_rejection q message close d = sent_with q message close d (begin_send close d.response)

-- A goroutine that is inside the responder.
abbrev pub left_rejecting :
    GlobalRequest → Bytes → Dispatching → Sending × ErrorResponse → Dispatching
left_rejecting q message d (Dispatch.refused e, r) = record d { response = r }
left_rejecting q message d (call_responder responder, r) = record d {
  answering = if q.want_reply then leave_answer false message false d.answering else d.answering;
  response = r;
}

unfoldable pub leave_rejection : GlobalRequest → Bytes → Bool → Dispatching → Dispatching
unfolding begin_send leave_answer
leave_rejection q message close d = left_rejecting q message d (begin_send close d.response)

-- The default action: it rejects the request, unless the error handler has responded.
abbrev pub rejected_with :
    Option DispatchError × Dispatching → (Bool × Option DispatchError) × Dispatching
rejected_with (e, d) = (if response_failed e then (false, e) else (true, none), d)

unfoldable pub default_rejects :
    GlobalRequest → Dispatching → (Bool × Option DispatchError) × Dispatching
unfolding response_result send_rejection response_failed
default_rejects q d =
    let result = response_result d.response in
    rejected_with (if result.0 then (result.1, d) else send_rejection q [] false d)

abbrev pub called_with :
    GlobalRequest
    → Dispatching
    → Calling × NextErrorHandler
    → (Bool × Option DispatchError) × Dispatching
called_with q d (not_called x, n) = ((false, some x), record d { next = n })
called_with q d (call_default action, n) =
    let r = default_rejects q (record d { next = n }) in
    (r.0, record r.1 { next = finish_call r.0 r.1.next })

unfoldable pub call_rejection :
    GlobalRequest → Dispatching → (Bool × Option DispatchError) × Dispatching
unfolding begin_call default_rejects
call_rejection q d = called_with q d (begin_call d.next)

-- What the error handler does, as in Dispatch.
unfoldable pub run_error_handler :
    GlobalRequest → ErrorHandler → Dispatching → (Bool × Option DispatchError) × Dispatching
unfolding send_rejection leave_rejection call_rejection begin_call
run_error_handler q (returns can_continue filtered) d = ((can_continue, filtered), d)
run_error_handler q (responds message close k) d =
    let r = send_rejection q message close d in run_error_handler q (k r.0) r.1
run_error_handler q (responds_behind message close h) d =
    run_error_handler q h (leave_rejection q message close d)
run_error_handler q (calls_next e k) d =
    let r = call_rejection q d in run_error_handler q (k r.0) r.1
run_error_handler q (calls_next_behind e h) d =
    run_error_handler q h (record d { next = (begin_call d.next).1 })

-- The action and the responder read the state, and stand in `next` and `response` only as given.
abbrev pub new_dispatching : Answering → Dispatching
new_dispatching a = record {
  answering = a;
  response = new_error_response (some (λ message close. none));
  next = new_next_error_handler request handle (λ scope operation e. (true, none));
  closes = 0;
}

abbrev pub concluded :
    (Bool × Option DispatchError) × Dispatching → (Bool × Option DispatchError) × Dispatching
concluded (result, d) =
    (if d.next.called && not d.next.complete then (false, some next_incomplete) else result, d)

unfoldable pub dispatch_rejection :
    GlobalRequest → Error → Answering → (Bool × Option DispatchError) × Dispatching
unfolding run_error_handler default_rejects
dispatch_rejection q e a = elim (q.error_handler) [
  | none ↦ default_rejects q (new_dispatching a)
  | some handler ↦ concluded (run_error_handler q (handler e) (new_dispatching a))
]
