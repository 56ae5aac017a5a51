-- ===== src/GlobalRequests/Rejected.antt =====
-- The dispatch of an error keeps what the calls of a request's handler keep.
use ssh_server_go.Prelude.{Bool, true, false, Option, none, some, [], Bytes, if◌then◌else◌}
use ssh_server_go.Errors.{Error}
use ssh_server_go.Dispatch as Dispatch
use ssh_server_go.Dispatch.{
  DispatchError, ErrorResponse, Sending, call_responder, begin_send, Calling, not_called,
  call_default, begin_call, response_result, ErrorHandler, returns, responds, responds_behind,
  calls_next, calls_next_behind,
}
use ssh_server_go.GlobalRequests.Handlers.{GlobalRequest, Answering, leave_answer}
use ssh_server_go.GlobalRequests.Rejections.{
  Dispatching, sent_with, send_rejection, left_rejecting, leave_rejection, rejected_with,
  default_rejects, called_with, call_rejection, run_error_handler, new_dispatching, concluded,
  dispatch_rejection,
}
use ssh_server_go.GlobalRequests.Answered.{IsOpen, reject-IsOpen, leave_answer-IsOpen}

-- The dispatch of an error.
module _ (want : Bool) (q : GlobalRequest) where
  abbrev Open : Dispatching → Type 0
  Open d = IsOpen want d.answering

  sent_with-Open :
      (message : Bytes) (close : Bool) (d : Dispatching) (s : Sending × ErrorResponse)
      → Open d
      → Open ((sent_with q message close d s).1)
  sent_with-Open message close d (Dispatch.refused e, r) h = h
  sent_with-Open message close d (call_responder responder, r) h =
      reject-IsOpen want q.want_reply q.outcome message d.answering h

  send_rejection-Open :
      (message : Bytes) (close : Bool) (d : Dispatching)
      → Open d
      → Open ((send_rejection q message close d).1)
  unfolding send_rejection
  send_rejection-Open message close d h =
      sent_with-Open message close d (begin_send close d.response) h

  asks-Open :
      (asks : Bool) (message : Bytes) (a : Answering)
      → IsOpen want a
      → IsOpen want (if asks then leave_answer false message false a else a)
  asks-Open true message a h = leave_answer-IsOpen want false message false a h
  asks-Open false message a h = h

  left_rejecting-Open :
      (message : Bytes) (d : Dispatching) (s : Sending × ErrorResponse)
      → Open d
      → Open (left_rejecting q message d s)
  left_rejecting-Open message d (Dispatch.refused e, r) h = h
  left_rejecting-Open message d (call_responder responder, r) h =
      asks-Open q.want_reply message d.answering h

  leave_rejection-Open :
      (message : Bytes) (close : Bool) (d : Dispatching)
      → Open d
      → Open (leave_rejection q message close d)
  unfolding leave_rejection
  leave_rejection-Open message close d h =
      left_rejecting-Open message d (begin_send close d.response) h

  rejected_with-Open :
      (b : Bool) (x y : Option DispatchError × Dispatching)
      → Open x.1
      → Open y.1
      → Open ((rejected_with (if b then x else y)).1)
  rejected_with-Open true x y hx hy = hx
  rejected_with-Open false x y hx hy = hy

  default_rejects-Open : (d : Dispatching) → Open d → Open ((default_rejects q d).1)
  unfolding default_rejects
  default_rejects-Open d h =
      let result = response_result d.response in
      rejected_with-Open result.0 (result.1, d) (send_rejection q [] false d) h
        (send_rejection-Open [] false d h)

  called_with-Open :
      (d : Dispatching) (c : Calling × Dispatch.NextErrorHandler)
      → Open d
      → Open ((called_with q d c).1)
  called_with-Open d (not_called x, n) h = h
  called_with-Open d (call_default action, n) h = default_rejects-Open (record d { next = n }) h

  call_rejection-Open : (d : Dispatching) → Open d → Open ((call_rejection q d).1)
  unfolding call_rejection
  call_rejection-Open d h = called_with-Open d (begin_call d.next) h

  run_error_handler-Open :
      (e : ErrorHandler) (d : Dispatching) → Open d → Open ((run_error_handler q e d).1)
  unfolding run_error_handler
  run_error_handler-Open (returns c f) d h = h
  run_error_handler-Open (responds message close k) d h =
      let r = send_rejection q message close d in
      run_error_handler-Open (k r.0) r.1 (send_rejection-Open message close d h)
  run_error_handler-Open (responds_behind message close e) d h =
      run_error_handler-Open e (leave_rejection q message close d)
        (leave_rejection-Open message close d h)
  run_error_handler-Open (calls_next x k) d h =
      let r = call_rejection q d in run_error_handler-Open (k r.0) r.1 (call_rejection-Open d h)
  run_error_handler-Open (calls_next_behind x e) d h =
      run_error_handler-Open e (record d { next = (begin_call d.next).1 }) h

  concluded-Open :
      (r : (Bool × Option DispatchError) × Dispatching) → Open r.1 → Open ((concluded r).1)
  concluded-Open r h = h

dispatch_by :
    (want : Bool) (q : GlobalRequest) (handler : Option (Error → ErrorHandler)) (e : Error)
    (a : Answering)
    → IsOpen want a
    → IsOpen want ((dispatch_rejection (record q { error_handler = handler }) e a).1.answering)
unfolding dispatch_rejection
dispatch_by want q none e a h =
    default_rejects-Open want (record q { error_handler = none }) (new_dispatching a) h
dispatch_by want q (some handler) e a h =
    run_error_handler-Open want (record q { error_handler = some handler }) (handler e)
      (new_dispatching a) h

pub dispatch_rejection-IsOpen :
    (want : Bool) (q : GlobalRequest) (e : Error) (a : Answering)
    → IsOpen want a
    → IsOpen want ((dispatch_rejection q e a).1.answering)
dispatch_rejection-IsOpen want q e a h = dispatch_by want q q.error_handler e a h
