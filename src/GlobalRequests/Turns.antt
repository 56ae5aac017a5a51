-- ===== src/GlobalRequests/Turns.antt =====
-- Each global request is answered once, if it wants an answer, before the loop takes the next one.
use ssh_server_go.Prelude.{
  ℕ, ◌≤◌, ◌≡◌, refl, ◌∙◌, ap, Bool, true, false, ◌&&◌, Option, none, some, List, [], ◌∷◌, Bytes,
  if◌then◌else◌, one, arith,
}
use ssh_server_go.Errors.{Error}
use ssh_server_go.Response.{
  ResponseError, begin_respond, respond, expire, complete_without_response,
}
use ssh_server_go.Dispatch.{DispatchError}
use ssh_server_go.GlobalRequests.Handlers.{
  RequestHandler, GlobalRequest, Answering, new_answering, answer, run_request_handler,
}
use ssh_server_go.GlobalRequests.Rejections.{Dispatching, dispatch_rejection}
use ssh_server_go.GlobalRequests.Loop.{
  RequestTurn, finish_request, answered_by, reject_unanswered, settle_request, response_error,
  conclude_request, dispatched_request, returned_request, run_handled, run_unhandled,
  handle_global_request, handle_global_requests,
}
use ssh_server_go.GlobalRequests.Answered.{
  IsOpen, new_answering-IsOpen, answer-IsOpen, run_request_handler-IsOpen,
}
use ssh_server_go.GlobalRequests.Rejected.{dispatch_rejection-IsOpen}
use ssh_server_go.GlobalRequests.Ended.{
  IsAnswered, few, once, open-IsAnswered, finish-IsAnswered, answered_by-IsAnswered,
  passes-IsAnswered, stops-IsAnswered,
}

answer_attempts :
    (outcome : Option ℕ) (accepted : Bool) (payload : Bytes) (a : Answering)
    → one a.response.complete ≤ one a.response.attempted
    → (answer outcome accepted payload false a).1.response.attempted ≡ true
unfolding answer begin_respond respond
answer_attempts outcome accepted payload a h = ground arith

complete_closes :
    (want : Bool) (a : Answering)
    → IsOpen want a
    → (complete_without_response a.response).closes ≤ 1
unfolding complete_without_response
complete_closes want a h = ground (arith, once want a h)

unattempted : (attempted want : Bool) → attempted ≡ false → one (attempted && want) ≡ 0
unattempted attempted want h = ground arith

module _ (q : GlobalRequest) where
  abbrev Done : RequestTurn → Type 0
  Done t = IsAnswered q.want_reply t

  unanswered_by :
      (want can_continue : Bool) (closes : ℕ) (a : Answering)
      → IsOpen want a
      → a.response.attempted ≡ false
      → IsAnswered want (
          if want
          then answered_by can_continue closes (answer q.outcome false [] false a)
          else finish_request can_continue closes
              (record a { response = complete_without_response a.response }))
  unanswered_by true can_continue closes a h ha =
      answered_by-IsAnswered true can_continue closes (answer q.outcome false [] false a)
        (answer-IsOpen true q.outcome false [] false a h)
        (answer_attempts q.outcome false [] a h.complete)
  unanswered_by false can_continue closes a h ha =
      finish-IsAnswered false can_continue closes
        (record a { response = complete_without_response a.response })
        (h.count ∙ unattempted a.response.attempted false ha) (complete_closes false a h)

  attempted_by :
      (attempted can_continue : Bool) (closes : ℕ) (a : Answering)
      → IsOpen q.want_reply a
      → a.response.attempted ≡ attempted
      → Done (
          if attempted
          then finish_request can_continue closes a
          else reject_unanswered q can_continue closes a)
  attempted_by true can_continue closes a h ha =
      finish-IsAnswered q.want_reply can_continue closes a
        (h.count ∙ ap (λ b. one (b && q.want_reply)) ha) (once q.want_reply a h)
  attempted_by false can_continue closes a h ha =
      unanswered_by q.want_reply can_continue closes a h ha

  settle-Done :
      (err : Option Error) (can_continue : Bool) (closes : ℕ) (e : Option ResponseError)
      (a : Answering)
      → IsOpen q.want_reply a
      → Done (settle_request q err can_continue closes e a)
  settle-Done err can_continue closes (some e) a h = open-IsAnswered q.want_reply a closes _ h
  settle-Done err can_continue closes none a h =
      attempted_by a.response.attempted can_continue closes a h refl

  conclude-Done :
      (err : Option Error) (can_continue : Bool) (closes : ℕ) (a : Answering)
      → IsOpen q.want_reply a
      → Done (conclude_request q err can_continue closes a)
  unfolding conclude_request
  conclude-Done err can_continue closes a h =
      settle-Done err can_continue closes (response_error a.response) a h

  dispatched-Done :
      (e : Error) (r : (Bool × Option DispatchError) × Dispatching)
      → IsOpen q.want_reply r.1.answering
      → Done (dispatched_request q e r)
  dispatched-Done e ((can_continue, none), d) h =
      conclude-Done (some e) can_continue d.closes d.answering h
  dispatched-Done e ((can_continue, some x), d) h =
      stops-IsAnswered q.want_reply
        (record d.answering { response = complete_without_response d.answering.response }) d.closes
        [] (few q.want_reply d.answering h) (complete_closes q.want_reply d.answering h)

  returned-Done :
      (e : Option Error) (a : Answering) → IsOpen q.want_reply a → Done (returned_request q e a)
  returned-Done none a h = conclude-Done none true 0 a h
  returned-Done (some e) a h =
      dispatched-Done e (dispatch_rejection q e a) (dispatch_rejection-IsOpen q.want_reply q e a h)

  expired-IsOpen :
      (a : Answering)
      → IsOpen q.want_reply a
      → IsOpen q.want_reply (record a { response = expire a.response })
  unfolding expire
  expired-IsOpen a h = record {
    request = h.request;
    count = h.count;
    complete = h.complete;
    closed = h.closed;
  }

  handled-Done : (r : Option Error × Answering) → IsOpen q.want_reply r.1 → Done (run_handled q r)
  handled-Done (err, a) h =
      returned-Done _ (record a { response = expire a.response }) (expired-IsOpen a h)

  unhandled-Done :
      (r : Option ResponseError × Answering)
      → IsOpen q.want_reply r.1
      → r.1.response.attempted ≡ true
      → Done (run_unhandled r)
  unhandled-Done (none, a) h ha =
      passes-IsAnswered q.want_reply a 0 (h.count ∙ ap (λ b. one (b && q.want_reply)) ha)
        (once q.want_reply a h)
  unhandled-Done (some e, a) h ha = open-IsAnswered q.want_reply a 0 _ h

handled_by :
    (q : GlobalRequest) (handler : Option RequestHandler)
    → IsAnswered q.want_reply (handle_global_request (record q { handler = handler }))
unfolding handle_global_request
handled_by q none =
    let opened = new_answering-IsOpen q.want_reply in
    unhandled-Done (record q { handler = none })
      (answer q.outcome false [] false (new_answering q.want_reply))
      (answer-IsOpen q.want_reply q.outcome false [] false (new_answering q.want_reply) opened)
      (answer_attempts q.outcome false [] (new_answering q.want_reply) opened.complete)
handled_by q (some h) =
    handled-Done (record q { handler = some h })
      (run_request_handler q.outcome h (new_answering q.want_reply))
      (run_request_handler-IsOpen q.want_reply q.outcome h (new_answering q.want_reply)
        (new_answering-IsOpen q.want_reply))

-- Whatever a global request's handler and the error handler do, in whatever order, and whatever they
-- leave running: if the loop goes on to the next request, this one has one reply if it wants one and
-- none otherwise; if it stops, there is no more than that, and the connection is closed. In both cases
-- the response is released, and its channel closed once at most.
pub handle_global_request-IsAnswered :
    (q : GlobalRequest) → IsAnswered q.want_reply (handle_global_request q)
handle_global_request-IsAnswered q = handled_by q q.handler

-- The turns of the loop: one for each request, in the order of the requests, up to the first that stops.
pub data Served : List GlobalRequest → List RequestTurn → Type 0 where
  served : Served [] []
  passes :
      {q : GlobalRequest} {t : RequestTurn} {qs : List GlobalRequest} {ts : List RequestTurn}
      → IsAnswered q.want_reply t
      → t.goes_on ≡ true
      → Served qs ts
      → Served (q ∷ qs) (t ∷ ts)
  stops :
      {q : GlobalRequest} {t : RequestTurn} {qs : List GlobalRequest}
      → IsAnswered q.want_reply t
      → t.goes_on ≡ false
      → Served (q ∷ qs) (t ∷ [])

turn-Served :
    (b : Bool) (q : GlobalRequest) (t : RequestTurn) (qs : List GlobalRequest)
    (ts : List RequestTurn)
    → t.goes_on ≡ b
    → IsAnswered q.want_reply t
    → Served qs ts
    → Served (q ∷ qs) (if b then t ∷ ts else t ∷ [])
turn-Served true q t qs ts hb h hs = passes h hb hs
turn-Served false q t qs ts hb h hs = stops h hb

-- The loop answers the requests one after the other, in their order: every one that it takes before it
-- ends has as many replies as it wants, and where it ends before the last one, it has closed the
-- connection.
pub handle_global_requests-Served :
    (qs : List GlobalRequest) → Served qs (handle_global_requests qs)
unfolding handle_global_requests
handle_global_requests-Served [] = served
handle_global_requests-Served (q ∷ qs) =
    let t = handle_global_request q in
    turn-Served t.goes_on q t qs (handle_global_requests qs) refl
      (handle_global_request-IsAnswered q) (handle_global_requests-Served qs)
