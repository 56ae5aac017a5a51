-- ===== src/GlobalRequests/Answered.antt =====
-- What the calls of a request's handlers keep: as many replies as the request wants, once attempted.
use ssh_server_go.Prelude.{
  ℕ, ◌≤◌, ◌≡◌, refl, sym, subst, Bool, true, false, ◌&&◌, Option, some, Bytes, length, one, arith,
}
use ssh_server_go.Response.{begin_respond, respond, reject_from_error_handler}
use ssh_server_go.GlobalRequests.Handlers.{
  RequestHandler, Answering, new_answering, answered, answer, leave_answer, run_request_handler,
  ends_with, answers, answers_behind,
}
use ssh_server_go.GlobalRequests.Rejections.{reject_with}

-- A response that is not released: as many replies as its request wants were sent since it was
-- attempted and none before, and its channel is closed once, when it is complete.
pub record IsOpen (want : Bool) (a : Answering) : Type 0 where
  pub request : a.response.request ≡ some want
  pub count : length a.sent ≡ one (a.response.attempted && want)
  pub complete : one a.response.complete ≤ one a.response.attempted
  pub closed : a.response.closes ≡ one a.response.complete

pub new_answering-IsOpen : (want : Bool) → IsOpen want (new_answering want)
new_answering-IsOpen want = record {
  request = refl;
  count = refl;
  complete = omega arith;
  closed = refl;
}

-- On a response whose request is spelled out.
with_request : Bool → Answering → Answering
with_request want a = record a { response = record a.response { request = some want } }

answer_by :
    (want : Bool) (outcome : Option ℕ) (accepted : Bool) (payload : Bytes) (require_active : Bool)
    (a : Answering)
    → IsOpen want (with_request want a)
    → IsOpen want ((answer outcome accepted payload require_active (with_request want a)).1)
unfolding answer with_request begin_respond respond
answer_by true outcome accepted payload require_active a h = ground arith
answer_by false outcome accepted payload require_active a h = ground arith

abbrev asked : Option Bool → Answering → Answering
asked rq a = record a { response = record a.response { request = rq } }

spelled : (want : Bool) (a : Answering) → IsOpen want a → IsOpen want (with_request want a)
unfolding with_request
spelled want a h = record {
  request = refl;
  count = h.count;
  complete = h.complete;
  closed = h.closed;
}

pub answer-IsOpen :
    (want : Bool) (outcome : Option ℕ) (accepted : Bool) (payload : Bytes) (require_active : Bool)
    (a : Answering)
    → IsOpen want a
    → IsOpen want ((answer outcome accepted payload require_active a).1)
unfolding with_request
answer-IsOpen want outcome accepted payload require_active a h =
    subst (λ rq. IsOpen want ((answer outcome accepted payload require_active (asked rq a)).1))
      (sym h.request) (answer_by want outcome accepted payload require_active a (spelled want a h))

reject_by :
    (want : Bool) (outcome : Option ℕ) (message : Bytes) (a : Answering)
    → IsOpen want (with_request want a)
    → IsOpen want (
        (answered
          (with_request want a)
          (reject_from_error_handler outcome message (with_request want a).response)).1)
unfolding with_request begin_respond respond reject_from_error_handler
reject_by true outcome message a h = ground arith
reject_by false outcome message a h = ground arith

pub reject-IsOpen :
    (want asks : Bool) (outcome : Option ℕ) (message : Bytes) (a : Answering)
    → IsOpen want a
    → IsOpen want ((reject_with outcome asks message a).1)
unfolding with_request
reject-IsOpen want false outcome message a h = h
reject-IsOpen want true outcome message a h =
    subst
      (λ rq. IsOpen want (
        (answered (asked rq a)
          (reject_from_error_handler outcome message (asked rq a).response)).1))
      (sym h.request) (reject_by want outcome message a (spelled want a h))

leave_by :
    (want : Bool) (accepted : Bool) (payload : Bytes) (require_active : Bool) (a : Answering)
    → IsOpen want (with_request want a)
    → IsOpen want (leave_answer accepted payload require_active (with_request want a))
unfolding leave_answer with_request begin_respond
leave_by true accepted payload require_active a h = ground arith
leave_by false accepted payload require_active a h = ground arith

pub leave_answer-IsOpen :
    (want : Bool) (accepted : Bool) (payload : Bytes) (require_active : Bool) (a : Answering)
    → IsOpen want a
    → IsOpen want (leave_answer accepted payload require_active a)
unfolding with_request
leave_answer-IsOpen want accepted payload require_active a h =
    subst (λ rq. IsOpen want (leave_answer accepted payload require_active (asked rq a)))
      (sym h.request) (leave_by want accepted payload require_active a (spelled want a h))

pub run_request_handler-IsOpen :
    (want : Bool) (outcome : Option ℕ) (h : RequestHandler) (a : Answering)
    → IsOpen want a
    → IsOpen want ((run_request_handler outcome h a).1)
unfolding run_request_handler
run_request_handler-IsOpen want outcome (ends_with e) a ho = ho
run_request_handler-IsOpen want outcome (answers accepted payload k) a ho =
    let r = answer outcome accepted payload true a in
    run_request_handler-IsOpen want outcome (k r.0) r.1
      (answer-IsOpen want outcome accepted payload true a ho)
run_request_handler-IsOpen want outcome (answers_behind accepted payload h) a ho =
    run_request_handler-IsOpen want outcome h (leave_answer accepted payload true a)
      (leave_answer-IsOpen want accepted payload true a ho)
