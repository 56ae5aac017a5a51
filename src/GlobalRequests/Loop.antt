-- ===== src/GlobalRequests/Loop.antt =====
-- The turns of `handleRequests` (server.go).
use ssh_server_go.Prelude.{
  ℕ, suc, Bool, true, false, not, ◌&&◌, Option, none, some, List, [], ◌∷◌, if◌then◌else◌,
}
use ssh_server_go.Errors.{Error, plain, located, is, request, reply}
use ssh_server_go.Response.{
  ResponseError, incomplete, RequestResponse, expire, release, complete_without_response,
}
use ssh_server_go.Dispatch.{DispatchError}
use ssh_server_go.GlobalRequests.Handlers.{
  GlobalRequest, Answering, new_answering, answer, run_request_handler,
}
use ssh_server_go.GlobalRequests.Rejections.{response_error_of, Dispatching, dispatch_rejection}

-- How a turn of the loop ends: how often the connection is closed, the errors that are passed to
-- `handleRequestReplyError`, and whether the loop goes on.
pub record RequestTurn : Type 0 where
  pub answering : Answering
  pub closes : ℕ
  pub reported : List Error
  pub goes_on : Bool

abbrev pub released : Answering → Answering
released a = record a { response = release a.response }

abbrev pub goes_on_with : Answering → ℕ → RequestTurn
goes_on_with a closes = record {
  answering = released a;
  closes = closes;
  reported = [];
  goes_on = true;
}

abbrev pub stops_with : Answering → ℕ → List Error → RequestTurn
stops_with a closes reported = record {
  answering = released a;
  closes = suc closes;
  reported = reported;
  goes_on = false;
}

-- Behind the reply.
abbrev pub finish_request : Bool → ℕ → Answering → RequestTurn
finish_request true closes a = goes_on_with a closes
finish_request false closes a = stops_with a closes []

abbrev pub answered_by : Bool → ℕ → Option ResponseError × Answering → RequestTurn
answered_by can_continue closes (none, a) = finish_request can_continue closes a
answered_by can_continue closes (some e, a) = stops_with a closes (response_error_of e ∷ [])

abbrev pub reject_unanswered : GlobalRequest → Bool → ℕ → Answering → RequestTurn
reject_unanswered q can_continue closes a =
    if q.want_reply
    then answered_by can_continue closes (answer q.outcome false [] false a)
    else finish_request can_continue closes
        (record a { response = complete_without_response a.response })

-- By the error of the response.
abbrev pub is_returned : Option Error → Error → Bool
is_returned none e = false
is_returned (some handler_err) e = is handler_err e

abbrev pub settle_request :
    GlobalRequest → Option Error → Bool → ℕ → Option ResponseError → Answering → RequestTurn
settle_request q handler_err can_continue closes (some e) a =
    stops_with a closes
      (if is_returned handler_err (response_error_of e) then [] else response_error_of e ∷ [])
settle_request q handler_err can_continue closes none a =
    if a.response.attempted
    then finish_request can_continue closes a
    else reject_unanswered q can_continue closes a

abbrev pub response_error : RequestResponse → Option ResponseError
response_error r = if r.attempted && not r.complete then some incomplete else r.err

unfoldable pub conclude_request : GlobalRequest → Option Error → Bool → ℕ → Answering → RequestTurn
unfolding is answer complete_without_response release
conclude_request q handler_err can_continue closes a =
    settle_request q handler_err can_continue closes (response_error a.response) a

abbrev pub dispatched_request :
    GlobalRequest → Error → (Bool × Option DispatchError) × Dispatching → RequestTurn
dispatched_request q e ((can_continue, none), d) =
    conclude_request q (some e) can_continue d.closes d.answering
dispatched_request q e ((can_continue, some x), d) =
    stops_with (record d.answering { response = complete_without_response d.answering.response })
      d.closes []

abbrev pub returned_request : GlobalRequest → Option Error → Answering → RequestTurn
returned_request q none a = conclude_request q none true 0 a
returned_request q (some e) a = dispatched_request q e (dispatch_rejection q e a)

-- A handler that returns without an answer that the request wants.
abbrev pub not_sent : Error
not_sent = located 24 request reply (plain 25)

abbrev pub missing_answer : Bool → Option Error → Option Error
missing_answer missing none = if missing then some not_sent else none
missing_answer missing (some e) = some e

abbrev pub run_handled : GlobalRequest → Option Error × Answering → RequestTurn
run_handled q (err, a) =
    let missing = not a.response.attempted && q.want_reply in
    returned_request q (missing_answer missing err) (record a { response = expire a.response })

abbrev pub run_unhandled : Option ResponseError × Answering → RequestTurn
run_unhandled (none, a) = goes_on_with a 0
run_unhandled (some e, a) = stops_with a 0 (response_error_of e ∷ [])

-- A turn of the loop.
unfoldable pub handle_global_request : GlobalRequest → RequestTurn
unfolding answer run_request_handler dispatch_rejection conclude_request complete_without_response
    expire release
handle_global_request q = elim (q.handler) [
  | none ↦ run_unhandled (answer q.outcome false [] false (new_answering q.want_reply))
  | some h ↦ run_handled q (run_request_handler q.outcome h (new_answering q.want_reply))
]

-- The loop, over the requests that the connection delivers before it ends: the turns that were made.
unfoldable pub handle_global_requests : List GlobalRequest → List RequestTurn
unfolding handle_global_request
handle_global_requests [] = []
handle_global_requests (q ∷ qs) =
    let t = handle_global_request q in
    let rest = handle_global_requests qs in if t.goes_on then t ∷ rest else t ∷ []
