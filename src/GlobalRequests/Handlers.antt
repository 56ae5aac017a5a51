-- ===== src/GlobalRequests/Handlers.antt =====
-- A global request, what its handler does, and its response (server.go, request.go).
use ssh_server_go.Prelude.{ℕ, Bool, true, false, Option, none, some, List, [], ◌∷◌, ◌++◌, Bytes}
use ssh_server_go.Errors.{Error}
use ssh_server_go.Response.{
  ResponseError, RequestResponse, new_response, Begun, refused, started, begin_respond, respond,
}
use ssh_server_go.Dispatch.{ErrorHandler}

-- A reply that is sent: whether it accepts, and its payload.
abbrev pub Reply : Type 0
Reply = Bool × Bytes

-- What a request's handler does: it returns, answers and goes on with the result, or leaves a goroutine
-- behind that is inside `Reply`.
pub data RequestHandler : Type 0 where
  ends_with : (err : Option Error) → RequestHandler
  answers : (accepted : Bool) → Bytes → (Option ResponseError → RequestHandler) → RequestHandler
  answers_behind : (accepted : Bool) → Bytes → RequestHandler → RequestHandler

-- A global request. Its handler is `none` where there is none for its type and no default. `outcome` is
-- what `Reply` gives, which is called once at most.
pub record GlobalRequest : Type 0 where
  pub want_reply : Bool
  pub handler : Option RequestHandler
  pub error_handler : Option (Error → ErrorHandler)
  pub outcome : Option ℕ

-- The response of a request, and the replies that were sent.
pub record Answering : Type 0 where
  pub response : RequestResponse
  pub sent : List Reply

abbrev pub new_answering : Bool → Answering
new_answering want_reply = record { response = new_response want_reply; sent = [] }

abbrev pub answered :
    Answering
    → Option ResponseError × List Reply × RequestResponse
    → Option ResponseError × Answering
answered a (e, replies, r) = (e, record { response = r; sent = replies ++ a.sent })

unfoldable pub answer :
    Option ℕ → Bool → Bytes → Bool → Answering → Option ResponseError × Answering
unfolding respond
answer outcome accepted payload require_active a =
    answered a (respond outcome accepted payload require_active a.response)

-- A goroutine that has called `Reply`, if the request wants one, and has not come back.
abbrev left_inside : Bool → Bytes → Answering → Begun × RequestResponse → Answering
left_inside accepted payload a (refused e, r) = record a { response = r }
left_inside accepted payload a (started none, r) = record a { response = r }
left_inside accepted payload a (started (some false), r) = record a { response = r }
left_inside accepted payload a (started (some true), r) = record {
  response = r;
  sent = (accepted, payload) ∷ a.sent;
}

unfoldable pub leave_answer : Bool → Bytes → Bool → Answering → Answering
unfolding begin_respond
leave_answer accepted payload require_active a =
    left_inside accepted payload a (begin_respond accepted require_active a.response)

unfoldable pub run_request_handler :
    Option ℕ → RequestHandler → Answering → Option Error × Answering
unfolding answer leave_answer
run_request_handler outcome (ends_with err) a = (err, a)
run_request_handler outcome (answers accepted payload k) a =
    let r = answer outcome accepted payload true a in run_request_handler outcome (k r.0) r.1
run_request_handler outcome (answers_behind accepted payload h) a =
    run_request_handler outcome h (leave_answer accepted payload true a)
