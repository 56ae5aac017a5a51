-- ===== src/GlobalRequests/Examples.antt =====
-- A request that is taken, one whose handler forgets the answer, and one without a handler.
use ssh_server_go.Prelude.{◌≡◌, refl, true, false, none, some, List, [], ◌∷◌, codes, Bool}
use ssh_server_go.Dispatch.{responds, calls_next, returns}
use ssh_server_go.GlobalRequests.Handlers.{Reply, GlobalRequest, ends_with, answers}
use ssh_server_go.GlobalRequests.Loop.{RequestTurn, handle_global_request, handle_global_requests}
use ssh_server_go.GlobalRequests.Ended.{IsAnswered}
use ssh_server_go.GlobalRequests.Turns.{
  Served, handle_global_request-IsAnswered, handle_global_requests-Served,
}

abbrev taken : GlobalRequest
taken = record {
  want_reply = true;
  handler = some (answers true (codes "7") (λ e. ends_with none));
  error_handler = none;
  outcome = none;
}

-- The error handler responds, and then passes the error on.
abbrev forgotten : GlobalRequest
forgotten = record taken {
  handler = some (ends_with none);
  error_handler =
      some (λ e. responds (codes "sorry") false (λ x. calls_next e (λ r. returns r.0 r.1)));
}

abbrev unhandled : GlobalRequest
unhandled = record taken { handler = none }

-- What was sent in each turn, and whether the loop went on.
abbrev outcomes : List RequestTurn → List (List Reply × Bool)
outcomes [] = []
outcomes (t ∷ ts) = (t.answering.sent, t.goes_on) ∷ outcomes ts

all_answered :
    outcomes (handle_global_requests (taken ∷ forgotten ∷ unhandled ∷ []))
    ≡ ((true, codes "7") ∷ [], true)
      ∷ ((false, codes "sorry") ∷ [], true)
      ∷ ((false, []) ∷ [], true)
      ∷ []
unfolding handle_global_requests
all_answered = refl

-- A reply that fails ends the loop.
reply_failed :
    outcomes (handle_global_requests (record taken { outcome = some 9 } ∷ taken ∷ []))
    ≡ ((true, codes "7") ∷ [], false) ∷ []
unfolding handle_global_requests
reply_failed = refl

handle_global_request-IsAnswered_example : IsAnswered true (handle_global_request forgotten)
handle_global_request-IsAnswered_example = handle_global_request-IsAnswered forgotten

handle_global_requests-Served_example :
    Served
      (taken ∷ forgotten ∷ unhandled ∷ [])
      (handle_global_requests (taken ∷ forgotten ∷ unhandled ∷ []))
handle_global_requests-Served_example =
    handle_global_requests-Served (taken ∷ forgotten ∷ unhandled ∷ [])
