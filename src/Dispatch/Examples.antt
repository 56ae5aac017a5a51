-- ===== src/Dispatch/Examples.antt =====
-- A handler that responds, passes the error on twice, and then responds again.
use ssh_server_go.Prelude.{◌≡◌, refl, true, false, none, some, [], ◌∷◌, codes}
use ssh_server_go.Errors.{
  Error, plain, located, session, channel, handle, reply, resolve_error_location,
}
use ssh_server_go.Dispatch.{
  DefaultAction, ErrorResponse, new_error_response, ErrorHandler, returns, responds, calls_next,
  calls_next_behind, run_handler, dispatch_handled, dispatch_error, next_incomplete,
}
use ssh_server_go.Dispatch.AtMostOnce.{IsOnce, dispatch_handled-IsOnce}
use ssh_server_go.Dispatch.Late.{dispatch_handled-late}

abbrev failure : Error
failure = located 1 channel reply (plain 2)

abbrev goes_on : DefaultAction
goes_on scope operation e = (true, none)

abbrev accepting : ErrorResponse
accepting = new_error_response (some (λ message close. none))

abbrev insistent : ErrorHandler
insistent = responds (codes "sorry") false (λ o.
    calls_next failure
      (λ r. calls_next (plain 3) (λ q. responds (codes "again") true (λ p. returns r.0 q.1))))

sent_once :
    (dispatch_handled none insistent session handle failure accepting goes_on).1.sent
    ≡ (codes "sorry", false) ∷ []
unfolding dispatch_handled
sent_once = refl

run_once :
    (dispatch_handled none insistent session handle failure accepting goes_on).1.runs
    ≡ record { scope = channel; operation = reply; error = failure } ∷ []
unfolding dispatch_handled
run_once = refl

-- The handler leaves the default action running and returns.
left_running :
    (dispatch_handled none
      (calls_next_behind failure (returns true none))
      session
      handle
      failure
      accepting
      goes_on).0
    ≡ (false, some next_incomplete)
unfolding dispatch_handled
left_running = refl

without_handler :
    (dispatch_error none none session handle (some failure) accepting goes_on).0 ≡ (true, none)
unfolding dispatch_error
without_handler = refl

dispatch_handled-IsOnce_example :
    IsOnce
      (resolve_error_location session handle failure)
      (dispatch_handled (some 7) insistent session handle failure accepting goes_on).1
dispatch_handled-IsOnce_example =
    dispatch_handled-IsOnce (some 7) insistent session handle failure accepting goes_on

dispatch_handled-late_example :
    (run_handler insistent
      (dispatch_handled none (returns false none) session handle failure accepting goes_on).1).1
    ≡ (dispatch_handled none (returns false none) session handle failure accepting goes_on).1
dispatch_handled-late_example =
    dispatch_handled-late none (returns false none) insistent session handle failure accepting
      goes_on
