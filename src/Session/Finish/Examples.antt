-- ===== src/Session/Finish/Examples.antt =====
-- A handler that returns no error, and one that asks for the status -1.
use ssh_server_go.Prelude.{◌≡◌, refl, true, false, not, none, some, [], ◌∷◌, codes}
use ssh_server_go.Prelude.Int.{pos, negsuc}
use ssh_server_go.Errors.{plain, wrapped, exit_error, exclusive_session_exit_error}
use ssh_server_go.Dispatch.{DefaultAction, response_result}
use ssh_server_go.Session.State.{
  Session, new_session, Config, handled_error, close_session, exit_status, wrote_error,
}
use ssh_server_go.Session.Finish.{Finish, written, finish_handler}
use ssh_server_go.Session.Finish.Ends.{ends, status_valid, finish_handler-ends}
use ssh_server_go.Session.Finish.LeftOpen.{left_open, finish_handler-left_open}
use ssh_server_go.Session.CallbackError.{escalates}

abbrev gives_up : DefaultAction
gives_up scope operation e = (false, none)

abbrev config : Config
config = record {
  handler = some 7;
  session_request = none;
  pty_callback = none;
  agent_forwarding = none;
  subsystem_handlers = λ name. none;
  deferred_handlers = λ name. none;
  error_handler = none;
  default_action = gives_up;
  unmarshal_string = λ payload. some payload;
  unmarshal_pair = λ payload. none;
}

abbrev running : Session
running = record new_session { handled = true; resolved = true }

abbrev failing : Finish
failing = record {
  err = some (wrapped 1 (exit_error 2 (record { code = pos 3; message = codes "no" })));
  fate = written 2 none;
  responder = λ message close. none;
  outcome = none;
}

exited_with_message :
    (finish_handler config failing running).0
    ≡ wrote_error (codes "no") ∷ exit_status 3 ∷ close_session ∷ []
unfolding finish_handler
exited_with_message = refl

exited_with_one :
    (finish_handler config (record failing { err = some (plain 4) }) running).0
    ≡ handled_error [] ∷ exit_status 1 ∷ close_session ∷ []
unfolding finish_handler response_result
exited_with_one = refl

failing_valid : status_valid (exclusive_session_exit_error failing.err) ≡ true
unfolding exclusive_session_exit_error
failing_valid = refl

finish_handler-ends_example : ends ((finish_handler config failing running).0) ≡ true
finish_handler-ends_example = finish_handler-ends config failing running refl refl failing_valid

abbrev unsendable : Finish
unsendable = record failing { err = some (exit_error 5 (record { code = negsuc 0; message = [] })) }

stays_open : left_open config unsendable (exclusive_session_exit_error unsendable.err) ≡ true
unfolding exclusive_session_exit_error escalates
stays_open = refl

finish_handler-left_open_example :
    ends ((finish_handler config unsendable running).0)
    ≡ not (left_open config unsendable (exclusive_session_exit_error unsendable.err))
finish_handler-left_open_example = finish_handler-left_open config unsendable running refl refl
