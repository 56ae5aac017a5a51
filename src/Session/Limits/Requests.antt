-- ===== src/Session/Limits/Requests.antt =====
-- Every turn of the loop keeps a session within its limits.
use ssh_server_go.Prelude.{
  ℕ, refl, true, ◌||◌, Option, none, some, List, [], Bytes, if◌then◌else◌, is_some,
}
use ssh_server_go.Prelude.Int.{IntSize}
use ssh_server_go.Codec.{Window, Pty, parse_pty_request, parse_winch_request}
use ssh_server_go.Session.State.{
  Session, Answer, Config, Input, Started, subsystem_handler, session_handler,
}
use ssh_server_go.Session.Deferred.{wait_deferred}
use ssh_server_go.Session.Requests.{
  answer, ask_policy, resolve, accept_request, command_of, with_command, with_handler, handle_shell,
  after_deferred, handlers_of, run_subsystem, with_name, handle_subsystem,
}
use ssh_server_go.Session.Settings.{
  handle_env, handle_signal_request, with_pty, ask_pty, accept_pty, handle_pty, with_window, on_pty,
  handle_window_change, forward_agent, with_agent, handle_agent, handle_break,
}
use ssh_server_go.Session.CallbackError.{reply_to}
use ssh_server_go.SessionWindow.{merge_window}
use ssh_server_go.Session.Loop.{
  Kind, shell_or_exec, subsystem, env, signal, pty_req, window_change, agent, break_request,
  unknown, handle_kind,
}
use ssh_server_go.Session.State.{stops}
use ssh_server_go.Session.Limits.{
  IsBounded, current, Keeps, if-Keeps, if_allowed-Keeps, refused, start_with-Keeps,
  after_deferred-Keeps, send_break-Keeps, with_signal-Keeps, with_variable-Keeps,
}

module _ (s : Session) (left : List Input) (h : IsBounded s) where
  accept_request-Keeps :
      (c : Config) (i : Input) (st : Started) → Keeps (accept_request c i st s left)
  unfolding accept_request
  accept_request-Keeps c i st =
      if-Keeps (s.resolved) (record { bounded = h })
        (start_with-Keeps (resolve s) left h st (reply_to c i true))

module _ (s : Session) (left : List Input) (h : IsBounded s) where
  with_command-Keeps :
      (c : Config) (i : Input) (handler : ℕ) (value : Option Bytes)
      → Keeps (with_command c i handler value s left)
  with_command-Keeps c i handler none = refused s left h
  with_command-Keeps c i handler (some value) =
      let asked = record s { raw_cmd = value; subsystem = [] } in
      if_allowed-Keeps c i (ask_policy c asked i.request.kind) (record asked { raw_cmd = [] }) left
        (accept_request c i (session_handler handler) asked left) h
        (accept_request-Keeps asked left h c i (session_handler handler))

  with_handler-Keeps :
      (c : Config) (i : Input) (handler : Option ℕ) → Keeps (with_handler c i handler s left)
  with_handler-Keeps c i none = refused s left h
  with_handler-Keeps c i (some handler) = with_command-Keeps c i handler (command_of c i)

  handle_shell-Keeps : (c : Config) (i : Input) → Keeps (handle_shell c i s left)
  unfolding handle_shell
  handle_shell-Keeps c i =
      if-Keeps (s.handled) (refused s left h) (with_handler-Keeps c i c.handler)

  deferred-Keeps :
      (c : Config) (i : Input) (deferred : ℕ)
      → Keeps (
          if s.resolved
          then record { effects = []; outcome = stops; session = s; left = left }
          else after_deferred (resolve s) (wait_deferred c deferred i.reply_failure i.events left))
  deferred-Keeps c i deferred =
      if-Keeps (s.resolved) (record { bounded = h })
        (after_deferred-Keeps (resolve s) left h
          (wait_deferred c deferred i.reply_failure i.events left))

  run_subsystem-Keeps :
      (c : Config) (i : Input) (found : Option ℕ × Option ℕ)
      → Keeps (run_subsystem c i found s left)
  run_subsystem-Keeps c i (none, none) = record { bounded = h }
  run_subsystem-Keeps c i (some handler, none) =
      accept_request-Keeps s left h c i (subsystem_handler handler)
  run_subsystem-Keeps c i (none, some deferred) = deferred-Keeps c i deferred
  run_subsystem-Keeps c i (some handler, some deferred) = deferred-Keeps c i deferred

module _ (s : Session) (left : List Input) (h : IsBounded s) where
  with_name-Keeps :
      (c : Config) (i : Input) (name : Option Bytes) → Keeps (with_name c i name s left)
  with_name-Keeps c i none = refused s left h
  with_name-Keeps c i (some name) =
      let asked = record s { subsystem = name; raw_cmd = [] } in
      if_allowed-Keeps c i (ask_policy c asked i.request.kind) (record asked { subsystem = [] })
        left (run_subsystem c i (handlers_of c name) asked left) h
        (run_subsystem-Keeps asked left h c i (handlers_of c name))

  handle_subsystem-Keeps : (c : Config) (i : Input) → Keeps (handle_subsystem c i s left)
  unfolding handle_subsystem
  handle_subsystem-Keeps c i =
      if-Keeps (s.handled) (refused s left h)
        (with_name-Keeps c i (c.unmarshal_string i.request.payload))

  handle_env-Keeps : (c : Config) (i : Input) → Keeps (handle_env c i s left)
  unfolding handle_env
  handle_env-Keeps c i =
      if-Keeps (s.handled) (refused s left h)
        (with_variable-Keeps s left h (c.unmarshal_pair i.request.payload))

  handle_signal_request-Keeps : (c : Config) (i : Input) → Keeps (handle_signal_request c i s left)
  unfolding handle_signal_request
  handle_signal_request-Keeps c i =
      with_signal-Keeps s left h i (c.unmarshal_string i.request.payload)

  sized-IsBounded : (p : Pty) → IsBounded (record s { pty = some p; winch = some (some p.window) })
  sized-IsBounded p = record {
    few = h.few;
    counted = h.counted;
    small = h.small;
    buffered = h.buffered;
    quiet = h.quiet;
    window = current refl;
  }

  with_pty-Keeps : (c : Config) (i : Input) (p : Option Pty) → Keeps (with_pty c i p s left)
  with_pty-Keeps c i none = refused s left h
  with_pty-Keeps c i (some p) =
      if_allowed-Keeps c i (ask_pty c s p) s left (answer true (accept_pty p s) left) h
        (record { bounded = sized-IsBounded p })

  handle_pty-Keeps : (size : IntSize) (c : Config) (i : Input) → Keeps (handle_pty size c i s left)
  unfolding handle_pty
  handle_pty-Keeps size c i =
      if-Keeps (s.handled || is_some s.pty) (refused s left h)
        (with_pty-Keeps c i (parse_pty_request size i.request.payload))

  with_window-Keeps : (p : Pty) (w : Option Window) → Keeps (with_window p w s left)
  with_window-Keeps p none = refused s left h
  with_window-Keeps p (some update) = record {
    bounded = sized-IsBounded (record p { window = merge_window p.window update });
  }

  on_pty-Keeps : (size : IntSize) (i : Input) (p : Option Pty) → Keeps (on_pty size i p s left)
  on_pty-Keeps size i none = refused s left h
  on_pty-Keeps size i (some p) = with_window-Keeps p (parse_winch_request size i.request.payload)

  handle_window_change-Keeps :
      (size : IntSize) (i : Input) → Keeps (handle_window_change size i s left)
  unfolding handle_window_change
  handle_window_change-Keeps size i = on_pty-Keeps size i s.pty

  with_agent-Keeps :
      (c : Config) (i : Input) (ask : Option (Session → Answer)) → Keeps (with_agent c i ask s left)
  with_agent-Keeps c i none = refused s left h
  with_agent-Keeps c i (some ask) =
      if_allowed-Keeps c i (ask s) s left (forward_agent (reply_to c i true) s left) h
        (record { bounded = h })

  handle_agent-Keeps : (c : Config) (i : Input) → Keeps (handle_agent c i s left)
  unfolding handle_agent
  handle_agent-Keeps c i = with_agent-Keeps c i c.agent_forwarding

  handle_break-Keeps : (i : Input) → Keeps (handle_break i s left)
  unfolding handle_break
  handle_break-Keeps i =
      if-Keeps (s.has_break_channel) (send_break-Keeps s left h i.break_delivery) (refused s left h)

  pub handle_kind-Keeps :
      (size : IntSize) (c : Config) (k : Kind) (i : Input) → Keeps (handle_kind size c k i s left)
  unfolding handle_kind
  handle_kind-Keeps size c shell_or_exec i = handle_shell-Keeps s left h c i
  handle_kind-Keeps size c subsystem i = handle_subsystem-Keeps c i
  handle_kind-Keeps size c env i = handle_env-Keeps c i
  handle_kind-Keeps size c signal i = handle_signal_request-Keeps c i
  handle_kind-Keeps size c pty_req i = handle_pty-Keeps size c i
  handle_kind-Keeps size c window_change i = handle_window_change-Keeps size i
  handle_kind-Keeps size c agent i = handle_agent-Keeps c i
  handle_kind-Keeps size c break_request i = handle_break-Keeps i
  handle_kind-Keeps size c unknown i = refused s left h
