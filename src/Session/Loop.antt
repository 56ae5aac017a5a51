-- ===== src/Session/Loop.antt =====
-- `handleRequests` (session.go): the switch on the request's type, and the loop.
use ssh_server_go.Prelude.{
  ℕ, zero, suc, Bool, true, not, ◌&&◌, ◌||◌, Option, none, some, List, [], ◌∷◌, ◌++◌, Bytes, codes,
  eq_bytes, if◌then◌else◌, is_some,
}
use ssh_server_go.Prelude.Int.{IntSize}
use ssh_server_go.Session.State.{
  Session, Config, Input, Effect, close_session, close_winch, Outcome, continues, stops, waits,
}
use ssh_server_go.Session.Exit.{apply_calls}
use ssh_server_go.Session.Requests.{Turn, refuse, handle_shell, handle_subsystem}
use ssh_server_go.Session.Settings.{
  handle_env, handle_signal_request, handle_pty, handle_window_change, handle_agent, handle_break,
  agent_request_type,
}

-- The cases of the switch.
pub data Kind : Type 0 where
  shell_or_exec subsystem env signal pty_req window_change agent break_request unknown : Kind

unfoldable pub kind_of : Bytes → Kind
unfolding eq_bytes
kind_of t =
    if eq_bytes t (codes "shell") || eq_bytes t (codes "exec")
    then shell_or_exec
    else if eq_bytes t (codes "subsystem")
    then subsystem
    else if eq_bytes t (codes "env")
    then env
    else if eq_bytes t (codes "signal")
    then signal
    else if eq_bytes t (codes "pty-req")
    then pty_req
    else if eq_bytes t (codes "window-change")
    then window_change
    else if eq_bytes t agent_request_type
    then agent
    else if eq_bytes t (codes "break")
    then break_request
    else unknown

unfoldable pub handle_kind : IntSize → Config → Kind → Input → Session → List Input → Turn
handle_kind size c shell_or_exec i s left = handle_shell c i s left
handle_kind size c subsystem i s left = handle_subsystem c i s left
handle_kind size c env i s left = handle_env c i s left
handle_kind size c signal i s left = handle_signal_request c i s left
handle_kind size c pty_req i s left = handle_pty size c i s left
handle_kind size c window_change i s left = handle_window_change size i s left
handle_kind size c agent i s left = handle_agent c i s left
handle_kind size c break_request i s left = handle_break i s left
handle_kind size c unknown i s left = refuse s left

-- The request timer, where it fires before the request: it closes a session that is not resolved.
abbrev pub fires : Input → Session → Bool
fires i s = i.timed_out && not s.resolved

abbrev pub timed : Input → Session → Session
timed i s = if fires i s then record s { resolved = true } else s

abbrev pub timer_effects : Input → Session → List Effect
timer_effects i s = if fires i s then close_session ∷ [] else []

-- A turn: the application's calls, the timer, and the request.
unfoldable pub handle_input : IntSize → Config → Input → Session → List Input → Turn
unfolding apply_calls kind_of handle_kind
handle_input size c i s left =
    let called = apply_calls i.calls s in
    let t = handle_kind size c (kind_of i.request.kind) i (timed i called.1) left in
    record t { effects = called.0 ++ (timer_effects i called.1 ++ t.effects) }

-- A run: its effects, how it ends, and the session.
pub record Run : Type 0 where
  pub effects : List Effect
  pub outcome : Outcome
  pub session : Session

-- At its return the loop closes the channel of windows, if it was made.
abbrev pub returns_with : Session → Run
returns_with s = record {
  effects = if is_some s.winch then close_winch ∷ [] else [];
  outcome = stops;
  session = s;
}

abbrev pub prepend : List Effect → Run → Run
prepend effects r = record r { effects = effects ++ r.effects }

abbrev pub prepend_to : List Effect → Option Run → Option Run
prepend_to effects none = none
prepend_to effects (some r) = some (prepend effects r)

-- Behind a request: the loop goes on with `rest`, returns, or waits.
abbrev pub go_on : Turn → Outcome → Option Run → Option Run
go_on t continues rest = prepend_to t.effects rest
go_on t stops rest = some (prepend t.effects (returns_with t.session))
go_on t waits rest = some (record { effects = t.effects; outcome = waits; session = t.session })

-- The loop over the requests that the channel delivers before it is closed; `none` where the fuel, the
-- number of turns, runs out.
unfoldable pub loop : IntSize → Config → ℕ → Session → List Input → Option Run
unfolding handle_input
loop size c zero s inputs = none
loop size c (suc fuel) s [] = some (returns_with s)
loop size c (suc fuel) s (i ∷ left) =
    let t = handle_input size c i s left in
    let rest = loop size c fuel t.session t.left in go_on t t.outcome rest
