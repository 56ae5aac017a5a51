-- ===== src/Session/Exit.antt =====
-- What the application calls on a session (session.go): `Signals`, `Break`, `Exit`, `Close` and `Write`,
-- and the methods of the channel that the session embeds.
pub mod Once
use ssh_server_go.Prelude.{
  ℕ, ◌^◌, Bool, true, false, not, Option, none, some, List, [], ◌∷◌, ◌++◌, ltb, is_some,
  if◌then◌else◌,
}
use ssh_server_go.Prelude.Int.{ℤ, pos, negsuc}
use ssh_server_go.Errors.{Error}
use ssh_server_go.Session.Signals.{set_signal_channel, drain_signals}
use ssh_server_go.Session.Write.{normalize}
use ssh_server_go.Session.State.{
  DeferredState, normal, pending, rejected, Session, Call, takes_window, signals, drains, breaks,
  exits, closes, writes, writes_error, closes_write, sends_request, Effect, close_session,
  exit_status, wrote, wrote_error, sent_request, close_write,
}

-- `Signals` and `Break`.
unfoldable pub session_signals : Option ℕ → Session → Session
unfolding set_signal_channel
session_signals c s = if s.exiting then s else record s { signals = set_signal_channel c s.signals }

unfoldable pub session_break : Bool → Session → Session
session_break c s = if s.exiting then s else record s { has_break_channel = c }

-- The errors of `Exit` and `Close`.
pub data ExitError : Type 0 where
  response_pending invalid_status called_twice : ExitError
  failed : Error → ExitError

abbrev pub failed_with : Option Error → Option ExitError
failed_with none = none
failed_with (some e) = some (failed e)

-- `Close`: it closes the channel, unless a deferred subsystem has not answered. What sending to the peer
-- gives, here the closing and in `Exit` that and the status, is a parameter.
unfoldable pub session_close : Option Error → Session → List Effect × Option ExitError
session_close outcome s = elim (s.deferred_state) [
  | normal ↦ (close_session ∷ [], failed_with outcome)
  | pending ↦ ([], some response_pending)
  | rejected ↦ (close_session ∷ [], failed_with outcome)
]

-- `Exit` behind its checks: signals and breaks are no longer delivered, and the status is sent once.
abbrev pub stop_delivery : Session → Session
stop_delivery s = record s {
  exiting = true;
  signals = set_signal_channel none s.signals;
  has_break_channel = false;
}

abbrev pub send_status : Option Error → ℕ → Session → List Effect × (Session × Option ExitError)
send_status outcome code s =
    if s.exited
    then ([], (s, some called_twice))
    else let closed = session_close outcome s in
      (exit_status code ∷ closed.0, (record s { exited = true }, closed.1))

abbrev pub exit_with : Option Error → ℤ → Session → List Effect × (Session × Option ExitError)
exit_with outcome (negsuc n) s = ([], (s, some invalid_status))
exit_with outcome (pos n) s =
    if ltb n (2 ^ 32)
    then send_status outcome n (stop_delivery s)
    else ([], (s, some invalid_status))

-- `Exit`.
unfoldable pub exit : Option Error → ℤ → Session → List Effect × (Session × Option ExitError)
unfolding session_close set_signal_channel
exit outcome code s = elim (s.deferred_state) [
  | normal ↦ exit_with outcome code s
  | pending ↦ ([], (s, some response_pending))
  | rejected ↦ ([], (s, some response_pending))
]

abbrev pub freed : {A : Type 0} → Option (Option A) → Option (Option A)
freed none = none
freed (some w) = some none

abbrev pub take_window : Session → Session
take_window s = record s { winch = freed s.winch }

-- The effect of each call; its result, which the application gets, is left out.
unfoldable pub apply_call : Call → Session → List Effect × Session
unfolding session_signals session_break exit drain_signals session_close normalize
apply_call takes_window s = ([], take_window s)
apply_call (signals c) s = ([], session_signals c s)
apply_call (drains fate) s = ([], record s { signals = drain_signals fate s.signals })
apply_call (breaks c) s = ([], session_break c s)
apply_call (exits code) s = let r = exit none code s in (r.0, r.1.0)
apply_call closes s = ((session_close none s).0, s)
apply_call (writes p) s = (wrote (if is_some s.pty then normalize p else p) ∷ [], s)
apply_call (writes_error p) s = (wrote_error p ∷ [], s)
apply_call closes_write s = (close_write ∷ [], s)
apply_call (sends_request kind want_reply payload) s =
    (sent_request kind want_reply payload ∷ [], s)

unfoldable pub apply_calls : List Call → Session → List Effect × Session
unfolding apply_call
apply_calls [] s = ([], s)
apply_calls (c ∷ cs) s =
    let r = apply_call c s in let rest = apply_calls cs r.1 in (r.0 ++ rest.0, rest.1)
