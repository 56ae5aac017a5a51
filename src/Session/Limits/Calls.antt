-- ===== src/Session/Limits/Calls.antt =====
-- Every call of the application keeps a session within its limits.
use ssh_server_go.Prelude.{
  ℕ, Bool, true, false, Option, none, some, List, [], ◌∷◌, ltb, if◌then◌else◌,
}
use ssh_server_go.Codec.{Window, Pty}
use ssh_server_go.Session.Signals.Order.{registers, drains as drains_turn}
use ssh_server_go.Session.State.{Session, Effect}
use ssh_server_go.Prelude.{◌^◌}
use ssh_server_go.Session.State.{
  exit_status, Call, takes_window, signals, drains, breaks, exits, closes, writes, writes_error,
  closes_write, sends_request, DeferredState, normal, pending, rejected,
}
use ssh_server_go.Prelude.Int.{ℤ, pos, negsuc}
use ssh_server_go.Session.Exit.{
  session_signals, session_break, session_close, ExitError, invalid_status, called_twice,
  stop_delivery, send_status, exit_with, exit, freed, apply_call, apply_calls,
}
use ssh_server_go.Session.Limits.{IsBounded, Shows, hidden, taken, current, step-IsBounded}

-- The application's calls.
freed-Shows : {p : Option Pty} {w : Option (Option Window)} → Shows p w → Shows p (freed w)
freed-Shows hidden = hidden
freed-Shows taken = taken
freed-Shows (current e) = taken

pub if-IsBounded :
    (b : Bool) (s t : Session) → IsBounded s → IsBounded t → IsBounded (if b then s else t)
if-IsBounded true s t hs ht = hs
if-IsBounded false s t hs ht = ht

if_exit-IsBounded :
    (b : Bool) (x y : List Effect × (Session × Option ExitError))
    → IsBounded x.1.0
    → IsBounded y.1.0
    → IsBounded ((if b then x else y).1.0)
if_exit-IsBounded true x y hx hy = hx
if_exit-IsBounded false x y hx hy = hy

send_status-IsBounded :
    (code : ℕ) (s : Session) → IsBounded s → IsBounded ((send_status none code s).1.0)
send_status-IsBounded code s h =
    if_exit-IsBounded (s.exited) ([], (s, some called_twice))
      (
        exit_status code ∷ (session_close none s).0,
        (record s { exited = true }, (session_close none s).1),
      )
      h h

exit_with-IsBounded :
    (code : ℤ) (s : Session) → IsBounded s → IsBounded ((exit_with none code s).1.0)
exit_with-IsBounded (negsuc n) s h = h
exit_with-IsBounded (pos n) s h =
    if_exit-IsBounded (ltb n (2 ^ 32)) (send_status none n (stop_delivery s))
      ([], (s, some invalid_status))
      (send_status-IsBounded n (stop_delivery s) (step-IsBounded s [] h (registers none))) h

exit-IsBounded :
    (code : ℤ) (d : DeferredState) (s : Session)
    → IsBounded s
    → IsBounded ((exit none code (record s { deferred_state = d })).1.0)
unfolding exit
exit-IsBounded code normal s h = exit_with-IsBounded code (record s { deferred_state = normal }) h
exit-IsBounded code pending s h = h
exit-IsBounded code rejected s h = h

apply_call-IsBounded : (c : Call) (s : Session) → IsBounded s → IsBounded ((apply_call c s).1)
unfolding apply_call session_signals session_break
apply_call-IsBounded takes_window s h = record {
  few = h.few;
  counted = h.counted;
  small = h.small;
  buffered = h.buffered;
  quiet = h.quiet;
  window = freed-Shows h.window;
}
apply_call-IsBounded (signals c) s h =
    if-IsBounded (s.exiting) s _ h (step-IsBounded s [] h (registers c))
apply_call-IsBounded (drains fate) s h = step-IsBounded s [] h (drains_turn fate)
apply_call-IsBounded (breaks c) s h =
    if-IsBounded (s.exiting) s (record s { has_break_channel = c }) h h
apply_call-IsBounded (exits code) s h = exit-IsBounded code s.deferred_state s h
apply_call-IsBounded closes s h = h
apply_call-IsBounded (writes p) s h = h
apply_call-IsBounded (writes_error p) s h = h
apply_call-IsBounded closes_write s h = h
apply_call-IsBounded (sends_request kind w p) s h = h

pub apply_calls-IsBounded :
    (cs : List Call) (s : Session) → IsBounded s → IsBounded ((apply_calls cs s).1)
unfolding apply_calls
apply_calls-IsBounded [] s h = h
apply_calls-IsBounded (c ∷ cs) s h =
    apply_calls-IsBounded cs ((apply_call c s).1) (apply_call-IsBounded c s h)
