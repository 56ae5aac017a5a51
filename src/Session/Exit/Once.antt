-- ===== src/Session/Exit/Once.antt =====
-- What the application's calls do to a session: it exits once.
use ssh_server_go.Prelude.{
  Option, none, ℕ, ◌+◌, ◌≤◌, ◌≡◌, refl, ◌∙◌, List, [], ◌∷◌, ◌++◌, one, arith,
}
use ssh_server_go.Prelude.Int.{ℤ}
use ssh_server_go.Errors.{Error}
use ssh_server_go.Session.State.{
  Session, Call, takes_window, signals, drains, breaks, exits, closes, writes, writes_error,
  closes_write, sends_request, Effect, replied, started, dispatched, handled_error, close_session,
  close_connection, cancel_deferred, close_winch, exit_status, wrote_error, wrote, sent_request,
  close_write,
}
use ssh_server_go.Session.Exit.{
  session_signals, session_break, session_close, exit, apply_call, apply_calls,
}
use ssh_server_go.Session.Replies.{replies, starts, replies-append, starts-append}

abbrev pub statuses : List Effect → ℕ
statuses [] = 0
statuses (replied accepted ∷ es) = statuses es
statuses (started h ∷ es) = statuses es
statuses (dispatched o e ∷ es) = statuses es
statuses (handled_error ms ∷ es) = statuses es
statuses (close_session ∷ es) = statuses es
statuses (close_connection ∷ es) = statuses es
statuses (cancel_deferred ∷ es) = statuses es
statuses (close_winch ∷ es) = statuses es
statuses (exit_status n ∷ es) = 1 + statuses es
statuses (wrote_error m ∷ es) = statuses es
statuses (wrote m ∷ es) = statuses es
statuses (sent_request k w m ∷ es) = statuses es
statuses (close_write ∷ es) = statuses es

pub statuses-append : (es fs : List Effect) → statuses (es ++ fs) ≡ statuses es + statuses fs
statuses-append [] fs = omega arith
statuses-append (replied accepted ∷ es) fs = statuses-append es fs
statuses-append (started h ∷ es) fs = statuses-append es fs
statuses-append (dispatched o e ∷ es) fs = statuses-append es fs
statuses-append (handled_error ms ∷ es) fs = statuses-append es fs
statuses-append (close_session ∷ es) fs = statuses-append es fs
statuses-append (close_connection ∷ es) fs = statuses-append es fs
statuses-append (cancel_deferred ∷ es) fs = statuses-append es fs
statuses-append (close_winch ∷ es) fs = statuses-append es fs
statuses-append (exit_status n ∷ es) fs = omega (arith, statuses-append es fs)
statuses-append (wrote_error m ∷ es) fs = statuses-append es fs
statuses-append (wrote m ∷ es) fs = statuses-append es fs
statuses-append (sent_request k w m ∷ es) fs = statuses-append es fs
statuses-append (close_write ∷ es) fs = statuses-append es fs

-- Calls neither reply nor start a handler, and leave the mark of the session; an exit status is sent
-- only where none was, and then the session has exited; one that exits goes on to.
pub record IsOrderly (s : Session) (r : List Effect × Session) : Type 0 where
  pub unanswered : replies r.0 ≡ 0
  pub unstarted : starts r.0 ≡ 0
  pub mark : r.1.handled ≡ s.handled
  pub single : statuses r.0 + one s.exited ≤ one r.1.exited
  pub exiting : one s.exiting ≤ one r.1.exiting

silent-IsOrderly :
    (s t : Session)
    → t.handled ≡ s.handled
    → one s.exited ≤ one t.exited
    → one s.exiting ≤ one t.exiting
    → IsOrderly s ([], t)
silent-IsOrderly s t hm he hx = record {
  unanswered = refl;
  unstarted = refl;
  mark = hm;
  single = omega (arith, he);
  exiting = hx;
}

pub exit-IsOrderly :
    (outcome : Option Error) (code : ℤ) (s : Session)
    → IsOrderly s ((exit outcome code s).0, (exit outcome code s).1.0)
unfolding exit session_close
exit-IsOrderly outcome code s = ground arith

plain-IsOrderly :
    (s : Session) (e : Effect)
    → replies (e ∷ []) ≡ 0
    → starts (e ∷ []) ≡ 0
    → statuses (e ∷ []) ≡ 0
    → IsOrderly s (e ∷ [], s)
plain-IsOrderly s e hr hs hn = record {
  unanswered = hr;
  unstarted = hs;
  mark = refl;
  single = omega (arith, hn);
  exiting = omega arith;
}

apply_call-IsOrderly : (c : Call) (s : Session) → IsOrderly s (apply_call c s)
unfolding apply_call session_signals session_break session_close
apply_call-IsOrderly takes_window s = ground arith
apply_call-IsOrderly (signals c) s = ground arith
apply_call-IsOrderly (drains fate) s = silent-IsOrderly s _ refl (omega arith) (omega arith)
apply_call-IsOrderly (breaks c) s = ground arith
apply_call-IsOrderly (exits code) s = exit-IsOrderly none code s
apply_call-IsOrderly closes s = ground arith
apply_call-IsOrderly (writes p) s = plain-IsOrderly s (wrote _) refl refl refl
apply_call-IsOrderly (writes_error p) s = plain-IsOrderly s (wrote_error p) refl refl refl
apply_call-IsOrderly closes_write s = plain-IsOrderly s close_write refl refl refl
apply_call-IsOrderly (sends_request kind w p) s =
    plain-IsOrderly s (sent_request kind w p) refl refl refl

-- In whatever order the application calls `Signals`, `Break`, `Exit`, `Close`, `Write`, `CloseWrite` and
-- `SendRequest` of a session, writes to its error stream, and takes its windows, with the turns of
-- `drainSignals` between them: `Exit` sends an exit status once at most, and not where the session had
-- exited before, whatever the application itself sends by `SendRequest`; once the session exits it goes
-- on to; and the calls reply to no request, start no handler, and leave `handled`.
pub apply_calls-IsOrderly : (cs : List Call) (s : Session) → IsOrderly s (apply_calls cs s)
unfolding apply_calls
apply_calls-IsOrderly [] s = silent-IsOrderly s s refl (omega arith) (omega arith)
apply_calls-IsOrderly (c ∷ cs) s =
    let r = apply_call c s in
    let rest = apply_calls cs r.1 in
    let h = apply_call-IsOrderly c s in
    let hs = apply_calls-IsOrderly cs r.1 in
    record {
      unanswered = omega (arith, replies-append r.0 rest.0, h.unanswered, hs.unanswered);
      unstarted = omega (arith, starts-append r.0 rest.0, h.unstarted, hs.unstarted);
      mark = hs.mark ∙ h.mark;
      single = omega (arith, statuses-append r.0 rest.0, h.single, hs.single);
      exiting = omega (arith, h.exiting, hs.exiting);
    }
