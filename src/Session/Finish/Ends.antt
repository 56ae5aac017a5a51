-- ===== src/Session/Finish/Ends.antt =====
-- What the end of a session's handler leaves: a session that is closed.
use ssh_server_go.Prelude.{
  ◌^◌, ◌≡◌, refl, ◌∙◌, ap, sym, subst, append_assoc, Bool, true, false, not, ◌||◌, Option, none,
  some, List, [], ◌∷◌, ◌++◌, ltb, if◌then◌else◌, is_some, arith,
}
use ssh_server_go.Prelude.Int.{ℤ, pos, negsuc}
use ssh_server_go.Errors.{Error, SessionExitError, exclusive_session_exit_error, session, handle}
use ssh_server_go.Dispatch.{dispatch_error, new_error_response}
use ssh_server_go.Session.State.{
  normal, Session, Config, Effect, replied, started, dispatched, handled_error, close_session,
  close_connection, cancel_deferred, close_winch, exit_status, wrote_error, wrote, sent_request,
  close_write,
}
use ssh_server_go.Session.CallbackError.{Handled, handled_of, handler_for}
use ssh_server_go.Session.Exit.{exit, session_close}
use ssh_server_go.Session.Finish.{
  Finish, apply_exit_error, apply_and_report, report_reply, exit_and_report, close_or_exit,
  close_filtered, response_left, close_failed, finish_dispatched, finish_other, finish_by,
  finish_handler, has_message, respond_to_error, maybe_exit_error,
}

-- Whether a session closes its channel or the connection.
abbrev pub ends : List Effect → Bool
ends [] = false
ends (replied accepted ∷ es) = ends es
ends (started h ∷ es) = ends es
ends (dispatched o e ∷ es) = ends es
ends (handled_error ms ∷ es) = ends es
ends (close_session ∷ es) = true
ends (close_connection ∷ es) = true
ends (cancel_deferred ∷ es) = ends es
ends (close_winch ∷ es) = ends es
ends (exit_status n ∷ es) = ends es
ends (wrote_error m ∷ es) = ends es
ends (wrote m ∷ es) = ends es
ends (sent_request k w m ∷ es) = ends es
ends (close_write ∷ es) = ends es

pub ends-append : (es fs : List Effect) → ends (es ++ fs) ≡ (ends es || ends fs)
ends-append [] fs = refl
ends-append (replied accepted ∷ es) fs = ends-append es fs
ends-append (started x ∷ es) fs = ends-append es fs
ends-append (dispatched o e ∷ es) fs = ends-append es fs
ends-append (handled_error ms ∷ es) fs = ends-append es fs
ends-append (close_session ∷ es) fs = refl
ends-append (close_connection ∷ es) fs = refl
ends-append (cancel_deferred ∷ es) fs = ends-append es fs
ends-append (close_winch ∷ es) fs = ends-append es fs
ends-append (exit_status n ∷ es) fs = ends-append es fs
ends-append (wrote_error m ∷ es) fs = ends-append es fs
ends-append (wrote m ∷ es) fs = ends-append es fs
ends-append (sent_request k w m ∷ es) fs = ends-append es fs
ends-append (close_write ∷ es) fs = ends-append es fs

or_true : (b : Bool) → (b || true) ≡ true
or_true true = refl
or_true false = refl

ends_behind : (es fs : List Effect) → ends fs ≡ true → ends (es ++ fs) ≡ true
ends_behind es fs h = ends-append es fs ∙ ap (ends es ||◌) h ∙ or_true (ends es)

-- The codes that `Exit` sends.
abbrev pub is_status : ℤ → Bool
is_status (pos n) = ltb n (2 ^ 32)
is_status (negsuc n) = false

abbrev pub status_valid : Option SessionExitError → Bool
status_valid none = true
status_valid (some x) = is_status x.code

exit-ends :
    (outcome : Option Error) (code : ℤ) (s : Session)
    → s.deferred_state ≡ normal
    → s.exited ≡ false
    → is_status code ≡ true
    → (fs : List Effect) → ends ((exit outcome code s).0 ++ fs) ≡ true
unfolding exit session_close
exit-ends outcome (pos n) s hd he hc fs = ground arith
exit-ends outcome (negsuc n) s hd he hc fs = cc

close-ends :
    (s : Session)
    → s.deferred_state ≡ normal
    → (fs : List Effect) → ends ((session_close none s).0 ++ fs) ≡ true
unfolding session_close
close-ends s hd fs = ground arith

close_ends : (s : Session) → s.deferred_state ≡ normal → ends ((session_close none s).0) ≡ true
unfolding session_close
close_ends s hd = ground arith

module _ (c : Config) (f : Finish) (s : Session) (hd : s.deferred_state ≡ normal)
    (he : s.exited ≡ false) where
  small_status : (fails : Bool) → ltb (if fails then 1 else 0) (2 ^ 32) ≡ true
  small_status true = refl
  small_status false = refl

  exit_and_report-ends :
      (fails : Bool) → ends ((exit_and_report c f (if fails then 1 else 0) s).0) ≡ true
  exit_and_report-ends fails =
      let r = exit f.outcome (pos (if fails then 1 else 0)) s in
      exit-ends f.outcome (pos (if fails then 1 else 0)) s hd he (small_status fails)
        (report_reply c (maybe_exit_error r.1.1))

  close_or_exit_by :
      (closes exited fails : Bool)
      → exited ≡ false
      → ends (
          (if closes
            then ((session_close none s).0, s)
            else if exited
            then ([], s)
            else exit_and_report c f (if fails then 1 else 0) s).0)
        ≡ true
  close_or_exit_by true exited fails h = close_ends s hd
  close_or_exit_by false true fails h = cc
  close_or_exit_by false false fails h = exit_and_report-ends fails

  close_or_exit-ends : (closes fails : Bool) → ends ((close_or_exit c f closes fails s).0) ≡ true
  close_or_exit-ends closes fails = close_or_exit_by closes (s.exited) fails he

  finish_dispatched-ends : (h : Handled) → ends ((finish_dispatched c f h s).0) ≡ true
  unfolding finish_dispatched
  finish_dispatched-ends h =
      let fails = not h.can_continue || (is_some h.filtered || response_left h) in
      let r = close_or_exit c f h.closes fails s in
      ends_behind (close_filtered h s) (close_failed h s ++ r.0)
        (ends_behind (close_failed h s) r.0 (close_or_exit-ends h.closes fails))

  apply_exit_error-ends :
      (x : SessionExitError)
      → is_status x.code ≡ true
      → (fs : List Effect) → ends ((apply_exit_error f x s).0 ++ fs) ≡ true
  unfolding apply_exit_error
  apply_exit_error-ends x hx fs =
      let response =
        if has_message x.message then respond_to_error x.message false f.fate else ([], none) in
      let exited = exit f.outcome x.code s in
      subst (λ es. ends es ≡ true) (sym (append_assoc response.0 exited.0 fs))
        (ends_behind response.0 (exited.0 ++ fs) (exit-ends f.outcome x.code s hd he hx fs))

  finish_exit_by :
      (exited : Bool) (x : SessionExitError)
      → exited ≡ false
      → is_status x.code ≡ true
      → ends
          ((if◌then◌else◌ {A = List Effect × Session} exited ([], s) (apply_and_report c f x s)).0)
        ≡ true
  finish_exit_by true x h hx = cc
  finish_exit_by false x h hx =
      apply_exit_error-ends x hx (report_reply c ((apply_exit_error f x s).1.1))

  finish_other-ends : (err : Option Error) → ends ((finish_other c f err s).0) ≡ true
  finish_other-ends none = close_or_exit-ends false false
  finish_other-ends (some e) = finish_dispatched-ends (
      handled_of (
        dispatch_error none (handler_for c.error_handler e) session handle (some e)
          (new_error_response (some f.responder)) c.default_action))

  pub finish_by-ends :
      (x : Option SessionExitError) → status_valid x ≡ true → ends ((finish_by c f x s).0) ≡ true
  finish_by-ends none hx = finish_other-ends f.err
  finish_by-ends (some x) hx = finish_exit_by (s.exited) x he hx

-- Where no exit was made before, and the subsystem, if there is one, is accepted: whatever error the
-- handler returns, and whatever the error handler makes of it, the session closes its channel or the
-- connection when its handler has returned, unless the handler asks, by an exit error and no other, for
-- a status that is negative or beyond 32 bits.
pub finish_handler-ends :
    (c : Config) (f : Finish) (s : Session)
    → s.deferred_state ≡ normal
    → s.exited ≡ false
    → status_valid (exclusive_session_exit_error f.err) ≡ true
    → ends ((finish_handler c f s).0) ≡ true
unfolding finish_handler
finish_handler-ends c f s hd he hx =
    finish_by-ends c f s hd he (exclusive_session_exit_error f.err) hx
