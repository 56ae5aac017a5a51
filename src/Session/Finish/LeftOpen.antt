-- ===== src/Session/Finish/LeftOpen.antt =====
-- Where the end of a session's handler leaves its channel open.
use ssh_server_go.Prelude.{
  ◌≡◌, refl, append-nil, ◌∙◌, ap, Bool, true, false, not, ◌&&◌, ◌||◌, Option, none, some, List, [],
  ◌∷◌, ◌++◌, Bytes, take, if◌then◌else◌, arith,
}
use ssh_server_go.Prelude.Int.{ℤ, pos, negsuc}
use ssh_server_go.Errors.{
  Error, joined, cons, nil, SessionExitError, exclusive_session_exit_error, reply,
}
use ssh_server_go.Session.State.{normal, Session, Config, Effect}
use ssh_server_go.Session.CallbackError.{escalates, dispatch_or_escalate}
use ssh_server_go.Session.Exit.{exit, ExitError, invalid_status}
use ssh_server_go.Session.Finish.{
  Finish, Written, written, context_ended, timed_out, max_session_error_response_bytes, write_error,
  exit_error_of, apply_exit_error, apply_and_report, report_reply, finish_by, finish_handler,
  has_message, respond_to_error, join,
}
use ssh_server_go.Session.Finish.Ends.{ends, ends-append, is_status, finish_by-ends}

-- Whether the context ends, or the time is over, before a message is written.
abbrev pub stalls : Written → Bool
stalls (written n err) = false
stalls (context_ended cause) = true
stalls timed_out = true

-- The error of the write of a message, if there is one, and the error of an `Exit` that refuses.
abbrev pub message_error : Bytes → Written → Option Error
message_error message fate =
    if has_message message
    then (write_error (take max_session_error_response_bytes message) fate).1
    else none

abbrev pub refused_with : Option Error → Error
refused_with none = joined 0 (cons (exit_error_of invalid_status) nil)
refused_with (some e) = joined 0 (cons e (cons (exit_error_of invalid_status) nil))

-- The handler asks for a status that `Exit` refuses, its message does not stall, and the error handler
-- does not escalate the error of the refusal.
abbrev pub left_open : Config → Finish → Option SessionExitError → Bool
left_open c f none = false
left_open c f (some x) =
    not (is_status x.code)
    && (not (has_message x.message && stalls f.fate)
        && not (escalates c reply (refused_with (message_error x.message f.fate))))

exit-invalid :
    (outcome : Option Error) (code : ℤ) (s : Session)
    → s.deferred_state ≡ normal
    → is_status code ≡ false
    → exit outcome code s ≡ ([], (s, some invalid_status))
unfolding exit
exit-invalid outcome (pos n) s hd hx = ground arith
exit-invalid outcome (negsuc n) s hd hx = ground arith

unexited :
    (b : Bool) (s : Session) (r : List Effect × Session)
    → b ≡ false
    → (if b then ([], s) else r) ≡ r
unexited true s r h = cc
unexited false s r h = refl

abbrev response_to : Bytes → Written → List Effect × Option Error
unfolding respond_to_error
response_to message fate =
    if has_message message then respond_to_error message false fate else ([], none)

write_error-ends : (m : Bytes) (fate : Written) → ends ((write_error m fate).0 ++ []) ≡ stalls fate
write_error-ends m (written n none) = refl
write_error-ends m (written n (some e)) = refl
write_error-ends m (context_ended cause) = refl
write_error-ends m timed_out = refl

response-ends :
    (message : Bytes) (fate : Written)
    → ends ((response_to message fate).0) ≡ (has_message message && stalls fate)
unfolding respond_to_error
response-ends [] fate = refl
response-ends (b ∷ bs) fate = write_error-ends (take max_session_error_response_bytes (b ∷ bs)) fate

response_to_error :
    (message : Bytes) (fate : Written) → (response_to message fate).1 ≡ message_error message fate
unfolding respond_to_error
response_to_error [] fate = refl
response_to_error (b ∷ bs) fate = refl

escalate-ends :
    (c : Config) (e : Error) → ends (dispatch_or_escalate c reply e) ≡ escalates c reply e
unfolding dispatch_or_escalate
escalate-ends c e = ground arith

report-ends :
    (c : Config) (e : Option Error)
    → ends (report_reply c (join e (some invalid_status))) ≡ escalates c reply (refused_with e)
report-ends c none = escalate-ends c (refused_with none)
report-ends c (some e) = escalate-ends c (refused_with (some e))

de_morgan : (a b : Bool) → (a || b) ≡ not (not a && not b)
de_morgan true b = refl
de_morgan false true = refl
de_morgan false false = refl

-- What an exit error does, by the result of `Exit`.
abbrev applied :
    Config → List Effect × Option Error → List Effect × (Session × Option ExitError) → List Effect
applied c response exited = response.0 ++ exited.0 ++ report_reply c (join response.1 exited.1.1)

applied-ends :
    (c : Config) (f : Finish) (s : Session) (message : Bytes)
    → ends (applied c (response_to message f.fate) ([], (s, some invalid_status)))
      ≡ not (
          not (has_message message && stalls f.fate)
          && not (escalates c reply (refused_with (message_error message f.fate))))
applied-ends c f s message =
    let response = response_to message f.fate in
    ends-append (response.0 ++ []) (report_reply c (join response.1 (some invalid_status)))
    ∙ ap (◌|| ends (report_reply c (join response.1 (some invalid_status))))
        (ap ends (append-nil response.0) ∙ response-ends message f.fate)
    ∙ ap (has_message message && stalls f.fate ||◌) (
        report-ends c response.1
        ∙ ap (λ e. escalates c reply (refused_with e)) (response_to_error message f.fate))
    ∙ de_morgan (has_message message && stalls f.fate)
        (escalates c reply (refused_with (message_error message f.fate)))

module _ (c : Config) (f : Finish) (s : Session) (hd : s.deferred_state ≡ normal)
    (he : s.exited ≡ false) where
  -- The rest of the condition, where the status is refused.
  abbrev unescalated : SessionExitError → Bool
  unescalated x =
      not (has_message x.message && stalls f.fate)
      && not (escalates c reply (refused_with (message_error x.message f.fate)))

  exit_error_by :
      (x : SessionExitError) (valid : Bool)
      → is_status x.code ≡ valid
      → ends ((finish_by c f (some x) s).0) ≡ not (not valid && unescalated x)
  unfolding apply_exit_error
  exit_error_by x true hx = finish_by-ends c f s hd he (some x) hx
  exit_error_by x false hx =
      ap (λ (r : List Effect × Session). ends r.0)
        (unexited (s.exited) s (apply_and_report c f x s) he)
      ∙ ap (λ r. ends (applied c (response_to x.message f.fate) r))
          (exit-invalid f.outcome x.code s hd hx)
      ∙ applied-ends c f s x.message

  finish_by-left_open :
      (x : Option SessionExitError) → ends ((finish_by c f x s).0) ≡ not (left_open c f x)
  finish_by-left_open none = finish_by-ends c f s hd he none refl
  finish_by-left_open (some x) = exit_error_by x (is_status x.code) refl

-- Where no exit was made before, and the subsystem, if there is one, is accepted, a session whose
-- handler has returned leaves its channel and the connection open in one case only: the handler asks,
-- by an exit error and no other, for a status that is negative or beyond 32 bits, neither the context
-- nor the time ends the writing of its message, if it has one, and the dispatch of the error of `Exit`
-- does not escalate.
pub finish_handler-left_open :
    (c : Config) (f : Finish) (s : Session)
    → s.deferred_state ≡ normal
    → s.exited ≡ false
    → ends ((finish_handler c f s).0) ≡ not (left_open c f (exclusive_session_exit_error f.err))
unfolding finish_handler
finish_handler-left_open c f s hd he =
    finish_by-left_open c f s hd he (exclusive_session_exit_error f.err)
