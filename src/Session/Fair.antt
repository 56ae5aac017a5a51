-- ===== src/Session/Fair.antt =====
-- Each request's handling is fair: one reply while the loop goes on, and one handler in all.
pub mod Settings
pub mod Turns
use ssh_server_go.Prelude.{
  ℕ, zero, suc, ◌+◌, ◌≤◌, ◌≡◌, refl, ◌∙◌, ap, sym, subst, Bool, true, false, not, ◌&&◌, ◌||◌,
  Option, none, some, List, [], ◌∷◌, ◌++◌, Bytes, codes, eq_bytes, length, if◌then◌else◌, is_some,
  one, arith, Bool-cases, inl, inr,
}
use ssh_server_go.Prelude.Int.{IntSize}
use ssh_server_go.Codec.{Window, Pty, parse_pty_request, parse_winch_request}
use ssh_server_go.Errors.{Error, wrapped}
use ssh_server_go.Session.State.{
  DeferredState, Session, Answer, Config, Request, Input, DeferredEvent, returned, timer_fires,
  context_ends, reads_request, Effect, replied, started, dispatched, handled_error, close_session,
  close_connection, cancel_deferred, close_winch, Started, session_handler, subsystem_handler,
  deferred_handler, Outcome, continues, stops, waits,
}
use ssh_server_go.Session.CallbackError.{handle_callback_error, reply_to}
use ssh_server_go.Session.Deferred.{
  decided_by, DeferredResponse, Decision, proceeds, gives_up, undecided, Wait, wait_deferred,
  reply_deferred, abandon, take_event, take_events, decided, report, answer_with,
  new_deferred_response,
}
use ssh_server_go.Session.Requests.{
  Turn, refuse, answer, by_flag, callback_failed, if_allowed, ask_policy, resolve, start_with,
  accept_request, command_of, with_command, with_handler, handle_shell, pushed, after_deferred,
  handlers_of, run_subsystem, with_name, handle_subsystem,
}
use ssh_server_go.Session.Settings.{
  with_variable, handle_env, with_signal, after_send, deliver_signal, handle_signal_request,
  with_pty, ask_pty, accept_pty, handle_pty, with_window, on_pty, handle_window_change,
  forward_agent, with_agent, handle_agent, send_break, handle_break,
}
use ssh_server_go.Session.Waiting.{
  queued, IsHonest, take_events-IsHonest, queued-take_events, left-queued, report_counts,
}
use ssh_server_go.Session.Replies.{
  replies, starts, replies-append, starts-append, Replied, once, at_most, not_yet, IsFair,
  refuse-IsFair, answer-IsFair, flag-Replied, callback_counts, reply_counts,
}

-- A test between two fair turns.
pub if-IsFair :
    (b : Bool) {s : Session} {left : List Input} {t u : Turn}
    → IsFair s left t
    → IsFair s left u
    → IsFair s left (if b then t else u)
if-IsFair true ht hu = ht
if-IsFair false ht hu = hu

one_le : (b : Bool) → one b ≤ 1
one_le b = ground arith

unanswered_none : (b : Bool) → not b ≡ true → one b ≡ 0
unanswered_none b h = ground arith

accepted_one : (b failed : Bool) → (not b || failed) ≡ false → one b ≡ 1
accepted_one b failed h = ground arith

module _ (s : Session) (left : List Input) where
  pub stop-IsFair :
      (es : List Effect) (t : Session)
      → replies es ≤ 1
      → starts es ≡ 0
      → one s.handled ≤ one t.handled
      → IsFair s left (record { effects = es; outcome = stops; session = t; left = left })
  stop-IsFair es t hr hs h = record {
    reply = at_most hr;
    start = omega (arith, hs, h);
    shrinks = omega arith;
  }

  callback_failed-IsFair :
      (c : Config) (i : Input) (e : Error) (t : Session)
      → one s.handled ≤ one t.handled
      → IsFair s left (callback_failed c i e t left)
  callback_failed-IsFair c i e t h =
      let counts = callback_counts c i (wrapped 0 e) in
      record {
        reply = flag-Replied ((handle_callback_error c i (wrapped 0 e)).1) (counts.0);
        start = omega (arith, counts.1, h);
        shrinks = omega arith;
      }

  pub if_allowed-IsFair :
      (c : Config) (i : Input) (a : Answer) (t : Session) (go : Turn)
      → one s.handled ≤ one t.handled
      → IsFair s left go
      → IsFair s left (if_allowed c i a t left go)
  if_allowed-IsFair c i (allowed, some e) t go h fair = callback_failed-IsFair c i e t h
  if_allowed-IsFair c i (true, none) t go h fair = fair
  if_allowed-IsFair c i (false, none) t go h fair = refuse-IsFair s left t h

  start_with-IsFair :
      (h : Started) (r : List Effect × Bool) (t : Session)
      → one s.handled ≡ 0
      → one t.handled ≡ 1
      → replies r.0 ≡ 1
      → starts r.0 ≡ 0
      → IsFair s left (start_with h r t left)
  start_with-IsFair h (es, true) t hs ht hr hn = record {
    reply = once (omega (arith, replies-append es (started h ∷ []), hr));
    start = omega (arith, starts-append es (started h ∷ []), hs, ht, hn);
    shrinks = omega arith;
  }
  start_with-IsFair h (es, false) t hs ht hr hn = record {
    reply = at_most (omega (arith, hr));
    start = omega (arith, hs, hn);
    shrinks = omega arith;
  }

  accept_request-IsFair :
      (c : Config) (i : Input) (h : Started) (t : Session)
      → one s.handled ≡ 0
      → one s.handled ≤ one t.handled
      → IsFair s left (accept_request c i h t left)
  unfolding accept_request
  accept_request-IsFair c i h t hs ht =
      if-IsFair (t.resolved) (stop-IsFair [] t (omega arith) refl ht) (
        start_with-IsFair h (reply_to c i true) (resolve t) hs refl ((reply_counts c i true).0)
          ((reply_counts c i true).1))

  -- Behind the guard, no handler has been started.
  pub unhandled-IsFair :
      (b : Bool) {t : Turn}
      → s.handled ≡ b
      → (one s.handled ≡ 0 → IsFair s left t)
      → IsFair s left (if b then refuse s left else t)
  unhandled-IsFair true h fair = refuse-IsFair s left s (omega arith)
  unhandled-IsFair false h fair = fair (ap one h)

  with_command-IsFair :
      (c : Config) (i : Input) (handler : ℕ) (value : Option Bytes)
      → one s.handled ≡ 0
      → IsFair s left (with_command c i handler value s left)
  with_command-IsFair c i handler none hs = refuse-IsFair s left s (omega arith)
  with_command-IsFair c i handler (some value) hs =
      let asked = record s { raw_cmd = value; subsystem = [] } in
      if_allowed-IsFair c i (ask_policy c asked i.request.kind) (record asked { raw_cmd = [] })
        (accept_request c i (session_handler handler) asked left) (omega arith)
        (accept_request-IsFair c i (session_handler handler) asked hs (omega arith))

  with_handler-IsFair :
      (c : Config) (i : Input) (handler : Option ℕ)
      → one s.handled ≡ 0
      → IsFair s left (with_handler c i handler s left)
  with_handler-IsFair c i none hs = refuse-IsFair s left s (omega arith)
  with_handler-IsFair c i (some handler) hs = with_command-IsFair c i handler (command_of c i) hs

  pub handle_shell-IsFair : (c : Config) (i : Input) → IsFair s left (handle_shell c i s left)
  unfolding handle_shell
  handle_shell-IsFair c i =
      unhandled-IsFair (s.handled) refl (λ hs. with_handler-IsFair c i c.handler hs)

  -- The wait by its answer and its acceptance.
  decided-IsFair :
      (c : Config) (unanswered refused : Bool) (handler : ℕ) (es : List Effect) (t : Session)
      (w : Wait)
      → not w.response.answered ≡ unanswered
      → (not w.response.accepted || is_some w.response.err) ≡ refused
      → IsHonest es w.response
      → queued w ≤ length left
      → one s.handled ≡ 0
      → one t.handled ≡ 1
      → IsFair s left (
          let end = decided_by c unanswered refused handler w in
          after_deferred t (es ++ end.0, end.1, w))
  decided-IsFair c true refused handler es t w hb hc honest fits hs ht = record {
    reply = not_yet (
        omega
          (arith, replies-append es [], honest.single, unanswered_none (w.response.answered) hb));
    start = omega (arith, starts-append es [], honest.unstarted, hs);
    shrinks = omega (arith, fits, left-queued w.next w.left);
  }
  decided-IsFair c false true handler es t w hb hc honest fits hs ht =
      let ended = cancel_deferred ∷ close_session ∷ report c w.failure w.response.accepted in
      let counts = report_counts c w.failure w.response.accepted in
      record {
        reply = at_most (
            omega (
              arith,
              replies-append es ended,
              honest.single,
              one_le w.response.answered,
              counts.0,
            ));
        start = omega (arith, starts-append es ended, honest.unstarted, counts.1, hs);
        shrinks = omega (arith, fits, left-queued w.next w.left);
      }
  decided-IsFair c false false handler es t w hb hc honest fits hs ht =
      let begun = started (deferred_handler handler) ∷ [] in
      record {
        reply = once (
            omega (
              arith,
              replies-append es begun,
              honest.single,
              honest.acceptance,
              one_le w.response.answered,
              accepted_one w.response.accepted (is_some w.response.err) hc,
            ));
        start = omega (arith, starts-append es begun, honest.unstarted, hs, ht);
        shrinks = fits;
      }

  wait_deferred-IsFair :
      (c : Config) (handler : ℕ) (outcome : Option Error) (events : List DeferredEvent)
      (t : Session)
      → one s.handled ≡ 0
      → one t.handled ≡ 1
      → IsFair s left (after_deferred t (wait_deferred c handler outcome events left))
  unfolding wait_deferred
  wait_deferred-IsFair c handler outcome events t hs ht =
      let start : Wait = record {
        response = new_deferred_response;
        next = none;
        left = left;
        failure = none;
      } in
      let waited = take_events outcome events start in
      let r = waited.1.response in
      decided-IsFair c (not r.answered) (not r.accepted || is_some r.err) handler waited.0 t
        waited.1 refl refl (take_events-IsHonest outcome events start refl)
        (queued-take_events outcome events start) hs ht

  run_subsystem-IsFair :
      (c : Config) (i : Input) (found : Option ℕ × Option ℕ) (t : Session)
      → one s.handled ≡ 0
      → one s.handled ≤ one t.handled
      → IsFair s left (run_subsystem c i found t left)
  run_subsystem-IsFair c i (none, none) t hs ht =
      refuse-IsFair s left (record t { subsystem = [] }) ht
  run_subsystem-IsFair c i (some handler, none) t hs ht =
      accept_request-IsFair c i (subsystem_handler handler) t hs ht
  run_subsystem-IsFair c i (none, some deferred) t hs ht =
      if-IsFair (t.resolved) (stop-IsFair [] t (omega arith) refl ht)
        (wait_deferred-IsFair c deferred i.reply_failure i.events (resolve t) hs refl)
  run_subsystem-IsFair c i (some handler, some deferred) t hs ht =
      if-IsFair (t.resolved) (stop-IsFair [] t (omega arith) refl ht)
        (wait_deferred-IsFair c deferred i.reply_failure i.events (resolve t) hs refl)

  with_name-IsFair :
      (c : Config) (i : Input) (name : Option Bytes)
      → one s.handled ≡ 0
      → IsFair s left (with_name c i name s left)
  with_name-IsFair c i none hs = refuse-IsFair s left s (omega arith)
  with_name-IsFair c i (some name) hs =
      let asked = record s { subsystem = name; raw_cmd = [] } in
      if_allowed-IsFair c i (ask_policy c asked i.request.kind) (record asked { subsystem = [] })
        (run_subsystem c i (handlers_of c name) asked left) (omega arith)
        (run_subsystem-IsFair c i (handlers_of c name) asked hs (omega arith))

  pub handle_subsystem-IsFair :
      (c : Config) (i : Input) → IsFair s left (handle_subsystem c i s left)
  unfolding handle_subsystem
  handle_subsystem-IsFair c i =
      unhandled-IsFair (s.handled) refl
        (λ hs. with_name-IsFair c i (c.unmarshal_string i.request.payload) hs)
