-- ===== src/Session/Fair/Settings.antt =====
-- The requests that only set something are handled fairly.
use ssh_server_go.Prelude.{
  ℕ, ◌≤◌, ◌≡◌, refl, Bool, true, false, ◌||◌, Option, none, some, List, [], ◌∷◌, Bytes, is_some,
  one, arith,
}
use ssh_server_go.Prelude.Int.{IntSize}
use ssh_server_go.Codec.{Window, Pty, parse_pty_request, parse_winch_request}
use ssh_server_go.Session.State.{Session, Answer, Config, Input, Effect, replied}
use ssh_server_go.Session.Signals.{Delivery, delivered, cancelled, context_done, channel_closed}
use ssh_server_go.Session.CallbackError.{reply_to}
use ssh_server_go.Session.Requests.{answer}
use ssh_server_go.Session.Settings.{
  with_variable, handle_env, with_signal, after_send, deliver_signal, handle_signal_request,
  with_pty, ask_pty, accept_pty, handle_pty, with_window, on_pty, handle_window_change,
  forward_agent, with_agent, handle_agent, send_break, handle_break,
}
use ssh_server_go.Session.Replies.{
  replies, starts, IsFair, refuse-IsFair, answer-IsFair, flag-Replied, reply_counts,
}
use ssh_server_go.Session.Fair.{if-IsFair, stop-IsFair, if_allowed-IsFair}

module _ (s : Session) (left : List Input) where
  with_variable-IsFair : (v : Option (Bytes × Bytes)) → IsFair s left (with_variable v s left)
  with_variable-IsFair none = refuse-IsFair s left s (omega arith)
  with_variable-IsFair (some (key, value)) =
      if-IsFair _ (refuse-IsFair s left s (omega arith)) (answer-IsFair s left true _ (omega arith))

  pub handle_env-IsFair : (c : Config) (i : Input) → IsFair s left (handle_env c i s left)
  unfolding handle_env
  handle_env-IsFair c i =
      if-IsFair (s.handled) (refuse-IsFair s left s (omega arith))
        (with_variable-IsFair (c.unmarshal_pair i.request.payload))

  after_send-IsFair :
      (d : Delivery) (t : Session)
      → one s.handled ≤ one t.handled
      → IsFair s left (after_send d t left)
  after_send-IsFair delivered t h = answer-IsFair s left true t h
  after_send-IsFair cancelled t h = refuse-IsFair s left t h
  after_send-IsFair context_done t h =
      stop-IsFair s left (replied false ∷ []) t (omega arith) refl h
  after_send-IsFair channel_closed t h = refuse-IsFair s left t h

  deliver_signal-IsFair :
      (i : Input) (signal : Bytes) (c : Option ℕ) → IsFair s left (deliver_signal i signal c s left)
  deliver_signal-IsFair i signal none = answer-IsFair s left true _ (omega arith)
  deliver_signal-IsFair i signal (some c) = after_send-IsFair i.delivery _ (omega arith)

  with_signal-IsFair : (i : Input) (v : Option Bytes) → IsFair s left (with_signal i v s left)
  with_signal-IsFair i none = refuse-IsFair s left s (omega arith)
  with_signal-IsFair i (some signal) = if-IsFair _ (refuse-IsFair s left s (omega arith)) (
      if-IsFair (s.exiting)
        (stop-IsFair s left (replied false ∷ []) s (omega arith) refl (omega arith))
        (deliver_signal-IsFair i signal (s.signals.channel)))

  pub handle_signal_request-IsFair :
      (c : Config) (i : Input) → IsFair s left (handle_signal_request c i s left)
  unfolding handle_signal_request
  handle_signal_request-IsFair c i = with_signal-IsFair i (c.unmarshal_string i.request.payload)

  with_pty-IsFair :
      (c : Config) (i : Input) (p : Option Pty) → IsFair s left (with_pty c i p s left)
  with_pty-IsFair c i none = refuse-IsFair s left s (omega arith)
  with_pty-IsFair c i (some p) =
      if_allowed-IsFair s left c i (ask_pty c s p) s (answer true (accept_pty p s) left)
        (omega arith) (answer-IsFair s left true (accept_pty p s) (omega arith))

  pub handle_pty-IsFair :
      (size : IntSize) (c : Config) (i : Input) → IsFair s left (handle_pty size c i s left)
  unfolding handle_pty
  handle_pty-IsFair size c i =
      if-IsFair (s.handled || is_some s.pty) (refuse-IsFair s left s (omega arith))
        (with_pty-IsFair c i (parse_pty_request size i.request.payload))

  with_window-IsFair : (p : Pty) (w : Option Window) → IsFair s left (with_window p w s left)
  with_window-IsFair p none = refuse-IsFair s left s (omega arith)
  with_window-IsFair p (some w) = answer-IsFair s left true _ (omega arith)

  on_pty-IsFair :
      (size : IntSize) (i : Input) (p : Option Pty) → IsFair s left (on_pty size i p s left)
  on_pty-IsFair size i none = refuse-IsFair s left s (omega arith)
  on_pty-IsFair size i (some p) = with_window-IsFair p (parse_winch_request size i.request.payload)

  pub handle_window_change-IsFair :
      (size : IntSize) (i : Input) → IsFair s left (handle_window_change size i s left)
  unfolding handle_window_change
  handle_window_change-IsFair size i = on_pty-IsFair size i s.pty

  forward_agent-IsFair :
      (r : List Effect × Bool)
      → replies r.0 ≡ 1
      → starts r.0 ≡ 0
      → IsFair s left (forward_agent r s left)
  forward_agent-IsFair (es, b) hr hn = record {
    reply = flag-Replied b hr;
    start = omega (arith, hn);
    shrinks = omega arith;
  }

  with_agent-IsFair :
      (c : Config) (i : Input) (ask : Option (Session → Answer))
      → IsFair s left (with_agent c i ask s left)
  with_agent-IsFair c i none = refuse-IsFair s left s (omega arith)
  with_agent-IsFair c i (some ask) =
      let counts = reply_counts c i true in
      if_allowed-IsFair s left c i (ask s) s (forward_agent (reply_to c i true) s left)
        (omega arith) (forward_agent-IsFair (reply_to c i true) counts.0 counts.1)

  pub handle_agent-IsFair : (c : Config) (i : Input) → IsFair s left (handle_agent c i s left)
  unfolding handle_agent
  handle_agent-IsFair c i = with_agent-IsFair c i c.agent_forwarding

  send_break-IsFair : (d : Delivery) → IsFair s left (send_break d s left)
  send_break-IsFair delivered = answer-IsFair s left true s (omega arith)
  send_break-IsFair cancelled = refuse-IsFair s left s (omega arith)
  send_break-IsFair context_done = refuse-IsFair s left s (omega arith)
  send_break-IsFair channel_closed =
      refuse-IsFair s left (record s { has_break_channel = false }) (omega arith)

  pub handle_break-IsFair : (i : Input) → IsFair s left (handle_break i s left)
  unfolding handle_break
  handle_break-IsFair i =
      if-IsFair (s.has_break_channel) (send_break-IsFair i.break_delivery)
        (refuse-IsFair s left s (omega arith))
