-- ===== src/Session/Frozen.antt =====
-- What a session's handler reads without a lock does not change when it runs.
use ssh_server_go.Prelude.{
  ℕ, zero, suc, ◌≡◌, refl, ◌∙◌, ap, Bool, true, false, ◌||◌, Option, none, some, List, [], ◌∷◌,
  Bytes, length, if◌then◌else◌, is_some, arith,
}
use ssh_server_go.Prelude.Int.{IntSize}
use ssh_server_go.Codec.{Window, Pty, parse_winch_request}
use ssh_server_go.Session.Signals.{
  Signals, Delivery, delivered, cancelled, context_done, channel_closed, send_signal,
}
use ssh_server_go.Session.State.{Session, Answer, Config, Input, Effect}
use ssh_server_go.Session.Requests.{Turn, refuse, if_allowed, handle_shell, handle_subsystem}
use ssh_server_go.Session.Settings.{
  handle_env, with_signal, after_send, deliver_signal, handle_signal_request, handle_pty,
  with_window, on_pty, handle_window_change, forward_agent, with_agent, handle_agent, send_break,
  handle_break,
}
use ssh_server_go.Session.CallbackError.{reply_to}
use ssh_server_go.Prelude.{◌<◌}
use ssh_server_go.Session.Fair.Turns.{IsFinished, loop-IsFinished}
use ssh_server_go.Session.State.{
  Call, takes_window, signals, drains, breaks, exits, closes, writes, writes_error, closes_write,
  sends_request,
}
use ssh_server_go.Prelude.Int.{ℤ}
use ssh_server_go.Session.Exit.{
  session_signals, session_break, session_close, exit, apply_call, apply_calls,
}
use ssh_server_go.Session.Loop.{
  prepend_to, Kind, shell_or_exec, subsystem, env, signal, pty_req, window_change, agent,
  break_request, unknown, kind_of, handle_kind, fires, timed, handle_input, Run, go_on, loop,
}
use ssh_server_go.Session.State.{Outcome, continues, stops, waits}

-- The environment, the command and the subsystem, and that the session is handled.
abbrev pub kept : Session → List Bytes × (Bytes × (Bytes × Bool))
kept s = (s.env, (s.raw_cmd, (s.subsystem, s.handled)))

-- A turn that freezes a session.
pub record Freezes (s : Session) (t : Turn) : Type 0 where
  pub frozen : kept t.session ≡ kept s

guard-Freezes :
    (b : Bool) (s : Session) {t : Turn} (u : Turn)
    → b ≡ true
    → Freezes s t
    → Freezes s (if b then t else u)
guard-Freezes true s u hb h = h
guard-Freezes false s u hb h = cc

if-Freezes :
    (b : Bool) (s : Session) {t u : Turn}
    → Freezes s t
    → Freezes s u
    → Freezes s (if b then t else u)
if-Freezes true s ht hu = ht
if-Freezes false s ht hu = hu

module _ (s : Session) (left : List Input) where
  stays : Freezes s (refuse s left)
  stays = record { frozen = refl }

  if_allowed-Freezes :
      (c : Config) (i : Input) (a : Answer) (go : Turn)
      → Freezes s go
      → Freezes s (if_allowed c i a s left go)
  if_allowed-Freezes c i (allowed, some e) go hg = record { frozen = refl }
  if_allowed-Freezes c i (true, none) go hg = hg
  if_allowed-Freezes c i (false, none) go hg = stays

  after_send-Freezes :
      (fate : Delivery) (t : Signals) → Freezes s (after_send fate (record s { signals = t }) left)
  after_send-Freezes delivered t = record { frozen = refl }
  after_send-Freezes cancelled t = record { frozen = refl }
  after_send-Freezes context_done t = record { frozen = refl }
  after_send-Freezes channel_closed t = record { frozen = refl }

  deliver_signal-Freezes :
      (i : Input) (x : Bytes) (c : Option ℕ) → Freezes s (deliver_signal i x c s left)
  deliver_signal-Freezes i x none = record { frozen = refl }
  deliver_signal-Freezes i x (some c) =
      after_send-Freezes i.delivery (send_signal x i.delivery s.signals)

  with_signal-Freezes : (i : Input) (v : Option Bytes) → Freezes s (with_signal i v s left)
  with_signal-Freezes i none = stays
  with_signal-Freezes i (some x) = if-Freezes _ s stays (
      if-Freezes (s.exiting) s (record { frozen = refl })
        (deliver_signal-Freezes i x s.signals.channel))

  with_window-Freezes : (p : Pty) (w : Option Window) → Freezes s (with_window p w s left)
  with_window-Freezes p none = stays
  with_window-Freezes p (some update) = record { frozen = refl }

  on_pty-Freezes :
      (size : IntSize) (i : Input) (p : Option Pty) → Freezes s (on_pty size i p s left)
  on_pty-Freezes size i none = stays
  on_pty-Freezes size i (some p) =
      with_window-Freezes p (parse_winch_request size i.request.payload)

  with_agent-Freezes :
      (c : Config) (i : Input) (ask : Option (Session → Answer))
      → Freezes s (with_agent c i ask s left)
  with_agent-Freezes c i none = stays
  with_agent-Freezes c i (some ask) =
      if_allowed-Freezes c i (ask s) (forward_agent (reply_to c i true) s left)
        (record { frozen = refl })

  send_break-Freezes : (d : Delivery) → Freezes s (send_break d s left)
  send_break-Freezes delivered = record { frozen = refl }
  send_break-Freezes cancelled = record { frozen = refl }
  send_break-Freezes context_done = record { frozen = refl }
  send_break-Freezes channel_closed = record { frozen = refl }

  handle_kind-Freezes :
      (size : IntSize) (c : Config) (k : Kind) (i : Input)
      → s.handled ≡ true
      → Freezes s (handle_kind size c k i s left)
  unfolding handle_kind handle_shell handle_subsystem handle_env handle_signal_request handle_pty
      handle_window_change handle_agent handle_break
  handle_kind-Freezes size c shell_or_exec i h = guard-Freezes (s.handled) s _ h stays
  handle_kind-Freezes size c subsystem i h = guard-Freezes (s.handled) s _ h stays
  handle_kind-Freezes size c env i h = guard-Freezes (s.handled) s _ h stays
  handle_kind-Freezes size c signal i h =
      with_signal-Freezes i (c.unmarshal_string i.request.payload)
  handle_kind-Freezes size c pty_req i h =
      guard-Freezes (s.handled || is_some s.pty) s _ (ap (λ b. b || is_some s.pty) h) stays
  handle_kind-Freezes size c window_change i h = on_pty-Freezes size i s.pty
  handle_kind-Freezes size c agent i h = with_agent-Freezes c i c.agent_forwarding
  handle_kind-Freezes size c break_request i h =
      if-Freezes (s.has_break_channel) s (send_break-Freezes i.break_delivery) stays
  handle_kind-Freezes size c unknown i h = stays

-- The application's calls.
if-kept :
    (b : Bool) (s t u : Session)
    → kept t ≡ kept s
    → kept u ≡ kept s
    → kept (if b then t else u) ≡ kept s
if-kept true s t u ht hu = ht
if-kept false s t u ht hu = hu

exit-kept : (code : ℤ) (s : Session) → kept ((exit none code s).1.0) ≡ kept s
unfolding exit session_close
exit-kept code s = ground arith

apply_call-kept : (c : Call) (s : Session) → kept ((apply_call c s).1) ≡ kept s
unfolding apply_call session_signals session_break
apply_call-kept takes_window s = refl
apply_call-kept (signals c) s = if-kept (s.exiting) s s _ refl refl
apply_call-kept (drains fate) s = refl
apply_call-kept (breaks c) s =
    if-kept (s.exiting) s s (record s { has_break_channel = c }) refl refl
apply_call-kept (exits code) s = exit-kept code s
apply_call-kept closes s = refl
apply_call-kept (writes p) s = refl
apply_call-kept (writes_error p) s = refl
apply_call-kept closes_write s = refl
apply_call-kept (sends_request kind w p) s = refl

apply_calls-kept : (cs : List Call) (s : Session) → kept ((apply_calls cs s).1) ≡ kept s
unfolding apply_calls
apply_calls-kept [] s = refl
apply_calls-kept (c ∷ cs) s = apply_calls-kept cs ((apply_call c s).1) ∙ apply_call-kept c s

timed-kept : (i : Input) (s : Session) → kept (timed i s) ≡ kept s
timed-kept i s = if-kept (fires i s) s (record s { resolved = true }) s refl refl

handle_input-kept :
    (size : IntSize) (c : Config) (i : Input) (s : Session) (left : List Input)
    → s.handled ≡ true
    → kept ((handle_input size c i s left).session) ≡ kept s
unfolding handle_input
handle_input-kept size c i s left h =
    let called = apply_calls i.calls s in
    let before : kept (timed i called.1) ≡ kept s =
      timed-kept i called.1 ∙ apply_calls-kept i.calls s in
    (handle_kind-Freezes (timed i called.1) left size c (kind_of i.request.kind) i
      (ap (λ k. k.1.1.1) before ∙ h)).frozen
    ∙ before

-- A loop that ends, or has no fuel left, with what the session kept.
abbrev KeptOrOut : Session → Option Run → Type 0
KeptOrOut s none = Unit
KeptOrOut s (some r) = kept r.session ≡ kept s

abbrev pub EndsKept : Session → Option Run → Type 0
EndsKept s none = ⊥
EndsKept s (some r) = kept r.session ≡ kept s

prepend_to-KeptOrOut :
    (es : List Effect) (s t : Session) (rest : Option Run)
    → kept t ≡ kept s
    → KeptOrOut t rest
    → KeptOrOut s (prepend_to es rest)
prepend_to-KeptOrOut es s t none h hr = hr
prepend_to-KeptOrOut es s t (some r) h hr = hr ∙ h

go_on-KeptOrOut :
    (s : Session) (t : Turn) (o : Outcome) (rest : Option Run)
    → kept t.session ≡ kept s
    → KeptOrOut t.session rest
    → KeptOrOut s (go_on t o rest)
go_on-KeptOrOut s t continues rest h hr = prepend_to-KeptOrOut t.effects s t.session rest h hr
go_on-KeptOrOut s t stops rest h hr = h
go_on-KeptOrOut s t waits rest h hr = h

loop-KeptOrOut :
    (size : IntSize) (c : Config) (fuel : ℕ) (s : Session) (inputs : List Input)
    → s.handled ≡ true
    → KeptOrOut s (loop size c fuel s inputs)
unfolding loop
loop-KeptOrOut size c zero s inputs h = tt
loop-KeptOrOut size c (suc fuel) s [] h = refl
loop-KeptOrOut size c (suc fuel) s (i ∷ left) h =
    let t = handle_input size c i s left in
    let ht = handle_input-kept size c i s left h in
    go_on-KeptOrOut s t t.outcome (loop size c fuel t.session t.left) ht
      (loop-KeptOrOut size c fuel t.session t.left (ap (λ k. k.1.1.1) ht ∙ h))

ended-EndsKept :
    (n : ℕ) (b : Bool) (s : Session) (r : Option Run)
    → IsFinished n b r
    → KeptOrOut s r
    → EndsKept s r
ended-EndsKept n b s none ended h = ended
ended-EndsKept n b s (some r) ended h = h

-- When a session is handled, no request and no call changes its environment, its command or its
-- subsystem, which its handler reads without a lock: with more fuel than there are requests, the loop
-- ends with what the session had before, and it is handled still.
pub loop-EndsKept :
    (size : IntSize) (c : Config) (fuel : ℕ) (s : Session) (inputs : List Input)
    → length inputs < fuel
    → s.handled ≡ true
    → EndsKept s (loop size c fuel s inputs)
loop-EndsKept size c fuel s inputs enough h =
    ended-EndsKept (length inputs) s.handled s (loop size c fuel s inputs)
      (loop-IsFinished size c fuel s inputs enough) (loop-KeptOrOut size c fuel s inputs h)
