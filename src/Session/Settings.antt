-- ===== src/Session/Settings.antt =====
-- `handleRequests` (session.go): the requests that set a variable, a terminal, its window or an agent,
-- and signals and breaks.
use ssh_server_go.Prelude.{
  ℕ, ◌+◌, Bool, true, false, ◌||◌, Option, none, some, List, [], ◌∷◌, ◌++◌, Bytes, codes, length,
  ltb, leb, if◌then◌else◌, is_some,
}
use ssh_server_go.Prelude.Int.{IntSize}
use ssh_server_go.Codec.{Window, Pty, parse_pty_request, parse_winch_request}
use ssh_server_go.SessionWindow.{merge_window}
use ssh_server_go.Session.State.{Session, Answer, Config, Input, Effect, replied, stops}
use ssh_server_go.Session.Signals.{
  Delivery, delivered, cancelled, context_done, channel_closed, buffer_signal, send_signal,
}
use ssh_server_go.Session.CallbackError.{reply_to}
use ssh_server_go.Session.Requests.{refuse, answer, by_flag, if_allowed, Turn}

abbrev pub max_session_env_variables : ℕ
max_session_env_variables = 128

abbrev pub max_session_env_bytes : ℕ
max_session_env_bytes = 65536

-- `fmt.Sprintf("%s=%s", kv.Key, kv.Value)`
abbrev pub env_entry : Bytes → Bytes → Bytes
env_entry key value = key ++ b'=' ∷ value

abbrev pub with_variable : Option (Bytes × Bytes) → Session → List Input → Turn
with_variable none s left = refuse s left
with_variable (some (key, value)) s left =
    let env_bytes = length key + 1 + length value in
    if leb max_session_env_variables (length s.env)
      || ltb max_session_env_bytes (s.env_bytes + env_bytes)
    then refuse s left
    else answer true
        (record s { env = s.env ++ env_entry key value ∷ []; env_bytes = s.env_bytes + env_bytes })
        left

unfoldable pub handle_env : Config → Input → Session → List Input → Turn
handle_env c i s left =
    if s.handled then refuse s left else with_variable (c.unmarshal_pair i.request.payload) s left

abbrev pub max_session_signal_bytes : ℕ
max_session_signal_bytes = 64

-- To the channel that is registered, or to the buffer.
abbrev pub after_send : Delivery → Session → List Input → Turn
after_send delivered s left = answer true s left
after_send cancelled s left = refuse s left
after_send context_done s left = record {
  effects = replied false ∷ [];
  outcome = stops;
  session = s;
  left = left;
}
after_send channel_closed s left = refuse s left

abbrev pub deliver_signal : Input → Bytes → Option ℕ → Session → List Input → Turn
deliver_signal i signal none s left =
    answer true (record s { signals = buffer_signal signal s.signals }) left
deliver_signal i signal (some c) s left =
    after_send i.delivery (record s { signals = send_signal signal i.delivery s.signals }) left

abbrev pub with_signal : Input → Option Bytes → Session → List Input → Turn
with_signal i none s left = refuse s left
with_signal i (some signal) s left =
    if ltb max_session_signal_bytes (length signal)
    then refuse s left
    else if s.exiting
    then record { effects = replied false ∷ []; outcome = stops; session = s; left = left }
    else deliver_signal i signal s.signals.channel s left

-- `handleSignalRequest`.
unfoldable pub handle_signal_request : Config → Input → Session → List Input → Turn
unfolding buffer_signal send_signal
handle_signal_request c i s left = with_signal i (c.unmarshal_string i.request.payload) s left

abbrev pub accept_pty : Pty → Session → Session
accept_pty p s = record s { pty = some p; winch = some (some p.window) }

abbrev pub ask_pty : Config → Session → Pty → Answer
ask_pty c s p = elim (c.pty_callback) [ none ↦ (true, none) | some ask ↦ ask s p ]

abbrev pub with_pty : Config → Input → Option Pty → Session → List Input → Turn
with_pty c i none s left = refuse s left
with_pty c i (some p) s left =
    if_allowed c i (ask_pty c s p) s left (answer true (accept_pty p s) left)

unfoldable pub handle_pty : IntSize → Config → Input → Session → List Input → Turn
handle_pty size c i s left =
    if s.handled || is_some s.pty
    then refuse s left
    else with_pty c i (parse_pty_request size i.request.payload) s left

-- The place of the channel holds the new window, whether it was free, or not, or was freed meanwhile.
abbrev pub with_window : Pty → Option Window → Session → List Input → Turn
with_window p none s left = refuse s left
with_window p (some update) s left =
    let win = merge_window p.window update in
    answer true (record s { pty = some (record p { window = win }); winch = some (some win) }) left

abbrev pub on_pty : IntSize → Input → Option Pty → Session → List Input → Turn
on_pty size i none s left = refuse s left
on_pty size i (some p) s left = with_window p (parse_winch_request size i.request.payload) s left

unfoldable pub handle_window_change : IntSize → Input → Session → List Input → Turn
handle_window_change size i s left = on_pty size i s.pty s left

abbrev pub agent_request_type : Bytes
agent_request_type = codes "auth-agent-req@openssh.com"

abbrev pub forward_agent : List Effect × Bool → Session → List Input → Turn
forward_agent (effects, goes_on) s left = record {
  effects = effects;
  outcome = by_flag goes_on;
  session = record s { agent_requested = true };
  left = left;
}

abbrev pub with_agent : Config → Input → Option (Session → Answer) → Session → List Input → Turn
with_agent c i none s left = refuse s left
with_agent c i (some ask) s left =
    if_allowed c i (ask s) s left (forward_agent (reply_to c i true) s left)

unfoldable pub handle_agent : Config → Input → Session → List Input → Turn
unfolding reply_to
handle_agent c i s left = with_agent c i c.agent_forwarding s left

abbrev pub send_break : Delivery → Session → List Input → Turn
send_break delivered s left = answer true s left
send_break cancelled s left = refuse s left
send_break context_done s left = refuse s left
send_break channel_closed s left = refuse (record s { has_break_channel = false }) left

-- `deliverBreakAndReply`.
unfoldable pub handle_break : Input → Session → List Input → Turn
handle_break i s left =
    if s.has_break_channel then send_break i.break_delivery s left else refuse s left
