-- ===== src/Session/State.antt =====
-- The state of a session that its request loop reads and writes, what the server's configuration and
-- the outside give to it, and what it does to the outside.
use ssh_server_go.Prelude.{ℕ, Bool, false, Option, none, List, [], Bytes}
use ssh_server_go.Prelude.Int.{ℤ}
use ssh_server_go.Codec.{Window, Pty}
use ssh_server_go.Errors.{Error, ErrorOperation}
use ssh_server_go.Session.Signals.{Signals, no_signals, Delivery}
use ssh_server_go.Dispatch.{ErrorHandler, Responder, DefaultAction}

-- `deferredState`.
pub data DeferredState : Type 0 where
  normal pending rejected : DeferredState

-- `winch` is `none` before the channel is made, and otherwise the window that its one place holds.
-- `env_bytes` is below 2 ^ 17, so that its `int` does not wrap. Whether a channel for breaks is
-- registered is a flag, and `resolved` is `requestResolved`.
pub record Session : Type 0 where
  pub handled : Bool
  pub exiting : Bool
  pub exited : Bool
  pub pty : Option Pty
  pub winch : Option (Option Window)
  pub env : List Bytes
  pub env_bytes : ℕ
  pub raw_cmd : Bytes
  pub subsystem : Bytes
  pub signals : Signals
  pub has_break_channel : Bool
  pub agent_requested : Bool
  pub resolved : Bool
  pub deferred_state : DeferredState

-- The session of `DefaultSessionHandler`.
abbrev pub new_session : Session
new_session = record {
  handled = false;
  exiting = false;
  exited = false;
  pty = none;
  winch = none;
  env = [];
  env_bytes = 0;
  raw_cmd = [];
  subsystem = [];
  signals = no_signals;
  has_break_channel = false;
  agent_requested = false;
  resolved = false;
  deferred_state = normal;
}

-- The answer of a callback: whether it allows, and its error.
abbrev pub Answer : Type 0
Answer = Bool × Option Error

-- The fields that `DefaultSessionHandler` sets. Handlers are numbers, and `none` is `nil`. The
-- functions `unmarshal` are `gossh.Unmarshal` for one string and for two. The `error_handler` is what
-- the application's handler does with an error.
pub record Config : Type 0 where
  pub handler : Option ℕ
  pub session_request : Option (Session → Bytes → Answer)
  pub pty_callback : Option (Session → Pty → Answer)
  pub agent_forwarding : Option (Session → Answer)
  pub subsystem_handlers : Bytes → Option ℕ
  pub deferred_handlers : Bytes → Option ℕ
  pub error_handler : Option (Error → ErrorHandler)
  pub default_action : DefaultAction
  pub unmarshal_string : Bytes → Option Bytes
  pub unmarshal_pair : Bytes → Option (Bytes × Bytes)

-- A request of the channel.
pub record Request : Type 0 where
  pub kind : Bytes
  pub payload : Bytes

-- What happens while a deferred subsystem decides: its handler replies or returns, the timer fires, the
-- context ends, or the session reads from the channel of requests. `ended` says that the context has
-- ended when the reply is made.
pub data DeferredEvent : Type 0 where
  replies : (accepted ended : Bool) → DeferredEvent
  returned : (err : Option Error) → (ended : Bool) → DeferredEvent
  timer_fires : (ended : Bool) → DeferredEvent
  context_ends : DeferredEvent
  reads_request : DeferredEvent

-- What the application does with the session, in the goroutine of its handler: it takes the window from
-- its channel, registers channels for signals and breaks, where `none` and `false` are `nil`, exits,
-- closes, writes to the channel and to its error stream, and calls `CloseWrite` and `SendRequest` of the
-- channel. Among it are the turns of `drainSignals`. `Read` and the methods that return what the session
-- knows neither change it nor send anything.
pub data Call : Type 0 where
  takes_window : Call
  signals : (channel : Option ℕ) → Call
  drains : Delivery → Call
  breaks : (registers : Bool) → Call
  exits : (code : ℤ) → Call
  closes : Call
  writes : Bytes → Call
  writes_error : Bytes → Call
  closes_write : Call
  sends_request : (kind : Bytes) → (want_reply : Bool) → (payload : Bytes) → Call

-- A request with what the outside gives while it is handled: the error of `Reply`, what `respondToError`
-- returns, the fate of a signal, whether a break is delivered, and a deferred subsystem's events. The
-- application's calls come before the request, and the request timer may have fired before the request resolves the session.
pub record Input : Type 0 where
  pub calls : List Call
  pub request : Request
  pub reply_failure : Option Error
  pub responder : Responder
  pub delivery : Delivery
  pub break_delivery : Delivery
  pub timed_out : Bool
  pub events : List DeferredEvent

pub data Started : Type 0 where
  session_handler : (id : ℕ) → Started
  subsystem_handler : (id : ℕ) → Started
  deferred_handler : (id : ℕ) → Started

-- What the session does: it replies to its request, starts a handler, passes an error to
-- `dispatchErrorOrEscalate`, calls the error handler for a callback's error, and closes its channel, the
-- connection, or the channel of its windows. Where the application writes, sends a request of its own on
-- the channel, or closes it for writing, that is an effect too; `exit_status` is what `Exit` sends.
pub data Effect : Type 0 where
  replied : (accepted : Bool) → Effect
  started : Started → Effect
  dispatched : ErrorOperation → Error → Effect
  handled_error : (messages : List (Bytes × Bool)) → Effect
  close_session : Effect
  close_connection : Effect
  cancel_deferred : Effect
  close_winch : Effect
  exit_status : (status : ℕ) → Effect
  wrote_error : Bytes → Effect
  wrote : Bytes → Effect
  sent_request : (kind : Bytes) → (want_reply : Bool) → (payload : Bytes) → Effect
  close_write : Effect

-- The loop goes on, returns, or waits for a deferred subsystem that has not answered.
pub data Outcome : Type 0 where
  continues stops waits : Outcome
