-- ===== src/Session/Signals.antt =====
-- The signals of a session (session.go): the buffer, the channel that is registered, and the goroutine
-- of `drainSignals` that empties the buffer into a new channel.
use ssh_server_go.Prelude.{
  ℕ, Option, none, some, List, [], ◌∷◌, ◌++◌, Bytes, length, ltb, if◌then◌else◌, take,
}
pub mod Order
pub mod Kept

abbrev pub max_sig_buf_size : ℕ
max_sig_buf_size = 128

-- What becomes of a signal or a break: the receiver takes it, the delivery is cancelled, the context
-- ends, or the receiver has closed its channel.
pub data Delivery : Type 0 where
  delivered cancelled context_done channel_closed : Delivery

-- The goroutine of `drainSignals`: its channel, and what it has taken from the buffer and not sent.
pub record Drain : Type 0 where
  pub target : ℕ
  pub holding : List Bytes

-- `sigCh`, `sigBuf` and the goroutine, if one runs. What the receivers took, in its order, is `received`.
pub record Signals : Type 0 where
  pub channel : Option ℕ
  pub buffer : List Bytes
  pub drain : Option Drain
  pub received : List Bytes

abbrev pub no_signals : Signals
no_signals = record { channel = none; buffer = []; drain = none; received = [] }

-- `requeueSignals`.
unfoldable pub requeue_signals : List Bytes → Signals → Signals
requeue_signals signals s = record s {
  buffer = take max_sig_buf_size (signals ++ s.buffer);
  drain = none;
}

-- A goroutine that is cancelled puts back what it holds.
abbrev pub cancel_drain : Option Drain → Signals → Signals
cancel_drain none s = s
cancel_drain (some d) s = requeue_signals d.holding s

abbrev pub start_delivery : ℕ → List Bytes → Signals → Signals
start_delivery c [] s = record s { channel = some c }
start_delivery c (signal ∷ signals) s = record s {
  drain = some (record { target = c; holding = [] });
}

abbrev pub register_channel : Option ℕ → Signals → Signals
register_channel none s = s
register_channel (some c) s = start_delivery c s.buffer s

-- `setSignalChannelLocked`, from the cancellation of the goroutine to the start of a new one.
unfoldable pub set_signal_channel : Option ℕ → Signals → Signals
unfolding requeue_signals
set_signal_channel c s = register_channel c (record (cancel_drain s.drain s) { channel = none })

-- The goroutine takes what is buffered, or ends where nothing is.
abbrev pub take_batch : Drain → List Bytes → Signals → Signals
take_batch d [] s = record s { channel = some d.target; drain = none }
take_batch d (signal ∷ signals) s = record s {
  buffer = [];
  drain = some (record d { holding = signal ∷ signals });
}

-- One send, by its fate.
abbrev pub send_held : Drain → Bytes → List Bytes → Delivery → Signals → Signals
send_held d signal rest delivered s = record s {
  received = s.received ++ signal ∷ [];
  drain = some (record d { holding = rest });
}
send_held d signal rest cancelled s = requeue_signals (signal ∷ rest) s
send_held d signal rest context_done s = record s { drain = none }
send_held d signal rest channel_closed s = requeue_signals (signal ∷ rest) s

abbrev pub drain_held : Drain → List Bytes → Delivery → Signals → Signals
drain_held d [] fate s = take_batch d s.buffer s
drain_held d (signal ∷ rest) fate s = send_held d signal rest fate s

-- One turn of the loops of `drainSignals`, with the fate of the signal that it sends.
unfoldable pub drain_signals : Delivery → Signals → Signals
unfolding requeue_signals
drain_signals fate s = elim (s.drain) [ none ↦ s | some d ↦ drain_held d d.holding fate s ]

-- A request's signal where no channel is registered.
unfoldable pub buffer_signal : Bytes → Signals → Signals
buffer_signal signal s =
    if ltb (length s.buffer) max_sig_buf_size
    then record s { buffer = s.buffer ++ signal ∷ [] }
    else s

-- A request's signal that goes to the channel that is registered.
unfoldable pub send_signal : Bytes → Delivery → Signals → Signals
send_signal signal delivered s = record s { received = s.received ++ signal ∷ [] }
send_signal signal cancelled s = s
send_signal signal context_done s = s
send_signal signal channel_closed s = record s { channel = none }
