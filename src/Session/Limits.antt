-- ===== src/Session/Limits.antt =====
-- What a session keeps within its limits, whatever its peer requests and its application calls.
pub mod Calls
pub mod Requests
pub mod Turns
use ssh_server_go.Prelude.{
  ℕ, zero, suc, ◌+◌, ◌≤◌, ◌≡◌, refl, ◌∙◌, ap, sym, subst, Bool, true, false, not, ◌&&◌, ◌||◌,
  Option, none, some, List, [], ◌∷◌, ◌++◌, Bytes, length, length-append, ltb, leb, if◌then◌else◌,
  is_some, arith,
}
use ssh_server_go.Prelude.Int.{IntSize}
use ssh_server_go.Codec.{Window, Pty, parse_pty_request, parse_winch_request}
use ssh_server_go.Errors.{Error, wrapped}
use ssh_server_go.Session.Signals.{
  Signals, no_signals, Delivery, delivered, cancelled, context_done, channel_closed,
  max_sig_buf_size, buffer_signal, send_signal,
}
use ssh_server_go.Session.Signals.Order.{
  IsQuiet, unregistered, Step, registers, drains as drains_step, buffers, sends, fails, IsTidy,
  step-IsTidy,
}
use ssh_server_go.Session.State.{
  Session, new_session, Answer, Config, Input, Effect, Started, subsystem_handler, session_handler,
}
use ssh_server_go.Session.Deferred.{Decision, proceeds, gives_up, undecided, Wait, wait_deferred}
use ssh_server_go.Session.Requests.{
  Turn, refuse, answer, callback_failed, if_allowed, ask_policy, resolve, start_with,
  accept_request, command_of, with_command, with_handler, handle_shell, after_deferred, handlers_of,
  run_subsystem, with_name, handle_subsystem,
}
use ssh_server_go.Session.Settings.{
  with_variable, env_entry, max_session_env_variables, max_session_env_bytes, handle_env,
  with_signal, after_send, deliver_signal, handle_signal_request, with_pty, ask_pty, accept_pty,
  handle_pty, with_window, on_pty, handle_window_change, forward_agent, with_agent, handle_agent,
  send_break, handle_break,
}
use ssh_server_go.Session.CallbackError.{reply_to}

abbrev pub total : List Bytes → ℕ
total [] = 0
total (entry ∷ entries) = length entry + total entries

total-append : (xs ys : List Bytes) → total (xs ++ ys) ≡ total xs + total ys
total-append [] ys = omega arith
total-append (x ∷ xs) ys = omega (arith, total-append xs ys)

-- The channel of windows is made with the terminal, and holds no window but its current one.
pub data Shows : Option Pty → Option (Option Window) → Type 0 where
  hidden : Shows none none
  taken : {p : Pty} → Shows (some p) (some none)
  current : {p : Pty} {w : Window} → w ≡ p.window → Shows (some p) (some (some w))

-- The limits, on the fields that they are about.
pub record Within (env : List Bytes) (env_bytes : ℕ) (signals : Signals) (pty : Option Pty)
    (winch : Option (Option Window)) : Type 0 where
  pub few : length env ≤ max_session_env_variables
  pub counted : env_bytes ≡ total env
  pub small : env_bytes ≤ max_session_env_bytes
  pub buffered : length signals.buffer ≤ max_sig_buf_size
  pub quiet : IsQuiet signals.channel signals.drain signals.buffer
  pub window : Shows pty winch

abbrev pub IsBounded : Session → Type 0
IsBounded s = Within s.env s.env_bytes s.signals s.pty s.winch

pub new_session-IsBounded : IsBounded new_session
new_session-IsBounded = record {
  few = omega arith;
  counted = refl;
  small = omega arith;
  buffered = omega arith;
  quiet = unregistered;
  window = hidden;
}

-- A turn that ends within the limits.
pub record Keeps (t : Turn) : Type 0 where
  pub bounded : IsBounded t.session

pub if-Keeps : (b : Bool) {t u : Turn} → Keeps t → Keeps u → Keeps (if b then t else u)
if-Keeps true ht hu = ht
if-Keeps false ht hu = hu

pub if_allowed-Keeps :
    (c : Config) (i : Input) (a : Answer) (t : Session) (left : List Input) (go : Turn)
    → IsBounded t
    → Keeps go
    → Keeps (if_allowed c i a t left go)
if_allowed-Keeps c i (allowed, some e) t left go ht hg = record { bounded = ht }
if_allowed-Keeps c i (true, none) t left go ht hg = hg
if_allowed-Keeps c i (false, none) t left go ht hg = record { bounded = ht }

unanswered_small : (few many : Bool) → (few || many) ≡ false → (few ≡ false) × (many ≡ false)
unanswered_small few many h = ground arith

module _ (s : Session) (left : List Input) (h : IsBounded s) where
  pub refused : Keeps (refuse s left)
  refused = record { bounded = h }

  pub start_with-Keeps : (st : Started) (r : List Effect × Bool) → Keeps (start_with st r s left)
  start_with-Keeps st (es, true) = record { bounded = h }
  start_with-Keeps st (es, false) = record { bounded = h }

  pub after_deferred-Keeps : (r : List Effect × Decision × Wait) → Keeps (after_deferred s r)
  after_deferred-Keeps (es, proceeds next, w) = record { bounded = h }
  after_deferred-Keeps (es, gives_up, w) = record { bounded = h }
  after_deferred-Keeps (es, undecided, w) = record { bounded = h }

  pub send_break-Keeps : (d : Delivery) → Keeps (send_break d s left)
  send_break-Keeps delivered = record { bounded = h }
  send_break-Keeps cancelled = record { bounded = h }
  send_break-Keeps context_done = record { bounded = h }
  send_break-Keeps channel_closed = record { bounded = h }

  pub signals-IsBounded :
      {before : List Bytes} {t : Signals} → IsTidy before t → IsBounded (record s { signals = t })
  signals-IsBounded tidy = record {
    few = h.few;
    counted = h.counted;
    small = h.small;
    buffered = tidy.small;
    quiet = tidy.quiet;
    window = h.window;
  }

  pub step-IsBounded :
      {more : List Bytes} {t : Signals}
      → Step s.signals more t
      → IsBounded (record s { signals = t })
  step-IsBounded step = signals-IsBounded (step-IsTidy h.quiet h.buffered step)

  after_send-Keeps :
      (x : Bytes) (fate : Delivery) (c : ℕ)
      → s.signals.channel ≡ some c
      → Keeps (after_send fate (record s { signals = send_signal x fate s.signals }) left)
  after_send-Keeps x delivered c hc = record { bounded = step-IsBounded (sends x c hc) }
  after_send-Keeps x cancelled c hc = record {
    bounded = step-IsBounded (fails x cancelled c hc (λ p. cc));
  }
  after_send-Keeps x context_done c hc = record {
    bounded = step-IsBounded (fails x context_done c hc (λ p. cc));
  }
  after_send-Keeps x channel_closed c hc = record {
    bounded = step-IsBounded (fails x channel_closed c hc (λ p. cc));
  }

  deliver_signal-Keeps :
      (i : Input) (x : Bytes) (c : Option ℕ)
      → s.signals.channel ≡ c
      → Keeps (deliver_signal i x c s left)
  deliver_signal-Keeps i x none hc = record { bounded = step-IsBounded (buffers x hc) }
  deliver_signal-Keeps i x (some c) hc = after_send-Keeps x i.delivery c hc

  pub with_signal-Keeps : (i : Input) (v : Option Bytes) → Keeps (with_signal i v s left)
  with_signal-Keeps i none = refused
  with_signal-Keeps i (some x) = if-Keeps _ refused (
      if-Keeps (s.exiting) (record { bounded = h })
        (deliver_signal-Keeps i x s.signals.channel refl))

  entry_length : (key value : Bytes) → length (env_entry key value) ≡ length key + 1 + length value
  entry_length key value = omega (arith, length-append key (b'=' ∷ value))

  room-Keeps :
      (full : Bool) (key value : Bytes)
      → (leb max_session_env_variables (length s.env)
          || ltb max_session_env_bytes (s.env_bytes + (length key + 1 + length value)))
        ≡ full
      → Keeps (
          if full
          then refuse s left
          else answer true
              (record s {
                env = s.env ++ env_entry key value ∷ [];
                env_bytes = s.env_bytes + (length key + 1 + length value);
              })
              left)
  room-Keeps true key value hf = refused
  room-Keeps false key value hf =
      let tests = unanswered_small (leb max_session_env_variables (length s.env)) _ hf in
      let many = tests.0 in
      let large = tests.1 in
      record {
        bounded = record {
          few = ground (arith, length-append s.env (env_entry key value ∷ []));
          counted = omega (
            arith,
            h.counted,
            total-append s.env (env_entry key value ∷ []),
            entry_length key value,
          );
          small = ground arith;
          buffered = h.buffered;
          quiet = h.quiet;
          window = h.window;
        };
      }

  pub with_variable-Keeps : (v : Option (Bytes × Bytes)) → Keeps (with_variable v s left)
  with_variable-Keeps none = refused
  with_variable-Keeps (some (key, value)) = room-Keeps _ key value refl
