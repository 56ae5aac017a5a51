-- ===== src/Session/Examples.antt =====
-- A client that sets a variable, signals, asks for a shell twice, and then sets another variable.
use ssh_server_go.Prelude.{
  ◌≡◌, refl, arith, true, false, Option, none, some, List, [], ◌∷◌, ◌++◌, Bytes, codes, drop,
}
use ssh_server_go.Prelude.Int.{pos, bits64}
use ssh_server_go.Codec.{parse_string, parse_uint32}
use ssh_server_go.Dispatch.{DefaultAction}
use ssh_server_go.Session.Signals.{
  delivered, no_signals, set_signal_channel, drain_signals, buffer_signal,
}
use ssh_server_go.Session.Signals.Order.{
  Reach, begins, steps, buffers, registers, drains as drains_turn, IsTidy, reach-IsTidy,
}
use ssh_server_go.Session.Signals.Kept.{
  Lasting, lasting, lasts, lasting_registers, lasting_drains, lasting_buffers, Lasting-pending,
}
use ssh_server_go.Session.Signals.Order.{pending}
use ssh_server_go.Session.State.{
  Session, new_session, Config, Input, DeferredEvent, Call, takes_window, signals, exits, closes,
  replies as replies_event, reads_request, replied, started, session_handler, exit_status,
  close_session, stops,
}
use ssh_server_go.Session.Deferred.{wait_deferred}
use ssh_server_go.Session.Requests.{handle_shell, pushed}
use ssh_server_go.Session.Settings.{handle_env, handle_signal_request}
use ssh_server_go.Session.Exit.{apply_calls}
use ssh_server_go.Session.Exit.Once.{IsOrderly, apply_calls-IsOrderly}
use ssh_server_go.Session.Loop.{handle_input, loop}
use ssh_server_go.Session.Replies.{IsFair, replies}
use ssh_server_go.Session.Fair.Turns.{handle_input-IsFair, IsFinished, loop-IsFinished}
use ssh_server_go.Session.Limits.{new_session-IsBounded}
use ssh_server_go.Session.Limits.Turns.{EndsWithin, loop-EndsWithin}
use ssh_server_go.Session.Frozen.{EndsKept, loop-EndsKept}
use ssh_server_go.Session.Lost.{reads, but_last, wait_deferred-drop}

abbrev parse_one : Bytes → Option Bytes
parse_one input = elim (parse_string input) [
  | none ↦ none
  | some (value, []) ↦ some value
  | some (value, b ∷ rest) ↦ none
]

abbrev parse_two : Bytes → Option (Bytes × Bytes)
parse_two input = elim (parse_string input) [
  | none ↦ none
  | some (key, rest) ↦ elim (parse_one rest) [ none ↦ none | some value ↦ some (key, value) ]
]

abbrev goes_on : DefaultAction
goes_on scope operation e = (true, none)

-- Handler 7 for shells, handlers 8 and 9 for the subsystem "sftp".
abbrev config : Config
config = record {
  handler = some 7;
  session_request = none;
  pty_callback = none;
  agent_forwarding = none;
  subsystem_handlers = λ name. none;
  deferred_handlers = λ name. some 9;
  error_handler = none;
  default_action = goes_on;
  unmarshal_string = parse_one;
  unmarshal_pair = parse_two;
}

abbrev input : Bytes → Bytes → Input
input kind payload = record {
  calls = [];
  request = record { kind = kind; payload = payload };
  reply_failure = none;
  responder = λ message close. none;
  delivery = delivered;
  break_delivery = delivered;
  timed_out = false;
  events = [];
}

abbrev variable : Input
variable = input (codes "env") (0 ∷ 0 ∷ 0 ∷ 1 ∷ codes "A" ++ 0 ∷ 0 ∷ 0 ∷ 1 ∷ codes "b")

abbrev interrupt : Input
interrupt = input (codes "signal") (0 ∷ 0 ∷ 0 ∷ 3 ∷ codes "INT")

abbrev shell : Input
shell = input (codes "shell") []

abbrev client : List Input
client = variable ∷ interrupt ∷ shell ∷ shell ∷ variable ∷ []

abbrev in_shell : Session
in_shell = record new_session {
  handled = true;
  resolved = true;
  env = codes "A=b" ∷ [];
  env_bytes = 3;
}

client_answered :
    loop bits64 config 6 new_session client
    ≡ some (record {
      effects =
          replied true
          ∷ replied true
          ∷ replied true
          ∷ started (session_handler 7)
          ∷ replied false
          ∷ replied false
          ∷ [];
      outcome = stops;
      session = record in_shell { signals = record no_signals { buffer = codes "INT" ∷ [] } };
    })
unfolding loop parse_string handle_env parse_uint32 handle_signal_request handle_shell
client_answered = refl

loop-IsFinished_example : IsFinished 5 false (loop bits64 config 6 new_session client)
loop-IsFinished_example = loop-IsFinished bits64 config 6 new_session client (omega arith)

handle_input-IsFair_example :
    IsFair new_session
      (variable ∷ [])
      (handle_input bits64 config shell new_session (variable ∷ []))
handle_input-IsFair_example = handle_input-IsFair bits64 config shell new_session (variable ∷ [])

loop-EndsWithin_example : EndsWithin (loop bits64 config 6 new_session client)
loop-EndsWithin_example =
    loop-EndsWithin bits64 config 6 new_session client (omega arith) new_session-IsBounded

loop-EndsKept_example : EndsKept in_shell (loop bits64 config 6 in_shell client)
loop-EndsKept_example = loop-EndsKept bits64 config 6 in_shell client (omega arith) refl

-- Two requests are read while the subsystem decides, and then it is accepted.
abbrev decision : List DeferredEvent
decision = reads_request ∷ reads_request ∷ replies_event true false ∷ []

wait_deferred-drop_example :
    (replies ((wait_deferred config 9 none decision client).0) ≡ 1)
    × (pushed (some interrupt) ((wait_deferred config 9 none decision client).2.left)
        ≡ drop (but_last (reads decision client)) client)
unfolding wait_deferred
wait_deferred-drop_example = wait_deferred-drop config 9 none decision client (some interrupt) refl

-- It goes on with the second of the two, and the first is lost.
first_lost :
    drop (but_last (reads decision client)) client ≡ interrupt ∷ shell ∷ shell ∷ variable ∷ []
first_lost = refl

-- A handler takes a signal and exits twice.
abbrev calls : List Call
calls =
    signals (some 3) ∷ takes_window ∷ exits (pos 1) ∷ exits (pos 0) ∷ signals (some 4) ∷ closes ∷ []

exited_once : (apply_calls calls in_shell).0 ≡ exit_status 1 ∷ close_session ∷ close_session ∷ []
unfolding apply_calls
exited_once = refl

apply_calls-IsOrderly_example : IsOrderly in_shell (apply_calls calls in_shell)
apply_calls-IsOrderly_example = apply_calls-IsOrderly calls in_shell

-- Two signals are buffered, then a channel is registered, and takes the first.
abbrev two_signals : Reach (codes "INT" ∷ codes "HUP" ∷ []) (
    drain_signals delivered (
      drain_signals delivered (
        set_signal_channel
          (some 3)
          (buffer_signal (codes "HUP") (buffer_signal (codes "INT") no_signals)))))
unfolding buffer_signal
two_signals =
    steps
      (steps
        (steps (steps (steps begins (buffers (codes "INT") refl)) (buffers (codes "HUP") refl))
          (registers (some 3)))
        (drains_turn delivered))
      (drains_turn delivered)

reach-IsTidy_example : IsTidy (codes "INT" ∷ codes "HUP" ∷ []) (
    drain_signals delivered (
      drain_signals delivered (
        set_signal_channel
          (some 3)
          (buffer_signal (codes "HUP") (buffer_signal (codes "INT") no_signals)))))
reach-IsTidy_example = reach-IsTidy two_signals

-- The same, as steps in which the context lasts.
two-Lasting : Lasting (codes "INT" ∷ codes "HUP" ∷ []) (
    drain_signals delivered (
      drain_signals delivered (
        set_signal_channel
          (some 3)
          (buffer_signal (codes "HUP") (buffer_signal (codes "INT") no_signals)))))
unfolding buffer_signal
two-Lasting =
    lasts
      (lasts
        (lasts (lasts (lasts lasting (lasting_buffers {h = refl})) (lasting_buffers {h = refl}))
          (lasting_registers {c = some 3}))
        (lasting_drains {fate = delivered} (λ p. cc)))
      (lasting_drains {fate = delivered} (λ p. cc))

Lasting-pending_example :
    pending (
      drain_signals delivered (
        drain_signals delivered (
          set_signal_channel
            (some 3)
            (buffer_signal (codes "HUP") (buffer_signal (codes "INT") no_signals)))))
    ≡ codes "INT" ∷ codes "HUP" ∷ []
Lasting-pending_example = Lasting-pending two-Lasting (omega arith)
