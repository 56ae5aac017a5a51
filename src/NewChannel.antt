-- ===== src/NewChannel.antt =====
-- server.go: `trackedNewChannel`, which answers a channel request once. Each critical section of its
-- mutex is a function of the state. Channels and errors are numbers, and what the SSH library gives for
-- `Accept` and `Reject` is a parameter.
pub mod Calls
pub mod Interleaved
mod Examples
use ssh_server_go.Prelude.{ℕ, Bool, true, false, not, ◌&&◌, Option, none, some, if◌then◌else◌}

pub data ChannelError : Type 0 where
  already_sent unsupported incomplete : ChannelError
  accept_failed reply_failed : (id : ℕ) → ChannelError
  reject_failed : (id : ℕ) → ChannelError

pub record TrackedNewChannel : Type 0 where
  pub answer_attempted : Bool
  pub answer_complete : Bool
  pub answer_err : Option ChannelError
  pub accepted : Option ℕ

abbrev pub untouched : TrackedNewChannel
untouched = record {
  answer_attempted = false;
  answer_complete = false;
  answer_err = none;
  accepted = none;
}

unfoldable pub begin_answer : TrackedNewChannel → Bool × TrackedNewChannel
begin_answer c =
    if c.answer_attempted then (false, c) else (true, record c { answer_attempted = true })

unfoldable pub complete_answer : Option ChannelError → TrackedNewChannel → TrackedNewChannel
complete_answer e c = record c { answer_complete = true; answer_err = e }

-- What `NewChannel.Accept` gives: a channel, or an error.
pub data Accepted : Type 0 where
  opened : (channel : ℕ) → Accepted
  failed : (id : ℕ) → Accepted

abbrev pub accept_error : Accepted → Option ChannelError
accept_error (opened channel) = none
accept_error (failed id) = some (accept_failed id)

unfoldable pub complete_accept : Accepted → TrackedNewChannel → TrackedNewChannel
complete_accept (opened channel) c = record c {
  answer_complete = true;
  answer_err = none;
  accepted = some channel;
}
complete_accept (failed id) c = record c {
  answer_complete = true;
  answer_err = some (accept_failed id);
}

-- The channel to close, and the state.
unfoldable pub close_accepted : TrackedNewChannel → Option ℕ × TrackedNewChannel
close_accepted c = (c.accepted, record c { accepted = none })

unfoldable pub answer_result : TrackedNewChannel → Bool × Option ChannelError
answer_result c =
    if c.answer_attempted && not c.answer_complete
    then (true, some incomplete)
    else (c.answer_attempted, c.answer_err)

-- What a caller makes of the error that `NewChannel.Reject` gives: `Reject` locates it,
-- `respondToError` and `rejectUnhandledError` keep it.
pub data Rejecting : Type 0 where
  by_handler by_error_response by_default : Rejecting

abbrev pub reject_error : Rejecting → Option ℕ → Option ChannelError
reject_error by none = none
reject_error by_handler (some id) = some (reply_failed id)
reject_error by_error_response (some id) = some (reject_failed id)
reject_error by_default (some id) = some (reject_failed id)

-- The error of a call that came after another one.
abbrev pub refused_error : Rejecting → Option ChannelError
refused_error by_handler = some already_sent
refused_error by_error_response = some unsupported
refused_error by_default = none

-- The calls to their end: the error, and the state. `rejectUnhandledError` returns none.
abbrev pub accept_begun :
    Accepted → Bool × TrackedNewChannel → Option ChannelError × TrackedNewChannel
accept_begun result (true, c) = (accept_error result, complete_accept result c)
accept_begun result (false, c) = (some already_sent, c)

unfoldable pub accept : Accepted → TrackedNewChannel → Option ChannelError × TrackedNewChannel
unfolding begin_answer complete_accept
accept result c = accept_begun result (begin_answer c)

abbrev pub reject_begun :
    Rejecting → Option ℕ → Bool × TrackedNewChannel → Option ChannelError × TrackedNewChannel
reject_begun by outcome (true, c) =
    (reject_error by outcome, complete_answer (reject_error by outcome) c)
reject_begun by outcome (false, c) = (refused_error by, c)

unfoldable pub reject :
    Rejecting → Option ℕ → TrackedNewChannel → Option ChannelError × TrackedNewChannel
unfolding begin_answer complete_answer
reject by outcome c = reject_begun by outcome (begin_answer c)
