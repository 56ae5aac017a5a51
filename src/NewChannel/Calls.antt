-- ===== src/NewChannel/Calls.antt =====
-- An answer behind another one.
use ssh_server_go.Prelude.{ℕ, ◌≡◌, Option, arith}
use ssh_server_go.NewChannel.{
  TrackedNewChannel, begin_answer, Accepted, opened, failed, complete_accept, accept, Rejecting,
  refused_error, reject,
}

-- Right behind `Accept`, whatever it gave, each kind of rejection gives the error that says so and
-- changes nothing: the error handler is told that a response is unsupported, the handler that it
-- was sent, and the default stays silent.
pub reject-accept :
    (c : TrackedNewChannel) (result : Accepted) (by : Rejecting) (outcome : Option ℕ)
    → reject by outcome (accept result c).1 ≡ (refused_error by, (accept result c).1)
unfolding reject accept begin_answer complete_accept
reject-accept c (opened channel) by outcome = ground arith
reject-accept c (failed id) by outcome = ground arith
