-- ===== src/ServerConn.antt =====
-- conn.go: `serverConn`, a connection that keeps the deadline of its transport. Instants and durations
-- are in nanoseconds; what the transport returns is a parameter, and `now` is the clock's time.
pub mod Deadline
mod Examples
use ssh_server_go.Prelude.{ℕ, ◌+◌, Bool, true, false, ◌&&◌, Option, none, some, if◌then◌else◌, ltb}
use ssh_server_go.Prelude.Int.{ℤ, pos, negsuc, pos_part, ltb_ℤ}

-- `deadline` is the one that the transport was given last, `none` for the zero time. `cancelled` says
-- whether the canceler was called.
pub record ServerConn : Type 0 where
  pub idle_timeout : ℤ
  pub handshake_deadline : Option ℕ
  pub max_deadline : Option ℕ
  pub has_canceler : Bool
  pub deadline : Option ℕ
  pub cancelled : Bool

abbrev pub limits_idle : ServerConn → Bool
limits_idle c = ltb_ℤ (pos 0) c.idle_timeout

-- The first test of `updateDeadlineLocked`.
abbrev pub with_handshake : Option ℕ → Option ℕ → Option ℕ
with_handshake deadline none = deadline
with_handshake none (some handshake) = some handshake
with_handshake (some deadline) (some handshake) =
    if ltb handshake deadline then some handshake else some deadline

-- The second one.
abbrev pub with_idle : Option ℕ → ℕ → Option ℕ
with_idle none idle = some idle
with_idle (some deadline) idle = if ltb idle deadline then some idle else some deadline

unfoldable pub update_deadline : ℕ → ServerConn → ServerConn
update_deadline now c =
    let deadline = with_handshake c.max_deadline c.handshake_deadline in
    record c {
      deadline =
          if limits_idle c then with_idle deadline (now + pos_part c.idle_timeout) else deadline;
    }

unfoldable pub clear_handshake_deadline : ℕ → ServerConn → ServerConn
unfolding update_deadline
clear_handshake_deadline now c = update_deadline now (record c { handshake_deadline = none })

abbrev pub cancel : ServerConn → ServerConn
cancel c = if c.has_canceler then record c { cancelled = true } else c

-- `Read` and `Write`, which differ in the call of the transport only: the transport's answer is the
-- number of bytes, and whether its error is a `net.Error`.
unfoldable pub transfer : ℕ → ℕ × Bool → ServerConn → ℕ × ServerConn
unfolding update_deadline
transfer now answer c =
    let d = if limits_idle c then update_deadline now c else c in
    (answer.0, if answer.1 then cancel d else d)

unfoldable pub close : ServerConn → ServerConn
close c = cancel c
