-- ===== src/ServerConn/Deadline.antt =====
-- The deadline of the transport is the earliest of those that apply.
use ssh_server_go.Prelude.{
  ℕ, ◌+◌, ◌≡◌, ◌∙◌, Bool, true, false, Option, none, some, [], ◌∷◌, if◌then◌else◌, arith,
}
use ssh_server_go.Prelude.Int.{pos_part}
use ssh_server_go.Deadlines.{earliest_deadline, earliest_from}
use ssh_server_go.ServerConn.{
  ServerConn, limits_idle, with_handshake, with_idle, update_deadline, clear_handshake_deadline,
  transfer, cancel,
}

-- Where an idle timeout is set, a transfer at `now` allows that much time.
abbrev pub idle_deadline : ℕ → ServerConn → Option ℕ
idle_deadline now c = if limits_idle c then some (now + pos_part c.idle_timeout) else none

earliest_of_three :
    (limit handshake : Option ℕ) (idle : ℕ) (limited : Bool)
    → (if limited
        then with_idle (with_handshake limit handshake) idle
        else with_handshake limit handshake)
      ≡ earliest_deadline (limit ∷ handshake ∷ (if limited then some idle else none) ∷ [])
unfolding earliest_deadline earliest_from
earliest_of_three limit handshake idle limited = ground arith

update_deadline-earliest :
    (now : ℕ) (c : ServerConn)
    → (update_deadline now c).deadline
      ≡ earliest_deadline (c.max_deadline ∷ c.handshake_deadline ∷ idle_deadline now c ∷ [])
unfolding update_deadline
update_deadline-earliest now c =
    earliest_of_three c.max_deadline c.handshake_deadline (now + pos_part c.idle_timeout)
      (limits_idle c)

updated-deadline :
    (limited failed : Bool) (x y : ServerConn)
    → limited ≡ true
    → (let d = (if limited then x else y) in if failed then cancel d else d).deadline ≡ x.deadline
updated-deadline true failed x y h = ground arith
updated-deadline false failed x y h = ground arith

-- A read or a write with an idle timeout, whatever the transport answers, leaves the transport with the
-- earliest of the connection's limit, the handshake's deadline and the idle deadline; and the end of
-- the handshake leaves it with the earliest of the first and the last.
pub transfer-earliest :
    (now : ℕ) (answer : ℕ × Bool) (c : ServerConn)
    → limits_idle c ≡ true
    → ((transfer now answer c).1.deadline
        ≡ earliest_deadline (c.max_deadline ∷ c.handshake_deadline ∷ idle_deadline now c ∷ []))
      × ((clear_handshake_deadline now c).deadline
          ≡ earliest_deadline (c.max_deadline ∷ none ∷ idle_deadline now c ∷ []))
transfer-earliest now answer c h = (
  unfold transfer in
      updated-deadline (limits_idle c) answer.1 (update_deadline now c) c h
      ∙ update_deadline-earliest now c,
  unfold clear_handshake_deadline in
      update_deadline-earliest now (record c { handshake_deadline = none }),
)
