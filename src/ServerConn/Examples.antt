-- ===== src/ServerConn/Examples.antt =====
-- A read that comes before the handshake is over.
use ssh_server_go.Prelude.{◌≡◌, refl, true, false, none, some, [], ◌∷◌}
use ssh_server_go.Prelude.Int.{pos}
use ssh_server_go.Deadlines.{earliest_deadline}
use ssh_server_go.ServerConn.{ServerConn, transfer, clear_handshake_deadline}
use ssh_server_go.ServerConn.Deadline.{transfer-earliest}

abbrev connection : ServerConn
connection = record {
  idle_timeout = pos 30;
  handshake_deadline = some 20;
  max_deadline = some 500;
  has_canceler = true;
  deadline = none;
  cancelled = false;
}

handshake_first : (transfer 10 (4, false) connection).1.deadline ≡ some 20
unfolding transfer
handshake_first = refl

cancelled_on_error : (transfer 10 (0, true) connection).1.cancelled ≡ true
unfolding transfer
cancelled_on_error = refl

transfer-earliest_example :
    ((transfer 10 (4, false) connection).1.deadline
      ≡ earliest_deadline (some 500 ∷ some 20 ∷ some 40 ∷ []))
    × ((clear_handshake_deadline 10 connection).deadline
        ≡ earliest_deadline (some 500 ∷ none ∷ some 40 ∷ []))
transfer-earliest_example = transfer-earliest 10 (4, false) connection refl
