-- ===== src/Response/Calls.antt =====
-- Calls of `respond` one after the other: only the first one that is not refused has an effect.
use ssh_server_go.Prelude.{
  ℕ, ◌≡◌, refl, Bool, true, false, not, ◌&&◌, Option, some, [], Bytes, arith,
}
use ssh_server_go.Response.{
  RequestResponse, begin_respond, respond, finish_respond, reject_from_error_handler, already_sent,
  unsupported, expired, complete_without_response, expire,
}

-- Right behind a call of `respond` that was not refused for being late, the error handler's
-- rejection is refused as unsupported, sends nothing and changes nothing.
pub reject_from_error_handler-respond :
    (r : RequestResponse) (outcome late : Option ℕ) (accepted require_active : Bool)
    (payload message : Bytes)
    → (require_active && not r.active) ≡ false
    → reject_from_error_handler late message (respond outcome accepted payload require_active r).2
      ≡ (some unsupported, [], (respond outcome accepted payload require_active r).2)
unfolding respond reject_from_error_handler begin_respond finish_respond
reject_from_error_handler-respond r outcome late accepted require_active payload message h =
    ground arith

-- Right behind `expire`, both methods of the handler's writer are refused as late, and right behind
-- the completion with no response a call that need not be in time is refused as already sent:
-- nothing is sent, and the state stays.
pub respond-expire :
    (r : RequestResponse) (outcome : Option ℕ) (accepted : Bool) (payload : Bytes)
    → (respond outcome accepted payload true (expire r) ≡ (some expired, [], expire r))
      × (respond outcome accepted payload false (complete_without_response r)
          ≡ (some already_sent, [], complete_without_response r))
unfolding respond begin_respond expire complete_without_response finish_respond
respond-expire r outcome accepted payload = (refl, ground arith)
