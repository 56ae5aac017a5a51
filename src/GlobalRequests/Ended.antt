-- ===== src/GlobalRequests/Ended.antt =====
-- The ends of a turn of the loop.
use ssh_server_go.Prelude.{
  ℕ, ◌≤◌, ◌≡◌, refl, ◌∙◌, ap, Bool, true, false, ◌&&◌, Option, none, some, List, [], length, one,
  arith,
}
use ssh_server_go.Errors.{Error}
use ssh_server_go.Response.{ResponseError, release}
use ssh_server_go.GlobalRequests.Handlers.{Answering}
use ssh_server_go.GlobalRequests.Loop.{
  RequestTurn, goes_on_with, stops_with, finish_request, answered_by,
}
use ssh_server_go.GlobalRequests.Answered.{IsOpen}

-- How a turn ends: the loop goes on, and the request has as many replies as it wants, or the connection
-- is closed, and there is no more than that.
pub data Ended (want : Bool) : Bool → (replies closes : ℕ) → Type 0 where
  passed : {n c : ℕ} → n ≡ one want → Ended want true n c
  stopped : {n c : ℕ} → n ≤ one want → 1 ≤ c → Ended want false n c

-- A turn's end, and a response that is released, so that a late call of it is refused, and whose channel
-- was closed once at most.
pub record IsAnswered (want : Bool) (t : RequestTurn) : Type 0 where
  pub ended : Ended want t.goes_on (length t.answering.sent) t.closes
  pub request : t.answering.response.request ≡ none
  pub inactive : t.answering.response.active ≡ false
  pub closed : t.answering.response.closes ≤ 1

wanted_le : (attempted want : Bool) → one (attempted && want) ≤ one want
wanted_le attempted want = ground arith

one_le : (b : Bool) → one b ≤ 1
one_le b = ground arith

module _ (want : Bool) where
  pub passes-IsAnswered :
      (a : Answering) (closes : ℕ)
      → length a.sent ≡ one want
      → a.response.closes ≤ 1
      → IsAnswered want (goes_on_with a closes)
  unfolding release
  passes-IsAnswered a closes h hc = record {
    ended = passed h;
    request = refl;
    inactive = refl;
    closed = hc;
  }

  pub stops-IsAnswered :
      (a : Answering) (closes : ℕ) (es : List Error)
      → length a.sent ≤ one want
      → a.response.closes ≤ 1
      → IsAnswered want (stops_with a closes es)
  unfolding release
  stops-IsAnswered a closes es h hc = record {
    ended = stopped h (omega arith);
    request = refl;
    inactive = refl;
    closed = hc;
  }

  pub few : (a : Answering) → IsOpen want a → length a.sent ≤ one want
  few a h = omega (arith, h.count, wanted_le a.response.attempted want)

  pub once : (a : Answering) → IsOpen want a → a.response.closes ≤ 1
  once a h = omega (arith, h.closed, one_le a.response.complete)

  pub open-IsAnswered :
      (a : Answering) (closes : ℕ) (es : List Error)
      → IsOpen want a
      → IsAnswered want (stops_with a closes es)
  open-IsAnswered a closes es h = stops-IsAnswered a closes es (few a h) (once a h)

  pub finish-IsAnswered :
      (can_continue : Bool) (closes : ℕ) (a : Answering)
      → length a.sent ≡ one want
      → a.response.closes ≤ 1
      → IsAnswered want (finish_request can_continue closes a)
  finish-IsAnswered true closes a h hc = passes-IsAnswered a closes h hc
  finish-IsAnswered false closes a h hc = stops-IsAnswered a closes [] (omega (arith, h)) hc

  pub answered_by-IsAnswered :
      (can_continue : Bool) (closes : ℕ) (r : Option ResponseError × Answering)
      → IsOpen want r.1
      → r.1.response.attempted ≡ true
      → IsAnswered want (answered_by can_continue closes r)
  answered_by-IsAnswered can_continue closes (none, a) h ha =
      finish-IsAnswered can_continue closes a (h.count ∙ ap (λ b. one (b && want)) ha) (once a h)
  answered_by-IsAnswered can_continue closes (some e, a) h ha = open-IsAnswered a closes _ h
