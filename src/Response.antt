-- ===== src/Response.antt =====
-- request.go: `requestResponse`, the one reply to a global request. Each critical section of its mutex
-- is a function of the state; `respond` has two, and the reply is sent between them.
pub mod Calls
pub mod Interleaved
mod Examples
use ssh_server_go.Prelude.{
  ℕ, suc, Bool, true, false, not, ◌&&◌, ◌||◌, Option, none, some, List, [], ◌∷◌, Bytes,
  if◌then◌else◌,
}

-- The errors of this file, and those that sending the reply gives, by their number.
pub data ResponseError : Type 0 where
  expired already_sent incomplete unsupported : ResponseError
  reply_failed : (id : ℕ) → ResponseError
  cancelled : (id : ℕ) → ResponseError

-- `request` is the raw request's `WantReply`, and `none` once the request is released. `closes` counts
-- the calls of `close(done)`, of which a second one would panic.
pub record RequestResponse : Type 0 where
  pub request : Option Bool
  pub active : Bool
  pub attempted : Bool
  pub complete : Bool
  pub accepted : Bool
  pub err : Option ResponseError
  pub closes : ℕ

abbrev pub new_response : Bool → RequestResponse
new_response want_reply = record {
  request = some want_reply;
  active = true;
  attempted = false;
  complete = false;
  accepted = false;
  err = none;
  closes = 0;
}

-- The first critical section of `respond`: an error, or the request that is to be answered.
pub data Begun : Type 0 where
  refused : ResponseError → Begun
  started : (request : Option Bool) → Begun

unfoldable pub begin_respond : Bool → Bool → RequestResponse → Begun × RequestResponse
begin_respond accepted require_active r =
    if require_active && not r.active
    then (refused expired, r)
    else if r.attempted || r.complete
    then (refused already_sent, r)
    else (started r.request, record r { attempted = true; accepted = accepted })

abbrev pub wants_reply : Option Bool → Bool
wants_reply none = false
wants_reply (some want_reply) = want_reply

-- What `request.Reply` gives where it is called, `none` for success, and what `respond` makes of it.
abbrev pub located_reply : Option ℕ → Option ResponseError
located_reply none = none
located_reply (some id) = some (reply_failed id)

abbrev pub reply_error : Option Bool → Option ℕ → Option ResponseError
reply_error request outcome = if wants_reply request then located_reply outcome else none

-- The second critical section of `respond`.
unfoldable pub finish_respond : Option ResponseError → RequestResponse → RequestResponse
finish_respond e r = record r { complete = true; err = e; closes = suc r.closes }

abbrev sent : Option Bool → Bool → Bytes → List (Bool × Bytes)
sent request accepted payload = if wants_reply request then (accepted, payload) ∷ [] else []

abbrev respond_begun :
    Option ℕ
    → Bool
    → Bytes
    → Begun × RequestResponse
    → Option ResponseError × List (Bool × Bytes) × RequestResponse
respond_begun outcome accepted payload (refused e, r) = (some e, [], r)
respond_begun outcome accepted payload (started request, r) =
    let e = reply_error request outcome in (e, sent request accepted payload, finish_respond e r)

-- `respond` with nothing in between: its error, the replies that it sends, and the state.
unfoldable pub respond :
    Option ℕ
    → Bool
    → Bytes
    → Bool
    → RequestResponse
    → Option ResponseError × List (Bool × Bytes) × RequestResponse
unfolding begin_respond finish_respond
respond outcome accepted payload require_active r =
    respond_begun outcome accepted payload (begin_respond accepted require_active r)

abbrev pub unsupported_twice : Option ResponseError → Option ResponseError
unsupported_twice (some already_sent) = some unsupported
unsupported_twice e = e

unfoldable pub reject_from_error_handler :
    Option ℕ
    → Bytes
    → RequestResponse
    → Option ResponseError × List (Bool × Bytes) × RequestResponse
unfolding respond
reject_from_error_handler outcome message r =
    let (e, replies, r₁) = respond outcome false message false r in
    (unsupported_twice e, replies, r₁)

unfoldable pub expire : RequestResponse → RequestResponse
expire r = record r { active = false }

unfoldable pub release : RequestResponse → RequestResponse
release r = record r { active = false; request = none }

unfoldable pub complete_without_response : RequestResponse → RequestResponse
complete_without_response r =
    if not r.attempted && not r.complete
    then record r { complete = true; closes = suc r.closes }
    else r

-- `wait`, at the moment when one of its two channels is ready; `cause` is the context's, if it is done.
unfoldable pub wait : Option ℕ → RequestResponse → Bool × Option ResponseError
wait none r = if not r.complete then (false, some incomplete) else (r.accepted, r.err)
wait (some cause) r = (false, some (cancelled cause))
