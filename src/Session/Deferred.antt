-- ===== src/Session/Deferred.antt =====
-- `deferredSubsystemResponse` and `waitDeferredSubsystem` (session.go): the handler of a deferred
-- subsystem decides whether its request is accepted, while the loop waits.
use ssh_server_go.Prelude.{
  ℕ, suc, Bool, true, false, not, ◌||◌, Option, none, some, List, [], ◌∷◌, ◌++◌, if◌then◌else◌,
  is_some,
}
use ssh_server_go.Errors.{Error, handle}
use ssh_server_go.Session.CallbackError.{dispatch_or_escalate}
use ssh_server_go.Session.State.{
  Config, DeferredState, normal, pending, rejected, Input, DeferredEvent, replies, returned,
  timer_fires, context_ends, reads_request, Effect, replied, started, deferred_handler,
  close_session, close_connection, cancel_deferred,
}

-- The response, with `deferredState` of its session. `closes` counts the calls of `close(done)`.
pub record DeferredResponse : Type 0 where
  pub answered : Bool
  pub accepted : Bool
  pub err : Option Error
  pub state : DeferredState
  pub closes : ℕ

abbrev pub new_deferred_response : DeferredResponse
new_deferred_response = record {
  answered = false;
  accepted = false;
  err = none;
  state = pending;
  closes = 0;
}

-- `reply` by the outcome of `Reply`; the error goes to the handler.
abbrev pub answer_with : Bool → Option Error → DeferredResponse → List Effect × DeferredResponse
answer_with accepted none r = (
  replied accepted ∷ [],
  record r {
    answered = true;
    accepted = accepted;
    err = none;
    state = if accepted then normal else rejected;
    closes = suc r.closes;
  },
)
answer_with accepted (some e) r = (
  replied accepted ∷ close_connection ∷ [],
  record r {
    answered = true;
    accepted = accepted;
    err = some e;
    state = rejected;
    closes = suc r.closes;
  },
)

abbrev pub settle : DeferredResponse → DeferredResponse
settle r = record r { answered = true; state = rejected; closes = suc r.closes }

-- `deferredSubsystemResponse.reply`.
unfoldable pub reply_deferred :
    Bool → Bool → Option Error → DeferredResponse → List Effect × DeferredResponse
reply_deferred accepted ended outcome r =
    if r.answered then ([], r) else if ended then ([], settle r) else answer_with accepted outcome r

unfoldable pub abandon : DeferredResponse → DeferredResponse
abandon r = if r.answered then r else settle r

-- The wait: the response, the later request that was read last, the requests that are left in the
-- channel, and the error that the handler returned before its subsystem was accepted.
pub record Wait : Type 0 where
  pub response : DeferredResponse
  pub next : Option Input
  pub left : List Input
  pub failure : Option Error

abbrev pub read_from : List Input → Wait → Wait
read_from [] w = record w { response = abandon w.response }
read_from (later ∷ left) w = record w { next = some later; left = left }

abbrev pub first_failure : Option Error → Option Error → Option Error
first_failure none e = e
first_failure (some e) f = some e

-- One turn of the loop of `waitDeferredSubsystem`, up to the test of `answered`.
unfoldable pub take_event : Option Error → DeferredEvent → Wait → List Effect × Wait
unfolding reply_deferred abandon
take_event outcome (replies accepted ended) w =
    let r = reply_deferred accepted ended outcome w.response in (r.0, record w { response = r.1 })
take_event outcome (returned err ended) w =
    let r = reply_deferred false ended outcome w.response in
    (r.0, record w { response = r.1; failure = first_failure w.failure err })
take_event outcome (timer_fires ended) w =
    let r = reply_deferred false ended outcome w.response in (r.0, record w { response = r.1 })
take_event outcome context_ends w = ([], record w { response = abandon w.response })
take_event outcome reads_request w = ([], read_from w.left w)

unfoldable pub take_events : Option Error → List DeferredEvent → Wait → List Effect × Wait
unfolding take_event
take_events outcome [] w = ([], w)
take_events outcome (e ∷ es) w =
    let t = take_event outcome e w in
    let rest = take_events outcome es t.1 in
    if t.1.response.answered then t else (t.0 ++ rest.0, rest.1)

abbrev pub report : Config → Option Error → Bool → List Effect
report c none accepted = []
report c (some e) true = []
report c (some e) false = dispatch_or_escalate c handle e

-- What the wait ends with: it goes on with the request that was read, or stops, or has no answer yet.
pub data Decision : Type 0 where
  proceeds : (next : Option Input) → Decision
  gives_up : Decision
  undecided : Decision

-- By whether there is no answer, and whether it refuses.
abbrev pub decided_by : Config → (unanswered refused : Bool) → ℕ → Wait → List Effect × Decision
decided_by c true refused handler w = ([], undecided)
decided_by c false true handler w =
    (cancel_deferred ∷ close_session ∷ report c w.failure w.response.accepted, gives_up)
decided_by c false false handler w = (started (deferred_handler handler) ∷ [], proceeds w.next)

abbrev pub decided : Config → ℕ → Wait → List Effect × Decision
decided c handler w =
    decided_by c (not w.response.answered) (not w.response.accepted || is_some w.response.err)
      handler w

-- `waitDeferredSubsystem`: the effects, the decision, and the wait at its end.
unfoldable pub wait_deferred :
    Config → ℕ → Option Error → List DeferredEvent → List Input → List Effect × Decision × Wait
unfolding take_events dispatch_or_escalate
wait_deferred c handler outcome events left =
    let start : Wait = record {
      response = new_deferred_response;
      next = none;
      left = left;
      failure = none;
    } in
    let waited = take_events outcome events start in
    let end = decided c handler waited.1 in (waited.0 ++ end.0, end.1, waited.1)
