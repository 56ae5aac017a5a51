-- ===== src/Session/Lost.antt =====
-- Requests that are read while a deferred subsystem decides (session.go, `waitDeferredSubsystem`).
use ssh_server_go.Prelude.{
  ℕ, zero, suc, ◌≡◌, refl, ◌∙◌, ap, subst, sym, Bool, true, false, not, ◌||◌, Option, none, some,
  List, [], ◌∷◌, ◌++◌, drop, one, is_some, if◌then◌else◌, arith,
}
use ssh_server_go.Errors.{Error}
use ssh_server_go.Session.State.{
  Config, Input, DeferredEvent, replies as replies_event, returned, timer_fires, context_ends,
  reads_request, Effect,
}
use ssh_server_go.Session.Deferred.{
  DeferredResponse, new_deferred_response, Wait, reply_deferred, abandon, take_event, take_events,
  proceeds, decided_by, decided, wait_deferred,
}
use ssh_server_go.Session.Requests.{pushed}
use ssh_server_go.Session.Replies.{replies, replies-append}
use ssh_server_go.Session.Waiting.{take_events-IsHonest}

-- The requests of the channel that are read before anything else happens.
abbrev pub reads : List DeferredEvent → List Input → ℕ
reads [] left = 0
reads (reads_request ∷ es) [] = 0
reads (reads_request ∷ es) (i ∷ left) = suc (reads es left)
reads (replies_event accepted ended ∷ es) left = 0
reads (returned err ended ∷ es) left = 0
reads (timer_fires ended ∷ es) left = 0
reads (context_ends ∷ es) left = 0

-- All of `n` but the last.
abbrev pub but_last : ℕ → ℕ
but_last zero = 0
but_last (suc n) = n

-- What the loop goes on with.
abbrev pub remaining : Wait → List Input
remaining w = pushed w.next w.left

reply_deferred-answered :
    (ok ended : Bool) (outcome : Option Error) (r : DeferredResponse)
    → (reply_deferred ok ended outcome r).1.answered ≡ true
unfolding reply_deferred
reply_deferred-answered ok ended outcome r = ground arith

abandon-answered : (r : DeferredResponse) → (abandon r).answered ≡ true
unfolding abandon
abandon-answered r = ground arith

-- A turn of the wait that ends it, and one that does not.
stops_here :
    (b : Bool) (t rest : List Effect × Wait)
    → b ≡ true
    → remaining ((if b then t else (t.0 ++ rest.0, rest.1)).1) ≡ remaining t.1
stops_here true t rest h = refl
stops_here false t rest h = cc

goes_on :
    (b : Bool) (t rest : List Effect × Wait)
    → b ≡ false
    → remaining ((if b then t else (t.0 ++ rest.0, rest.1)).1) ≡ remaining rest.1
goes_on true t rest h = cc
goes_on false t rest h = refl

module _ (outcome : Option Error) (r : DeferredResponse) (h : r.answered ≡ false)
    (f : Option Error) where
  abbrev waiting : Option Input → List Input → Wait
  waiting next left = record { response = r; next = next; left = left; failure = f }

  ended_by :
      (e : DeferredEvent) (es : List DeferredEvent) (w : Wait)
      → (take_event outcome e w).1.response.answered ≡ true
      → remaining ((take_events outcome (e ∷ es) w).1) ≡ remaining ((take_event outcome e w).1)
  unfolding take_events
  ended_by e es w k =
      let t = take_event outcome e w in
      stops_here (t.1.response.answered) t (take_events outcome es t.1) k

  read_next :
      (es : List DeferredEvent) (next : Option Input) (i : Input) (left : List Input)
      → remaining ((take_events outcome (reads_request ∷ es) (waiting next (i ∷ left))).1)
        ≡ remaining ((take_events outcome es (waiting (some i) left)).1)
  unfolding take_events take_event
  read_next es next i left =
      goes_on (r.answered) ([], waiting (some i) left)
        (take_events outcome es (waiting (some i) left)) h

  -- Every event but the reading of a request ends the wait and leaves what was read.
  remaining-take_events :
      (es : List DeferredEvent) (i : Input) (left : List Input)
      → remaining ((take_events outcome es (waiting (some i) left)).1)
        ≡ drop (reads es left) (i ∷ left)
  unfolding take_events take_event
  remaining-take_events [] i left = refl
  remaining-take_events (replies_event ok ended ∷ es) i left =
      ended_by (replies_event ok ended) es (waiting (some i) left)
        (reply_deferred-answered ok ended outcome r)
  remaining-take_events (returned e ended ∷ es) i left =
      ended_by (returned e ended) es (waiting (some i) left)
        (reply_deferred-answered false ended outcome r)
  remaining-take_events (timer_fires ended ∷ es) i left =
      ended_by (timer_fires ended) es (waiting (some i) left)
        (reply_deferred-answered false ended outcome r)
  remaining-take_events (context_ends ∷ es) i left =
      ended_by context_ends es (waiting (some i) left) (abandon-answered r)
  remaining-take_events (reads_request ∷ es) i [] =
      ended_by reads_request es (waiting (some i) []) (abandon-answered r)
  remaining-take_events (reads_request ∷ es) i (j ∷ left) =
      read_next es (some i) j left ∙ remaining-take_events es j left

  -- The same from the start, where nothing is read yet.
  start-take_events :
      (es : List DeferredEvent) (left : List Input)
      → remaining ((take_events outcome es (waiting none left)).1)
        ≡ drop (but_last (reads es left)) left
  unfolding take_events take_event
  start-take_events [] left = refl
  start-take_events (replies_event ok ended ∷ es) left =
      ended_by (replies_event ok ended) es (waiting none left)
        (reply_deferred-answered ok ended outcome r)
  start-take_events (returned e ended ∷ es) left =
      ended_by (returned e ended) es (waiting none left)
        (reply_deferred-answered false ended outcome r)
  start-take_events (timer_fires ended ∷ es) left =
      ended_by (timer_fires ended) es (waiting none left)
        (reply_deferred-answered false ended outcome r)
  start-take_events (context_ends ∷ es) left =
      ended_by context_ends es (waiting none left) (abandon-answered r)
  start-take_events (reads_request ∷ es) [] =
      ended_by reads_request es (waiting none []) (abandon-answered r)
  start-take_events (reads_request ∷ es) (j ∷ left) =
      read_next es none j left ∙ remaining-take_events es j left

-- A wait that goes on has an answer that accepts, and ends with what it goes on with.
record IsAccepted (next : Option Input) (w : Wait) (effects : List Effect) : Type 0 where
  single : replies effects ≡ 0
  answered : w.response.answered ≡ true
  has_accepted : w.response.accepted ≡ true
  kept : next ≡ w.next

decided-IsAccepted :
    (c : Config) (handler : ℕ) (w : Wait) (next : Option Input) (a : Bool) (b : Bool) (x : Bool)
    → w.response.answered ≡ a
    → w.response.accepted ≡ b
    → (decided_by c (not a) (not b || x) handler w).1 ≡ proceeds next
    → IsAccepted next w ((decided_by c (not a) (not b || x) handler w).0)
decided-IsAccepted c handler w next false b x ha hb p = cc
decided-IsAccepted c handler w next true false x ha hb p = cc
decided-IsAccepted c handler w next true true true ha hb p = cc
decided-IsAccepted c handler w next true true false ha hb p = record {
  single = refl;
  answered = ha;
  has_accepted = hb;
  kept = cc;
}

-- Where a deferred subsystem is accepted: whatever happens while its handler decides, and however many
-- requests of the channel are read meanwhile, there is one reply, that to the subsystem's request, and
-- the loop goes on with the last request that was read and those that are left. So of the requests
-- that are read, all but the last are neither answered nor handled.
pub wait_deferred-drop :
    (c : Config) (handler : ℕ) (outcome : Option Error) (events : List DeferredEvent)
    (left : List Input) (next : Option Input)
    → (wait_deferred c handler outcome events left).1 ≡ proceeds next
    → (replies ((wait_deferred c handler outcome events left).0) ≡ 1)
      × (pushed next ((wait_deferred c handler outcome events left).2.left)
          ≡ drop (but_last (reads events left)) left)
unfolding wait_deferred
wait_deferred-drop c handler outcome events left next p =
    let start : Wait = record {
      response = new_deferred_response;
      next = none;
      left = left;
      failure = none;
    } in
    let waited = take_events outcome events start in
    let response = waited.1.response in
    let good =
      decided-IsAccepted c handler waited.1 next (response.answered) (response.accepted)
        (is_some response.err) refl refl p in
    let honest = take_events-IsHonest outcome events start refl in
    (
      omega (
        arith,
        replies-append waited.0 (decided c handler waited.1).0,
        good.single,
        ap one (good.answered),
        ap one (good.has_accepted),
        honest.single,
        honest.acceptance,
      ),
      subst
          (λ (n : Option Input). pushed n waited.1.left ≡ drop (but_last (reads events left)) left)
          (sym (good.kept)) (start-take_events outcome new_deferred_response refl none events left),
    )
