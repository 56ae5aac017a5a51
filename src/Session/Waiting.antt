-- ===== src/Session/Waiting.antt =====
-- The wait for a deferred subsystem: what `waitDeferredSubsystem` replies and reads.
use ssh_server_go.Prelude.{
  ℕ, ◌≤◌, ◌≡◌, refl, ap, subst, Bool, true, false, Option, none, some, List, [], ◌∷◌, ◌++◌, length,
  if◌then◌else◌, one, arith,
}
use ssh_server_go.Errors.{handle, Error}
use ssh_server_go.Session.State.{
  Config, Input, DeferredEvent, replies as replies_event, returned, timer_fires, context_ends,
  reads_request, Effect,
}
use ssh_server_go.Session.Deferred.{
  DeferredResponse, Wait, reply_deferred, abandon, take_event, take_events, report, answer_with,
  settle, read_from,
}
use ssh_server_go.Session.Requests.{pushed}
use ssh_server_go.Session.Replies.{escalate_counts, replies, starts, replies-append, starts-append}

abbrev pub queued : Wait → ℕ
queued w = length (pushed w.next w.left)

-- Nothing is started, there is one reply at most, and only with an answer, and an acceptance has one.
pub record IsHonest (es : List Effect) (r : DeferredResponse) : Type 0 where
  pub unstarted : starts es ≡ 0
  pub single : replies es ≤ one r.answered
  pub acceptance : one r.accepted ≤ replies es

idle-IsHonest : (r : DeferredResponse) → one r.accepted ≡ 0 → IsHonest [] r
idle-IsHonest r h = record { unstarted = refl; single = omega arith; acceptance = omega (arith, h) }

answer_with-IsHonest :
    (ok : Bool) (outcome : Option Error) (r : DeferredResponse)
    → one r.accepted ≡ 0
    → IsHonest ((answer_with ok outcome r).0) ((answer_with ok outcome r).1)
answer_with-IsHonest true none r h = record {
  unstarted = refl;
  single = omega arith;
  acceptance = omega arith;
}
answer_with-IsHonest false none r h = record {
  unstarted = refl;
  single = omega arith;
  acceptance = omega arith;
}
answer_with-IsHonest true (some e) r h = record {
  unstarted = refl;
  single = omega arith;
  acceptance = omega arith;
}
answer_with-IsHonest false (some e) r h = record {
  unstarted = refl;
  single = omega arith;
  acceptance = omega arith;
}

if-IsHonest :
    (b : Bool) {x y : List Effect × DeferredResponse}
    → IsHonest x.0 x.1
    → IsHonest y.0 y.1
    → IsHonest ((if b then x else y).0) ((if b then x else y).1)
if-IsHonest true hx hy = hx
if-IsHonest false hx hy = hy

settle-IsHonest : (r : DeferredResponse) → one r.accepted ≡ 0 → IsHonest [] (settle r)
settle-IsHonest r h = record {
  unstarted = refl;
  single = omega arith;
  acceptance = omega (arith, h);
}

reply_deferred-IsHonest :
    (ok ended : Bool) (outcome : Option Error) (r : DeferredResponse)
    → one r.accepted ≡ 0
    → IsHonest ((reply_deferred ok ended outcome r).0) ((reply_deferred ok ended outcome r).1)
unfolding reply_deferred
reply_deferred-IsHonest ok ended outcome r h =
    if-IsHonest (r.answered) (idle-IsHonest r h)
      (if-IsHonest ended (settle-IsHonest r h) (answer_with-IsHonest ok outcome r h))

settled-IsHonest :
    (b : Bool) (r : DeferredResponse) → one r.accepted ≡ 0 → IsHonest [] (if b then r else settle r)
settled-IsHonest true r h = idle-IsHonest r h
settled-IsHonest false r h = settle-IsHonest r h

abandon-IsHonest : (r : DeferredResponse) → one r.accepted ≡ 0 → IsHonest [] (abandon r)
unfolding abandon
abandon-IsHonest r h = settled-IsHonest (r.answered) r h

read_from-IsHonest :
    (left : List Input) (w : Wait)
    → one w.response.accepted ≡ 0
    → IsHonest [] ((read_from left w).response)
read_from-IsHonest [] w h = abandon-IsHonest (w.response) h
read_from-IsHonest (i ∷ left) w h = idle-IsHonest (w.response) h

take_event-IsHonest :
    (outcome : Option Error) (e : DeferredEvent) (w : Wait)
    → one w.response.accepted ≡ 0
    → IsHonest ((take_event outcome e w).0) ((take_event outcome e w).1.response)
unfolding take_event
take_event-IsHonest outcome (replies_event ok ended) w h =
    reply_deferred-IsHonest ok ended outcome (w.response) h
take_event-IsHonest outcome (returned e ended) w h =
    reply_deferred-IsHonest false ended outcome (w.response) h
take_event-IsHonest outcome (timer_fires ended) w h =
    reply_deferred-IsHonest false ended outcome (w.response) h
take_event-IsHonest outcome context_ends w h = abandon-IsHonest (w.response) h
take_event-IsHonest outcome reads_request w h = read_from-IsHonest (w.left) w h

-- The turns of the loop: the others count only where this one has no answer, and then no reply.
pick-IsHonest :
    (b : Bool) (t rest : List Effect × Wait)
    → t.1.response.answered ≡ b
    → IsHonest t.0 (t.1.response)
    → (one t.1.response.accepted ≡ 0 → IsHonest rest.0 (rest.1.response))
    → IsHonest
        ((if b then t else (t.0 ++ rest.0, rest.1)).0)
        ((if b then t else (t.0 ++ rest.0, rest.1)).1.response)
pick-IsHonest true t rest h ht hrest = ht
pick-IsHonest false t rest h ht hrest =
    let none_yet : replies t.0 ≤ 0 = subst (λ b. replies t.0 ≤ one b) h (ht.single) in
    let others = hrest (omega (arith, none_yet, ht.acceptance)) in
    record {
      unstarted = omega (arith, starts-append t.0 rest.0, ht.unstarted, others.unstarted);
      single = omega (arith, replies-append t.0 rest.0, none_yet, others.single);
      acceptance = omega (arith, replies-append t.0 rest.0, others.acceptance);
    }

pub take_events-IsHonest :
    (outcome : Option Error) (es : List DeferredEvent) (w : Wait)
    → one w.response.accepted ≡ 0
    → IsHonest ((take_events outcome es w).0) ((take_events outcome es w).1.response)
unfolding take_events
take_events-IsHonest outcome [] w h = idle-IsHonest (w.response) h
take_events-IsHonest outcome (e ∷ es) w h =
    let t = take_event outcome e w in
    pick-IsHonest (t.1.response.answered) t (take_events outcome es t.1) refl
      (take_event-IsHonest outcome e w h) (λ h'. take_events-IsHonest outcome es t.1 h')

-- No request is made up: of those that were in the channel, the wait returns one and leaves the rest.
pub left-queued :
    (next : Option Input) (left : List Input) → length left ≤ length (pushed next left)
left-queued none left = omega arith
left-queued (some i) left = omega arith

read_queued : (left : List Input) (w : Wait) → w.left ≡ left → queued (read_from left w) ≤ queued w
read_queued [] w h = omega arith
read_queued (i ∷ left) w h = omega (arith, left-queued w.next w.left, ap length h)

queued-take_event :
    (outcome : Option Error) (e : DeferredEvent) (w : Wait)
    → queued ((take_event outcome e w).1) ≤ queued w
unfolding take_event
queued-take_event outcome (replies_event ok ended) w = omega arith
queued-take_event outcome (returned e ended) w = omega arith
queued-take_event outcome (timer_fires ended) w = omega arith
queued-take_event outcome context_ends w = omega arith
queued-take_event outcome reads_request w = read_queued (w.left) w refl

stay_queued :
    (b : Bool) (t rest : List Effect × Wait)
    → queued rest.1 ≤ queued t.1
    → queued ((if b then t else (t.0 ++ rest.0, rest.1)).1) ≤ queued t.1
stay_queued true t rest h = omega arith
stay_queued false t rest h = h

pub queued-take_events :
    (outcome : Option Error) (es : List DeferredEvent) (w : Wait)
    → queued ((take_events outcome es w).1) ≤ queued w
unfolding take_events
queued-take_events outcome [] w = omega arith
queued-take_events outcome (e ∷ es) w =
    let t = take_event outcome e w in
    let rest = take_events outcome es t.1 in
    omega (
      arith,
      queued-take_event outcome e w,
      stay_queued (t.1.response.answered) t rest (queued-take_events outcome es t.1),
    )

-- What the wait ends with.
pub report_counts :
    (c : Config) (e : Option Error) (ok : Bool)
    → (replies (report c e ok) ≡ 0) × (starts (report c e ok) ≡ 0)
report_counts c none ok = (refl, refl)
report_counts c (some e) true = (refl, refl)
report_counts c (some e) false = escalate_counts c handle e
