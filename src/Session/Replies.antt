-- ===== src/Session/Replies.antt =====
-- How often a turn of the loop replies and starts a handler.
use ssh_server_go.Prelude.{
  is_some, not, ◌&&◌, ◌||◌, ℕ, ◌+◌, ◌≤◌, ◌≡◌, refl, Bool, true, false, Option, none, some, List, [],
  ◌∷◌, ◌++◌, length, one, arith,
}
use ssh_server_go.Errors.{ErrorOperation, joined, cons, nil, reply, Error}
use ssh_server_go.Session.State.{
  Session, Config, Input, Effect, replied, started, dispatched, handled_error, close_session,
  close_connection, cancel_deferred, close_winch, exit_status, wrote_error, wrote, sent_request,
  close_write, Outcome, continues, stops, waits,
}
use ssh_server_go.Session.CallbackError.{
  dispatch_or_escalate, failure_handled, close_either, Handled, handle_callback_error, reply_fails,
  conclude_callback, after_reply, reply_to, handled_of, dispatch_callback,
}
use ssh_server_go.Session.Requests.{Turn, refuse, answer, by_flag}

-- The calls of `Reply`, and the handlers that were started.
abbrev pub replies : List Effect → ℕ
replies [] = 0
replies (replied accepted ∷ es) = 1 + replies es
replies (started h ∷ es) = replies es
replies (dispatched o e ∷ es) = replies es
replies (handled_error ms ∷ es) = replies es
replies (close_session ∷ es) = replies es
replies (close_connection ∷ es) = replies es
replies (cancel_deferred ∷ es) = replies es
replies (close_winch ∷ es) = replies es
replies (exit_status n ∷ es) = replies es
replies (wrote_error m ∷ es) = replies es
replies (wrote m ∷ es) = replies es
replies (sent_request k w m ∷ es) = replies es
replies (close_write ∷ es) = replies es

abbrev pub starts : List Effect → ℕ
starts [] = 0
starts (replied accepted ∷ es) = starts es
starts (started h ∷ es) = 1 + starts es
starts (dispatched o e ∷ es) = starts es
starts (handled_error ms ∷ es) = starts es
starts (close_session ∷ es) = starts es
starts (close_connection ∷ es) = starts es
starts (cancel_deferred ∷ es) = starts es
starts (close_winch ∷ es) = starts es
starts (exit_status n ∷ es) = starts es
starts (wrote_error m ∷ es) = starts es
starts (wrote m ∷ es) = starts es
starts (sent_request k w m ∷ es) = starts es
starts (close_write ∷ es) = starts es

pub replies-append : (es fs : List Effect) → replies (es ++ fs) ≡ replies es + replies fs
replies-append [] fs = omega arith
replies-append (replied accepted ∷ es) fs = omega (arith, replies-append es fs)
replies-append (started h ∷ es) fs = replies-append es fs
replies-append (dispatched o e ∷ es) fs = replies-append es fs
replies-append (handled_error ms ∷ es) fs = replies-append es fs
replies-append (close_session ∷ es) fs = replies-append es fs
replies-append (close_connection ∷ es) fs = replies-append es fs
replies-append (cancel_deferred ∷ es) fs = replies-append es fs
replies-append (close_winch ∷ es) fs = replies-append es fs
replies-append (exit_status n ∷ es) fs = replies-append es fs
replies-append (wrote_error m ∷ es) fs = replies-append es fs
replies-append (wrote m ∷ es) fs = replies-append es fs
replies-append (sent_request k w m ∷ es) fs = replies-append es fs
replies-append (close_write ∷ es) fs = replies-append es fs

pub starts-append : (es fs : List Effect) → starts (es ++ fs) ≡ starts es + starts fs
starts-append [] fs = omega arith
starts-append (replied accepted ∷ es) fs = starts-append es fs
starts-append (started h ∷ es) fs = omega (arith, starts-append es fs)
starts-append (dispatched o e ∷ es) fs = starts-append es fs
starts-append (handled_error ms ∷ es) fs = starts-append es fs
starts-append (close_session ∷ es) fs = starts-append es fs
starts-append (close_connection ∷ es) fs = starts-append es fs
starts-append (cancel_deferred ∷ es) fs = starts-append es fs
starts-append (close_winch ∷ es) fs = starts-append es fs
starts-append (exit_status n ∷ es) fs = starts-append es fs
starts-append (wrote_error m ∷ es) fs = starts-append es fs
starts-append (wrote m ∷ es) fs = starts-append es fs
starts-append (sent_request k w m ∷ es) fs = starts-append es fs
starts-append (close_write ∷ es) fs = starts-append es fs

-- A turn after which the loop goes on has replied once, one at which it stops once at most, and one
-- that waits not yet.
pub data Replied : Outcome → ℕ → Type 0 where
  once : {n : ℕ} → n ≡ 1 → Replied continues n
  at_most : {n : ℕ} → n ≤ 1 → Replied stops n
  not_yet : {n : ℕ} → n ≡ 0 → Replied waits n

-- A turn starts a handler only if none was, and marks the session; it leaves no more requests than
-- there were.
pub record IsFair (s : Session) (left : List Input) (t : Turn) : Type 0 where
  pub reply : Replied t.outcome (replies t.effects)
  pub start : starts t.effects + one s.handled ≤ one t.session.handled
  pub shrinks : length t.left ≤ length left

module _ (s : Session) (left : List Input) where
  -- A session that differs from `s` in other fields.
  pub refuse-IsFair : (t : Session) → one s.handled ≤ one t.handled → IsFair s left (refuse t left)
  refuse-IsFair t h = record { reply = once refl; start = omega (arith, h); shrinks = omega arith }

  pub answer-IsFair :
      (ok : Bool) (t : Session) → one s.handled ≤ one t.handled → IsFair s left (answer ok t left)
  answer-IsFair ok t h = record {
    reply = once refl;
    start = omega (arith, h);
    shrinks = omega arith;
  }

conclude_counts :
    (h : Handled) → (replies (conclude_callback h).0 ≡ 0) × (starts (conclude_callback h).0 ≡ 0)
unfolding conclude_callback
conclude_counts h = ground arith

-- `dispatchErrorOrEscalate` replies to nothing and starts nothing, and so do the closings behind it.
pub escalate_counts :
    (c : Config) (o : ErrorOperation) (e : Error)
    → (replies (dispatch_or_escalate c o e) ≡ 0) × (starts (dispatch_or_escalate c o e) ≡ 0)
unfolding dispatch_or_escalate
escalate_counts c o e = ground arith

close_counts : (b : Bool) → (replies (close_either b) ≡ 0) × (starts (close_either b) ≡ 0)
close_counts true = (refl, refl)
close_counts false = (refl, refl)

fails_counts :
    (c : Config) (e f : Error) (h : Handled)
    → (replies (reply_fails c e f h) ≡ 0) × (starts (reply_fails c e f h) ≡ 0)
unfolding reply_fails
fails_counts c e f h =
    let both = joined 0 (cons e (cons f nil)) in
    let es = dispatch_or_escalate c reply both in
    let b = h.closes || (is_some h.filtered && not (failure_handled h)) in
    (
      omega (
        arith,
        replies-append es (close_either b),
        (escalate_counts c reply both).0,
        (close_counts b).0,
      ),
      omega (
        arith,
        starts-append es (close_either b),
        (escalate_counts c reply both).1,
        (close_counts b).1,
      ),
    )

-- By the flag of a reply.
pub flag-Replied : (b : Bool) {n : ℕ} → n ≡ 1 → Replied (by_flag b) n
flag-Replied true h = once h
flag-Replied false h = at_most (omega (arith, h))

-- `handleCallbackError` replies once and starts nothing.
after_counts :
    (c : Config) (e : Error) (outcome : Option Error) (h : Handled)
    → (replies (after_reply c e outcome h).0 ≡ 0) × (starts (after_reply c e outcome h).0 ≡ 0)
after_counts c e none h = conclude_counts h
after_counts c e (some f) h = fails_counts c e f h

pub callback_counts :
    (c : Config) (i : Input) (e : Error)
    → (replies (handle_callback_error c i e).0 ≡ 1) × (starts (handle_callback_error c i e).0 ≡ 0)
unfolding handle_callback_error
callback_counts c i e =
    let counts = after_counts c e i.reply_failure (handled_of (dispatch_callback c i e)) in
    (omega (arith, counts.0), counts.1)

reply_by :
    (c : Config) (i : Input) (failure : Option Error) (ok : Bool)
    → (replies (reply_to c (record i { reply_failure = failure }) ok).0 ≡ 1)
      × (starts (reply_to c (record i { reply_failure = failure }) ok).0 ≡ 0)
unfolding reply_to
reply_by c i none ok = (refl, refl)
reply_by c i (some e) ok =
    let es = dispatch_or_escalate c reply e in
    (
      omega (arith, replies-append es (close_connection ∷ []), (escalate_counts c reply e).0),
      omega (arith, starts-append es (close_connection ∷ []), (escalate_counts c reply e).1),
    )

pub reply_counts :
    (c : Config) (i : Input) (ok : Bool)
    → (replies (reply_to c i ok).0 ≡ 1) × (starts (reply_to c i ok).0 ≡ 0)
reply_counts c i ok = reply_by c i i.reply_failure ok
