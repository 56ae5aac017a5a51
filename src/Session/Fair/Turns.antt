-- ===== src/Session/Fair/Turns.antt =====
-- A turn of the loop is fair, and so is the loop; its length bounds its turns.
use ssh_server_go.Prelude.{
  ℕ, zero, suc, ◌+◌, ◌≤◌, ◌≡◌, ap, subst, Bool, Option, none, some, List, [], ◌∷◌, ◌++◌, length,
  one, arith,
}
use ssh_server_go.Prelude.Int.{IntSize}
use ssh_server_go.Session.State.{Session, Config, Input, Effect, Outcome, continues, stops, waits}
use ssh_server_go.Session.Requests.{Turn}
use ssh_server_go.Session.Replies.{
  replies, starts, replies-append, starts-append, Replied, once, at_most, not_yet, IsFair,
  refuse-IsFair,
}
use ssh_server_go.Prelude.{◌<◌}
use ssh_server_go.Session.Exit.{apply_calls}
use ssh_server_go.Session.Exit.Once.{apply_calls-IsOrderly}
use ssh_server_go.Session.Loop.{
  prepend_to, Kind, shell_or_exec, subsystem, env, signal, pty_req, window_change, agent,
  break_request, unknown, kind_of, handle_kind, timed, timer_effects, handle_input, Run,
  returns_with, go_on, loop,
}
use ssh_server_go.Session.Fair.{handle_shell-IsFair, handle_subsystem-IsFair}
use ssh_server_go.Session.Fair.Settings.{
  handle_env-IsFair, handle_signal_request-IsFair, handle_pty-IsFair, handle_window_change-IsFair,
  handle_agent-IsFair, handle_break-IsFair,
}

handle_kind-IsFair :
    (size : IntSize) (c : Config) (k : Kind) (i : Input) (s : Session) (left : List Input)
    → IsFair s left (handle_kind size c k i s left)
unfolding handle_kind
handle_kind-IsFair size c shell_or_exec i s left = handle_shell-IsFair s left c i
handle_kind-IsFair size c subsystem i s left = handle_subsystem-IsFair s left c i
handle_kind-IsFair size c env i s left = handle_env-IsFair s left c i
handle_kind-IsFair size c signal i s left = handle_signal_request-IsFair s left c i
handle_kind-IsFair size c pty_req i s left = handle_pty-IsFair s left size c i
handle_kind-IsFair size c window_change i s left = handle_window_change-IsFair s left size i
handle_kind-IsFair size c agent i s left = handle_agent-IsFair s left c i
handle_kind-IsFair size c break_request i s left = handle_break-IsFair s left i
handle_kind-IsFair size c unknown i s left = refuse-IsFair s left s (omega arith)

-- The application's calls and the request timer reply and start nothing, and leave the mark.
before-IsFair :
    (es : List Effect) (s r : Session) (left : List Input) (t : Turn)
    → replies es ≡ 0
    → starts es ≡ 0
    → r.handled ≡ s.handled
    → IsFair r left t
    → IsFair s left (record t { effects = es ++ t.effects })
before-IsFair es s r left t hr hs hm h = record {
  reply = subst (Replied t.outcome) (omega (arith, replies-append es t.effects, hr)) h.reply;
  start = omega (arith, starts-append es t.effects, hs, ap one hm, h.start);
  shrinks = h.shrinks;
}

timer_counts :
    (i : Input) (s : Session) → (replies (timer_effects i s) ≡ 0) × (starts (timer_effects i s) ≡ 0)
timer_counts i s = ground arith

timed_handled : (i : Input) (s : Session) → (timed i s).handled ≡ s.handled
timed_handled i s = ground arith

-- A turn of the loop replies to its request once if the loop goes on behind it, once at most if the
-- loop returns, and not yet if it waits for a deferred subsystem. It starts a handler only if the
-- session is not handled, and then marks it, one handler at most; and no more requests than it found
-- are left.
pub handle_input-IsFair :
    (size : IntSize) (c : Config) (i : Input) (s : Session) (left : List Input)
    → IsFair s left (handle_input size c i s left)
unfolding handle_input
handle_input-IsFair size c i s left =
    let called = apply_calls i.calls s in
    let orderly = apply_calls-IsOrderly i.calls s in
    let counts = timer_counts i called.1 in
    let t = handle_kind size c (kind_of i.request.kind) i (timed i called.1) left in
    before-IsFair called.0 s called.1 left
      (record t { effects = timer_effects i called.1 ++ t.effects }) orderly.unanswered
      orderly.unstarted orderly.mark
      (before-IsFair (timer_effects i called.1) called.1 (timed i called.1) left t counts.0 counts.1
        (timed_handled i called.1)
        (handle_kind-IsFair size c (kind_of i.request.kind) i (timed i called.1) left))

-- A loop that has ended behind at most `n` replies, with one handler started at most, and none if one
-- was started before.
abbrev pub IsFinished : (n : ℕ) (was_handled : Bool) → Option Run → Type 0
IsFinished n was_handled none = ⊥
IsFinished n was_handled (some r) =
    (replies r.effects ≤ n) × (starts r.effects + one was_handled ≤ 1)

handled_le : (b : Bool) → one b ≤ 1
handled_le b = ground arith

returns_counts :
    (s : Session) → (replies (returns_with s).effects ≡ 0) × (starts (returns_with s).effects ≡ 0)
returns_counts s = ground arith

prepend_to-IsFinished :
    (es : List Effect) (rest : Option Run) (n : ℕ) (before after : Bool)
    → replies es ≡ 1
    → starts es + one before ≤ one after
    → IsFinished n after rest
    → IsFinished (suc n) before (prepend_to es rest)
prepend_to-IsFinished es none n before after hr hs x = elim x [ ]
prepend_to-IsFinished es (some r) n before after hr hs (few, single) = (
  omega (arith, replies-append es r.effects, hr, few),
  omega (arith, starts-append es r.effects, hs, single),
)

go_on-IsFinished :
    (t : Turn) (o : Outcome) (rest : Option Run) (n : ℕ) (before : Bool)
    → Replied o (replies t.effects)
    → starts t.effects + one before ≤ one t.session.handled
    → IsFinished n t.session.handled rest
    → IsFinished (suc n) before (go_on t o rest)
go_on-IsFinished t continues rest n before (once hr) hs h =
    prepend_to-IsFinished t.effects rest n before t.session.handled hr hs h
go_on-IsFinished t stops rest n before (at_most hr) hs h =
    let ended = returns_with t.session in
    let counts = returns_counts t.session in
    (
      omega (arith, replies-append t.effects ended.effects, counts.0, hr),
      omega (
        arith,
        starts-append t.effects ended.effects,
        counts.1,
        hs,
        handled_le t.session.handled,
      ),
    )
go_on-IsFinished t waits rest n before (not_yet hr) hs h =
    (omega (arith, hr), omega (arith, hs, handled_le t.session.handled))

IsFinished-mono :
    (m n : ℕ) (b : Bool) (r : Option Run) → m ≤ n → IsFinished m b r → IsFinished n b r
IsFinished-mono m n b none h x = elim x [ ]
IsFinished-mono m n b (some r) h (few, single) = (omega (arith, h, few), single)

-- With more fuel than there are requests the loop ends: the channel is closed, a request makes it
-- return, or it waits for a deferred subsystem. Till then it has made one reply for each request at
-- most, and started one handler at most, and none where the session was handled before.
pub loop-IsFinished :
    (size : IntSize) (c : Config) (fuel : ℕ) (s : Session) (inputs : List Input)
    → length inputs < fuel
    → IsFinished (length inputs) s.handled (loop size c fuel s inputs)
unfolding loop
loop-IsFinished size c zero s inputs h = omega (arith, h)
loop-IsFinished size c (suc fuel) s [] h =
    let counts = returns_counts s in
    (omega (arith, counts.0), omega (arith, counts.1, handled_le s.handled))
loop-IsFinished size c (suc fuel) s (i ∷ left) h =
    let t = handle_input size c i s left in
    let fair = handle_input-IsFair size c i s left in
    let rest = loop size c fuel t.session t.left in
    go_on-IsFinished t t.outcome rest (length left) s.handled fair.reply fair.start (
      IsFinished-mono (length t.left) (length left) t.session.handled rest fair.shrinks
        (loop-IsFinished size c fuel t.session t.left (omega (arith, h, fair.shrinks))))
