-- ===== src/Session/Limits/Turns.antt =====
-- The loop keeps a session within its limits.
use ssh_server_go.Prelude.{ℕ, zero, suc, Bool, true, Option, none, some, List, [], ◌∷◌, length}
use ssh_server_go.Prelude.Int.{IntSize}
use ssh_server_go.Session.State.{Session, Config, Input, Effect}
use ssh_server_go.Session.Requests.{Turn}
use ssh_server_go.Prelude.{◌<◌}
use ssh_server_go.Session.Fair.Turns.{IsFinished, loop-IsFinished}
use ssh_server_go.Session.Exit.{apply_calls}
use ssh_server_go.Session.Loop.{prepend_to, kind_of, fires, timed, handle_input, Run, go_on, loop}
use ssh_server_go.Session.State.{Outcome, continues, stops, waits}
use ssh_server_go.Session.Limits.{IsBounded}
use ssh_server_go.Session.Limits.Calls.{apply_calls-IsBounded, if-IsBounded}
use ssh_server_go.Session.Limits.Requests.{handle_kind-Keeps}

timed-IsBounded : (i : Input) (s : Session) → IsBounded s → IsBounded (timed i s)
timed-IsBounded i s h = if-IsBounded (fires i s) (record s { resolved = true }) s h h

handle_input-IsBounded :
    (size : IntSize) (c : Config) (i : Input) (s : Session) (left : List Input)
    → IsBounded s
    → IsBounded ((handle_input size c i s left).session)
unfolding handle_input
handle_input-IsBounded size c i s left h =
    let called = apply_calls i.calls s in
    (handle_kind-Keeps (timed i called.1) left
      (timed-IsBounded i called.1 (apply_calls-IsBounded i.calls s h)) size c
      (kind_of i.request.kind) i).bounded

-- A loop that ends with a session within its limits, or has no fuel left.
abbrev pub EndsBounded : Option Run → Type 0
EndsBounded none = Unit
EndsBounded (some r) = IsBounded r.session

prepend_to-EndsBounded :
    (es : List Effect) (rest : Option Run) → EndsBounded rest → EndsBounded (prepend_to es rest)
prepend_to-EndsBounded es none h = h
prepend_to-EndsBounded es (some r) h = h

go_on-EndsBounded :
    (t : Turn) (o : Outcome) (rest : Option Run)
    → IsBounded t.session
    → EndsBounded rest
    → EndsBounded (go_on t o rest)
go_on-EndsBounded t continues rest h hr = prepend_to-EndsBounded t.effects rest hr
go_on-EndsBounded t stops rest h hr = h
go_on-EndsBounded t waits rest h hr = h

loop-EndsBounded :
    (size : IntSize) (c : Config) (fuel : ℕ) (s : Session) (inputs : List Input)
    → IsBounded s
    → EndsBounded (loop size c fuel s inputs)
unfolding loop
loop-EndsBounded size c zero s inputs h = tt
loop-EndsBounded size c (suc fuel) s [] h = h
loop-EndsBounded size c (suc fuel) s (i ∷ left) h =
    let t = handle_input size c i s left in
    let ht = handle_input-IsBounded size c i s left h in
    go_on-EndsBounded t t.outcome (loop size c fuel t.session t.left) ht
      (loop-EndsBounded size c fuel t.session t.left ht)

-- The loop ends, with a session within its limits.
abbrev pub EndsWithin : Option Run → Type 0
EndsWithin none = ⊥
EndsWithin (some r) = IsBounded r.session

ended-EndsWithin :
    (n : ℕ) (b : Bool) (r : Option Run) → IsFinished n b r → EndsBounded r → EndsWithin r
ended-EndsWithin n b none ended h = ended
ended-EndsWithin n b (some r) ended h = h

-- With more fuel than there are requests, a session that is within its limits before the loop is
-- within them when the loop ends, with the application's calls and the turns of `drainSignals` between
-- the requests: at most 128 variables, of 65536 bytes in all, as `env_bytes` counts them; at most 128
-- buffered signals, and none where a channel is registered; and in the channel of windows, which is
-- made with the terminal, no window but the terminal's current one.
pub loop-EndsWithin :
    (size : IntSize) (c : Config) (fuel : ℕ) (s : Session) (inputs : List Input)
    → length inputs < fuel
    → IsBounded s
    → EndsWithin (loop size c fuel s inputs)
loop-EndsWithin size c fuel s inputs enough h =
    ended-EndsWithin (length inputs) s.handled (loop size c fuel s inputs)
      (loop-IsFinished size c fuel s inputs enough) (loop-EndsBounded size c fuel s inputs h)
