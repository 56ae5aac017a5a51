-- ===== src/Session/Requests.antt =====
-- `handleRequests` (session.go): what the loop does with one request, for the requests that start a
-- handler. The others are in Settings.
use ssh_server_go.Prelude.{
  ℕ, Bool, true, false, ◌||◌, Option, none, some, List, [], ◌∷◌, ◌++◌, Bytes, codes, eq_bytes,
  if◌then◌else◌, is_some,
}
use ssh_server_go.Errors.{Error, wrapped}
use ssh_server_go.Session.State.{
  Session, Answer, Config, Input, Effect, replied, started, Started, session_handler,
  subsystem_handler, Outcome, continues, stops, waits,
}
use ssh_server_go.Session.CallbackError.{handle_callback_error, reply_to}
use ssh_server_go.Session.Deferred.{Decision, proceeds, gives_up, undecided, Wait, wait_deferred}

-- What the loop does with a request: the effects, whether it goes on, the session, and the requests
-- that come next.
pub record Turn : Type 0 where
  pub effects : List Effect
  pub outcome : Outcome
  pub session : Session
  pub left : List Input

abbrev pub refuse : Session → List Input → Turn
refuse s left = record {
  effects = replied false ∷ [];
  outcome = continues;
  session = s;
  left = left;
}

abbrev pub answer : Bool → Session → List Input → Turn
answer ok s left = record {
  effects = replied ok ∷ [];
  outcome = continues;
  session = s;
  left = left;
}

abbrev pub by_flag : Bool → Outcome
by_flag true = continues
by_flag false = stops

-- A callback's error, wrapped by `fmt.Errorf`.
abbrev pub callback_failed : Config → Input → Error → Session → List Input → Turn
callback_failed c i e s left =
    let r = handle_callback_error c i (wrapped 0 e) in
    record { effects = r.0; outcome = by_flag r.1; session = s; left = left }

-- By the answer of a callback: its error, its refusal, or what comes behind it.
abbrev pub if_allowed : Config → Input → Answer → Session → List Input → Turn → Turn
if_allowed c i (allowed, some e) s left go = callback_failed c i e s left
if_allowed c i (true, none) s left go = go
if_allowed c i (false, none) s left go = refuse s left

abbrev pub ask_policy : Config → Session → Bytes → Answer
ask_policy c s kind = elim (c.session_request) [ none ↦ (true, none) | some ask ↦ ask s kind ]

abbrev pub resolve : Session → Session
resolve s = record s { resolved = true; handled = true }

-- The handler is started when the reply is out.
abbrev pub start_with : Started → List Effect × Bool → Session → List Input → Turn
start_with h (effects, true) s left = record {
  effects = effects ++ started h ∷ [];
  outcome = continues;
  session = s;
  left = left;
}
start_with h (effects, false) s left = record {
  effects = effects;
  outcome = stops;
  session = s;
  left = left;
}

-- Behind the policy: the session is resolved, unless the request timer was first.
unfoldable pub accept_request : Config → Input → Started → Session → List Input → Turn
unfolding reply_to
accept_request c i h s left =
    if s.resolved
    then record { effects = []; outcome = stops; session = s; left = left }
    else start_with h (reply_to c i true) (resolve s) left

-- The payload of `shell` is not read.
abbrev pub command_of : Config → Input → Option Bytes
command_of c i =
    if eq_bytes i.request.kind (codes "exec") then c.unmarshal_string i.request.payload else some []

abbrev pub with_command : Config → Input → ℕ → Option Bytes → Session → List Input → Turn
with_command c i handler none s left = refuse s left
with_command c i handler (some value) s left =
    let asked = record s { raw_cmd = value; subsystem = [] } in
    if_allowed c i (ask_policy c asked i.request.kind) (record asked { raw_cmd = [] }) left
      (accept_request c i (session_handler handler) asked left)

abbrev pub with_handler : Config → Input → Option ℕ → Session → List Input → Turn
with_handler c i none s left = refuse s left
with_handler c i (some handler) s left = with_command c i handler (command_of c i) s left

unfoldable pub handle_shell : Config → Input → Session → List Input → Turn
unfolding accept_request eq_bytes
handle_shell c i s left = if s.handled then refuse s left else with_handler c i c.handler s left

-- The decision of a deferred subsystem.
abbrev pub pushed : Option Input → List Input → List Input
pushed none left = left
pushed (some next) left = next ∷ left

abbrev pub after_deferred : Session → List Effect × Decision × Wait → Turn
after_deferred s (effects, proceeds next, w) = record {
  effects = effects;
  outcome = continues;
  session = record s { deferred_state = w.response.state };
  left = pushed next w.left;
}
after_deferred s (effects, gives_up, w) = record {
  effects = effects;
  outcome = stops;
  session = record s { deferred_state = w.response.state };
  left = w.left;
}
after_deferred s (effects, undecided, w) = record {
  effects = effects;
  outcome = waits;
  session = record s { deferred_state = w.response.state };
  left = w.left;
}

-- The handlers of a subsystem, by its name or by default.
abbrev pub handlers_of : Config → Bytes → Option ℕ × Option ℕ
handlers_of c name =
    if is_some (c.subsystem_handlers name) || is_some (c.deferred_handlers name)
    then (c.subsystem_handlers name, c.deferred_handlers name)
    else (c.subsystem_handlers (codes "default"), c.deferred_handlers (codes "default"))

-- Behind the policy.
abbrev pub run_subsystem : Config → Input → Option ℕ × Option ℕ → Session → List Input → Turn
run_subsystem c i (none, none) s left = refuse (record s { subsystem = [] }) left
run_subsystem c i (some handler, none) s left =
    accept_request c i (subsystem_handler handler) s left
run_subsystem c i (handler, some deferred) s left =
    if s.resolved
    then record { effects = []; outcome = stops; session = s; left = left }
    else after_deferred (resolve s) (wait_deferred c deferred i.reply_failure i.events left)

abbrev pub with_name : Config → Input → Option Bytes → Session → List Input → Turn
with_name c i none s left = refuse s left
with_name c i (some name) s left =
    let asked = record s { subsystem = name; raw_cmd = [] } in
    if_allowed c i (ask_policy c asked i.request.kind) (record asked { subsystem = [] }) left
      (run_subsystem c i (handlers_of c name) asked left)

unfoldable pub handle_subsystem : Config → Input → Session → List Input → Turn
unfolding accept_request wait_deferred
handle_subsystem c i s left =
    if s.handled then refuse s left else with_name c i (c.unmarshal_string i.request.payload) s left
