-- ===== src/Lifecycle.antt =====
-- lifecycle.go: `serveContext`, the state that `Serve` and `HandleConn` share. Every method holds its
-- mutex, so each is a function of the state. An `*activeConn` is an address in the heap; connections,
-- functions to cancel and errors are numbers.
pub mod Tracked
pub mod Invariant
pub mod Track
pub mod Release
pub mod Closing
pub mod Forced
pub mod Runs
pub mod Shutdown
mod Examples
use ssh_server_go.Prelude.{
  ℕ, suc, Bool, true, false, not, ◌&&◌, ◌||◌, Option, none, some, List, [], ◌∷◌, ◌++◌,
  if◌then◌else◌, ◌==◌, member, delete, is_empty, is_empty-delete, one,
}
use ssh_server_go.Prelude.Int.{ℤ, pos, leb_ℤ, ltb_ℤ, IntSize, wrap, ◌+ℤ◌, ◌-ℤ◌}
use ssh_server_go.Startups.{MaxStartupsConfig, effective_max_startups, max_startups_drop_rate}
use mathlib.Core.List.{reverse}

pub record ActiveConn : Type 0 where
  pub conn : ℕ
  pub transports : List ℕ
  pub cancel : Option ℕ
  pub handshaking : Bool
  pub startup_reserved : Bool
  pub closed : Bool
  pub close_cause : Option ℕ

-- `connections` is the set of the map's keys, in the order in which `range` gives them, and `next` is
-- an address that no connection has. `drained` says whether the channel is closed, and
-- `listener_close_error` is what the `sync.Once` has kept, `none` before it has run.
pub record ServeContext : Type 0 where
  pub heap : ℕ → ActiveConn
  pub next : ℕ
  pub connections : List ℕ
  pub startups : ℤ
  pub stopping : Bool
  pub forced : Bool
  pub drained : Bool
  pub listener_close_error : Option (Option ℕ)

abbrev pub store : (ℕ → ActiveConn) → ℕ → ActiveConn → ℕ → ActiveConn
store heap a c b = if a == b then c else heap b

unfoldable pub maybe_close_drained : ServeContext → ServeContext
maybe_close_drained s =
    if not s.stopping || not (is_empty s.connections)
    then s
    else if s.drained
    then s
    else record s { drained = true }

-- The body of the `sync.Once` runs when nothing is kept.
abbrev pub close_once : Option (Option ℕ) → Option ℕ → ServeContext → Option ℕ × ServeContext
close_once (some kept) closing s = (kept, s)
close_once none closing s = (closing, record s { listener_close_error = some closing })

-- The argument is what closing the listener gives when it is done for the first time.
abbrev pub close_listener : Option ℕ → ServeContext → Option ℕ × ServeContext
close_listener closing s = close_once s.listener_close_error closing s

unfoldable pub stop_accepting : Option ℕ → ServeContext → Option ℕ × ServeContext
unfolding maybe_close_drained
stop_accepting closing s =
    close_listener closing (maybe_close_drained (record s { stopping = true }))

-- `random` is what `rand.UintN(100)` gives.
abbrev pub drops : ℤ → ℕ → Bool
drops rate random = leb_ℤ (pos 100) rate || (ltb_ℤ (pos 0) rate && ltb_ℤ (pos random) rate)

abbrev pub accepted : ℕ → Bool → ActiveConn
accepted conn reserved = record {
  conn = conn;
  transports = conn ∷ [];
  cancel = none;
  handshaking = true;
  startup_reserved = reserved;
  closed = false;
  close_cause = none;
}

-- The insertion behind the guards of `trackConnection`.
unfoldable pub insert_connection : IntSize → MaxStartupsConfig → ℕ → ServeContext → ServeContext
insert_connection size max_startups conn s =
    let reserved = ltb_ℤ (pos 0) max_startups.full in
    record s {
      heap = store s.heap s.next (accepted conn reserved);
      next = suc s.next;
      connections = s.next ∷ s.connections;
      startups = if reserved then wrap size (s.startups +ℤ pos 1) else s.startups;
    }

-- `none` is `nil`: the connection has been closed instead.
unfoldable pub track_connection :
    IntSize → Option MaxStartupsConfig → ℕ → ℕ → ServeContext → Option ℕ × ServeContext
unfolding insert_connection
track_connection size configured random conn s =
    let max_startups = effective_max_startups configured in
    let drop_rate = max_startups_drop_rate size s.startups max_startups in
    if s.stopping
    then (none, s)
    else if drops drop_rate random
    then (none, s)
    else (some s.next, insert_connection size max_startups conn s)

abbrev pub is_live : ServeContext → ℕ → Bool
is_live s a = member a s.connections && not (s.heap a).closed

unfoldable pub update_connection : ℕ → ℕ → ServeContext → Bool × ServeContext
update_connection a conn s =
    if is_live s a
    then (
      true,
      record s {
        heap = store s.heap a (record (s.heap a) { conn = conn; transports = conn ∷ [] });
      },
    )
    else (false, s)

unfoldable pub update_cancel : ℕ → ℕ → ServeContext → Bool × ServeContext
update_cancel a cancel s =
    if is_live s a
    then (true, record s { heap = store s.heap a (record (s.heap a) { cancel = some cancel }) })
    else (false, s)

abbrev pub is_handshaking : ℕ → ServeContext → Bool
is_handshaking a s = (s.heap a).handshaking

unfoldable pub release_startup : IntSize → ℕ → ServeContext → ServeContext
release_startup size a s =
    let active = s.heap a in
    record s {
      heap = store s.heap a (record active { handshaking = false; startup_reserved = false });
      startups = if active.startup_reserved then wrap size (s.startups -ℤ pos 1) else s.startups;
    }

unfoldable pub untrack_connection : IntSize → ℕ → ServeContext → ServeContext
unfolding release_startup maybe_close_drained
untrack_connection size a s =
    let t = release_startup size a s in
    maybe_close_drained (record t { connections = delete a t.connections })

abbrev pub connection_cause : ℕ → ServeContext → Option ℕ
connection_cause a s = (s.heap a).close_cause

pub record ConnectionCleanup : Type 0 where
  pub active : ℕ
  pub cancel : Option ℕ
  pub transports : List ℕ

-- One turn of the loop of `force` over the connections.
abbrev pub close_active : ℕ → ActiveConn → ActiveConn
close_active cause c = record c {
  closed = true;
  close_cause = some cause;
  startup_reserved = false;
}

-- The loop: the heap, the cleanups, and the number of startups to release.
unfoldable pub close_all :
    ℕ → List ℕ → (ℕ → ActiveConn) → (ℕ → ActiveConn) × List ConnectionCleanup × ℕ
close_all cause [] heap = (heap, [], 0)
close_all cause (a ∷ rest) heap =
    let (heap₁, cleanups, releases) =
      close_all cause rest (store heap a (close_active cause (heap a))) in
    (
      heap₁,
      record { active = a; cancel = (heap a).cancel; transports = (heap a).transports } ∷ cleanups,
      if (heap a).startup_reserved then suc releases else releases,
    )

-- What is done to the outside behind the mutex: `close_resources` is `resources.closeAll`.
pub data Effect : Type 0 where
  run_cancel : (cancel cause : ℕ) → Effect
  close_transport : (conn : ℕ) → Effect
  close_resources : (active : ℕ) → Effect

abbrev pub close_transports : List ℕ → List Effect
close_transports [] = []
close_transports (conn ∷ rest) = close_transport conn ∷ close_transports rest

abbrev pub cancel_first : Option ℕ → ℕ → List Effect → List Effect
cancel_first none cause rest = rest
cancel_first (some cancel) cause rest = run_cancel cancel cause ∷ rest

-- For each cleanup: cancel, close the transports from the last to the first, close the resources.
unfoldable pub clean_up : ℕ → List ConnectionCleanup → List Effect
clean_up cause [] = []
clean_up cause (c ∷ rest) =
    cancel_first c.cancel cause
      (close_transports (reverse c.transports) ++ close_resources c.active ∷ clean_up cause rest)

-- The state behind the loop of `force`.
abbrev pub emptied : IntSize → ℕ → ServeContext → ServeContext
emptied size cause s =
    let closed = close_all cause s.connections s.heap in
    record s {
      forced = true;
      heap = closed.0;
      connections = [];
      startups = wrap size (s.startups -ℤ pos closed.2);
    }

-- The locked part of `force` behind the test of `forced`, and the cleanups behind the lock.
unfoldable pub force_locked : IntSize → ℕ → ServeContext → List Effect × ServeContext
unfolding close_all maybe_close_drained clean_up
force_locked size cause s = (
  clean_up cause ((close_all cause s.connections s.heap).1),
  maybe_close_drained (emptied size cause s),
)

-- The effects, in their order, and the state.
unfoldable pub force : IntSize → Option ℕ → ℕ → ServeContext → List Effect × ServeContext
unfolding stop_accepting force_locked
force size closing cause s =
    let t = (stop_accepting closing s).1 in if t.forced then ([], t) else force_locked size cause t
