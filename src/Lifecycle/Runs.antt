-- ===== src/Lifecycle/Runs.antt =====
-- The methods of a `serveContext` in any order: what holds of every state that they lead to.
use ssh_server_go.Prelude.{ℕ, ◌<◌, refl, false, Option, none, List, [], ◌∷◌, arith}
use ssh_server_go.Prelude.Int.{pos, IntSize, half_range}
use ssh_server_go.Startups.{MaxStartupsConfig, effective_max_startups}
use ssh_server_go.Startups.DropRate.{f_of}
use ssh_server_go.Lifecycle.{
  ActiveConn, ServeContext, stop_accepting, track_connection, update_connection, update_cancel,
  release_startup, untrack_connection, force,
}
use ssh_server_go.Lifecycle.Tracked.{reserved_count}
use ssh_server_go.Lifecycle.Invariant.{Inv, stop_accepting-Inv}
use ssh_server_go.Lifecycle.Track.{track_connection-Inv}
use ssh_server_go.Lifecycle.Release.{
  update_connection-Inv, update_cancel-Inv, release_startup-Inv, untrack_connection-Inv,
}
use ssh_server_go.Lifecycle.Forced.{force-Inv}

-- A call, with what the outside gives it: what closing the listener gives, the random number.
pub data Call : Type 0 where
  stop : (closing : Option ℕ) → Call
  track : (random conn : ℕ) → Call
  update : (active conn : ℕ) → Call
  set_cancel : (active cancel : ℕ) → Call
  release : (active : ℕ) → Call
  untrack : (active : ℕ) → Call
  force_close : (closing : Option ℕ) (cause : ℕ) → Call

-- `newServeContext`. No address is in use.
abbrev pub unused : ActiveConn
unused = record {
  conn = 0;
  transports = [];
  cancel = none;
  handshaking = false;
  startup_reserved = false;
  closed = false;
  close_cause = none;
}

abbrev pub new_serve_context : ServeContext
new_serve_context = record {
  heap = λ a. unused;
  next = 0;
  connections = [];
  startups = pos 0;
  stopping = false;
  forced = false;
  drained = false;
  listener_close_error = none;
}

module _ (size : IntSize) (configured : Option MaxStartupsConfig) where
  unfoldable pub apply : Call → ServeContext → ServeContext
  apply (stop closing) s = (stop_accepting closing s).1
  apply (track random conn) s = (track_connection size configured random conn s).1
  apply (update a conn) s = (update_connection a conn s).1
  apply (set_cancel a cancel) s = (update_cancel a cancel s).1
  apply (release a) s = release_startup size a s
  apply (untrack a) s = untrack_connection size a s
  apply (force_close closing cause) s = (force size closing cause s).1

  unfoldable pub run : List Call → ServeContext → ServeContext
  unfolding apply
  run [] s = s
  run (c ∷ cs) s = run cs (apply c s)

  module _ (h : f_of (effective_max_startups configured) < half_range size) where
    pub apply-Inv :
        {s : ServeContext}
        → (c : Call) → Inv (f_of (effective_max_startups configured)) s
        → Inv (f_of (effective_max_startups configured)) (apply c s)
    unfolding apply
    apply-Inv (stop closing) v = stop_accepting-Inv closing v
    apply-Inv (track random conn) v = track_connection-Inv size configured random conn h v
    apply-Inv (update a conn) v = update_connection-Inv a conn v
    apply-Inv (set_cancel a cancel) v = update_cancel-Inv a cancel v
    apply-Inv (release a) v = release_startup-Inv size a h v
    apply-Inv (untrack a) v = untrack_connection-Inv size a h v
    apply-Inv {s = s} (force_close closing cause) v = force-Inv s size closing cause h v

    run_from-Inv :
        {s : ServeContext}
        → (cs : List Call) → Inv (f_of (effective_max_startups configured)) s
        → Inv (f_of (effective_max_startups configured)) (run cs s)
    unfolding run
    run_from-Inv [] v = v
    run_from-Inv {s = s} (c ∷ cs) v = run_from-Inv {s = apply c s} cs (apply-Inv c v)

    new_serve_context-Inv : Inv (f_of (effective_max_startups configured)) new_serve_context
    unfolding reserved_count
    new_serve_context-Inv = record {
      core = record {
        exact = refl;
        bounded = omega arith;
        distinct = tt;
        untracked = λ a. refl;
        fresh = λ a. ground arith;
        forced = refl;
      };
      drained = refl;
    }

    -- Whatever calls are made, in whatever order, the number of startups is that of the tracked
    -- connections that hold one, and never above the configured maximum; a connection that is not
    -- tracked holds none; the drained channel is closed exactly when the server stops and tracks no
    -- connection, and a server that was forced has come to that. The maximum is in the range of `int`.
    pub run-Inv :
        (cs : List Call) → Inv (f_of (effective_max_startups configured)) (run cs new_serve_context)
    run-Inv cs = run_from-Inv cs new_serve_context-Inv
