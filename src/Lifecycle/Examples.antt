-- ===== src/Lifecycle/Examples.antt =====
-- A server with two connections.
use ssh_server_go.Prelude.{◌<◌, ◌≡◌, refl, true, false, Option, none, some, List, [], ◌∷◌, arith}
use ssh_server_go.Prelude.Int.{pos, bits64, wrap, half_range, ◌+ℤ◌, ◌-ℤ◌}
use ssh_server_go.Startups.{MaxStartupsConfig, effective_max_startups, max_startups_drop_rate}
use ssh_server_go.Startups.DropRate.{f_of}
use ssh_server_go.Lifecycle.{
  ServeContext, track_connection, update_connection, update_cancel, release_startup, force,
  run_cancel, close_transport, close_resources,
}
use ssh_server_go.Lifecycle.Invariant.{Inv}
use ssh_server_go.Lifecycle.Forced.{IsForced, force-IsForced, forced_refuses}
use ssh_server_go.Lifecycle.Shutdown.{after_wait, by_timer, after_wait-empty}
use ssh_server_go.Lifecycle.Runs.{
  Call, track, set_cancel, release, force_close, new_serve_context, run, run-Inv,
}

abbrev two_startups : Option MaxStartupsConfig
two_startups = some (record { start = pos 2; rate = pos 100; full = pos 2 })

in_range : f_of (effective_max_startups two_startups) < half_range bits64
unfolding effective_max_startups
in_range = omega arith

abbrev calls : List Call
calls = track 7 40 ∷ track 8 41 ∷ set_cancel 0 90 ∷ track 0 42 ∷ release 1 ∷ []

abbrev busy : ServeContext
busy = run bits64 two_startups calls new_serve_context

-- The third connection is refused: two startups are taken.
two_tracked : busy.connections ≡ 1 ∷ 0 ∷ []
unfolding run track_connection update_cancel release_startup effective_max_startups
    max_startups_drop_rate wrap ◌+ℤ◌ ◌-ℤ◌
two_tracked = refl

one_startup : busy.startups ≡ pos 1
unfolding run track_connection update_cancel release_startup effective_max_startups
    max_startups_drop_rate wrap ◌+ℤ◌ ◌-ℤ◌
one_startup = refl

busy-Inv : Inv 2 busy
unfolding effective_max_startups
busy-Inv = run-Inv bits64 two_startups in_range calls

run-Inv_example : Inv (f_of (effective_max_startups two_startups)) busy
run-Inv_example = run-Inv bits64 two_startups in_range calls

not_forced : busy.forced ≡ false
unfolding run track_connection update_cancel release_startup effective_max_startups
    max_startups_drop_rate wrap ◌+ℤ◌ ◌-ℤ◌
not_forced = refl

-- The connection's cancel function is called before its transport is closed.
effects_in_order :
    (force bits64 none 5 busy).0
    ≡ close_transport 41
      ∷ close_resources 1
      ∷ run_cancel 90 5
      ∷ close_transport 40
      ∷ close_resources 0
      ∷ []
unfolding force run track_connection update_cancel release_startup effective_max_startups
    max_startups_drop_rate wrap ◌+ℤ◌ ◌-ℤ◌
effects_in_order = refl

force-IsForced_example : IsForced 5 busy (force bits64 none 5 busy)
force-IsForced_example = force-IsForced busy bits64 none 5 (omega arith) not_forced busy-Inv

abbrev shut : ServeContext
shut = run bits64 two_startups (track 7 40 ∷ force_close none 5 ∷ []) new_serve_context

shut-Inv : Inv 2 shut
unfolding effective_max_startups
shut-Inv = run-Inv bits64 two_startups in_range (track 7 40 ∷ force_close none 5 ∷ [])

shut_forced : shut.forced ≡ true
unfolding run force track_connection effective_max_startups max_startups_drop_rate wrap ◌+ℤ◌ ◌-ℤ◌
shut_forced = refl

forced_refuses_example :
    (track_connection bits64 two_startups 0 43 shut ≡ (none, shut))
    × (update_connection 0 43 shut ≡ (false, shut))
    × (update_cancel 0 91 shut ≡ (false, shut))
forced_refuses_example = forced_refuses shut bits64 two_startups 0 43 0 91 shut_forced shut-Inv

after_wait-empty_example : (after_wait bits64 none (λ a b. a) 5 6 by_timer busy).1.connections ≡ []
after_wait-empty_example =
    after_wait-empty busy bits64 none (λ a b. a) 5 6 by_timer (omega arith) busy-Inv refl
