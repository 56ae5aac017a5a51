-- ===== src/Lifecycle/Invariant.antt =====
-- The well-formed states of a `serveContext`; `maybeCloseDrainedLocked` and `stopAccepting` keep them.
use ssh_server_go.Prelude.{
  ℕ, ◌≤◌, ◌≡◌, refl, Bool, true, not, ◌&&◌, ◌||◌, Option, none, some, arith, ltb, member, is_empty,
}
use ssh_server_go.Prelude.Int.{pos}
use ssh_server_go.Lifecycle.{ServeContext, maybe_close_drained, close_once, stop_accepting}
use ssh_server_go.Lifecycle.Tracked.{reserved_count, Distinct}

abbrev pub tracked : ServeContext → ℕ → Bool
tracked s a = member a s.connections

-- What the fields other than `drained` promise. The limit is the configuration's `full`.
pub record Core (full : ℕ) (s : ServeContext) : Type 0 where
  pub exact : s.startups ≡ pos (reserved_count s.heap s.connections)
  pub bounded : reserved_count s.heap s.connections ≤ full
  pub distinct : Distinct s.connections
  pub untracked : (a : ℕ) → (tracked s a || not (s.heap a).startup_reserved) ≡ true
  pub fresh : (a : ℕ) → (ltb a s.next || not (tracked s a)) ≡ true
  pub forced : (not s.forced || s.stopping && is_empty s.connections) ≡ true

-- A state between the operations: `drained` is closed exactly when the server stops and has no
-- connection left.
pub record Inv (full : ℕ) (s : ServeContext) : Type 0 where
  pub core : Core full s
  pub drained : s.drained ≡ (s.stopping && is_empty s.connections)

-- What `maybeCloseDrainedLocked` starts from.
pub record Unsettled (full : ℕ) (s : ServeContext) : Type 0 where
  pub core : Core full s
  pub drained : (not s.drained || s.stopping && is_empty s.connections) ≡ true

maybe_close_drained-eq :
    (s : ServeContext)
    → (not s.drained || s.stopping && is_empty s.connections) ≡ true
    → maybe_close_drained s ≡ record s { drained = s.stopping && is_empty s.connections }
unfolding maybe_close_drained
maybe_close_drained-eq s h = ground arith

Core-drained :
    {full : ℕ} {s : ServeContext} → (b : Bool) → Core full s → Core full (record s { drained = b })
Core-drained b c = record {
  exact = c.exact;
  bounded = c.bounded;
  distinct = c.distinct;
  untracked = c.untracked;
  fresh = c.fresh;
  forced = c.forced;
}

pub maybe_close_drained-Inv :
    {full : ℕ} {s : ServeContext} → Unsettled full s → Inv full (maybe_close_drained s)
maybe_close_drained-Inv {full = full} {s = s} u =
    rw (maybe_close_drained-eq s u.drained)
      (record { core = Core-drained (s.stopping && is_empty s.connections) u.core; drained = refl })

close_once-Inv :
    {full : ℕ} {s : ServeContext}
    → (kept : Option (Option ℕ)) (closing : Option ℕ) → Inv full s
    → Inv full (close_once kept closing s).1
close_once-Inv (some kept) closing v = v
close_once-Inv none closing v = record {
  core = record {
    exact = v.core.exact;
    bounded = v.core.bounded;
    distinct = v.core.distinct;
    untracked = v.core.untracked;
    fresh = v.core.fresh;
    forced = v.core.forced;
  };
  drained = v.drained;
}

pub stop_accepting-Inv :
    {full : ℕ} {s : ServeContext}
    → (closing : Option ℕ) → Inv full s
    → Inv full (stop_accepting closing s).1
stop_accepting-Inv {full = full} {s = s} closing v =
    unfold stop_accepting in
    close_once-Inv ((maybe_close_drained (record s { stopping = true })).listener_close_error)
      closing
      (maybe_close_drained-Inv {s = record s { stopping = true }} (record {
        core = record {
          exact = v.core.exact;
          bounded = v.core.bounded;
          distinct = v.core.distinct;
          untracked = v.core.untracked;
          fresh = v.core.fresh;
          forced = ground (arith, v.core.forced);
        };
        drained = ground (arith, v.drained);
      }))
