-- ===== src/Lifecycle/Forced.antt =====
-- `force`: the state that it leaves, and what is refused afterwards.
use ssh_server_go.Prelude.{
  ℕ, ◌<◌, ◌≡◌, refl, ap, ◌∙◌, subst, Bool, true, false, not, ◌&&◌, ◌||◌, Option, none, some, List,
  [], ◌∷◌, arith, if◌then◌else◌, Bool-cases, inl, inr, All, is_empty,
}
use ssh_server_go.Prelude.Int.{pos, IntSize, half_range}
use ssh_server_go.Lifecycle.{
  ServeContext, maybe_close_drained, stop_accepting, update_connection, update_cancel, is_live,
  track_connection, close_active, Effect, force_locked, force, emptied, close_once,
}
use ssh_server_go.Startups.{MaxStartupsConfig}
use ssh_server_go.Lifecycle.Closing.{
  effects_of, close_all_tracked, clean_up-close_all, All-member, all_released, no_startups,
}
use ssh_server_go.Lifecycle.Tracked.{reserved_count}
use ssh_server_go.Lifecycle.Invariant.{
  Core, Inv, Unsettled, maybe_close_drained-Inv, stop_accepting-Inv,
}

if_true {ℓ} : {A : Type ℓ} {b : Bool} → (x y : A) → b ≡ true → (if b then x else y) ≡ x
if_true x y p = rw p refl

if_false {ℓ} : {A : Type ℓ} {b : Bool} → (x y : A) → b ≡ false → (if b then x else y) ≡ y
if_false x y p = rw p refl

emptied-Unsettled :
    {full : ℕ}
    → (s : ServeContext) (size : IntSize) (cause : ℕ) → full < half_range size
    → s.stopping ≡ true
    → Core full s
    → Unsettled full (emptied size cause s)
unfolding reserved_count
emptied-Unsettled s size cause h p v = record {
  core = record {
    exact = no_startups size cause s h v;
    bounded = omega arith;
    distinct = tt;
    untracked = λ a. rw (all_released s cause a v) refl;
    fresh = λ a. ground (arith, v.fresh a);
    forced = rw p refl;
  };
  drained = ground (arith, p);
}

force_locked-Inv :
    {full : ℕ}
    → (s : ServeContext) (size : IntSize) (cause : ℕ) → full < half_range size
    → s.stopping ≡ true
    → Inv full s
    → Inv full (force_locked size cause s).1
unfolding force_locked
force_locked-Inv s size cause h p v =
    maybe_close_drained-Inv (emptied-Unsettled s size cause h p v.core)

-- What `stopAccepting` changes and what it leaves.
pub record Stops (s t : ServeContext) : Type 0 where
  pub stopping : t.stopping ≡ true
  pub heap : t.heap ≡ s.heap
  pub connections : t.connections ≡ s.connections
  pub forced : t.forced ≡ s.forced

close_once-Stops :
    {s t : ServeContext}
    → (kept : Option (Option ℕ)) (closing : Option ℕ) → Stops s t
    → Stops s (close_once kept closing t).1
close_once-Stops (some kept) closing v = v
close_once-Stops none closing v = record {
  stopping = v.stopping;
  heap = v.heap;
  connections = v.connections;
  forced = v.forced;
}

-- What closing the channel leaves.
pub maybe_close_drained-same :
    (s : ServeContext)
    → (maybe_close_drained s).heap ≡ s.heap
      × ((maybe_close_drained s).connections ≡ s.connections)
      × ((maybe_close_drained s).forced ≡ s.forced)
      × ((maybe_close_drained s).startups ≡ s.startups)
      × ((maybe_close_drained s).stopping ≡ s.stopping)
unfolding maybe_close_drained
maybe_close_drained-same s = ground arith

pub stop_accepting-Stops :
    (s : ServeContext) (closing : Option ℕ) → Stops s (stop_accepting closing s).1
unfolding stop_accepting
stop_accepting-Stops s closing =
    let t : ServeContext = maybe_close_drained (record s { stopping = true }) in
    let same = maybe_close_drained-same (record s { stopping = true }) in
    close_once-Stops {t = t} t.listener_close_error closing
      (record { stopping = same.4; heap = same.0; connections = same.1; forced = same.2 })

pub force-Inv :
    {full : ℕ}
    → (s : ServeContext) (size : IntSize) (closing : Option ℕ) (cause : ℕ) → full < half_range size
    → Inv full s
    → Inv full (force size closing cause s).1
unfolding force
force-Inv s size closing cause h v = elim (Bool-cases ((stop_accepting closing s).1.forced)) [
  | inl p ↦ rw p (stop_accepting-Inv closing v)
  | inr p ↦ rw p (
      force_locked-Inv (stop_accepting closing s).1 size cause h
        (stop_accepting-Stops s closing).stopping (stop_accepting-Inv closing v))
]

-- What `force` promises where it has not run before.
pub record IsForced (cause : ℕ) (s : ServeContext) (r : List Effect × ServeContext) : Type 0 where
  pub effects : r.0 ≡ effects_of cause s.heap s.connections
  pub closed : All (λ a. r.1.heap a ≡ close_active cause (s.heap a)) s.connections
  pub none_left : r.1.connections ≡ []
  pub no_startup : r.1.startups ≡ pos 0
  pub is_drained : r.1.drained ≡ true
  pub is_forced : r.1.forced ≡ true

drained_of :
    {full : ℕ} {t : ServeContext}
    → Inv full t
    → t.stopping ≡ true
    → t.connections ≡ []
    → t.drained ≡ true
drained_of v p e = v.drained ∙ rw (p, e) refl

IsForced-Stops :
    {cause : ℕ} {s t : ServeContext} {r : List Effect × ServeContext}
    → Stops s t
    → IsForced cause t r
    → IsForced cause s r
IsForced-Stops {cause = cause} {s = s} {t = t} {r = r} st v = record {
  effects =
      v.effects
      ∙ (ap (λ h. effects_of cause h t.connections) st.heap
          ∙ ap (effects_of cause s.heap) st.connections);
  closed =
      subst (λ h. All (λ a. r.1.heap a ≡ close_active cause (h a)) s.connections) st.heap
        (subst (λ xs. All (λ a. r.1.heap a ≡ close_active cause (t.heap a)) xs) st.connections
          v.closed);
  none_left = v.none_left;
  no_startup = v.no_startup;
  is_drained = v.is_drained;
  is_forced = v.is_forced;
}

force_locked-IsForced :
    {full : ℕ}
    → (s : ServeContext) (size : IntSize) (cause : ℕ) → full < half_range size
    → s.stopping ≡ true
    → Inv full s
    → IsForced cause s (force_locked size cause s)
force_locked-IsForced s size cause h p v =
    let same = maybe_close_drained-same (emptied size cause s) in
    let after = force_locked-Inv s size cause h p v in
    unfold force_locked in
    record {
      effects = clean_up-close_all cause s.connections s.heap v.core.distinct;
      closed = All-member s.connections (λ a m.
          ap (λ g. g a) same.0 ∙ close_all_tracked cause s.connections s.heap a v.core.distinct m);
      none_left = same.1;
      no_startup = same.3 ∙ no_startups size cause s h v.core;
      is_drained = drained_of after (same.4 ∙ p) same.1;
      is_forced = same.2;
    }

-- In a well-formed state, with the maximum of the startups in the range of `int`, the first `force`
-- cancels, closes and releases every tracked connection once, in order, leaves none of them tracked and
-- no startup taken, and closes the drained channel.
pub force-IsForced :
    {full : ℕ}
    → (s : ServeContext) (size : IntSize) (closing : Option ℕ) (cause : ℕ) → full < half_range size
    → s.forced ≡ false
    → Inv full s
    → IsForced cause s (force size closing cause s)
unfolding force
force-IsForced s size closing cause h f v =
    let t : ServeContext = (stop_accepting closing s).1 in
    let st : Stops s t = stop_accepting-Stops s closing in
    rw (st.forced ∙ f) (
      IsForced-Stops st
        (force_locked-IsForced t size cause h st.stopping (stop_accepting-Inv closing v)))

is_live-none : (s : ServeContext) (a : ℕ) → s.connections ≡ [] → is_live s a ≡ false
is_live-none s a e = rw e refl

stopped :
    (s : ServeContext)
    → (not s.forced || s.stopping && is_empty s.connections) ≡ true
    → s.forced ≡ true
    → s.stopping ≡ true
stopped s h f = ground arith

emptied_out : (xs : List ℕ) (s : Bool) → (s && is_empty xs) ≡ true → xs ≡ []
emptied_out [] s h = refl
emptied_out (a ∷ xs) s h = ground arith

no_connections : {full : ℕ} (s : ServeContext) → Core full s → s.forced ≡ true → s.connections ≡ []
no_connections s v f = emptied_out s.connections s.stopping (ground (arith, v.forced))

-- In a well-formed state, a server that has been forced tracks no new connection, and a late update of
-- a connection is refused; the state stays as it is.
pub forced_refuses :
    {full : ℕ}
    → (s : ServeContext) (size : IntSize) (configured : Option MaxStartupsConfig)
      (random conn a cancel : ℕ)
    → s.forced ≡ true
    → Inv full s
    → (track_connection size configured random conn s ≡ (none, s))
      × (update_connection a conn s ≡ (false, s))
      × (update_cancel a cancel s ≡ (false, s))
unfolding track_connection update_connection update_cancel
forced_refuses s size configured random conn a cancel f v =
    let live = is_live-none s a (no_connections s v.core f) in
    (if_true _ _ (stopped s v.core.forced f), if_false _ _ live, if_false _ _ live)
