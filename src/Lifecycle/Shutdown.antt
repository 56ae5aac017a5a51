-- ===== src/Lifecycle/Shutdown.antt =====
-- `shutdown` (lifecycle.go): what it does behind the graceful handler. Other calls may run while the
-- handler runs and while it waits, so each part is a function of the state at that time.
use ssh_server_go.Prelude.{
  ℕ, ◌<◌, ◌≡◌, refl, ◌∙◌, Bool, true, false, ◌&&◌, Option, none, some, List, [], ◌∷◌, is_empty,
  if◌then◌else◌, arith, Bool-cases, inl, inr,
}
use ssh_server_go.Prelude.Int.{ℤ, pos, leb_ℤ, IntSize, half_range}
use ssh_server_go.Lifecycle.{ServeContext, Effect, force}
use ssh_server_go.Lifecycle.Invariant.{Inv}
use ssh_server_go.Lifecycle.Forced.{force-IsForced, stop_accepting-Stops}

-- What `GracefulShutdownHandler` gives: a period or an error; `none` where there is no handler.
pub data Graceful : Type 0 where
  period_of : (period : ℤ) → Graceful
  fails : (id : ℕ) → Graceful

-- What comes next: `force`, with the cause, or to wait for the connections. `join` is `errors.Join`.
pub data Decision : Type 0 where
  force_now : (cause : ℕ) → Decision
  wait_for : (period : ℤ) → Decision

abbrev by_period : ℕ → ℤ → Decision
by_period cause period = if leb_ℤ period (pos 0) then force_now cause else wait_for period

unfoldable pub decide : (ℕ → ℕ → ℕ) → ℕ → Option Graceful → Decision
decide join cause none = by_period cause (pos 0)
decide join cause (some (period_of period)) = by_period cause period
decide join cause (some (fails id)) = force_now (join cause id)

-- The case of the `select` that runs: the channel `drained` is closed, or the timer has fired.
pub data Fired : Type 0 where
  by_drained : Fired
  by_timer : Fired

-- `timeout` is `ErrGracefulShutdownTimeout`.
unfoldable pub after_wait :
    IntSize → Option ℕ → (ℕ → ℕ → ℕ) → ℕ → ℕ → Fired → ServeContext → List Effect × ServeContext
after_wait size closing join cause timeout by_drained s = ([], s)
after_wait size closing join cause timeout by_timer s =
    if is_empty s.connections then ([], s) else force size closing (join cause timeout) s

empty_list : (xs : List ℕ) (b : Bool) → (b && is_empty xs) ≡ true → xs ≡ []
empty_list [] b h = refl
empty_list (a ∷ xs) b h = ground arith

force-empty :
    {full : ℕ}
    → (s : ServeContext) (size : IntSize) (closing : Option ℕ) (cause : ℕ) → full < half_range size
    → Inv full s
    → (force size closing cause s).1.connections ≡ []
force-empty s size closing cause h v = elim (Bool-cases s.forced) [
  | inr f ↦ (force-IsForced s size closing cause h f v).none_left
  | inl f ↦
      let st = stop_accepting-Stops s closing in
      unfold force in
      rw (st.forced ∙ f)
        (st.connections ∙ empty_list s.connections s.stopping (ground (arith, v.core.forced, f)))
]

chosen_empty :
    (b : Bool) (x y : List Effect × ServeContext)
    → (b ≡ true → x.1.connections ≡ [])
    → y.1.connections ≡ []
    → (if b then x else y).1.connections ≡ []
chosen_empty true x y f g = f refl
chosen_empty false x y f g = g

-- The case that is chosen can run.
abbrev pub can_fire : Fired → ServeContext → Bool
can_fire by_drained s = s.drained
can_fire by_timer s = true

-- However the wait ends, when the shutdown has gone through no connection is tracked: the connections
-- had drained, or what was left is forced. The state is well formed, and the maximum of the startups is
-- in the range of `int`.
pub after_wait-empty :
    {full : ℕ}
    → (s : ServeContext) (size : IntSize) (closing : Option ℕ) (join : ℕ → ℕ → ℕ)
      (cause timeout : ℕ) (fired : Fired)
    → full < half_range size
    → Inv full s
    → can_fire fired s ≡ true
    → (after_wait size closing join cause timeout fired s).1.connections ≡ []
unfolding after_wait
after_wait-empty s size closing join cause timeout by_drained h v c =
    empty_list s.connections s.stopping (ground (arith, v.drained, c))
after_wait-empty s size closing join cause timeout by_timer h v c =
    chosen_empty (is_empty s.connections) ([], s) (force size closing (join cause timeout) s)
      (λ e. empty_list s.connections true e) (force-empty s size closing (join cause timeout) h v)
