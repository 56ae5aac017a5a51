-- ===== src/Limiter.antt =====
-- server.go: `resourceLimiter` and `connectionChannelLimiter`, with `configuredLimit` and
-- `configuredDuration`. An `atomic.Int64` is an address in a store, so that limiters can share one.
pub mod Store
pub mod Sequential
pub mod Concurrent
mod Examples
use ssh_server_go.Prelude.{
  ℕ, Bool, true, false, Option, none, some, ◌&&◌, if◌then◌else◌, ◌==◌, is_some,
}
use ssh_server_go.Prelude.Int.{ℤ, pos, negsuc, ltb_ℤ, leb_ℤ, wrap, bits64, ◌+ℤ◌}

abbrev pub Counters : Type 0
Counters = ℕ → ℤ

abbrev pub set : Counters → ℕ → ℤ → Counters
set s a v b = if a == b then v else s b

-- `Add` of an `atomic.Int64`: the new value wraps at 64 bits.
unfoldable pub add64 : ℤ → ℤ → ℤ
unfolding wrap ◌+ℤ◌
add64 v d = wrap bits64 (v +ℤ d)

abbrev pub add : Counters → ℕ → ℤ → Counters
add s a d = set s a (add64 (s a) d)

-- `nil` is the nil pointer; the fields are `limit`, `active` (`none` for nil) and `parent`.
pub data ResourceLimiter : Type 0 where
  nil : ResourceLimiter
  limiter : (limit : ℤ) → (active : Option ℕ) → (parent : ResourceLimiter) → ResourceLimiter

abbrev pub limited : ℤ → Bool
limited limit = ltb_ℤ (pos 0) limit

-- The test `l.active.Add(1) > l.limit`, on the new value.
abbrev pub overshoots : ℤ → ℤ → Bool
overshoots limit new = ltb_ℤ limit new

-- Behind the parent's answer: give back what was reserved here.
abbrev give_back : ℕ → Bool × Counters → Bool × Counters
give_back a r = if r.0 then (true, r.1) else (false, add r.1 a (negsuc 0))

unfoldable pub reserve : ResourceLimiter → Counters → Bool × Counters
reserve nil s = (true, s)
reserve (limiter limit none parent) s = reserve parent s
reserve (limiter limit (some a) parent) s =
    let counted = add s a (pos 1) in
    let here = reserve parent counted in
    let above = reserve parent s in
    if limited limit
    then if overshoots limit (counted a)
      then (false, add counted a (negsuc 0))
      else give_back a here
    else above

unfoldable pub release : ResourceLimiter → Counters → Counters
release nil s = s
release (limiter limit none parent) s = release parent s
release (limiter limit (some a) parent) s =
    release parent (if limited limit then add s a (negsuc 0) else s)

-- A connection's own counter is at the address `active`.
pub record ConnectionChannelLimiter : Type 0 where
  pub limit : ℤ
  pub active : ℕ
  pub global : ResourceLimiter

global_reserve : ConnectionChannelLimiter → Counters → Bool × Counters
global_reserve l s =
    let r = reserve l.global s in
    if r.0
    then (true, r.1)
    else (false, if limited l.limit then add r.1 l.active (negsuc 0) else r.1)

unfoldable pub reserve_channel : Option ConnectionChannelLimiter → Counters → Bool × Counters
unfolding global_reserve
reserve_channel none s = (true, s)
reserve_channel (some l) s =
    let counted = add s l.active (pos 1) in
    if limited l.limit
    then if overshoots l.limit (counted l.active)
      then (false, add counted l.active (negsuc 0))
      else global_reserve l counted
    else global_reserve l s

unfoldable pub release_channel : Option ConnectionChannelLimiter → Counters → Counters
release_channel none s = s
release_channel (some l) s =
    release l.global (if limited l.limit then add s l.active (negsuc 0) else s)

-- `nil` is the default, and a value that is not positive is no limit.
unfoldable pub configured_limit : Option ℤ → ℤ → ℤ
configured_limit none default = default
configured_limit (some value) default = if leb_ℤ value (pos 0) then pos 0 else value

unfoldable pub configured_duration : Option ℤ → ℤ → ℤ
configured_duration none default = default
configured_duration (some value) default = if leb_ℤ value (pos 0) then pos 0 else value
