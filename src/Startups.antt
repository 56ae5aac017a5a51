-- ===== src/Startups.antt =====
-- server.go: the limit on concurrent unauthenticated connections, `MaxStartupsConfig`,
-- `effectiveMaxStartups` and `maxStartupsDropRate`. The arithmetic is that of `int`, and wraps.
pub mod DropRate
mod Examples
use ssh_server_go.Prelude.{ℕ, Bool, Option, none, some, if◌then◌else◌}
use ssh_server_go.Prelude.Int.{ℤ, pos, leb_ℤ, ltb_ℤ, IntSize, wrap, ◌+ℤ◌, ◌-ℤ◌, ◌*ℤ◌, ◌/ℤ◌}

pub record MaxStartupsConfig : Type 0 where
  pub start : ℤ
  pub rate : ℤ
  pub full : ℤ

abbrev pub disabled : MaxStartupsConfig
disabled = record { start = pos 0; rate = pos 0; full = pos 0 }

abbrev pub default_config : MaxStartupsConfig
default_config = record { start = pos 10; rate = pos 30; full = pos 100 }

clamp_start : MaxStartupsConfig → MaxStartupsConfig
clamp_start c = if ltb_ℤ c.start (pos 0) then record c { start = pos 0 } else c

cap_start : MaxStartupsConfig → MaxStartupsConfig
cap_start c = if ltb_ℤ c.full c.start then record c { start = c.full } else c

clamp_rate : MaxStartupsConfig → MaxStartupsConfig
clamp_rate c =
    if ltb_ℤ c.rate (pos 0)
    then record c { rate = pos 0 }
    else if ltb_ℤ (pos 100) c.rate
    then record c { rate = pos 100 }
    else c

-- The argument is `srv.MaxStartups`, `none` for `nil`.
unfoldable pub effective_max_startups : Option MaxStartupsConfig → MaxStartupsConfig
unfolding clamp_start cap_start clamp_rate
effective_max_startups none = default_config
effective_max_startups (some c) =
    if leb_ℤ c.full (pos 0) then disabled else clamp_rate (cap_start (clamp_start c))

unfoldable pub ramp : IntSize → ℤ → MaxStartupsConfig → ℤ
ramp size current c =
    let share = wrap size (◌*ℤ◌ (wrap size (pos 100 -ℤ c.rate)) (wrap size (current -ℤ c.start))) in
    wrap size (c.rate +ℤ wrap size (◌/ℤ◌ share (wrap size (c.full -ℤ c.start))))

unfoldable pub max_startups_drop_rate : IntSize → ℤ → MaxStartupsConfig → ℤ
max_startups_drop_rate size current c =
    if leb_ℤ c.full (pos 0)
    then pos 0
    else if leb_ℤ c.full current
    then pos 100
    else if ltb_ℤ current c.start
    then pos 0
    else if leb_ℤ c.full c.start
    then pos 0
    else ramp size current c
