-- ===== src/Startups/Examples.antt =====
-- Concrete configurations.
use ssh_server_go.Prelude.{◌≡◌, refl, none, some, arith, Option}
use ssh_server_go.Prelude.Int.{pos, negsuc, bits32, ◌≤ℤ◌, bits64, wrap, ◌+ℤ◌, ◌/ℤ◌, ◌*ℤ◌, ◌-ℤ◌}
use ssh_server_go.Startups.{
  MaxStartupsConfig, default_config, disabled, effective_max_startups, max_startups_drop_rate, ramp,
}
use ssh_server_go.Startups.DropRate.{
  NoOverflow, Drops, effective_drop_rate, effective_drop_rate_mono,
}

-- The start lies above the limit and the rate above 100.
abbrev crooked : Option MaxStartupsConfig
crooked = some (record { start = pos 40; rate = pos 250; full = pos 20 })

straightened :
    effective_max_startups crooked ≡ record { start = pos 20; rate = pos 100; full = pos 20 }
unfolding effective_max_startups
straightened = refl

turned_off :
    effective_max_startups (some (record { start = pos 3; rate = pos 5; full = negsuc 0 }))
    ≡ disabled
unfolding effective_max_startups
turned_off = refl

half_way : max_startups_drop_rate bits64 (pos 55) default_config ≡ pos 65
unfolding max_startups_drop_rate ramp wrap ◌+ℤ◌ ◌/ℤ◌ ◌*ℤ◌ ◌-ℤ◌
half_way = refl

-- With 32 bits the product wraps on a large count.
wraps_on_32_bits :
    max_startups_drop_rate bits32
      (pos 30000000)
      (record { start = pos 0; rate = pos 0; full = pos 40000000 })
    ≡ negsuc 31
unfolding max_startups_drop_rate ramp wrap ◌+ℤ◌ ◌/ℤ◌ ◌*ℤ◌ ◌-ℤ◌
wraps_on_32_bits = refl

fits : NoOverflow bits64 50 (effective_max_startups none)
unfolding effective_max_startups
fits = record { count = omega arith; full = omega arith }

effective_drop_rate_example :
    Drops 50 10 30 100 (max_startups_drop_rate bits64 (pos 50) default_config)
unfolding effective_max_startups
effective_drop_rate_example = effective_drop_rate bits64 50 none fits

effective_drop_rate_mono_example :
    max_startups_drop_rate bits64 (pos 20) (effective_max_startups none)
    ≤ℤ max_startups_drop_rate bits64 (pos 50) (effective_max_startups none)
effective_drop_rate_mono_example = effective_drop_rate_mono bits64 20 50 none (omega arith) fits
