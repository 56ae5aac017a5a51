-- ===== src/Deadlines.antt =====
-- server.go: `earliestDeadline`, and the delay of `waitForRetry`. A `time.Time` is `none` for the zero
-- time, and an instant otherwise.
pub mod Earliest
pub mod Retry
mod Examples
use ssh_server_go.Prelude.{
  ℕ, suc, Bool, true, false, Option, none, some, List, [], ◌∷◌, if◌then◌else◌, ltb,
}
use ssh_server_go.Prelude.Int.{is_zero, ℤ, pos, negsuc, ltb_ℤ, wrap, bits64, ◌*ℤ◌}

-- One turn of the loop.
abbrev pub earlier : Option ℕ → Option ℕ → Option ℕ
earlier result none = result
earlier none (some deadline) = some deadline
earlier (some result) (some deadline) = if ltb deadline result then some deadline else some result

unfoldable pub earliest_from : Option ℕ → List (Option ℕ) → Option ℕ
earliest_from result [] = result
earliest_from result (deadline ∷ deadlines) = earliest_from (earlier result deadline) deadlines

unfoldable pub earliest_deadline : List (Option ℕ) → Option ℕ
unfolding earliest_from
earliest_deadline deadlines = earliest_from none deadlines

-- In nanoseconds.
abbrev pub five_milliseconds : ℤ
five_milliseconds = pos 5000000

abbrev pub second : ℤ
second = pos 1000000000

abbrev pub doubled : ℤ → ℤ
doubled delay = if is_zero delay then five_milliseconds else wrap bits64 (◌*ℤ◌ delay (pos 2))

abbrev pub capped : ℤ → ℤ
capped delay = if ltb_ℤ second delay then second else delay

-- The delay that `waitForRetry` waits for, and leaves for the next call.
unfoldable pub retry_delay : ℤ → ℤ
retry_delay delay = capped (doubled delay)
