-- ===== src/Deadlines/Examples.antt =====
-- Deadlines of which one is not set, and the delay at its limit.
use Prim.Native.Nat.{min}
use ssh_server_go.Prelude.{ℕ, ◌*◌, ◌^◌, ◌≡◌, refl, Option, none, some, List, [], ◌∷◌}
use ssh_server_go.Prelude.Int.{pos}
use ssh_server_go.Deadlines.{earliest_deadline}
use ssh_server_go.Deadlines.Earliest.{NoneBefore, Among, earliest_deadline-NoneBefore}
use ssh_server_go.Deadlines.Retry.{delay_after, delay_after-min}

abbrev deadlines : List (Option ℕ)
deadlines = some 30 ∷ none ∷ some 20 ∷ some 25 ∷ []

picks_twenty : earliest_deadline deadlines ≡ some 20
unfolding earliest_deadline
picks_twenty = refl

earliest_deadline-NoneBefore_example :
    NoneBefore (earliest_deadline deadlines) deadlines
    × Among (earliest_deadline deadlines) deadlines
earliest_deadline-NoneBefore_example = earliest_deadline-NoneBefore deadlines

delay_after-min_example : delay_after 9 ≡ pos (min 1000000000 (5000000 * 2 ^ 8))
delay_after-min_example = delay_after-min 8
