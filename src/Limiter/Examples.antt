-- ===== src/Limiter/Examples.antt =====
-- Concrete limiters.
use ssh_server_go.Prelude.{◌≡◌, refl, true, some, arith}
use ssh_server_go.Prelude.Int.{pos, wrap}
use ssh_server_go.Limiter.{
  Counters, set, add64, ResourceLimiter, nil, limiter, reserve, release, ConnectionChannelLimiter,
}
use ssh_server_go.Limiter.Sequential.{
  levels, IsReady, all_or_nothing, reserve-all_or_nothing, release-reserve,
}
use ssh_server_go.Limiter.Concurrent.{
  Shared, reserved, refused, Reach, start, later, Inv, Reach-Inv,
}

-- A connection's limit of 2 under a server's limit of 5.
abbrev chain : ResourceLimiter
chain = limiter (pos 2) (some 0) (limiter (pos 5) (some 1) nil)

abbrev counted : Counters
counted = set (set (λ a. pos 0) 1 (pos 4)) 0 (pos 1)

ready : IsReady chain counted
unfolding levels
ready = record { distinct = ((refl, tt), (tt, tt)); counts = (ground arith, (ground arith, tt)) }

takes_both : (reserve chain counted).0 ≡ true
unfolding reserve add64 wrap
takes_both = refl

-- The server is full: the connection's count is given back.
server_full : (reserve chain (set counted 1 (pos 5))).1 0 ≡ pos 1
unfolding reserve add64 wrap
server_full = refl

reserve-all_or_nothing_example : reserve chain counted ≡ all_or_nothing (levels chain) counted
reserve-all_or_nothing_example = reserve-all_or_nothing chain counted ready

release-reserve_example : release chain (reserve chain counted).1 ≡ counted
release-reserve_example = release-reserve chain counted ready takes_both

abbrev channels : ConnectionChannelLimiter
channels = record { limit = pos 2; active = 0; global = limiter (pos 5) (some 1) nil }

-- One holds the only reservation, and another has just been refused.
abbrev contended : Shared
contended = record { counter = add64 (add64 (pos 0) (pos 1)) (pos 1); holders = 1; overshot = 1 }

contended-Reach : Reach (pos 1) (some 0) contended
unfolding add64 wrap
contended-Reach =
    later (later start (omega arith) (reserved refl refl)) (omega arith) (refused refl refl)

Reach-Inv_example : Inv (pos 1) (some 0) contended
Reach-Inv_example = Reach-Inv contended-Reach
