-- ===== src/Limiter/Concurrent.antt =====
-- One limiter without a parent under any interleaving. The atomic steps of `reserve` and `release` are
-- an `Add` each: a caller that overshoots gives back in a second step, and others may run in between.
-- Where the limit is not positive, or there is no counter, both leave the counter alone.
use ssh_server_go.Prelude.{
  ℕ, suc, ◌+◌, ◌^◌, ◌≤◌, ◌<◌, ◌≡◌, refl, Bool, true, false, ◌&&◌, Option, is_some, arith,
}
use ssh_server_go.Prelude.Int.{ℤ, pos, negsuc, pos_part}
use ssh_server_go.Limiter.{add64, limited, overshoots}

-- The counter, the callers that hold a reservation, and those between the `Add` that overshot and the
-- one that gives back.
pub record Shared : Type 0 where
  pub counter : ℤ
  pub holders : ℕ
  pub overshot : ℕ

-- `l.limit > 0 && l.active != nil`
abbrev pub counts_callers : ℤ → Option ℕ → Bool
counts_callers limit active = limited limit && is_some active

pub data Step (limit : ℤ) (active : Option ℕ) (s : Shared) : Shared → Type 0 where
  reserved :
      counts_callers limit active ≡ true
      → overshoots limit (add64 s.counter (pos 1)) ≡ false
      → Step limit active s
          (record s { counter = add64 s.counter (pos 1); holders = suc s.holders })
  refused :
      counts_callers limit active ≡ true
      → overshoots limit (add64 s.counter (pos 1)) ≡ true
      → Step limit active s
          (record s { counter = add64 s.counter (pos 1); overshot = suc s.overshot })
  gave_back :
      {n : ℕ}
      → s.overshot ≡ suc n
      → Step limit active s (record s { counter = add64 s.counter (negsuc 0); overshot = n })
  released :
      {n : ℕ}
      → counts_callers limit active ≡ true
      → s.holders ≡ suc n
      → Step limit active s (record s { counter = add64 s.counter (negsuc 0); holders = n })
  reserved_uncounted :
      counts_callers limit active ≡ false
      → Step limit active s (record s { holders = suc s.holders })
  released_uncounted :
      {n : ℕ}
      → counts_callers limit active ≡ false
      → s.holders ≡ suc n
      → Step limit active s (record s { holders = n })

abbrev pub callers : Shared → ℕ
callers s = s.holders + s.overshot

-- Fewer callers at any time than an `int64` can count.
pub data Reach (limit : ℤ) (active : Option ℕ) : Shared → Type 0 where
  start : Reach limit active (record { counter = pos 0; holders = 0; overshot = 0 })
  later :
      {s t : Shared}
      → Reach limit active s
      → callers s + 1 < 2 ^ 63
      → Step limit active s t
      → Reach limit active t

-- A limiter that counts_callers has all its callers in its counter, and no more holders than its limit; one that
-- does not count leaves its counter at 0, and makes nobody give back.
pub data Inv (limit : ℤ) (active : Option ℕ) (s : Shared) : Type 0 where
  counting :
      counts_callers limit active ≡ true
      → s.counter ≡ pos (callers s)
      → s.holders ≤ pos_part limit
      → Inv limit active s
  uncounting :
      counts_callers limit active ≡ false → s.counter ≡ pos 0 → s.overshot ≡ 0 → Inv limit active s

Step-Inv :
    {limit : ℤ} {active : Option ℕ} {s t : Shared}
    → callers s + 1 < 2 ^ 63
    → Step limit active s t
    → Inv limit active s
    → Inv limit active t
unfolding add64
Step-Inv h (reserved c p) (counting c' e b) = counting c (ground arith) (ground arith)
Step-Inv h (reserved c p) (uncounting c' e b) = cc
Step-Inv h (refused c p) (counting c' e b) = counting c (ground arith) (ground arith)
Step-Inv h (refused c p) (uncounting c' e b) = cc
Step-Inv h (gave_back p) (counting c' e b) = counting c' (ground arith) (ground arith)
Step-Inv h (gave_back p) (uncounting c' e b) = cc
Step-Inv h (released c p) (counting c' e b) = counting c (ground arith) (ground arith)
Step-Inv h (released c p) (uncounting c' e b) = cc
Step-Inv h (reserved_uncounted c) (counting c' e b) = cc
Step-Inv h (reserved_uncounted c) (uncounting c' e b) = uncounting c e b
Step-Inv h (released_uncounted c p) (counting c' e b) = cc
Step-Inv h (released_uncounted c p) (uncounting c' e b) = uncounting c e b

start_by :
    (b : Bool) {limit : ℤ} {active : Option ℕ}
    → counts_callers limit active ≡ b
    → Inv limit active (record { counter = pos 0; holders = 0; overshot = 0 })
start_by true h = counting h refl (omega arith)
start_by false h = uncounting h refl refl

-- However callers interleave, while there are always fewer of them than an `int64` can count: where
-- the limit is positive and there is a counter, no more than `limit` callers hold a reservation, and
-- the counter is the number of the holders and of those that are about to give back. Where the limit
-- is not positive, or there is no counter, the counter stays at 0 and nobody has to give back.
pub Reach-Inv :
    {limit : ℤ} {active : Option ℕ} {s : Shared} → Reach limit active s → Inv limit active s
Reach-Inv {limit} {active} start = start_by (counts_callers limit active) refl
Reach-Inv (later r h st) = Step-Inv h st (Reach-Inv r)
