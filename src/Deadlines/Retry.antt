-- ===== src/Deadlines/Retry.antt =====
-- The delays of an accept loop that keeps failing.
use Prim.Native.Nat.{min}
use ssh_server_go.Prelude.{ℕ, zero, suc, ◌*◌, ◌^◌, ◌≤◌, ◌<◌, ◌≡◌, refl, ap, ◌∙◌, arith}
use ssh_server_go.Prelude.Int.{ℤ, pos, wrap, wrap-pos, mul-pos, bits64}
use ssh_server_go.Deadlines.{doubled, capped, retry_delay}

-- The delay after `n` calls, from none.
abbrev pub delay_after : ℕ → ℤ
delay_after zero = pos 0
delay_after (suc n) = retry_delay (delay_after n)

capped-pos : (m : ℕ) → capped (pos m) ≡ pos (min 1000000000 m)
capped-pos m = ground arith

doubled-pos : (m : ℕ) → 0 < m → m ≤ 1000000000 → doubled (pos m) ≡ pos (m * 2)
doubled-pos zero p h = absurd (omega (arith, p))
doubled-pos (suc m) p h =
    ap (wrap bits64) (mul-pos (suc m) 2) ∙ wrap-pos bits64 (suc m * 2) (omega arith)

next_delay : (k : ℕ) → 0 < k → retry_delay (pos (min 1000000000 k)) ≡ pos (min 1000000000 (k * 2))
unfolding retry_delay
next_delay k p =
    ap capped (doubled-pos (min 1000000000 k) (omega arith) (omega arith))
    ∙ (capped-pos (min 1000000000 k * 2) ∙ ap pos (omega arith))

power-positive : (n : ℕ) → 0 < 5000000 * 2 ^ n
power-positive zero = omega arith
power-positive (suc n) = grind (arith, power-positive n)

-- After `n + 1` calls in a row, from no delay, the delay is five milliseconds doubled `n` times, or
-- one second where that is more.
pub delay_after-min : (n : ℕ) → delay_after (suc n) ≡ pos (min 1000000000 (5000000 * 2 ^ n))
delay_after-min zero = unfold retry_delay in refl
delay_after-min (suc n) =
    ap retry_delay (delay_after-min n)
    ∙ (next_delay (5000000 * 2 ^ n) (power-positive n) ∙ ap pos (ap (min 1000000000) (grind arith)))
