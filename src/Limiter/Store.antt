-- ===== src/Limiter/Store.antt =====
-- Laws of the store of counters.
use mathlib.Core.Path.{fun_ext}
use ssh_server_go.Prelude.{
  ℕ, ◌+◌, ◌^◌, ◌<◌, ◌≡◌, ap, arith, ◌==◌, ==_iff, Bool-cases, inl, inr, false,
}
use ssh_server_go.Prelude.Int.{ℤ, pos, negsuc, pos_part, neg_part}
use ssh_server_go.Limiter.{Counters, set, add64}

-- A count that is not negative, with room for one more in an `int64`.
pub record IsCount (v : ℤ) : Type 0 where
  pub nonneg : neg_part v ≡ 0
  pub small : pos_part v + 1 < 2 ^ 63

pub set-set : (s : Counters) (a : ℕ) (v w : ℤ) → set (set s a v) a w ≡ set s a w
set-set s a v w = fun_ext λ b. ground arith

pub set_self : (s : Counters) (a : ℕ) → set s a (s a) ≡ s
set_self s a = fun_ext λ b. same b
  where
    same : (b : ℕ) → set s a (s a) b ≡ s b
    same b = elim (Bool-cases (a == b)) [ inl e ↦ rw e (ap s ((==_iff a b).0 e)) | inr e ↦ rw e ]

pub set_comm :
    (s : Counters) (a b : ℕ) (v w : ℤ)
    → (a == b) ≡ false
    → set (set s a v) b w ≡ set (set s b w) a v
set_comm s a b v w h = fun_ext λ c. ground arith

pub set_other : (s : Counters) (a b : ℕ) (v : ℤ) → (a == b) ≡ false → set s a v b ≡ s b
set_other s a b v h = rw h

pub set_here : (s : Counters) (a : ℕ) (v : ℤ) → set s a v a ≡ v
set_here s a v = ground arith

pub add64_up : (v : ℤ) → IsCount v → (add64 v (pos 1) ≡ pos (pos_part v + 1))
unfolding add64
add64_up v h = ground arith

pub add64_down : (v : ℤ) → IsCount v → add64 (add64 v (pos 1)) (negsuc 0) ≡ v
unfolding add64
add64_down v h = ground arith
