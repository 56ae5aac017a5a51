-- ===== src/Startups/DropRate.antt =====
-- Bounds and monotony of the drop rate.
use native.Mathlib.Nat.{div-le_of_le-mul, le-div_iff_mul-le, div-mul-le_self, le_trans}
use native.Mathlib.Decide.{dec_lt}
use ssh_server_go.Prelude.{
  ℕ, ◌+◌, ◌-◌, ◌*◌, ◌/◌, ◌≤◌, ◌<◌, ◌≡◌, ◌∙◌, ap, Option, none, some, arith, leb, ltb, if◌then◌else◌,
}
use ssh_server_go.Prelude.Int.{
  ℤ, pos, pos_part, neg_part, IntSize, half_range, wrap, wrap-pos, add-pos, sub-pos, mul-pos,
  div-pos, small-lt-half_range, ◌+ℤ◌, ◌-ℤ◌, ◌*ℤ◌, ◌/ℤ◌, ◌≤ℤ◌,
}
use ssh_server_go.Startups.{MaxStartupsConfig, effective_max_startups, ramp, max_startups_drop_rate}

-- Numbers that are not negative, in order, and a percentage.
pub record IsEffective (c : MaxStartupsConfig) : Type 0 where
  pub start : neg_part c.start ≡ 0
  pub rate : neg_part c.rate ≡ 0
  pub full : neg_part c.full ≡ 0
  pub ordered : pos_part c.start ≤ pos_part c.full
  pub percent : pos_part c.rate ≤ 100

-- For every value of the option, `effectiveMaxStartups` returns numbers that are not negative, with
-- the start at most the maximum and the rate at most 100.
pub effective_max_startups-IsEffective :
    (o : Option MaxStartupsConfig) → IsEffective (effective_max_startups o)
unfolding effective_max_startups
effective_max_startups-IsEffective none = ground arith
effective_max_startups-IsEffective (some c) = ground arith

quotient-le : (k x y : ℕ) → x ≤ y → k * x / y ≤ k
quotient-le k x y h = div-le_of_le-mul y (grind arith)

quotient_mono : (k x z y : ℕ) → x ≤ z → 0 < y → k * x / y ≤ k * z / y
quotient_mono k x z y h p =
    (le-div_iff_mul-le p).1 (le_trans (div-mul-le_self (k * x) y) (grind arith))

-- The rate in numbers with no width and no sign.
pub rate_of : (n a r f : ℕ) → ℕ
rate_of n a r f =
    if leb f 0
    then 0
    else if leb f n
    then 100
    else if ltb n a
    then 0
    else if leb f a
    then 0
    else r + (100 - r) * (n - a) / (f - a)

ramp-eq :
    (size : IntSize) (n a r f : ℕ)
    → a ≤ n
    → n < f
    → r ≤ 100
    → 100 * n < half_range size
    → f < half_range size
    → ramp size (pos n) (record { start = pos a; rate = pos r; full = pos f })
      ≡ pos (r + (100 - r) * (n - a) / (f - a))
unfolding ramp
ramp-eq size n a r f h₁ h₂ h₃ h₄ h₅ =
    let k : ℕ = 100 - r in
    let x : ℕ = n - a in
    let y : ℕ = f - a in
    let q : k * x / y ≤ k = quotient-le k x y (omega arith) in
    let product : k * x ≤ 100 * n = grind arith in
    let e₁ : wrap size (pos 100 -ℤ pos r) ≡ pos k =
      ap (wrap size) (sub-pos 100 r h₃)
      ∙ wrap-pos size k (small-lt-half_range size k (omega arith)) in
    let e₂ : wrap size (pos n -ℤ pos a) ≡ pos x =
      ap (wrap size) (sub-pos n a h₁) ∙ wrap-pos size x (omega arith) in
    let e₃ : wrap size (pos f -ℤ pos a) ≡ pos y =
      ap (wrap size) (sub-pos f a (omega arith)) ∙ wrap-pos size y (omega arith) in
    let e₄ : wrap size (◌*ℤ◌ (pos k) (pos x)) ≡ pos (k * x) =
      ap (wrap size) (mul-pos k x) ∙ wrap-pos size (k * x) (omega arith) in
    let e₅ : wrap size (◌/ℤ◌ (pos (k * x)) (pos y)) ≡ pos (k * x / y) =
      ap (wrap size) (div-pos (k * x) y)
      ∙ wrap-pos size (k * x / y) (small-lt-half_range size _ (omega arith)) in
    let e₆ : wrap size (pos r +ℤ pos (k * x / y)) ≡ pos (r + k * x / y) =
      ap (wrap size) (add-pos r (k * x / y))
      ∙ wrap-pos size _ (small-lt-half_range size _ (omega arith)) in
    rw (ramp, e₁, e₂, e₃, e₄, e₅, e₆)

drop_rate-pos :
    (size : IntSize) (n a r f : ℕ)
    → r ≤ 100
    → 100 * n < half_range size
    → f < half_range size
    → max_startups_drop_rate size (pos n) (record { start = pos a; rate = pos r; full = pos f })
      ≡ pos (rate_of n a r f)
unfolding max_startups_drop_rate rate_of
drop_rate-pos size n a r f h₁ h₂ h₃ = ground (arith, ramp-eq size n a r f)

module _ (c : MaxStartupsConfig) where
  abbrev pub a_of : ℕ
  a_of = pos_part c.start

  abbrev pub r_of : ℕ
  r_of = pos_part c.rate

  abbrev pub f_of : ℕ
  f_of = pos_part c.full

-- The configuration's `full`, and a hundredfold count, are in the range of `int`.
pub record NoOverflow (size : IntSize) (n : ℕ) (c : MaxStartupsConfig) : Type 0 where
  pub count : 100 * n < half_range size
  pub full : f_of c < half_range size

drop_rate-rate_of :
    (size : IntSize) (n : ℕ) (c : MaxStartupsConfig)
    → IsEffective c
    → NoOverflow size n c
    → max_startups_drop_rate size (pos n) c ≡ pos (rate_of n (a_of c) (r_of c) (f_of c))
drop_rate-rate_of size n c v o =
    let e : c ≡ record { start = pos (a_of c); rate = pos (r_of c); full = pos (f_of c) } =
      ground arith in
    ap (max_startups_drop_rate size (pos n)) e
    ∙ drop_rate-pos size n (a_of c) (r_of c) (f_of c) v.percent o.count o.full

rate_of-middle :
    (n a r f : ℕ) → r ≤ 100 → a ≤ n → n < f → (r ≤ rate_of n a r f) × (rate_of n a r f ≤ 100)
unfolding rate_of
rate_of-middle n a r f h₁ h₂ h₃ =
    let q : (100 - r) * (n - a) / (f - a) ≤ 100 - r =
      quotient-le (100 - r) (n - a) (f - a) (omega arith) in
    ground arith

rate_of_mono : (n m a r f : ℕ) → r ≤ 100 → n ≤ m → rate_of n a r f ≤ rate_of m a r f
unfolding rate_of
rate_of_mono n m a r f h₁ h₂ = elim (dec_lt m f) [
  | yes p ↦ elim (dec_lt a f) [
    | yes q ↦
        let s : (100 - r) * (n - a) / (f - a) ≤ (100 - r) * (m - a) / (f - a) =
          quotient_mono (100 - r) (n - a) (m - a) (f - a) (omega arith) (omega arith) in
        ground arith
    | no q ↦ ground arith
  ]
  | no p ↦ elim (dec_lt n f) [
    | yes q ↦
        let s : (100 - r) * (n - a) / (f - a) ≤ 100 - r =
          quotient-le (100 - r) (n - a) (f - a) (omega arith) in
        ground arith
    | no q ↦ ground arith
  ]
]

-- The random early drop: what the drop rate is for `n` connections under the limits `a`, `r` and `f`.
pub data Drops (n a r f : ℕ) : ℤ → Type 0 where
  off : f ≡ 0 → Drops n a r f (pos 0)
  hard : 0 < f → f ≤ n → Drops n a r f (pos 100)
  below : n < f → n < a → Drops n a r f (pos 0)
  between : {p : ℕ} → n < f → a ≤ n → r ≤ p → p ≤ 100 → Drops n a r f (pos p)

Drops-eq : {n a r f u v : ℕ} → u ≡ v → Drops n a r f (pos v) → Drops n a r f (pos u)
Drops-eq e d = rw e d

rate_of-off : (n a r f : ℕ) → f ≡ 0 → rate_of n a r f ≡ 0
unfolding rate_of
rate_of-off n a r f h = ground arith

rate_of-hard : (n a r f : ℕ) → 0 < f → f ≤ n → rate_of n a r f ≡ 100
unfolding rate_of
rate_of-hard n a r f h₁ h₂ = ground arith

rate_of-below : (n a r f : ℕ) → n < f → n < a → rate_of n a r f ≡ 0
unfolding rate_of
rate_of-below n a r f h₁ h₂ = ground arith

rate_of-Drops : (n a r f : ℕ) → r ≤ 100 → Drops n a r f (pos (rate_of n a r f))
rate_of-Drops n a r f h = elim (dec_lt 0 f) [
  | no p ↦ Drops-eq (rate_of-off n a r f (omega arith)) (off (omega arith))
  | yes p ↦ elim (dec_lt n f) [
    | no q ↦ Drops-eq (rate_of-hard n a r f p (omega arith)) (hard p (omega arith))
    | yes q ↦ elim (dec_lt n a) [
      | yes l ↦ Drops-eq (rate_of-below n a r f q l) (below q l)
      | no l ↦ let m = rate_of-middle n a r f h (omega arith) q in between q (omega arith) m.0 m.1
    ]
  ]
]

-- Under every configured value, and with no overflow, the drop rate for `n` unauthenticated
-- connections is 0 where the limit is off and below `start`, 100 from `full` on, and between the
-- initial rate and 100 from `start` up to `full`.
pub effective_drop_rate :
    (size : IntSize) (n : ℕ) (o : Option MaxStartupsConfig)
    → NoOverflow size n (effective_max_startups o)
    → Drops n
        (a_of (effective_max_startups o))
        (r_of (effective_max_startups o))
        (f_of (effective_max_startups o))
        (max_startups_drop_rate size (pos n) (effective_max_startups o))
effective_drop_rate size n o h =
    let c : MaxStartupsConfig = effective_max_startups o in
    let v : IsEffective c = effective_max_startups-IsEffective o in
    rw (drop_rate-rate_of size n c v h) (rate_of-Drops n (a_of c) (r_of c) (f_of c) v.percent)

-- Under every configured value, and with no overflow for the larger count, the drop rate never
-- falls when there are more unauthenticated connections.
pub effective_drop_rate_mono :
    (size : IntSize) (n m : ℕ) (o : Option MaxStartupsConfig)
    → n ≤ m
    → NoOverflow size m (effective_max_startups o)
    → max_startups_drop_rate size (pos n) (effective_max_startups o)
      ≤ℤ max_startups_drop_rate size (pos m) (effective_max_startups o)
effective_drop_rate_mono size n m o l h =
    let c : MaxStartupsConfig = effective_max_startups o in
    let v : IsEffective c = effective_max_startups-IsEffective o in
    rw
      (
        drop_rate-rate_of size n c v (record { count = omega (arith, h.count); full = h.full }),
        drop_rate-rate_of size m c v h,
      )
      (omega (arith, rate_of_mono n m (a_of c) (r_of c) (f_of c) v.percent l))
