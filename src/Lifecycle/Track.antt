-- ===== src/Lifecycle/Track.antt =====
-- `trackConnection` keeps the invariant: a startup is only taken below the limit.
use ssh_server_go.Prelude.{
  ℕ, ◌+◌, ◌<◌, ◌≡◌, refl, ap, ◌∙◌, subst, Bool, true, false, not, ◌&&◌, ◌||◌, Option, none, some,
  arith, ltb, if◌then◌else◌, Bool-cases, inl, inr, member, is_empty, one,
}
use ssh_server_go.Prelude.Int.{ℤ, pos, ltb_ℤ, IntSize, half_range, wrap, wrap-pos, add-pos, ◌+ℤ◌}
use ssh_server_go.Startups.{MaxStartupsConfig, effective_max_startups, max_startups_drop_rate}
use ssh_server_go.Startups.DropRate.{f_of}
use ssh_server_go.Lifecycle.{
  ActiveConn, ServeContext, store, drops, accepted, insert_connection, track_connection,
}
use ssh_server_go.Lifecycle.Tracked.{reserved_count, reserved_count-store}
use ssh_server_go.Lifecycle.Invariant.{Core, Inv}

room :
    (size : IntSize) (n random : ℕ) (c : MaxStartupsConfig)
    → drops (max_startups_drop_rate size (pos n) c) random ≡ false
    → ltb_ℤ (pos 0) c.full ≡ true
    → n < f_of c
unfolding max_startups_drop_rate
room size n random c h p = ground arith

one_more :
    (size : IntSize) (n full : ℕ)
    → n < full
    → full < half_range size
    → wrap size (pos n +ℤ pos 1) ≡ pos (1 + n)
one_more size n full h p =
    ap (wrap size) (add-pos n 1) ∙ (wrap-pos size (n + 1) (omega arith) ∙ ap pos (omega arith))

insert_exact :
    (size : IntSize) (full n : ℕ) (startups : ℤ) (reserved : Bool)
    → full < half_range size
    → (not reserved || ltb n full) ≡ true
    → startups ≡ pos n
    → (if reserved then wrap size (startups +ℤ pos 1) else startups) ≡ pos (one reserved + n)
insert_exact size full n startups true h r e = rw e (one_more size n full (ground arith) h)
insert_exact size full n startups false h r e = rw e (ap pos (omega arith))

store_here : (h : ℕ → ActiveConn) (a : ℕ) (c : ActiveConn) → store h a c a ≡ c
store_here h a c = ground arith

insert_connection-Core :
    {s : ServeContext}
    → (size : IntSize) (c : MaxStartupsConfig) (conn : ℕ) → f_of c < half_range size
    → (not (ltb_ℤ (pos 0) c.full) || ltb (reserved_count s.heap s.connections) (f_of c)) ≡ true
    → s.stopping ≡ false
    → Core (f_of c) s
    → Core (f_of c) (insert_connection size c conn s)
unfolding insert_connection reserved_count
insert_connection-Core {s = s} size c conn h r p v =
    let new : member s.next s.connections ≡ false = ground (arith, v.fresh s.next) in
    let same =
      reserved_count-store s.heap s.next (accepted conn (ltb_ℤ (pos 0) c.full)) s.connections new in
    record {
      exact =
          insert_exact size (f_of c) (reserved_count s.heap s.connections) s.startups
            (ltb_ℤ (pos 0) c.full) h r v.exact
          ∙ rw (store_here s.heap s.next (accepted conn (ltb_ℤ (pos 0) c.full)), same) refl;
      bounded = ground (arith, same, v.bounded);
      distinct = (new, v.distinct);
      untracked = λ a. ground (arith, v.untracked a);
      fresh = λ a. ground (arith, v.fresh a);
      forced = ground (arith, v.forced);
    }

room_test :
    {n : ℕ} {startups : ℤ}
    → (size : IntSize) (random : ℕ) (c : MaxStartupsConfig) → startups ≡ pos n
    → drops (max_startups_drop_rate size startups c) random ≡ false
    → (not (ltb_ℤ (pos 0) c.full) || ltb n (f_of c)) ≡ true
room_test {n = n} size random c e q = elim (Bool-cases (ltb_ℤ (pos 0) c.full)) [
  | inl f ↦ ground (
    arith,
    room size n random c (subst (λ z. drops (max_startups_drop_rate size z c) random ≡ false) e q)
        f,
  )
  | inr f ↦ ground arith
]

insert_connection-drained :
    (s : ServeContext) (size : IntSize) (c : MaxStartupsConfig) (conn : ℕ)
    → s.stopping ≡ false
    → s.drained ≡ (s.stopping && is_empty s.connections)
    → (insert_connection size c conn s).drained
      ≡ ((insert_connection size c conn s).stopping && false)
unfolding insert_connection
insert_connection-drained s size c conn p d = ground arith

guarded :
    {full : ℕ}
    → (p q : Bool) (x y : Option ℕ × ServeContext) → Inv full x.1
    → (p ≡ false → q ≡ false → Inv full y.1)
    → Inv full (if p then x else if q then x else y).1
guarded true q x y f g = f
guarded false true x y f g = f
guarded false false x y f g = g refl refl

pub track_connection-Inv :
    {s : ServeContext}
    → (size : IntSize) (configured : Option MaxStartupsConfig) (random conn : ℕ)
    → f_of (effective_max_startups configured) < half_range size
    → Inv (f_of (effective_max_startups configured)) s
    → Inv
        (f_of (effective_max_startups configured))
        (track_connection size configured random conn s).1
unfolding track_connection
track_connection-Inv {s = s} size configured random conn h v =
    let c = effective_max_startups configured in
    guarded s.stopping (drops (max_startups_drop_rate size s.startups c) random) (none, s)
      (some s.next, insert_connection size c conn s) v
      (λ p q. record {
        core =
            insert_connection-Core size c conn h (room_test size random c v.core.exact q) p v.core;
        drained = insert_connection-drained s size c conn p v.drained;
      })
