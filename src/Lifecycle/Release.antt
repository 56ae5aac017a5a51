-- ===== src/Lifecycle/Release.antt =====
-- Updates, `releaseStartup` and `untrackConnection` keep the invariant.
use ssh_server_go.Prelude.{
  ℕ, ◌+◌, ◌-◌, ◌≤◌, ◌<◌, ◌≡◌, refl, sym, ap, ◌∙◌, subst, Bool, true, false, not, ◌||◌, arith, ◌==◌,
  if◌then◌else◌, Bool-cases, inl, inr, ==_iff, member, delete, is_empty-delete, one,
}
use ssh_server_go.Prelude.Int.{ℤ, pos, IntSize, half_range, wrap, wrap-pos, sub-pos, ◌-ℤ◌}
use ssh_server_go.Lifecycle.{
  ActiveConn, ServeContext, store, is_live, update_connection, update_cancel, release_startup,
  untrack_connection,
}
use ssh_server_go.Lifecycle.Tracked.{
  reserved_count, reserved_count-store, reserved_count-member, member-delete, member-delete_other,
  Distinct-delete, reserved_count-delete,
}
use ssh_server_go.Lifecycle.Invariant.{Core, Inv, maybe_close_drained-Inv}

one_less :
    (size : IntSize) (n full k : ℕ)
    → k ≤ n
    → n ≤ full
    → full < half_range size
    → wrap size (pos n -ℤ pos k) ≡ pos (n - k)
one_less size n full k h q p = ap (wrap size) (sub-pos n k h) ∙ wrap-pos size (n - k) (omega arith)

-- A store at one address that leaves the reservation there as it is.
store-Core :
    {full : ℕ} {s : ServeContext}
    → (a : ℕ) (c : ActiveConn) → c.startup_reserved ≡ (s.heap a).startup_reserved
    → Core full s
    → Core full (record s { heap = store s.heap a c })
store-Core {s = s} a c e v =
    let same : reserved_count (store s.heap a c) s.connections
        ≡ reserved_count s.heap s.connections =
      (elim (Bool-cases (member a s.connections)) [
        | inl p ↦ ground (arith, reserved_count-member s.heap a c s.connections v.distinct p)
        | inr p ↦ reserved_count-store s.heap a c s.connections p
      ]) in
    record {
      exact = v.exact ∙ ap pos (sym same);
      bounded = rw same v.bounded;
      distinct = v.distinct;
      untracked = λ b. ground (arith, v.untracked b);
      fresh = v.fresh;
      forced = v.forced;
    }

pub update_connection-Inv :
    {full : ℕ} {s : ServeContext}
    → (a conn : ℕ) → Inv full s
    → Inv full (update_connection a conn s).1
unfolding update_connection
update_connection-Inv {s = s} a conn v = elim (Bool-cases (is_live s a)) [
  | inl p ↦ rw p (record { core = store-Core a _ refl v.core; drained = v.drained })
  | inr p ↦ rw p v
]

pub update_cancel-Inv :
    {full : ℕ} {s : ServeContext}
    → (a cancel : ℕ) → Inv full s
    → Inv full (update_cancel a cancel s).1
unfolding update_cancel
update_cancel-Inv {s = s} a cancel v = elim (Bool-cases (is_live s a)) [
  | inl p ↦ rw p (record { core = store-Core a _ refl v.core; drained = v.drained })
  | inr p ↦ rw p v
]

-- What `releaseStartup` leaves at its address.
abbrev released : ActiveConn → ActiveConn
released c = record c { handshaking = false; startup_reserved = false }

release_count :
    {full : ℕ} {s : ServeContext}
    → (a : ℕ) → Core full s
    → reserved_count (store s.heap a (released (s.heap a))) s.connections
        + one ((s.heap a).startup_reserved)
      ≡ reserved_count s.heap s.connections
release_count {s = s} a v = elim (Bool-cases (member a s.connections)) [
  | inl p ↦
      omega (arith, reserved_count-member s.heap a (released (s.heap a)) s.connections v.distinct p)
  | inr p ↦
      ground
        (arith, v.untracked a, reserved_count-store s.heap a (released (s.heap a)) s.connections p)
]

release_exact :
    (size : IntSize) (full n m : ℕ) (startups : ℤ) (reserved : Bool)
    → full < half_range size
    → n ≤ full
    → startups ≡ pos n
    → m + one reserved ≡ n
    → (if reserved then wrap size (startups -ℤ pos 1) else startups) ≡ pos m
release_exact size full n m startups true h b e c =
    rw e (one_less size n full 1 (omega arith) b h ∙ ap pos (omega arith))
release_exact size full n m startups false h b e c = rw e (ap pos (omega arith))

pub release_startup-Core :
    {full : ℕ} {s : ServeContext}
    → (size : IntSize) (a : ℕ) → full < half_range size
    → Core full s
    → Core full (release_startup size a s)
unfolding release_startup
release_startup-Core {full = full} {s = s} size a h v =
    let count = release_count a v in
    record {
      exact =
          release_exact size full (reserved_count s.heap s.connections) _ s.startups
            ((s.heap a).startup_reserved) h v.bounded v.exact count;
      bounded = omega (arith, count, v.bounded);
      distinct = v.distinct;
      untracked = λ b. ground (arith, v.untracked b);
      fresh = v.fresh;
      forced = v.forced;
    }

delete-Core :
    {full : ℕ} {s : ServeContext}
    → (a : ℕ) → (s.heap a).startup_reserved ≡ false
    → Core full s
    → Core full (record s { connections = delete a s.connections })
delete-Core {s = s} a e v =
    let same = reserved_count-delete s.heap a s.connections e in
    record {
      exact = v.exact ∙ ap pos (sym same);
      bounded = rw same v.bounded;
      distinct = Distinct-delete a s.connections v.distinct;
      untracked = λ b. (elim (Bool-cases (b == a)) [
        | inl q ↦
            subst
              (λ z. (member z (delete a s.connections) || not (s.heap z).startup_reserved) ≡ true)
              (sym ((==_iff b a).0 q)) (rw e (ground arith))
        | inr q ↦ rw (member-delete_other a b s.connections q) (v.untracked b)
      ]);
      fresh = λ b. (elim (Bool-cases (member b s.connections)) [
        | inl q ↦ ground (arith, v.fresh b)
        | inr q ↦ rw (member-delete a b s.connections q) (ground arith)
      ]);
      forced = ground (arith, v.forced, is_empty-delete a s.connections);
    }

pub untrack_connection-Inv :
    {full : ℕ} {s : ServeContext}
    → (size : IntSize) (a : ℕ) → full < half_range size
    → Inv full s
    → Inv full (untrack_connection size a s)
untrack_connection-Inv {full = full} {s = s} size a h v =
    unfold untrack_connection in
    maybe_close_drained-Inv (record {
      core =
          delete-Core a (unfold release_startup in ground arith)
            (release_startup-Core size a h v.core);
      drained =
          unfold release_startup in ground (arith, v.drained, is_empty-delete a s.connections);
    })

pub release_startup-Inv :
    {full : ℕ} {s : ServeContext}
    → (size : IntSize) (a : ℕ) → full < half_range size
    → Inv full s
    → Inv full (release_startup size a s)
release_startup-Inv size a h v = record {
  core = release_startup-Core size a h v.core;
  drained = unfold release_startup in v.drained;
}
