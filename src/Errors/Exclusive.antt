-- ===== src/Errors/Exclusive.antt =====
-- `exclusiveSessionExitError` against the leaves of the tree.
use ssh_server_go.Prelude.{
  ℕ, ◌≡◌, ◌↔◌, true, none, some, List, [], ◌∷◌, ◌++◌, arith, length, Option-cases, append-nil, inl,
  inr, ap, ◌<◌,
}
use ssh_server_go.Errors.{
  Error, plain, exit_error, located, wrapped, joined, Errors, nil, cons, SessionExitError,
  exclusive, exclusive_children, exclusive_session_exit_error,
}
use ssh_server_go.Errors.Leaves.{
  leaves, leaves_of, joins_some, all_join_some, leaves-pos, leaves_of-nil,
}

-- The tree has one leaf, and that is the exit error `x`.
abbrev pub IsOnlyExit : List Error → SessionExitError → Type 0
IsOnlyExit ls x = (id : ℕ) × (ls ≡ exit_error id x ∷ [])

split_single :
    (xs ys : List Error) (a : Error) → 0 < length xs → xs ++ ys ≡ a ∷ [] → (xs ≡ a ∷ []) × (ys ≡ [])
split_single [] ys a h e = absurd (omega arith)
split_single (x ∷ []) ys a h e = ground arith
split_single (x ∷ y ∷ xs) ys a h e = cc

children_done :
    (r x : SessionExitError) (es : Errors)
    → exclusive_children (some r) es ≡ some x
    → (es ≡ nil) × (r ≡ x)
unfolding exclusive_children
children_done r x nil h = ground arith
children_done r x (cons e es) h = cc

mutual
  unfolding exclusive leaves joins_some

  exclusive-leaves :
      (e : Error) (x : SessionExitError)
      → joins_some e ≡ true
      → exclusive e ≡ some x
      → IsOnlyExit (leaves e) x
  exclusive-leaves (plain id) x h p = cc
  exclusive-leaves (exit_error id y) x h p = (id, ground arith)
  exclusive-leaves (located id s o e) x h p = exclusive-leaves e x h p
  exclusive-leaves (wrapped id e) x h p = exclusive-leaves e x h p
  exclusive-leaves (joined id nil) x h p = cc
  exclusive-leaves (joined id (cons e es)) x h p = exclusive-leaves_of (cons e es) x h p

  exclusive-leaves_of :
      (es : Errors) (x : SessionExitError)
      → all_join_some es ≡ true
      → exclusive_children none es ≡ some x
      → IsOnlyExit (leaves_of es) x
  exclusive-leaves_of nil x h p = cc
  exclusive-leaves_of (cons e es) x h p = elim (Option-cases (exclusive e)) [
    | inl q ↦ absurd (ground arith)
    | inr (y, q) ↦
        let d = children_done y x es (ground arith) in
        let (i, l) = exclusive-leaves e y (ground arith) q in
        (i, rw (d.0, leaves_of) (rw append-nil (rw (← d.1) l)))
  ]

mutual
  unfolding exclusive leaves joins_some

  leaves-exclusive :
      (e : Error) (x : SessionExitError)
      → joins_some e ≡ true
      → IsOnlyExit (leaves e) x
      → exclusive e ≡ some x
  leaves-exclusive (plain id) x h p = absurd (ground (arith, p.1))
  leaves-exclusive (exit_error id y) x h p = ground (arith, p.1)
  leaves-exclusive (located id s o e) x h p = leaves-exclusive e x h p
  leaves-exclusive (wrapped id e) x h p = leaves-exclusive e x h p
  leaves-exclusive (joined id nil) x h p = cc
  leaves-exclusive (joined id (cons e es)) x h p = leaves_of-exclusive (cons e es) x h p

  leaves_of-exclusive :
      (es : Errors) (x : SessionExitError)
      → all_join_some es ≡ true
      → IsOnlyExit (leaves_of es) x
      → exclusive_children none es ≡ some x
  leaves_of-exclusive nil x h p = absurd (ground (arith, p.1))
  leaves_of-exclusive (cons e es) x h (i, p) =
      let s =
        split_single (leaves e) (leaves_of es) (exit_error i x) (leaves-pos e (ground arith)) p in
      let q : exclusive e ≡ some x = leaves-exclusive e x (ground arith) (i, s.0) in
      let n : es ≡ nil = leaves_of-nil es (ground arith) (ap length s.1) in rw (n, q)

-- A handler's error is a controlled exit exactly when the `SessionExitError` is its only leaf: wrapping
-- keeps it one, and joining anything to it does not. Each joined error in the tree joins something.
pub exclusive_session_exit_error_iff :
    (e : Error) (x : SessionExitError)
    → joins_some e ≡ true
    → (exclusive_session_exit_error (some e) ≡ some x) ↔ IsOnlyExit (leaves e) x
unfolding exclusive_session_exit_error
exclusive_session_exit_error_iff e x h = (exclusive-leaves e x h, leaves-exclusive e x h)
