-- ===== src/Errors/Leaves.antt =====
-- `isOnlyError` against the leaves of the tree.
use ssh_server_go.Prelude.{
  ◌≡◌, refl, ◌↔◌, Bool, true, false, ◌&&◌, some, List, [], ◌∷◌, ◌++◌, arith, All, length, ◌<◌,
  length-append,
}
use ssh_server_go.Errors.{
  Error, plain, exit_error, located, wrapped, joined, Errors, nil, cons, id_of, is, is_only,
  is_only_all, is_only_error,
}

-- The errors that wrap nothing, from left to right.
unfoldable mutual
  pub leaves : Error → List Error
  leaves (plain id) = plain id ∷ []
  leaves (exit_error id x) = exit_error id x ∷ []
  leaves (located id s o e) = leaves e
  leaves (wrapped id e) = leaves e
  leaves (joined id es) = leaves_of es

  pub leaves_of : Errors → List Error
  leaves_of nil = []
  leaves_of (cons e es) = leaves e ++ leaves_of es

-- Every joined error joins something, as those do that `errors.Join` returns.
unfoldable mutual
  pub joins_some : Error → Bool
  joins_some (plain id) = true
  joins_some (exit_error id x) = true
  joins_some (located id s o e) = joins_some e
  joins_some (wrapped id e) = joins_some e
  joins_some (joined id nil) = false
  joins_some (joined id (cons e es)) = joins_some e && all_join_some es

  pub all_join_some : Errors → Bool
  all_join_some nil = true
  all_join_some (cons e es) = joins_some e && all_join_some es

abbrev pub HasId : Error → Error → Type 0
HasId target e = id_of e ≡ id_of target

All-split :
    (target : Error) (xs ys : List Error)
    → All (HasId target) (xs ++ ys) ↔ (All (HasId target) xs × All (HasId target) ys)
All-split target [] ys = ((λ h. (tt, h)), (λ h. h.1))
All-split target (x ∷ xs) ys =
    let r = All-split target xs ys in
    ((λ h. ((h.0, (r.0 h.1).0), (r.0 h.1).1)), (λ h. (h.0.0, r.1 (h.0.1, h.1))))

and-true : (a b : Bool) → ((a && b) ≡ true) ↔ ((a ≡ true) × (b ≡ true))
and-true a b = ground arith

join_iff :
    (a b : Bool) (target : Error) (xs ys : List Error)
    → ((a ≡ true) ↔ All (HasId target) xs)
    → ((b ≡ true) ↔ All (HasId target) ys)
    → ((a && b) ≡ true) ↔ All (HasId target) (xs ++ ys)
join_iff a b target xs ys p q = (
  (λ h. let c = (and-true a b).0 h in (All-split target xs ys).1 (p.0 c.0, q.0 c.1)),
  (λ h. let c = (All-split target xs ys).0 h in (and-true a b).1 (p.1 c.0, q.1 c.1)),
)

mutual
  unfolding is_only is leaves joins_some id_of

  is_only_iff :
      (e target : Error)
      → joins_some e ≡ true
      → (is_only e target ≡ true) ↔ All (HasId target) (leaves e)
  is_only_iff (plain id) target h = ground arith
  is_only_iff (exit_error id x) target h = ground arith
  is_only_iff (located id s o e) target h = is_only_iff e target h
  is_only_iff (wrapped id e) target h = is_only_iff e target h
  is_only_iff (joined id nil) target h = cc
  is_only_iff (joined id (cons e es)) target h =
      let c = (and-true (joins_some e) (all_join_some es)).0 h in
      join_iff (is_only e target) (is_only_all es target) target (leaves e) (leaves_of es)
        (is_only_iff e target c.0) (is_only_all_iff es target c.1)

  is_only_all_iff :
      (es : Errors) (target : Error)
      → all_join_some es ≡ true
      → (is_only_all es target ≡ true) ↔ All (HasId target) (leaves_of es)
  is_only_all_iff nil target h = ground arith
  is_only_all_iff (cons e es) target h =
      let c = (and-true (joins_some e) (all_join_some es)).0 h in
      join_iff (is_only e target) (is_only_all es target) target (leaves e) (leaves_of es)
        (is_only_iff e target c.0) (is_only_all_iff es target c.1)

-- `isOnlyError` holds exactly when every leaf of the error tree is the target. Each joined error in
-- the tree joins something.
pub is_only_error_iff :
    (e target : Error)
    → joins_some e ≡ true
    → (is_only_error (some e) (some target) ≡ true) ↔ All (HasId target) (leaves e)
unfolding is_only_error
is_only_error_iff e target h = is_only_iff e target h

mutual
  unfolding leaves joins_some

  leaves_some : (e : Error) → joins_some e ≡ true → 0 < length (leaves e)
  leaves_some (plain id) h = omega arith
  leaves_some (exit_error id x) h = omega arith
  leaves_some (located id s o e) h = leaves_some e h
  leaves_some (wrapped id e) h = leaves_some e h
  leaves_some (joined id nil) h = cc
  leaves_some (joined id (cons e es)) h =
      ground (arith, leaves_some e, length-append (leaves e) (leaves_of es))

  leaves_of_some : (es : Errors) → all_join_some es ≡ true → length (leaves_of es) ≡ 0 → es ≡ nil
  leaves_of_some nil h l = refl
  leaves_of_some (cons e es) h l =
      absurd (ground (arith, leaves_some e, length-append (leaves e) (leaves_of es)))

pub leaves-pos : (e : Error) → joins_some e ≡ true → 0 < length (leaves e)
leaves-pos e h = leaves_some e h

pub leaves_of-nil : (es : Errors) → all_join_some es ≡ true → length (leaves_of es) ≡ 0 → es ≡ nil
leaves_of-nil es h l = leaves_of_some es h l
