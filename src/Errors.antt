-- ===== src/Errors.antt =====
-- Errors as trees. The identity of an error value (its address) is a number, so that two errors with
-- the same text are told apart, as Go's `==` does. `SessionExitError` is from session.go; `locateError`,
-- `resolveErrorLocation` and `isOnlyError` are from error-handling.go.
pub mod Leaves
pub mod Exclusive
mod Examples
use ssh_server_go.Prelude.{
  ℕ, Bool, true, false, ◌&&◌, ◌||◌, Option, none, some, List, [], ◌∷◌, ◌++◌, Bytes, ◌==◌,
  if◌then◌else◌, ◌>>=◌, is_some,
}
use ssh_server_go.Prelude.Int.{ℤ}

pub data ErrorScope : Type 0 where
  server connection request channel session forwarding : ErrorScope

pub data ErrorOperation : Type 0 where
  accept parse handle reply handshake dial listen open_channel forward : ErrorOperation

pub record SessionExitError : Type 0 where
  pub code : ℤ
  pub message : Bytes

abbrev or_else {ℓ} : {A : Type ℓ} → Option A → Option A → Option A
or_else (some a) o = some a
or_else none o = o

-- `!exclusive || result != nil` ends the loop.
abbrev next_child :
    Option SessionExitError
    → Option SessionExitError
    → (SessionExitError → Option SessionExitError)
    → Option SessionExitError
next_child none (some x) rest = rest x
next_child none none rest = none
next_child (some r) child rest = none

mutual
  -- `wrapped` is `fmt.Errorf` with `%w`, `joined` what `errors.Join` returns.
  pub data Error : Type 0 where
    plain : (id : ℕ) → Error
    exit_error : (id : ℕ) → SessionExitError → Error
    located : (id : ℕ) → ErrorScope → ErrorOperation → Error → Error
    wrapped : (id : ℕ) → Error → Error
    joined : (id : ℕ) → Errors → Error

  pub data Errors : Type 0 where
    nil : Errors
    cons : Error → Errors → Errors

unfoldable pub id_of : Error → ℕ
id_of (plain id) = id
id_of (exit_error id x) = id
id_of (located id s o e) = id
id_of (wrapped id e) = id
id_of (joined id es) = id

-- `errors.Is`: the error itself, or one that it wraps.
unfoldable mutual
  unfolding id_of

  pub is : Error → Error → Bool
  is (plain id) target = id == id_of target
  is (exit_error id x) target = id == id_of target
  is (located id s o e) target = id == id_of target || is e target
  is (wrapped id e) target = id == id_of target || is e target
  is (joined id es) target = id == id_of target || is_any es target

  pub is_any : Errors → Error → Bool
  is_any nil target = false
  is_any (cons e es) target = is e target || is_any es target

-- `errors.As` for `*locatedError`: the first one, from the outside in, and from left to right.
unfoldable mutual
  pub first_located : Error → Option (ErrorScope × ErrorOperation)
  first_located (plain id) = none
  first_located (exit_error id x) = none
  first_located (located id s o e) = some (s, o)
  first_located (wrapped id e) = first_located e
  first_located (joined id es) = first_located_of es

  pub first_located_of : Errors → Option (ErrorScope × ErrorOperation)
  first_located_of nil = none
  first_located_of (cons e es) = or_else (first_located e) (first_located_of es)

unfoldable pub resolve_error_location :
    ErrorScope → ErrorOperation → Error → ErrorScope × ErrorOperation
unfolding first_located
resolve_error_location scope operation e = elim (first_located e) [
  | some found ↦ found
  | none ↦ (scope, operation)
]

-- A `nil` argument is `none`.
unfoldable mutual
  unfolding is

  pub is_only : Error → Error → Bool
  is_only (plain id) target = is (plain id) target
  is_only (exit_error id x) target = is (exit_error id x) target
  is_only (located id s o e) target = is_only e target
  is_only (wrapped id e) target = is_only e target
  is_only (joined id nil) target = false
  is_only (joined id (cons e es)) target = is_only e target && is_only_all es target

  pub is_only_all : Errors → Error → Bool
  is_only_all nil target = true
  is_only_all (cons e es) target = is_only e target && is_only_all es target

unfoldable pub is_only_error : Option Error → Option Error → Bool
unfolding is_only
is_only_error none target = false
is_only_error (some e) none = false
is_only_error (some e) (some target) = is_only e target

-- `exclusiveSessionExitError`, and its loop over the children with the result so far.
unfoldable mutual
  pub exclusive : Error → Option SessionExitError
  exclusive (plain id) = none
  exclusive (exit_error id x) = some x
  exclusive (located id s o e) = exclusive e
  exclusive (wrapped id e) = exclusive e
  exclusive (joined id es) = exclusive_children none es

  pub exclusive_children : Option SessionExitError → Errors → Option SessionExitError
  exclusive_children result nil = result
  exclusive_children result (cons e es) =
      next_child result (exclusive e) (λ x. exclusive_children (some x) es)

unfoldable pub exclusive_session_exit_error : Option Error → Option SessionExitError
unfolding exclusive
exclusive_session_exit_error none = none
exclusive_session_exit_error (some e) = exclusive e
