-- ===== src/Errors/Examples.antt =====
-- Concrete error trees.
use ssh_server_go.Prelude.{◌≡◌, refl, ◌↔◌, true, some, none, All, codes}
use ssh_server_go.Prelude.Int.{pos}
use ssh_server_go.Errors.{
  Error, plain, exit_error, located, wrapped, joined, nil, cons, SessionExitError, session, handle,
  channel, reply, is_only_error, exclusive_session_exit_error, resolve_error_location,
}
use ssh_server_go.Errors.Leaves.{leaves, joins_some, HasId, is_only_error_iff}
use ssh_server_go.Errors.Exclusive.{IsOnlyExit, exclusive_session_exit_error_iff}

abbrev exit_three : SessionExitError
exit_three = record { code = pos 3; message = codes "bye" }

abbrev wrapped_exit : Error
wrapped_exit = wrapped 7 (joined 8 (cons (exit_error 9 exit_three) nil))

abbrev joined_exit : Error
joined_exit = joined 5 (cons (exit_error 9 exit_three) (cons (plain 6) nil))

wrapped_exit_found : exclusive_session_exit_error (some wrapped_exit) ≡ some exit_three
unfolding exclusive_session_exit_error
wrapped_exit_found = refl

joined_exit_refused : exclusive_session_exit_error (some joined_exit) ≡ none
unfolding exclusive_session_exit_error
joined_exit_refused = refl

exclusive_session_exit_error_iff_example :
    (exclusive_session_exit_error (some wrapped_exit) ≡ some exit_three)
    ↔ IsOnlyExit (leaves wrapped_exit) exit_three
unfolding joins_some
exclusive_session_exit_error_iff_example =
    exclusive_session_exit_error_iff wrapped_exit exit_three refl

abbrev twice : Error
twice = joined 3 (cons (wrapped 4 (plain 6)) (cons (plain 6) nil))

is_only_error_iff_example :
    (is_only_error (some twice) (some (plain 6)) ≡ true) ↔ All (HasId (plain 6)) (leaves twice)
unfolding joins_some
is_only_error_iff_example = is_only_error_iff twice (plain 6) refl

location :
    resolve_error_location session handle (wrapped 1 (located 2 channel reply (plain 6)))
    ≡ (channel, reply)
unfolding resolve_error_location
location = refl
