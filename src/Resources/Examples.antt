-- ===== src/Resources/Examples.antt =====
-- `closeAll` while an acquisition is pending, which then is too late.
use ssh_server_go.Prelude.{◌≡◌, refl, true, ◌||◌, [], ◌∷◌, member}
use ssh_server_go.Resources.{
  new_connection_resources, register, begin_close_all, finish_close_all, begin_acquisition,
  register_acquired, finish_acquisition,
}
use ssh_server_go.Resources.Interleaved.{
  returned, Shared, Reach, start, later, registered, acquisition_began, close_began, acquired_late,
  one_closed, late_acquired_closed, acquisition_ended, close_awaited,
}
use ssh_server_go.Resources.Counted.{Inv, Reach-Counted}
use ssh_server_go.Resources.Kept.{settled, closed_down}

abbrev shut_down : Shared
shut_down = record {
  state = finish_close_all (
      finish_acquisition
        (begin_close_all (begin_acquisition (register 3 new_connection_resources).1).1).1);
  closer = returned;
  acquiring = 0;
  late_acquired = [];
  ending = 0;
  to_close = [];
  late = [];
  created = 4 ∷ 3 ∷ [];
  closed = 4 ∷ 3 ∷ [];
  given_up = [];
}

shut_down_lem : Reach shut_down
unfolding register begin_acquisition begin_close_all register_acquired finish_acquisition
shut_down_lem =
    later
      (later
        (later
          (later
            (later
              (later (later (later start (registered 3 refl)) (acquisition_began refl))
                (close_began refl))
              (acquired_late 4 refl refl))
            (one_closed refl))
          (late_acquired_closed [] [] 4 refl))
        (acquisition_ended refl))
      (close_awaited refl refl refl)

Reach-Counted_example : Inv shut_down
Reach-Counted_example = Reach-Counted shut_down_lem

closed_down_example : (member 3 shut_down.late || settled shut_down 3) ≡ true
closed_down_example = closed_down 3 shut_down_lem refl refl
