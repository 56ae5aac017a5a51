-- ===== src/NewChannel/Examples.antt =====
-- A channel that is accepted and then closed.
use ssh_server_go.Prelude.{◌≡◌, refl, true, none, [], ◌∷◌}
use ssh_server_go.NewChannel.{
  untouched, begin_answer, opened, complete_accept, close_accepted, accept, answer_result,
}
use ssh_server_go.NewChannel.Interleaved.{
  Shared, Reach, start, later, began, accepted_by_library, accept_completed, closed, Inv,
  Reach-Answered,
}

abbrev done : Shared
done = record {
  channel = (close_accepted (complete_accept (opened 5) (begin_answer untouched).1)).1;
  answering = 0;
  accepting = [];
  rejecting = [];
  answers = 1;
  opened_channels = 5 ∷ [];
  closed_channels = 5 ∷ [];
}

done_lem : Reach done
unfolding begin_answer complete_accept close_accepted
done_lem =
    later
      (later (later (later start (began refl)) (accepted_by_library (opened 5) refl))
        (accept_completed refl))
      closed

accepted_in_time : answer_result (accept (opened 5) untouched).1 ≡ (true, none)
unfolding answer_result accept begin_answer complete_accept
accepted_in_time = refl

Reach-Answered_example : Inv done
Reach-Answered_example = Reach-Answered done_lem
