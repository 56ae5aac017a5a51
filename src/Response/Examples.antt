-- ===== src/Response/Examples.antt =====
-- A response that is accepted while the request is released.
use ssh_server_go.Prelude.{◌≡◌, refl, true, none, some, [], ◌∷◌, All, codes}
use ssh_server_go.Response.{new_response, begin_respond, finish_respond, release, wait}
use ssh_server_go.Response.Interleaved.{
  Shared, began, replied, finished, released_now, Reach, start, later, Inv, Reach-Once, wait-reply,
}

-- The handler accepts, the request is released, the reply is sent, and the call completes.
abbrev answered : Shared
answered = record {
  response = finish_respond none (release (begin_respond true true (new_response true)).1);
  replying = [];
  finishing = [];
  replies = (true, codes "ok") ∷ [];
}

answered_lem : Reach true answered
unfolding begin_respond
answered_lem =
    later
      (later (later (later start (began true true (codes "ok") refl)) released_now) (
        replied [] [] (record { request = some true; accepted = true; payload = codes "ok" }) none
          refl))
      (finished [] [] none refl)

Reach-Once_example : Inv answered
Reach-Once_example = Reach-Once answered_lem

wait-reply_example : All (λ p. (wait none answered.response).0 ≡ p.0) answered.replies
unfolding finish_respond
wait-reply_example = wait-reply answered_lem refl
