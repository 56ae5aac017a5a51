-- ===== src/NewChannel/Interleaved.antt =====
-- The callers that answer a channel request, and those that close it, in any interleaving.
use ssh_server_go.Prelude.{
  ℕ, suc, ◌+◌, ◌≤◌, ◌≡◌, true, Option, none, some, List, [], ◌∷◌, length, arith, one, is_some,
}
use ssh_server_go.NewChannel.{
  ChannelError, TrackedNewChannel, untouched, begin_answer, complete_answer, Accepted, opened,
  failed, complete_accept, close_accepted, Rejecting, reject_error,
}

-- The state; how many callers have begun an answer, and have their answer at the SSH library; the
-- answers that the library was given; the channels that it opened, and those that were closed.
pub record Shared : Type 0 where
  pub channel : TrackedNewChannel
  pub answering : ℕ
  pub accepting : List Accepted
  pub rejecting : List (Option ChannelError)
  pub answers : ℕ
  pub opened_channels : List ℕ
  pub closed_channels : List ℕ

abbrev pub add_opened : Accepted → List ℕ → List ℕ
add_opened (opened channel) cs = channel ∷ cs
add_opened (failed id) cs = cs

abbrev pub add_closed : Option ℕ → List ℕ → List ℕ
add_closed none cs = cs
add_closed (some channel) cs = channel ∷ cs

pub data Step (s : Shared) : Shared → Type 0 where
  began :
      {c : TrackedNewChannel}
      → begin_answer s.channel ≡ (true, c)
      → Step s (record s { channel = c; answering = suc s.answering })
  -- The calls of the SSH library.
  accepted_by_library :
      {n : ℕ}
      → (result : Accepted) → s.answering ≡ suc n
      → Step s (record s {
        answering = n;
        accepting = result ∷ s.accepting;
        answers = suc s.answers;
        opened_channels = add_opened result s.opened_channels;
      })
  rejected_by_library :
      {n : ℕ}
      → (by : Rejecting) (outcome : Option ℕ) → s.answering ≡ suc n
      → Step s (record s {
        answering = n;
        rejecting = reject_error by outcome ∷ s.rejecting;
        answers = suc s.answers;
      })
  accept_completed :
      {result : Accepted} {rest : List Accepted}
      → s.accepting ≡ result ∷ rest
      → Step s (record s { channel = complete_accept result s.channel; accepting = rest })
  reject_completed :
      {e : Option ChannelError} {rest : List (Option ChannelError)}
      → s.rejecting ≡ e ∷ rest
      → Step s (record s { channel = complete_answer e s.channel; rejecting = rest })
  closed : Step s (record s {
    channel = (close_accepted s.channel).1;
    closed_channels = add_closed (close_accepted s.channel).0 s.closed_channels;
  })

pub data Reach : Shared → Type 0 where
  start : Reach (record {
    channel = untouched;
    answering = 0;
    accepting = [];
    rejecting = [];
    answers = 0;
    opened_channels = [];
    closed_channels = [];
  })
  later : {s t : Shared} → Reach s → Step s t → Reach t

abbrev pub is_open : Accepted → ℕ
is_open (opened channel) = 1
is_open (failed id) = 0

-- Of the results at hand, those that opened a channel.
abbrev pub open_results : List Accepted → ℕ
open_results [] = 0
open_results (a ∷ results) = is_open a + open_results results

abbrev pub at_work : Shared → ℕ
at_work s = s.answering + (length s.accepting + length s.rejecting)

-- The callers at work and the answers that they gave, and where the channels that were opened are.
pub record Inv (s : Shared) : Type 0 where
  pub single : at_work s + one s.channel.answer_complete ≡ one s.channel.answer_attempted
  pub answered : s.answers + s.answering ≡ one s.channel.answer_attempted
  pub kept :
      length s.opened_channels
      ≡ open_results s.accepting + one (is_some s.channel.accepted) + length s.closed_channels
  pub recorded : one (is_some s.channel.accepted) ≤ one s.channel.answer_complete

Step-Inv : {s t : Shared} → Step s t → Inv s → Inv t
Step-Inv (began e) v = unfold begin_answer in ground (arith, v, e)
Step-Inv (accepted_by_library (opened c) e) v = ground (arith, v, e)
Step-Inv (accepted_by_library (failed c) e) v = ground (arith, v, e)
Step-Inv (rejected_by_library by o e) v = ground (arith, v, e)
Step-Inv (accept_completed {result = opened c} e) v = unfold complete_accept in ground (arith, v, e)
Step-Inv (accept_completed {result = failed c} e) v = unfold complete_accept in ground (arith, v, e)
Step-Inv (reject_completed e) v = unfold complete_answer in ground (arith, v, e)
Step-Inv closed v = unfold close_accepted in ground (arith, v)

-- In any interleaving, a channel request gets at most one answer, from the one caller that began it,
-- and as many channels were opened as the callers hold, are recorded, and were closed.
pub Reach-Answered : {s : Shared} → Reach s → Inv s
Reach-Answered start = ground arith
Reach-Answered (later r st) = Step-Inv st (Reach-Answered r)
