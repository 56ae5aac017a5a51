-- ===== src/Response/Interleaved.antt =====
-- Responses, expiry, release and completion from several goroutines, in any interleaving.
use ssh_server_go.Prelude.{
  ℕ, suc, ◌+◌, ◌≤◌, ◌≡◌, refl, sym, subst, Bool, true, false, Option, none, List, [], ◌∷◌, ◌++◌,
  All, length, length-append, Bytes, arith, if◌then◌else◌, one,
}
use ssh_server_go.Response.{
  ResponseError, RequestResponse, new_response, started, begin_respond, wants_reply, reply_error,
  finish_respond, expire, release, complete_without_response, wait,
}

-- A call of `respond` that has left its first critical section.
pub record Attempt : Type 0 where
  pub request : Option Bool
  pub accepted : Bool
  pub payload : Bytes

-- The state, the calls that are about to send their reply, the errors of those that are about to enter
-- the second critical section, and the replies that were sent.
pub record Shared : Type 0 where
  pub response : RequestResponse
  pub replying : List Attempt
  pub finishing : List (Option ResponseError)
  pub replies : List (Bool × Bytes)

pub data Step (s : Shared) : Shared → Type 0 where
  began :
      (accepted require_active : Bool) (payload : Bytes) {request : Option Bool}
      {r : RequestResponse}
      → begin_respond accepted require_active s.response ≡ (started request, r)
      → Step s (record s {
        response = r;
        replying =
            record { request = request; accepted = accepted; payload = payload } ∷ s.replying;
      })
  -- The call of `Reply`, where a reply is wanted.
  replied :
      (before after : List Attempt) (a : Attempt) (outcome : Option ℕ)
      → s.replying ≡ before ++ a ∷ after
      → Step s (record s {
        replying = before ++ after;
        finishing = reply_error a.request outcome ∷ s.finishing;
        replies = if wants_reply a.request then (a.accepted, a.payload) ∷ s.replies else s.replies;
      })
  finished :
      (before after : List (Option ResponseError)) (e : Option ResponseError)
      → s.finishing ≡ before ++ e ∷ after
      → Step s (record s { response = finish_respond e s.response; finishing = before ++ after })
  expired_now : Step s (record s { response = expire s.response })
  released_now : Step s (record s { response = release s.response })
  completed : Step s (record s { response = complete_without_response s.response })

pub data Reach (want_reply : Bool) : Shared → Type 0 where
  start :
      Reach want_reply
        (record { response = new_response want_reply; replying = []; finishing = []; replies = [] })
  later : {s t : Shared} → Reach want_reply s → Step s t → Reach want_reply t

abbrev pub in_flight : Shared → ℕ
in_flight s = length s.replying + length s.finishing

-- The channel is closed once, with the flag; an attempt is in flight or has completed; and what was
-- sent, or is about to be, is at most one reply.
pub record Inv (s : Shared) : Type 0 where
  pub closed : s.response.closes ≡ one s.response.complete
  pub attempt : in_flight s + one s.response.complete ≤ 1
  pub attempted : one s.response.attempted ≤ in_flight s + one s.response.complete
  pub flying : in_flight s ≤ one s.response.attempted
  pub reply : length s.replies + length s.replying ≤ one s.response.attempted

begin_respond-fresh :
    {request : Option Bool} {t : RequestResponse}
    → (r : RequestResponse) (accepted require_active : Bool)
    → begin_respond accepted require_active r ≡ (started request, t)
    → (r.attempted ≡ false)
      × (r.complete ≡ false)
      × (t ≡ record r { attempted = true; accepted = accepted })
unfolding begin_respond
begin_respond-fresh r accepted require_active e = ground arith

length-split :
    {A : Type 0} (before after : List A) (a : A)
    → length (before ++ a ∷ after) ≡ suc (length (before ++ after))
length-split before after a =
    omega (arith, length-append before (a ∷ after), length-append before after)

Step-Inv : {s t : Shared} → Step s t → Inv s → Inv t
Step-Inv {s = s} (began accepted q payload e) v =
    let f = begin_respond-fresh s.response accepted q e in ground (arith, f, v)
Step-Inv (replied before after a o e) v = ground (
  arith,
  v,
  subst (λ l. length l ≡ suc (length (before ++ after))) (sym e) (length-split before after a),
)
Step-Inv (finished before after x e) v =
    unfold finish_respond in
    ground (
      arith,
      v,
      subst (λ l. length l ≡ suc (length (before ++ after))) (sym e) (length-split before after x),
    )
Step-Inv expired_now v = unfold expire in ground (arith, v)
Step-Inv released_now v = unfold release in ground (arith, v)
Step-Inv completed v = unfold complete_without_response in ground (arith, v)

-- Whatever interleaves, at most one reply is sent, and the channel `done` is closed at most once, and
-- exactly when the response is complete.
pub Reach-Once : {want_reply : Bool} {s : Shared} → Reach want_reply s → Inv s
Reach-Once start = ground arith
Reach-Once (later r st) = Step-Inv st (Reach-Once r)

-- Everything that was sent, or is about to be, has the flag that the response records.
pub record Agrees (s : Shared) : Type 0 where
  pub sent : All (λ p. p.0 ≡ s.response.accepted) s.replies
  pub about : All (λ a. a.accepted ≡ s.response.accepted) s.replying

All-empty : {A : Type 0} → (P : A → Type 0) (xs : List A) → length xs ≡ 0 → All P xs
All-empty P [] e = tt
All-empty P (x ∷ xs) e = absurd (omega (arith, e))

All-split :
    {A : Type 0}
    → (P : A → Type 0) (before after : List A) (a : A) → All P (before ++ a ∷ after)
    → P a × All P (before ++ after)
All-split P [] after a h = h
All-split P (b ∷ before) after a h = let r = All-split P before after a h.1 in (r.0, (h.0, r.1))

sent_reply :
    (P : Bool × Bytes → Type 0) (b : Bool) (p : Bool × Bytes) (ps : List (Bool × Bytes))
    → P p
    → All P ps
    → All P (if b then p ∷ ps else ps)
sent_reply P true p ps x h = (x, h)
sent_reply P false p ps x h = h

complete-accepted : (r : RequestResponse) → (complete_without_response r).accepted ≡ r.accepted
unfolding complete_without_response
complete-accepted r = ground arith

Step-Agrees : {s t : Shared} → Step s t → Inv s → Agrees s → Agrees t
Step-Agrees {s = s} (began accepted q payload e) v g =
    let f = begin_respond-fresh s.response accepted q e in
    record {
      sent = All-empty _ s.replies (ground (arith, f, v));
      about = (rw f.2 refl, All-empty _ s.replying (ground (arith, f, v)));
    }
Step-Agrees {s = s} (replied before after a o e) v g =
    let split =
      All-split _ before after a
        (subst (λ l. All (λ b. b.accepted ≡ s.response.accepted) l) e g.about) in
    record {
      sent = sent_reply _ (wants_reply a.request) (a.accepted, a.payload) s.replies split.0 g.sent;
      about = split.1;
    }
Step-Agrees (finished before after x e) v g =
    unfold finish_respond in record { sent = g.sent; about = g.about }
Step-Agrees expired_now v g = unfold expire in record { sent = g.sent; about = g.about }
Step-Agrees released_now v g = unfold release in record { sent = g.sent; about = g.about }
Step-Agrees {s = s} completed v g = record {
  sent = rw (complete-accepted s.response) g.sent;
  about = rw (complete-accepted s.response) g.about;
}

Reach-Agrees : {want_reply : Bool} {s : Shared} → Reach want_reply s → Agrees s
Reach-Agrees start = record { sent = tt; about = tt }
Reach-Agrees (later r st) = Step-Agrees st (Reach-Once r) (Reach-Agrees r)

All-sym : (b : Bool) (ps : List (Bool × Bytes)) → All (λ p. p.0 ≡ b) ps → All (λ p. b ≡ p.0) ps
All-sym b [] h = tt
All-sym b (p ∷ ps) h = (sym h.0, All-sym b ps h.1)

-- Whatever interleaves, a caller that waits for a complete response is told what was sent.
pub wait-reply :
    {want_reply : Bool} {s : Shared}
    → Reach want_reply s
    → s.response.complete ≡ true
    → All (λ p. (wait none s.response).0 ≡ p.0) s.replies
unfolding wait
wait-reply {s = s} r c = rw c (All-sym s.response.accepted s.replies ((Reach-Agrees r).sent))
