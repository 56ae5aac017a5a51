-- ===== src/Resources/Counted.antt =====
-- The channels of `closeAll`, and the number of pending acquisitions.
use ssh_server_go.Prelude.{
  ℕ, suc, ◌+◌, ◌≤◌, ◌≡◌, sym, subst, Bool, true, false, not, ◌&&◌, ◌||◌, List, ◌∷◌, ◌++◌, length,
  length-append, arith, ◌==◌, is_empty, is_empty-delete, one,
}
use ssh_server_go.Resources.{
  register, unregister, begin_close_all, finish_close_all, begin_acquisition, register_acquired,
  finish_acquisition,
}
use ssh_server_go.Resources.Interleaved.{
  Closer, idle, running, returned, Shared, Step, registered, registered_late, late_closed,
  unregistered, acquisition_began, acquired_nothing, acquired, acquired_late, late_acquired_closed,
  acquisition_ended, close_began, one_closed, close_ended, close_awaited, Reach, start, later,
}

abbrev pub started : Closer → Bool
started idle = false
started (running await) = true
started returned = true

abbrev pub is_returned : Closer → Bool
is_returned idle = false
is_returned (running await) = false
is_returned returned = true

abbrev pub awaits : Closer → Bool
awaits idle = false
awaits (running await) = await
awaits returned = false

-- The pending acquisitions are the callers that acquire; `closed` says whether a `closeAll` has begun,
-- and then nothing is registered; each channel is closed at most once, and the call that has
-- returned has left nothing to close and no acquisition pending.
pub record Inv (s : Shared) : Type 0 where
  pub pending : s.state.pending_acquisitions ≡ s.acquiring + length s.late_acquired + s.ending
  pub closed : s.state.closed ≡ started s.closer
  pub cleared : (not s.state.closed || is_empty s.state.resources) ≡ true
  pub untaken : (s.state.closed || is_empty s.to_close) ≡ true
  pub drained : s.state.drained_closes + one s.state.acquisitions_drained ≤ 1
  pub waits :
      (not s.state.closed || (s.state.acquisitions_drained || s.state.pending_acquisitions == 0))
      ≡ true
  pub busy :
      (not s.state.acquisitions_drained
        || s.state.closed && not (s.state.pending_acquisitions == 0))
      ≡ true
  pub unread : (s.state.closed || s.state.drained_closes == 0) ≡ true
  pub done : s.state.done_closes ≡ one (is_returned s.closer)
  pub emptied :
      (not (is_returned s.closer) || is_empty s.to_close && not s.state.acquisitions_drained) ≡ true
  pub silent :
      (awaits s.closer || (is_returned s.closer || not s.state.acquisitions_drained)) ≡ true

length-split :
    (before after : List ℕ) (a : ℕ) → length (before ++ a ∷ after) ≡ suc (length (before ++ after))
length-split before after a =
    omega (arith, length-append before (a ∷ after), length-append before after)

Step-Inv : {s t : Shared} → Step s t → Inv s → Inv t
Step-Inv (registered a e) v = unfold register in ground (arith, v, e)
Step-Inv (registered_late a e) v = unfold register in ground (arith, v, e)
Step-Inv (late_closed before after a e) v = record {
  pending = v.pending;
  closed = v.closed;
  cleared = v.cleared;
  untaken = v.untaken;
  drained = v.drained;
  waits = v.waits;
  busy = v.busy;
  unread = v.unread;
  done = v.done;
  emptied = v.emptied;
  silent = v.silent;
}
Step-Inv {s = s} (unregistered a) v =
    unfold unregister in ground (arith, v, is_empty-delete a s.state.resources)
Step-Inv (acquisition_began e) v = unfold begin_acquisition in ground (arith, v, e)
Step-Inv (acquired_nothing e) v = ground (arith, v, e)
Step-Inv (acquired a e f) v = unfold register_acquired in ground (arith, v, e, f)
Step-Inv (acquired_late a e f) v = unfold register_acquired in ground (arith, v, e, f)
Step-Inv (late_acquired_closed before after a e) v = ground (
  arith,
  v,
  subst (λ l. length l ≡ suc (length (before ++ after))) (sym e) (length-split before after a),
)
Step-Inv (acquisition_ended e) v = unfold finish_acquisition in ground (arith, v, e)
Step-Inv (close_began e) v = unfold begin_close_all in ground (arith, v, e)
Step-Inv (one_closed e) v = ground (arith, v, e)
Step-Inv (close_ended c e) v = unfold finish_close_all in ground (arith, v, c, e)
Step-Inv (close_awaited c e d) v = unfold finish_close_all in ground (arith, v, c, e, d)

-- In any interleaving, the number of pending acquisitions is that of the callers that acquire, each
-- channel is closed at most once, nothing is registered behind the start of `closeAll`, and when it has
-- returned nothing is left to close and no acquisition is pending.
pub Reach-Counted : {s : Shared} → Reach s → Inv s
Reach-Counted start = ground arith
Reach-Counted (later r st) = Step-Inv st (Reach-Counted r)
