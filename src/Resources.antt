-- ===== src/Resources.antt =====
-- context.go: `connectionResources`, what a connection closes when it ends, with the acquisitions that
-- are pending. Each critical section of the mutex is a function of the state; a resource is a number.
pub mod Interleaved
pub mod Counted
pub mod Kept
mod Examples
use ssh_server_go.Prelude.{
  ℕ, suc, ◌-◌, Bool, true, false, not, ◌&&◌, Option, none, some, List, [], ◌∷◌, if◌then◌else◌, ◌==◌,
  ltb, member, delete, is_empty, is_empty-delete, one,
}

-- `acquisitions_drained` says whether the channel is not `nil`, and the last two fields count the calls
-- of `close` on the channels, of which a second one on a channel would panic.
pub record ConnectionResources : Type 0 where
  pub resources : List ℕ
  pub pending_acquisitions : ℕ
  pub acquisitions_drained : Bool
  pub closed : Bool
  pub drained_closes : ℕ
  pub done_closes : ℕ

abbrev pub new_connection_resources : ConnectionResources
new_connection_resources = record {
  resources = [];
  pending_acquisitions = 0;
  acquisitions_drained = false;
  closed = false;
  drained_closes = 0;
  done_closes = 0;
}

-- `register`: whether the resource is kept, and is otherwise closed by the caller.
unfoldable pub register : ℕ → ConnectionResources → Bool × ConnectionResources
register a r = if r.closed then (false, r) else (true, record r { resources = a ∷ r.resources })

-- What the function that `register` returns does, once.
unfoldable pub unregister : ℕ → ConnectionResources → ConnectionResources
unregister a r = record r { resources = delete a r.resources }

-- The critical section of `closeAll`: another call closes, or this one closes the resources and then
-- waits for the pending acquisitions, if there are any.
pub data Closing : Type 0 where
  wait_for_other : Closing
  close_these : (resources : List ℕ) → (await : Bool) → Closing

unfoldable pub begin_close_all : ConnectionResources → Closing × ConnectionResources
begin_close_all r =
    let await = ltb 0 r.pending_acquisitions in
    if r.closed then (wait_for_other, r) else (
      close_these r.resources await,
      record r {
        closed = true;
        resources = [];
        acquisitions_drained = if await then true else r.acquisitions_drained;
      },
    )

-- The end of `closeAll`.
unfoldable pub finish_close_all : ConnectionResources → ConnectionResources
finish_close_all r = record r { done_closes = suc r.done_closes }

-- `beginConnectionResourceAcquisition`.
unfoldable pub begin_acquisition : ConnectionResources → Bool × ConnectionResources
begin_acquisition r =
    if r.closed
    then (false, r)
    else (true, record r { pending_acquisitions = suc r.pending_acquisitions })

-- The first critical section of the function that it returns: whether the resource must be closed by
-- the caller. `none` is a `nil` argument.
unfoldable pub register_acquired : Option ℕ → ConnectionResources → Bool × ConnectionResources
register_acquired none r = (false, r)
register_acquired (some a) r =
    if r.closed then (true, r) else (false, record r { resources = a ∷ r.resources })

drain : ConnectionResources → ConnectionResources
drain r =
    if r.closed && (r.pending_acquisitions == 0 && r.acquisitions_drained)
    then record r { drained_closes = suc r.drained_closes; acquisitions_drained = false }
    else r

-- The second one.
unfoldable pub finish_acquisition : ConnectionResources → ConnectionResources
unfolding drain
finish_acquisition r = drain (record r { pending_acquisitions = r.pending_acquisitions - 1 })
