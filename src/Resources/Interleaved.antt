-- ===== src/Resources/Interleaved.antt =====
-- The callers of a connection's resources, in any interleaving.
use ssh_server_go.Prelude.{ℕ, suc, ◌≡◌, Bool, true, false, some, List, [], ◌∷◌, ◌++◌}
use ssh_server_go.Resources.{
  ConnectionResources, new_connection_resources, register, unregister, close_these, begin_close_all,
  finish_close_all, begin_acquisition, register_acquired, finish_acquisition,
}

-- The call of `closeAll` that closes: not yet there, closing and then to wait or not, or returned.
pub data Closer : Type 0 where
  idle : Closer
  running : (await : Bool) → Closer
  returned : Closer

-- The state; the callers that acquire, that are about to close what they acquired too late, and that
-- are about to leave; what `closeAll` has yet to close; what a late `register` has yet to close; and
-- the resources that were created, closed, and given up by their owners.
pub record Shared : Type 0 where
  pub state : ConnectionResources
  pub closer : Closer
  pub acquiring : ℕ
  pub late_acquired : List ℕ
  pub ending : ℕ
  pub to_close : List ℕ
  pub late : List ℕ
  pub created : List ℕ
  pub closed : List ℕ
  pub given_up : List ℕ

pub data Step (s : Shared) : Shared → Type 0 where
  registered :
      {r : ConnectionResources}
      → (a : ℕ) → register a s.state ≡ (true, r)
      → Step s (record s { state = r; created = a ∷ s.created })
  registered_late :
      {r : ConnectionResources}
      → (a : ℕ) → register a s.state ≡ (false, r)
      → Step s (record s { state = r; created = a ∷ s.created; late = a ∷ s.late })
  late_closed :
      (before after : List ℕ) (a : ℕ)
      → s.late ≡ before ++ a ∷ after
      → Step s (record s { late = before ++ after; closed = a ∷ s.closed })
  unregistered :
      (a : ℕ) → Step s (record s { state = unregister a s.state; given_up = a ∷ s.given_up })
  acquisition_began :
      {r : ConnectionResources}
      → begin_acquisition s.state ≡ (true, r)
      → Step s (record s { state = r; acquiring = suc s.acquiring })
  acquired_nothing :
      {n : ℕ} → s.acquiring ≡ suc n → Step s (record s { acquiring = n; ending = suc s.ending })
  acquired :
      {r : ConnectionResources} {n : ℕ}
      → (a : ℕ) → s.acquiring ≡ suc n
      → register_acquired (some a) s.state ≡ (false, r)
      → Step s
          (record s { state = r; acquiring = n; ending = suc s.ending; created = a ∷ s.created })
  acquired_late :
      {r : ConnectionResources} {n : ℕ}
      → (a : ℕ) → s.acquiring ≡ suc n
      → register_acquired (some a) s.state ≡ (true, r)
      → Step s (record s {
        state = r;
        acquiring = n;
        late_acquired = a ∷ s.late_acquired;
        created = a ∷ s.created;
      })
  late_acquired_closed :
      (before after : List ℕ) (a : ℕ)
      → s.late_acquired ≡ before ++ a ∷ after
      → Step s (record s {
        late_acquired = before ++ after;
        ending = suc s.ending;
        closed = a ∷ s.closed;
      })
  acquisition_ended :
      {n : ℕ}
      → s.ending ≡ suc n
      → Step s (record s { state = finish_acquisition s.state; ending = n })
  close_began :
      {r : ConnectionResources} {resources : List ℕ} {await : Bool}
      → begin_close_all s.state ≡ (close_these resources await, r)
      → Step s (record s { state = r; closer = running await; to_close = resources })
  one_closed :
      {a : ℕ} {rest : List ℕ}
      → s.to_close ≡ a ∷ rest
      → Step s (record s { to_close = rest; closed = a ∷ s.closed })
  -- With nothing to wait for.
  close_ended :
      s.closer ≡ running false
      → s.to_close ≡ []
      → Step s (record s { state = finish_close_all s.state; closer = returned })
  -- The channel of the acquisitions is closed.
  close_awaited :
      {n : ℕ}
      → s.closer ≡ running true
      → s.to_close ≡ []
      → s.state.drained_closes ≡ suc n
      → Step s (record s { state = finish_close_all s.state; closer = returned })

pub data Reach : Shared → Type 0 where
  start : Reach (record {
    state = new_connection_resources;
    closer = idle;
    acquiring = 0;
    late_acquired = [];
    ending = 0;
    to_close = [];
    late = [];
    created = [];
    closed = [];
    given_up = [];
  })
  later : {s t : Shared} → Reach s → Step s t → Reach t
