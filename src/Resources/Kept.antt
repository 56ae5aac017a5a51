-- ===== src/Resources/Kept.antt =====
-- No resource is lost: what was created is registered, about to be closed, closed or given up.
use ssh_server_go.Prelude.{
  ℕ, ◌≡◌, refl, sym, subst, Bool, true, false, not, ◌||◌, List, [], ◌∷◌, ◌++◌, length, arith, ◌==◌,
  member, delete, is_empty,
}
use ssh_server_go.Resources.{
  ConnectionResources, register, unregister, close_these, begin_close_all, finish_close_all,
  begin_acquisition, register_acquired, finish_acquisition,
}
use ssh_server_go.Resources.Interleaved.{
  returned, Shared, Step, registered, registered_late, late_closed, unregistered, acquisition_began,
  acquired_nothing, acquired, acquired_late, late_acquired_closed, acquisition_ended, close_began,
  one_closed, close_ended, close_awaited, Reach, start, later,
}
use ssh_server_go.Resources.Counted.{Inv, Reach-Counted}

-- Registered, or in the hands of a caller that is about to close it.
abbrev pub held : Shared → ℕ → Bool
held s a =
    member a s.state.resources
    || (member a s.to_close || (member a s.late || member a s.late_acquired))

abbrev pub settled : Shared → ℕ → Bool
settled s a = member a s.closed || member a s.given_up

abbrev pub Kept : Shared → Type 0
Kept s = (a : ℕ) → (not (member a s.created) || (held s a || settled s a)) ≡ true

member-split :
    (x a : ℕ) (before after : List ℕ)
    → member x (before ++ a ∷ after) ≡ (x == a || member x (before ++ after))
member-split x a [] after = ground arith
member-split x a (b ∷ before) after = ground (arith, member-split x a before after)

member-delete :
    (a x : ℕ) (xs : List ℕ) → (x == a || member x (delete a xs)) ≡ (x == a || member x xs)
member-delete a x [] = refl
member-delete a x (b ∷ bs) = ground (arith, member-delete a x bs)

member-empty : (x : ℕ) (xs : List ℕ) → is_empty xs ≡ true → member x xs ≡ false
member-empty x [] h = refl
member-empty x (b ∷ bs) h = ground arith

length-is_empty : (xs : List ℕ) → length xs ≡ 0 → is_empty xs ≡ true
length-is_empty [] h = refl
length-is_empty (b ∷ bs) h = absurd (omega (arith, h))

begin_close_all-fresh :
    {resources : List ℕ} {await : Bool} {t : ConnectionResources}
    → (r : ConnectionResources) → begin_close_all r ≡ (close_these resources await, t)
    → (r.closed ≡ false) × (resources ≡ r.resources)
unfolding begin_close_all
begin_close_all-fresh r e = ground arith

Step-Kept : {s t : Shared} → Step s t → Inv s → Kept s → Kept t
Step-Kept (registered a e) v k = λ x. unfold register in ground (arith, k x, e)
Step-Kept (registered_late a e) v k = λ x. unfold register in ground (arith, k x, e)
Step-Kept (late_closed before after a e) v k = λ x. ground (
  arith,
  k x,
  subst (λ l. member x l ≡ (x == a || member x (before ++ after))) (sym e)
      (member-split x a before after),
)
Step-Kept {s = s} (unregistered a) v k =
    λ x. unfold unregister in ground (arith, k x, member-delete a x s.state.resources)
Step-Kept (acquisition_began e) v k = λ x. unfold begin_acquisition in ground (arith, k x, e)
Step-Kept (acquired_nothing e) v k = k
Step-Kept (acquired a e f) v k = λ x. unfold register_acquired in ground (arith, k x, f)
Step-Kept (acquired_late a e f) v k = λ x. unfold register_acquired in ground (arith, k x, f)
Step-Kept (late_acquired_closed before after a e) v k = λ x. ground (
  arith,
  k x,
  subst (λ l. member x l ≡ (x == a || member x (before ++ after))) (sym e)
      (member-split x a before after),
)
Step-Kept (acquisition_ended e) v k = λ x. unfold finish_acquisition in ground (arith, k x)
Step-Kept {s = s} (close_began e) v k = λ x.
    (let f = begin_close_all-fresh s.state e in
      let none_taken = member-empty x s.to_close (ground (arith, v, f)) in
      ground (arith, k x, f, none_taken))
Step-Kept (one_closed e) v k = λ x. ground (arith, k x, e)
Step-Kept (close_ended c e) v k = λ x. unfold finish_close_all in k x
Step-Kept (close_awaited c e d) v k = λ x. unfold finish_close_all in k x

Reach-Kept : {s : Shared} → Reach s → Kept s
Reach-Kept start = λ x. refl
Reach-Kept (later r st) = Step-Kept st (Reach-Counted r) (Reach-Kept r)

-- When `closeAll` has returned, every resource that was ever created is closed or given up by its
-- owner, or is with a call of `register` that came too late and is about to close it.
pub closed_down :
    {s : Shared}
    → (a : ℕ) → Reach s
    → s.closer ≡ returned
    → member a s.created ≡ true
    → (member a s.late || settled s a) ≡ true
closed_down {s = s} a r c m =
    let v = Reach-Counted r in
    let none_pending : length s.late_acquired ≡ 0 = ground (arith, v, c) in
    let e₁ = member-empty a s.state.resources (ground (arith, v, c)) in
    let e₂ = member-empty a s.to_close (ground (arith, v, c)) in
    let e₃ = member-empty a s.late_acquired (length-is_empty s.late_acquired none_pending) in
    ground (arith, Reach-Kept r a, m, e₁, e₂, e₃)
