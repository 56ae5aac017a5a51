-- ===== src/Deadlines/Earliest.antt =====
-- What `earliestDeadline` picks.
use ssh_server_go.Prelude.{
  ℕ, ◌≤◌, ◌≡◌, refl, ◌∙◌, Option, none, some, List, [], ◌∷◌, arith, ◌⊎◌, inl, inr,
}
use ssh_server_go.Deadlines.{earlier, earliest_from, earliest_deadline}

abbrev pub NotBefore : Option ℕ → Option ℕ → Type 0
NotBefore result none = Unit {0}
NotBefore none (some deadline) = ⊥
NotBefore (some result) (some deadline) = result ≤ deadline

abbrev pub NoneBefore : Option ℕ → List (Option ℕ) → Type 0
NoneBefore result [] = Unit {0}
NoneBefore result (deadline ∷ deadlines) = NotBefore result deadline × NoneBefore result deadlines

abbrev pub Among : Option ℕ → List (Option ℕ) → Type 0
Among result [] = result ≡ none
Among result (deadline ∷ deadlines) = (result ≡ deadline) ⊎ Among result deadlines

NotBefore-earlier : (b r d : Option ℕ) → NotBefore b (earlier r d) → NotBefore b r × NotBefore b d
NotBefore-earlier b none none h = (tt, tt)
NotBefore-earlier b (some r) none h = (h, tt)
NotBefore-earlier b none (some d) h = (tt, h)
NotBefore-earlier none (some r) (some d) h = ground arith
NotBefore-earlier (some b) (some r) (some d) h = ground arith

NotBefore-refl : (r : Option ℕ) → NotBefore r r
NotBefore-refl none = tt
NotBefore-refl (some r) = omega arith

earliest_from-NoneBefore :
    (r : Option ℕ) (ds : List (Option ℕ))
    → NotBefore (earliest_from r ds) r × NoneBefore (earliest_from r ds) ds
unfolding earliest_from
earliest_from-NoneBefore r [] = (NotBefore-refl r, tt)
earliest_from-NoneBefore r (d ∷ ds) =
    let h = earliest_from-NoneBefore (earlier r d) ds in
    let p = NotBefore-earlier (earliest_from (earlier r d) ds) r d h.0 in (p.0, (p.1, h.1))

earlier-either : (r d : Option ℕ) → (earlier r d ≡ r) ⊎ (earlier r d ≡ d)
earlier-either r none = inl refl
earlier-either none (some d) = inr refl
earlier-either (some r) (some d) = ground arith

earliest_from-Among :
    (r : Option ℕ) (ds : List (Option ℕ)) → (earliest_from r ds ≡ r) ⊎ Among (earliest_from r ds) ds
unfolding earliest_from
earliest_from-Among r [] = inl refl
earliest_from-Among r (d ∷ ds) = elim (earliest_from-Among (earlier r d) ds) [
  | inr h ↦ inr (inr h)
  | inl e ↦ (elim (earlier-either r d) [ inl p ↦ inl (e ∙ p) | inr p ↦ inr (inl (e ∙ p)) ])
]

none-Among : (ds : List (Option ℕ)) (r : Option ℕ) → r ≡ none → NoneBefore r ds → Among r ds
none-Among [] r e h = e
none-Among (none ∷ ds) r e h = inl e
none-Among (some d ∷ ds) none e h = absurd h.0
none-Among (some d ∷ ds) (some r) e h = cc

-- The result is one of the deadlines, or the zero time where all are, and none of those that are set
-- comes before it.
pub earliest_deadline-NoneBefore :
    (ds : List (Option ℕ)) → NoneBefore (earliest_deadline ds) ds × Among (earliest_deadline ds) ds
unfolding earliest_deadline
earliest_deadline-NoneBefore ds =
    let h = earliest_from-NoneBefore none ds in
    (
      h.1,
      elim (earliest_from-Among none ds) [
        | inl e ↦ none-Among ds (earliest_from none ds) e h.1
        | inr m ↦ m
      ],
    )
