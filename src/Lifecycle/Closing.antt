-- ===== src/Lifecycle/Closing.antt =====
-- The loop of `force` over the tracked connections, and the cleanups behind it.
use ssh_server_go.Prelude.{
  ℕ, ◌-◌, ◌<◌, ◌≡◌, refl, sym, ap, ◌∙◌, subst, true, false, List, [], ◌∷◌, ◌++◌, arith, ◌==◌,
  Bool-cases, inl, inr, ==_iff, All, member,
}
use mathlib.Core.List.{reverse}
use ssh_server_go.Prelude.Int.{pos, IntSize, half_range, wrap, wrap-pos, sub-pos, ◌-ℤ◌}
use ssh_server_go.Lifecycle.{
  ActiveConn, ServeContext, store, close_active, close_all, Effect, close_transports, cancel_first,
  close_resources, clean_up,
}
use ssh_server_go.Lifecycle.Tracked.{reserved_count, Distinct, reserved_count-store}
use ssh_server_go.Lifecycle.Invariant.{Core}

module _ (cause : ℕ) where
  store_other :
      (h : ℕ → ActiveConn) (a b : ℕ) (c : ActiveConn) → (a == b) ≡ false → store h a c b ≡ h b
  store_other h a b c p = rw p refl

  store_self : (h : ℕ → ActiveConn) (a : ℕ) (c : ActiveConn) → store h a c a ≡ c
  store_self h a c = ground arith

  -- The loop leaves what is not tracked.
  pub close_all_other :
      (xs : List ℕ) (h : ℕ → ActiveConn) (b : ℕ)
      → member b xs ≡ false
      → (close_all cause xs h).0 b ≡ h b
  unfolding close_all
  close_all_other [] h b p = refl
  close_all_other (a ∷ rest) h b p =
      close_all_other rest (store h a (close_active cause (h a))) b (ground arith)
      ∙ store_other h a b (close_active cause (h a)) (ground arith)

  -- The loop closes what is tracked, with the cause.
  pub close_all_tracked :
      (xs : List ℕ) (h : ℕ → ActiveConn) (b : ℕ)
      → Distinct xs
      → member b xs ≡ true
      → (close_all cause xs h).0 b ≡ close_active cause (h b)
  unfolding close_all
  close_all_tracked [] h b d p = ground arith
  close_all_tracked (a ∷ rest) h b d p = elim (Bool-cases (b == a)) [
    | inl e ↦
        subst
          (λ z.
            ◌≡◌ {A = ActiveConn} ((close_all cause rest (store h a (close_active cause (h a)))).0 z)
              (close_active cause (h z)))
          (sym ((==_iff b a).0 e))
          (close_all_other rest (store h a (close_active cause (h a))) a d.0
            ∙ store_self h a (close_active cause (h a)))
    | inr n ↦
        close_all_tracked rest (store h a (close_active cause (h a))) b d.1 (ground arith)
        ∙ ap (close_active cause) (store_other h a b (close_active cause (h a)) (ground arith))
  ]

  pub close_all-releases :
      (xs : List ℕ) (h : ℕ → ActiveConn)
      → Distinct xs
      → (close_all cause xs h).2 ≡ reserved_count h xs
  unfolding close_all reserved_count
  close_all-releases [] h d = refl
  close_all-releases (a ∷ rest) h d = ground (
    arith,
    close_all-releases rest (store h a (close_active cause (h a))) d.1,
    reserved_count-store h a (close_active cause (h a)) rest d.0,
  )

  -- Cancel, close the transports from the last to the first, close the resources; for each connection.
  pub effects_of : (ℕ → ActiveConn) → List ℕ → List Effect
  effects_of h [] = []
  effects_of h (a ∷ rest) =
      cancel_first (h a).cancel cause
        (close_transports (reverse ((h a).transports)) ++ close_resources a ∷ effects_of h rest)

  -- What a connection's cleanup does.
  effect_of : ActiveConn → ℕ → List Effect → List Effect
  effect_of c a rest =
      cancel_first c.cancel cause
        (close_transports (reverse (c.transports)) ++ close_resources a ∷ rest)

  effects_of-store :
      (h : ℕ → ActiveConn) (a : ℕ) (c : ActiveConn) (xs : List ℕ)
      → member a xs ≡ false
      → effects_of (store h a c) xs ≡ effects_of h xs
  unfolding effects_of
  effects_of-store h a c [] p = refl
  effects_of-store h a c (b ∷ rest) p =
      rw (store_other h a b c (ground arith), effects_of-store h a c rest (ground arith)) refl

  pub clean_up-close_all :
      (xs : List ℕ) (h : ℕ → ActiveConn)
      → Distinct xs
      → clean_up cause (close_all cause xs h).1 ≡ effects_of h xs
  unfolding clean_up close_all effects_of
  clean_up-close_all [] h d = refl
  clean_up-close_all (a ∷ rest) h d =
      rw
        (
          clean_up-close_all rest (store h a (close_active cause (h a))) d.1,
          effects_of-store h a (close_active cause (h a)) rest d.0,
        )
        refl

-- What holds of every member holds of the whole list.
pub All-member : {P : ℕ → Type 0} → (xs : List ℕ) → ((a : ℕ) → member a xs ≡ true → P a) → All P xs
All-member [] f = tt
All-member (x ∷ xs) f = (f x (ground arith), All-member xs (λ a m. f a (ground arith)))

pub all_released :
    {full : ℕ}
    → (s : ServeContext) (cause a : ℕ) → Core full s
    → ((close_all cause s.connections s.heap).0 a).startup_reserved ≡ false
all_released s cause a v = elim (Bool-cases (member a s.connections)) [
  | inl p ↦ rw (close_all_tracked cause s.connections s.heap a v.distinct p) refl
  | inr p ↦ rw (close_all_other cause s.connections s.heap a p) (ground (arith, v.untracked a))
]

pub no_startups :
    {full : ℕ}
    → (size : IntSize) (cause : ℕ) (s : ServeContext) → full < half_range size
    → Core full s
    → wrap size (s.startups -ℤ pos ((close_all cause s.connections s.heap).2)) ≡ pos 0
no_startups size cause s h v =
    let n : ℕ = reserved_count s.heap s.connections in
    rw (close_all-releases cause s.connections s.heap v.distinct, v.exact)
      (ap (wrap size) (sub-pos n n (omega arith))
        ∙ wrap-pos size (n - n) (omega (arith, v.bounded))
        ∙ ap pos (omega arith))
