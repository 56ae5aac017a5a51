-- ===== src/Limiter/Sequential.antt =====
-- What a whole chain of limiters does when nothing runs in between: `reserve` counts at every level
-- or at none.
use ssh_server_go.Prelude.{
  ℕ, ◌≡◌, refl, sym, ap, ◌∙◌, Bool, true, false, not, ◌&&◌, none, some, List, [], ◌∷◌, arith, ◌==◌,
  if◌then◌else◌, Bool-cases, inl, inr, subst,
}
use ssh_server_go.Prelude.Int.{ℤ, pos, negsuc, ltb_ℤ}
use ssh_server_go.Limiter.{
  Counters, set, add, add64, ResourceLimiter, nil, limiter, limited, overshoots, give_back, reserve,
  release, ConnectionChannelLimiter, reserve_channel, release_channel,
}
use ssh_server_go.Limiter.Store.{
  IsCount, set-set, set_self, set_comm, set_other, set_here, add64_up, add64_down,
}

-- The levels of a chain that count: the address of the counter, and the limit.
unfoldable pub levels : ResourceLimiter → List (ℕ × ℤ)
levels nil = []
levels (limiter limit none parent) = levels parent
levels (limiter limit (some a) parent) =
    if limited limit then (a, limit) ∷ levels parent else levels parent

abbrev pub Fresh : ℕ → List (ℕ × ℤ) → Type 0
Fresh a [] = Unit {0}
Fresh a ((b, limit) ∷ ls) = ((a == b) ≡ false) × Fresh a ls

-- No two levels share a counter.
abbrev pub Distinct : List (ℕ × ℤ) → Type 0
Distinct [] = Unit {0}
Distinct ((a, limit) ∷ ls) = Fresh a ls × Distinct ls

abbrev pub Counts : List (ℕ × ℤ) → Counters → Type 0
Counts [] s = Unit {0}
Counts ((a, limit) ∷ ls) s = IsCount (s a) × Counts ls s

-- Every level is below its limit.
unfoldable pub has_room : List (ℕ × ℤ) → Counters → Bool
has_room [] s = true
has_room ((a, limit) ∷ ls) s = ltb_ℤ (s a) limit && has_room ls s

-- One more at every level.
unfoldable pub count_up : List (ℕ × ℤ) → Counters → Counters
count_up [] s = s
count_up ((a, limit) ∷ ls) s = count_up ls (add s a (pos 1))

Counts-set :
    (ls : List (ℕ × ℤ)) (s : Counters) (a : ℕ) (v : ℤ)
    → Fresh a ls
    → Counts ls s
    → Counts ls (set s a v)
Counts-set [] s a v f c = tt
Counts-set ((b, limit) ∷ ls) s a v f c = (rw f.0 c.0, Counts-set ls s a v f.1 c.1)

has_room-set :
    (ls : List (ℕ × ℤ)) (s : Counters) (a : ℕ) (v : ℤ)
    → Fresh a ls
    → has_room ls (set s a v) ≡ has_room ls s
unfolding has_room
has_room-set [] s a v f = refl
has_room-set ((b, limit) ∷ ls) s a v f = rw (f.0, has_room-set ls s a v f.1)

count_up-set :
    (ls : List (ℕ × ℤ)) (s : Counters) (a : ℕ) (v : ℤ)
    → Fresh a ls
    → count_up ls (set s a v) ≡ set (count_up ls s) a v
unfolding count_up
count_up-set [] s a v f = refl
count_up-set ((b, limit) ∷ ls) s a v f =
    ap (count_up ls) (
      ap (λ n. set (set s a v) b (add64 n (pos 1))) (set_other s a b v f.0)
      ∙ set_comm s a b v _ f.0)
    ∙ count_up-set ls (add s b (pos 1)) a v f.1

apart : (a b : ℕ) → (a == b) ≡ false → (b == a) ≡ false
apart a b h = ground arith

count_up-Fresh : (ls : List (ℕ × ℤ)) (s : Counters) (a : ℕ) → Fresh a ls → count_up ls s a ≡ s a
unfolding count_up
count_up-Fresh [] s a f = refl
count_up-Fresh ((b, limit) ∷ ls) s a f =
    count_up-Fresh ls (add s b (pos 1)) a f.1 ∙ set_other s b a _ (apart a b f.0)

add_restore : (s : Counters) (a : ℕ) → IsCount (s a) → add (add s a (pos 1)) a (negsuc 0) ≡ s
add_restore s a c =
    set-set s a _ _
    ∙ ap (set s a) (ap (λ v. add64 v (negsuc 0)) (set_here s a _) ∙ add64_down (s a) c)
    ∙ set_self s a

-- What `reserve` gives on a chain: all or nothing.
abbrev pub all_or_nothing : List (ℕ × ℤ) → Counters → Bool × Counters
all_or_nothing ls s = if has_room ls s then (true, count_up ls s) else (false, s)

overshoots-ltb :
    (v limit : ℤ) → IsCount v → overshoots limit (add64 v (pos 1)) ≡ not (ltb_ℤ v limit)
overshoots-ltb v limit c = rw (add64_up v c) (ground arith)

level_result :
    (t r : Bool) (up counted s : Counters) (a : ℕ)
    → add counted a (negsuc 0) ≡ s
    → (if not t
        then (false, add counted a (negsuc 0))
        else give_back a (if r then (true, up) else (false, counted)))
      ≡ (if t && r then (true, up) else (false, s))
level_result true true up counted s a h = refl
level_result true false up counted s a h = rw h
level_result false r up counted s a h = rw h

reserve_level :
    (limit : ℤ) (a : ℕ) (parent : ResourceLimiter) (s : Counters)
    → limited limit ≡ true
    → Fresh a (levels parent)
    → IsCount (s a)
    → reserve parent (add s a (pos 1)) ≡ all_or_nothing (levels parent) (add s a (pos 1))
    → reserve (limiter limit (some a) parent) s ≡ all_or_nothing ((a, limit) ∷ levels parent) s
unfolding reserve has_room count_up
reserve_level limit a parent s l f c ih =
    let e : overshoots limit (add s a (pos 1) a) ≡ not (ltb_ℤ (s a) limit) =
      ap (overshoots limit) (set_here s a (add64 (s a) (pos 1))) ∙ overshoots-ltb (s a) limit c in
    rw (l, e, ih, has_room-set (levels parent) s a (add64 (s a) (pos 1)) f)
      (level_result (ltb_ℤ (s a) limit) (has_room (levels parent) s)
        (count_up (levels parent) (add s a (pos 1))) (add s a (pos 1)) s a (add_restore s a c))

levels_on :
    (limit : ℤ) (a : ℕ) (parent : ResourceLimiter)
    → limited limit ≡ true
    → levels (limiter limit (some a) parent) ≡ (a, limit) ∷ levels parent
unfolding levels
levels_on limit a parent l = rw l

levels_off :
    (limit : ℤ) (a : ℕ) (parent : ResourceLimiter)
    → limited limit ≡ false
    → levels (limiter limit (some a) parent) ≡ levels parent
unfolding levels
levels_off limit a parent l = rw l

reserve_off :
    (limit : ℤ) (a : ℕ) (parent : ResourceLimiter) (s : Counters)
    → limited limit ≡ false
    → reserve (limiter limit (some a) parent) s ≡ reserve parent s
unfolding reserve
reserve_off limit a parent s l = rw l

reserve_nil : (s : Counters) → reserve nil s ≡ all_or_nothing (levels nil) s
unfolding reserve levels has_room count_up
reserve_nil s = refl

reserve-none :
    (limit : ℤ) (parent : ResourceLimiter) (s : Counters)
    → reserve parent s ≡ all_or_nothing (levels parent) s
    → reserve (limiter limit none parent) s ≡ all_or_nothing (levels (limiter limit none parent)) s
unfolding reserve levels
reserve-none limit parent s ih = ih

-- The levels of a chain, with what its theorems assume of them.
pub record IsReady (l : ResourceLimiter) (s : Counters) : Type 0 where
  pub distinct : Distinct (levels l)
  pub counts : Counts (levels l) s

-- A reservation succeeds exactly when every level is below its limit. Then every level counts one
-- more, and otherwise no counter changes. No two levels share a counter, and each is a count with
-- room in an `int64`.
pub reserve-all_or_nothing :
    (l : ResourceLimiter) (s : Counters) → IsReady l s → reserve l s ≡ all_or_nothing (levels l) s
reserve-all_or_nothing nil s h = reserve_nil s
reserve-all_or_nothing (limiter limit none parent) s h = reserve-none limit parent s (
    reserve-all_or_nothing parent s
      (record { distinct = unfold levels in h.distinct; counts = unfold levels in h.counts }))
reserve-all_or_nothing (limiter limit (some a) parent) s h = elim (Bool-cases (limited limit)) [
  | inl l ↦
      let e = levels_on limit a parent l in
      let d : Fresh a (levels parent) × Distinct (levels parent) = subst Distinct e h.distinct in
      let c : IsCount (s a) × Counts (levels parent) s = subst (λ ls. Counts ls s) e h.counts in
      rw e (
        reserve_level limit a parent s l d.0 c.0 (
          reserve-all_or_nothing parent (add s a (pos 1))
            (record { distinct = d.1; counts = Counts-set (levels parent) s a _ d.0 c.1 })))
  | inr l ↦
      let e = levels_off limit a parent l in
      rw e (
        reserve_off limit a parent s l
        ∙ reserve-all_or_nothing parent s (record {
          distinct = subst Distinct e h.distinct;
          counts = subst (λ ls. Counts ls s) e h.counts;
        }))
]

release_level :
    (limit : ℤ) (a : ℕ) (parent : ResourceLimiter) (s : Counters)
    → limited limit ≡ true
    → Fresh a (levels parent)
    → IsCount (s a)
    → release parent (count_up (levels parent) s) ≡ s
    → release (limiter limit (some a) parent) (count_up ((a, limit) ∷ levels parent) s) ≡ s
unfolding release count_up
release_level limit a parent s l f c ih = rw l (
    ap (release parent) (
      ap (λ t. add t a (negsuc 0)) (count_up-set (levels parent) s a _ f)
      ∙ set-set (count_up (levels parent) s) a _ _
      ∙ ap (set (count_up (levels parent) s) a) (
          ap (λ v. add64 v (negsuc 0)) (set_here (count_up (levels parent) s) a _)
          ∙ add64_down (s a) c
          ∙ sym (count_up-Fresh (levels parent) s a f))
      ∙ set_self (count_up (levels parent) s) a)
    ∙ ih)

release_off :
    (limit : ℤ) (a : ℕ) (parent : ResourceLimiter) (s : Counters)
    → limited limit ≡ false
    → release (limiter limit (some a) parent) s ≡ release parent s
unfolding release
release_off limit a parent s l = rw l

release-none :
    (limit : ℤ) (parent : ResourceLimiter) (s : Counters)
    → release parent (count_up (levels parent) s) ≡ s
    → release (limiter limit none parent) (count_up (levels (limiter limit none parent)) s) ≡ s
unfolding release levels
release-none limit parent s ih = ih

-- `release` undoes the count of a reservation at every level.
pub release-count_up :
    (l : ResourceLimiter) (s : Counters) → IsReady l s → release l (count_up (levels l) s) ≡ s
release-count_up nil s h = unfold release levels count_up in refl
release-count_up (limiter limit none parent) s h = release-none limit parent s (
    release-count_up parent s
      (record { distinct = unfold levels in h.distinct; counts = unfold levels in h.counts }))
release-count_up (limiter limit (some a) parent) s h = elim (Bool-cases (limited limit)) [
  | inl l ↦
      let e = levels_on limit a parent l in
      let d : Fresh a (levels parent) × Distinct (levels parent) = subst Distinct e h.distinct in
      let c : IsCount (s a) × Counts (levels parent) s = subst (λ ls. Counts ls s) e h.counts in
      rw e (
        release_level limit a parent s l d.0 c.0
          (release-count_up parent s (record { distinct = d.1; counts = c.1 })))
  | inr l ↦
      let e = levels_off limit a parent l in
      rw e (
        release_off limit a parent _ l
        ∙ release-count_up parent s (record {
          distinct = subst Distinct e h.distinct;
          counts = subst (λ ls. Counts ls s) e h.counts;
        }))
]

-- A successful reservation, and its release with nothing in between, leave every counter as it was.
-- No two levels share a counter, and each is a count with room in an `int64`.
pub release-reserve :
    (l : ResourceLimiter) (s : Counters)
    → IsReady l s
    → (reserve l s).0 ≡ true
    → release l (reserve l s).1 ≡ s
release-reserve l s h r = elim (Bool-cases (has_room (levels l) s)) [
  | inl room ↦ rw (reserve-all_or_nothing l s h, room) (release-count_up l s h)
  | inr full ↦ absurd (ground (arith, reserve-all_or_nothing l s h))
]

by_flag : (r : Bool × Counters) → (if r.0 then (true, r.1) else (false, r.1)) ≡ r
by_flag (true, s) = refl
by_flag (false, s) = refl

-- A connection's channel limiter does what a resource limiter over the same counter and parent does.
pub reserve_channel-reserve :
    (l : ConnectionChannelLimiter) (s : Counters)
    → (reserve_channel (some l) s ≡ reserve (limiter l.limit (some l.active) l.global) s)
      × (release_channel (some l) s ≡ release (limiter l.limit (some l.active) l.global) s)
unfolding reserve_channel reserve release_channel release
reserve_channel-reserve l s = (
  elim (Bool-cases (limited l.limit)) [
    | inl on ↦ rw on
    | inr off ↦ rw off (by_flag (reserve l.global s))
  ],
  refl,
)
