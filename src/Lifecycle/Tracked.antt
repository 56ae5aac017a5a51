-- ===== src/Lifecycle/Tracked.antt =====
-- Lists of tracked connections: membership, deletion, and how many hold a startup.
use ssh_server_go.Prelude.{
  ℕ, ◌+◌, ◌≡◌, refl, true, false, List, [], ◌∷◌, arith, ◌==◌, Bool-cases, inl, inr, subst, sym,
  ==_iff, member, delete, one,
}
use ssh_server_go.Lifecycle.{ActiveConn, store}

-- How many of the connections hold a startup.
unfoldable pub reserved_count : (ℕ → ActiveConn) → List ℕ → ℕ
reserved_count h [] = 0
reserved_count h (a ∷ xs) = one ((h a).startup_reserved) + reserved_count h xs

-- No address twice.
abbrev pub Distinct : List ℕ → Type 0
Distinct [] = Unit {0}
Distinct (a ∷ xs) = (member a xs ≡ false) × Distinct xs

pub reserved_count-store :
    (h : ℕ → ActiveConn) (a : ℕ) (c : ActiveConn) (xs : List ℕ)
    → member a xs ≡ false
    → reserved_count (store h a c) xs ≡ reserved_count h xs
unfolding reserved_count
reserved_count-store h a c [] p = refl
reserved_count-store h a c (b ∷ bs) p = ground (arith, reserved_count-store h a c bs)

reserved_count_here :
    (h : ℕ → ActiveConn) (a b : ℕ) (c : ActiveConn) (bs : List ℕ)
    → b ≡ a
    → (a == b) ≡ true
    → member b bs ≡ false
    → reserved_count (store h a c) (b ∷ bs) + one ((h a).startup_reserved)
      ≡ reserved_count h (b ∷ bs) + one (c.startup_reserved)
unfolding reserved_count
reserved_count_here h a b c bs e q p =
    let m : member a bs ≡ false = subst (λ x. member x bs ≡ false) e p in
    rw (q, reserved_count-store h a c bs m, e) (omega arith)

-- What a new value at a tracked address does to the count.
pub reserved_count-member :
    (h : ℕ → ActiveConn) (a : ℕ) (c : ActiveConn) (xs : List ℕ)
    → Distinct xs
    → member a xs ≡ true
    → reserved_count (store h a c) xs + one ((h a).startup_reserved)
      ≡ reserved_count h xs + one (c.startup_reserved)
unfolding reserved_count
reserved_count-member h a c [] d p = ground arith
reserved_count-member h a c (b ∷ bs) d p = elim (Bool-cases (a == b)) [
  | inl e ↦ reserved_count_here h a b c bs (sym ((==_iff a b).0 e)) e d.0
  | inr n ↦ ground (arith, reserved_count-member h a c bs d.1)
]

pub member-delete : (a b : ℕ) (xs : List ℕ) → member b xs ≡ false → member b (delete a xs) ≡ false
member-delete a b [] p = refl
member-delete a b (c ∷ cs) p = ground (arith, member-delete a b cs)

pub member-delete_self : (a : ℕ) (xs : List ℕ) → member a (delete a xs) ≡ false
member-delete_self a [] = refl
member-delete_self a (c ∷ cs) = ground (arith, member-delete_self a cs)

pub member-delete_other :
    (a b : ℕ) (xs : List ℕ) → (b == a) ≡ false → member b (delete a xs) ≡ member b xs
member-delete_other a b [] p = refl
member-delete_other a b (c ∷ cs) p = ground (arith, member-delete_other a b cs p)

pub Distinct-delete : (a : ℕ) (xs : List ℕ) → Distinct xs → Distinct (delete a xs)
Distinct-delete a [] d = d
Distinct-delete a (b ∷ bs) d = elim (Bool-cases (a == b)) [
  | inl e ↦ rw e (Distinct-delete a bs d.1)
  | inr n ↦ rw n (member-delete a b bs d.0, Distinct-delete a bs d.1)
]

-- Deleting an address that holds no startup leaves the count.
pub reserved_count-delete :
    (h : ℕ → ActiveConn) (a : ℕ) (xs : List ℕ)
    → (h a).startup_reserved ≡ false
    → reserved_count h (delete a xs) ≡ reserved_count h xs
unfolding reserved_count
reserved_count-delete h a [] p = refl
reserved_count-delete h a (b ∷ bs) p = ground (arith, reserved_count-delete h a bs p)
