-- ===== src/Algorithm/Table.antt =====
-- What the tables of names satisfy, and what the two reads return then.
use ssh_server_go.Prelude.{
  ℕ, ◌≡◌, sym, ◌∙◌, ◌≢◌, ◌⊎◌, inl, inr, Bool, true, false, not, ◌&&◌, some, [], ◌∷◌, Bytes, arith,
  ◌==◌, eq_bytes, eq_bytes_iff, Bool-cases, is_some, All, Option-cases,
}
use ssh_server_go.Algorithm.{Table, name_of, value_of, comma}

abbrev pub In : ℕ → Bytes → Table → Type 0
In c t [] = ⊥
In c t ((k, v) ∷ table) = ((c ≡ k) × (t ≡ v)) ⊎ In c t table

abbrev pub Lacks : ℕ → Bytes → Type 0
Lacks b = All (λ c. c ≢ b)

-- Every value has one name, every name one value, and no name holds the separator of the lists.
pub record IsNameTable (table : Table) : Type 0 where
  pub one_name : (c : ℕ) (t u : Bytes) → In c t table → In c u table → t ≡ u
  pub one_value : (c d : ℕ) (t : Bytes) → In c t table → In d t table → c ≡ d
  pub plain : (c : ℕ) (t : Bytes) → In c t table → Lacks comma t

-- `order` has the entries of `table`, in whatever order the inverse map was built.
pub record IsOrderOf (order table : Table) : Type 0 where
  pub sound : (c : ℕ) (t : Bytes) → In c t order → In c t table
  pub complete : (c : ℕ) (t : Bytes) → In c t table → In c t order

pub IsOrderOf-refl : (table : Table) → IsOrderOf table table
IsOrderOf-refl table = record { sound = λ c t h. h; complete = λ c t h. h }

pub In-name_of : (table : Table) (c : ℕ) {t : Bytes} → name_of table c ≡ some t → In c t table
unfolding name_of
In-name_of [] c e = cc
In-name_of ((k, v) ∷ table) c {t} e = ground (arith, In-name_of table c {t = t})

some_name :
    (table : Table) (c : ℕ) (t : Bytes) → In c t table → (u : Bytes) × (name_of table c ≡ some u)
unfolding name_of
some_name [] c t h = absurd h
some_name ((k, v) ∷ table) c t (inl (p, q)) = (v, ground arith)
some_name ((k, v) ∷ table) c t (inr h) = elim (Bool-cases (k == c)) [
  | inl e ↦ (v, rw e)
  | inr e ↦ rw e (some_name table c t h)
]

pub name_of-In :
    (table : Table) (c : ℕ) (t : Bytes)
    → IsNameTable table
    → In c t table
    → name_of table c ≡ some t
name_of-In table c t valid h =
    let (u, e) = some_name table c t h in e ∙ cc (valid.one_name c u t (In-name_of table c e) h)

pub In-value_of : (order : Table) (t : Bytes) {c : ℕ} → value_of order t ≡ some c → In c t order
unfolding value_of
In-value_of [] t e = cc
In-value_of ((k, v) ∷ order) t {c} e = ground (arith, In-value_of order t {c = c}, eq_bytes_iff v t)

some_value : (order : Table) (c : ℕ) (t : Bytes) → In c t order → is_some (value_of order t) ≡ true
unfolding value_of
some_value [] c t h = absurd h
some_value ((k, v) ∷ order) c t (inl (p, q)) = ground (arith, eq_bytes_iff v t)
some_value ((k, v) ∷ order) c t (inr h) = ground (arith, some_value order c t h)

pub value_of-In :
    (order table : Table) (c : ℕ) (t : Bytes)
    → IsNameTable table
    → IsOrderOf order table
    → In c t table
    → value_of order t ≡ some c
value_of-In order table c t valid o h = elim (Option-cases (value_of order t)) [
  | inl e ↦ absurd (ground (arith, some_value order c t (o.complete c t h)))
  | inr (d, e) ↦ e ∙ cc (valid.one_value d c t (o.sound d t (In-value_of order t e)) h)
]

-- A test of a table by evaluation.
lacks : ℕ → Bytes → Bool
lacks b [] = true
lacks b (c ∷ s) = not (c == b) && lacks b s

unfoldable pub is_name_table : Table → Bool
unfolding lacks name_of value_of eq_bytes
is_name_table [] = true
is_name_table ((k, v) ∷ table) =
    not (is_some (name_of table k))
    && (not (is_some (value_of table v)) && (lacks comma v && is_name_table table))

lacks-Lacks : (b : ℕ) (s : Bytes) → lacks b s ≡ true → Lacks b s
unfolding lacks
lacks-Lacks b [] e = tt
lacks-Lacks b (c ∷ s) e = (ground arith, lacks-Lacks b s (ground arith))

record Checked (k : ℕ) (v : Bytes) (table : Table) : Type 0 where
  no_name : is_some (name_of table k) ≡ false
  no_value : is_some (value_of table v) ≡ false
  no_comma : Lacks comma v
  rest : is_name_table table ≡ true

checked :
    (k : ℕ) (v : Bytes) (table : Table) → is_name_table ((k, v) ∷ table) ≡ true → Checked k v table
unfolding is_name_table
checked k v table e = record {
  no_name = ground arith;
  no_value = ground arith;
  no_comma = lacks-Lacks comma v (ground arith);
  rest = ground arith;
}

named : (table : Table) (c : ℕ) (t : Bytes) → In c t table → is_some (name_of table c) ≡ true
named table c t h = let (u, e) = some_name table c t h in rw e

pub is_name_table-IsNameTable : (table : Table) → is_name_table table ≡ true → IsNameTable table
is_name_table-IsNameTable [] e = record {
  one_name = λ c t u h. absurd h;
  one_value = λ c d t h. absurd h;
  plain = λ c t h. absurd h;
}
is_name_table-IsNameTable ((k, v) ∷ table) e =
    let ch : Checked k v table = checked k v table e in
    extend k v table ch (is_name_table-IsNameTable table ch.rest)
  where
    one_name' :
        (k : ℕ) (v : Bytes) (table : Table)
        → Checked k v table
        → IsNameTable table
        → (c : ℕ) (t u : Bytes) → In c t ((k, v) ∷ table)
        → In c u ((k, v) ∷ table)
        → t ≡ u
    one_name' k v table ch r c t u (inl (p, q)) (inl (p', q')) = q ∙ sym q'
    one_name' k v table ch r c t u (inl (p, q)) (inr h) =
        absurd (ground (arith, ch.no_name, named table k u (rw p at h)))
    one_name' k v table ch r c t u (inr h) (inl (p, q)) =
        absurd (ground (arith, ch.no_name, named table k t (rw p at h)))
    one_name' k v table ch r c t u (inr h) (inr h') = r.one_name c t u h h'

    one_value' :
        (k : ℕ) (v : Bytes) (table : Table)
        → Checked k v table
        → IsNameTable table
        → (c d : ℕ) (t : Bytes) → In c t ((k, v) ∷ table)
        → In d t ((k, v) ∷ table)
        → c ≡ d
    one_value' k v table ch r c d t (inl (p, q)) (inl (p', q')) = p ∙ sym p'
    one_value' k v table ch r c d t (inl (p, q)) (inr h) =
        absurd (ground (arith, ch.no_value, some_value table d v (rw q at h)))
    one_value' k v table ch r c d t (inr h) (inl (p, q)) =
        absurd (ground (arith, ch.no_value, some_value table c v (rw q at h)))
    one_value' k v table ch r c d t (inr h) (inr h') = r.one_value c d t h h'

    extend :
        (k : ℕ) (v : Bytes) (table : Table)
        → Checked k v table
        → IsNameTable table
        → IsNameTable ((k, v) ∷ table)
    extend k v table ch r = record {
      one_name = one_name' k v table ch r;
      one_value = one_value' k v table ch r;
      plain = λ c t h. elim h [ inl (p, q) ↦ rw q ch.no_comma | inr h' ↦ r.plain c t h' ];
    }
