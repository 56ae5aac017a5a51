-- ===== src/ErrorNames/Texts.antt =====
-- The tables of error-handling.go, and the way back from a name.
use ssh_server_go.Prelude.{
  ℕ, ◌≡◌, refl, ◌∙◌, ◌↔◌, inl, inr, true, none, some, [], ◌∷◌, Bytes, arith, eq_bytes_iff, is_some,
  Option-cases,
}
use ssh_server_go.Algorithm.{Table, ok, marshal_text}
use ssh_server_go.Algorithm.Table.{
  In, IsNameTable, IsOrderOf, is_name_table, is_name_table-IsNameTable,
}
use ssh_server_go.Algorithm.Single.{In-marshal_text, marshal_text-In}
use ssh_server_go.ErrorNames.{scope_names, operation_names, first_value, unmarshal_name}

In-first_value : (order : Table) (t : Bytes) {c : ℕ} → first_value order t ≡ some c → In c t order
unfolding first_value
In-first_value [] t e = cc
In-first_value ((k, v) ∷ order) t {c} e =
    ground (arith, In-first_value order t {c = c}, eq_bytes_iff v t)

some_first :
    (order : Table) (c : ℕ) (t : Bytes) → In c t order → is_some (first_value order t) ≡ true
unfolding first_value
some_first [] c t h = absurd h
some_first ((k, v) ∷ order) c t (inl (p, q)) = ground (arith, eq_bytes_iff v t)
some_first ((k, v) ∷ order) c t (inr h) = ground (arith, some_first order c t h)

first_value-In :
    (order table : Table) (c : ℕ) (t : Bytes)
    → IsNameTable table
    → IsOrderOf order table
    → In c t table
    → first_value order t ≡ some c
first_value-In order table c t valid o h = elim (Option-cases (first_value order t)) [
  | inl e ↦ absurd (ground (arith, some_first order c t (o.complete c t h)))
  | inr (d, e) ↦ e ∙ cc (valid.one_value d c t (o.sound d t (In-first_value order t e)) h)
]

In-unmarshal_name :
    (order : Table) (old c : ℕ) (t : Bytes) → unmarshal_name order old t ≡ (c, none) → In c t order
unfolding unmarshal_name
In-unmarshal_name order old c t e = elim (Option-cases (first_value order t)) [
  | inl n ↦ absurd (ground arith)
  | inr (d, s) ↦ In-first_value order t (ground arith)
]

-- `MarshalText` of `c` gives the text `t` exactly when `UnmarshalText` of `t`, in whatever order the
-- map is ranged over, succeeds and leaves `c`, for a valid table of names.
pub unmarshal_name-marshal_text :
    (order table : Table) (old c : ℕ) (t : Bytes)
    → IsNameTable table
    → IsOrderOf order table
    → (marshal_text table c ≡ ok t) ↔ (unmarshal_name order old t ≡ (c, none))
unfolding unmarshal_name
unmarshal_name-marshal_text order table old c t valid o = (
  λ m. rw (first_value-In order table c t valid o (In-marshal_text table c m)) refl,
  λ u. marshal_text-In table c t valid (o.sound c t (In-unmarshal_name order old c t u)),
)

-- The tables of the scopes and of the operations are valid: each value has one name, and each name one
-- value.
pub error_tables-IsNameTable : IsNameTable scope_names × IsNameTable operation_names
unfolding is_name_table
error_tables-IsNameTable =
    (is_name_table-IsNameTable scope_names refl, is_name_table-IsNameTable operation_names refl)
