-- ===== src/Algorithm/Single.antt =====
-- One value: its name and the way back.
use ssh_server_go.Prelude.{ℕ, ◌≡◌, ◌↔◌, ◌⊎◌, inl, inr, true, none, some, Bytes, arith, Option-cases}
use ssh_server_go.Algorithm.{
  Table, Error, illegal_text, ok, Other, value, pointer, value_of, marshal_text, unmarshal_text,
  is_equal_to,
}
use ssh_server_go.Algorithm.Table.{
  In, IsNameTable, IsOrderOf, In-name_of, name_of-In, In-value_of, value_of-In,
}

pub In-marshal_text :
    (table : Table) (c : ℕ) {t : Bytes} → marshal_text table c ≡ ok t → In c t table
unfolding marshal_text
In-marshal_text table c {t} e = In-name_of table c (ground arith)

pub marshal_text-In :
    (table : Table) (c : ℕ) (t : Bytes)
    → IsNameTable table
    → In c t table
    → marshal_text table c ≡ ok t
unfolding marshal_text
marshal_text-In table c t valid h = ground (arith, name_of-In table c t valid h)

pub unmarshal_text-In :
    (order table : Table) (old c : ℕ) (t : Bytes)
    → IsNameTable table
    → IsOrderOf order table
    → In c t table
    → unmarshal_text order old t ≡ (c, none)
unfolding unmarshal_text
unmarshal_text-In order table old c t valid o h =
    ground (arith, value_of-In order table c t valid o h)

pub In-unmarshal_text :
    (order : Table) (old c : ℕ) (t : Bytes) → unmarshal_text order old t ≡ (c, none) → In c t order
unfolding unmarshal_text
In-unmarshal_text order old c t e = elim (Option-cases (value_of order t)) [
  | inl n ↦ absurd (ground arith)
  | inr (d, s) ↦ In-value_of order t (ground arith)
]

pub unmarshal_text-not-In :
    (order : Table) (old : ℕ) (t : Bytes)
    → ((c : ℕ) → ¬ In c t order)
    → unmarshal_text order old t ≡ (old, some (illegal_text t))
unfolding unmarshal_text
unmarshal_text-not-In order old t h = elim (Option-cases (value_of order t)) [
  | inl n ↦ ground arith
  | inr (d, s) ↦ absurd (h d (In-value_of order t s))
]

-- `MarshalText` of `c` gives the text `t` exactly when `UnmarshalText` of `t`, into whatever value the
-- receiver had, succeeds and leaves `c` there. `table` is a valid table of names, and `order` its
-- entries in the order in which the inverse map was built.
pub unmarshal_text-marshal_text :
    (order table : Table) (old c : ℕ) (t : Bytes)
    → IsNameTable table
    → IsOrderOf order table
    → (marshal_text table c ≡ ok t) ↔ (unmarshal_text order old t ≡ (c, none))
unmarshal_text-marshal_text order table old c t valid o = (
  (λ e. unmarshal_text-In order table old c t valid o (In-marshal_text table c e)),
  (λ e. marshal_text-In table c t valid (o.sound c t (In-unmarshal_text order old c t e))),
)

-- A call that fails leaves the receiver, and reports the text.
pub unmarshal_text_error :
    (order : Table) (old : ℕ) (t : Bytes) {e : Error}
    → (unmarshal_text order old t).1 ≡ some e
    → unmarshal_text order old t ≡ (old, some (illegal_text t))
unfolding unmarshal_text
unmarshal_text_error order old t h = ground arith

-- `IsEqualTo` holds of the same value, plain or behind a pointer, and of nothing else.
pub is_equal_to_iff :
    (c : ℕ) (other : Other ℕ)
    → (is_equal_to c other ≡ true) ↔ ((other ≡ value c) ⊎ (other ≡ pointer (some c)))
unfolding is_equal_to
is_equal_to_iff c Other.nil = ground arith
is_equal_to_iff c (value v) = ground arith
is_equal_to_iff c (pointer none) = ground arith
is_equal_to_iff c (pointer (some v)) = ground arith
is_equal_to_iff c Other.unrelated = ground arith
