-- ===== src/Algorithm/Lists.antt =====
-- Lists of values, separated by commas.
use ssh_server_go.Prelude.{
  ℕ, ◌+◌, ◌≡◌, refl, ap, subst, ◌∙◌, ◌↔◌, ◌⊎◌, inl, inr, true, none, some, List, [], ◌∷◌, ◌++◌,
  append_assoc, append-nil, Bytes, arith, Option-cases, ◌==◌, Bool-cases, All, length,
}
use ssh_server_go.Algorithm.{
  Table, Error, illegal_text, ok, Other, value, pointer, marshal_text, Result-cases, marshal_from,
  marshal_texts, marshal_list, unmarshal_text, unmarshal_parts, unmarshal_list, join, split, comma,
  is_equal_to, same_elements, equal_lists, is_list_equal_to,
}
use ssh_server_go.Algorithm.Table.{In, Lacks, IsNameTable, IsOrderOf}
use ssh_server_go.Algorithm.Single.{
  In-marshal_text, In-unmarshal_text, unmarshal_text-In, unmarshal_text-not-In,
  unmarshal_text_error,
}

split_plain : (t : Bytes) → Lacks comma t → split t ≡ t ∷ []
unfolding split
split_plain [] h = refl
split_plain (c ∷ t) h = ground (arith, split_plain t h.1)

split-append : (t : Bytes) (s : Bytes) → Lacks comma t → split (t ++ comma ∷ s) ≡ t ∷ split s
unfolding split
split-append [] s h = refl
split-append (c ∷ t) s h = ground (arith, split-append t s h.1)

-- `bytes.Split` undoes `bytes.Join` on a list that is not empty.
pub split-join :
    (t : Bytes) (ts : List Bytes) → All (Lacks comma) (t ∷ ts) → split (join (t ∷ ts)) ≡ t ∷ ts
unfolding join
split-join t [] h = split_plain t h.0
split-join t (u ∷ ts) h = split-append t (join (u ∷ ts)) h.0 ∙ ap (◌∷◌ t) (split-join u ts h.1)

-- The names of the values, one for one.
pub data Names (table : Table) : List ℕ → List Bytes → Type 0 where
  nil : Names table [] []
  cons :
      {c : ℕ} {t : Bytes} {cs : List ℕ} {ts : List Bytes}
      → In c t table
      → Names table cs ts
      → Names table (c ∷ cs) (t ∷ ts)

marshal_from-cons :
    (table : Table) (i c : ℕ) (cs : List ℕ) {ts : List Bytes}
    → marshal_from table i (c ∷ cs) ≡ ok ts
    → (t : Bytes) × (us : List Bytes) × (marshal_text table c ≡ ok t)
      × (marshal_from table (i + 1) cs ≡ ok us)
      × (t ∷ us ≡ ts)
unfolding marshal_from
marshal_from-cons table i c cs e = elim (Result-cases (marshal_text table c)) [
  | inr (x, p) ↦ absurd (ground arith)
  | inl (t, p) ↦ elim (Result-cases (marshal_from table (i + 1) cs)) [
    | inr (x, q) ↦ absurd (ground arith)
    | inl (us, q) ↦ (t, us, p, q, ground arith)
  ]
]

marshal_from-Names :
    (table : Table) (i : ℕ) (cs : List ℕ) {ts : List Bytes}
    → marshal_from table i cs ≡ ok ts
    → Names table cs ts
unfolding marshal_from
marshal_from-Names table i [] {ts} e =
    let same : [] ≡ ts = ground arith in subst (Names table []) same nil
marshal_from-Names table i (c ∷ cs) e =
    let (t, us, p, q, same) = marshal_from-cons table i c cs e in
    subst (Names table (c ∷ cs)) same
      (cons (In-marshal_text table c p) (marshal_from-Names table (i + 1) cs q))

Names-plain :
    (table : Table) {cs : List ℕ} {ts : List Bytes}
    → IsNameTable table
    → Names table cs ts
    → All (Lacks comma) ts
Names-plain table valid nil = tt
Names-plain table valid (cons {c} {t} h r) = (valid.plain c t h, Names-plain table valid r)

unmarshal_parts-cons :
    (order : Table) (before : List ℕ) (t : Bytes) (ts : List Bytes) (c : ℕ)
    → unmarshal_text order 0 t ≡ (c, none)
    → unmarshal_parts order before (t ∷ ts) ≡ unmarshal_parts order (before ++ c ∷ []) ts
unfolding unmarshal_parts
unmarshal_parts-cons order before t ts c e = ground arith

unmarshal_parts-Names :
    (order table : Table) {cs : List ℕ} {ts : List Bytes} (before : List ℕ)
    → IsNameTable table
    → IsOrderOf order table
    → Names table cs ts
    → unmarshal_parts order before ts ≡ (before ++ cs, none)
unfolding unmarshal_parts
unmarshal_parts-Names order table before valid o nil = rw append-nil
unmarshal_parts-Names order table before valid o (cons {c} {t} {cs} {ts} h r) =
    unmarshal_parts-cons order before t ts c (unmarshal_text-In order table 0 c t valid o h)
    ∙ (unmarshal_parts-Names order table (before ++ c ∷ []) valid o r ∙ rw append_assoc)

split-join-Names :
    (table : Table) {c : ℕ} {cs : List ℕ} {ts : List Bytes}
    → IsNameTable table
    → Names table (c ∷ cs) ts
    → split (join ts) ≡ ts
split-join-Names table valid (cons {t} {ts} h r) =
    split-join t ts (Names-plain table valid (cons h r))

-- Reading back what `MarshalText` wrote for a list that is not empty appends that list to the
-- receiver, whatever it held.
pub unmarshal_list-marshal_list :
    (order table : Table) (before : List ℕ) (c : ℕ) (cs : List ℕ) {text : Bytes}
    → IsNameTable table
    → IsOrderOf order table
    → marshal_list table (c ∷ cs) ≡ ok text
    → unmarshal_list order before text ≡ (before ++ c ∷ cs, none)
unfolding marshal_list marshal_texts unmarshal_list
unmarshal_list-marshal_list order table before c cs {text} valid o e =
    elim (Result-cases (marshal_from table 0 (c ∷ cs))) [
      | inr (x, p) ↦ absurd (ground arith)
      | inl (ts, p) ↦ read ts (marshal_from-Names table 0 (c ∷ cs) p) (ground arith)
    ]
  where
    read :
        (ts : List Bytes)
        → Names table (c ∷ cs) ts
        → join ts ≡ text
        → unmarshal_parts order before (split text) ≡ (before ++ c ∷ cs, none)
    read ts n q =
        rw (← q)
          (rw (split-join-Names table valid n) (unmarshal_parts-Names order table before valid o n))

-- `MarshalText` of the empty list is the empty text, which `UnmarshalText` refuses, where no value
-- of the table has the empty name.
pub empty_list_fails :
    (order table : Table) (before : List ℕ)
    → IsOrderOf order table
    → ((c : ℕ) → ¬ In c [] table)
    → (marshal_list table [] ≡ ok [])
      × (unmarshal_list order before [] ≡ (before, some (illegal_text [])))
unfolding marshal_list unmarshal_list marshal_texts
empty_list_fails order table before o h =
    (refl, rw (unmarshal_text-not-In order 0 [] (λ c m. h c (o.sound c [] m)), unmarshal_parts))

-- How far the loop came: `good` are the names of the values `cs`, and the text `bad` behind them is
-- the first that names no value.
pub record StopsAt (order : Table) (parts : List Bytes) (cs : List ℕ) (bad : Bytes) : Type 0 where
  pub good : List Bytes
  pub rest : List Bytes
  pub splits : parts ≡ good ++ bad ∷ rest
  pub names : Names order cs good
  pub unknown : (unmarshal_text order 0 bad).1 ≡ some (illegal_text bad)

StopsAt-cons :
    (order : Table) {t : Bytes} {parts : List Bytes} {c : ℕ} {cs : List ℕ} {bad : Bytes}
    → In c t order
    → StopsAt order parts cs bad
    → StopsAt order (t ∷ parts) (c ∷ cs) bad
StopsAt-cons order {t} h s = record {
  good = t ∷ s.good;
  rest = s.rest;
  splits = ap (◌∷◌ t) s.splits;
  names = cons h s.names;
  unknown = s.unknown;
}

pub record Partial (order : Table) (parts : List Bytes) (before after : List ℕ) (e : Error)
    : Type 0 where
  pub kept : List ℕ
  pub bad : Bytes
  pub stops : StopsAt order parts kept bad
  pub receiver : after ≡ before ++ kept
  pub reported : e ≡ illegal_text bad

unmarshal_parts_error :
    (order : Table) (before : List ℕ) (parts : List Bytes) {after : List ℕ} {e : Error}
    → unmarshal_parts order before parts ≡ (after, some e)
    → Partial order parts before after e
unfolding unmarshal_parts
unmarshal_parts_error order before [] h = absurd (ground arith)
unmarshal_parts_error order before (v ∷ vs) {after} {e} h =
    elim (Option-cases (unmarshal_text order 0 v).1) [
      | inr (failure, p) ↦ record {
        kept = [];
        bad = v;
        stops = record {
          good = [];
          rest = vs;
          splits = refl;
          names = nil;
          unknown = ground (arith, unmarshal_text_error order 0 v p);
        };
        receiver = rw append-nil (ground arith);
        reported = ground (arith, unmarshal_text_error order 0 v p);
      }
      | inl p ↦
          let buf : ℕ = (unmarshal_text order 0 v).0 in
          let r : Partial order vs (before ++ buf ∷ []) after e =
            unmarshal_parts_error order (before ++ buf ∷ []) vs (ground arith) in
          record {
            kept = buf ∷ r.kept;
            bad = r.bad;
            stops = StopsAt-cons order (In-unmarshal_text order 0 buf v (ground arith)) r.stops;
            receiver = r.receiver ∙ append_assoc before (buf ∷ []) r.kept;
            reported = r.reported;
          }
    ]

-- `UnmarshalText` of a list is not atomic: where it fails, the receiver has been extended by the
-- values in front of the first text that names none, and the error reports that text.
pub unmarshal_list_error :
    (order : Table) (before : List ℕ) (text : Bytes) {after : List ℕ} {e : Error}
    → unmarshal_list order before text ≡ (after, some e)
    → Partial order (split text) before after e
unfolding unmarshal_list
unmarshal_list_error order before text h = unmarshal_parts_error order before (split text) h

same_elements_iff :
    (cs os : List ℕ) → length cs ≡ length os → (same_elements cs os ≡ true) ↔ (cs ≡ os)
unfolding same_elements is_equal_to
same_elements_iff [] [] h = ground arith
same_elements_iff [] (o ∷ os) h = absurd (omega arith)
same_elements_iff (c ∷ cs) [] h = absurd (omega arith)
same_elements_iff (c ∷ cs) (o ∷ os) h = ground (arith, same_elements_iff cs os)

equal_lists_iff : (cs os : List ℕ) → (equal_lists cs os ≡ true) ↔ (cs ≡ os)
unfolding equal_lists
equal_lists_iff cs os = elim (Bool-cases (length cs == length os)) [
  | inl e ↦ rw e (same_elements_iff cs os (ground arith))
  | inr e ↦ ((λ h. absurd (ground arith)), (λ h. absurd (ground (arith, ap length h))))
]

-- `IsEqualTo` of a list holds of the same list, plain or behind a pointer, and of nothing else.
pub is_list_equal_to_iff :
    (cs : List ℕ) (other : Other (List ℕ))
    → (is_list_equal_to cs other ≡ true) ↔ ((other ≡ value cs) ⊎ (other ≡ pointer (some cs)))
unfolding is_list_equal_to
is_list_equal_to_iff cs Other.nil = ground arith
is_list_equal_to_iff cs (value os) = ground (arith, equal_lists_iff cs os)
is_list_equal_to_iff cs (pointer none) = ground arith
is_list_equal_to_iff cs (pointer (some os)) = ground (arith, equal_lists_iff cs os)
is_list_equal_to_iff cs Other.unrelated = ground arith
