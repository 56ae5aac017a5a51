-- ===== src/Algorithm.antt =====
-- The part that cipher.go, key-exchange.go and message-authentication.go share: the three files are
-- one text over three tables of names. The lines named are those of cipher.go; the modules Cipher,
-- KeyExchange and MessageAuthentication have the tables. A value is its `uint8`.
pub mod Table
pub mod Single
pub mod Lists
use ssh_server_go.Prelude.{
  ℕ, ◌≡◌, refl, ◌⊎◌, inl, inr, ◌+◌, ◌/◌, ◌%◌, Bool, true, false, ◌&&◌, Option, none, some, List, [],
  ◌∷◌, ◌++◌, Bytes, ltb, ◌==◌, if◌then◌else◌, eq_bytes, codes, length, is_some,
}

-- A Go map from values to names, an entry for each key.
abbrev pub Table : Type 0
Table = List (ℕ × Bytes)

pub data Error : Type 0 where
  illegal_value : ℕ → Error
  illegal_text : Bytes → Error
  at_index : ℕ → Error → Error

pub data Result {ℓ} (A : Type ℓ) : Type ℓ where
  ok : A → Result A
  err : Error → Result A

pub Result-cases {ℓ} :
    {A : Type ℓ} (r : Result A) → ((a : A) × (r ≡ ok a)) ⊎ ((e : Error) × (r ≡ err e))
Result-cases (ok a) = inl (a, refl)
Result-cases (err e) = inr (e, refl)

infixl 5 ◌>>=◌
abbrev pub ◌>>=◌ {ℓ κ} : {A : Type ℓ} {B : Type κ} → Result A → (A → Result B) → Result B
ok a >>= f = f a
err e >>= f = err e

-- What an argument of type `any` may be: `nil`, the type itself, a pointer to it, or another type.
pub data Other (A : Type 0) : Type 0 where
  nil : Other A
  value : A → Other A
  pointer : Option A → Other A
  unrelated : Other A

-- `%d` of a `uint8`
abbrev digit : ℕ → ℕ
digit n = b'0' + n % 10

unfoldable pub decimal : ℕ → Bytes
decimal n =
    if ltb n 10
    then digit n ∷ []
    else if ltb n 100
    then digit (n / 10) ∷ digit n ∷ []
    else digit (n / 100) ∷ digit (n / 10) ∷ digit n ∷ []

-- Reads of the map, and of its inverse, which was built by one write for each entry, so that the
-- last entry of a name counts. Go leaves the order of the entries open.
unfoldable pub name_of : Table → ℕ → Option Bytes
name_of [] c = none
name_of ((k, v) ∷ table) c = if k == c then some v else name_of table c

unfoldable pub value_of : Table → Bytes → Option ℕ
unfolding eq_bytes
value_of [] text = none
value_of ((k, v) ∷ order) text =
    let rest = value_of order text in
    if is_some rest then rest else if eq_bytes v text then some k else none

module _ (table : Table) where
  unfoldable pub marshal_text : ℕ → Result Bytes
  unfolding name_of
  marshal_text c = elim (name_of table c) [ some v ↦ ok v | none ↦ err (illegal_value c) ]

  unfoldable pub validate : ℕ → Option Error
  unfolding marshal_text
  validate c = elim (marshal_text c) [ ok text ↦ none | err e ↦ some e ]

  -- `prefix` is the text in front of `%d`.
  unfoldable pub to_string : Bytes → ℕ → Bytes
  unfolding marshal_text decimal
  to_string prefix c = elim (marshal_text c) [ ok v ↦ v | err e ↦ prefix ++ decimal c ]

-- The new value of the receiver, and the error.
unfoldable pub unmarshal_text : Table → ℕ → Bytes → ℕ × Option Error
unfolding value_of
unmarshal_text order c text = elim (value_of order text) [
  | some v ↦ (v, none)
  | none ↦ (c, some (illegal_text text))
]

unfoldable pub is_equal_to : ℕ → Other ℕ → Bool
is_equal_to c nil = false
is_equal_to c (value v) = c == v
is_equal_to c (pointer none) = false
is_equal_to c (pointer (some v)) = c == v
is_equal_to c unrelated = false

-- The loop of `MarshalTexts` from index `i` on.
marshal_from : Table → ℕ → List ℕ → Result (List Bytes)
unfolding marshal_text
marshal_from table i [] = ok []
marshal_from table i (v ∷ vs) = elim (marshal_text table v) [
  | err e ↦ err (at_index i e)
  | ok text ↦ (do texts ← marshal_from table (i + 1) vs; ok (text ∷ texts))
]

unfoldable pub marshal_texts : Table → List ℕ → Result (List Bytes)
unfolding marshal_from
marshal_texts table cs = marshal_from table 0 cs

abbrev pub comma : ℕ
comma = b','

-- `bytes.Join(texts, ",")` and `bytes.Split(text, ",")`
unfoldable pub join : List Bytes → Bytes
join [] = []
join (t ∷ []) = t
join (t ∷ u ∷ ts) = t ++ comma ∷ join (u ∷ ts)

abbrev onto_first : ℕ → List Bytes → List Bytes
onto_first c [] = (c ∷ []) ∷ []
onto_first c (t ∷ ts) = (c ∷ t) ∷ ts

unfoldable pub split : Bytes → List Bytes
split [] = [] ∷ []
split (c ∷ s) = let rest = split s in if c == comma then [] ∷ rest else onto_first c rest

unfoldable pub marshal_list : Table → List ℕ → Result Bytes
unfolding marshal_texts join
marshal_list table cs = do texts ← marshal_texts table cs; ok (join texts)

-- The loop of `UnmarshalText` of the list, from the receiver that it has built so far.
unfoldable pub unmarshal_parts : Table → List ℕ → List Bytes → List ℕ × Option Error
unfolding unmarshal_text
unmarshal_parts order cs [] = (cs, none)
unmarshal_parts order cs (v ∷ vs) =
    let (buf, e) = unmarshal_text order 0 v in
    elim e [ some failure ↦ (cs, some failure) | none ↦ unmarshal_parts order (cs ++ buf ∷ []) vs ]

unfoldable pub unmarshal_list : Table → List ℕ → Bytes → List ℕ × Option Error
unfolding unmarshal_parts split
unmarshal_list order cs text = unmarshal_parts order cs (split text)

-- Equal lengths first, then element by element.
same_elements : List ℕ → List ℕ → Bool
same_elements [] others = true
same_elements (c ∷ cs) [] = true
same_elements (c ∷ cs) (o ∷ os) = is_equal_to c (pointer (some o)) && same_elements cs os

equal_lists : List ℕ → List ℕ → Bool
unfolding same_elements is_equal_to
equal_lists cs others = if length cs == length others then same_elements cs others else false

unfoldable pub is_list_equal_to : List ℕ → Other (List ℕ) → Bool
unfolding equal_lists
is_list_equal_to cs nil = false
is_list_equal_to cs (value others) = equal_lists cs others
is_list_equal_to cs (pointer none) = false
is_list_equal_to cs (pointer (some others)) = equal_lists cs others
is_list_equal_to cs unrelated = false

-- `slices.Contains`
unfoldable pub contains : List ℕ → ℕ → Bool
contains [] v = false
contains (c ∷ cs) v = if c == v then true else contains cs v
