-- ===== src/ErrorNames.antt =====
-- error-handling.go: the text forms of `ErrorScope` and `ErrorOperation`. Reading goes through the map
-- of names itself, in whatever order Go ranges over it.
pub mod Texts
mod Examples
use ssh_server_go.Prelude.{
  ℕ, Option, none, some, List, [], ◌∷◌, Bytes, codes, eq_bytes, if◌then◌else◌,
}
use ssh_server_go.Algorithm
use ssh_server_go.Algorithm.{Table, Error, illegal_text, Result}

abbrev pub scope_names : Table
scope_names =
    (0, codes "server")
    ∷ (1, codes "connection")
    ∷ (2, codes "request")
    ∷ (3, codes "channel")
    ∷ (4, codes "session")
    ∷ (5, codes "forwarding")
    ∷ []

abbrev pub operation_names : Table
operation_names =
    (0, codes "accept")
    ∷ (1, codes "parse")
    ∷ (2, codes "handle")
    ∷ (3, codes "reply")
    ∷ (4, codes "handshake")
    ∷ (5, codes "dial")
    ∷ (6, codes "listen")
    ∷ (7, codes "open-channel")
    ∷ (8, codes "forward")
    ∷ []

-- The loop over the map: the first entry with the name.
unfoldable pub first_value : Table → Bytes → Option ℕ
unfolding eq_bytes
first_value [] text = none
first_value ((k, v) ∷ order) text = if eq_bytes v text then some k else first_value order text

abbrev pub found_value : ℕ → Bytes → Option ℕ → ℕ × Option Error
found_value old text (some k) = (k, none)
found_value old text none = (old, some (illegal_text text))

-- `UnmarshalText`: the new value of the receiver, and the error.
unfoldable pub unmarshal_name : Table → ℕ → Bytes → ℕ × Option Error
unfolding first_value
unmarshal_name order old text = found_value old text (first_value order text)

abbrev pub marshal_scope : ℕ → Result Bytes
marshal_scope = Algorithm.marshal_text scope_names

abbrev pub scope_to_string : ℕ → Bytes
scope_to_string = Algorithm.to_string scope_names (codes "illegal-ssh-error-scope-")

abbrev pub marshal_operation : ℕ → Result Bytes
marshal_operation = Algorithm.marshal_text operation_names

abbrev pub operation_to_string : ℕ → Bytes
operation_to_string = Algorithm.to_string operation_names (codes "illegal-ssh-error-operation-")

abbrev pub validate_scope : ℕ → Option Error
validate_scope = Algorithm.validate scope_names

abbrev pub validate_operation : ℕ → Option Error
validate_operation = Algorithm.validate operation_names
