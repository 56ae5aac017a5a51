-- ===== src/MessageAuthentication.antt =====
-- message-authentication.go: the message authentication codes. The functions are those of Algorithm, which the file spells out over its
-- own table.
use ssh_server_go.Prelude.{ℕ, Option, Bool, List, [], ◌∷◌, Bytes, codes}
use ssh_server_go.Algorithm.{Table, Error, Result, Other}
use ssh_server_go.Algorithm

abbrev pub hmac_sha1 : ℕ
hmac_sha1 = 0

abbrev pub hmac_sha1_b96 : ℕ
hmac_sha1_b96 = 1

abbrev pub hmac_sha2_b256 : ℕ
hmac_sha2_b256 = 2

abbrev pub hmac_sha2_b512 : ℕ
hmac_sha2_b512 = 3

abbrev pub hmac_sha2_b256_etm : ℕ
hmac_sha2_b256_etm = 4

abbrev pub hmac_sha2_b512_etm : ℕ
hmac_sha2_b512_etm = 5

abbrev pub names : Table
names =
    (hmac_sha1, codes "hmac-sha1")
    ∷ (hmac_sha1_b96, codes "hmac-sha1-96")
    ∷ (hmac_sha2_b256, codes "hmac-sha2-256")
    ∷ (hmac_sha2_b512, codes "hmac-sha2-512")
    ∷ (hmac_sha2_b256_etm, codes "hmac-sha2-256-etm@openssh.com")
    ∷ (hmac_sha2_b512_etm, codes "hmac-sha2-512-etm@openssh.com")
    ∷ []

abbrev pub default_message_authentications : List ℕ
default_message_authentications = hmac_sha2_b512_etm ∷ hmac_sha2_b256_etm ∷ []

abbrev pub validate : ℕ → Option Error
validate = Algorithm.validate names

abbrev pub marshal_text : ℕ → Result Bytes
marshal_text = Algorithm.marshal_text names

abbrev pub to_string : ℕ → Bytes
to_string = Algorithm.to_string names (codes "illegal-ssh-message-authentication-")

abbrev pub unmarshal_text : ℕ → Bytes → ℕ × Option Error
unmarshal_text = Algorithm.unmarshal_text names

abbrev pub is_equal_to : ℕ → Other ℕ → Bool
is_equal_to = Algorithm.is_equal_to

abbrev pub marshal_texts : List ℕ → Result (List Bytes)
marshal_texts = Algorithm.marshal_texts names

abbrev pub marshal_list : List ℕ → Result Bytes
marshal_list = Algorithm.marshal_list names

abbrev pub unmarshal_list : List ℕ → Bytes → List ℕ × Option Error
unmarshal_list = Algorithm.unmarshal_list names

abbrev pub is_list_equal_to : List ℕ → Other (List ℕ) → Bool
is_list_equal_to = Algorithm.is_list_equal_to

abbrev pub contains : List ℕ → ℕ → Bool
contains = Algorithm.contains
