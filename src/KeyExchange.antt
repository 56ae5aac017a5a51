-- ===== src/KeyExchange.antt =====
-- key-exchange.go: the key exchanges. The functions are those of Algorithm, which the file spells out over its
-- own table.
use ssh_server_go.Prelude.{ℕ, Option, Bool, List, [], ◌∷◌, Bytes, codes}
use ssh_server_go.Algorithm.{Table, Error, Result, Other}
use ssh_server_go.Algorithm

abbrev pub dh1_sha1 : ℕ
dh1_sha1 = 0

abbrev pub dh14_sha1 : ℕ
dh14_sha1 = 1

abbrev pub dh14_sha256 : ℕ
dh14_sha256 = 2

abbrev pub dh16_sha512 : ℕ
dh16_sha512 = 3

abbrev pub ecdh256 : ℕ
ecdh256 = 4

abbrev pub ecdh384 : ℕ
ecdh384 = 5

abbrev pub ecdh521 : ℕ
ecdh521 = 6

abbrev pub curve25519_sha256_lib_ssh : ℕ
curve25519_sha256_lib_ssh = 7

abbrev pub curve25519_sha256 : ℕ
curve25519_sha256 = 8

abbrev pub dhgex_sha1 : ℕ
dhgex_sha1 = 9

abbrev pub dhgex_sha256 : ℕ
dhgex_sha256 = 10

abbrev pub mlkem768x25519x_sha256 : ℕ
mlkem768x25519x_sha256 = 11

abbrev pub names : Table
names =
    (dh1_sha1, codes "diffie-hellman-group1-sha1")
    ∷ (dh14_sha1, codes "diffie-hellman-group14-sha1")
    ∷ (dh14_sha256, codes "diffie-hellman-group14-sha256")
    ∷ (dh16_sha512, codes "diffie-hellman-group16-sha512")
    ∷ (ecdh256, codes "ecdh-sha2-nistp256")
    ∷ (ecdh384, codes "ecdh-sha2-nistp384")
    ∷ (ecdh521, codes "ecdh-sha2-nistp521")
    ∷ (curve25519_sha256_lib_ssh, codes "curve25519-sha256@libssh.org")
    ∷ (curve25519_sha256, codes "curve25519-sha256")
    ∷ (dhgex_sha1, codes "diffie-hellman-group-exchange-sha1")
    ∷ (dhgex_sha256, codes "diffie-hellman-group-exchange-sha256")
    ∷ (mlkem768x25519x_sha256, codes "mlkem768x25519-sha256")
    ∷ []

abbrev pub default_key_exchanges : List ℕ
default_key_exchanges =
    curve25519_sha256_lib_ssh ∷ curve25519_sha256 ∷ dh16_sha512 ∷ mlkem768x25519x_sha256 ∷ []

abbrev pub validate : ℕ → Option Error
validate = Algorithm.validate names

abbrev pub marshal_text : ℕ → Result Bytes
marshal_text = Algorithm.marshal_text names

abbrev pub to_string : ℕ → Bytes
to_string = Algorithm.to_string names (codes "illegal-ssh-key-exchange-")

abbrev pub unmarshal_text : ℕ → Bytes → ℕ × Option Error
unmarshal_text = Algorithm.unmarshal_text names

abbrev pub is_equal_to : ℕ → Other ℕ → Bool
is_equal_to = Algorithm.is_equal_to

abbrev pub marshal_texts : List ℕ → Result (List Bytes)
marshal_texts = Algorithm.marshal_texts names

abbrev pub marshal_list : List ℕ → Result Bytes
marshal_list = Algorithm.marshal_list names

abbrev pub unmarshal_list : List ℕ → Bytes → List ℕ × Option Error
unmarshal_list = Algorithm.unmarshal_list names

abbrev pub is_list_equal_to : List ℕ → Other (List ℕ) → Bool
is_list_equal_to = Algorithm.is_list_equal_to

abbrev pub contains : List ℕ → ℕ → Bool
contains = Algorithm.contains
