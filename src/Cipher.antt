-- ===== src/Cipher.antt =====
-- cipher.go: the ciphers. The functions are those of Algorithm, which the file spells out over its
-- own table.
use ssh_server_go.Prelude.{ℕ, Option, Bool, List, [], ◌∷◌, Bytes, codes}
use ssh_server_go.Algorithm.{Table, Error, Result, Other}
use ssh_server_go.Algorithm

abbrev pub aes128_cbc : ℕ
aes128_cbc = 0

abbrev pub des3_cbc : ℕ
des3_cbc = 1

abbrev pub arcfour : ℕ
arcfour = 2

abbrev pub arcfour128 : ℕ
arcfour128 = 3

abbrev pub arcfour256 : ℕ
arcfour256 = 4

abbrev pub chacha20_poly1305 : ℕ
chacha20_poly1305 = 5

abbrev pub aes128_ctr : ℕ
aes128_ctr = 6

abbrev pub aes192_ctr : ℕ
aes192_ctr = 7

abbrev pub aes256_ctr : ℕ
aes256_ctr = 8

abbrev pub aes128_gcm : ℕ
aes128_gcm = 9

abbrev pub aes256_gcm : ℕ
aes256_gcm = 10

abbrev pub names : Table
names =
    (aes128_cbc, codes "aes128-cbc")
    ∷ (des3_cbc, codes "3des-cbc")
    ∷ (arcfour, codes "arcfour")
    ∷ (arcfour128, codes "arcfour128")
    ∷ (arcfour256, codes "arcfour256")
    ∷ (chacha20_poly1305, codes "chacha20-poly1305@openssh.com")
    ∷ (aes128_ctr, codes "aes128-ctr")
    ∷ (aes192_ctr, codes "aes192-ctr")
    ∷ (aes256_ctr, codes "aes256-ctr")
    ∷ (aes128_gcm, codes "aes128-gcm@openssh.com")
    ∷ (aes256_gcm, codes "aes256-gcm@openssh.com")
    ∷ []

abbrev pub default_ciphers : List ℕ
default_ciphers = aes256_gcm ∷ aes256_ctr ∷ aes192_ctr ∷ []

abbrev pub validate : ℕ → Option Error
validate = Algorithm.validate names

abbrev pub marshal_text : ℕ → Result Bytes
marshal_text = Algorithm.marshal_text names

abbrev pub to_string : ℕ → Bytes
to_string = Algorithm.to_string names (codes "illegal-ssh-cipher-")

abbrev pub unmarshal_text : ℕ → Bytes → ℕ × Option Error
unmarshal_text = Algorithm.unmarshal_text names

abbrev pub is_equal_to : ℕ → Other ℕ → Bool
is_equal_to = Algorithm.is_equal_to

abbrev pub marshal_texts : List ℕ → Result (List Bytes)
marshal_texts = Algorithm.marshal_texts names

abbrev pub marshal_list : List ℕ → Result Bytes
marshal_list = Algorithm.marshal_list names

abbrev pub unmarshal_list : List ℕ → Bytes → List ℕ × Option Error
unmarshal_list = Algorithm.unmarshal_list names

abbrev pub is_list_equal_to : List ℕ → Other (List ℕ) → Bool
is_list_equal_to = Algorithm.is_list_equal_to

abbrev pub contains : List ℕ → ℕ → Bool
contains = Algorithm.contains
