-- ===== src/AlgorithmExamples.antt =====
-- The algorithm lists at concrete values.
use ssh_server_go.Prelude.{ℕ, ◌≡◌, refl, some, none, List, [], ◌∷◌, codes, arith}
use ssh_server_go.Algorithm.{
  Table, ok, err, illegal_value, illegal_text, at_index, Other, value, pointer, split,
}
use ssh_server_go.Algorithm
use ssh_server_go.Algorithm.Table.{In, IsNameTable, IsOrderOf-refl}
use ssh_server_go.AlgorithmTables.{tables-IsNameTable}
use ssh_server_go.Algorithm.Lists.{unmarshal_list-marshal_list, empty_list_fails}
use ssh_server_go.Cipher
use ssh_server_go.KeyExchange
use ssh_server_go.MessageAuthentication

ciphers_valid : IsNameTable Cipher.names
ciphers_valid = tables-IsNameTable.0

macs_valid : IsNameTable MessageAuthentication.names
macs_valid = tables-IsNameTable.2

unknown_cipher : Cipher.to_string 11 ≡ codes "illegal-ssh-cipher-11"
unfolding Algorithm.to_string
unknown_cipher = refl

default_ciphers_text :
    Cipher.marshal_list Cipher.default_ciphers
    ≡ ok (codes "aes256-gcm@openssh.com,aes256-ctr,aes192-ctr")
unfolding Algorithm.marshal_list
default_ciphers_text = refl

unmarshal_list-marshal_list_example :
    Cipher.unmarshal_list (0 ∷ []) (codes "aes256-gcm@openssh.com,aes256-ctr,aes192-ctr")
    ≡ (0 ∷ Cipher.default_ciphers, none)
unmarshal_list-marshal_list_example =
    unmarshal_list-marshal_list Cipher.names Cipher.names (0 ∷ []) 10 (8 ∷ 7 ∷ []) ciphers_valid
      (IsOrderOf-refl Cipher.names) default_ciphers_text

no_empty_name : (c : ℕ) → ¬ In c [] MessageAuthentication.names
no_empty_name c h = ground arith

empty_list_fails_example :
    (MessageAuthentication.marshal_list [] ≡ ok [])
    × (MessageAuthentication.unmarshal_list (2 ∷ []) [] ≡ (2 ∷ [], some (illegal_text [])))
empty_list_fails_example =
    empty_list_fails MessageAuthentication.names MessageAuthentication.names (2 ∷ [])
      (IsOrderOf-refl MessageAuthentication.names) no_empty_name

two_then_unknown :
    KeyExchange.unmarshal_list []
      (codes "ecdh-sha2-nistp256,ecdh-sha2-nistp384,none,curve25519-sha256")
    ≡ (4 ∷ 5 ∷ [], some (illegal_text (codes "none")))
unfolding Algorithm.unmarshal_list Algorithm.unmarshal_text
two_then_unknown = refl

bad_index : KeyExchange.marshal_texts (4 ∷ 12 ∷ []) ≡ err (at_index 1 (illegal_value 12))
unfolding Algorithm.marshal_texts Algorithm.marshal_text
bad_index = refl

abbrev pointed : Other ℕ
pointed = pointer (some 5)

abbrev listed : Other (List ℕ)
listed = value (5 ∷ [])
