-- ===== src/AlgorithmTables.antt =====
-- The tables of cipher.go, key-exchange.go and message-authentication.go.
use ssh_server_go.Prelude.{refl}
use ssh_server_go.Algorithm.Table.{IsNameTable, is_name_table, is_name_table-IsNameTable}
use ssh_server_go.Cipher
use ssh_server_go.KeyExchange
use ssh_server_go.MessageAuthentication

-- The tables of all three files are valid: each value has one name, each name one value, and no name
-- holds a comma.
pub tables-IsNameTable :
    IsNameTable Cipher.names
    × IsNameTable KeyExchange.names
    × IsNameTable MessageAuthentication.names
unfolding is_name_table
tables-IsNameTable = (
  is_name_table-IsNameTable Cipher.names refl,
  is_name_table-IsNameTable KeyExchange.names refl,
  is_name_table-IsNameTable MessageAuthentication.names refl,
)
