-- ===== src/ErrorNames/Examples.antt =====
-- A scope read back.
use ssh_server_go.Prelude.{◌≡◌, refl, some, codes}
use ssh_server_go.Algorithm.{illegal_text, to_string}
use ssh_server_go.ErrorNames.{scope_names, unmarshal_name, scope_to_string}

unknown_scope :
    unmarshal_name scope_names 2 (codes "Server") ≡ (2, some (illegal_text (codes "Server")))
unfolding unmarshal_name
unknown_scope = refl

out_of_range : scope_to_string 17 ≡ codes "illegal-ssh-error-scope-17"
unfolding to_string
out_of_range = refl
