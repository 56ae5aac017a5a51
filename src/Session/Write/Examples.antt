-- ===== src/Session/Write/Examples.antt =====
-- Lines with and without a carriage return.
use ssh_server_go.Prelude.{◌≡◌, refl, true, false, none, [], ◌∷◌, ◌++◌, Bytes, codes, length}
use ssh_server_go.Session.Write.{normalize, write, cr, lf}
use ssh_server_go.Session.Write.Newlines.{return_lines, normalize-return_lines, write-length}

abbrev lines : Bytes
lines = codes "ab" ++ lf ∷ lf ∷ cr ∷ lf ∷ cr ∷ cr ∷ lf ∷ []

lines_sent : normalize lines ≡ codes "ab" ++ cr ∷ lf ∷ cr ∷ lf ∷ cr ∷ lf ∷ cr ∷ cr ∷ lf ∷ []
unfolding normalize
lines_sent = refl

normalize-return_lines_example : normalize lines ≡ return_lines false lines
normalize-return_lines_example = normalize-return_lines lines

write-length_example : write true (λ p. (length p, none)) lines ≡ (9, none)
write-length_example = write-length true (λ p. (length p, none)) lines refl refl
