-- ===== src/Session/Write.antt =====
-- `Write` of a session (session.go), which puts a carriage return before each newline of a terminal.
pub mod Newlines
mod Examples
use ssh_server_go.Prelude.{
  ℕ, zero, suc, ◌-◌, Bool, true, false, ◌&&◌, Option, List, [], ◌∷◌, ◌++◌, Bytes, length, ltb, ◌==◌,
  if◌then◌else◌,
}
use ssh_server_go.Errors.{Error}

abbrev pub starts_with : Bytes → Bytes → Bool
starts_with [] p = true
starts_with (o ∷ old) [] = false
starts_with (o ∷ old) (b ∷ p) = o == b && starts_with old p

-- `bytes.ReplaceAll` of a pattern that is not empty: from left to right, without overlaps. The number
-- is that of the bytes of a match that are still to be passed over.
abbrev pub replace_from : Bytes → Bytes → ℕ → Bytes → Bytes
replace_from old new skip [] = []
replace_from old new (suc skip) (b ∷ p) = replace_from old new skip p
replace_from old new zero (b ∷ p) =
    let rest = replace_from old new zero p in
    let behind = replace_from old new (length old - 1) p in
    if starts_with old (b ∷ p) then new ++ behind else b ∷ rest

abbrev pub replace_all : Bytes → Bytes → Bytes → Bytes
replace_all old new p = replace_from old new 0 p

abbrev pub lf : ℕ
lf = 10

abbrev pub cr : ℕ
cr = 13

unfoldable pub normalize : Bytes → Bytes
normalize p =
    replace_all (cr ∷ cr ∷ lf ∷ []) (cr ∷ lf ∷ []) (replace_all (lf ∷ []) (cr ∷ lf ∷ []) p)

-- `Write`, with the channel's `Write` as a parameter.
unfoldable pub write : Bool → (Bytes → ℕ × Option Error) → Bytes → ℕ × Option Error
unfolding normalize
write has_pty channel_write p =
    if has_pty
    then (let r = channel_write (normalize p) in
        (if ltb (length p) r.0 then length p else r.0, r.1))
    else channel_write p
