-- ===== src/Session/Write/Newlines.antt =====
-- The two replacements put a carriage return before each newline that has none.
use ssh_server_go.Prelude.{
  ℕ, ◌≤◌, ◌≡◌, refl, ◌∙◌, ap, sym, subst, ltb, Bool, true, false, Option, none, [], ◌∷◌, Bytes,
  length, ◌==◌, if◌then◌else◌, arith,
}
use ssh_server_go.Errors.{Error}
use ssh_server_go.Session.Write.{starts_with, replace_from, lf, cr, normalize, write}

-- The reference: `after` says that the byte before is a carriage return.
abbrev pub return_lines : (after : Bool) → Bytes → Bytes
return_lines after [] = []
return_lines after (b ∷ p) =
    let line = return_lines false p in
    let other = return_lines (b == cr) p in
    if b == lf then (if after then lf ∷ line else cr ∷ lf ∷ line) else b ∷ other

abbrev widened : Bytes → Bytes
widened p = replace_from (lf ∷ []) (cr ∷ lf ∷ []) 0 p

abbrev narrowed : Bytes → Bytes
narrowed p = replace_from (cr ∷ cr ∷ lf ∷ []) (cr ∷ lf ∷ []) 0 p

widened_start : (p : Bytes) → starts_with (lf ∷ []) (widened p) ≡ false
widened_start [] = refl
widened_start (b ∷ p) = ground arith

mutual
  narrowed-widened : (p : Bytes) → narrowed (widened p) ≡ return_lines false p
  narrowed-widened [] = refl
  narrowed-widened (b ∷ p) = ground (arith, narrowed-widened p, narrowed_return p)

  narrowed_return : (p : Bytes) → narrowed (cr ∷ widened p) ≡ cr ∷ return_lines true p
  narrowed_return [] = refl
  narrowed_return (b ∷ p) = ground (arith, narrowed-widened p, narrowed_return p, widened_start p)

-- For a terminal, `Write` sends its bytes with a carriage return before each newline that does not stand
-- behind one, and no other change.
pub normalize-return_lines : (p : Bytes) → normalize p ≡ return_lines false p
unfolding normalize
normalize-return_lines p = narrowed-widened p

length-return_lines : (after : Bool) (p : Bytes) → length p ≤ length (return_lines after p)
length-return_lines after [] = omega arith
length-return_lines after (b ∷ p) =
    ground (arith, length-return_lines false p, length-return_lines (b == cr) p)

return_lines_idem :
    (after : Bool) (p : Bytes) → return_lines after (return_lines after p) ≡ return_lines after p
return_lines_idem after [] = refl
return_lines_idem after (b ∷ p) =
    ground (arith, return_lines_idem false p, return_lines_idem (b == cr) p)

-- Text that was sent once is sent a second time as it is.
pub normalize_idem : (p : Bytes) → normalize (normalize p) ≡ normalize p
normalize_idem p =
    ap normalize (normalize-return_lines p)
    ∙ (normalize-return_lines (return_lines false p)
        ∙ (return_lines_idem false p ∙ sym (normalize-return_lines p)))

abbrev capped : ℕ → ℕ × Option Error → ℕ × Option Error
capped n r = (if ltb n r.0 then n else r.0, r.1)

capped_le : (n m : ℕ) → n ≤ m → (if ltb n m then n else m) ≡ n
capped_le n m h = ground arith

-- Where the channel takes all that it is given, `Write` reports as many bytes as it was given, with and
-- without a terminal, although with one it has sent more.
pub write-length :
    (has_pty : Bool) (channel_write : Bytes → ℕ × Option Error) (p : Bytes)
    → channel_write (normalize p) ≡ (length (normalize p), none)
    → channel_write p ≡ (length p, none)
    → write has_pty channel_write p ≡ (length p, none)
unfolding write
write-length true channel_write p hn hp =
    ap (λ (r : ℕ × Option Error). capped (length p) r) hn
    ∙ ap (λ (n : ℕ). (n, none))
        (capped_le (length p) (length (normalize p)) (
          subst (λ q. length p ≤ length q) (sym (normalize-return_lines p))
            (length-return_lines false p)))
write-length false channel_write p hn hp = hp
