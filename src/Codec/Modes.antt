-- ===== src/Codec/Modes.antt =====
-- `parseTerminalModes` against the description of the encoded modes.
use mathlib.Core.List.{reverse, reverse-cons}
use ssh_server_go.Prelude.{
  ℕ, ◌<◌, ◌≤◌, ◌≡◌, sym, ap, ◌∙◌, ◌↔◌, inl, inr, none, some, List, [], ◌∷◌, ◌++◌, append_assoc,
  append-nil, Bytes, arith, false, ◌==◌, leb, Bool-cases,
}
use ssh_server_go.Codec.{TerminalModes, uint32, mode_switch, parse_modes, parse_terminal_modes}
use ssh_server_go.Codec.Encode.{IsBytes, Holds, tty_op_end, undefined_op, mode}

-- An opcode from 160 on ends the modes, whatever stands behind it.
parse_modes_undefined :
    (modes : TerminalModes) (op : ℕ) (rest : Bytes)
    → 160 ≤ op
    → parse_modes modes (op ∷ rest) ≡ some modes
unfolding parse_modes
parse_modes_undefined modes op (a ∷ b ∷ c ∷ d ∷ rest) h = ground arith
parse_modes_undefined modes op _ h = ground arith

-- The pairs read so far, newest first, in front of those that came before.
parse_modes-Holds :
    (input : Bytes) {ms : List (ℕ × ℕ)} (modes : TerminalModes)
    → Holds input ms
    → parse_modes modes input ≡ some (reverse ms ++ modes)
unfolding parse_modes
parse_modes-Holds input modes (tty_op_end {op} h) = ground arith
parse_modes-Holds input modes (undefined_op {op} {rest} h) = parse_modes_undefined modes op rest h
parse_modes-Holds input modes (mode {op} {v} {rest} {ms} p q s e t) = rw e (
    rw (reverse-cons (op, v) ms)
      (rw append_assoc (ground (arith, parse_modes-Holds rest ((op, v) ∷ modes) t))))

-- Without room for an argument the loop ends at this opcode, or refuses it.
Holds-mode_switch :
    (op : ℕ) (input : Bytes) (modes : TerminalModes) {found : TerminalModes}
    → mode_switch op input modes none ≡ some found
    → Holds (op ∷ input) [] × (found ≡ modes)
Holds-mode_switch op input modes e = elim (Bool-cases (leb 160 op)) [
  | inl u ↦ (undefined_op (ground arith), ground arith)
  | inr d ↦ at_end op input modes (ground arith) (ground arith)
]
  where
    at_end :
        (op : ℕ) (input : Bytes) (modes : TerminalModes) {found : TerminalModes}
        → op < 160
        → mode_switch op input modes none ≡ some found
        → Holds (op ∷ input) [] × (found ≡ modes)
    at_end op [] modes h e = (tty_op_end (ground arith), ground arith)
    at_end op (c ∷ rest) modes h e = absurd (ground arith)

step_mode :
    (op a r c d : ℕ) (rest : Bytes) (modes : TerminalModes) {found : TerminalModes}
    → (op == 0) ≡ false
    → leb 160 op ≡ false
    → parse_modes modes (op ∷ a ∷ r ∷ c ∷ d ∷ rest) ≡ some found
    → parse_modes ((op, uint32 a r c d) ∷ modes) rest ≡ some found
unfolding parse_modes
step_mode op a r c d rest modes nz w e = ground arith

Holds-mode :
    (op a r c d : ℕ) (rest : Bytes) {ms : List (ℕ × ℕ)}
    → IsBytes (op ∷ a ∷ r ∷ c ∷ d ∷ rest)
    → (op == 0) ≡ false
    → leb 160 op ≡ false
    → Holds rest ms
    → Holds (op ∷ a ∷ r ∷ c ∷ d ∷ rest) ((op, uint32 a r c d) ∷ ms)
Holds-mode op a r c d rest b nz w h =
    mode (ground arith) (ground arith) (ground arith) (ground arith) h

-- What the loop accepted, in the other direction.
Holds-parse_modes :
    (input : Bytes) (modes : TerminalModes) {found : TerminalModes}
    → IsBytes input
    → parse_modes modes input ≡ some found
    → (ms : List (ℕ × ℕ)) × Holds input ms × (found ≡ reverse ms ++ modes)
unfolding parse_modes
Holds-parse_modes [] modes b e = cc
Holds-parse_modes (op ∷ a ∷ r ∷ c ∷ d ∷ rest) modes b e = elim (Bool-cases (op == 0)) [
  | inl z ↦ absurd (ground arith)
  | inr nz ↦ elim (Bool-cases (leb 160 op)) [
    | inl u ↦ ([], undefined_op (ground arith), ground arith)
    | inr w ↦
        let (ms, h, q) =
          Holds-parse_modes rest ((op, uint32 a r c d) ∷ modes) b.1.1.1.1.1
            (step_mode op a r c d rest modes nz w e) in
        (
          (op, uint32 a r c d) ∷ ms,
          Holds-mode op a r c d rest b nz w h,
          q
              ∙ sym (
                  ap (λ l. l ++ modes) (reverse-cons (op, uint32 a r c d) ms)
                  ∙ append_assoc (reverse ms) _ modes),
        )
  ]
]
Holds-parse_modes (op ∷ input) modes b e =
    let (h, q) = Holds-mode_switch op input modes e in ([], h, q)

pub parse_terminal_modes-Holds :
    (input : Bytes) {ms : List (ℕ × ℕ)}
    → Holds input ms
    → parse_terminal_modes input ≡ some (reverse ms)
unfolding parse_terminal_modes
parse_terminal_modes-Holds input {ms} h =
    parse_modes-Holds input [] h ∙ ap some (append-nil (reverse ms))

-- `parseTerminalModes` accepts exactly the inputs, of bytes, that hold terminal modes, and returns
-- the pairs that they hold, the last one first; so of two values of one opcode the later one
-- counts.
pub parse_terminal_modes_iff :
    (input : Bytes) (found : TerminalModes)
    → IsBytes input
    → (parse_terminal_modes input ≡ some found)
      ↔ ((ms : List (ℕ × ℕ)) × Holds input ms × (found ≡ reverse ms))
unfolding parse_terminal_modes
parse_terminal_modes_iff input found b = (
  (λ e. let (ms, h, q) = Holds-parse_modes input [] b e in (ms, h, q ∙ append-nil (reverse ms))),
  (λ r. parse_terminal_modes-Holds input r.1 ∙ ap some (sym r.2)),
)
