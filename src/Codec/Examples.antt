-- ===== src/Codec/Examples.antt =====
-- Concrete payloads.
use mathlib.Core.List.{reverse}
use ssh_server_go.Prelude.{◌≡◌, refl, ◌↔◌, ◌++◌, some, none, List, ℕ, [], ◌∷◌, Bytes, arith, codes}
use ssh_server_go.Prelude.Int.{pos, bits32, bits64}
use ssh_server_go.Codec.{
  Window, Pty, parse_uint32, uint32_to_int, parse_string, parse_int, parse_window,
  parse_winch_request, parse_terminal_modes, parse_pty_request,
}
use ssh_server_go.Codec.Encode.{IsBytes, FitsWindow, put_window, Holds}
use ssh_server_go.Codec.Winch.{parse_winch_request_iff}
use ssh_server_go.Codec.Modes.{parse_terminal_modes_iff}
use ssh_server_go.Codec.PtyRequest.{IsPtyRequest, parse_pty_request_iff}

abbrev screen : Window
screen = record { width = pos 80; height = pos 24; width_pixels = pos 0; height_pixels = pos 300 }

abbrev winch_payload : Bytes
winch_payload = 0 ∷ 0 ∷ 0 ∷ 80 ∷ 0 ∷ 0 ∷ 0 ∷ 24 ∷ 0 ∷ 0 ∷ 0 ∷ 0 ∷ 0 ∷ 0 ∷ 1 ∷ 44 ∷ []

winch_parsed : parse_winch_request bits64 winch_payload ≡ some screen
unfolding parse_winch_request parse_window parse_int parse_uint32 uint32_to_int
winch_parsed = refl

-- A width from 2 ^ 31 on is refused where `int` has 32 bits.
winch_too_wide :
    parse_winch_request bits32
      (128 ∷ 0 ∷ 0 ∷ 80 ∷ 0 ∷ 0 ∷ 0 ∷ 24 ∷ 0 ∷ 0 ∷ 0 ∷ 0 ∷ 0 ∷ 0 ∷ 1 ∷ 44 ∷ [])
    ≡ none
unfolding parse_winch_request parse_window parse_int parse_uint32 uint32_to_int
winch_too_wide = refl

winch_IsBytes : IsBytes winch_payload
winch_IsBytes = omega arith

parse_winch_request_iff_example :
    (parse_winch_request bits64 winch_payload ≡ some screen)
    ↔ (FitsWindow bits64 screen × (winch_payload ≡ put_window screen []))
parse_winch_request_iff_example = parse_winch_request_iff bits64 winch_payload screen winch_IsBytes

abbrev echo_off : Bytes
echo_off = 53 ∷ 0 ∷ 0 ∷ 0 ∷ 0 ∷ 1 ∷ 0 ∷ 0 ∷ 0 ∷ 3 ∷ 0 ∷ []

modes_parsed : parse_terminal_modes echo_off ≡ some ((1, 3) ∷ (53, 0) ∷ [])
unfolding parse_terminal_modes
modes_parsed = refl

modes_cut_off : parse_terminal_modes (53 ∷ 0 ∷ 0 ∷ []) ≡ none
unfolding parse_terminal_modes
modes_cut_off = refl

parse_terminal_modes_iff_example :
    (parse_terminal_modes echo_off ≡ some ((1, 3) ∷ (53, 0) ∷ []))
    ↔ ((ms : List (ℕ × ℕ)) × Holds echo_off ms × ((1, 3) ∷ (53, 0) ∷ [] ≡ reverse ms))
parse_terminal_modes_iff_example =
    parse_terminal_modes_iff echo_off ((1, 3) ∷ (53, 0) ∷ []) (omega arith)

abbrev pty_payload : Bytes
pty_payload = 0 ∷ 0 ∷ 0 ∷ 5 ∷ codes "xterm" ++ (winch_payload ++ 0 ∷ 0 ∷ 0 ∷ 11 ∷ echo_off)

abbrev xterm : Pty
xterm = record { term = codes "xterm"; window = screen; terminal_modes = (1, 3) ∷ (53, 0) ∷ [] }

pty_parsed : parse_pty_request bits64 pty_payload ≡ some xterm
unfolding parse_pty_request parse_window parse_int parse_uint32 uint32_to_int parse_string
    parse_terminal_modes
pty_parsed = refl

parse_pty_request_iff_example :
    (parse_pty_request bits64 pty_payload ≡ some xterm) ↔ IsPtyRequest bits64 pty_payload xterm
parse_pty_request_iff_example = parse_pty_request_iff bits64 pty_payload xterm (omega arith)
