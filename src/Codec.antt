-- ===== src/Codec.antt =====
-- codec-util.go: the payloads of `pty-req` and `window-change`. A byte is a number below 256; the
-- results `(value, rest, ok)` of the parsers are options, `none` where `ok` is false.
pub mod Encode
pub mod Numbers
pub mod Winch
pub mod Modes
pub mod PtyRequest
mod Examples
use ssh_server_go.Prelude.{
  ℕ, ◌+◌, ◌-◌, ◌*◌, ◌%◌, ◌^◌, Bool, true, false, ◌&&◌, Option, none, some, List, [], ◌∷◌, Bytes,
  ltb, leb, ◌==◌, if◌then◌else◌, ◌>>=◌, length, take, drop,
}
use ssh_server_go.Prelude.Int.{ℤ, pos, negsuc, leb_ℤ, IntSize, wrap}

pub record Window : Type 0 where
  pub width : ℤ
  pub height : ℤ
  pub width_pixels : ℤ
  pub height_pixels : ℤ

-- `gossh.TerminalModes`: a write goes in front, so the first entry of a key is its value.
abbrev pub TerminalModes : Type 0
TerminalModes = List (ℕ × ℕ)

pub record Pty : Type 0 where
  pub term : Bytes
  pub window : Window
  pub terminal_modes : TerminalModes

-- `binary.BigEndian.Uint32`
abbrev pub uint32 : ℕ → ℕ → ℕ → ℕ → ℕ
uint32 a b c d = a * 2 ^ 24 + b * 2 ^ 16 + c * 2 ^ 8 + d

unfoldable pub parse_uint32 : Bytes → Option (ℕ × Bytes)
parse_uint32 (a ∷ b ∷ c ∷ d ∷ rest) = some (uint32 a b c d, rest)
parse_uint32 _ = none

-- The conversions `int(value)` and `uint32(result)`, which wrap.
abbrev to_int : IntSize → ℕ → ℤ
to_int size value = wrap size (pos value)

abbrev of_int : ℤ → ℕ
of_int (pos n) = n % 2 ^ 32
of_int (negsuc n) = 2 ^ 32 - 1 - n % 2 ^ 32

unfoldable pub uint32_to_int : IntSize → ℕ → ℤ × Bool
unfolding wrap
uint32_to_int size value =
    let result = to_int size value in (result, leb_ℤ (pos 0) result && of_int result == value)

unfoldable pub parse_string : Bytes → Option (Bytes × Bytes)
parse_string input = do
  (n, rest) ← parse_uint32 input
  if ltb (length rest) n then none else some (take n rest, drop n rest)

-- One round of the loop in `parseWindow`.
unfoldable pub parse_int : IntSize → Bytes → Option (ℤ × Bytes)
parse_int size s = do
  (value, rest) ← parse_uint32 s
  let (result, fits) = uint32_to_int size value
  if fits then some (result, rest) else none

unfoldable pub parse_window : IntSize → Bytes → Option (Window × Bytes)
parse_window size s = do
  (w, s₁) ← parse_int size s
  (h, s₂) ← parse_int size s₁
  (wp, s₃) ← parse_int size s₂
  (hp, s₄) ← parse_int size s₃
  some (record { width = w; height = h; width_pixels = wp; height_pixels = hp }, s₄)

abbrev none_left : Bytes → Bool
none_left s = length s == 0

unfoldable pub parse_winch_request : IntSize → Bytes → Option Window
parse_winch_request size s = do
  (win, rest) ← parse_window size s
  if none_left rest then some win else none

-- The cases of the switch behind the opcode; the last argument is what the default case gives.
abbrev mode_switch : ℕ → Bytes → TerminalModes → Option TerminalModes → Option TerminalModes
mode_switch opcode input modes more =
    if opcode == 0
    then if none_left input then some modes else none
    else if leb 160 opcode
    then some modes
    else more

-- The loop of `parseTerminalModes` over what is left of the input.
unfoldable pub parse_modes : TerminalModes → Bytes → Option TerminalModes
parse_modes modes [] = none
parse_modes modes (opcode ∷ a ∷ b ∷ c ∷ d ∷ rest) =
    let more = parse_modes ((opcode, uint32 a b c d) ∷ modes) rest in
    mode_switch opcode (a ∷ b ∷ c ∷ d ∷ rest) modes more
parse_modes modes (opcode ∷ input) = mode_switch opcode input modes none

unfoldable pub parse_terminal_modes : Bytes → Option TerminalModes
unfolding parse_modes
parse_terminal_modes input = parse_modes [] input

-- What `parsePtyRequest` does behind its three parsers.
finish_pty : Bytes → Window → Bytes → Bytes → Option Pty
finish_pty term window encoded_modes [] = do
  modes ← parse_terminal_modes encoded_modes
  some (record { term = term; window = window; terminal_modes = modes })
finish_pty term window encoded_modes (c ∷ rest) = none

unfoldable pub parse_pty_request : IntSize → Bytes → Option Pty
unfolding finish_pty
parse_pty_request size s = do
  (term, s₁) ← parse_string s
  (window, s₂) ← parse_window size s₁
  (encoded_modes, rest) ← parse_string s₂
  finish_pty term window encoded_modes rest
