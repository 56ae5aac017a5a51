-- ===== src/Codec/Encode.antt =====
-- The wire format of the payloads, described on its own: big-endian numbers and counted strings
-- (RFC 4251, section 5).
use ssh_server_go.Prelude.{ℕ, ◌/◌, ◌%◌, ◌^◌, ◌<◌, ◌≤◌, ◌≡◌, List, [], ◌∷◌, ◌++◌, Bytes, length, All}
use ssh_server_go.Prelude.Int.{ℤ, pos_part, neg_part, IntSize, half_range}
use ssh_server_go.Codec.{Window}

abbrev pub IsByte : ℕ → Type 0
IsByte c = c < 256

abbrev pub IsBytes : Bytes → Type 0
IsBytes = All IsByte

abbrev pub put_uint32 : ℕ → Bytes → Bytes
put_uint32 n rest = n / 2 ^ 24 ∷ n / 2 ^ 16 % 256 ∷ n / 2 ^ 8 % 256 ∷ n % 256 ∷ rest

abbrev pub put_string : Bytes → Bytes → Bytes
put_string s rest = put_uint32 (length s) (s ++ rest)

abbrev pub put_window : Window → Bytes → Bytes
put_window w rest = put_uint32 (pos_part w.width) (
    put_uint32 (pos_part w.height)
      (put_uint32 (pos_part w.width_pixels) (put_uint32 (pos_part w.height_pixels) rest)))

-- A field that is a `uint32` on the wire and an `int` in the program.
pub record Fits (size : IntSize) (z : ℤ) : Type 0 where
  pub nonneg : neg_part z ≡ 0
  pub is_uint32 : pos_part z < 2 ^ 32
  pub is_int : pos_part z < half_range size

pub record FitsWindow (size : IntSize) (w : Window) : Type 0 where
  pub width : Fits size w.width
  pub height : Fits size w.height
  pub width_pixels : Fits size w.width_pixels
  pub height_pixels : Fits size w.height_pixels

-- The encoded terminal modes of RFC 4254, section 8, and the pairs that they hold: opcodes from 1 to
-- 159 with an argument, up to a final 0 or an opcode that has no such argument.
pub data Holds : Bytes → List (ℕ × ℕ) → Type 0 where
  tty_op_end : {op : ℕ} → op ≡ 0 → Holds (op ∷ []) []
  undefined_op : {op : ℕ} {rest : Bytes} → 160 ≤ op → Holds (op ∷ rest) []
  mode :
      {op v : ℕ} {input rest : Bytes} {ms : List (ℕ × ℕ)}
      → 0 < op
      → op < 160
      → v < 2 ^ 32
      → input ≡ op ∷ put_uint32 v rest
      → Holds rest ms
      → Holds input ((op, v) ∷ ms)
