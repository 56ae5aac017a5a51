-- ===== src/Codec/Numbers.antt =====
-- Numbers and counted strings: each parser accepts what the wire format describes, and that alone.
use ssh_server_go.Prelude.{
  ℕ, ◌^◌, ◌<◌, ◌≡◌, sym, ap, ◌∙◌, ◌↔◌, true, Option, none, some, [], ◌∷◌, ◌++◌, Bytes, arith, ltb,
  zero, suc, if◌then◌else◌, length, take, drop, length-append, length-take, take-append-drop,
  take-length-append, drop-length-append, >>=-eq-some,
}
use ssh_server_go.Prelude.Int.{ℤ, pos_part, IntSize, bits32, bits64, half_range}
use ssh_server_go.Codec.{parse_uint32, uint32_to_int, parse_int, parse_string}
use ssh_server_go.Codec.Encode.{IsBytes, put_uint32, put_string, Fits}

pub parse_uint32-put :
    (n : ℕ) (rest : Bytes) → n < 2 ^ 32 → parse_uint32 (put_uint32 n rest) ≡ some (n, rest)
unfolding parse_uint32
parse_uint32-put n rest h = ground arith

pub record IsUint32 (input : Bytes) (n : ℕ) (rest : Bytes) : Type 0 where
  pub small : n < 2 ^ 32
  pub reads : input ≡ put_uint32 n rest
  pub bytes : IsBytes rest

pub parse_uint32-inv :
    (input : Bytes) {n : ℕ} {rest : Bytes}
    → IsBytes input
    → parse_uint32 input ≡ some (n, rest)
    → IsUint32 input n rest
unfolding parse_uint32
parse_uint32-inv [] b h = cc
parse_uint32-inv (a ∷ []) b h = cc
parse_uint32-inv (a ∷ b ∷ []) h e = cc
parse_uint32-inv (a ∷ b ∷ c ∷ []) h e = cc
parse_uint32-inv (a ∷ b ∷ c ∷ d ∷ rest) h e = record {
  small = ground arith;
  reads = ground arith;
  bytes = ground arith;
}

-- `parseUint32`'s result survives the conversion to `int` exactly when it is in the range of `int`.
pub uint32_to_int_iff :
    (size : IntSize) (n : ℕ)
    → n < 2 ^ 32
    → ((uint32_to_int size n).1 ≡ true) ↔ (n < half_range size)
unfolding uint32_to_int
uint32_to_int_iff bits32 n h = ground arith
uint32_to_int_iff bits64 n h = ground arith

pub parse_string-put :
    (s rest : Bytes) → length s < 2 ^ 32 → parse_string (put_string s rest) ≡ some (s, rest)
unfolding parse_string
parse_string-put s rest h = ground (
  arith,
  parse_uint32-put (length s) (s ++ rest) h,
  length-append s rest,
  take-length-append s rest,
  drop-length-append s rest,
)

All-drop : (n : ℕ) (s : Bytes) → IsBytes s → IsBytes (drop n s)
All-drop zero s h = h
All-drop (suc n) [] h = h
All-drop (suc n) (c ∷ s) h = All-drop n s h.1

All-take : (n : ℕ) (s : Bytes) → IsBytes s → IsBytes (take n s)
All-take zero s h = tt
All-take (suc n) [] h = tt
All-take (suc n) (c ∷ s) h = (h.0, All-take n s h.1)

pub record IsString (input s rest : Bytes) : Type 0 where
  pub small : length s < 2 ^ 32
  pub reads : input ≡ put_string s rest
  pub chars : IsBytes s
  pub bytes : IsBytes rest

cut_string :
    (n : ℕ) (s : Bytes) {out rest : Bytes}
    → ◌≡◌ {A = Option (Bytes × Bytes)}
        (if ltb (length s) n then none else some (take n s, drop n s))
        (some (out, rest))
    → (length out ≡ n) × (s ≡ out ++ rest) × (out ≡ take n s) × (rest ≡ drop n s)
cut_string n s e = ground (arith, length-take n s, take-append-drop n s)

pub parse_string-inv :
    (input : Bytes) {s rest : Bytes}
    → IsBytes input
    → parse_string input ≡ some (s, rest)
    → IsString input s rest
unfolding parse_string
parse_string-inv input {s} {rest} b e =
    let ((n, tail), e₁, e₂) = >>=-eq-some (parse_uint32 input) _ e in
    let u : IsUint32 input n tail = parse_uint32-inv input b e₁ in
    let (l, split, o, r) = cut_string n tail e₂ in
    record {
      small = omega (arith, l, u.small);
      reads = u.reads ∙ ap (λ k. put_uint32 k tail) (sym l) ∙ ap (put_uint32 (length s)) split;
      chars = rw o (All-take n tail u.bytes);
      bytes = rw r (All-drop n tail u.bytes);
    }

pub parse_int-put :
    (size : IntSize) (z : ℤ) (rest : Bytes)
    → Fits size z
    → parse_int size (put_uint32 (pos_part z) rest) ≡ some (z, rest)
unfolding parse_int uint32_to_int
parse_int-put bits32 z rest f = ground (arith, parse_uint32-put (pos_part z) rest f.is_uint32)
parse_int-put bits64 z rest f = ground (arith, parse_uint32-put (pos_part z) rest f.is_uint32)

pub record IsInt (size : IntSize) (input : Bytes) (z : ℤ) (rest : Bytes) : Type 0 where
  pub fits : Fits size z
  pub reads : input ≡ put_uint32 (pos_part z) rest
  pub bytes : IsBytes rest

kept_int :
    (size : IntSize) (n : ℕ) (tail : Bytes) {z : ℤ} {rest : Bytes}
    → n < 2 ^ 32
    → ◌≡◌ {A = Option (ℤ × Bytes)}
        (if (uint32_to_int size n).1 then some ((uint32_to_int size n).0, tail) else none)
        (some (z, rest))
    → Fits size z × (n ≡ pos_part z) × (tail ≡ rest)
unfolding uint32_to_int
kept_int bits32 n tail h e = (
  record { nonneg = ground arith; is_uint32 = ground arith; is_int = ground arith },
  ground arith,
  ground arith,
)
kept_int bits64 n tail h e = (
  record { nonneg = ground arith; is_uint32 = ground arith; is_int = ground arith },
  ground arith,
  ground arith,
)

pub parse_int-inv :
    (size : IntSize) (input : Bytes) {z : ℤ} {rest : Bytes}
    → IsBytes input
    → parse_int size input ≡ some (z, rest)
    → IsInt size input z rest
unfolding parse_int
parse_int-inv size input b e =
    let ((n, tail), e₁, e₂) = >>=-eq-some (parse_uint32 input) _ e in
    let u : IsUint32 input n tail = parse_uint32-inv input b e₁ in
    let (f, e₃, e₄) = kept_int size n tail u.small e₂ in
    record {
      fits = f;
      reads = u.reads ∙ ap (λ k. put_uint32 k tail) e₃ ∙ ap (put_uint32 _) e₄;
      bytes = rw (← e₄) u.bytes;
    }
