-- ===== src/Codec/PtyRequest.antt =====
-- `parsePtyRequest` accepts the payloads that RFC 4254, section 6.2, describes, and nothing else.
use mathlib.Core.List.{reverse}
use ssh_server_go.Prelude.{
  ℕ, ◌^◌, ◌<◌, ◌≡◌, ap, ◌∙◌, ◌↔◌, some, List, [], ◌∷◌, Bytes, arith, length, >>=-eq-some,
}
use ssh_server_go.Prelude.Int.{IntSize}
use ssh_server_go.Codec.{
  Window, Pty, parse_string, parse_window, parse_terminal_modes, finish_pty, parse_pty_request,
}
use ssh_server_go.Codec.Encode.{IsBytes, put_string, put_window, FitsWindow, Holds}
use ssh_server_go.Codec.Numbers.{IsString, parse_string-put, parse_string-inv}
use ssh_server_go.Codec.Winch.{IsWindow, parse_window-put, parse_window-inv}
use ssh_server_go.Codec.Modes.{parse_terminal_modes-Holds, parse_terminal_modes_iff}

-- The terminal name, the window, and the encoded modes `encoded`, with nothing behind them.
pub record IsPtyRequest (size : IntSize) (input : Bytes) (p : Pty) : Type 0 where
  pub encoded : Bytes
  pub pairs : List (ℕ × ℕ)
  pub term_small : length p.term < 2 ^ 32
  pub encoded_small : length encoded < 2 ^ 32
  pub fits : FitsWindow size p.window
  pub holds : Holds encoded pairs
  pub modes : p.terminal_modes ≡ reverse pairs
  pub reads : input ≡ put_string p.term (put_window p.window (put_string encoded []))

finish_pty-inv :
    (term : Bytes) (w : Window) (encoded rest : Bytes) {p : Pty}
    → finish_pty term w encoded rest ≡ some p
    → (p.term ≡ term)
      × (p.window ≡ w)
      × (rest ≡ [])
      × (parse_terminal_modes encoded ≡ some p.terminal_modes)
unfolding finish_pty
finish_pty-inv term w encoded [] e = ground arith
finish_pty-inv term w encoded (c ∷ rest) e = cc

pty_of_parts :
    (size : IntSize) (input term s₁ encoded s₂ rest : Bytes) (w : Window) {p : Pty}
    → IsString input term s₁
    → IsWindow size s₁ w s₂
    → IsString s₂ encoded rest
    → finish_pty term w encoded rest ≡ some p
    → IsPtyRequest size input p
pty_of_parts size input term s₁ encoded s₂ rest w i₁ i₂ i₃ e =
    let (t, v, r, m) = finish_pty-inv term w encoded rest e in
    let (ms, h, q) = (parse_terminal_modes_iff encoded _ i₃.chars).0 m in
    record {
      encoded = encoded;
      pairs = ms;
      term_small = rw t i₁.small;
      encoded_small = i₃.small;
      fits = rw v i₂.fits;
      holds = h;
      modes = q;
      reads =
          rw (t, v)
            (i₁.reads
              ∙ ap (put_string term)
                  (i₂.reads ∙ ap (put_window w) (i₃.reads ∙ ap (put_string encoded) r)));
    }

-- A `pty-req` payload of bytes is accepted, with result `p`, exactly when it is laid out as
-- `IsPtyRequest` says.
pub parse_pty_request_iff :
    (size : IntSize) (input : Bytes) (p : Pty)
    → IsBytes input
    → (parse_pty_request size input ≡ some p) ↔ IsPtyRequest size input p
unfolding parse_pty_request
parse_pty_request_iff size input p b = (there, back)
  where
    there : parse_pty_request size input ≡ some p → IsPtyRequest size input p
    there e =
        let ((term, s₁), e₁, t₁) = >>=-eq-some (parse_string input) _ e in
        let i₁ : IsString input term s₁ = parse_string-inv input b e₁ in
        let ((w, s₂), e₂, t₂) = >>=-eq-some (parse_window size s₁) _ t₁ in
        let i₂ : IsWindow size s₁ w s₂ = parse_window-inv size s₁ i₁.bytes e₂ in
        let ((encoded, rest), e₃, t₃) = >>=-eq-some (parse_string s₂) _ t₂ in
        let i₃ : IsString s₂ encoded rest = parse_string-inv s₂ i₂.bytes e₃ in
        pty_of_parts size input term s₁ encoded s₂ rest w i₁ i₂ i₃ t₃

    back : IsPtyRequest size input p → parse_pty_request size input ≡ some p
    back r = rw r.reads (
        simp
          (
            parse_string-put p.term _ r.term_small,
            parse_window-put size p.window _ r.fits,
            parse_string-put r.encoded [] r.encoded_small,
          )
          (unfold finish_pty in cc (parse_terminal_modes-Holds r.encoded r.holds)))
