-- ===== src/Codec/Winch.antt =====
-- `parseWindow` and `parseWinchRequest` accept the encodings of windows, and nothing else.
use ssh_server_go.Prelude.{
  ◌≡◌, refl, ap, subst, ◌∙◌, ◌↔◌, Option, some, [], Bytes, arith, >>=-eq-some,
}
use ssh_server_go.Prelude.Int.{IntSize}
use ssh_server_go.Codec.{Window, parse_int, parse_window, parse_winch_request}
use ssh_server_go.Codec.Encode.{IsBytes, put_uint32, put_window, FitsWindow}
use ssh_server_go.Codec.Numbers.{parse_int-put, parse_int-inv, IsInt}

pub parse_window-put :
    (size : IntSize) (w : Window) (rest : Bytes)
    → FitsWindow size w
    → parse_window size (put_window w rest) ≡ some (w, rest)
unfolding parse_window
parse_window-put size w rest f = simp (
  parse_int-put size w.width _ f.width,
  parse_int-put size w.height _ f.height,
  parse_int-put size w.width_pixels _ f.width_pixels,
  parse_int-put size w.height_pixels rest f.height_pixels,
)

pub record IsWindow (size : IntSize) (input : Bytes) (w : Window) (rest : Bytes) : Type 0 where
  pub fits : FitsWindow size w
  pub reads : input ≡ put_window w rest
  pub bytes : IsBytes rest

cast_window :
    (size : IntSize) (input : Bytes) {v w : Window} {s t : Bytes}
    → ◌≡◌ {A = Option (Window × Bytes)} (some (v, s)) (some (w, t))
    → IsWindow size input v s
    → IsWindow size input w t
cast_window size input {v} {w} {s} {t} e i =
    let same : v ≡ w = ground arith in
    let rest : s ≡ t = ground arith in
    subst (λ x. IsWindow size input x t) same (subst (λ r. IsWindow size input v r) rest i)

pub parse_window-inv :
    (size : IntSize) (input : Bytes) {w : Window} {rest : Bytes}
    → IsBytes input
    → parse_window size input ≡ some (w, rest)
    → IsWindow size input w rest
unfolding parse_window
parse_window-inv size input {w} {rest} b e =
    let ((z₁, s₁), e₁, t₁) = >>=-eq-some (parse_int size input) _ e in
    let i₁ : IsInt size input z₁ s₁ = parse_int-inv size input b e₁ in
    let ((z₂, s₂), e₂, t₂) = >>=-eq-some (parse_int size s₁) _ t₁ in
    let i₂ : IsInt size s₁ z₂ s₂ = parse_int-inv size s₁ i₁.bytes e₂ in
    let ((z₃, s₃), e₃, t₃) = >>=-eq-some (parse_int size s₂) _ t₂ in
    let i₃ : IsInt size s₂ z₃ s₃ = parse_int-inv size s₂ i₂.bytes e₃ in
    let ((z₄, s₄), e₄, t₄) = >>=-eq-some (parse_int size s₃) _ t₃ in
    let i₄ : IsInt size s₃ z₄ s₄ = parse_int-inv size s₃ i₃.bytes e₄ in
    cast_window size input t₄ (record {
      fits = record {
        width = i₁.fits;
        height = i₂.fits;
        width_pixels = i₃.fits;
        height_pixels = i₄.fits;
      };
      reads =
          i₁.reads
          ∙ ap (put_uint32 _)
              (i₂.reads ∙ ap (put_uint32 _) (i₃.reads ∙ ap (put_uint32 _) i₄.reads));
      bytes = i₄.bytes;
    })

-- A `window-change` payload of bytes is accepted, with result `w`, exactly when it is the encoding
-- of `w` with nothing behind it, and the four numbers are in the range of `int`.
pub parse_winch_request_iff :
    (size : IntSize) (input : Bytes) (w : Window)
    → IsBytes input
    → (parse_winch_request size input ≡ some w) ↔ (FitsWindow size w × (input ≡ put_window w []))
unfolding parse_winch_request
parse_winch_request_iff size input w b = (there, back)
  where
    there : parse_winch_request size input ≡ some w → FitsWindow size w × (input ≡ put_window w [])
    there e =
        let ((w', rest), e₁, e₂) = >>=-eq-some (parse_window size input) _ e in
        let i : IsWindow size input w' rest = parse_window-inv size input b e₁ in
        let same : (w' ≡ w) × (rest ≡ []) = (ground arith, ground arith) in
        rw (← same.0) (i.fits, i.reads ∙ ap (put_window w') same.1)

    back : FitsWindow size w × (input ≡ put_window w []) → parse_winch_request size input ≡ some w
    back (f, e) = rw e (rw (parse_window-put size w [] f) refl)
