-- ===== src/Session/Signals/Kept.antt =====
-- No signal is lost while there are few of them and the context lasts.
use ssh_server_go.Prelude.{
  ℕ, ◌≤◌, ◌≡◌, ◌≢◌, refl, ap, sym, subst, ◌∙◌, Bool, true, false, Option, none, some, List, [], ◌∷◌,
  ◌++◌, append_assoc, append-nil, Bytes, length, take, length-append, ltb, if◌then◌else◌, arith,
}
use ssh_server_go.Prelude.Sublists.{take_all}
use ssh_server_go.Session.Signals.{
  Signals, no_signals, Drain, Delivery, delivered, cancelled, context_done, channel_closed,
  max_sig_buf_size, requeue_signals, register_channel, set_signal_channel, drain_held,
  drain_signals, buffer_signal, send_signal,
}
use ssh_server_go.Session.Signals.Order.{
  holding_of, pending, IsQuiet, unregistered, registered, Step, registers, drains, buffers, sends,
  fails, Reach, begins, steps, reach-IsTidy,
}

-- The steps but one: the context does not end while the goroutine sends a signal.
pub data IsLasting (s : Signals) : (more : List Bytes) (t : Signals) → Step s more t → Type 0 where
  lasting_registers : {c : Option ℕ} → IsLasting s [] (set_signal_channel c s) (registers c)
  lasting_drains :
      {fate : Delivery} → fate ≢ context_done → IsLasting s [] (drain_signals fate s) (drains fate)
  lasting_buffers :
      {x : Bytes} {h : s.channel ≡ none} → IsLasting s (x ∷ []) (buffer_signal x s) (buffers x h)
  lasting_sends :
      {x : Bytes} {c : ℕ} {h : s.channel ≡ some c}
      → IsLasting s (x ∷ []) (send_signal x delivered s) (sends x c h)
  lasting_fails :
      {x : Bytes} {fate : Delivery} {c : ℕ} {h : s.channel ≡ some c} {g : fate ≢ delivered}
      → IsLasting s [] (send_signal x fate s) (fails x fate c h g)

pub data Lasting : List Bytes → Signals → Type 0 where
  lasting : Lasting [] no_signals
  lasts :
      {sent more : List Bytes} {s t : Signals} {step : Step s more t}
      → Lasting sent s
      → IsLasting s more t step
      → Lasting (sent ++ more) t

module _ (got : List Bytes) where
  fits : (xs : List Bytes) → length (got ++ xs) ≤ max_sig_buf_size → take max_sig_buf_size xs ≡ xs
  fits xs h = take_all max_sig_buf_size xs (omega (arith, length-append got xs, h))

  requeue_pending :
      (xs b : List Bytes) (dr : Option Drain)
      → length (got ++ (xs ++ b)) ≤ max_sig_buf_size
      → pending
          (requeue_signals xs (record { channel = none; buffer = b; drain = dr; received = got }))
        ≡ got ++ (xs ++ b)
  unfolding requeue_signals
  requeue_pending xs b dr h = ap (λ ys. got ++ ys) (fits (xs ++ b) h)

  register_pending :
      (c : Option ℕ) (b : List Bytes)
      → pending
          (register_channel c (record { channel = none; buffer = b; drain = none; received = got }))
        ≡ got ++ b
  register_pending none b = refl
  register_pending (some c) [] = refl
  register_pending (some c) (x ∷ b) = refl

  set_pending :
      (c ch : Option ℕ) (dr : Option Drain) (b : List Bytes)
      → length (got ++ (holding_of dr ++ b)) ≤ max_sig_buf_size
      → pending
          (set_signal_channel c (record { channel = ch; buffer = b; drain = dr; received = got }))
        ≡ got ++ (holding_of dr ++ b)
  unfolding set_signal_channel requeue_signals
  set_pending c ch none b h = register_pending c b
  set_pending c ch (some d) b h =
      register_pending c (take max_sig_buf_size (d.holding ++ b))
      ∙ ap (λ ys. got ++ ys) (fits (d.holding ++ b) h)

  held_pending :
      (fate : Delivery) (target : ℕ) (hs b : List Bytes)
      → fate ≢ context_done
      → length (got ++ (hs ++ b)) ≤ max_sig_buf_size
      → pending (
          drain_held
            (record { target = target; holding = hs })
            hs
            fate
            (record {
              channel = none;
              buffer = b;
              drain = some (record { target = target; holding = hs });
              received = got;
            }))
        ≡ got ++ (hs ++ b)
  held_pending fate target [] [] hf h = refl
  held_pending fate target [] (x ∷ b) hf h = ap (λ ys. got ++ ys) (append-nil (x ∷ b))
  held_pending delivered target (x ∷ rest) b hf h = append_assoc got (x ∷ []) (rest ++ b)
  held_pending cancelled target (x ∷ rest) b hf h = requeue_pending (x ∷ rest) b _ h
  held_pending context_done target (x ∷ rest) b hf h = elim (hf refl) [ ]
  held_pending channel_closed target (x ∷ rest) b hf h = requeue_pending (x ∷ rest) b _ h

  drain_pending :
      (fate : Delivery) (ch : Option ℕ) (dr : Option Drain) (b : List Bytes)
      → IsQuiet ch dr b
      → fate ≢ context_done
      → length (got ++ (holding_of dr ++ b)) ≤ max_sig_buf_size
      → pending
          (drain_signals fate (record { channel = ch; buffer = b; drain = dr; received = got }))
        ≡ got ++ (holding_of dr ++ b)
  unfolding drain_signals requeue_signals
  drain_pending fate ch none b quiet hf h = refl
  drain_pending fate (some c) (some d) b quiet hf h = elim quiet [ ]
  drain_pending fate none (some d) b unregistered hf h = held_pending fate d.target d.holding b hf h

  room_pending :
      (room : Bool) (x : Bytes) (ch : Option ℕ) (dr : Option Drain) (b : List Bytes)
      → ltb (length b) max_sig_buf_size ≡ room
      → length (got ++ (holding_of dr ++ b) ++ x ∷ []) ≤ max_sig_buf_size
      → pending (
          if room
          then record { channel = ch; buffer = b ++ x ∷ []; drain = dr; received = got }
          else record { channel = ch; buffer = b; drain = dr; received = got })
        ≡ got ++ (holding_of dr ++ b) ++ x ∷ []
  room_pending true x ch dr b hr h = sym (
      append_assoc got (holding_of dr ++ b) (x ∷ [])
      ∙ ap (λ ys. got ++ ys) (append_assoc (holding_of dr) b (x ∷ [])))
  room_pending false x ch dr b hr h = ground (
    arith,
    length-append (got ++ (holding_of dr ++ b)) (x ∷ []),
    length-append got (holding_of dr ++ b),
    length-append (holding_of dr) b,
  )

  sends_pending :
      (x : Bytes) (c : ℕ) (ch : Option ℕ) (dr : Option Drain) (b : List Bytes)
      → IsQuiet ch dr b
      → ch ≡ some c
      → pending (
          send_signal x delivered (record { channel = ch; buffer = b; drain = dr; received = got }))
        ≡ got ++ (holding_of dr ++ b) ++ x ∷ []
  unfolding send_signal
  sends_pending x c none dr b unregistered hc = cc
  sends_pending x c (some d) none (y ∷ b) quiet hc = elim quiet [ ]
  sends_pending x c (some d) (some e) b quiet hc = elim quiet [ ]
  sends_pending x c (some d) none [] registered hc =
      append-nil (got ++ x ∷ []) ∙ ap (λ ys. ys ++ x ∷ []) (sym (append-nil got))

fails_pending :
    (x : Bytes) (fate : Delivery) (s : Signals)
    → fate ≢ delivered
    → pending (send_signal x fate s) ≡ pending s
unfolding send_signal
fails_pending x delivered s h = elim (h refl) [ ]
fails_pending x cancelled s h = refl
fails_pending x context_done s h = refl
fails_pending x channel_closed s h = refl

nil_length :
    (s : Signals)
    → length (pending s ++ []) ≤ max_sig_buf_size
    → length (pending s) ≤ max_sig_buf_size
nil_length s h = subst (λ ys. length ys ≤ max_sig_buf_size) (append-nil (pending s)) h

step_pending :
    {s t : Signals} {more : List Bytes} {step : Step s more t}
    → IsQuiet s.channel s.drain s.buffer
    → length (pending s ++ more) ≤ max_sig_buf_size
    → IsLasting s more t step
    → pending t ≡ pending s ++ more
unfolding buffer_signal
step_pending {s} quiet h (lasting_registers {c}) =
    set_pending s.received c s.channel s.drain s.buffer (nil_length s h)
    ∙ sym (append-nil (pending s))
step_pending {s} quiet h (lasting_drains {fate} hf) =
    drain_pending s.received fate s.channel s.drain s.buffer quiet hf (nil_length s h)
    ∙ sym (append-nil (pending s))
step_pending {s} quiet h (lasting_buffers {x}) =
    room_pending s.received (ltb (length s.buffer) max_sig_buf_size) x s.channel s.drain s.buffer
      refl h
step_pending {s} quiet h (lasting_sends {x} {c} {h = hc}) =
    sends_pending s.received x c s.channel s.drain s.buffer quiet hc
step_pending {s} quiet h (lasting_fails {x} {fate} {c} {g = hf}) =
    fails_pending x fate s hf ∙ sym (append-nil (pending s))

Lasting-Reach : {sent : List Bytes} {s : Signals} → Lasting sent s → Reach sent s
Lasting-Reach lasting = begins
Lasting-Reach (lasts {step = step} l h) = steps (Lasting-Reach l) step

-- However registrations, turns of `drainSignals`, and signals follow each other, if the context does
-- not end while a buffered signal is sent, and no more than 128 signals were answered with success: none
-- of these is lost, and none is out of order, since those received, then those that the goroutine holds,
-- then those buffered, are all of them in the order in which they came.
pub Lasting-pending :
    {sent : List Bytes} {s : Signals}
    → Lasting sent s
    → length sent ≤ max_sig_buf_size
    → pending s ≡ sent
Lasting-pending lasting h = refl
Lasting-pending (lasts {sent = sent} {more = more} {s = s} {t = t} l step) h =
    let before : pending s ≡ sent = Lasting-pending l (omega (arith, length-append sent more, h)) in
    step_pending (reach-IsTidy (Lasting-Reach l)).quiet
      (subst (λ ys. length (ys ++ more) ≤ max_sig_buf_size) (sym before) h) step
    ∙ ap (λ ys. ys ++ more) before
