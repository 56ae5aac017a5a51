-- ===== src/Session/Signals/Order.antt =====
-- The order of a session's signals, over every interleaving of requests, of registrations of a channel
-- and of the turns of `drainSignals`.
use mathlib.Core.List.{Sublistᴰ}
use mathlib.Core.List.Sublistᴰ
use ssh_server_go.Prelude.{
  ℕ, ◌≤◌, ◌≡◌, ◌≢◌, refl, ap, sym, subst, ◌∙◌, Bool, true, false, Option, none, some, List, [], ◌∷◌,
  ◌++◌, append_assoc, append-nil, Bytes, length, take, length-append, length-take, ltb,
  if◌then◌else◌, arith,
}
use ssh_server_go.Prelude.Sublists.{
  append-Sublistᴰ, Sublistᴰ-append, take-Sublistᴰ, skip-Sublistᴰ, Sublistᴰ-skip,
}
use ssh_server_go.Session.Signals.{
  Signals, no_signals, Drain, Delivery, delivered, cancelled, context_done, channel_closed,
  max_sig_buf_size, requeue_signals, register_channel, set_signal_channel, take_batch, send_held,
  drain_held, drain_signals, buffer_signal, send_signal,
}

abbrev pub holding_of : Option Drain → List Bytes
holding_of none = []
holding_of (some d) = d.holding

-- The signals in their order: those received, those that the goroutine holds, and those buffered.
abbrev pub pending : Signals → List Bytes
pending s = s.received ++ (holding_of s.drain ++ s.buffer)

-- A channel is registered only when nothing is buffered, and no goroutine runs.
pub data IsQuiet : Option ℕ → Option Drain → List Bytes → Type 0 where
  unregistered : {d : Option Drain} {b : List Bytes} → IsQuiet none d b
  registered : {c : ℕ} → IsQuiet (some c) none []

-- What a step does: a channel is registered or removed, the goroutine makes a turn, and a request's
-- signal is buffered or sent. The list is that of the signals whose request is answered with success.
pub data Step (s : Signals) : List Bytes → Signals → Type 0 where
  registers : (c : Option ℕ) → Step s [] (set_signal_channel c s)
  drains : (fate : Delivery) → Step s [] (drain_signals fate s)
  buffers : (signal : Bytes) → s.channel ≡ none → Step s (signal ∷ []) (buffer_signal signal s)
  sends :
      (signal : Bytes) (c : ℕ)
      → s.channel ≡ some c
      → Step s (signal ∷ []) (send_signal signal delivered s)
  fails :
      (signal : Bytes) (fate : Delivery) (c : ℕ)
      → s.channel ≡ some c
      → fate ≢ delivered
      → Step s [] (send_signal signal fate s)

-- The signals answered with success since the session began, and the state that it has reached.
pub data Reach : List Bytes → Signals → Type 0 where
  begins : Reach [] no_signals
  steps :
      {sent more : List Bytes} {s t : Signals}
      → Reach sent s
      → Step s more t
      → Reach (sent ++ more) t

-- A step leaves the signals in their order, and may lose some.
pub record IsTidy (before : List Bytes) (t : Signals) : Type 0 where
  pub order : Sublistᴰ (pending t) before
  pub quiet : IsQuiet t.channel t.drain t.buffer
  pub small : length t.buffer ≤ max_sig_buf_size

weaken :
    {before after : List Bytes} {t : Signals}
    → Sublistᴰ before after
    → IsTidy before t
    → IsTidy after t
weaken h tidy = record {
  order = Sublistᴰ.trans tidy.order h;
  quiet = tidy.quiet;
  small = tidy.small;
}

module _ (got : List Bytes) where
  abbrev idle : Option ℕ → List Bytes → Signals
  idle c b = record { channel = c; buffer = b; drain = none; received = got }

  abbrev busy : Drain → List Bytes → Signals
  busy d b = record { channel = none; buffer = b; drain = some d; received = got }

  take_small : (xs : List Bytes) → length (take max_sig_buf_size xs) ≤ max_sig_buf_size
  take_small xs = omega (arith, length-take max_sig_buf_size xs)

  requeue-IsTidy :
      (xs b : List Bytes) (dr : Option Drain)
      → IsTidy
          (got ++ (xs ++ b))
          (requeue_signals xs (record { channel = none; buffer = b; drain = dr; received = got }))
  unfolding requeue_signals
  requeue-IsTidy xs b dr = record {
    order = append-Sublistᴰ got (take-Sublistᴰ max_sig_buf_size (xs ++ b));
    quiet = unregistered;
    small = take_small (xs ++ b);
  }

  register_channel-IsTidy :
      (c : Option ℕ) (b : List Bytes)
      → length b ≤ max_sig_buf_size
      → IsTidy (got ++ b) (register_channel c (idle none b))
  register_channel-IsTidy none b h = record {
    order = Sublistᴰ.refl (got ++ b);
    quiet = unregistered;
    small = h;
  }
  register_channel-IsTidy (some c) [] h = record {
    order = Sublistᴰ.refl (got ++ []);
    quiet = registered;
    small = h;
  }
  register_channel-IsTidy (some c) (x ∷ b) h = record {
    order = Sublistᴰ.refl (got ++ x ∷ b);
    quiet = unregistered;
    small = h;
  }

  set_signal_channel-IsTidy :
      (c ch : Option ℕ) (dr : Option Drain) (b : List Bytes)
      → length b ≤ max_sig_buf_size
      → IsTidy
          (got ++ (holding_of dr ++ b))
          (set_signal_channel c (record { channel = ch; buffer = b; drain = dr; received = got }))
  unfolding set_signal_channel requeue_signals
  set_signal_channel-IsTidy c ch none b h = register_channel-IsTidy c b h
  set_signal_channel-IsTidy c ch (some d) b h =
      weaken (append-Sublistᴰ got (take-Sublistᴰ max_sig_buf_size (d.holding ++ b))) (
        register_channel-IsTidy c (take max_sig_buf_size (d.holding ++ b))
          (take_small (d.holding ++ b)))

  take_batch-IsTidy :
      (target : ℕ) (b : List Bytes)
      → IsTidy (got ++ b) (
          take_batch
            (record { target = target; holding = [] })
            b
            (busy (record { target = target; holding = [] }) b))
  take_batch-IsTidy target [] = record {
    order = Sublistᴰ.refl (got ++ []);
    quiet = registered;
    small = omega arith;
  }
  take_batch-IsTidy target (x ∷ b) = record {
    order =
        subst (λ ys. Sublistᴰ (got ++ ys) (got ++ (x ∷ b))) (sym (append-nil (x ∷ b)))
          (Sublistᴰ.refl (got ++ (x ∷ b)));
    quiet = unregistered;
    small = omega arith;
  }

  send_held-IsTidy :
      (target : ℕ) (x : Bytes) (rest b : List Bytes) (fate : Delivery)
      → length b ≤ max_sig_buf_size
      → IsTidy (got ++ (x ∷ rest ++ b)) (
          send_held
            (record { target = target; holding = x ∷ rest })
            x
            rest
            fate
            (busy (record { target = target; holding = x ∷ rest }) b))
  send_held-IsTidy target x rest b delivered h = record {
    order =
        subst (λ ys. Sublistᴰ ys (got ++ (x ∷ rest ++ b)))
          (sym (append_assoc got (x ∷ []) (rest ++ b))) (Sublistᴰ.refl (got ++ (x ∷ rest ++ b)));
    quiet = unregistered;
    small = h;
  }
  send_held-IsTidy target x rest b cancelled h = requeue-IsTidy (x ∷ rest) b _
  send_held-IsTidy target x rest b context_done h = record {
    order = append-Sublistᴰ got (Sublistᴰ.cons (skip-Sublistᴰ rest b));
    quiet = unregistered;
    small = h;
  }
  send_held-IsTidy target x rest b channel_closed h = requeue-IsTidy (x ∷ rest) b _

  drain_held-IsTidy :
      (fate : Delivery) (target : ℕ) (hs b : List Bytes)
      → length b ≤ max_sig_buf_size
      → IsTidy (got ++ (hs ++ b)) (
          drain_held
            (record { target = target; holding = hs })
            hs
            fate
            (busy (record { target = target; holding = hs }) b))
  drain_held-IsTidy fate target [] b h = take_batch-IsTidy target b
  drain_held-IsTidy fate target (x ∷ rest) b h = send_held-IsTidy target x rest b fate h

  drain_signals-IsTidy :
      (fate : Delivery) (ch : Option ℕ) (dr : Option Drain) (b : List Bytes)
      → length b ≤ max_sig_buf_size
      → IsQuiet ch dr b
      → IsTidy
          (got ++ (holding_of dr ++ b))
          (drain_signals fate (record { channel = ch; buffer = b; drain = dr; received = got }))
  unfolding drain_signals requeue_signals
  drain_signals-IsTidy fate ch none b h quiet = record {
    order = Sublistᴰ.refl (got ++ b);
    quiet = quiet;
    small = h;
  }
  drain_signals-IsTidy fate (some c) (some d) b h quiet = elim quiet [ ]
  drain_signals-IsTidy fate none (some d) b h unregistered =
      drain_held-IsTidy fate d.target d.holding b h

  fits-IsTidy :
      (fits : Bool) (x : Bytes) (dr : Option Drain) (b : List Bytes)
      → ltb (length b) max_sig_buf_size ≡ fits
      → length b ≤ max_sig_buf_size
      → IsTidy (got ++ (holding_of dr ++ b) ++ x ∷ []) (
          if fits
          then record { channel = none; buffer = b ++ x ∷ []; drain = dr; received = got }
          else record { channel = none; buffer = b; drain = dr; received = got })
  fits-IsTidy true x dr b less h = record {
    order =
        subst (λ ys. Sublistᴰ ys (got ++ (holding_of dr ++ b) ++ x ∷ []))
          (append_assoc got (holding_of dr ++ b) (x ∷ [])
            ∙ ap (λ ys. got ++ ys) (append_assoc (holding_of dr) b (x ∷ [])))
          (Sublistᴰ.refl (got ++ (holding_of dr ++ b) ++ x ∷ []));
    quiet = unregistered;
    small = ground (arith, length-append b (x ∷ []));
  }
  fits-IsTidy false x dr b less h = record {
    order = Sublistᴰ-skip (got ++ (holding_of dr ++ b)) (x ∷ []);
    quiet = unregistered;
    small = h;
  }

  sends-IsTidy :
      (x : Bytes) (c : ℕ)
      → IsTidy (got ++ [] ++ x ∷ []) (send_signal x delivered (idle (some c) []))
  unfolding send_signal
  sends-IsTidy x c = record {
    order =
        subst (λ ys. Sublistᴰ (got ++ x ∷ [] ++ []) (ys ++ x ∷ [])) (sym (append-nil got))
          (subst (λ ys. Sublistᴰ ys (got ++ x ∷ [])) (sym (append-nil (got ++ x ∷ [])))
            (Sublistᴰ.refl (got ++ x ∷ [])));
    quiet = registered;
    small = omega arith;
  }

  fails-IsTidy :
      (x : Bytes) (c : ℕ) (fate : Delivery)
      → fate ≢ delivered
      → IsTidy (got ++ []) (send_signal x fate (idle (some c) []))
  unfolding send_signal
  fails-IsTidy x c delivered h = elim (h refl) [ ]
  fails-IsTidy x c cancelled h = record {
    order = Sublistᴰ.refl (got ++ []);
    quiet = registered;
    small = omega arith;
  }
  fails-IsTidy x c context_done h = record {
    order = Sublistᴰ.refl (got ++ []);
    quiet = registered;
    small = omega arith;
  }
  fails-IsTidy x c channel_closed h = record {
    order = Sublistᴰ.refl (got ++ []);
    quiet = unregistered;
    small = omega arith;
  }

-- The steps on the fields of a state.
buffers-IsTidy :
    (x : Bytes) (s : Signals)
    → s.channel ≡ none
    → length s.buffer ≤ max_sig_buf_size
    → IsTidy (pending s ++ x ∷ []) (buffer_signal x s)
unfolding buffer_signal
buffers-IsTidy x s hc h =
    subst (λ ch. IsTidy (pending s ++ x ∷ []) (buffer_signal x (record s { channel = ch })))
      (sym hc)
      (fits-IsTidy s.received (ltb (length s.buffer) max_sig_buf_size) x s.drain s.buffer refl h)

module _ (got : List Bytes) where
  delivers-IsTidy :
      (x : Bytes) (c : ℕ) (ch : Option ℕ) (dr : Option Drain) (b : List Bytes)
      → IsQuiet ch dr b
      → ch ≡ some c
      → IsTidy (got ++ (holding_of dr ++ b) ++ x ∷ []) (
          send_signal x delivered (record { channel = ch; buffer = b; drain = dr; received = got }))
  delivers-IsTidy x c none dr b unregistered hc = cc
  delivers-IsTidy x c (some d) none (y ∷ b) quiet hc = elim quiet [ ]
  delivers-IsTidy x c (some d) (some e) b quiet hc = elim quiet [ ]
  delivers-IsTidy x c (some d) none [] registered hc = sends-IsTidy got x d

  misses-IsTidy :
      (x : Bytes) (fate : Delivery) (c : ℕ) (ch : Option ℕ) (dr : Option Drain) (b : List Bytes)
      → IsQuiet ch dr b
      → ch ≡ some c
      → fate ≢ delivered
      → IsTidy
          (got ++ (holding_of dr ++ b))
          (send_signal x fate (record { channel = ch; buffer = b; drain = dr; received = got }))
  misses-IsTidy x fate c none dr b unregistered hc h = cc
  misses-IsTidy x fate c (some d) none (y ∷ b) quiet hc h = elim quiet [ ]
  misses-IsTidy x fate c (some d) (some e) b quiet hc h = elim quiet [ ]
  misses-IsTidy x fate c (some d) none [] registered hc h = fails-IsTidy got x d fate h

same-IsTidy : {before : List Bytes} {t : Signals} → IsTidy before t → IsTidy (before ++ []) t
same-IsTidy {before} {t} h = subst (λ ys. IsTidy ys t) (sym (append-nil before)) h

pub step-IsTidy :
    {s t : Signals} {more : List Bytes}
    → IsQuiet s.channel s.drain s.buffer
    → length s.buffer ≤ max_sig_buf_size
    → Step s more t
    → IsTidy (pending s ++ more) t
step-IsTidy {s} quiet small (registers c) =
    same-IsTidy (set_signal_channel-IsTidy s.received c s.channel s.drain s.buffer small)
step-IsTidy {s} quiet small (drains fate) =
    same-IsTidy (drain_signals-IsTidy s.received fate s.channel s.drain s.buffer small quiet)
step-IsTidy {s} quiet small (buffers x h) = buffers-IsTidy x s h small
step-IsTidy {s} quiet small (sends x c h) =
    delivers-IsTidy s.received x c s.channel s.drain s.buffer quiet h
step-IsTidy {s} quiet small (fails x fate c h failed) =
    same-IsTidy (misses-IsTidy s.received x fate c s.channel s.drain s.buffer quiet h failed)

-- However registrations, turns of `drainSignals`, and signals follow each other: the signals that the
-- receivers took, then those that the goroutine holds, then those that are buffered, are, in this
-- order, some of the signals whose request was answered with success; a channel is registered only
-- while nothing is buffered and no goroutine runs; and 128 signals are buffered at most.
pub reach-IsTidy : {sent : List Bytes} {s : Signals} → Reach sent s → IsTidy sent s
reach-IsTidy begins = record { order = Sublistᴰ.refl []; quiet = unregistered; small = omega arith }
reach-IsTidy (steps {sent = sent} {more = more} r step) =
    let h = reach-IsTidy r in
    weaken (Sublistᴰ-append more h.order) (step-IsTidy h.quiet h.small step)
