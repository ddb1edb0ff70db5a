-- ===== src/Main/Serving/Invariant.antt =====
-- cmd/tbproxy/main.go: what holds of the two goroutines of `serve` at every moment.
use ticketbutler_proxy.Common.{
  ℕ, zero, suc, Bool, ◌≡◌, refl, ◌⊎◌, inl, inr, true, false, Option, none, some,
}
use ticketbutler_proxy.Errors.{Err}
use ticketbutler_proxy.Main.Serving.{
  ListenEnd, server_closed, listen_failed, Listener, listening, sending, stopped, Waiter, selecting,
  shutting_down, returned, Serving, Happens, signal, accept, answer, listen_returns, send, receive,
  shut, shutdown_returns, next,
}

abbrev pub at : Listener → Option Err → Bool → Waiter → ℕ → Serving
at l o b w n = record { listener = l; errs = o; signalled = b; waiter = w; requests = n }

module _ (E : Err → Type 0) where
  -- What the listening goroutine is about to send is such an error, and it finds the channel empty.
  abbrev pub ListenerGood : Listener → Option Err → Type 0
  ListenerGood listening o = o ≡ none
  ListenerGood (sending e) o = E e × (o ≡ none)
  ListenerGood stopped o = Unit

  abbrev pub ErrsGood : Option Err → Type 0
  ErrsGood none = Unit
  ErrsGood (some e) = E e

  -- Why `serve` has gone on past its `select`.
  abbrev pub WaiterGood : Waiter → Bool → ℕ → Type 0
  WaiterGood selecting b n = Unit
  WaiterGood shutting_down b n = b ≡ true
  WaiterGood (returned none) b n = (b ≡ true) × (n ≡ 0)
  WaiterGood (returned (some e)) b n = (b ≡ true) ⊎ E e

  -- The `select` does not wait for a goroutine that has ended without an error.
  abbrev pub Heard : Waiter → Listener → Option Err → Type 0
  Heard selecting stopped none = ⊥
  Heard _ _ _ = Unit

  pub record IsGood (s : Serving) : Type 0 where
    pub listener : ListenerGood s.listener s.errs
    pub errs : ErrsGood s.errs
    pub waiter : WaiterGood s.waiter s.signalled s.requests
    pub heard : Heard s.waiter s.listener s.errs

  abbrev pub Kept : Option Serving → Type 0
  Kept none = Unit
  Kept (some t) = IsGood t

  abbrev pub Covered : Happens → Type 0
  Covered (listen_returns (listen_failed e)) = E e
  Covered _ = Unit

  signal-Kept :
      (l : Listener) (o : Option Err) (b : Bool) (w : Waiter) (n : ℕ)
      → IsGood (at l o b w n)
      → Kept (next w signal (at l o b w n))
  unfolding next
  signal-Kept l o b selecting n g = record {
    listener = g.listener;
    errs = g.errs;
    waiter = tt;
    heard = g.heard;
  }
  signal-Kept l o b shutting_down n g = record {
    listener = g.listener;
    errs = g.errs;
    waiter = refl;
    heard = tt;
  }
  signal-Kept l o b (returned r) n g = tt

  accept-Kept :
      (l : Listener) (o : Option Err) (b : Bool) (w : Waiter) (n : ℕ)
      → IsGood (at l o b w n)
      → Kept (next w accept (at l o b w n))
  unfolding next
  accept-Kept l o b selecting n g = record {
    listener = g.listener;
    errs = g.errs;
    waiter = tt;
    heard = g.heard;
  }
  accept-Kept l o b shutting_down n g = record {
    listener = g.listener;
    errs = g.errs;
    waiter = g.waiter;
    heard = tt;
  }
  accept-Kept l o b (returned r) n g = tt

  answer-Kept :
      (l : Listener) (o : Option Err) (b : Bool) (w : Waiter) (n : ℕ)
      → IsGood (at l o b w n)
      → Kept (next w answer (at l o b w n))
  unfolding next
  answer-Kept l o b selecting zero g = tt
  answer-Kept l o b selecting (suc n) g = record {
    listener = g.listener;
    errs = g.errs;
    waiter = tt;
    heard = g.heard;
  }
  answer-Kept l o b shutting_down zero g = tt
  answer-Kept l o b shutting_down (suc n) g = record {
    listener = g.listener;
    errs = g.errs;
    waiter = g.waiter;
    heard = tt;
  }
  answer-Kept l o b (returned r) n g = tt

  listen_end-Kept :
      (end : ListenEnd) (l : Listener) (o : Option Err) (b : Bool) (w : Waiter) (n : ℕ)
      → Covered (listen_returns end)
      → IsGood (at l o b w n)
      → Kept (next w (listen_returns end) (at l o b w n))
  unfolding next
  listen_end-Kept server_closed listening o b selecting n c g = tt
  listen_end-Kept server_closed listening o b shutting_down n c g = record {
    listener = tt;
    errs = g.errs;
    waiter = g.waiter;
    heard = tt;
  }
  listen_end-Kept (listen_failed e) listening o b selecting n c g = record {
    listener = (c, g.listener);
    errs = g.errs;
    waiter = tt;
    heard = tt;
  }
  listen_end-Kept (listen_failed e) listening o b shutting_down n c g = record {
    listener = (c, g.listener);
    errs = g.errs;
    waiter = g.waiter;
    heard = tt;
  }
  listen_end-Kept end l o b (returned r) n c g = tt
  listen_end-Kept server_closed (sending e) o b selecting n c g = tt
  listen_end-Kept server_closed (sending e) o b shutting_down n c g = tt
  listen_end-Kept server_closed stopped o b selecting n c g = tt
  listen_end-Kept server_closed stopped o b shutting_down n c g = tt
  listen_end-Kept (listen_failed e) (sending f) o b selecting n c g = tt
  listen_end-Kept (listen_failed e) (sending f) o b shutting_down n c g = tt
  listen_end-Kept (listen_failed e) stopped o b selecting n c g = tt
  listen_end-Kept (listen_failed e) stopped o b shutting_down n c g = tt

  send-Kept :
      (l : Listener) (o : Option Err) (b : Bool) (w : Waiter) (n : ℕ)
      → IsGood (at l o b w n)
      → Kept (next w send (at l o b w n))
  unfolding next
  send-Kept l o b (returned r) n g = tt
  send-Kept (sending e) none b selecting n g = record {
    listener = tt;
    errs = g.listener.0;
    waiter = tt;
    heard = tt;
  }
  send-Kept (sending e) none b shutting_down n g = record {
    listener = tt;
    errs = g.listener.0;
    waiter = g.waiter;
    heard = tt;
  }
  send-Kept (sending e) (some f) b selecting n g = tt
  send-Kept (sending e) (some f) b shutting_down n g = tt
  send-Kept listening o b selecting n g = tt
  send-Kept listening o b shutting_down n g = tt
  send-Kept stopped o b selecting n g = tt
  send-Kept stopped o b shutting_down n g = tt

  emptied : (l : Listener) (e : Err) → ListenerGood l (some e) → ListenerGood l none
  emptied listening e h = refl
  emptied (sending f) e h = (h.0, refl)
  emptied stopped e h = tt

  receive-Kept :
      (l : Listener) (o : Option Err) (b : Bool) (w : Waiter) (n : ℕ)
      → IsGood (at l o b w n)
      → Kept (next w receive (at l o b w n))
  unfolding next
  receive-Kept l o b (returned r) n g = tt
  receive-Kept l none b selecting n g = tt
  receive-Kept l none b shutting_down n g = tt
  receive-Kept l (some e) b selecting n g = record {
    listener = emptied l e g.listener;
    errs = tt;
    waiter = inr g.errs;
    heard = tt;
  }
  receive-Kept l (some e) b shutting_down n g = tt

  shut-Kept :
      (l : Listener) (o : Option Err) (b : Bool) (w : Waiter) (n : ℕ)
      → IsGood (at l o b w n)
      → Kept (next w shut (at l o b w n))
  unfolding next
  shut-Kept l o b (returned r) n g = tt
  shut-Kept l o true selecting n g = record {
    listener = g.listener;
    errs = g.errs;
    waiter = refl;
    heard = tt;
  }
  shut-Kept l o false selecting n g = tt
  shut-Kept l o true shutting_down n g = tt
  shut-Kept l o false shutting_down n g = tt

  shutdown_end-Kept :
      (r : Option Err) (l : Listener) (o : Option Err) (b : Bool) (w : Waiter) (n : ℕ)
      → IsGood (at l o b w n)
      → Kept (next w (shutdown_returns r) (at l o b w n))
  unfolding next
  shutdown_end-Kept r l o b (returned q) n g = tt
  shutdown_end-Kept none l o b selecting zero g = tt
  shutdown_end-Kept none l o b selecting (suc n) g = tt
  shutdown_end-Kept (some e) l o b selecting n g = tt
  shutdown_end-Kept none l o b shutting_down zero g = record {
    listener = g.listener;
    errs = g.errs;
    waiter = (g.waiter, refl);
    heard = tt;
  }
  shutdown_end-Kept none l o b shutting_down (suc n) g = tt
  shutdown_end-Kept (some e) l o b shutting_down n g = record {
    listener = g.listener;
    errs = g.errs;
    waiter = inl g.waiter;
    heard = tt;
  }

  pub next-Kept : (x : Happens) (s : Serving) → Covered x → IsGood s → Kept (next s.waiter x s)
  next-Kept signal s c g = signal-Kept s.listener s.errs s.signalled s.waiter s.requests g
  next-Kept accept s c g = accept-Kept s.listener s.errs s.signalled s.waiter s.requests g
  next-Kept answer s c g = answer-Kept s.listener s.errs s.signalled s.waiter s.requests g
  next-Kept (listen_returns end) s c g =
      listen_end-Kept end s.listener s.errs s.signalled s.waiter s.requests c g
  next-Kept send s c g = send-Kept s.listener s.errs s.signalled s.waiter s.requests g
  next-Kept receive s c g = receive-Kept s.listener s.errs s.signalled s.waiter s.requests g
  next-Kept shut s c g = shut-Kept s.listener s.errs s.signalled s.waiter s.requests g
  next-Kept (shutdown_returns r) s c g =
      shutdown_end-Kept r s.listener s.errs s.signalled s.waiter s.requests g
