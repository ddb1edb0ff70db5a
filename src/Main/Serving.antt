-- ===== src/Main/Serving.antt =====
-- cmd/tbproxy/main.go: `serve` from its http.Server to its end. One goroutine listens, the other waits
-- for its error or for a signal; what net/http, the clients and the system do comes in as events. An
-- event that cannot happen where the program stands gives none.
pub mod Invariant
pub mod Ends
pub mod Deadline
mod Tests
use ticketbutler_proxy.Common.{
  ℕ, zero, suc, ◌+◌, ◌*◌, Bool, true, false, Option, none, some, List, [], ◌∷◌, ◌++◌,
}
use ticketbutler_proxy.Int.{ℤ, pos, ◌+ℤ◌, wrap_int64}
use ticketbutler_proxy.Text.{Text, codes}
use ticketbutler_proxy.Errors.{Err}
use ticketbutler_proxy.Ticketbutler.Client.{second}
use ticketbutler_proxy.Config.{Config}

abbrev pub minute : ℤ
minute = pos (60 * second)

-- What `serve` sets of its http.Server, besides the handler.
pub record HttpServer : Type 0 where
  pub addr : Text
  pub read_header_timeout : ℤ
  pub write_timeout : ℤ
  pub read_timeout : ℤ

unfoldable pub http_server : Config → HttpServer
http_server cfg = record {
  addr = b':' ∷ cfg.port;
  read_header_timeout = pos (20 * second);
  write_timeout = wrap_int64 (cfg.upstream_timeout +ℤ minute);
  read_timeout = wrap_int64 (cfg.upstream_timeout +ℤ minute);
}

-- The error of `ListenAndServe`, which always returns one: `http.ErrServerClosed`, or another.
pub data ListenEnd : Type 0 where
  server_closed : ListenEnd
  listen_failed : Err → ListenEnd

-- The goroutine that listens: in `ListenAndServe`, before it sends an error on `errs`, at its end.
pub data Listener : Type 0 where
  listening : Listener
  sending : Err → Listener
  stopped : Listener

-- The goroutine of `serve`: in its `select`, in `Shutdown`, returned.
pub data Waiter : Type 0 where
  selecting : Waiter
  shutting_down : Waiter
  returned : Option Err → Waiter

pub record Serving : Type 0 where
  pub listener : Listener
  -- the channel `errs`, which holds one error
  pub errs : Option Err
  -- `ctx.Done()` is closed
  pub signalled : Bool
  pub waiter : Waiter
  -- the requests under way
  pub requests : ℕ

abbrev pub started : Serving
started = record {
  listener = listening;
  errs = none;
  signalled = false;
  waiter = selecting;
  requests = 0;
}

pub data Happens : Type 0 where
  -- a signal, a request that comes in, one that is answered, the end of `ListenAndServe`
  signal : Happens
  accept : Happens
  answer : Happens
  listen_returns : ListenEnd → Happens
  -- `errs <- err`, the two cases of the `select`, the end of `Shutdown`
  send : Happens
  receive : Happens
  shut : Happens
  shutdown_returns : Option Err → Happens

-- `err != nil && !errors.Is(err, http.ErrServerClosed)` lets an error through.
unfoldable pub after_listen : ListenEnd → Listener
after_listen server_closed = stopped
after_listen (listen_failed e) = sending e

unfoldable pub on_answer : ℕ → Serving → Option Serving
on_answer zero s = none
on_answer (suc n) s = some (record s { requests = n })

-- `ListenAndServe` returns `http.ErrServerClosed` only once `Shutdown` has been called.
unfoldable pub on_listen_end : ListenEnd → Listener → Waiter → Serving → Option Serving
unfolding after_listen
on_listen_end server_closed listening selecting s = none
on_listen_end end listening waiter s = some (record s { listener = after_listen end })
on_listen_end end _ waiter s = none

-- A send waits while the channel is full.
unfoldable pub on_send : Listener → Option Err → Serving → Option Serving
on_send (sending e) none s = some (record s { listener = stopped; errs = some e })
on_send _ _ s = none

unfoldable pub on_receive : Waiter → Option Err → Serving → Option Serving
on_receive selecting (some e) s = some (record s { waiter = returned (some e); errs = none })
on_receive _ _ s = none

unfoldable pub on_shut : Waiter → Bool → Serving → Option Serving
on_shut selecting true s = some (record s { waiter = shutting_down })
on_shut _ _ s = none

-- `Shutdown` returns no error once no request is under way, and the context's error after fifteen
-- seconds.
unfoldable pub on_shutdown_end : Waiter → Option Err → ℕ → Serving → Option Serving
on_shutdown_end shutting_down none zero s = some (record s { waiter = returned none })
on_shutdown_end shutting_down (some e) requests s = some (record s { waiter = returned (some e) })
on_shutdown_end _ _ _ s = none

-- What happens before `serve` has returned. A request can come in on an open connection at any time, while
-- `Shutdown` runs too.
unfoldable pub step : Happens → Serving → Option Serving
unfolding on_answer on_listen_end on_send on_receive on_shut on_shutdown_end
step signal s = some (record s { signalled = true })
step accept s = some (record s { requests = suc s.requests })
step answer s = on_answer s.requests s
step (listen_returns end) s = on_listen_end end s.listener s.waiter s
step send s = on_send s.listener s.errs s
step receive s = on_receive s.waiter s.errs s
step shut s = on_shut s.waiter s.signalled s
step (shutdown_returns r) s = on_shutdown_end s.waiter r s.requests s

-- The program ends where `serve` returns: nothing happens after that.
unfoldable pub next : Waiter → Happens → Serving → Option Serving
unfolding step
next (returned r) x s = none
next _ x s = step x s

unfoldable pub happen : List Happens → Serving → Option Serving
unfolding next
happen [] s = some s
happen (x ∷ xs) s = elim (next s.waiter x s) [ none ↦ none | some s' ↦ happen xs s' ]
