-- ===== src/Ticketbutler/Client/Clock.antt =====
-- internal/ticketbutler/client.go: sleepFor, and the clock by which a fetch runs. Instants are numbers of
-- nanoseconds. Timers fire, and goroutines wake, at the instant they are due.
use ticketbutler_proxy.Common.{
  ℕ, suc, ◌+◌, ◌≤◌, ◌≡◌, Bool, Option, none, some, List, [], ◌∷◌, ltb, if◌then◌else◌,
}
use ticketbutler_proxy.Int.{ℤ, pos, pos_part}
use ticketbutler_proxy.Errors.{Err, Result, ok, err}
use ticketbutler_proxy.Ticketbutler.Client.{
  Client, World, Event, attempted, slept, effective_timeout, backoff, Fetched, fetch_orders,
}

-- A `context.Context`: when it is done, if ever, and the error that it has then.
pub record Context : Type 0 where
  pub done_at : Option ℕ
  pub error : Err

abbrev pub later : ℕ → ℕ → ℕ
later a b = if ltb a b then b else a

unfoldable pub ctx_err_at : Context → ℕ → Option Err
ctx_err_at ctx now = elim ctx.done_at [
  | none ↦ none
  | some done ↦ if ltb now done then none else some ctx.error
]

-- What a sleep returns, and when. Where the timer and the context are ready at the same instant, the
-- `select` takes either, the timer if `timer_first`.
unfoldable pub sleep_for : Context → Bool → ℕ → ℤ → Option Err × ℕ
sleep_for ctx timer_first now d = elim ctx.done_at [
  | none ↦ (none, now + pos_part d)
  | some done ↦
      if ltb (now + pos_part d) (later now done)
      then (none, now + pos_part d)
      else if ltb (later now done) (now + pos_part d)
      then (some ctx.error, later now done)
      else (if timer_first then none else some ctx.error, now + pos_part d)
]

-- When each attempt begins and ends, and what a `select` takes.
pub record Clock : Type 0 where
  pub begin : ℕ → ℕ
  pub finish : ℕ → ℕ
  pub timer_first : ℕ → Bool

-- The world of a client without `now` and `sleep` runs by the clock: `time.Now` reads it, the context is
-- asked and the sleep starts when an attempt is over, and the next attempt begins when the sleep is over.
-- net/http ends an attempt when its timeout has passed, or the context is done.
pub record RunsBy {F : Type 0} (ctx : Context) (clock : Clock) (w : World F) (c : Client)
    : Type 0 where
  pub started : w.started ≡ pos (clock.begin 1)
  pub now : (n : ℕ) → w.now (suc n) ≡ pos (clock.finish (suc n))
  pub ctx_err : (n : ℕ) → w.ctx_err (suc n) ≡ ctx_err_at ctx (clock.finish (suc n))
  pub sleep :
      (n : ℕ)
      → w.sleep (suc n)
        ≡ (sleep_for ctx (clock.timer_first (suc n)) (clock.finish (suc n)) (backoff (suc n))).0
  pub begins :
      (n : ℕ)
      → clock.begin (suc (suc n))
        ≡ (sleep_for ctx (clock.timer_first (suc n)) (clock.finish (suc n)) (backoff (suc n))).1
  -- An attempt without a request takes no time.
  pub refused :
      (n : ℕ) {e : Err}
      → w.request_error c.url ≡ some e
      → clock.finish (suc n) ≡ clock.begin (suc n)
  pub goes_on : (n : ℕ) → clock.begin (suc n) ≤ clock.finish (suc n)
  pub limited :
      (n : ℕ) → clock.finish (suc n) ≤ clock.begin (suc n) + pos_part (effective_timeout c.timeout)
  pub interrupted :
      (n : ℕ) {done : ℕ}
      → ctx.done_at ≡ some done
      → clock.finish (suc n) ≤ later (clock.begin (suc n)) done

-- The instant when so much has been done from an attempt on, at `t`.
unfoldable pub over_at : Clock → ℕ → ℕ → List Event → ℕ
over_at clock n t [] = t
over_at clock n t (attempted r ∷ trace) = over_at clock n (clock.finish n) trace
over_at clock n t (slept d ∷ trace) = over_at clock (suc n) (clock.begin (suc n)) trace

-- The instant when the fetch is over.
abbrev pub fetch_over : {F : Type 0} → Clock → World F → Client → ℕ
fetch_over clock w c = over_at clock 1 (clock.begin 1) (fetch_orders w c).1

-- What the result of a fetch that took so long says of its duration.
unfoldable pub Reports : {F : Type 0} → ℕ → Result (Fetched F) → Type 0
Reports t (ok f) = f.duration ≡ pos t
Reports t (err e) = Unit
