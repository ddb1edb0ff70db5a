-- ===== src/Main/Serving/Tests.antt =====
-- Runs of `serve` to its end.
use ticketbutler_proxy.Common.{
  ℕ, zero, suc, ◌+◌, ◌*◌, ◌<◌, ◌==◌, if◌then◌else◌, arith, ◌≡◌, refl, true, false, none, List, [],
  ◌∷◌, inr,
}
use ticketbutler_proxy.Int.{pos, pos_part, to_int64}
use ticketbutler_proxy.Text.{codes, text_functions}
use ticketbutler_proxy.Errors.{Err, message, upstream, as_upstream, limit_reader}
use ticketbutler_proxy.Ticketbutler.Client.{
  World, second, retries_of, gives_up, origin_exhausted, request_of, read_response, fetched,
  fetch_orders, effective_timeout, backoff,
}
use ticketbutler_proxy.Ticketbutler.Client.Retry.{Fails}
use ticketbutler_proxy.Ticketbutler.Client.Clock.{
  Context, Clock, RunsBy, ctx_err_at, sleep_for, fetch_over,
}
use ticketbutler_proxy.Ticketbutler.Tests.{answering, no_orders}
use ticketbutler_proxy.Config.{orders_url}
use ticketbutler_proxy.Config.Tests.{loaded}
use ticketbutler_proxy.Main.{client_of}
use ticketbutler_proxy.Main.Serving.{
  http_server, Serving, sending, stopped, selecting, returned, started, Happens, signal, accept,
  answer, listen_returns, server_closed, listen_failed, shut, shutdown_returns, happen,
}
use ticketbutler_proxy.Main.Serving.Deadline.{success_after_write_timeout}
use ticketbutler_proxy.Main.Serving.Ends.{Reason, CanEnd, serve_ends, serve-CanEnd}

-- A signal comes while a request is under way, which is answered before the end.
abbrev quiet_end : List Happens
quiet_end =
    accept ∷ signal ∷ shut ∷ listen_returns server_closed ∷ answer ∷ shutdown_returns none ∷ []

abbrev ended : Serving
ended = record {
  listener = stopped;
  errs = none;
  signalled = true;
  waiter = returned none;
  requests = 0;
}

serve_ends_example : Reason quiet_end ended none
unfolding happen
serve_ends_example = serve_ends quiet_end ended none refl refl

-- `Shutdown` does not return without an error while a request is under way.
not_before_answer : happen (accept ∷ signal ∷ shut ∷ shutdown_returns none ∷ []) started ≡ none
unfolding happen
not_before_answer = refl

-- The port is taken.
abbrev port_taken : Err
port_taken = message (codes "listen: address already in use")

abbrev failing : Serving
failing = record {
  listener = sending port_taken;
  errs = none;
  signalled = false;
  waiter = selecting;
  requests = 0;
}

serve-CanEnd_example : CanEnd failing
unfolding happen
serve-CanEnd_example =
    serve-CanEnd (listen_returns (listen_failed port_taken) ∷ []) failing (message []) refl
      (inr (λ e. cc))

-- The default settings: ten minutes, three attempts. The first fails after ten minutes, the second succeeds
-- after 31 seconds.
abbrev going_on : Context
going_on = record { done_at = none; error = message [] }

abbrev attempt_end : ℕ → ℕ → ℕ
attempt_end n t = if n == 1 then t + 600 * second else t + 31 * second

unfoldable attempt_begin : ℕ → ℕ
attempt_begin zero = 0
attempt_begin (suc zero) = 0
attempt_begin (suc (suc n)) =
    (sleep_for going_on true (attempt_end (suc n) (attempt_begin (suc n))) (backoff (suc n))).1

abbrev clock : Clock
clock = record {
  begin = attempt_begin;
  finish = λ n. attempt_end n (attempt_begin n);
  timer_first = λ n. true;
}

abbrev flaky : World ℕ
flaky = record (answering (λ n. if n == 1 then 503 else 200)) {
  ctx_err = λ n. ctx_err_at going_on (clock.finish n);
  sleep = λ n. (sleep_for going_on true (clock.finish n) (backoff n)).0;
  started = pos 0;
  now = λ n. pos (clock.finish n);
}

flaky-RunsBy : RunsBy going_on clock flaky (client_of loaded)
unfolding attempt_begin effective_timeout client_of
flaky-RunsBy = record {
  started = refl;
  now = λ n. refl;
  ctx_err = λ n. refl;
  sleep = λ n. refl;
  begins = λ n. refl;
  refused = λ n h. absurd cc;
  goes_on = λ n. ground arith;
  limited = λ n. ground arith;
  interrupted = λ n h. absurd cc;
}

running : Unit {0}
unfolding fetch_orders text_functions retries_of read_response gives_up as_upstream origin_exhausted
    limit_reader request_of client_of orders_url sleep_for ctx_err_at attempt_begin backoff to_int64
running = tt

first_fails : Fails flaky (client_of loaded) 1
unfolding running
first_fails = record {
  error = upstream 503 [];
  failed = refl;
  transient = refl;
  not_cancelled = refl;
}

success_after_write_timeout_example :
    ((fetch_orders flaky (client_of loaded)).0 ≡ fetched flaky (client_of loaded) 2 no_orders)
    × (0 + pos_part (http_server loaded).write_timeout < fetch_over clock flaky (client_of loaded))
unfolding running
success_after_write_timeout_example =
    success_after_write_timeout loaded (600 * second) refl going_on clock flaky flaky-RunsBy 1
      (omega arith) refl refl ((first_fails, refl), tt) refl (omega arith) refl
