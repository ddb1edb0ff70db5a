-- ===== src/Ticketbutler/Tests.antt =====
-- Runs of the client against small worlds.
use ticketbutler_proxy.Common.{
  ℕ, ◌*◌, ◌≡◌, refl, inr, arith, none, [], ◌∷◌, ◌++◌, if◌then◌else◌, ◌==◌,
}
use ticketbutler_proxy.Int.{pos, saturate, ◌-ℤ◌, to_int64}
use ticketbutler_proxy.Text.{codes, text_functions}
use ticketbutler_proxy.Errors.{
  ok, err, upstream, message, wrapped, as_upstream, limit_reader, decimal,
}
use ticketbutler_proxy.Ticketbutler.Types.{OrdersResponse}
use ticketbutler_proxy.Ticketbutler.Client.{
  Client, World, attempted, slept, retries_of, backoff, second, fetched, gives_up, failed_after,
  attempt_event, fetch_orders, read_response, origin_exhausted, request_of,
}
use ticketbutler_proxy.Ticketbutler.Client.Retry.{
  Fails, rounds, fetch_orders-succeeds, fetch_orders-gives_up, fetch_orders-exhausted,
}

abbrev pub no_orders : OrdersResponse ℕ
no_orders = record { uuid = []; orders = [] }

abbrev pub client : Client
client = record {
  url = codes "https://example.org/orders/";
  token = codes "t";
  file = [];
  timeout = pos 0;
  attempts = pos 2;
}

-- The upstream answers these statuses, one to an attempt.
abbrev pub answering : (ℕ → ℕ) → World ℕ
answering status = record {
  request_error = λ url. none;
  exchange = λ n r. ok (record { status = status n; body = [] });
  decode = λ body. ok no_orders;
  read = λ file. err (message []);
  ctx_err = λ n. none;
  sleep = λ n. none;
  started = pos 0;
  now = λ n. pos n;
}

abbrev flaky : World ℕ
flaky = answering (λ n. if n == 1 then 503 else 200)

abbrev pub overloaded : World ℕ
overloaded = answering (λ n. if n == 1 then 503 else 524)

abbrev down : World ℕ
down = answering (λ n. 503)

running : Unit {0}
unfolding fetch_orders text_functions backoff retries_of read_response gives_up as_upstream
    origin_exhausted limit_reader saturate ◌-ℤ◌ to_int64 request_of decimal
running = tt

first_fails : Fails flaky client 1
unfolding running
first_fails = record {
  error = upstream 503 [];
  failed = refl;
  transient = refl;
  not_cancelled = refl;
}

pub overloaded_fails : Fails overloaded client 1
unfolding running
overloaded_fails = record {
  error = upstream 503 [];
  failed = refl;
  transient = refl;
  not_cancelled = refl;
}

down_fails : Fails down client 1
unfolding running
down_fails = record {
  error = upstream 503 [];
  failed = refl;
  transient = refl;
  not_cancelled = refl;
}

down_fails_again : Fails down client 2
unfolding running
down_fails_again = record {
  error = upstream 503 [];
  failed = refl;
  transient = refl;
  not_cancelled = refl;
}

flaky_run : fetch_orders flaky client ≡ (
  ok (record { orders = no_orders; duration = pos 2 }),
  attempted (request_of client) ∷ slept (pos (30 * second)) ∷ attempted (request_of client) ∷ [],
)
unfolding running
flaky_run = refl

fetch_orders-succeeds_example :
    fetch_orders flaky client
    ≡ (fetched flaky client 2 no_orders, rounds flaky client 1 1 ++ attempt_event flaky client)
unfolding running
fetch_orders-succeeds_example =
    fetch_orders-succeeds flaky client refl 1 0 refl ((first_fails, refl), tt) refl

fetch_orders-gives_up_example :
    fetch_orders overloaded client
    ≡ (err (upstream 524 []), rounds overloaded client 1 1 ++ attempted (request_of client) ∷ [])
unfolding running
fetch_orders-gives_up_example =
    fetch_orders-gives_up overloaded client refl 1 0 (record { status = 524; body = [] }) refl
      ((overloaded_fails, refl), tt) (refl, refl, (λ e. omega arith)) (inr (inr (inr (inr refl))))

fetch_orders-exhausted_example : fetch_orders down client ≡ (
  err (wrapped (failed_after 2) down_fails_again.error),
  rounds down client 1 1 ++ attempt_event down client,
)
unfolding running
fetch_orders-exhausted_example =
    fetch_orders-exhausted down client refl 1 refl ((down_fails, refl), tt) down_fails_again
