-- ===== src/Ticketbutler/Client/InTime/Tests.antt =====
-- Runs of the client by a clock: the origin answers 503 after five seconds; then the context is done, in
-- the second attempt, or the second attempt succeeds.
use ticketbutler_proxy.Common.{
  ℕ, zero, suc, ◌+◌, ◌*◌, ◌-◌, ◌≤◌, ◌≡◌, refl, true, none, some, [], ◌==◌, arith, ltb,
  if◌then◌else◌,
}
use ticketbutler_proxy.Int.{pos, saturate, ◌-ℤ◌, to_int64}
use ticketbutler_proxy.Text.{codes, text_functions}
use ticketbutler_proxy.Errors.{Result, ok, err, message, as_upstream, limit_reader}
use ticketbutler_proxy.Ticketbutler.Client.{
  Client, World, Response, second, backoff, effective_timeout, retries_of, fetch_orders,
  read_response, gives_up, origin_exhausted, request_of,
}
use ticketbutler_proxy.Ticketbutler.Client.Clock.{
  Context, Clock, RunsBy, later, ctx_err_at, sleep_for, over_at,
}
use ticketbutler_proxy.Ticketbutler.Client.InTime.{
  fetch_over, Reports, allowed, over_when_done, over_in_time,
}
use ticketbutler_proxy.Ticketbutler.Tests.{no_orders}

abbrev client : Client
client = record {
  url = codes "https://example.org/orders/";
  token = codes "t";
  file = [];
  timeout = pos (600 * second);
  attempts = pos 3;
}

abbrev stopping : Context
stopping = record { done_at = some (40 * second); error = message (codes "context canceled") }

abbrev going_on : Context
going_on = record { done_at = none; error = message [] }

-- An attempt takes five seconds, or ends when the context is done.
unfoldable attempt_end : Context → ℕ → ℕ
attempt_end ctx t = elim ctx.done_at [
  | none ↦ t + 5 * second
  | some done ↦ if ltb (later t done) (t + 5 * second) then later t done else t + 5 * second
]

unfoldable attempt_begin : Context → ℕ → ℕ
attempt_begin ctx zero = 0
attempt_begin ctx (suc zero) = 0
attempt_begin ctx (suc (suc n)) =
    (sleep_for ctx true (attempt_end ctx (attempt_begin ctx (suc n))) (backoff (suc n))).1

abbrev clock : Context → Clock
clock ctx = record {
  begin = attempt_begin ctx;
  finish = λ n. attempt_end ctx (attempt_begin ctx n);
  timer_first = λ n. true;
}

-- The origin answers 503 first, and then as given.
abbrev world : Context → Result Response → World ℕ
world ctx answer = record {
  request_error = λ url. none;
  exchange = λ n r. if n == 1 then ok (record { status = 503; body = [] }) else answer;
  decode = λ body. ok no_orders;
  read = λ file. err (message []);
  ctx_err = λ n. ctx_err_at ctx (attempt_end ctx (attempt_begin ctx n));
  sleep = λ n. (sleep_for ctx true (attempt_end ctx (attempt_begin ctx n)) (backoff n)).0;
  started = pos 0;
  now = λ n. pos (attempt_end ctx (attempt_begin ctx n));
}

world-RunsBy :
    (ctx : Context) (answer : Result Response) → RunsBy ctx (clock ctx) (world ctx answer) client
unfolding attempt_begin attempt_end effective_timeout
world-RunsBy ctx answer = record {
  started = refl;
  now = λ n. refl;
  ctx_err = λ n. refl;
  sleep = λ n. refl;
  begins = λ n. refl;
  refused = λ n h. absurd cc;
  goes_on = λ n. ground arith;
  limited = λ n. ground arith;
  interrupted = λ n h. ground (arith, h);
}

abbrev cancelled : World ℕ
cancelled = world stopping (err (message (codes "context canceled")))

abbrev late_success : World ℕ
late_success = world going_on (ok (record { status = 200; body = [] }))

running : Unit {0}
unfolding fetch_orders text_functions backoff retries_of read_response gives_up as_upstream
    origin_exhausted limit_reader saturate ◌-ℤ◌ to_int64 request_of ctx_err_at sleep_for attempt_end
    attempt_begin over_at effective_timeout
running = tt

cancelled_at_once : fetch_over (clock stopping) cancelled client ≡ 40 * second
unfolding running
cancelled_at_once = refl

takes_forty_seconds :
    (fetch_orders late_success client).0
    ≡ ok (record { orders = no_orders; duration = pos (40 * second) })
unfolding running
takes_forty_seconds = refl

over_when_done_example : fetch_over (clock stopping) cancelled client ≤ 40 * second
unfolding attempt_begin
over_when_done_example =
    over_when_done stopping (clock stopping) cancelled client
      (world-RunsBy stopping (err (message (codes "context canceled")))) (40 * second) refl refl

over_in_time_example :
    (fetch_over (clock going_on) late_success client ≤ 0 + allowed client 2)
    × Reports
        (fetch_over (clock going_on) late_success client - 0)
        (fetch_orders late_success client).0
unfolding attempt_begin retries_of effective_timeout
over_in_time_example =
    over_in_time going_on (clock going_on) late_success client
      (world-RunsBy going_on (ok (record { status = 200; body = [] }))) 2 refl refl (omega arith)
