-- ===== src/Main/Serving/Deadline.antt =====
-- cmd/tbproxy/main.go and internal/ticketbutler/client.go: the time that a refresh may take against the
-- time after which the server drops its reply.
use ticketbutler_proxy.Common.{ℕ, ◌+◌, ◌*◌, ◌^◌, ◌<◌, ◌≤◌, ◌≡◌, ap, ◌∙◌, [], arith}
use ticketbutler_proxy.Int.{pos, pos_part, ◌+ℤ◌, wrap_int64}
use ticketbutler_proxy.Errors.{ok}
use ticketbutler_proxy.Ticketbutler.Types.{OrdersResponse}
use ticketbutler_proxy.Ticketbutler.Client.{
  World, second, effective_timeout, retries_of, fetch_once, fetched, fetch_orders,
}
use ticketbutler_proxy.Ticketbutler.Client.Retry.{AllFail, fetch_orders-succeeds}
use ticketbutler_proxy.Ticketbutler.Client.Backoff.{backoff-doubles, to_int64_of_lt}
use ticketbutler_proxy.Ticketbutler.Client.Allowance.{allowance, allowance-fetch_orders}
use ticketbutler_proxy.Ticketbutler.Client.Clock.{Context, Clock, RunsBy, fetch_over}
use ticketbutler_proxy.Ticketbutler.Client.InTime.{over-retried, begin-awake}
use ticketbutler_proxy.Config.{Config}
use ticketbutler_proxy.Main.{client_of}
use ticketbutler_proxy.Main.Serving.{http_server, minute}

pos-add : (a b : ℕ) → pos a +ℤ pos b ≡ pos (a + b)
unfolding ◌+ℤ◌
pos-add a b = ground arith

module _ (cfg : Config) (t : ℕ) (is_t : cfg.upstream_timeout ≡ pos t) where
  write_timeout_lem :
      t + 60 * second < 2 ^ 63 → (http_server cfg).write_timeout ≡ pos (t + 60 * second)
  unfolding http_server wrap_int64 ◌+ℤ◌
  write_timeout_lem h =
      ap (λ d. wrap_int64 (d +ℤ minute)) is_t
      ∙ (ap wrap_int64 (pos-add t (60 * second)) ∙ to_int64_of_lt (t + 60 * second) h)

  timeout_lem : 0 < t → effective_timeout (client_of cfg).timeout ≡ pos t
  unfolding client_of effective_timeout
  timeout_lem h = rw is_t (ground arith)

  -- Where one attempt is configured, `WriteTimeout` is a minute longer than a fetch takes whose attempt uses
  -- up its timeout.
  pub one_attempt_in_time :
      {F : Type 0} (w : World F)
      → 0 < t
      → t + 60 * second < 2 ^ 63
      → retries_of cfg.upstream_attempts ≡ 0
      → allowance (fetch_orders w (client_of cfg)).1 + 60 * second
        ≤ pos_part (http_server cfg).write_timeout
  unfolding client_of
  one_attempt_in_time w positive small h = omega (
    arith,
    allowance-fetch_orders w (client_of cfg) 0 h,
    ap pos_part (timeout_lem positive),
    ap pos_part (write_timeout_lem small),
  )

  -- Where a fetch runs by a clock, with a timeout that is below 292 years: if its first attempt fails
  -- transiently at the timeout, and the second takes more than thirty seconds and succeeds, then the fetch
  -- gives the orders, but only after more than the `WriteTimeout` of the server.
  pub success_after_write_timeout :
      {F : Type 0} (ctx : Context) (clock : Clock) (w : World F)
      → RunsBy ctx clock w (client_of cfg)
      → (left : ℕ) {orders : OrdersResponse F} → t + 60 * second < 2 ^ 63
      → cfg.file ≡ []
      → retries_of cfg.upstream_attempts ≡ 1 + left
      → AllFail w (client_of cfg) 1 1
      → clock.finish 1 ≡ clock.begin 1 + t
      → clock.begin 2 + 30 * second < clock.finish 2
      → fetch_once w (client_of cfg) 2 ≡ ok orders
      → ((fetch_orders w (client_of cfg)).0 ≡ fetched w (client_of cfg) 2 orders)
        × (clock.begin 1 + pos_part (http_server cfg).write_timeout
            < fetch_over clock w (client_of cfg))
  unfolding client_of
  success_after_write_timeout ctx clock w runs left small from_api h failing times_out slow
        success =
      let done = fetch_orders-succeeds w (client_of cfg) from_api 1 left h failing success in
      let slept_for = ap pos_part (backoff-doubles 0 (omega arith)) in
      (
        ap (λ r. r.0) done,
        rw (done, write_timeout_lem small, over-retried ctx clock w (client_of cfg) runs)
            (omega (
              arith,
              begin-awake ctx clock w (client_of cfg) runs 0 failing.0.1,
              slept_for,
              times_out,
              slow,
            )),
      )
