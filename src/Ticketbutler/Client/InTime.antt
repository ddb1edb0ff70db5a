-- ===== src/Ticketbutler/Client/InTime.antt =====
-- internal/ticketbutler/client.go: when a fetch is over.
pub mod Tests
use ticketbutler_proxy.Common.{
  ℕ, zero, suc, ◌+◌, ◌-◌, ◌*◌, ◌^◌, ◌<◌, ◌∙◌, ◌≤◌, ◌≡◌, ◌∙◌, ap, refl, Option, none, some, List, [],
  ◌∷◌, ◌++◌, arith, ltb, if◌then◌else◌,
}
use mathlib.Core.List.{append-nil, append_assoc}
use mathlib.Core.Path.{ap₂, subst, sym}
use ticketbutler_proxy.Int.{ℤ, pos, pos_part, ◌-ℤ◌, saturate}
use ticketbutler_proxy.Text.{text_eq}
use ticketbutler_proxy.Errors.{Err, Result, ok, err}
use ticketbutler_proxy.Ticketbutler.Client.{
  Client, World, Event, slept, second, retries_of, request_of, effective_timeout, backoff,
  attempt_event, fetched, fetch_from, fetch_orders, Fetched,
}
use ticketbutler_proxy.Ticketbutler.Client.Retry.{rounds}
use ticketbutler_proxy.Ticketbutler.Client.Allowance.{
  allowance, allowance-append, timeout_of, allowed, allowance-fetch_orders,
}
use ticketbutler_proxy.Ticketbutler.Client.Clock.{
  Context, Clock, RunsBy, later, sleep_for, over_at, fetch_over, Reports,
}

sleep_for_le :
    (ctx : Context) (first : _) (now : ℕ) (d : ℤ) → (sleep_for ctx first now d).1 ≤ now + pos_part d
unfolding sleep_for
sleep_for_le ctx first now d = ground arith

sleep_for-done :
    (ctx : Context) (first : _) (now : ℕ) (d : ℤ) {done : ℕ}
    → ctx.done_at ≡ some done
    → (sleep_for ctx first now d).1 ≤ later now done
unfolding sleep_for
sleep_for-done ctx first now d h = rw h (ground arith)

sleep_for_ge : (ctx : Context) (first : _) (now : ℕ) (d : ℤ) → now ≤ (sleep_for ctx first now d).1
unfolding sleep_for
sleep_for_ge ctx first now d = ground arith

module _ {F : Type 0} (ctx : Context) (clock : Clock) (w : World F) (c : Client)
    (runs : RunsBy ctx clock w c) where
  over_at-requested :
      (r : Option Err) (n : ℕ) (trace : List Event)
      → w.request_error c.url ≡ r
      → over_at clock (suc n) (clock.begin (suc n)) (attempt_event w c ++ trace)
        ≡ over_at clock (suc n) (clock.finish (suc n)) trace
  unfolding over_at
  over_at-requested none n trace h = ground (arith, h)
  over_at-requested (some e) n trace h = ground (arith, h, runs.refused n h)

  over_at-attempt :
      (n : ℕ) (trace : List Event)
      → over_at clock (suc n) (clock.begin (suc n)) (attempt_event w c ++ trace)
        ≡ over_at clock (suc n) (clock.finish (suc n)) trace
  over_at-attempt n trace = over_at-requested (w.request_error c.url) n trace refl

  module _ (done : ℕ) (h : ctx.done_at ≡ some done) where
    finish_le : (n b : ℕ) → clock.begin (suc n) ≤ b → done ≤ b → clock.finish (suc n) ≤ b
    finish_le n b begun d = ground (arith, runs.interrupted n h)

    begin_le : (n b : ℕ) → clock.begin (suc n) ≤ b → done ≤ b → clock.begin (suc (suc n)) ≤ b
    begin_le n b begun d = ground (
      arith,
      finish_le n b begun d,
      runs.begins n,
      sleep_for-done ctx (clock.timer_first (suc n)) (clock.finish (suc n)) (backoff (suc n)) h,
    )

    over-fetch_from :
        (left n b : ℕ)
        → clock.begin (suc n) ≤ b
        → done ≤ b
        → over_at clock (suc n) (clock.begin (suc n)) (fetch_from w c left (suc n)).1 ≤ b
    unfolding fetch_from over_at
    over-fetch_from zero n b begun d = ground (arith, finish_le n b begun d)
    over-fetch_from (suc left) n b begun d = ground (
      arith,
      finish_le n b begun d,
      begin_le n b begun d,
      over_at-attempt n (slept (backoff (suc n)) ∷ []),
      over_at-attempt n (slept (backoff (suc n)) ∷ (fetch_from w c left (suc (suc n))).1),
      over-fetch_from left (suc n) b (begin_le n b begun d) d,
    )

  over-allowance :
      (left n : ℕ)
      → over_at clock (suc n) (clock.begin (suc n)) (fetch_from w c left (suc n)).1
        ≤ clock.begin (suc n) + allowance (fetch_from w c left (suc n)).1
  unfolding fetch_from over_at allowance request_of
  over-allowance zero n = ground (arith, over_at-attempt n [], runs.limited n)
  over-allowance (suc left) n = ground (
    arith,
    runs.limited n,
    over_at-attempt n [],
    runs.begins n,
    sleep_for_le ctx (clock.timer_first (suc n)) (clock.finish (suc n)) (backoff (suc n)),
    over_at-attempt n (slept (backoff (suc n)) ∷ []),
    over_at-attempt n (slept (backoff (suc n)) ∷ (fetch_from w c left (suc (suc n))).1),
    allowance-append (attempt_event w c) (slept (backoff (suc n)) ∷ []),
    allowance-append (attempt_event w c)
        (slept (backoff (suc n)) ∷ (fetch_from w c left (suc (suc n))).1),
    over-allowance left (suc n),
  )

  unfoldable reported : ℕ → ℤ
  reported t = saturate (pos t -ℤ pos (clock.begin 1))

  reported-finish :
      (n : ℕ) → saturate (w.now (suc n) -ℤ w.started) ≡ reported (clock.finish (suc n))
  unfolding reported
  reported-finish n = ap₂ (λ a b. saturate (a -ℤ b)) (runs.now n) runs.started

  duration-over :
      (left n : ℕ) {f : Fetched F}
      → (fetch_from w c left (suc n)).0 ≡ ok f
      → f.duration
        ≡ reported (over_at clock (suc n) (clock.begin (suc n)) (fetch_from w c left (suc n)).1)
  unfolding fetch_from over_at
  duration-over zero n h = ground (arith, reported-finish n, over_at-attempt n [])
  duration-over (suc left) n {f} h = ground (
    arith,
    reported-finish n,
    over_at-attempt n [],
    over_at-attempt n (slept (backoff (suc n)) ∷ (fetch_from w c left (suc (suc n))).1),
    duration-over left (suc n) {f = f},
  )

  pub over-retried :
      over_at clock 1 (clock.begin 1) (rounds w c 1 1 ++ attempt_event w c) ≡ clock.finish 2
  unfolding over_at
  over-retried =
      ap (over_at clock 1 (clock.begin 1))
        (append_assoc (attempt_event w c) (slept (backoff 1) ∷ []) _)
      ∙ (over_at-attempt 0 (slept (backoff 1) ∷ attempt_event w c)
          ∙ (ap (over_at clock 2 (clock.begin 2)) (sym (append-nil (attempt_event w c)))
              ∙ over_at-attempt 1 []))

  -- A sleep that is not cut short lasts its time.
  pub begin-awake :
      (n : ℕ)
      → w.sleep (suc n) ≡ none
      → clock.begin (suc (suc n)) ≡ clock.finish (suc n) + pos_part (backoff (suc n))
  unfolding sleep_for
  begin-awake n awake = ground (arith, awake, runs.sleep n, runs.begins n)

  begins_after : (n : ℕ) → clock.finish (suc n) ≤ clock.begin (suc (suc n))
  begins_after n =
      rw (runs.begins n)
        (sleep_for_ge ctx (clock.timer_first (suc n)) (clock.finish (suc n)) (backoff (suc n)))

  over-starts :
      (left n : ℕ)
      → clock.begin (suc n)
        ≤ over_at clock (suc n) (clock.begin (suc n)) (fetch_from w c left (suc n)).1
  unfolding fetch_from over_at
  over-starts zero n = ground (arith, over_at-attempt n [], runs.goes_on n)
  over-starts (suc left) n = ground (
    arith,
    runs.goes_on n,
    over_at-attempt n [],
    begins_after n,
    over_at-attempt n (slept (backoff (suc n)) ∷ []),
    over_at-attempt n (slept (backoff (suc n)) ∷ (fetch_from w c left (suc (suc n))).1),
    over-starts left (suc n),
  )

  reported_lem :
      (t limit : ℕ)
      → clock.begin 1 ≤ t
      → t ≤ clock.begin 1 + limit
      → limit < 2 ^ 63
      → reported t ≡ pos (t - clock.begin 1)
  unfolding reported saturate ◌-ℤ◌
  reported_lem t limit from to small = ground arith

  api_fetch : c.file ≡ [] → fetch_orders w c ≡ fetch_from w c (retries_of c.attempts) 1
  unfolding fetch_orders text_eq
  api_fetch h = ground (arith, h)

  -- Where a fetch of the API runs by a clock, under a context that is done at some instant: nothing of it,
  -- no attempt and no sleep, goes on after that instant, or after its start if that is later.
  pub over_when_done :
      (done : ℕ)
      → ctx.done_at ≡ some done
      → c.file ≡ []
      → fetch_over clock w c ≤ later (clock.begin 1) done
  over_when_done done h from_api =
      rw (api_fetch from_api)
        (over-fetch_from done h (retries_of c.attempts) 0 _ (ground arith) (ground arith))

  result-Reports :
      (left limit : ℕ) (result : Result (Fetched F))
      → (fetch_from w c left 1).0 ≡ result
      → allowance (fetch_from w c left 1).1 ≤ limit
      → limit < 2 ^ 63
      → Reports (over_at clock 1 (clock.begin 1) (fetch_from w c left 1).1 - clock.begin 1) result
  unfolding Reports
  result-Reports left limit (ok f) h most small =
      duration-over left 0 h
      ∙ reported_lem _ limit (over-starts left 0) (omega (arith, over-allowance left 0, most)) small
  result-Reports left limit (err e) h most small = tt

  -- Where a fetch of the API with `r` retries runs by a clock, and what it is allowed is less than 292 years:
  -- whatever comes of it, it is over after at most `r + 1` timeouts and the sleeps of thirty seconds
  -- doubled between them, and the duration that a success reports is the time that the fetch took.
  pub over_in_time :
      (r : ℕ)
      → retries_of c.attempts ≡ r
      → c.file ≡ []
      → allowed c r < 2 ^ 63
      → (fetch_over clock w c ≤ clock.begin 1 + allowed c r)
        × Reports (fetch_over clock w c - clock.begin 1) (fetch_orders w c).0
  over_in_time r h from_api small =
      let most : allowance (fetch_from w c (retries_of c.attempts) 1).1 ≤ allowed c r =
        subst (λ f. allowance f.1 ≤ allowed c r) (api_fetch from_api)
          (allowance-fetch_orders w c r h) in
      rw (api_fetch from_api) (
        omega (arith, over-allowance (retries_of c.attempts) 0, most),
        result-Reports (retries_of c.attempts) (allowed c r) _ refl most small,
      )
