-- ===== src/Ticketbutler/Client/Retry.antt =====
-- internal/ticketbutler/client.go: the retry loop: which attempt decides the fetch, and what was
-- done up to it.
use ticketbutler_proxy.Common.{
  ℕ, zero, suc, ◌+◌, ◌≤◌, ◌<◌, ◌≡◌, ◌≢◌, ◌⊎◌, refl, ◌∙◌, true, false, none, some, List, [], ◌∷◌,
  ◌++◌, arith, if◌then◌else◌,
}
use mathlib.Core.List.{append_assoc}
use ticketbutler_proxy.Text.{text_eq}
use ticketbutler_proxy.Text.Order.{text_eq_iff}
use ticketbutler_proxy.Errors.{
  Bytes, Err, upstream, wrapped, joined, ok, err, limit_reader, as_upstream,
}
use ticketbutler_proxy.Ticketbutler.Types.{OrdersResponse}
use ticketbutler_proxy.Ticketbutler.Client.{
  Client, World, Event, Response, request_of, read_response, origin_exhausted, attempted, slept,
  retries_of, backoff, fetch_once, fetched, gives_up, failed_after, attempt_event, fetch_from,
  fetch_orders,
}

-- The requests in a trace.
unfoldable pub count_attempts : List Event → ℕ
count_attempts [] = 0
count_attempts (attempted r ∷ trace) = count_attempts trace + 1
count_attempts (slept d ∷ trace) = count_attempts trace

count_attempts-append :
    (xs ys : List Event) → count_attempts (xs ++ ys) ≡ count_attempts xs + count_attempts ys
unfolding count_attempts
count_attempts-append [] ys = omega arith
count_attempts-append (attempted r ∷ xs) ys = omega (arith, count_attempts-append xs ys)
count_attempts-append (slept d ∷ xs) ys = count_attempts-append xs ys

-- A status that an attempt is not made again for: a rejected request, or an origin that timed out.
abbrev pub IsFinal : ℕ → Type 0
IsFinal status = (status < 500) ⊎ (status ≡ 520) ⊎ (status ≡ 522) ⊎ (status ≡ 523) ⊎ (status ≡ 524)

gives_up-IsFinal :
    (status : ℕ) (body : Bytes) → IsFinal status → gives_up (upstream status body) ≡ true
unfolding gives_up as_upstream origin_exhausted
gives_up-IsFinal status body final = ground (arith, final)

module _ {F : Type 0} (w : World F) (c : Client) where
  -- The attempt fails in a way that is tried again, and the context is not cancelled.
  pub record Fails (attempt : ℕ) : Type 0 where
    pub error : Err
    pub failed : fetch_once w c attempt ≡ err error
    pub transient : gives_up error ≡ false
    pub not_cancelled : w.ctx_err attempt ≡ none

  -- So do the first `k` attempts from `attempt` on, and no sleep between them is cut short.
  abbrev pub AllFail : ℕ → ℕ → Type 0
  AllFail zero attempt = Unit
  AllFail (suc k) attempt = (Fails attempt × (w.sleep attempt ≡ none)) × AllFail k (suc attempt)

  -- What is done in `k` such rounds.
  abbrev pub rounds : ℕ → ℕ → List Event
  rounds zero attempt = []
  rounds (suc k) attempt = attempt_event w c ++ (slept (backoff attempt) ∷ rounds k (suc attempt))

  retry_step :
      (left attempt : ℕ)
      → Fails attempt
      → w.sleep attempt ≡ none
      → fetch_from w c (suc left) attempt ≡ (
        (fetch_from w c left (suc attempt)).0,
        attempt_event w c ++ (slept (backoff attempt) ∷ (fetch_from w c left (suc attempt)).1),
      )
  unfolding fetch_from
  retry_step left attempt f awake = ground (arith, f.failed, f.transient, f.not_cancelled)

  skip_rounds :
      (k left total attempt n : ℕ)
      → total ≡ k + left
      → n ≡ attempt + k
      → AllFail k attempt
      → fetch_from w c total attempt
        ≡ ((fetch_from w c left n).0, rounds k attempt ++ (fetch_from w c left n).1)
  skip_rounds zero left total attempt n e m h =
      let same : total ≡ left = omega arith in
      let here : n ≡ attempt = omega arith in rw (same, here)
  skip_rounds (suc k) left zero attempt n e m h = absurd (omega arith)
  skip_rounds (suc k) left (suc total) attempt n e m ((f, awake), h) =
      retry_step total attempt f awake
      ∙ rw (skip_rounds k left total (suc attempt) n (omega arith) (omega arith) h)
          (simp append_assoc)

  from_ok :
      (left n : ℕ) {orders : OrdersResponse F}
      → fetch_once w c n ≡ ok orders
      → fetch_from w c left n ≡ (fetched w c n orders, attempt_event w c)
  unfolding fetch_from
  from_ok zero n h = ground (arith, h)
  from_ok (suc left) n h = ground (arith, h)

  -- The attempt is answered with a status other than 200.
  abbrev pub Answered : ℕ → Response → Type 0
  Answered n resp =
      (w.request_error c.url ≡ none) × (w.exchange n (request_of c) ≡ ok resp) × (resp.status ≢ 200)

  pub fetch_once-Answered :
      (n : ℕ) (resp : Response)
      → Answered n resp
      → fetch_once w c n ≡ err (upstream resp.status (limit_reader 512 resp.body))
  unfolding fetch_once read_response
  fetch_once-Answered n resp (formed, answer, other) = ground (arith, formed, answer, other)

  attempt_event-Answered :
      (n : ℕ) (resp : Response)
      → Answered n resp
      → attempt_event w c ≡ attempted (request_of c) ∷ []
  attempt_event-Answered n resp (formed, answer, other) = ground (arith, formed)

  from_gives_up :
      (left n : ℕ) {e : Err}
      → fetch_once w c n ≡ err e
      → gives_up e ≡ true
      → fetch_from w c left n ≡ (err e, attempt_event w c)
  unfolding fetch_from
  from_gives_up zero n h k = ground (arith, h, k)
  from_gives_up (suc left) n h k = ground (arith, h, k)

  from_cancelled :
      (left n : ℕ) {e cancelled : Err}
      → fetch_once w c n ≡ err e
      → gives_up e ≡ false
      → w.ctx_err n ≡ some cancelled
      → fetch_from w c left n ≡ (err (joined e cancelled), attempt_event w c)
  unfolding fetch_from
  from_cancelled zero n h k x = ground (arith, h, k, x)
  from_cancelled (suc left) n h k x = ground (arith, h, k, x)

  from_last :
      (n : ℕ) (f : Fails n)
      → fetch_from w c 0 n ≡ (err (wrapped (failed_after n) f.error), attempt_event w c)
  unfolding fetch_from
  from_last n f = ground (arith, f.failed, f.transient, f.not_cancelled)

  count_attempts-event : count_attempts (attempt_event w c) ≤ 1
  unfolding count_attempts
  count_attempts-event = ground arith

  count_attempts-fetch_from : (left n : ℕ) → count_attempts (fetch_from w c left n).1 ≤ suc left
  unfolding fetch_from count_attempts
  count_attempts-fetch_from zero n = ground (arith, count_attempts-event)
  count_attempts-fetch_from (suc left) n = ground (
    arith,
    count_attempts-event,
    count_attempts-append (attempt_event w c) (slept (backoff n) ∷ []),
    count_attempts-append (attempt_event w c) (slept (backoff n) ∷ (fetch_from w c left (suc n)).1),
    count_attempts-fetch_from left (suc n),
  )

  module _ (from_api : c.file ≡ []) where
    fetch_orders-api : fetch_orders w c ≡ fetch_from w c (retries_of c.attempts) 1
    unfolding fetch_orders
    fetch_orders-api = ground (arith, text_eq_iff c.file [])

    pub rounds_then :
        (k left : ℕ)
        → retries_of c.attempts ≡ k + left
        → AllFail k 1
        → fetch_orders w c
          ≡ ((fetch_from w c left (suc k)).0, rounds k 1 ++ (fetch_from w c left (suc k)).1)
    rounds_then k left e h =
        fetch_orders-api ∙ skip_rounds k left (retries_of c.attempts) 1 (suc k) e (omega arith) h

    -- Where the first `k` attempts fail transiently, `k` retries are allowed, and the next attempt
    -- succeeds, the orders of that attempt are returned, and the client has made the `k` rounds of
    -- an attempt and a sleep, then that attempt, and nothing else.
    pub fetch_orders-succeeds :
        (k left : ℕ) {orders : OrdersResponse F}
        → retries_of c.attempts ≡ k + left
        → AllFail k 1
        → fetch_once w c (suc k) ≡ ok orders
        → fetch_orders w c ≡ (fetched w c (suc k) orders, rounds k 1 ++ attempt_event w c)
    fetch_orders-succeeds k left e h success =
        rounds_then k left e h ∙ rw (from_ok left (suc k) success)

    -- Where the first `k` attempts fail transiently, `k` retries are allowed, and the next attempt is
    -- answered with a status other than 200 that is below 500 or one of 520, 522, 523 and 524: the fetch
    -- gives that status with at most 512 bytes of the answer's body, and nothing is done after that
    -- attempt.
    pub fetch_orders-gives_up :
        (k left : ℕ) (resp : Response)
        → retries_of c.attempts ≡ k + left
        → AllFail k 1
        → Answered (suc k) resp
        → IsFinal resp.status
        → fetch_orders w c ≡ (
          err (upstream resp.status (limit_reader 512 resp.body)),
          rounds k 1 ++ (attempted (request_of c) ∷ []),
        )
    fetch_orders-gives_up k left resp eq h a final =
        rounds_then k left eq h
        ∙ rw
            (
              from_gives_up left (suc k) (fetch_once-Answered (suc k) resp a)
                  (gives_up-IsFinal resp.status _ final),
              attempt_event-Answered (suc k) resp a,
            )
            refl

    -- Where the first `k` attempts fail transiently, `k` retries are allowed, and the context is
    -- cancelled when the next attempt has failed transiently, the attempt's error and the context's
    -- are joined, and nothing is done after that attempt.
    pub fetch_orders-cancelled :
        (k left : ℕ) {e cancelled : Err}
        → retries_of c.attempts ≡ k + left
        → AllFail k 1
        → fetch_once w c (suc k) ≡ err e
        → gives_up e ≡ false
        → w.ctx_err (suc k) ≡ some cancelled
        → fetch_orders w c ≡ (err (joined e cancelled), rounds k 1 ++ attempt_event w c)
    fetch_orders-cancelled k left eq h failed transient by =
        rounds_then k left eq h ∙ rw (from_cancelled left (suc k) failed transient by)

    -- Where all attempts fail transiently, the last error is returned, wrapped in a text that names
    -- the number of attempts, and no sleep follows the last attempt.
    pub fetch_orders-exhausted :
        (r : ℕ)
        → retries_of c.attempts ≡ r
        → AllFail r 1
        → (f : Fails (suc r))
        → fetch_orders w c
          ≡ (err (wrapped (failed_after (suc r)) f.error), rounds r 1 ++ attempt_event w c)
    fetch_orders-exhausted r eq h f = rounds_then r 0 (omega arith) h ∙ rw (from_last (suc r) f)

  -- Whatever the world answers, there are at most as many requests as attempts are configured, and
  -- none where a file is read.
  pub count_attempts-fetch_orders :
      count_attempts (fetch_orders w c).1
      ≤ (if text_eq c.file [] then suc (retries_of c.attempts) else 0)
  unfolding fetch_orders count_attempts
  count_attempts-fetch_orders = ground (arith, count_attempts-fetch_from (retries_of c.attempts) 1)
