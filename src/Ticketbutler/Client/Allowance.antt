-- ===== src/Ticketbutler/Client/Allowance.antt =====
-- internal/ticketbutler/client.go: how long a fetch may take, where every attempt uses up its timeout.
use ticketbutler_proxy.Common.{
  ℕ, zero, suc, ◌+◌, ◌-◌, ◌*◌, ◌^◌, ◌≤◌, ◌≡◌, List, [], ◌∷◌, ◌++◌, arith,
}
use mathlib.Core.Path.{subst}
use ticketbutler_proxy.Int.{pos_part, to_int64}
use ticketbutler_proxy.Ticketbutler.Client.{
  Client, World, Event, attempted, slept, second, effective_timeout, request_of, retries_of,
  backoff, attempt_event, fetch_from, fetch_orders,
}

-- A sleep for a time below 0 is none.
unfoldable pub allowance : List Event → ℕ
allowance [] = 0
allowance (attempted r ∷ trace) = pos_part r.timeout + allowance trace
allowance (slept d ∷ trace) = pos_part d + allowance trace

pub allowance-append : (xs ys : List Event) → allowance (xs ++ ys) ≡ allowance xs + allowance ys
unfolding allowance
allowance-append [] ys = omega arith
allowance-append (attempted r ∷ xs) ys = omega (arith, allowance-append xs ys)
allowance-append (slept d ∷ xs) ys = omega (arith, allowance-append xs ys)

pos_part-to_int64 : (n : ℕ) → pos_part (to_int64 n) ≤ n
unfolding to_int64
pos_part-to_int64 n = ground arith

backoff_le : (attempt : ℕ) → pos_part (backoff attempt) ≤ 30 * second * 2 ^ (attempt - 1)
unfolding backoff
backoff_le attempt = pos_part-to_int64 (30 * second * 2 ^ (attempt - 1))

-- The sleeps after so many attempts from one on, without the wrap-around.
sleeps : ℕ → ℕ → ℕ
sleeps zero attempt = 0
sleeps (suc left) attempt = 30 * second * 2 ^ (attempt - 1) + sleeps left (suc attempt)

sleeps_lem : (left k : ℕ) → sleeps left (suc k) + 30 * second * 2 ^ k ≡ 30 * second * 2 ^ (k + left)
unfolding sleeps
sleeps_lem zero k = let e : k + 0 ≡ k = omega arith in rw e (omega arith)
sleeps_lem (suc left) k =
    let last : suc k - 1 ≡ k = omega arith in
    let shifted : k + suc left ≡ suc k + left = omega arith in
    rw (last, shifted) (omega (arith, sleeps_lem left (suc k)))

-- The timeout of an attempt.
abbrev pub timeout_of : Client → ℕ
timeout_of c = pos_part (effective_timeout c.timeout)

-- The time that a fetch with so many retries is allowed.
abbrev pub allowed : Client → ℕ → ℕ
allowed c r = suc r * timeout_of c + 30 * second * (2 ^ r - 1)

module _ {F : Type 0} (w : World F) (c : Client) where
  allowance-event : allowance (attempt_event w c) ≤ timeout_of c
  unfolding allowance request_of
  allowance-event = ground arith

  allowance-fetch_from :
      (left attempt : ℕ)
      → allowance (fetch_from w c left attempt).1 ≤ suc left * timeout_of c + sleeps left attempt
  unfolding fetch_from allowance sleeps
  allowance-fetch_from zero attempt = ground (arith, allowance-event)
  allowance-fetch_from (suc left) attempt = ground (
    arith,
    allowance-event,
    backoff_le attempt,
    allowance-append (attempt_event w c) (slept (backoff attempt) ∷ []),
    allowance-append (attempt_event w c)
        (slept (backoff attempt) ∷ (fetch_from w c left (suc attempt)).1),
    allowance-fetch_from left (suc attempt),
  )

  -- Whatever the world answers, a fetch with `r` retries is allowed `r + 1` timeouts, and the sleeps of
  -- thirty seconds doubled between them; a file is read at once.
  pub allowance-fetch_orders :
      (r : ℕ) → retries_of c.attempts ≡ r → allowance (fetch_orders w c).1 ≤ allowed c r
  unfolding fetch_orders allowance
  allowance-fetch_orders r h =
      let none_before : 0 + r ≡ r = omega arith in
      let slept_for : sleeps r 1 + 30 * second ≡ 30 * second * 2 ^ r =
        subst (λ m. sleeps r 1 + 30 * second ≡ 30 * second * 2 ^ m) none_before
          (omega (arith, sleeps_lem r 0)) in
      ground (arith, h, allowance-fetch_from r 1)
