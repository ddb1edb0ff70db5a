-- ===== src/Ticketbutler/Client.antt =====
-- internal/ticketbutler/client.go: one fetch of the orders, with its retries. The world answers
-- each attempt; the trace is what the client did.
pub mod Retry
pub mod Backoff
pub mod Allowance
pub mod Clock
pub mod InTime
use ticketbutler_proxy.Common.{
  ℕ, zero, suc, ◌+◌, ◌-◌, ◌*◌, ◌^◌, Bool, true, false, not, ◌||◌, Option, none, some, List, [], ◌∷◌,
  ◌++◌, ltb, ◌==◌, String, if◌then◌else◌,
}
use ticketbutler_proxy.Int.{ℤ, pos, negsuc, ltb_ℤ, ◌-ℤ◌, to_int64, saturate}
use ticketbutler_proxy.Text.{Text, codes, text_eq}
use ticketbutler_proxy.Errors.{
  Bytes, limit_reader, Err, upstream, message, wrapped, joined, Result, ok, err, ◌>>=◌,
  with_context, as_upstream, decimal,
}
use ticketbutler_proxy.Ticketbutler.Types.{OrdersResponse}

pub record Client : Type 0 where
  pub url : Text
  pub token : Text
  pub file : Text
  pub timeout : ℤ
  pub attempts : ℤ

pub record Request : Type 0 where
  pub method : Text
  pub url : Text
  pub headers : List (Text × Text)
  pub timeout : ℤ

pub record Response : Type 0 where
  pub status : ℕ
  pub body : Bytes

-- A successful fetch, and how long it took in nanoseconds.
pub record Fetched (F : Type 0) : Type 0 where
  pub orders : OrdersResponse F
  pub duration : ℤ

pub data Event : Type 0 where
  attempted : Request → Event
  slept : ℤ → Event

-- What the client meets: net/http, os, encoding/json, the context and the clock. Attempts are
-- numbered from 1.
pub record World (F : Type 0) : Type 0 where
  -- an error of `http.NewRequestWithContext`
  pub request_error : Text → Option Err
  -- `http.Client.Do` at an attempt; the body is all that can be read of it
  pub exchange : ℕ → Request → Result Response
  -- `json.Decoder.Decode` into an `OrdersResponse`
  pub decode : Bytes → Result (OrdersResponse F)
  -- `os.Open` and what the file holds
  pub read : Text → Result Bytes
  -- `ctx.Err()` after an attempt, and the result of the sleep that follows it
  pub ctx_err : ℕ → Option Err
  pub sleep : ℕ → Option Err
  -- `time.Now()` at the start, and after an attempt or, as number 0, the reading of the file
  pub started : ℤ
  pub now : ℕ → ℤ

unfoldable pub origin_exhausted : ℕ → Bool
origin_exhausted status = status == 520 || status == 522 || status == 523 || status == 524

abbrev pub second : ℕ
second = 1000000000

-- `timeout <= 0` stands for ten minutes.
unfoldable pub effective_timeout : ℤ → ℤ
effective_timeout timeout = if ltb_ℤ (pos 0) timeout then timeout else pos (600 * second)

unfoldable pub request_of : Client → Request
unfolding effective_timeout
request_of c = record {
  method = codes "GET";
  url = c.url;
  headers =
      (codes "Authorization", codes "Token " ++ c.token)
      ∷ (codes "Accept", codes "application/json")
      ∷ [];
  timeout = effective_timeout c.timeout;
}

-- `attempts <= 0` stands for three; the number of attempts after the first.
unfoldable pub retries_of : ℤ → ℕ
retries_of (pos zero) = 2
retries_of (pos (suc n)) = n
retries_of (negsuc n) = 2

-- `30 * time.Second << (attempt - 1)`, in 64 bits.
unfoldable pub backoff : ℕ → ℤ
backoff attempt = to_int64 (30 * second * 2 ^ (attempt - 1))

-- The text of the error after the last attempt.
abbrev pub failed_after : ℕ → Text
failed_after attempts =
    codes "fetching orders failed after " ++ (decimal attempts ++ codes " attempts")

-- The status of the error ends the loop: below 500, or an origin that timed out.
unfoldable pub gives_up : Err → Bool
gives_up e = elim (as_upstream e) [
  | none ↦ false
  | some (status, body) ↦ ltb status 500 || origin_exhausted status
]

module _ {F : Type 0} (w : World F) (c : Client) where
  unfoldable pub read_response : Response → Result (OrdersResponse F)
  read_response resp =
      if resp.status == 200
      then with_context (codes "decoding orders response") (w.decode resp.body)
      else err (upstream resp.status (limit_reader 512 resp.body))

  unfoldable pub fetch_once : ℕ → Result (OrdersResponse F)
  unfolding request_of
  fetch_once attempt = elim (w.request_error c.url) [
    | some e ↦ err e
    | none ↦ w.exchange attempt (request_of c) >>= read_response
  ]

  unfoldable pub read_file : Result (OrdersResponse F)
  read_file = w.read c.file >>= λ body. with_context (codes "decoding " ++ c.file) (w.decode body)

  abbrev pub fetched : ℕ → OrdersResponse F → Result (Fetched F)
  fetched attempt orders =
      ok (record { orders = orders; duration = saturate (w.now attempt -ℤ w.started) })

  abbrev pub attempt_event : List Event
  attempt_event = elim (w.request_error c.url) [
    | some e ↦ []
    | none ↦ attempted (request_of c) ∷ []
  ]

  -- The loop from one attempt on, with the number of attempts that are left after it.
  unfoldable pub fetch_from : ℕ → ℕ → Result (Fetched F) × List Event
  fetch_from zero attempt = elim (fetch_once attempt) [
    | ok orders ↦ (fetched attempt orders, attempt_event)
    | err e ↦ if gives_up e then (err e, attempt_event) else elim (w.ctx_err attempt) [
      | some cancelled ↦ (err (joined e cancelled), attempt_event)
      | none ↦ (err (wrapped (failed_after attempt) e), attempt_event)
    ]
  ]
  fetch_from (suc left) attempt =
      let rest = fetch_from left (suc attempt) in
      elim (fetch_once attempt) [
        | ok orders ↦ (fetched attempt orders, attempt_event)
        | err e ↦ if gives_up e then (err e, attempt_event) else elim (w.ctx_err attempt) [
          | some cancelled ↦ (err (joined e cancelled), attempt_event)
          | none ↦ elim (w.sleep attempt) [
            | some cancelled ↦
                (err (joined e cancelled), attempt_event ++ slept (backoff attempt) ∷ [])
            | none ↦ (rest.0, attempt_event ++ (slept (backoff attempt) ∷ rest.1))
          ]
        ]
      ]

  unfoldable pub fetch_orders : Result (Fetched F) × List Event
  unfolding fetch_from read_file fetch_once gives_up
  fetch_orders =
      if text_eq c.file []
      then fetch_from (retries_of c.attempts) 1
      else (read_file >>= fetched 0, [])
