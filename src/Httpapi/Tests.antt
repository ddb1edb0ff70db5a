-- ===== src/Httpapi/Tests.antt =====
-- Runs of the service: requests with and without a token, over a store in memory.
use ticketbutler_proxy.Common.{
  ℕ, ◌≡◌, ◌↔◌, ◌⊎◌, refl, arith, sym, ◌∙◌, inr, true, false, none, some, List, [], ◌∷◌,
}
use ticketbutler_proxy.Int.{pos}
use ticketbutler_proxy.Text.{Text, codes, text_functions, cut, equal_fold, trim_space}
use ticketbutler_proxy.Text.Ascii.{ascii_case}
use ticketbutler_proxy.Float.Milli.{milli}
use ticketbutler_proxy.Errors.{Bytes, message, Result, ok, err, not_found, as_upstream}
use ticketbutler_proxy.Store.{Store}
use ticketbutler_proxy.Store.Memory.{Memory, save, memory_store}
use ticketbutler_proxy.Ticketbutler.Client.{Fetched, retries_of, fetch_orders}
use ticketbutler_proxy.Ticketbutler.Tests.{client as upstream_client, overloaded, overloaded_fails}
use ticketbutler_proxy.Snapshot.Snapshot.{build, encode}
use ticketbutler_proxy.Snapshot.Refresher.{State, current}
use ticketbutler_proxy.Snapshot.Tests.{options, empty_fetch, codec, cold}
use ticketbutler_proxy.Httpapi.Auth.{Request, presented_tokens, new_authenticator, allows}
use ticketbutler_proxy.Httpapi.Auth.Laws.{In, allows_iff}
use ticketbutler_proxy.Httpapi.Reply.{write_error}
use ticketbutler_proxy.Httpapi.Server.{Server, Moment, takes_get, handle_refresh, handle}
use ticketbutler_proxy.Httpapi.Server.Routes.{
  IsPublic, IsUncached, handle-IsPublic, handle-IsUncached, handle_never_fetches,
}
use ticketbutler_proxy.Snapshot.Snapshot.{build}
use ticketbutler_proxy.Httpapi.Log.{handler, handler_hides_tokens}
use ticketbutler_proxy.Httpapi.Server.Failures.{
  request_to, read_status, IsUnreadable, read_statuses, health_statuses, refresh_statuses,
}
use ticketbutler_proxy.Httpapi.Server.Upstream.{refresh_blames_token}

-- A digest that no two texts share.
abbrev digest : Text → Bytes
digest token = token

abbrev tokens : List Text
tokens = codes "0123456789abcdef" ∷ []

abbrev server : {S : Type 0} → Store S → Server ℕ S
server store = record {
  codec = codec;
  store = store;
  options = options;
  sha256 = digest;
  digests = new_authenticator digest tokens;
  stale_after = pos 10;
}

abbrev moment : Result (Fetched ℕ) → Moment ℕ
moment fetch = record { fetch = fetch; refreshed_at = pos 5; now = pos 20 }

-- A store that nothing can be written to.
abbrev full_store : Store Memory
full_store = record {
  load = λ m. err not_found;
  save = λ bytes m. (err (message (codes "quota")), m);
  describe = codes "full";
}

abbrev stranger : Request
stranger = request_to (codes "/v1/orders") (codes "GET") (codes "Bearer guess") []

abbrev client : Request
client = request_to (codes "/v1/orders") (codes "GET") (codes "bearer  0123456789abcdef ") []

running : Unit {0}
unfolding text_functions cut equal_fold trim_space presented_tokens new_authenticator allows
    takes_get build encode as_upstream save
running = tt

stranger_refused : allows digest (new_authenticator digest tokens) stranger ≡ false
unfolding running
stranger_refused = refl

client_allowed : allows digest (new_authenticator digest tokens) client ≡ true
unfolding running
client_allowed = refl

allows_iff_example :
    (allows digest (new_authenticator digest tokens) client ≡ true)
    ↔ ((p : Text) × In p (presented_tokens client) × In p tokens)
allows_iff_example = allows_iff digest tokens client (λ p t given listed e. e)

handle-IsPublic_example :
    IsPublic (handle (server memory_store) (moment (ok empty_fetch)) stranger cold).0.body
    × ((handle (server memory_store) (moment (ok empty_fetch)) stranger cold).1.stored
        ≡ some (1 ∷ []))
handle-IsPublic_example =
    handle-IsPublic (server memory_store) (moment (ok empty_fetch)) stranger cold stranger_refused

handle-IsUncached_example :
    IsUncached (handle (server memory_store) (moment (ok empty_fetch)) client cold).0
handle-IsUncached_example =
    handle-IsUncached (server memory_store) (moment (ok empty_fetch)) client cold

handle_never_fetches_example :
    handle (server memory_store) (moment (ok empty_fetch)) client cold
    ≡ handle
        (server memory_store)
        (record { fetch = err not_found; refreshed_at = pos 9; now = pos 20 })
        client
        cold
handle_never_fetches_example =
    handle_never_fetches (server memory_store) (moment (ok empty_fetch)) (err not_found) (pos 9)
      client cold (λ e. cc)

read_statuses_example :
    (handle (server memory_store) (moment (ok empty_fetch)) client cold).0.status
    ≡ read_status (current codec memory_store options cold).0
unfolding running
read_statuses_example =
    read_statuses (server memory_store) (moment (ok empty_fetch)) cold (codes "/v1/orders")
      (codes "GET") (codes "bearer  0123456789abcdef ") [] (inr (inr refl)) refl client_allowed

-- Nothing is cached, and the stored bytes are no snapshot.
abbrev unreadable : State ℕ Memory
unreadable = record { cached = none; stored = some (1 ∷ []) }

health_statuses_example :
    (((handle
          (server memory_store)
          (moment (ok empty_fetch))
          (request_to (codes "/healthz") (codes "HEAD") [] [])
          unreadable).0.status
        ≡ 503)
      × IsUnreadable (server memory_store) (moment (ok empty_fetch)) unreadable)
    ⊎ (((handle
            (server memory_store)
            (moment (ok empty_fetch))
            (request_to (codes "/healthz") (codes "HEAD") [] [])
            unreadable).0.status
          ≡ 200)
        × ¬ IsUnreadable (server memory_store) (moment (ok empty_fetch)) unreadable)
unfolding running
health_statuses_example =
    health_statuses (server memory_store) (moment (ok empty_fetch)) unreadable (codes "HEAD") [] []
      refl

-- The origin answers 503 first, and at the second attempt it has timed out.
abbrev failing : Moment ℕ
failing = moment (fetch_orders overloaded upstream_client).0

refresh_blames_token_example :
    handle
      (server memory_store)
      failing
      (request_to (codes "/v1/refresh") (codes "POST") [] (codes "0123456789abcdef"))
      cold
    ≡ (
      write_error [] 502 (codes "ticketbutler rejected the request; check TICKETBUTLER_TOKEN"),
      cold,
    )
unfolding running retries_of
refresh_blames_token_example =
    refresh_blames_token (server memory_store) failing cold overloaded upstream_client 1 0
      (record { status = 524; body = [] }) [] (codes "0123456789abcdef") refl refl refl
      ((overloaded_fails, refl), tt) (refl, refl, (λ e. omega arith)) (inr refl) refl

refresh_statuses_example :
    (handle_refresh (server full_store) (moment (ok empty_fetch)) cold).0.status ≡ 207
unfolding running
refresh_statuses_example = refresh_statuses (server full_store) (moment (ok empty_fetch)) cold

abbrev client_by_key : Request
client_by_key = request_to (codes "/v1/orders") (codes "GET") [] (codes "0123456789abcdef")

client_by_key_allowed : allows digest (new_authenticator digest tokens) client_by_key ≡ true
unfolding running presented_tokens text_functions
client_by_key_allowed = refl

handler_hides_tokens_example :
    handler
      (server memory_store)
      (moment (ok empty_fetch))
      (record { started = pos 1; ended = pos 2 })
      client
      cold
    ≡ handler
        (server memory_store)
        (moment (ok empty_fetch))
        (record { started = pos 1; ended = pos 2 })
        client_by_key
        cold
handler_hides_tokens_example =
    handler_hides_tokens (server memory_store) (moment (ok empty_fetch))
      (record { started = pos 1; ended = pos 2 }) client client_by_key cold refl refl
      (client_allowed ∙ sym client_by_key_allowed)
