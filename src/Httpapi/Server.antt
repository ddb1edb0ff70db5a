-- ===== src/Httpapi/Server.antt =====
-- internal/httpapi/server.go, handlers.go: the handlers, the check of tokens before them, and the
-- routes. Httpapi/Log puts `logRequests` around them.
pub mod Routes
pub mod Failures
pub mod Upstream
pub mod Restarted
use ticketbutler_proxy.Common.{
  ℕ, Bool, true, false, ◌||◌, Option, none, some, List, [], ◌∷◌, ◌++◌, if◌then◌else◌,
}
use ticketbutler_proxy.Int.{ℤ}
use ticketbutler_proxy.Float.{Float}
use ticketbutler_proxy.Text.{Text, codes, text_eq, CaseTable}
use ticketbutler_proxy.Errors.{Bytes, Err, Result, ok, err, as_upstream, is_not_found, error_text}
use ticketbutler_proxy.Store.{Store}
use ticketbutler_proxy.Ticketbutler.Client.{Fetched}
use ticketbutler_proxy.Aggregate.Summary.{Options}
use ticketbutler_proxy.Snapshot.Snapshot.{Snapshot, Codec}
use ticketbutler_proxy.Snapshot.Refresher.{State, Refreshed, refresh, current}
use ticketbutler_proxy.Httpapi.Auth.{Request, allows}
use ticketbutler_proxy.Httpapi.Reply.{
  Body, Reply, health_body, summary_body, sponsors_body, orders_body, refreshed_body,
  not_stored_body, plain_body, Meta, meta_for, no_store, retry_after, www_authenticate, write_json,
  write_error,
}

pub record Server (F S : Type 0) : Type 0 where
  pub codec : Codec F
  pub store : Store S
  pub options : Options
  pub sha256 : Text → Bytes
  pub digests : List Bytes
  pub stale_after : ℤ

-- What one request meets: the fetch, were it made, the refresher's clock after it, and the server's.
pub record Moment (F : Type 0) : Type 0 where
  pub fetch : Result (Fetched F)
  pub refreshed_at : ℤ
  pub now : ℤ

-- A pattern with the method GET takes HEAD too.
unfoldable pub takes_get : Text → Bool
takes_get method = text_eq method (codes "GET") || text_eq method (codes "HEAD")

-- `http.ServeMux` on a path that has the pattern, and another method.
abbrev pub method_not_allowed : {F : Type 0} → Text → Reply F
method_not_allowed allow = record {
  status = 405;
  headers = (codes "Allow", allow) ∷ [];
  body = plain_body (codes "Method Not Allowed");
}

abbrev pub not_found_page : {F : Type 0} → Reply F
not_found_page = record {
  status = 404;
  headers = [];
  body = plain_body (codes "404 page not found");
}

module _ {F S : Type 0} ⦃float : Float F⦄ ⦃case : CaseTable⦄ (srv : Server F S)
    (at : Moment F) where
  abbrev pub meta_of : Snapshot F → Meta
  meta_of snap = meta_for snap at.now srv.stale_after

  unfoldable pub health_reply : Result (Snapshot F) → Reply F
  health_reply (err e) =
      if is_not_found e
      then write_json [] 200 (health_body (codes "ok") (codes "missing") none)
      else write_json [] 503 (health_body (codes "error") (codes "unavailable") none)
  health_reply (ok snap) =
      write_json [] 200 (health_body (codes "ok") (codes "present") (some (meta_of snap)))

  unfoldable pub handle_health : State F S → Reply F × State F S
  handle_health st =
      let (read, st') = current srv.codec srv.store srv.options st in (health_reply read, st')

  -- `snapshotOr503`: its own reply where there is no snapshot, and else that of the handler.
  unfoldable pub snapshot_or_503 : (Snapshot F → Reply F) → Result (Snapshot F) → Reply F
  snapshot_or_503 serve (ok snap) = serve snap
  snapshot_or_503 serve (err e) =
      if is_not_found e
      then write_error (retry_after ∷ []) 503
          (codes "no snapshot yet; wait for the scheduled refresh or POST /v1/refresh")
      else write_error [] 500 (codes "reading the stored snapshot failed")

  unfoldable pub serve_current : (Snapshot F → Reply F) → State F S → Reply F × State F S
  serve_current serve st =
      let (read, st') = current srv.codec srv.store srv.options st in
      (snapshot_or_503 serve read, st')

  unfoldable pub handle_summary : State F S → Reply F × State F S
  handle_summary =
      serve_current (λ snap. write_json [] 200 (summary_body (meta_of snap) snap.summary))

  unfoldable pub handle_sponsors : State F S → Reply F × State F S
  handle_sponsors =
      serve_current
        (λ snap. write_json (no_store ∷ []) 200 (sponsors_body (meta_of snap) snap.sponsors))

  unfoldable pub handle_orders : State F S → Reply F × State F S
  handle_orders =
      serve_current
        (λ snap. write_json (no_store ∷ []) 200 (orders_body (meta_of snap) snap.orders))

  -- The reply to a failed refresh: by the upstream's answer in its error, and the snapshot that it
  -- still returns where only storing failed.
  unfoldable pub failed_reply : Err → Option (ℕ × Bytes) → Option (Snapshot F) → Reply F
  failed_reply e (some answer) snapshot =
      write_error [] 502 (codes "ticketbutler rejected the request; check TICKETBUTLER_TOKEN")
  failed_reply e none (some snap) = write_json [] 207 (
      not_stored_body
        (codes "refreshed but not stored; the snapshot will be lost when this instance stops")
        (error_text e) snap.summary.counts)
  failed_reply e none none =
      write_error [] 502 (codes "refreshing from ticketbutler failed: " ++ error_text e)

  -- The last case does not occur: a refresh returns a snapshot or an error.
  unfoldable pub refresh_reply : Option Err → Option (Snapshot F) → Reply F
  refresh_reply (some e) snapshot = failed_reply e (as_upstream e) snapshot
  refresh_reply none (some snap) = write_json [] 200 (
      refreshed_body snap.fetched_at snap.source_duration_ms snap.summary.counts
        snap.summary.orders_by_state)
  refresh_reply none none = write_error [] 500 []

  unfoldable pub handle_refresh : State F S → Reply F × State F S
  handle_refresh st =
      let (r, st') = refresh srv.codec srv.store srv.options at.fetch at.refreshed_at st in
      (refresh_reply r.error r.snapshot, st')

  unfoldable pub require_token :
      (State F S → Reply F × State F S) → Request → State F S → Reply F × State F S
  require_token next r st =
      if allows srv.sha256 srv.digests r
      then next st
      else (write_error (www_authenticate ∷ []) 401 (codes "a valid bearer token is required"), st)

  unfoldable pub get_route :
      (State F S → Reply F × State F S) → Request → State F S → Reply F × State F S
  get_route next r st =
      if takes_get r.method then next st else (method_not_allowed (codes "GET, HEAD"), st)

  unfoldable pub post_route :
      (State F S → Reply F × State F S) → Request → State F S → Reply F × State F S
  post_route next r st =
      if text_eq r.method (codes "POST") then next st else (method_not_allowed (codes "POST"), st)

  unfoldable pub handle : Request → State F S → Reply F × State F S
  handle r st =
      if text_eq r.path (codes "/healthz")
      then get_route handle_health r st
      else if text_eq r.path (codes "/v1/summary")
      then get_route (require_token handle_summary r) r st
      else if text_eq r.path (codes "/v1/sponsors")
      then get_route (require_token handle_sponsors r) r st
      else if text_eq r.path (codes "/v1/orders")
      then get_route (require_token handle_orders r) r st
      else if text_eq r.path (codes "/v1/refresh")
      then post_route (require_token handle_refresh r) r st
      else (not_found_page, st)
