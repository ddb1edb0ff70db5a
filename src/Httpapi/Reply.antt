-- ===== src/Httpapi/Reply.antt =====
-- internal/httpapi/server.go, handlers.go: what the handlers write. A reply holds the value that is
-- encoded; Httpapi/Tags has its JSON.
use ticketbutler_proxy.Common.{ℕ, Bool, Option, List, [], ◌∷◌, ◌++◌}
use ticketbutler_proxy.Int.{ℤ, pos, quot, rem}
use ticketbutler_proxy.Float.{Float}
use ticketbutler_proxy.Text.{Text, codes}
use ticketbutler_proxy.Dict.{Dict}
use ticketbutler_proxy.Ticketbutler.Types.{OrdersResponse}
use ticketbutler_proxy.Aggregate.Summary.{Summary, Counts}
use ticketbutler_proxy.Aggregate.Sponsors.{Sponsor}
use ticketbutler_proxy.Snapshot.Snapshot.{Snapshot, age, stale}

pub record Meta : Type 0 where
  pub fetched_at : ℤ
  pub age_seconds : ℤ
  pub stale : Bool
  pub source_duration_ms : ℤ

pub data Body (F : Type 0) : Type 0 where
  -- {"error": …}
  error_body : Text → Body F
  -- {"status": …, "snapshot": …}, with the freshness of a snapshot
  health_body : Text → Text → Option Meta → Body F
  summary_body : Meta → Summary F → Body F
  sponsors_body : Meta → List Sponsor → Body F
  orders_body : Meta → OrdersResponse F → Body F
  -- fetched_at, source_duration_ms, counts, orders_by_state
  refreshed_body : ℤ → ℤ → Counts → Dict ℕ → Body F
  -- warning, error, counts
  not_stored_body : Text → Text → Counts → Body F
  -- a text of net/http's own
  plain_body : Text → Body F

pub record Reply (F : Type 0) : Type 0 where
  pub status : ℕ
  pub headers : List (Text × Text)
  pub body : Body F

abbrev pub content_type : Text × Text
content_type = (codes "Content-Type", codes "application/json; charset=utf-8")

abbrev pub no_store : Text × Text
no_store = (codes "Cache-Control", codes "no-store")

abbrev pub retry_after : Text × Text
retry_after = (codes "Retry-After", codes "60")

abbrev pub www_authenticate : Text × Text
www_authenticate = (codes "WWW-Authenticate", codes "Bearer realm=\"ticketbutler-proxy\"")

-- `writeJSON` after the headers that the handler has set.
unfoldable pub write_json : {F : Type 0} → List (Text × Text) → ℕ → Body F → Reply F
write_json headers status body = record {
  status = status;
  headers = headers ++ content_type ∷ [];
  body = body;
}

unfoldable pub write_error : {F : Type 0} → List (Text × Text) → ℕ → Text → Reply F
unfolding write_json
write_error headers status text = write_json headers status (error_body text)

-- `Duration.Seconds`.
unfoldable pub seconds : {F : Type 0} ⦃float : Float F⦄ → ℤ → F
seconds ⦃float⦄ d =
    float.add (float.of_int (quot d 1000000000))
      (float.div (float.of_int (rem d 1000000000)) (float.of_int (pos 1000000000)))

unfoldable pub meta_for : {F : Type 0} ⦃float : Float F⦄ → Snapshot F → ℤ → ℤ → Meta
unfolding seconds
meta_for ⦃float⦄ snap now stale_after = record {
  fetched_at = snap.fetched_at;
  age_seconds = float.truncate (seconds (age snap now));
  stale = stale snap now stale_after;
  source_duration_ms = snap.source_duration_ms;
}
