-- ===== src/Httpapi/Tags.antt =====
-- internal/httpapi/server.go, handlers.go: the JSON of the bodies of the replies.
use ticketbutler_proxy.Common.{ℕ, Option, none, some, List, [], ◌∷◌}
use ticketbutler_proxy.Int.{ℤ}
use ticketbutler_proxy.Float.{Float}
use ticketbutler_proxy.Text.{Text, codes}
use ticketbutler_proxy.Dict.{Dict}
use ticketbutler_proxy.Errors.{Result, ok, ◌>>=◌}
use ticketbutler_proxy.Json.Value.{Json, null, object, Fields, end, entry}
use ticketbutler_proxy.Json.Kind.{Kind, text_kind, bool_kind, int_kind, count_kind, slice_kind}
use ticketbutler_proxy.Json.Struct.{Field, field, put_fields}
use ticketbutler_proxy.Json.Map.{put_map, map_kind}
use ticketbutler_proxy.Ticketbutler.Tags.{orders_response_kind}
use ticketbutler_proxy.Aggregate.Summary.{Summary, Counts}
use ticketbutler_proxy.Aggregate.Sponsors.{Sponsor}
use ticketbutler_proxy.Ticketbutler.Types.{OrdersResponse}
use ticketbutler_proxy.Aggregate.Tags.{summary_fields, counts_kind, sponsor_kind}
use ticketbutler_proxy.Snapshot.Tags.{TimeFormat, time_kind}
use ticketbutler_proxy.Httpapi.Reply.{
  Body, Reply, Meta, error_body, health_body, summary_body, sponsors_body, orders_body,
  refreshed_body, not_stored_body, plain_body,
}

-- The bytes of a body: a JSON value, or a text of net/http's own.
pub data Content : Type 0 where
  json : Result Json → Content
  plain : Text → Content

-- The fields of an embedded struct stand before those of the struct.
unfoldable pub join : Fields → Fields → Fields
join end fields = fields
join (entry k j rest) fields = entry k j (join rest fields)

unfoldable pub put_joined : Result Fields → Result Fields → Result Json
unfolding join
put_joined first second = first >>= λ a. second >>= λ b. ok (object (join a b))

-- A `map[string]any`, of what its values are encoded to.
abbrev pub any_kind : Kind (Result Json)
any_kind = record { zero_value = ok null; put = λ r. r; get = λ j. ok (ok j) }

module _ (time : TimeFormat) where
  unfoldable pub meta_fields : List (Field Meta)
  meta_fields =
      field (codes "fetched_at") (time_kind time) (λ (x : Meta). x.fetched_at)
        (λ a x. record x { fetched_at = a })
      ∷ field (codes "age_seconds") int_kind (λ (x : Meta). x.age_seconds)
          (λ a x. record x { age_seconds = a })
      ∷ field (codes "stale") bool_kind (λ (x : Meta). x.stale) (λ a x. record x { stale = a })
      ∷ field (codes "source_duration_ms") int_kind (λ (x : Meta). x.source_duration_ms)
          (λ a x. record x { source_duration_ms = a })
      ∷ []

  -- The freshness of a snapshot in the body of the health page.
  abbrev pub health_entries : Option Meta → Dict (Result Json)
  health_entries none = []
  health_entries (some m) =
      (codes "fetched_at", (time_kind time).put m.fetched_at)
      ∷ (codes "age_seconds", int_kind.put m.age_seconds)
      ∷ (codes "stale", bool_kind.put m.stale)
      ∷ []

  unfoldable pub put_health : Text → Text → Option Meta → Result Json
  put_health status snapshot meta = put_map any_kind (
      (codes "status", text_kind.put status)
      ∷ (codes "snapshot", text_kind.put snapshot)
      ∷ health_entries meta)

  unfoldable pub put_refreshed : ℤ → ℤ → Counts → Dict ℕ → Result Json
  put_refreshed fetched_at source_duration_ms counts orders_by_state = put_map any_kind (
      (codes "fetched_at", (time_kind time).put fetched_at)
      ∷ (codes "source_duration_ms", int_kind.put source_duration_ms)
      ∷ (codes "counts", counts_kind.put counts)
      ∷ (codes "orders_by_state", (map_kind count_kind).put orders_by_state)
      ∷ [])

  unfoldable pub put_not_stored : Text → Text → Counts → Result Json
  put_not_stored warning error counts = put_map any_kind (
      (codes "warning", text_kind.put warning)
      ∷ (codes "error", text_kind.put error)
      ∷ (codes "counts", counts_kind.put counts)
      ∷ [])

  unfoldable pub put_sponsors_response : Meta → List Sponsor → Result Json
  unfolding put_joined meta_fields
  put_sponsors_response meta sponsors =
      put_joined (put_fields meta_fields meta)
        ((slice_kind sponsor_kind).put sponsors >>= λ j. ok (entry (codes "sponsors") j end))

  module _ {F : Type 0} ⦃float : Float F⦄ where
    unfoldable pub put_summary_response : Meta → Summary F → Result Json
    unfolding put_joined meta_fields
    put_summary_response meta summary =
        put_joined (put_fields meta_fields meta) (put_fields summary_fields summary)

    unfoldable pub put_orders_response : Meta → OrdersResponse F → Result Json
    unfolding put_joined meta_fields
    put_orders_response meta orders =
        put_joined (put_fields meta_fields meta)
          (orders_response_kind.put orders >>= λ j. ok (entry (codes "orders") j end))

    unfoldable pub content : Body F → Content
    unfolding put_health put_refreshed put_not_stored put_summary_response put_sponsors_response
        put_orders_response
    content (error_body message) =
        json (put_map any_kind ((codes "error", text_kind.put message) ∷ []))
    content (health_body status snapshot meta) = json (put_health status snapshot meta)
    content (summary_body meta summary) = json (put_summary_response meta summary)
    content (sponsors_body meta sponsors) = json (put_sponsors_response meta sponsors)
    content (orders_body meta orders) = json (put_orders_response meta orders)
    content (refreshed_body fetched_at source_duration_ms counts orders_by_state) =
        json (put_refreshed fetched_at source_duration_ms counts orders_by_state)
    content (not_stored_body warning error counts) = json (put_not_stored warning error counts)
    content (plain_body text) = plain text

-- What a client receives.
pub record Page : Type 0 where
  pub status : ℕ
  pub headers : List (Text × Text)
  pub content : Content

unfoldable pub page : {F : Type 0} ⦃float : Float F⦄ → TimeFormat → Reply F → Page
unfolding content
page time r = record { status = r.status; headers = r.headers; content = content time r.body }
