-- ===== src/Snapshot/Tags.antt =====
-- internal/snapshot/snapshot.go: the tags of a snapshot, and the codec that they make with the text form
-- of JSON, the text form of instants and gzip, which are parameters.
pub mod Restore
pub mod Stable
pub mod Tests
use ticketbutler_proxy.Common.{ℕ, ◌≡◌, Option, none, some, List, [], ◌∷◌}
use ticketbutler_proxy.Int.{ℤ, pos}
use ticketbutler_proxy.Float.{Float}
use ticketbutler_proxy.Text.{Text, codes}
use ticketbutler_proxy.Errors.{Bytes, Err, message, Result, ok, err, ◌>>=◌}
use ticketbutler_proxy.Json.Value.{Json, null, bool, number, text, array, object}
use ticketbutler_proxy.Json.Kind.{Kind, wrong_type, parsed, int_kind, nil_slice_kind}
use ticketbutler_proxy.Json.Struct.{Field, field, struct_kind}
use ticketbutler_proxy.Ticketbutler.Tags.{no_orders_response, orders_response_kind}
use ticketbutler_proxy.Aggregate.Tags.{no_summary, summary_kind, sponsor_kind}
use ticketbutler_proxy.Snapshot.Snapshot.{Snapshot, Codec}

-- `time.Time` in JSON: RFC 3339, with an error for a year that has no four digits.
pub record TimeFormat : Type 0 where
  pub zero_time : ℤ
  pub print_time : ℤ → Option Text
  pub parse_time : Text → Option ℤ

pub record IsTimeFormat (time : TimeFormat) : Type 0 where
  pub parse-print_time :
      (t : ℤ) (s : Text) → time.print_time t ≡ some s → time.parse_time s ≡ some t

-- The bytes of a JSON value, and gzip. encoding/json refuses some values, such as a number whose literal is
-- none.
pub record Wire : Type 0 where
  pub refuses : Json → Option Err
  pub print : Json → Bytes
  pub parse : Bytes → Result Json
  pub compress : Bytes → Result Bytes
  pub new_reader : Bytes → Result Bytes

-- `json.Marshal` of a value.
unfoldable pub printed : Wire → Json → Result Bytes
printed wire j = elim (wire.refuses j) [ some e ↦ err e | none ↦ ok (wire.print j) ]

pub record IsWire (wire : Wire) : Type 0 where
  pub parse-print : (j : Json) → wire.refuses j ≡ none → wire.parse (wire.print j) ≡ ok j
  pub new_reader-compress :
      (body bytes : Bytes) → wire.compress body ≡ ok bytes → wire.new_reader bytes ≡ ok body

module _ (time : TimeFormat) where
  abbrev pub time_text : Option Text → Result Json
  time_text none = err (message (codes "Time.MarshalJSON: year outside of range [0,9999]"))
  time_text (some s) = ok (text s)

  unfoldable pub put_time : ℤ → Result Json
  put_time t = time_text (time.print_time t)

  unfoldable pub get_time : Json → Result ℤ
  get_time null = ok time.zero_time
  get_time (text s) = parsed (time.parse_time s)
  get_time (bool b) = wrong_type
  get_time (number s) = wrong_type
  get_time (array items) = wrong_type
  get_time (object fields) = wrong_type

  abbrev pub time_kind : Kind ℤ
  time_kind = record { zero_value = time.zero_time; put = put_time; get = get_time }

module _ {F : Type 0} ⦃float : Float F⦄ (time : TimeFormat) where
  unfoldable pub snapshot_fields : List (Field (Snapshot F))
  snapshot_fields =
      field (codes "fetched_at") (time_kind time) (λ (x : Snapshot F). x.fetched_at)
        (λ a x. record x { fetched_at = a })
      ∷ field (codes "source_duration_ms") int_kind (λ (x : Snapshot F). x.source_duration_ms)
          (λ a x. record x { source_duration_ms = a })
      ∷ field (codes "summary") summary_kind (λ (x : Snapshot F). x.summary)
          (λ a x. record x { summary = a })
      ∷ field (codes "sponsors") (nil_slice_kind sponsor_kind) (λ (x : Snapshot F). x.sponsors)
          (λ a x. record x { sponsors = a })
      ∷ field (codes "orders") orders_response_kind (λ (x : Snapshot F). x.orders)
          (λ a x. record x { orders = a })
      ∷ []

  abbrev pub no_snapshot : Snapshot F
  no_snapshot = record {
    fetched_at = time.zero_time;
    source_duration_ms = pos 0;
    summary = no_summary;
    sponsors = [];
    orders = no_orders_response;
  }

  abbrev pub snapshot_kind : Kind (Snapshot F)
  snapshot_kind = struct_kind snapshot_fields no_snapshot

  abbrev pub json_codec : Wire → Codec F
  json_codec wire = record {
    marshal = λ snap. snapshot_kind.put snap >>= printed wire;
    compress = wire.compress;
    new_reader = wire.new_reader;
    unmarshal = λ body. wire.parse body >>= snapshot_kind.get;
  }
