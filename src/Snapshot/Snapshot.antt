-- ===== src/Snapshot/Snapshot.antt =====
-- internal/snapshot/snapshot.go: the result of one refresh, its age, and its stored form. An
-- instant is the number of nanoseconds from a fixed one.
pub mod Age
use ticketbutler_proxy.Common.{ℕ, ◌*◌, ◌^◌, ◌≡◌, ◌↔◌, Bool, true, List, arith, ltb}
use ticketbutler_proxy.Int.{ℤ, pos_part, neg_part, ◌-ℤ◌, ◌<ℤ◌, ltb_ℤ, quot, saturate}
use ticketbutler_proxy.Text.{codes, CaseTable}
use ticketbutler_proxy.Float.{Float}
use ticketbutler_proxy.Errors.{Bytes, limit_reader, Result, ◌>>=◌, with_context}
use ticketbutler_proxy.Ticketbutler.Types.{OrdersResponse}
use ticketbutler_proxy.Ticketbutler.Client.{Fetched}
use ticketbutler_proxy.Aggregate.Summary.{Summary, Options, summarise}
use ticketbutler_proxy.Aggregate.Sponsors.{Sponsor, sponsors}

pub record Snapshot (F : Type 0) : Type 0 where
  pub fetched_at : ℤ
  pub source_duration_ms : ℤ
  pub summary : Summary F
  pub sponsors : List Sponsor
  pub orders : OrdersResponse F

unfoldable pub build :
    {F : Type 0} ⦃float : Float F⦄ ⦃case : CaseTable⦄ → Fetched F → ℤ → Options → Snapshot F
build result at opts = record {
  fetched_at = at;
  source_duration_ms = quot result.duration 1000000;
  summary = summarise result.orders opts;
  sponsors = sponsors result.orders opts;
  orders = result.orders;
}

-- `Time.Sub` stops at the ends of a 64-bit duration.
unfoldable pub age : {F : Type 0} → Snapshot F → ℤ → ℤ
age s now = saturate (now -ℤ s.fetched_at)

unfoldable pub stale : {F : Type 0} → Snapshot F → ℤ → ℤ → Bool
unfolding age
stale s now stale_after = ltb_ℤ stale_after (age s now)

-- encoding/json and compress/gzip, as the package uses them.
pub record Codec (F : Type 0) : Type 0 where
  pub marshal : Snapshot F → Result Bytes
  pub compress : Bytes → Result Bytes
  pub new_reader : Bytes → Result Bytes
  pub unmarshal : Bytes → Result (Snapshot F)

abbrev pub max_decompressed : ℕ
max_decompressed = 256 * 2 ^ 20

module _ {F : Type 0} (codec : Codec F) where
  unfoldable pub encode : Snapshot F → Result Bytes
  encode s = with_context (codes "encoding snapshot") (codec.marshal s) >>= λ body.
      with_context (codes "compressing snapshot") (codec.compress body)

  unfoldable pub decode : Bytes → Result (Snapshot F)
  decode bytes = with_context (codes "reading snapshot") (codec.new_reader bytes) >>= λ body.
      with_context (codes "decoding snapshot")
        (codec.unmarshal (limit_reader max_decompressed body))
