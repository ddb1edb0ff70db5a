-- ===== src/Snapshot/Tags/Stable.antt =====
-- The JSON of a snapshot, before and after it has been stored.
use ticketbutler_proxy.Common.{◌≡◌}
use ticketbutler_proxy.Int.{ℤ}
use ticketbutler_proxy.Float.{Float, IsFloat}
use ticketbutler_proxy.Text.{CaseTable}
use ticketbutler_proxy.Json.Struct.{put_fields, put_struct}
use ticketbutler_proxy.Ticketbutler.Client.{Fetched}
use ticketbutler_proxy.Ticketbutler.Tags.Stable.{put_orders}
use ticketbutler_proxy.Aggregate.Summary.{Options}
use ticketbutler_proxy.Aggregate.Tags.Stable.{HasKeys, summarise-HasKeys, put_summary}
use ticketbutler_proxy.Snapshot.Snapshot.{Snapshot, build}
use ticketbutler_proxy.Snapshot.Tags.{TimeFormat, snapshot_fields, snapshot_kind}
use ticketbutler_proxy.Snapshot.Tags.Restore.{restore_snapshot}

module _ {F : Type 0} ⦃float : Float F⦄ {cents : F → F} (laws : IsFloat float cents)
    (time : TimeFormat) where
  put_restored :
      (snap : Snapshot F)
      → HasKeys snap.summary
      → (snapshot_kind {F = F} time).put (restore_snapshot cents snap)
        ≡ (snapshot_kind {F = F} time).put snap
  unfolding snapshot_fields put_struct put_fields restore_snapshot
  put_restored snap h = rw (put_summary snap.summary h) (rw (put_orders laws snap.orders))

  -- What a snapshot is after it has been stored has the JSON that the snapshot had when it was built:
  -- storing it again changes nothing.
  pub put-restore_snapshot :
      ⦃case : CaseTable⦄ (result : Fetched F) (now : ℤ) (opts : Options)
      → (snapshot_kind {F = F} time).put (restore_snapshot cents (build result now opts))
        ≡ (snapshot_kind {F = F} time).put (build result now opts)
  unfolding build
  put-restore_snapshot result now opts =
      put_restored (build result now opts) (summarise-HasKeys opts result.orders)
