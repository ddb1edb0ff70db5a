-- ===== src/Main/Stored.antt =====
-- What a restarted process reads, with the JSON of the source's tags.
use ticketbutler_proxy.Common.{◌≤◌, ◌≡◌, none, length}
use ticketbutler_proxy.Int.{ℤ}
use ticketbutler_proxy.Float.{Float, IsFloat}
use ticketbutler_proxy.Text.{CaseTable}
use ticketbutler_proxy.Errors.{ok}
use ticketbutler_proxy.Json.Value.{Json}
use ticketbutler_proxy.Json.Kind.Laws.{>>=-ok_inv}
use ticketbutler_proxy.Store.Gcs.{Cloud, IsCloud, Gcs}
use ticketbutler_proxy.Ticketbutler.Client.{World, Fetched, fetch_orders}
use ticketbutler_proxy.Snapshot.Snapshot.{max_decompressed, build}
use ticketbutler_proxy.Snapshot.Refresher.{current}
use ticketbutler_proxy.Snapshot.Tags.{
  TimeFormat, IsTimeFormat, Wire, IsWire, snapshot_kind, json_codec,
}
use ticketbutler_proxy.Snapshot.Tags.Restore.{restore_snapshot, encode_inv, decode-encode}
use ticketbutler_proxy.Main.{in_bucket, Process, built, store_of, serve, refresh_once}
use ticketbutler_proxy.Main.Restart.{serve-refresh_once}

module _ {C F : Type 0} ⦃float : Float F⦄ ⦃case : CaseTable⦄ (cloud : Cloud C) {cents : F → F}
    (laws : IsFloat float cents) {time : TimeFormat} (time_law : IsTimeFormat time) {wire : Wire}
    (wire_law : IsWire wire) where
  -- Where Cloud Storage, gzip, and the texts of JSON, of instants and of numbers are as documented: a
  -- process with a bucket that starts after a run of `refresh` without error reads the snapshot that
  -- the run has built, with the amounts of its orders to the cent, if its JSON is at most 256 MiB.
  pub serve-refresh_once_json :
      (p : Process) (g : Gcs) (w : World F) (now : ℤ) (c : C) (result : Fetched F)
      → IsCloud cloud
      → p.backend ≡ in_bucket g
      → (fetch_orders w p.client).0 ≡ ok result
      → ((j : Json)
          → (snapshot_kind {F = F} time).put (build result now p.options) ≡ ok j
          → length (wire.print j) ≤ max_decompressed)
      → (refresh_once cloud (json_codec time wire) (built p) w now c).0 ≡ none
      → (current (json_codec time wire) (store_of cloud p.backend) p.options (
          serve cloud
            (json_codec time wire)
            p
            (refresh_once cloud (json_codec time wire) (built p) w now c).1)).0
        ≡ ok (restore_snapshot cents (build result now p.options))
  serve-refresh_once_json p g w now c result h in_g fetched fits done =
      serve-refresh_once cloud (json_codec time wire) p g w now c result
        (restore_snapshot cents (build result now p.options))
        (λ bytes encoded.
          let (body, marshalled, _) = encode_inv (json_codec time wire) _ bytes encoded in
          let (j, put_snap, _) =
            >>=-ok_inv ((snapshot_kind {F = F} time).put (build result now p.options)) _
              marshalled in
          decode-encode laws time_law wire_law _ j bytes put_snap (fits j put_snap) encoded)
        h in_g fetched done
