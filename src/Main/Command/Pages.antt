-- ===== src/Main/Command/Pages.antt =====
-- What clients of `tbproxy serve` receive after `tbproxy refresh`.
use ticketbutler_proxy.Common.{
  ◌≤◌, ◌≡◌, refl, sym, ◌∙◌, ap, none, some, List, ◌∷◌, length, inl, inr,
}
use ticketbutler_proxy.Float.{Float, IsFloat}
use ticketbutler_proxy.Text.{Text, codes, CaseTable}
use ticketbutler_proxy.Errors.{Bytes, Err, Result, ok, err}
use ticketbutler_proxy.Json.Value.{Json}
use ticketbutler_proxy.Json.Kind.Laws.{ok_inj}
use ticketbutler_proxy.Store.{Store}
use ticketbutler_proxy.Store.Memory.{new_memory}
use ticketbutler_proxy.Store.Gcs.{Cloud, IsCloud, Gcs}
use ticketbutler_proxy.Ticketbutler.Client.{Fetched, fetch_orders}
use ticketbutler_proxy.Aggregate.Summary.{Options}
use ticketbutler_proxy.Snapshot.Snapshot.{Snapshot, Codec, max_decompressed, build}
use ticketbutler_proxy.Snapshot.Refresher.{State, load_snapshot, after_load, current, warm}
use ticketbutler_proxy.Snapshot.Refresher.Laws.{Result-cases}
use ticketbutler_proxy.Snapshot.Tags.{
  TimeFormat, IsTimeFormat, Wire, IsWire, snapshot_kind, json_codec,
}
use ticketbutler_proxy.Snapshot.Tags.Restore.{restore_snapshot}
use ticketbutler_proxy.Httpapi.Auth.{Request}
use ticketbutler_proxy.Httpapi.Server.{Moment, handle}
use ticketbutler_proxy.Httpapi.Server.Restarted.{handle-restore_snapshot}
use ticketbutler_proxy.Httpapi.Tags.{page}
use ticketbutler_proxy.Main.{in_bucket, Process, built, store_of, serve, server_of}
use ticketbutler_proxy.Main
use ticketbutler_proxy.Main.Command.{Surroundings, run}
use ticketbutler_proxy.Main.Command.ExitCodes.{serve-run_refresh}

module _ {F S : Type 0} ⦃float : Float F⦄ ⦃case : CaseTable⦄ (codec : Codec F) (store : Store S)
    (opts : Options) where
  current_fresh :
      (s : S)
      → current codec store opts (record { cached = none; stored = s })
        ≡ after_load (load_snapshot codec store opts s) (record { cached = none; stored = s })
  unfolding current load_snapshot
  current_fresh s = refl

  current_read :
      (s : S) {r : Result (Snapshot F)}
      → load_snapshot codec store opts s ≡ r
      → current codec store opts (record { cached = none; stored = s })
        ≡ after_load r (record { cached = none; stored = s })
  current_read s h =
      current_fresh s ∙ ap (λ r. after_load r (record { cached = none; stored = s })) h

  warm_failed :
      (s : S) {e : Err}
      → load_snapshot codec store opts s ≡ err e
      → (warm codec store opts (record { cached = none; stored = s })
          ≡ record { cached = none; stored = s })
        × ((current codec store opts (record { cached = none; stored = s })).0 ≡ err e)
  unfolding warm after_load
  warm_failed s h = (
    ap (λ (out : Result (Snapshot F) × State F S). out.1) (current_read s h),
    ap (λ (out : Result (Snapshot F) × State F S). out.0) (current_read s h),
  )

  warm_loaded :
      (s : S) {snap : Snapshot F}
      → load_snapshot codec store opts s ≡ ok snap
      → warm codec store opts (record { cached = none; stored = s })
        ≡ record { cached = some snap; stored = s }
  unfolding warm after_load
  warm_loaded s h = ap (λ (out : Result (Snapshot F) × State F S). out.1) (current_read s h)

  current_cached :
      (s : S) (snap : Snapshot F)
      → (current codec store opts (record { cached = some snap; stored = s })).0 ≡ ok snap
  unfolding current
  current_cached s snap = refl

  -- What a warmed process reads is what it has cached.
  cached-warm :
      (s : S) (snap : Snapshot F)
      → (current codec store opts (warm codec store opts (record { cached = none; stored = s }))).0
        ≡ ok snap
      → warm codec store opts (record { cached = none; stored = s })
        ≡ record { cached = some snap; stored = s }
  cached-warm s snap h = elim (Result-cases (load_snapshot codec store opts s)) [
    | inl (e, failed) ↦
        let (warmed, read) = warm_failed s failed in
        let same : ◌≡◌ {A = Result (Snapshot F)} (err e) (ok snap) =
          sym read ∙ ap (λ st. (current codec store opts st).0) (sym warmed) ∙ h in
        cc
    | inr (other, loaded) ↦
        let warmed = warm_loaded s loaded in
        let same : other ≡ snap = ok_inj (
          sym (current_cached s other)
          ∙ ap (λ st. (current codec store opts st).0) (sym warmed)
          ∙ h) in
        warmed ∙ ap (λ x. record { cached = some x; stored = s }) same
  ]

module _ {C F : Type 0} ⦃float : Float F⦄ ⦃case : CaseTable⦄ (cloud : Cloud C) {cents : F → F}
    (laws : IsFloat float cents) {time : TimeFormat} (time_law : IsTimeFormat time) {wire : Wire}
    (wire_law : IsWire wire) (s : Surroundings F C) (sha256 : Text → Bytes) where
  serve-warm :
      (p : Process) (c : C) (snap : Snapshot F)
      → (current
          (json_codec time wire)
          (store_of cloud p.backend)
          p.options
          (serve cloud (json_codec time wire) p c)).0
        ≡ ok snap
      → serve cloud (json_codec time wire) p c
        ≡ record { cached = some snap; stored = (new_memory, c) }
  unfolding serve
  serve-warm p c snap h =
      cached-warm (json_codec time wire) (store_of cloud p.backend) p.options (new_memory, c) snap h

  -- Where Cloud Storage, gzip, and the texts of JSON, of instants and of numbers are as documented: if
  -- `tbproxy refresh` exits with 0 in an environment with a bucket, then its fetch gave orders, and
  -- `tbproxy serve`, started after it, answers every request as a process does that has the snapshot
  -- built from them in its cache, with the same status, headers and content, if what was fetched makes
  -- a JSON of at most 256 MiB.
  pub handle-serve_refresh :
      (name : Text) (args : List Text) (c : C) (p : Process) (g : Gcs) (at : Moment F) (r : Request)
      → IsCloud cloud
      → Main.build cloud s.getenv s.parse_duration ≡ built p
      → p.backend ≡ in_bucket g
      → ((result : Fetched F) (j : Json)
          → (fetch_orders s.world p.client).0 ≡ ok result
          → (snapshot_kind {F = F} time).put (build result s.now p.options) ≡ ok j
          → length (wire.print j) ≤ max_decompressed)
      → (run cloud (json_codec time wire) s (name ∷ codes "refresh" ∷ args) c).0.code ≡ 0
      → (result : Fetched F) × ((fetch_orders s.world p.client).0 ≡ ok result)
        × (page time
              (handle (server_of cloud (json_codec time wire) sha256 p) at r (
                serve cloud
                  (json_codec time wire)
                  p
                  (run cloud (json_codec time wire) s (name ∷ codes "refresh" ∷ args) c).1)).0
            ≡ page time
                (handle (server_of cloud (json_codec time wire) sha256 p) at r (record {
                  cached = some (build result s.now p.options);
                  stored = (
                    new_memory,
                    (run cloud (json_codec time wire) s (name ∷ codes "refresh" ∷ args) c).1,
                  );
                })).0)
  handle-serve_refresh name args c p g at r h built_p in_g fits zero =
      let (result, fetched, read) =
        serve-run_refresh cloud laws time_law wire_law s name args c p g h built_p in_g fits zero in
      let left = (run cloud (json_codec time wire) s (name ∷ codes "refresh" ∷ args) c).1 in
      (
        result,
        fetched,
        ap (λ st. page time (handle (server_of cloud (json_codec time wire) sha256 p) at r st).0)
              (serve-warm p left (restore_snapshot cents (build result s.now p.options)) read)
            ∙ sym (
                handle-restore_snapshot laws time (server_of cloud (json_codec time wire) sha256 p)
                  at result s.now p.options (new_memory, left) r),
      )
