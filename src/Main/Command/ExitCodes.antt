-- ===== src/Main/Command/ExitCodes.antt =====
-- What the exit codes of the commands say.
use ticketbutler_proxy.Common.{
  ◌≤◌, ◌≡◌, refl, sym, ◌∙◌, ap, none, some, List, ◌∷◌, length, arith, inl, inr, Option,
}
use ticketbutler_proxy.Float.{Float, IsFloat}
use ticketbutler_proxy.Text.{Text, codes, text_eq, CaseTable}
use ticketbutler_proxy.Errors.{Err, ok, err}
use ticketbutler_proxy.Json.Value.{Json}
use ticketbutler_proxy.Store.Gcs.{Cloud, IsCloud, Gcs}
use ticketbutler_proxy.Ticketbutler.Client.{Fetched, fetch_orders}
use ticketbutler_proxy.Snapshot.Snapshot.{max_decompressed, build}
use ticketbutler_proxy.Snapshot.Refresher.{refresh, current}
use ticketbutler_proxy.Snapshot.Refresher.Laws.{Result-cases}
use ticketbutler_proxy.Snapshot.Tags.{
  TimeFormat, IsTimeFormat, Wire, IsWire, snapshot_kind, json_codec,
}
use ticketbutler_proxy.Snapshot.Tags.Restore.{restore_snapshot}
use ticketbutler_proxy.Main.{
  in_bucket, Process, Failure, failed, Built, built, store_of, serve, refresh_once, ended,
}
use ticketbutler_proxy.Main
use ticketbutler_proxy.Main.Stored.{serve-refresh_once_json}
use ticketbutler_proxy.Main.Command.{Surroundings, Exit, exit_of, ended_command, run}

exit_of_zero : (e : Option Failure) → (exit_of e).code ≡ 0 → e ≡ none
unfolding exit_of
exit_of_zero none h = refl
exit_of_zero (some e) h = absurd (ground arith)

module _ {C F : Type 0} ⦃float : Float F⦄ ⦃case : CaseTable⦄ (cloud : Cloud C) {cents : F → F}
    (laws : IsFloat float cents) {time : TimeFormat} (time_law : IsTimeFormat time) {wire : Wire}
    (wire_law : IsWire wire) (s : Surroundings F C) where
  -- The run of `refresh` under the command.
  pub run-refresh :
      (name : Text) (args : List Text) (c : C) (p : Process)
      → Main.build cloud s.getenv s.parse_duration ≡ built p
      → run cloud (json_codec time wire) s (name ∷ codes "refresh" ∷ args) c
        ≡ ended_command cloud
            (json_codec time wire)
            s
            (refresh_once cloud (json_codec time wire) (built p) s.world s.now c)
  unfolding run text_eq
  run-refresh name args c p h = rw h refl

  ended_well :
      (out : Option Failure × C)
      → (ended_command cloud (json_codec time wire) s out).0.code ≡ 0
      → (out.0 ≡ none) × ((ended_command cloud (json_codec time wire) s out).1 ≡ out.1)
  unfolding ended_command
  ended_well (e, c) h = (exit_of_zero e h, refl)

  fetched_well :
      (c : C) (p : Process) (e : Err)
      → (fetch_orders s.world p.client).0 ≡ err e
      → (refresh_once cloud (json_codec time wire) (built p) s.world s.now c).0 ≡ some (failed e)
  unfolding refresh_once refresh
  fetched_well c p e h = rw h refl

  -- Where Cloud Storage, gzip, and the texts of JSON, of instants and of numbers are as documented: if
  -- `tbproxy refresh` exits with 0 in an environment with a bucket, then its fetch gave orders, and a
  -- process that starts after it in that environment reads the snapshot built from them, with their
  -- amounts to the cent and the entries of its maps in another order, if what was fetched makes a JSON
  -- of at most 256 MiB.
  pub serve-run_refresh :
      (name : Text) (args : List Text) (c : C) (p : Process) (g : Gcs)
      → IsCloud cloud
      → Main.build cloud s.getenv s.parse_duration ≡ built p
      → p.backend ≡ in_bucket g
      → ((result : Fetched F) (j : Json)
          → (fetch_orders s.world p.client).0 ≡ ok result
          → (snapshot_kind {F = F} time).put (build result s.now p.options) ≡ ok j
          → length (wire.print j) ≤ max_decompressed)
      → (run cloud (json_codec time wire) s (name ∷ codes "refresh" ∷ args) c).0.code ≡ 0
      → (result : Fetched F) × ((fetch_orders s.world p.client).0 ≡ ok result)
        × ((current (json_codec time wire) (store_of cloud p.backend) p.options (
              serve cloud
                (json_codec time wire)
                p
                (run cloud (json_codec time wire) s (name ∷ codes "refresh" ∷ args) c).1)).0
            ≡ ok (restore_snapshot cents (build result s.now p.options)))
  serve-run_refresh name args c p g h built_p in_g fits zero =
      let ran = run-refresh name args c p built_p in
      let (well, left) =
        ended_well (refresh_once cloud (json_codec time wire) (built p) s.world s.now c)
          (ap (λ (out : Exit × C). out.0.code) (sym ran) ∙ zero) in
      elim (Result-cases (fetch_orders s.world p.client).0) [
        | inl (e, not_fetched) ↦
            absurd (ground (arith, sym (fetched_well c p e not_fetched) ∙ well))
        | inr (result, fetched) ↦ (
          result,
          fetched,
          rw (ran, left)
              (serve-refresh_once_json cloud laws time_law wire_law p g s.world s.now c result h
                in_g fetched (λ j put_j. fits result j fetched put_j) well),
        )
      ]
