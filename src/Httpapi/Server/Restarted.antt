-- ===== src/Httpapi/Server/Restarted.antt =====
-- What clients receive from a process that has restarted since the refresh, and from one that has not.
use ticketbutler_proxy.Common.{◌≡◌, refl, ap, Bool, true, false, Option, some, if◌then◌else◌}
use ticketbutler_proxy.Int.{ℤ}
use ticketbutler_proxy.Float.{Float, IsFloat}
use ticketbutler_proxy.Text.{codes, text_eq, CaseTable}
use ticketbutler_proxy.Errors.{Bytes, Result, ok, err}
use ticketbutler_proxy.Store.{Store}
use ticketbutler_proxy.Ticketbutler.Client.{Fetched}
use ticketbutler_proxy.Ticketbutler.Tags.Stable.{put_orders}
use ticketbutler_proxy.Aggregate.Tags.Stable.{HasKeys, summarise-HasKeys, put_summary_fields}
use ticketbutler_proxy.Aggregate.Summary.{Options}
use ticketbutler_proxy.Snapshot.Snapshot.{Snapshot, Codec, build, age, stale}
use ticketbutler_proxy.Snapshot.Refresher.{State, Refreshed, after_encode, refresh, current}
use ticketbutler_proxy.Snapshot.Tags.{TimeFormat}
use ticketbutler_proxy.Snapshot.Tags.Restore.{restore_snapshot}
use ticketbutler_proxy.Httpapi.Auth.{Request, allows}
use ticketbutler_proxy.Httpapi.Reply.{Reply, meta_for, write_json}
use ticketbutler_proxy.Httpapi.Server.{
  Server, Moment, health_reply, handle_health, snapshot_or_503, serve_current, handle_summary,
  handle_sponsors, handle_orders, refresh_reply, handle_refresh, require_token, takes_get,
  get_route, post_route, handle,
}
use ticketbutler_proxy.Httpapi.Tags.{
  page, content, put_summary_response, put_sponsors_response, put_orders_response,
}

module _ {F S : Type 0} ⦃float : Float F⦄ ⦃case : CaseTable⦄ (codec : Codec F) (store : Store S)
    (opts : Options) (s : S) (a b : Option (Snapshot F)) where
  -- What a refresh returns does not depend on the cache.
  after_encode_same :
      (snap : Snapshot F) (r : Result Bytes)
      → (after_encode codec store opts snap r (record { cached = a; stored = s })).0
        ≡ (after_encode codec store opts snap r (record { cached = b; stored = s })).0
  unfolding after_encode
  after_encode_same snap (err e) = refl
  after_encode_same snap (ok bytes) = refl

  refresh_same :
      (fetch : Result (Fetched F)) (now : ℤ)
      → (refresh codec store opts fetch now (record { cached = a; stored = s })).0
        ≡ (refresh codec store opts fetch now (record { cached = b; stored = s })).0
  unfolding refresh
  refresh_same (err e) now = refl
  refresh_same (ok result) now = after_encode_same _ _

module _ {F S : Type 0} ⦃float : Float F⦄ ⦃case : CaseTable⦄ {cents : F → F}
    (laws : IsFloat float cents) (time : TimeFormat) (srv : Server F S) (at : Moment F) where
  built_keys :
      (result : Fetched F) (built_at : ℤ) (opts : Options)
      → HasKeys (build result built_at opts).summary
  unfolding build
  built_keys result built_at opts = summarise-HasKeys opts result.orders

  abbrev Out : Type 0
  Out = Reply F × State F S

  abbrev Alike : Out → Out → Type 0
  Alike x y = page time x.0 ≡ page time y.0

  choose :
      (b : Bool) (x x' y y' : Out)
      → Alike x y
      → Alike x' y'
      → Alike (if b then x else x') (if b then y else y')
  choose true x x' y y' h k = h
  choose false x x' y y' h k = k

  meta_for-restore_snapshot :
      (snap : Snapshot F)
      → meta_for (restore_snapshot cents snap) at.now srv.stale_after
        ≡ meta_for snap at.now srv.stale_after
  unfolding meta_for age stale restore_snapshot
  meta_for-restore_snapshot snap = refl

  module _ (snap : Snapshot F) (s : S) (keys : HasKeys snap.summary) where
    abbrev live : State F S
    live = record { cached = some snap; stored = s }

    abbrev restarted : State F S
    restarted = record { cached = some (restore_snapshot cents snap); stored = s }

    same_health : Alike (handle_health srv at live) (handle_health srv at restarted)
    unfolding handle_health health_reply current page
    same_health = rw (meta_for-restore_snapshot snap)

    same_summary : Alike (handle_summary srv at live) (handle_summary srv at restarted)
    unfolding handle_summary serve_current snapshot_or_503 current page content put_summary_response
        write_json restore_snapshot
    same_summary = rw (meta_for-restore_snapshot snap) (rw (put_summary_fields snap.summary keys))

    same_sponsors : Alike (handle_sponsors srv at live) (handle_sponsors srv at restarted)
    unfolding handle_sponsors serve_current snapshot_or_503 current page content
        put_sponsors_response write_json restore_snapshot
    same_sponsors = rw (meta_for-restore_snapshot snap)

    same_orders : Alike (handle_orders srv at live) (handle_orders srv at restarted)
    unfolding handle_orders serve_current snapshot_or_503 current page content put_orders_response
        write_json restore_snapshot
    same_orders = rw (meta_for-restore_snapshot snap) (rw (put_orders laws snap.orders))

    same_refresh : Alike (handle_refresh srv at live) (handle_refresh srv at restarted)
    unfolding handle_refresh
    same_refresh =
        ap (λ (r : Refreshed F). page time (refresh_reply srv at r.error r.snapshot))
          (refresh_same srv.codec srv.store srv.options s (some snap)
            (some (restore_snapshot cents snap)) at.fetch at.refreshed_at)

    same_guarded :
        (next : State F S → Out) (r : Request)
        → Alike (next live) (next restarted)
        → Alike (require_token srv at next r live) (require_token srv at next r restarted)
    unfolding require_token
    same_guarded next r h = choose (allows srv.sha256 srv.digests r) _ _ _ _ h refl

    same_get :
        (next : State F S → Out) (r : Request)
        → Alike (next live) (next restarted)
        → Alike (get_route srv at next r live) (get_route srv at next r restarted)
    unfolding get_route
    same_get next r h = choose (takes_get r.method) _ _ _ _ h refl

    same_post :
        (next : State F S → Out) (r : Request)
        → Alike (next live) (next restarted)
        → Alike (post_route srv at next r live) (post_route srv at next r restarted)
    unfolding post_route
    same_post next r h = choose (text_eq r.method (codes "POST")) _ _ _ _ h refl

    same_handle : (r : Request) → Alike (handle srv at r live) (handle srv at r restarted)
    unfolding handle
    same_handle r =
        choose (text_eq r.path (codes "/healthz")) _ _ _ _
          (same_get (handle_health srv at) r same_health)
          (choose (text_eq r.path (codes "/v1/summary")) _ _ _ _
            (same_get _ r (same_guarded (handle_summary srv at) r same_summary))
            (choose (text_eq r.path (codes "/v1/sponsors")) _ _ _ _
              (same_get _ r (same_guarded (handle_sponsors srv at) r same_sponsors))
              (choose (text_eq r.path (codes "/v1/orders")) _ _ _ _
                (same_get _ r (same_guarded (handle_orders srv at) r same_orders))
                (choose (text_eq r.path (codes "/v1/refresh")) _ _ _ _
                  (same_post _ r (same_guarded (handle_refresh srv at) r same_refresh)) refl))))

  -- Where the texts of numbers are as documented: every request, on any route and by any method, is
  -- answered with the same status, headers and content by a process that has cached the snapshot that
  -- it built and by one that has read it back from the store, whatever the snapshot was built from.
  pub handle-restore_snapshot :
      (result : Fetched F) (built_at : ℤ) (opts : Options) (s : S) (r : Request)
      → page time
          (handle srv at r (record { cached = some (build result built_at opts); stored = s })).0
        ≡ page time
            (handle srv at r (record {
              cached = some (restore_snapshot cents (build result built_at opts));
              stored = s;
            })).0
  handle-restore_snapshot result built_at opts s r =
      same_handle (build result built_at opts) s (built_keys result built_at opts) r
