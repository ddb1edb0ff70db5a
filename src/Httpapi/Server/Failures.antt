-- ===== src/Httpapi/Server/Failures.antt =====
-- internal/httpapi/handlers.go: the status of a reply, by what the read or the refresh behind it
-- gave.
use ticketbutler_proxy.Common.{
  ℕ, ◌≡◌, ◌⊎◌, refl, sym, ap, ◌∙◌, true, false, Option, none, some, [], arith, if◌then◌else◌, inl,
  inr, Bool-cases,
}
use ticketbutler_proxy.Float.{Float}
use ticketbutler_proxy.Text.{Text, codes, text_eq, CaseTable}
use ticketbutler_proxy.Errors.{Bytes, Err, Result, ok, err, ◌>>=◌, is_not_found, as_upstream}
use ticketbutler_proxy.Ticketbutler.Client.{Fetched}
use ticketbutler_proxy.Snapshot.Snapshot.{Snapshot, build, encode, decode}
use ticketbutler_proxy.Snapshot.Refresher.Laws.{Result-cases}
use ticketbutler_proxy.Snapshot.Refresher.{
  State, after_encode, after_save, after_load, load_snapshot, refresh, current,
}
use ticketbutler_proxy.Httpapi.Auth.{Request, allows}
use ticketbutler_proxy.Httpapi.Reply.{Reply, write_json, write_error}
use ticketbutler_proxy.Httpapi.Server.{
  Server, Moment, health_reply, handle_health, snapshot_or_503, serve_current, handle_summary,
  handle_sponsors, handle_orders, failed_reply, refresh_reply, handle_refresh, require_token,
  takes_get, get_route, handle,
}

-- The status for the end of a read: no snapshot yet, or a store that fails.
abbrev pub read_status : {A : Type 0} → Result A → ℕ
read_status (ok a) = 200
read_status (err e) = if is_not_found e then 503 else 500

abbrev pub health_status : {A : Type 0} → Result A → ℕ
health_status (ok a) = 200
health_status (err e) = if is_not_found e then 200 else 503

-- The status for the end of a refresh, of its save, of its encoding, and of its fetch.
abbrev pub upstream_status : Option (ℕ × Bytes) → ℕ
upstream_status (some answer) = 502
upstream_status none = 207

abbrev pub save_status : Result (Unit {0}) → ℕ
save_status (ok _) = 200
save_status (err e) = upstream_status (as_upstream e)

abbrev pub encode_status : (Bytes → ℕ) → Result Bytes → ℕ
encode_status saved (ok bytes) = saved bytes
encode_status saved (err e) = 502

abbrev pub fetch_status : {F : Type 0} → (Fetched F → ℕ) → Result (Fetched F) → ℕ
fetch_status built (ok result) = built result
fetch_status built (err e) = 502

-- A request to a path.
abbrev pub request_to : Text → Text → Text → Text → Request
request_to path method authorization x_api_key = record {
  method = method;
  path = path;
  authorization = authorization;
  x_api_key = x_api_key;
}

module _ {F S : Type 0} ⦃float : Float F⦄ ⦃case : CaseTable⦄ (srv : Server F S) (at : Moment F)
    (st : State F S) where
  served_status :
      (serve : Snapshot F → Reply F)
      → ((snap : Snapshot F) → (serve snap).status ≡ 200)
      → (serve_current srv at serve st).0.status
        ≡ read_status (current srv.codec srv.store srv.options st).0
  unfolding serve_current snapshot_or_503 write_error
  served_status serve h = go (current srv.codec srv.store srv.options st).0
    where
      go :
          (read : Result (Snapshot F))
          → (snapshot_or_503 srv at serve read).status ≡ read_status read
      go (ok snap) = h snap
      go (err e) = ground arith

  guarded :
      (next : State F S → Reply F × State F S) (r : Request)
      → takes_get r.method ≡ true
      → allows srv.sha256 srv.digests r ≡ true
      → get_route srv at (require_token srv at next r) r st ≡ next st
  unfolding get_route require_token
  guarded next r h k = rw (h, k)

  at_path :
      (next : State F S → Reply F × State F S) (r : Request)
      → handle srv at r st ≡ get_route srv at (require_token srv at next r) r st
      → takes_get r.method ≡ true
      → allows srv.sha256 srv.digests r ≡ true
      → (next st).0.status ≡ read_status (current srv.codec srv.store srv.options st).0
      → (handle srv at r st).0.status ≡ read_status (current srv.codec srv.store srv.options st).0
  at_path next r routed h k e =
      ap (λ (out : Reply F × State F S). out.0.status) (routed ∙ guarded next r h k) ∙ e

  -- An authorised GET or HEAD of the summary, the sponsors or the orders is answered 200 where there
  -- is a current snapshot, 503 where none is stored yet, and 500 where it cannot be read.
  pub read_statuses :
      (path method authorization x_api_key : Text)
      → (path ≡ codes "/v1/summary") ⊎ (path ≡ codes "/v1/sponsors") ⊎ (path ≡ codes "/v1/orders")
      → takes_get method ≡ true
      → allows srv.sha256 srv.digests (request_to path method authorization x_api_key) ≡ true
      → (handle srv at (request_to path method authorization x_api_key) st).0.status
        ≡ read_status (current srv.codec srv.store srv.options st).0
  unfolding handle text_eq handle_summary handle_sponsors handle_orders write_json
  read_statuses path method authorization x_api_key (inl e) h k = rw e (
      at_path (handle_summary srv at)
        (request_to (codes "/v1/summary") method authorization x_api_key) refl h (rw e at k)
        (served_status _ (λ snap. refl)))
  read_statuses path method authorization x_api_key (inr (inl e)) h k = rw e (
      at_path (handle_sponsors srv at)
        (request_to (codes "/v1/sponsors") method authorization x_api_key) refl h (rw e at k)
        (served_status _ (λ snap. refl)))
  read_statuses path method authorization x_api_key (inr (inr e)) h k = rw e (
      at_path (handle_orders srv at)
        (request_to (codes "/v1/orders") method authorization x_api_key) refl h (rw e at k)
        (served_status _ (λ snap. refl)))

  -- No snapshot is cached, and loading and decoding the stored one fails otherwise than by
  -- `store.ErrNotFound`.
  abbrev pub IsUnreadable : Type 0
  IsUnreadable =
      (st.cached ≡ none)
      × ((e : Err) × ((srv.store.load st.stored >>= decode srv.codec) ≡ err e)
          × (is_not_found e ≡ false))

  health_read :
      (handle_health srv at st).0.status
      ≡ health_status (current srv.codec srv.store srv.options st).0
  unfolding handle_health health_reply write_json
  health_read = go (current srv.codec srv.store srv.options st).0
    where
      go : (read : Result (Snapshot F)) → (health_reply srv at read).status ≡ health_status read
      go (ok snap) = refl
      go (err e) = ground arith

  health_current :
      (read : Result (Snapshot F))
      → (current srv.codec srv.store srv.options st).0 ≡ read
      → (handle_health srv at st).0.status ≡ health_status read
  health_current read h = health_read ∙ ap health_status h

  current-cached :
      (snap : Snapshot F)
      → st.cached ≡ some snap
      → (current srv.codec srv.store srv.options st).0 ≡ ok snap
  unfolding current
  current-cached snap h = ground (arith, h)

  current-loaded :
      (read : Result (Snapshot F))
      → st.cached ≡ none
      → (srv.store.load st.stored >>= decode srv.codec) ≡ read
      → (current srv.codec srv.store srv.options st).0 ≡ read
  unfolding current after_load load_snapshot
  current-loaded read h k = ground (arith, h, k)

  HealthStatus : ℕ → Type 0
  HealthStatus status = ((status ≡ 503) × IsUnreadable) ⊎ ((status ≡ 200) × ¬ IsUnreadable)

  -- With nothing cached, by what loading and decoding give.
  loaded_health :
      (read : Result (Snapshot F))
      → st.cached ≡ none
      → (srv.store.load st.stored >>= decode srv.codec) ≡ read
      → HealthStatus (handle_health srv at st).0.status
  unfolding HealthStatus
  loaded_health (ok snap) h k = inr (
    health_current (ok snap) (current-loaded (ok snap) h k),
    (λ u. ground (arith, sym k ∙ u.1.1)),
  )
  loaded_health (err e) h k = elim (Bool-cases (is_not_found e)) [
    | inl missing ↦ inr (
      health_current (err e) (current-loaded (err e) h k) ∙ rw missing refl,
      (λ u. ground (arith, missing, sym k ∙ u.1.1, u.1.2)),
    )
    | inr failed ↦
        inl (
          health_current (err e) (current-loaded (err e) h k) ∙ rw failed refl,
          (h, (e, k, failed)),
        )
  ]

  cached_health :
      (cached : Option (Snapshot F))
      → st.cached ≡ cached
      → HealthStatus (handle_health srv at st).0.status
  unfolding HealthStatus
  cached_health (some snap) h =
      inr (health_current (ok snap) (current-cached snap h), (λ u. ground (arith, sym h ∙ u.0)))
  cached_health none h = loaded_health (srv.store.load st.stored >>= decode srv.codec) h refl

  -- Whatever tokens it presents, a GET or HEAD of `/healthz` is answered 503 where no snapshot is
  -- cached and the stored one cannot be loaded or decoded, an object that does not exist apart; and
  -- 200 else.
  pub health_statuses :
      (method authorization x_api_key : Text)
      → takes_get method ≡ true
      → (((handle srv at (request_to (codes "/healthz") method authorization x_api_key) st).0.status
            ≡ 503)
          × IsUnreadable)
        ⊎ (((handle srv at
                (request_to (codes "/healthz") method authorization x_api_key)
                st).0.status
              ≡ 200)
            × ¬ IsUnreadable)
  unfolding handle get_route text_eq HealthStatus
  health_statuses method authorization x_api_key h = rw h (cached_health st.cached refl)

  failed_status :
      (e : Err) (answer : Option (ℕ × Bytes)) → (failed_reply srv at e answer none).status ≡ 502
  unfolding failed_reply write_error
  failed_status e (some answer) = refl
  failed_status e none = refl

  failed_refresh :
      (e : Err)
      → at.fetch ≡ err e
      → handle_refresh srv at st ≡ (refresh_reply srv at (some e) none, st)
  unfolding handle_refresh refresh
  failed_refresh e h = rw h

  saved_refresh :
      (result : Fetched F) (bytes : Bytes)
      → at.fetch ≡ ok result
      → encode srv.codec (build result at.refreshed_at srv.options) ≡ ok bytes
      → handle_refresh srv at st ≡ (
          let out =
            after_save
              (build result at.refreshed_at srv.options)
              (srv.store.save bytes st.stored) in
          (refresh_reply srv at out.0.error out.0.snapshot, out.1))
  unfolding handle_refresh refresh
  saved_refresh result bytes h k = rw (h, k)

  out_status :
      {out : Reply F × State F S}
      → handle_refresh srv at st ≡ out
      → (handle_refresh srv at st).0.status ≡ out.0.status
  out_status e = ap (λ (out : Reply F × State F S). out.0.status) e

  unencoded_refresh :
      (result : Fetched F) (e : Err)
      → at.fetch ≡ ok result
      → encode srv.codec (build result at.refreshed_at srv.options) ≡ err e
      → handle_refresh srv at st ≡ (refresh_reply srv at (some e) none, st)
  unfolding handle_refresh refresh after_encode
  unencoded_refresh result e h k = rw (h, k)

  -- A failed fetch is answered 502, and keeps the cached snapshot and the store.
  pub refresh_fails :
      (e : Err)
      → at.fetch ≡ err e
      → ((handle_refresh srv at st).0.status ≡ 502) × ((handle_refresh srv at st).1 ≡ st)
  unfolding refresh_reply
  refresh_fails e h = rw (failed_refresh e h) (failed_status e (as_upstream e), refl)

  -- A failed fetch with an answer of the upstream in its error.
  pub refused_refresh :
      (e : Err) (answer : ℕ × Bytes)
      → at.fetch ≡ err e
      → as_upstream e ≡ some answer
      → handle_refresh srv at st ≡ (
        write_error [] 502 (codes "ticketbutler rejected the request; check TICKETBUTLER_TOKEN"),
        st,
      )
  unfolding refresh_reply failed_reply
  refused_refresh e answer h k = rw (failed_refresh e h) (rw k)

  saved_status :
      (snap : Snapshot F) (saved : Result (Unit {0}) × S)
      → (refresh_reply srv at
          (after_save snap saved).0.error
          (after_save snap saved).0.snapshot).status
        ≡ save_status saved.0
  unfolding after_save refresh_reply write_json failed_reply write_error
  saved_status snap (ok _, s) = refl
  saved_status snap (err e, s) = kept_status e (as_upstream e)
    where
      kept_status :
          (e : Err) (answer : Option (ℕ × Bytes))
          → (failed_reply srv at e answer (some snap)).status ≡ upstream_status answer
      kept_status e (some answer) = refl
      kept_status e none = refl

  -- A refresh is answered 200 where the fetch, the encoding and the save go well; 207 where only the
  -- save fails, by an error without an answer of the upstream in it; and else 502.
  pub refresh_statuses :
      (handle_refresh srv at st).0.status
      ≡ fetch_status
          (λ result.
            encode_status
              (λ bytes. save_status (srv.store.save bytes st.stored).0)
              (encode srv.codec (build result at.refreshed_at srv.options)))
          at.fetch
  unfolding refresh_reply failed_reply
  refresh_statuses = elim (Result-cases at.fetch) [
    | inl (e, failed) ↦
        out_status (failed_refresh e failed) ∙ rw failed (failed_status e (as_upstream e))
    | inr (result, fetched) ↦
        elim (Result-cases (encode srv.codec (build result at.refreshed_at srv.options))) [
          | inl (e, failed) ↦
              out_status (unencoded_refresh result e fetched failed)
              ∙ rw (fetched, failed) (failed_status e (as_upstream e))
          | inr (bytes, encoded) ↦
              out_status (saved_refresh result bytes fetched encoded)
              ∙ rw (fetched, encoded)
                  (saved_status (build result at.refreshed_at srv.options)
                    (srv.store.save bytes st.stored))
        ]
  ]
