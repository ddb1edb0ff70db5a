-- ===== src/Httpapi/Server/Routes.antt =====
-- internal/httpapi/server.go: what a request can get by its route, its method and its token.
use ticketbutler_proxy.Common.{
  ℕ, ◌≡◌, ◌≢◌, refl, ◌⊎◌, inl, inr, Bool, true, false, Option, none, some, List, [], ◌∷◌, arith,
  Bool-cases, if_both,
}
use ticketbutler_proxy.Int.{ℤ}
use ticketbutler_proxy.Float.{Float}
use ticketbutler_proxy.Text.{Text, codes, text_eq, CaseTable}
use ticketbutler_proxy.Text.Order.{text_eq_iff}
use ticketbutler_proxy.Errors.{Bytes, as_upstream, Err, Result, ok, err, is_not_found}
use ticketbutler_proxy.Ticketbutler.Client.{Fetched}
use ticketbutler_proxy.Snapshot.Snapshot.{Snapshot}
use ticketbutler_proxy.Snapshot.Refresher.{State}
use ticketbutler_proxy.Snapshot.Refresher.Laws.{current_stable}
use ticketbutler_proxy.Httpapi.Auth.{Request, allows}
use ticketbutler_proxy.Httpapi.Reply.{
  Body, Reply, error_body, health_body, summary_body, sponsors_body, orders_body, refreshed_body,
  not_stored_body, plain_body, no_store, www_authenticate, write_json, write_error,
}
use ticketbutler_proxy.Httpapi.Server.{
  Server, Moment, health_reply, handle_health, snapshot_or_503, serve_current, handle_summary,
  handle_sponsors, handle_orders, failed_reply, refresh_reply, handle_refresh, require_token,
  takes_get, method_not_allowed, not_found_page, get_route, post_route, handle,
}

-- One entry of a list of headers.
abbrev pub Has : Text × Text → List (Text × Text) → Type 0
Has h [] = ⊥
Has h (k ∷ hs) = (h ≡ k) ⊎ Has h hs

module _ {F S : Type 0} ⦃float : Float F⦄ ⦃case : CaseTable⦄ (srv : Server F S) (at : Moment F)
    (r : Request) (st : State F S) where
  abbrev unauthorized : Reply F
  unauthorized = write_error (www_authenticate ∷ []) 401 (codes "a valid bearer token is required")

  abbrev is_allowed : Bool
  is_allowed = allows srv.sha256 srv.digests r

  -- What holds of every reply that a route can lead to holds of the reply to a request.
  module _ (P : Reply F × State F S → Type 0) (health : P (handle_health srv at st))
      (wrong_method : (allow : Text) → P (method_not_allowed allow, st))
      (unknown : P (not_found_page, st)) (denied : P (unauthorized, st)) where
    require :
        (next : State F S → Reply F × State F S)
        → (is_allowed ≡ true → P (next st))
        → P (require_token srv at next r st)
    unfolding require_token
    require next h = elim (Bool-cases is_allowed) [
      | inl allowed ↦ rw allowed (h allowed)
      | inr refused ↦ rw refused denied
    ]

    get : (next : State F S → Reply F × State F S) → P (next st) → P (get_route srv at next r st)
    unfolding get_route
    get next h = if_both P (takes_get r.method) h (wrong_method (codes "GET, HEAD"))

    post : (next : State F S → Reply F × State F S) → P (next st) → P (post_route srv at next r st)
    unfolding post_route
    post next h = if_both P (text_eq r.method (codes "POST")) h (wrong_method (codes "POST"))

    handle_induction :
        (is_allowed ≡ true → P (handle_summary srv at st))
        → (is_allowed ≡ true → P (handle_sponsors srv at st))
        → (is_allowed ≡ true → P (handle_orders srv at st))
        → (is_allowed ≡ true → P (handle_refresh srv at st))
        → P (handle srv at r st)
    unfolding handle
    handle_induction summary sponsors orders refresh =
        if_both P (text_eq r.path (codes "/healthz")) (get (handle_health srv at) health) (
          if_both P (text_eq r.path (codes "/v1/summary"))
            (get _ (require (handle_summary srv at) summary))
            (if_both P (text_eq r.path (codes "/v1/sponsors"))
              (get _ (require (handle_sponsors srv at) sponsors))
              (if_both P (text_eq r.path (codes "/v1/orders"))
                (get _ (require (handle_orders srv at) orders))
                (if_both P (text_eq r.path (codes "/v1/refresh"))
                  (post _ (require (handle_refresh srv at) refresh)) unknown))))

-- A body that shows nothing of the orders: an error, a page of net/http, or the health.
abbrev pub IsPublic : {F : Type 0} → Body F → Type 0
IsPublic (error_body text) = Unit
IsPublic (health_body status snapshot fresh) = Unit
IsPublic (plain_body text) = Unit
IsPublic (summary_body m summary) = ⊥
IsPublic (sponsors_body m sponsors) = ⊥
IsPublic (orders_body m orders) = ⊥
IsPublic (refreshed_body at ms counts states) = ⊥
IsPublic (not_stored_body warning text counts) = ⊥

-- A body with personal data comes with `Cache-Control: no-store`.
abbrev pub IsUncached : {F : Type 0} → Reply F → Type 0
IsUncached reply = elim reply.body [
  | sponsors_body m sponsors ↦ Has no_store reply.headers
  | orders_body m orders ↦ Has no_store reply.headers
  | _ ↦ Unit
]

module _ {F S : Type 0} ⦃float : Float F⦄ ⦃case : CaseTable⦄ (srv : Server F S) (at : Moment F)
    (r : Request) (st : State F S) where
  health-IsPublic : (read : Result (Snapshot F)) → IsPublic (health_reply srv at read).body
  unfolding health_reply write_json
  health-IsPublic (ok snap) = tt
  health-IsPublic (err e) =
      if_both {A = Reply F} (λ reply. IsPublic reply.body) (is_not_found e) tt tt

  health-IsUncached : (read : Result (Snapshot F)) → IsUncached (health_reply srv at read)
  unfolding health_reply write_json
  health-IsUncached (ok snap) = tt
  health-IsUncached (err e) =
      if_both {A = Reply F} (λ reply. IsUncached reply) (is_not_found e) tt tt

  served-IsUncached :
      (serve : Snapshot F → Reply F)
      → ((snap : Snapshot F) → IsUncached (serve snap))
      → (read : Result (Snapshot F)) → IsUncached (snapshot_or_503 srv at serve read)
  unfolding snapshot_or_503 write_error
  served-IsUncached serve h (ok snap) = h snap
  served-IsUncached serve h (err e) =
      if_both {A = Reply F} (λ reply. IsUncached reply) (is_not_found e) tt tt

  failed-IsUncached :
      (e : Err) (answer : Option (ℕ × Bytes)) (snapshot : Option (Snapshot F))
      → IsUncached (failed_reply srv at e answer snapshot)
  unfolding failed_reply write_error
  failed-IsUncached e (some answer) snapshot = tt
  failed-IsUncached e none (some snap) = tt
  failed-IsUncached e none none = tt

  refresh-IsUncached :
      (error : Option Err) (snapshot : Option (Snapshot F))
      → IsUncached (refresh_reply srv at error snapshot)
  unfolding refresh_reply write_error
  refresh-IsUncached (some e) snapshot = failed-IsUncached e (as_upstream e) snapshot
  refresh-IsUncached none (some snap) = tt
  refresh-IsUncached none none = tt

  -- A request without a valid token, on whatever route and by whatever method, is answered by a body
  -- that shows nothing of the orders, and leaves the store as it was.
  pub handle-IsPublic :
      allows srv.sha256 srv.digests r ≡ false
      → IsPublic (handle srv at r st).0.body × ((handle srv at r st).1.stored ≡ st.stored)
  unfolding handle_health write_error
  handle-IsPublic refused =
      handle_induction srv at r st (λ out. IsPublic out.0.body × (out.1.stored ≡ st.stored))
        (health-IsPublic _, (current_stable srv.codec srv.store srv.options st).0)
        (λ allow. (tt, refl)) (tt, refl) (tt, refl) (λ h. cc) (λ h. cc) (λ h. cc) (λ h. cc)

  -- Whatever the request, a reply with sponsors or orders in it carries `Cache-Control: no-store`.
  pub handle-IsUncached : IsUncached (handle srv at r st).0
  unfolding handle_health handle_summary handle_sponsors handle_orders handle_refresh serve_current
      write_error
  handle-IsUncached =
      handle_induction srv at r st (λ out. IsUncached out.0) (health-IsUncached _) (λ allow. tt) tt
        tt (λ h. served-IsUncached _ (λ snap. tt) _) (λ h. served-IsUncached _ (λ snap. inl refl) _)
        (λ h. served-IsUncached _ (λ snap. inl refl) _) (λ h. refresh-IsUncached _ _)

-- Only POST reaches the fetch: by any other method the reply and the state are the same, whatever
-- fetching would have given.
pub handle_never_fetches :
    {F S : Type 0} ⦃float : Float F⦄ ⦃case : CaseTable⦄ (srv : Server F S) (at : Moment F)
    (fetch : Result (Fetched F)) (refreshed_at : ℤ) (r : Request) (st : State F S)
    → r.method ≢ codes "POST"
    → handle srv at r st
      ≡ handle srv (record { fetch = fetch; refreshed_at = refreshed_at; now = at.now }) r st
unfolding handle post_route get_route require_token handle_health handle_summary handle_sponsors
    handle_orders health_reply serve_current snapshot_or_503
handle_never_fetches srv at fetch refreshed_at r st other = rw (not_post) refl
  where
    not_post : text_eq r.method (codes "POST") ≡ false
    not_post = ground (arith, text_eq_iff r.method (codes "POST"))
