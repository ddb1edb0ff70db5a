-- ===== src/Httpapi/Server/Upstream.antt =====
-- internal/httpapi/handlers.go over internal/ticketbutler/client.go: what a caller is told of a failed
-- fetch.
use ticketbutler_proxy.Common.{
  ℕ, suc, ◌+◌, ◌≡◌, ◌⊎◌, ap, ◌∙◌, true, Option, none, some, [], arith, inl, inr,
}
use ticketbutler_proxy.Float.{Float}
use ticketbutler_proxy.Text.{Text, codes, text_eq, CaseTable}
use ticketbutler_proxy.Errors.{Bytes, upstream, Result, ok, err, limit_reader, as_upstream}
use ticketbutler_proxy.Ticketbutler.Client.{
  Client, World, Response, Fetched, retries_of, fetch_once, fetch_from, fetch_orders,
}
use ticketbutler_proxy.Ticketbutler.Client.Retry.{
  AllFail, Answered, IsFinal, fetch_once-Answered, rounds_then, fetch_orders-gives_up,
}
use ticketbutler_proxy.Snapshot.Refresher.{State}
use ticketbutler_proxy.Httpapi.Auth.{allows}
use ticketbutler_proxy.Httpapi.Reply.{write_error}
use ticketbutler_proxy.Httpapi.Server.{
  Server, Moment, handle_refresh, require_token, post_route, handle,
}
use ticketbutler_proxy.Httpapi.Server.Failures.{request_to, refused_refresh}

-- The answer of the upstream in the error of a failure.
unfoldable blamed : {A : Type 0} → Result A → Option (ℕ × Bytes)
blamed (ok a) = none
blamed (err e) = as_upstream e

module _ {F : Type 0} (w : World F) (c : Client) where
  blamed-from_zero :
      (n status : ℕ) (body : Bytes)
      → fetch_once w c n ≡ err (upstream status body)
      → blamed (fetch_from w c 0 n).0 ≡ some (status, body)
  unfolding fetch_from as_upstream blamed
  blamed-from_zero n status body h = ground (arith, h)

  blamed-fetch_orders :
      (k left : ℕ) (resp : Response)
      → c.file ≡ []
      → retries_of c.attempts ≡ k + left
      → AllFail w c k 1
      → Answered w c (suc k) resp
      → IsFinal resp.status ⊎ (left ≡ 0)
      → blamed (fetch_orders w c).0 ≡ some (resp.status, limit_reader 512 resp.body)
  unfolding blamed as_upstream
  blamed-fetch_orders k left resp from_api e h a (inl final) =
      ap (λ r. blamed r.0) (fetch_orders-gives_up w c from_api k left resp e h a final)
  blamed-fetch_orders k left resp from_api e h a (inr last) =
      ap (λ r. blamed r.0) (rounds_then w c from_api k left e h)
      ∙ rw last (blamed-from_zero (suc k) resp.status _ (fetch_once-Answered w c (suc k) resp a))

module _ {F S : Type 0} ⦃float : Float F⦄ ⦃case : CaseTable⦄ (srv : Server F S) (at : Moment F)
    (st : State F S) where
  blamed_refresh :
      (fetch : Result (Fetched F)) (answer : ℕ × Bytes)
      → at.fetch ≡ fetch
      → blamed fetch ≡ some answer
      → handle_refresh srv at st ≡ (
        write_error [] 502 (codes "ticketbutler rejected the request; check TICKETBUTLER_TOKEN"),
        st,
      )
  unfolding blamed
  blamed_refresh (ok result) answer h k = absurd (ground (arith, k))
  blamed_refresh (err e) answer h k = refused_refresh srv at st e answer h k

  -- Where the first `k` attempts of a refresh fail transiently, and the next is answered with a status other
  -- than 200 that ends the fetch, since it is below 500 or one of 520, 522, 523 and 524, or since no
  -- attempt is left: an authorised POST of `/v1/refresh` is told with 502 that the request was rejected
  -- and to check the token, whichever the status was, and the cache and the store stay as they were.
  pub refresh_blames_token :
      (w : World F) (c : Client) (k left : ℕ) (resp : Response) (authorization x_api_key : Text)
      → at.fetch ≡ (fetch_orders w c).0
      → c.file ≡ []
      → retries_of c.attempts ≡ k + left
      → AllFail w c k 1
      → Answered w c (suc k) resp
      → IsFinal resp.status ⊎ (left ≡ 0)
      → allows srv.sha256 srv.digests
          (request_to (codes "/v1/refresh") (codes "POST") authorization x_api_key)
        ≡ true
      → handle srv at (request_to (codes "/v1/refresh") (codes "POST") authorization x_api_key) st
        ≡ (
          write_error [] 502 (codes "ticketbutler rejected the request; check TICKETBUTLER_TOKEN"),
          st,
        )
  unfolding handle post_route require_token text_eq
  refresh_blames_token w c k left resp authorization x_api_key fetched from_api e h a ends allowed =
      rw allowed (
        blamed_refresh (fetch_orders w c).0 _ fetched
          (blamed-fetch_orders w c k left resp from_api e h a ends))
