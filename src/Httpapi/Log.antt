-- ===== src/Httpapi/Log.antt =====
-- internal/httpapi/server.go: `logRequests` around the routes.
use ticketbutler_proxy.Common.{ℕ, ◌≡◌}
use ticketbutler_proxy.Int.{ℤ, ◌-ℤ◌, saturate, quot}
use ticketbutler_proxy.Float.{Float}
use ticketbutler_proxy.Text.{Text, CaseTable}
use ticketbutler_proxy.Snapshot.Refresher.{State}
use ticketbutler_proxy.Httpapi.Auth.{Request, allows}
use ticketbutler_proxy.Httpapi.Reply.{Reply}
use ticketbutler_proxy.Httpapi.Server.{Server, Moment, require_token, get_route, post_route, handle}

-- The line that a request leaves in the log. Its status is what the recorder was given.
pub record Entry : Type 0 where
  pub method : Text
  pub path : Text
  pub status : ℕ
  pub duration_ms : ℤ

-- The clock at the start of a request and at its end.
pub record Span : Type 0 where
  pub started : ℤ
  pub ended : ℤ

unfoldable pub log_requests :
    {F S : Type 0}
    → (Request → State F S → Reply F × State F S)
    → Span
    → Request
    → State F S
    → Entry × Reply F × State F S
log_requests next span r st =
    let (reply, st') = next r st in
    (
      record {
        method = r.method;
        path = r.path;
        status = reply.status;
        duration_ms = quot (saturate (span.ended -ℤ span.started)) 1000000;
      },
      reply,
      st',
    )

module _ {F S : Type 0} ⦃float : Float F⦄ ⦃case : CaseTable⦄ (srv : Server F S)
    (at : Moment F) where
  -- `Handler`.
  unfoldable pub handler : Span → Request → State F S → Entry × Reply F × State F S
  unfolding log_requests
  handler = log_requests (handle srv at)

  -- Two requests by the same method on the same path, of which both present a valid token or neither
  -- does, leave the same line in the log, get the same reply and leave the same state: nothing else
  -- of what they present is shown or kept.
  pub handler_hides_tokens :
      (span : Span) (r r' : Request) (st : State F S)
      → r.method ≡ r'.method
      → r.path ≡ r'.path
      → allows srv.sha256 srv.digests r ≡ allows srv.sha256 srv.digests r'
      → handler span r st ≡ handler span r' st
  unfolding handler handle require_token get_route post_route
  handler_hides_tokens span r r' st same_method same_path same_access =
      rw same_access (rw (same_method, same_path))
