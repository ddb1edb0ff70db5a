-- ===== src/Main/Access.antt =====
-- cmd/tbproxy/main.go: who is let in by a service that has started.
use ticketbutler_proxy.Common.{
  ◌<◌, ◌≤◌, ◌≡◌, false, Option, List, [], ◌∷◌, arith, inl, inr, All, Bool-cases,
}
use ticketbutler_proxy.Int.{ℤ}
use ticketbutler_proxy.Float.{Float}
use ticketbutler_proxy.Text.{Text, byte_length, CaseTable}
use ticketbutler_proxy.Errors.{Bytes, Result, ok, err}
use ticketbutler_proxy.Store.Memory.{Memory}
use ticketbutler_proxy.Store.Gcs.{Cloud}
use ticketbutler_proxy.Snapshot.Snapshot.{Codec}
use ticketbutler_proxy.Snapshot.Refresher.{State}
use ticketbutler_proxy.Httpapi.Auth.{Request, presented_tokens, new_authenticator, allows}
use ticketbutler_proxy.Httpapi.Auth.Laws.{In, allows_iff}
use ticketbutler_proxy.Httpapi.Server.{Moment, handle}
use ticketbutler_proxy.Httpapi.Server.Routes.{IsPublic, handle-IsPublic}
use ticketbutler_proxy.Config.{Config, Environment, load}
use ticketbutler_proxy.Config.Values.{Loaded}
use ticketbutler_proxy.Config.Checks.{IsChecked, load-IsChecked}
use ticketbutler_proxy.Main.{Backend, Process, built, process_of, build_with, build, server_of}

process_of_inv :
    (cfg : Config) (backend : Result Backend) (p : Process)
    → process_of cfg backend ≡ built p
    → cfg ≡ p.config
unfolding process_of
process_of_inv cfg (ok backend) p h = cc
process_of_inv cfg (err e) p h = cc

Loaded_of_built :
    {C : Type 0} (cloud : Cloud C) (loaded : Loaded Config) (p : Process)
    → build_with cloud loaded ≡ built p
    → loaded ≡ Loaded.ok p.config
unfolding build_with
Loaded_of_built cloud (Loaded.ok cfg) p h = cc (process_of_inv cfg _ p h)
Loaded_of_built cloud (Loaded.err e) p h = cc

-- A service starts only with a configuration that is loaded, and so checked.
build-IsChecked :
    {C : Type 0} ⦃case : CaseTable⦄ (cloud : Cloud C) (getenv : Environment)
    (parse_duration : Text → Option ℤ) (p : Process)
    → build cloud getenv parse_duration ≡ built p
    → IsChecked p.config
unfolding build
build-IsChecked cloud getenv parse_duration p h =
    load-IsChecked getenv parse_duration p.config
      (Loaded_of_built cloud (load getenv parse_duration) p h)

-- No token is both shorter than 16 bytes and configured.
not_configured :
    (p : Text) (tokens : List Text)
    → In p tokens
    → All (λ t. 16 ≤ byte_length t) tokens
    → 16 ≤ byte_length p
not_configured p [] h k = absurd h
not_configured p (t ∷ tokens) (inl e) (long, rest) = rw e long
not_configured p (t ∷ tokens) (inr h) (long, rest) = not_configured p tokens h rest

short_of_In :
    (p : Text) (tokens : List Text)
    → In p tokens
    → All (λ t. byte_length t < 16) tokens
    → byte_length p < 16
short_of_In p [] h k = absurd h
short_of_In p (t ∷ tokens) (inl e) (short, rest) = rw e short
short_of_In p (t ∷ tokens) (inr h) (short, rest) = short_of_In p tokens h rest

-- Whatever the environment that a service has started in, a request whose tokens are all shorter than
-- 16 bytes, or that has none, is shown nothing of the orders and changes nothing in the store, where
-- SHA-256 does not collide on these tokens and the configured ones.
pub build-IsPublic :
    {C F : Type 0} ⦃float : Float F⦄ ⦃case : CaseTable⦄ (cloud : Cloud C) (codec : Codec F)
    (sha256 : Text → Bytes) (getenv : Environment) (parse_duration : Text → Option ℤ) (p : Process)
    (at : Moment F) (r : Request) (st : State F (Memory × C))
    → build cloud getenv parse_duration ≡ built p
    → All (λ t. byte_length t < 16) (presented_tokens r)
    → ((t u : Text)
        → In t (presented_tokens r)
        → In u p.config.api_tokens
        → sha256 t ≡ sha256 u
        → t ≡ u)
    → IsPublic (handle (server_of cloud codec sha256 p) at r st).0.body
      × ((handle (server_of cloud codec sha256 p) at r st).1.stored ≡ st.stored)
build-IsPublic cloud codec sha256 getenv parse_duration p at r st started short no_collision =
    handle-IsPublic (server_of cloud codec sha256 p) at r st refused
  where
    refused : allows sha256 (new_authenticator sha256 p.config.api_tokens) r ≡ false
    refused = elim (Bool-cases (allows sha256 (new_authenticator sha256 p.config.api_tokens) r)) [
      | inr denied ↦ denied
      | inl passed ↦
          let (t, given, listed) =
            (allows_iff sha256 p.config.api_tokens r no_collision).0 passed in
          let long =
            not_configured t _ listed
              (build-IsChecked cloud getenv parse_duration p started).long_tokens in
          let brief = short_of_In t _ given short in absurd (omega (arith, long, brief))
    ]
