-- ===== src/Main.antt =====
-- cmd/tbproxy/main.go: how the commands put the parts together. What the package flag reads is an
-- argument here.
pub mod Restart
pub mod Stored
pub mod Command
pub mod Access
pub mod Settings
pub mod Serving
mod Tests
use ticketbutler_proxy.Common.{ℕ, Option, none, some, List, [], ◌∷◌, if◌then◌else◌}
use ticketbutler_proxy.Int.{ℤ, pos}
use ticketbutler_proxy.Float.{Float}
use ticketbutler_proxy.Text.{Text, codes, text_eq, CaseTable}
use ticketbutler_proxy.Errors.{Bytes, Err, Result, ok, err}
use ticketbutler_proxy.Store.{Store}
use ticketbutler_proxy.Store.Memory.{Memory, new_memory, memory_store}
use ticketbutler_proxy.Store.Gcs.{Cloud, Gcs, new_gcs, gcs_store}
use ticketbutler_proxy.Ticketbutler.Client.{Client, World, Fetched, fetch_orders}
use ticketbutler_proxy.Aggregate.Summary.{Summary, Options, summarise}
use ticketbutler_proxy.Aggregate.Sponsors.{Sponsor, sponsors}
use ticketbutler_proxy.Snapshot.Snapshot.{Snapshot, Codec}
use ticketbutler_proxy.Snapshot.Refresher.{State, Refreshed, refresh, warm}
use ticketbutler_proxy.Httpapi.Auth.{new_authenticator}
use ticketbutler_proxy.Httpapi.Server.{Server}
use ticketbutler_proxy.Config.{Config, Environment, load, orders_url}
use ticketbutler_proxy.Config.Values.{ConfigError, Loaded, parse_int_list, parse_merch_patterns}

-- Where a process keeps its snapshot.
pub data Backend : Type 0 where
  in_memory : Backend
  in_bucket : Gcs → Backend

-- What `build` sets up.
pub record Process : Type 0 where
  pub config : Config
  pub client : Client
  pub backend : Backend
  pub options : Options

-- The errors with which a command ends.
pub data Failure : Type 0 where
  bad_config : ConfigError → Failure
  no_backend : Err → Failure
  failed : Err → Failure

pub data Built (A : Type 0) : Type 0 where
  built : A → Built A
  not_built : Failure → Built A

unfoldable pub client_of : Config → Client
client_of cfg = record {
  url = orders_url cfg;
  token = cfg.token;
  file = cfg.file;
  timeout = cfg.upstream_timeout;
  attempts = cfg.upstream_attempts;
}

unfoldable pub options_of : Config → Options
options_of cfg = record {
  merch_name_patterns = cfg.merch_name_patterns;
  sponsor_ticket_type_pks = cfg.sponsor_ticket_type_pks;
}

unfoldable pub process_of : Config → Result Backend → Built Process
unfolding client_of options_of
process_of cfg (err e) = not_built (no_backend e)
process_of cfg (ok backend) =
    built
      (record { config = cfg; client = client_of cfg; backend = backend; options = options_of cfg })

module _ {C : Type 0} (cloud : Cloud C) where
  unfoldable pub open_backend : Text → Text → Result Backend
  open_backend bucket object =
      if text_eq bucket []
      then ok in_memory
      else elim (new_gcs cloud bucket object) [ err e ↦ err e | ok g ↦ ok (in_bucket g) ]

  unfoldable pub build_with : Loaded Config → Built Process
  unfolding process_of open_backend
  build_with (Loaded.err e) = not_built (bad_config e)
  build_with (Loaded.ok cfg) = process_of cfg (open_backend cfg.bucket cfg.object)

  -- `build`, in the environment of the process.
  unfoldable pub build : ⦃case : CaseTable⦄ → Environment → (Text → Option ℤ) → Built Process
  unfolding build_with
  build getenv parse_duration = build_with (load getenv parse_duration)

  -- The store of a process: its own memory, or the service that outlives it.
  abbrev pub store_of : Backend → Store (Memory × C)
  store_of in_memory = record {
    load = λ s. memory_store.load s.0;
    save = λ bytes s. let (saved, memory) = memory_store.save bytes s.0 in (saved, (memory, s.1));
    describe = memory_store.describe;
  }
  store_of (in_bucket g) = record {
    load = λ s. (gcs_store cloud g).load s.1;
    save = λ bytes s. let (saved, c) = (gcs_store cloud g).save bytes s.1 in (saved, (s.0, c));
    describe = (gcs_store cloud g).describe;
  }

  -- A new process: nothing is cached, and its memory is empty.
  abbrev pub fresh : {F : Type 0} → C → State F (Memory × C)
  fresh c = record { cached = none; stored = (new_memory, c) }

  module _ {F : Type 0} ⦃float : Float F⦄ ⦃case : CaseTable⦄ (codec : Codec F) where
    -- `serve` up to its first request.
    unfoldable pub serve : Process → C → State F (Memory × C)
    serve p c = warm codec (store_of p.backend) p.options (fresh c)

    -- The server that `serve` listens with.
    abbrev pub server_of : (Text → Bytes) → Process → Server F (Memory × C)
    server_of sha256 p = record {
      codec = codec;
      store = store_of p.backend;
      options = p.options;
      sha256 = sha256;
      digests = new_authenticator sha256 p.config.api_tokens;
      stale_after = p.config.stale_after;
    }

    abbrev pub ended : Option Err → Option Failure
    ended none = none
    ended (some e) = some (failed e)

    -- `refreshOnce`, in a world and at the time that its refresher reads after the fetch: the error
    -- it ends with, and what it leaves to the service.
    unfoldable pub refresh_once : Built Process → World F → ℤ → C → Option Failure × C
    refresh_once (not_built e) w now c = (some e, c)
    refresh_once (built p) w now c =
        let (r, st) =
          refresh codec (store_of p.backend) p.options (fetch_orders w p.client).0 now (fresh c) in
        (ended r.error, st.stored.1)

-- `verifyOptions`, past its reading of the ticket types.
unfoldable pub options_with : ⦃case : CaseTable⦄ → Text → Loaded (List ℤ) → Loaded Options
options_with merch (Loaded.err e) = Loaded.err e
options_with merch (Loaded.ok pks) =
    Loaded.ok
      (record { merch_name_patterns = parse_merch_patterns merch; sponsor_ticket_type_pks = pks })

-- `verifyOptions`. The error's context is the flag's name.
unfoldable pub verify_options : ⦃case : CaseTable⦄ → Text → Text → Loaded Options
unfolding options_with
verify_options merch sponsor_pks =
    options_with merch (parse_int_list (codes "-sponsor-pks") sponsor_pks)

-- The client of `verify`, whose other fields are zero.
unfoldable pub file_client : Text → Client
file_client path = record { url = []; token = []; file = path; timeout = pos 0; attempts = pos 0 }

-- What `verify` prints.
pub record Verified (F : Type 0) : Type 0 where
  pub summary : Summary F
  pub sponsors : List Sponsor

module _ {F : Type 0} ⦃float : Float F⦄ ⦃case : CaseTable⦄ where
  unfoldable pub verified : Options → Result (Fetched F) → Built (Verified F)
  verified opts (err e) = not_built (failed e)
  verified opts (ok result) =
      built
        (record { summary = summarise result.orders opts; sponsors = sponsors result.orders opts })

  unfoldable pub verify_file : World F → Text → Loaded Options → Built (Verified F)
  unfolding verified
  verify_file w path (Loaded.err e) = not_built (bad_config e)
  verify_file w path (Loaded.ok opts) = verified opts (fetch_orders w (file_client path)).0

  -- `verify`, with the values of its three flags.
  unfoldable pub verify : World F → Environment → Text → Text → Text → Built (Verified F)
  unfolding verify_file verify_options
  verify w getenv file merch sponsor_pks =
      let path = if text_eq file [] then getenv (codes "TICKETBUTLER_FILE") else file in
      if text_eq path []
      then not_built (failed (Err.message (codes "verify needs -file or TICKETBUTLER_FILE")))
      else verify_file w path (verify_options merch sponsor_pks)
