-- ===== src/Main/Tests.antt =====
-- Runs of the commands over a service of one object.
use ticketbutler_proxy.Common.{
  ℕ, ◌≡◌, ◌≤◌, refl, ap, ◌∙◌, true, Option, none, some, List, [], ◌∷◌, length, leb, arith,
}
use ticketbutler_proxy.Int.{pos, saturate, ◌-ℤ◌}
use ticketbutler_proxy.Text.{Text, codes, text_functions, cut, equal_fold, trim_space}
use ticketbutler_proxy.Text.Ascii.{ascii_case}
use ticketbutler_proxy.Float.Milli.{milli, cents, milli-IsFloat}
use ticketbutler_proxy.Errors.{Bytes, ok}
use ticketbutler_proxy.Store.Memory.{new_memory}
use ticketbutler_proxy.Store.Gcs.{Gcs, new_gcs, save}
use ticketbutler_proxy.Ticketbutler.Client.{World, Fetched, fetch_orders, retries_of, read_response}
use ticketbutler_proxy.Ticketbutler.Tests.{answering}
use ticketbutler_proxy.Snapshot.Snapshot.{Snapshot, max_decompressed, encode}
use ticketbutler_proxy.Snapshot.Snapshot
use ticketbutler_proxy.Snapshot.Refresher.{refresh, after_encode, after_save, current}
use ticketbutler_proxy.Store.Gcs.{Object}
use ticketbutler_proxy.Snapshot.Tests.{codec, one_object, one_object-IsCloud, empty_fetch}
use ticketbutler_proxy.Httpapi.Auth.{Request, presented_tokens}
use ticketbutler_proxy.Httpapi.Server.{handle}
use ticketbutler_proxy.Httpapi.Server.Routes.{IsPublic}
use ticketbutler_proxy.Config.Values.{Loaded}
use ticketbutler_proxy.Config.Tests.{getenv, no_duration, loaded, load_run}
use ticketbutler_proxy.Main.{
  in_bucket, Process, built, client_of, options_of, process_of, open_backend, build_with, build,
  store_of, fresh, serve, server_of, refresh_once,
}
use ticketbutler_proxy.Main.Command.{Surroundings, exits, Exit, exit_of, ended_command, run}
use ticketbutler_proxy.Httpapi.Tags.{page}
use ticketbutler_proxy.Main.Command.Pages.{handle-serve_refresh}
use ticketbutler_proxy.Main.Command.ExitCodes.{run-refresh, serve-run_refresh}
use ticketbutler_proxy.Json.Kind.Laws.{ok_inj}
use ticketbutler_proxy.Aggregate.Tests.{payload}
use ticketbutler_proxy.Json.Value.{Json}
use ticketbutler_proxy.Json.Postfix.{print}
use ticketbutler_proxy.Snapshot.Tags.{snapshot_kind, json_codec}
use ticketbutler_proxy.Snapshot.Tags.Restore.{restore_snapshot}
use ticketbutler_proxy.Snapshot.Tags.Tests.{
  seconds, seconds-IsTimeFormat, plain, plain-IsWire, value_of, encoding,
}
use ticketbutler_proxy.Main.Access.{build-IsPublic}

abbrev bucket : Gcs
bucket = record { bucket = codes "b"; object = codes "snapshot.json.gz" }

abbrev process : Process
process = record {
  config = loaded;
  client = client_of loaded;
  backend = in_bucket bucket;
  options = options_of loaded;
}

built_of_loaded : build_with one_object (Loaded.ok loaded) ≡ built process
unfolding build_with process_of open_backend new_gcs text_functions
built_of_loaded = refl

process_built : build one_object getenv no_duration ≡ built process
unfolding build
process_built = ap (build_with one_object) load_run ∙ built_of_loaded

running : Unit {0}
unfolding fetch_orders text_functions retries_of read_response client_of refresh_once refresh
    after_encode after_save save encode ◌-ℤ◌ saturate
running = tt

abbrev world : World ℕ
world = let w = answering (λ n. 200) in record w { decode = λ body. ok payload }

abbrev result : Fetched ℕ
result = record { orders = payload; duration = pos 1 }

fits :
    leb
      (length (
        print
          (value_of ((snapshot_kind seconds).put (Snapshot.build result (pos 5) process.options)))))
      max_decompressed
    ≡ true
unfolding running encoding options_of
fits = refl

abbrev surroundings : Surroundings ℕ (Bytes × Option Object)
surroundings = record {
  getenv = getenv;
  parse_duration = no_duration;
  world = world;
  now = pos 5;
  flags = λ args. exits 2;
  listen = λ p st. (none, st);
}

fits_in :
    (r : Fetched ℕ) (j : Json)
    → (fetch_orders world process.client).0 ≡ ok r
    → (snapshot_kind seconds).put (Snapshot.build r (pos 5) process.options) ≡ ok j
    → length (print j) ≤ max_decompressed
unfolding running
fits_in r j fetched put_j =
    let e : result ≡ r = ok_inj fetched in
    let same : value_of
          ((snapshot_kind seconds).put (Snapshot.build result (pos 5) process.options))
        ≡ j =
      rw e (ap value_of put_j) in
    rw (← same) (ground (arith, fits))

exits_well :
    (ended_command one_object (json_codec seconds plain) surroundings (
      refresh_once one_object
        (json_codec seconds plain)
        (built process)
        world
        (pos 5)
        ([], none))).0.code
    ≡ 0
unfolding running encoding options_of ended_command exit_of
exits_well = refl

abbrev arguments : List Text
arguments = codes "tbproxy" ∷ codes "refresh" ∷ []

run_exits_well :
    (run one_object (json_codec seconds plain) surroundings arguments ([], none)).0.code ≡ 0
run_exits_well =
    ap (λ (out : Exit × (Bytes × Option Object)). out.0.code)
      (run-refresh one_object milli-IsFloat seconds-IsTimeFormat plain-IsWire surroundings
        (codes "tbproxy") [] ([], none) process process_built)
    ∙ exits_well

serve-run_refresh_example :
    (r : Fetched ℕ) × ((fetch_orders world process.client).0 ≡ ok r)
    × ((current (json_codec seconds plain) (store_of one_object process.backend) process.options (
          serve one_object
            (json_codec seconds plain)
            process
            (run one_object (json_codec seconds plain) surroundings arguments ([], none)).1)).0
        ≡ ok (restore_snapshot cents (Snapshot.build r (pos 5) process.options)))
serve-run_refresh_example =
    serve-run_refresh one_object milli-IsFloat seconds-IsTimeFormat plain-IsWire surroundings
      (codes "tbproxy") [] ([], none) process bucket one_object-IsCloud process_built refl fits_in
      run_exits_well

abbrev stranger : Request
stranger = record {
  method = codes "POST";
  path = codes "/v1/refresh";
  authorization = codes "Bearer guess";
  x_api_key = [];
}

abbrev orders_by_key : Request
orders_by_key = record {
  method = codes "GET";
  path = codes "/v1/orders";
  authorization = [];
  x_api_key = codes "0123456789abcdef";
}

handle-serve_refresh_example :
    (r : Fetched ℕ) × ((fetch_orders world process.client).0 ≡ ok r)
    × (page seconds
          (handle
            (server_of one_object (json_codec seconds plain) (λ t. t) process)
            (record { fetch = ok empty_fetch; refreshed_at = pos 5; now = pos 9 })
            orders_by_key
            (serve one_object
              (json_codec seconds plain)
              process
              (run one_object (json_codec seconds plain) surroundings arguments ([], none)).1)).0
        ≡ page seconds
            (handle
              (server_of one_object (json_codec seconds plain) (λ t. t) process)
              (record { fetch = ok empty_fetch; refreshed_at = pos 5; now = pos 9 })
              orders_by_key
              (record {
                cached = some (Snapshot.build r (pos 5) process.options);
                stored = (
                  new_memory,
                  (run one_object (json_codec seconds plain) surroundings arguments ([], none)).1,
                );
              })).0)
handle-serve_refresh_example =
    handle-serve_refresh one_object milli-IsFloat seconds-IsTimeFormat plain-IsWire surroundings
      (λ t. t) (codes "tbproxy") [] ([], none) process bucket
      (record { fetch = ok empty_fetch; refreshed_at = pos 5; now = pos 9 }) orders_by_key
      one_object-IsCloud process_built refl fits_in run_exits_well

build-IsPublic_example :
    IsPublic
      (handle
        (server_of one_object codec (λ t. t) process)
        (record { fetch = ok empty_fetch; refreshed_at = pos 5; now = pos 5 })
        stranger
        (fresh one_object ([], none))).0.body
    × ((handle
          (server_of one_object codec (λ t. t) process)
          (record { fetch = ok empty_fetch; refreshed_at = pos 5; now = pos 5 })
          stranger
          (fresh one_object ([], none))).1.stored
        ≡ (new_memory, ([], none)))
unfolding presented_tokens text_functions cut equal_fold trim_space
build-IsPublic_example =
    build-IsPublic one_object codec (λ t. t) getenv no_duration process
      (record { fetch = ok empty_fetch; refreshed_at = pos 5; now = pos 5 }) stranger
      (fresh one_object ([], none)) process_built (omega arith, tt) (λ t u given listed e. e)
