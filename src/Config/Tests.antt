-- ===== src/Config/Tests.antt =====
-- Runs of `Load` on small environments.
use ticketbutler_proxy.Common.{◌≡◌, refl, Option, none, List, [], ◌∷◌, if◌then◌else◌}
use ticketbutler_proxy.Int.{ℤ, pos, negsuc}
use ticketbutler_proxy.Text.{Text, codes, text_eq, text_functions}
use ticketbutler_proxy.Text.Ascii.{ascii_case}
use ticketbutler_proxy.Config.Values.{ok, parse_int_list, parse_merch_patterns, atoi}
use ticketbutler_proxy.Config.{
  Config, Environment, env, any_short, complaint, complaints, validate, duration, positive_int,
  config_of, load,
}
use ticketbutler_proxy.Config.Checks.{IsChecked, load-IsChecked, complaints-object}

abbrev environment : List (Text × Text) → Environment
environment [] key = []
environment ((k, v) ∷ vars) key = if text_eq k key then v else environment vars key

abbrev pub getenv : Environment
getenv = environment (
    (codes "TICKETBUTLER_EVENT_UUID", codes "e")
    ∷ (codes "TICKETBUTLER_TOKEN", codes "t")
    ∷ (codes "API_TOKENS", codes " 0123456789abcdef, ,0123456789abcdefg")
    ∷ (codes "SNAPSHOT_BUCKET", codes "b")
    ∷ (codes "SPONSOR_TICKET_TYPE_PKS", codes "12, -7")
    ∷ [])

abbrev pub no_duration : Text → Option ℤ
no_duration s = none

running : Unit {0}
unfolding load duration positive_int parse_int_list parse_merch_patterns atoi config_of validate
    complaints complaint any_short env text_functions
running = tt

abbrev pub loaded : Config
loaded = record {
  port = codes "8080";
  base_url = codes "https://cloudnativedenmark.ticketbutler.io";
  event_uuid = codes "e";
  token = codes "t";
  file = [];
  upstream_timeout = pos 600000000000;
  upstream_attempts = pos 3;
  api_tokens = codes "0123456789abcdef" ∷ codes "0123456789abcdefg" ∷ [];
  bucket = codes "b";
  object = codes "snapshot.json.gz";
  stale_after = pos 5400000000000;
  sponsor_ticket_type_pks = pos 12 ∷ negsuc 6 ∷ [];
  merch_name_patterns = codes "hoodie" ∷ [];
}

pub load_run : load getenv no_duration ≡ ok loaded
unfolding running
load_run = refl

load-IsChecked_example : IsChecked loaded
load-IsChecked_example = load-IsChecked getenv no_duration loaded load_run

complaints-object_example : complaints (record loaded { object = [] }) ≡ complaints loaded
complaints-object_example = complaints-object loaded (λ e. cc)
