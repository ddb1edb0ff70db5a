-- ===== src/Config.antt =====
-- internal/config/config.go: reading and checking the configuration. An error holds what its text
-- names. `time.ParseDuration` is a parameter, `none` for its error.
pub mod Values
pub mod Checks
pub mod Tests
use ticketbutler_proxy.Common.{
  ℕ, ◌*◌, Bool, true, false, ◌&&◌, ◌||◌, Option, none, some, List, [], ◌∷◌, ◌++◌, ltb,
  if◌then◌else◌,
}
use ticketbutler_proxy.Int.{ℤ, pos, ltb_ℤ}
use ticketbutler_proxy.Text.{Text, codes, text_eq, byte_length, trim_right, CaseTable}
use ticketbutler_proxy.Config.Values.{
  ConfigError, not_positive, bad_duration, bad_number, too_small, invalid, Loaded, ok, err, ◌>>=◌,
  split_list, parse_merch_patterns, atoi, parse_int_list,
}

pub record Config : Type 0 where
  pub port : Text
  pub base_url : Text
  pub event_uuid : Text
  pub token : Text
  pub file : Text
  pub upstream_timeout : ℤ
  pub upstream_attempts : ℤ
  pub api_tokens : List Text
  pub bucket : Text
  pub object : Text
  pub stale_after : ℤ
  pub sponsor_ticket_type_pks : List ℤ
  pub merch_name_patterns : List Text

-- `os.Getenv`, which is empty for a variable that is not set.
abbrev pub Environment : Type 0
Environment = Text → Text

unfoldable pub env : Environment → Text → Text → Text
env getenv key def = if text_eq (getenv key) [] then def else getenv key

-- The loop over the tokens.
unfoldable pub any_short : List Text → Bool
any_short [] = false
any_short (t ∷ tokens) = ltb (byte_length t) 16 || any_short tokens

abbrev pub is_empty : List Text → Bool
is_empty [] = true
is_empty (t ∷ ts) = false

unfoldable pub complaint : Bool → Text → List Text
complaint failed text = if failed then text ∷ [] else []

-- The errors that `validate` joins.
unfoldable pub complaints : Config → List Text
complaints c =
    complaint (text_eq c.event_uuid []) (codes "TICKETBUTLER_EVENT_UUID is required")
    ++ (complaint (text_eq c.token [] && text_eq c.file [])
          (codes "either TICKETBUTLER_TOKEN or TICKETBUTLER_FILE is required")
        ++ (complaint (is_empty c.api_tokens) (
              codes
                "API_TOKENS is required: the service would otherwise serve attendee data unauthenticated")
            ++ (complaint (any_short c.api_tokens)
                  (codes "every API_TOKENS entry must be at least 16 characters")
                ++ complaint (text_eq c.bucket [] && text_eq c.object [])
                    (codes "SNAPSHOT_OBJECT must be set when SNAPSHOT_BUCKET is"))))

abbrev pub accept : Config → List Text → Loaded Config
accept c [] = ok c
accept c (text ∷ texts) = err (invalid (text ∷ texts))

unfoldable pub validate : Config → Loaded Config
validate c = accept c (complaints c)

unfoldable pub uses_file : Config → Bool
uses_file c = if text_eq c.file [] then false else true

unfoldable pub orders_url : Config → Text
orders_url c = c.base_url ++ (codes "/api/v3/events/" ++ (c.event_uuid ++ codes "/orders/"))

module _ (getenv : Environment) where
  -- The fields that need no check of their own, and those that `Load` has parsed.
  unfoldable pub config_of : ⦃case : CaseTable⦄ → ℤ → ℤ → List ℤ → ℤ → Config
  config_of upstream_timeout stale_after pks upstream_attempts = record {
    port = env getenv (codes "PORT") (codes "8080");
    base_url =
        trim_right
          (env getenv (codes "TICKETBUTLER_BASE_URL")
            (codes "https://cloudnativedenmark.ticketbutler.io"))
          b'/';
    event_uuid = getenv (codes "TICKETBUTLER_EVENT_UUID");
    token = getenv (codes "TICKETBUTLER_TOKEN");
    file = getenv (codes "TICKETBUTLER_FILE");
    upstream_timeout = upstream_timeout;
    upstream_attempts = upstream_attempts;
    api_tokens = split_list (getenv (codes "API_TOKENS"));
    bucket = getenv (codes "SNAPSHOT_BUCKET");
    object = env getenv (codes "SNAPSHOT_OBJECT") (codes "snapshot.json.gz");
    stale_after = stale_after;
    sponsor_ticket_type_pks = pks;
    merch_name_patterns = parse_merch_patterns (getenv (codes "MERCH_NAME_PATTERNS"));
  }

module _ (getenv : Environment) (parse_duration : Text → Option ℤ) where
  unfoldable pub duration : Text → ℤ → Loaded ℤ
  duration key def =
      if text_eq (getenv key) [] then ok def else elim (parse_duration (getenv key)) [
        | none ↦ err (bad_duration key)
        | some d ↦ if ltb_ℤ (pos 0) d then ok d else err (not_positive key)
      ]

  unfoldable pub positive_int : Text → ℤ → Loaded ℤ
  positive_int key def = if text_eq (getenv key) [] then ok def else elim (atoi (getenv key)) [
    | none ↦ err (bad_number key (getenv key))
    | some n ↦ if ltb_ℤ n (pos 1) then err (too_small key n) else ok n
  ]

  unfoldable pub load : ⦃case : CaseTable⦄ → Loaded Config
  load = do
    upstream_timeout ← duration (codes "UPSTREAM_TIMEOUT") (pos (600 * 1000000000))
    stale_after ← duration (codes "STALE_AFTER") (pos (5400 * 1000000000))
    pks ←
        parse_int_list (codes "SPONSOR_TICKET_TYPE_PKS") (getenv (codes "SPONSOR_TICKET_TYPE_PKS"))
    upstream_attempts ← positive_int (codes "UPSTREAM_ATTEMPTS") (pos 3)
    validate (config_of getenv upstream_timeout stale_after pks upstream_attempts)
