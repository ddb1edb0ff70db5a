-- ===== src/Config/Checks.antt =====
-- internal/config/config.go: what `Load` and `validate` accept.
use ticketbutler_proxy.Common.{
  ◌≤◌, ◌≡◌, ◌≢◌, refl, ◌⊎◌, Bool, true, false, Option, List, [], ◌∷◌, ◌++◌, All, arith,
}
use ticketbutler_proxy.Int.{ℤ, pos, ◌≤ℤ◌, ◌<ℤ◌}
use ticketbutler_proxy.Text.{Text, codes, text_eq, byte_length, CaseTable}
use ticketbutler_proxy.Text.Order.{text_eq_iff}
use ticketbutler_proxy.Config.Values.{Loaded, ok, err, ◌>>=◌, parse_int_list}
use ticketbutler_proxy.Config.{
  Config, Environment, env, any_short, complaint, complaints, accept, validate, duration,
  positive_int, config_of, load,
}

-- What the rest of the service relies on.
pub record IsChecked (c : Config) : Type 0 where
  pub event : c.event_uuid ≢ []
  pub source : (c.token ≢ []) ⊎ (c.file ≢ [])
  pub tokens : c.api_tokens ≢ []
  pub long_tokens : All (λ t. 16 ≤ byte_length t) c.api_tokens
  pub upstream_timeout : pos 0 <ℤ c.upstream_timeout
  pub stale_after : pos 0 <ℤ c.stale_after
  pub upstream_attempts : pos 1 ≤ℤ c.upstream_attempts
  pub object : c.object ≢ []

complaint_none :
    (b : Bool) (text : Text) (rest : List Text)
    → complaint b text ++ rest ≡ []
    → (b ≡ false) × (rest ≡ [])
unfolding complaint
complaint_none true text rest h = cc
complaint_none false text rest h = (refl, h)

long_of_not_short :
    (tokens : List Text) → any_short tokens ≡ false → All (λ t. 16 ≤ byte_length t) tokens
unfolding any_short
long_of_not_short [] h = tt
long_of_not_short (t ∷ tokens) h = (ground arith, long_of_not_short tokens (ground arith))

accept_inv : (c d : Config) (texts : List Text) → accept c texts ≡ ok d → (c ≡ d) × (texts ≡ [])
accept_inv c d [] h = (cc, refl)
accept_inv c d (text ∷ texts) h = cc

-- The four settings that can fail, and what follows them.
chain_inv :
    (m₁ m₂ : Loaded ℤ) (m₃ : Loaded (List ℤ)) (m₄ : Loaded ℤ)
    (k : ℤ → ℤ → List ℤ → ℤ → Loaded Config) {c : Config}
    → (m₁ >>= λ a. m₂ >>= λ b. m₃ >>= λ p. m₄ >>= λ n. k a b p n) ≡ ok c
    → (a : ℤ) × (b : ℤ) × (p : List ℤ) × (n : ℤ) × (m₁ ≡ ok a)
      × (m₂ ≡ ok b)
      × (m₃ ≡ ok p)
      × (m₄ ≡ ok n)
      × (k a b p n ≡ ok c)
chain_inv (ok a) (ok b) (ok p) (ok n) k h = (a, b, p, n, refl, refl, refl, refl, h)
chain_inv (ok a) (ok b) (ok p) (err e) k h = cc
chain_inv (ok a) (ok b) (err e) m₄ k h = cc
chain_inv (ok a) (err e) m₃ m₄ k h = cc
chain_inv (err e) m₂ m₃ m₄ k h = cc

module _ (getenv : Environment) (parse_duration : Text → Option ℤ) where
  duration_pos :
      (key : Text) (def d : ℤ)
      → pos 0 <ℤ def
      → duration getenv parse_duration key def ≡ ok d
      → pos 0 <ℤ d
  unfolding duration
  duration_pos key def d h e = ground arith

  positive_int_pos :
      (key : Text) (def n : ℤ)
      → pos 1 ≤ℤ def
      → positive_int getenv parse_duration key def ≡ ok n
      → pos 1 ≤ℤ n
  unfolding positive_int
  positive_int_pos key def n h e = ground arith

  env-ne-nil : (key def : Text) → def ≢ [] → env getenv key def ≢ []
  unfolding env
  env-ne-nil key def h = ground (arith, text_eq_iff (getenv key) [])

-- The checks of `validate` alone.
record IsValidated (c : Config) : Type 0 where
  event : c.event_uuid ≢ []
  source : (c.token ≢ []) ⊎ (c.file ≢ [])
  tokens : c.api_tokens ≢ []
  long_tokens : All (λ t. 16 ≤ byte_length t) c.api_tokens

validated : (c : Config) → complaints c ≡ [] → IsValidated c
unfolding complaints
validated c h =
    let (event, h₁) = complaint_none _ _ _ h in
    let (source, h₂) = complaint_none _ _ _ h₁ in
    let (tokens, h₃) = complaint_none _ _ _ h₂ in
    let (short, h₄) = complaint_none _ _ _ h₃ in
    record {
      event = ground (arith, text_eq_iff c.event_uuid []);
      source = ground (arith, text_eq_iff c.token [], text_eq_iff c.file []);
      tokens = ground arith;
      long_tokens = long_of_not_short c.api_tokens short;
    }

-- What `Load` has read where it gives a configuration.
pub load_inv :
    ⦃case : CaseTable⦄ (getenv : Environment) (parse_duration : Text → Option ℤ) (c : Config)
    → load getenv parse_duration ≡ ok c
    → (timeout : ℤ) × (stale : ℤ) × (pks : List ℤ) × (attempts : ℤ) × (duration getenv
          parse_duration
          (codes "UPSTREAM_TIMEOUT")
          (pos 600000000000)
        ≡ ok timeout)
      × (duration getenv parse_duration (codes "STALE_AFTER") (pos 5400000000000) ≡ ok stale)
      × (parse_int_list (codes "SPONSOR_TICKET_TYPE_PKS") (getenv (codes "SPONSOR_TICKET_TYPE_PKS"))
          ≡ ok pks)
      × (positive_int getenv parse_duration (codes "UPSTREAM_ATTEMPTS") (pos 3) ≡ ok attempts)
      × (config_of getenv timeout stale pks attempts ≡ c)
      × (complaints (config_of getenv timeout stale pks attempts) ≡ [])
unfolding load validate
load_inv getenv parse_duration c h =
    let (timeout, stale, pks, attempts, timeout_ok, stale_ok, pks_ok, attempts_ok, last) =
      chain_inv (duration getenv parse_duration (codes "UPSTREAM_TIMEOUT") (pos 600000000000))
        (duration getenv parse_duration (codes "STALE_AFTER") (pos 5400000000000))
        (parse_int_list (codes "SPONSOR_TICKET_TYPE_PKS")
          (getenv (codes "SPONSOR_TICKET_TYPE_PKS")))
        (positive_int getenv parse_duration (codes "UPSTREAM_ATTEMPTS") (pos 3))
        (λ a b p n. validate (config_of getenv a b p n)) h in
    let loaded = config_of getenv timeout stale pks attempts in
    let (same, silent) = accept_inv loaded c (complaints loaded) last in
    (timeout, stale, pks, attempts, timeout_ok, stale_ok, pks_ok, attempts_ok, same, silent)

-- A configuration that is loaded has what the service needs: an event, a token or a file, at least
-- one API token and each of at least 16 bytes, positive limits of time, at least one attempt, and the
-- name of an object.
pub load-IsChecked :
    ⦃case : CaseTable⦄ (getenv : Environment) (parse_duration : Text → Option ℤ) (c : Config)
    → load getenv parse_duration ≡ ok c
    → IsChecked c
unfolding config_of
load-IsChecked getenv parse_duration c h =
    let (timeout, stale, pks, attempts, timeout_ok, stale_ok, _, attempts_ok, same, silent) =
      load_inv getenv parse_duration c h in
    let v = validated (config_of getenv timeout stale pks attempts) silent in
    rw (← same) (record {
      event = v.event;
      source = v.source;
      tokens = v.tokens;
      long_tokens = v.long_tokens;
      upstream_timeout = duration_pos getenv parse_duration _ _ timeout (omega arith) timeout_ok;
      stale_after = duration_pos getenv parse_duration _ _ stale (omega arith) stale_ok;
      upstream_attempts =
          positive_int_pos getenv parse_duration _ _ attempts (omega arith) attempts_ok;
      object = env-ne-nil getenv parse_duration _ _ (λ e. cc);
    })

-- The last check of `validate` does not ask for the name of the object where a bucket is set: without
-- that name a configuration is accepted or refused as it is with it.
pub complaints-object :
    (c : Config) → c.bucket ≢ [] → complaints (record c { object = [] }) ≡ complaints c
unfolding complaints
complaints-object c h =
    let set : text_eq c.bucket [] ≡ false = ground (arith, text_eq_iff c.bucket []) in rw set
