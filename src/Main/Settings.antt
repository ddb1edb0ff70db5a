-- ===== src/Main/Settings.antt =====
-- cmd/tbproxy/main.go: the settings of `verify` and those of the service.
use ticketbutler_proxy.Common.{◌≡◌, refl, ap, ◌∙◌, Option, none, some, List, [], ◌∷◌}
use ticketbutler_proxy.Int.{ℤ}
use ticketbutler_proxy.Text.{Text, codes, CaseTable}
use ticketbutler_proxy.Config.{Config, Environment, config_of, load}
use ticketbutler_proxy.Config.Values.{
  bad_number, Loaded, ok, err, ◌>>=◌, split_list, atoi, parse_ints, parse_int_list,
}
use ticketbutler_proxy.Config.Checks.{load_inv}
use ticketbutler_proxy.Main.{options_of, options_with, verify_options}

parse_ints-key :
    (key other : Text) (parts : List Text) (pks : List ℤ)
    → parse_ints key parts ≡ ok pks
    → parse_ints other parts ≡ ok pks
unfolding parse_ints
parse_ints-key key other [] pks h = h
parse_ints-key key other (part ∷ parts) pks h =
    go (atoi part) (parse_ints key parts) (parse_ints other parts) h
      (λ out k. parse_ints-key key other parts out k)
  where
    go :
        (n : Option ℤ) (rest rest' : Loaded (List ℤ))
        → (elim n [ none ↦ err (bad_number key part) | some n ↦ rest >>= λ out. ok (n ∷ out) ])
          ≡ ok pks
        → ((out : List ℤ) → rest ≡ ok out → rest' ≡ ok out)
        → (elim n [ none ↦ err (bad_number other part) | some n ↦ rest' >>= λ out. ok (n ∷ out) ])
          ≡ ok pks
    go none rest rest' h same = cc
    go (some n) (ok out) rest' h same = rw (same out refl) h
    go (some n) (err e) rest' h same = cc

parse_int_list-key :
    (key other s : Text) (pks : List ℤ)
    → parse_int_list key s ≡ ok pks
    → parse_int_list other s ≡ ok pks
unfolding parse_int_list
parse_int_list-key key other s pks h = parse_ints-key key other (split_list s) pks h

verify_options-config_of :
    ⦃case : CaseTable⦄ (getenv : Environment) (timeout stale : ℤ) (pks : List ℤ) (attempts : ℤ)
    → parse_int_list (codes "-sponsor-pks") (getenv (codes "SPONSOR_TICKET_TYPE_PKS")) ≡ ok pks
    → verify_options
        (getenv (codes "MERCH_NAME_PATTERNS"))
        (getenv (codes "SPONSOR_TICKET_TYPE_PKS"))
      ≡ ok (options_of (config_of getenv timeout stale pks attempts))
unfolding verify_options options_of config_of
verify_options-config_of getenv timeout stale pks attempts h =
    ap (options_with (getenv (codes "MERCH_NAME_PATTERNS"))) h

-- `verify` given the texts of the service's two settings of the aggregation reads them as the
-- service does, where the service starts.
pub verify_options-load :
    ⦃case : CaseTable⦄ (getenv : Environment) (parse_duration : Text → Option ℤ) (c : Config)
    → load getenv parse_duration ≡ ok c
    → verify_options
        (getenv (codes "MERCH_NAME_PATTERNS"))
        (getenv (codes "SPONSOR_TICKET_TYPE_PKS"))
      ≡ ok (options_of c)
verify_options-load getenv parse_duration c h =
    let (timeout, stale, pks, attempts, _, _, pks_ok, _, same, _) =
      load_inv getenv parse_duration c h in
    verify_options-config_of getenv timeout stale pks attempts (parse_int_list-key _ _ _ pks pks_ok)
    ∙ ap (λ d. ok (options_of d)) same
