-- ===== src/Httpapi/Auth/Laws.antt =====
-- internal/httpapi/auth.go: which requests `allows` lets through.
use ticketbutler_proxy.Common.{
  ◌≡◌, refl, sym, ap, ◌∙◌, ◌↔◌, ◌⊎◌, inl, inr, true, false, List, [], ◌∷◌, map, Bool-cases,
}
use ticketbutler_proxy.Text.{Text, text_eq}
use ticketbutler_proxy.Text.Order.{text_eq_iff}
use ticketbutler_proxy.Errors.{Bytes}
use ticketbutler_proxy.Httpapi.Auth.{
  Request, presented_tokens, new_authenticator, match_digests, match_tokens, allows,
}

-- `x` occurs in a list.
abbrev pub In : Text → List Text → Type 0
In x [] = ⊥
In x (y ∷ ys) = (x ≡ y) ⊎ In x ys

module _ (sha256 : Text → Bytes) where
  -- Some presented token has the digest of a configured one.
  abbrev pub Shares : List Text → List Text → Type 0
  Shares presented tokens =
      (p : Text) × (t : Text) × In p presented × In t tokens × (sha256 p ≡ sha256 t)

  match_digests-true : (got : Bytes) (digests : List Bytes) → match_digests got digests true ≡ true
  unfolding match_digests
  match_digests-true got [] = refl
  match_digests-true got (want ∷ digests) = match_digests-true got digests

  match_tokens-true :
      (presented : List Text) (digests : List Bytes)
      → match_tokens sha256 presented digests true ≡ true
  unfolding match_tokens
  match_tokens-true [] digests = refl
  match_tokens-true (p ∷ ps) digests = rw match_digests-true (match_tokens-true ps digests)

  digest_found :
      (got : Bytes) (tokens : List Text)
      → match_digests got (map sha256 tokens) false ≡ true
      → (t : Text) × In t tokens × (got ≡ sha256 t)
  unfolding match_digests
  digest_found got [] h = cc
  digest_found got (t ∷ tokens) h = elim (Bool-cases (text_eq got (sha256 t))) [
    | inl same ↦ (t, inl refl, (text_eq_iff got (sha256 t)).0 same)
    | inr other ↦
        let (u, listed, e) = digest_found got tokens (rw (other, match_digests) at h) in
        (u, inr listed, e)
  ]

  found_digest :
      (t : Text) (tokens : List Text) {got : Bytes}
      → In t tokens
      → got ≡ sha256 t
      → match_digests got (map sha256 tokens) false ≡ true
  unfolding match_digests
  found_digest t [] h e = absurd h
  found_digest t (u ∷ tokens) {got} (inl same) e =
      rw ((text_eq_iff got (sha256 u)).1 (e ∙ ap sha256 same), match_digests)
        (match_digests-true got (map sha256 tokens))
  found_digest t (u ∷ tokens) {got} (inr listed) e = elim (Bool-cases (text_eq got (sha256 u))) [
    | inl same ↦ rw (same, match_digests) (match_digests-true got (map sha256 tokens))
    | inr other ↦ rw (other, match_digests) (found_digest t tokens listed e)
  ]

  token_found :
      (presented tokens : List Text)
      → match_tokens sha256 presented (map sha256 tokens) false ≡ true
      → Shares presented tokens
  unfolding match_tokens
  token_found [] tokens h = cc
  token_found (p ∷ ps) tokens h =
      elim (Bool-cases (match_digests (sha256 p) (map sha256 tokens) false)) [
        | inl matched ↦
            let (t, listed, e) = digest_found (sha256 p) tokens matched in
            (p, t, inl refl, listed, e)
        | inr other ↦
            let (q, t, given, listed, e) = token_found ps tokens (rw other at h) in
            (q, t, inr given, listed, e)
      ]

  found_token :
      (p t : Text) (presented tokens : List Text)
      → In p presented
      → In t tokens
      → sha256 p ≡ sha256 t
      → match_tokens sha256 presented (map sha256 tokens) false ≡ true
  unfolding match_tokens
  found_token p t [] tokens h k e = absurd h
  found_token p t (q ∷ ps) tokens (inl same) k e =
      rw (found_digest t tokens k (ap sha256 (sym same) ∙ e))
        (match_tokens-true ps (map sha256 tokens))
  found_token p t (q ∷ ps) tokens (inr given) k e =
      elim (Bool-cases (match_digests (sha256 q) (map sha256 tokens) false)) [
        | inl matched ↦ rw matched (match_tokens-true ps (map sha256 tokens))
        | inr other ↦ rw other (found_token p t ps tokens given k e)
      ]

-- A request is let through exactly when one of the tokens that it presents, in either header, is one
-- of the configured tokens, where no presented token collides with another configured one.
pub allows_iff :
    (sha256 : Text → Bytes) (tokens : List Text) (r : Request)
    → ((p t : Text) → In p (presented_tokens r) → In t tokens → sha256 p ≡ sha256 t → p ≡ t)
    → (allows sha256 (new_authenticator sha256 tokens) r ≡ true)
      ↔ ((p : Text) × In p (presented_tokens r) × In p tokens)
unfolding allows new_authenticator
allows_iff sha256 tokens r no_collision = (
  λ h.
      let (p, t, given, listed, e) = token_found sha256 (presented_tokens r) tokens h in
      (p, given, rw (no_collision p t given listed e) listed),
  λ (p, given, listed). found_token sha256 p p (presented_tokens r) tokens given listed refl,
)
