-- ===== src/Httpapi/Auth.antt =====
-- internal/httpapi/auth.go: bearer tokens. SHA-256 is a parameter; the comparison of two digests of
-- one length is that of their bytes; a text's bytes stand for it as its code points do.
pub mod Laws
use ticketbutler_proxy.Common.{
  Bool, true, false, ◌&&◌, ◌||◌, not, List, [], ◌∷◌, ◌++◌, map, if◌then◌else◌,
}
use ticketbutler_proxy.Text.{Text, codes, text_eq, trim_space, cut, equal_fold}
use ticketbutler_proxy.Errors.{Bytes}

-- What the service reads of a request: the path as the router has cleaned it, and the headers by
-- `Header.Get`, which is empty where a header is missing.
pub record Request : Type 0 where
  pub method : Text
  pub path : Text
  pub authorization : Text
  pub x_api_key : Text

-- A list of one token, or of none where it is empty.
unfoldable pub token_list : Text → List Text
token_list token = if text_eq token [] then [] else token ∷ []

-- The credential in an Authorization header.
unfoldable pub bearer_tokens : Text → List Text
unfolding token_list
bearer_tokens header =
    if text_eq header []
    then []
    else let (scheme, value, found) = cut header b' ' in
      if found && equal_fold scheme (codes "Bearer") then token_list (trim_space value) else []

unfoldable pub presented_tokens : Request → List Text
unfolding bearer_tokens
presented_tokens r = bearer_tokens r.authorization ++ token_list (trim_space r.x_api_key)

-- The inner loop: `matched |= subtle.ConstantTimeCompare(…)` over all digests.
unfoldable pub match_digests : Bytes → List Bytes → Bool → Bool
match_digests got [] matched = matched
match_digests got (want ∷ digests) matched = match_digests got digests (matched || text_eq got want)

module _ (sha256 : Text → Bytes) where
  -- `newAuthenticator`: the digests of the configured tokens.
  unfoldable pub new_authenticator : List Text → List Bytes
  new_authenticator tokens = map sha256 tokens

  unfoldable pub match_tokens : List Text → List Bytes → Bool → Bool
  match_tokens [] digests matched = matched
  match_tokens (presented ∷ tokens) digests matched =
      match_tokens tokens digests (match_digests (sha256 presented) digests matched)

  unfoldable pub allows : List Bytes → Request → Bool
  unfolding match_tokens match_digests
  allows digests r = match_tokens (presented_tokens r) digests false
