-- ===== src/Auth/Token.antt =====
-- internal/auth/authenticator.go: the Authorization header and the access token.
use Prim.Native.Char.{code}
use sap_orders_api.Prelude.{
  ℕ, Bool, true, false, ◌&&◌, ◌||◌, not, Option, none, some, List, [], ◌∷◌, String, str_eq, ◌==◌,
  leb, ◌+◌, if◌then◌else◌, ◌<+>◌,
}
use sap_orders_api.Domain.Dates.{codes}
use sap_orders_api.Auth.{UserClaims}

-- `strings.SplitN(header, " ", 2)`: the text before the first space and, if there is one, after it
unfoldable pub split_space : String → String × Option String
split_space String.[] = ("", none)
split_space (String.◌∷◌ c s) =
    let rest = split_space s in if code c == 32 then ("", some s) else (String.◌∷◌ c rest.0, rest.1)

-- Folding of the letters A to Z. strings.EqualFold also folds the sign U+212A, which "Bearer" has
-- not, so that the two agree against that word.
abbrev lower : ℕ → ℕ
lower c = if leb 65 c && leb c 90 then c + 32 else c

unfoldable pub same_codes : List ℕ → List ℕ → Bool
same_codes [] [] = true
same_codes [] (d ∷ ds) = false
same_codes (c ∷ cs) [] = false
same_codes (c ∷ cs) (d ∷ ds) = (lower c == lower d) && same_codes cs ds

unfoldable pub equal_fold : String → String → Bool
unfolding same_codes
equal_fold s t = same_codes (codes s) (codes t)

-- A token, or an error by its text.
pub data Extracted : Type 0 where
  bearer : String → Extracted
  no_bearer : String → Extracted

unfoldable pub bearer_of : String × Option String → Extracted
unfolding equal_fold
bearer_of (scheme, none) = no_bearer "invalid authorization header"
bearer_of (scheme, some token) =
    if not (equal_fold scheme "Bearer") || str_eq token ""
    then no_bearer "invalid authorization header"
    else bearer token

unfoldable pub extract_bearer_token : String → Extracted
unfolding split_space bearer_of
extract_bearer_token header =
    if str_eq header ""
    then no_bearer "missing authorization header"
    else bearer_of (split_space header)

unfoldable pub first_non_empty : List String → String
first_non_empty [] = ""
first_non_empty (value ∷ values) =
    let rest = first_non_empty values in if str_eq value "" then rest else value

-- unicode.IsSpace
abbrev is_space : ℕ → Bool
is_space c =
    (leb 9 c && leb c 13)
    || (c == 32)
    || (c == 133)
    || (c == 160)
    || (c == 5760)
    || (leb 8192 c && leb c 8202)
    || (c == 8232)
    || (c == 8233)
    || (c == 8239)
    || (c == 8287)
    || (c == 12288)

abbrev cons_word : String → List String → List String
cons_word word words = if str_eq word "" then words else word ∷ words

-- the text up to the first space, and the words after it
unfoldable pub split_words : String → String × List String
split_words String.[] = ("", [])
split_words (String.◌∷◌ c s) =
    let rest = split_words s in
    if is_space (code c) then ("", cons_word rest.0 rest.1) else (String.◌∷◌ c rest.0, rest.1)

-- parseScopes: strings.Fields, which gives no word for a text of spaces alone
unfoldable pub parse_scopes : String → List String
unfolding split_words
parse_scopes scope = let words = split_words scope in cons_word words.0 words.1

-- accessTokenPayload
pub record Payload : Type 0 where
  pub subject : String
  pub scope : String
  pub roles : List String
  pub email : String
  pub preferred_username : String
  pub upn : String

-- The struct Authenticator; its key set is the address that the keys are fetched from.
pub record Authenticator : Type 0 where
  pub issuer : String
  pub audience : String
  pub key_set : String

abbrev pub authenticator_of : String → String → Authenticator
authenticator_of tenant_id audience = record {
  issuer = "https://login.microsoftonline.com/" <+> tenant_id <+> "/v2.0";
  audience = audience;
  key_set = "https://login.microsoftonline.com/" <+> tenant_id <+> "/discovery/v2.0/keys";
}

-- `provider` tells whether oidc.NewProvider, third-party code, finds an issuer.
unfoldable pub new_authenticator : (String → Bool) → String → String → Option Authenticator
new_authenticator provider tenant_id audience =
    if str_eq audience ""
    then none
    else if provider (authenticator_of tenant_id audience).issuer
    then some (authenticator_of tenant_id audience)
    else none

-- The third-party checks of a token: its signature by the keys of an address, with the decoding of
-- its payload, and its registered claims: the issuer, the audience and the expiry, which is required.
pub record Verifier : Type 0 where
  pub verify_signature : String → String → Option Payload
  pub validate : String → String → Payload → Bool

abbrev pub validate_registered_claims : Verifier → Authenticator → Payload → Bool
validate_registered_claims v a p = v.validate a.issuer a.audience p

unfoldable pub email_of : Payload → String
unfolding first_non_empty
email_of p = first_non_empty (p.email ∷ p.preferred_username ∷ p.upn ∷ p.subject ∷ [])

unfoldable pub claims_of : Verifier → Authenticator → Option Payload → Option UserClaims
unfolding parse_scopes email_of
claims_of v a none = none
claims_of v a (some p) =
    if not (validate_registered_claims v a p)
    then none
    else if str_eq (email_of p) ""
    then none
    else some (record {
      subject = p.subject;
      email = email_of p;
      roles = p.roles;
      scopes = parse_scopes p.scope;
    })

unfoldable pub verify_access_token : Verifier → Authenticator → String → Option UserClaims
unfolding claims_of
verify_access_token v a token = claims_of v a (v.verify_signature a.key_set token)

-- What Middleware makes of a request: the claims of its context, or the text of the answer 401.
pub data Identity : Type 0 where
  known : UserClaims → Identity
  unknown : String → Identity

abbrev pub of_claims : Option UserClaims → Identity
of_claims none = unknown "invalid or expired access token"
of_claims (some claims) = known claims

unfoldable pub of_token : Verifier → Authenticator → Extracted → Identity
unfolding verify_access_token
of_token v a (no_bearer message) = unknown message
of_token v a (bearer token) = of_claims (verify_access_token v a token)

unfoldable pub authenticate : Verifier → Authenticator → String → Identity
unfolding extract_bearer_token verify_access_token of_token
authenticate v a header = of_token v a (extract_bearer_token header)
