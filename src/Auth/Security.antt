-- ===== src/Auth/Security.antt =====
-- internal/auth/security.go: the headers of every answer, and the redirect to HTTPS.
use Prim.Native.String
use sap_orders_api.Prelude.{
  ◌≡◌, ◌⊎◌, inl, inr, Bool, true, not, ◌&&◌, Option, none, some, List, [], ◌∷◌, String, str_eq,
  eq_iff, if◌then◌else◌, Bool-cases,
}

unfoldable pub content_security_policy : String → String
content_security_policy path =
    if str_eq path "/swagger"
    then "default-src 'none'; script-src 'self' 'unsafe-inline' https://unpkg.com; style-src 'self' 'unsafe-inline' https://unpkg.com; connect-src 'self'; img-src 'self' data:; frame-ancestors 'none'"
    else "default-src 'none'; frame-ancestors 'none'"

-- the headers that SecurityHeaders sets, for the path of the request
unfoldable pub security_headers : String → List (String × String)
unfolding content_security_policy
security_headers path =
    ("X-Content-Type-Options", "nosniff")
    ∷ ("X-Frame-Options", "DENY")
    ∷ ("Referrer-Policy", "no-referrer")
    ∷ ("Permissions-Policy", "geolocation=(), microphone=(), camera=()")
    ∷ ("Content-Security-Policy", content_security_policy path)
    ∷ ("Strict-Transport-Security", "max-age=31536000; includeSubDomains")
    ∷ []

-- What HTTPSRedirect reads of a request.
pub record Origin : Type 0 where
  pub over_tls : Bool
  pub forwarded_proto : String
  pub host : String
  pub request_uri : String

-- the target of the redirect (308), or none where the next handler runs
unfoldable pub https_redirect : Bool → Origin → Option String
https_redirect enabled r =
    if enabled && not r.over_tls && not (str_eq r.forwarded_proto "https")
    then some (String.◌++◌ "https://" (String.◌++◌ r.host r.request_uri))
    else none

-- A request that is not redirected came over TLS or says so by its header, where redirects are on.
pub not_redirected :
    (enabled : Bool) (r : Origin)
    → https_redirect enabled r ≡ none
    → enabled ≡ true
    → (r.over_tls ≡ true) ⊎ (r.forwarded_proto ≡ "https")
unfolding https_redirect
not_redirected enabled r h on = elim (Bool-cases r.over_tls) [
  | inl tls ↦ inl tls
  | inr plain ↦ elim (Bool-cases (str_eq r.forwarded_proto "https")) [
    | inl e ↦ inr ((eq_iff r.forwarded_proto "https").0 e)
    | inr e ↦ absurd (sent (rw e at (rw plain at (rw on at h))))
  ]
]
  where
    sent : {s : String} → some s ≡ none → ⊥
    sent h = cc
