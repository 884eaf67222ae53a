-- ===== src/Auth/Verified.antt =====
-- verifyAccessToken and Middleware of internal/auth/authenticator.go: what the claims of a request
-- rest on.
use sap_orders_api.Prelude.{
  ◌≡◌, refl, sym, ap, ◌∙◌, true, false, Option, none, some, String, str_eq, [], ◌∷◌, Bool-cases,
  inl, inr,
}
use sap_orders_api.Auth.{UserClaims}
use sap_orders_api.Auth.Token.{
  Authenticator, Verifier, Payload, Extracted, bearer, no_bearer, extract_bearer_token,
  first_non_empty, email_of, parse_scopes, claims_of, verify_access_token, known, unknown,
  of_claims, of_token, authenticate,
}
use sap_orders_api.Auth.Bearer.{IsBearer, extract_bearer_token-IsBearer}

-- The claims are those of a token that the header bears, that is signed by a key of the
-- authenticator's tenant, and that is not expired and made by its issuer for its audience.
pub record Verified (v : Verifier) (a : Authenticator) (header : String) (claims : UserClaims)
    : Type 0 where
  pub token : String
  pub payload : Payload
  pub borne : IsBearer header token
  pub signed : v.verify_signature a.key_set token ≡ some payload
  pub valid : v.validate a.issuer a.audience payload ≡ true
  pub named : str_eq claims.email "" ≡ false
  pub same :
      (claims.subject ≡ payload.subject)
      × (claims.roles ≡ payload.roles)
      × (claims.scopes ≡ parse_scopes payload.scope)
      × (claims.email
          ≡ first_non_empty
              (payload.email ∷ payload.preferred_username ∷ payload.upn ∷ payload.subject ∷ []))

module _ (v : Verifier) (a : Authenticator) (header : String) (claims : UserClaims) where
  no_claims : none ≡ some claims → ⊥
  no_claims h = cc

  not_known : {m : String} → unknown m ≡ known claims → ⊥
  not_known h = cc

  some_inj : {c : UserClaims} → some c ≡ some claims → c ≡ claims
  some_inj h = cc

  of_payload :
      (token : String) (p : Payload)
      → IsBearer header token
      → v.verify_signature a.key_set token ≡ some p
      → claims_of v a (some p) ≡ some claims
      → Verified v a header claims
  unfolding claims_of email_of
  of_payload token p borne signed h = elim (Bool-cases (v.validate a.issuer a.audience p)) [
    | inr e ↦ absurd (no_claims (rw e at h))
    | inl e ↦ elim (Bool-cases (str_eq (email_of p) "")) [
      | inl n ↦ absurd (no_claims (rw n at (rw e at h)))
      | inr n ↦
          let is = some_inj (rw n at (rw e at h)) in
          record {
            token = token;
            payload = p;
            borne = borne;
            signed = signed;
            valid = e;
            named = ap (λ c. str_eq c.email "") (sym is) ∙ n;
            same = (
              sym (ap (λ c. c.subject) is),
              sym (ap (λ c. c.roles) is),
              sym (ap (λ c. c.scopes) is),
              sym (ap (λ c. c.email) is),
            );
          }
    ]
  ]

  of_answer :
      (token : String) (o : Option Payload)
      → IsBearer header token
      → v.verify_signature a.key_set token ≡ o
      → of_claims (claims_of v a o) ≡ known claims
      → Verified v a header claims
  unfolding claims_of
  of_answer token none borne signed h = absurd (not_known h)
  of_answer token (some p) borne signed h =
      of_payload token p borne signed (is_known (claims_of v a (some p)) h)
    where
      is_known : (o : Option UserClaims) → of_claims o ≡ known claims → o ≡ some claims
      is_known none h = absurd (not_known h)
      is_known (some c) h = cc

  of_header :
      (e : Extracted)
      → extract_bearer_token header ≡ e
      → of_token v a e ≡ known claims
      → Verified v a header claims
  unfolding verify_access_token of_token
  of_header (no_bearer m) is h = absurd (not_known h)
  of_header (bearer token) is h =
      of_answer token (v.verify_signature a.key_set token)
        ((extract_bearer_token-IsBearer header token).0 is) refl h

  -- A request is known by these claims only if its header bears a token that verifies with them.
  pub authenticate-Verified : authenticate v a header ≡ known claims → Verified v a header claims
  unfolding authenticate
  authenticate-Verified h = of_header (extract_bearer_token header) refl h
