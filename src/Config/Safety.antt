-- ===== src/Config/Safety.antt =====
-- What a configuration that Load accepts cannot do.
use sap_orders_api.Prelude.{
  ◌≡◌, refl, sym, ap, subst, Bool, true, false, ◌&&◌, ◌||◌, not, Option, none, some, String, str_eq,
  arith, Bool-cases, inl, inr, eq_iff,
}
use sap_orders_api.Config.{
  Config, Loaded, loaded, rejected, Environment, get_env, or_reject, reject_if, in_production,
  database_url_of, terminated_at_edge, contains_text, lacks_identity, load, AuthMiddleware, dev,
  entra, build_authenticator, as_middleware,
}
use sap_orders_api.Auth.Token.{authenticator_of, new_authenticator}

-- A step of Load that was passed.
passed :
    {A : Type 0} (what : String) (o : Option A) (k : A → Loaded) (c : Config)
    → or_reject what o k ≡ loaded c
    → (a : A) × (k a ≡ loaded c)
unfolding or_reject
passed what none k c e = absurd (no e)
  where
    no : (rejected what ≡ loaded c) → ⊥
    no e = cc
passed what (some a) k c e = (a, e)

not_rejected :
    (b : Bool) (what : String) (k : Loaded) (c : Config)
    → reject_if b what k ≡ loaded c
    → (b ≡ false) × (k ≡ loaded c)
unfolding reject_if
not_rejected true what k c e = absurd (no e)
  where
    no : (rejected what ≡ loaded c) → ⊥
    no e = cc
not_rejected false what k c e = (refl, e)

-- What holds of the environment env and the configuration c that Load makes of it.
pub record IsSafe (env : Environment) (c : Config) : Type 0 where
  pub encrypted :
      (in_production env && contains_text (database_url_of env) "sslmode=disable") ≡ false
  pub has_tls :
      (in_production env
        && not (terminated_at_edge env)
        && (str_eq (env "TLS_CERT_FILE") "" || str_eq (env "TLS_KEY_FILE") ""))
      ≡ false
  pub identity : lacks_identity c ≡ false
  pub env_is : c.env ≡ get_env env "ENV" "development"
  pub url_is : c.database_url ≡ database_url_of env
  pub cert_is : c.tls_cert_file ≡ env "TLS_CERT_FILE"
  pub key_is : c.tls_key_file ≡ env "TLS_KEY_FILE"

the_config : Config → Loaded → Config
the_config c (loaded d) = d
the_config c (rejected what) = c

-- Outside of Railway, a configuration for production that Load accepts does not connect to the
-- database with sslmode=disable, and has a certificate and a key unless TLS ends at the edge; a
-- configuration without the ids of Entra is for development with the bypass.
pub load-IsSafe : (env : Environment) (c : Config) → load env ≡ loaded c → IsSafe env c
unfolding load the_config
load-IsSafe env c e =
    let (sap, e1) = passed _ _ _ c e in
    let (requests, e2) = passed _ _ _ c e1 in
    let (window, e3) = passed _ _ _ c e2 in
    let (body, e4) = passed _ _ _ c e3 in
    let (bypass, e5) = passed _ _ _ c e4 in
    let (ssl, e6) = not_rejected _ _ _ c e5 in
    let (redirect, e7) = passed _ _ _ c e6 in
    let (tls, e8) = not_rejected _ _ _ c e7 in
    let (who, e9) = not_rejected _ _ _ c e8 in
    let is = ap (the_config c) e9 in
    record {
      encrypted = ssl;
      has_tls = tls;
      identity = subst (λ d. lacks_identity d ≡ false) is who;
      env_is = sym (ap (λ d. d.env) is);
      url_is = sym (ap (λ d. d.database_url) is);
      cert_is = sym (ap (λ d. d.tls_cert_file) is);
      key_is = sym (ap (λ d. d.tls_key_file) is);
    }

-- What an authenticator needs of the configuration: the bypass needs ENV=development with its flag,
-- Entra has the issuer, the keys and the audience of a tenant and an audience that are not empty.
abbrev pub Guarded : Config → AuthMiddleware → Type 0
Guarded c (dev email) = (c.env ≡ "development") × (c.dev_bypass_auth ≡ true)
Guarded c (entra a) =
    (a ≡ authenticator_of c.azure_tenant_id c.azure_audience)
    × (str_eq c.azure_tenant_id "" ≡ false)
    × (str_eq c.azure_audience "" ≡ false)

has_tenant : (t k d b : Bool) → (t || k) && not (d && b) ≡ false → (d && b) ≡ false → t ≡ false
has_tenant t k d b h e = ground arith

both : (a b : Bool) → (a && b) ≡ true → (a ≡ true) × (b ≡ true)
both a b h = ground arith

some_inj : {A : Type 0} {a b : A} → some a ≡ some b → a ≡ b
some_inj h = cc

-- With a configuration that Load accepts, the authenticator that lets everybody in is built only for
-- ENV=development with DEV_BYPASS_AUTH, and the one of Entra only with a tenant and an audience, for
-- which it has the issuer, the audience and the keys.
pub build_authenticator-Guarded :
    (env : Environment) (c : Config) (provider : String → Bool) (a : AuthMiddleware)
    → load env ≡ loaded c
    → build_authenticator provider c ≡ some a
    → Guarded c a
unfolding build_authenticator new_authenticator
build_authenticator-Guarded env c provider a e h =
    elim (Bool-cases (str_eq c.env "development" && c.dev_bypass_auth)) [
      | inl d ↦
          let (name, flag) = both _ _ d in
          subst (Guarded c) (some_inj (rw d at h)) ((eq_iff c.env "development").0 name, flag)
      | inr d ↦ of_entra d (rw d at h)
    ]
  where
    nothing : (none ≡ some a) → ⊥
    nothing k = cc

    tenant :
        (str_eq c.env "development" && c.dev_bypass_auth) ≡ false
        → str_eq c.azure_tenant_id "" ≡ false
    tenant d =
        has_tenant (str_eq c.azure_tenant_id "") (str_eq c.azure_client_id "")
          (str_eq c.env "development") c.dev_bypass_auth (load-IsSafe env c e).identity d

    of_entra :
        (str_eq c.env "development" && c.dev_bypass_auth) ≡ false
        → as_middleware (new_authenticator provider c.azure_tenant_id c.azure_audience) ≡ some a
        → Guarded c a
    of_entra d k = elim (Bool-cases (str_eq c.azure_audience "")) [
      | inl e ↦ absurd (nothing (rw e at k))
      | inr e ↦
          elim (Bool-cases
            (provider (authenticator_of c.azure_tenant_id c.azure_audience).issuer)) [
              | inl p ↦ subst (Guarded c) (some_inj (rw p at (rw e at k))) (refl, tenant d, e)
              | inr p ↦ absurd (nothing (rw p at (rw e at k)))
            ]
    ]
