-- ===== src/Tests/Setup.antt =====
-- The configuration, the scopes and the redirect at concrete inputs.
use sap_orders_api.Prelude.{◌≡◌, refl, ◌↔◌, true, false, some, [], ◌∷◌, str_eq, if◌then◌else◌}
use sap_orders_api.Prelude.Int.{pos}
use sap_orders_api.Handler.Params.{atoi, number, digits_value}
use sap_orders_api.Config.{
  Config, Environment, loaded, rejected, load, parse_bool, or_reject, reject_if, contains_text,
  contains_codes, has_prefix, config_of, entra, build_authenticator,
}
use sap_orders_api.Auth.{UserClaims, has_scope, role_orders_reader, scope_orders_read}
use sap_orders_api.Auth.Token.{authenticator_of, new_authenticator}
use sap_orders_api.Auth.Scopes.{Grants, has_scope-Grants}
use sap_orders_api.Auth.Security.{https_redirect}

-- production, with a certificate and the ids of Entra
abbrev pub production : Environment
production key =
    if str_eq key "ENV"
    then "production"
    else if str_eq key "DATABASE_URL"
    then "postgres://db/app?sslmode=require"
    else if str_eq key "TLS_CERT_FILE"
    then "/tls/cert.pem"
    else if str_eq key "TLS_KEY_FILE"
    then "/tls/key.pem"
    else if str_eq key "AZURE_TENANT_ID"
    then "tenant"
    else if str_eq key "AZURE_CLIENT_ID"
    then "client"
    else ""

abbrev pub set_up : Config
set_up = config_of production false (pos 100) (pos 60) (pos 1048576) false false

pub loads : load production ≡ loaded set_up
unfolding load parse_bool or_reject reject_if atoi number digits_value contains_text contains_codes
    has_prefix
loads = refl

pub built :
    build_authenticator (λ issuer. true) set_up ≡ some (entra (authenticator_of "tenant" "client"))
unfolding build_authenticator new_authenticator
built = refl

-- without a certificate Load refuses
abbrev bare : Environment
bare key = if str_eq key "TLS_KEY_FILE" then "" else production key

refuses :
    load bare
    ≡ rejected
        "TLS_CERT_FILE and TLS_KEY_FILE are required in production unless TLS is terminated at the edge"
unfolding load parse_bool or_reject reject_if atoi number digits_value contains_text contains_codes
    has_prefix
refuses = refl

abbrev reader : UserClaims
reader = record {
  subject = "ana";
  email = "ana@example.com";
  roles = role_orders_reader ∷ [];
  scopes = "profile" ∷ [];
}

has_scope-Grants_example :
    (has_scope reader scope_orders_read ≡ true) ↔ Grants reader scope_orders_read
has_scope-Grants_example = has_scope-Grants reader scope_orders_read

redirects :
    https_redirect true (record {
      over_tls = false;
      forwarded_proto = "http";
      host = "api.example.com";
      request_uri = "/api/v1/orders?page=2";
    })
    ≡ some "https://api.example.com/api/v1/orders?page=2"
unfolding https_redirect
redirects = refl
