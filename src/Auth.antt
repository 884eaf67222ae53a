-- ===== src/Auth.antt =====
-- internal/auth: the claims of a user, the scopes that they hold, the bearer token and the two
-- authenticators. Signature checks and the validation of registered claims are third-party code.
pub mod Token
pub mod Scopes
pub mod Bearer
pub mod Verified
pub mod Security
use sap_orders_api.Prelude.{
  Bool, true, false, ◌||◌, Option, List, [], ◌∷◌, String, str_eq, any, if◌then◌else◌,
}

abbrev pub scope_orders_read : String
scope_orders_read = "orders.read"

abbrev pub scope_orders_write : String
scope_orders_write = "orders.write"

abbrev pub role_orders_reader : String
role_orders_reader = "Orders.Reader"

abbrev pub role_orders_writer : String
role_orders_writer = "Orders.Writer"

abbrev pub role_orders_admin : String
role_orders_admin = "Orders.Admin"

-- `roleScopes[role]`
abbrev pub role_scopes : String → List String
role_scopes role =
    if str_eq role role_orders_reader
    then scope_orders_read ∷ []
    else if str_eq role role_orders_writer
    then scope_orders_read ∷ scope_orders_write ∷ []
    else if str_eq role role_orders_admin
    then scope_orders_read ∷ scope_orders_write ∷ []
    else []

pub record UserClaims : Type 0 where
  pub subject : String
  pub email : String
  pub roles : List String
  pub scopes : List String

abbrev pub contains : List String → String → Bool
contains xs s = any (λ x. str_eq x s) xs

unfoldable pub has_scope : UserClaims → String → Bool
has_scope c scope =
    contains c.scopes scope || any (λ role. contains (role_scopes role) scope) c.roles

-- UserEmailFromContext
abbrev pub user_email : Option UserClaims → String
user_email Option.none = ""
user_email (Option.some claims) = claims.email

-- RequireScope: what is answered instead of the handler's answer
pub data Refusal : Type 0 where
  granted unauthorized forbidden : Refusal

unfoldable pub require_scope : String → Option UserClaims → Refusal
unfolding has_scope
require_scope scope Option.none = unauthorized
require_scope scope (Option.some claims) = if has_scope claims scope then granted else forbidden

-- the claims that DevAuthenticator gives
unfoldable pub dev_claims : String → UserClaims
dev_claims email = record {
  subject = email;
  email = email;
  scopes = scope_orders_read ∷ scope_orders_write ∷ [];
  roles = role_orders_admin ∷ [];
}
