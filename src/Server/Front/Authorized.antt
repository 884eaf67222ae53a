-- ===== src/Server/Front/Authorized.antt =====
-- Which requests to the server of cmd/server/main.go may change the tables.
use sap_orders_api.Prelude.{
  ◌≡◌, refl, sym, ap, ◌∙◌, ◌⊎◌, inl, inr, true, false, ◌||◌, Option, none, some, String, str_eq,
  Bool-cases,
}
use sap_orders_api.Auth.{UserClaims, dev_claims, scope_orders_write, has_scope, require_scope}
use sap_orders_api.Auth.Token.{Identity, known, unknown, Verifier}
use sap_orders_api.Auth.Verified.{Verified, authenticate-Verified}
use sap_orders_api.Config.{AuthMiddleware, dev, entra}
use sap_orders_api.Auth.Security.{https_redirect, not_redirected}
use sap_orders_api.Store.Monad.{World}
use sap_orders_api.Handler.Response.{Response}
use sap_orders_api.Handler.Params.{Codec, Request, Answer}
use sap_orders_api.Server.{
  Route, list_orders, get_order, create_order, update_order, add_item, update_item, sync_item,
  cancel_sync, get_latest_status, get_status, list_logs, pattern, required_scope, handle, gate,
  scoped, serve,
}
use sap_orders_api.Server.Access.{
  ReadsOnly, gate-ReadsOnly, list-ReadsOnly, get-ReadsOnly, get_latest_status-ReadsOnly,
  get_status-ReadsOnly, list_logs-ReadsOnly,
}
use sap_orders_api.Server.Front.{
  Setup, Incoming, Endpoint, health_live, health_ready, openapi_yaml, swagger, api, tls_enabled,
  identify, limited, serve_api, dispatch, redirect_or, front,
}

-- A route that writes: it wants the scope for writing, and its method is not GET.
abbrev pub IsWriting : Route → Type 0
IsWriting route =
    (required_scope route ≡ scope_orders_write) × (str_eq (pattern route).0 "GET" ≡ false)

-- The user is known to have the scope for writing.
abbrev pub MayWrite : Identity → Type 0
MayWrite identity =
    (claims : UserClaims) × (identity ≡ known claims) × (has_scope claims scope_orders_write ≡ true)

-- What the claims of a request rest on: a verified token, or the bypass of development.
abbrev pub Vouched : Verifier → AuthMiddleware → String → UserClaims → Type 0
Vouched v (dev email) header claims = dev_claims email ≡ claims
Vouched v (entra a) header claims = Verified v a header claims

vouch :
    (v : Verifier) (m : AuthMiddleware) (header : String) (claims : UserClaims)
    → identify v m header ≡ known claims
    → Vouched v m header claims
unfolding identify
vouch v (dev email) header claims h = cc
vouch v (entra a) header claims h = authenticate-Verified v a header claims h

-- The request may change the tables.
pub record Authorized (s : Setup) (i : Incoming) : Type 0 where
  pub route : Route
  pub routed : i.endpoint ≡ some (api route)
  pub writing : IsWriting route
  pub within_rate : i.over_rate ≡ none
  pub may_write : MayWrite (identify s.verifier s.authenticator i.authorization)
  pub vouched : Vouched s.verifier s.authenticator i.authorization may_write.0
  pub encrypted :
      (s.config.tls_redirect || tls_enabled s.config) ≡ true
      → (i.origin.over_tls ≡ true) ⊎ (i.origin.forwarded_proto ≡ "https")

module _ (codec : Codec) (rfc_function : String) (r : Request) where
  reads-or-writes :
      (claims : Option UserClaims) (route : Route)
      → ReadsOnly (handle codec rfc_function claims route r) ⊎ IsWriting route
  unfolding handle pattern required_scope
  reads-or-writes claims list_orders = inl (list-ReadsOnly codec r)
  reads-or-writes claims get_order = inl (get-ReadsOnly codec r)
  reads-or-writes claims create_order = inr (refl, refl)
  reads-or-writes claims update_order = inr (refl, refl)
  reads-or-writes claims add_item = inr (refl, refl)
  reads-or-writes claims update_item = inr (refl, refl)
  reads-or-writes claims sync_item = inr (refl, refl)
  reads-or-writes claims cancel_sync = inr (refl, refl)
  reads-or-writes claims get_latest_status = inl (get_latest_status-ReadsOnly codec r)
  reads-or-writes claims get_status = inl (get_status-ReadsOnly codec r)
  reads-or-writes claims list_logs = inl (list_logs-ReadsOnly codec r)

  gate-writes :
      (claims : UserClaims) (scope : String) (k : Answer)
      → ReadsOnly (gate codec rfc_function (require_scope scope (some claims)) k)
        ⊎ (has_scope claims scope ≡ true)
  unfolding require_scope
  gate-writes claims scope k = elim (Bool-cases (has_scope claims scope)) [
    | inl e ↦ inr e
    | inr e ↦ inl (rw e (record { same = λ w. refl }))
  ]

  serve-writes :
      (identity : Identity) (route : Route)
      → ReadsOnly (serve codec rfc_function identity route r)
        ⊎ (IsWriting route × MayWrite identity)
  unfolding serve scoped
  serve-writes (unknown what) route = inl (record { same = λ w. refl })
  serve-writes (known claims) route = elim (reads-or-writes (some claims) route) [
    | inl reads ↦ inl (gate-ReadsOnly codec rfc_function _ _ reads)
    | inr writes ↦
        elim (gate-writes claims (required_scope route)
          (handle codec rfc_function (some claims) route r)) [
            | inl refused ↦ inl refused
            | inr may ↦ inr (writes, (claims, refl, ap (has_scope claims) (sym writes.0) ∙ may))
          ]
  ]

module _ (s : Setup) (i : Incoming) (w : World) where
  api-writes :
      (route : Route) (over : Option Response)
      → ((serve_api s over i route w).1.db ≡ w.db)
        ⊎ ((over ≡ none)
            × IsWriting route
            × MayWrite (identify s.verifier s.authenticator i.authorization))
  unfolding serve_api
  api-writes route (some refusal) = inl refl
  api-writes route none =
      elim (serve-writes s.codec s.config.sap_rfc_function (limited s i.request)
        (identify s.verifier s.authenticator i.authorization) route) [
          | inl reads ↦ inl (reads.same w)
          | inr (writes, may) ↦ inr (refl, writes, may)
        ]

  dispatch-writes :
      (e : Option Endpoint)
      → ((dispatch s i e w).1.db ≡ w.db)
        ⊎ ((route : Route) × (e ≡ some (api route))
            × (i.over_rate ≡ none)
            × IsWriting route
            × MayWrite (identify s.verifier s.authenticator i.authorization))
  unfolding dispatch
  dispatch-writes none = inl refl
  dispatch-writes (some health_live) = inl refl
  dispatch-writes (some health_ready) = inl refl
  dispatch-writes (some openapi_yaml) = inl refl
  dispatch-writes (some swagger) = inl refl
  dispatch-writes (some (api route)) = elim (api-writes route i.over_rate) [
    | inl same ↦ inl same
    | inr (rate, writes, may) ↦ inr (route, refl, rate, writes, may)
  ]

  redirect-writes :
      (target : Option String)
      → ((redirect_or target (dispatch s i i.endpoint) w).1.db ≡ w.db)
        ⊎ ((target ≡ none)
            × ((route : Route) × (i.endpoint ≡ some (api route))
                × (i.over_rate ≡ none)
                × IsWriting route
                × MayWrite (identify s.verifier s.authenticator i.authorization)))
  redirect-writes (some target) = inl refl
  redirect-writes none = elim (dispatch-writes i.endpoint) [
    | inl same ↦ inl same
    | inr h ↦ inr (refl, h)
  ]

  -- A request changes a table only if the router leads it to a route that is not a GET, its sender is
  -- within the rate limit, its user is known, with the scope orders.write by a grant or a role, from a
  -- bearer token that is signed by a key of the tenant and valid for its issuer and the audience (or
  -- from the bypass of development), and, where the server redirects to HTTPS, it came over TLS or has
  -- the header X-Forwarded-Proto with the value https: of all other requests, to whatever endpoint,
  -- the tables are left as they were.
  pub front-Authorized : ((front s i w).1.db ≡ w.db) ⊎ Authorized s i
  unfolding front
  front-Authorized =
      elim (redirect-writes
        (https_redirect (s.config.tls_redirect || tls_enabled s.config) i.origin)) [
          | inl same ↦ inl same
          | inr (encrypted, (route, routed, rate, writing, may)) ↦ inr (record {
            route = route;
            routed = routed;
            writing = writing;
            within_rate = rate;
            may_write = may;
            vouched = vouch s.verifier s.authenticator i.authorization may.0 may.1;
            encrypted =
                not_redirected (s.config.tls_redirect || tls_enabled s.config) i.origin encrypted;
          })
        ]
