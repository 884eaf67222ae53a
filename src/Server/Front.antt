-- ===== src/Server/Front.antt =====
-- The router of cmd/server/main.go: what a request passes before its handler runs. The request's id,
-- its address, the log and the recovery of a panic are left out.
pub mod Authorized
use sap_orders_api.Prelude.{Bool, not, ◌&&◌, ◌||◌, Option, none, some, List, String, str_eq}
use sap_orders_api.Domain.Errors.{Error}
use sap_orders_api.Auth.{dev_claims}
use sap_orders_api.Auth.Token.{Verifier, Identity, known, authenticate}
use sap_orders_api.Auth.Security.{Origin, security_headers, https_redirect}
use sap_orders_api.Config.{Config, AuthMiddleware, dev, entra}
use sap_orders_api.Store.Monad.{World}
use sap_orders_api.Handler.Response.{Response, redirection}
use sap_orders_api.Handler.Params.{Codec, Request, Answer}
use sap_orders_api.Handler.BodyLimit.{max_body_bytes}
use sap_orders_api.Handler.Health.{live, ready}
use sap_orders_api.Handler.Docs.{swagger_ui, open_api}
use sap_orders_api.Server.{Route, serve}

-- What the router leads to.
pub data Endpoint : Type 0 where
  health_live health_ready openapi_yaml swagger : Endpoint
  api : Route → Endpoint

-- What the server was started with. The checks of a token and the decoding of a request are
-- third-party code, and the specification is an embedded file.
pub record Setup : Type 0 where
  pub config : Config
  pub authenticator : AuthMiddleware
  pub verifier : Verifier
  pub codec : Codec
  pub spec : String

-- A request as it comes in. Third-party code gives: the endpoint that chi finds for its method and
-- path, with chi's own answer if there is none; the answer of httprate if its sender is over the
-- limit; and what a ping of the database answers.
pub record Incoming : Type 0 where
  pub path : String
  pub origin : Origin
  pub authorization : String
  pub endpoint : Option Endpoint
  pub unrouted : Response
  pub over_rate : Option Response
  pub ping : Option Error
  pub request : Request

-- `cfg.TLSCertFile != "" && cfg.TLSKeyFile != ""`
abbrev pub tls_enabled : Config → Bool
tls_enabled c = not (str_eq c.tls_cert_file "") && not (str_eq c.tls_key_file "")

-- the Middleware of the two authenticators
unfoldable pub identify : Verifier → AuthMiddleware → String → Identity
identify verifier (dev email) header = known (dev_claims email)
identify verifier (entra a) header = authenticate verifier a header

abbrev pub limited : Setup → Request → Request
limited s r = record r { body = max_body_bytes s.config.max_body_bytes r.body }

-- the routes under /api/v1: the rate limit, the limit of the body, the authentication
unfoldable pub serve_api : Setup → Option Response → Incoming → Route → Answer
unfolding identify
serve_api s (some refusal) i route w = (refusal, w)
serve_api s none i route w =
    serve s.codec s.config.sap_rfc_function (identify s.verifier s.authenticator i.authorization)
      route (limited s i.request) w

unfoldable pub dispatch : Setup → Incoming → Option Endpoint → Answer
unfolding serve_api live ready swagger_ui open_api
dispatch s i none w = (i.unrouted, w)
dispatch s i (some health_live) w = (live, w)
dispatch s i (some health_ready) w = (ready i.ping, w)
dispatch s i (some openapi_yaml) w = (open_api s.spec, w)
dispatch s i (some swagger) w = (swagger_ui, w)
dispatch s i (some (api route)) w = serve_api s i.over_rate i route w

abbrev pub redirect_or : Option String → Answer → Answer
redirect_or (some target) k w = (record { status = 308; body = redirection target }, w)
redirect_or none k w = k w

-- The headers are set before all else.
pub record Sent : Type 0 where
  pub headers : List (String × String)
  pub response : Response

abbrev pub with_headers : List (String × String) → Response × World → Sent × World
with_headers headers (r, w) = (record { headers = headers; response = r }, w)

unfoldable pub front : Setup → Incoming → World → Sent × World
unfolding dispatch security_headers https_redirect
front s i w = with_headers (security_headers i.path) (
    redirect_or (https_redirect (s.config.tls_redirect || tls_enabled s.config) i.origin)
      (dispatch s i i.endpoint) w)
