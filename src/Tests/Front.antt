-- ===== src/Tests/Front.antt =====
-- The theorems on the start of the program, on its router, on tokens and on the payload at concrete
-- inputs.
use sap_orders_api.Prelude.{
  ◌≡◌, refl, ap, ◌∙◌, ◌↔◌, ◌⊎◌, ◌≤◌, ◌<◌, true, none, some, [], ◌∷◌, arith, if◌then◌else◌, str_eq,
  ◌&&◌,
}
use sap_orders_api.Domain.Types.{CreateOrderInput}
use sap_orders_api.Store.Pool.{Driver, new_pool}
use sap_orders_api.Handler.Response.{order, respond, write_error}
use sap_orders_api.Service.Orders.{create_order}
use sap_orders_api.Auth.{UserClaims, has_scope, require_scope}
use sap_orders_api.Auth.Token.{
  bearer, extract_bearer_token, known, Verifier, authenticator_of, Authenticator, Payload,
  authenticate, verify_access_token, claims_of,
}
use sap_orders_api.Auth.Bearer.{IsBearer, extract_bearer_token-IsBearer}
use sap_orders_api.Config.{entra}
use sap_orders_api.Server
use sap_orders_api.Server.{serve, scoped, required_scope}
use sap_orders_api.Server.Refused.{serve-clean}
use sap_orders_api.Server.Duplicates.{FailsWith500, create_order-FailsWith500}
use sap_orders_api.Server.Front.{Setup, Incoming, api, front, identify}
use sap_orders_api.Server.Front.Authorized.{Authorized, front-Authorized}
use sap_orders_api.Startup.{
  Serving, start, serves, serving, configured, authenticated, StartedSafely, start-StartedSafely,
}
use sap_orders_api.Tests.{world_of}
use sap_orders_api.Tests.Rules.{codec, request, reader}
use sap_orders_api.Tests.Setup.{production, set_up, loads, built}

extract_bearer_token-IsBearer_example :
    (extract_bearer_token "bearer abc" ≡ bearer "abc") ↔ IsBearer "bearer abc" "abc"
extract_bearer_token-IsBearer_example = extract_bearer_token-IsBearer "bearer abc" "abc"

forbids :
    (serve codec "Z_UPDATE_DEMAND"
      (known reader)
      Server.create_order
      request
      (world_of [])).0.status
    ≡ 403
unfolding serve scoped require_scope required_scope has_scope
forbids = refl

low :
    400
    ≤ (serve codec "Z_UPDATE_DEMAND"
        (known reader)
        Server.create_order
        request
        (world_of [])).0.status
low = omega (arith, forbids)

high :
    (serve codec "Z_UPDATE_DEMAND"
      (known reader)
      Server.create_order
      request
      (world_of [])).0.status
    < 500
high = omega (arith, forbids)

serve-clean_example :
    (serve codec "Z_UPDATE_DEMAND" (known reader) Server.create_order request (world_of [])).1.db
    ≡ (world_of []).db
serve-clean_example =
    serve-clean codec "Z_UPDATE_DEMAND" request (known reader) Server.create_order (world_of []) low
      high

abbrev duplicate : CreateOrderInput
duplicate = record { order_number = "PO-1" }

create_order-FailsWith500_example :
    FailsWith500 (world_of []) (respond 201 order (create_order duplicate "ana" (world_of [])))
create_order-FailsWith500_example =
    create_order-FailsWith500 duplicate "ana" (world_of []) refl refl

abbrev writer : Payload
writer = record {
  subject = "u-1";
  scope = "orders.read orders.write";
  roles = [];
  email = "";
  preferred_username = "ana@example.com";
  upn = "";
}

abbrev entra_id : Authenticator
entra_id = authenticator_of "tenant" "client"

-- one token is signed, and every payload is valid for this issuer and this audience
abbrev verifier : Verifier
verifier = record {
  verify_signature =
      λ keys s. if str_eq keys entra_id.key_set && str_eq s "abc" then some writer else none;
  validate = λ issuer audience p. str_eq issuer entra_id.issuer && str_eq audience "client";
}

abbrev writer_claims : UserClaims
writer_claims = record {
  subject = "u-1";
  email = "ana@example.com";
  roles = [];
  scopes = "orders.read" ∷ "orders.write" ∷ [];
}

identified : identify verifier (entra entra_id) "Bearer abc" ≡ known writer_claims
unfolding identify authenticate extract_bearer_token verify_access_token claims_of
identified = refl

abbrev server : Setup
server = record {
  config = set_up;
  authenticator = entra entra_id;
  verifier = verifier;
  codec = codec;
  spec = "openapi: 3.0.3";
}

abbrev incoming : Incoming
incoming = record {
  path = "/api/v1/orders";
  origin = record {
    over_tls = true;
    forwarded_proto = "";
    host = "api.example.com";
    request_uri = "/api/v1/orders";
  };
  authorization = "Bearer abc";
  endpoint = some (api Server.create_order);
  unrouted = write_error 404 "404 page not found";
  over_rate = none;
  ping = none;
  request = request;
}

front-Authorized_example :
    ((front server incoming (world_of [])).1.db ≡ (world_of []).db) ⊎ Authorized server incoming
front-Authorized_example = front-Authorized server incoming (world_of [])

abbrev driver : Driver
driver = record { new = λ url. none; ping = λ url. none }

abbrev running : Serving
running = serving set_up (entra entra_id)

starts : start production (λ tenant. true) driver ≡ serves running
unfolding start new_pool
starts = ap (configured (λ tenant. true) driver) loads ∙ ap (authenticated set_up) built

start-StartedSafely_example : StartedSafely production driver running
start-StartedSafely_example = start-StartedSafely production (λ tenant. true) driver running starts
