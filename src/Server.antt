-- ===== src/Server.antt =====
-- The routes of cmd/server/main.go under /api/v1, each with its required scope and its handler,
-- behind the authentication. Rate limits, logging and security headers are left out.
pub mod Access
pub mod Refused
pub mod Front
pub mod Duplicates
use sap_orders_api.Prelude.{Option, none, some, String}
use sap_orders_api.Auth.{
  UserClaims, scope_orders_read, scope_orders_write, require_scope, Refusal, granted, unauthorized,
  forbidden, user_email,
}
use sap_orders_api.Auth.Token.{Identity, known, unknown}
use sap_orders_api.Store.Monad.{World}
use sap_orders_api.Handler.Response.{Response, write_error}
use sap_orders_api.Handler.Params.{Codec, Request, Answer}
use sap_orders_api.Handler.Orders
use sap_orders_api.Handler.Sync

pub data Route : Type 0 where
  list_orders get_order create_order update_order add_item update_item : Route
  sync_item cancel_sync get_latest_status get_status list_logs : Route

-- the method and the pattern of a route
unfoldable pub pattern : Route → String × String
pattern list_orders = ("GET", "/api/v1/orders")
pattern get_order = ("GET", "/api/v1/orders/{id}")
pattern create_order = ("POST", "/api/v1/orders")
pattern update_order = ("PATCH", "/api/v1/orders/{id}")
pattern add_item = ("POST", "/api/v1/orders/{id}/items")
pattern update_item = ("PATCH", "/api/v1/orders/{id}/items/{itemId}")
pattern sync_item = ("POST", "/api/v1/orders/{id}/items/{itemId}/sync")
pattern cancel_sync = ("DELETE", "/api/v1/orders/{id}/items/{itemId}/sync/{outboxId}")
pattern get_latest_status = ("GET", "/api/v1/orders/{id}/items/{itemId}/sync")
pattern get_status = ("GET", "/api/v1/orders/{id}/items/{itemId}/sync/{outboxId}")
pattern list_logs = ("GET", "/api/v1/orders/{id}/items/{itemId}/sync-logs")

unfoldable pub required_scope : Route → String
required_scope list_orders = scope_orders_read
required_scope get_order = scope_orders_read
required_scope create_order = scope_orders_write
required_scope update_order = scope_orders_write
required_scope add_item = scope_orders_write
required_scope update_item = scope_orders_write
required_scope sync_item = scope_orders_write
required_scope cancel_sync = scope_orders_write
required_scope get_latest_status = scope_orders_read
required_scope get_status = scope_orders_read
required_scope list_logs = scope_orders_read

module _ (codec : Codec) (rfc_function : String) where
  unfoldable pub handle : Option UserClaims → Route → Request → Answer
  handle claims list_orders r = Orders.list r
  handle claims get_order r = Orders.get codec r
  handle claims create_order r = Orders.create codec r (user_email claims)
  handle claims update_order r = Orders.update codec r
  handle claims add_item r = Orders.add_item codec r
  handle claims update_item r = Orders.update_item codec r
  handle claims sync_item r = Sync.sync_item codec r rfc_function
  handle claims cancel_sync r = Sync.cancel_sync codec r
  handle claims get_latest_status r = Sync.get_latest_status codec r
  handle claims get_status r = Sync.get_status codec r
  handle claims list_logs r = Sync.list_logs codec r

  -- http.Error answers a text and not JSON; its status and text are kept.
  abbrev pub gate : Refusal → Answer → Answer
  gate granted k w = k w
  gate unauthorized k w = (write_error 401 "unauthorized", w)
  gate forbidden k w = (write_error 403 "forbidden: missing required scope", w)

  unfoldable pub scoped : Option UserClaims → Route → Request → Answer
  unfolding handle require_scope required_scope
  scoped claims route r = gate (require_scope (required_scope route) claims) (handle claims route r)

  -- `user` is what the authenticator makes of the request.
  unfoldable pub serve : Identity → Route → Request → Answer
  unfolding scoped
  serve (unknown message) route r w = (write_error 401 message, w)
  serve (known claims) route r w = scoped (some claims) route r w
