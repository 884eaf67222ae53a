-- ===== src/Handler/Health.antt =====
-- internal/handler/health_handler.go. `ping` is what pool.Ping of the database driver answers within
-- the two seconds that Ready gives it: no error, or an error.
use sap_orders_api.Prelude.{Option, none, some, [], ◌∷◌}
use sap_orders_api.Domain.Errors.{Error}
use sap_orders_api.Handler.Response.{Response, strings, write_json}

unfoldable pub live : Response
live = write_json 200 (strings (("status", "UP") ∷ []))

unfoldable pub ready : Option Error → Response
ready (some e) = write_json 503 (strings (("status", "DOWN") ∷ ("db", "unreachable") ∷ []))
ready none = write_json 200 (strings (("status", "UP") ∷ ("db", "ok") ∷ []))
