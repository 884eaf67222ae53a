-- ===== src/Handler/Response.antt =====
-- internal/handler/response.go: the answers, and the status of each error.
use sap_orders_api.Prelude.{ℕ, Bool, ◌||◌, List, String, if◌then◌else◌}
use sap_orders_api.Domain.Errors.{
  Error, message, is, not_found, validation, sap_sync_failed, order_number_required,
  status_required, item_fields_required, invalid_delivery_date, sync_not_cancellable, order_closed,
  invalid_status_transition, invalid_order_status, invalid_item_status, item_status_immutable,
  item_not_syncable, sync_already_active, delivery_date_in_past,
}
use sap_orders_api.Domain.Types.{Order, OrderItem, SapSyncLog, OutboxEntry, SyncStatusResponse}
use sap_orders_api.Domain.Paging.{PagedResult}
use sap_orders_api.Store.Monad.{World, Result, ok, err}

-- What is written, as JSON but for the last two. `failure m` is the object with the one key "error",
-- `strings` one with strings for its values; `text` has its content type in front.
pub data Body : Type 0 where
  failure : String → Body
  strings : List (String × String) → Body
  order_page : PagedResult Order → Body
  order : Order → Body
  item : OrderItem → Body
  entry : OutboxEntry → Body
  sync_status : SyncStatusResponse → Body
  logs : List SapSyncLog → Body
  text : String → String → Body
  redirection : String → Body

pub record Response : Type 0 where
  pub status : ℕ
  pub body : Body

abbrev pub write_json : ℕ → Body → Response
write_json status body = record { status = status; body = body }

abbrev pub write_error : ℕ → String → Response
write_error status message = write_json status (failure message)

-- the errors of the second and of the third case of HandleError
abbrev pub is_bad_request : Error → Bool
is_bad_request e =
    is e order_number_required
    || is e status_required
    || is e item_fields_required
    || is e invalid_delivery_date
    || is e invalid_order_status
    || is e invalid_item_status
    || is e item_status_immutable
    || is e item_not_syncable
    || is e delivery_date_in_past
    || is e validation

abbrev pub is_conflict : Error → Bool
is_conflict e =
    is e order_closed
    || is e invalid_status_transition
    || is e sync_not_cancellable
    || is e sync_already_active

unfoldable pub handle_error : Error → Response
handle_error e =
    if is e not_found
    then write_error 404 "resource not found"
    else if is_bad_request e
    then write_error 400 (message e)
    else if is_conflict e
    then write_error 409 (message e)
    else if is e sap_sync_failed
    then write_error 502 "sap sync failed"
    else write_error 500 "internal server error"

-- The end of every handler: HandleError, or the result with its status.
unfoldable pub respond : {A : Type 0} → ℕ → (A → Body) → Result A × World → Response × World
unfolding handle_error
respond status body (ok a, w) = (write_json status (body a), w)
respond status body (err e, w) = (handle_error e, w)
