-- ===== src/Domain/Errors.antt =====
-- internal/domain/errors.go, and the error values of fmt.Errorf and of the database driver.
use Prim.Native.String
use sap_orders_api.Prelude.{ℕ, Bool, false, ◌==◌, Option, none, some, String}

-- The sentinel errors of errors.go, in its order.
pub data Sentinel : Type 0 where
  not_found validation sap_sync_failed order_number_required status_required : Sentinel
  item_fields_required invalid_delivery_date sync_not_cancellable order_closed : Sentinel
  invalid_status_transition invalid_order_status invalid_item_status : Sentinel
  item_status_immutable item_not_syncable sync_already_active delivery_date_in_past : Sentinel

abbrev pub text : Sentinel → String
text not_found = "resource not found"
text validation = "validation error"
text sap_sync_failed = "sap sync failed"
text order_number_required = "orderNumber is required"
text status_required = "status is required"
text item_fields_required = "demandCode, description and deliveryDate are required"
text invalid_delivery_date = "invalid deliveryDate format, expected YYYY-MM-DD"
text sync_not_cancellable = "sync can only be cancelled while pending"
text order_closed = "order is closed and cannot be modified"
text invalid_status_transition = "invalid status transition"
text invalid_order_status = "invalid order status"
text invalid_item_status = "invalid item status"
text item_status_immutable = "item status cannot be set directly"
text item_not_syncable = "item must be UPDATED or FAILED to sync"
text sync_already_active = "item already has a pending or processing sync"
text delivery_date_in_past = "deliveryDate cannot be in the past"

-- A Go error of the program: a sentinel, one wrapped by `fmt.Errorf("…%w…", err)` with the text
-- before and after it, or an error of other code with its message.
pub data Error : Type 0 where
  sentinel : Sentinel → Error
  wrap : String → Error → String → Error
  external : String → Error

-- `err.Error()`
abbrev pub message : Error → String
message (sentinel s) = text s
message (wrap before e after) = String.◌++◌ before (String.◌++◌ (message e) after)
message (external m) = m

abbrev code : Sentinel → ℕ
code not_found = 0
code validation = 1
code sap_sync_failed = 2
code order_number_required = 3
code status_required = 4
code item_fields_required = 5
code invalid_delivery_date = 6
code sync_not_cancellable = 7
code order_closed = 8
code invalid_status_transition = 9
code invalid_order_status = 10
code invalid_item_status = 11
code item_status_immutable = 12
code item_not_syncable = 13
code sync_already_active = 14
code delivery_date_in_past = 15

abbrev pub same : Sentinel → Sentinel → Bool
same a b = code a == code b

-- `errors.Is(err, target)`
abbrev pub is : Error → Sentinel → Bool
is (sentinel s) target = same s target
is (wrap _ e _) target = is e target
is (external _) target = false

-- The sentinel at the bottom of a chain of wrapped errors.
unfoldable pub root : Error → Option Sentinel
root (sentinel s) = some s
root (wrap before e after) = root e
root (external m) = none
