-- ===== src/Service/Sync.antt =====
-- internal/service/sync_service.go. Calls of the logger are left out, and each method takes what it
-- uses of its SyncService.
pub mod Processing
pub mod Enqueue
pub mod Cancel
pub mod Success
pub mod Admission
pub mod Refusals
pub mod ReadBack
pub mod Stale
use Prim.Native.String
use sap_orders_api.Prelude.{
  ℕ, Bool, true, false, not, ltb, Option, none, some, List, String, str_eq, first, if◌then◌else◌,
}
use sap_orders_api.Domain.Errors.{
  sentinel, wrap, sap_sync_failed, item_not_syncable, delivery_date_in_past, sync_already_active,
}
use sap_orders_api.Domain.Types.{
  Uuid, ItemStatus, SyncStatus, OutboxStatus, updated, synced, success, completed, OrderItem, Order,
  SapSyncLog, OutboxEntry, SyncStatusResponse,
}
use sap_orders_api.Domain.Status.{can_sync}
use sap_orders_api.Domain.Dates.{is_delivery_date_in_past}
use sap_orders_api.Sap.{SyncResult, Reply, replied, Client, build_demand_update_xml}
use sap_orders_api.Store.Monad.{M, pure, raise, fail, now, ◌>>=◌, ◌>>◌, with_transaction}
use sap_orders_api.Store.Orders
use sap_orders_api.Store.Items
use sap_orders_api.Store.Logs
use sap_orders_api.Store.Logs.{LogInput}
use sap_orders_api.Store.Outbox
use sap_orders_api.Store.Outbox.{EntryInput}
use sap_orders_api.Service.Orders.{refuse_closed}

-- What a SyncService has beside the repositories: its client of SAP and the name of the function that
-- it calls there.
pub record SyncService : Type 0 where
  pub sap_client : Client
  pub rfc_function : String

-- the tests of EnqueueSync on the item
abbrev pub check_syncable : OrderItem → M (Unit {0})
check_syncable item =
    if not (can_sync item.status)
    then fail item_not_syncable
    else now >>= λ time.
        if is_delivery_date_in_past time item.delivery_date
        then fail delivery_date_in_past
        else pure tt

abbrev pub refuse_active : Bool → M (Unit {0})
refuse_active active = if active then fail sync_already_active else pure tt

abbrev pub is_failed : ItemStatus → Bool
is_failed ItemStatus.failed = true
is_failed _ = false

abbrev pub max_attempts : ℕ
max_attempts = 3

-- the entry that EnqueueSync inserts
abbrev pub entry_input : String → Uuid → Order → OrderItem → EntryInput
entry_input rfc_function item_id order item = record {
  order_item_id = item_id;
  order_number = order.order_number;
  rfc_function = rfc_function;
  xml_payload = build_demand_update_xml order.order_number item;
  status = OutboxStatus.pending;
  max_attempts = max_attempts;
}

-- the transaction of EnqueueSync
unfoldable pub enqueue_body : String → Uuid → Order → OrderItem → M OutboxEntry
enqueue_body rfc_function item_id order item = do
  if is_failed item.status then Items.update_status item_id updated else pure tt
  Outbox.create (entry_input rfc_function item_id order item)

unfoldable pub enqueue_sync : String → Uuid → Uuid → M OutboxEntry
unfolding enqueue_body
enqueue_sync rfc_function order_id item_id = do
  order ← Orders.get_by_id order_id
  refuse_closed order
  item ← Items.get_by_id order_id item_id
  check_syncable item
  active ← Outbox.has_active_by_item_id item_id
  refuse_active active
  with_transaction (enqueue_body rfc_function item_id order item)

abbrev pub can_retry : OutboxEntry → Bool
can_retry entry = ltb entry.attempts entry.max_attempts

abbrev pub some_text : String → Option String
some_text s = if str_eq s "" then none else some s

-- the transaction of handleSyncFailure
unfoldable pub failure_body : OutboxEntry → String → Bool → M (Unit {0})
failure_body entry message retry = do
  Logs.create (record {
    order_item_id = entry.order_item_id;
    rfc_function = entry.rfc_function;
    xml_request = entry.xml_payload;
    xml_response = none;
    status = SyncStatus.failed;
    error_message = some message;
  })
  Items.update_status entry.order_item_id (if retry then updated else ItemStatus.failed)
  Outbox.mark_failed entry.id message retry

unfoldable pub handle_sync_failure : OutboxEntry → String → Bool → M (Unit {0})
unfolding failure_body
handle_sync_failure entry message retry = do
  with_transaction (failure_body entry message retry)
  if retry then raise (wrap "" (sentinel sap_sync_failed) (String.◌++◌ ": " message)) else pure tt

-- the end of the transaction of ProcessOutboxEntry
abbrev pub mark_result : OutboxEntry → SyncResult → M (Unit {0})
mark_result entry result =
    if result.success
    then Outbox.mark_completed entry.id
    else Outbox.mark_failed entry.id result.message (can_retry entry)

-- the transaction of ProcessOutboxEntry, after a reply
unfoldable pub reply_body : OutboxEntry → SyncResult → M (Unit {0})
reply_body entry result = do
  Logs.create (record {
    order_item_id = entry.order_item_id;
    rfc_function = entry.rfc_function;
    xml_request = entry.xml_payload;
    xml_response = some result.xml_response;
    status = if result.success then success else SyncStatus.failed;
    error_message = if result.success then none else some_text result.message;
  })
  Items.update_status entry.order_item_id (if result.success then synced else ItemStatus.failed)
  mark_result entry result

-- what ProcessOutboxEntry does with the client's answer
unfoldable pub process_reply : OutboxEntry → Reply → M (Unit {0})
unfolding handle_sync_failure reply_body
process_reply entry (Reply.failed message) = handle_sync_failure entry message (can_retry entry)
process_reply entry (replied result) = with_transaction (reply_body entry result)

unfoldable pub process_outbox_entry : Client → OutboxEntry → M (Unit {0})
unfolding process_reply
process_outbox_entry client entry =
    process_reply entry (client entry.rfc_function entry.xml_payload)

unfoldable pub list_logs : Uuid → Uuid → M (List SapSyncLog)
list_logs order_id item_id = do Items.get_by_id order_id item_id; Logs.list_by_item_id item_id

-- `entry.Status == OutboxStatusCompleted || entry.Status == OutboxStatusFailed`
abbrev pub is_finished : OutboxStatus → Bool
is_finished completed = true
is_finished OutboxStatus.failed = true
is_finished _ = false

unfoldable pub with_latest_log : OutboxEntry → M SyncStatusResponse
with_latest_log entry = do
  logs ← Logs.list_by_item_id entry.order_item_id
  pure (record { outbox = entry; latest_log = first logs })

unfoldable pub build_sync_status_response : OutboxEntry → M SyncStatusResponse
unfolding with_latest_log
build_sync_status_response entry =
    if is_finished entry.status
    then with_latest_log entry
    else pure (record { outbox = entry; latest_log = none })

unfoldable pub get_latest_sync_status : Uuid → Uuid → M SyncStatusResponse
unfolding build_sync_status_response
get_latest_sync_status order_id item_id = do
  Items.get_by_id order_id item_id
  entry ← Outbox.get_latest_by_item_id item_id
  build_sync_status_response entry

unfoldable pub get_sync_status : Uuid → Uuid → Uuid → M SyncStatusResponse
unfolding build_sync_status_response
get_sync_status order_id item_id outbox_id = do
  Items.get_by_id order_id item_id
  entry ← Outbox.get_by_id item_id outbox_id
  build_sync_status_response entry

-- the transaction of CancelSync
unfoldable pub cancel_body : Uuid → Uuid → M OutboxEntry
cancel_body item_id outbox_id = do
  entry ← Outbox.cancel item_id outbox_id
  Items.update_status item_id updated
  pure entry

unfoldable pub cancel_sync : Uuid → Uuid → Uuid → M OutboxEntry
unfolding cancel_body
cancel_sync order_id item_id outbox_id = do
  Items.get_by_id order_id item_id
  with_transaction (cancel_body item_id outbox_id)

unfoldable pub claim_pending : ℕ → M (List OutboxEntry)
claim_pending limit = Outbox.claim_pending limit
