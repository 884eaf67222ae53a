-- ===== src/Domain/Types.antt =====
-- internal/domain/order.go and internal/domain/outbox.go: the statuses, rows and inputs.
use sap_orders_api.Prelude.{ℕ, Option, List, String}
use sap_orders_api.Prelude.{str_eq, if◌then◌else◌}

-- A uuid.UUID, as a number.
abbrev pub Uuid : Type 0
Uuid = ℕ

-- A time.Time, as the count of microseconds since the start of the year 0, UTC.
abbrev pub Time : Type 0
Time = ℕ

-- A delivery date: a time.Time at midnight UTC, by its year, month and day.
pub record Date : Type 0 where
  pub year : ℕ
  pub month : ℕ
  pub day : ℕ

-- Go's string types. `unknown` holds a text that is none of the constants.
pub data OrderStatus : Type 0 where
  opened in_progress closed : OrderStatus
  unknown : String → OrderStatus

pub data ItemStatus : Type 0 where
  pending updated synced failed : ItemStatus
  unknown : String → ItemStatus

pub data SyncStatus : Type 0 where
  pending success failed : SyncStatus

pub data OutboxStatus : Type 0 where
  pending processing completed failed cancelled : OutboxStatus

-- A row of `orders`.
pub record OrderRow : Type 0 where
  pub id : Uuid
  pub order_number : String
  pub status : OrderStatus
  pub created_by : String
  pub created_at : Time
  pub updated_at : Time

pub record OrderItem : Type 0 where
  pub id : Uuid
  pub order_id : Uuid
  pub demand_code : String
  pub description : String
  pub delivery_date : Date
  pub status : ItemStatus
  pub created_at : Time
  pub updated_at : Time

-- The struct Order: the row and the items that `GetByID` fills in.
pub record Order : Type 0 where
  pub row : OrderRow
  pub open row use *
  pub items : List OrderItem

pub record SapSyncLog : Type 0 where
  pub id : Uuid
  pub order_item_id : Uuid
  pub rfc_function : String
  pub xml_request : String
  pub xml_response : Option String
  pub status : SyncStatus
  pub error_message : Option String
  pub synced_at : Time

pub record OutboxEntry : Type 0 where
  pub id : Uuid
  pub order_item_id : Uuid
  pub order_number : String
  pub rfc_function : String
  pub xml_payload : String
  pub status : OutboxStatus
  pub attempts : ℕ
  pub max_attempts : ℕ
  pub error_message : Option String
  pub created_at : Time
  pub processed_at : Option Time

pub record SyncStatusResponse : Type 0 where
  pub outbox : OutboxEntry
  pub latest_log : Option SapSyncLog

pub record CreateOrderInput : Type 0 where
  pub order_number : String

pub record UpdateOrderInput : Type 0 where
  pub status : Option OrderStatus

pub record CreateOrderItemInput : Type 0 where
  pub demand_code : String
  pub description : String
  pub delivery_date : String

pub record UpdateOrderItemInput : Type 0 where
  pub description : Option String
  pub delivery_date : Option String
  pub status : Option ItemStatus

-- `domain.OrderStatus(s)` and `string(s)`.
abbrev pub order_status : String → OrderStatus
order_status s =
    if str_eq s "OPEN"
    then opened
    else if str_eq s "IN_PROGRESS"
    then in_progress
    else if str_eq s "CLOSED"
    then closed
    else OrderStatus.unknown s

abbrev pub order_status_text : OrderStatus → String
order_status_text opened = "OPEN"
order_status_text in_progress = "IN_PROGRESS"
order_status_text closed = "CLOSED"
order_status_text (OrderStatus.unknown s) = s

abbrev pub item_status_text : ItemStatus → String
item_status_text ItemStatus.pending = "PENDING"
item_status_text updated = "UPDATED"
item_status_text synced = "SYNCED"
item_status_text ItemStatus.failed = "FAILED"
item_status_text (ItemStatus.unknown s) = s
