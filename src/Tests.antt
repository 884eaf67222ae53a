-- ===== src/Tests.antt =====
-- Concrete tables, requests and entries on which the definitions are run and the theorems applied.
pub mod Runs
pub mod Sync
pub mod Steps
pub mod Rules
pub mod Refusals
pub mod Setup
pub mod Workers
pub mod Front
pub mod Answers
use sap_orders_api.Prelude.{ℕ, ◌+◌, Option, none, some, List, [], ◌∷◌, String}
use sap_orders_api.Domain.Types.{
  Date, opened, in_progress, updated, OrderRow, Order, OrderItem, ItemStatus, OutboxStatus,
  processing, completed, OutboxEntry,
}
use sap_orders_api.Store.Monad.{Db, World, Fault, fine}
use sap_orders_api.System.{System}

abbrev pub day : Date
day = record { year = 2030; month = 2; day = 28 }

abbrev pub row_one : OrderRow
row_one = record {
  id = 1;
  order_number = "PO-1";
  status = in_progress;
  created_by = "ana@example.com";
  created_at = 5;
  updated_at = 5;
}

abbrev pub item_ten : OrderItem
item_ten = record {
  id = 10;
  order_id = 1;
  demand_code = "D<1>";
  description = "steel";
  delivery_date = day;
  status = updated;
  created_at = 6;
  updated_at = 6;
}

abbrev pub order_one : Order
order_one = record { row = row_one; items = item_ten ∷ [] }

abbrev pub tables : List OutboxEntry → Db
tables outbox = record { orders = row_one ∷ []; items = item_ten ∷ []; logs = []; outbox = outbox }

-- A world in which no statement fails; its ids start at 100.
abbrev pub world_of : List OutboxEntry → World
world_of outbox = record {
  db = tables outbox;
  clock = 7;
  random = λ n. 100 + n;
  faults = λ n. fine;
  statements = 0;
}

abbrev pub entry_of : OutboxStatus → ℕ → OutboxEntry
entry_of status attempts = record {
  id = 50;
  order_item_id = 10;
  order_number = "PO-1";
  rfc_function = "Z_UPDATE_DEMAND";
  xml_payload = "<x/>";
  status = status;
  attempts = attempts;
  max_attempts = 3;
  error_message = none;
  created_at = 8;
  processed_at = none;
}

abbrev pub system_of : List OutboxEntry → System
system_of outbox = record { world = world_of outbox; in_flight = [] }
