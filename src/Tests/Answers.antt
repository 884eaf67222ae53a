-- ===== src/Tests/Answers.antt =====
-- The theorems on what is read back after a request at concrete worlds.
use sap_orders_api.Prelude.{ℕ, ◌≡◌, refl, List, true, none, some, [], ◌∷◌, arith}
use sap_orders_api.Domain.Types.{
  OrderRow, Order, OutboxEntry, CreateOrderInput, UpdateOrderItemInput, processing,
}
use sap_orders_api.Store.Monad.{World, ok}
use sap_orders_api.Domain.Types.{synced, in_progress, closed}
use sap_orders_api.Domain.Status.{can_transition_to, switch_status}
use sap_orders_api.Prelude.Lists.{sort_with, insert_with}
use sap_orders_api.Store.Orders.{items_of}
use sap_orders_api.Service.Orders.Reopened.{IsReopened, update_order-IsReopened}
use sap_orders_api.Store.Listing.{rows}
use sap_orders_api.Service.Orders.Created.{IsNewOrder, ReadBack, create_order-ReadBack}
use sap_orders_api.Service.Sync.{enqueue_sync, get_sync_status}
use sap_orders_api.Service.Sync.ReadBack.{enqueue_sync-get_sync_status}
use sap_orders_api.Sap.{Client, SyncResult, replied, build_demand_update_xml}
use sap_orders_api.Service.Orders.Edited.{IsEditable}
use sap_orders_api.Service.Sync.Stale.{IsUnderWay, Stale, update_item-Stale}
use sap_orders_api.Domain.Types.{OrderItem, opened, CreateOrderItemInput}
use sap_orders_api.Service.Orders.Added.{IsAddable, IsAdded, add_item-IsAdded}
use sap_orders_api.Domain.Dates.{parse_date, check_date, parse_codes, days_in}
use sap_orders_api.Tests.{day, row_one, tables, world_of, entry_of, order_one, item_ten}
use sap_orders_api.Tests.Sync.{allowed, not_past, items_found}

-- two orders, and the same table with its rows in another order
abbrev row_two : OrderRow
row_two = record row_one { id = 2; order_number = "PO-2"; created_at = 9 }

abbrev kept_as : List OrderRow → World
kept_as rows = record (world_of []) { db = record (tables []) { orders = rows } }

abbrev two_orders : World
two_orders = kept_as (row_one ∷ row_two ∷ [])

-- the table before the page n is read
abbrev pages_of : ℕ → World
pages_of n = kept_as (row_two ∷ row_one ∷ [])

abbrev sent : CreateOrderInput
sent = record { order_number = "PO-2" }

is_new : IsNewOrder (world_of []) sent "ana"
is_new = record {
  number_given = refl;
  number_free = refl;
  id_free = λ n. ground arith;
  no_items = λ n. ground arith;
}

create_order-ReadBack_example : (order : Order) × ReadBack (world_of []) sent "ana" order
create_order-ReadBack_example = create_order-ReadBack (world_of []) sent "ana" (λ n. refl) is_new

-- a world with the tables that EnqueueSync leaves
abbrev afterwards : World
afterwards = record (world_of []) { db = (enqueue_sync "Z_UPDATE_DEMAND" 1 10 (world_of [])).1.db }

enqueue_sync-get_sync_status_example :
    (e : OutboxEntry) × ((enqueue_sync "Z_UPDATE_DEMAND" 1 10 (world_of [])).0 ≡ ok e)
    × ((get_sync_status 1 10 e.id afterwards).0 ≡ ok (record { outbox = e; latest_log = none }))
enqueue_sync-get_sync_status_example =
    enqueue_sync-get_sync_status "Z_UPDATE_DEMAND" 1 10 (world_of []) afterwards (λ n. refl)
      order_one item_ten allowed not_past (λ n. refl) (λ n. refl) refl

-- item 10 is being sent, and its description is edited
abbrev under_way_entry : OutboxEntry
under_way_entry = record (entry_of processing 1) {
  xml_payload = build_demand_update_xml "PO-1" item_ten;
}

abbrev busy_world : World
busy_world = world_of (under_way_entry ∷ [])

abbrev new_text : UpdateOrderItemInput
new_text = record { description = some "copper"; delivery_date = none; status = none }

abbrev accepted_reply : SyncResult
accepted_reply = record { xml_response = "<ok/>"; success = true; message = "" }

abbrev accepting : Client
accepting f x = replied accepted_reply

editable : IsEditable busy_world 1 10 order_one item_ten new_text none
editable = record {
  order_found = (refl, items_found);
  order_open = refl;
  item_found = refl;
  no_status = refl;
  asks = refl;
  dated = refl;
}

under_way : IsUnderWay busy_world 1 10 order_one item_ten new_text none under_way_entry
under_way = record { editable = editable; of_item = refl; carries = refl; fresh = λ n. refl }

update_item-Stale_example :
    Stale busy_world 1 10 order_one item_ten new_text none under_way_entry accepting
update_item-Stale_example =
    update_item-Stale busy_world 1 10 order_one item_ten new_text none under_way_entry (λ n. refl)
      under_way accepting accepted_reply refl refl

-- order 1 is OPEN, and gets a second item
abbrev open_row : OrderRow
open_row = record row_one { status = opened }

abbrev open_world : World
open_world = record (world_of []) { db = record (tables []) { orders = open_row ∷ [] } }

abbrev second_item : CreateOrderItemInput
second_item = record { demand_code = "D-2"; description = "copper"; delivery_date = "2030-02-28" }

reads_day : parse_date "2030-02-28" ≡ some day
unfolding parse_date check_date parse_codes days_in
reads_day = refl

abbrev open_order : Order
open_order = record { row = open_row; items = item_ten ∷ [] }

addable : IsAddable open_world 1 open_order second_item day
addable = record {
  fields_given = refl;
  order_found = (refl, items_found);
  order_open = refl;
  reads_as = reads_day;
  not_past = not_past;
  code_free = refl;
  id_free = λ n. ground arith;
}

add_item-IsAdded_example : (item : OrderItem) × IsAdded open_world 1 open_order second_item day item
add_item-IsAdded_example =
    add_item-IsAdded open_world 1 open_order second_item day (λ n. refl) addable

-- an order that may be closed
abbrev done_item : OrderItem
done_item = record item_ten { status = synced }

abbrev done_order : Order
done_order = record { row = row_one; items = done_item ∷ [] }

abbrev done_world : World
done_world = record (world_of []) { db = record (tables []) { items = done_item ∷ [] } }

done_items : done_order.items ≡ items_of 1 done_world.db
unfolding sort_with insert_with
done_items = refl

may_close : can_transition_to in_progress closed done_order.items ≡ none
unfolding can_transition_to switch_status
may_close = refl

update_order-IsReopened_example : IsReopened done_world 1 done_order
update_order-IsReopened_example =
    update_order-IsReopened done_world 1 done_order (λ n. refl) (refl, done_items) refl may_close
