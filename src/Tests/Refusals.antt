-- ===== src/Tests/Refusals.antt =====
-- The refusals of internal/service at concrete inputs.
use sap_orders_api.Prelude.{◌≡◌, refl, some, none, any, [], ◌∷◌}
use sap_orders_api.Prelude.Lists.{sort_with, insert_with}
use sap_orders_api.Domain.Dates.{is_delivery_date_in_past, day_number, days_of_months, days_in}
use sap_orders_api.Domain.Errors.{sentinel, sync_already_active}
use sap_orders_api.Domain.Types.{
  OrderRow, closed, OutboxEntry, OutboxStatus, CreateOrderItemInput, UpdateOrderItemInput,
}
use sap_orders_api.Store.Monad.{World, err}
use sap_orders_api.Store.Orders.{items_of}
use sap_orders_api.Store.Outbox.{active_for}
use sap_orders_api.Service.Orders.{add_item, update_item}
use sap_orders_api.Service.Sync.{enqueue_sync}
use sap_orders_api.Service.Sync.Refusals.{first_refusal, enqueue_sync-first_refusal}
use sap_orders_api.Service.Closed.{Refused, closed-Refused}
use sap_orders_api.Tests.{world_of, entry_of, order_one, item_ten, row_one}

abbrev waiting : OutboxEntry
waiting = entry_of OutboxStatus.pending 0

abbrev busy : World
busy = world_of (waiting ∷ [])

items_found : order_one.items ≡ items_of 1 busy.db
unfolding sort_with insert_with
items_found = refl

is_active :
    first_refusal order_one item_ten
      (is_delivery_date_in_past 7 item_ten.delivery_date)
      (any (active_for 10) busy.db.outbox)
    ≡ some (sentinel sync_already_active)
unfolding is_delivery_date_in_past day_number days_of_months days_in
is_active = refl

enqueue_sync-first_refusal_example :
    let r = enqueue_sync "Z_UPDATE_DEMAND" 1 10 busy in
    (r.0 ≡ err (sentinel sync_already_active)) × (r.1.db ≡ busy.db)
enqueue_sync-first_refusal_example =
    enqueue_sync-first_refusal busy (λ n. refl) "Z_UPDATE_DEMAND" 1 10 order_one item_ten
      (refl, items_found) refl (sentinel sync_already_active) is_active

abbrev shut : OrderRow
shut = record row_one { status = closed }

abbrev shut_world : World
shut_world = record busy { db = record busy.db { orders = shut ∷ [] } }

abbrev new_item : CreateOrderItemInput
new_item = record { demand_code = "D2"; description = "wood"; delivery_date = "2031-01-01" }

abbrev change : UpdateOrderItemInput
change = record { description = some "iron"; delivery_date = none; status = none }

closed-Refused_example :
    Refused shut_world.db (add_item 1 new_item shut_world)
    × Refused shut_world.db (update_item 1 10 change shut_world)
    × Refused shut_world.db (enqueue_sync "Z_UPDATE_DEMAND" 1 10 shut_world)
closed-Refused_example =
    closed-Refused shut_world.db 1 shut refl refl shut_world new_item 10 change "Z_UPDATE_DEMAND"
      refl
