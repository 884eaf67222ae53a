-- ===== src/Service/Refused.antt =====
-- A call of internal/service that fails by an error of the program's own changes no table.
use sap_orders_api.Prelude.{◌≡◌, not, ◌&&◌, ◌||◌, Option, none, some, String, str_eq}
use sap_orders_api.Domain.Errors.{
  Sentinel, sentinel, validation, order_number_required, status_required, invalid_order_status,
  item_fields_required, item_status_immutable, sync_already_active,
}
use sap_orders_api.Domain.Types.{
  Uuid, OrderStatus, opened, in_progress, CreateOrderInput, UpdateOrderInput, CreateOrderItemInput,
  UpdateOrderItemInput,
}
use sap_orders_api.Domain.Status.{same_order_status, order_status_is_valid, can_transition_to}
use sap_orders_api.Store.Monad.{Db, World, M, fail, Result, ok, err, with_transaction}
use sap_orders_api.Store.Triple.{Ensures, guard-Triple, Triple, weaken-Triple, check-Triple}
use sap_orders_api.Store.Refusal.{
  Refuses, >>=-Refuses, query_row-Refuses, pure-Refuses, raise-Refuses, if-Refuses, keeps-Refuses,
  with_transaction-Refuses,
}
use sap_orders_api.Store.Present.{
  HasOrder, found-HasOrder, unless-any, with_db-any, unless-orders, update_order_row-Refuses,
}
use sap_orders_api.Store.Orders
use sap_orders_api.Store.Orders.{or_not_found, with_db, order_id_is, set_status}
use sap_orders_api.Store.Items
use sap_orders_api.Store.Items.{with_item, update_item as update_item_row}
use sap_orders_api.Store.Reads.{get_order-Triple, get_item-Triple, has_active-Triple}
use sap_orders_api.Service.Sync.{enqueue_sync, enqueue_body, cancel_sync, cancel_body}
use sap_orders_api.Service.Sync.Enqueue.{check_syncable-Triple}
use sap_orders_api.Service.Orders.{
  create_order, update_to, status_given, update_order, promote_order, add_item, update_item,
  is_given,
}
use sap_orders_api.Service.Orders.Frame.{
  Keeps, get_order-Keeps, refuse_closed-Keeps, parse_delivery_date-Keeps, parse_optional_date-Keeps,
}

module _ (X : Db) where
  abbrev Same : Db → Type 0
  Same db = db ≡ X

  fail-Refuses : {A : Type 0} {Q : A → Db → Type 0} (s : Sentinel) → Refuses X Same (fail s) Q
  fail-Refuses s = raise-Refuses (sentinel s) (λ db p. p)

  unchanged-Refuses : {A : Type 0} {m : M A} → Keeps Same m → Refuses X Same m (λ _. Same)
  unchanged-Refuses h = keeps-Refuses h

  pub create_order-Refuses :
      (input : CreateOrderInput) (by : String)
      → Refuses X Same (create_order input by) (λ _ _. Unit {0})
  unfolding create_order Orders.create
  create_order-Refuses input by =
      if-Refuses (str_eq input.order_number "") (λ _. fail-Refuses order_number_required)
        λ _.
          >>=-Refuses {Q = λ _ _. Unit {0}}
            (query_row-Refuses "create order: " _ (λ t u db p. unless-any _ _))
            λ row. pure-Refuses _ (λ db p. tt)

  -- the order is found, and nothing has changed
  found_order :
      (id : Uuid)
      → Refuses X Same (Orders.get_by_id id) (λ order db. Same db × HasOrder id db.orders)
  found_order id = keeps-Refuses (
      weaken-Triple (λ db p. p) (λ order db h. (h.0, found-HasOrder id order.row db.orders h.1.0))
        (λ db p. p) (get_order-Triple id))

  update_to-Refuses :
      (id : Uuid) (status : OrderStatus) → Refuses X Same (update_to id status) (λ _ _. Unit {0})
  unfolding update_to
  update_to-Refuses id status =
      if-Refuses (not (order_status_is_valid status)) (λ _. fail-Refuses invalid_order_status)
        λ _. >>=-Refuses (found_order id) λ order.
          >>=-Refuses
            (keeps-Refuses (
              weaken-Triple (λ db p. p) (λ a db h. h.0.1) (λ db p. p.0)
                (check-Triple (can_transition_to order.status status order.items) (λ db p. p))))
            λ _. update_order_row-Refuses X id status

  pub update_order-Refuses :
      (id : Uuid) (input : UpdateOrderInput)
      → Refuses X Same (update_order id input) (λ _ _. Unit {0})
  unfolding update_order
  update_order-Refuses id input = given input.status
    where
      given : (o : Option OrderStatus) → Refuses X Same (status_given id o) (λ _ _. Unit {0})
      given none = fail-Refuses status_required
      given (some status) = update_to-Refuses id status

  promote_order-Refuses :
      (id : Uuid) (status : OrderStatus)
      → Refuses X (λ db. HasOrder id db.orders) (promote_order id status) (λ _ _. Unit {0})
  unfolding promote_order
  promote_order-Refuses id status =
      if-Refuses (same_order_status status opened)
        (λ _.
          >>=-Refuses (update_order_row-Refuses X id in_progress) λ _. pure-Refuses tt (λ db p. tt))
        (λ _. pure-Refuses tt (λ db p. tt))

  -- the tests between the read of the order and the first write, which keep what was found
  kept-Refuses :
      {A : Type 0} {m : M A} (id : Uuid)
      → ((P : Db → Type 0) → Keeps P m)
      → Refuses X
          (λ db. Same db × HasOrder id db.orders)
          m
          (λ _ db. Same db × HasOrder id db.orders)
  kept-Refuses id h = keeps-Refuses (
      weaken-Triple (λ db p. p) (λ a db p. p) (λ db p. p.0)
        (h (λ db. Same db × HasOrder id db.orders)))

  found_item :
      (order_id item_id : Uuid) → Refuses X Same (Items.get_by_id order_id item_id) (λ _. Same)
  found_item order_id item_id =
      keeps-Refuses
        (weaken-Triple (λ db p. p) (λ a db h. h.0) (λ db p. p) (get_item-Triple order_id item_id))

  pub add_item-Refuses :
      (id : Uuid) (input : CreateOrderItemInput)
      → Refuses X Same (add_item id input) (λ _ _. Unit {0})
  unfolding add_item Items.create
  add_item-Refuses id input =
      if-Refuses
        (str_eq input.demand_code ""
          || str_eq input.description ""
          || str_eq input.delivery_date "")
        (λ _. fail-Refuses item_fields_required)
        λ _. >>=-Refuses (found_order id) λ order.
          >>=-Refuses (kept-Refuses id (λ P. refuse_closed-Keeps P order)) λ _.
            >>=-Refuses (kept-Refuses id (λ P. parse_delivery_date-Keeps P input.delivery_date))
              λ date.
                >>=-Refuses {Q = λ _ db. HasOrder id db.orders}
                  (query_row-Refuses "create order item: " _
                    (λ t u db p. unless-orders id _ _ _ p.1))
                  λ item.
                    >>=-Refuses (promote_order-Refuses id order.status)
                      λ _. pure-Refuses item (λ db p. tt)

  pub update_item-Refuses :
      (order_id item_id : Uuid) (input : UpdateOrderItemInput)
      → Refuses X Same (update_item order_id item_id input) (λ _ _. Unit {0})
  unfolding update_item Items.update
  update_item-Refuses order_id item_id input =
      if-Refuses (is_given input.status) (λ _. fail-Refuses item_status_immutable)
        λ _.
          if-Refuses (not (is_given input.description) && not (is_given input.delivery_date))
            (λ _. fail-Refuses validation)
            λ _. >>=-Refuses (unchanged-Refuses (get_order-Keeps Same order_id)) λ order.
              >>=-Refuses (unchanged-Refuses (refuse_closed-Keeps Same order)) λ _.
                >>=-Refuses (found_item order_id item_id) λ item.
                  >>=-Refuses
                    (unchanged-Refuses (parse_optional_date-Keeps Same input.delivery_date))
                    λ date. >>=-Refuses (found_item order_id item_id) λ current.
                      query_row-Refuses "update order item: " _ (λ t u db p. with_db-any _ _)

  -- whatever the body of a transaction does
  transaction-Refuses :
      {A : Type 0} (body : M A) → Refuses X Same (with_transaction body) (λ _ _. Unit {0})
  transaction-Refuses {A} body = with_transaction-Refuses (record { run = λ w p. anyhow (body w) })
    where
      anyhow : (r : Result A × World) → Ensures (λ _ _. Unit {0}) (λ _. Unit {0}) r
      anyhow (ok a, w) = tt
      anyhow (err e, w) = tt

  pub enqueue_sync-Refuses :
      (rfc_function : String) (order_id item_id : Uuid)
      → Refuses X Same (enqueue_sync rfc_function order_id item_id) (λ _ _. Unit {0})
  unfolding enqueue_sync
  enqueue_sync-Refuses rfc_function order_id item_id =
      >>=-Refuses (unchanged-Refuses (get_order-Keeps Same order_id)) λ order.
        >>=-Refuses (unchanged-Refuses (refuse_closed-Keeps Same order)) λ _.
          >>=-Refuses (found_item order_id item_id) λ item.
            >>=-Refuses (only (check_syncable-Triple item)) λ _.
              >>=-Refuses (only (has_active-Triple item_id)) λ active.
                >>=-Refuses (only (guard-Triple active sync_already_active (λ db p. p)))
                  λ _. transaction-Refuses (enqueue_body rfc_function item_id order item)
    where
      only :
          {A : Type 0} {m : M A} {Q : A → Db → Type 0}
          → Triple Same m (λ a db. Same db × Q a db) Same
          → Refuses X Same m (λ _. Same)
      only h = keeps-Refuses (weaken-Triple (λ db p. p) (λ a db q. q.0) (λ db p. p) h)

  pub cancel_sync-Refuses :
      (order_id item_id outbox_id : Uuid)
      → Refuses X Same (cancel_sync order_id item_id outbox_id) (λ _ _. Unit {0})
  unfolding cancel_sync
  cancel_sync-Refuses order_id item_id outbox_id =
      >>=-Refuses (found_item order_id item_id)
        λ item. transaction-Refuses (cancel_body item_id outbox_id)
