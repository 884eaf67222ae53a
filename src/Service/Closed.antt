-- ===== src/Service/Closed.antt =====
-- A CLOSED order is closed to AddItem, UpdateItem and EnqueueSync of internal/service.
use sap_orders_api.Prelude.{
  ◌≡◌, sym, ap, subst, ◌∙◌, false, not, ◌||◌, ◌&&◌, some, String, str_eq, first, select, arith,
}
use sap_orders_api.Domain.Errors.{
  sentinel, item_fields_required, item_status_immutable, validation, order_closed,
}
use sap_orders_api.Domain.Types.{
  Uuid, OrderRow, Order, closed, CreateOrderItemInput, UpdateOrderItemInput,
}
use sap_orders_api.Domain.Status.{same_order_status}
use sap_orders_api.Store.Monad.{Db, World, Result, M, ◌>>=◌, ◌>>◌}
use sap_orders_api.Store.Triple.{
  Triple, Ensures, >>=-Triple, raise-Triple, if-Triple, fix-Triple, guard-Triple,
}
use sap_orders_api.Store.Orders
use sap_orders_api.Store.Orders.{order_id_is}
use sap_orders_api.Store.Reads.{Found, get_order-Triple}
use sap_orders_api.Service.Orders.{refuse_closed, add_item, update_item, is_given}
use sap_orders_api.Service.Sync.{enqueue_sync}

-- The run has failed and left the tables X.
abbrev pub Refused : {A : Type 0} → Db → Result A × World → Type 0
Refused X r = Ensures (λ _ _. ⊥) (λ db. db ≡ X) r

-- The run fails and leaves the tables X.
abbrev Refuses : {A : Type 0} → Db → M A → Type 0
Refuses X m = Triple (λ db. db ≡ X) m (λ _ _. ⊥) (λ db. db ≡ X)

module _ (X : Db) (id : Uuid) (row : OrderRow)
    (found : first (select (order_id_is id) X.orders) ≡ some row)
    (is_closed : row.status ≡ closed) where
  some_inj : {a b : OrderRow} → some a ≡ some b → a ≡ b
  some_inj h = cc

  not_open : (order : Order) → Found id order X → same_order_status order.status closed ≡ false → ⊥
  not_open order f h =
      clash (ap (λ (r : OrderRow). r.status) (some_inj (sym f.0 ∙ found)) ∙ is_closed) h
    where
      clash : order.status ≡ closed → same_order_status order.status closed ≡ false → ⊥
      clash e h = ground arith

  -- what follows the test of the order never runs
  stops :
      {A : Type 0} (rest : Order → M A)
      → Refuses X (Orders.get_by_id id >>= λ order. (refuse_closed order >> rest order))
  stops rest = >>=-Triple (get_order-Triple id) λ order.
      fix-Triple {T = Found id order X} (λ _ db. db ≡ X)
        (λ db h. (subst (Found id order) h.0 h.1, h.0))
        λ f.
          >>=-Triple (guard-Triple (same_order_status order.status closed) order_closed (λ db p. p))
            λ _.
              fix-Triple {T = ⊥} (λ _ db. db ≡ X) (λ db h. (not_open order f h.1, h.0))
                λ no. absurd no

  add_item-Refuses : (input : CreateOrderItemInput) → Refuses X (add_item id input)
  unfolding add_item
  add_item-Refuses input =
      if-Triple
        (str_eq input.demand_code ""
          || str_eq input.description ""
          || str_eq input.delivery_date "")
        (λ _. raise-Triple (sentinel item_fields_required) (λ db p. p)) (λ _. stops _)

  update_item-Refuses :
      (item_id : Uuid) (input : UpdateOrderItemInput) → Refuses X (update_item id item_id input)
  unfolding update_item
  update_item-Refuses item_id input =
      if-Triple (is_given input.status)
        (λ _. raise-Triple (sentinel item_status_immutable) (λ db p. p))
        λ _.
          if-Triple (not (is_given input.description) && not (is_given input.delivery_date))
            (λ _. raise-Triple (sentinel validation) (λ db p. p)) (λ _. stops _)

  enqueue_sync-Refuses :
      (rfc_function : String) (item_id : Uuid) → Refuses X (enqueue_sync rfc_function id item_id)
  unfolding enqueue_sync
  enqueue_sync-Refuses rfc_function item_id = stops _

  -- Neither of AddItem, UpdateItem and EnqueueSync succeeds on an order that is CLOSED, and each
  -- leaves every table as it was, whatever it is given and whichever statements fail.
  pub closed-Refused :
      (w : World) (create : CreateOrderItemInput) (item_id : Uuid) (change : UpdateOrderItemInput)
      (rfc_function : String)
      → w.db ≡ X
      → Refused X (add_item id create w)
        × Refused X (update_item id item_id change w)
        × Refused X (enqueue_sync rfc_function id item_id w)
  closed-Refused w create item_id change rfc_function e = (
    (add_item-Refuses create).run w e,
    (update_item-Refuses item_id change).run w e,
    (enqueue_sync-Refuses rfc_function item_id).run w e,
  )
