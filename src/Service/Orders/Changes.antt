-- ===== src/Service/Orders/Changes.antt =====
-- What the operations of internal/service/order_service.go make of the orders.
use sap_orders_api.Prelude.{
  ◌≡◌, refl, sym, ap, subst, ◌∙◌, true, false, not, ◌||◌, Option, none, some, [], ◌∷◌, ◌++◌, String,
  str_eq, update_rows,
}
use sap_orders_api.Domain.Errors.{
  sentinel, order_number_required, status_required, invalid_order_status, item_fields_required,
  order_closed,
}
use sap_orders_api.Domain.Types.{
  Uuid, Time, OrderStatus, opened, in_progress, closed, OrderRow, Order, CreateOrderInput,
  UpdateOrderInput, CreateOrderItemInput,
}
use sap_orders_api.Domain.Status.{same_order_status, order_status_is_valid, can_transition_to}
use sap_orders_api.Domain.Transitions.{Allowed, can_transition_to-Allowed}
use sap_orders_api.Store.Monad.{Db, ok, M, ◌>>=◌}
use sap_orders_api.Store.Triple.{
  Triple, query_row-Triple, >>=-Triple, pure-Triple, raise-Triple, if-Triple, weaken-Triple,
  fix-Triple, check-Triple, guard-Triple,
}
use sap_orders_api.Store.Orders
use sap_orders_api.Store.Orders.{order_id_is, set_status, order_taken, new_order, with_order}
use sap_orders_api.Store.Reads.{Found, get_order-Triple}
use sap_orders_api.Store.Writes.{Answers-unless, create_item-Triple}
use sap_orders_api.Service.Orders.{
  create_order, update_to, status_given, update_order, promote_order, add_item,
}
use sap_orders_api.Service.Orders.Frame.{parse_delivery_date-Keeps}

-- What an operation may make of the orders of the tables X.
pub data Changed (X Y : Db) : Type 0 where
  unchanged : Y.orders ≡ X.orders → Changed X Y
  added :
      (row : OrderRow)
      → row.status ≡ opened
      → order_taken row X ≡ false
      → Y.orders ≡ X.orders ++ row ∷ []
      → Changed X Y
  moved :
      (id : Uuid) (order : Order) (next : OrderStatus) (t : Time)
      → Found id order X
      → Allowed order.items order.status next
      → Y.orders ≡ update_rows (order_id_is id) (set_status next t) X.orders
      → Changed X Y
  started :
      (id : Uuid) (order : Order) (t : Time)
      → Found id order X
      → same_order_status order.status opened ≡ true
      → Y.orders ≡ update_rows (order_id_is id) (set_status in_progress t) X.orders
      → Changed X Y

module _ (X : Db) where
  -- from orders as in X the operation makes an allowed change, however it ends
  abbrev Changes : {A : Type 0} → (Db → Type 0) → M A → Type 0
  Changes P m = Triple P m (λ _. Changed X) (Changed X)

  abbrev Same : Db → Type 0
  Same db = db.orders ≡ X.orders

  update-Changes :
      (id : Uuid) (next : OrderStatus)
      → ((db : Db) (t : Time)
          → db.orders ≡ update_rows (order_id_is id) (set_status next t) X.orders
          → Changed X db)
      → Changes Same (Orders.update id next)
  unfolding Orders.update
  update-Changes id next change =
      >>=-Triple
        (query_row-Triple Same (λ _. Changed X) (Changed X) "update order: " _ (λ db p. unchanged p)
          (λ t u db p.
            let c = change _ t (ap (update_rows (order_id_is id) (set_status next t)) p) in (c, c)))
        λ found. answered found
    where
      answered :
          (found : Option OrderRow)
          → Triple
              (Changed X)
              (Orders.or_not_found found >>= λ row. λ w. (ok (Orders.bare row), w))
              (λ _. Changed X)
              (Changed X)
      answered none =
          >>=-Triple {Q = λ _. Changed X} (raise-Triple _ (λ db p. p))
            λ row. pure-Triple _ (λ db p. p)
      answered (some row) =
          >>=-Triple {Q = λ _. Changed X} (pure-Triple row (λ db p. p))
            λ r. pure-Triple _ (λ db p. p)

  pub create_order-Changes :
      (input : CreateOrderInput) (by : String) → Changes (λ db. db ≡ X) (create_order input by)
  unfolding create_order Orders.create
  create_order-Changes input by =
      if-Triple (str_eq input.order_number "")
        (λ _.
          raise-Triple (sentinel order_number_required) (λ db p. unchanged (ap (λ d. d.orders) p)))
        λ _.
          >>=-Triple
            (query_row-Triple (λ db. db ≡ X) (λ _. Changed X) (Changed X) "create order: " _
              (λ db p. unchanged (ap (λ d. d.orders) p))
              λ t u db p.
                let row = new_order input.order_number by t u in
                Answers-unless (λ _. Changed X) (Changed X) (order_taken row db) row
                  (with_order row db)
                  λ free.
                    let c =
                      added row refl (ap (order_taken row) (sym p) ∙ free)
                        (ap (λ d. d.orders ++ row ∷ []) p) in
                    (c, c))
            λ row. pure-Triple _ (λ db p. p)

  -- an order that is read from X
  reads :
      {A : Type 0} (id : Uuid) {f : Order → M A}
      → ((order : Order) → Found id order X → Changes (λ db. db ≡ X) (f order))
      → Changes (λ db. db ≡ X) (Orders.get_by_id id >>= f)
  reads id h =
      >>=-Triple
        (weaken-Triple (λ db p. p) (λ o db q. q) (λ db p. unchanged (ap (λ d. d.orders) p))
          (get_order-Triple id))
        λ order.
          fix-Triple {T = Found id order X} (λ _ db. db ≡ X)
            (λ db q. (subst (Found id order) q.0 q.1, q.0)) (h order)

  update_to-Changes : (id : Uuid) (next : OrderStatus) → Changes (λ db. db ≡ X) (update_to id next)
  unfolding update_to
  update_to-Changes id next =
      if-Triple (not (order_status_is_valid next))
        (λ _.
          raise-Triple (sentinel invalid_order_status) (λ db p. unchanged (ap (λ d. d.orders) p)))
        λ _. reads id λ order found.
          >>=-Triple
            (check-Triple (can_transition_to order.status next order.items)
              (λ db p. unchanged (ap (λ d. d.orders) p)))
            λ _.
              fix-Triple {T = can_transition_to order.status next order.items ≡ none}
                (λ _ db. Same db) (λ db h. (h.1, ap (λ d. d.orders) h.0))
                λ passed. update-Changes id next λ db t.
                  moved id order next t found
                    ((can_transition_to-Allowed order.status next order.items).0 passed)

  status_given-Changes :
      (id : Uuid) (status : Option OrderStatus) → Changes (λ db. db ≡ X) (status_given id status)
  unfolding status_given
  status_given-Changes id none =
      raise-Triple (sentinel status_required) (λ db p. unchanged (ap (λ d. d.orders) p))
  status_given-Changes id (some status) = update_to-Changes id status

  pub update_order-Changes :
      (id : Uuid) (input : UpdateOrderInput) → Changes (λ db. db ≡ X) (update_order id input)
  unfolding update_order
  update_order-Changes id input = status_given-Changes id input.status

  promote_order-Changes :
      (id : Uuid) (order : Order) → Found id order X → Changes Same (promote_order id order.status)
  unfolding promote_order
  promote_order-Changes id order found =
      if-Triple (same_order_status order.status opened)
        (λ e.
          >>=-Triple (update-Changes id in_progress (λ db t. started id order t found e))
            λ _. pure-Triple tt (λ db p. p))
        (λ _. pure-Triple tt (λ db p. unchanged p))

  pub add_item-Changes :
      (id : Uuid) (input : CreateOrderItemInput) → Changes (λ db. db ≡ X) (add_item id input)
  unfolding add_item
  add_item-Changes id input =
      if-Triple
        (str_eq input.demand_code ""
          || str_eq input.description ""
          || str_eq input.delivery_date "")
        (λ _.
          raise-Triple (sentinel item_fields_required) (λ db p. unchanged (ap (λ d. d.orders) p)))
        λ _. reads id λ order found.
          >>=-Triple
            (guard-Triple (same_order_status order.status closed) order_closed
              (λ db p. unchanged (ap (λ d. d.orders) p)))
            λ _.
              >>=-Triple
                (weaken-Triple (λ db h. ap (λ d. d.orders) h.0) (λ _ db h. h) (λ db p. unchanged p)
                  (parse_delivery_date-Keeps Same input.delivery_date))
                λ date.
                  >>=-Triple
                    (weaken-Triple (λ db h. h) (λ _ db h. h) (λ db p. unchanged p)
                      (create_item-Triple id input.demand_code input.description date
                        (λ db rows p. p)))
                    λ item.
                      >>=-Triple (promote_order-Changes id order found)
                        λ _. pure-Triple item (λ db p. p)
