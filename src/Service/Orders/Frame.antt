-- ===== src/Service/Orders/Frame.antt =====
-- The operations of internal/service/order_service.go write the tables of orders and items only.
use sap_orders_api.Prelude.{not, ◌||◌, ◌&&◌, Option, none, some, String, str_eq}
use sap_orders_api.Domain.Errors.{
  Sentinel, sentinel, validation, order_number_required, status_required, invalid_order_status,
  item_fields_required, order_closed, invalid_delivery_date, delivery_date_in_past,
  item_status_immutable,
}
use sap_orders_api.Domain.Types.{
  Uuid, Date, OrderStatus, opened, in_progress, Order, CreateOrderInput, UpdateOrderInput,
  CreateOrderItemInput, UpdateOrderItemInput,
}
use sap_orders_api.Domain.Status.{same_order_status, order_status_is_valid, can_transition_to}
use sap_orders_api.Domain.Dates.{parse_date, is_delivery_date_in_past}
use sap_orders_api.Store.Monad.{Db, M, fail}
use sap_orders_api.Store.Triple.{
  Triple, >>=-Triple, pure-Triple, raise-Triple, if-Triple, weaken-Triple, check-Triple,
  guard-Triple, now-Triple,
}
use sap_orders_api.Store.Orders
use sap_orders_api.Store.Reads.{get_order-Triple, get_item-Triple}
use sap_orders_api.Store.Writes.{
  IgnoresOrders, IgnoresItems, create_order-Triple, update_order-Triple, create_item-Triple,
  update_item-Triple,
}
use sap_orders_api.Service.Orders.{
  create_order, update_to, status_given, update_order, refuse_closed, parse_delivery_date,
  promote_order, add_item, parse_optional_date, update_item, is_given, promoted, check_date_given,
}

-- The operation keeps P, however it ends.
abbrev pub Keeps : (Db → Type 0) → {A : Type 0} → M A → Type 0
Keeps P m = Triple P m (λ _. P) P

module _ (P : Db → Type 0) where
  fail-Keeps : {A : Type 0} (s : Sentinel) → Keeps P {A = A} (fail s)
  fail-Keeps s = raise-Triple (sentinel s) (λ db p. p)

  first_part :
      {A : Type 0} {m : M A} {Q : A → Db → Type 0}
      → ((a : A) (db : Db) → Q a db → P db)
      → Triple P m Q P
      → Keeps P m
  first_part f h = weaken-Triple (λ db p. p) f (λ db p. p) h

  pub get_order-Keeps : (id : Uuid) → Keeps P (Orders.get_by_id id)
  get_order-Keeps id = first_part (λ a db h. h.0) (get_order-Triple id)

  pub refuse_closed-Keeps : (order : Order) → Keeps P (refuse_closed order)
  refuse_closed-Keeps order = first_part (λ a db h. h.0) (guard-Triple _ order_closed (λ db p. p))

  check_date_given-Keeps : (date : Option Date) → Keeps P (check_date_given date)
  check_date_given-Keeps none = fail-Keeps invalid_delivery_date
  check_date_given-Keeps (some date) = >>=-Triple now-Triple λ time.
      if-Triple (is_delivery_date_in_past time date) (λ _. fail-Keeps delivery_date_in_past)
        (λ _. pure-Triple date (λ db p. p))

  pub parse_delivery_date-Keeps : (text : String) → Keeps P (parse_delivery_date text)
  parse_delivery_date-Keeps text = check_date_given-Keeps (parse_date text)

  pub parse_optional_date-Keeps : (text : Option String) → Keeps P (parse_optional_date text)
  parse_optional_date-Keeps none = pure-Triple none (λ db p. p)
  parse_optional_date-Keeps (some text) =
      >>=-Triple (parse_delivery_date-Keeps text) λ date. pure-Triple (some date) (λ db p. p)

  module _ (orders : IgnoresOrders P) where
    pub create_order-Keeps :
        (input : CreateOrderInput) (by : String) → Keeps P (create_order input by)
    unfolding create_order
    create_order-Keeps input by =
        if-Triple (str_eq input.order_number "") (λ _. fail-Keeps order_number_required)
          (λ _. create_order-Triple input.order_number by orders)

    update_to-Keeps : (id : Uuid) (status : OrderStatus) → Keeps P (update_to id status)
    unfolding update_to
    update_to-Keeps id status =
        if-Triple (not (order_status_is_valid status)) (λ _. fail-Keeps invalid_order_status)
          λ _. >>=-Triple (get_order-Keeps id) λ order.
            >>=-Triple
              (first_part (λ a db h. h.0)
                (check-Triple (can_transition_to order.status status order.items) (λ db p. p)))
              λ _. update_order-Triple id status orders

    status_given-Keeps :
        (id : Uuid) (status : Option OrderStatus) → Keeps P (status_given id status)
    unfolding status_given
    status_given-Keeps id none = fail-Keeps status_required
    status_given-Keeps id (some status) = update_to-Keeps id status

    pub update_order-Keeps :
        (id : Uuid) (input : UpdateOrderInput) → Keeps P (update_order id input)
    unfolding update_order
    update_order-Keeps id input = status_given-Keeps id input.status

    pub promote_order-Keeps : (id : Uuid) (status : OrderStatus) → Keeps P (promote_order id status)
    unfolding promote_order
    promote_order-Keeps id status =
        if-Triple (same_order_status status opened)
          (λ _.
            >>=-Triple (update_order-Triple id in_progress orders) λ _. pure-Triple tt (λ db p. p))
          (λ _. pure-Triple tt (λ db p. p))

    pub add_item-Keeps :
        IgnoresItems P → (id : Uuid) (input : CreateOrderItemInput) → Keeps P (add_item id input)
    unfolding add_item
    add_item-Keeps items id input =
        if-Triple
          (str_eq input.demand_code ""
            || str_eq input.description ""
            || str_eq input.delivery_date "")
          (λ _. fail-Keeps item_fields_required)
          λ _. >>=-Triple (get_order-Keeps id) λ order. >>=-Triple (refuse_closed-Keeps order) λ _.
            >>=-Triple (parse_delivery_date-Keeps input.delivery_date) λ date.
              >>=-Triple (create_item-Triple id input.demand_code input.description date items)
                λ item.
                  >>=-Triple (promote_order-Keeps id order.status) λ _. pure-Triple item (λ db p. p)

  pub update_item-Keeps :
      IgnoresItems P
      → (order_id item_id : Uuid) (input : UpdateOrderItemInput)
      → Keeps P (update_item order_id item_id input)
  unfolding update_item
  update_item-Keeps items order_id item_id input =
      if-Triple (is_given input.status) (λ _. fail-Keeps item_status_immutable)
        λ _.
          if-Triple (not (is_given input.description) && not (is_given input.delivery_date))
            (λ _. fail-Keeps validation)
            λ _. >>=-Triple (get_order-Keeps order_id) λ order.
              >>=-Triple (refuse_closed-Keeps order) λ _.
                >>=-Triple (first_part (λ a db h. h.0) (get_item-Triple order_id item_id)) λ item.
                  >>=-Triple (parse_optional_date-Keeps input.delivery_date) λ date.
                    update_item-Triple order_id item_id input.description date
                      (promoted item.status) items
