-- ===== src/Service/Orders/Created.antt =====
-- CreateOrder of internal/service/order_service.go: what GetOrder answers after it, and what becomes
-- of an order number that is taken.
use sap_orders_api.Prelude.{
  ℕ, ◌≡◌, refl, sym, ap, subst, ◌∙◌, true, false, List, [], ◌∷◌, String, str_eq, select, any, ◌==◌,
  ==_refl,
}
use sap_orders_api.Prelude.Members.{or-false_left, or-false_right}
use sap_orders_api.Prelude.Selected.{first-added, any-either}
use sap_orders_api.Prelude.Lists.{sort_with, sort_asc}
use sap_orders_api.Domain.Dates.{day_number}
use sap_orders_api.Domain.Types.{Uuid, opened, OrderItem, Order, CreateOrderInput}
use sap_orders_api.Store.Monad.{Db, World, ok}
use sap_orders_api.Store.Total.{
  Steady, Total, answered, >>=-Total, pure-Total, if-Total, query_row-Total,
}
use sap_orders_api.Store.Orders
use sap_orders_api.Store.Orders.{bare, order_id_is, order_taken, new_order, with_order, items_of}
use sap_orders_api.Store.Reads.{Found}
use sap_orders_api.Service.Orders.{create_order, get_order}
use sap_orders_api.Service.Sync.Success.{Gives-unless}
use sap_orders_api.Service.Sync.Admission.{get_order-Reads}

none-selected :
    (id : Uuid) (items : List OrderItem)
    → any (λ i. i.order_id == id) items ≡ false
    → select (λ i. i.order_id == id) items ≡ []
none-selected id [] h = refl
none-selected id (i ∷ items) h =
    let rest = none-selected id items (or-false_right (i.order_id == id) _ h) in
    rw (or-false_left (i.order_id == id) _ h) rest

module _ (k : World) (input : CreateOrderInput) (by : String) where
  -- No id that is drawn is in use, for an order or by an item, and the number is not taken.
  pub record IsNewOrder : Type 0 where
    pub number_given : str_eq input.order_number "" ≡ false
    pub number_free : any (λ r. str_eq r.order_number input.order_number) k.db.orders ≡ false
    pub id_free : (n : ℕ) → any (order_id_is (k.random n)) k.db.orders ≡ false
    pub no_items : (n : ℕ) → any (λ i. i.order_id == k.random n) k.db.items ≡ false

  -- The order that was created from the tables of k.
  abbrev Added : Order → Db → Type 0
  Added order db =
      (n : ℕ) × (order ≡ bare (new_order input.order_number by k.clock (k.random n)))
      × (db ≡ with_order (new_order input.order_number by k.clock (k.random n)) k.db)

  create_order-Total :
      Steady k → IsNewOrder → Total k (λ db. db ≡ k.db) (create_order input by) Added
  unfolding create_order Orders.create
  create_order-Total steady new =
      if-Total (str_eq input.order_number "") (λ e. absurd (clash e new.number_given))
        λ _.
          >>=-Total
            (query_row-Total steady
              {Q = λ row db.
                (n : ℕ) × (row ≡ new_order input.order_number by k.clock (k.random n))
                × (db ≡ with_order (new_order input.order_number by k.clock (k.random n)) k.db)}
              "create order: " _
              λ n db p.
                let row = new_order input.order_number by k.clock (k.random n) in
                Gives-unless _ (order_taken row db) row (with_order row db)
                  (ap (order_taken row) p
                    ∙ any-either (order_id_is (k.random n))
                        (λ r. str_eq r.order_number input.order_number) k.db.orders (new.id_free n)
                        new.number_free)
                  (n, refl, ap (with_order row) p))
            λ row. pure-Total _ (λ db h. (h.0, ap bare h.1, h.2))
    where
      clash : str_eq input.order_number "" ≡ true → str_eq input.order_number "" ≡ false → ⊥
      clash a b = cc

  -- the order that was added is found, without items
  added-Found :
      IsNewOrder
      → (n : ℕ)
      → let row = new_order input.order_number by k.clock (k.random n) in
        Found row.id (bare row) (with_order row k.db)
  unfolding sort_with
  added-Found new n = (
    first-added (order_id_is (k.random n)) (new_order input.order_number by k.clock (k.random n))
        k.db.orders (new.id_free n) (==_refl (k.random n)),
    sym (
        ap (sort_asc (λ (i : OrderItem). day_number i.delivery_date))
          (none-selected (k.random n) k.db.items (new.no_items n))),
  )

  -- The answer of CreateOrder, and that of GetOrder after it.
  pub record ReadBack (order : Order) : Type 0 where
    pub created : (create_order input by k).0 ≡ ok order
    pub found : (get_order order.id (create_order input by k).1).0 ≡ ok order
    pub number : order.order_number ≡ input.order_number
    pub creator : order.created_by ≡ by
    pub is_open : order.status ≡ opened
    pub no_items : order.items ≡ []

  -- When no statement fails, CreateOrder with an order number that is given and not taken succeeds,
  -- if the ids that are drawn are in use neither for an order nor by an item; GetOrder by the id of
  -- its answer then gives the same order, OPEN, with the number and the creator that were sent and
  -- without items.
  pub create_order-ReadBack : Steady k → IsNewOrder → (order : Order) × ReadBack order
  unfolding get_order
  create_order-ReadBack steady new =
      let (order, v, same, like, (n, is, tables)) = answered k Added (create_order input by k) (
        (create_order-Total steady new).run k
          (record { clock = refl; random = refl; faults = refl }) refl) in
      let (again, z, got, _, (equal, _)) = answered k _ (Orders.get_by_id order.id v) (
        (get_order-Reads k steady v.db order.id order (
            subst (λ d. Found order.id order d) (sym tables)
              (subst
                (λ o.
                  Found o.id o
                    (with_order (new_order input.order_number by k.clock (k.random n)) k.db))
                (sym is) (added-Found new n)))).run
          v like refl) in
      (
        order,
        record {
          created = ap (λ r. r.0) same;
          found =
              ap (λ w. (Orders.get_by_id order.id w).0) (ap (λ r. r.1) same)
              ∙ ap (λ r. r.0) got
              ∙ ap ok equal;
          number = ap (λ o. o.order_number) is;
          creator = ap (λ o. o.created_by) is;
          is_open = ap (λ o. o.status) is;
          no_items = ap (λ o. o.items) is;
        },
      )
