-- ===== src/Store/Writes.antt =====
-- The repository operations that write: each changes one table and leaves the others alone.
use sap_orders_api.Prelude.{◌≡◌, refl, Bool, true, false, Option, none, some, List, String}
use sap_orders_api.Domain.Errors.{sentinel, not_found}
use sap_orders_api.Domain.Types.{
  Uuid, Date, OrderStatus, ItemStatus, OrderRow, OrderItem, SapSyncLog,
}
use sap_orders_api.Store.Monad.{Db, unless}
use sap_orders_api.Store.Triple.{
  Triple, Answers, query_row-Triple, >>=-Triple, pure-Triple, raise-Triple, if-Triple,
}
use sap_orders_api.Store.Orders
use sap_orders_api.Store.Orders.{or_not_found, with_db, new_order, order_taken, with_order}
use sap_orders_api.Store.Items
use sap_orders_api.Store.Items.{new_item, item_taken, with_item}
use sap_orders_api.Store.Logs
use sap_orders_api.Store.Logs.{LogInput, new_log, log_taken, with_log}
use sap_orders_api.Store.Reads.{get_item-Triple, Answers-with_db}

-- A predicate that does not depend on one of the tables.
abbrev pub IgnoresOrders : (Db → Type 0) → Type 0
IgnoresOrders P = (db : Db) (rows : List OrderRow) → P db → P (record db { orders = rows })

abbrev pub IgnoresItems : (Db → Type 0) → Type 0
IgnoresItems P = (db : Db) (rows : List OrderItem) → P db → P (record db { items = rows })

abbrev pub IgnoresLogs : (Db → Type 0) → Type 0
IgnoresLogs P = (db : Db) (rows : List SapSyncLog) → P db → P (record db { logs = rows })

pub Answers-unless :
    {A : Type 0} (Q : A → Db → Type 0) (E : Db → Type 0) (b : Bool) (a : A) (db : Db)
    → (b ≡ false → Q a db × E db)
    → Answers Q E (unless b (a, db))
Answers-unless Q E true a db h = tt
Answers-unless Q E false a db h = h refl

module _ {P : Db → Type 0} where
  or_not_found-Keeps : {A : Type 0} (o : Option A) → Triple P (or_not_found o) (λ _. P) P
  or_not_found-Keeps none = raise-Triple (sentinel not_found) (λ db p. p)
  or_not_found-Keeps (some a) = pure-Triple a (λ db p. p)

  pub create_order-Triple :
      (order_number created_by : String)
      → IgnoresOrders P
      → Triple P (Orders.create order_number created_by) (λ _. P) P
  unfolding Orders.create
  create_order-Triple order_number created_by keep =
      >>=-Triple
        (query_row-Triple P (λ _. P) P "create order: " _ (λ db p. p)
          (λ t u db p.
            let row = new_order order_number created_by t u in
            Answers-unless (λ _. P) P (order_taken row db) row (with_order row db)
              (λ _. (keep db _ p, keep db _ p))))
        λ row. pure-Triple _ (λ db p. p)

  pub update_order-Triple :
      (id : Uuid) (status : OrderStatus)
      → IgnoresOrders P
      → Triple P (Orders.update id status) (λ _. P) P
  unfolding Orders.update
  update_order-Triple id status keep =
      >>=-Triple
        (query_row-Triple P (λ _. P) P "update order: " _ (λ db p. p)
          (λ t u db p. (keep db _ p, keep db _ p)))
        λ found. >>=-Triple (or_not_found-Keeps found) λ row. pure-Triple _ (λ db p. p)

  pub create_item-Triple :
      (order_id : Uuid) (demand_code description : String) (delivery_date : Date)
      → IgnoresItems P
      → Triple P (Items.create order_id demand_code description delivery_date) (λ _. P) P
  unfolding Items.create
  create_item-Triple order_id demand_code description delivery_date keep =
      query_row-Triple P (λ _. P) P "create order item: " _ (λ db p. p)
        (λ t u db p.
          let item = new_item order_id demand_code description delivery_date t u in
          Answers-unless (λ _. P) P (item_taken item db) item (with_item item db)
            (λ _. (keep db _ p, keep db _ p)))

  pub update_item-Triple :
      (order_id item_id : Uuid) (description : Option String) (delivery_date : Option Date)
      (status : Option ItemStatus)
      → IgnoresItems P
      → Triple P (Items.update order_id item_id description delivery_date status) (λ _. P) P
  unfolding Items.update
  update_item-Triple order_id item_id description delivery_date status keep =
      >>=-Triple (get_item-Triple order_id item_id) λ current.
        query_row-Triple _ (λ _. P) P "update order item: " _ (λ db p. p.0)
          (λ t u db p. Answers-with_db P _ _ (keep db _ p.0))

  pub update_status-Triple :
      (item_id : Uuid) (status : ItemStatus)
      → IgnoresItems P
      → Triple P (Items.update_status item_id status) (λ _. P) P
  unfolding Items.update_status
  update_status-Triple item_id status keep =
      >>=-Triple
        (query_row-Triple P (λ _. P) P "update item status: " _ (λ db p. p)
          (λ t u db p. (keep db _ p, keep db _ p)))
        λ affected.
          if-Triple affected (λ e. pure-Triple tt (λ db p. p))
            (λ e. raise-Triple (sentinel not_found) (λ db p. p))

  pub create_log-Triple : (log : LogInput) → IgnoresLogs P → Triple P (Logs.create log) (λ _. P) P
  unfolding Logs.create
  create_log-Triple log keep =
      query_row-Triple P (λ _. P) P "create sync log: " _ (λ db p. p)
        (λ t u db p.
          let row = new_log log t u in
          Answers-unless (λ _. P) P (log_taken row db) row (with_log row db)
            (λ _. (keep db _ p, keep db _ p)))
