-- ===== src/Store/Reads.antt =====
-- The repository operations that only read: they leave every table alone, and what they return.
use sap_orders_api.Prelude.{◌≡◌, refl, sym, Option, none, some, String, first, select, any}
use sap_orders_api.Domain.Errors.{sentinel, not_found}
use sap_orders_api.Domain.Types.{Uuid, Order}
use sap_orders_api.Domain.Paging.{OrderListFilter}
use sap_orders_api.Store.Monad.{Db, ◌>>=◌, query_row, query}
use sap_orders_api.Store.Triple.{
  Triple, Answers, query_row-Triple, query-Triple, >>=-Triple, pure-Triple, raise-Triple,
  weaken-Triple,
}
use sap_orders_api.Store.Orders
use sap_orders_api.Store.Orders.{
  or_not_found, order_id_is, items_of, with_db, page_of, offset_of, matching,
}
use sap_orders_api.Store.Items
use sap_orders_api.Store.Items.{item_of_order}
use sap_orders_api.Store.Logs
use sap_orders_api.Store.Outbox
use sap_orders_api.Store.Outbox.{active_for, entry_of_item, latest_of}

pub Answers-with_db :
    {A : Type 0} (P : Db → Type 0) (db : Db) (o : Option A)
    → P db
    → Answers (λ _. P) P (with_db db o)
Answers-with_db P db none h = tt
Answers-with_db P db (some a) h = (h, h)

module _ {P : Db → Type 0} where
  -- A statement that reads; its answer is a function of the tables.
  pub reads :
      {A : Type 0} (what : String) (g : Db → A)
      → Triple P (query_row what (λ _ _ db. some (g db, db))) (λ a db. P db × (a ≡ g db)) P
  reads what g =
      query_row-Triple P (λ a db. P db × (a ≡ g db)) P what _ (λ db p. p)
        (λ t u db p. ((p, refl), p))

  reads_rows :
      {A : Type 0} (what : String) (g : Db → A)
      → Triple P (query what (λ _ _ db. some (g db, db))) (λ a db. P db × (a ≡ g db)) P
  reads_rows what g =
      query-Triple P (λ a db. P db × (a ≡ g db)) P what _ (λ db p. p) (λ t u db p. ((p, refl), p))

  -- A row that is found is handed on; none is the error `not_found`.
  pub or_not_found-Triple :
      {A : Type 0} (g : Db → Option A) (o : Option A)
      → Triple (λ db. P db × (o ≡ g db)) (or_not_found o) (λ a db. P db × (g db ≡ some a)) P
  or_not_found-Triple g none = raise-Triple (sentinel not_found) (λ db p. p.0)
  or_not_found-Triple g (some a) = pure-Triple a (λ db p. (p.0, sym p.1))

  -- A single-row query and the error for no row.
  pub finds :
      {A : Type 0} (what : String) (g : Db → Option A)
      → Triple P
          (query_row what (λ _ _ db. some (g db, db)) >>= or_not_found)
          (λ a db. P db × (g db ≡ some a))
          P
  finds what g = >>=-Triple (reads what g) (or_not_found-Triple g)

  pub list_items_by_order_id-Triple :
      (id : Uuid)
      → Triple P (Orders.list_items_by_order_id id) (λ items db. P db × (items ≡ items_of id db)) P
  unfolding Orders.list_items_by_order_id
  list_items_by_order_id-Triple id = reads_rows "list order items: " (items_of id)

  pub get_item-Triple :
      (order_id item_id : Uuid)
      → Triple P
          (Items.get_by_id order_id item_id)
          (λ item db. P db × (first (select (item_of_order order_id item_id) db.items) ≡ some item))
          P
  unfolding Items.get_by_id
  get_item-Triple order_id item_id =
      finds "get order item: " (λ db. first (select (item_of_order order_id item_id) db.items))

  pub list_logs-Triple : (item_id : Uuid) → Triple P (Logs.list_by_item_id item_id) (λ _. P) P
  unfolding Logs.list_by_item_id
  list_logs-Triple item_id = query-Triple P (λ _. P) P _ _ (λ db p. p) (λ t u db p. (p, p))

  pub has_active-Triple :
      (item_id : Uuid)
      → Triple P
          (Outbox.has_active_by_item_id item_id)
          (λ b db. P db × (b ≡ any (active_for item_id) db.outbox))
          P
  unfolding Outbox.has_active_by_item_id
  has_active-Triple item_id =
      reads "check active outbox: " (λ db. any (active_for item_id) db.outbox)

  pub get_entry-Triple :
      (item_id outbox_id : Uuid)
      → Triple P
          (Outbox.get_by_id item_id outbox_id)
          (λ e db. P db × (first (select (entry_of_item item_id outbox_id) db.outbox) ≡ some e))
          P
  unfolding Outbox.get_by_id
  get_entry-Triple item_id outbox_id =
      finds "get outbox entry: " (λ db. first (select (entry_of_item item_id outbox_id) db.outbox))

-- The order with this id, and its items.
abbrev pub Found : Uuid → Order → Db → Type 0
Found id order db =
    (first (select (order_id_is id) db.orders) ≡ some order.row) × (order.items ≡ items_of id db)

module _ {P : Db → Type 0} where
  pub get_order-Triple :
      (id : Uuid) → Triple P (Orders.get_by_id id) (λ order db. P db × Found id order db) P
  unfolding Orders.get_by_id
  get_order-Triple id =
      >>=-Triple (reads "get order: " (λ db. first (select (order_id_is id) db.orders))) λ found.
        >>=-Triple (or_not_found-Triple (λ db. first (select (order_id_is id) db.orders)) found)
          λ row.
            >>=-Triple
              (weaken-Triple (λ db h. h) (λ items db h. h) (λ db h. h.0)
                (list_items_by_order_id-Triple id))
              λ items. pure-Triple _ (λ db h. (h.0.0, (h.0.1, h.1)))

  pub list-Triple : (filter : OrderListFilter) → Triple P (Orders.list filter) (λ _. P) P
  unfolding Orders.list
  list-Triple filter =
      >>=-Triple (query_row-Triple P (λ _. P) P "count orders: " _ (λ db p. p) (λ t u db p. (p, p)))
        λ total.
          >>=-Triple
            (query-Triple P (λ _. P) P "list orders: " _ (λ db p. p)
              (λ t u db p.
                Answers-with_db P db (page_of filter.limit (offset_of filter) (matching filter db))
                  p))
            λ rows. pure-Triple _ (λ db p. p)

  pub get_latest-Triple :
      (item_id : Uuid) → Triple P (Outbox.get_latest_by_item_id item_id) (λ _. P) P
  unfolding Outbox.get_latest_by_item_id
  get_latest-Triple item_id =
      weaken-Triple (λ db p. p) (λ a db h. h.0) (λ db p. p)
        (finds "get latest outbox entry: " (λ db. latest_of item_id db))
