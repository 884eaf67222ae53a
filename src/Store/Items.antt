-- ===== src/Store/Items.antt =====
-- internal/repository/item_repository.go.
use sap_orders_api.Prelude.{
  Bool, ◌&&◌, ◌||◌, not, ◌==◌, Option, none, some, [], ◌∷◌, ◌++◌, String, str_eq, first, select,
  update_rows, any, if◌then◌else◌,
}
use sap_orders_api.Domain.Errors.{not_found}
use sap_orders_api.Domain.Types.{Uuid, Time, Date, ItemStatus, OrderItem}
use sap_orders_api.Store.Monad.{Db, unless, M, pure, fail, ◌>>=◌, query_row}
use sap_orders_api.Store.Orders.{or_not_found, with_db}

-- `WHERE id = $1`, and `WHERE id = $1 AND order_id = $2`
abbrev pub item_id_is : Uuid → OrderItem → Bool
item_id_is item_id item = item.id == item_id

abbrev pub item_of_order : Uuid → Uuid → OrderItem → Bool
item_of_order order_id item_id item = (item.id == item_id) && (item.order_id == order_id)

-- The row of `INSERT INTO order_items`, with the table's defaults.
abbrev pub new_item : Uuid → String → String → Date → Time → Uuid → OrderItem
new_item order_id demand_code description delivery_date time id = record {
  id = id;
  order_id = order_id;
  demand_code = demand_code;
  description = description;
  delivery_date = delivery_date;
  status = ItemStatus.pending;
  created_at = time;
  updated_at = time;
}

-- PRIMARY KEY (id), UNIQUE (order_id, demand_code) and REFERENCES orders(id)
abbrev pub item_taken : OrderItem → Db → Bool
item_taken item db =
    any
      (λ i.
        (i.id == item.id)
        || ((i.order_id == item.order_id) && str_eq i.demand_code item.demand_code))
      db.items
    || not (any (λ o. o.id == item.order_id) db.orders)

abbrev pub with_item : OrderItem → Db → Db
with_item item db = record db { items = db.items ++ item ∷ [] }

abbrev pub insert_item : OrderItem → Db → Option (OrderItem × Db)
insert_item item db = unless (item_taken item db) (item, with_item item db)

unfoldable pub create : Uuid → String → String → Date → M OrderItem
create order_id demand_code description delivery_date =
    query_row "create order item: "
      λ time id db. insert_item (new_item order_id demand_code description delivery_date time id) db

unfoldable pub get_by_id : Uuid → Uuid → M OrderItem
get_by_id order_id item_id = do
  found ←
      query_row "get order item: "
        λ _ _ db. some (first (select (item_of_order order_id item_id) db.items), db)
  or_not_found found

abbrev pub or_keep : {A : Type 0} → Option A → A → A
or_keep none a = a
or_keep (some b) a = b

abbrev pub set_fields : String → Date → ItemStatus → Time → OrderItem → OrderItem
set_fields description delivery_date status time item = record item {
  description = description;
  delivery_date = delivery_date;
  status = status;
  updated_at = time;
}

-- `Scan` of no row is an error of the driver here, since the code does not ask for ErrNoRows.
abbrev pub update_item :
    Uuid → Uuid → String → Date → ItemStatus → Time → Db → Option (OrderItem × Db)
update_item order_id item_id description delivery_date status time db =
    let rows =
      update_rows (item_of_order order_id item_id)
        (set_fields description delivery_date status time) db.items in
    with_db (record db { items = rows }) (first (select (item_of_order order_id item_id) rows))

unfoldable pub update : Uuid → Uuid → Option String → Option Date → Option ItemStatus → M OrderItem
unfolding get_by_id
update order_id item_id description delivery_date status = do
  current ← get_by_id order_id item_id
  query_row "update order item: " λ time _ db.
      update_item order_id item_id (or_keep description current.description)
        (or_keep delivery_date current.delivery_date) (or_keep status current.status) time db

abbrev pub set_status : ItemStatus → Time → OrderItem → OrderItem
set_status status time item = record item { status = status; updated_at = time }

-- `UPDATE order_items SET status, updated_at WHERE id`, and whether a row was affected
abbrev pub update_item_status : Uuid → ItemStatus → Time → Db → Bool × Db
update_item_status item_id status time db = (
  any (item_id_is item_id) db.items,
  record db { items = update_rows (item_id_is item_id) (set_status status time) db.items },
)

unfoldable pub update_status : Uuid → ItemStatus → M (Unit {0})
update_status item_id status = do
  affected ←
      query_row "update item status: " λ time _ db. some (update_item_status item_id status time db)
  if affected then pure tt else fail not_found
