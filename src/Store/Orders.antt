-- ===== src/Store/Orders.antt =====
-- internal/repository/order_repository.go.
use sap_orders_api.Prelude.{
  Bool, true, ◌||◌, ◌==◌, Option, none, some, List, [], ◌∷◌, ◌++◌, map, String, str_eq, length,
  take, drop, first, select, update_rows, any, sort_asc, sort_desc, if◌then◌else◌,
}
use sap_orders_api.Prelude.Int.{ℤ, pos, ◌-ℤ◌, ◌*ℤ◌, ltz, wrap64, pos_part}
use sap_orders_api.Domain.Errors.{not_found}
use sap_orders_api.Domain.Types.{Uuid, Time, OrderStatus, opened, OrderRow, OrderItem, Order}
use sap_orders_api.Domain.Status.{same_order_status}
use sap_orders_api.Domain.Dates.{day_number}
use sap_orders_api.Domain.Paging.{OrderListFilter, PagedResult, new_paged_result}
use sap_orders_api.Store.Monad.{Db, unless, M, pure, fail, ◌>>=◌, query_row, query}

-- `WHERE id = $1`
abbrev pub order_id_is : Uuid → OrderRow → Bool
order_id_is id row = row.id == id

-- `WHERE ($1::text IS NULL OR status = $1)`
abbrev pub status_matches : Option OrderStatus → OrderRow → Bool
status_matches none row = true
status_matches (some s) row = same_order_status row.status s

-- `ORDER BY created_at DESC LIMIT $2 OFFSET $3`; a negative limit or offset is an error.
abbrev pub page_of : ℤ → ℤ → List OrderRow → Option (List OrderRow)
page_of limit offset rows =
    if ltz limit (pos 0) || ltz offset (pos 0)
    then none
    else some (take (pos_part limit) (drop (pos_part offset) (sort_desc (λ r. r.created_at) rows)))

abbrev pub bare : OrderRow → Order
bare row = record { row = row; items = [] }

abbrev pub or_not_found : {A : Type 0} → Option A → M A
or_not_found none = fail not_found
or_not_found (some a) = pure a

abbrev pub with_db : {A : Type 0} → Db → Option A → Option (A × Db)
with_db db none = none
with_db db (some a) = some (a, db)

-- `offset := (filter.Page - 1) * filter.Limit`
abbrev pub offset_of : OrderListFilter → ℤ
offset_of filter = wrap64 (wrap64 (filter.page -ℤ pos 1) *ℤ filter.limit)

abbrev pub matching : OrderListFilter → Db → List OrderRow
matching filter db = select (status_matches filter.status) db.orders

unfoldable pub list : OrderListFilter → M (PagedResult Order)
unfolding new_paged_result
list filter = do
  total ← query_row "count orders: " λ _ _ db. some (pos (length (matching filter db)), db)
  rows ←
      query "list orders: "
        λ _ _ db. with_db db (page_of filter.limit (offset_of filter) (matching filter db))
  pure (new_paged_result (map bare rows) filter.page filter.limit total)

-- `WHERE order_id = $1 ORDER BY delivery_date ASC`
abbrev pub items_of : Uuid → Db → List OrderItem
items_of id db =
    sort_asc (λ i. day_number i.delivery_date) (select (λ i. i.order_id == id) db.items)

unfoldable pub list_items_by_order_id : Uuid → M (List OrderItem)
list_items_by_order_id id = query "list order items: " λ _ _ db. some (items_of id db, db)

unfoldable pub get_by_id : Uuid → M Order
unfolding list_items_by_order_id
get_by_id id = do
  found ← query_row "get order: " λ _ _ db. some (first (select (order_id_is id) db.orders), db)
  row ← or_not_found found
  items ← list_items_by_order_id id
  pure (record { row = row; items = items })

-- The row that `INSERT INTO orders (order_number, created_by)` makes, with the table's defaults.
abbrev pub new_order : String → String → Time → Uuid → OrderRow
new_order order_number created_by time id = record {
  id = id;
  order_number = order_number;
  status = opened;
  created_by = created_by;
  created_at = time;
  updated_at = time;
}

-- PRIMARY KEY (id) and UNIQUE (order_number)
abbrev pub order_taken : OrderRow → Db → Bool
order_taken row db = any (λ r. (r.id == row.id) || str_eq r.order_number row.order_number) db.orders

abbrev pub with_order : OrderRow → Db → Db
with_order row db = record db { orders = db.orders ++ row ∷ [] }

abbrev pub insert_order : OrderRow → Db → Option (OrderRow × Db)
insert_order row db = unless (order_taken row db) (row, with_order row db)

unfoldable pub create : String → String → M Order
create order_number created_by = do
  row ←
      query_row "create order: "
        λ time id db. insert_order (new_order order_number created_by time id) db
  pure (bare row)

abbrev pub set_status : OrderStatus → Time → OrderRow → OrderRow
set_status status time row = record row { status = status; updated_at = time }

-- `UPDATE … RETURNING`: the changed row, if there is one
abbrev pub update_order : Uuid → OrderStatus → Time → Db → Option OrderRow × Db
update_order id status time db =
    let rows = update_rows (order_id_is id) (set_status status time) db.orders in
    (first (select (order_id_is id) rows), record db { orders = rows })

unfoldable pub update : Uuid → OrderStatus → M Order
update id status = do
  found ← query_row "update order: " λ time _ db. some (update_order id status time db)
  row ← or_not_found found
  pure (bare row)
