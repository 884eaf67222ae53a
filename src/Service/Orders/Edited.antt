-- ===== src/Service/Orders/Edited.antt =====
-- UpdateItem of internal/service/order_service.go when no statement fails: the row that it leaves.
use sap_orders_api.Prelude.{
  ◌≡◌, refl, sym, subst, Bool, true, false, not, ◌&&◌, Option, none, some, String, first, select,
  update_rows, if◌then◌else◌,
}
use sap_orders_api.Prelude.Selected.{first-select, first-update_rows}
use sap_orders_api.Domain.Errors.{delivery_date_in_past, order_closed}
use sap_orders_api.Domain.Types.{Uuid, Time, Date, closed, Order, OrderItem, UpdateOrderItemInput}
use sap_orders_api.Domain.Dates.{parse_date, is_delivery_date_in_past}
use sap_orders_api.Domain.Status.{same_order_status}
use sap_orders_api.Store.Monad.{Db, World, pure, fail, now}
use sap_orders_api.Store.Total.{Gives, Total, Steady, pure-Total, if-Total, query_row-Total}
use sap_orders_api.Store.Orders.{with_db}
use sap_orders_api.Store.Items
use sap_orders_api.Store.Items.{item_of_order, or_keep, set_fields}
use sap_orders_api.Store.Reads.{Found}
use sap_orders_api.Service.Orders.{
  is_given, promoted, check_date_given, parse_optional_date, update_item,
}
use sap_orders_api.Service.Sync.Admission.{Reads, read, get_order-Reads, get_item-Reads, passes}

module _ (k : World) (steady : Steady k) where
  -- the test of a date that is not past
  pub check-Reads :
      (d : Date)
      → is_delivery_date_in_past k.clock d ≡ false
      → Reads k steady k.db (check_date_given (some d)) d
  check-Reads d past = read k steady k.db _ k.clock clock_read (
      subst (λ b. Reads k steady k.db (if b then fail delivery_date_in_past else pure d) d)
        (sym past) (pure-Total d (λ db p. (refl, p))))
    where
      clock_read : Reads k steady k.db now k.clock
      clock_read = record { run = λ w s p. (s, (s.clock, p)) }

-- The date that a text asks for at a time: none, or the one that it reads as, which is not past.
abbrev pub Dated : Time → Option String → Option Date → Type 0
Dated time none date = date ≡ none
Dated time (some text) date =
    (d : Date) × (parse_date text ≡ some d)
    × (is_delivery_date_in_past time d ≡ false)
    × (date ≡ some d)

module _ (k : World) (order_id item_id : Uuid) (order : Order) (item : OrderItem)
    (input : UpdateOrderItemInput) (date : Option Date) where
  -- The item is in an order that is not CLOSED, and the input asks for a change that can be made.
  pub record IsEditable : Type 0 where
    pub order_found : Found order_id order k.db
    pub order_open : same_order_status order.status closed ≡ false
    pub item_found : first (select (item_of_order order_id item_id) k.db.items) ≡ some item
    pub no_status : is_given input.status ≡ false
    pub asks : (not (is_given input.description) && not (is_given input.delivery_date)) ≡ false
    pub dated : Dated k.clock input.delivery_date date

  -- what the row becomes
  abbrev pub edit : OrderItem → OrderItem
  edit =
      set_fields (or_keep input.description item.description) (or_keep date item.delivery_date)
        (or_keep (promoted item.status) item.status) k.clock

  abbrev pub edited_tables : Db
  edited_tables = record k.db {
    items = update_rows (item_of_order order_id item_id) edit k.db.items;
  }

  abbrev pub Edited : OrderItem → Db → Type 0
  Edited row db = (row ≡ edit item) × (db ≡ edited_tables)

  module _ (steady : Steady k) (can : IsEditable) where
    date-Reads :
        (text : Option String)
        → Dated k.clock text date
        → Reads k steady k.db (parse_optional_date text) date
    date-Reads none h = pure-Total none (λ db p. (sym h, p))
    date-Reads (some text) (d, is, past, same) =
        read k steady k.db _ d
          (subst (λ o. Reads k steady k.db (check_date_given o) d) (sym is)
            (check-Reads k steady d past))
          (pure-Total (some d) (λ db p. (sym same, p)))

    updates :
        Total k
          (λ db. db ≡ k.db)
          (Items.update order_id item_id input.description date (promoted item.status))
          Edited
    unfolding Items.update
    updates =
        read k steady k.db _ item
          (get_item-Reads k steady k.db order_id item_id item can.item_found)
          (query_row-Total steady "update order item: " _ λ n db p.
            subst
              (λ d. Gives Edited (
                with_db
                  (record d { items = update_rows (item_of_order order_id item_id) edit d.items })
                  (first (
                    select (item_of_order order_id item_id)
                      (update_rows (item_of_order order_id item_id) edit d.items)))))
              (sym p)
              (subst (λ o. Gives Edited (with_db edited_tables o))
                (sym (
                  first-update_rows (item_of_order order_id item_id)
                    (item_of_order order_id item_id) edit (λ y. refl) k.db.items item can.item_found
                    is_it))
                (refl, refl)))
      where
        is_it : item_of_order order_id item_id item ≡ true
        is_it = first-select (item_of_order order_id item_id) k.db.items item can.item_found

    -- The run of UpdateItem succeeds, and leaves the row with the fields that were given.
    pub update_item-Edited : Total k (λ db. db ≡ k.db) (update_item order_id item_id input) Edited
    unfolding update_item
    update_item-Edited =
        if-Total (is_given input.status) (λ e. absurd (clash can.no_status e))
          λ _.
            if-Total (not (is_given input.description) && not (is_given input.delivery_date))
              (λ e. absurd (clash can.asks e))
              λ _.
                read k steady k.db _ order
                  (get_order-Reads k steady k.db order_id order can.order_found)
                  (read k steady k.db _ tt (passes k steady k.db _ order_closed can.order_open) (
                    read k steady k.db _ item
                      (get_item-Reads k steady k.db order_id item_id item can.item_found)
                      (read k steady k.db _ date (date-Reads input.delivery_date can.dated)
                        updates)))
      where
        clash : {b : Bool} → b ≡ false → b ≡ true → ⊥
        clash h e = cc
