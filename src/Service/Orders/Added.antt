-- ===== src/Service/Orders/Added.antt =====
-- AddItem of internal/service/order_service.go when no statement fails: the item that it adds, and
-- what becomes of its order.
use sap_orders_api.Prelude.{
  ℕ, ◌≡◌, refl, sym, ap, subst, ◌∙◌, inl, inr, Bool, true, false, not, ◌&&◌, ◌||◌, some, List, [],
  ◌∷◌, ◌++◌, str_eq, first, select, update_rows, any, ◌==◌, ==_refl, if◌then◌else◌, Bool-cases,
  arith,
}
use sap_orders_api.Domain.Errors.{order_closed}
use sap_orders_api.Domain.Types.{
  Uuid, Date, ItemStatus, opened, in_progress, closed, OrderRow, Order, OrderItem,
  CreateOrderItemInput,
}
use sap_orders_api.Domain.Status.{same_order_status}
use sap_orders_api.Domain.Dates.{parse_date, is_delivery_date_in_past}
use sap_orders_api.Store.Monad.{Db, World, ok}
use sap_orders_api.Store.Total.{
  known, Total, Steady, answered, >>=-Total, pure-Total, if-Total, query_row-Total,
}
use sap_orders_api.Store.Orders
use sap_orders_api.Store.Orders.{order_id_is, bare, set_status}
use sap_orders_api.Store.Items
use sap_orders_api.Store.Items.{item_id_is, item_of_order, item_taken, new_item, with_item}
use sap_orders_api.Store.Reads.{Found}
use sap_orders_api.Service.Orders.{add_item, parse_delivery_date, check_date_given, promote_order}
use sap_orders_api.Prelude.Selected.{
  first-added, any-either, any-both, any-selected, first-update_rows, first-select,
}
use sap_orders_api.Service.Orders.Edited.{check-Reads}
use sap_orders_api.Service.Sync.Success.{Gives-unless}
use sap_orders_api.Service.Sync.Admission.{Reads, read, found, get_order-Reads, passes}

module _ (k : World) (order_id : Uuid) (order : Order) (input : CreateOrderItemInput)
    (date : Date) where
  -- The order is there and not CLOSED, every field is given, the date is one that is not past, the
  -- order has no item of the demand code, and no item has an id that is drawn.
  pub record IsAddable : Type 0 where
    pub fields_given :
        (str_eq input.demand_code ""
          || str_eq input.description ""
          || str_eq input.delivery_date "")
        ≡ false
    pub order_found : Found order_id order k.db
    pub order_open : same_order_status order.status closed ≡ false
    pub reads_as : parse_date input.delivery_date ≡ some date
    pub not_past : is_delivery_date_in_past k.clock date ≡ false
    pub code_free :
        any (λ i. (i.order_id == order_id) && str_eq i.demand_code input.demand_code) k.db.items
        ≡ false
    pub id_free : (n : ℕ) → any (item_id_is (k.random n)) k.db.items ≡ false

  abbrev new_row : ℕ → OrderItem
  new_row n = new_item order_id input.demand_code input.description date k.clock (k.random n)

  -- the row of the order afterwards
  abbrev row_after : OrderRow
  row_after =
      if same_order_status order.status opened
      then set_status in_progress k.clock order.row
      else order.row

  abbrev promoted_rows : List OrderRow
  promoted_rows = update_rows (order_id_is order_id) (set_status in_progress k.clock) k.db.orders

  abbrev rows_after : List OrderRow
  rows_after = if same_order_status order.status opened then promoted_rows else k.db.orders

  abbrev tables_after : ℕ → Db
  tables_after n = record k.db { orders = rows_after; items = k.db.items ++ new_row n ∷ [] }

  module _ (steady : Steady k) (can : IsAddable) where
    date-Reads : Reads k steady k.db (parse_delivery_date input.delivery_date) date
    date-Reads =
        subst (λ o. Reads k steady k.db (check_date_given o) date) (sym can.reads_as)
          (check-Reads k steady date can.not_past)

    order_there : any (order_id_is order_id) k.db.orders ≡ true
    order_there = any-selected (order_id_is order_id) k.db.orders order.row can.order_found.0

    not_taken : (n : ℕ) → item_taken (new_row n) k.db ≡ false
    not_taken n =
        neither_of _ _
          (any-either (item_id_is (k.random n))
            (λ i. (i.order_id == order_id) && str_eq i.demand_code input.demand_code) k.db.items
            (can.id_free n) can.code_free)
          order_there
      where
        neither_of : (a b : Bool) → a ≡ false → b ≡ true → (a || not b) ≡ false
        neither_of a b h k = ground arith

    creates :
        Total k
          (λ db. db ≡ k.db)
          (Items.create order_id input.demand_code input.description date)
          (λ item db. (n : ℕ) × (item ≡ new_row n) × (db ≡ with_item (new_row n) k.db))
    unfolding Items.create
    creates = query_row-Total steady "create order item: " _ λ n db p.
        Gives-unless _ (item_taken (new_row n) db) (new_row n) (with_item (new_row n) db)
          (ap (item_taken (new_row n)) p ∙ not_taken n) (n, refl, ap (with_item (new_row n)) p)

    row_promoted :
        first (select (order_id_is order_id) promoted_rows)
        ≡ some (set_status in_progress k.clock order.row)
    row_promoted =
        first-update_rows (order_id_is order_id) (order_id_is order_id)
          (set_status in_progress k.clock) (λ y. refl) k.db.orders order.row can.order_found.0
          (first-select (order_id_is order_id) k.db.orders order.row can.order_found.0)

    in_progress_now :
        (n : ℕ)
        → Total k
            (λ db. db ≡ with_item (new_row n) k.db)
            (Orders.update order_id in_progress)
            (λ _ db. db ≡ record (with_item (new_row n) k.db) { orders = promoted_rows })
    unfolding Orders.update
    in_progress_now n =
        let changed = set_status in_progress k.clock order.row in
        let Y = record (with_item (new_row n) k.db) { orders = promoted_rows } in
        known _ (some changed) Y
          (query_row-Total steady "update order: " _ λ m db p. (
            ap
                  (λ d. first (
                    select (order_id_is order_id) (
                      update_rows (order_id_is order_id) (set_status in_progress k.clock)
                        d.orders)))
                  p
                ∙ row_promoted,
            ap {B = Db}
                (λ (d : Db). record d {
                  orders =
                      update_rows (order_id_is order_id) (set_status in_progress k.clock) d.orders;
                })
                p,
          ))
          (read k steady Y _ changed (found k steady Y _ changed refl)
            (pure-Total (bare changed) (λ db p. p)))

    promotes :
        (n : ℕ)
        → Total k
            (λ db. db ≡ with_item (new_row n) k.db)
            (promote_order order_id order.status)
            (λ _ db. db ≡ tables_after n)
    unfolding promote_order
    promotes n =
        if-Total (same_order_status order.status opened)
          (λ e. >>=-Total (in_progress_now n) λ _. pure-Total tt (λ db p. p ∙ chosen n e))
          (λ e. pure-Total tt (λ db p. p ∙ chosen n e))
      where
        chosen :
            {b : Bool} (n : ℕ)
            → same_order_status order.status opened ≡ b
            → record k.db {
              orders = if b then promoted_rows else k.db.orders;
              items = k.db.items ++ new_row n ∷ [];
            }
              ≡ tables_after n
        chosen n e =
            ap
              (λ b. record k.db {
                orders = if b then promoted_rows else k.db.orders;
                items = k.db.items ++ new_row n ∷ [];
              })
              (sym e)

    added :
        Total k
          (λ db. db ≡ k.db)
          (add_item order_id input)
          (λ item db. (n : ℕ) × (item ≡ new_row n) × (db ≡ tables_after n))
    unfolding add_item
    added =
        if-Total _ (λ e. absurd (clash can.fields_given e))
          λ _.
            read k steady k.db _ order
              (get_order-Reads k steady k.db order_id order can.order_found)
              (read k steady k.db _ tt (passes k steady k.db _ order_closed can.order_open) (
                read k steady k.db _ date date-Reads (
                  >>=-Total creates λ item. record {
                    run = λ w s p.
                        (>>=-Total (promotes p.0)
                            λ _. pure-Total item (λ db same. (p.0, p.1, same))).run
                          w s p.2;
                  })))
      where
        clash : {b : Bool} → b ≡ false → b ≡ true → ⊥
        clash h e = cc

    readable :
        (n : ℕ)
        → first (select (item_of_order order_id (k.random n)) (k.db.items ++ new_row n ∷ []))
          ≡ some (new_row n)
    readable n =
        first-added (item_of_order order_id (k.random n)) (new_row n) k.db.items
          (any-both (item_id_is (k.random n)) (λ i. i.order_id == order_id) k.db.items
            (can.id_free n))
          (ap (λ b. b && (order_id == order_id)) (==_refl (k.random n)) ∙ ==_refl order_id)

    order_readable : first (select (order_id_is order_id) rows_after) ≡ some row_after
    order_readable = elim (Bool-cases (same_order_status order.status opened)) [
      | inl e ↦ rw e row_promoted
      | inr e ↦ rw e can.order_found.0
    ]

  -- What AddItem answers, and the tables after it.
  pub record IsAdded (item : OrderItem) : Type 0 where
    pub answer : (add_item order_id input k).0 ≡ ok item
    pub fields :
        (item.demand_code ≡ input.demand_code)
        × (item.description ≡ input.description)
        × (item.delivery_date ≡ date)
        × (item.status ≡ ItemStatus.pending)
    pub tables :
        (add_item order_id input k).1.db
        ≡ record k.db { orders = rows_after; items = k.db.items ++ item ∷ [] }
    pub item_found :
        first (select (item_of_order order_id item.id) (add_item order_id input k).1.db.items)
        ≡ some item
    pub order_found :
        first (select (order_id_is order_id) (add_item order_id input k).1.db.orders)
        ≡ some row_after

  -- When no statement fails, AddItem succeeds for an order that the tables have and that is not
  -- CLOSED, if every field is given, the date is one that is not past, the order has no item of that
  -- demand code, and no item has an id that is drawn. It answers with the fields that were sent and
  -- the status PENDING; the item is the only row that is added, and is found by its id; an order
  -- that was OPEN is IN_PROGRESS afterwards, and no other row is changed.
  pub add_item-IsAdded : Steady k → IsAddable → (item : OrderItem) × IsAdded item
  add_item-IsAdded steady can =
      let (item, v, same, like, (n, is, tables)) =
        answered k _ (add_item order_id input k)
          ((added steady can).run k (record { clock = refl; random = refl; faults = refl }) refl) in
      let after = ap (λ r. r.1.db) same ∙ tables in
      (
        new_row n,
        record {
          answer = ap (λ r. r.0) same ∙ ap ok is;
          fields = (refl, refl, refl, refl);
          tables = after;
          item_found =
              ap (λ d. first (select (item_of_order order_id (k.random n)) d.items)) after
              ∙ readable steady can n;
          order_found =
              ap (λ d. first (select (order_id_is order_id) d.orders)) after
              ∙ order_readable steady can;
        },
      )
