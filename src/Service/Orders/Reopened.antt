-- ===== src/Service/Orders/Reopened.antt =====
-- UpdateOrder of internal/service/order_service.go reads and tests the order by statements of their
-- own before the UPDATE, which has no condition on the status.
use sap_orders_api.Prelude.{
  ◌≡◌, refl, sym, ap, subst, ◌∙◌, true, Option, none, some, first, select, update_rows,
}
use sap_orders_api.Prelude.Selected.{first-select, first-update_rows}
use sap_orders_api.Domain.Errors.{Error}
use sap_orders_api.Domain.Types.{
  Uuid, OrderStatus, in_progress, closed, OrderRow, Order, UpdateOrderInput,
}
use sap_orders_api.Domain.Status.{can_transition_to, order_status_is_valid}
use sap_orders_api.Store.Monad.{Db, World, Result, ok, err, M, pure, check, ◌>>=◌, ◌>>◌}
use sap_orders_api.Store.Total.{Alike, known, Total, Steady, answered, pure-Total, query_row-Total}
use sap_orders_api.Store.Orders
use sap_orders_api.Store.Orders.{bare, order_id_is, set_status, items_of}
use sap_orders_api.Store.Reads.{Found}
use sap_orders_api.Service.Orders.{update_to, update_order}
use sap_orders_api.Service.Sync.Admission.{Reads, read, found, get_order-Reads}

-- The first part of UpdateOrder, up to the UPDATE.
unfoldable pub tested : Uuid → OrderStatus → M Order
tested id status = do
  order ← Orders.get_by_id id
  check (can_transition_to order.status status order.items)
  pure order

-- UpdateOrder with a valid status is its first part and then the UPDATE.
tested-update_to :
    (id : Uuid) (status : OrderStatus) (w : World)
    → order_status_is_valid status ≡ true
    → update_to id status w ≡ (tested id status >>= λ _. Orders.update id status) w
unfolding update_to tested ◌>>=◌
tested-update_to id status w valid = rw valid (after_read (Orders.get_by_id id w))
  where
    after_test :
        (order : Order) (o : Option Error) (v : World)
        → (check o >> Orders.update id status) v
          ≡ ((check o >> pure order) >>= λ _. Orders.update id status) v
    after_test order none v = refl
    after_test order (some e) v = refl

    then_update : Result Order × World → Result Order × World
    then_update r = elim r.0 [ ok order ↦ Orders.update id status r.1 | err e ↦ (err e, r.1) ]

    after_read :
        (r : Result Order × World)
        → elim r.0 [
          | ok order ↦
              (check (can_transition_to order.status status order.items) >> Orders.update id status)
                r.1
          | err e ↦ (err e, r.1)
        ]
          ≡ then_update (elim r.0 [
            | ok order ↦
                (check (can_transition_to order.status status order.items) >> pure order) r.1
            | err e ↦ (err e, r.1)
          ])
    after_read (ok order, v) =
        after_test order (can_transition_to order.status status order.items) v
    after_read (err e, v) = refl

module _ (k : World) (steady : Steady k) (X : Db) (id : Uuid) (order : Order)
    (there : Found id order X) (to : OrderStatus)
    (allowed : can_transition_to order.status to order.items ≡ none) where
  tested-Reads : Reads k steady X (tested id to) order
  unfolding tested
  tested-Reads = read k steady X _ order (get_order-Reads k steady X id order there) (
      read k steady X _ tt
        (subst (λ o. Reads k steady X (check o) tt) (sym allowed)
          (pure-Total tt (λ db p. (refl, p))))
        (pure-Total order (λ db p. (refl, p))))

-- the tables X with the order's status set
abbrev pub with_status : World → Uuid → OrderStatus → Db → Db
with_status k id status X = record X {
  orders = update_rows (order_id_is id) (set_status status k.clock) X.orders;
}

module _ (k : World) (steady : Steady k) (id : Uuid) (to : OrderStatus) (X : Db) (row : OrderRow)
    (there : first (select (order_id_is id) X.orders) ≡ some row) where
  there_after :
      first (select (order_id_is id) (with_status k id to X).orders)
      ≡ some (set_status to k.clock row)
  there_after =
      first-update_rows (order_id_is id) (order_id_is id) (set_status to k.clock) (λ y. refl)
        X.orders row there (first-select (order_id_is id) X.orders row there)

  -- the UPDATE, whatever the status of the row is
  updates :
      Total k
        (λ db. db ≡ X)
        (Orders.update id to)
        (λ order db. (order ≡ bare (set_status to k.clock row)) × (db ≡ with_status k id to X))
  unfolding Orders.update
  updates =
      known _ (some (set_status to k.clock row)) (with_status k id to X)
        (query_row-Total steady "update order: " _ λ n db p. (
          ap
                (λ d. first (
                  select (order_id_is id)
                    (update_rows (order_id_is id) (set_status to k.clock) d.orders)))
                p
              ∙ there_after,
          ap (with_status k id to) p,
        ))
        (read k steady (with_status k id to X) _ (set_status to k.clock row)
          (found k steady (with_status k id to X) _ (set_status to k.clock row) refl)
          (pure-Total _ (λ db p. (refl, p))))

abbrev pub asks : OrderStatus → UpdateOrderInput
asks status = record { status = some status }

-- The status that the tables of a world have for an order.
abbrev pub HasStatus : Uuid → OrderStatus → World → Type 0
HasStatus id status w =
    (row : OrderRow) × (first (select (order_id_is id) w.db.orders) ≡ some row)
    × (row.status ≡ status)

-- Two calls of UpdateOrder, one to IN_PROGRESS and one to CLOSED, that overlap.
pub record IsReopened (k : World) (id : Uuid) (order : Order) : Type 0 where
  -- the parts of the first call
  pub parts :
      (w : World)
      → update_order id (asks in_progress) w
        ≡ (tested id in_progress >>= λ _. Orders.update id in_progress) w
  -- its first part passes, the second call closes the order, and then the UPDATE of the first runs
  pub passes : (tested id in_progress k).0 ≡ ok order
  pub closes :
      (a : Order) × ((update_order id (asks closed) (tested id in_progress k).1).0 ≡ ok a)
      × HasStatus id closed (update_order id (asks closed) (tested id in_progress k).1).1
  pub reopens :
      let w = (update_order id (asks closed) (tested id in_progress k).1).1 in
      (a : Order) × ((Orders.update id in_progress w).0 ≡ ok a)
      × HasStatus id in_progress (Orders.update id in_progress w).1

-- When no statement fails, an order that is IN_PROGRESS and may be closed is not kept CLOSED: if the
-- first part of a request to set it to IN_PROGRESS, which it is already, comes before a request that
-- closes it, and the UPDATE of the first after that, then all of them succeed, and the order is CLOSED
-- and then IN_PROGRESS again.
pub update_order-IsReopened :
    (k : World) (id : Uuid) (order : Order)
    → Steady k
    → Found id order k.db
    → order.status ≡ in_progress
    → can_transition_to in_progress closed order.items ≡ none
    → IsReopened k id order
unfolding update_order can_transition_to
update_order-IsReopened k id order steady there is may_close =
    let self : Alike k k = record { clock = refl; random = refl; faults = refl } in
    let (a, v, e1, like1, (is1, same1)) = answered k _ (tested id in_progress k) (
      (tested-Reads k steady k.db id order there in_progress
          (ap (λ s. can_transition_to s in_progress order.items) is ∙ stays order)).run
        k self refl) in
    let (b, u, e2, like2, (is2, same2)) =
      answered k _ ((tested id closed >>= λ _. Orders.update id closed) v) (
        (read k steady k.db (λ _. Orders.update id closed) order
            (tested-Reads k steady k.db id order there closed
              (ap (λ s. can_transition_to s closed order.items) is ∙ may_close))
            (updates k steady id closed k.db order.row there.0)).run
          v like1 same1) in
    let row = set_status closed k.clock order.row in
    let row_there = there_after k steady id closed k.db order.row there.0 in
    let (c, t, e3, like3, (is3, same3)) = answered k _ (Orders.update id in_progress u) (
      (updates k steady id in_progress (with_status k id closed k.db) row row_there).run u like2
        same2) in
    let first_world = ap (λ r. r.1) e1 in
    let closing = tested-update_to id closed v refl ∙ e2 in
    let between =
      ap (λ x. (update_order id (asks closed) x).1) first_world ∙ ap (λ r. r.1) closing in
    record {
      parts = λ w. tested-update_to id in_progress w refl;
      passes = ap (λ r. r.0) e1 ∙ ap ok is1;
      closes =
          subst
            (λ x.
              (a : Order) × ((update_order id (asks closed) x).0 ≡ ok a)
              × HasStatus id closed (update_order id (asks closed) x).1)
            (sym first_world)
            (
              b,
              ap (λ r. r.0) closing,
              subst (HasStatus id closed) (sym (ap (λ r. r.1) closing))
                  (row, ap (λ d. first (select (order_id_is id) d.orders)) same2 ∙ row_there, refl),
            );
      reopens =
          subst
            (λ x.
              (a : Order) × ((Orders.update id in_progress x).0 ≡ ok a)
              × HasStatus id in_progress (Orders.update id in_progress x).1)
            (sym between)
            (
              c,
              ap (λ r. r.0) e3,
              subst (HasStatus id in_progress) (sym (ap (λ r. r.1) e3)) (
                set_status in_progress k.clock row,
                ap (λ d. first (select (order_id_is id) d.orders)) same3
                    ∙ there_after k steady id in_progress (with_status k id closed k.db) row
                        row_there,
                refl,
              ),
            );
    }
  where
    stays : (order : Order) → can_transition_to in_progress in_progress order.items ≡ none
    stays order = refl
