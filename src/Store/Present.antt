-- ===== src/Store/Present.antt =====
-- What cannot go wrong with the statements on an order that is there.
use sap_orders_api.Prelude.{
  ◌≡◌, refl, any, ◌==◌, inl, inr, Bool, true, false, Option, none, some, List, [], ◌∷◌, first,
  select, update_rows, Bool-cases,
}
use sap_orders_api.Prelude.Selected.{any-selected}
use sap_orders_api.Domain.Types.{Uuid, Time, OrderStatus, OrderRow, OrderItem}
use sap_orders_api.Store.Monad.{Db, unless}
use sap_orders_api.Store.Refusal.{Refuses, GivesIf, >>=-Refuses, query_row-Refuses, pure-Refuses}
use sap_orders_api.Store.Orders
use sap_orders_api.Store.Orders.{or_not_found, with_db, order_id_is, set_status}
use sap_orders_api.Store.Items.{with_item}

abbrev pub HasOrder : Uuid → List OrderRow → Type 0
HasOrder id rows = any (order_id_is id) rows ≡ true

pub found-HasOrder :
    (id : Uuid) (row : OrderRow) (rows : List OrderRow)
    → first (select (order_id_is id) rows) ≡ some row
    → HasOrder id rows
found-HasOrder id row rows h = any-selected (order_id_is id) rows row h

-- An UPDATE of a row that is there, by its id, returns a row.
updated-found :
    (id : Uuid) (status : OrderStatus) (t : Time) (rows : List OrderRow)
    → HasOrder id rows
    → (r : OrderRow) × (first
          (select (order_id_is id) (update_rows (order_id_is id) (set_status status t) rows))
        ≡ some r)
updated-found id status t [] h = cc
updated-found id status t (x ∷ rows) h = elim (Bool-cases (x.id == id)) [
  | inl e ↦ rw e (rw e ((set_status status t x, refl)))
  | inr e ↦ rw e (rw e (updated-found id status t rows (rw e at h)))
]

pub unless-any : {A : Type 0} (b : Bool) (r : A × Db) → GivesIf (λ _ _. Unit {0}) (unless b r)
unless-any true r = tt
unless-any false r = tt

pub with_db-any : {A : Type 0} (db : Db) (o : Option A) → GivesIf (λ _ _. Unit {0}) (with_db db o)
with_db-any db none = tt
with_db-any db (some a) = tt

pub unless-orders :
    (id : Uuid) (b : Bool) (item : OrderItem) (db : Db)
    → HasOrder id db.orders
    → GivesIf {A = OrderItem} (λ _ db. HasOrder id db.orders) (unless b (item, with_item item db))
unless-orders id true item db h = tt
unless-orders id false item db h = h

module _ (X : Db) where
  or_not_found-Refuses :
      {A : Type 0} (o : Option A)
      → Refuses X (λ _. (a : A) × (o ≡ some a)) (or_not_found o) (λ _ _. Unit {0})
  or_not_found-Refuses {A} none = record { run = λ w p. absurd (clash p.0 p.1) }
    where
      clash : (a : A) → none ≡ some a → ⊥
      clash a e = cc
  or_not_found-Refuses (some a) = pure-Refuses a (λ db p. tt)

  -- the UPDATE of an order that is there
  pub update_order_row-Refuses :
      (id : Uuid) (status : OrderStatus)
      → Refuses X (λ db. HasOrder id db.orders) (Orders.update id status) (λ _ _. Unit {0})
  unfolding Orders.update
  update_order_row-Refuses id status =
      >>=-Refuses {Q = λ found db. (r : OrderRow) × (found ≡ some r)}
        (query_row-Refuses "update order: " _ (λ t u db p. updated-found id status t db.orders p))
        λ found. >>=-Refuses (or_not_found-Refuses found) λ row. pure-Refuses _ (λ db p. tt)
