-- ===== src/Service/Sync/Refusals.antt =====
-- What EnqueueSync of internal/service/sync_service.go answers where one of its tests fails.
use sap_orders_api.Prelude.{
  Option, none, Bool-cases, inl, inr, ◌≡◌, refl, sym, ap, subst, Bool, true, false, not, some,
  String, any, first, select, if◌then◌else◌,
}
use sap_orders_api.Domain.Errors.{
  Error, Sentinel, sentinel, order_closed, item_not_syncable, delivery_date_in_past,
  sync_already_active,
}
use sap_orders_api.Domain.Types.{Uuid, closed, Order, OrderItem}
use sap_orders_api.Domain.Status.{same_order_status, can_sync}
use sap_orders_api.Domain.Dates.{is_delivery_date_in_past}
use sap_orders_api.Store.Monad.{World, Result, ok, err, M, pure, fail, now, ◌>>=◌, ◌>>◌}
use sap_orders_api.Store.Total.{Alike, Done, Steady}
use sap_orders_api.Store.Items.{item_of_order}
use sap_orders_api.Store.Outbox.{active_for}
use sap_orders_api.Store.Reads.{Found}
use sap_orders_api.Store.Orders
use sap_orders_api.Store.Items
use sap_orders_api.Service.Orders.{refuse_closed}
use sap_orders_api.Service.Sync.{check_syncable, enqueue_sync}
use sap_orders_api.Service.Sync.Admission.{
  Reads, get_order-Reads, get_item-Reads, has_active-Reads, syncable-Reads, passes,
}

module _ (k : World) (steady : Steady k) where
  -- From the tables of k the run fails with the error x and changes nothing.
  pub record Halts {A : Type 0} (m : M A) (x : Error) : Type 0 where
    pub run : (w : World) → Alike k w → w.db ≡ k.db → ((m w).0 ≡ err x) × ((m w).1.db ≡ k.db)

  after_read :
      {A B : Type 0} (f : A → M B) (a : A) (x : Error) (r : Result A × World)
      → Halts (f a) x
      → Done k (λ b db. (b ≡ a) × (db ≡ k.db)) r
      → let go = elim r.0 as (λ _. Result B × World) [ ok b ↦ f b r.1 | err e ↦ (err e, r.1) ] in
        (go.0 ≡ err x) × (go.1.db ≡ k.db)
  after_read f a x (ok b, w) h d =
      subst (λ c. ((f c w).0 ≡ err x) × ((f c w).1.db ≡ k.db)) (sym d.1.0) (h.run w d.0 d.1.1)
  after_read f a x (err e, w) h d = absurd d

  then-Halts :
      {A B : Type 0} {m : M A} (f : A → M B) (a : A) (x : Error)
      → Reads k steady k.db m a
      → Halts (f a) x
      → Halts (m >>= f) x
  unfolding ◌>>=◌
  then-Halts {m} f a x r h = record { run = λ w s p. after_read f a x (m w) h (r.run w s p) }

  after_halt :
      {A B : Type 0} (f : A → M B) (x : Error) (r : Result A × World)
      → r.0 ≡ err x
      → r.1.db ≡ k.db
      → let go = elim r.0 as (λ _. Result B × World) [ ok b ↦ f b r.1 | err e ↦ (err e, r.1) ] in
        (go.0 ≡ err x) × (go.1.db ≡ k.db)
  after_halt f x (ok a, w) e d = absurd (no e)
    where
      no : (ok a ≡ err x) → ⊥
      no e = cc
  after_halt {A} {B} f x (err y, w) e d = (again e, d)
    where
      again : ◌≡◌ {A = Result A} (err y) (err x) → ◌≡◌ {A = Result B} (err y) (err x)
      again e = cc

  first-Halts : {A B : Type 0} {m : M A} (f : A → M B) (x : Error) → Halts m x → Halts (m >>= f) x
  unfolding ◌>>=◌
  first-Halts {m} f x h = record {
    run = λ w s p. after_halt f x (m w) (h.run w s p).0 (h.run w s p).1;
  }

  guard-Halts :
      (b : Bool) (s : Sentinel) → b ≡ true → Halts (if b then fail s else pure tt) (sentinel s)
  guard-Halts b s e =
      subst (λ b. Halts (if b then fail s else pure tt) (sentinel s)) (sym e)
        (record { run = λ w a p. (refl, p) })

  true-Halts :
      {A : Type 0} (b : Bool) {m : M A} (n : M A) (x : Error)
      → b ≡ true
      → Halts m x
      → Halts (if b then m else n) x
  true-Halts b {m} n x e h = subst (λ b. Halts (if b then m else n) x) (sym e) h

  false-Halts :
      {A : Type 0} (b : Bool) (m : M A) {n : M A} (x : Error)
      → b ≡ false
      → Halts n x
      → Halts (if b then m else n) x
  false-Halts b m {n} x e h = subst (λ b. Halts (if b then m else n) x) (sym e) h

  fail-Halts : {A : Type 0} (s : Sentinel) → Halts {A = A} (fail s) (sentinel s)
  fail-Halts s = record { run = λ w a p. (refl, p) }

  unsyncable-Halts :
      (item : OrderItem)
      → can_sync item.status ≡ false
      → Halts (check_syncable item) (sentinel item_not_syncable)
  unsyncable-Halts item h =
      true-Halts (not (can_sync item.status)) _ _ (ap not h) (fail-Halts item_not_syncable)

  past-Halts :
      (item : OrderItem)
      → can_sync item.status ≡ true
      → is_delivery_date_in_past k.clock item.delivery_date ≡ true
      → Halts (check_syncable item) (sentinel delivery_date_in_past)
  past-Halts item h past =
      false-Halts (not (can_sync item.status)) _ _ (ap not h)
        (then-Halts _ k.clock _ clock_read (guard-Halts _ delivery_date_in_past past))
    where
      clock_read : Reads k steady k.db now k.clock
      clock_read = record { run = λ w s p. (s, (s.clock, p)) }

  -- the tests behind the two look-ups and the test of the order
  with_item :
      {A : Type 0} (order_id item_id : Uuid) (order : Order) (item : OrderItem)
      (rest : Order → OrderItem → M A) (x : Error)
      → Found order_id order k.db
      → first (select (item_of_order order_id item_id) k.db.items) ≡ some item
      → same_order_status order.status closed ≡ false
      → Halts (rest order item) x
      → Halts
          (Orders.get_by_id order_id >>= λ order.
            (refuse_closed order >> (Items.get_by_id order_id item_id >>= rest order)))
          x
  with_item order_id item_id order item rest x found item_found c h =
      then-Halts _ order _ (get_order-Reads k steady k.db order_id order found) (
        then-Halts _ tt _ (passes k steady k.db _ order_closed c)
          (then-Halts _ item _ (get_item-Reads k steady k.db order_id item_id item item_found) h))

-- The first test of EnqueueSync that an order, an item, the lateness of its date and the presence of
-- an active entry do not pass.
abbrev pub first_refusal : Order → OrderItem → Bool → Bool → Option Error
first_refusal order item past active =
    if same_order_status order.status closed
    then some (sentinel order_closed)
    else if not (can_sync item.status)
    then some (sentinel item_not_syncable)
    else if past
    then some (sentinel delivery_date_in_past)
    else if active
    then some (sentinel sync_already_active)
    else none

module _ (k : World) (steady : Steady k) (rfc_function : String) (order_id item_id : Uuid)
    (order : Order) (item : OrderItem) (found : Found order_id order k.db)
    (item_found : first (select (item_of_order order_id item_id) k.db.items) ≡ some item) where
  abbrev Stops : Error → Type 0
  Stops x = Halts k steady (enqueue_sync rfc_function order_id item_id) x

  none_left : {x : Error} → none ≡ some x → ⊥
  none_left e = cc

  error_is : {x y : Error} → some x ≡ some y → x ≡ y
  error_is e = cc

  refused :
      (past active : Bool) (x : Error)
      → is_delivery_date_in_past k.clock item.delivery_date ≡ past
      → any (active_for item_id) k.db.outbox ≡ active
      → first_refusal order item past active ≡ some x
      → Stops x
  unfolding enqueue_sync
  refused past active x p a e = elim (Bool-cases (same_order_status order.status closed)) [
    | inl c ↦ subst Stops (error_is (rw c at e)) (
        then-Halts k steady _ order _ (get_order-Reads k steady k.db order_id order found)
          (first-Halts k steady _ _ (guard-Halts k steady _ order_closed c)))
    | inr c ↦ elim (Bool-cases (can_sync item.status)) [
      | inr s ↦ subst Stops (error_is (rw s at (rw c at e))) (
          with_item k steady order_id item_id order item _ _ found item_found c
            (first-Halts k steady _ _ (unsyncable-Halts k steady item s)))
      | inl s ↦ late past active p a c s (rw s at (rw c at e))
    ]
  ]
    where
      late :
          (past active : Bool)
          → is_delivery_date_in_past k.clock item.delivery_date ≡ past
          → any (active_for item_id) k.db.outbox ≡ active
          → same_order_status order.status closed ≡ false
          → can_sync item.status ≡ true
          → (if past
              then some (sentinel delivery_date_in_past)
              else if active
              then some (sentinel sync_already_active)
              else none)
            ≡ some x
          → Stops x
      late true active p a c s e = subst Stops (error_is e) (
          with_item k steady order_id item_id order item _ _ found item_found c
            (first-Halts k steady _ _ (past-Halts k steady item s p)))
      late false true p a c s e = subst Stops (error_is e) (
          with_item k steady order_id item_id order item _ _ found item_found c (
            then-Halts k steady _ tt _ (syncable-Reads k steady k.db item s p) (
              then-Halts k steady _ true _ (has_active-Reads k steady k.db item_id true a)
                (first-Halts k steady _ _ (guard-Halts k steady true sync_already_active refl)))))
      late false false p a c s e = absurd (none_left e)

  -- For an order and an item that the tables have, if no statement fails, EnqueueSync changes nothing
  -- and answers with the first of these that applies: ErrOrderClosed for a CLOSED order,
  -- ErrItemNotSyncable for an item that is neither UPDATED nor FAILED, ErrDeliveryDateInPast by the
  -- clock of the run, ErrSyncAlreadyActive for an item with a PENDING or PROCESSING entry.
  pub enqueue_sync-first_refusal :
      (x : Error)
      → first_refusal order item
          (is_delivery_date_in_past k.clock item.delivery_date)
          (any (active_for item_id) k.db.outbox)
        ≡ some x
      → let r = enqueue_sync rfc_function order_id item_id k in (r.0 ≡ err x) × (r.1.db ≡ k.db)
  enqueue_sync-first_refusal x e =
      (refused _ _ x refl refl e).run k (record { clock = refl; random = refl; faults = refl }) refl
