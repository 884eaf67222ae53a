-- ===== src/Service/Sync/Admission.antt =====
-- EnqueueSync of internal/service/sync_service.go takes in every item that its tests allow.
use sap_orders_api.Prelude.{
  ℕ, ◌≡◌, refl, sym, ap, subst, ◌∙◌, inl, inr, Bool, true, false, not, ◌&&◌, ◌||◌, Option, some,
  List, [], ◌∷◌, String, any, first, select, update_rows, ◌==◌, if◌then◌else◌, Bool-cases, arith,
}
use sap_orders_api.Domain.Errors.{
  Sentinel, delivery_date_in_past, order_closed, sync_already_active,
}
use sap_orders_api.Domain.Types.{Uuid, Time, ItemStatus, updated, Order, OrderItem, OutboxEntry}
use sap_orders_api.Domain.Status.{can_sync}
use sap_orders_api.Domain.Dates.{is_delivery_date_in_past}
use sap_orders_api.Store.Monad.{Db, World, Result, ok, err, M, pure, fail, now, ◌>>=◌}
use sap_orders_api.Store.Triple.{Ensures}
use sap_orders_api.Store.Total.{
  Done, known, Total, Steady, >>=-Total, pure-Total, if-Total, query_row-Total, query-Total,
  with_transaction-Total,
}
use sap_orders_api.Store.Orders
use sap_orders_api.Store.Orders.{or_not_found, order_id_is, items_of}
use sap_orders_api.Store.Items
use sap_orders_api.Store.Items.{item_id_is, item_of_order, set_status}
use sap_orders_api.Store.Outbox
use sap_orders_api.Store.Outbox.{active_for}
use sap_orders_api.Store.Reads.{Found}
use sap_orders_api.Service.Sync.{is_failed, check_syncable, entry_input, enqueue_body, enqueue_sync}
use sap_orders_api.Service.Sync.Enqueue.{Allows, Enqueued, enqueue_sync-Enqueued}
use sap_orders_api.Service.Sync.Success.{Gives-unless}

and_or : (a b c : Bool) → (a && b) ≡ true → (a || c) ≡ true
and_or a b c h = ground arith

or_right : (a b : Bool) → b ≡ true → (a || b) ≡ true
or_right a b h = ground arith

-- A found item is in the table.
pub found-any :
    (order_id item_id : Uuid) (item : OrderItem) (items : List OrderItem)
    → first (select (item_of_order order_id item_id) items) ≡ some item
    → any (item_id_is item_id) items ≡ true
found-any order_id item_id item [] e = cc
found-any order_id item_id item (x ∷ xs) e = elim (Bool-cases (item_of_order order_id item_id x)) [
  | inl h ↦ and_or (x.id == item_id) (x.order_id == order_id) (any (item_id_is item_id) xs) h
  | inr h ↦ or_right (x.id == item_id) _ (found-any order_id item_id item xs (rw h at e))
]

pub set_status-any :
    (item_id : Uuid) (t : Time) (s : ItemStatus) (items : List OrderItem)
    → any (item_id_is item_id) (update_rows (item_id_is item_id) (set_status s t) items)
      ≡ any (item_id_is item_id) items
set_status-any item_id t s [] = refl
set_status-any item_id t s (x ∷ xs) = elim (Bool-cases (x.id == item_id)) [
  | inl e ↦ rw e (rw e refl)
  | inr e ↦ rw e (rw e (set_status-any item_id t s xs))
]

neither_of : (a b : Bool) → a ≡ false → b ≡ true → (a || not b) ≡ false
neither_of a b h k = ground arith

module _ (k : World) (steady : Steady k) (X : Db) where
  -- the run answers a and changes nothing
  abbrev pub Reads : {A : Type 0} → M A → A → Type 0
  Reads m a = Total k (λ db. db ≡ X) m (λ b db. (b ≡ a) × (db ≡ X))

  pub read :
      {A B : Type 0} {m : M A} (f : A → M B) {R : B → Db → Type 0} (a : A)
      → Reads m a
      → Total k (λ db. db ≡ X) (f a) R
      → Total k (λ db. db ≡ X) (m >>= f) R
  read f a h t = known f a X h t

  pub found : {A : Type 0} (o : Option A) (a : A) → o ≡ some a → Reads (or_not_found o) a
  found o a e = subst (λ o. Reads (or_not_found o) a) (sym e) (pure-Total a (λ db p. (refl, p)))

  pub get_order-Reads :
      (id : Uuid) (order : Order) → Found id order X → Reads (Orders.get_by_id id) order
  unfolding Orders.get_by_id Orders.list_items_by_order_id
  get_order-Reads id order h =
      read _ (some order.row)
        (query_row-Total steady "get order: " _
          λ n db p. (ap (λ d. first (select (order_id_is id) d.orders)) p ∙ h.0, p))
        (read _ order.row (found _ _ refl) (
          read _ order.items
            (query-Total steady "list order items: " _ λ n db p. (ap (items_of id) p ∙ sym h.1, p))
            (pure-Total _ (λ db p. (refl, p)))))

  pub get_item-Reads :
      (order_id item_id : Uuid) (item : OrderItem)
      → first (select (item_of_order order_id item_id) X.items) ≡ some item
      → Reads (Items.get_by_id order_id item_id) item
  unfolding Items.get_by_id
  get_item-Reads order_id item_id item h =
      read _ (some item)
        (query_row-Total steady "get order item: " _
          λ n db p. (ap (λ d. first (select (item_of_order order_id item_id) d.items)) p ∙ h, p))
        (found _ _ refl)

  pub has_active-Reads :
      (item_id : Uuid) (b : Bool)
      → any (active_for item_id) X.outbox ≡ b
      → Reads (Outbox.has_active_by_item_id item_id) b
  unfolding Outbox.has_active_by_item_id
  has_active-Reads item_id b h =
      query_row-Total steady "check active outbox: " _
        λ n db p. (ap (λ d. any (active_for item_id) d.outbox) p ∙ h, p)

  -- a test that passes
  pub passes : (b : Bool) (s : Sentinel) → b ≡ false → Reads (if b then fail s else pure tt) tt
  passes b s e =
      subst (λ b. Reads (if b then fail s else pure tt) tt) (sym e)
        (pure-Total tt (λ db p. (refl, p)))

  pub syncable-Reads :
      (item : OrderItem)
      → can_sync item.status ≡ true
      → is_delivery_date_in_past k.clock item.delivery_date ≡ false
      → Reads (check_syncable item) tt
  syncable-Reads item h past =
      if-Total (not (can_sync item.status)) (λ e. absurd (clash (can_sync item.status) h e))
        (λ e. read _ k.clock clock_read (passes _ delivery_date_in_past past))
    where
      clash : (b : Bool) → b ≡ true → not b ≡ true → ⊥
      clash b h e = ground arith

      clock_read : Reads now k.clock
      clock_read = record { run = λ w s p. (s, (s.clock, p)) }

  abbrev HasItem : Uuid → Db → Type 0
  HasItem item_id db = (any (item_id_is item_id) db.items ≡ true) × (db.outbox ≡ X.outbox)

  promote-Total :
      (item_id : Uuid) (b : Bool)
      → any (item_id_is item_id) X.items ≡ true
      → Total k
          (λ db. db ≡ X)
          (if b then Items.update_status item_id updated else pure tt)
          (λ _. HasItem item_id)
  unfolding Items.update_status
  promote-Total item_id b h =
      if-Total b
        (λ _.
          >>=-Total
            (query_row-Total steady {Q = λ b db. (b ≡ true) × HasItem item_id db}
              "update item status: " _
              λ n db p. (
                ap (λ d. any (item_id_is item_id) d.items) p ∙ h,
                (
                  set_status-any item_id k.clock updated db.items
                      ∙ ap (λ d. any (item_id_is item_id) d.items) p
                      ∙ h,
                  ap (λ d. d.outbox) p,
                ),
              ))
            λ affected. record { run = λ w s p. rw p.0 ((s, p.1)) })
        (λ _.
          pure-Total tt
            (λ db p. (ap (λ d. any (item_id_is item_id) d.items) p ∙ h, ap (λ d. d.outbox) p)))

-- A run that succeeds, with the postcondition of its success.
pub succeeded :
    {A : Type 0} (k : World) (Q : A → Db → Type 0) (E : Db → Type 0) (r : Result A × World)
    → Done k (λ _ _. Unit {0}) r
    → Ensures Q E r
    → (a : A) × (r.0 ≡ ok a) × Q a r.1.db
succeeded k Q E (ok a, w) d h = (a, refl, h)
succeeded k Q E (err e, w) d h = absurd d

-- The transaction of EnqueueSync succeeds if the item is there and no entry has an id that is drawn.
pub enqueue_body-Total :
    (rfc_function : String) (item_id : Uuid) (order : Order) (item : OrderItem) (k : World)
    (steady : Steady k) (X : Db)
    → any (item_id_is item_id) X.items ≡ true
    → ((n : ℕ) → any (λ e. e.id == k.random n) X.outbox ≡ false)
    → Total k (λ db. db ≡ X) (enqueue_body rfc_function item_id order item) (λ _ _. Unit {0})
unfolding enqueue_body Outbox.create
enqueue_body-Total rfc_function item_id order item k steady X has_item fresh =
    >>=-Total (promote-Total k steady X item_id (is_failed item.status) has_item) λ _.
      query_row-Total steady "create outbox entry: " _ λ n db p.
        Gives-unless (λ _ _. Unit {0})
          (Outbox.entry_taken
            (Outbox.new_entry (entry_input rfc_function item_id order item) k.clock (k.random n))
            db)
          _ _ (neither_of _ _ (ap (any (λ e. e.id == k.random n)) p.1 ∙ fresh n) p.0) tt

module _ (rfc_function : String) (order_id item_id : Uuid) (k : World) (steady : Steady k)
    (order : Order) (item : OrderItem) (allowed : Allows k.db order_id item_id order item) where
  -- Without a failing statement EnqueueSync succeeds and adds its entry, for every order and item
  -- that the tables have and its tests allow, if no entry has an id that is drawn.
  pub enqueue_sync-admits :
      is_delivery_date_in_past k.clock item.delivery_date ≡ false
      → ((n : ℕ) → any (λ e. e.id == k.random n) k.db.outbox ≡ false)
      → let r = enqueue_sync rfc_function order_id item_id k in
        (e : OutboxEntry) × (r.0 ≡ ok e) × Enqueued rfc_function order_id item_id k.db e r.1.db
  unfolding enqueue_sync
  enqueue_sync-admits past fresh =
      succeeded k _ _ _
        ((read k steady k.db _ order
            (get_order-Reads k steady k.db order_id order allowed.order_found)
            (read k steady k.db _ tt (passes k steady k.db _ order_closed allowed.order_is_open) (
              read k steady k.db _ item
                (get_item-Reads k steady k.db order_id item_id item allowed.item_found)
                (read k steady k.db _ tt
                  (syncable-Reads k steady k.db item allowed.item_can_sync past)
                  (read k steady k.db _ false
                    (has_active-Reads k steady k.db item_id false allowed.none_active)
                    (read k steady k.db _ tt (passes k steady k.db false sync_already_active refl) (
                      with_transaction-Total steady (
                        enqueue_body-Total rfc_function item_id order item k steady k.db
                          (found-any order_id item_id item k.db.items allowed.item_found)
                          fresh)))))))).run
          k (record { clock = refl; random = refl; faults = refl }) refl)
        (enqueue_sync-Enqueued rfc_function order_id item_id k)
