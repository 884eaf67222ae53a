-- ===== src/Service/Sync/Enqueue.antt =====
-- What EnqueueSync of internal/service/sync_service.go checks and what it adds to the tables.
use sap_orders_api.Prelude.{
  ◌≡◌, refl, sym, subst, ◌∙◌, ◌⊎◌, inl, inr, Bool, true, false, not, some, [], ◌∷◌, ◌++◌, String,
  update_rows, first, select, any, Bool-cases, arith, ◌||◌, ◌==◌, if◌then◌else◌,
}
use sap_orders_api.Domain.Errors.{order_closed, item_not_syncable, delivery_date_in_past}
use sap_orders_api.Domain.Errors.{sync_already_active, sentinel}
use sap_orders_api.Domain.Types.{Uuid, Time, closed, updated, Order, OrderItem, OutboxEntry}
use sap_orders_api.Domain.Status.{same_order_status, can_sync}
use sap_orders_api.Domain.Dates.{is_delivery_date_in_past}
use sap_orders_api.Store.Monad.{Db, World, M, pure}
use sap_orders_api.Store.Triple.{
  Triple, Ensures, >>=-Triple, pure-Triple, raise-Triple, weaken-Triple, fix-Triple, guard-Triple,
  now-Triple, with_transaction-Triple,
}
use sap_orders_api.Store.Items
use sap_orders_api.Store.Items.{item_id_is, item_of_order, set_status}
use sap_orders_api.Store.Outbox.{active_for, new_entry}
use sap_orders_api.Store.Reads.{Found, get_order-Triple, get_item-Triple, has_active-Triple}
use sap_orders_api.Store.Exact.{Anything, update_status-exact, create_entry-exact}
use sap_orders_api.Service.Sync.{is_failed, check_syncable, entry_input, enqueue_body, enqueue_sync}

-- The tables allow an order's item to be sent.
pub record Allows (X : Db) (order_id item_id : Uuid) (order : Order) (item : OrderItem)
    : Type 0 where
  pub order_found : Found order_id order X
  pub order_is_open : same_order_status order.status closed ≡ false
  pub item_found : first (select (item_of_order order_id item_id) X.items) ≡ some item
  pub item_can_sync : can_sync item.status ≡ true
  pub none_active : any (active_for item_id) X.outbox ≡ false

-- A FAILED item becomes UPDATED.
abbrev pub promoted_item : Uuid → OrderItem → Time → Db → Db
promoted_item item_id item t X = record X {
  items =
      if is_failed item.status
      then update_rows (item_id_is item_id) (set_status updated t) X.items
      else X.items;
}

-- The tables X with the entry e enqueued.
abbrev pub enqueued : Uuid → OrderItem → OutboxEntry → Time → Db → Db
enqueued item_id item e t X = record (promoted_item item_id item t X) {
  outbox = X.outbox ++ e ∷ [];
}

-- What the transaction of EnqueueSync makes of the tables X: the entry is a new PENDING one with no
-- attempt made, under an id that no entry has.
pub record Placed (rfc_function : String) (item_id : Uuid) (order : Order) (item : OrderItem)
    (X : Db) (e : OutboxEntry) (db : Db) : Type 0 where
  pub created : Time
  pub drawn : Uuid
  pub changed : Time
  pub entry_is : e ≡ new_entry (entry_input rfc_function item_id order item) created drawn
  pub id_is_new : any (λ (o : OutboxEntry). o.id == e.id) X.outbox ≡ false
  pub tables : db ≡ enqueued item_id item e changed X

-- The same for an order and an item that the tables X allow.
pub record Enqueued (rfc_function : String) (order_id item_id : Uuid) (X : Db) (e : OutboxEntry)
    (db : Db) : Type 0 where
  pub order : Order
  pub item : OrderItem
  pub allowed : Allows X order_id item_id order item
  pub placed : Placed rfc_function item_id order item X e db

not-false : (b : Bool) → not b ≡ false → b ≡ true
not-false b h = ground arith

or-false : (a b : Bool) → (a || b) ≡ false → a ≡ false
or-false a b h = ground arith

pub check_syncable-Triple :
    {P : Db → Type 0} (item : OrderItem)
    → Triple P (check_syncable item) (λ _ db. P db × (not (can_sync item.status) ≡ false)) P
check_syncable-Triple {P} item = elim (Bool-cases (not (can_sync item.status))) [
  | inl e ↦ rw e (raise-Triple (sentinel item_not_syncable) (λ db p. p))
  | inr e ↦ rw e (
      >>=-Triple now-Triple λ time.
        weaken-Triple (λ db p. p) (λ _ db h. (h.0, refl)) (λ db p. p)
          (guard-Triple (is_delivery_date_in_past time item.delivery_date) delivery_date_in_past
            (λ db p. p)))
]

promote_failed-exact :
    (X : Db) (item_id : Uuid) (item : OrderItem)
    → Triple
        (λ db. db ≡ X)
        (if is_failed item.status then Items.update_status item_id updated else pure tt)
        (λ _ db. (t : Time) × (db ≡ promoted_item item_id item t X))
        Anything
promote_failed-exact X item_id item = elim (Bool-cases (is_failed item.status)) [
  | inl e ↦ rw e (
      weaken-Triple (λ db p. p) (λ _ db h. (h.0, h.2)) (λ db h. h)
        (update_status-exact item_id updated))
  | inr e ↦ rw e (pure-Triple tt (λ db p. (0, p)))
]

-- The transaction does the same whatever the tables are when it begins.
pub enqueue_body-Placed :
    (rfc_function : String) (item_id : Uuid) (order : Order) (item : OrderItem) (X : Db)
    → Triple
        (λ db. db ≡ X)
        (enqueue_body rfc_function item_id order item)
        (Placed rfc_function item_id order item X)
        Anything
unfolding enqueue_body
enqueue_body-Placed rfc_function item_id order item X =
    >>=-Triple (promote_failed-exact X item_id item) λ _.
      fix-Triple {T = Time} (λ t db. db ≡ promoted_item item_id item t X) (λ db h. h)
        λ changed.
          weaken-Triple (λ db p. p)
            (λ e db h. record {
              created = h.0;
              drawn = h.1;
              changed = changed;
              entry_is = h.2;
              id_is_new = or-false _ _ h.3;
              tables = h.4;
            })
            (λ db h. h) (create_entry-exact (entry_input rfc_function item_id order item))

module _ (rfc_function : String) (order_id item_id : Uuid) (X : Db) where
  enqueue_body-Enqueued :
      (order : Order) (item : OrderItem)
      → Allows X order_id item_id order item
      → Triple
          (λ db. db ≡ X)
          (enqueue_body rfc_function item_id order item)
          (Enqueued rfc_function order_id item_id X)
          Anything
  enqueue_body-Enqueued order item allowed =
      weaken-Triple (λ db p. p)
        (λ e db h. record { order = order; item = item; allowed = allowed; placed = h }) (λ db h. h)
        (enqueue_body-Placed rfc_function item_id order item X)

  -- Nothing has changed, or an entry is enqueued although the answer of the commit was lost.
  abbrev Unsure : Db → Type 0
  Unsure db = (db ≡ X) ⊎ ((e : OutboxEntry) × Enqueued rfc_function order_id item_id X e db)

  enqueue_sync-Triple :
      Triple
        (λ db. db ≡ X)
        (enqueue_sync rfc_function order_id item_id)
        (Enqueued rfc_function order_id item_id X)
        Unsure
  unfolding enqueue_sync
  enqueue_sync-Triple = >>=-Triple (unsure (get_order-Triple order_id)) λ order.
      fix-Triple {T = Found order_id order X} (λ _ db. db ≡ X)
        (λ db h. (subst (Found order_id order) h.0 h.1, h.0))
        λ found.
          >>=-Triple
            (guard-Triple (same_order_status order.status closed) order_closed (λ db h. inl h))
            λ _.
              fix-Triple (λ _ db. db ≡ X) (λ db h. (h.1, h.0))
                λ order_open. >>=-Triple (unsure (get_item-Triple order_id item_id)) λ item.
                  fix-Triple (λ _ db. db ≡ X)
                    (λ db h. (
                      subst
                          (λ d. first (select (item_of_order order_id item_id) d.items) ≡ some item)
                          h.0 h.1,
                      h.0,
                    ))
                    λ item_found. >>=-Triple (unsure (check_syncable-Triple item)) λ _.
                      fix-Triple {T = not (can_sync item.status) ≡ false} (λ _ db. db ≡ X)
                        (λ db h. (h.1, h.0))
                        λ syncable. >>=-Triple (unsure (has_active-Triple item_id)) λ active.
                          fix-Triple (λ _ db. db ≡ X)
                            (λ db h. (
                              subst (λ d. active ≡ any (active_for item_id) d.outbox) h.0 h.1,
                              h.0,
                            ))
                            λ active_is.
                              >>=-Triple (guard-Triple active sync_already_active (λ db h. inl h))
                                λ _.
                                  fix-Triple (λ _ db. db ≡ X) (λ db h. (h.1, h.0))
                                    λ inactive.
                                      with_transaction-Triple (λ db h. inl h) (λ e db h. inr (e, h))
                                        (enqueue_body-Enqueued order item (record {
                                          order_found = found;
                                          order_is_open = order_open;
                                          item_found = item_found;
                                          item_can_sync = not-false _ syncable;
                                          none_active = sym active_is ∙ inactive;
                                        }))
    where
      unsure :
          {A : Type 0} {m : M A} {Q : A → Db → Type 0}
          → Triple (λ db. db ≡ X) m Q (λ db. db ≡ X)
          → Triple (λ db. db ≡ X) m Q Unsure
      unsure h = weaken-Triple (λ db p. p) (λ a db q. q) (λ db e. inl e) h

-- EnqueueSync either leaves every table as it was or adds one entry: PENDING, with no attempt made
-- and three to come, under a new id, for an item that is UPDATED or FAILED and that has no active
-- entry, of an order that is not CLOSED; a FAILED item becomes UPDATED with it. It adds the entry if
-- it reports success, and returns it.
pub enqueue_sync-Enqueued :
    (rfc_function : String) (order_id item_id : Uuid) (w : World)
    → Ensures
        (Enqueued rfc_function order_id item_id w.db)
        (λ db. (db ≡ w.db) ⊎ ((e : OutboxEntry) × Enqueued rfc_function order_id item_id w.db e db))
        (enqueue_sync rfc_function order_id item_id w)
enqueue_sync-Enqueued rfc_function order_id item_id w =
    (enqueue_sync-Triple rfc_function order_id item_id w.db).run w refl
