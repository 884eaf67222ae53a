-- ===== src/Service/Sync/Cancel.antt =====
-- What CancelSync of internal/service/sync_service.go leaves in the tables.
use sap_orders_api.Prelude.{◌≡◌, refl, ◌⊎◌, inl, inr, some, map, first, select, update_rows}
use sap_orders_api.Domain.Types.{Uuid, Time, updated, OutboxEntry}
use sap_orders_api.Store.Monad.{Db, World}
use sap_orders_api.Store.Triple.{
  Triple, Ensures, >>=-Triple, pure-Triple, weaken-Triple, fix-Triple, with_transaction-Triple,
}
use sap_orders_api.Store.Items.{item_id_is, set_status}
use sap_orders_api.Store.Outbox.{cancellable, set_cancelled}
use sap_orders_api.Store.Reads.{get_item-Triple}
use sap_orders_api.Store.Exact.{Anything, update_status-exact, cancel-exact}
use sap_orders_api.Service.Sync.{cancel_body, cancel_sync}

-- The tables X with the item's PENDING entry cancelled and the item UPDATED.
abbrev pub cancelled_in : Uuid → Uuid → Time → Time → Db → Db
cancelled_in item_id outbox_id t t' X = record X {
  items = update_rows (item_id_is item_id) (set_status updated t') X.items;
  outbox = update_rows (cancellable item_id outbox_id) (set_cancelled t) X.outbox;
}

-- The entry e is the one that was PENDING, as it is after the change.
abbrev pub CancelledIn : Uuid → Uuid → Db → OutboxEntry → Db → Type 0
CancelledIn item_id outbox_id X e db =
    (t : Time) × (t' : Time) × (first
        (map (set_cancelled t) (select (cancellable item_id outbox_id) X.outbox))
      ≡ some e)
    × (db ≡ cancelled_in item_id outbox_id t t' X)

module _ (X : Db) (order_id item_id outbox_id : Uuid) where
  cancel_body-CancelledIn :
      Triple
        (λ db. db ≡ X)
        (cancel_body item_id outbox_id)
        (CancelledIn item_id outbox_id X)
        Anything
  unfolding cancel_body
  cancel_body-CancelledIn = >>=-Triple (cancel-exact item_id outbox_id) λ e.
      fix-Triple {T = CancelledRow e}
        (λ c db. db ≡ record X {
          outbox = update_rows (cancellable item_id outbox_id) (set_cancelled c.0) X.outbox;
        })
        (λ db h. ((h.0, h.1), h.2))
        λ c.
          >>=-Triple (update_status-exact item_id updated)
            λ _. pure-Triple e (λ db h. (c.0, h.0, c.1, h.2))
    where
      CancelledRow : OutboxEntry → Type 0
      CancelledRow e =
          (t : Time) × (first
              (map (set_cancelled t) (select (cancellable item_id outbox_id) X.outbox))
            ≡ some e)

  cancel_sync-Triple :
      Triple
        (λ db. db ≡ X)
        (cancel_sync order_id item_id outbox_id)
        (CancelledIn item_id outbox_id X)
        (λ db. (db ≡ X) ⊎ ((e : OutboxEntry) × CancelledIn item_id outbox_id X e db))
  unfolding cancel_sync
  cancel_sync-Triple =
      >>=-Triple
        (weaken-Triple (λ db p. p) (λ a db h. h.0) (λ db h. inl h)
          (get_item-Triple order_id item_id))
        λ _. with_transaction-Triple (λ db h. inl h) (λ e db h. inr (e, h)) cancel_body-CancelledIn

-- CancelSync either leaves every table as it was or cancels the item's entry, which was PENDING,
-- and makes the item UPDATED. If it reports success, it has done so and returns the changed entry.
pub cancel_sync-CancelledIn :
    (order_id item_id outbox_id : Uuid) (w : World)
    → Ensures
        (CancelledIn item_id outbox_id w.db)
        (λ db. (db ≡ w.db) ⊎ ((e : OutboxEntry) × CancelledIn item_id outbox_id w.db e db))
        (cancel_sync order_id item_id outbox_id w)
cancel_sync-CancelledIn order_id item_id outbox_id w =
    (cancel_sync-Triple w.db order_id item_id outbox_id).run w refl
