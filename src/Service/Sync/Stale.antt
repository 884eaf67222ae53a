-- ===== src/Service/Sync/Stale.antt =====
-- UpdateItem of internal/service/order_service.go on an item whose entry of the outbox is under way,
-- with ProcessOutboxEntry of internal/service/sync_service.go after it.
use sap_orders_api.Prelude.{
  ℕ, ◌≡◌, refl, sym, ap, subst, ◌∙◌, Bool, true, false, ◌&&◌, Option, some, first, select, any,
  Memᴰ, ◌==◌, arith, if◌then◌else◌,
}
use sap_orders_api.Prelude.Selected.{first-select, first-update_rows}
use sap_orders_api.Prelude.Members.{Mem-append_right}
use sap_orders_api.Domain.Types.{
  Uuid, Date, synced, SyncStatus, Order, OrderItem, OutboxEntry, SapSyncLog, UpdateOrderItemInput,
}
use sap_orders_api.Sap.{Client, SyncResult, replied, build_demand_update_xml}
use sap_orders_api.Store.Monad.{Db, World, ok}
use sap_orders_api.Store.Total.{Steady, Alike, answered}
use sap_orders_api.Store.Items.{item_id_is, item_of_order, or_keep, set_status}
use sap_orders_api.Store.Logs.{new_log}
use sap_orders_api.Service.Orders.{update_item}
use sap_orders_api.Service.Orders.Edited.{
  IsEditable, Edited, edit, edited_tables, update_item-Edited,
}
use sap_orders_api.Service.Sync.{process_outbox_entry}
use sap_orders_api.Service.Sync.Processing.{Recorded, outcome, accepted}
use sap_orders_api.Service.Sync.Success.{Ready, process_outbox_entry-settles}
use sap_orders_api.Service.Sync.Admission.{found-any}

first_and : (a b : Bool) → (a && b) ≡ true → a ≡ true
first_and a b h = ground arith

module _ (k : World) (order_id item_id : Uuid) (order : Order) (item : OrderItem)
    (input : UpdateOrderItemInput) (date : Option Date) (entry : OutboxEntry) where
  -- The item can be edited, while the entry carries its payload of before; no log has an id that is
  -- drawn.
  pub record IsUnderWay : Type 0 where
    pub editable : IsEditable k order_id item_id order item input date
    pub of_item : entry.order_item_id ≡ item_id
    pub carries : entry.xml_payload ≡ build_demand_update_xml entry.order_number item
    pub fresh : (n : ℕ) → any (λ l. l.id == k.random n) k.db.logs ≡ false

  -- The row after the edit and the attempt, and the log of the attempt.
  pub record Stale (client : Client) : Type 0 where
    pub row : OrderItem
    pub log : SapSyncLog
    pub edited :
        (update_item order_id item_id input k).0
        ≡ ok (edit k order_id item_id order item input date item)
    pub stored :
        first (
          select
            (item_of_order order_id item_id)
            (process_outbox_entry client entry (update_item order_id item_id input k).1).1.db.items)
        ≡ some row
    pub has_edit :
        (row.description ≡ or_keep input.description item.description)
        × (row.delivery_date ≡ or_keep date item.delivery_date)
    pub is_synced : row.status ≡ synced
    pub logged :
        Memᴰ log
          (process_outbox_entry client entry (update_item order_id item_id input k).1).1.db.logs
    pub sent :
        (log.xml_request ≡ build_demand_update_xml entry.order_number item)
        × (log.status ≡ SyncStatus.success)

  abbrev edited_item : OrderItem
  edited_item = edit k order_id item_id order item input date item

  module _ (under_way : IsUnderWay) (v : World)
      (tables : v.db ≡ edited_tables k order_id item_id order item input date) where
    there : first (select (item_of_order order_id item_id) v.db.items) ≡ some edited_item
    there =
        ap (λ d. first (select (item_of_order order_id item_id) d.items)) tables
        ∙ first-update_rows (item_of_order order_id item_id) (item_of_order order_id item_id)
            (edit k order_id item_id order item input date) (λ y. refl) k.db.items item
            under_way.editable.item_found
            (first-select (item_of_order order_id item_id) k.db.items item
              under_way.editable.item_found)

    its_id : item_id_is entry.order_item_id edited_item ≡ true
    its_id =
        ap (λ i. edited_item.id == i) under_way.of_item
        ∙ first_and (edited_item.id == item_id) (edited_item.order_id == order_id)
            (first-select (item_of_order order_id item_id) v.db.items edited_item there)

    ready : Steady v → Alike k v → Ready v entry.order_item_id
    ready steady like = record {
      steady = steady;
      has_item =
          ap (λ i. any (item_id_is i) v.db.items) under_way.of_item
          ∙ found-any order_id item_id edited_item v.db.items there;
      fresh = λ n.
          ap (λ d. any (λ l. l.id == v.random n) d.logs) tables
          ∙ ap (λ r. any (λ (l : SapSyncLog). l.id == r n) k.db.logs) like.random
          ∙ under_way.fresh n;
    }

    synced_row :
        (db : Db) (r : SyncResult)
        → Recorded entry (accepted entry r.xml_response) v.db db
        → (row : OrderItem) × (first (select (item_of_order order_id item_id) db.items) ≡ some row)
          × (row.description ≡ edited_item.description)
          × (row.delivery_date ≡ edited_item.delivery_date)
          × (row.status ≡ synced)
          × ((log : SapSyncLog) × Memᴰ log db.logs
              × (log.xml_request ≡ entry.xml_payload)
              × (log.status ≡ SyncStatus.success))
    synced_row db r (t, u, t', t'', is) = (
      set_status synced t' edited_item,
      ap (λ d. first (select (item_of_order order_id item_id) d.items)) is
          ∙ first-update_rows (item_of_order order_id item_id) (item_id_is entry.order_item_id)
              (set_status synced t') (λ y. refl) v.db.items edited_item there its_id,
      refl,
      refl,
      refl,
      (
        new_log (accepted entry r.xml_response).log t u,
        subst (λ d. Memᴰ (new_log (accepted entry r.xml_response).log t u) d.logs) (sym is)
            (Mem-append_right v.db.logs _ (Memᴰ.head refl)),
        refl,
        refl,
      ),
    )

  -- When no statement fails, an item is edited while its entry, which carries the payload of before
  -- the edit, is under way, and SAP accepts that payload: UpdateItem succeeds, and ProcessOutboxEntry
  -- then leaves the row with the edit and the status SYNCED, while its log says that what was sent
  -- with success is the payload of the item as it was before.
  pub update_item-Stale :
      Steady k
      → IsUnderWay
      → (client : Client) (r : SyncResult)
      → client entry.rfc_function (build_demand_update_xml entry.order_number item) ≡ replied r
      → r.success ≡ true
      → Stale client
  update_item-Stale steady under_way client r accepts success =
      let (row, v, same, like, (is, tables)) =
        answered k (Edited k order_id item_id order item input date)
          (update_item order_id item_id input k)
          ((update_item-Edited k order_id item_id order item input date steady
              under_way.editable).run
            k (record { clock = refl; random = refl; faults = refl }) refl) in
      let settled =
        process_outbox_entry-settles v entry
          (ready under_way v tables (λ n. ap (λ f. f n) like.faults ∙ steady n) like) client in
      let (last, stored, described, dated, done, (log, m, sent, status)) =
        synced_row under_way v tables (process_outbox_entry client entry v).1.db r (
          subst (λ o. Recorded entry o v.db (process_outbox_entry client entry v).1.db)
            (ap (outcome entry) (ap (client entry.rfc_function) under_way.carries ∙ accepts)
              ∙ ap
                  (λ b.
                    if b
                    then accepted entry r.xml_response
                    else outcome entry (replied (record r { success = false })))
                  success)
            settled) in
      record {
        row = last;
        log = log;
        edited = ap (λ q. q.0) same ∙ ap ok is;
        stored =
            ap
              (λ w. first (
                select (item_of_order order_id item_id)
                  (process_outbox_entry client entry w).1.db.items))
              (ap (λ q. q.1) same)
            ∙ stored;
        has_edit = (described, dated);
        is_synced = done;
        logged =
            subst (λ w. Memᴰ log (process_outbox_entry client entry w).1.db.logs)
              (sym (ap (λ q. q.1) same)) m;
        sent = (sent ∙ under_way.carries, status);
      }
