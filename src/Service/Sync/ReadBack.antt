-- ===== src/Service/Sync/ReadBack.antt =====
-- GetSyncStatus of internal/service/sync_service.go after EnqueueSync.
use sap_orders_api.Prelude.{
  ℕ, ◌≡◌, refl, sym, ap, ◌∙◌, Bool, true, false, some, none, List, [], ◌∷◌, ◌++◌, String, first,
  select, update_rows, any, ◌==◌, ==_refl, if◌then◌else◌, Bool-cases, inl, inr,
}
use sap_orders_api.Prelude.Members.{or-false_left, or-false_right}
use sap_orders_api.Domain.Types.{Uuid, Time, ItemStatus, updated, Order, OrderItem, OutboxEntry}
use sap_orders_api.Domain.Dates.{is_delivery_date_in_past}
use sap_orders_api.Store.Monad.{Db, World, ok}
use sap_orders_api.Store.Total.{Steady, answered, query_row-Total, pure-Total}
use sap_orders_api.Store.Items.{item_id_is, item_of_order, set_status}
use sap_orders_api.Store.Outbox
use sap_orders_api.Store.Outbox.{entry_of_item}
use sap_orders_api.Service.Sync.{
  is_failed, is_finished, enqueue_sync, get_sync_status, build_sync_status_response,
}
use sap_orders_api.Service.Sync.Enqueue.{Allows, Placed}
use sap_orders_api.Service.Sync.Admission.{Reads, read, found, get_item-Reads, enqueue_sync-admits}

-- an entry that is added under a new id is the one found by its id and its item
first-added :
    (e : OutboxEntry) (rows : List OutboxEntry)
    → any (λ o. o.id == e.id) rows ≡ false
    → first (select (entry_of_item e.order_item_id e.id) (rows ++ e ∷ [])) ≡ some e
first-added e [] h = rw (==_refl e.id) (rw (==_refl e.order_item_id) refl)
first-added e (x ∷ rows) h =
    let rest = first-added e rows (or-false_right (x.id == e.id) _ h) in
    rw (or-false_left (x.id == e.id) _ h) rest

-- the item is still found after its status has been set
still-found :
    (order_id item_id : Uuid) (s : ItemStatus) (t : Time) (items : List OrderItem)
    (item : OrderItem)
    → first (select (item_of_order order_id item_id) items) ≡ some item
    → (i : OrderItem) × (first (
          select
            (item_of_order order_id item_id)
            (update_rows (item_id_is item_id) (set_status s t) items))
        ≡ some i)
still-found order_id item_id s t [] item h = cc
still-found order_id item_id s t (x ∷ items) item h = elim (Bool-cases (x.id == item_id)) [
  | inl e ↦ elim (Bool-cases (x.order_id == order_id)) [
    | inl k ↦ rw e (rw e (rw k ((set_status s t x, refl))))
    | inr k ↦ rw e (rw e (rw k (still-found order_id item_id s t items item (rw k at (rw e at h)))))
  ]
  | inr e ↦ rw e (rw e (still-found order_id item_id s t items item (rw e at h)))
]

module _ (k : World) (steady : Steady k) (X : Db) where
  get_entry-Reads :
      (item_id outbox_id : Uuid) (e : OutboxEntry)
      → first (select (entry_of_item item_id outbox_id) X.outbox) ≡ some e
      → Reads k steady X (Outbox.get_by_id item_id outbox_id) e
  unfolding Outbox.get_by_id
  get_entry-Reads item_id outbox_id e h =
      read k steady X _ (some e)
        (query_row-Total steady "get outbox entry: " _
          λ n db p. (ap (λ d. first (select (entry_of_item item_id outbox_id) d.outbox)) p ∙ h, p))
        (found k steady X _ _ refl)

  get_sync_status-Reads :
      (order_id item_id outbox_id : Uuid) (item : OrderItem) (e : OutboxEntry)
      → first (select (item_of_order order_id item_id) X.items) ≡ some item
      → first (select (entry_of_item item_id outbox_id) X.outbox) ≡ some e
      → is_finished e.status ≡ false
      → Reads k steady X
          (get_sync_status order_id item_id outbox_id)
          (record { outbox = e; latest_log = none })
  unfolding get_sync_status build_sync_status_response
  get_sync_status-Reads order_id item_id outbox_id item e i o f =
      read k steady X _ item (get_item-Reads k steady X order_id item_id item i) (
        read k steady X _ e (get_entry-Reads item_id outbox_id e o)
          (rw f (pure-Total _ (λ db p. (refl, p)))))

module _ (rfc_function : String) (order_id item_id : Uuid) where
  put-readable :
      (order : Order) (item : OrderItem) (X db : Db) (e : OutboxEntry) (v : World)
      → Steady v
      → v.db ≡ db
      → first (select (item_of_order order_id item_id) X.items) ≡ some item
      → Placed rfc_function item_id order item X e db
      → (get_sync_status order_id item_id e.id v).0 ≡ ok (record { outbox = e; latest_log = none })
  put-readable order item X db e v steady same i p =
      let (found_item, f) = item_there (is_failed item.status) in
      let (a, z, got, _, (equal, _)) = answered v _ (get_sync_status order_id item_id e.id v) (
        (get_sync_status-Reads v steady v.db order_id item_id e.id found_item e
            (ap (λ d. first (select (item_of_order order_id item_id) d.items)) (same ∙ p.tables)
              ∙ f)
            (ap (λ d. first (select (entry_of_item item_id e.id) d.outbox)) (same ∙ p.tables)
              ∙ ap (λ n. first (select (entry_of_item n e.id) (X.outbox ++ e ∷ [])))
                  (sym (ap (λ o. o.order_item_id) p.entry_is))
              ∙ first-added e X.outbox p.id_is_new)
            (ap (λ o. is_finished o.status) p.entry_is)).run
          v (record { clock = refl; random = refl; faults = refl }) refl) in
      ap (λ r. r.0) got ∙ ap ok equal
    where
      item_there :
          (b : Bool)
          → (j : OrderItem) × (first (
                select (item_of_order order_id item_id) (
                  if b
                  then update_rows (item_id_is item_id) (set_status updated p.changed) X.items
                  else X.items))
              ≡ some j)
      item_there true = still-found order_id item_id updated p.changed X.items item i
      item_there false = (item, i)

  -- The entry that EnqueueSync answers with can be asked for. For an order and an item that its tests
  -- allow, when no statement fails and no entry has an id that is drawn, it succeeds; and in every
  -- world with the tables that it leaves and in which no statement fails, GetSyncStatus by the id of
  -- its answer gives that same entry, without a log.
  pub enqueue_sync-get_sync_status :
      (k v : World) (steady : Steady k) (order : Order) (item : OrderItem)
      → Allows k.db order_id item_id order item
      → is_delivery_date_in_past k.clock item.delivery_date ≡ false
      → ((n : ℕ) → any (λ e. e.id == k.random n) k.db.outbox ≡ false)
      → Steady v
      → v.db ≡ (enqueue_sync rfc_function order_id item_id k).1.db
      → (e : OutboxEntry) × ((enqueue_sync rfc_function order_id item_id k).0 ≡ ok e)
        × ((get_sync_status order_id item_id e.id v).0
            ≡ ok (record { outbox = e; latest_log = none }))
  enqueue_sync-get_sync_status k v steady order item allowed past fresh calm same =
      let (e, is, q) =
        enqueue_sync-admits rfc_function order_id item_id k steady order item allowed past fresh in
      (
        e,
        is,
        put-readable q.order q.item k.db (enqueue_sync rfc_function order_id item_id k).1.db e v
            calm same q.allowed.item_found q.placed,
      )
