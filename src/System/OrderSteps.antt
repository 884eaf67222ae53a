-- ===== src/System/OrderSteps.antt =====
-- The life of an order over the steps of the program: its status only moves forward.
use sap_orders_api.Prelude.{ℕ, ◌≡◌, refl, ap, ◌⊎◌, inl, inr, List, String}
use sap_orders_api.Domain.Types.{OutboxEntry}
use sap_orders_api.Store.Monad.{Db, World, Result, ok, err}
use sap_orders_api.Store.Triple.{Ensures}
use sap_orders_api.Store.Outbox.{chosen, claim_rows}
use sap_orders_api.Service.Orders.Frame.{Keeps, update_item-Keeps}
use sap_orders_api.Service.Orders.Changes.{
  Changed, unchanged, create_order-Changes, update_order-Changes, add_item-Changes,
}
use sap_orders_api.Service.Queries.{
  Keeps-after, list_orders-Keeps, get_order-Keeps, list_logs-Keeps, get_latest_sync_status-Keeps,
  get_sync_status-Keeps,
}
use sap_orders_api.Service.Sync.{claim_pending}
use sap_orders_api.Service.Sync.Enqueue.{Enqueued, enqueue_sync-Enqueued}
use sap_orders_api.Service.Sync.Cancel.{CancelledIn, cancel_sync-CancelledIn}
use sap_orders_api.Service.Sync.Processing.{Recorded, outcome, process_outbox_entry-Recorded}
use sap_orders_api.Sap.{Client}
use sap_orders_api.System
use sap_orders_api.System.{Call, run_call, Step, System, after_claim, Reach, here, next}
use sap_orders_api.System.Effects.{claim_pending-Claimed}

-- A run of which every end has P.
ended : {A : Type 0} (P : Db → Type 0) (r : Result A × World) → Ensures (λ _. P) P r → P r.1.db
ended P (ok a, w) h = h
ended P (err e, w) h = h

-- A run that changes no order, or what its success would have changed.
either_same :
    {A : Type 0} (X : Db) (Q : A → Db → Type 0) (r : Result A × World)
    → ((a : A) (db : Db) → Q a db → db.orders ≡ X.orders)
    → Ensures Q (λ db. (db ≡ X) ⊎ ((a : A) × Q a db)) r
    → r.1.db.orders ≡ X.orders
either_same X Q (ok a, w) f h = f a w.db h
either_same X Q (err e, w) f (inl q) = ap (λ d. d.orders) q
either_same X Q (err e, w) f (inr (a, q)) = f a w.db q

module _ (rfc_function : String) (w : World) where
  abbrev SameOrders : Db → Type 0
  SameOrders db = db.orders ≡ w.db.orders

  same_after :
      {A : Type 0} {m : World → Result A × World} → Keeps SameOrders m → Changed w.db (m w).1.db
  same_after {m} h = unchanged (Keeps-after SameOrders (m w) (h.run w refl))

  run_call-Changed : (c : Call) → Changed w.db (run_call rfc_function c w).db
  unfolding run_call
  run_call-Changed (System.list_orders filter) = same_after (list_orders-Keeps SameOrders filter)
  run_call-Changed (System.get_order id) = same_after (get_order-Keeps SameOrders id)
  run_call-Changed (System.create_order input by) =
      ended (Changed w.db) _ ((create_order-Changes w.db input by).run w refl)
  run_call-Changed (System.update_order id input) =
      ended (Changed w.db) _ ((update_order-Changes w.db id input).run w refl)
  run_call-Changed (System.add_item id input) =
      ended (Changed w.db) _ ((add_item-Changes w.db id input).run w refl)
  run_call-Changed (System.update_item order_id item_id input) =
      same_after (update_item-Keeps SameOrders (λ db rows p. p) order_id item_id input)
  run_call-Changed (System.enqueue_sync order_id item_id) = unchanged (
      either_same w.db (Enqueued rfc_function order_id item_id w.db) _
        (λ a db q. ap {A = Db} (λ d. d.orders) q.placed.tables)
        (enqueue_sync-Enqueued rfc_function order_id item_id w))
  run_call-Changed (System.get_latest_sync_status order_id item_id) =
      same_after (get_latest_sync_status-Keeps SameOrders order_id item_id)
  run_call-Changed (System.get_sync_status order_id item_id outbox_id) =
      same_after (get_sync_status-Keeps SameOrders order_id item_id outbox_id)
  run_call-Changed (System.cancel_sync order_id item_id outbox_id) = unchanged (
      either_same w.db (CancelledIn item_id outbox_id w.db) _
        (λ a db q. ap {A = Db} (λ d. d.orders) q.3)
        (cancel_sync-CancelledIn order_id item_id outbox_id w))
  run_call-Changed (System.list_logs order_id item_id) =
      same_after (list_logs-Keeps SameOrders order_id item_id)

process_outbox_entry-same_orders :
    (e : OutboxEntry) (client : Client) (w : World) (r : Result (Unit {0}) × World)
    → let o = outcome e (client e.rfc_function e.xml_payload) in
      Ensures (λ _. Recorded e o w.db) (λ db. (db ≡ w.db) ⊎ Recorded e o w.db db) r
      → r.1.db.orders ≡ w.db.orders
process_outbox_entry-same_orders e client w (ok a, v) h = ap (λ d. d.orders) h.4
process_outbox_entry-same_orders e client w (err x, v) (inl h) = ap (λ d. d.orders) h
process_outbox_entry-same_orders e client w (err x, v) (inr h) = ap (λ d. d.orders) h.4

claim_pending-same_orders :
    (limit : ℕ) (db : Db) (r : Result (List OutboxEntry) × World)
    → let after = claim_rows (chosen limit db) db in
      Ensures (λ es d. (es ≡ after.0) × (d ≡ after.1)) (λ d. (d ≡ db) ⊎ (d ≡ after.1)) r
      → r.1.db.orders ≡ db.orders
claim_pending-same_orders limit db (ok es, w) h = ap (λ d. d.orders) h.1
claim_pending-same_orders limit db (err e, w) (inl h) = ap (λ d. d.orders) h
claim_pending-same_orders limit db (err e, w) (inr h) = ap (λ d. d.orders) h

pub Step-Changed :
    {rfc_function : String} {s t : System} → Step rfc_function s t → Changed s.world.db t.world.db
Step-Changed {rfc_function} {s} (System.call c) = run_call-Changed rfc_function s.world c
Step-Changed {s} (System.claim limit) = unchanged (
    claim_pending-same_orders limit s.world.db (claim_pending limit s.world)
      (claim_pending-Claimed limit s.world))
Step-Changed {s} (System.process client before e after q) = unchanged (
    process_outbox_entry-same_orders e client s.world _
      (process_outbox_entry-Recorded client e s.world))
Step-Changed (System.forget before e after q) = unchanged refl
Step-Changed (System.outside clock random faults) = unchanged refl
