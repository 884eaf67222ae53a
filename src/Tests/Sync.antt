-- ===== src/Tests/Sync.antt =====
-- The theorems on internal/service/sync_service.go at concrete inputs.
use sap_orders_api.Prelude.{◌≡◌, refl, ◌⊎◌, false, [], ◌∷◌}
use sap_orders_api.Domain.Types.{OutboxEntry, OutboxStatus, processing}
use sap_orders_api.Sap.{stub_client, Reply, Client}
use sap_orders_api.Store.Monad.{ok}
use sap_orders_api.Store.Triple.{Ensures}
use sap_orders_api.Store.Orders.{items_of}
use sap_orders_api.Prelude.Lists.{sort_with, insert_with}
use sap_orders_api.Service.Sync.{process_outbox_entry, enqueue_sync, cancel_sync}
use sap_orders_api.Service.Sync.Processing.{
  Recorded, AllOrNothing, outcome, process_outbox_entry-Recorded,
}
use sap_orders_api.Service.Sync.Success.{Ready, process_outbox_entry-settles}
use sap_orders_api.Service.Sync.Enqueue.{Allows, Enqueued, enqueue_sync-Enqueued}
use sap_orders_api.Service.Sync.Admission.{enqueue_sync-admits}
use sap_orders_api.Service.Sync.Cancel.{CancelledIn, cancel_sync-CancelledIn}
use sap_orders_api.Domain.Dates.{is_delivery_date_in_past, day_number, days_of_months, days_in}
use sap_orders_api.Tests.{world_of, entry_of, order_one, item_ten}

abbrev in_hand : OutboxEntry
in_hand = entry_of processing 1

-- a client that cannot reach SAP
abbrev unreachable : Client
unreachable f x = Reply.failed "no route"

process_outbox_entry-Recorded_example :
    let o = outcome in_hand (Reply.failed "no route") in
    Ensures
      (λ _. Recorded in_hand o (world_of (in_hand ∷ [])).db)
      (AllOrNothing in_hand o (world_of (in_hand ∷ [])).db)
      (process_outbox_entry unreachable in_hand (world_of (in_hand ∷ [])))
process_outbox_entry-Recorded_example =
    process_outbox_entry-Recorded unreachable in_hand (world_of (in_hand ∷ []))

ready : Ready (world_of (in_hand ∷ [])) 10
ready = record { steady = λ n. refl; has_item = refl; fresh = λ n. refl }

process_outbox_entry-settles_example :
    Recorded in_hand
      (outcome in_hand (stub_client "Z_UPDATE_DEMAND" "<x/>"))
      (world_of (in_hand ∷ [])).db
      (process_outbox_entry stub_client in_hand (world_of (in_hand ∷ []))).1.db
process_outbox_entry-settles_example =
    process_outbox_entry-settles (world_of (in_hand ∷ [])) in_hand ready stub_client

enqueue_sync-Enqueued_example :
    Ensures
      (Enqueued "Z_UPDATE_DEMAND" 1 10 (world_of []).db)
      (λ db.
        (db ≡ (world_of []).db)
        ⊎ ((e : OutboxEntry) × Enqueued "Z_UPDATE_DEMAND" 1 10 (world_of []).db e db))
      (enqueue_sync "Z_UPDATE_DEMAND" 1 10 (world_of []))
enqueue_sync-Enqueued_example = enqueue_sync-Enqueued "Z_UPDATE_DEMAND" 1 10 (world_of [])

pub not_past : is_delivery_date_in_past 7 item_ten.delivery_date ≡ false
unfolding is_delivery_date_in_past day_number days_of_months days_in
not_past = refl

pub items_found : order_one.items ≡ items_of 1 (world_of []).db
unfolding sort_with insert_with
items_found = refl

pub allowed : Allows (world_of []).db 1 10 order_one item_ten
allowed = record {
  order_found = (refl, items_found);
  order_is_open = refl;
  item_found = refl;
  item_can_sync = refl;
  none_active = refl;
}

enqueue_sync-admits_example :
    let r = enqueue_sync "Z_UPDATE_DEMAND" 1 10 (world_of []) in
    (e : OutboxEntry) × (r.0 ≡ ok e) × Enqueued "Z_UPDATE_DEMAND" 1 10 (world_of []).db e r.1.db
enqueue_sync-admits_example =
    enqueue_sync-admits "Z_UPDATE_DEMAND" 1 10 (world_of []) (λ n. refl) order_one item_ten allowed
      not_past (λ n. refl)

abbrev waiting : OutboxEntry
waiting = entry_of OutboxStatus.pending 0

cancel_sync-CancelledIn_example :
    Ensures
      (CancelledIn 10 50 (world_of (waiting ∷ [])).db)
      (λ db.
        (db ≡ (world_of (waiting ∷ [])).db)
        ⊎ ((e : OutboxEntry) × CancelledIn 10 50 (world_of (waiting ∷ [])).db e db))
      (cancel_sync 1 10 50 (world_of (waiting ∷ [])))
cancel_sync-CancelledIn_example = cancel_sync-CancelledIn 1 10 50 (world_of (waiting ∷ []))
