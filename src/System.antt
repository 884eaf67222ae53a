-- ===== src/System.antt =====
-- The program as a sequence of whole calls of internal/service, in any order of the requests of the API
-- and the workers. Calls that overlap are not steps of this relation: between the statements of one
-- call that no transaction holds together another may run, which Interleaved, Overlap and
-- Service.Orders.Reopened are about. The state is the database's world and the entries that workers hold,
-- claimed and not yet processed (the slice of processBatch in internal/worker/outbox_worker.go).
pub mod Effects
pub mod Distinct
pub mod Table
pub mod Held
pub mod Invariant
pub mod Lifecycle
pub mod Progress
pub mod Batch
pub mod OrderSteps
pub mod OrderLife
pub mod Interleaved
pub mod Counting
pub mod Claims
pub mod Overlap
pub mod Delivery
use sap_orders_api.Prelude.{ℕ, ◌≡◌, List, [], ◌∷◌, ◌++◌, String}
use sap_orders_api.Domain.Types.{
  Uuid, Time, CreateOrderInput, UpdateOrderInput, CreateOrderItemInput, UpdateOrderItemInput,
  OutboxEntry,
}
use sap_orders_api.Domain.Paging.{OrderListFilter}
use sap_orders_api.Sap.{Client}
use sap_orders_api.Store.Monad.{World, Fault, Result, ok, err}
use sap_orders_api.Service.Orders
use sap_orders_api.Service.Sync

-- A request of the API, as the handlers hand it to the services.
pub data Call : Type 0 where
  list_orders : OrderListFilter → Call
  get_order : Uuid → Call
  create_order : CreateOrderInput → String → Call
  update_order : Uuid → UpdateOrderInput → Call
  add_item : Uuid → CreateOrderItemInput → Call
  update_item : Uuid → Uuid → UpdateOrderItemInput → Call
  enqueue_sync : Uuid → Uuid → Call
  get_latest_sync_status : Uuid → Uuid → Call
  get_sync_status : Uuid → Uuid → Uuid → Call
  cancel_sync : Uuid → Uuid → Uuid → Call
  list_logs : Uuid → Uuid → Call

-- The world after a call; `rfc_function` is the service's configuration.
unfoldable pub run_call : String → Call → World → World
run_call rfc_function (list_orders filter) w = (Orders.list_orders filter w).1
run_call rfc_function (get_order id) w = (Orders.get_order id w).1
run_call rfc_function (create_order input by) w = (Orders.create_order input by w).1
run_call rfc_function (update_order id input) w = (Orders.update_order id input w).1
run_call rfc_function (add_item id input) w = (Orders.add_item id input w).1
run_call rfc_function (update_item order_id item_id input) w =
    (Orders.update_item order_id item_id input w).1
run_call rfc_function (enqueue_sync order_id item_id) w =
    (Sync.enqueue_sync rfc_function order_id item_id w).1
run_call rfc_function (get_latest_sync_status order_id item_id) w =
    (Sync.get_latest_sync_status order_id item_id w).1
run_call rfc_function (get_sync_status order_id item_id outbox_id) w =
    (Sync.get_sync_status order_id item_id outbox_id w).1
run_call rfc_function (cancel_sync order_id item_id outbox_id) w =
    (Sync.cancel_sync order_id item_id outbox_id w).1
run_call rfc_function (list_logs order_id item_id) w = (Sync.list_logs order_id item_id w).1

pub record System : Type 0 where
  pub world : World
  pub in_flight : List OutboxEntry

-- A worker holds what ClaimPending returns; an error leaves it nothing.
abbrev pub taken : Result (List OutboxEntry) → List OutboxEntry
taken (ok entries) = entries
taken (err e) = []

abbrev pub after_claim : System → Result (List OutboxEntry) × World → System
after_claim s (r, w) = record { world = w; in_flight = s.in_flight ++ taken r }

abbrev pub with_choices : Time → (ℕ → Uuid) → (ℕ → Fault) → World → World
with_choices clock random faults w = record w { clock = clock; random = random; faults = faults }

pub data Step (rfc_function : String) (s : System) : System → Type 0 where
  -- a request
  call : (c : Call) → Step rfc_function s (record s { world = run_call rfc_function c s.world })
  -- a worker claims a batch
  claim : (limit : ℕ) → Step rfc_function s (after_claim s (Sync.claim_pending limit s.world))
  -- a worker processes one of the entries that are held, and is done with it however that ends
  process :
      (client : Client) (before : List OutboxEntry) (e : OutboxEntry) (after : List OutboxEntry)
      → s.in_flight ≡ before ++ e ∷ after
      → Step rfc_function s (record {
        world = (Sync.process_outbox_entry client e s.world).1;
        in_flight = before ++ after;
      })
  -- a worker stops and forgets an entry that it held
  forget :
      (before : List OutboxEntry) (e : OutboxEntry) (after : List OutboxEntry)
      → s.in_flight ≡ before ++ e ∷ after
      → Step rfc_function s (record s { in_flight = before ++ after })
  -- time passes, and the outside's next choices are others
  outside :
      (clock : Time) (random : ℕ → Uuid) (faults : ℕ → Fault)
      → Step rfc_function s (record s { world = with_choices clock random faults s.world })

pub data Reach (rfc_function : String) (s : System) : System → Type 0 where
  here : Reach rfc_function s s
  next : {t u : System} → Reach rfc_function s t → Step rfc_function t u → Reach rfc_function s u
