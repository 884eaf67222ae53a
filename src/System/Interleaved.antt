-- ===== src/System/Interleaved.antt =====
-- Runs of EnqueueSync (internal/service/sync_service.go) that interleave. Each of its calls of the
-- database is a step of its own, with the tests that follow it, and other requests, workers and
-- other runs of EnqueueSync may come between two of them; its transaction is one step.
pub mod Invariant
pub mod Turns
pub mod Race
use sap_orders_api.Prelude.{ℕ, zero, suc, ◌≡◌, List, [], ◌∷◌, ◌++◌, String}
use sap_orders_api.Domain.Errors.{Error}
use sap_orders_api.Domain.Types.{Uuid, Order, OrderItem, OutboxEntry}
use sap_orders_api.Store.Monad.{World, Result, ok, err, M, pure, ◌>>=◌, ◌>>◌, with_transaction}
use sap_orders_api.Store.Orders
use sap_orders_api.Store.Items
use sap_orders_api.Store.Outbox
use sap_orders_api.Service.Orders.{refuse_closed}
use sap_orders_api.Service.Sync.{check_syncable, refuse_active, enqueue_body}
use sap_orders_api.System.{System, Step}

-- How far a run has come: nothing is read; the order is read and not CLOSED; the item is read and
-- can be sent; no active entry was seen.
pub data Thread : Type 0 where
  asked : (order_id item_id : Uuid) → Thread
  order_read : (order_id item_id : Uuid) → Order → Thread
  item_read : (item_id : Uuid) → Order → OrderItem → Thread
  checked : (item_id : Uuid) → Order → OrderItem → Thread

pub data Progress : Type 0 where
  running : Thread → Progress
  returned : OutboxEntry → Progress

-- The next call of the database; an error ends the run.
unfoldable pub advance : String → Thread → M Progress
advance rfc_function (asked order_id item_id) = do
  order ← Orders.get_by_id order_id
  refuse_closed order
  pure (running (order_read order_id item_id order))
advance rfc_function (order_read order_id item_id order) = do
  item ← Items.get_by_id order_id item_id
  check_syncable item
  pure (running (item_read item_id order item))
advance rfc_function (item_read item_id order item) = do
  active ← Outbox.has_active_by_item_id item_id
  refuse_active active
  pure (running (checked item_id order item))
advance rfc_function (checked item_id order item) = do
  entry ← with_transaction (enqueue_body rfc_function item_id order item)
  pure (returned entry)

-- The program, and the runs of EnqueueSync that are under way.
pub record Busy : Type 0 where
  pub system : System
  pub threads : List Thread

-- what a run that was advanced leaves among the others
abbrev pub remaining : Result Progress → List Thread
remaining (ok (running thread)) = thread ∷ []
remaining (ok (returned entry)) = []
remaining (err e) = []

abbrev pub after_turn : Busy → List Thread → List Thread → Result Progress × World → Busy
after_turn b before after (r, w) = record {
  system = record b.system { world = w };
  threads = before ++ (remaining r ++ after);
}

pub data Move (rfc_function : String) (b : Busy) : Busy → Type 0 where
  -- a step of the rest of the program
  whole :
      {t : System} → Step rfc_function b.system t → Move rfc_function b (record b { system = t })
  -- a request to send an item
  arrive :
      (order_id item_id : Uuid)
      → Move rfc_function b (record b { threads = b.threads ++ asked order_id item_id ∷ [] })
  -- the turn of one of the runs
  turn :
      (before : List Thread) (thread : Thread) (after : List Thread)
      → b.threads ≡ before ++ thread ∷ after
      → Move rfc_function b (after_turn b before after (advance rfc_function thread b.system.world))

pub data Moves (rfc_function : String) (b : Busy) : Busy → Type 0 where
  done : Moves rfc_function b b
  more : {c d : Busy} → Moves rfc_function b c → Move rfc_function c d → Moves rfc_function b d
