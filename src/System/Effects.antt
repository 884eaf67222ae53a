-- ===== src/System/Effects.antt =====
-- What each request and each step of a worker may do to the outbox table.
use sap_orders_api.Prelude.{
  ℕ, ◌≡◌, refl, sym, ap, ◌⊎◌, inl, inr, false, List, [], ◌∷◌, ◌++◌, String, any, update_rows, subst,
  Bool-cases,
}
use sap_orders_api.Domain.Types.{Uuid, Time, OutboxStatus, Order, OrderItem, OutboxEntry}
use sap_orders_api.Sap.{Client, Reply, replied}
use sap_orders_api.Store.Monad.{Db, World, Result, ok, err}
use sap_orders_api.Store.Triple.{Ensures, query-Triple, Triple}
use sap_orders_api.Store.Outbox
use sap_orders_api.Store.Outbox.{
  active_for, cancellable, set_cancelled, chosen, id_in, set_claimed, claim_rows, outbox_id_is,
  set_completed, set_failed,
}
use sap_orders_api.Service.Orders.Frame.{
  Keeps, create_order-Keeps, update_order-Keeps, add_item-Keeps, update_item-Keeps,
}
use sap_orders_api.Service.Queries.{
  Keeps-after, list_orders-Keeps, get_order-Keeps, list_logs-Keeps, get_latest_sync_status-Keeps,
  get_sync_status-Keeps,
}
use sap_orders_api.Service.Sync.{can_retry, max_attempts, claim_pending, process_outbox_entry}
use sap_orders_api.Service.Sync.Enqueue.{Placed, Enqueued, enqueue_sync-Enqueued}
use sap_orders_api.Service.Sync.Cancel.{CancelledIn, cancel_sync-CancelledIn}
use sap_orders_api.Service.Sync.Processing.{Recorded, outcome, process_outbox_entry-Recorded}
use sap_orders_api.System.{
  Call, list_orders, get_order, create_order, update_order, add_item, update_item, enqueue_sync,
  get_latest_sync_status, get_sync_status, cancel_sync, list_logs, run_call,
}

-- A new entry for the table X.
pub record IsFresh (X : List OutboxEntry) (e : OutboxEntry) : Type 0 where
  pub is_pending : e.status ≡ OutboxStatus.pending
  pub no_attempt : e.attempts ≡ 0
  pub three_to_come : e.max_attempts ≡ max_attempts
  pub id_is_new : any (outbox_id_is e.id) X ≡ false

-- A new entry for an item that has no active one.
pub record IsNew (X : List OutboxEntry) (e : OutboxEntry) : Type 0 where
  pub fresh : IsFresh X e
  pub none_active : any (active_for e.order_item_id) X ≡ false

-- What a request may make of the outbox X.
pub data Requested (X Y : List OutboxEntry) : Type 0 where
  unchanged : Y ≡ X → Requested X Y
  added : (e : OutboxEntry) → IsNew X e → Y ≡ X ++ e ∷ [] → Requested X Y
  withdrawn :
      (item_id outbox_id : Uuid) (t : Time)
      → Y ≡ update_rows (cancellable item_id outbox_id) (set_cancelled t) X
      → Requested X Y

pub Placed-IsFresh :
    {rfc_function : String} {item_id : Uuid} {order : Order} {item : OrderItem} {X : Db}
    {e : OutboxEntry} {db : Db}
    → Placed rfc_function item_id order item X e db
    → IsFresh X.outbox e
Placed-IsFresh h = record {
  is_pending = ap (λ x. x.status) h.entry_is;
  no_attempt = ap (λ x. x.attempts) h.entry_is;
  three_to_come = ap (λ x. x.max_attempts) h.entry_is;
  id_is_new = h.id_is_new;
}

Enqueued-Requested :
    {rfc_function : String} {order_id item_id : Uuid} {X : Db} {e : OutboxEntry} {db : Db}
    → Enqueued rfc_function order_id item_id X e db
    → Requested X.outbox db.outbox
Enqueued-Requested {rfc_function} {item_id} {X} {e} {db} h =
    added e
      (record {
        fresh =
            Placed-IsFresh {rfc_function = rfc_function} {item_id = item_id} {order = h.order}
              {item = h.item} {X = X} {e = e} {db = db} h.placed;
        none_active =
            subst (λ i. any (active_for i) X.outbox ≡ false)
              (sym (ap (λ x. x.order_item_id) h.placed.entry_is)) h.allowed.none_active;
      })
      (ap (λ d. d.outbox) h.placed.tables)

CancelledIn-Requested :
    (item_id outbox_id : Uuid) (X : Db) (e : OutboxEntry) (db : Db)
    → CancelledIn item_id outbox_id X e db
    → Requested X.outbox db.outbox
CancelledIn-Requested item_id outbox_id X e db h =
    withdrawn item_id outbox_id h.0 (ap (λ d. d.outbox) h.3)

-- A run that changes nothing, or what its success would have changed.
Ensures-Requested :
    {A : Type 0} (X : Db) (Q : A → Db → Type 0) (r : Result A × World)
    → ((a : A) (db : Db) → Q a db → Requested X.outbox db.outbox)
    → Ensures Q (λ db. (db ≡ X) ⊎ ((a : A) × Q a db)) r
    → Requested X.outbox r.1.db.outbox
Ensures-Requested X Q (ok a, w) f h = f a w.db h
Ensures-Requested X Q (err x, w) f (inl e) = unchanged (ap (λ d. d.outbox) e)
Ensures-Requested X Q (err x, w) f (inr (a, q)) = f a w.db q

module _ (rfc_function : String) (w : World) where
  -- the tables have the outbox of w
  abbrev SameOutbox : Db → Type 0
  SameOutbox db = db.outbox ≡ w.db.outbox

  Keeps-Requested :
      {A : Type 0} {m : World → Result A × World}
      → Keeps SameOutbox m
      → Requested w.db.outbox (m w).1.db.outbox
  Keeps-Requested {m} h = unchanged (Keeps-after SameOutbox (m w) (h.run w refl))

  -- A request, whichever statements fail, leaves the outbox alone, adds one new entry (PENDING, with
  -- no attempt made, under a new id, for an item without an active entry) or cancels the PENDING
  -- entries of one id and one item.
  pub run_call-Requested : (c : Call) → Requested w.db.outbox (run_call rfc_function c w).db.outbox
  unfolding run_call
  run_call-Requested (list_orders filter) = Keeps-Requested (list_orders-Keeps SameOutbox filter)
  run_call-Requested (get_order id) = Keeps-Requested (get_order-Keeps SameOutbox id)
  run_call-Requested (create_order input by) =
      Keeps-Requested (create_order-Keeps SameOutbox (λ db rows p. p) input by)
  run_call-Requested (update_order id input) =
      Keeps-Requested (update_order-Keeps SameOutbox (λ db rows p. p) id input)
  run_call-Requested (add_item id input) =
      Keeps-Requested (add_item-Keeps SameOutbox (λ db rows p. p) (λ db rows p. p) id input)
  run_call-Requested (update_item order_id item_id input) =
      Keeps-Requested (update_item-Keeps SameOutbox (λ db rows p. p) order_id item_id input)
  run_call-Requested (enqueue_sync order_id item_id) =
      Ensures-Requested w.db _ _ (λ a db. Enqueued-Requested)
        (enqueue_sync-Enqueued rfc_function order_id item_id w)
  run_call-Requested (get_latest_sync_status order_id item_id) =
      Keeps-Requested (get_latest_sync_status-Keeps SameOutbox order_id item_id)
  run_call-Requested (get_sync_status order_id item_id outbox_id) =
      Keeps-Requested (get_sync_status-Keeps SameOutbox order_id item_id outbox_id)
  run_call-Requested (cancel_sync order_id item_id outbox_id) =
      Ensures-Requested w.db _ _ (CancelledIn-Requested item_id outbox_id w.db)
        (cancel_sync-CancelledIn order_id item_id outbox_id w)
  run_call-Requested (list_logs order_id item_id) =
      Keeps-Requested (list_logs-Keeps SameOutbox order_id item_id)

-- ClaimPending of at most `limit` entries: those of the table as it was that are chosen, changed.
claim_pending-Triple :
    (X : Db) (limit : ℕ)
    → Triple
        (λ db. db ≡ X)
        (claim_pending limit)
        (λ es db.
          (es ≡ (claim_rows (chosen limit X) X).0) × (db ≡ (claim_rows (chosen limit X) X).1))
        (λ db. (db ≡ X) ⊎ (db ≡ (claim_rows (chosen limit X) X).1))
unfolding claim_pending Outbox.claim_pending
claim_pending-Triple X limit =
    query-Triple (λ db. db ≡ X)
      (λ es db. (es ≡ (claim_rows (chosen limit X) X).0) × (db ≡ (claim_rows (chosen limit X) X).1))
      (λ db. (db ≡ X) ⊎ (db ≡ (claim_rows (chosen limit X) X).1)) "claim pending outbox entries: " _
      (λ db p. inl p)
      (λ t u db p.
        let after = λ (d : Db). claim_rows (chosen limit d) d in
        ((ap (λ d. (after d).0) p, ap (λ d. (after d).1) p), inr (ap (λ d. (after d).1) p)))

pub claim_pending-Claimed :
    (limit : ℕ) (w : World)
    → let after = claim_rows (chosen limit w.db) w.db in
      Ensures
        (λ es db. (es ≡ after.0) × (db ≡ after.1))
        (λ db. (db ≡ w.db) ⊎ (db ≡ after.1))
        (claim_pending limit w)
claim_pending-Claimed limit w = (claim_pending-Triple w.db limit).run w refl

-- How an attempt may end for the row of the entry e: completed, or failed with its retry.
pub data Settles (e : OutboxEntry) : (OutboxEntry → OutboxEntry) → Type 0 where
  completes : (t : Time) → Settles e (set_completed t)
  fails : (message : String) (t : Time) → Settles e (set_failed message (can_retry e) t)

pub outcome-Settles :
    (e : OutboxEntry) (reply : Reply) (t : Time) → Settles e ((outcome e reply).settle t)
outcome-Settles e (Reply.failed message) t = fails message t
outcome-Settles e (replied r) t = elim (Bool-cases r.success) [
  | inl s ↦ rw s (completes t)
  | inr s ↦ rw s (fails r.message t)
]

-- Processing leaves the outbox alone or settles the rows with the entry's id.
pub data Processed (e : OutboxEntry) (X Y : List OutboxEntry) : Type 0 where
  unchanged : Y ≡ X → Processed e X Y
  settled :
      (f : OutboxEntry → OutboxEntry)
      → Settles e f
      → Y ≡ update_rows (outbox_id_is e.id) f X
      → Processed e X Y

Recorded-Processed :
    (e : OutboxEntry) (reply : Reply) (X db : Db)
    → Recorded e (outcome e reply) X db
    → Processed e X.outbox db.outbox
Recorded-Processed e reply X db h = settled _ (outcome-Settles e reply h.3) (ap (λ d. d.outbox) h.4)

Ensures-Processed :
    (e : OutboxEntry) (reply : Reply) (X : Db) (r : Result (Unit {0}) × World)
    → Ensures
        (λ _. Recorded e (outcome e reply) X)
        (λ db. (db ≡ X) ⊎ Recorded e (outcome e reply) X db)
        r
    → Processed e X.outbox r.1.db.outbox
Ensures-Processed e reply X (ok a, w) h = Recorded-Processed e reply X w.db h
Ensures-Processed e reply X (err x, w) (inl h) = unchanged (ap (λ d. d.outbox) h)
Ensures-Processed e reply X (err x, w) (inr h) = Recorded-Processed e reply X w.db h

pub process_outbox_entry-Processed :
    (client : Client) (e : OutboxEntry) (w : World)
    → Processed e w.db.outbox (process_outbox_entry client e w).1.db.outbox
process_outbox_entry-Processed client e w =
    Ensures-Processed e (client e.rfc_function e.xml_payload) w.db _
      (process_outbox_entry-Recorded client e w)
