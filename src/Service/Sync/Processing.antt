-- ===== src/Service/Sync/Processing.antt =====
-- What ProcessOutboxEntry and handleSyncFailure of internal/service/sync_service.go leave in the
-- tables: the log row, the item's status and the entry's status, all three or none.
use sap_orders_api.Prelude.{
  ◌≡◌, refl, ◌⊎◌, inl, inr, Bool, Option, none, some, [], ◌∷◌, ◌++◌, String, update_rows,
  Bool-cases, if◌then◌else◌,
}
use sap_orders_api.Domain.Types.{
  Uuid, Time, ItemStatus, SyncStatus, updated, synced, success, OutboxEntry,
}
use sap_orders_api.Sap.{SyncResult, Reply, replied, Client}
use sap_orders_api.Store.Monad.{Db, World, M, ◌>>◌}
use sap_orders_api.Store.Triple.{
  Triple, Ensures, >>=-Triple, pure-Triple, raise-Triple, if-Triple, weaken-Triple,
  with_transaction-Triple, fix-Triple,
}
use sap_orders_api.Store.Items
use sap_orders_api.Store.Items.{item_id_is, set_status}
use sap_orders_api.Store.Logs
use sap_orders_api.Store.Logs.{LogInput, new_log, with_log}
use sap_orders_api.Store.Outbox.{outbox_id_is, set_completed, set_failed}
use sap_orders_api.Store.Exact.{
  Anything, create_log-exact, update_status-exact, mark_completed-exact, mark_failed-exact,
}
use sap_orders_api.Service.Sync.{
  can_retry, some_text, failure_body, handle_sync_failure, reply_body, process_reply,
  process_outbox_entry,
}

-- What an attempt is to record: its log, the new status of the item, the change of the entry.
pub record Outcome : Type 0 where
  pub log : LogInput
  pub item_status : ItemStatus
  pub settle : Time → OutboxEntry → OutboxEntry

abbrev pub attempt_log : OutboxEntry → Option String → SyncStatus → Option String → LogInput
attempt_log entry response status error = record {
  order_item_id = entry.order_item_id;
  rfc_function = entry.rfc_function;
  xml_request = entry.xml_payload;
  xml_response = response;
  status = status;
  error_message = error;
}

-- SAP accepted the update; SAP refused it; SAP could not be reached.
abbrev pub accepted : OutboxEntry → String → Outcome
accepted entry response = record {
  log = attempt_log entry (some response) success none;
  item_status = synced;
  settle = set_completed;
}

abbrev pub rejected : OutboxEntry → String → String → Outcome
rejected entry response message = record {
  log = attempt_log entry (some response) SyncStatus.failed (some_text message);
  item_status = ItemStatus.failed;
  settle = set_failed message (can_retry entry);
}

abbrev pub unreached : OutboxEntry → String → Bool → Outcome
unreached entry message retry = record {
  log = attempt_log entry none SyncStatus.failed (some message);
  item_status = if retry then updated else ItemStatus.failed;
  settle = set_failed message retry;
}

abbrev pub outcome : OutboxEntry → Reply → Outcome
outcome entry (Reply.failed message) = unreached entry message (can_retry entry)
outcome entry (replied r) =
    if r.success then accepted entry r.xml_response else rejected entry r.xml_response r.message

-- The tables X with an outcome recorded: one new log row, the item's status, the entry's change.
abbrev pub recorded : OutboxEntry → Outcome → Time → Uuid → Time → Time → Db → Db
recorded entry o t u t' t'' X = record {
  orders = X.orders;
  items = update_rows (item_id_is entry.order_item_id) (set_status o.item_status t') X.items;
  logs = X.logs ++ new_log o.log t u ∷ [];
  outbox = update_rows (outbox_id_is entry.id) (o.settle t'') X.outbox;
}

abbrev pub Recorded : OutboxEntry → Outcome → Db → Db → Type 0
Recorded entry o X db =
    (t : Time) × (u : Uuid) × (t' : Time) × (t'' : Time) × (db ≡ recorded entry o t u t' t'' X)

-- The three statements of an attempt in a row, if the last one marks the entry as it is to.
record_attempt :
    (X : Db) (entry : OutboxEntry) (o : Outcome) (mark : M (Unit {0}))
    → ((Y : Db)
        → Triple
            (λ db. db ≡ Y)
            mark
            (λ _ db.
              (t : Time) × (db
                ≡ record Y { outbox = update_rows (outbox_id_is entry.id) (o.settle t) Y.outbox }))
            Anything)
    → Triple
        (λ db. db ≡ X)
        (Logs.create o.log >> (Items.update_status entry.order_item_id o.item_status >> mark))
        (λ _ db. Recorded entry o X db)
        Anything
record_attempt X entry o mark marks = >>=-Triple (create_log-exact o.log) λ _.
    fix-Triple {T = Time × Uuid} (λ c db. db ≡ with_log (new_log o.log c.0 c.1) X)
      (λ db h. ((h.0, h.1), h.3))
      λ c. >>=-Triple (update_status-exact entry.order_item_id o.item_status) λ _.
        fix-Triple {T = Time}
          (λ t' db. db ≡ record (recorded entry o c.0 c.1 t' t' X) { outbox = X.outbox })
          (λ db h. (h.0, h.2))
          λ t'. weaken-Triple (λ db h. h) (λ _ db h. (c.0, c.1, t', h.0, h.1)) (λ db h. h) (marks _)

pub failure_body-Recorded :
    (X : Db) (entry : OutboxEntry) (message : String) (retry : Bool)
    → Triple
        (λ db. db ≡ X)
        (failure_body entry message retry)
        (λ _ db. Recorded entry (unreached entry message retry) X db)
        Anything
unfolding failure_body
failure_body-Recorded X entry message retry =
    record_attempt X entry (unreached entry message retry) _
      (λ Y. mark_failed-exact entry.id message retry)

pub reply_body-Recorded :
    (X : Db) (entry : OutboxEntry) (r : SyncResult)
    → Triple
        (λ db. db ≡ X)
        (reply_body entry r)
        (λ _ db. Recorded entry (outcome entry (replied r)) X db)
        Anything
unfolding reply_body
reply_body-Recorded X entry r = elim (Bool-cases r.success) [
  | inl e ↦ rw e (
      record_attempt X entry (accepted entry r.xml_response) _ (λ Y. mark_completed-exact entry.id))
  | inr e ↦ rw e (
      record_attempt X entry (rejected entry r.xml_response r.message) _
        (λ Y. mark_failed-exact entry.id r.message (can_retry entry)))
]

-- Unchanged tables, or those with the outcome recorded.
abbrev pub AllOrNothing : OutboxEntry → Outcome → Db → Db → Type 0
AllOrNothing entry o X db = (db ≡ X) ⊎ Recorded entry o X db

handle_sync_failure-Recorded :
    (X : Db) (entry : OutboxEntry) (message : String) (retry : Bool)
    → let o = unreached entry message retry in
      Triple
        (λ db. db ≡ X)
        (handle_sync_failure entry message retry)
        (λ _ db. Recorded entry o X db)
        (AllOrNothing entry o X)
unfolding handle_sync_failure
handle_sync_failure-Recorded X entry message retry =
    >>=-Triple
      (with_transaction-Triple (λ db h. inl h) (λ _ db h. inr h)
        (failure_body-Recorded X entry message retry))
      λ _. if-Triple retry (λ _. raise-Triple _ (λ db h. inr h)) (λ _. pure-Triple tt (λ db h. h))

process_reply-Recorded :
    (X : Db) (entry : OutboxEntry) (reply : Reply)
    → Triple
        (λ db. db ≡ X)
        (process_reply entry reply)
        (λ _ db. Recorded entry (outcome entry reply) X db)
        (AllOrNothing entry (outcome entry reply) X)
unfolding process_reply
process_reply-Recorded X entry (Reply.failed message) =
    handle_sync_failure-Recorded X entry message (can_retry entry)
process_reply-Recorded X entry (replied r) =
    with_transaction-Triple (λ db h. inl h) (λ _ db h. inr h) (reply_body-Recorded X entry r)

-- Whatever SAP answers and whichever statement fails, processing an entry either leaves every
-- table as it was or records the whole outcome that belongs to the answer: one log row, the item's
-- status and the entry's change. If it reports no error, the outcome is recorded.
pub process_outbox_entry-Recorded :
    (client : Client) (entry : OutboxEntry) (w : World)
    → let o = outcome entry (client entry.rfc_function entry.xml_payload) in
      Ensures
        (λ _. Recorded entry o w.db)
        (AllOrNothing entry o w.db)
        (process_outbox_entry client entry w)
unfolding process_outbox_entry
process_outbox_entry-Recorded client entry w =
    (process_reply-Recorded w.db entry (client entry.rfc_function entry.xml_payload)).run w refl
