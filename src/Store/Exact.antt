-- ===== src/Store/Exact.antt =====
-- The tables after each write of a transaction, in full. The time and the drawn id are those of the
-- statement; a failure says nothing, since the transaction is rolled back.
use sap_orders_api.Prelude.{
  ◌≡◌, refl, sym, ap, ◌∙◌, Bool, true, false, Option, none, some, String, map, first, select, any,
}
use sap_orders_api.Domain.Errors.{sentinel, not_found, sync_not_cancellable}
use sap_orders_api.Domain.Types.{Uuid, Time, ItemStatus, OutboxEntry}
use sap_orders_api.Store.Monad.{Db, query_row}
use sap_orders_api.Store.Triple.{
  Triple, query_row-Triple, >>=-Triple, pure-Triple, raise-Triple, if-Triple, weaken-Triple,
}
use sap_orders_api.Store.Items
use sap_orders_api.Store.Items.{item_id_is, update_item_status}
use sap_orders_api.Store.Logs
use sap_orders_api.Store.Logs.{LogInput, new_log, log_taken, with_log}
use sap_orders_api.Store.Outbox
use sap_orders_api.Store.Outbox.{
  EntryInput, new_entry, entry_taken, with_entry, complete_rows, fail_rows, cancel_rows, or_refuse,
  cancellable, set_cancelled,
}
use sap_orders_api.Store.Reads.{get_entry-Triple}
use sap_orders_api.Store.Writes.{Answers-unless}

-- Nothing is said of a failure.
abbrev pub Anything : Db → Type 0
Anything _ = Unit

refuse_cancel-fails :
    {P : Db → Type 0} {Q : OutboxEntry → Db → Type 0} (item_id outbox_id : Uuid)
    → Triple P (Outbox.refuse_cancel item_id outbox_id) Q Anything
unfolding Outbox.refuse_cancel
refuse_cancel-fails item_id outbox_id =
    >>=-Triple
      (weaken-Triple (λ db p. tt) (λ a db h. tt) (λ db h. tt)
        (get_entry-Triple {P = Anything} item_id outbox_id))
      λ existing.
        if-Triple _ (λ e. raise-Triple (sentinel sync_not_cancellable) (λ db h. tt))
          (λ e. raise-Triple (sentinel not_found) (λ db h. tt))

-- After a cancellation: the entry returned is the changed row.
abbrev pub Cancelled : Db → Uuid → Uuid → OutboxEntry → Db → Type 0
Cancelled X item_id outbox_id e db =
    (t : Time) × (first (map (set_cancelled t) (select (cancellable item_id outbox_id) X.outbox))
      ≡ some e)
    × (db ≡ (cancel_rows item_id outbox_id t X).1)

cancel_answer :
    (X : Db) (item_id outbox_id : Uuid) (found : Option OutboxEntry)
    → Triple
        (λ db.
          (t : Time) × (u : Uuid) × (found ≡ (cancel_rows item_id outbox_id t X).0)
          × (db ≡ (cancel_rows item_id outbox_id t X).1))
        (or_refuse item_id outbox_id found)
        (Cancelled X item_id outbox_id)
        Anything
cancel_answer X item_id outbox_id none = refuse_cancel-fails item_id outbox_id
cancel_answer X item_id outbox_id (some e) = pure-Triple e (λ db h. (h.0, sym h.2, h.3))

module _ {X : Db} where
  -- A statement that always answers.
  exactly :
      {A : Type 0} (what : String) (g : Time → Uuid → Db → A × Db)
      → Triple
          (λ db. db ≡ X)
          (query_row what (λ t u db. some (g t u db)))
          (λ a db. (t : Time) × (u : Uuid) × (a ≡ (g t u X).0) × (db ≡ (g t u X).1))
          Anything
  exactly what g =
      query_row-Triple _ _ _ what _ (λ db p. tt)
        (λ t u db p. ((t, u, ap (λ d. (g t u d).0) p, ap (λ d. (g t u d).1) p), tt))

  pub create_log-exact :
      (log : LogInput)
      → Triple
          (λ db. db ≡ X)
          (Logs.create log)
          (λ _ db.
            (t : Time) × (u : Uuid) × (log_taken (new_log log t u) X ≡ false)
            × (db ≡ with_log (new_log log t u) X))
          Anything
  unfolding Logs.create
  create_log-exact log =
      query_row-Triple _ _ _ "create sync log: " _ (λ db p. tt)
        λ t u db p.
          let row = new_log log t u in
          Answers-unless _ _ (log_taken row db) row (with_log row db)
            (λ free. ((t, u, ap (log_taken row) (sym p) ∙ free, ap (with_log row) p), tt))

  pub update_status-exact :
      (item_id : Uuid) (status : ItemStatus)
      → Triple
          (λ db. db ≡ X)
          (Items.update_status item_id status)
          (λ _ db.
            (t : Time) × (any (item_id_is item_id) X.items ≡ true)
            × (db ≡ (update_item_status item_id status t X).1))
          Anything
  unfolding Items.update_status
  update_status-exact item_id status =
      >>=-Triple (exactly "update item status: " (λ t _ db. update_item_status item_id status t db))
        λ affected.
          if-Triple affected (λ e. pure-Triple tt (λ db h. (h.0, sym h.2 ∙ e, h.3)))
            (λ e. raise-Triple (sentinel not_found) (λ db h. tt))

  pub create_entry-exact :
      (input : EntryInput)
      → Triple
          (λ db. db ≡ X)
          (Outbox.create input)
          (λ e db.
            (t : Time) × (u : Uuid) × (e ≡ new_entry input t u)
            × (entry_taken e X ≡ false)
            × (db ≡ with_entry e X))
          Anything
  unfolding Outbox.create
  create_entry-exact input =
      query_row-Triple _ _ _ "create outbox entry: " _ (λ db p. tt)
        λ t u db p.
          let row = new_entry input t u in
          Answers-unless _ _ (entry_taken row db) row (with_entry row db)
            (λ free. ((t, u, refl, ap (entry_taken row) (sym p) ∙ free, ap (with_entry row) p), tt))

  pub mark_completed-exact :
      (id : Uuid)
      → Triple
          (λ db. db ≡ X)
          (Outbox.mark_completed id)
          (λ _ db. (t : Time) × (db ≡ (complete_rows id t X).1))
          Anything
  unfolding Outbox.mark_completed
  mark_completed-exact id =
      weaken-Triple (λ db p. p) (λ a db h. (h.0, h.3)) (λ db h. tt)
        (exactly "mark outbox completed: " (λ t _ db. complete_rows id t db))

  pub mark_failed-exact :
      (id : Uuid) (message : String) (retry : Bool)
      → Triple
          (λ db. db ≡ X)
          (Outbox.mark_failed id message retry)
          (λ _ db. (t : Time) × (db ≡ (fail_rows id message retry t X).1))
          Anything
  unfolding Outbox.mark_failed
  mark_failed-exact id message retry =
      weaken-Triple (λ db p. p) (λ a db h. (h.0, h.3)) (λ db h. tt)
        (exactly "mark outbox failed: " (λ t _ db. fail_rows id message retry t db))

  pub cancel-exact :
      (item_id outbox_id : Uuid)
      → Triple
          (λ db. db ≡ X)
          (Outbox.cancel item_id outbox_id)
          (Cancelled X item_id outbox_id)
          Anything
  unfolding Outbox.cancel
  cancel-exact item_id outbox_id =
      >>=-Triple (exactly "cancel outbox entry: " (λ t _ db. cancel_rows item_id outbox_id t db))
        (cancel_answer X item_id outbox_id)
