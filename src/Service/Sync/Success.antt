-- ===== src/Service/Sync/Success.antt =====
-- ProcessOutboxEntry and EnqueueSync of internal/service/sync_service.go, when no statement fails.
use Prim.Native.String
use sap_orders_api.Prelude.{
  ℕ, ◌≡◌, refl, sym, ap, subst, ◌∙◌, Bool, true, false, not, ◌||◌, String, any, ◌==◌, if◌then◌else◌,
  arith,
}
use sap_orders_api.Domain.Errors.{Error, wrap, sentinel, sap_sync_failed}
use sap_orders_api.Domain.Types.{Uuid, ItemStatus, OutboxEntry}
use sap_orders_api.Sap.{Client, SyncResult, Reply, replied}
use sap_orders_api.Store.Monad.{
  Db, World, Result, ok, err, M, pure, raise, ◌>>=◌, ◌>>◌, with_transaction, unless,
}
use sap_orders_api.Store.Triple.{Ensures, with_transaction-Triple}
use sap_orders_api.Store.Total.{
  Alike, Done, Total, Steady, Gives, >>=-Total, if-Total, query_row-Total, with_transaction-Total,
}
use sap_orders_api.Store.Items
use sap_orders_api.Store.Items.{item_id_is}
use sap_orders_api.Store.Logs
use sap_orders_api.Store.Logs.{LogInput}
use sap_orders_api.Store.Outbox
use sap_orders_api.Service.Sync.{
  can_retry, failure_body, handle_sync_failure, reply_body, process_reply, process_outbox_entry,
}
use sap_orders_api.Service.Sync.Processing.{
  Recorded, outcome, unreached, failure_body-Recorded, reply_body-Recorded,
}

-- No statement fails, the item is there, and no log has an id that is drawn.
pub record Ready (w : World) (item_id : Uuid) : Type 0 where
  pub steady : Steady w
  pub has_item : any (item_id_is item_id) w.db.items ≡ true
  pub fresh : (n : ℕ) → any (λ l. l.id == w.random n) w.db.logs ≡ false

-- An INSERT that no constraint refuses.
pub Gives-unless :
    {A : Type 0} (Q : A → Db → Type 0) (b : Bool) (a : A) (db : Db)
    → b ≡ false
    → Q a db
    → Gives Q (unless b (a, db))
Gives-unless Q b a db e h = subst (λ b. Gives Q (unless b (a, db))) (sym e) h

neither : (a b : Bool) → a ≡ false → b ≡ true → (a || not b) ≡ false
neither a b h k = ground arith

abbrev Nothing : {A : Type 0} → A → Db → Type 0
Nothing a db = Unit {0}

abbrev Whatever : Db → Type 0
Whatever db = Unit {0}

-- how a run goes on from the result r
abbrev then_run : {A B : Type 0} → (A → M B) → Result A × World → Result B × World
then_run f r = elim r.0 [ ok a ↦ f a r.1 | err e ↦ (err e, r.1) ]

module _ (k : World) (item_id : Uuid) (ready : Ready k item_id) where
  log_allowed :
      (log : LogInput)
      → log.order_item_id ≡ item_id
      → Total k (λ db. db ≡ k.db) (Logs.create log) (λ _ db. db.items ≡ k.db.items)
  unfolding Logs.create
  log_allowed log e = query_row-Total ready.steady "create sync log: " _ λ n db p.
      Gives-unless _ (Logs.log_taken (Logs.new_log log k.clock (k.random n)) db) _ _
        (neither _ _ (ap (λ d. any (λ l. l.id == k.random n) d.logs) p ∙ ready.fresh n) (
          ap (λ d. any (item_id_is log.order_item_id) d.items) p
          ∙ ap (λ i. any (item_id_is i) k.db.items) e
          ∙ ready.has_item))
        (ap (λ d. d.items) p)

  pub status_set :
      (s : ItemStatus)
      → Total k (λ db. db.items ≡ k.db.items) (Items.update_status item_id s) Nothing
  unfolding Items.update_status
  status_set s =
      >>=-Total
        (query_row-Total ready.steady {Q = λ b db. b ≡ true} "update item status: " _
          λ n db p. ap (any (item_id_is item_id)) p ∙ ready.has_item)
        λ affected. record { run = λ w a p. rw p ((a, tt)) }

  attempt_done :
      (log : LogInput) (s : ItemStatus) (mark : M (Unit {0}))
      → log.order_item_id ≡ item_id
      → Total k Whatever mark Nothing
      → Total k
          (λ db. db ≡ k.db)
          (Logs.create log >> (Items.update_status item_id s >> mark))
          Nothing
  attempt_done log s mark e h = >>=-Total (log_allowed log e) λ _. >>=-Total (status_set s) λ _. h

module _ (k : World) (entry : OutboxEntry) (ready : Ready k entry.order_item_id) where
  completed_done : Total k Whatever (Outbox.mark_completed entry.id) Nothing
  unfolding Outbox.mark_completed
  completed_done = query_row-Total ready.steady "mark outbox completed: " _ λ n db p. tt

  failed_done :
      (message : String) (retry : Bool)
      → Total k Whatever (Outbox.mark_failed entry.id message retry) Nothing
  unfolding Outbox.mark_failed
  failed_done message retry = query_row-Total ready.steady "mark outbox failed: " _ λ n db p. tt

  reply_body-done : (r : SyncResult) → Total k (λ db. db ≡ k.db) (reply_body entry r) Nothing
  unfolding reply_body
  reply_body-done r =
      attempt_done k entry.order_item_id ready _ _ _ refl
        (if-Total r.success (λ _. completed_done) (λ _. failed_done r.message (can_retry entry)))

  failure_body-done :
      (message : String) (retry : Bool)
      → Total k (λ db. db ≡ k.db) (failure_body entry message retry) Nothing
  unfolding failure_body
  failure_body-done message retry =
      attempt_done k entry.order_item_id ready _ _ _ refl (failed_done message retry)

  -- A run that succeeds has the postcondition of its success.
  of_success :
      {A : Type 0} (Q : A → Db → Type 0) (E : Db → Type 0) (r : Result A × World)
      → Done k Nothing r
      → Ensures Q E r
      → (a : A) × Q a r.1.db
  of_success Q E (ok a, w) d h = (a, h)
  of_success Q E (err e, w) d h = absurd d

  -- the end of handleSyncFailure leaves the tables alone
  reported :
      (retry : Bool) (x : Error) (r : Result (Unit {0}) × World)
      → Done k Nothing r
      → (then_run (λ _. if retry then raise x else pure tt) r).1.db ≡ r.1.db
  reported true x (ok a, w) d = refl
  reported false x (ok a, w) d = refl
  reported retry x (err e, w) d = refl

  -- Without a failing statement the outcome that belongs to SAP's answer is recorded, whatever that
  -- answer is, if the entry's item is in the table and no log has an id that is drawn.
  pub process_outbox_entry-settles :
      (client : Client)
      → Recorded entry
          (outcome entry (client entry.rfc_function entry.xml_payload))
          k.db
          (process_outbox_entry client entry k).1.db
  unfolding process_outbox_entry process_reply handle_sync_failure ◌>>=◌
  process_outbox_entry-settles client = by_reply (client entry.rfc_function entry.xml_payload)
    where
      self : Alike k k
      self = record { clock = refl; random = refl; faults = refl }

      by_reply :
          (reply : Reply)
          → Recorded entry (outcome entry reply) k.db (process_reply entry reply k).1.db
      by_reply (replied r) =
          (of_success (λ _. Recorded entry (outcome entry (replied r)) k.db) _
            (with_transaction (reply_body entry r) k)
            ((with_transaction-Total ready.steady (reply_body-done r)).run k self refl)
            ((with_transaction-Triple {E = λ _. Unit} (λ db h. tt) (λ _ db h. tt)
                (reply_body-Recorded k.db entry r)).run
              k refl)).1
      by_reply (Reply.failed message) =
          let retry = can_retry entry in
          let run = with_transaction (failure_body entry message retry) k in
          let done =
            (with_transaction-Total ready.steady (failure_body-done message retry)).run k self
              refl in
          subst (Recorded entry (unreached entry message retry) k.db)
            (sym (
              reported retry (wrap "" (sentinel sap_sync_failed) (String.◌++◌ ": " message)) run
                done))
            (of_success (λ _. Recorded entry (unreached entry message retry) k.db) _ run done
              ((with_transaction-Triple {E = λ _. Unit} (λ db h. tt) (λ _ db h. tt)
                  (failure_body-Recorded k.db entry message retry)).run
                k refl)).1
