-- ===== src/Worker.antt =====
-- internal/worker/outbox_worker.go. Its log lines are left out, and so are the errors that only
-- they report.
use sap_orders_api.Prelude.{ℕ, List, [], ◌∷◌}
use sap_orders_api.Domain.Types.{OutboxEntry}
use sap_orders_api.Sap.{Client}
use sap_orders_api.Store.Monad.{World, Result, ok, err}
use sap_orders_api.Service.Sync.{SyncService, claim_pending, process_outbox_entry}

-- The interval is in nanoseconds.
pub record OutboxWorker : Type 0 where
  pub sync_service : SyncService
  pub interval : ℕ
  pub batch_size : ℕ

-- NewOutboxWorker
abbrev pub new_outbox_worker : SyncService → ℕ → ℕ → OutboxWorker
new_outbox_worker sync_service interval batch_size = record {
  sync_service = sync_service;
  interval = interval;
  batch_size = batch_size;
}

-- the loop over the claimed entries: a failed entry does not stop the others
unfoldable pub process_entries : Client → List OutboxEntry → World → World
process_entries client [] w = w
process_entries client (entry ∷ entries) w =
    process_entries client entries (process_outbox_entry client entry w).1

abbrev pub after_claim : Client → Result (List OutboxEntry) × World → World
unfolding process_entries
after_claim client (err e, w) = w
after_claim client (ok entries, w) = process_entries client entries w

unfoldable pub process_batch : ℕ → Client → World → World
unfolding process_entries
process_batch batch_size client w = after_claim client (claim_pending batch_size w)

-- What the select of Run takes next: Done of the context, or a tick. Where both are ready the select
-- may take either, so a tick may come after the context is cancelled. Between two events the rest of
-- the program and the outside change the world.
pub data Event : Type 0 where
  context_done : Event
  tick : (World → World) → Event

-- What Run leaves after these events: it waits for the next one, or has returned.
pub data Running : Type 0 where
  waiting stopped : World → Running

abbrev pub world_of : Running → World
world_of (waiting w) = w
world_of (stopped w) = w

unfoldable pub run : OutboxWorker → List Event → World → Running
unfolding process_batch
run worker [] w = waiting w
run worker (context_done ∷ events) w = stopped w
run worker (tick meanwhile ∷ events) w =
    run worker events (process_batch worker.batch_size worker.sync_service.sap_client (meanwhile w))
