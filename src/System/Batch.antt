-- ===== src/System/Batch.antt =====
-- processBatch of internal/worker/outbox_worker.go is a run of the steps of System.
use sap_orders_api.Prelude.{◌≡◌, refl, ap, subst, ℕ, List, [], ◌∷◌, ◌++◌, String, All}
use sap_orders_api.Domain.Types.{OutboxEntry}
use sap_orders_api.Sap.{Client}
use sap_orders_api.Store.Monad.{World, Result, ok, err}
use sap_orders_api.Service.Sync.{claim_pending, process_outbox_entry}
use sap_orders_api.Worker.{
  OutboxWorker, process_entries, process_batch, Event, context_done, tick, stopped, run,
}
use sap_orders_api.Worker
use sap_orders_api.System.{System, after_claim, claim, process, Reach, here, next}

append_nil : (xs : List OutboxEntry) → xs ++ [] ≡ xs
append_nil [] = refl
append_nil (x ∷ xs) = ap (λ ys. x ∷ ys) (append_nil xs)

module _ (rfc_function : String) (client : Client) where
  -- a run goes on by the entries held beside `before`, one after the other
  entries-Reach :
      (s : System) (before entries : List OutboxEntry) (w : World)
      → Reach rfc_function s (record { world = w; in_flight = before ++ entries })
      → Reach rfc_function s
          (record { world = process_entries client entries w; in_flight = before })
  unfolding process_entries
  entries-Reach s before [] w r =
      subst (λ xs. Reach rfc_function s (record { world = w; in_flight = xs })) (append_nil before)
        r
  entries-Reach s before (e ∷ es) w r =
      entries-Reach s before es (process_outbox_entry client e w).1
        (next r (process client before e es refl))

  claimed-Reach :
      (s : System) (r : Result (List OutboxEntry) × World)
      → Reach rfc_function s (after_claim s r)
      → Reach rfc_function s
          (record { world = Worker.after_claim client r; in_flight = s.in_flight })
  unfolding process_entries
  claimed-Reach s (ok es, w) r = entries-Reach s s.in_flight es w r
  claimed-Reach s (err e, w) r = entries-Reach s s.in_flight [] w r

  -- One batch of a worker is a run of the program's steps, a claim and then one processing step for
  -- each entry claimed, and leaves the entries that others hold with them.
  pub process_batch-Reach :
      (s : System) (batch_size : ℕ)
      → Reach rfc_function s
          (record { world = process_batch batch_size client s.world; in_flight = s.in_flight })
  unfolding process_batch
  process_batch-Reach s batch_size =
      claimed-Reach s (claim_pending batch_size s.world) (next here (claim batch_size))

compose :
    {rfc_function : String} {s t u : System}
    → Reach rfc_function s t
    → Reach rfc_function t u
    → Reach rfc_function s u
compose r here = r
compose r (next q step) = next (compose r q) step

-- What happens between two events is made of the program's steps, for the entries that are held.
abbrev pub IsHonest : String → List OutboxEntry → Event → Type 0
IsHonest rfc_function held context_done = Unit {0}
IsHonest rfc_function held (tick meanwhile) =
    (w : World)
    → Reach rfc_function (record { world = w; in_flight = held })
        (record { world = meanwhile w; in_flight = held })

-- The world that Run leaves is one that the program's steps reach, with the same entries held.
run-Reach :
    (rfc_function : String) (worker : OutboxWorker) (s : System) (events : List Event)
    → All (IsHonest rfc_function s.in_flight) events
    → Reach rfc_function s (record s { world = Worker.world_of (run worker events s.world) })
unfolding run
run-Reach rfc_function worker s [] h = here
run-Reach rfc_function worker s (context_done ∷ events) h = here
run-Reach rfc_function worker s (tick meanwhile ∷ events) h =
    let t = record s { world = meanwhile s.world } in
    let u = record s {
      world = process_batch worker.batch_size worker.sync_service.sap_client (meanwhile s.world);
    } in
    compose
      (compose (h.0 s.world) (process_batch-Reach rfc_function worker.sync_service.sap_client t _))
      (run-Reach rfc_function worker u events h.1)
