-- ===== src/Tests/Workers.antt =====
-- The theorems on interleaved runs, on claims and on the loop of a worker at concrete systems.
use sap_orders_api.Prelude.{◌≡◌, ◌≢◌, refl, arith, true, false, List, [], ◌∷◌, Memᴰ, String}
use sap_orders_api.Domain.Types.{OutboxEntry, OutboxStatus}
use sap_orders_api.Sap.{stub_client}
use sap_orders_api.Store.Monad.{ok}
use sap_orders_api.Store.Total.{Steady}
use sap_orders_api.Store.Outbox.{chosen, id_in, claim_rows}
use sap_orders_api.Service.Sync
use sap_orders_api.System.Distinct.{Distinct}
use sap_orders_api.System.Invariant.{IsCoherent}
use sap_orders_api.System.Claims.{OldestFirst, claim_pending-OldestFirst}
use sap_orders_api.System.Overlap.{chosen_skipping, overlap-serial}
use sap_orders_api.System.Interleaved.{
  Busy, asked, Moves, done, more, arrive, turn, after_turn, advance,
}
use sap_orders_api.System.Interleaved.Invariant.{Moves-IsCoherent}
use sap_orders_api.System.Interleaved.Race.{TwoActive, race-TwoActive}
use sap_orders_api.Tests.{world_of, entry_of, system_of, tables, order_one, item_ten}
use sap_orders_api.Worker.{process_batch, process_entries}
use sap_orders_api.System.Delivery.{Dealt, process_batch-Dealt}
use sap_orders_api.Store.Outbox
use sap_orders_api.Store.Outbox.{set_claimed}
use sap_orders_api.Store.Monad.{query, statement, answer, next_statement}
use sap_orders_api.Prelude.Lists.{sort_with, insert_with}
use sap_orders_api.Tests.Steps.{waiting, waiting-IsValid}
use sap_orders_api.Tests.Sync.{allowed, not_past}

abbrev rfc : String
rfc = "Z_UPDATE_DEMAND"

abbrev idle : Busy
idle = record { system = system_of (waiting ∷ []); threads = [] }

-- a request to send an item, and its first turn
abbrev under_way : Busy
under_way =
    after_turn (record idle { threads = asked 1 10 ∷ [] }) [] []
      (advance rfc (asked 1 10) (world_of (waiting ∷ [])))

moves : Moves rfc idle under_way
moves = more (more done (arrive 1 10)) (turn [] (asked 1 10) [] refl)

Moves-IsCoherent_example : IsCoherent under_way.system
Moves-IsCoherent_example =
    Moves-IsCoherent {rfc_function = rfc} {b = idle} {c = under_way} waiting-IsValid.coherent moves

race-TwoActive_example :
    (c : Busy) × Moves rfc (record { system = system_of []; threads = [] }) c
    × TwoActive 10 c.system.world.db.outbox
race-TwoActive_example = race-TwoActive rfc 1 10 order_one item_ten (system_of []) allowed not_past

-- an entry that was created after the one that waits
abbrev newer : OutboxEntry
newer = record (entry_of OutboxStatus.pending 0) { id = 51; order_item_id = 11; created_at = 9 }

two-Distinct : Distinct (newer ∷ waiting ∷ [])
two-Distinct = ((λ y m. differs y m), ((λ y m. elim m [ ]), tt))
  where
    differs : (y : OutboxEntry) → Memᴰ y (waiting ∷ []) → y.id ≢ 51
    differs y (Memᴰ.head q) = λ e. omega (arith, e, id_of q)
      where
        id_of : y ≡ waiting → y.id ≡ 50
        id_of q = cc
    differs y (Memᴰ.tail m) = elim m [ ]

claim_pending-OldestFirst_example :
    ((es : List OutboxEntry)
      → (Sync.claim_pending 1 (world_of (newer ∷ waiting ∷ []))).0 ≡ ok es
      → OldestFirst 1 (newer ∷ waiting ∷ []) es)
    × (Steady (world_of (newer ∷ waiting ∷ []))
        → (es : List OutboxEntry) × ((Sync.claim_pending 1 (world_of (newer ∷ waiting ∷ []))).0
            ≡ ok es))
claim_pending-OldestFirst_example =
    claim_pending-OldestFirst 1 (world_of (newer ∷ waiting ∷ [])) two-Distinct

overlap-serial_example :
    let db = tables (newer ∷ waiting ∷ []) in
    let locked = chosen 1 db in
    let meanwhile = chosen_skipping locked 1 db in
    let after_first = (claim_rows locked db).1 in
    (meanwhile ≡ chosen 1 after_first)
    × ((x : OutboxEntry) → id_in meanwhile x ≡ true → id_in locked x ≡ false)
    × ((claim_rows meanwhile db).0 ≡ (claim_rows meanwhile after_first).0)
    × ((claim_rows meanwhile after_first).1 ≡ (claim_rows locked (claim_rows meanwhile db).1).1)
overlap-serial_example = overlap-serial 1 1 (tables (newer ∷ waiting ∷ []))

-- the entry of the batch, as it is claimed
abbrev in_hand : OutboxEntry
in_hand = set_claimed waiting

claims_one :
    Sync.claim_pending 10 (world_of (waiting ∷ []))
    ≡ (ok (in_hand ∷ []), record (world_of (in_hand ∷ [])) { statements = 1 })
unfolding Sync.claim_pending Outbox.claim_pending query statement answer next_statement sort_with
    insert_with
claims_one = refl

process_batch-Dealt_example :
    let u = record (world_of (in_hand ∷ [])) { statements = 1 } in
    (y : OutboxEntry) × Memᴰ y (process_batch 10 stub_client (world_of (waiting ∷ []))).db.outbox
    × Dealt stub_client (process_entries stub_client [] u) in_hand y
process_batch-Dealt_example =
    process_batch-Dealt stub_client (system_of (waiting ∷ [])) 10 [] in_hand []
      (record (world_of (in_hand ∷ [])) { statements = 1 }) waiting-IsValid.coherent claims_one
