-- ===== src/Tests/Steps.antt =====
-- The theorems on the running program at concrete systems.
use sap_orders_api.Prelude.{
  some, ◌≡◌, refl, subst, sym, ◌∙◌, ◌⊎◌, ◌<◌, ◌≤◌, ◌+◌, ◌-◌, ◌*◌, Memᴰ, arith, [], ◌∷◌, String,
}
use sap_orders_api.Domain.Types.{OrderRow, closed, OutboxEntry, OutboxStatus, processing, completed}
use sap_orders_api.System.{
  update_order, System, after_claim, call, claim, cancel_sync, enqueue_sync, run_call, Reach, here,
  next,
}
use sap_orders_api.System.Table.{IsSound}
use sap_orders_api.System.Effects.{Requested, run_call-Requested}
use sap_orders_api.System.Invariant.{IsValid, Reach-IsValid, start-IsValid}
use sap_orders_api.System.Lifecycle.{Moved, Step-Moved}
use sap_orders_api.System.Progress.{
  IsLost, Fails, moves_left, Step-moves_left, final-Reach, IsLost-enqueue_sync,
}
use sap_orders_api.System.OrderLife.{IsKeyed, Onward, Reach-Onward}
use sap_orders_api.Service.Sync
use sap_orders_api.Tests.{row_one, world_of, entry_of, system_of}

abbrev rfc : String
rfc = "Z_UPDATE_DEMAND"

-- A system whose outbox is one sound entry that no worker holds.
one-IsValid : (e : OutboxEntry) → IsSound e → IsValid (system_of (e ∷ []))
one-IsValid e s = record {
  coherent = record {
    table = record { sound = λ x m. only x m; distinct = ((λ y m. elim m [ ]), tt) };
    held = λ x m. elim m [ ];
    apart = tt;
  };
  one_active = λ x y m n a b same. is x m ∙ sym (is y n);
}
  where
    is : (x : OutboxEntry) → Memᴰ x (e ∷ []) → x ≡ e
    is x (Memᴰ.head q) = q
    is x (Memᴰ.tail m) = elim m [ ]

    only : (x : OutboxEntry) → Memᴰ x (e ∷ []) → IsSound x
    only x m = subst IsSound (sym (is x m)) s

-- a request to send an item, and a worker's claim after it
abbrev sent : System
sent = record (system_of []) { world = run_call rfc (enqueue_sync 1 10) (world_of []) }

abbrev claimed : System
claimed = after_claim sent (Sync.claim_pending 10 sent.world)

path : Reach rfc (system_of []) claimed
path = next (next here (call (enqueue_sync 1 10))) (claim 10)

Reach-IsValid_example : IsValid claimed
Reach-IsValid_example =
    Reach-IsValid {rfc_function = rfc} {s = system_of []} {t = claimed}
      (start-IsValid (system_of []) refl refl) path

abbrev pub waiting : OutboxEntry
waiting = entry_of OutboxStatus.pending 1

pub waiting-IsValid : IsValid (system_of (waiting ∷ []))
waiting-IsValid = one-IsValid waiting sound
  where
    sound : IsSound waiting
    sound = record {
      within = omega arith;
      left = λ e. omega arith;
      spent = λ e. absurd (ground arith);
      tried = λ e. omega arith;
      tried_completed = λ e. omega arith;
    }

abbrev after_waiting : System
after_waiting =
    after_claim (system_of (waiting ∷ [])) (Sync.claim_pending 10 (world_of (waiting ∷ [])))

Step-Moved_example : Moved waiting after_waiting.world.db.outbox
Step-Moved_example =
    Step-Moved {rfc_function = rfc} {s = system_of (waiting ∷ [])} {t = after_waiting}
      waiting-IsValid (claim 10) waiting (Memᴰ.head refl)

Step-moves_left_example :
    (y : OutboxEntry) × Memᴰ y after_waiting.world.db.outbox
    × (y.id ≡ waiting.id)
    × ((y ≡ waiting) ⊎ (moves_left y < moves_left waiting))
    × (moves_left waiting ≤ 2 * (waiting.max_attempts - waiting.attempts) + 2)
Step-moves_left_example =
    Step-moves_left {rfc_function = rfc} {s = system_of (waiting ∷ [])} {t = after_waiting}
      waiting-IsValid (claim 10) waiting (Memᴰ.head refl)

run_call-Requested_example :
    Requested
      (waiting ∷ [])
      (run_call rfc (cancel_sync 1 10 50) (world_of (waiting ∷ []))).db.outbox
run_call-Requested_example = run_call-Requested rfc (world_of (waiting ∷ [])) (cancel_sync 1 10 50)

-- an entry that is done
abbrev done : OutboxEntry
done = entry_of completed 1

done-IsValid : IsValid (system_of (done ∷ []))
done-IsValid = one-IsValid done sound
  where
    sound : IsSound done
    sound = record {
      within = omega arith;
      left = λ e. absurd (ground arith);
      spent = λ e. absurd (ground arith);
      tried = λ e. omega arith;
      tried_completed = λ e. omega arith;
    }

abbrev cancelled_late : System
cancelled_late = record (system_of (done ∷ [])) {
  world = run_call rfc (cancel_sync 1 10 50) (world_of (done ∷ []));
}

final-Reach_example : Memᴰ done cancelled_late.world.db.outbox
final-Reach_example =
    final-Reach {rfc_function = rfc} {s = system_of (done ∷ [])} {t = cancelled_late} done-IsValid
      (next here (call (cancel_sync 1 10 50))) done (Memᴰ.head refl) refl

-- an entry whose worker has stopped
abbrev lost : OutboxEntry
lost = entry_of processing 1

lost-IsValid : IsValid (system_of (lost ∷ []))
lost-IsValid = one-IsValid lost sound
  where
    sound : IsSound lost
    sound = record {
      within = omega arith;
      left = λ e. absurd (ground arith);
      spent = λ e. absurd (ground arith);
      tried = λ e. omega arith;
      tried_completed = λ e. omega arith;
    }

abbrev later : System
later = record (system_of (lost ∷ [])) {
  world = run_call rfc (cancel_sync 1 10 50) (world_of (lost ∷ []));
}

IsLost-enqueue_sync_example : IsLost later lost × Fails (Sync.enqueue_sync rfc 1 10 later.world)
IsLost-enqueue_sync_example =
    IsLost-enqueue_sync {rfc_function = rfc} {s = system_of (lost ∷ [])} {t = later} lost-IsValid
      (next here (call (cancel_sync 1 10 50))) lost
      (record { held = (Memᴰ.head refl, refl); by_none = λ e m. elim m [ ] }) 1

abbrev refused : System
refused = record (system_of []) {
  world = run_call rfc (update_order 1 (record { status = some closed })) (world_of []);
}

Reach-Onward_example : Onward row_one refused.world.db.orders
Reach-Onward_example =
    Reach-Onward {rfc_function = rfc} {s = system_of []} {t = refused} keyed
      (next here (call (update_order 1 (record { status = some closed })))) row_one (Memᴰ.head refl)
  where
    is : (x : OrderRow) → Memᴰ x (row_one ∷ []) → x ≡ row_one
    is x (Memᴰ.head q) = q
    is x (Memᴰ.tail m) = elim m [ ]

    keyed : IsKeyed (row_one ∷ [])
    keyed x y m n e = is x m ∙ sym (is y n)
