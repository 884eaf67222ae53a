-- ===== src/System/Invariant.antt =====
-- What holds between any two steps of the program: a well-formed outbox table, and workers that
-- hold different PROCESSING entries of it.
use sap_orders_api.Prelude.{
  ℕ, ◌≡◌, refl, sym, ap, subst, ◌⊎◌, inl, inr, List, [], ◌∷◌, ◌++◌, Memᴰ, String,
}
use sap_orders_api.Prelude.Members.{Mem-append, Mem-append_left, Mem-append_right}
use sap_orders_api.Domain.Types.{OutboxEntry}
use sap_orders_api.Store.Monad.{World, Result, ok, err}
use sap_orders_api.Store.Triple.{Ensures}
use sap_orders_api.Store.Outbox.{chosen, claim_rows}
use sap_orders_api.Service.Sync.{claim_pending}
use sap_orders_api.System.{
  System, after_claim, Step, call, claim, process, forget, outside, Reach, here, next,
}
use sap_orders_api.System.Effects.{
  Processed, run_call-Requested, claim_pending-Claimed, process_outbox_entry-Processed,
}
use sap_orders_api.System.Distinct.{Distinct, Distinct-append, Distinct-remove}
use sap_orders_api.System.Table.{IsPlain, IsHeld, OneActive}
use sap_orders_api.System.Held.{
  Requested-OneActive, claimed-OneActive, Processed-OneActive, Keeps, along, Requested-Keeps,
  claimed-Keeps, claimed-IsHeld, claimed-apart, Processed-Keeps,
}

-- A plain table, and workers that hold different PROCESSING entries of it.
pub record IsCoherent (s : System) : Type 0 where
  pub table : IsPlain s.world.db.outbox
  pub held : (e : OutboxEntry) → Memᴰ e s.in_flight → IsHeld s.world.db.outbox e
  pub apart : Distinct s.in_flight

pub record IsValid (s : System) : Type 0 where
  pub coherent : IsCoherent s
  pub one_active : OneActive s.world.db.outbox

after_claim-IsCoherent :
    (limit : ℕ) (s : System) (v : IsCoherent s) (r : Result (List OutboxEntry)) (w : World)
    → let after = claim_rows (chosen limit s.world.db) s.world.db in
      Ensures
        (λ es db. (es ≡ after.0) × (db ≡ after.1))
        (λ db. (db ≡ s.world.db) ⊎ (db ≡ after.1))
        (r, w)
      → IsCoherent (after_claim s (r, w))
after_claim-IsCoherent limit s v (ok es) w h =
    let k = along (ap (λ d. d.outbox) h.1) (claimed-Keeps limit s.world.db v.table) in
    record {
      table = k.0;
      held = λ e m. elim (Mem-append s.in_flight es m) [
        | inl a ↦ k.1 e (v.held e a)
        | inr b ↦
            subst (λ d. IsHeld d.outbox e) (sym h.1)
              (claimed-IsHeld limit s.world.db v.table e (subst (Memᴰ e) h.0 b))
      ];
      apart =
          subst (λ xs. Distinct (s.in_flight ++ xs)) (sym h.0)
            (claimed-apart limit s.world.db v.table s.in_flight v.held v.apart);
    }
after_claim-IsCoherent limit s v (err x) w h =
    let k = kept h in
    record {
      table = k.0;
      held = λ e m. elim (Mem-append s.in_flight [] m) [
        | inl a ↦ k.1 e (v.held e a)
        | inr b ↦ elim b [ ]
      ];
      apart = Distinct-append s.in_flight [] v.apart tt (λ x y m n. elim n [ ]);
    }
  where
    kept :
        (w.db ≡ s.world.db) ⊎ (w.db ≡ (claim_rows (chosen limit s.world.db) s.world.db).1)
        → Keeps s.world.db.outbox w.db.outbox
    kept (inl e) = along (ap (λ d. d.outbox) e) (v.table, λ x q. q)
    kept (inr e) = along (ap (λ d. d.outbox) e) (claimed-Keeps limit s.world.db v.table)

-- A system after a step in which the entry e is held no more.
without-IsCoherent :
    (s : System) (w : World) (before : List OutboxEntry) (e : OutboxEntry)
    (after : List OutboxEntry)
    → s.in_flight ≡ before ++ e ∷ after
    → IsCoherent s
    → Processed e s.world.db.outbox w.db.outbox
    → IsCoherent (record { world = w; in_flight = before ++ after })
without-IsCoherent s w before e after q v p =
    let (apart, others) = Distinct-remove before e after (subst Distinct q v.apart) in
    let here_e =
      v.held e (subst (Memᴰ e) (sym q) (Mem-append_right before (e ∷ after) (Memᴰ.head refl))) in
    let k = Processed-Keeps e s.world.db.outbox w.db.outbox p here_e v.table in
    record {
      table = k.0;
      held = λ x m. k.1 x (others x m) (v.held x (subst (Memᴰ x) (sym q) (widen x m)));
      apart = apart;
    }
  where
    widen : (x : OutboxEntry) → Memᴰ x (before ++ after) → Memᴰ x (before ++ e ∷ after)
    widen x m = elim (Mem-append before after m) [
      | inl a ↦ Mem-append_left before (e ∷ after) a
      | inr b ↦ Mem-append_right before (e ∷ after) (Memᴰ.tail b)
    ]

-- The entry that a step ends is held.
entry_of_worker :
    {s : System} (before : List OutboxEntry) (e : OutboxEntry) (after : List OutboxEntry)
    → s.in_flight ≡ before ++ e ∷ after
    → IsCoherent s
    → IsHeld s.world.db.outbox e
entry_of_worker before e after q v =
    v.held e (subst (Memᴰ e) (sym q) (Mem-append_right before (e ∷ after) (Memᴰ.head refl)))

pub Step-IsCoherent :
    {rfc_function : String} {s t : System} → Step rfc_function s t → IsCoherent s → IsCoherent t
Step-IsCoherent {rfc_function} {s} (call c) v =
    let k =
      Requested-Keeps s.world.db.outbox _ (run_call-Requested rfc_function s.world c) v.table in
    record { table = k.0; held = λ e m. k.1 e (v.held e m); apart = v.apart }
Step-IsCoherent {s} (claim limit) v =
    let r = claim_pending limit s.world in
    after_claim-IsCoherent limit s v r.0 r.1 (claim_pending-Claimed limit s.world)
Step-IsCoherent {s} (process client before e after q) v =
    without-IsCoherent s _ before e after q v (process_outbox_entry-Processed client e s.world)
Step-IsCoherent {s} (forget before e after q) v =
    without-IsCoherent s s.world before e after q v (Processed.unchanged refl)
Step-IsCoherent (outside clock random faults) v = record {
  table = v.table;
  held = v.held;
  apart = v.apart;
}

after_claim-OneActive :
    (limit : ℕ) (s : System) (t : IsPlain s.world.db.outbox) (r : Result (List OutboxEntry))
    (w : World)
    → let after = claim_rows (chosen limit s.world.db) s.world.db in
      Ensures
        (λ es db. (es ≡ after.0) × (db ≡ after.1))
        (λ db. (db ≡ s.world.db) ⊎ (db ≡ after.1))
        (r, w)
      → OneActive s.world.db.outbox
      → OneActive w.db.outbox
after_claim-OneActive limit s t (ok es) w h one =
    subst (λ d. OneActive d.outbox) (sym h.1) (claimed-OneActive limit s.world.db t one)
after_claim-OneActive limit s t (err x) w (inl e) one = subst (λ d. OneActive d.outbox) (sym e) one
after_claim-OneActive limit s t (err x) w (inr e) one =
    subst (λ d. OneActive d.outbox) (sym e) (claimed-OneActive limit s.world.db t one)

Step-OneActive :
    {rfc_function : String} {s t : System}
    → Step rfc_function s t
    → IsCoherent s
    → OneActive s.world.db.outbox
    → OneActive t.world.db.outbox
Step-OneActive {rfc_function} {s} (call c) v one =
    Requested-OneActive s.world.db.outbox _ (run_call-Requested rfc_function s.world c) one
Step-OneActive {s} (claim limit) v one =
    let r = claim_pending limit s.world in
    after_claim-OneActive limit s v.table r.0 r.1 (claim_pending-Claimed limit s.world) one
Step-OneActive {s} (process client before e after q) v one =
    Processed-OneActive e s.world.db.outbox _ (process_outbox_entry-Processed client e s.world)
      (entry_of_worker before e after q v) v.table one
Step-OneActive (forget before e after q) v one = one
Step-OneActive (outside clock random faults) v one = one

-- Every step of the program keeps the outbox table well-formed and the entries that workers hold
-- PROCESSING and distinct.
pub Step-IsValid :
    {rfc_function : String} {s t : System} → Step rfc_function s t → IsValid s → IsValid t
Step-IsValid step v = record {
  coherent = Step-IsCoherent step v.coherent;
  one_active = Step-OneActive step v.coherent v.one_active;
}

-- As long as no two service calls overlap: from a valid system, such as one with an empty outbox and
-- no entry held, every system that a sequence of whole calls reaches is valid, in whichever order
-- requests, claims, processing steps, stops of workers and changes of the outside follow one another,
-- and whichever statements fail. Attempt counts fit their statuses, an item has at most one PENDING or
-- PROCESSING entry, ids are distinct, and workers hold different rows of the table, all of them
-- PROCESSING.
pub Reach-IsValid :
    {rfc_function : String} {s t : System} → IsValid s → Reach rfc_function s t → IsValid t
Reach-IsValid v here = v
Reach-IsValid v (next r step) = Step-IsValid step (Reach-IsValid v r)

-- The program starts with an empty outbox and no entry held.
pub start-IsValid : (s : System) → s.world.db.outbox ≡ [] → s.in_flight ≡ [] → IsValid s
start-IsValid s e q = record {
  coherent = record {
    table = subst IsPlain (sym e) (record { sound = λ x m. elim m [ ]; distinct = tt });
    held = λ x m. elim (subst (Memᴰ x) q m) [ ];
    apart = subst Distinct (sym q) tt;
  };
  one_active = subst OneActive (sym e) (λ x y m. elim m [ ]);
}
