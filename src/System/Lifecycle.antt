-- ===== src/System/Lifecycle.antt =====
-- The life of an outbox entry over the steps of the program: the state machine of its status
-- (internal/domain/outbox.go), which ends after a bounded number of moves.
use sap_orders_api.Prelude.{
  ℕ, ◌<◌, ◌≡◌, refl, sym, ap, subst, ◌⊎◌, inl, inr, Bool, true, List, [], ◌∷◌, Memᴰ, update_rows,
  arith, String, ==_iff, Bool-cases,
}
use sap_orders_api.Prelude.Members.{changed, Mem-append_left, Mem-append_right, update_rows-Mem}
use sap_orders_api.Domain.Types.{Time, OutboxStatus, processing, OutboxEntry}
use sap_orders_api.Store.Monad.{Db, World, Result, ok, err}
use sap_orders_api.Store.Triple.{Ensures}
use sap_orders_api.Store.Outbox.{
  is_pending, cancellable, set_cancelled, chosen, id_in, claimable, set_claimed, claim_rows,
  outbox_id_is, set_completed, set_failed,
}
use sap_orders_api.Service.Sync.{can_retry, claim_pending}
use sap_orders_api.System.{System, Step, call, claim, process, forget, outside}
use sap_orders_api.System.Effects.{
  Requested, unchanged, added, withdrawn, Processed, settled, Settles, completes, fails,
  run_call-Requested, claim_pending-Claimed, process_outbox_entry-Processed,
}
use sap_orders_api.System.Distinct.{Distinct-eq}
use sap_orders_api.System.Table.{IsPlain, IsHeld, chosen-claimable}
use sap_orders_api.System.Invariant.{IsValid}

-- What one step of the program may make of the entry x.
pub data Move (x : OutboxEntry) : OutboxEntry → Type 0 where
  stays : Move x x
  is_claimed :
      x.status ≡ OutboxStatus.pending → x.attempts < x.max_attempts → Move x (set_claimed x)
  is_completed : (t : Time) → x.status ≡ processing → Move x (set_completed t x)
  is_failed :
      (message : String) (t : Time)
      → x.status ≡ processing
      → Move x (set_failed message (can_retry x) t x)
  is_cancelled : (t : Time) → x.status ≡ OutboxStatus.pending → Move x (set_cancelled t x)

-- The entry x is in the table Y, at most one move on.
abbrev pub Moved : OutboxEntry → List OutboxEntry → Type 0
Moved x Y = (y : OutboxEntry) × Memᴰ y Y × Move x y

-- A row of a table is as it was, or changed by a move.
update_rows-Moved :
    (p : OutboxEntry → Bool) (f : OutboxEntry → OutboxEntry) (X : List OutboxEntry)
    (x : OutboxEntry)
    → Memᴰ x X
    → (p x ≡ true → Move x (f x))
    → Moved x (update_rows p f X)
update_rows-Moved p f X x m k = (changed p f x, update_rows-Mem p f X m, move)
  where
    move : Move x (changed p f x)
    move = elim (Bool-cases (p x)) [ inl e ↦ rw e (k e) | inr e ↦ rw e stays ]

to_table : {x : OutboxEntry} {Y Z : List OutboxEntry} → Z ≡ Y → Moved x Y → Moved x Z
to_table {x} e h = subst (Moved x) (sym e) h

is-pending : (e : OutboxEntry) → is_pending e.status ≡ true → e.status ≡ OutboxStatus.pending
is-pending e h = ground arith

cancellable-pending :
    (i o : ℕ) (e : OutboxEntry) → cancellable i o e ≡ true → e.status ≡ OutboxStatus.pending
cancellable-pending i o e h = ground arith

claimable-pending :
    (e : OutboxEntry)
    → claimable e ≡ true
    → (e.status ≡ OutboxStatus.pending) × (e.attempts < e.max_attempts)
claimable-pending e h = ground arith

Requested-Moved : (X Y : List OutboxEntry) (x : OutboxEntry) → Requested X Y → Memᴰ x X → Moved x Y
Requested-Moved X Y x (unchanged e) m = to_table e (x, m, stays)
Requested-Moved X Y x (added e new q) m = to_table q (x, Mem-append_left X (e ∷ []) m, stays)
Requested-Moved X Y x (withdrawn item_id outbox_id t q) m = to_table q (
    update_rows-Moved (cancellable item_id outbox_id) (set_cancelled t) X x m
      λ p. is_cancelled t (cancellable-pending item_id outbox_id x p))

claimed-Moved :
    (limit : ℕ) (db : Db) (x : OutboxEntry)
    → IsPlain db.outbox
    → Memᴰ x db.outbox
    → Moved x (claim_rows (chosen limit db) db).1.outbox
claimed-Moved limit db x t m =
    update_rows-Moved (id_in (chosen limit db)) set_claimed db.outbox x m λ p.
      let c = claimable-pending x (chosen-claimable limit db x t.distinct m p) in is_claimed c.0 c.1

after_claim-Moved :
    (limit : ℕ) (s : System) (x : OutboxEntry) (r : Result (List OutboxEntry)) (w : World)
    → let after = claim_rows (chosen limit s.world.db) s.world.db in
      Ensures
        (λ es db. (es ≡ after.0) × (db ≡ after.1))
        (λ db. (db ≡ s.world.db) ⊎ (db ≡ after.1))
        (r, w)
      → IsPlain s.world.db.outbox
      → Memᴰ x s.world.db.outbox
      → Moved x w.db.outbox
after_claim-Moved limit s x (ok es) w h t m =
    to_table (ap (λ d. d.outbox) h.1) (claimed-Moved limit s.world.db x t m)
after_claim-Moved limit s x (err e) w (inl h) t m = to_table (ap (λ d. d.outbox) h) (x, m, stays)
after_claim-Moved limit s x (err e) w (inr h) t m =
    to_table (ap (λ d. d.outbox) h) (claimed-Moved limit s.world.db x t m)

Settles-Move :
    (e : OutboxEntry) (f : OutboxEntry → OutboxEntry)
    → Settles e f
    → e.status ≡ processing
    → Move e (f e)
Settles-Move e _ (completes t) h = is_completed t h
Settles-Move e _ (fails message t) h = is_failed message t h

Processed-Moved :
    (e : OutboxEntry) (X Y : List OutboxEntry) (x : OutboxEntry)
    → Processed e X Y
    → IsPlain X
    → IsHeld X e
    → Memᴰ x X
    → Moved x Y
Processed-Moved e X Y x (Processed.unchanged q) t h m = to_table q (x, m, stays)
Processed-Moved e X Y x (settled f s q) t h m = to_table q (
    update_rows-Moved (outbox_id_is e.id) f X x m λ p.
      subst (λ o. Move o (f o)) (Distinct-eq X t.distinct h.0 m (sym ((==_iff _ _).0 p)))
        (Settles-Move e f s h.1))

-- A step of the program from a valid system leaves every entry in the table, and each makes at
-- most one move of the state machine: PENDING to PROCESSING with an attempt counted, PROCESSING to
-- COMPLETED, PROCESSING back to PENDING while attempts are left and to FAILED when none is,
-- PENDING to CANCELLED.
pub Step-Moved :
    {rfc_function : String} {s t : System}
    → IsValid s
    → Step rfc_function s t
    → (x : OutboxEntry) → Memᴰ x s.world.db.outbox
    → Moved x t.world.db.outbox
Step-Moved {rfc_function} {s} v (call c) x m =
    Requested-Moved s.world.db.outbox _ x (run_call-Requested rfc_function s.world c) m
Step-Moved {s} v (claim limit) x m =
    let r = claim_pending limit s.world in
    after_claim-Moved limit s x r.0 r.1 (claim_pending-Claimed limit s.world) v.coherent.table m
Step-Moved {s} v (process client before e after q) x m =
    Processed-Moved e s.world.db.outbox _ x (process_outbox_entry-Processed client e s.world)
      v.coherent.table
      (v.coherent.held e
        (subst (Memᴰ e) (sym q) (Mem-append_right before (e ∷ after) (Memᴰ.head refl))))
      m
Step-Moved v (forget before e after q) x m = (x, m, stays)
Step-Moved v (outside clock random faults) x m = (x, m, stays)
