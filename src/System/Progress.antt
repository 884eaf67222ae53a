-- ===== src/System/Progress.antt =====
-- Where the life of an outbox entry leads: it makes a bounded number of moves, a final entry makes
-- none, and a PROCESSING entry that no worker holds is never taken up again.
use sap_orders_api.Prelude.{
  ℕ, ◌+◌, ◌-◌, ◌*◌, ◌<◌, ◌≤◌, ◌≡◌, refl, sym, ap, subst, ◌∙◌, ◌≢◌, ◌⊎◌, inl, inr, Bool, true, false,
  List, [], ◌∷◌, ◌++◌, Memᴰ, arith, String, if◌then◌else◌, select, Bool-cases,
}
use sap_orders_api.Prelude.Members.{
  Mem-append, Mem-append_left, Mem-append_right, Mem-select, Mem-map, any-false,
}
use sap_orders_api.Domain.Types.{Uuid, OutboxStatus, processing, completed, cancelled, OutboxEntry}
use sap_orders_api.Store.Monad.{Db, World, Result, ok, err}
use sap_orders_api.Store.Triple.{Ensures}
use sap_orders_api.Store.Outbox.{is_active, active_for, chosen, id_in, set_claimed, claim_rows}
use sap_orders_api.Service.Sync.{can_retry, claim_pending, enqueue_sync}
use sap_orders_api.Service.Sync.Enqueue.{enqueue_sync-Enqueued}
use sap_orders_api.System.{
  System, after_claim, Step, call, claim, process, forget, outside, Reach, here, next,
}
use sap_orders_api.System.Effects.{
  run_call-Requested, claim_pending-Claimed, process_outbox_entry-Processed,
}
use sap_orders_api.System.Distinct.{Distinct-eq}
use sap_orders_api.System.Table.{IsPlain, IsHeld, chosen-claimable}
use sap_orders_api.System.Held.{Requested-Keeps, Processed-Keeps, claimed-Keeps, not_both}
use sap_orders_api.System.Invariant.{IsValid, Reach-IsValid}
use sap_orders_api.System.Lifecycle.{
  Move, stays, is_claimed, is_completed, is_failed, is_cancelled, Step-Moved,
}

-- COMPLETED, FAILED or CANCELLED.
abbrev pub is_final : OutboxStatus → Bool
is_final s = if is_active s then false else true

-- A bound on the moves that an entry has left: two for each attempt to come, one for the attempt
-- under way, one for its end.
unfoldable pub moves_left : OutboxEntry → ℕ
moves_left e = elim e.status [
  | OutboxStatus.pending ↦ 2 * (e.max_attempts - e.attempts) + 1
  | processing ↦ 2 * (e.max_attempts - e.attempts) + 2
  | completed ↦ 0
  | OutboxStatus.failed ↦ 0
  | cancelled ↦ 0
]

Move-moves_left : {x y : OutboxEntry} → Move x y → (y ≡ x) ⊎ (moves_left y < moves_left x)
unfolding moves_left
Move-moves_left stays = inl refl
Move-moves_left {x} (is_claimed p q) = inr (rw p (omega (arith, q)))
Move-moves_left {x} (is_completed t p) = inr (rw p (omega arith))
Move-moves_left {x} (is_failed message t p) = inr (elim (Bool-cases (can_retry x)) [
  | inl e ↦ rw e (rw p (omega arith))
  | inr e ↦ rw e (rw p (omega arith))
])
Move-moves_left {x} (is_cancelled t p) = inr (rw p (omega arith))

-- Retries end: a step of the program from a valid system leaves each entry of the outbox as it was, or
-- makes smaller the number moves_left of the entry with its id, which is at most two for each attempt
-- to come and two more.
pub Step-moves_left :
    {rfc_function : String} {s t : System}
    → IsValid s
    → Step rfc_function s t
    → (x : OutboxEntry) → Memᴰ x s.world.db.outbox
    → (y : OutboxEntry) × Memᴰ y t.world.db.outbox
      × (y.id ≡ x.id)
      × ((y ≡ x) ⊎ (moves_left y < moves_left x))
      × (moves_left x ≤ 2 * (x.max_attempts - x.attempts) + 2)
unfolding moves_left
Step-moves_left v step x m =
    let (y, n, move) = Step-Moved v step x m in
    (y, n, move-id move, Move-moves_left move, at_most x)
  where
    move-id : {x y : OutboxEntry} → Move x y → y.id ≡ x.id
    move-id stays = refl
    move-id (is_claimed p q) = refl
    move-id (is_completed t p) = refl
    move-id (is_failed message t p) = refl
    move-id (is_cancelled t p) = refl

    at_most : (x : OutboxEntry) → moves_left x ≤ 2 * (x.max_attempts - x.attempts) + 2
    at_most x = ground arith

final-Move : {x y : OutboxEntry} → is_final x.status ≡ true → Move x y → y ≡ x
final-Move f stays = refl
final-Move {x} f (is_claimed p q) = absurd (ground arith)
final-Move f (is_completed t p) = absurd (ground arith)
final-Move f (is_failed message t p) = absurd (ground arith)
final-Move f (is_cancelled t p) = absurd (ground arith)

-- An entry that is COMPLETED, FAILED or CANCELLED in a valid system is in the table, unchanged,
-- whatever the program does from then on.
pub final-Reach :
    {rfc_function : String} {s t : System}
    → IsValid s
    → Reach rfc_function s t
    → (x : OutboxEntry) → Memᴰ x s.world.db.outbox
    → is_final x.status ≡ true
    → Memᴰ x t.world.db.outbox
final-Reach v here x m f = m
final-Reach {t} v (next r step) x m f =
    let (y, n, move) = Step-Moved (Reach-IsValid v r) step x (final-Reach v r x m f) in
    subst (λ o. Memᴰ o t.world.db.outbox) (final-Move f move) n

-- PROCESSING, and no worker holds it.
pub record IsLost (s : System) (x : OutboxEntry) : Type 0 where
  pub held : IsHeld s.world.db.outbox x
  pub by_none : (e : OutboxEntry) → Memᴰ e s.in_flight → x.id ≢ e.id

after_claim-IsLost :
    (limit : ℕ) (s : System) (x : OutboxEntry) (r : Result (List OutboxEntry)) (w : World)
    → let after = claim_rows (chosen limit s.world.db) s.world.db in
      Ensures
        (λ es db. (es ≡ after.0) × (db ≡ after.1))
        (λ db. (db ≡ s.world.db) ⊎ (db ≡ after.1))
        (r, w)
      → IsPlain s.world.db.outbox
      → IsLost s x
      → IsLost (after_claim s (r, w)) x
after_claim-IsLost limit s x (ok es) w h t l = record {
  held = subst (λ d. IsHeld d.outbox x) (sym h.1) ((claimed-Keeps limit s.world.db t).1 x l.held);
  by_none = λ e m. elim (Mem-append s.in_flight es m) [
    | inl a ↦ l.by_none e a
    | inr b ↦ not_taken e (subst (Memᴰ e) h.0 b)
  ];
}
  where
    not_taken :
        (e : OutboxEntry) → Memᴰ e (claim_rows (chosen limit s.world.db) s.world.db).0 → x.id ≢ e.id
    not_taken e m same =
        let (z, k, q) =
          Mem-map set_claimed (select (id_in (chosen limit s.world.db)) s.world.db.outbox) m in
        let (found, c) = Mem-select (id_in (chosen limit s.world.db)) s.world.db.outbox k in
        let z_is =
          Distinct-eq s.world.db.outbox t.distinct found l.held.0 (sym (same ∙ ap (λ o. o.id) q)) in
        not_both z (chosen-claimable limit s.world.db z t.distinct found c)
          (ap (λ o. o.status) z_is ∙ l.held.1)
after_claim-IsLost limit s x (err e) w h t l = record {
  held = kept h;
  by_none =
      λ e m. elim (Mem-append s.in_flight [] m) [ inl a ↦ l.by_none e a | inr b ↦ elim b [ ] ];
}
  where
    kept :
        (w.db ≡ s.world.db) ⊎ (w.db ≡ (claim_rows (chosen limit s.world.db) s.world.db).1)
        → IsHeld w.db.outbox x
    kept (inl q) = subst (λ d. IsHeld d.outbox x) (sym q) l.held
    kept (inr q) =
        subst (λ d. IsHeld d.outbox x) (sym q) ((claimed-Keeps limit s.world.db t).1 x l.held)

-- what is held beside e was held before
widen :
    (e : OutboxEntry) {x : OutboxEntry} (before after : List OutboxEntry)
    → Memᴰ x (before ++ after)
    → Memᴰ x (before ++ e ∷ after)
widen e before after m = elim (Mem-append before after m) [
  | inl a ↦ Mem-append_left before (e ∷ after) a
  | inr b ↦ Mem-append_right before (e ∷ after) (Memᴰ.tail b)
]

Step-IsLost :
    {rfc_function : String} {s t : System}
    → IsValid s
    → Step rfc_function s t
    → (x : OutboxEntry) → IsLost s x
    → IsLost t x
Step-IsLost {rfc_function} {s} v (call c) x l = record {
  held =
      (Requested-Keeps s.world.db.outbox _ (run_call-Requested rfc_function s.world c)
          v.coherent.table).1
        x l.held;
  by_none = l.by_none;
}
Step-IsLost {s} v (claim limit) x l =
    let r = claim_pending limit s.world in
    after_claim-IsLost limit s x r.0 r.1 (claim_pending-Claimed limit s.world) v.coherent.table l
Step-IsLost {s} v (process client before e after q) x l =
    let m = subst (Memᴰ e) (sym q) (Mem-append_right before (e ∷ after) (Memᴰ.head refl)) in
    record {
      held =
          (Processed-Keeps e s.world.db.outbox _ (process_outbox_entry-Processed client e s.world)
              (v.coherent.held e m) v.coherent.table).1
            x (l.by_none e m) l.held;
      by_none = λ y n. l.by_none y (subst (Memᴰ y) (sym q) (widen e before after n));
    }
Step-IsLost v (forget before e after q) x l = record {
  held = l.held;
  by_none = λ y n. l.by_none y (subst (Memᴰ y) (sym q) (widen e before after n));
}
Step-IsLost v (outside clock random faults) x l = record { held = l.held; by_none = l.by_none }

Reach-IsLost :
    {rfc_function : String} {s t : System}
    → IsValid s
    → Reach rfc_function s t
    → (x : OutboxEntry) → IsLost s x
    → IsLost t x
Reach-IsLost v here x l = l
Reach-IsLost v (next r step) x l = Step-IsLost (Reach-IsValid v r) step x (Reach-IsLost v r x l)

-- The run returned an error.
abbrev pub Fails : {A : Type 0} → Result A × World → Type 0
Fails (ok a, w) = ⊥
Fails (err e, w) = Unit {0}

no_success :
    {A : Type 0} (Q : A → Db → Type 0) (E : Db → Type 0) (r : Result A × World)
    → Ensures Q E r
    → ((a : A) (db : Db) → Q a db → ⊥)
    → Fails r
no_success Q E (ok a, w) h k = k a w.db h
no_success Q E (err x, w) h k = tt

-- Once an entry of a valid system is PROCESSING and held by no worker, it stays so for ever, and
-- from then on no request can send its item to SAP: EnqueueSync fails.
pub IsLost-enqueue_sync :
    {rfc_function : String} {s t : System}
    → IsValid s
    → Reach rfc_function s t
    → (x : OutboxEntry) → IsLost s x
    → (order_id : Uuid)
    → IsLost t x × Fails (enqueue_sync rfc_function order_id x.order_item_id t.world)
IsLost-enqueue_sync {rfc_function} {t} v r x l order_id =
    let k = Reach-IsLost v r x l in
    (
      k,
      no_success _ _ (enqueue_sync rfc_function order_id x.order_item_id t.world)
          (enqueue_sync-Enqueued rfc_function order_id x.order_item_id t.world)
          λ e db q. active x k.held.1 (
            any-false (active_for x.order_item_id) t.world.db.outbox q.allowed.none_active
              k.held.0),
    )
  where
    active : (x : OutboxEntry) → x.status ≡ processing → active_for x.order_item_id x ≡ false → ⊥
    active x h a = ground arith
