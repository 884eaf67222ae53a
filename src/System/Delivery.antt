-- ===== src/System/Delivery.antt =====
-- processBatch of internal/worker/outbox_worker.go deals with every entry that it claims.
use sap_orders_api.Prelude.{
  ℕ, ◌≡◌, refl, sym, ap, subst, ◌∙◌, ◌≢◌, ◌⊎◌, inl, inr, List, [], ◌∷◌, ◌++◌, Memᴰ, ◌==◌, ==_iff,
  ==_refl, Bool-cases, update_rows,
}
use sap_orders_api.Prelude.Members.{changed, Mem-append_left, Mem-append_right, update_rows-Mem}
use sap_orders_api.Domain.Errors.{Error}
use sap_orders_api.Domain.Types.{Time, OutboxEntry}
use sap_orders_api.Sap.{Client}
use sap_orders_api.Store.Monad.{World, Result, ok, err}
use sap_orders_api.Store.Triple.{Ensures}
use sap_orders_api.Store.Outbox.{outbox_id_is}
use sap_orders_api.Service.Sync.{claim_pending, process_outbox_entry}
use sap_orders_api.Service.Sync.Processing.{
  outcome, Recorded, AllOrNothing, process_outbox_entry-Recorded,
}
use sap_orders_api.Worker.{process_entries, process_batch}
use sap_orders_api.Worker
use sap_orders_api.System.{System, after_claim, claim}
use sap_orders_api.System.Effects.{
  Processed, settled, Settles, completes, fails, outcome-Settles, process_outbox_entry-Processed,
}
use sap_orders_api.System.Distinct.{Distinct, Distinct-remove}
use sap_orders_api.System.Invariant.{IsCoherent, Step-IsCoherent}

-- a row of another id
other_row :
    (e y : OutboxEntry) (f : OutboxEntry → OutboxEntry)
    → y.id ≢ e.id
    → changed (outbox_id_is e.id) f y ≡ y
other_row e y f h = elim (Bool-cases (y.id == e.id)) [
  | inl q ↦ absurd (h ((==_iff y.id e.id).0 q))
  | inr q ↦ rw q refl
]

own_row : (e : OutboxEntry) (f : OutboxEntry → OutboxEntry) → changed (outbox_id_is e.id) f e ≡ f e
own_row e f = rw (==_refl e.id) refl

Distinct-right : (xs ys : List OutboxEntry) → Distinct (xs ++ ys) → Distinct ys
Distinct-right [] ys d = d
Distinct-right (x ∷ xs) ys d = Distinct-right xs ys d.1

module _ (client : Client) where
  kept_by_one :
      (e y : OutboxEntry) (w : World)
      → y.id ≢ e.id
      → Memᴰ y w.db.outbox
      → Memᴰ y (process_outbox_entry client e w).1.db.outbox
  kept_by_one e y w h m = by_cases (process_outbox_entry-Processed client e w)
    where
      by_cases : {Y : List OutboxEntry} → Processed e w.db.outbox Y → Memᴰ y Y
      by_cases (Processed.unchanged q) = subst (Memᴰ y) (sym q) m
      by_cases (settled f s q) = subst (Memᴰ y) (sym q) (
          subst (λ z. Memᴰ z (update_rows (outbox_id_is e.id) f w.db.outbox)) (other_row e y f h)
            (update_rows-Mem (outbox_id_is e.id) f w.db.outbox m))

  -- the other entries of a batch leave a row alone
  kept_by_rest :
      (entries : List OutboxEntry) (y : OutboxEntry) (w : World)
      → ((e : OutboxEntry) → Memᴰ e entries → y.id ≢ e.id)
      → Memᴰ y w.db.outbox
      → Memᴰ y (process_entries client entries w).db.outbox
  unfolding process_entries
  kept_by_rest [] y w h m = m
  kept_by_rest (e ∷ es) y w h m =
      kept_by_rest es y (process_outbox_entry client e w).1 (λ x n. h x (Memᴰ.tail n))
        (kept_by_one e y w (h e (Memᴰ.head refl)) m)

  in_turn :
      (before after : List OutboxEntry) (w : World)
      → process_entries client (before ++ after) w
        ≡ process_entries client after (process_entries client before w)
  unfolding process_entries
  in_turn [] after w = refl
  in_turn (e ∷ before) after w = in_turn before after (process_outbox_entry client e w).1

  -- The row of the entry e after its turn, which the world u is before: settled by the outcome of
  -- SAP's reply to its payload, or as it was claimed if the turn ended by an error.
  abbrev pub Dealt : World → OutboxEntry → OutboxEntry → Type 0
  Dealt u e y =
      ((t : Time) × (y ≡ (outcome e (client e.rfc_function e.xml_payload)).settle t e))
      ⊎ ((y ≡ e) × ((x : Error) × ((process_outbox_entry client e u).0 ≡ err x)))

  row-id : (u : World) (e y : OutboxEntry) → Dealt u e y → y.id ≡ e.id
  row-id u e y (inl (t, is)) =
      ap (λ o. o.id) is ∙ settles-id (outcome-Settles e (client e.rfc_function e.xml_payload) t)
    where
      settles-id : {f : OutboxEntry → OutboxEntry} → Settles e f → (f e).id ≡ e.id
      settles-id (completes t) = refl
      settles-id (fails message t) = refl
  row-id u e y (inr (is, failed)) = ap (λ o. o.id) is

  its_turn :
      (e : OutboxEntry) (u : World)
      → Memᴰ e u.db.outbox
      → (y : OutboxEntry) × Memᴰ y (process_outbox_entry client e u).1.db.outbox × Dealt u e y
  its_turn e u m =
      by_result (process_outbox_entry client e u) refl (process_outbox_entry-Recorded client e u)
    where
      recorded_row :
          (v : World)
          → Recorded e (outcome e (client e.rfc_function e.xml_payload)) u.db v.db
          → (y : OutboxEntry) × Memᴰ y v.db.outbox × Dealt u e y
      recorded_row v (t, i, t', t'', is) =
          let f = (outcome e (client e.rfc_function e.xml_payload)).settle t'' in
          (
            f e,
            subst (λ d. Memᴰ (f e) d.outbox) (sym is)
                (subst (λ z. Memᴰ z (update_rows (outbox_id_is e.id) f u.db.outbox)) (own_row e f)
                  (update_rows-Mem (outbox_id_is e.id) f u.db.outbox m)),
            inl (t'', refl),
          )

      by_result :
          (r : Result (Unit {0}) × World)
          → process_outbox_entry client e u ≡ r
          → Ensures
              (λ _. Recorded e (outcome e (client e.rfc_function e.xml_payload)) u.db)
              (AllOrNothing e (outcome e (client e.rfc_function e.xml_payload)) u.db)
              r
          → (y : OutboxEntry) × Memᴰ y r.1.db.outbox × Dealt u e y
      by_result (ok a, v) is h = recorded_row v h
      by_result (err x, v) is (inl same) =
          (e, subst (λ d. Memᴰ e d.outbox) (sym same) m, inr (refl, (x, ap (λ r. r.0) is)))
      by_result (err x, v) is (inr h) = recorded_row v h

  -- Every entry that a batch claims from a coherent system has its turn, whatever becomes of the
  -- others and whichever statements fail: after the batch its row is settled by the outcome of SAP's
  -- reply to its payload, or, only if its own processing ended by an error, is as it was claimed.
  pub process_batch-Dealt :
      (s : System) (batch_size : ℕ) (before : List OutboxEntry) (e : OutboxEntry)
      (after : List OutboxEntry) (w : World)
      → IsCoherent s
      → claim_pending batch_size s.world ≡ (ok (before ++ e ∷ after), w)
      → (y : OutboxEntry) × Memᴰ y (process_batch batch_size client s.world).db.outbox
        × Dealt (process_entries client before w) e y
  unfolding process_batch process_entries
  process_batch-Dealt s batch_size before e after w coherent claimed =
      let es = before ++ e ∷ after in
      let now =
        subst (λ r. IsCoherent (after_claim s r)) claimed
          (Step-IsCoherent {rfc_function = ""} (claim batch_size) coherent) in
      let place = Mem-append_right before (e ∷ after) (Memᴰ.head refl) in
      let there = (now.held e (Mem-append_right s.in_flight es place)).0 in
      let others = (Distinct-remove before e after (Distinct-right s.in_flight es now.apart)).1 in
      let u = process_entries client before w in
      let (y, n, dealt) = its_turn e u (
        kept_by_rest before e w (λ x m q. others x (Mem-append_left before after m) (sym q))
          there) in
      (
        y,
        subst (λ v. Memᴰ y v.db.outbox)
            (sym (ap (Worker.after_claim client) claimed ∙ in_turn before (e ∷ after) w))
            (kept_by_rest after y (process_outbox_entry client e u).1
              (λ x m q.
                others x (Mem-append_right before after m) (sym (sym (row-id u e y dealt) ∙ q)))
              n),
        dealt,
      )
