-- ===== src/System/Interleaved/Turns.antt =====
-- The turns of a run of EnqueueSync (internal/service/sync_service.go) when no statement fails.
use sap_orders_api.Prelude.{
  ℕ, ◌≡◌, refl, ap, subst, ◌∙◌, true, false, List, ◌∷◌, ◌++◌, String, any, ◌==◌, Bool-cases, inl,
  inr,
}
use sap_orders_api.Domain.Types.{Uuid, Time, updated, Order, OrderItem, OutboxEntry}
use sap_orders_api.Domain.Errors.{order_closed, sync_already_active}
use sap_orders_api.Domain.Dates.{is_delivery_date_in_past}
use sap_orders_api.Store.Monad.{Db, World, Result, ok, err, ◌>>=◌, with_transaction}
use sap_orders_api.Store.Triple.{with_transaction-Triple}
use sap_orders_api.Store.Total.{answered, Alike, Steady, pure-Total, with_transaction-Total}
use sap_orders_api.Store.Items.{item_id_is}
use sap_orders_api.Service.Sync.{is_failed, enqueue_body}
use sap_orders_api.Service.Sync.Enqueue.{Allows, Placed, promoted_item, enqueue_body-Placed}
use sap_orders_api.Service.Sync.Admission.{
  Reads, read, get_order-Reads, get_item-Reads, has_active-Reads, passes, syncable-Reads,
  enqueue_body-Total, set_status-any, succeeded,
}
use sap_orders_api.System.{System}
use sap_orders_api.System.Interleaved.{
  Thread, asked, order_read, item_read, checked, Progress, running, returned, advance, Busy,
  after_turn, Move, turn, Moves, more,
}

-- The three reads of a run succeed where the tables allow the item.
module _ (rfc_function : String) (order_id item_id : Uuid) (k : World) (steady : Steady k) (X : Db)
    (order : Order) (item : OrderItem) (allowed : Allows X order_id item_id order item) where
  pub order_turn :
      Reads k steady X
        (advance rfc_function (asked order_id item_id))
        (running (order_read order_id item_id order))
  unfolding advance
  order_turn =
      read k steady X _ order (get_order-Reads k steady X order_id order allowed.order_found) (
        read k steady X _ tt (passes k steady X _ order_closed allowed.order_is_open)
          (pure-Total _ (λ db p. (refl, p))))

  pub item_turn :
      is_delivery_date_in_past k.clock item.delivery_date ≡ false
      → Reads k steady X
          (advance rfc_function (order_read order_id item_id order))
          (running (item_read item_id order item))
  unfolding advance
  item_turn past =
      read k steady X _ item (get_item-Reads k steady X order_id item_id item allowed.item_found) (
        read k steady X _ tt (syncable-Reads k steady X item allowed.item_can_sync past)
          (pure-Total _ (λ db p. (refl, p))))

  pub active_turn :
      Reads k steady X
        (advance rfc_function (item_read item_id order item))
        (running (checked item_id order item))
  unfolding advance
  active_turn =
      read k steady X _ false (has_active-Reads k steady X item_id false allowed.none_active) (
        read k steady X _ tt (passes k steady X false sync_already_active refl)
          (pure-Total _ (λ db p. (refl, p))))

-- The transaction of a run adds its entry, whatever was added since its reads.
module _ (rfc_function : String) (item_id : Uuid) (order : Order) (item : OrderItem) where
  pub commit_turn :
      (w : World)
      → Steady w
      → any (item_id_is item_id) w.db.items ≡ true
      → ((n : ℕ) → any (λ e. e.id == w.random n) w.db.outbox ≡ false)
      → (e : OutboxEntry) × (v : World) × (advance rfc_function (checked item_id order item) w
          ≡ (ok (returned e), v))
        × Placed rfc_function item_id order item w.db e v.db
  unfolding advance ◌>>=◌
  commit_turn w steady has_item fresh =
      let (e, same, placed) =
        succeeded w (Placed rfc_function item_id order item w.db) (λ _. Unit {0})
          (with_transaction (enqueue_body rfc_function item_id order item) w)
          ((with_transaction-Total steady
              (enqueue_body-Total rfc_function item_id order item w steady w.db has_item fresh)).run
            w (record { clock = refl; random = refl; faults = refl }) refl)
          ((with_transaction-Triple (λ db p. tt) (λ a db q. tt)
              (enqueue_body-Placed rfc_function item_id order item w.db)).run
            w refl) in
      (
        e,
        (with_transaction (enqueue_body rfc_function item_id order item) w).1,
        ap (go_on (with_transaction (enqueue_body rfc_function item_id order item) w).1) same,
        placed,
      )
    where
      go_on : World → Result OutboxEntry → Result Progress × World
      go_on v (ok e) = (ok (returned e), v)
      go_on v (err x) = (err x, v)

  pub promoted-any :
      (t : Time) (X : Db)
      → any (item_id_is item_id) (promoted_item item_id item t X).items
        ≡ any (item_id_is item_id) X.items
  promoted-any t X = elim (Bool-cases (is_failed item.status)) [
    | inl e ↦ rw e (set_status-any item_id t updated X.items)
    | inr e ↦ rw e refl
  ]

abbrev pub busy : System → World → List Thread → Busy
busy s w threads = record { system = record s { world = w }; threads = threads }

module _ (rfc_function : String) (b : Busy) (s : System) where
  -- b moves on to these runs and a world that is like k and has the tables X
  abbrev pub Gets : World → Db → List Thread → Type 0
  Gets k X threads = (w : World) × Alike k w × (w.db ≡ X) × Moves rfc_function b (busy s w threads)

  -- the turn of a run, by its answer
  pub a_turn :
      (w : World) (before : List Thread) (thread : Thread) (after : List Thread)
      (r : Result Progress × World)
      → advance rfc_function thread w ≡ r
      → Moves rfc_function b (busy s w (before ++ thread ∷ after))
      → Moves rfc_function b (after_turn (busy s w (before ++ thread ∷ after)) before after r)
  a_turn w before thread after r e m = more m (
      subst
        (λ r.
          Move rfc_function (busy s w (before ++ thread ∷ after))
            (after_turn (busy s w (before ++ thread ∷ after)) before after r))
        e (turn before thread after refl))

  -- the turn of a run that only reads
  pub read_turn :
      (k : World) (steady : Steady k) (X : Db) (before : List Thread) (thread later : Thread)
      (after : List Thread)
      → Reads k steady X (advance rfc_function thread) (running later)
      → Gets k X (before ++ thread ∷ after)
      → Gets k X (before ++ later ∷ after)
  read_turn k steady X before thread later after h (w, like, same, m) =
      let (a, v, e, like', q) = answered k _ (advance rfc_function thread w) (h.run w like same) in
      (
        v,
        like',
        q.1,
        a_turn w before thread after (ok (running later), v) (e ∙ ap (λ p. (ok p, v)) q.0) m,
      )
