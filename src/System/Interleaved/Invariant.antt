-- ===== src/System/Interleaved/Invariant.antt =====
-- What holds although runs of EnqueueSync interleave.
use sap_orders_api.Prelude.{◌≡◌, refl, ap, sym, subst, ◌⊎◌, inl, inr, List, [], ◌∷◌, ◌++◌, String}
use sap_orders_api.Domain.Errors.{order_closed, sync_already_active}
use sap_orders_api.Domain.Types.{Uuid, Order, OrderItem, OutboxEntry}
use sap_orders_api.Store.Monad.{Db, World, Result, ok, err, M, with_transaction}
use sap_orders_api.Store.Triple.{
  Ensures, Triple, >>=-Triple, weaken-Triple, pure-Triple, guard-Triple, with_transaction-Triple,
}
use sap_orders_api.Store.Reads.{get_order-Triple, get_item-Triple, has_active-Triple}
use sap_orders_api.Service.Sync.{enqueue_body}
use sap_orders_api.Service.Sync.Enqueue.{check_syncable-Triple, enqueue_body-Placed}
use sap_orders_api.System.{System}
use sap_orders_api.System.Effects.{IsFresh, Placed-IsFresh}
use sap_orders_api.System.Held.{added-Keeps, along}
use sap_orders_api.System.Table.{IsPlain, IsHeld}
use sap_orders_api.System.Invariant.{IsCoherent, Step-IsCoherent}
use sap_orders_api.System.Interleaved.{
  Thread, asked, order_read, item_read, checked, Progress, advance, Busy, after_turn, Move, whole,
  arrive, turn, Moves, done, more,
}

-- The outbox X is left alone, or has one new entry more.
abbrev Turned : List OutboxEntry → List OutboxEntry → Type 0
Turned X Y = (Y ≡ X) ⊎ ((e : OutboxEntry) × IsFresh X e × (Y ≡ X ++ e ∷ []))

Ensures-Turned :
    {A : Type 0} (X : List OutboxEntry) (r : Result A × World)
    → Ensures (λ _ db. Turned X db.outbox) (λ db. Turned X db.outbox) r
    → Turned X r.1.db.outbox
Ensures-Turned X (ok a, w) h = h
Ensures-Turned X (err e, w) h = h

module _ (rfc_function : String) (X : Db) where
  -- a run that begins with the tables X
  abbrev Turns : {A : Type 0} → M A → Type 0
  Turns m =
      Triple (λ db. db ≡ X) m (λ _ db. Turned X.outbox db.outbox) (λ db. Turned X.outbox db.outbox)

  read_only :
      {A : Type 0} {m : M A} → Triple (λ db. db ≡ X) m (λ _ db. db ≡ X) (λ db. db ≡ X) → Turns m
  read_only h =
      weaken-Triple (λ db p. p) (λ a db q. inl (ap (λ d. d.outbox) q))
        (λ db q. inl (ap (λ d. d.outbox) q)) h

  ignoring :
      {A : Type 0} {m : M A} {Q : A → Db → Type 0}
      → Triple (λ db. db ≡ X) m (λ a db. (db ≡ X) × Q a db) (λ db. db ≡ X)
      → Triple (λ db. db ≡ X) m (λ _ db. db ≡ X) (λ db. db ≡ X)
  ignoring h = weaken-Triple (λ db p. p) (λ a db q. q.0) (λ db q. q) h

  commit_turn :
      (item_id : Uuid) (order : Order) (item : OrderItem)
      → Turns (with_transaction (enqueue_body rfc_function item_id order item))
  commit_turn item_id order item =
      with_transaction-Triple (λ db p. inl (ap (λ d. d.outbox) p)) (λ a db q. q)
        (weaken-Triple (λ db p. p)
          (λ e db q. inr (
            e,
            Placed-IsFresh {rfc_function = rfc_function} {item_id = item_id} {order = order}
                {item = item} {X = X} {e = e} {db = db} q,
            ap (λ d. d.outbox) q.tables,
          ))
          (λ db q. tt) (enqueue_body-Placed rfc_function item_id order item X))

  advance-Turns : (thread : Thread) → Turns (advance rfc_function thread)
  unfolding advance
  advance-Turns (asked order_id item_id) = read_only (
      >>=-Triple (ignoring (get_order-Triple order_id)) λ order.
        >>=-Triple (ignoring (guard-Triple _ order_closed (λ db p. p)))
          λ _. pure-Triple _ (λ db p. p))
  advance-Turns (order_read order_id item_id order) = read_only (
      >>=-Triple (ignoring (get_item-Triple order_id item_id))
        λ item. >>=-Triple (ignoring (check_syncable-Triple item)) λ _. pure-Triple _ (λ db p. p))
  advance-Turns (item_read item_id order item) = read_only (
      >>=-Triple (ignoring (has_active-Triple item_id)) λ active.
        >>=-Triple (ignoring (guard-Triple active sync_already_active (λ db p. p)))
          λ _. pure-Triple _ (λ db p. p))
  advance-Turns (checked item_id order item) =
      >>=-Triple (commit_turn item_id order item) λ entry. pure-Triple _ (λ db p. p)

turn-IsCoherent :
    (s : System) (w : World)
    → Turned s.world.db.outbox w.db.outbox
    → IsCoherent s
    → IsCoherent (record s { world = w })
turn-IsCoherent s w (inl e) v = record {
  table = subst IsPlain (sym e) v.table;
  held = λ x m. subst (λ Y. IsHeld Y x) (sym e) (v.held x m);
  apart = v.apart;
}
turn-IsCoherent s w (inr (e, new, q)) v =
    let k = along q (added-Keeps s.world.db.outbox e new v.table) in
    record { table = k.0; held = λ x m. k.1 x (v.held x m); apart = v.apart }

after_turn-IsCoherent :
    (b : Busy) (before after : List Thread) (r : Result Progress × World)
    → IsCoherent (record b.system { world = r.1 })
    → IsCoherent (after_turn b before after r).system
after_turn-IsCoherent b before after (r, w) v = v

Move-IsCoherent :
    {rfc_function : String} {b c : Busy}
    → Move rfc_function b c
    → IsCoherent b.system
    → IsCoherent c.system
Move-IsCoherent (whole step) v = Step-IsCoherent step v
Move-IsCoherent (arrive order_id item_id) v = v
Move-IsCoherent {rfc_function} {b} (turn before thread after q) v =
    let r = advance rfc_function thread b.system.world in
    after_turn-IsCoherent b before after r (
      turn-IsCoherent b.system r.1
        (Ensures-Turned b.system.world.db.outbox r
          ((advance-Turns rfc_function b.system.world.db thread).run b.system.world refl))
        v)

-- However the database calls of any number of runs of EnqueueSync interleave with one another, with
-- other requests and with workers, and whichever statements fail: from a coherent system, such as
-- one with an empty outbox and no entry held, every entry's count of attempts fits its status, ids
-- are distinct, and workers hold different rows of the table, all of them PROCESSING.
pub Moves-IsCoherent :
    {rfc_function : String} {b c : Busy}
    → IsCoherent b.system
    → Moves rfc_function b c
    → IsCoherent c.system
Moves-IsCoherent v done = v
Moves-IsCoherent v (more m step) = Move-IsCoherent step (Moves-IsCoherent v m)
