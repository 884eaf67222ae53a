-- ===== src/System/Interleaved/Race.antt =====
-- EnqueueSync (internal/service/sync_service.go) asks for an active entry before its transaction:
-- what two runs that interleave make of one item.
use sap_orders_api.Prelude.{
  ℕ, ◌+◌, ◌≤◌, ◌≡◌, refl, sym, ap, subst, ◌∙◌, ◌≢◌, true, false, List, [], ◌∷◌, ◌++◌, Memᴰ, String,
  any, ◌==◌, arith,
}
use sap_orders_api.Prelude.Members.{any-false, Mem-append_left, Mem-append_right}
use sap_orders_api.Domain.Types.{Uuid, Time, Order, OrderItem, OutboxEntry}
use sap_orders_api.Domain.Dates.{is_delivery_date_in_past}
use sap_orders_api.Store.Monad.{Db, fine, World, ok}
use sap_orders_api.Store.Items.{item_id_is}
use sap_orders_api.Store.Outbox.{is_active}
use sap_orders_api.Service.Sync.Enqueue.{Allows, Placed}
use sap_orders_api.Service.Sync.Admission.{found-any}
use sap_orders_api.System.{System, with_choices, outside}
use sap_orders_api.System.Interleaved.Turns.{
  order_turn, item_turn, active_turn, commit_turn, promoted-any, busy, Gets, a_turn, read_turn,
}
use sap_orders_api.System.Interleaved.{
  Thread, asked, checked, returned, Busy, whole, arrive, Moves, done, more,
}

-- Two entries of one item that are both PENDING or PROCESSING.
pub record TwoActive (item_id : Uuid) (X : List OutboxEntry) : Type 0 where
  pub one : OutboxEntry
  pub other : OutboxEntry
  pub has_one : Memᴰ one X
  pub has_other : Memᴰ other X
  pub of_item : (one.order_item_id ≡ item_id) × (other.order_item_id ≡ item_id)
  pub active : (is_active one.status ≡ true) × (is_active other.status ≡ true)
  pub differ : one.id ≢ other.id

-- An id that no entry of a table has.
above : List OutboxEntry → ℕ
above [] = 0
above (x ∷ xs) = 1 + x.id + above xs

above-is_new : (xs : List OutboxEntry) (u : ℕ) → above xs ≤ u → any (λ e. e.id == u) xs ≡ false
unfolding above
above-is_new [] u h = refl
above-is_new (x ∷ xs) u h = not_first (above-is_new xs u (omega arith))
  where
    not_first : any (λ e. e.id == u) xs ≡ false → any (λ e. e.id == u) (x ∷ xs) ≡ false
    not_first rest = ground arith

module _ {rfc_function : String} {item_id : Uuid} {order : Order} {item : OrderItem} {X : Db}
    {e : OutboxEntry} {db : Db} (placed : Placed rfc_function item_id order item X e db) where
  placed-Mem : Memᴰ e db.outbox
  placed-Mem =
      subst (λ d. Memᴰ e d.outbox) (sym placed.tables)
        (Mem-append_right X.outbox (e ∷ []) (Memᴰ.head refl))

  kept-Mem : (x : OutboxEntry) → Memᴰ x X.outbox → Memᴰ x db.outbox
  kept-Mem x m =
      subst (λ d. Memᴰ x d.outbox) (sym placed.tables) (Mem-append_left X.outbox (e ∷ []) m)

  placed-active : is_active e.status ≡ true
  placed-active = ap (λ x. is_active x.status) placed.entry_is

  placed-item : e.order_item_id ≡ item_id
  placed-item = ap (λ x. x.order_item_id) placed.entry_is

  placed-differs : (x : OutboxEntry) → Memᴰ x X.outbox → x.id ≢ e.id
  placed-differs x m same = clash (any-false (λ o. o.id == e.id) X.outbox placed.id_is_new m)
    where
      clash : (x.id == e.id) ≡ false → ⊥
      clash h = ground arith

  placed-has_item :
      any (item_id_is item_id) X.items ≡ true → any (item_id_is item_id) db.items ≡ true
  placed-has_item h =
      ap (λ d. any (item_id_is item_id) d.items) placed.tables
      ∙ promoted-any rfc_function item_id order item placed.changed X
      ∙ h

-- Two transactions that follow one another, each for its own run.
put_twice :
    {rfc_function : String} {item_id : Uuid} {order : Order} {item : OrderItem} {X Y Z : Db}
    {e f : OutboxEntry}
    → Placed rfc_function item_id order item X e Y
    → Placed rfc_function item_id order item Y f Z
    → TwoActive item_id Z.outbox
put_twice {e} {f} p q = record {
  one = e;
  other = f;
  has_one = kept-Mem q e (placed-Mem p);
  has_other = placed-Mem q;
  of_item = (placed-item p, placed-item q);
  active = (placed-active p, placed-active q);
  differ = placed-differs q e (placed-Mem p);
}

-- the choices of the outside in which no statement fails and each id that is drawn is u
abbrev calm : Time → Uuid → World → World
calm t u w = with_choices t (λ _. u) (λ _. fine) w

module _ (rfc_function : String) (order_id item_id : Uuid) (order : Order) (item : OrderItem)
    (s : System) (allowed : Allows s.world.db order_id item_id order item)
    (past : is_delivery_date_in_past s.world.clock item.delivery_date ≡ false) where
  abbrev idle : Busy
  idle = record { system = s; threads = [] }

  abbrev k : World
  k = calm s.world.clock 0 s.world

  abbrev before_commit : Thread
  before_commit = checked item_id order item

  -- both runs have made their checks
  both_checked : Gets rfc_function idle s k s.world.db (before_commit ∷ before_commit ∷ [])
  both_checked =
      let turns = λ (before after : List Thread).
        λ (g : Gets rfc_function idle s k s.world.db (before ++ asked order_id item_id ∷ after)).
          read_turn rfc_function idle s k (λ n. refl) s.world.db before _ _ after
            (active_turn rfc_function order_id item_id k (λ n. refl) s.world.db order item allowed)
            (read_turn rfc_function idle s k (λ n. refl) s.world.db before _ _ after
              (item_turn rfc_function order_id item_id k (λ n. refl) s.world.db order item allowed
                past)
              (read_turn rfc_function idle s k (λ n. refl) s.world.db before _ _ after
                (order_turn rfc_function order_id item_id k (λ n. refl) s.world.db order item
                  allowed)
                g)) in
      turns (before_commit ∷ []) [] (
        turns [] (asked order_id item_id ∷ []) (
          k,
          record { clock = refl; random = refl; faults = refl },
          refl,
          more
              (more (more done (whole (outside s.world.clock (λ _. 0) (λ _. fine))))
                (arrive order_id item_id))
              (arrive order_id item_id),
        ))

  -- the commit of the first run in the list, at a calm moment
  one_commit :
      (after : List Thread) (w : World)
      → any (item_id_is item_id) w.db.items ≡ true
      → Moves rfc_function idle (busy s w (before_commit ∷ after))
      → (e : OutboxEntry) × (v : World) × Placed rfc_function item_id order item w.db e v.db
        × Moves rfc_function idle (busy s v after)
  one_commit after w has_item m =
      let u = above w.db.outbox in
      let (e, v, answer, placed) =
        commit_turn rfc_function item_id order item (calm w.clock u w) (λ n. refl) has_item
          (λ n. above-is_new w.db.outbox u (omega arith)) in
      (
        e,
        v,
        placed,
        a_turn rfc_function idle s (calm w.clock u w) [] before_commit after (ok (returned e), v)
            answer (more m (whole (outside w.clock (λ _. u) (λ _. fine)))),
      )

  -- From every state without runs under way whose tables allow an item to be sent that is not past
  -- its delivery date, the steps of the program and of the runs of EnqueueSync reach a state in which
  -- the item has two entries with different ids that are PENDING or PROCESSING.
  pub race-TwoActive :
      (c : Busy) × Moves rfc_function idle c × TwoActive item_id c.system.world.db.outbox
  race-TwoActive =
      let (w, like, same, m) = both_checked in
      let (e, v, p, m') =
        one_commit (before_commit ∷ []) w
          (ap (λ d. any (item_id_is item_id) d.items) same
            ∙ found-any order_id item_id item s.world.db.items allowed.item_found)
          m in
      let (f, z, q, m'') =
        one_commit [] v
          (placed-has_item p (
            ap (λ d. any (item_id_is item_id) d.items) same
            ∙ found-any order_id item_id item s.world.db.items allowed.item_found))
          m' in
      (busy s z [], m'', put_twice p q)
