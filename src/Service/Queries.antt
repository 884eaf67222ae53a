-- ===== src/Service/Queries.antt =====
-- The operations of internal/service that only read.
use sap_orders_api.Prelude.{
  ℕ, zero, suc, ◌<◌, ltb→lt, ◌≡◌, ◌≤◌, refl, arith, Bool-cases, inl, inr, ltb, false,
}
use sap_orders_api.Prelude.Int.{ℤ, pos, negsuc}
use sap_orders_api.Domain.Types.{Uuid, OutboxEntry}
use sap_orders_api.Domain.Paging.{OrderListFilter}
use sap_orders_api.Store.Monad.{Db, World, Result, ok, err}
use sap_orders_api.Store.Triple.{Ensures, >>=-Triple, pure-Triple, if-Triple, weaken-Triple}
use sap_orders_api.Store.Reads.{
  get_order-Triple, get_item-Triple, list_logs-Triple, get_entry-Triple, list-Triple,
  get_latest-Triple,
}
use sap_orders_api.Service.Orders.{
  list_orders, get_order, clamp_filter, page_or_default, limit_in_range,
}
use sap_orders_api.Service.Orders.Frame.{Keeps}
use sap_orders_api.Service.Sync.{
  list_logs, is_finished, build_sync_status_response, get_latest_sync_status, get_sync_status,
}

-- What is kept by an operation holds of the tables after it.
pub Keeps-after :
    {A : Type 0} (P : Db → Type 0) (r : Result A × World) → Ensures (λ _. P) P r → P r.1.db
Keeps-after P (ok a, w) h = h
Keeps-after P (err e, w) h = h

module _ (P : Db → Type 0) where
  pub list_orders-Keeps : (filter : OrderListFilter) → Keeps P (list_orders filter)
  unfolding list_orders
  list_orders-Keeps filter = list-Triple (clamp_filter filter)

  pub get_order-Keeps : (id : Uuid) → Keeps P (get_order id)
  unfolding get_order
  get_order-Keeps id = weaken-Triple (λ db p. p) (λ a db h. h.0) (λ db p. p) (get_order-Triple id)

  pub list_logs-Keeps : (order_id item_id : Uuid) → Keeps P (list_logs order_id item_id)
  unfolding list_logs
  list_logs-Keeps order_id item_id =
      >>=-Triple (get_item-Triple order_id item_id)
        λ item. weaken-Triple (λ db p. p.0) (λ a db h. h) (λ db p. p) (list_logs-Triple item_id)

  response-Keeps : (entry : OutboxEntry) → Keeps P (build_sync_status_response entry)
  unfolding build_sync_status_response
  response-Keeps entry =
      if-Triple (is_finished entry.status)
        (λ _. >>=-Triple (list_logs-Triple entry.order_item_id) λ logs. pure-Triple _ (λ db p. p))
        (λ _. pure-Triple _ (λ db p. p))

  pub get_latest_sync_status-Keeps :
      (order_id item_id : Uuid) → Keeps P (get_latest_sync_status order_id item_id)
  unfolding get_latest_sync_status
  get_latest_sync_status-Keeps order_id item_id =
      >>=-Triple
        (weaken-Triple (λ db p. p) (λ a db h. h.0) (λ db p. p) (get_item-Triple order_id item_id))
        λ item. >>=-Triple (get_latest-Triple item_id) λ entry. response-Keeps entry

  pub get_sync_status-Keeps :
      (order_id item_id outbox_id : Uuid) → Keeps P (get_sync_status order_id item_id outbox_id)
  unfolding get_sync_status
  get_sync_status-Keeps order_id item_id outbox_id =
      >>=-Triple
        (weaken-Triple (λ db p. p) (λ a db h. h.0) (λ db p. p) (get_item-Triple order_id item_id))
        λ item.
          >>=-Triple
            (weaken-Triple (λ db p. p) (λ a db h. h.0) (λ db p. p)
              (get_entry-Triple item_id outbox_id))
            λ entry. response-Keeps entry

page_kept : (n : ℕ) → 1 ≤ n → page_or_default (pos n) ≡ pos n
page_kept n h = ground arith

page_negative : (n : ℕ) → page_or_default (negsuc n) ≡ pos 1
page_negative n = ground arith

limit_negative : (n : ℕ) → limit_in_range (negsuc n) ≡ pos 20
limit_negative n = ground arith

limit_kept : (n : ℕ) → 1 ≤ n → n ≤ 100 → limit_in_range (pos n) ≡ pos n
limit_kept n h k = ground arith

limit_cut : (n : ℕ) → 100 < n → limit_in_range (pos n) ≡ pos 100
limit_cut n h = ground arith

-- The filter that ListOrders hands on has a page from 1 and a limit from 1 to 100, and asks for the
-- status that was asked for.
pub clamp_filter-bounds :
    (f : OrderListFilter)
    → (p : ℕ) × (l : ℕ) × ((clamp_filter f).page ≡ pos p)
      × ((clamp_filter f).limit ≡ pos l)
      × (1 ≤ p)
      × (1 ≤ l)
      × (l ≤ 100)
      × ((clamp_filter f).status ≡ f.status)
unfolding clamp_filter
clamp_filter-bounds f =
    let (p, is_p, from) = page f.page in
    let (l, is_l, low, high) = limit f.limit in (p, l, is_p, is_l, from, low, high, refl)
  where
    page : (z : ℤ) → (p : ℕ) × (page_or_default z ≡ pos p) × (1 ≤ p)
    page (pos zero) = (1, refl, omega arith)
    page (pos (suc n)) = (suc n, page_kept (suc n) (omega arith), omega arith)
    page (negsuc n) = (1, page_negative n, omega arith)

    limit : (z : ℤ) → (l : ℕ) × (limit_in_range z ≡ pos l) × (1 ≤ l) × (l ≤ 100)
    limit (pos zero) = (20, refl, omega arith, omega arith)
    limit (pos (suc n)) = elim (Bool-cases (ltb 100 (suc n))) [
      | inl e ↦ (100, limit_cut (suc n) (ltb→lt 100 (suc n) e), omega arith, omega arith)
      | inr e ↦ (suc n, limit_kept (suc n) (omega arith) (not_less e), omega arith, not_less e)
    ]
      where
        not_less : ltb 100 (suc n) ≡ false → suc n ≤ 100
        not_less e = ground arith
    limit (negsuc n) = (20, limit_negative n, omega arith, omega arith)
