-- ===== src/Store/Listing.antt =====
-- The pages of List in internal/repository/order_repository.go, with the page count of
-- internal/domain/pagination.go.
use sap_orders_api.Prelude.{ℕ, zero, suc, Option, List, [], ◌++◌, sort_desc}
use sap_orders_api.Prelude.Int.{pos}
use sap_orders_api.Domain.Types.{OrderStatus, OrderRow, Order}
use sap_orders_api.Domain.Paging.{OrderListFilter, PagedResult}
use sap_orders_api.Store.Monad.{World, Result, ok, err}
use sap_orders_api.Store.Total.{Steady}
use mathlib.Core.List.{Permᴰ}
use sap_orders_api.Store.Orders
use sap_orders_api.Store.Orders.{matching}

-- the orders that an answer lists
abbrev pub listed : Result (PagedResult Order) → List Order
listed (ok r) = r.rows
listed (err e) = []

abbrev pub page_filter : ℕ → Option OrderStatus → ℕ → OrderListFilter
page_filter limit status page = record { page = pos page; limit = pos limit; status = status }

-- The orders of the pages 1 to n, one after the other, each page being read in a world of its own.
unfoldable pub read_pages : ℕ → Option OrderStatus → (ℕ → World) → ℕ → List Order
read_pages limit status ws zero = []
read_pages limit status ws (suc n) =
    read_pages limit status ws n
    ++ listed (Orders.list (page_filter limit status (suc n)) (ws (suc n))).0

module _ (w : World) (limit : ℕ) (status : Option OrderStatus) where
  -- the orders with the status that is asked for, the newest first
  abbrev pub rows : List OrderRow
  rows = matching (page_filter limit status 1) w.db

  abbrev pub newest_first : List OrderRow
  newest_first = sort_desc (λ r. r.created_at) rows

-- The worlds in which the pages are read: no statement fails, and the table keeps the orders of w, in
-- any order.
pub record IsUnchanged (w : World) (ws : ℕ → World) : Type 0 where
  pub steady : (n : ℕ) → Steady (ws n)
  pub same : (n : ℕ) → Permᴰ w.db.orders (ws n).db.orders
