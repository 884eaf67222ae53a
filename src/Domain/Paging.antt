-- ===== src/Domain/Paging.antt =====
-- internal/domain/pagination.go. `int` and `int64` are 64-bit integers.
use sap_orders_api.Prelude.{◌&&◌, Option, List, if◌then◌else◌}
use sap_orders_api.Prelude.Int.{ℤ, pos, ◌+ℤ◌, ◌-ℤ◌, ltz, quot, wrap64, pos_part}
use sap_orders_api.Domain.Types.{OrderStatus}

pub record OrderListFilter : Type 0 where
  pub page : ℤ
  pub limit : ℤ
  pub status : Option OrderStatus

pub record PagedResult (T : Type 0) : Type 0 where
  pub rows : List T
  pub page : ℤ
  pub limit : ℤ
  pub total : ℤ
  pub total_pages : ℤ

unfoldable pub total_pages_of : ℤ → ℤ → ℤ
total_pages_of limit total =
    if ltz (pos 0) limit && ltz (pos 0) total
    then quot (wrap64 (wrap64 (total +ℤ limit) -ℤ pos 1)) (pos_part limit)
    else pos 0

-- A nil slice and an empty one are the same list here.
unfoldable pub new_paged_result : {T : Type 0} → List T → ℤ → ℤ → ℤ → PagedResult T
unfolding total_pages_of
new_paged_result rows page limit total = record {
  rows = rows;
  page = page;
  limit = limit;
  total = total;
  total_pages = total_pages_of limit total;
}
