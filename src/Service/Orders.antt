-- ===== src/Service/Orders.antt =====
-- internal/service/order_service.go.
pub mod Frame
pub mod Changes
pub mod Created
pub mod Edited
pub mod Added
pub mod Reopened
use sap_orders_api.Prelude.{
  Bool, true, false, ◌&&◌, ◌||◌, not, Option, none, some, String, str_eq, if◌then◌else◌,
}
use sap_orders_api.Prelude.Int.{ℤ, pos, ltz}
use sap_orders_api.Domain.Errors.{
  validation, order_number_required, status_required, invalid_order_status, item_fields_required,
  order_closed, invalid_delivery_date, delivery_date_in_past, item_status_immutable,
}
use sap_orders_api.Domain.Types.{
  Uuid, Date, OrderStatus, ItemStatus, opened, in_progress, closed, updated, OrderItem, Order,
  CreateOrderInput, UpdateOrderInput, CreateOrderItemInput, UpdateOrderItemInput,
}
use sap_orders_api.Domain.Status.{
  order_status_is_valid, same_order_status, can_transition_to, should_promote_on_edit,
}
use sap_orders_api.Domain.Dates.{parse_date, is_delivery_date_in_past}
use sap_orders_api.Domain.Paging.{OrderListFilter, PagedResult}
use sap_orders_api.Store.Monad.{M, pure, fail, check, now, ◌>>=◌, ◌>>◌}
use sap_orders_api.Store.Orders
use sap_orders_api.Store.Items

abbrev pub default_page : ℤ
default_page = pos 1

abbrev pub default_limit : ℤ
default_limit = pos 20

abbrev pub max_limit : ℤ
max_limit = pos 100

abbrev pub page_or_default : ℤ → ℤ
page_or_default page = if ltz page (pos 1) then default_page else page

-- the two tests of the limit, one after the other
abbrev pub limit_in_range : ℤ → ℤ
limit_in_range limit =
    let l = if ltz limit (pos 1) then default_limit else limit in
    if ltz max_limit l then max_limit else l

unfoldable pub clamp_filter : OrderListFilter → OrderListFilter
clamp_filter filter = record filter {
  page = page_or_default filter.page;
  limit = limit_in_range filter.limit;
}

unfoldable pub list_orders : OrderListFilter → M (PagedResult Order)
unfolding clamp_filter
list_orders filter = Orders.list (clamp_filter filter)

unfoldable pub get_order : Uuid → M Order
get_order id = Orders.get_by_id id

unfoldable pub create_order : CreateOrderInput → String → M Order
create_order input created_by =
    if str_eq input.order_number ""
    then fail order_number_required
    else Orders.create input.order_number created_by

unfoldable pub update_to : Uuid → OrderStatus → M Order
update_to id status = if not (order_status_is_valid status) then fail invalid_order_status else do
  order ← Orders.get_by_id id
  check (can_transition_to order.status status order.items)
  Orders.update id status

abbrev pub status_given : Uuid → Option OrderStatus → M Order
unfolding update_to
status_given id none = fail status_required
status_given id (some status) = update_to id status

unfoldable pub update_order : Uuid → UpdateOrderInput → M Order
unfolding update_to
update_order id input = status_given id input.status

-- `if order.Status == OrderStatusClosed { return ErrOrderClosed }`
abbrev pub refuse_closed : Order → M (Unit {0})
refuse_closed order = if same_order_status order.status closed then fail order_closed else pure tt

-- the test of a date that time.Parse gives
abbrev pub check_date_given : Option Date → M Date
check_date_given none = fail invalid_delivery_date
check_date_given (some date) = now >>= λ time.
    if is_delivery_date_in_past time date then fail delivery_date_in_past else pure date

abbrev pub parse_delivery_date : String → M Date
parse_delivery_date text = check_date_given (parse_date text)

-- the last step of AddItem: an open order is in progress once it has an item
unfoldable pub promote_order : Uuid → OrderStatus → M (Unit {0})
promote_order order_id status =
    if same_order_status status opened
    then (Orders.update order_id in_progress >>= λ _. pure tt)
    else pure tt

unfoldable pub add_item : Uuid → CreateOrderItemInput → M OrderItem
unfolding promote_order
add_item order_id input =
    if str_eq input.demand_code "" || str_eq input.description "" || str_eq input.delivery_date ""
    then fail item_fields_required
    else do
      order ← Orders.get_by_id order_id
      refuse_closed order
      delivery_date ← parse_delivery_date input.delivery_date
      item ← Items.create order_id input.demand_code input.description delivery_date
      promote_order order_id order.status
      pure item

abbrev pub parse_optional_date : Option String → M (Option Date)
parse_optional_date none = pure none
parse_optional_date (some text) = parse_delivery_date text >>= λ date. pure (some date)

abbrev pub promoted : ItemStatus → Option ItemStatus
promoted status = if should_promote_on_edit status then some updated else none

abbrev pub is_given : {A : Type 0} → Option A → Bool
is_given none = false
is_given (some a) = true

unfoldable pub update_item : Uuid → Uuid → UpdateOrderItemInput → M OrderItem
update_item order_id item_id input =
    if is_given input.status
    then fail item_status_immutable
    else if not (is_given input.description) && not (is_given input.delivery_date)
    then fail validation
    else do
      order ← Orders.get_by_id order_id
      refuse_closed order
      item ← Items.get_by_id order_id item_id
      delivery_date ← parse_optional_date input.delivery_date
      Items.update order_id item_id input.description delivery_date (promoted item.status)
