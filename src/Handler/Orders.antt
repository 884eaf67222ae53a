-- ===== src/Handler/Orders.antt =====
-- internal/handler/order_handler.go.
use sap_orders_api.Prelude.{none, some, String, str_eq, if◌then◌else◌}
use sap_orders_api.Prelude.Int.{pos}
use sap_orders_api.Domain.Types.{order_status}
use sap_orders_api.Domain.Paging.{OrderListFilter}
use sap_orders_api.Service.Orders
use sap_orders_api.Handler.Response.{order_page, order, item, respond}
use sap_orders_api.Handler.Params.{Codec, Request, Answer, query_int, order_id, item_id, decoded}

abbrev pub filter_of : Request → OrderListFilter
filter_of r = record {
  page = query_int r "page" (pos 1);
  limit = query_int r "limit" (pos 20);
  status = if str_eq (r.query "status") "" then none else some (order_status (r.query "status"));
}

unfoldable pub list : Request → Answer
unfolding respond
list r w = respond 200 order_page (Orders.list_orders (filter_of r) w)

module _ (codec : Codec) (r : Request) where
  unfoldable pub get : Answer
  unfolding respond
  get = order_id codec r λ id w. respond 200 order (Orders.get_order id w)

  -- `email` is the user's, of the request's context.
  unfoldable pub create : String → Answer
  unfolding respond
  create email =
      decoded (codec.decode_create_order r.body)
        λ input w. respond 201 order (Orders.create_order input email w)

  unfoldable pub update : Answer
  unfolding respond
  update = order_id codec r λ id.
      decoded (codec.decode_update_order r.body)
        λ input w. respond 200 order (Orders.update_order id input w)

  unfoldable pub add_item : Answer
  unfolding respond
  add_item = order_id codec r λ order.
      decoded (codec.decode_create_item r.body)
        λ input w. respond 201 item (Orders.add_item order input w)

  unfoldable pub update_item : Answer
  unfolding respond
  update_item = order_id codec r λ order. item_id codec r λ id.
      decoded (codec.decode_update_item r.body)
        λ input w. respond 200 item (Orders.update_item order id input w)
