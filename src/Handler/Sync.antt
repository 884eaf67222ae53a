-- ===== src/Handler/Sync.antt =====
-- internal/handler/sync_handler.go.
use sap_orders_api.Prelude.{String}
use sap_orders_api.Service.Sync
use sap_orders_api.Handler.Response.{entry, sync_status, logs, respond}
use sap_orders_api.Handler.Params.{Codec, Request, Answer, order_id, item_id, outbox_id}

module _ (codec : Codec) (r : Request) where
  -- `rfc_function` is the service's.
  unfoldable pub sync_item : String → Answer
  unfolding respond
  sync_item rfc_function = order_id codec r λ order.
      item_id codec r λ item w. respond 202 entry (Sync.enqueue_sync rfc_function order item w)

  unfoldable pub get_latest_status : Answer
  unfolding respond
  get_latest_status = order_id codec r λ order.
      item_id codec r λ item w. respond 200 sync_status (Sync.get_latest_sync_status order item w)

  unfoldable pub get_status : Answer
  unfolding respond
  get_status = order_id codec r λ order. item_id codec r λ item.
      outbox_id codec r
        λ outbox w. respond 200 sync_status (Sync.get_sync_status order item outbox w)

  unfoldable pub cancel_sync : Answer
  unfolding respond
  cancel_sync = order_id codec r λ order.
      item_id codec r λ item.
        outbox_id codec r λ outbox w. respond 200 entry (Sync.cancel_sync order item outbox w)

  unfoldable pub list_logs : Answer
  unfolding respond
  list_logs =
      order_id codec r
        λ order. item_id codec r λ item w. respond 200 logs (Sync.list_logs order item w)
