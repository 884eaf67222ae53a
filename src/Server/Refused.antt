-- ===== src/Server/Refused.antt =====
-- The answers of the routes of cmd/server/main.go that refuse a request.
use sap_orders_api.Prelude.{
  ℕ, ◌≡◌, refl, ap, ◌∙◌, ◌≤◌, ◌<◌, inl, inr, Option, none, some, String, arith,
}
use sap_orders_api.Domain.Errors.{Error, message, root}
use sap_orders_api.Domain.Types.{Uuid}
use sap_orders_api.Auth.{
  user_email, UserClaims, Refusal, granted, unauthorized, forbidden, require_scope,
}
use sap_orders_api.Auth.Token.{Identity, known, unknown}
use sap_orders_api.Store.Monad.{Db, World, Result, ok, err, M}
use sap_orders_api.Store.Refusal.{Safe, Refuses}
use sap_orders_api.Handler.Response.{Body, order, item, entry, respond, handle_error}
use sap_orders_api.Handler.Errors.{handle_error-answer_by_root, answer_by_root}
use sap_orders_api.Handler.Params.{Codec, Request, Answer, or_bad_request, decoded}
use sap_orders_api.Handler.Params
use sap_orders_api.Handler.Orders
use sap_orders_api.Handler.Sync
use sap_orders_api.Service.Refused.{
  create_order-Refuses, update_order-Refuses, add_item-Refuses, update_item-Refuses,
  enqueue_sync-Refuses, cancel_sync-Refuses,
}
use sap_orders_api.Server.{
  Route, list_orders, get_order, create_order, update_order, add_item, update_item, sync_item,
  cancel_sync, get_latest_status, get_status, list_logs, required_scope, handle, gate, scoped,
  serve,
}
use sap_orders_api.Server.Access.{
  ReadsOnly, list-ReadsOnly, get-ReadsOnly, get_latest_status-ReadsOnly, get_status-ReadsOnly,
  list_logs-ReadsOnly,
}

-- An answer with a status from 400 to 499 comes with the tables as they were.
pub record RefusesCleanly (k : Answer) : Type 0 where
  pub clean : (w : World) → let r = k w in 400 ≤ r.0.status → r.0.status < 500 → r.1.db ≡ w.db

reads-clean : {k : Answer} → ReadsOnly k → RefusesCleanly k
reads-clean h = record { clean = λ w low high. h.same w }

or_bad_request-clean :
    {A : Type 0} (what : String) (o : Option A) (k : A → Answer)
    → ((a : A) → RefusesCleanly (k a))
    → RefusesCleanly (or_bad_request what o k)
or_bad_request-clean what none k h = record { clean = λ w low high. refl }
or_bad_request-clean what (some a) k h = h a

-- the status of an error without a sentinel
external_status : (e : Error) → root e ≡ none → (handle_error e).status ≡ 500
external_status e h =
    ap (λ r. r.status) (handle_error-answer_by_root e ∙ ap (answer_by_root (message e)) h)

respond-clean :
    {A : Type 0} (n : ℕ) (body : A → Body) (X : Db) (Q : A → Db → Type 0) (r : Result A × World)
    → n < 400
    → Safe X Q r
    → 400 ≤ (respond n body r).0.status
    → (respond n body r).0.status < 500
    → (respond n body r).1.db ≡ X
unfolding respond
respond-clean n body X Q (ok a, w) small h low high = absurd (omega arith)
respond-clean n body X Q (err e, w) small (inr same) low high = same
respond-clean n body X Q (err e, w) small (inl outside) low high =
    let is = external_status e outside in absurd (omega (arith, is, high))

calls-clean :
    {A : Type 0} (n : ℕ) (body : A → Body) (m : M A)
    → n < 400
    → ((X : Db) → Refuses X (λ db. db ≡ X) m (λ _ _. Unit {0}))
    → RefusesCleanly (λ w. respond n body (m w))
calls-clean n body m small h = record {
  clean = λ w low high. respond-clean n body w.db _ (m w) small ((h w.db).run w refl) low high;
}

gate-clean :
    (codec : Codec) (rfc_function : String) (x : Refusal) (k : Answer)
    → RefusesCleanly k
    → RefusesCleanly (gate codec rfc_function x k)
gate-clean codec rfc_function granted k h = h
gate-clean codec rfc_function unauthorized k h = record { clean = λ w low high. refl }
gate-clean codec rfc_function forbidden k h = record { clean = λ w low high. refl }

module _ (codec : Codec) (rfc_function : String) (r : Request) where
  order_id :
      {k : Uuid → Answer}
      → ((id : Uuid) → RefusesCleanly (k id))
      → RefusesCleanly (Params.order_id codec r k)
  order_id {k} h = or_bad_request-clean "invalid order id" (codec.parse_uuid (r.url_param "id")) k h

  item_id :
      {k : Uuid → Answer}
      → ((id : Uuid) → RefusesCleanly (k id))
      → RefusesCleanly (Params.item_id codec r k)
  item_id {k} h =
      or_bad_request-clean "invalid item id" (codec.parse_uuid (r.url_param "itemId")) k h

  outbox_id :
      {k : Uuid → Answer}
      → ((id : Uuid) → RefusesCleanly (k id))
      → RefusesCleanly (Params.outbox_id codec r k)
  outbox_id {k} h =
      or_bad_request-clean "invalid outbox id" (codec.parse_uuid (r.url_param "outboxId")) k h

  body :
      {A : Type 0} (input : Option A) {k : A → Answer}
      → ((a : A) → RefusesCleanly (k a))
      → RefusesCleanly (decoded input k)
  body input {k} h = or_bad_request-clean "invalid request body" input k h

  handle-clean :
      (claims : Option UserClaims) (route : Route)
      → RefusesCleanly (handle codec rfc_function claims route r)
  unfolding handle Orders.create Orders.update Orders.add_item Orders.update_item Sync.sync_item
      Sync.cancel_sync
  handle-clean claims list_orders = reads-clean (list-ReadsOnly codec r)
  handle-clean claims get_order = reads-clean (get-ReadsOnly codec r)
  handle-clean claims create_order = body (codec.decode_create_order r.body) λ input.
      calls-clean 201 order _ (omega arith) (λ X. create_order-Refuses X input (user_email claims))
  handle-clean claims update_order = order_id λ id.
      body (codec.decode_update_order r.body)
        λ input. calls-clean 200 order _ (omega arith) (λ X. update_order-Refuses X id input)
  handle-clean claims add_item = order_id λ id.
      body (codec.decode_create_item r.body)
        λ input. calls-clean 201 item _ (omega arith) (λ X. add_item-Refuses X id input)
  handle-clean claims update_item = order_id λ id. item_id λ of.
      body (codec.decode_update_item r.body)
        λ input. calls-clean 200 item _ (omega arith) (λ X. update_item-Refuses X id of input)
  handle-clean claims sync_item = order_id λ id.
      item_id
        λ of. calls-clean 202 entry _ (omega arith) (λ X. enqueue_sync-Refuses X rfc_function id of)
  handle-clean claims cancel_sync = order_id λ id. item_id λ of.
      outbox_id λ out. calls-clean 200 entry _ (omega arith) (λ X. cancel_sync-Refuses X id of out)
  handle-clean claims get_latest_status = reads-clean (get_latest_status-ReadsOnly codec r)
  handle-clean claims get_status = reads-clean (get_status-ReadsOnly codec r)
  handle-clean claims list_logs = reads-clean (list_logs-ReadsOnly codec r)

  -- A request that is answered by a status from 400 to 499, whoever sends it, whatever its route and
  -- its body are and whichever statements fail, leaves every table as it was.
  pub serve-clean :
      (identity : Identity) (route : Route) (w : World)
      → let answer = serve codec rfc_function identity route r w in
        400 ≤ answer.0.status → answer.0.status < 500 → answer.1.db ≡ w.db
  unfolding serve scoped
  serve-clean (unknown what) route w low high = refl
  serve-clean (known claims) route w low high =
      (gate-clean codec rfc_function (require_scope (required_scope route) (some claims))
          (handle codec rfc_function (some claims) route r)
          (handle-clean (some claims) route)).clean
        w low high
