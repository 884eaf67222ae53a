-- ===== src/Server/Access.antt =====
-- What the requests of a user may do to the tables, by the scopes that the user has.
use sap_orders_api.Prelude.{ℕ, ◌≡◌, refl, ap, ◌∙◌, false, Option, none, some, String}
use sap_orders_api.Auth.{
  UserClaims, scope_orders_write, has_scope, require_scope, Refusal, granted, unauthorized,
  forbidden,
}
use sap_orders_api.Store.Monad.{Db, World, Result, ok, err}
use sap_orders_api.Handler.Response.{Body, order_page, order, sync_status, logs, respond}
use sap_orders_api.Handler.Params.{Codec, Request, Answer, or_bad_request}
use sap_orders_api.Handler.Orders
use sap_orders_api.Handler.Sync
use sap_orders_api.Service.Orders.Frame.{Keeps}
use sap_orders_api.Service.Queries.{
  Keeps-after, list_orders-Keeps, get_order-Keeps, list_logs-Keeps, get_latest_sync_status-Keeps,
  get_sync_status-Keeps,
}
use sap_orders_api.Auth.Token.{known}
use sap_orders_api.Server.{
  Route, list_orders, get_order, create_order, update_order, add_item, update_item, sync_item,
  cancel_sync, get_latest_status, get_status, list_logs, required_scope, handle, gate, scoped,
  serve,
}

-- The answer leaves the tables as they were.
pub record ReadsOnly (k : Answer) : Type 0 where
  pub same : (w : World) → (k w).1.db ≡ w.db

respond-db :
    {A : Type 0} (n : ℕ) (body : A → Body) (r : Result A × World) → (respond n body r).1 ≡ r.1
unfolding respond
respond-db n body (ok a, w) = refl
respond-db n body (err e, w) = refl

or_bad_request-ReadsOnly :
    {A : Type 0} (what : String) (o : Option A) (k : A → Answer)
    → ((a : A) → ReadsOnly (k a))
    → ReadsOnly (or_bad_request what o k)
or_bad_request-ReadsOnly what none k h = record { same = λ w. refl }
or_bad_request-ReadsOnly what (some a) k h = h a

pub gate-ReadsOnly :
    (codec : Codec) (rfc_function : String) (x : Refusal) (k : Answer)
    → ReadsOnly k
    → ReadsOnly (gate codec rfc_function x k)
gate-ReadsOnly codec rfc_function granted k h = h
gate-ReadsOnly codec rfc_function unauthorized k h = record { same = λ w. refl }
gate-ReadsOnly codec rfc_function forbidden k h = record { same = λ w. refl }

-- an operation that keeps every property of the tables changes none
reads :
    {A : Type 0} {m : World → Result A × World} (n : ℕ) (body : A → Body)
    → ((P : Db → Type 0) → Keeps P m)
    → ReadsOnly (λ w. respond n body (m w))
reads {m} n body h = record {
  same = λ w.
      ap (λ x. x.db) (respond-db n body (m w))
      ∙ Keeps-after (λ db. db ≡ w.db) (m w) ((h (λ db. db ≡ w.db)).run w refl);
}

module _ (codec : Codec) (r : Request) where
  pub list-ReadsOnly : ReadsOnly (Orders.list r)
  unfolding Orders.list
  list-ReadsOnly = reads 200 order_page (λ P. list_orders-Keeps P (Orders.filter_of r))

  pub get-ReadsOnly : ReadsOnly (Orders.get codec r)
  unfolding Orders.get
  get-ReadsOnly =
      or_bad_request-ReadsOnly "invalid order id" (codec.parse_uuid (r.url_param "id")) _
        λ id. reads 200 order (λ P. get_order-Keeps P id)

  pub get_latest_status-ReadsOnly : ReadsOnly (Sync.get_latest_status codec r)
  unfolding Sync.get_latest_status
  get_latest_status-ReadsOnly =
      or_bad_request-ReadsOnly "invalid order id" (codec.parse_uuid (r.url_param "id")) _
        λ order_id.
          or_bad_request-ReadsOnly "invalid item id" (codec.parse_uuid (r.url_param "itemId")) _
            λ item. reads 200 sync_status (λ P. get_latest_sync_status-Keeps P order_id item)

  pub get_status-ReadsOnly : ReadsOnly (Sync.get_status codec r)
  unfolding Sync.get_status
  get_status-ReadsOnly =
      or_bad_request-ReadsOnly "invalid order id" (codec.parse_uuid (r.url_param "id")) _
        λ order_id.
          or_bad_request-ReadsOnly "invalid item id" (codec.parse_uuid (r.url_param "itemId")) _
            λ item.
              or_bad_request-ReadsOnly "invalid outbox id"
                (codec.parse_uuid (r.url_param "outboxId")) _
                λ outbox. reads 200 sync_status (λ P. get_sync_status-Keeps P order_id item outbox)

  pub list_logs-ReadsOnly : ReadsOnly (Sync.list_logs codec r)
  unfolding Sync.list_logs
  list_logs-ReadsOnly =
      or_bad_request-ReadsOnly "invalid order id" (codec.parse_uuid (r.url_param "id")) _
        λ order_id.
          or_bad_request-ReadsOnly "invalid item id" (codec.parse_uuid (r.url_param "itemId")) _
            λ item. reads 200 logs (λ P. list_logs-Keeps P order_id item)

module _ (codec : Codec) (rfc_function : String) (claims : UserClaims) (r : Request)
    (no_write : has_scope claims scope_orders_write ≡ false) where
  write_refused :
      (k : Answer)
      → ReadsOnly (gate codec rfc_function (require_scope scope_orders_write (some claims)) k)
  unfolding require_scope
  write_refused k = rw no_write (record { same = λ w. refl })

  -- A request of a user without the scope orders.write, neither granted nor by a role, leaves every
  -- table as it was, whatever its route, its parameters and its body are.
  pub serve-ReadsOnly :
      (route : Route) → ReadsOnly (serve codec rfc_function (known claims) route r)
  unfolding serve scoped required_scope handle
  serve-ReadsOnly list_orders = gate-ReadsOnly codec rfc_function _ _ (list-ReadsOnly codec r)
  serve-ReadsOnly get_order = gate-ReadsOnly codec rfc_function _ _ (get-ReadsOnly codec r)
  serve-ReadsOnly create_order = write_refused _
  serve-ReadsOnly update_order = write_refused _
  serve-ReadsOnly add_item = write_refused _
  serve-ReadsOnly update_item = write_refused _
  serve-ReadsOnly sync_item = write_refused _
  serve-ReadsOnly cancel_sync = write_refused _
  serve-ReadsOnly get_latest_status =
      gate-ReadsOnly codec rfc_function _ _ (get_latest_status-ReadsOnly codec r)
  serve-ReadsOnly get_status = gate-ReadsOnly codec rfc_function _ _ (get_status-ReadsOnly codec r)
  serve-ReadsOnly list_logs = gate-ReadsOnly codec rfc_function _ _ (list_logs-ReadsOnly codec r)
