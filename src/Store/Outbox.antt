-- ===== src/Store/Outbox.antt =====
-- internal/repository/outbox_repository.go.
use sap_orders_api.Prelude.{
  ℕ, ◌+◌, Bool, true, false, ◌&&◌, ◌||◌, not, ltb, ◌==◌, Option, none, some, List, [], ◌∷◌, ◌++◌,
  map, String, take, first, select, update_rows, any, sort_asc, sort_desc, if◌then◌else◌,
}
use sap_orders_api.Domain.Errors.{not_found, sync_not_cancellable}
use sap_orders_api.Domain.Types.{
  Uuid, Time, OutboxStatus, OutboxEntry, processing, completed, cancelled,
}
use sap_orders_api.Store.Monad.{Db, unless, M, pure, fail, ◌>>=◌, query_row, query}
use sap_orders_api.Store.Orders.{or_not_found}

-- the columns that `Create` inserts
pub record EntryInput : Type 0 where
  pub order_item_id : Uuid
  pub order_number : String
  pub rfc_function : String
  pub xml_payload : String
  pub status : OutboxStatus
  pub max_attempts : ℕ

abbrev pub is_pending : OutboxStatus → Bool
is_pending OutboxStatus.pending = true
is_pending _ = false

-- `status IN ('PENDING', 'PROCESSING')`
abbrev pub is_active : OutboxStatus → Bool
is_active OutboxStatus.pending = true
is_active processing = true
is_active _ = false

abbrev pub new_entry : EntryInput → Time → Uuid → OutboxEntry
new_entry entry time id = record {
  id = id;
  order_item_id = entry.order_item_id;
  order_number = entry.order_number;
  rfc_function = entry.rfc_function;
  xml_payload = entry.xml_payload;
  status = entry.status;
  attempts = 0;
  max_attempts = entry.max_attempts;
  error_message = none;
  created_at = time;
  processed_at = none;
}

-- PRIMARY KEY (id) and REFERENCES order_items(id)
abbrev pub entry_taken : OutboxEntry → Db → Bool
entry_taken entry db =
    any (λ e. e.id == entry.id) db.outbox || not (any (λ i. i.id == entry.order_item_id) db.items)

abbrev pub with_entry : OutboxEntry → Db → Db
with_entry entry db = record db { outbox = db.outbox ++ entry ∷ [] }

abbrev pub insert_entry : OutboxEntry → Db → Option (OutboxEntry × Db)
insert_entry entry db = unless (entry_taken entry db) (entry, with_entry entry db)

unfoldable pub create : EntryInput → M OutboxEntry
create entry =
    query_row "create outbox entry: " λ time id db. insert_entry (new_entry entry time id) db

abbrev pub entry_of_item : Uuid → Uuid → OutboxEntry → Bool
entry_of_item item_id outbox_id e = (e.id == outbox_id) && (e.order_item_id == item_id)

unfoldable pub get_by_id : Uuid → Uuid → M OutboxEntry
get_by_id item_id outbox_id = do
  found ←
      query_row "get outbox entry: "
        λ _ _ db. some (first (select (entry_of_item item_id outbox_id) db.outbox), db)
  or_not_found found

-- `WHERE order_item_id = $1 ORDER BY created_at DESC LIMIT 1`
abbrev pub latest_of : Uuid → Db → Option OutboxEntry
latest_of item_id db =
    first (sort_desc (λ e. e.created_at) (select (λ e. e.order_item_id == item_id) db.outbox))

unfoldable pub get_latest_by_item_id : Uuid → M OutboxEntry
get_latest_by_item_id item_id = do
  found ← query_row "get latest outbox entry: " λ _ _ db. some (latest_of item_id db, db)
  or_not_found found

abbrev pub active_for : Uuid → OutboxEntry → Bool
active_for item_id e = (e.order_item_id == item_id) && is_active e.status

unfoldable pub has_active_by_item_id : Uuid → M Bool
has_active_by_item_id item_id =
    query_row "check active outbox: " λ _ _ db. some (any (active_for item_id) db.outbox, db)

-- `WHERE id = $1 AND order_item_id = $2 AND status = 'PENDING'`
abbrev pub cancellable : Uuid → Uuid → OutboxEntry → Bool
cancellable item_id outbox_id e = entry_of_item item_id outbox_id e && is_pending e.status

abbrev pub set_cancelled : Time → OutboxEntry → OutboxEntry
set_cancelled time e = record e {
  status = cancelled;
  processed_at = some time;
  error_message = some "cancelled by user";
}

-- RETURNING gives the changed rows as they are now.
abbrev pub cancel_rows : Uuid → Uuid → Time → Db → Option OutboxEntry × Db
cancel_rows item_id outbox_id time db = (
  first (map (set_cancelled time) (select (cancellable item_id outbox_id) db.outbox)),
  record db { outbox = update_rows (cancellable item_id outbox_id) (set_cancelled time) db.outbox },
)

-- the answer when no row was changed
unfoldable pub refuse_cancel : Uuid → Uuid → M OutboxEntry
unfolding get_by_id
refuse_cancel item_id outbox_id = do
  existing ← get_by_id item_id outbox_id
  if not (is_pending existing.status) then fail sync_not_cancellable else fail not_found

abbrev pub or_refuse : Uuid → Uuid → Option OutboxEntry → M OutboxEntry
or_refuse item_id outbox_id none = refuse_cancel item_id outbox_id
or_refuse item_id outbox_id (some e) = pure e

unfoldable pub cancel : Uuid → Uuid → M OutboxEntry
unfolding refuse_cancel
cancel item_id outbox_id = do
  found ←
      query_row "cancel outbox entry: " λ time _ db. some (cancel_rows item_id outbox_id time db)
  or_refuse item_id outbox_id found

-- `WHERE status = 'PENDING' AND attempts < max_attempts`
abbrev pub claimable : OutboxEntry → Bool
claimable e = is_pending e.status && ltb e.attempts e.max_attempts

-- the ids of the subselect; no row is locked by another transaction
abbrev pub chosen : ℕ → Db → List Uuid
chosen limit db =
    map (λ e. e.id) (take limit (sort_asc (λ e. e.created_at) (select claimable db.outbox)))

abbrev pub id_in : List Uuid → OutboxEntry → Bool
id_in ids e = any (λ id. e.id == id) ids

abbrev pub set_claimed : OutboxEntry → OutboxEntry
set_claimed e = record e { status = processing; attempts = e.attempts + 1 }

abbrev pub claim_rows : List Uuid → Db → List OutboxEntry × Db
claim_rows ids db = (
  map set_claimed (select (id_in ids) db.outbox),
  record db { outbox = update_rows (id_in ids) set_claimed db.outbox },
)

unfoldable pub claim_pending : ℕ → M (List OutboxEntry)
claim_pending limit =
    query "claim pending outbox entries: " λ _ _ db. some (claim_rows (chosen limit db) db)

-- `WHERE id = $1`
abbrev pub outbox_id_is : Uuid → OutboxEntry → Bool
outbox_id_is id e = e.id == id

abbrev pub set_completed : Time → OutboxEntry → OutboxEntry
set_completed time e = record e {
  status = completed;
  processed_at = some time;
  error_message = none;
}

abbrev pub complete_rows : Uuid → Time → Db → Unit {0} × Db
complete_rows id time db =
    (tt, record db { outbox = update_rows (outbox_id_is id) (set_completed time) db.outbox })

unfoldable pub mark_completed : Uuid → M (Unit {0})
mark_completed id = query_row "mark outbox completed: " λ time _ db. some (complete_rows id time db)

abbrev pub set_failed : String → Bool → Time → OutboxEntry → OutboxEntry
set_failed error_message retry time e = record e {
  status = if retry then OutboxStatus.pending else OutboxStatus.failed;
  error_message = some error_message;
  processed_at = if retry then none else some time;
}

abbrev pub fail_rows : Uuid → String → Bool → Time → Db → Unit {0} × Db
fail_rows id error_message retry time db = (
  tt,
  record db {
    outbox = update_rows (outbox_id_is id) (set_failed error_message retry time) db.outbox;
  },
)

unfoldable pub mark_failed : Uuid → String → Bool → M (Unit {0})
mark_failed id error_message retry =
    query_row "mark outbox failed: " λ time _ db. some (fail_rows id error_message retry time db)
