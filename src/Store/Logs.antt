-- ===== src/Store/Logs.antt =====
-- internal/repository/sync_repository.go.
use sap_orders_api.Prelude.{
  Bool, ◌||◌, not, ◌==◌, Option, some, List, [], ◌∷◌, ◌++◌, String, select, any, sort_desc,
}
use sap_orders_api.Domain.Types.{Uuid, Time, SyncStatus, SapSyncLog}
use sap_orders_api.Store.Monad.{Db, unless, M, query_row, query}

-- the columns that `Create` inserts
pub record LogInput : Type 0 where
  pub order_item_id : Uuid
  pub rfc_function : String
  pub xml_request : String
  pub xml_response : Option String
  pub status : SyncStatus
  pub error_message : Option String

abbrev pub new_log : LogInput → Time → Uuid → SapSyncLog
new_log log time id = record {
  id = id;
  order_item_id = log.order_item_id;
  rfc_function = log.rfc_function;
  xml_request = log.xml_request;
  xml_response = log.xml_response;
  status = log.status;
  error_message = log.error_message;
  synced_at = time;
}

-- PRIMARY KEY (id) and REFERENCES order_items(id)
abbrev pub log_taken : SapSyncLog → Db → Bool
log_taken log db =
    any (λ l. l.id == log.id) db.logs || not (any (λ i. i.id == log.order_item_id) db.items)

abbrev pub with_log : SapSyncLog → Db → Db
with_log log db = record db { logs = db.logs ++ log ∷ [] }

abbrev pub insert_log : SapSyncLog → Db → Option (SapSyncLog × Db)
insert_log log db = unless (log_taken log db) (log, with_log log db)

unfoldable pub create : LogInput → M SapSyncLog
create log = query_row "create sync log: " λ time id db. insert_log (new_log log time id) db

unfoldable pub list_by_item_id : Uuid → M (List SapSyncLog)
list_by_item_id item_id = query "list sync logs: " λ _ _ db.
    some (sort_desc (λ l. l.synced_at) (select (λ l. l.order_item_id == item_id) db.logs), db)
