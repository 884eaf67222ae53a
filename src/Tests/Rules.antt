-- ===== src/Tests/Rules.antt =====
-- The theorems on internal/domain, internal/handler and cmd/server at concrete inputs.
use sap_orders_api.Prelude.{
  ℕ, ◌+◌, ◌*◌, ◌/◌, ◌≤◌, ◌<◌, ◌≡◌, refl, ◌↔◌, true, false, none, some, arith, [], ◌∷◌,
  if◌then◌else◌,
}
use sap_orders_api.Prelude.Int.{pos}
use sap_orders_api.Domain.Errors.{Error, sentinel, wrap, order_closed, message, root}
use sap_orders_api.Domain.Types.{in_progress, closed}
use sap_orders_api.Domain.Status.{can_transition_to}
use sap_orders_api.Domain.Transitions.{Allowed, can_transition_to-Allowed}
use sap_orders_api.Domain.Dates.{days_in, day_length, day_number, is_delivery_date_in_past}
use sap_orders_api.Domain.Dates.RoundTrip.{IsDate}
use sap_orders_api.Sap.Payload.{Carries, build_demand_update_xml-Carries}
use sap_orders_api.Domain.Dates.Past.{is_delivery_date_in_past-day_number}
use sap_orders_api.Domain.Paging.{total_pages_of}
use sap_orders_api.Domain.Pages.{total_pages_of-ceiling}
use sap_orders_api.Handler.Response.{handle_error}
use sap_orders_api.Handler.Params.{Codec, Request}
use sap_orders_api.Handler.Errors.{answer_by_root, handle_error-answer_by_root}
use sap_orders_api.Auth.{UserClaims, role_orders_reader, has_scope, scope_orders_write}
use sap_orders_api.Auth.Token.{known}
use sap_orders_api.Server.{create_order, serve}
use sap_orders_api.Server.Access.{ReadsOnly, serve-ReadsOnly}
use sap_orders_api.Tests.{item_ten, day}

can_transition_to-Allowed_example :
    (can_transition_to in_progress closed (item_ten ∷ []) ≡ none)
    ↔ Allowed (item_ten ∷ []) in_progress closed
can_transition_to-Allowed_example = can_transition_to-Allowed in_progress closed (item_ten ∷ [])

day-IsDate : IsDate day
unfolding days_in
day-IsDate = record {
  year = omega arith;
  month_from = omega arith;
  month_to = omega arith;
  day_from = omega arith;
  day_to = omega arith;
}

build_demand_update_xml-Carries_example : Carries "PO-1" item_ten
build_demand_update_xml-Carries_example = build_demand_update_xml-Carries "PO-1" item_ten day-IsDate

is_delivery_date_in_past-day_number_example :
    (is_delivery_date_in_past 64060000000000000 day ≡ true)
    ↔ (day_number day < 64060000000000000 / day_length)
is_delivery_date_in_past-day_number_example =
    is_delivery_date_in_past-day_number 64060000000000000 day

total_pages_of-ceiling_example :
    (n : ℕ) × (total_pages_of (pos 20) (pos 41) ≡ pos n) × (41 ≤ 20 * n) × (20 * n < 41 + 20)
total_pages_of-ceiling_example =
    total_pages_of-ceiling 20 41 (omega arith) (omega arith) (omega arith)

abbrev wrapped : Error
wrapped = wrap "update order: " (sentinel order_closed) ""

handle_error-answer_by_root_example :
    handle_error wrapped ≡ answer_by_root (message wrapped) (root wrapped)
handle_error-answer_by_root_example = handle_error-answer_by_root wrapped

abbrev pub codec : Codec
codec = record {
  parse_uuid = λ s. some 1;
  decode_create_order = λ b. if b.cut then none else some (record { order_number = "PO-2" });
  decode_update_order = λ s. none;
  decode_create_item = λ s. none;
  decode_update_item = λ s. none;
}

abbrev pub request : Request
request = record {
  url_param = λ s. "1";
  query = λ s. "";
  body = record { bytes = 1 ∷ 2 ∷ []; cut = false };
}

abbrev pub reader : UserClaims
reader = record {
  subject = "ana";
  email = "ana@example.com";
  roles = role_orders_reader ∷ [];
  scopes = "profile" ∷ [];
}

reader_no_write : has_scope reader scope_orders_write ≡ false
unfolding has_scope
reader_no_write = refl

serve-ReadsOnly_example :
    ReadsOnly (serve codec "Z_UPDATE_DEMAND" (known reader) create_order request)
serve-ReadsOnly_example =
    serve-ReadsOnly codec "Z_UPDATE_DEMAND" reader request reader_no_write create_order
