-- ===== src/Handler/Errors.antt =====
-- What HandleError of internal/handler/response.go answers, by the error that is wrapped.
use sap_orders_api.Prelude.{
  ◌≡◌, refl, ap, ◌∙◌, Bool, false, Option, none, some, String, ◌||◌, if◌then◌else◌,
}
use mathlib.Core.Path.{fun_ext}
use sap_orders_api.Domain.Errors
use sap_orders_api.Domain.Errors.{Error, Sentinel, sentinel, wrap, external, message, is, root}
use sap_orders_api.Handler.Response.{Response, write_error, handle_error}

-- Who is to blame for an error.
pub data Blame : Type 0 where
  missing request state sap : Blame

unfoldable pub blame : Sentinel → Blame
blame Errors.not_found = missing
blame Errors.sap_sync_failed = sap
blame Errors.sync_not_cancellable = state
blame Errors.order_closed = state
blame Errors.invalid_status_transition = state
blame Errors.sync_already_active = state
blame _ = request

-- The answer by the blame, m being the error's own text.
unfoldable pub answer_to : String → Blame → Response
answer_to m missing = write_error 404 "resource not found"
answer_to m request = write_error 400 m
answer_to m state = write_error 409 m
answer_to m sap = write_error 502 "sap sync failed"

abbrev pub answer_by_root : String → Option Sentinel → Response
answer_by_root m none = write_error 500 "internal server error"
answer_by_root m (some s) = answer_to m (blame s)

-- whether an error with this root is the target
is_root : Option Sentinel → Sentinel → Bool
is_root none target = false
is_root (some s) target = Errors.same s target

is-is_root : (e : Error) (target : Sentinel) → is e target ≡ is_root (root e) target
unfolding root is_root
is-is_root (sentinel s) target = refl
is-is_root (wrap before e after) target = is-is_root e target
is-is_root (external m) target = refl

-- HandleError, by the answers to its tests
handle_by : (Sentinel → Bool) → String → Response
handle_by is m =
    if is Errors.not_found
    then write_error 404 "resource not found"
    else if is Errors.order_number_required
        || is Errors.status_required
        || is Errors.item_fields_required
        || is Errors.invalid_delivery_date
        || is Errors.invalid_order_status
        || is Errors.invalid_item_status
        || is Errors.item_status_immutable
        || is Errors.item_not_syncable
        || is Errors.delivery_date_in_past
        || is Errors.validation
    then write_error 400 m
    else if is Errors.order_closed
        || is Errors.invalid_status_transition
        || is Errors.sync_not_cancellable
        || is Errors.sync_already_active
    then write_error 409 m
    else if is Errors.sap_sync_failed
    then write_error 502 "sap sync failed"
    else write_error 500 "internal server error"

by_root : (m : String) (o : Option Sentinel) → handle_by (is_root o) m ≡ answer_by_root m o
unfolding is_root handle_by answer_to blame
by_root m none = refl
by_root m (some Errors.not_found) = refl
by_root m (some Errors.validation) = refl
by_root m (some Errors.sap_sync_failed) = refl
by_root m (some Errors.order_number_required) = refl
by_root m (some Errors.status_required) = refl
by_root m (some Errors.item_fields_required) = refl
by_root m (some Errors.invalid_delivery_date) = refl
by_root m (some Errors.sync_not_cancellable) = refl
by_root m (some Errors.order_closed) = refl
by_root m (some Errors.invalid_status_transition) = refl
by_root m (some Errors.invalid_order_status) = refl
by_root m (some Errors.invalid_item_status) = refl
by_root m (some Errors.item_status_immutable) = refl
by_root m (some Errors.item_not_syncable) = refl
by_root m (some Errors.sync_already_active) = refl
by_root m (some Errors.delivery_date_in_past) = refl

-- HandleError answers by the sentinel that the error wraps, however deep: 404 for a missing
-- resource, 400 for a bad request, 409 for a conflict with the state, 502 for a failed call of SAP,
-- with the error's own text for 400 and 409 only; an error without a sentinel is answered by 500
-- and a fixed text.
pub handle_error-answer_by_root : (e : Error) → handle_error e ≡ answer_by_root (message e) (root e)
unfolding handle_error handle_by
handle_error-answer_by_root e =
    ap (λ f. handle_by f (message e)) (fun_ext (is-is_root e)) ∙ by_root (message e) (root e)
