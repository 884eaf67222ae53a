-- ===== src/Domain/Status.antt =====
-- internal/domain/status_rules.go: which statuses are valid, which moves an order may make, when
-- an item can be sent, when an edit makes it UPDATED again.
use sap_orders_api.Prelude.{
  Bool, true, false, not, ◌&&◌, Option, none, some, List, [], ◌∷◌, is_empty, str_eq, if◌then◌else◌,
}
use sap_orders_api.Domain.Errors.{
  Error, sentinel, invalid_order_status, order_closed, invalid_status_transition,
}
use sap_orders_api.Domain.Types.{
  OrderStatus, ItemStatus, OrderItem, opened, in_progress, closed, updated, synced,
}

-- `s == t` on the string types
abbrev pub same_order_status : OrderStatus → OrderStatus → Bool
same_order_status opened opened = true
same_order_status in_progress in_progress = true
same_order_status closed closed = true
same_order_status (OrderStatus.unknown s) (OrderStatus.unknown t) = str_eq s t
same_order_status _ _ = false

abbrev pub order_status_is_valid : OrderStatus → Bool
order_status_is_valid (OrderStatus.unknown s) = false
order_status_is_valid _ = true

abbrev pub item_status_is_valid : ItemStatus → Bool
item_status_is_valid (ItemStatus.unknown s) = false
item_status_is_valid _ = true

abbrev is_closed : OrderStatus → Bool
is_closed closed = true
is_closed _ = false

abbrev pub is_terminal : ItemStatus → Bool
is_terminal synced = true
is_terminal ItemStatus.failed = true
is_terminal _ = false

-- the loop of AllItemsTerminal
unfoldable pub every_terminal : List OrderItem → Bool
every_terminal [] = true
every_terminal (item ∷ items) = is_terminal item.status && every_terminal items

unfoldable pub all_items_terminal : List OrderItem → Bool
unfolding every_terminal
all_items_terminal items = if is_empty items then false else every_terminal items

-- the `switch` of CanTransitionTo and the return below it
unfoldable pub switch_status : OrderStatus → OrderStatus → List OrderItem → Option Error
unfolding all_items_terminal
switch_status opened next items =
    if same_order_status next in_progress && not (is_empty items)
    then none
    else some (sentinel invalid_status_transition)
switch_status in_progress next items =
    if same_order_status next closed && all_items_terminal items
    then none
    else some (sentinel invalid_status_transition)
switch_status _ next items = some (sentinel invalid_status_transition)

-- `none` is the nil error.
unfoldable pub can_transition_to : OrderStatus → OrderStatus → List OrderItem → Option Error
unfolding switch_status
can_transition_to s next items =
    if not (order_status_is_valid next)
    then some (sentinel invalid_order_status)
    else if same_order_status s next
    then none
    else if is_closed s
    then some (sentinel order_closed)
    else switch_status s next items

abbrev pub can_sync : ItemStatus → Bool
can_sync updated = true
can_sync ItemStatus.failed = true
can_sync _ = false

abbrev pub should_promote_on_edit : ItemStatus → Bool
should_promote_on_edit ItemStatus.pending = true
should_promote_on_edit synced = true
should_promote_on_edit ItemStatus.failed = true
should_promote_on_edit _ = false
