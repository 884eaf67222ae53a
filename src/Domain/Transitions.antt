-- ===== src/Domain/Transitions.antt =====
-- The moves of an order's status that CanTransitionTo of internal/domain/status_rules.go allows.
use sap_orders_api.Prelude.{
  ◌≡◌, refl, ◌↔◌, inl, inr, Bool, true, false, ◌&&◌, none, some, List, [], ◌∷◌, Memᴰ, is_empty,
  arith, Bool-cases,
}
use sap_orders_api.Domain.Errors.{sentinel, invalid_status_transition}
use sap_orders_api.Domain.Types.{OrderStatus, OrderItem, opened, in_progress, closed}
use sap_orders_api.Domain.Status.{
  order_status_is_valid, is_terminal, every_terminal, all_items_terminal, switch_status,
  can_transition_to,
}

-- An order may stay in a valid status, start once it has an item, and close once each of its items
-- is SYNCED or FAILED and it has one.
pub data Allowed (items : List OrderItem) : OrderStatus → OrderStatus → Type 0 where
  same : (s : OrderStatus) → order_status_is_valid s ≡ true → Allowed items s s
  starts : is_empty items ≡ false → Allowed items opened in_progress
  closes :
      is_empty items ≡ false
      → ((i : OrderItem) → Memᴰ i items → is_terminal i.status ≡ true)
      → Allowed items in_progress closed

every_terminal-all :
    (items : List OrderItem)
    → every_terminal items ≡ true
    → (i : OrderItem) → Memᴰ i items
    → is_terminal i.status ≡ true
unfolding every_terminal
every_terminal-all [] h i m = elim m [ ]
every_terminal-all (x ∷ xs) h i (Memᴰ.head e) = rw e (left _ _ h)
  where
    left : (a b : Bool) → (a && b) ≡ true → a ≡ true
    left a b h = ground arith
every_terminal-all (x ∷ xs) h i (Memᴰ.tail m) = every_terminal-all xs (right _ _ h) i m
  where
    right : (a b : Bool) → (a && b) ≡ true → b ≡ true
    right a b h = ground arith

all-every_terminal :
    (items : List OrderItem)
    → ((i : OrderItem) → Memᴰ i items → is_terminal i.status ≡ true)
    → every_terminal items ≡ true
unfolding every_terminal
all-every_terminal [] h = refl
all-every_terminal (x ∷ xs) h =
    rw (h x (Memᴰ.head refl)) (all-every_terminal xs (λ i m. h i (Memᴰ.tail m)))

sound :
    (s next : OrderStatus) (items : List OrderItem)
    → can_transition_to s next items ≡ none
    → Allowed items s next
unfolding can_transition_to switch_status all_items_terminal
sound opened opened items h = same opened refl
sound opened in_progress [] h = cc
sound opened in_progress (x ∷ xs) h = starts refl
sound opened closed items h = cc
sound opened (OrderStatus.unknown t) items h = cc
sound in_progress opened items h = cc
sound in_progress in_progress items h = same in_progress refl
sound in_progress closed [] h = cc
sound in_progress closed (x ∷ xs) h = elim (Bool-cases (every_terminal (x ∷ xs))) [
  | inl e ↦ closes refl (every_terminal-all (x ∷ xs) e)
  | inr e ↦ absurd (refused (rw e at h))
]
  where
    refused : (some (sentinel invalid_status_transition) ≡ none) → ⊥
    refused e = cc
sound in_progress (OrderStatus.unknown t) items h = cc
sound closed opened items h = cc
sound closed in_progress items h = cc
sound closed closed items h = same closed refl
sound closed (OrderStatus.unknown t) items h = cc
sound (OrderStatus.unknown s) opened items h = cc
sound (OrderStatus.unknown s) in_progress items h = cc
sound (OrderStatus.unknown s) closed items h = cc
sound (OrderStatus.unknown s) (OrderStatus.unknown t) items h = cc

complete :
    (s next : OrderStatus) (items : List OrderItem)
    → Allowed items s next
    → can_transition_to s next items ≡ none
unfolding can_transition_to switch_status all_items_terminal
complete opened _ items (same _ v) = refl
complete in_progress _ items (same _ v) = refl
complete closed _ items (same _ v) = refl
complete (OrderStatus.unknown s) _ items (same _ v) = cc
complete _ _ items (starts e) = rw e refl
complete _ _ items (closes e h) = rw e (rw (all-every_terminal items h) refl)

-- CanTransitionTo returns no error exactly for the allowed moves: to stay in a valid status, from
-- OPEN to IN_PROGRESS with an item, from IN_PROGRESS to CLOSED with an item and every item SYNCED
-- or FAILED.
pub can_transition_to-Allowed :
    (s next : OrderStatus) (items : List OrderItem)
    → (can_transition_to s next items ≡ none) ↔ Allowed items s next
can_transition_to-Allowed s next items = (sound s next items, complete s next items)
