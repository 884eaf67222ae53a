-- ===== src/Domain/Dates/Past.antt =====
-- IsDeliveryDateInPast of internal/domain/status_rules.go, by whole days.
use sap_orders_api.Prelude.{ℕ, ◌-◌, ◌*◌, ◌/◌, ◌%◌, ◌<◌, ◌≡◌, ◌↔◌, true, arith, ltb→lt, lt→ltb}
use sap_orders_api.Domain.Types.{Time, Date}
use sap_orders_api.Domain.Dates.{day_length, day_number, is_delivery_date_in_past}

-- A delivery date is in the past exactly if its day comes before the day of the clock, in UTC: a
-- date is good for the whole of its own day.
pub is_delivery_date_in_past-day_number :
    (now : Time) (date : Date)
    → (is_delivery_date_in_past now date ≡ true) ↔ (day_number date < now / day_length)
unfolding is_delivery_date_in_past
is_delivery_date_in_past-day_number now date =
    (λ h. earlier (day_number date) (ltb→lt _ _ h), λ h. lt→ltb _ _ (later (day_number date) h))
  where
    earlier : (d : ℕ) → day_length * d < now - now % day_length → d < now / day_length
    earlier d h = omega (arith, h)

    later : (d : ℕ) → d < now / day_length → day_length * d < now - now % day_length
    later d h = omega (arith, h)
