-- ===== src/Domain/Dates.antt =====
-- The use of package time: time.Parse and Format with DateOnly, and IsDeliveryDateInPast of
-- internal/domain/status_rules.go. Years have four digits, as DateOnly reads them.
pub mod RoundTrip
pub mod Past
use Prim.Native.Char.{Char, code}
use Prim.Native.String
use sap_orders_api.Prelude.{
  ℕ, zero, suc, ◌+◌, ◌-◌, ◌*◌, ◌/◌, ◌%◌, Bool, ◌&&◌, ◌||◌, Option, none, some, List, [], ◌∷◌,
  String, ltb, leb, ◌==◌, if◌then◌else◌, not,
}
use sap_orders_api.Domain.Types.{Time, Date}

abbrev pub day_length : ℕ
day_length = 86400000000

abbrev pub is_leap : ℕ → Bool
is_leap y = (y % 4 == 0) && (not (y % 100 == 0) || (y % 400 == 0))

-- time.daysIn
unfoldable pub days_in : ℕ → ℕ → ℕ
days_in y m =
    if m == 2
    then (if is_leap y then 29 else 28)
    else if (m == 4) || (m == 6) || (m == 9) || (m == 11)
    then 30
    else 31

-- the days of the first m months of the year y
unfoldable pub days_of_months : ℕ → ℕ → ℕ
unfolding days_in
days_of_months y zero = 0
days_of_months y (suc m) = days_of_months y m + days_in y (suc m)

-- the days before the year y, from the start of the year 0
abbrev pub days_of_years : ℕ → ℕ
days_of_years y = 365 * y + (y + 3) / 4 + (y + 399) / 400 - (y + 99) / 100

-- the day of a date, counted from the start of the year 0
unfoldable pub day_number : Date → ℕ
unfolding days_of_months
day_number d = days_of_years d.year + days_of_months d.year (d.month - 1) + (d.day - 1)

-- IsDeliveryDateInPast; `now` is time.Now().
unfoldable pub is_delivery_date_in_past : Time → Date → Bool
unfolding day_number
is_delivery_date_in_past now date =
    let d = day_length * day_number date in let today = now - now % day_length in ltb d today

abbrev pub is_digit : ℕ → Bool
is_digit c = leb b'0' c && leb c b'9'

abbrev digit_value : ℕ → ℕ
digit_value c = c - b'0'

abbrev pub codes : String → List ℕ
codes String.[] = []
codes (String.◌∷◌ c s) = code c ∷ codes s

-- the range checks at the end of time.Parse
unfoldable pub check_date : ℕ → ℕ → ℕ → Option Date
unfolding days_in
check_date y m d =
    if leb 1 m && leb m 12 && leb 1 d && leb d (days_in y m)
    then some (record { year = y; month = m; day = d })
    else none

-- time.Parse(time.DateOnly, value), by the codes of the value
unfoldable pub parse_codes : List ℕ → Option Date
unfolding check_date
parse_codes (a ∷ b ∷ c ∷ d ∷ p ∷ e ∷ f ∷ q ∷ g ∷ h ∷ []) =
    if is_digit a
      && is_digit b
      && is_digit c
      && is_digit d
      && (p == b'-')
      && is_digit e
      && is_digit f
      && (q == b'-')
      && is_digit g
      && is_digit h
    then check_date
        (1000 * digit_value a + 100 * digit_value b + 10 * digit_value c + digit_value d)
        (10 * digit_value e + digit_value f) (10 * digit_value g + digit_value h)
    else none
parse_codes _ = none

unfoldable pub parse_date : String → Option Date
unfolding parse_codes
parse_date value = parse_codes (codes value)

abbrev pub digit : ℕ → Char
digit n =
    if n == 0
    then "0"
    else if n == 1
    then "1"
    else if n == 2
    then "2"
    else if n == 3
    then "3"
    else if n == 4
    then "4"
    else if n == 5
    then "5"
    else if n == 6
    then "6"
    else if n == 7
    then "7"
    else if n == 8
    then "8"
    else "9"

-- date.Format(time.DateOnly)
unfoldable pub format_date : Date → String
format_date d = String.◌∷◌ (digit (d.year / 1000 % 10)) (
    String.◌∷◌ (digit (d.year / 100 % 10)) (
      String.◌∷◌ (digit (d.year / 10 % 10)) (
        String.◌∷◌ (digit (d.year % 10)) (
          String.◌∷◌ "-" (
            String.◌∷◌ (digit (d.month / 10)) (
              String.◌∷◌ (digit (d.month % 10)) (
                String.◌∷◌ "-"
                  (String.◌∷◌ (digit (d.day / 10)) (String.◌∷◌ (digit (d.day % 10)) "")))))))))
