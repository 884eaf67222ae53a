-- ===== src/Domain/Dates/RoundTrip.antt =====
-- A delivery date that is written to SAP's payload reads back as itself.
use Prim.Native.Char.{code}
use sap_orders_api.Prelude.{
  ℕ, zero, suc, ◌+◌, ◌*◌, ◌/◌, ◌%◌, ◌≤◌, ◌<◌, ◌≡◌, refl, ap, sym, ◌∙◌, map, true, some, List, [],
  ◌∷◌, leb, arith,
}
use sap_orders_api.Domain.Types.{Date}
use sap_orders_api.Domain.Dates.{
  codes, is_digit, digit_value, digit, days_in, check_date, parse_codes, parse_date, format_date,
}

abbrev pub digit_code : ℕ → ℕ
digit_code n = b'0' + n

code-digit : (n : ℕ) → n < 10 → code (digit n) ≡ digit_code n
code-digit zero h = refl
code-digit (suc zero) h = refl
code-digit (suc (suc zero)) h = refl
code-digit (suc (suc (suc zero))) h = refl
code-digit (suc (suc (suc (suc zero)))) h = refl
code-digit (suc (suc (suc (suc (suc zero))))) h = refl
code-digit (suc (suc (suc (suc (suc (suc zero)))))) h = refl
code-digit (suc (suc (suc (suc (suc (suc (suc zero))))))) h = refl
code-digit (suc (suc (suc (suc (suc (suc (suc (suc zero)))))))) h = refl
code-digit (suc (suc (suc (suc (suc (suc (suc (suc (suc zero))))))))) h = refl
code-digit (suc (suc (suc (suc (suc (suc (suc (suc (suc (suc n)))))))))) h =
    absurd (omega (arith, h))

-- the ten codes of a date with the given digits
abbrev date_codes : ℕ → ℕ → ℕ → ℕ → ℕ → ℕ → ℕ → ℕ → List ℕ
date_codes a b c d e f g h =
    digit_code a
    ∷ digit_code b
    ∷ digit_code c
    ∷ digit_code d
    ∷ b'-'
    ∷ digit_code e
    ∷ digit_code f
    ∷ b'-'
    ∷ digit_code g
    ∷ digit_code h
    ∷ []

format_date-codes :
    (x : Date)
    → x.year < 10000
    → x.month < 100
    → x.day < 100
    → codes (format_date x)
      ≡ date_codes
          (x.year / 1000 % 10)
          (x.year / 100 % 10)
          (x.year / 10 % 10)
          (x.year % 10)
          (x.month / 10)
          (x.month % 10)
          (x.day / 10)
          (x.day % 10)
unfolding format_date
format_date-codes x y m d = rw (code-digit (x.year / 1000 % 10) (omega arith)) (
    rw (code-digit (x.year / 100 % 10) (omega arith)) (
      rw (code-digit (x.year / 10 % 10) (omega arith)) (
        rw (code-digit (x.year % 10) (omega arith)) (
          rw (code-digit (x.month / 10) (omega (arith, m))) (
            rw (code-digit (x.month % 10) (omega arith)) (
              rw (code-digit (x.day / 10) (omega (arith, d)))
                (rw (code-digit (x.day % 10) (omega arith)) refl)))))))

is_digit-digit_code : (n : ℕ) → n < 10 → is_digit (digit_code n) ≡ true
is_digit-digit_code n h = ground arith

value-code : (n : ℕ) → digit_value (digit_code n) ≡ n
value-code n = omega arith

parse_codes-date_codes :
    (a b c d e f g h : ℕ)
    → (a < 10) × (b < 10) × (c < 10) × (d < 10) × (e < 10) × (f < 10) × (g < 10) × (h < 10)
    → parse_codes (date_codes a b c d e f g h)
      ≡ check_date (1000 * a + 100 * b + 10 * c + d) (10 * e + f) (10 * g + h)
unfolding parse_codes
parse_codes-date_codes a b c d e f g h (pa, pb, pc, pd, pe, pf, pg, ph) =
    rw (is_digit-digit_code a pa) (
      rw (is_digit-digit_code b pb) (
        rw (is_digit-digit_code c pc) (
          rw (is_digit-digit_code d pd) (
            rw (is_digit-digit_code e pe) (
              rw (is_digit-digit_code f pf) (
                rw (is_digit-digit_code g pg) (
                  rw (is_digit-digit_code h ph) (
                    rw (value-code a) (
                      rw (value-code b) (
                        rw (value-code c) (
                          rw (value-code d) (
                            rw (value-code e) (
                              rw (value-code f)
                                (rw (value-code g) (rw (value-code h) refl)))))))))))))))

-- A day of the calendar, in a year of at most four digits.
pub record IsDate (x : Date) : Type 0 where
  pub year : x.year < 10000
  pub month_from : 1 ≤ x.month
  pub month_to : x.month ≤ 12
  pub day_from : 1 ≤ x.day
  pub day_to : x.day ≤ days_in x.year x.month

days_in-bound : (y m : ℕ) → days_in y m ≤ 31
unfolding days_in
days_in-bound y m = ground arith

check_date-IsDate : (x : Date) → IsDate x → check_date x.year x.month x.day ≡ some x
unfolding check_date
check_date-IsDate x v = rw (within 1 x.month v.month_from) (
    rw (within x.month 12 v.month_to)
      (rw (within 1 x.day v.day_from) (rw (within x.day (days_in x.year x.month) v.day_to) refl)))
  where
    within : (a b : ℕ) → a ≤ b → leb a b ≡ true
    within a b h = ground arith

year_digits :
    (y : ℕ)
    → y < 10000
    → 1000 * (y / 1000 % 10) + 100 * (y / 100 % 10) + 10 * (y / 10 % 10) + y % 10 ≡ y
year_digits y h = omega (arith, h)

two_digits : (n : ℕ) → 10 * (n / 10) + n % 10 ≡ n
two_digits n = omega arith

month_bound : (x : Date) → IsDate x → x.month < 100
month_bound x v = omega (arith, v.month_to)

day_bound : (x : Date) → IsDate x → x.day < 100
day_bound x v = omega (arith, v.day_to, days_in-bound x.year x.month)

-- a function that keeps the digits and the dash keeps a date
pub format_date-kept :
    (f : ℕ → ℕ)
    → ((n : ℕ) → n < 10 → f (digit_code n) ≡ digit_code n)
    → f b'-' ≡ b'-'
    → (x : Date) → IsDate x
    → map f (codes (format_date x)) ≡ codes (format_date x)
format_date-kept f digits dash x v =
    let is = format_date-codes x v.year (month_bound x v) (day_bound x v) in
    ap (map f) is
    ∙ kept (x.year / 1000 % 10) (x.year / 100 % 10) (x.year / 10 % 10) (x.year % 10) (x.month / 10)
        (x.month % 10) (x.day / 10) (x.day % 10) (omega arith) (omega arith) (omega arith)
        (omega arith) (omega (arith, month_bound x v)) (omega arith) (omega (arith, day_bound x v))
        (omega arith)
    ∙ sym is
  where
    kept :
        (a b c d e g h i : ℕ)
        → a < 10
        → b < 10
        → c < 10
        → d < 10
        → e < 10
        → g < 10
        → h < 10
        → i < 10
        → map f (date_codes a b c d e g h i) ≡ date_codes a b c d e g h i
    kept a b c d e g h i pa pb pc pd pe pg ph pi =
        ap9 (digits a pa) (digits b pb) (digits c pc) (digits d pd) (digits e pe) (digits g pg)
          (digits h ph) (digits i pi)
      where
        ap9 :
            {a' b' c' d' e' g' h' i' : ℕ} {a b c d e g h i : ℕ}
            → a' ≡ a
            → b' ≡ b
            → c' ≡ c
            → d' ≡ d
            → e' ≡ e
            → g' ≡ g
            → h' ≡ h
            → i' ≡ i
            → (a' ∷ b' ∷ c' ∷ d' ∷ f b'-' ∷ e' ∷ g' ∷ f b'-' ∷ h' ∷ i' ∷ [])
              ≡ (a ∷ b ∷ c ∷ d ∷ b'-' ∷ e ∷ g ∷ b'-' ∷ h ∷ i ∷ [])
        ap9 p q r s t u v w = cc

-- What format_date writes for a day of the calendar, in a year of at most four digits, is read back
-- by time.Parse as that day.
pub parse_date-format_date : (x : Date) → IsDate x → parse_date (format_date x) ≡ some x
unfolding parse_date
parse_date-format_date x v =
    ap parse_codes (format_date-codes x v.year (month_bound x v) (day_bound x v))
    ∙ parse_codes-date_codes (x.year / 1000 % 10) (x.year / 100 % 10) (x.year / 10 % 10)
        (x.year % 10) (x.month / 10) (x.month % 10) (x.day / 10) (x.day % 10)
        (
          omega arith,
          omega arith,
          omega arith,
          omega arith,
          omega (arith, (month_bound x v)),
          omega arith,
          omega (arith, (day_bound x v)),
          omega arith,
        )
    ∙ rw (year_digits x.year v.year)
        (rw (two_digits x.month) (rw (two_digits x.day) (check_date-IsDate x v)))
