-- ===== src/Tests/Runs.antt =====
-- Runs of the definitions on concrete inputs.
use sap_orders_api.Prelude.{◌≡◌, refl, none, some, [], ◌∷◌}
use sap_orders_api.Prelude.Int.{pos, negsuc}
use sap_orders_api.Domain.Dates.{
  parse_date, parse_codes, check_date, days_in, format_date, day_number, days_of_months,
}
use sap_orders_api.Domain.Paging.{total_pages_of}
use sap_orders_api.Handler.Params.{atoi, number, digits_value}
use sap_orders_api.Domain.Dates.{codes}
use sap_orders_api.Auth.Token.{
  Extracted, bearer_of, extract_bearer_token, split_space, equal_fold, same_codes, parse_scopes,
  split_words,
}
use sap_orders_api.Sap.{build_demand_update_xml, escape}
use sap_orders_api.Tests.{item_ten, day}

parse_leap_day : parse_date "2024-02-29" ≡ some (record { year = 2024; month = 2; day = 29 })
unfolding parse_date parse_codes check_date days_in
parse_leap_day = refl

parse_no_leap_day : parse_date "2023-02-29" ≡ none
unfolding parse_date parse_codes check_date days_in
parse_no_leap_day = refl

parse_no_digit : parse_date "2023-0x-09" ≡ none
unfolding parse_date parse_codes check_date days_in
parse_no_digit = refl

format_day : format_date day ≡ "2030-02-28"
unfolding format_date
format_day = refl

epoch_day : day_number (record { year = 1970; month = 1; day = 1 }) ≡ 719528
unfolding day_number days_of_months days_in
epoch_day = refl

pages : total_pages_of (pos 20) (pos 41) ≡ pos 3
unfolding total_pages_of
pages = refl

atoi_signed : atoi (codes "-12") ≡ some (negsuc 11)
unfolding atoi number digits_value
atoi_signed = refl

atoi_too_large : atoi (codes "9223372036854775808") ≡ none
unfolding atoi number digits_value
atoi_too_large = refl

bearer : extract_bearer_token "bearer abc def" ≡ Extracted.bearer "abc def"
unfolding extract_bearer_token split_space bearer_of equal_fold same_codes
bearer = refl

no_bearer : extract_bearer_token "Basic abc" ≡ Extracted.no_bearer "invalid authorization header"
unfolding extract_bearer_token split_space bearer_of equal_fold same_codes
no_bearer = refl

scopes : parse_scopes " orders.read  orders.write " ≡ "orders.read" ∷ "orders.write" ∷ []
unfolding parse_scopes split_words
scopes = refl

payload :
    build_demand_update_xml "PO-1" item_ten
    ≡ "<?xml version=\"1.0\" encoding=\"UTF-8\"?>\n<DemandUpdate xmlns=\"urn:sap:demand:update\">\n  <OrderNumber>PO-1</OrderNumber>\n  <Item>\n    <DemandCode>D&lt;1&gt;</DemandCode>\n    <Description>steel</Description>\n    <DeliveryDate>2030-02-28</DeliveryDate>\n    <Status>UPDATED</Status>\n  </Item>\n</DemandUpdate>"
unfolding build_demand_update_xml escape format_date
payload = refl
