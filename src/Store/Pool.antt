-- ===== src/Store/Pool.antt =====
-- internal/repository/db.go. The driver's pool is a parameter: whether it can be made for an address,
-- and what a ping of it answers.
use sap_orders_api.Prelude.{Option, none, some, String}
use sap_orders_api.Domain.Errors.{Error, wrap}

pub record Driver : Type 0 where
  pub new : String → Option Error
  pub ping : String → Option Error

-- `closed e`: a pool was made, and is closed again before the error is returned.
pub data Pool : Type 0 where
  opened : Pool
  not_made : Error → Pool
  closed : Error → Pool

abbrev pub pinged : Option Error → Pool
pinged none = opened
pinged (some e) = closed (wrap "ping database: " e "")

abbrev pub made : Option Error → Option Error → Pool
made (some e) ping = not_made (wrap "connect to database: " e "")
made none ping = pinged ping

unfoldable pub new_pool : Driver → String → Pool
new_pool driver database_url = made (driver.new database_url) (driver.ping database_url)
