-- ===== src/Handler/BodyLimit.antt =====
-- internal/handler/body_limit.go, with http.MaxBytesReader: past the limit reading is an error.
use sap_orders_api.Prelude.{ℕ, true, length, take, ltb, if◌then◌else◌}
use sap_orders_api.Prelude.Int.{ℤ, pos, ltz, pos_part}
use sap_orders_api.Handler.Params.{Reader}

unfoldable pub max_bytes_reader : ℕ → Reader → Reader
max_bytes_reader n body =
    if ltb n (length body.bytes) then record { bytes = take n body.bytes; cut = true } else body

unfoldable pub max_body_bytes : ℤ → Reader → Reader
unfolding max_bytes_reader
max_body_bytes limit body =
    if ltz (pos 0) limit then max_bytes_reader (pos_part limit) body else body
