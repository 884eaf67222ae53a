-- ===== src/Handler/Params.antt =====
-- What the handlers read of a request: internal/handler/query.go, the path's parameters and the
-- body. uuid.Parse and the decoding of a JSON body are parameters, in Codec.
use sap_orders_api.Prelude.{
  ℕ, ◌+◌, ◌-◌, ◌*◌, Bool, ◌&&◌, Option, none, some, List, [], ◌∷◌, String, str_eq, leb, ◌==◌,
  if◌then◌else◌,
}
use sap_orders_api.Prelude.Int.{ℤ, pos, negsuc, ltz, two_63}
use sap_orders_api.Domain.Types.{
  Uuid, CreateOrderInput, UpdateOrderInput, CreateOrderItemInput, UpdateOrderItemInput,
}
use sap_orders_api.Domain.Dates.{codes}
use sap_orders_api.Store.Monad.{World}
use sap_orders_api.Handler.Response.{Response, write_error}

-- The body of a request: the bytes that can be read of it, and whether reading on is an error.
pub record Reader : Type 0 where
  pub bytes : List ℕ
  pub cut : Bool

-- Code that is not in the repository: uuid.Parse and what json.Decoder makes of a body, none being
-- an error.
pub record Codec : Type 0 where
  pub parse_uuid : String → Option Uuid
  pub decode_create_order : Reader → Option CreateOrderInput
  pub decode_update_order : Reader → Option UpdateOrderInput
  pub decode_create_item : Reader → Option CreateOrderItemInput
  pub decode_update_item : Reader → Option UpdateOrderItemInput

-- `url_param` and `query` answer "" for a name that is not there.
pub record Request : Type 0 where
  pub url_param : String → String
  pub query : String → String
  pub body : Reader

abbrev is_digit : ℕ → Bool
is_digit c = leb b'0' c && leb c b'9'

-- the value of a run of decimal digits, with the digits read so far
unfoldable pub digits_value : ℕ → List ℕ → Option ℕ
digits_value n [] = some n
digits_value n (c ∷ cs) =
    let rest = digits_value (10 * n + (c - b'0')) cs in if is_digit c then rest else none

unfoldable pub number : List ℕ → Option ℕ
unfolding digits_value
number [] = none
number (c ∷ cs) = digits_value 0 (c ∷ cs)

abbrev up_to : ℕ → Option ℕ → Option ℕ
up_to bound none = none
up_to bound (some n) = if leb n bound then some n else none

abbrev as_positive : Option ℕ → Option ℤ
as_positive none = none
as_positive (some n) = some (pos n)

abbrev as_negative : Option ℕ → Option ℤ
as_negative none = none
as_negative (some n) = if n == 0 then some (pos 0) else some (negsuc (n - 1))

-- strconv.Atoi for a 64-bit int
unfoldable pub atoi : List ℕ → Option ℤ
unfolding number
atoi [] = none
atoi (c ∷ cs) =
    if c == b'-'
    then as_negative (up_to two_63 (number cs))
    else if c == b'+'
    then as_positive (up_to (two_63 - 1) (number cs))
    else as_positive (up_to (two_63 - 1) (number (c ∷ cs)))

abbrev or_fallback : ℤ → Option ℤ → ℤ
or_fallback fallback none = fallback
or_fallback fallback (some value) = if ltz value (pos 1) then fallback else value

unfoldable pub query_int : Request → String → ℤ → ℤ
unfolding atoi
query_int r key fallback =
    let raw = r.query key in
    if str_eq raw "" then fallback else or_fallback fallback (atoi (codes raw))

-- A handler's answer, and the world after it.
abbrev pub Answer : Type 0
Answer = World → Response × World

-- `if err != nil { writeError(w, http.StatusBadRequest, what); return }`
abbrev pub or_bad_request : {A : Type 0} → String → Option A → (A → Answer) → Answer
or_bad_request what none k w = (write_error 400 what, w)
or_bad_request what (some a) k w = k a w

abbrev pub order_id : Codec → Request → (Uuid → Answer) → Answer
order_id codec r k = or_bad_request "invalid order id" (codec.parse_uuid (r.url_param "id")) k

abbrev pub item_id : Codec → Request → (Uuid → Answer) → Answer
item_id codec r k = or_bad_request "invalid item id" (codec.parse_uuid (r.url_param "itemId")) k

abbrev pub outbox_id : Codec → Request → (Uuid → Answer) → Answer
outbox_id codec r k =
    or_bad_request "invalid outbox id" (codec.parse_uuid (r.url_param "outboxId")) k

abbrev pub decoded : {A : Type 0} → Option A → (A → Answer) → Answer
decoded input k = or_bad_request "invalid request body" input k
