-- ===== src/Server/Duplicates.antt =====
-- What is answered to a request that a UNIQUE constraint of migrations/ refuses.
use sap_orders_api.Prelude.{
  ◌≡◌, refl, sym, ap, subst, ◌∙◌, Bool, true, false, ◌||◌, Option, none, List, [], ◌∷◌, String,
  str_eq, any, ◌==◌, if◌then◌else◌, arith,
}
use sap_orders_api.Domain.Errors.{Error, root, wrap, order_number_required}
use sap_orders_api.Domain.Types.{Uuid, Time, Order, OrderRow, CreateOrderInput}
use sap_orders_api.Store.Monad.{
  Db, Fault, fine, refused, unanswered, World, Result, ok, err, ◌>>=◌, query_row, answer, unless,
  next_statement, driver_error, fail,
}
use sap_orders_api.Store.Orders
use sap_orders_api.Store.Orders.{order_taken, new_order, with_order, insert_order, bare}
use sap_orders_api.Service.Orders.{create_order}
use sap_orders_api.Handler.Response.{Response, order, respond, write_error}
use sap_orders_api.Handler.Errors.{handle_error-answer_by_root}

-- The answer 500, with the tables as they were.
abbrev pub FailsWith500 : World → Response × World → Type 0
FailsWith500 w (r, v) = (r ≡ write_error 500 "internal server error") × (v.db ≡ w.db)

answer-refused :
    {A : Type 0} (r l : Error) (f : Fault) (w : World) → answer {A = A} r l f none w ≡ (err r, w)
unfolding answer
answer-refused r l fine w = refl
answer-refused r l refused w = refl
answer-refused r l unanswered w = refl

-- an INSERT that a constraint refuses, whatever the fault
insert-refused :
    {A : Type 0} (what : String) (run : Time → Uuid → Db → Option (A × Db)) (w : World)
    → ((t : Time) (u : Uuid) → run t u w.db ≡ none)
    → query_row what run w ≡ (err (wrap what driver_error ""), next_statement w)
unfolding query_row
insert-refused what run w h =
    ap
      (λ o.
        answer (wrap what driver_error "") (wrap what driver_error "") (w.faults w.statements) o
          (next_statement w))
      (h w.clock (w.random w.statements))
    ∙ answer-refused _ _ (w.faults w.statements) (next_statement w)

any_or : (a b c d : Bool) → (c ≡ true → d ≡ true) → (b || c) ≡ true → ((a || b) || d) ≡ true
any_or a true c d h k = ground arith
any_or a false c d h k = or_right a d (h k)
  where
    or_right : (a d : Bool) → d ≡ true → ((a || false) || d) ≡ true
    or_right a d h = ground arith

number-taken :
    (number : String) (id : Uuid) (rows : List OrderRow)
    → any (λ r. str_eq r.order_number number) rows ≡ true
    → any (λ r. (r.id == id) || str_eq r.order_number number) rows ≡ true
number-taken number id [] h = h
number-taken number id (r ∷ rows) h =
    any_or (r.id == id) (str_eq r.order_number number) _ _ (λ k. number-taken number id rows k) h

-- A request to create an order with a number that an order has is answered 500, whichever statement
-- fails: the error that the UNIQUE constraint gives is none that HandleError knows. Nothing is
-- changed.
pub create_order-FailsWith500 :
    (input : CreateOrderInput) (by : String) (w : World)
    → str_eq input.order_number "" ≡ false
    → any (λ r. str_eq r.order_number input.order_number) w.db.orders ≡ true
    → FailsWith500 w (respond 201 order (create_order input by w))
unfolding create_order Orders.create ◌>>=◌ respond root next_statement
create_order-FailsWith500 input by w given taken =
    subst (λ r. FailsWith500 w (respond 201 order r)) (sym the_error)
      (handle_error-answer_by_root (wrap "create order: " driver_error ""), refl)
  where
    go_on : Result OrderRow × World → Result Order × World
    go_on r = elim r.0 [ ok row ↦ (ok (bare row), r.1) | err e ↦ (err e, r.1) ]

    the_error :
        create_order input by w ≡ (err (wrap "create order: " driver_error ""), next_statement w)
    the_error =
        ap (λ b. (if b then fail order_number_required else Orders.create input.order_number by) w)
          given
        ∙ ap go_on (
            insert-refused "create order: "
              (λ t u db. insert_order (new_order input.order_number by t u) db) w
              (λ t u.
                let row = new_order input.order_number by t u in
                ap (λ b. unless b (row, with_order row w.db))
                  (number-taken input.order_number u w.db.orders taken)))
