-- ===== src/System/OrderLife.antt =====
-- The life of an order over the steps of the program: its status only moves forward, and its number
-- stays.
use sap_orders_api.Prelude.{
  ◌≡◌, refl, sym, ap, subst, ◌∙◌, inl, inr, Bool, true, false, ◌||◌, List, [], ◌∷◌, ◌++◌, Memᴰ,
  first, some, update_rows, String, str_eq, ◌==◌, ==_iff, Bool-cases, arith,
}
use sap_orders_api.Prelude.Members.{
  changed, Mem-added, Mem-append_left, Mem-update_rows, update_rows-Mem, Mem-select, any-false,
}
use sap_orders_api.Domain.Types.{
  Uuid, Time, OrderStatus, opened, in_progress, closed, OrderRow, Order, OrderItem,
}
use sap_orders_api.Domain.Status.{same_order_status}
use sap_orders_api.Domain.Transitions.{Allowed, same, starts, closes}
use sap_orders_api.Store.Monad.{Db}
use sap_orders_api.Store.Orders.{order_id_is, set_status, order_taken}
use sap_orders_api.Store.Reads.{Found}
use sap_orders_api.Service.Orders.Changes.{Changed, unchanged, added, moved, started}
use sap_orders_api.System.{System, Reach, here, next}
use sap_orders_api.System.OrderSteps.{Step-Changed}

-- The way of an order's status.
pub data Forward : OrderStatus → OrderStatus → Type 0 where
  stays : (s : OrderStatus) → Forward s s
  opens_out : Forward opened in_progress
  ends : Forward in_progress closed
  runs_through : Forward opened closed

Forward-trans : {a b c : OrderStatus} → Forward a b → Forward b c → Forward a c
Forward-trans (stays _) g = g
Forward-trans opens_out (stays _) = opens_out
Forward-trans opens_out ends = runs_through
Forward-trans ends (stays _) = ends
Forward-trans runs_through (stays _) = runs_through

Allowed-Forward : {items : List OrderItem} {a b : OrderStatus} → Allowed items a b → Forward a b
Allowed-Forward (same s v) = stays s
Allowed-Forward (starts h) = opens_out
Allowed-Forward (closes h k) = ends

opened_is : (s : OrderStatus) → same_order_status s opened ≡ true → s ≡ opened
opened_is opened h = refl
opened_is in_progress h = cc
opened_is closed h = cc
opened_is (OrderStatus.unknown t) h = cc

-- Orders with one id are the same row, as the primary key of the table says.
abbrev pub IsKeyed : List OrderRow → Type 0
IsKeyed X = (x y : OrderRow) → Memᴰ x X → Memᴰ y X → x.id ≡ y.id → x ≡ y

-- The order x is in the table, perhaps further on its way.
pub record Onward (x : OrderRow) (Y : List OrderRow) : Type 0 where
  pub row : OrderRow
  pub found : Memᴰ row Y
  pub same_id : row.id ≡ x.id
  pub same_number : row.order_number ≡ x.order_number
  pub forward : Forward x.status row.status

first-Mem : (x : OrderRow) (xs : List OrderRow) → first xs ≡ some x → Memᴰ x xs
first-Mem x [] e = absurd (nothing e)
  where
    nothing : (first [] ≡ some x) → ⊥
    nothing e = cc
first-Mem x (y ∷ ys) e = Memᴰ.head (sym (some_inj e))
  where
    some_inj : (some y ≡ some x) → y ≡ x
    some_inj e = cc

-- The rows with an id that is found are the one row found.
Found-row :
    (X : Db) (id : Uuid) (order : Order)
    → IsKeyed X.orders
    → Found id order X
    → (x : OrderRow) → Memᴰ x X.orders
    → order_id_is id x ≡ true
    → x ≡ order.row
Found-row X id order key f x m h =
    let (n, k) = Mem-select (order_id_is id) X.orders (first-Mem order.row _ f.0) in
    key x order.row m n ((==_iff _ _).0 h ∙ sym ((==_iff _ _).0 k))

module _ (X : Db) (id : Uuid) (order : Order) (to : OrderStatus) (t : Time) (key : IsKeyed X.orders)
    (f : Found id order X) (go : Forward order.status to) where
  updated-Onward :
      (x : OrderRow)
      → Memᴰ x X.orders
      → Onward x (update_rows (order_id_is id) (set_status to t) X.orders)
  updated-Onward x m = elim (Bool-cases (order_id_is id x)) [
    | inl e ↦ record {
      row = changed (order_id_is id) (set_status to t) x;
      found = update_rows-Mem (order_id_is id) (set_status to t) X.orders m;
      same_id = rw e refl;
      same_number = rw e refl;
      forward = rw e (subst (λ r. Forward r.status to) (sym (Found-row X id order key f x m e)) go);
    }
    | inr e ↦ record {
      row = changed (order_id_is id) (set_status to t) x;
      found = update_rows-Mem (order_id_is id) (set_status to t) X.orders m;
      same_id = rw e refl;
      same_number = rw e refl;
      forward = rw e (stays x.status);
    }
  ]

changed_id :
    (p : OrderRow → Bool) (to : OrderStatus) (t : Time) (x : OrderRow)
    → (changed p (set_status to t) x).id ≡ x.id
changed_id p to t x = elim (Bool-cases (p x)) [ inl e ↦ rw e refl | inr e ↦ rw e refl ]

updated-IsKeyed :
    (p : OrderRow → Bool) (to : OrderStatus) (t : Time) (X : List OrderRow)
    → IsKeyed X
    → IsKeyed (update_rows p (set_status to t) X)
updated-IsKeyed p to t X key x y m n e =
    let (a, k, q) = Mem-update_rows p (set_status to t) X m in
    let (b, l, r) = Mem-update_rows p (set_status to t) X n in
    q
    ∙ ap (changed p (set_status to t)) (
        key a b k l (
          sym (changed_id p to t a)
          ∙ sym (ap (λ o. o.id) q)
          ∙ e
          ∙ ap (λ o. o.id) r
          ∙ changed_id p to t b))
    ∙ sym r

not_same_id : (a b : Bool) → (a || b) ≡ true → (a || b) ≡ false → ⊥
not_same_id a b h k = ground arith

added-IsKeyed :
    (X : Db) (row : OrderRow)
    → IsKeyed X.orders
    → order_taken row X ≡ false
    → IsKeyed (X.orders ++ row ∷ [])
added-IsKeyed X row key free x y m n e = elim (Mem-added X.orders m) [
  | inl a ↦ elim (Mem-added X.orders n) [
    | inl b ↦ key x y a b e
    | inr q ↦ absurd (clash x a (e ∙ ap (λ o. o.id) q))
  ]
  | inr p ↦ elim (Mem-added X.orders n) [
    | inl b ↦ absurd (clash y b (sym e ∙ ap (λ o. o.id) p))
    | inr q ↦ p ∙ sym q
  ]
]
  where
    clash : (z : OrderRow) → Memᴰ z X.orders → z.id ≡ row.id → ⊥
    clash z k equal =
        not_same_id (z.id == row.id) (str_eq z.order_number row.order_number)
          (rw ((==_iff z.id row.id).1 equal) refl)
          (any-false (λ r. (r.id == row.id) || str_eq r.order_number row.order_number) X.orders free
            k)

module _ {X Y : Db} (key : IsKeyed X.orders) where
  Changed-IsKeyed : Changed X Y → IsKeyed Y.orders
  Changed-IsKeyed (unchanged e) = subst IsKeyed (sym e) key
  Changed-IsKeyed (added row o free e) = subst IsKeyed (sym e) (added-IsKeyed X row key free)
  Changed-IsKeyed (moved id order to t f a e) =
      subst IsKeyed (sym e) (updated-IsKeyed (order_id_is id) to t X.orders key)
  Changed-IsKeyed (started id order t f o e) =
      subst IsKeyed (sym e) (updated-IsKeyed (order_id_is id) in_progress t X.orders key)

  Changed-Onward : Changed X Y → (x : OrderRow) → Memᴰ x X.orders → Onward x Y.orders
  Changed-Onward (unchanged e) x m =
      subst (Onward x) (sym e) (record {
        row = x;
        found = m;
        same_id = refl;
        same_number = refl;
        forward = stays x.status;
      })
  Changed-Onward (added row o free e) x m = subst (Onward x) (sym e) (record {
    row = x;
    found = Mem-append_left X.orders (row ∷ []) m;
    same_id = refl;
    same_number = refl;
    forward = stays x.status;
  })
  Changed-Onward (moved id order to t f a e) x m =
      subst (Onward x) (sym e) (updated-Onward X id order to t key f (Allowed-Forward a) x m)
  Changed-Onward (started id order t f o e) x m = subst (Onward x) (sym e) (
      updated-Onward X id order in_progress t key f
        (subst (λ s. Forward s in_progress) (sym (opened_is order.status o)) opens_out) x m)

Reach-IsKeyed :
    {rfc_function : String} {s t : System}
    → IsKeyed s.world.db.orders
    → Reach rfc_function s t
    → IsKeyed t.world.db.orders
Reach-IsKeyed key here = key
Reach-IsKeyed key (next r step) = Changed-IsKeyed (Reach-IsKeyed key r) (Step-Changed step)

-- As long as no two service calls overlap, and from tables whose orders have different ids: whichever
-- whole calls follow one another, each order stays in the table under its id and its number, and its
-- status is the same or further on the way from OPEN over IN_PROGRESS to CLOSED; so a CLOSED order
-- stays CLOSED.
pub Reach-Onward :
    {rfc_function : String} {s t : System}
    → IsKeyed s.world.db.orders
    → Reach rfc_function s t
    → (x : OrderRow) → Memᴰ x s.world.db.orders
    → Onward x t.world.db.orders
Reach-Onward key here x m = record {
  row = x;
  found = m;
  same_id = refl;
  same_number = refl;
  forward = stays x.status;
}
Reach-Onward key (next r step) x m =
    let a = Reach-Onward key r x m in
    let b = Changed-Onward (Reach-IsKeyed key r) (Step-Changed step) a.row a.found in
    record {
      row = b.row;
      found = b.found;
      same_id = b.same_id ∙ a.same_id;
      same_number = b.same_number ∙ a.same_number;
      forward = Forward-trans a.forward b.forward;
    }
