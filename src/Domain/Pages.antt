-- ===== src/Domain/Pages.antt =====
-- The page count of internal/domain/pagination.go, within the range of its 64-bit arithmetic.
use native.Mathlib.Nat.{div-add-mod, mod-lt}
use sap_orders_api.Prelude.{
  ℕ, ◌+◌, ◌-◌, ◌*◌, ◌/◌, ◌%◌, ◌<◌, ◌≤◌, ◌≡◌, refl, ap, ◌∙◌, true, arith, lt→ltb, if◌then◌else◌,
  ◌&&◌,
}
use sap_orders_api.Prelude.Int.{pos, ◌+ℤ◌, ◌-ℤ◌, ltz, quot, two_63, two_64, wrap64}
use sap_orders_api.Domain.Paging.{total_pages_of}

-- A number below 2 ^ 63 is kept by the wrap-around.
pub wrap64-small : (n : ℕ) → n < two_63 → wrap64 (pos n) ≡ pos n
wrap64-small n h = rw (small n h) (rw (lt→ltb n two_63 h) refl)
  where
    small : (n : ℕ) → n < two_63 → n % two_64 ≡ n
    small n h = omega (arith, h)

pub minus_one : (n : ℕ) → 1 ≤ n → pos n -ℤ pos 1 ≡ pos (n - 1)
minus_one n h = ground arith

plus : (a b : ℕ) → pos a +ℤ pos b ≡ pos (a + b)
plus a b = ground arith

both_positive : (a b : ℕ) → 1 ≤ a → 1 ≤ b → (ltz (pos 0) (pos a) && ltz (pos 0) (pos b)) ≡ true
both_positive a b h k = ground arith

total_pages_of-value :
    (limit total : ℕ)
    → 1 ≤ limit
    → 1 ≤ total
    → total + limit < two_63
    → total_pages_of (pos limit) (pos total) ≡ pos ((total + limit - 1) / limit)
unfolding total_pages_of
total_pages_of-value limit total l t h =
    ap (λ b. if b then quot (wrap64 (wrap64 (pos total +ℤ pos limit) -ℤ pos 1)) limit else pos 0)
      (both_positive limit total l t)
    ∙ ap (λ z. quot (wrap64 z) limit)
        (ap (λ z. wrap64 z -ℤ pos 1) (plus total limit)
          ∙ ap (λ z. z -ℤ pos 1) (wrap64-small (total + limit) h)
          ∙ minus_one (total + limit) (omega (arith, l)))
    ∙ ap (λ z. quot z limit) (wrap64-small (total + limit - 1) (omega (arith, h)))

-- For a limit and a total that are positive, whose sum is below 2 ^ 63, the page count is the least
-- number of pages that holds the total.
pub total_pages_of-ceiling :
    (limit total : ℕ)
    → 1 ≤ limit
    → 1 ≤ total
    → total + limit < two_63
    → (n : ℕ) × (total_pages_of (pos limit) (pos total) ≡ pos n)
      × (total ≤ limit * n)
      × (limit * n < total + limit)
total_pages_of-ceiling limit total l t h =
    let n = (total + limit - 1) / limit in
    let (a, b) =
      between (limit * n) ((total + limit - 1) % limit) l t (div-add-mod (total + limit - 1) limit)
        (mod-lt (total + limit - 1) l) in
    (n, total_pages_of-value limit total l t h, a, b)
  where
    between :
        (q r : ℕ)
        → 1 ≤ limit
        → 1 ≤ total
        → q + r ≡ total + limit - 1
        → r < limit
        → (total ≤ q) × (q < total + limit)
    between q r l t e k = (omega (arith, e, k, l, t), omega (arith, e, k, l, t))
