-- ===== src/Prelude/Selected.antt =====
-- The first row that a test selects, through the statements that add and change rows.
use mathlib.Core.Path.{◌≡◌, refl, ap, subst, ◌∙◌}
use mathlib.Core.Logic.{inl, inr}
use mathlib.Core.Bool.{Bool, true, false, ◌||◌, ◌&&◌}
use mathlib.Core.Option.{some}
use mathlib.Core.List.{List, [], ◌∷◌, ◌++◌}
use native.Mathlib.Omega.{arith}
use sap_orders_api.Prelude.Tests.{Bool-cases}
use sap_orders_api.Prelude.Lists.{first, select, update_rows, any}
use sap_orders_api.Prelude.Members.{or-false_left, or-false_right}

some_inj : {A : Type 0} {x y : A} → some x ≡ some y → x ≡ y
some_inj h = cc

-- a row that is selected first passes the test
pub first-select :
    {A : Type 0} (p : A → Bool) (xs : List A) (x : A) → first (select p xs) ≡ some x → p x ≡ true
first-select p [] x h = cc
first-select p (y ∷ ys) x h = elim (Bool-cases (p y)) [
  | inl e ↦ subst (λ z. p z ≡ true) (some_inj (rw e at h)) e
  | inr e ↦ first-select p ys x (rw e at h)
]

module _ {A : Type 0} (p q : A → Bool) (f : A → A) (kept : (y : A) → p (f y) ≡ p y) where
  -- the first row that is selected, after an UPDATE that takes it
  pub first-update_rows :
      (xs : List A) (x : A)
      → first (select p xs) ≡ some x
      → q x ≡ true
      → first (select p (update_rows q f xs)) ≡ some (f x)
  first-update_rows [] x h t = cc
  first-update_rows (y ∷ ys) x h t = elim (Bool-cases (p y)) [
    | inl e ↦
        let same = some_inj (rw e at h) in
        rw (ap q same ∙ t) (rw (kept y ∙ e) (ap (λ z. some (f z)) same))
    | inr e ↦ elim (Bool-cases (q y)) [
      | inl u ↦ rw u (rw (kept y) (rw e (first-update_rows ys x (rw e at h) t)))
      | inr u ↦ rw u (rw e (first-update_rows ys x (rw e at h) t))
    ]
  ]

pub neither : (a b : Bool) → a ≡ false → b ≡ false → (a || b) ≡ false
neither a b h k = ground arith

module _ {A : Type 0} where
  -- a row that is added is the first that passes a test that no other row passes
  pub first-added :
      (p : A → Bool) (x : A) (xs : List A)
      → any p xs ≡ false
      → p x ≡ true
      → first (select p (xs ++ x ∷ [])) ≡ some x
  first-added p x [] h t = rw t refl
  first-added p x (y ∷ ys) h t =
      let rest = first-added p x ys (or-false_right (p y) _ h) t in
      rw (or-false_left (p y) _ h) rest

  pub any-either :
      (p q : A → Bool) (xs : List A)
      → any p xs ≡ false
      → any q xs ≡ false
      → any (λ x. p x || q x) xs ≡ false
  any-either p q [] h k = refl
  any-either p q (x ∷ xs) h k =
      let rest = any-either p q xs (or-false_right (p x) _ h) (or-false_right (q x) _ k) in
      neither (p x || q x) _
        (neither (p x) (q x) (or-false_left (p x) _ h) (or-false_left (q x) _ k)) rest

  pub any-both :
      (p q : A → Bool) (xs : List A) → any p xs ≡ false → any (λ x. p x && q x) xs ≡ false
  any-both p q [] h = refl
  any-both p q (x ∷ xs) h =
      neither (p x && q x) _ (not_both (p x) (q x) (or-false_left (p x) _ h))
        (any-both p q xs (or-false_right (p x) _ h))
    where
      not_both : (a b : Bool) → a ≡ false → (a && b) ≡ false
      not_both a b h = ground arith

  pub any-selected :
      (p : A → Bool) (xs : List A) (x : A) → first (select p xs) ≡ some x → any p xs ≡ true
  any-selected p [] x h = cc
  any-selected p (y ∷ ys) x h = elim (Bool-cases (p y)) [
    | inl e ↦ rw e refl
    | inr e ↦ rw e (any-selected p ys x (rw e at h))
  ]
