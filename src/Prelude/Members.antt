-- ===== src/Prelude/Members.antt =====
-- Membership with its position, through the row operations of a statement.
use Prim.Native.Nat.{ℕ, zero, suc}
use mathlib.Core.Path.{◌≡◌, refl, sym, ap, ◌∙◌}
use mathlib.Core.Logic.{◌⊎◌, inl, inr}
use mathlib.Core.Bool.{Bool, true, false, ◌||◌}
use mathlib.Core.List.{List, [], ◌∷◌, ◌++◌, map, Memᴰ}
use native.Mathlib.Omega.{arith}
use sap_orders_api.Prelude.Tests.{if◌then◌else◌, Bool-cases}
use sap_orders_api.Prelude.Lists.{take, select, update_rows, any, insert_with, sort_with}

pub or-false_left : (a b : Bool) → (a || b) ≡ false → a ≡ false
or-false_left a b h = ground arith

pub or-false_right : (a b : Bool) → (a || b) ≡ false → b ≡ false
or-false_right a b h = ground arith

-- what an UPDATE makes of one row
abbrev pub changed {ℓ} : {A : Type ℓ} → (A → Bool) → (A → A) → A → A
changed p f x = if p x then f x else x

module _ {ℓ} {A : Type ℓ} where
  Mem-cons : {x y : A} {xs : List A} → Memᴰ x (y ∷ xs) → (x ≡ y) ⊎ Memᴰ x xs
  Mem-cons (Memᴰ.head e) = inl e
  Mem-cons (Memᴰ.tail m) = inr m

  Mem-if :
      {x : A} (b : Bool) (xs ys : List A)
      → Memᴰ x (if b then xs else ys)
      → ((b ≡ true) × Memᴰ x xs) ⊎ ((b ≡ false) × Memᴰ x ys)
  Mem-if true xs ys m = inl (refl, m)
  Mem-if false xs ys m = inr (refl, m)

  pub Mem-append : {x : A} (xs ys : List A) → Memᴰ x (xs ++ ys) → Memᴰ x xs ⊎ Memᴰ x ys
  Mem-append [] ys m = inr m
  Mem-append (y ∷ xs) ys (Memᴰ.head e) = inl (Memᴰ.head e)
  Mem-append (y ∷ xs) ys (Memᴰ.tail m) = elim (Mem-append xs ys m) [
    | inl a ↦ inl (Memᴰ.tail a)
    | inr b ↦ inr b
  ]

  -- A row after an INSERT is one of the old rows or the new one.
  pub Mem-added : {x y : A} (xs : List A) → Memᴰ x (xs ++ y ∷ []) → Memᴰ x xs ⊎ (x ≡ y)
  Mem-added [] (Memᴰ.head e) = inr e
  Mem-added [] (Memᴰ.tail m) = elim m [ ]
  Mem-added (z ∷ xs) (Memᴰ.head e) = inl (Memᴰ.head e)
  Mem-added (z ∷ xs) (Memᴰ.tail m) = elim (Mem-added xs m) [
    | inl a ↦ inl (Memᴰ.tail a)
    | inr e ↦ inr e
  ]

  pub Mem-append_left : {x : A} (xs ys : List A) → Memᴰ x xs → Memᴰ x (xs ++ ys)
  Mem-append_left [] ys m = elim m [ ]
  Mem-append_left (y ∷ xs) ys (Memᴰ.head e) = Memᴰ.head e
  Mem-append_left (y ∷ xs) ys (Memᴰ.tail m) = Memᴰ.tail (Mem-append_left xs ys m)

  pub Mem-append_right : {x : A} (xs ys : List A) → Memᴰ x ys → Memᴰ x (xs ++ ys)
  Mem-append_right [] ys m = m
  Mem-append_right (y ∷ xs) ys m = Memᴰ.tail (Mem-append_right xs ys m)

  -- Each row after an UPDATE comes from a row before it.
  pub Mem-update_rows :
      (p : A → Bool) (f : A → A) {x : A} (xs : List A)
      → Memᴰ x (update_rows p f xs)
      → (y : A) × Memᴰ y xs × (x ≡ changed p f y)
  Mem-update_rows p f [] m = elim m [ ]
  Mem-update_rows p f (y ∷ xs) (Memᴰ.head e) = (y, Memᴰ.head refl, e)
  Mem-update_rows p f (y ∷ xs) (Memᴰ.tail m) =
      let (z, n, e) = Mem-update_rows p f xs m in (z, Memᴰ.tail n, e)

  pub update_rows-Mem :
      (p : A → Bool) (f : A → A) {x : A} (xs : List A)
      → Memᴰ x xs
      → Memᴰ (changed p f x) (update_rows p f xs)
  update_rows-Mem p f [] m = elim m [ ]
  update_rows-Mem p f (y ∷ xs) (Memᴰ.head e) = Memᴰ.head (ap (changed p f) e)
  update_rows-Mem p f (y ∷ xs) (Memᴰ.tail m) = Memᴰ.tail (update_rows-Mem p f xs m)

  pub Mem-select :
      (p : A → Bool) {x : A} (xs : List A) → Memᴰ x (select p xs) → Memᴰ x xs × (p x ≡ true)
  Mem-select p [] m = elim m [ ]
  Mem-select p {x} (y ∷ xs) m =
      let rest = λ (n : Memᴰ x (select p xs)). Mem-select p xs n in
      elim (Mem-if (p y) (y ∷ select p xs) (select p xs) m) [
        | inl (e, n) ↦ elim (Mem-cons n) [
          | inl q ↦ (Memᴰ.head q, ap p q ∙ e)
          | inr n' ↦ (Memᴰ.tail (rest n').0, (rest n').1)
        ]
        | inr (e, n) ↦ (Memᴰ.tail (rest n).0, (rest n).1)
      ]

  pub select-Mem :
      (p : A → Bool) {x : A} (xs : List A) → Memᴰ x xs → p x ≡ true → Memᴰ x (select p xs)
  select-Mem p [] m h = elim m [ ]
  select-Mem p (y ∷ xs) (Memᴰ.head e) h = rw (ap p (sym e) ∙ h) (Memᴰ.head e)
  select-Mem p {x} (y ∷ xs) (Memᴰ.tail m) h =
      let rest = select-Mem p xs m h in
      elim (Bool-cases (p y)) [ inl e ↦ rw e (Memᴰ.tail rest) | inr e ↦ rw e rest ]

  pub Mem-take : {x : A} (n : ℕ) (xs : List A) → Memᴰ x (take n xs) → Memᴰ x xs
  Mem-take zero xs m = elim m [ ]
  Mem-take (suc n) [] m = m
  Mem-take (suc n) (y ∷ xs) (Memᴰ.head e) = Memᴰ.head e
  Mem-take (suc n) (y ∷ xs) (Memᴰ.tail m) = Memᴰ.tail (Mem-take n xs m)

  pub Mem-insert_with :
      (before : A → A → Bool) {x : A} (y : A) (xs : List A)
      → Memᴰ x (insert_with before y xs)
      → (x ≡ y) ⊎ Memᴰ x xs
  unfolding insert_with
  Mem-insert_with before y [] m = Mem-cons m
  Mem-insert_with before {x} y (z ∷ xs) m =
      let rest = λ (n : Memᴰ x (insert_with before y xs)). Mem-insert_with before y xs n in
      elim (Mem-if (before y z) (y ∷ z ∷ xs) (z ∷ insert_with before y xs) m) [
        | inl (e, n) ↦ Mem-cons n
        | inr (e, n) ↦ elim (Mem-cons n) [
          | inl q ↦ inr (Memᴰ.head q)
          | inr n' ↦ elim (rest n') [ inl q ↦ inl q | inr k ↦ inr (Memᴰ.tail k) ]
        ]
      ]

  pub Mem-sort_with :
      (before : A → A → Bool) {x : A} (xs : List A) → Memᴰ x (sort_with before xs) → Memᴰ x xs
  unfolding sort_with
  Mem-sort_with before [] m = m
  Mem-sort_with before (y ∷ xs) m = elim (Mem-insert_with before y (sort_with before xs) m) [
    | inl e ↦ Memᴰ.head e
    | inr n ↦ Memᴰ.tail (Mem-sort_with before xs n)
  ]

  pub any-Mem : (p : A → Bool) (xs : List A) → any p xs ≡ true → (x : A) × Memᴰ x xs × (p x ≡ true)
  any-Mem p [] h = cc
  any-Mem p (x ∷ xs) h = elim (Bool-cases (p x)) [
    | inl e ↦ (x, Memᴰ.head refl, e)
    | inr e ↦ let (y, m, q) = any-Mem p xs (rw e at h) in (y, Memᴰ.tail m, q)
  ]

  -- No row of a table meets a condition that EXISTS denies.
  pub any-false : (p : A → Bool) {x : A} (xs : List A) → any p xs ≡ false → Memᴰ x xs → p x ≡ false
  any-false p [] h m = elim m [ ]
  any-false p (y ∷ xs) h (Memᴰ.head e) = ap p e ∙ or-false_left (p y) (any p xs) h
  any-false p (y ∷ xs) h (Memᴰ.tail m) = any-false p xs (or-false_right (p y) (any p xs) h) m

pub Mem-map {ℓ κ} :
    {A : Type ℓ} {B : Type κ} (f : A → B) {y : B} (xs : List A)
    → Memᴰ y (map f xs)
    → (x : A) × Memᴰ x xs × (y ≡ f x)
Mem-map f [] m = elim m [ ]
Mem-map f (x ∷ xs) (Memᴰ.head e) = (x, Memᴰ.head refl, e)
Mem-map f (x ∷ xs) (Memᴰ.tail m) = let (z, n, e) = Mem-map f xs m in (z, Memᴰ.tail n, e)

pub map-Mem {ℓ κ} :
    {A : Type ℓ} {B : Type κ} (f : A → B) {x : A} (xs : List A) → Memᴰ x xs → Memᴰ (f x) (map f xs)
map-Mem f [] m = elim m [ ]
map-Mem f (y ∷ xs) (Memᴰ.head e) = Memᴰ.head (ap f e)
map-Mem f (y ∷ xs) (Memᴰ.tail m) = Memᴰ.tail (map-Mem f xs m)
