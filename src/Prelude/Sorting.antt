-- ===== src/Prelude/Sorting.antt =====
-- ORDER BY as a stable sort, and LIMIT and OFFSET: the sorted rows are in order and are the rows.
use Prim.Native.Nat.{ℕ, zero, suc}
use mathlib.Core.Path.{◌≡◌, refl, ap, ◌∙◌}
use mathlib.Core.Logic.{◌⊎◌, inl, inr}
use mathlib.Core.Bool.{Bool, true, false}
use mathlib.Core.List.{List, [], ◌∷◌, Memᴰ}
use native.Mathlib.Omega.{arith}
use sap_orders_api.Prelude.Tests.{if◌then◌else◌, leb, Bool-cases}
use sap_orders_api.Prelude.Lists.{length, take, drop, insert_with, sort_with, sort_asc, sort_desc}
use sap_orders_api.Prelude.Members.{Mem-insert_with}

module _ {ℓ} {A : Type ℓ} where
  -- Each element may stand in front of all that follow it.
  abbrev pub InOrder : (A → A → Bool) → List A → Type ℓ
  InOrder before [] = Unit
  InOrder before (x ∷ xs) = ((y : A) → Memᴰ y xs → before x y ≡ true) × InOrder before xs

  -- Of two elements one may stand in front, and the order goes on through a third.
  pub record IsOrder (before : A → A → Bool) : Type ℓ where
    pub total : (x y : A) → before x y ≡ false → before y x ≡ true
    pub through : (x y z : A) → before x y ≡ true → before y z ≡ true → before x z ≡ true

  length-insert_with :
      (before : A → A → Bool) (x : A) (xs : List A)
      → length (insert_with before x xs) ≡ suc (length xs)
  unfolding insert_with
  length-insert_with before x [] = refl
  length-insert_with before x (y ∷ ys) = elim (Bool-cases (before x y)) [
    | inl e ↦ rw e refl
    | inr e ↦ rw e (ap suc (length-insert_with before x ys))
  ]

  pub length-sort_with :
      (before : A → A → Bool) (xs : List A) → length (sort_with before xs) ≡ length xs
  unfolding sort_with
  length-sort_with before [] = refl
  length-sort_with before (x ∷ xs) =
      length-insert_with before x (sort_with before xs) ∙ ap suc (length-sort_with before xs)

  inserted-Mem :
      (before : A → A → Bool) {x : A} (y : A) (xs : List A)
      → (x ≡ y) ⊎ Memᴰ x xs
      → Memᴰ x (insert_with before y xs)
  unfolding insert_with
  inserted-Mem before y [] (inl e) = Memᴰ.head e
  inserted-Mem before y [] (inr m) = elim m [ ]
  inserted-Mem before {x} y (z ∷ xs) h = elim (Bool-cases (before y z)) [
    | inl e ↦ rw e (in_front h)
    | inr e ↦ rw e (behind (λ k. inserted-Mem before y xs k) h)
  ]
    where
      in_front : (x ≡ y) ⊎ Memᴰ x (z ∷ xs) → Memᴰ x (y ∷ z ∷ xs)
      in_front (inl q) = Memᴰ.head q
      in_front (inr m) = Memᴰ.tail m

      behind :
          ((x ≡ y) ⊎ Memᴰ x xs → Memᴰ x (insert_with before y xs))
          → (x ≡ y) ⊎ Memᴰ x (z ∷ xs)
          → Memᴰ x (z ∷ insert_with before y xs)
      behind k (inl q) = Memᴰ.tail (k (inl q))
      behind k (inr (Memᴰ.head q)) = Memᴰ.head q
      behind k (inr (Memᴰ.tail m)) = Memᴰ.tail (k (inr m))

  -- No row is lost by a sort.
  pub sorted-Mem :
      (before : A → A → Bool) {x : A} (xs : List A) → Memᴰ x xs → Memᴰ x (sort_with before xs)
  unfolding sort_with
  sorted-Mem before [] m = m
  sorted-Mem before (y ∷ xs) (Memᴰ.head e) = inserted-Mem before y (sort_with before xs) (inl e)
  sorted-Mem before (y ∷ xs) (Memᴰ.tail m) =
      inserted-Mem before y (sort_with before xs) (inr (sorted-Mem before xs m))

  module _ (before : A → A → Bool) (order : IsOrder before) where
    insert_with-InOrder :
        (x : A) (xs : List A) → InOrder before xs → InOrder before (insert_with before x xs)
    unfolding insert_with
    insert_with-InOrder x [] h = ((λ y m. elim m [ ]), tt)
    insert_with-InOrder x (y ∷ ys) h = elim (Bool-cases (before x y)) [
      | inl e ↦ rw e ((λ z m. first_before e z m), h)
      | inr e ↦
          rw e ((λ z m. later e z (Mem-insert_with before x ys m)), insert_with-InOrder x ys h.1)
    ]
      where
        first_before : before x y ≡ true → (z : A) → Memᴰ z (y ∷ ys) → before x z ≡ true
        first_before e z (Memᴰ.head q) = ap (before x) q ∙ e
        first_before e z (Memᴰ.tail m) = order.through x y z e (h.0 z m)

        later : before x y ≡ false → (z : A) → (z ≡ x) ⊎ Memᴰ z ys → before y z ≡ true
        later e z (inl q) = ap (before y) q ∙ order.total x y e
        later e z (inr m) = h.0 z m

    pub sort_with-InOrder : (xs : List A) → InOrder before (sort_with before xs)
    unfolding sort_with
    sort_with-InOrder [] = tt
    sort_with-InOrder (x ∷ xs) = insert_with-InOrder x (sort_with before xs) (sort_with-InOrder xs)

  asc-IsOrder : (key : A → ℕ) → IsOrder (λ x y. leb (key x) (key y))
  asc-IsOrder key = record { total = λ x y h. ground arith; through = λ x y z h k. ground arith }

  desc-IsOrder : (key : A → ℕ) → IsOrder (λ x y. leb (key y) (key x))
  desc-IsOrder key = record { total = λ x y h. ground arith; through = λ x y z h k. ground arith }

  pub sort_asc-InOrder :
      (key : A → ℕ) (xs : List A) → InOrder (λ x y. leb (key x) (key y)) (sort_asc key xs)
  sort_asc-InOrder key xs = sort_with-InOrder _ (asc-IsOrder key) xs

  pub sort_desc-InOrder :
      (key : A → ℕ) (xs : List A) → InOrder (λ x y. leb (key y) (key x)) (sort_desc key xs)
  sort_desc-InOrder key xs = sort_with-InOrder _ (desc-IsOrder key) xs

  -- LIMIT: what is taken stands in front of what is left.
  pub take-drop-InOrder :
      (before : A → A → Bool) (n : ℕ) {x y : A} (xs : List A)
      → InOrder before xs
      → Memᴰ x (take n xs)
      → Memᴰ y (drop n xs)
      → before x y ≡ true
  take-drop-InOrder before zero xs h m k = elim m [ ]
  take-drop-InOrder before (suc n) [] h m k = elim m [ ]
  take-drop-InOrder before (suc n) {x} {y} (z ∷ xs) h (Memᴰ.head q) k =
      ap (λ o. before o y) q ∙ h.0 y (Mem-drop n xs k)
    where
      Mem-drop : (n : ℕ) (xs : List A) → Memᴰ y (drop n xs) → Memᴰ y xs
      Mem-drop zero xs m = m
      Mem-drop (suc n) [] m = m
      Mem-drop (suc n) (z ∷ xs) m = Memᴰ.tail (Mem-drop n xs m)
  take-drop-InOrder before (suc n) (z ∷ xs) h (Memᴰ.tail m) k =
      take-drop-InOrder before n xs h.1 m k

  pub taken-or-left :
      (n : ℕ) {x : A} (xs : List A) → Memᴰ x xs → Memᴰ x (take n xs) ⊎ Memᴰ x (drop n xs)
  taken-or-left zero xs m = inr m
  taken-or-left (suc n) [] m = inl m
  taken-or-left (suc n) (y ∷ xs) (Memᴰ.head e) = inl (Memᴰ.head e)
  taken-or-left (suc n) (y ∷ xs) (Memᴰ.tail m) = elim (taken-or-left n xs m) [
    | inl k ↦ inl (Memᴰ.tail k)
    | inr k ↦ inr k
  ]

  pub length-take_is :
      (n : ℕ) (xs : List A) → length (take n xs) ≡ (if leb n (length xs) then n else length xs)
  length-take_is zero xs = ground arith
  length-take_is (suc n) [] = ground arith
  length-take_is (suc n) (x ∷ xs) = step (length-take_is n xs)
    where
      step :
          length (take n xs) ≡ (if leb n (length xs) then n else length xs)
          → suc (length (take n xs))
            ≡ (if leb (suc n) (suc (length xs)) then suc n else suc (length xs))
      step h = ground arith
